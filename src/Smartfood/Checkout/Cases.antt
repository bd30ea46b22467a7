-- ===== src/Smartfood/Checkout/Cases.antt =====
-- What a call that makes or finds an order has passed (smartfood/services/order_service.py,
-- BotOrderService.create).
use alpha_pos_server.Base.{
  ℕ, ◌≡◌, ap, not, ◌||◌, some, Text, get, find_key, Result, err, ok, ok-injective, bind_ok_inv,
  or_raise_inv, raise_if_inv,
}
use alpha_pos_server.Smartfood.Loyalty.{Club, Customer, ClubRefusal}
use alpha_pos_server.Smartfood.Cart.{CartError, Priced, price_cart}
use alpha_pos_server.Smartfood.OrderInput.{text_value}
use alpha_pos_server.Smartfood.Desk.{
  Member, Desk, on_placed, queue_order_status, is_profile_complete,
}
use alpha_pos_server.Smartfood.Checkout.{
  Payload, Clean, CheckoutError, Store, Place, ledger, cart, normalize_payload, check_phone,
  fingerprint_of, is_request, place_of, new_slip, new_order, reserve, with_new_rows, with_job,
  first_request, by_request, create_order, profile_required, bot_closed, no_cashier, no_customer,
}

cart_inv : (r : Result CartError Priced) (priced : Priced) → cart r ≡ ok priced → r ≡ ok priced
cart_inv (err e) priced k = cc
cart_inv (ok x) priced k = ap (λ y. let r : Result CartError Priced = ok y in r) (ok-injective k)

ledger_inv : (r : Result ClubRefusal Club) (club : Club) → ledger r ≡ ok club → r ≡ ok club
ledger_inv (err e) club k = cc
ledger_inv (ok x) club k = ap (λ y. let r : Result ClubRefusal Club = ok y in r) (ok-injective k)

-- The price, the place and the club of a new order, and what the call returns.
pub first_request_inv :
    (store : Store) (now id cid : ℕ) (c : Clean) (m : Member) (customer : Customer)
    (phone fingerprint : Text) (d d' : Desk) (k : ℕ)
    → first_request store now id cid c m customer phone fingerprint d ≡ ok (k, d')
    → (priced : Priced) × (place : Place) × (club : Club) × (price_cart store.catalog store.config
          c.items c.order_type c.points c.tip
          (some customer.points)
        ≡ ok priced)
      × (reserve now cid id priced.points_used d.shop.club ≡ ok club)
      × (let made : ℕ × Desk = (
        id,
        queue_order_status id on_placed (
            with_job store id (
              with_new_rows id cid
                (new_slip cid fingerprint phone c place priced)
                (new_order cid priced)
                club
                d)),
      ) in
          made ≡ (k, d'))
unfolding first_request
first_request_inv store now id cid c m customer phone fingerprint d d' k h =
    let (complete, h1) =
      raise_if_inv _
        (not (is_profile_complete store.is_canonical m) || not (store.is_canonical phone))
        profile_required h in
    let (is_open, h2) = raise_if_inv _ (not store.is_open) bot_closed h1 in
    let (cashier, h3) = raise_if_inv _ (not store.has_cashier) no_cashier h2 in
    let (priced, price, h4) =
      bind_ok_inv _
        (cart (
          price_cart store.catalog store.config c.items c.order_type c.points c.tip
            (some customer.points)))
        h3 in
    let (place, at, h5) = bind_ok_inv _ (place_of cid c.order_type c.address d.addresses) h4 in
    let (club, spent, done) =
      bind_ok_inv _ (ledger (reserve now cid id priced.points_used d.shop.club)) h5 in
    (priced, place, club, cart_inv _ priced price, ledger_inv _ club spent, ok-injective done)

-- The checked payload, the rows of the customer, and the call that was left.
pub create_order_inv :
    (store : Store) (now id cid : ℕ) (p : Payload) (d d' : Desk) (k : ℕ)
    → create_order store now id cid p d ≡ ok (k, d')
    → (c : Clean) × (m : Member) × (customer : Customer) × (normalize_payload
          store.max_item_quantity p
        ≡ ok c)
      × (get cid d.members ≡ some m)
      × (get cid d.shop.club.customers ≡ some customer)
      × (check_phone store p.phone (store.normalize_phone (text_value m.phone)) ≡ ok tt)
      × (by_request store now id cid c m customer
            (store.normalize_phone (text_value m.phone))
            (fingerprint_of store c (store.normalize_phone (text_value m.phone)))
            d
            (find_key (is_request cid c.client) d.slips)
          ≡ ok (k, d'))
unfolding create_order
create_order_inv store now id cid p d d' k h =
    let (c, clean, h1) = bind_ok_inv _ (normalize_payload store.max_item_quantity p) h in
    let (m, member, h2) = or_raise_inv _ (get cid d.members) no_customer h1 in
    let (customer, points, h3) = or_raise_inv _ (get cid d.shop.club.customers) no_customer h2 in
    let phone = store.normalize_phone (text_value m.phone) in
    let (u, checked, h4) = bind_ok_inv _ (check_phone store p.phone phone) h3 in
    (c, m, customer, clean, member, points, unit_ok (check_phone store p.phone phone) u checked, h4)
  where
    unit_ok : (r : Result CheckoutError (Unit {0})) (u : Unit {0}) → r ≡ ok u → r ≡ ok tt
    unit_ok r tt e = e
