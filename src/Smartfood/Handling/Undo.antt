-- ===== src/Smartfood/Handling/Undo.antt =====
-- A checkout and the cancellation of its order (smartfood/services/order_service.py, create and
-- cancel; smartfood/services/loyalty_settlement_service.py).
use mathlib.Core.Path.{subst}
use alpha_pos_server.Base.{
  ℕ, ◌≤◌, ◌≡◌, refl, sym, ap, ◌∙◌, Bool, true, false, not, Option, none, some, ◌∷◌, Text, get,
  get-put_self, find_key, ==_refl, if◌then◌else◌, ok, text_eq, ok-injective, raise_if_inv,
}
use alpha_pos_server.Base.Int.{pos_part}
use alpha_pos_server.Smartfood.Loyalty.{Customer}
use alpha_pos_server.Smartfood.PointSettlement.{canceled, Shop}
use alpha_pos_server.Smartfood.Cart.{Priced, totals}
use alpha_pos_server.Smartfood.Cart.Totals.{price_cart_inv}
use alpha_pos_server.Smartfood.OrderInput.{text_value}
use alpha_pos_server.Smartfood.Desk.{Slip, Member, Desk, queue_order_status, on_canceled, pushed}
use alpha_pos_server.Smartfood.Checkout.{
  Payload, Clean, Store, fingerprint_of, is_request, repeated, new_order, with_job, first_request,
  by_request, create_order, idempotency_conflict,
}
use alpha_pos_server.Smartfood.Checkout.Cases.{first_request_inv, create_order_inv}
use alpha_pos_server.Smartfood.Handling.{Clock, settle_points, with_status, cancel_order}
use alpha_pos_server.Smartfood.Handling.Refunds.{
  Unused, reserved, reserve-takes, canceled_order, canceled-returns, returned-reserved,
  usable-within,
}

-- A shop where the order has just been made.
abbrev Made : ℕ → ℕ → Customer → Shop → Type 0
Made id cid customer shop =
    (priced : Priced) × (priced.points_used ≤ pos_part customer.points)
    × (get id shop.bot_orders ≡ some (new_order cid priced))
    × (get cid shop.club.customers
        ≡ some (record customer { points = reserved priced.points_used customer.points }))
    × Unused id shop.club.txns

job_shop : (store : Store) (id : ℕ) (d : Desk) → (with_job store id d).shop ≡ d.shop
job_shop store id d = by_setting store.auto_dispatch
  where
    by_setting : (b : Bool) → (if b then record d { jobs = id ∷ d.jobs } else d).shop ≡ d.shop
    by_setting true = refl
    by_setting false = refl

first_request-Made :
    (store : Store) (now id cid : ℕ) (c : Clean) (m : Member) (customer : Customer)
    (phone fingerprint : Text) (d d' : Desk) (k : ℕ)
    → first_request store now id cid c m customer phone fingerprint d ≡ ok (k, d')
    → get cid d.shop.club.customers ≡ some customer
    → Unused id d.shop.club.txns
    → Made id cid customer d'.shop
unfolding first_request queue_order_status totals
first_request-Made store now id cid c m customer phone fingerprint d d' k h here unused =
    let (priced, place, club, price, spent, done) =
      first_request_inv store now id cid c m customer phone fingerprint d d' k h in
    let (lines, valid, small, enough, e) =
      price_cart_inv store.catalog store.config c.items c.order_type c.points c.tip
        (some customer.points) priced price in
    let (left, clean) =
      reserve-takes now cid id priced.points_used d.shop.club club customer here spent unused in
    subst (λ x. Made id cid customer x.1.shop) done
      (subst (Made id cid customer) (sym (job_shop store id _)) (
        priced,
        subst (λ x. x.points_used ≤ pos_part customer.points) (sym e)
            (usable-within store.config c.points customer.points),
        get-put_self id (new_order cid priced) d.shop.bot_orders,
        left,
        clean,
      ))

repeated-old :
    (store : Store) (fingerprint : Text) (j id : ℕ) (row : Option Slip) (d d' : Desk)
    → repeated store fingerprint j row d ≡ ok (id, d')
    → (s : Slip) × (row ≡ some s) × (j ≡ id)
unfolding repeated
repeated-old store fingerprint j id none d d' h = cc
repeated-old store fingerprint j id (some s) d d' h =
    let (same, done) =
      raise_if_inv _ (not (text_eq s.fingerprint fingerprint)) idempotency_conflict h in
    (s, refl, ap (λ x. x.0) (ok-injective done))

create_order-Made :
    (store : Store) (now id cid : ℕ) (p : Payload) (d d' : Desk) (customer : Customer)
    → create_order store now id cid p d ≡ ok (id, d')
    → get id d.slips ≡ none
    → get cid d.shop.club.customers ≡ some customer
    → Unused id d.shop.club.txns
    → Made id cid customer d'.shop
unfolding create_order
create_order-Made store now id cid p d d' customer h free here unused =
    let (c, m, found, clean, member, points, phone, h4) =
      create_order_inv store now id cid p d d' id h in
    let same : found ≡ customer = cc in
    by_key c m (find_key (is_request cid c.client) d.slips) (
      subst
        (λ x.
          by_request store now id cid c m x (store.normalize_phone (text_value m.phone))
            (fingerprint_of store c (store.normalize_phone (text_value m.phone))) d
            (find_key (is_request cid c.client) d.slips)
          ≡ ok (id, d'))
        same h4)
  where
    by_key :
        (c : Clean) (m : Member) (o : Option ℕ)
        → by_request store now id cid c m customer
            (store.normalize_phone (text_value m.phone))
            (fingerprint_of store c (store.normalize_phone (text_value m.phone)))
            d
            o
          ≡ ok (id, d')
        → Made id cid customer d'.shop
    by_key c m none e = first_request-Made store now id cid c m customer _ _ d d' id e here unused
    by_key c m (some j) e =
        let (s, old, same) = repeated-old store _ j id (get j d.slips) d d' e in
        let taken = sym old ∙ ap (λ x. get x d.slips) same ∙ free in cc

-- A checkout that makes a new order, under a key that no table uses yet, can be canceled by the same
-- customer right after it, at any later time, whatever the core says of tenders: the cancellation
-- succeeds, and the member then has exactly the points, and the rest of the row, from before the
-- checkout.
pub checkout_then_cancel :
    (store : Store) (clock : Clock) (now id cid : ℕ) (p : Payload) (d d' : Desk)
    (customer : Customer)
    → create_order store now id cid p d ≡ ok (id, d')
    → get id d.slips ≡ none
    → get cid d.shop.club.customers ≡ some customer
    → Unused id d.shop.club.txns
    → (end : Desk) × (cancel_order clock cid id d' ≡ ok end)
      × (get cid end.shop.club.customers ≡ some customer)
unfolding cancel_order settle_points queue_order_status
checkout_then_cancel store clock now id cid p d d' customer h free here unused =
    let (priced, within, row, left, clean) =
      create_order-Made store now id cid p d d' customer h free here unused in
    let (r, settles, back) =
      canceled-returns clock.now clock.has_tender_issues cid id priced
        (with_status id canceled (new_order cid priced) d').shop _
        (get-put_self id (canceled_order cid priced) d'.shop.bot_orders) left clean in
    let changed = with_status id canceled (new_order cid priced) d' in
    (
      queue_order_status id on_canceled (pushed id on_canceled (record changed { shop = r.0 })),
      rw (row, ==_refl cid, settles) refl,
      back
          ∙ ap (λ x. some (record customer { points = x }))
              (returned-reserved priced.points_used customer.points within),
    )
