-- ===== src/Smartfood/Checkout.antt =====
-- The creation of a bot order (smartfood/services/order_service.py, BotOrderService.create).
-- The call is one transaction under the lock of the customer's row. Every refusal stands before the
-- first write.
pub mod Cases
pub mod Repeats
use alpha_pos_server.Base.{
  ℕ, Bool, true, false, not, ◌&&◌, ◌||◌, Option, none, some, List, [], ◌∷◌, ◌++◌, Text, text,
  text_eq, Table, get, put, find_key, is_key, ◌==◌, if◌then◌else◌, is_some, Result, err, ok, ◌>>=◌,
  ◌>>◌, raise_if, or_raise,
}
use alpha_pos_server.Base.Int.{ℤ, pos, neg}
use alpha_pos_server.Smartfood.Loyalty.{
  Club, Customer, Change, ClubRefusal, spend_order, record_points,
}
use alpha_pos_server.Smartfood.PointSettlement.{
  BotStatus, pending, BotOrder, Shop, order_change, order_code,
}
use alpha_pos_server.Smartfood.Cart.{
  Catalog, Config, Item, OrderType, delivery, pickup, is_pickup, CartError, Priced, price_cart,
}
use alpha_pos_server.Smartfood.OrderInput.{
  Scalar, text_value, boolean, InputError, RawCart, RawTip, PayBy, is_unset, normalize_cart_items,
  normalize_points, normalize_address_id, normalize_tip, normalize_note, normalize_order_type,
  normalize_payment_method,
}
use alpha_pos_server.Smartfood.Desk.{
  Slip, Member, SavedAddress, Desk, on_placed, queue_order_status, ensure_job, is_profile_complete,
}

pub record Payload : Type 0 where
  pub client_order_id : Option ℕ  -- the UUID, if the text is one
  pub items : RawCart
  pub order_type : Scalar
  pub address_id : Scalar
  pub phone : Scalar
  pub note : Scalar
  pub tip : RawTip
  pub points_used : Scalar
  pub payment_method : Scalar

-- What the checks return.
pub record Clean : Type 0 where
  pub client : ℕ
  pub order_type : OrderType
  pub payment : PayBy
  pub address : Option ℕ
  pub items : List Item
  pub tip : ℤ
  pub points : ℕ
  pub note : Text

pub data CheckoutError : Type 0 where
  invalid_client_order_id invalid_phone phone_mismatch idempotency_conflict : CheckoutError
  profile_required bot_closed no_cashier address_not_found location_required : CheckoutError
  no_customer : CheckoutError
  bad_input : InputError → CheckoutError
  bad_cart : CartError → CheckoutError
  ledger_refused : ClubRefusal → CheckoutError

-- What the call reads outside of its tables: the settings, the catalogue, the state of the store,
-- the phone numbers of the core, and the SHA-256 of the canonical JSON of the checked fields.
pub record Store : Type 0 where
  pub max_item_quantity : ℤ
  pub auto_dispatch : Bool
  pub catalog : Catalog
  pub config : Config
  pub is_open : Bool
  pub has_cashier : Bool
  pub normalize_phone : Scalar → Text
  pub is_canonical : Text → Bool
  pub fingerprint : List Item → OrderType → Option ℕ → Text → Text → ℤ → ℕ → PayBy → Text

abbrev pub input : {A : Type 0} → Result InputError A → Result CheckoutError A
input (err e) = err (bad_input e)
input (ok a) = ok a

abbrev pub cart : {A : Type 0} → Result CartError A → Result CheckoutError A
cart (err e) = err (bad_cart e)
cart (ok a) = ok a

abbrev pub ledger : {A : Type 0} → Result ClubRefusal A → Result CheckoutError A
ledger (err e) = err (ledger_refused e)
ledger (ok a) = ok a

unfoldable pub normalize_payload : ℤ → Payload → Result CheckoutError Clean
normalize_payload setting p = do
  client ← or_raise p.client_order_id invalid_client_order_id
  order_type ← input (normalize_order_type p.order_type)
  payment ← input (normalize_payment_method p.payment_method)
  address ← input (normalize_address_id p.address_id (not (is_pickup order_type)))
  items ← input (normalize_cart_items setting p.items)
  tip ← input (normalize_tip p.tip)
  points ← input (normalize_points p.points_used)
  note ← input (normalize_note p.note)
  ok (record {
    client = client;
    order_type = order_type;
    payment = payment;
    address = address;
    items = items;
    tip = tip;
    points = points;
    note = note;
  })

abbrev pub is_boolean : Scalar → Bool
is_boolean (boolean b) = true
is_boolean _ = false

-- A phone of the payload is that of the account.
unfoldable pub check_phone : Store → Scalar → Text → Result CheckoutError (Unit {0})
check_phone store value phone =
    if is_unset value
    then ok tt
    else (raise_if (is_boolean value) invalid_phone
        >> raise_if (not (text_eq (store.normalize_phone value) phone)) phone_mismatch)

abbrev pub fingerprint_of : Store → Clean → Text → Text
fingerprint_of store c phone =
    store.fingerprint c.items c.order_type c.address phone c.note c.tip c.points c.payment

abbrev pub is_request : ℕ → ℕ → Slip → Bool
is_request cid client s = s.owner == cid && is_key client s.client_order_id

abbrev pub is_pending : BotStatus → Bool
is_pending pending = true
is_pending _ = false

abbrev pub is_pending_row : Option BotOrder → Bool
is_pending_row none = false
is_pending_row (some o) = is_pending o.status

-- A repeated request: the same payload finds its order, and another one is refused.
unfoldable pub repeated : Store → Text → ℕ → Option Slip → Desk → Result CheckoutError (ℕ × Desk)
repeated store fingerprint id none d = err idempotency_conflict
repeated store fingerprint id (some s) d = do
  raise_if (not (text_eq s.fingerprint fingerprint)) idempotency_conflict
  ok (
    id,
    if is_pending_row (get id d.shop.bot_orders) && store.auto_dispatch
        then record d { jobs = ensure_job id d.jobs }
        else d,
  )

-- Where a delivery goes.
pub record Place : Type 0 where
  pub key : Option ℕ
  pub line : Text
  pub lat : Option ℤ
  pub lng : Option ℤ

abbrev pub own_address : ℕ → Option SavedAddress → Option SavedAddress
own_address cid none = none
own_address cid (some a) = if a.owner == cid then some a else none

abbrev pub address_row : Option ℕ → Table SavedAddress → Option SavedAddress
address_row none t = none
address_row (some k) t = get k t

unfoldable pub place_of : ℕ → OrderType → Option ℕ → Table SavedAddress → Result CheckoutError Place
place_of cid pickup key t = ok (record { key = none; line = []; lat = none; lng = none })
place_of cid delivery key t = do
  a ← or_raise (own_address cid (address_row key t)) address_not_found
  raise_if (not (is_some a.lat && is_some a.lng)) location_required
  ok (record { key = key; line = a.line; lat = a.lat; lng = a.lng })

abbrev pub new_slip : ℕ → Text → Text → Clean → Place → Priced → Slip
new_slip cid fingerprint phone c place priced = record {
  owner = cid;
  client_order_id = some c.client;
  fingerprint = fingerprint;
  order_type = c.order_type;
  address = place.key;
  address_text = place.line;
  lat = place.lat;
  lng = place.lng;
  phone = phone;
  note = c.note;
  subtotal = priced.subtotal;
  delivery_fee = priced.delivery_fee;
  discount = priced.discount;
  tip = priced.tip;
  total = priced.total;
  payment = c.payment;
  lines = priced.lines;
  cashier = none;
  handled_by = none;
  dispatched_at = none;
  reject_reason = [];
}

abbrev pub new_order : ℕ → Priced → BotOrder
new_order cid priced = record {
  customer = cid;
  status = pending;
  pos_order = none;
  points_used = pos priced.points_used;
  points_earned = priced.points_earned;
  earned_settled_at = none;
  spend_restored_at = none;
  earn_reversed_at = none;
}

abbrev pub spend_change : ℕ → ℕ → Change
spend_change id points =
    order_change id spend_order (neg (pos points)) (text "Redeemed on order " ++ order_code id)

-- The points that the order uses are spent at once.
unfoldable pub reserve : ℕ → ℕ → ℕ → ℕ → Club → Result ClubRefusal Club
reserve now cid id points club =
    if points == 0
    then ok club
    else (record_points now cid (spend_change id points) club >>= λ r. ok r.0)

-- The rows of a new order.
abbrev pub with_new_rows : ℕ → ℕ → Slip → BotOrder → Club → Desk → Desk
with_new_rows id cid slip row club d = record d {
  shop = record d.shop { club = club; bot_orders = put id row d.shop.bot_orders };
  slips = put id slip d.slips;
}

abbrev pub with_job : Store → ℕ → Desk → Desk
with_job store id d = if store.auto_dispatch then record d { jobs = id ∷ d.jobs } else d

-- A request that is new.
unfoldable pub first_request :
    Store
    → ℕ
    → ℕ
    → ℕ
    → Clean
    → Member
    → Customer
    → Text
    → Text
    → Desk
    → Result CheckoutError (ℕ × Desk)
first_request store now id cid c m customer phone fingerprint d = do
  raise_if (not (is_profile_complete store.is_canonical m) || not (store.is_canonical phone))
      profile_required
  raise_if (not store.is_open) bot_closed
  raise_if (not store.has_cashier) no_cashier
  priced ← cart (
      price_cart store.catalog store.config c.items c.order_type c.points c.tip
        (some customer.points))
  place ← place_of cid c.order_type c.address d.addresses
  club ← ledger (reserve now cid id priced.points_used d.shop.club)
  ok (
    id,
    queue_order_status id on_placed (
        with_job store id (
          with_new_rows id cid (new_slip cid fingerprint phone c place priced)
            (new_order cid priced) club d)),
  )

abbrev pub by_request :
    Store
    → ℕ
    → ℕ
    → ℕ
    → Clean
    → Member
    → Customer
    → Text
    → Text
    → Desk
    → Option ℕ
    → Result CheckoutError (ℕ × Desk)
by_request store now id cid c m customer phone fingerprint d (some k) =
    repeated store fingerprint k (get k d.slips) d
by_request store now id cid c m customer phone fingerprint d none =
    first_request store now id cid c m customer phone fingerprint d

-- `BotOrderService.create`, with the key that the table gives to a new row.
unfoldable pub create_order : Store → ℕ → ℕ → ℕ → Payload → Desk → Result CheckoutError (ℕ × Desk)
create_order store now id cid p d = do
  c ← normalize_payload store.max_item_quantity p
  m ← or_raise (get cid d.members) no_customer
  customer ← or_raise (get cid d.shop.club.customers) no_customer
  let phone = store.normalize_phone (text_value m.phone)
  check_phone store p.phone phone
  by_request store now id cid c m customer phone (fingerprint_of store c phone) d
      (find_key (is_request cid c.client) d.slips)
