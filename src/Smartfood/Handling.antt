-- ===== src/Smartfood/Handling.antt =====
-- What happens to a bot order after its creation: the customer's cancellation
-- (smartfood/services/order_service.py, cancel), the rejection and the dispatch that makes an order
-- of the core (smartfood/services/dispatch_service.py).
-- Each call is one transaction. A refusal leaves the tables as they were: it stands before the first
-- write or rolls the transaction back, and so does an error that the settlement of points raises.
-- The description of the till's order, the numbers that the core draws for it, the client row of the
-- core and the assignment of a courier after the commit are left out.
pub mod Board
pub mod Runs
pub mod Refunds
pub mod Undo
mod Examples
use alpha_pos_server.Base.{
  ℕ, Bool, true, false, not, ◌&&◌, ◌||◌, Option, none, some, List, [], ◌∷◌, Text, take_chars, strip,
  is_blank, Table, get, put, ◌==◌, if◌then◌else◌, is_some, Result, err, ok, ◌>>=◌, ◌>>◌, raise_if,
  or_raise, text,
}
use alpha_pos_server.Base.Int.{ℤ, pos, ◌+ℤ◌}
use alpha_pos_server.Smartfood.Loyalty.{ClubRefusal}
use alpha_pos_server.Smartfood.PointSettlement.{
  BotStatus, pending, dispatched, rejected, canceled, BotOrder, PosOrder, pos_other, Shop,
  reconcile_bot_order_loyalty,
}
use alpha_pos_server.Smartfood.Cart.{OrderType, delivery, pickup, is_pickup, Line, sum_lines}
use alpha_pos_server.Smartfood.Desk.{
  Slip, Member, TillStatus, till_preparing, till_ready, TillLine, TillOrder, OrderEvent, on_ready,
  on_dispatched, on_canceled, on_rejected, Desk, queue_order_status, notify_customer, pushed,
}
use alpha_pos_server.Smartfood.Checkout.{is_pending}

pub data HandlingError : Type 0 where
  order_not_found cannot_cancel no_items identity_invalid no_shift stock_refused : HandlingError
  already_handled : BotStatus → HandlingError
  points_refused : ClubRefusal → HandlingError

-- The clock, and the core's check of the tender of an order.
pub record Clock : Type 0 where
  pub now : ℕ
  pub has_tender_issues : ℕ → Bool

abbrev pub settled_shop : Desk → Result ClubRefusal (Shop × Bool) → Result HandlingError Desk
settled_shop d (err e) = err (points_refused e)
settled_shop d (ok r) = ok (record d { shop = r.0 })

-- The settlement of the points of an order.
unfoldable pub settle_points : Clock → ℕ → Desk → Result HandlingError Desk
settle_points c id d =
    settled_shop d (reconcile_bot_order_loyalty c.now c.has_tender_issues id d.shop)

abbrev pub with_status : ℕ → BotStatus → BotOrder → Desk → Desk
with_status id st o d = record d {
  shop = record d.shop { bot_orders = put id (record o { status = st }) d.shop.bot_orders };
}

abbrev pub own_order : ℕ → Option BotOrder → Option BotOrder
own_order cid none = none
own_order cid (some o) = if o.customer == cid then some o else none

-- `BotOrderService.cancel`, by a customer.
unfoldable pub cancel_order : Clock → ℕ → ℕ → Desk → Result HandlingError Desk
cancel_order c cid id d = do
  o ← or_raise (own_order cid (get id d.shop.bot_orders)) order_not_found
  raise_if (not (is_pending o.status)) cannot_cancel
  settled ← settle_points c id (with_status id canceled o d)
  ok (queue_order_status id on_canceled (pushed id on_canceled settled))

abbrev pub on_slip : ℕ → (Slip → Slip) → Option Slip → Table Slip → Table Slip
on_slip id f none t = t
on_slip id f (some s) t = put id (f s) t

abbrev pub rejected_slip : Text → Option ℕ → Slip → Slip
rejected_slip reason operator s = record s {
  reject_reason = take_chars 200 reason;
  handled_by = operator;
}

abbrev pub with_slip : ℕ → (Slip → Slip) → Desk → Desk
with_slip id f d = record d { slips = on_slip id f (get id d.slips) d.slips }

-- `DispatchService.reject`
unfoldable pub reject_order : Clock → ℕ → Text → Option ℕ → Desk → Result HandlingError Desk
reject_order c id reason operator d = do
  o ← or_raise (get id d.shop.bot_orders) order_not_found
  raise_if (not (is_pending o.status)) (already_handled o.status)
  settled ←
      settle_points c id
        (with_slip id (rejected_slip reason operator) (with_status id rejected o d))
  ok (notify_customer id on_rejected settled)

-- The settings of the stock, and what its handler answers; `none` where it raises.
pub record Stock : Type 0 where
  pub is_enabled : Bool
  pub deducts_on_sale : Bool  -- auto_deduct_on_sale
  pub has_location : Bool
  pub reserves_on_create : Bool
  pub deducts_on_preparing : Bool
  pub handler : Option Bool

abbrev pub handler_passes : Option Bool → Bool
handler_passes none = false
handler_passes (some b) = b

-- The stock lets the sale through.
unfoldable pub stock_passes : Stock → Bool
stock_passes s =
    let active = s.is_enabled && s.deducts_on_sale in
    not active
    || not (not s.has_location && (s.reserves_on_create || s.deducts_on_preparing))
      && handler_passes s.handler

-- What a dispatch reads of the core: the branch of the cashier's active shift, which products need
-- no kitchen, the check of a phone number, and the stock.
pub record Till : Type 0 where
  pub shift : ℕ → Option Text
  pub is_instant : ℕ → Bool
  pub is_canonical : Text → Bool
  pub stock : Stock

unfoldable pub has_identity : Till → Member → Slip → Bool
has_identity till m s =
    is_some m.confirmed_at
    && not (is_blank (strip m.first_name))
    && not (is_blank (strip m.last_name))
    && till.is_canonical s.phone
    && (is_pickup s.order_type
        || not (is_blank (strip s.address_text)) && is_some s.lat && is_some s.lng)

abbrev pub has_lines : List Line → Bool
has_lines [] = false
has_lines (l ∷ ls) = true

abbrev pub till_lines : Till → ℕ → List Line → List TillLine
till_lines till now [] = []
till_lines till now (l ∷ ls) =
    record {
      product = l.product;
      quantity = l.quantity;
      price = l.unit_price;
      ready_at = if till.is_instant l.product then some now else none;
    }
    ∷ till_lines till now ls

abbrev pub any_kitchen : Till → List Line → Bool
any_kitchen till [] = false
any_kitchen till (l ∷ ls) = not (till.is_instant l.product) || any_kitchen till ls

abbrev pub till_order : Till → ℕ → ℕ → Text → Slip → TillOrder
till_order till now cashier branch s = record {
  cashier = cashier;
  branch = strip branch;
  order_type = s.order_type;
  phone = s.phone;
  address = s.address_text;
  subtotal = sum_lines s.lines;
  discount = s.discount;
  total = s.total;
  status = if any_kitchen till s.lines then till_preparing else till_ready;
  ready_at = if any_kitchen till s.lines then none else some now;
  lines = till_lines till now s.lines;
}

abbrev pub core_order : PosOrder
core_order = record { is_deleted = false; status = pos_other; is_paid = false; paid_at = none }

abbrev pub dispatched_row : ℕ → BotOrder → BotOrder
dispatched_row key o = record o { status = dispatched; pos_order = some key }

abbrev pub dispatched_slip : ℕ → ℕ → Option ℕ → Slip → Slip
dispatched_slip now cashier operator s = record s {
  cashier = some cashier;
  handled_by = operator;
  dispatched_at = some now;
}

-- The writes of a dispatch.
abbrev pub linked : Till → ℕ → ℕ → ℕ → ℕ → Option ℕ → Text → BotOrder → Slip → Desk → Desk
linked till now id key cashier operator branch o s d = record d {
  shop = record d.shop {
    bot_orders = put id (dispatched_row key o) d.shop.bot_orders;
    pos_orders = put key core_order d.shop.pos_orders;
  };
  slips = put id (dispatched_slip now cashier operator s) d.slips;
  till_orders = put key (till_order till now cashier branch s) d.till_orders;
}

abbrev pub ready_notice : Bool → ℕ → Desk → Desk
ready_notice true id d = d
ready_notice false id d = notify_customer id on_ready d

-- `DispatchService.dispatch`, with the key that the core gives to its order.
unfoldable pub dispatch_order : Till → ℕ → ℕ → ℕ → ℕ → Option ℕ → Desk → Result HandlingError Desk
dispatch_order till now key id cashier operator d = do
  o ← or_raise (get id d.shop.bot_orders) order_not_found
  raise_if (not (is_pending o.status)) (already_handled o.status)
  s ← or_raise (get id d.slips) order_not_found
  m ← or_raise (get o.customer d.members) order_not_found
  raise_if (not (has_identity till m s)) identity_invalid
  branch ← or_raise (till.shift cashier) no_shift
  raise_if (not (has_lines s.lines)) no_items
  raise_if (not (stock_passes till.stock)) stock_refused
  ok (
      ready_notice (any_kitchen till s.lines) id
        (notify_customer id on_dispatched (linked till now id key cashier operator branch o s d)))

-- `DispatchService.auto_dispatch`: without a cashier at a till the order is rejected.
unfoldable pub auto_dispatch : Till → Clock → ℕ → ℕ → Option ℕ → Desk → Result HandlingError Desk
auto_dispatch till c key id none d =
    reject_order c id (text "No POS terminal is online to accept the order right now") none d
auto_dispatch till c key id (some cashier) d = dispatch_order till c.now key id cashier none d
