-- ===== src/Smartfood/Handling/Board.antt =====
-- The life of bot orders as a board of orders and their statuses
-- (smartfood/services/order_service.py, smartfood/services/dispatch_service.py).
use alpha_pos_server.Base.{
  ℕ, ◌≡◌, refl, sym, ap, ◌∙◌, Bool, true, false, not, Option, none, some, Text, Table, get, put,
  get-put, ◌==◌, if◌then◌else◌, Bool-cases, inl, inr, arith, Result, err, ok, ok-injective,
  bind_ok_inv, or_raise_inv, raise_if_inv, not-eq-false, ==→eq, none-ne-some,
}
use alpha_pos_server.Smartfood.Loyalty.{ClubRefusal}
use alpha_pos_server.Smartfood.PointSettlement.{
  BotStatus, pending, dispatched, rejected, canceled, BotOrder, Shop, Work, adopt, apply_outcome,
  reconcile_row, reconcile_bot_order_loyalty,
}
use alpha_pos_server.Smartfood.PointSettlement.Steps.{adopt-Quiet}
use alpha_pos_server.Smartfood.PointSettlement.Once.{apply_outcome-Kept}
use alpha_pos_server.Smartfood.Desk.{Desk, queue_order_status, notify_customer}
use alpha_pos_server.Smartfood.Checkout.{is_pending}
use alpha_pos_server.Smartfood.Handling.{
  Clock, settled_shop, settle_points, with_status, cancel_order, reject_order, Till, dispatch_order,
  auto_dispatch, own_order, order_not_found, ready_notice, cannot_cancel, already_handled,
  with_slip, has_identity, rejected_slip, identity_invalid, no_shift, has_lines, no_items,
  stock_passes, stock_refused, any_kitchen, dispatched_row,
}

-- The abstract view: which orders there are, and their statuses.
abbrev pub Board : Type 0
Board = ℕ → Option BotStatus

abbrev pub phase_of : Option BotOrder → Option BotStatus
phase_of none = none
phase_of (some o) = some o.status

abbrev pub board_of : Desk → Board
board_of d k = phase_of (get k d.shop.bot_orders)

abbrev pub with_phase : ℕ → BotStatus → Board → Board
with_phase id st b k = if k == id then some st else b k

-- What may happen on the board: nothing, a new order, or the one decision on a pending order.
pub data BoardStep : Board → Board → Type 0 where
  stay : {b b' : Board} → ((k : ℕ) → b' k ≡ b k) → BoardStep b b'
  open_order :
      {b b' : Board} (id : ℕ)
      → b id ≡ none
      → ((k : ℕ) → b' k ≡ with_phase id pending b k)
      → BoardStep b b'
  decide_order :
      {b b' : Board} (id : ℕ) (st : BotStatus)
      → b id ≡ some pending
      → is_pending st ≡ false
      → ((k : ℕ) → b' k ≡ with_phase id st b k)
      → BoardStep b b'

pub phase-put :
    (k id : ℕ) (o : BotOrder) (t : Table BotOrder)
    → phase_of (get k (put id o t)) ≡ (if k == id then some o.status else phase_of (get k t))
phase-put k id o t = ground (arith, get-put k id o t)

adopted_status :
    (id : ℕ) (shop : Shop) (o : BotOrder) → (adopt id shop.club o).row.status ≡ o.status
unfolding adopt
adopted_status id shop o = refl

-- A settlement of points changes no status.
reconcile-keeps :
    (now : ℕ) (has_issues : ℕ → Bool) (id : ℕ) (shop : Shop) (r : Shop × Bool)
    → reconcile_bot_order_loyalty now has_issues id shop ≡ ok r
    → (k : ℕ) → phase_of (get k r.0.bot_orders) ≡ phase_of (get k shop.bot_orders)
unfolding reconcile_bot_order_loyalty reconcile_row adopt
reconcile-keeps now has_issues id shop r h k = by_row (get id shop.bot_orders) refl h
  where
    saved :
        (o : BotOrder) (w : Work) (changed : Bool)
        → get id shop.bot_orders ≡ some o
        → w.row.status ≡ o.status
        → phase_of (get k (if changed then put id w.row shop.bot_orders else shop.bot_orders))
          ≡ phase_of (get k shop.bot_orders)
    saved o w false found same = refl
    saved o w true found same = elim (Bool-cases (k == id)) [
      | inl e ↦
          phase-put k id w.row shop.bot_orders
          ∙ rw e (
              ap some same
              ∙ sym (ap phase_of (ap (λ x. get x shop.bot_orders) (==→eq k id e) ∙ found)))
      | inr e ↦ phase-put k id w.row shop.bot_orders ∙ rw e refl
    ]

    by_row :
        (o : Option BotOrder)
        → get id shop.bot_orders ≡ o
        → reconcile_row now has_issues id o shop ≡ ok r
        → phase_of (get k r.0.bot_orders) ≡ phase_of (get k shop.bot_orders)
    by_row none found e = ap (λ x. phase_of (get k x.0.bot_orders)) (sym (ok-injective e))
    by_row (some o) found e =
        let (w, applied, done) =
          bind_ok_inv _ (apply_outcome now has_issues id shop.pos_orders (adopt id shop.club o))
            e in
        let kept =
          (apply_outcome-Kept now has_issues id shop.pos_orders (adopt id shop.club o) w
            (adopt-Quiet id shop.club o) applied).0 in
        ap (λ x. phase_of (get k x.0.bot_orders)) (sym (ok-injective done))
        ∙ saved o w w.changed found (kept.1 ∙ adopted_status id shop o)

pub settle_points-keeps :
    (c : Clock) (id : ℕ) (d d' : Desk)
    → settle_points c id d ≡ ok d'
    → (k : ℕ) → board_of d' k ≡ board_of d k
unfolding settle_points
settle_points-keeps c id d d' h k =
    by_result (reconcile_bot_order_loyalty c.now c.has_tender_issues id d.shop) refl h
  where
    by_result :
        (r : Result ClubRefusal (Shop × Bool))
        → reconcile_bot_order_loyalty c.now c.has_tender_issues id d.shop ≡ r
        → settled_shop d r ≡ ok d'
        → board_of d' k ≡ board_of d k
    by_result (err e) found done = cc
    by_result (ok r) found done =
        ap (λ x. board_of x k) (sym (ok-injective done))
        ∙ reconcile-keeps c.now c.has_tender_issues id d.shop r found k

pending_is : (st : BotStatus) → is_pending st ≡ true → st ≡ pending
pending_is pending h = refl
pending_is dispatched h = cc
pending_is rejected h = cc
pending_is canceled h = cc

on_board :
    (d : Desk) (id : ℕ) (o : BotOrder)
    → get id d.shop.bot_orders ≡ some o
    → is_pending o.status ≡ true
    → board_of d id ≡ some pending
on_board d id o row open_row =
    ap phase_of row
    ∙ ap (λ st. let p : Option BotStatus = some st in p) (pending_is o.status open_row)

own_order_inv :
    (cid : ℕ) (row : Option BotOrder) (o : BotOrder) → own_order cid row ≡ some o → row ≡ some o
own_order_inv cid none o h = none-ne-some h
own_order_inv cid (some q) o h = by_owner (q.customer == cid) h
  where
    by_owner :
        (b : Bool)
        → (if b then some q else none) ≡ some o
        → let row : Option BotOrder = some q in row ≡ some o
    by_owner true e = e
    by_owner false e = none-ne-some e

pub cancel_order-decides :
    (c : Clock) (cid id : ℕ) (d d' : Desk)
    → cancel_order c cid id d ≡ ok d'
    → BoardStep (board_of d) (board_of d')
unfolding cancel_order queue_order_status
cancel_order-decides c cid id d d' h =
    let (o, own, h1) =
      or_raise_inv _ (own_order cid (get id d.shop.bot_orders)) order_not_found h in
    let row = own_order_inv cid (get id d.shop.bot_orders) o own in
    let (open_row, h2) = raise_if_inv _ (not (is_pending o.status)) cannot_cancel h1 in
    let (settled, points, done) =
      bind_ok_inv _ (settle_points c id (with_status id canceled o d)) h2 in
    decide_order id canceled (on_board d id o row (not-eq-false open_row)) refl (λ k.
      ap (λ x. board_of x k) (sym (ok-injective done))
      ∙ settle_points-keeps c id (with_status id canceled o d) settled points k
      ∙ phase-put k id (record o { status = canceled }) d.shop.bot_orders)

pub reject_order-decides :
    (c : Clock) (id : ℕ) (reason : Text) (operator : Option ℕ) (d d' : Desk)
    → reject_order c id reason operator d ≡ ok d'
    → BoardStep (board_of d) (board_of d')
unfolding reject_order queue_order_status notify_customer
reject_order-decides c id reason operator d d' h =
    let (o, row, h1) = or_raise_inv _ (get id d.shop.bot_orders) order_not_found h in
    let (open_row, h2) = raise_if_inv _ (not (is_pending o.status)) (already_handled o.status) h1 in
    let changed = with_slip id (rejected_slip reason operator) (with_status id rejected o d) in
    let (settled, points, done) = bind_ok_inv _ (settle_points c id changed) h2 in
    decide_order id rejected (on_board d id o row (not-eq-false open_row)) refl (λ k.
      ap (λ x. board_of x k) (sym (ok-injective done))
      ∙ settle_points-keeps c id changed settled points k
      ∙ phase-put k id (record o { status = rejected }) d.shop.bot_orders)

ready_notice-board :
    (b : Bool) (id : ℕ) (d : Desk) (k : ℕ) → board_of (ready_notice b id d) k ≡ board_of d k
unfolding notify_customer queue_order_status
ready_notice-board true id d k = refl
ready_notice-board false id d k = refl

pub dispatch_order-decides :
    (till : Till) (now key id cashier : ℕ) (operator : Option ℕ) (d d' : Desk)
    → dispatch_order till now key id cashier operator d ≡ ok d'
    → BoardStep (board_of d) (board_of d')
unfolding dispatch_order queue_order_status notify_customer
dispatch_order-decides till now key id cashier operator d d' h =
    let (o, row, h1) = or_raise_inv _ (get id d.shop.bot_orders) order_not_found h in
    let (open_row, h2) = raise_if_inv _ (not (is_pending o.status)) (already_handled o.status) h1 in
    let (s, slip, h3) = or_raise_inv _ (get id d.slips) order_not_found h2 in
    let (m, member, h4) = or_raise_inv _ (get o.customer d.members) order_not_found h3 in
    let (known, h5) = raise_if_inv _ (not (has_identity till m s)) identity_invalid h4 in
    let (branch, shift, h6) = or_raise_inv _ (till.shift cashier) no_shift h5 in
    let (filled, h7) = raise_if_inv _ (not (has_lines s.lines)) no_items h6 in
    let (stocked, done) = raise_if_inv _ (not (stock_passes till.stock)) stock_refused h7 in
    decide_order id dispatched (on_board d id o row (not-eq-false open_row)) refl (λ k.
      ap (λ x. board_of x k) (sym (ok-injective done))
      ∙ ready_notice-board (any_kitchen till s.lines) id _ k
      ∙ phase-put k id (dispatched_row key o) d.shop.bot_orders)

pub auto_dispatch-decides :
    (till : Till) (c : Clock) (key id : ℕ) (cashier : Option ℕ) (d d' : Desk)
    → auto_dispatch till c key id cashier d ≡ ok d'
    → BoardStep (board_of d) (board_of d')
unfolding auto_dispatch
auto_dispatch-decides till c key id none d d' h = reject_order-decides c id _ none d d' h
auto_dispatch-decides till c key id (some cashier) d d' h =
    dispatch_order-decides till c.now key id cashier none d d' h
