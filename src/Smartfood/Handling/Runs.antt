-- ===== src/Smartfood/Handling/Runs.antt =====
-- Sequences of calls on bot orders (smartfood/services/order_service.py,
-- smartfood/services/dispatch_service.py, smartfood/services/loyalty_settlement_service.py).
use alpha_pos_server.Smartfood.OrderInput.{text_value}
use mathlib.Core.Path.{subst}
use alpha_pos_server.Base.{
  is_ok, err, some_inv, inl, inr, ◌==◌, ◌∷◌, ℕ, ◌≡◌, refl, sym, ap, ◌∙◌, Bool, true, false, not,
  ◌&&◌, Option, none, some, Text, get, find_key, if◌then◌else◌, ok, ok-injective, raise_if_inv,
  text_eq, Bool-cases, true-ne-false, ==→eq,
}
use alpha_pos_server.Smartfood.PointSettlement.{BotStatus, pending, BotOrder}
use alpha_pos_server.Smartfood.Loyalty.{Customer}
use alpha_pos_server.Smartfood.Desk.{Slip, Member, Desk, queue_order_status, ensure_job}
use alpha_pos_server.Smartfood.Checkout.{
  Payload, Clean, Store, fingerprint_of, is_request, is_pending, is_pending_row, repeated,
  first_request, by_request, create_order, with_job, idempotency_conflict, new_order,
}
use alpha_pos_server.Smartfood.Checkout.Cases.{first_request_inv, create_order_inv}
use alpha_pos_server.Smartfood.Handling.{
  already_handled, Clock, settle_points, cancel_order, reject_order, Till, dispatch_order,
  auto_dispatch,
}
use alpha_pos_server.Smartfood.Handling.Board.{
  decide_order, Board, BoardStep, board_of, stay, open_order, phase_of, phase-put,
  settle_points-keeps, cancel_order-decides, reject_order-decides, dispatch_order-decides,
  auto_dispatch-decides, with_phase,
}

repeated-stays :
    (store : Store) (fingerprint : Text) (id : ℕ) (row : Option Slip) (d d' : Desk) (k : ℕ)
    → repeated store fingerprint id row d ≡ ok (k, d')
    → (j : ℕ) → board_of d' j ≡ board_of d j
unfolding repeated
repeated-stays store fingerprint id none d d' k h j = cc
repeated-stays store fingerprint id (some s) d d' k h j =
    let (same, done) =
      raise_if_inv _ (not (text_eq s.fingerprint fingerprint)) idempotency_conflict h in
    ap (λ x. board_of x.1 j) (sym (ok-injective done))
    ∙ by_test (is_pending_row (get id d.shop.bot_orders) && store.auto_dispatch)
  where
    by_test :
        (b : Bool)
        → board_of (if b then record d { jobs = ensure_job id d.jobs } else d) j ≡ board_of d j
    by_test true = refl
    by_test false = refl

with_job-board :
    (store : Store) (id : ℕ) (d : Desk) (k : ℕ) → board_of (with_job store id d) k ≡ board_of d k
with_job-board store id d k = by_setting store.auto_dispatch
  where
    by_setting :
        (b : Bool) → board_of (if b then record d { jobs = id ∷ d.jobs } else d) k ≡ board_of d k
    by_setting true = refl
    by_setting false = refl

-- What a first request has passed and written.
first_request-opens :
    (store : Store) (now id cid : ℕ) (c : Clean) (m : Member) (customer : Customer)
    (phone fingerprint : Text) (d d' : Desk) (k : ℕ)
    → first_request store now id cid c m customer phone fingerprint d ≡ ok (k, d')
    → get id d.shop.bot_orders ≡ none
    → BoardStep (board_of d) (board_of d')
unfolding first_request queue_order_status
first_request-opens store now id cid c m customer phone fingerprint d d' k h free =
    let (priced, place, club, price, spent, done) =
      first_request_inv store now id cid c m customer phone fingerprint d d' k h in
    open_order id (ap phase_of free) (λ j.
      ap (λ x. board_of x.1 j) (sym done)
      ∙ with_job-board store id _ j
      ∙ phase-put j id (new_order cid priced) d.shop.bot_orders)

create_order-opens :
    (store : Store) (now id cid : ℕ) (p : Payload) (d d' : Desk) (k : ℕ)
    → create_order store now id cid p d ≡ ok (k, d')
    → get id d.shop.bot_orders ≡ none
    → BoardStep (board_of d) (board_of d')
unfolding create_order
create_order-opens store now id cid p d d' k h free =
    let (c, m, customer, clean, member, points, phone, h4) =
      create_order_inv store now id cid p d d' k h in
    by_key c m customer (find_key (is_request cid c.client) d.slips) h4
  where
    by_key :
        (c : Clean) (m : Member) (customer : Customer) (o : Option ℕ)
        → by_request store now id cid c m customer
            (store.normalize_phone (text_value m.phone))
            (fingerprint_of store c (store.normalize_phone (text_value m.phone)))
            d
            o
          ≡ ok (k, d')
        → BoardStep (board_of d) (board_of d')
    by_key c m customer none e = first_request-opens store now id cid c m customer _ _ d d' k e free
    by_key c m customer (some j) e = stay (repeated-stays store _ j (get j d.slips) d d' k e)

-- A call that ends well, with its arguments.
pub data DeskStep : Desk → Desk → Type 0 where
  creates :
      {d d' : Desk} (store : Store) (now id cid : ℕ) (p : Payload) (k : ℕ)
      → create_order store now id cid p d ≡ ok (k, d')
      → get id d.shop.bot_orders ≡ none
      → DeskStep d d'
  cancels : {d d' : Desk} (c : Clock) (cid id : ℕ) → cancel_order c cid id d ≡ ok d' → DeskStep d d'
  rejects :
      {d d' : Desk} (c : Clock) (id : ℕ) (reason : Text) (operator : Option ℕ)
      → reject_order c id reason operator d ≡ ok d'
      → DeskStep d d'
  dispatches :
      {d d' : Desk} (till : Till) (now key id cashier : ℕ) (operator : Option ℕ)
      → dispatch_order till now key id cashier operator d ≡ ok d'
      → DeskStep d d'
  auto_dispatches :
      {d d' : Desk} (till : Till) (c : Clock) (key id : ℕ) (cashier : Option ℕ)
      → auto_dispatch till c key id cashier d ≡ ok d'
      → DeskStep d d'
  settles : {d d' : Desk} (c : Clock) (id : ℕ) → settle_points c id d ≡ ok d' → DeskStep d d'

pub data DeskReach : Desk → Desk → Type 0 where
  here : {d : Desk} → DeskReach d d
  then_call : {d mid end : Desk} → DeskReach d mid → DeskStep mid end → DeskReach d end

pub data BoardReach : Board → Board → Type 0 where
  board_here : {b : Board} → BoardReach b b
  then_move : {b mid end : Board} → BoardReach b mid → BoardStep mid end → BoardReach b end

DeskStep-refines : {d d' : Desk} → DeskStep d d' → BoardStep (board_of d) (board_of d')
DeskStep-refines (creates store now id cid p k done free) =
    create_order-opens store now id cid p _ _ k done free
DeskStep-refines (cancels c cid id done) = cancel_order-decides c cid id _ _ done
DeskStep-refines (rejects c id reason operator done) =
    reject_order-decides c id reason operator _ _ done
DeskStep-refines (dispatches till now key id cashier operator done) =
    dispatch_order-decides till now key id cashier operator _ _ done
DeskStep-refines (auto_dispatches till c key id cashier done) =
    auto_dispatch-decides till c key id cashier _ _ done
DeskStep-refines (settles c id done) = stay (settle_points-keeps c id _ _ done)

-- Every sequence of successful calls of create, cancel, reject, dispatch, auto_dispatch and the
-- settlement of points refines a board on which only three things happen: nothing, a new pending
-- order under a key that had none, or the decision on one pending order, which becomes dispatched,
-- rejected or canceled; no call touches the status of another order. The keys of new orders are
-- free.
pub DeskReach-refines : {d d' : Desk} → DeskReach d d' → BoardReach (board_of d) (board_of d')
DeskReach-refines here = board_here
DeskReach-refines (then_call before call) =
    then_move (DeskReach-refines before) (DeskStep-refines call)

-- A decided order.
abbrev pub is_decided : Option BotStatus → Bool
is_decided none = false
is_decided (some st) = not (is_pending st)

other_order :
    (id k : ℕ) (b b' : Board) (st : BotStatus)
    → b' k ≡ with_phase id st b k
    → (k == id) ≡ false
    → b' k ≡ b k
other_order id k b b' st moved e = moved ∙ rw e refl

BoardStep-keeps : {b b' : Board} (k : ℕ) → BoardStep b b' → is_decided (b k) ≡ true → b' k ≡ b k
BoardStep-keeps k (stay same) decided = same k
BoardStep-keeps {b} {b'} k (open_order id free moved) decided = elim (Bool-cases (k == id)) [
  | inl e ↦ true-ne-false (sym decided ∙ ap is_decided (ap b (==→eq k id e) ∙ free))
  | inr e ↦ other_order id k b b' pending (moved k) e
]
BoardStep-keeps {b} {b'} k (decide_order id st open_row closed moved) decided =
    elim (Bool-cases (k == id)) [
      | inl e ↦ true-ne-false (sym decided ∙ ap is_decided (ap b (==→eq k id e) ∙ open_row))
      | inr e ↦ other_order id k b b' st (moved k) e
    ]

-- A decided order keeps its status through any sequence of moves of the board.
BoardReach-keeps : {b b' : Board} (k : ℕ) → BoardReach b b' → is_decided (b k) ≡ true → b' k ≡ b k
BoardReach-keeps k board_here decided = refl
BoardReach-keeps k (then_move before move) decided =
    let same = BoardReach-keeps k before decided in
    BoardStep-keeps k move (ap is_decided same ∙ decided) ∙ same

-- What the later calls answer on an order of the status `st`.
abbrev pub Refused : ℕ → BotStatus → Desk → Type 0
Refused k st d =
    ((till : Till) (now key cashier : ℕ) (operator : Option ℕ)
      → dispatch_order till now key k cashier operator d ≡ err (already_handled st))
    × ((till : Till) (c : Clock) (key : ℕ) (cashier : Option ℕ)
        → auto_dispatch till c key k cashier d ≡ err (already_handled st))
    × ((c : Clock) (reason : Text) (operator : Option ℕ)
        → reject_order c k reason operator d ≡ err (already_handled st))
    × ((c : Clock) (cid : ℕ) → is_ok (cancel_order c cid k d) ≡ false)

phase_of-row :
    (o : Option BotOrder) (st : BotStatus)
    → phase_of o ≡ some st
    → (q : BotOrder) × (o ≡ some q) × (q.status ≡ st)
phase_of-row none st h = cc
phase_of-row (some q) st h = (q, refl, some_inv h)

module _ (k : ℕ) (d : Desk) (q : BotOrder) (row : get k d.shop.bot_orders ≡ some q)
    (decided : is_pending q.status ≡ false) where
  dispatch_order-refused :
      (till : Till) (now key cashier : ℕ) (operator : Option ℕ)
      → dispatch_order till now key k cashier operator d ≡ err (already_handled q.status)
  unfolding dispatch_order
  dispatch_order-refused till now key cashier operator = rw (row, decided) refl

  reject_order-refused :
      (c : Clock) (reason : Text) (operator : Option ℕ)
      → reject_order c k reason operator d ≡ err (already_handled q.status)
  unfolding reject_order
  reject_order-refused c reason operator = rw (row, decided) refl

  auto_dispatch-refused :
      (till : Till) (c : Clock) (key : ℕ) (cashier : Option ℕ)
      → auto_dispatch till c key k cashier d ≡ err (already_handled q.status)
  unfolding auto_dispatch
  auto_dispatch-refused till c key none = reject_order-refused c _ none
  auto_dispatch-refused till c key (some cashier) =
      dispatch_order-refused till c.now key cashier none

  cancel_order-refused : (c : Clock) (cid : ℕ) → is_ok (cancel_order c cid k d) ≡ false
  unfolding cancel_order
  cancel_order-refused c cid = elim (Bool-cases (q.customer == cid)) [
    | inl own ↦ rw (row, own, decided) refl
    | inr other ↦ rw (row, other) refl
  ]

  calls-Refused : Refused k q.status d
  calls-Refused =
      (dispatch_order-refused, auto_dispatch-refused, reject_order-refused, cancel_order-refused)

-- An order that is dispatched, rejected or canceled keeps that status through every later sequence
-- of successful calls, and after any of them every call that would decide it again is refused: a
-- dispatch, an automatic dispatch or a rejection, of any cashier and operator, with the error that
-- it is handled and its status, and a cancellation by anyone. So no order is dispatched twice, and
-- none after a cancellation.
pub decided_order_is_final :
    (d d' : Desk) (k : ℕ) (st : BotStatus)
    → DeskReach d d'
    → board_of d k ≡ some st
    → is_pending st ≡ false
    → (board_of d' k ≡ some st) × Refused k st d'
decided_order_is_final d d' k st reach row decided =
    let kept =
      BoardReach-keeps k (DeskReach-refines reach) (ap is_decided row ∙ ap not decided) ∙ row in
    let (q, there, status) = phase_of-row (get k d'.shop.bot_orders) st kept in
    (
      kept,
      subst (λ x. Refused k x d') status
          (calls-Refused k d' q there (ap is_pending status ∙ decided)),
    )
