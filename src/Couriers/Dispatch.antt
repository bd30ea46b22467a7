-- ===== src/Couriers/Dispatch.antt =====
-- The lifecycle of a delivery assignment (couriers/services.py): assign, accept, decline, the
-- kitchen's ready mark, and the courier's own steps. Each operation is one transaction. A refusal
-- is an `err` that holds no state: what an atomic block raises or returns early leaves no write.
-- A call reads the clock once.
pub mod Cleared
pub mod Writes
pub mod Exclusive
pub mod Final
pub mod Progress
pub mod Outcomes
mod Examples
use alpha_pos_server.Base.{
  ℕ, ◌+◌, Bool, true, false, not, ◌&&◌, ◌||◌, Option, none, some, [], ◌∷◌, ◌++◌, Text, text_eq,
  is_blank, strip, take_chars, get, put, exists, Result, ok, ◌>>=◌, ◌>>◌, raise_if, or_raise,
  is_some, is_key, key_eq, or_else, ltb, ◌==◌, if◌then◌else◌,
}
use alpha_pos_server.Base.Int.{ℤ}
use alpha_pos_server.Couriers.Records.{
  Step, assigned, ready, picked_up, delivered, declined, step_eq, can_advance_to,
  is_courier_settable, is_protected, is_busy, is_completed, is_canceled, is_order_ready, completed,
  Order, Courier, Address, Assignment, Notice, reassigned_away, new_order, order_is_ready, Effect,
  unassigned, order_assigned, cashier_status, courier_ready, cashier_delivered, courier_status, Db,
}

-- The clock, and whether the write of an optional feed row succeeds.
pub record Env : Type 0 where
  pub now : ℕ
  pub feed_up : Bool

-- `AssignmentConflict`, by its message.
pub data Conflict : Type 0 where
  order_gone courier_gone courier_suspended outside_branch courier_busy : Conflict
  not_delivery order_canceled wrong_branch order_completed : Conflict
  step_protected : Step → Conflict

-- The messages of accept, decline and advance_status, and the rows that `.get` does not find.
pub data Refusal : Type 0 where
  order_missing assignment_missing courier_missing : Refusal
  reassigned window_expired not_awaiting : Refusal
  cannot_decline not_settable : Step → Refusal
  illegal_transition : Step → Step → Refusal

-- `actor_branch` and `actor_is_global`
pub data Actor : Type 0 where
  unscoped : Actor
  scoped : Text → Bool → Actor

abbrev pub accept_window_seconds : ℕ
accept_window_seconds = 20

unfoldable pub save_assignment : ℕ → Assignment → Db → Db
save_assignment oid a db = record db { assignments = put oid a db.assignments }

unfoldable pub save_order : ℕ → Order → Db → Db
save_order oid o db = record db { orders = put oid o db.orders }

unfoldable pub after_commit : Effect → Db → Db
after_commit e db = record db { on_commit = db.on_commit ++ e ∷ [] }

-- A failed feed write rolls back to its savepoint and changes nothing else.
unfoldable pub notify : Env → Option ℕ → ℕ → Notice → Db → Db
notify env none oid n db = db
notify env (some cid) oid n db =
    if env.feed_up then record db { notifications = (cid, oid, n) ∷ db.notifications } else db

-- A row lock with its `is_deleted=False` filter.
live : Option Order → Option Order
live none = none
live (some o) = if o.is_deleted then none else some o

unfoldable pub live_order : ℕ → Db → Option Order
unfolding live
live_order oid db = live (get oid db.orders)

-- Another order is this courier's active delivery.
abbrev pub busy_row : ℕ → ℕ → ℕ → Assignment → Bool
busy_row cid oid k a = is_key cid a.courier && is_busy a.step && not (k == oid)

unfoldable pub is_outside : Actor → Order → Courier → Bool
is_outside unscoped o c = false
is_outside (scoped branch is_global) o c =
    let allowed = strip branch in
    not is_global
    && (is_blank allowed
        || not (text_eq (strip o.branch_id) allowed)
        || not (text_eq (strip c.branch_id) allowed))

unfoldable pub is_wrong_branch : Order → Courier → Bool
is_wrong_branch o c =
    not (is_blank o.branch_id)
    && not (is_blank c.branch_id)
    && not (text_eq o.branch_id c.branch_id)

-- The order is this courier's already.
abbrev pub is_same : ℕ → Option Assignment → Bool
is_same cid none = false
is_same cid (some a) = not (step_eq a.step declined) && is_key cid a.courier

-- The courier who loses the order.
abbrev pub previous_courier : ℕ → Option Assignment → Option ℕ
previous_courier cid none = none
previous_courier cid (some a) =
    if not (step_eq a.step declined) && not (is_key cid a.courier) then a.courier else none

abbrev pub protected_step : Option Assignment → Result Conflict (Unit {0})
protected_step none = ok tt
protected_step (some a) = raise_if (is_protected a.step) (step_protected a.step)

-- The POS till's own rider is taken off a courier order.
unfoldable pub clear_delivery_person : ℕ → Order → Db → Db
unfolding save_order
clear_delivery_person oid o db =
    if is_some o.delivery_person
    then save_order oid (record o { delivery_person = none }) db
    else db

unfoldable pub fresh_assignment : Env → Order → ℕ → ℤ → Address → Assignment
fresh_assignment env o cid fee address =
    let starts_ready = is_order_ready o.status in
    record {
      courier = some cid;
      step = if starts_ready then ready else assigned;
      fee = fee;
      assigned_at = some env.now;
      accepted_at = none;
      ready_at = if starts_ready then or_else o.ready_at (some env.now) else none;
      picked_at = none;
      delivered_at = none;
      expires_at = some (env.now + accept_window_seconds);
      declined_reason = [];
      address = address;
    }

-- The courier who loses the order is told.
announce_lost : Env → ℕ → Option ℕ → Db → Db
unfolding after_commit notify
announce_lost env oid none db = db
announce_lost env oid (some old) db =
    notify env (some old) oid reassigned_away (after_commit (unassigned oid old) db)

-- The events and feed rows of an assignment.
unfoldable pub announce : Env → ℕ → Order → ℕ → Courier → Assignment → Option ℕ → Db → Db
unfolding after_commit notify announce_lost
announce env oid o cid c a previous db =
    let told = after_commit (cashier_status o.branch_id oid (some c.code) a.step) (
      after_commit (order_assigned oid cid a.fee o.is_paid a.step)
        (announce_lost env oid previous db)) in
    notify env (some cid) oid (new_order (is_order_ready o.status)) told

-- Every check of `assign` before it looks whether the order changes hands.
unfoldable pub assign_guards : Actor → ℕ → Order → ℕ → Courier → Db → Result Conflict (Unit {0})
unfolding is_outside is_wrong_branch
assign_guards actor oid o cid c db = do
  raise_if (not c.user_active || c.user_deleted) courier_suspended
  raise_if (is_outside actor o c) outside_branch
  raise_if (exists (busy_row cid oid) db.assignments) courier_busy
  raise_if (not o.is_delivery) not_delivery
  raise_if (is_canceled o.status) order_canceled
  raise_if (is_wrong_branch o c) wrong_branch

unfoldable pub hand_over :
    Env → ℕ → Order → ℕ → Courier → ℤ → Address → Db → Result Conflict (Db × Assignment)
unfolding save_assignment
hand_over env oid o cid c fee address db = do
  let existing = get oid db.assignments
  raise_if (is_completed o.status) order_completed
  protected_step existing
  let a = fresh_assignment env o cid fee address
  let saved = clear_delivery_person oid o (save_assignment oid a db)
  ok (announce env oid o cid c a (previous_courier cid existing) saved, a)

-- The same courier again: nothing but the till's rider changes.
unfoldable pub keep_or_hand_over :
    Env
    → ℕ
    → Order
    → ℕ
    → Courier
    → ℤ
    → Address
    → Option Assignment
    → Db
    → Result Conflict (Db × Assignment)
keep_or_hand_over env oid o cid c fee address none db = hand_over env oid o cid c fee address db
keep_or_hand_over env oid o cid c fee address (some a) db =
    if is_same cid (some a)
    then ok (clear_delivery_person oid o db, a)
    else hand_over env oid o cid c fee address db

unfoldable pub assign : Env → Actor → ℕ → ℕ → ℤ → Address → Db → Result Conflict (Db × Assignment)
assign env actor oid cid fee address db = do
  o ← or_raise (live_order oid db) order_gone
  c ← or_raise (get cid db.couriers) courier_gone
  assign_guards actor oid o cid c db
  keep_or_hand_over env oid o cid c fee address (get oid db.assignments) db

pub courier_code : Option ℕ → Db → Option Text
courier_code none db = none
courier_code (some cid) db = elim (get cid db.couriers) [ none ↦ none | some c ↦ some c.code ]

abbrev pub is_after : ℕ → Option ℕ → Bool
is_after now none = false
is_after now (some limit) = ltb limit now

abbrev pub is_awaiting : Step → Bool
is_awaiting assigned = true
is_awaiting ready = true
is_awaiting _ = false

-- `expected` is the owner on the caller's copy of the assignment.
unfoldable pub accept : Env → ℕ → Option ℕ → Db → Result Refusal Db
unfolding save_assignment after_commit courier_code
accept env oid expected db = do
  o ← or_raise (get oid db.orders) order_missing
  a ← or_raise (get oid db.assignments) reassigned
  raise_if (not (key_eq a.courier expected)) reassigned
  raise_if (is_after env.now a.expires_at) window_expired
  raise_if (not (is_awaiting a.step)) not_awaiting
  let a' = record a { accepted_at = some env.now }
  let told = cashier_status o.branch_id oid (courier_code a.courier db) a.step
  ok (after_commit told (save_assignment oid a' db))

unfoldable pub decline : Env → ℕ → Option ℕ → Text → Db → Result Refusal Db
unfolding save_assignment after_commit courier_code
decline env oid expected reason db = do
  o ← or_raise (get oid db.orders) order_missing
  a ← or_raise (get oid db.assignments) reassigned
  raise_if (not (key_eq a.courier expected)) reassigned
  raise_if (not (is_awaiting a.step)) (cannot_decline a.step)
  let a' = record a { step = declined; declined_reason = take_chars 200 reason }
  let told = cashier_status o.branch_id oid (courier_code a.courier db) declined
  ok (after_commit told (save_assignment oid a' db))

pub flip_ready : Env → ℕ → Order → Option Assignment → Db → Db
unfolding save_assignment after_commit
flip_ready env oid o none db = db
flip_ready env oid o (some a) db =
    let a' = record a { step = ready; ready_at = or_else o.ready_at (some env.now) } in
    if step_eq a.step assigned
    then notify env a.courier oid order_is_ready
        (after_commit (courier_ready oid a.courier) (save_assignment oid a' db))
    else db

abbrev pub mark_row : Env → ℕ → Option Order → Db → Db
mark_row env oid none db = db
mark_row env oid (some o) db = flip_ready env oid o (get oid db.assignments) db

-- The kitchen marked the order ready.
unfoldable pub mark_ready : Env → ℕ → Db → Db
mark_ready env oid db = mark_row env oid (live_order oid db) db

-- `_STEP_TS`: the time column that a step sets.
pub stamp : Step → ℕ → Assignment → Assignment
stamp picked_up now a = record a { picked_at = some now }
stamp delivered now a = record a { delivered_at = some now }
stamp _ now a = a

-- `lock_courier_accounting`, on delivery only; the row must be there.
pub lock_owner : Step → Option ℕ → Db → Result Refusal (Unit {0})
lock_owner delivered (some cid) db = or_raise (get cid db.couriers) courier_missing >>= λ _. ok tt
lock_owner _ _ db = ok tt

-- Delivery closes the POS order.
pub close_order : Step → Env → ℕ → Order → Option Text → Db → Db
unfolding save_order after_commit
close_order delivered env oid o code db =
    after_commit (cashier_delivered o.branch_id oid code env.now)
      (if is_completed o.status then db else save_order oid (record o { status = completed }) db)
close_order _ env oid o code db = db

unfoldable pub advance_status : Env → ℕ → Option ℕ → Step → Db → Result Refusal (Db × Assignment)
unfolding save_assignment after_commit
advance_status env oid expected target db = do
  raise_if (not (is_courier_settable target)) (not_settable target)
  o ← or_raise (get oid db.orders) order_missing
  a ← or_raise (get oid db.assignments) assignment_missing
  raise_if (not (key_eq a.courier expected)) reassigned
  raise_if (not (can_advance_to a.step target)) (illegal_transition a.step target)
  lock_owner target a.courier db
  let a' = stamp target env.now (record a { step = target })
  let closed = close_order target env oid o (courier_code a.courier db) (save_assignment oid a' db)
  ok (after_commit (courier_status o.branch_id oid a.courier target) closed, a')
