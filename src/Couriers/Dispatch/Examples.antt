-- ===== src/Couriers/Dispatch/Examples.antt =====
-- Runs of the dispatch services on a small fleet, and the theorems at these inputs.
use alpha_pos_server.Base.{
  is_ok, not, ◌&&◌, ◌||◌, if◌then◌else◌, ℕ, ◌≡◌, refl, true, false, none, some, [], ◌∷◌, get,
  Result, ok, err, strip,
}
use alpha_pos_server.Base.Int.{pos}
use alpha_pos_server.Couriers.Records.{
  ready, delivered, picked_up, order_ready, Order, Courier, Address, Assignment, Db, is_completed,
  can_advance_to,
}
use alpha_pos_server.Couriers.Dispatch.{
  is_same, Env, unscoped, scoped, Conflict, Refusal, assign, accept, decline, mark_ready,
  advance_status, fresh_assignment, assign_guards, keep_or_hand_over, hand_over, live_order,
  announce, clear_delivery_person, stamp, lock_owner, close_order, courier_code, is_outside,
  is_wrong_branch,
}
use alpha_pos_server.Couriers.Dispatch.Exclusive.{
  Exclusive, Reach, here, next, assigns, advances, marks_ready, Reach-Exclusive,
}
use alpha_pos_server.Couriers.Dispatch.Progress.{
  Advanced, closed, advance_status-Advanced, advance_status-delivers,
}
use alpha_pos_server.Couriers.Dispatch.Final.{delivered_row_is_final, reassigned_owner_is_refused}
use alpha_pos_server.Couriers.Dispatch.Outcomes.{
  assign_succeeds, may_assign, may_move, row_after, assigned_row,
}

abbrev env : Env
env = record { now = 100; feed_up = true }

abbrev order : Order
order = record {
  branch_id = 7 ∷ [];
  is_delivery = true;
  status = order_ready;
  is_paid = false;
  ready_at = some 90;
  delivery_person = some 4;
  is_deleted = false;
}

abbrev courier : Courier
courier = record {
  branch_id = 7 ∷ [];
  code = 1 ∷ [];
  online = true;
  share_loc = true;
  shift_started_at = none;
  user_active = true;
  user_deleted = false;
}

abbrev address : Address
address = record { text = []; landmark = []; lat = none; lng = none; distance = none }

abbrev start : Db
start = record {
  orders = (5, order) ∷ (6, order) ∷ [];
  couriers = (1, courier) ∷ (2, courier) ∷ [];
  assignments = [];
  notifications = [];
  on_commit = [];
}

abbrev row : Assignment
row = record {
  courier = some 1;
  step = ready;
  fee = pos 9;
  assigned_at = some 100;
  accepted_at = none;
  ready_at = some 90;
  picked_at = none;
  delivered_at = none;
  expires_at = some 120;
  declined_reason = [];
  address = address;
}

abbrev result_state : Result Conflict (Db × Assignment) → Db
result_state (ok (db, a)) = db
result_state (err e) = start

abbrev first : Db
first = result_state (assign env (scoped (32 ∷ 7 ∷ []) false) 5 1 (pos 9) address start)

-- What a run of `assign` computes with.
assign_run : Env → ℕ → ℕ → Db → Db
unfolding assign assign_guards keep_or_hand_over hand_over live_order strip announce
    clear_delivery_person fresh_assignment
assign_run e oid cid db = result_state (assign e unscoped oid cid (pos 9) address db)

first_assigned : assign env (scoped (32 ∷ 7 ∷ []) false) 5 1 (pos 9) address start ≡ ok (first, row)
unfolding assign_run
first_assigned = refl

-- A courier with an active delivery takes no second one.
second_refused : assign env unscoped 6 1 (pos 9) address first ≡ err Conflict.courier_busy
unfolding assign_run
second_refused = refl

-- Before pickup the order may go to another courier.
moved_row :
    assign env unscoped 5 2 (pos 9) address first
    ≡ ok (
      result_state (assign env unscoped 5 2 (pos 9) address first),
      record row { courier = some 2 },
    )
unfolding assign_run
moved_row = refl

abbrev advanced : Result Refusal (Db × Assignment) → Db
advanced (ok (db, a)) = db
advanced (err e) = start

abbrev done : Db
done = advanced (advance_status env 5 (some 1) delivered first)

abbrev done_row : Assignment
done_row = record row { step = delivered; delivered_at = some 100 }

first_delivered : advance_status env 5 (some 1) delivered first ≡ ok (done, done_row)
unfolding assign_run advance_status can_advance_to stamp lock_owner close_order courier_code
first_delivered = refl

delivered_found : get 5 done.assignments ≡ some done_row
unfolding assign_run advance_status can_advance_to stamp lock_owner close_order courier_code
delivered_found = refl

start-Exclusive : Exclusive start.assignments
start-Exclusive j k c a b ja kb ha hb = cc

start_reaches_done : Reach start done
start_reaches_done =
    next
      (next here (assigns env (scoped (32 ∷ 7 ∷ []) false) 5 1 (pos 9) address row first_assigned))
      (advances env 5 (some 1) delivered done_row first_delivered)

Reach-Exclusive_example : Exclusive done.assignments
Reach-Exclusive_example = Reach-Exclusive start-Exclusive start_reaches_done

advance_status-Advanced_example :
    (a : Assignment) × Advanced env 5 (some 1) delivered first done a done_row
advance_status-Advanced_example =
    advance_status-Advanced env 5 (some 1) delivered first done done_row first_delivered

advance_status-delivers_example :
    (o : Order) × (get 5 first.orders ≡ some o)
    × (get 5 done.orders ≡ some (closed o))
    × (is_completed (closed o).status ≡ true)
    × (done_row.delivered_at ≡ some 100)
advance_status-delivers_example =
    advance_status-delivers env 5 (some 1) first done done_row first_delivered

delivered_row_is_final_example : get 5 (mark_ready env 5 done).assignments ≡ some done_row
delivered_row_is_final_example =
    delivered_row_is_final 5 done_row {start = done} delivered_found refl
      (next here (marks_ready env 5))

reassigned_owner_is_refused_example :
    (accept env 5 (some 2) first ≡ err Refusal.reassigned)
    × (decline env 5 (some 2) [] first ≡ err Refusal.reassigned)
    × (advance_status env 5 (some 2) picked_up first ≡ err Refusal.reassigned)
reassigned_owner_is_refused_example =
    reassigned_owner_is_refused env env (scoped (32 ∷ 7 ∷ []) false) 5 1 (pos 9) address start first
      row (some 2) [] picked_up first_assigned refl refl

order_found : live_order 5 start ≡ some order
unfolding live_order
order_found = refl

assign_succeeds_example :
    let existing = get 5 start.assignments in
    let may = may_assign unscoped 5 order 1 courier start in
    let r = assign env unscoped 5 1 (pos 9) address start in
    (is_ok r ≡ may && (is_same 1 existing || may_move order existing))
    × (row_after 5 start r ≡ (
        if may && (not (is_same 1 existing) && may_move order existing)
        then some (assigned_row 100 order 1 (pos 9) address)
        else existing))
assign_succeeds_example =
    assign_succeeds env unscoped 5 1 (pos 9) address start order courier order_found refl

is_assignable : may_assign unscoped 5 order 1 courier start ≡ true
unfolding is_outside is_wrong_branch
is_assignable = refl
