-- ===== src/Couriers/Dispatch/Outcomes.antt =====
-- The outcomes of assign and of a second mark_ready (couriers/services.py).
use alpha_pos_server.Base.{
  ◌||◌, true, ◌>>◌, Bool, not, ◌&&◌, exists, [], ◌+◌, Result, err, is_ok, if◌then◌else◌, ℕ, ◌≡◌,
  refl, ap, ◌∙◌, or_else, inl, inr, false, Option, none, some, arith, get, get-put_self, ok,
  Bool-cases, Option-cases,
}
use alpha_pos_server.Base.Int.{ℤ}
use alpha_pos_server.Couriers.Records.{
  is_canceled, is_protected, is_order_ready, ready, assigned, step_eq, is_completed, Order, Courier,
  Address, Assignment, Db, Notice, order_is_ready, courier_ready,
}
use alpha_pos_server.Couriers.Dispatch.{
  is_outside, busy_row, is_wrong_branch, Conflict, Env, Actor, assign, assign_guards,
  keep_or_hand_over, hand_over, live_order, is_same, fresh_assignment, mark_ready, mark_row,
  flip_ready, save_assignment, notify, after_commit, live,
}
use alpha_pos_server.Couriers.Dispatch.Writes.{hand_over-Writes, clear_delivery_person-assignments}

-- When an order `o` may go to the courier `c`, written as one condition.
abbrev pub may_assign : Actor → ℕ → Order → ℕ → Courier → Db → Bool
may_assign actor oid o cid c db =
    c.user_active
    && not c.user_deleted
    && not (is_outside actor o c)
    && not (exists (busy_row cid oid) db.assignments)
    && o.is_delivery
    && not (is_canceled o.status)
    && not (is_wrong_branch o c)

-- When its row may be written anew.
abbrev pub may_move : Order → Option Assignment → Bool
may_move o none = not (is_completed o.status)
may_move o (some a) = not (is_completed o.status) && not (is_protected a.step)

-- The row of an order that was just assigned.
abbrev pub assigned_row : ℕ → Order → ℕ → ℤ → Address → Assignment
assigned_row now o cid fee address = record {
  courier = some cid;
  step = if is_order_ready o.status then ready else assigned;
  fee = fee;
  assigned_at = some now;
  accepted_at = none;
  ready_at = if is_order_ready o.status then or_else o.ready_at (some now) else none;
  picked_at = none;
  delivered_at = none;
  expires_at = some (now + 20);
  declined_reason = [];
  address = address;
}

-- The row of the order after a call of assign from `db`.
abbrev pub row_after : ℕ → Db → Result Conflict (Db × Assignment) → Option Assignment
row_after oid db (err e) = get oid db.assignments
row_after oid db (ok (db', a)) = get oid db'.assignments

assign_guards-ok :
    (actor : Actor) (oid : ℕ) (o : Order) (cid : ℕ) (c : Courier) (db : Db)
    → is_ok (assign_guards actor oid o cid c db) ≡ may_assign actor oid o cid c db
unfolding assign_guards
assign_guards-ok actor oid o cid c db = ground arith

abbrev pub new_row : Bool → ℕ → Order → ℕ → ℤ → Address → Option Assignment → Option Assignment
new_row moves now o cid fee address old =
    if moves then some (assigned_row now o cid fee address) else old

module _ (env : Env) (oid : ℕ) (o : Order) (cid : ℕ) (c : Courier) (fee : ℤ) (address : Address)
    (db : Db) where
  -- A call, by whether it is right, has succeeded, and moved the row.
  abbrev Moved : Bool → Bool → Result Conflict (Db × Assignment) → Type 0
  Moved succeeds moves r =
      (is_ok r ≡ succeeds)
      × (row_after oid db r ≡ new_row moves env.now o cid fee address (get oid db.assignments))

  hand_over-ok :
      (existing : Option Assignment)
      → get oid db.assignments ≡ existing
      → is_ok (hand_over env oid o cid c fee address db) ≡ may_move o existing
  unfolding hand_over
  hand_over-ok none e = elim (Bool-cases (is_completed o.status)) [
    | inl done ↦ rw (e, done) refl
    | inr going ↦ rw (e, going) refl
  ]
  hand_over-ok (some a) e = elim (Bool-cases (is_completed o.status)) [
    | inl done ↦ rw (e, done) refl
    | inr going ↦ elim (Bool-cases (is_protected a.step)) [
      | inl kept ↦ rw (e, going, kept) refl
      | inr free ↦ rw (e, going, free) refl
    ]
  ]

  hand_over-Moved :
      (b : Bool) (r : Result Conflict (Db × Assignment))
      → hand_over env oid o cid c fee address db ≡ r
      → is_ok r ≡ b
      → Moved b b r
  unfolding fresh_assignment
  hand_over-Moved true (err e) h k = cc
  hand_over-Moved false (err e) h k = (refl, refl)
  hand_over-Moved false (ok (db', a)) h k = cc
  hand_over-Moved true (ok (db', a)) h k =
      let (rows, fresh, unfinished, movable) =
        hand_over-Writes env oid o cid c fee address db db' a h in
      (refl, ap (get oid) rows ∙ get-put_self oid a db.assignments ∙ ap (λ x. some x) fresh)

  given_over :
      (existing : Option Assignment)
      → get oid db.assignments ≡ existing
      → Moved (may_move o existing) (may_move o existing) (hand_over env oid o cid c fee address db)
  given_over existing e = hand_over-Moved (may_move o existing) _ refl (hand_over-ok existing e)

  keep_or_hand_over-Moved :
      (existing : Option Assignment)
      → get oid db.assignments ≡ existing
      → Moved
          (is_same cid existing || may_move o existing)
          (not (is_same cid existing) && may_move o existing)
          (keep_or_hand_over env oid o cid c fee address existing db)
  unfolding keep_or_hand_over
  keep_or_hand_over-Moved none e = given_over none e
  keep_or_hand_over-Moved (some a) e = elim (Bool-cases (is_same cid (some a))) [
    | inl same ↦ rw same (refl, ap (get oid) (clear_delivery_person-assignments oid o db))
    | inr other ↦ rw other (given_over (some a) e)
  ]

  guarded :
      (g : Result Conflict (Unit {0})) (b succeeds moves : Bool)
      (rest : Result Conflict (Db × Assignment))
      → is_ok g ≡ b
      → Moved succeeds moves rest
      → Moved (b && succeeds) (b && moves) (g >> rest)
  guarded (err e) true succeeds moves rest k h = cc
  guarded (err e) false succeeds moves rest k h = (refl, refl)
  guarded (ok u) true succeeds moves rest k h = h
  guarded (ok u) false succeeds moves rest k h = cc

-- A call of assign for a live order and a courier that is there succeeds exactly when the courier is
-- active and not deleted, within the actor's scope and the order's branch and on no other active
-- delivery, the order is for delivery and not canceled, and it is either this courier's already, or
-- not completed and not past the ready step. When it then is not this courier's already, its row is
-- the courier's, ready or assigned as the order is, assigned at the clock's time, to be accepted
-- within 20 seconds, with no other stamp (a ready order keeps its time of readiness, or gets the
-- clock's) and no reason of an earlier refusal. In every other case, errors included, the row stays
-- as it was.
pub assign_succeeds :
    (env : Env) (actor : Actor) (oid cid : ℕ) (fee : ℤ) (address : Address) (db : Db) (o : Order)
    (c : Courier)
    → live_order oid db ≡ some o
    → get cid db.couriers ≡ some c
    → let existing = get oid db.assignments in
      let may = may_assign actor oid o cid c db in
      let r = assign env actor oid cid fee address db in
      (is_ok r ≡ may && (is_same cid existing || may_move o existing))
      × (row_after oid db r ≡ (
          if may && (not (is_same cid existing) && may_move o existing)
          then some (assigned_row env.now o cid fee address)
          else existing))
unfolding assign
assign_succeeds env actor oid cid fee address db o c there known =
    rw (there, known)
      (guarded env oid o cid c fee address db (assign_guards actor oid o cid c db)
        (may_assign actor oid o cid c db) _ _ _ (assign_guards-ok actor oid o cid c db)
        (keep_or_hand_over-Moved env oid o cid c fee address db (get oid db.assignments) refl))

notify-tables :
    (env : Env) (cid : Option ℕ) (oid : ℕ) (n : Notice) (db : Db)
    → ((notify env cid oid n db).assignments ≡ db.assignments)
      × ((notify env cid oid n db).orders ≡ db.orders)
unfolding notify
notify-tables env cid oid n db = ground arith

-- A row that is ready is not marked again.
marked_row :
    (env later : Env) (oid : ℕ) (o : Order) (a : Assignment) (cid : Option ℕ) (db : Db)
    → step_eq a.step assigned ≡ false
    → let db' =
        notify env cid oid order_is_ready
          (after_commit (courier_ready oid cid) (save_assignment oid a db)) in
      (live_order oid db' ≡ live_order oid db)
      × (flip_ready later oid o (get oid db'.assignments) db' ≡ db')
unfolding live_order after_commit save_assignment flip_ready
marked_row env later oid o a cid db moved =
    let told = after_commit (courier_ready oid cid) (save_assignment oid a db) in
    let (rows, orders) = notify-tables env cid oid order_is_ready told in
    (
      ap (λ t. live (get oid t)) orders,
      rw (ap (get oid) rows ∙ get-put_self oid a db.assignments) (rw moved),
    )

flip_ready_twice :
    (env later : Env) (oid : ℕ) (o : Order) (row : Option Assignment) (db : Db)
    → get oid db.assignments ≡ row
    → let db' = flip_ready env oid o row db in
      (live_order oid db' ≡ live_order oid db)
      × (flip_ready later oid o (get oid db'.assignments) db' ≡ db')
unfolding flip_ready
flip_ready_twice env later oid o none db e = (refl, rw e)
flip_ready_twice env later oid o (some a) db e = elim (Bool-cases (step_eq a.step assigned)) [
  | inl waiting ↦
      let a' = record a { step = ready; ready_at = or_else o.ready_at (some env.now) } in
      rw waiting (marked_row env later oid o a' a.courier db refl)
  | inr moved ↦ rw moved (refl, rw e (rw moved))
]

-- Marking an order ready again changes nothing: no column, no event and no notification, whatever
-- the clock says the second time.
mark_ready_idempotent :
    (env later : Env) (oid : ℕ) (db : Db)
    → mark_ready later oid (mark_ready env oid db) ≡ mark_ready env oid db
unfolding mark_ready
mark_ready_idempotent env later oid db = elim (Option-cases (live_order oid db)) [
  | inl gone ↦
      let same : mark_ready env oid db ≡ db = ap (λ o. mark_row env oid o db) gone in
      rw same (ap (λ o. mark_row later oid o db) gone)
  | inr (o, there) ↦
      let row = get oid db.assignments in
      let marked : mark_ready env oid db ≡ flip_ready env oid o row db =
        ap (λ x. mark_row env oid x db) there in
      let (same, twice) = flip_ready_twice env later oid o row db refl in
      rw marked
        (ap (λ x. mark_row later oid x (flip_ready env oid o row db)) (same ∙ there) ∙ twice)
]
