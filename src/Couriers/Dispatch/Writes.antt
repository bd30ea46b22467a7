-- ===== src/Couriers/Dispatch/Writes.antt =====
-- What each dispatch operation leaves in the assignment table.
use alpha_pos_server.Base.{
  ℕ, ◌≡◌, refl, ◌⊎◌, inl, inr, true, false, Option, none, some, arith, get, put, exists, Text, ok,
  or_raise_inv, raise_if_inv, bind_ok_inv, ok-injective, sym, ap, ◌∙◌, Bool-cases, Option-cases,
  refl, or_else, key_eq, not-eq-false, take_chars,
}
use alpha_pos_server.Base.Int.{ℤ}
use alpha_pos_server.Couriers.Records.{
  Step, assigned, ready, declined, step_eq, is_protected, Order, Courier, Address, Assignment, Db,
  Notice, order_is_ready, is_completed, is_canceled, is_courier_settable, can_advance_to,
}
use alpha_pos_server.Couriers.Dispatch.{
  Env, Actor, Conflict, Refusal, assign, assign_guards, keep_or_hand_over, hand_over, live_order,
  busy_row, is_same, accept, decline, mark_ready, flip_ready, advance_status, is_awaiting,
  fresh_assignment, announce, clear_delivery_person, save_assignment, notify, is_outside, is_after,
  stamp, lock_owner, close_order, courier_code, is_wrong_branch, protected_step, previous_courier,
}

-- The guards that a successful assignment has passed.
pub record Passed (actor : Actor) (oid : ℕ) (o : Order) (cid : ℕ) (c : Courier) (db : Db)
    : Type 0 where
  pub active : c.user_active ≡ true
  pub present : c.user_deleted ≡ false
  pub inside : is_outside actor o c ≡ false
  pub free : exists (busy_row cid oid) db.assignments ≡ false
  pub delivery : o.is_delivery ≡ true
  pub open_order : is_canceled o.status ≡ false
  pub branch : is_wrong_branch o c ≡ false

pub assign_guards-Passed :
    (actor : Actor) (oid : ℕ) (o : Order) (cid : ℕ) (c : Courier) (db : Db)
    → assign_guards actor oid o cid c db ≡ ok tt
    → Passed actor oid o cid c db
unfolding assign_guards
assign_guards-Passed actor oid o cid c db h = ground arith

-- What a successful assignment rests on.
pub record Assigned (env : Env) (actor : Actor) (oid cid : ℕ) (fee : ℤ) (address : Address)
    (db : Db) (r : Db × Assignment) : Type 0 where
  pub order : Order
  pub courier : Courier
  pub found : live_order oid db ≡ some order
  pub known : get cid db.couriers ≡ some courier
  pub passed : Passed actor oid order cid courier db
  pub result :
      keep_or_hand_over env oid order cid courier fee address (get oid db.assignments) db ≡ ok r

pub assign-Assigned :
    (env : Env) (actor : Actor) (oid cid : ℕ) (fee : ℤ) (address : Address) (db : Db)
    (r : Db × Assignment)
    → assign env actor oid cid fee address db ≡ ok r
    → Assigned env actor oid cid fee address db r
unfolding assign
assign-Assigned env actor oid cid fee address db r h =
    let (o, found, h₁) = or_raise_inv _ (live_order oid db) Conflict.order_gone h in
    let (c, known, h₂) = or_raise_inv _ (get cid db.couriers) Conflict.courier_gone h₁ in
    let (u, passed, h₃) = bind_ok_inv _ (assign_guards actor oid o cid c db) h₂ in
    record {
      order = o;
      courier = c;
      found = found;
      known = known;
      passed = assign_guards-Passed actor oid o cid c db passed;
      result = h₃;
    }

-- The effects of an assignment reach no row of the table.
notify-assignments :
    (env : Env) (cid : Option ℕ) (oid : ℕ) (n : Notice) (db : Db)
    → (notify env cid oid n db).assignments ≡ db.assignments
unfolding notify
notify-assignments env cid oid n db = ground arith

announce-assignments :
    (env : Env) (oid : ℕ) (o : Order) (cid : ℕ) (c : Courier) (a : Assignment) (previous : Option ℕ)
    (db : Db)
    → (announce env oid o cid c a previous db).assignments ≡ db.assignments
unfolding announce
announce-assignments env oid o cid c a previous db = ground arith

pub clear_delivery_person-assignments :
    (oid : ℕ) (o : Order) (db : Db) → (clear_delivery_person oid o db).assignments ≡ db.assignments
unfolding clear_delivery_person
clear_delivery_person-assignments oid o db = ground arith

protected_step-eq-ok :
    (b : Assignment) → protected_step (some b) ≡ ok tt → is_protected b.step ≡ false
protected_step-eq-ok b h = ground arith

-- An order changes hands only while it is open, and not past the ready step.
pub hand_over-Writes :
    (env : Env) (oid : ℕ) (o : Order) (cid : ℕ) (c : Courier) (fee : ℤ) (address : Address)
    (db db' : Db) (a : Assignment)
    → hand_over env oid o cid c fee address db ≡ ok (db', a)
    → (db'.assignments ≡ put oid a db.assignments)
      × (a ≡ fresh_assignment env o cid fee address)
      × (is_completed o.status ≡ false)
      × ((b : Assignment) → get oid db.assignments ≡ some b → is_protected b.step ≡ false)
unfolding hand_over
hand_over-Writes env oid o cid c fee address db db' a h =
    let (unfinished, h₁) = raise_if_inv _ (is_completed o.status) Conflict.order_completed h in
    let (u, movable, h₂) = bind_ok_inv _ (protected_step (get oid db.assignments)) h₁ in
    let row = fresh_assignment env o cid fee address in
    let saved = clear_delivery_person oid o (save_assignment oid row db) in
    let previous = previous_courier cid (get oid db.assignments) in
    let e : row ≡ a = ap (λ r. r.1) (ok-injective h₂) in
    (
      sym (ap (λ r. r.0.assignments) (ok-injective h₂))
          ∙ announce-assignments env oid o cid c row previous saved
          ∙ clear_delivery_person-assignments oid o (save_assignment oid row db)
          ∙ ap (λ x. put oid x db.assignments) e,
      sym e,
      unfinished,
      λ b found. protected_step-eq-ok b (sym (ap protected_step found) ∙ movable),
    )

-- The one write of an assignment: the same courier keeps the row as it is, or a new row is put.
module _ (env : Env) (oid : ℕ) (o : Order) (cid : ℕ) (c : Courier) (fee : ℤ) (address : Address)
    (db db' : Db) (a : Assignment) where
  abbrev pub Kept : Type 0
  Kept =
      (db'.assignments ≡ db.assignments)
      × (get oid db.assignments ≡ some a)
      × (is_same cid (some a) ≡ true)

  kept_or_handed :
      (b : Assignment)
      → get oid db.assignments ≡ some b
      → keep_or_hand_over env oid o cid c fee address (some b) db ≡ ok (db', a)
      → Kept ⊎ (hand_over env oid o cid c fee address db ≡ ok (db', a))
  unfolding keep_or_hand_over
  kept_or_handed b present h = elim (Bool-cases (is_same cid (some b))) [
    | inl same ↦
        let e = ok-injective (rw same at h) in
        let row = ap (λ r. r.1) e in
        inl (
          sym (ap (λ r. r.0.assignments) e) ∙ clear_delivery_person-assignments oid o db,
          present ∙ ap some row,
          rw (← row) same,
        )
    | inr other ↦ inr (rw other at h)
  ]

  pub keep_or_hand_over-Writes :
      keep_or_hand_over env oid o cid c fee address (get oid db.assignments) db ≡ ok (db', a)
      → Kept ⊎ (hand_over env oid o cid c fee address db ≡ ok (db', a))
  unfolding keep_or_hand_over
  keep_or_hand_over-Writes h = elim (Option-cases (get oid db.assignments)) [
    | inl absent ↦ inr (rw absent at h)
    | inr (b, present) ↦ kept_or_handed b present (rw present at h)
  ]

-- Acceptance: the caller still owns an awaiting assignment, in time; only the stamp is written.
pub accept-Writes :
    (env : Env) (oid : ℕ) (expected : Option ℕ) (db db' : Db)
    → accept env oid expected db ≡ ok db'
    → (a : Assignment) × (get oid db.assignments ≡ some a)
      × (key_eq a.courier expected ≡ true)
      × (is_after env.now a.expires_at ≡ false)
      × (is_awaiting a.step ≡ true)
      × (db'.assignments ≡ put oid (record a { accepted_at = some env.now }) db.assignments)
unfolding accept
accept-Writes env oid expected db db' h =
    let (o, there, h₁) = or_raise_inv _ (get oid db.orders) Refusal.order_missing h in
    let (a, found, h₂) = or_raise_inv _ (get oid db.assignments) Refusal.reassigned h₁ in
    (a, found, ground arith, ground arith, ground arith, ground arith)

-- A refusal by the courier closes an awaiting assignment of the caller.
pub decline-Writes :
    (env : Env) (oid : ℕ) (expected : Option ℕ) (reason : Text) (db db' : Db)
    → decline env oid expected reason db ≡ ok db'
    → (a : Assignment) × (get oid db.assignments ≡ some a)
      × (key_eq a.courier expected ≡ true)
      × (is_awaiting a.step ≡ true)
      × (db'.assignments
          ≡ put oid
              (record a { step = declined; declined_reason = take_chars 200 reason })
              db.assignments)
unfolding decline
decline-Writes env oid expected reason db db' h =
    let (o, there, h₁) = or_raise_inv _ (get oid db.orders) Refusal.order_missing h in
    let (a, found, h₂) = or_raise_inv _ (get oid db.assignments) Refusal.reassigned h₁ in
    (a, found, ground arith, ground arith, ground arith)

close_order-assignments :
    (target : Step) (env : Env) (oid : ℕ) (o : Order) (code : Option Text) (db : Db)
    → (close_order target env oid o code db).assignments ≡ db.assignments
unfolding close_order
close_order-assignments target env oid o code db = ground arith

-- A courier's step: the caller owns the assignment, and the step is allowed and ahead.
pub advance_status-Writes :
    (env : Env) (oid : ℕ) (expected : Option ℕ) (target : Step) (db db' : Db) (a' : Assignment)
    → advance_status env oid expected target db ≡ ok (db', a')
    → (a : Assignment) × (get oid db.assignments ≡ some a)
      × (is_courier_settable target ≡ true)
      × (key_eq a.courier expected ≡ true)
      × (can_advance_to a.step target ≡ true)
      × (a' ≡ stamp target env.now (record a { step = target }))
      × (db'.assignments ≡ put oid a' db.assignments)
unfolding advance_status
advance_status-Writes env oid expected target db db' a' h =
    let (settable, h₀) = raise_if_inv _ _ (Refusal.not_settable target) h in
    let (o, there, h₁) = or_raise_inv _ (get oid db.orders) Refusal.order_missing h₀ in
    let (a, found, h₂) = or_raise_inv _ (get oid db.assignments) Refusal.assignment_missing h₁ in
    let (mine, h₃) = raise_if_inv _ _ Refusal.reassigned h₂ in
    let (ahead, h₄) = raise_if_inv _ _ (Refusal.illegal_transition a.step target) h₃ in
    let (u, locked, h₅) = bind_ok_inv _ (lock_owner target a.courier db) h₄ in
    let row = stamp target env.now (record a { step = target }) in
    let code = courier_code a.courier db in
    let e : row ≡ a' = ap (λ r. r.1) (ok-injective h₅) in
    (
      a,
      found,
      not-eq-false settable,
      not-eq-false mine,
      not-eq-false ahead,
      sym e,
      sym (ap (λ r. r.0.assignments) (ok-injective h₅))
          ∙ close_order-assignments target env oid o code (save_assignment oid row db)
          ∙ ap (λ x. put oid x db.assignments) e,
    )

marked :
    (env : Env) (oid : ℕ) (o : Order) (row : Option Assignment) (db : Db)
    → ((flip_ready env oid o row db).assignments ≡ db.assignments)
      ⊎ ((a : Assignment) × (ready_at : Option ℕ) × (row ≡ some a)
          × (step_eq a.step assigned ≡ true)
          × ((flip_ready env oid o row db).assignments
              ≡ put oid (record a { step = ready; ready_at = ready_at }) db.assignments))
unfolding flip_ready
marked env oid o none db = inl refl
marked env oid o (some a) db = elim (Bool-cases (step_eq a.step assigned)) [
  | inl waiting ↦ inr (
    a,
    or_else o.ready_at (some env.now),
    refl,
    waiting,
    rw waiting (notify-assignments env a.courier oid order_is_ready _),
  )
  | inr moved ↦ inl (rw moved)
]

-- The kitchen's mark moves a waiting assignment to ready, and nothing else.
pub mark_ready-Writes :
    (env : Env) (oid : ℕ) (db : Db)
    → ((mark_ready env oid db).assignments ≡ db.assignments)
      ⊎ ((a : Assignment) × (ready_at : Option ℕ) × (get oid db.assignments ≡ some a)
          × (step_eq a.step assigned ≡ true)
          × ((mark_ready env oid db).assignments
              ≡ put oid (record a { step = ready; ready_at = ready_at }) db.assignments))
unfolding mark_ready
mark_ready-Writes env oid db = elim (Option-cases (live_order oid db)) [
  | inl gone ↦ inl (rw gone)
  | inr (o, there) ↦ rw there (marked env oid o (get oid db.assignments) db)
]
