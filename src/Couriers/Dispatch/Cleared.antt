-- ===== src/Couriers/Dispatch/Cleared.antt =====
-- The till rider of an assigned order (couriers/services.py, assign).
use alpha_pos_server.Base.{
  ℕ, ◌≡◌, inl, inr, Option, none, some, arith, get, ok, raise_if_inv, bind_ok_inv, ok-injective,
  sym, ap, ◌∙◌, Bool-cases, Option-cases, get-put_self,
}
use alpha_pos_server.Base.Int.{ℤ}
use alpha_pos_server.Couriers.Records.{Order, Courier, Address, Assignment, Db, is_completed}
use alpha_pos_server.Couriers.Dispatch.{
  Env, Actor, Conflict, assign, keep_or_hand_over, hand_over, live_order, is_same, fresh_assignment,
  announce, clear_delivery_person, save_assignment, protected_step, previous_courier,
}
use alpha_pos_server.Couriers.Dispatch.Writes.{assign-Assigned}

-- Of the orders, an assignment changes its own at most, and there only the till's rider.
announce-orders :
    (env : Env) (oid : ℕ) (o : Order) (cid : ℕ) (c : Courier) (a : Assignment) (previous : Option ℕ)
    (db : Db)
    → (announce env oid o cid c a previous db).orders ≡ db.orders
unfolding announce
announce-orders env oid o cid c a previous db = ground arith

live_order-found :
    (oid : ℕ) (o : Order) (db : Db) → live_order oid db ≡ some o → get oid db.orders ≡ some o
unfolding live_order
live_order-found oid o db h = ground arith

no_rider : (o : Order) → o.delivery_person ≡ none → o ≡ record o { delivery_person = none }
no_rider o h = ground arith

cleared :
    (oid : ℕ) (o : Order) (db : Db)
    → get oid db.orders ≡ some o
    → get oid (clear_delivery_person oid o db).orders ≡ some (record o { delivery_person = none })
unfolding clear_delivery_person
cleared oid o db there = elim (Option-cases o.delivery_person) [
  | inl nobody ↦ rw nobody (there ∙ ap some (no_rider o nobody))
  | inr (u, rider) ↦ rw rider (get-put_self oid (record o { delivery_person = none }) db.orders)
]

module _ (env : Env) (oid : ℕ) (o : Order) (cid : ℕ) (c : Courier) (fee : ℤ) (address : Address)
    (db db' : Db) (a : Assignment) (there : get oid db.orders ≡ some o) where
  abbrev Cleared : Type 0
  Cleared = get oid db'.orders ≡ some (record o { delivery_person = none })

  hand_over-Cleared : hand_over env oid o cid c fee address db ≡ ok (db', a) → Cleared
  unfolding hand_over
  hand_over-Cleared h =
      let (unfinished, h₁) = raise_if_inv _ (is_completed o.status) Conflict.order_completed h in
      let (u, movable, h₂) = bind_ok_inv _ (protected_step (get oid db.assignments)) h₁ in
      let row = fresh_assignment env o cid fee address in
      let saved = clear_delivery_person oid o (save_assignment oid row db) in
      sym (ap (λ r. get oid r.0.orders) (ok-injective h₂))
      ∙ ap (get oid) (
          announce-orders env oid o cid c row (previous_courier cid (get oid db.assignments)) saved)
      ∙ cleared oid o (save_assignment oid row db) there

  kept-Cleared :
      (b : Assignment)
      → keep_or_hand_over env oid o cid c fee address (some b) db ≡ ok (db', a)
      → Cleared
  unfolding keep_or_hand_over
  kept-Cleared b h = elim (Bool-cases (is_same cid (some b))) [
    | inl same ↦
        sym (ap (λ r. get oid r.0.orders) (ok-injective (rw same at h))) ∙ cleared oid o db there
    | inr other ↦ hand_over-Cleared (rw other at h)
  ]

  keep_or_hand_over-Cleared :
      keep_or_hand_over env oid o cid c fee address (get oid db.assignments) db ≡ ok (db', a)
      → Cleared
  unfolding keep_or_hand_over
  keep_or_hand_over-Cleared h = elim (Option-cases (get oid db.assignments)) [
    | inl absent ↦ hand_over-Cleared (rw absent at h)
    | inr (b, present) ↦ kept-Cleared b (rw present at h)
  ]

-- After an assignment the order carries no rider of the till, and is otherwise as it was.
pub assign-Cleared :
    (env : Env) (actor : Actor) (oid cid : ℕ) (fee : ℤ) (address : Address) (db db' : Db)
    (a : Assignment)
    → assign env actor oid cid fee address db ≡ ok (db', a)
    → (o : Order) × (get oid db.orders ≡ some o)
      × (get oid db'.orders ≡ some (record o { delivery_person = none }))
assign-Cleared env actor oid cid fee address db db' a h =
    let s = assign-Assigned env actor oid cid fee address db (db', a) h in
    let there = live_order-found oid s.order db s.found in
    (
      s.order,
      there,
      keep_or_hand_over-Cleared env oid s.order cid s.courier fee address db db' a there s.result,
    )
