-- ===== src/Couriers/Dispatch/Exclusive.antt =====
-- Sequences of dispatch calls and the active deliveries of a courier (couriers/services.py).
use mathlib.Core.Path.{subst}
use alpha_pos_server.Base.{
  take_chars, ℕ, ◌≡◌, sym, inl, inr, Bool, true, false, ◌&&◌, Option, some, arith, Table, get, put,
  exists, exists-eq-false, get-put, Text, ok, is_key,
}
use alpha_pos_server.Base.Int.{ℤ}
use alpha_pos_server.Couriers.Records.{
  Step, ready, declined, is_courier_settable, can_advance_to, is_busy, Order, Courier, Address,
  Assignment, Db,
}
use alpha_pos_server.Couriers.Dispatch.{
  Env, Actor, assign, accept, decline, mark_ready, advance_status, busy_row, fresh_assignment,
  stamp,
}
use alpha_pos_server.Couriers.Dispatch.Writes

-- The assignment is an active delivery of courier `c`.
abbrev pub holds : ℕ → Assignment → Bool
holds c a = is_key c a.courier && is_busy a.step

-- No courier has two active deliveries.
abbrev pub Exclusive : Table Assignment → Type 0
Exclusive t =
    (j k c : ℕ) (a b : Assignment)
    → get j t ≡ some a
    → get k t ≡ some b
    → holds c a ≡ true
    → holds c b ≡ true
    → j ≡ k

module _ (oid : ℕ) (a' : Assignment) (t : Table Assignment) (exclusive : Exclusive t) where
  -- A row that becomes active for a courier who is free elsewhere.
  Exclusive-put_free :
      ((c : ℕ) → holds c a' ≡ true → exists (busy_row c oid) t ≡ false) → Exclusive (put oid a' t)
  Exclusive-put_free free j k c a b ja kb ha hb = ground (
    arith,
    get-put j oid a' t,
    get-put k oid a' t,
    exclusive j k c a b,
    free c,
    exists-eq-false (busy_row c oid) t j a,
    exists-eq-false (busy_row c oid) t k b,
  )

  -- A row that is active for no courier for whom it was not.
  Exclusive-put_kept :
      (a : Assignment)
      → get oid t ≡ some a
      → ((c : ℕ) → holds c a' ≡ true → holds c a ≡ true)
      → Exclusive (put oid a' t)
  Exclusive-put_kept a₀ found kept j k c a b ja kb ha hb = ground (
    arith,
    get-put j oid a' t,
    get-put k oid a' t,
    exclusive j k c a b,
    exclusive oid k c a₀ b,
    exclusive j oid c a a₀,
    kept c,
  )

-- The owner of a new row.
fresh_owner :
    (env : Env) (o : Order) (cid : ℕ) (fee : ℤ) (address : Address) (k : ℕ)
    → holds k (fresh_assignment env o cid fee address) ≡ true
    → cid ≡ k
unfolding fresh_assignment
fresh_owner env o cid fee address k h = ground arith

-- A courier's own step starts no delivery.
advanced_holds :
    (env : Env) (target : Step) (a : Assignment) (c : ℕ)
    → is_courier_settable target ≡ true
    → can_advance_to a.step target ≡ true
    → holds c (stamp target env.now (record a { step = target })) ≡ true
    → holds c a ≡ true
unfolding stamp can_advance_to
advanced_holds env target a c settable ahead h = ground arith

module _ (db db' : Db) (exclusive : Exclusive db.assignments) where
  assign-Exclusive :
      (env : Env) (actor : Actor) (oid cid : ℕ) (fee : ℤ) (address : Address) (a : Assignment)
      → assign env actor oid cid fee address db ≡ ok (db', a)
      → Exclusive db'.assignments
  assign-Exclusive env actor oid cid fee address a h =
      let s = Writes.assign-Assigned env actor oid cid fee address db (db', a) h in
      elim (Writes.keep_or_hand_over-Writes env oid s.order cid s.courier fee address db db' a
        s.result) [
          | inl kept ↦ subst Exclusive (sym kept.0) exclusive
          | inr moved ↦
              let (written, row, _, _) =
                Writes.hand_over-Writes env oid s.order cid s.courier fee address db db' a moved in
              subst Exclusive (sym written) (
                Exclusive-put_free oid a db.assignments exclusive λ k held.
                  subst (λ i. exists (busy_row i oid) db.assignments ≡ false)
                    (fresh_owner env s.order cid fee address k
                      (subst (λ x. holds k x ≡ true) row held))
                    s.passed.free)
        ]

  accept-Exclusive :
      (env : Env) (oid : ℕ) (expected : Option ℕ)
      → accept env oid expected db ≡ ok db'
      → Exclusive db'.assignments
  accept-Exclusive env oid expected h =
      let (a, found, _, _, _, written) = Writes.accept-Writes env oid expected db db' h in
      subst Exclusive (sym written) (
        Exclusive-put_kept oid (record a { accepted_at = some env.now }) db.assignments exclusive a
          found (λ c held. held))

  decline-Exclusive :
      (env : Env) (oid : ℕ) (expected : Option ℕ) (reason : Text)
      → decline env oid expected reason db ≡ ok db'
      → Exclusive db'.assignments
  decline-Exclusive env oid expected reason h =
      let (a, found, _, _, written) = Writes.decline-Writes env oid expected reason db db' h in
      subst Exclusive (sym written) (
        Exclusive-put_kept oid
          (record a { step = declined; declined_reason = take_chars 200 reason }) db.assignments
          exclusive a found (λ c held. ground arith))

  advance_status-Exclusive :
      (env : Env) (oid : ℕ) (expected : Option ℕ) (target : Step) (a' : Assignment)
      → advance_status env oid expected target db ≡ ok (db', a')
      → Exclusive db'.assignments
  advance_status-Exclusive env oid expected target a' h =
      let (a, found, settable, _, ahead, row, written) =
        Writes.advance_status-Writes env oid expected target db db' a' h in
      subst Exclusive (sym written) (
        Exclusive-put_kept oid a' db.assignments exclusive a found (λ c held.
          advanced_holds env target a c settable ahead (subst (λ x. holds c x ≡ true) row held)))

mark_ready-Exclusive :
    (env : Env) (oid : ℕ) (db : Db)
    → Exclusive db.assignments
    → Exclusive (mark_ready env oid db).assignments
mark_ready-Exclusive env oid db exclusive = elim (Writes.mark_ready-Writes env oid db) [
  | inl same ↦ subst Exclusive (sym same) exclusive
  | inr (a, ready_at, found, waiting, written) ↦ subst Exclusive (sym written) (
      Exclusive-put_kept oid (record a { step = ready; ready_at = ready_at }) db.assignments
        exclusive a found (λ c held. ground arith))
]

-- One call of the dispatch services, or a change that another part of the server makes to orders
-- or couriers.
pub data DispatchStep : Db → Db → Type 0 where
  assigns :
      (env : Env) (actor : Actor) (oid cid : ℕ) (fee : ℤ) (address : Address) {db db' : Db}
      (a : Assignment)
      → assign env actor oid cid fee address db ≡ ok (db', a)
      → DispatchStep db db'
  accepts :
      (env : Env) (oid : ℕ) (expected : Option ℕ) {db db' : Db}
      → accept env oid expected db ≡ ok db'
      → DispatchStep db db'
  declines :
      (env : Env) (oid : ℕ) (expected : Option ℕ) (reason : Text) {db db' : Db}
      → decline env oid expected reason db ≡ ok db'
      → DispatchStep db db'
  marks_ready : (env : Env) (oid : ℕ) {db : Db} → DispatchStep db (mark_ready env oid db)
  advances :
      (env : Env) (oid : ℕ) (expected : Option ℕ) (target : Step) {db db' : Db} (a : Assignment)
      → advance_status env oid expected target db ≡ ok (db', a)
      → DispatchStep db db'
  others_write :
      {db : Db} (orders : Table Order) (couriers : Table Courier)
      → DispatchStep db (record db { orders = orders; couriers = couriers })

pub data Reach (start : Db) : Db → Type 0 where
  here : Reach start start
  next : {db db' : Db} → Reach start db → DispatchStep db db' → Reach start db'

DispatchStep-Exclusive :
    {db db' : Db} → DispatchStep db db' → Exclusive db.assignments → Exclusive db'.assignments
DispatchStep-Exclusive (assigns env actor oid cid fee address {db = db} {db' = db'} a h) exclusive =
    assign-Exclusive db db' exclusive env actor oid cid fee address a h
DispatchStep-Exclusive (accepts env oid expected {db = db} {db' = db'} h) exclusive =
    accept-Exclusive db db' exclusive env oid expected h
DispatchStep-Exclusive (declines env oid expected reason {db = db} {db' = db'} h) exclusive =
    decline-Exclusive db db' exclusive env oid expected reason h
DispatchStep-Exclusive (marks_ready env oid {db = db}) exclusive =
    mark_ready-Exclusive env oid db exclusive
DispatchStep-Exclusive (advances env oid expected target {db = db} {db' = db'} a h) exclusive =
    advance_status-Exclusive db db' exclusive env oid expected target a h
DispatchStep-Exclusive (others_write orders couriers) exclusive = exclusive

-- From a state in which no courier has two active deliveries, every sequence of assign, accept,
-- decline, mark_ready and advance_status calls, with any changes to orders and couriers between
-- them, leads to such a state.
pub Reach-Exclusive :
    {start db : Db} → Exclusive start.assignments → Reach start db → Exclusive db.assignments
Reach-Exclusive exclusive here = exclusive
Reach-Exclusive exclusive (next r st) = DispatchStep-Exclusive st (Reach-Exclusive exclusive r)
