-- ===== src/Couriers/Dispatch/Final.antt =====
-- Sequences of dispatch calls on one assignment row (couriers/services.py).
use mathlib.Core.Path.{subst}
use alpha_pos_server.Base.{
  ℕ, ◌≡◌, refl, sym, ap, ◌∙◌, inl, inr, true, false, Option, some, take_chars, arith, Table, get,
  put, get-put, get-put_self, Text, ok, err, key_eq,
}
use alpha_pos_server.Base.Int.{ℤ}
use alpha_pos_server.Couriers.Records.{
  Step, declined, delivered, ready, step_eq, is_courier_settable, can_advance_to, Order, Courier,
  Address, Assignment, Db,
}
use alpha_pos_server.Couriers.Dispatch.{
  Env, Actor, Refusal, assign, accept, decline, mark_ready, advance_status, fresh_assignment,
  is_same, hand_over,
}
use alpha_pos_server.Couriers.Dispatch.Writes
use alpha_pos_server.Couriers.Dispatch.Cleared.{assign-Cleared}
use alpha_pos_server.Couriers.Dispatch.Exclusive.{
  DispatchStep, assigns, accepts, declines, marks_ready, advances, others_write, Reach, here, next,
}

advances_open : (a b : Step) → can_advance_to a b ≡ true → step_eq a delivered ≡ false
unfolding can_advance_to
advances_open a b h = ground arith

is_same-courier : (cid : ℕ) (a : Assignment) → is_same cid (some a) ≡ true → a.courier ≡ some cid
is_same-courier cid a h = ground arith

fresh_assignment-courier :
    (env : Env) (o : Order) (cid : ℕ) (fee : ℤ) (address : Address)
    → (fresh_assignment env o cid fee address).courier ≡ some cid
unfolding fresh_assignment
fresh_assignment-courier env o cid fee address = refl

-- A write of an open row leaves the delivered ones.
abbrev Final : ℕ → Assignment → Table Assignment → Type 0
Final oid a t = (get oid t ≡ some a) × (step_eq a.step delivered ≡ true)

put-Final :
    (oid k : ℕ) (a b a' : Assignment) (t : Table Assignment)
    → Final oid a t
    → get k t ≡ some b
    → step_eq b.step delivered ≡ false
    → Final oid a (put k a' t)
put-Final oid k a b a' t final found open_row = ground (arith, get-put oid k a' t)

module _ (oid : ℕ) (a : Assignment) (db db' : Db) (final : Final oid a db.assignments) where
  hand_over-Final :
      (env : Env) (k : ℕ) (o : Order) (cid : ℕ) (c : Courier) (fee : ℤ) (address : Address)
      (b : Assignment)
      → hand_over env k o cid c fee address db ≡ ok (db', b)
      → Final oid a db'.assignments
  hand_over-Final env k o cid c fee address b h =
      let (written, row, open_order, movable) =
        Writes.hand_over-Writes env k o cid c fee address db db' b h in
      subst (Final oid a) (sym written) (ground (arith, get-put oid k b db.assignments, movable a))

  assign-Final :
      (env : Env) (actor : Actor) (k cid : ℕ) (fee : ℤ) (address : Address) (b : Assignment)
      → assign env actor k cid fee address db ≡ ok (db', b)
      → Final oid a db'.assignments
  assign-Final env actor k cid fee address b h =
      let s = Writes.assign-Assigned env actor k cid fee address db (db', b) h in
      elim (Writes.keep_or_hand_over-Writes env k s.order cid s.courier fee address db db' b
        s.result) [
          | inl kept ↦ subst (Final oid a) (sym kept.0) final
          | inr moved ↦ hand_over-Final env k s.order cid s.courier fee address b moved
        ]

  accept-Final :
      (env : Env) (k : ℕ) (expected : Option ℕ)
      → accept env k expected db ≡ ok db'
      → Final oid a db'.assignments
  accept-Final env k expected h =
      let (b, found, _, _, waiting, written) = Writes.accept-Writes env k expected db db' h in
      subst (Final oid a) (sym written) (
        put-Final oid k a b (record b { accepted_at = some env.now }) db.assignments final found
          (ground arith))

  decline-Final :
      (env : Env) (k : ℕ) (expected : Option ℕ) (reason : Text)
      → decline env k expected reason db ≡ ok db'
      → Final oid a db'.assignments
  decline-Final env k expected reason h =
      let (b, found, _, waiting, written) = Writes.decline-Writes env k expected reason db db' h in
      let row = record b { step = declined; declined_reason = take_chars 200 reason } in
      subst (Final oid a) (sym written)
        (put-Final oid k a b row db.assignments final found (ground arith))

  advance_status-Final :
      (env : Env) (k : ℕ) (expected : Option ℕ) (target : Step) (b' : Assignment)
      → advance_status env k expected target db ≡ ok (db', b')
      → Final oid a db'.assignments
  advance_status-Final env k expected target b' h =
      let (b, found, settable, _, ahead, row, written) =
        Writes.advance_status-Writes env k expected target db db' b' h in
      subst (Final oid a) (sym written)
        (put-Final oid k a b b' db.assignments final found (advances_open b.step target ahead))

mark_ready-Final :
    (oid : ℕ) (a : Assignment) (env : Env) (k : ℕ) (db : Db)
    → Final oid a db.assignments
    → Final oid a (mark_ready env k db).assignments
mark_ready-Final oid a env k db final = elim (Writes.mark_ready-Writes env k db) [
  | inl same ↦ subst (Final oid a) (sym same) final
  | inr (b, ready_at, found, waiting, written) ↦ subst (Final oid a) (sym written) (
      put-Final oid k a b (record b { step = ready; ready_at = ready_at }) db.assignments final
        found (ground arith))
]

DispatchStep-Final :
    (oid : ℕ) (a : Assignment) {db db' : Db}
    → DispatchStep db db'
    → Final oid a db.assignments
    → Final oid a db'.assignments
DispatchStep-Final oid a (assigns env actor k cid fee address {db = db} {db' = db'} b h) final =
    assign-Final oid a db db' final env actor k cid fee address b h
DispatchStep-Final oid a (accepts env k expected {db = db} {db' = db'} h) final =
    accept-Final oid a db db' final env k expected h
DispatchStep-Final oid a (declines env k expected reason {db = db} {db' = db'} h) final =
    decline-Final oid a db db' final env k expected reason h
DispatchStep-Final oid a (marks_ready env k {db = db}) final = mark_ready-Final oid a env k db final
DispatchStep-Final oid a (advances env k expected target {db = db} {db' = db'} b h) final =
    advance_status-Final oid a db db' final env k expected target b h
DispatchStep-Final oid a (others_write orders couriers) final = final

Reach-Final :
    (oid : ℕ) (a : Assignment) {start db : Db}
    → Final oid a start.assignments
    → Reach start db
    → Final oid a db.assignments
Reach-Final oid a final here = final
Reach-Final oid a final (next r st) = DispatchStep-Final oid a st (Reach-Final oid a final r)

-- An assignment that is DELIVERED is final: whatever sequence of assign, accept, decline,
-- mark_ready and advance_status calls follows, on any orders and by any couriers, its row keeps
-- every column (courier, fee, times and address) as it was at delivery.
pub delivered_row_is_final :
    (oid : ℕ) (a : Assignment) {start db : Db}
    → get oid start.assignments ≡ some a
    → step_eq a.step delivered ≡ true
    → Reach start db
    → get oid db.assignments ≡ some a
delivered_row_is_final oid a found done r = (Reach-Final oid a (found, done) r).0

assign-row :
    (env : Env) (actor : Actor) (oid cid : ℕ) (fee : ℤ) (address : Address) (db db' : Db)
    (a : Assignment)
    → assign env actor oid cid fee address db ≡ ok (db', a)
    → (get oid db'.assignments ≡ some a) × (a.courier ≡ some cid)
assign-row env actor oid cid fee address db db' a h =
    let s = Writes.assign-Assigned env actor oid cid fee address db (db', a) h in
    elim (Writes.keep_or_hand_over-Writes env oid s.order cid s.courier fee address db db' a
      s.result) [
        | inl (same, found, mine) ↦ (ap (get oid) same ∙ found, is_same-courier cid a mine)
        | inr moved ↦
            let (written, row, _, _) =
              Writes.hand_over-Writes env oid s.order cid s.courier fee address db db' a moved in
            (
              ap (get oid) written ∙ get-put_self oid a db.assignments,
              ap (λ r. r.courier) row ∙ fresh_assignment-courier env s.order cid fee address,
            )
      ]

-- After an assignment to courier `cid`, a call by anyone who held the order before (an owner other
-- than `cid` on the caller's copy) to accept, decline or advance it is refused with the message
-- that the order was reassigned, for every clock, reason and settable step.
pub reassigned_owner_is_refused :
    (env later : Env) (actor : Actor) (oid cid : ℕ) (fee : ℤ) (address : Address) (db db' : Db)
    (a : Assignment) (expected : Option ℕ) (reason : Text) (target : Step)
    → assign env actor oid cid fee address db ≡ ok (db', a)
    → key_eq (some cid) expected ≡ false
    → is_courier_settable target ≡ true
    → (accept later oid expected db' ≡ err Refusal.reassigned)
      × (decline later oid expected reason db' ≡ err Refusal.reassigned)
      × (advance_status later oid expected target db' ≡ err Refusal.reassigned)
unfolding accept decline advance_status
reassigned_owner_is_refused env later actor oid cid fee address db db' a expected reason target h
      other settable =
    let (o, _, there) = assign-Cleared env actor oid cid fee address db db' a h in
    let (row, owner) = assign-row env actor oid cid fee address db db' a h in
    (ground arith, ground arith, ground arith)
