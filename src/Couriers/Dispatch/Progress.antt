-- ===== src/Couriers/Dispatch/Progress.antt =====
-- The courier steps of a delivery (couriers/services.py, advance_status).
use mathlib.Core.Path.{subst}
use alpha_pos_server.Base.{
  ℕ, ◌<◌, ◌≡◌, ◌≢◌, sym, ap, ◌∙◌, true, Option, some, or_raise_inv, raise_if_inv, bind_ok_inv,
  ok-injective, arith, get, get-put_self, get-put_ne, Text, ok, key_eq, if◌then◌else◌,
}
use alpha_pos_server.Couriers.Records.{
  Step, completed, delivered, step_code, is_completed, is_courier_settable, can_advance_to, Order,
  Assignment, Db,
}
use alpha_pos_server.Couriers.Dispatch.{
  Env, Refusal, advance_status, stamp, close_order, courier_code, lock_owner, save_assignment,
}
use alpha_pos_server.Couriers.Dispatch.Writes

can_advance_to-lt : (a b : Step) → can_advance_to a b ≡ true → step_code a < step_code b
unfolding can_advance_to
can_advance_to-lt a b h = ground arith

stamp-step : (target : Step) (now : ℕ) (a : Assignment) → (stamp target now a).step ≡ a.step
unfolding stamp
stamp-step target now a = ground arith

stamp-courier :
    (target : Step) (now : ℕ) (a : Assignment) → (stamp target now a).courier ≡ a.courier
unfolding stamp
stamp-courier target now a = ground arith

-- What a successful courier step has done to the assignment of order `oid`.
pub record Advanced (env : Env) (oid : ℕ) (expected : Option ℕ) (target : Step) (db db' : Db)
    (a a' : Assignment) : Type 0 where
  pub was : get oid db.assignments ≡ some a
  pub becomes : get oid db'.assignments ≡ some a'
  pub allowed : is_courier_settable target ≡ true
  pub reached : a'.step ≡ target
  pub forward : step_code a.step < step_code a'.step
  pub owner : key_eq a.courier expected ≡ true
  pub same_owner : a'.courier ≡ a.courier
  pub others : (k : ℕ) → k ≢ oid → get k db'.assignments ≡ get k db.assignments

-- When advance_status succeeds, the target is a step that couriers may set, the caller's owner is
-- the row's owner and stays so, the step rises strictly in the forward order to the target, and no
-- other order's assignment changes.
pub advance_status-Advanced :
    (env : Env) (oid : ℕ) (expected : Option ℕ) (target : Step) (db db' : Db) (a' : Assignment)
    → advance_status env oid expected target db ≡ ok (db', a')
    → (a : Assignment) × Advanced env oid expected target db db' a a'
advance_status-Advanced env oid expected target db db' a' h =
    let (a, found, settable, mine, ahead, row, written) =
      Writes.advance_status-Writes env oid expected target db db' a' h in
    let moved = record a { step = target } in
    let reached : a'.step ≡ target = ap (λ r. r.step) row ∙ stamp-step target env.now moved in
    (
      a,
      record {
        was = found;
        becomes = ap (get oid) written ∙ get-put_self oid a' db.assignments;
        allowed = settable;
        reached = reached;
        forward =
            subst (λ s. step_code a.step < step_code s) (sym reached)
              (can_advance_to-lt a.step target ahead);
        owner = mine;
        same_owner = ap (λ r. r.courier) row ∙ stamp-courier target env.now moved;
        others = λ k other. ap (get k) written ∙ get-put_ne k oid a' db.assignments other;
      },
    )

-- `order.status = 'COMPLETED'`, unless it is already.
abbrev pub closed : Order → Order
closed o = if is_completed o.status then o else record o { status = completed }

close_order-orders :
    (env : Env) (oid : ℕ) (o : Order) (code : Option Text) (db : Db)
    → get oid db.orders ≡ some o
    → get oid (close_order delivered env oid o code db).orders ≡ some (closed o)
unfolding close_order
close_order-orders env oid o code db there =
    ground (arith, get-put_self oid (record o { status = completed }) db.orders)

closed-is_completed : (o : Order) → is_completed (closed o).status ≡ true
closed-is_completed o = ground arith

-- When advance_status moves an assignment to DELIVERED, the POS order exists and is COMPLETED in
-- the new state, with its other columns unchanged, and the delivery carries the clock's time.
pub advance_status-delivers :
    (env : Env) (oid : ℕ) (expected : Option ℕ) (db db' : Db) (a' : Assignment)
    → advance_status env oid expected delivered db ≡ ok (db', a')
    → (o : Order) × (get oid db.orders ≡ some o)
      × (get oid db'.orders ≡ some (closed o))
      × (is_completed (closed o).status ≡ true)
      × (a'.delivered_at ≡ some env.now)
unfolding advance_status stamp
advance_status-delivers env oid expected db db' a' h =
    let (o, there, h₁) = or_raise_inv _ (get oid db.orders) Refusal.order_missing h in
    let (a, found, h₂) = or_raise_inv _ (get oid db.assignments) Refusal.assignment_missing h₁ in
    let (mine, h₃) = raise_if_inv _ _ Refusal.reassigned h₂ in
    let (ahead, h₄) = raise_if_inv _ _ (Refusal.illegal_transition a.step delivered) h₃ in
    let (u, locked, h₅) = bind_ok_inv _ (lock_owner delivered a.courier db) h₄ in
    let row = stamp delivered env.now (record a { step = delivered }) in
    let saved = save_assignment oid row db in
    (
      o,
      there,
      sym (ap (λ r. get oid r.0.orders) (ok-injective h₅))
          ∙ close_order-orders env oid o (courier_code a.courier db) saved there,
      closed-is_completed o,
      sym (ap (λ r. r.1.delivered_at) (ok-injective h₅)),
    )
