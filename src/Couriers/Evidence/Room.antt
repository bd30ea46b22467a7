-- ===== src/Couriers/Evidence/Room.antt =====
-- The room that is left for a collection (couriers/payments.py, _capacity_error).
use mathlib.Core.Path.{subst}
use alpha_pos_server.Base.{
  ◌≡◌, refl, sym, ap, Bool, true, false, not, ◌&&◌, [], ◌∷◌, ◌++◌, arith, ok, ok-injective,
  bind_ok_inv, raise_if_inv,
}
use alpha_pos_server.Base.Int.{ℤ, pos, ◌+ℤ◌, ◌-ℤ◌, ◌≤ℤ◌, ltb_ℤ, leb_ℤ}
use alpha_pos_server.Couriers.Evidence.{
  Methods, ExternalRow, CourierRow, Sale, Sums, PaymentEvidence, add_external, till_loop,
  external_loop, courier_loop, all_sums, evidence_of, no_sums, exceeds_remaining, total_of,
  payment_evidence, capacity,
}
use alpha_pos_server.Couriers.Evidence.Amounts.{not_below, total-le_due, total-add}
use alpha_pos_server.Couriers.Evidence.Loops.{
  last_passed, Extends, IsValid, external_loop-snoc, add_external-Extends, is_unused,
  courier_loop-snoc, till_loop-nonneg, external_loop-tendered, courier_loop-tendered,
}

evidence_inv :
    (m : Methods) (sale : Sale) (e : PaymentEvidence)
    → payment_evidence m sale ≡ ok e
    → (x : Sums × Bool) × (all_sums m sale ≡ ok x)
      × (ltb_ℤ sale.due (x.0.noncash +ℤ x.0.exact) ≡ false)
      × (e.total ≡ total_of sale.due x.0)
      × (e.due ≡ sale.due)
unfolding payment_evidence
evidence_inv m sale e h =
    let (x, summed, h1) = bind_ok_inv _ (all_sums m sale) h in
    let (fit, done) = raise_if_inv _ (ltb_ℤ sale.due (x.0.noncash +ℤ x.0.exact)) _ h1 in
    let e_eq = sym (ok-injective done) in
    (x, summed, fit, ap (λ p. p.total) e_eq, ap (λ p. p.due) e_eq)

evidence-ok :
    (m : Methods) (sale : Sale) (x : Sums × Bool)
    → all_sums m sale ≡ ok x
    → ltb_ℤ sale.due (x.0.noncash +ℤ x.0.exact) ≡ false
    → (e : PaymentEvidence) × (payment_evidence m sale ≡ ok e) × (e.total ≡ total_of sale.due x.0)
unfolding payment_evidence
evidence-ok m sale x summed fit = (evidence_of m sale x, rw (summed, fit) refl, refl)

-- The sale after a collection: its event, and the courier payment that it mirrors.
abbrev pub collected : Sale → ExternalRow → CourierRow → Sale
collected sale r c = record sale {
  external = sale.external ++ r ∷ [];
  courier = sale.courier ++ c ∷ [];
}

all_sums-ok :
    (m : Methods) (sale : Sale) (till ext : Sums) (y : Sums × Bool)
    → till_loop m sale.branch sale.till no_sums ≡ ok till
    → ltb_ℤ sale.due till.noncash ≡ false
    → external_loop m sale.branch sale.external till ≡ ok ext
    → courier_loop m sale.branch sale.courier ext ≡ ok y
    → all_sums m sale ≡ ok y
unfolding all_sums
all_sums-ok m sale till ext y a b c d = rw (a, b, c) d

tendered-nonneg : (a b c : ℤ) → c ≡ b → b ≡ a → pos 0 ≤ℤ a → pos 0 ≤ℤ c
tendered-nonneg a b c e f h = rw (e, f) h

all_sums-collected :
    (m : Methods) (sale : Sale) (r : ExternalRow) (c : CourierRow) (x : Sums × Bool)
    → all_sums m sale ≡ ok x
    → IsValid m sale.branch r
    → is_unused r.source_id sale.courier ≡ true
    → c.external_id ≡ r.source_id
    → (t : Sums) × (all_sums m (collected sale r c) ≡ ok (t, x.1))
      × Extends r.source_id r.amount x.0 t
      × (pos 0 ≤ℤ x.0.tendered)
unfolding all_sums
all_sums-collected m sale r c x h valid unused own =
    let (till, tilled, h1) = bind_ok_inv _ (till_loop m sale.branch sale.till no_sums) h in
    let (fit, h2) = raise_if_inv _ (ltb_ℤ sale.due till.noncash) _ h1 in
    let (ext, exted, done) = bind_ok_inv _ (external_loop m sale.branch sale.external till) h2 in
    let (t, counted, grown) =
      courier_loop-snoc m sale.branch sale.courier c r.source_id r.amount ext (add_external r ext)
        x.0 x.1 done (add_external-Extends r ext) unused own in
    (
      t,
      all_sums-ok m (collected sale r c) till (add_external r ext) (t, x.1) tilled fit
          (external_loop-snoc m sale.branch sale.external r till ext exted valid) counted,
      grown,
      tendered-nonneg till.tendered ext.tendered x.0.tendered
          (courier_loop-tendered m sale.branch sale.courier ext x.0 x.1 done)
          (external_loop-tendered m sale.branch sale.external till ext exted)
          (till_loop-nonneg m sale.branch sale.till no_sums till tilled (omega arith)),
    )

-- The evidence of an order never counts more than what is due.
pub total_is_within_due :
    (m : Methods) (sale : Sale) (e : PaymentEvidence)
    → payment_evidence m sale ≡ ok e
    → e.total ≤ℤ sale.due
total_is_within_due m sale e h =
    let (x, summed, fit, total_eq, due_eq) = evidence_inv m sale e h in
    rw total_eq (total-le_due sale.due x.0.noncash x.0.tendered x.0.exact fit)

capacity_inv :
    (m : Methods) (sale : Sale) (is_paid : Bool) (amount : ℤ)
    → capacity m sale is_paid amount ≡ ok tt
    → (e : PaymentEvidence) × (payment_evidence m sale ≡ ok e) × (amount ≤ℤ e.due -ℤ e.total)
unfolding capacity
capacity_inv m sale is_paid amount h =
    let (e, found, h1) = bind_ok_inv _ (payment_evidence m sale) h in
    let (due, h2) = raise_if_inv _ (leb_ℤ e.due (pos 0)) _ h1 in
    let (open_order, h3) = raise_if_inv _ (is_paid && not e.has_rows) _ h2 in
    (e, found, not_below _ amount (last_passed _ exceeds_remaining h3))

-- A collection that the capacity check lets through, recorded as a valid event whose key no courier
-- payment of the order has, with the payment that it mirrors, leaves evidence that is again valid:
-- it counts exactly that amount more, once though two rows hold it, and still not more than is due.
pub collection_fits :
    (m : Methods) (sale : Sale) (is_paid : Bool) (r : ExternalRow) (c : CourierRow)
    → capacity m sale is_paid r.amount ≡ ok tt
    → IsValid m sale.branch r
    → is_unused r.source_id sale.courier ≡ true
    → c.external_id ≡ r.source_id
    → (e : PaymentEvidence) × (e' : PaymentEvidence) × (payment_evidence m sale ≡ ok e)
      × (payment_evidence m (collected sale r c) ≡ ok e')
      × (e'.total ≡ e.total +ℤ r.amount)
      × (e'.total ≤ℤ sale.due)
collection_fits m sale is_paid r c h valid unused own =
    let (e, found, room) = capacity_inv m sale is_paid r.amount h in
    let (x, summed, fit, total_eq, due_eq) = evidence_inv m sale e found in
    let (t, summed', (n, tendered, exact, mirrored), nonneg) =
      all_sums-collected m sale r c x summed valid unused own in
    let room' : r.amount ≤ℤ sale.due -ℤ total_of sale.due x.0 =
      subst (λ d. r.amount ≤ℤ d -ℤ total_of sale.due x.0) due_eq
        (subst (λ d. r.amount ≤ℤ e.due -ℤ d) total_eq room) in
    let (total_eq', fit') =
      total-add sale.due x.0.noncash x.0.tendered x.0.exact r.amount nonneg valid.2 room' fit in
    let (e', found', same) =
      evidence-ok m (collected sale r c) (t, x.1) summed' (rw (n, exact) fit') in
    (
      e,
      e',
      found,
      found',
      rw (same, n, tendered, exact, total_eq) total_eq',
      total_is_within_due m (collected sale r c) e' found',
    )

pub evidence_due :
    (m : Methods) (sale : Sale) (e : PaymentEvidence)
    → payment_evidence m sale ≡ ok e
    → e.due ≡ sale.due
evidence_due m sale e h = let (x, summed, fit, total_eq, due_eq) = evidence_inv m sale e h in due_eq
