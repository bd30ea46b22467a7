-- ===== src/Couriers/Evidence/Header.antt =====
-- The paid header of an order (couriers/payments.py, _recompute_order_paid).
use alpha_pos_server.Base.{
  ℕ, ◌≡◌, ◌⊎◌, inl, inr, refl, sym, ◌∙◌, Bool, true, false, ◌&&◌, Option, Bool-cases, arith, Result,
  err, ok, true-ne-false,
}
use alpha_pos_server.Base.Int.{pos, ◌≤ℤ◌, ltb_ℤ, leb_ℤ, eq_of_parts}
use alpha_pos_server.Couriers.Evidence.{
  Methods, Sale, EvidenceError, PaymentEvidence, PaidHeader, payment_evidence, derived,
  from_evidence, recompute_order_paid,
}
use alpha_pos_server.Couriers.Evidence.Room.{total_is_within_due, evidence_due}

-- The evidence covers a bill that is not nothing.
abbrev pub covers : PaymentEvidence → Bool
covers e = ltb_ℤ (pos 0) e.total && leb_ℤ e.due e.total

both_true : (a b : Bool) → a && b ≡ true → b ≡ true
both_true true b h = h
both_true false b h = cc

covers-due : (e : PaymentEvidence) → covers e ≡ true → e.total ≤ℤ e.due → e.total ≡ e.due
covers-due e h below =
    let le = both_true (ltb_ℤ (pos 0) e.total) (leb_ℤ e.due e.total) h in
    eq_of_parts e.total e.due (ground arith)

derived-paid :
    (m : Methods) (now : ℕ) (at : Option ℕ) (e : PaymentEvidence) (h : PaidHeader)
    → h.is_paid ≡ false
    → (derived m now at e h).is_paid ≡ true
    → covers e ≡ true
derived-paid m now at e h unpaid paid = elim (Bool-cases (covers e)) [
  | inl c ↦ c
  | inr c ↦ true-ne-false (sym paid ∙ rw (c, unpaid) refl)
]

-- A header turns paid only on valid evidence that covers the bill exactly.
pub header_is_earned :
    (m : Methods) (now : ℕ) (at : Option ℕ) (sale : Sale) (h : PaidHeader)
    → h.is_paid ≡ false
    → (recompute_order_paid m now at sale h).is_paid ≡ true
    → (e : PaymentEvidence) × (payment_evidence m sale ≡ ok e) × (e.total ≡ sale.due)
unfolding recompute_order_paid
header_is_earned m now at sale h unpaid paid = by_evidence (payment_evidence m sale) refl paid
  where
    by_evidence :
        (r : Result EvidenceError PaymentEvidence)
        → payment_evidence m sale ≡ r
        → (from_evidence m now at r h).is_paid ≡ true
        → (e : PaymentEvidence) × (payment_evidence m sale ≡ ok e) × (e.total ≡ sale.due)
    by_evidence (err refusal) found k = true-ne-false (sym k ∙ unpaid)
    by_evidence (ok e) found k =
        let due_eq = evidence_due m sale e found in
        let below : e.total ≤ℤ e.due = rw due_eq (total_is_within_due m sale e found) in
        (e, found, covers-due e (derived-paid m now at e h unpaid k) below ∙ due_eq)

derived-keeps :
    (m : Methods) (now : ℕ) (at : Option ℕ) (e : PaymentEvidence) (h : PaidHeader)
    → h.is_paid ≡ true
    → ((derived m now at e h).is_paid ≡ true)
      × ((derived m now at e h).recorded_at ≡ h.recorded_at)
      × ((covers e ≡ true) ⊎ (derived m now at e h ≡ h))
derived-keeps m now at e h paid = elim (Bool-cases (covers e)) [
  | inl c ↦ (rw c refl, rw (c, paid) refl, inl c)
  | inr c ↦ (rw (c, paid) refl, rw (c, paid) refl, inr (rw (c, paid) refl))
]

-- A paid header stays paid and keeps the time at which it was recorded in the accounts, whatever
-- the evidence; where the evidence is invalid or does not cover the bill it keeps every field.
pub paid_header_is_kept :
    (m : Methods) (now : ℕ) (at : Option ℕ) (sale : Sale) (h : PaidHeader)
    → h.is_paid ≡ true
    → ((recompute_order_paid m now at sale h).is_paid ≡ true)
      × ((recompute_order_paid m now at sale h).recorded_at ≡ h.recorded_at)
      × (((e : PaymentEvidence) × (payment_evidence m sale ≡ ok e) × (covers e ≡ true))
          ⊎ (recompute_order_paid m now at sale h ≡ h))
unfolding recompute_order_paid
paid_header_is_kept m now at sale h paid = by_evidence (payment_evidence m sale) refl
  where
    covered_or_same :
        (e : PaymentEvidence)
        → payment_evidence m sale ≡ ok e
        → (covers e ≡ true) ⊎ (derived m now at e h ≡ h)
        → ((e : PaymentEvidence) × (payment_evidence m sale ≡ ok e) × (covers e ≡ true))
          ⊎ (derived m now at e h ≡ h)
    covered_or_same e found (inl c) = inl (e, found, c)
    covered_or_same e found (inr c) = inr c

    by_evidence :
        (r : Result EvidenceError PaymentEvidence)
        → payment_evidence m sale ≡ r
        → ((from_evidence m now at r h).is_paid ≡ true)
          × ((from_evidence m now at r h).recorded_at ≡ h.recorded_at)
          × (((e : PaymentEvidence) × (payment_evidence m sale ≡ ok e) × (covers e ≡ true))
              ⊎ (from_evidence m now at r h ≡ h))
    by_evidence (err refusal) found = (paid, refl, inr refl)
    by_evidence (ok e) found =
        let (a, b, c) = derived-keeps m now at e h paid in (a, b, covered_or_same e found c)
