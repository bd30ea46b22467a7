-- ===== src/Couriers/Evidence/Repeats.antt =====
-- The header derived twice from the same rows (couriers/payments.py, _recompute_order_paid).
use mathlib.Core.Path.{subst}
use alpha_pos_server.Base.{
  ℕ, ◌≡◌, ◌⊎◌, inl, inr, refl, sym, ap, ◌∙◌, Bool, true, false, not, ◌&&◌, Option, none, some, List,
  [], ◌∷◌, Text, text_eq, is_some, Bool-cases, ◌==◌, arith, Result, err, ok, ◌>>=◌, ◌>>◌, raise_if,
  if◌then◌else◌, ok-injective, bind_ok_inv, raise_if_inv, true-ne-false,
}
use alpha_pos_server.Base.Int.{
  ℤ, pos, ◌+ℤ◌, ◌-ℤ◌, ◌≤ℤ◌, ltb_ℤ, leb_ℤ, max_ℤ, min_ℤ-le, int_laws, is_zero,
}
use alpha_pos_server.Couriers.Evidence.{
  Methods, TillRow, ExternalRow, CourierRow, Sale, Sums, PaymentEvidence, PaidHeader, EvidenceError,
  add_till, till_loop, add_external, external_loop, is_mirrored, of_provider, add_courier,
  courier_loop, all_sums, evidence_of, no_sums, total_of, payment_evidence, derived, from_evidence,
  recompute_order_paid, latest, other_branch, invalid_method, negative_till, not_positive,
}
use alpha_pos_server.Couriers.Evidence.Loops.{guards_inv}
use alpha_pos_server.Couriers.Evidence.Header.{covers}

-- Rows were counted and have a time, or nothing was counted.
abbrev Stamped : Sums → Type 0
Stamped s =
    (is_some (latest s.stamps) ≡ true)
    ⊎ ((s.noncash ≡ pos 0) × (s.tendered ≡ pos 0) × (s.exact ≡ pos 0))

add_till-Stamped : (m : Methods) (r : TillRow) (s : Sums) → Stamped s → Stamped (add_till m r s)
add_till-Stamped m r s h = elim (Bool-cases (is_zero r.amount)) [
  | inl nothing ↦ rw nothing h
  | inr some_amount ↦ rw some_amount (elim (Bool-cases (r.method == m.in_cash)) [
    | inl paid_in_cash ↦ rw paid_in_cash (inl refl)
    | inr other ↦ rw other (inl refl)
  ])
]

till_loop-Stamped :
    (m : Methods) (branch : Text) (rs : List TillRow) (s end : Sums)
    → till_loop m branch rs s ≡ ok end
    → Stamped s
    → Stamped end
unfolding till_loop
till_loop-Stamped m branch [] s end h k = subst Stamped (ok-injective h) k
till_loop-Stamped m branch (r ∷ rs) s end h k =
    let (a, b, c, rest) =
      guards_inv _ _ _ other_branch invalid_method negative_till
        (till_loop m branch rs (add_till m r s)) h in
    till_loop-Stamped m branch rs (add_till m r s) end rest (add_till-Stamped m r s k)

external_loop-Stamped :
    (m : Methods) (branch : Text) (rs : List ExternalRow) (s end : Sums)
    → external_loop m branch rs s ≡ ok end
    → Stamped s
    → Stamped end
unfolding external_loop
external_loop-Stamped m branch [] s end h k = subst Stamped (ok-injective h) k
external_loop-Stamped m branch (r ∷ rs) s end h k =
    let (a, b, c, rest) =
      guards_inv _ _ _ other_branch invalid_method not_positive
        (external_loop m branch rs (add_external r s)) h in
    external_loop-Stamped m branch rs (add_external r s) end rest (inl refl)

-- A loop of the courier's rows, by any relation of sums that counting a row keeps.
courier_loop-Stamped :
    (m : Methods) (branch : Text) (cs : List CourierRow) (s : Sums) (x : Sums × Bool)
    → courier_loop m branch cs s ≡ ok x
    → Stamped s
    → Stamped x.0
unfolding courier_loop
courier_loop-Stamped m branch [] s x h k = subst (λ y. Stamped y.0) (ok-injective h) k
courier_loop-Stamped m branch (q ∷ cs) s x h k =
    by_mirrored (is_mirrored q.external_id s.mirrored) h
      (λ e. courier_loop-Stamped m branch cs s x e k)
      (λ y. λ e. courier_loop-Stamped m branch cs (add_courier m q s) y e (inl refl))
  where
    by_mirrored :
        (b : Bool)
        → (if b
            then courier_loop m branch cs s
            else raise_if (not (text_eq q.branch branch)) other_branch
              >> (raise_if (not (m.is_concrete (of_provider m q.provider))) invalid_method
                  >> (raise_if (leb_ℤ q.amount (pos 0)) not_positive
                      >> (courier_loop m branch cs (add_courier m q s) >>= λ y. ok (y.0, true)))))
          ≡ ok x
        → (courier_loop m branch cs s ≡ ok x → Stamped x.0)
        → ((y : Sums × Bool) → courier_loop m branch cs (add_courier m q s) ≡ ok y → Stamped y.0)
        → Stamped x.0
    by_mirrored true e skip count = skip e
    by_mirrored false e skip count =
        let (a, b, c, rest) =
          guards_inv _ _ _ other_branch invalid_method not_positive
            (courier_loop m branch cs (add_courier m q s) >>= λ y. ok (y.0, true)) e in
        let (y, counted, end) = bind_ok_inv _ (courier_loop m branch cs (add_courier m q s)) rest in
        subst Stamped (ap (λ z. z.0) (ok-injective end)) (count y counted)

all_sums-Stamped :
    (m : Methods) (sale : Sale) (x : Sums × Bool) → all_sums m sale ≡ ok x → Stamped x.0
unfolding all_sums
all_sums-Stamped m sale x h =
    let (till, tilled, h1) = bind_ok_inv _ (till_loop m sale.branch sale.till no_sums) h in
    let (fit, h2) = raise_if_inv _ (ltb_ℤ sale.due till.noncash) _ h1 in
    let (ext, exted, done) = bind_ok_inv _ (external_loop m sale.branch sale.external till) h2 in
    courier_loop-Stamped m sale.branch sale.courier ext x done (
      external_loop-Stamped m sale.branch sale.external till ext exted
        (till_loop-Stamped m sale.branch sale.till no_sums till tilled (inr (refl, refl, refl))))

not_positive_sum : (c : ℤ) → c ≤ℤ pos 0 → ltb_ℤ (pos 0) (pos 0 +ℤ c +ℤ pos 0) ≡ false
not_positive_sum c h = let k : pos 0 +ℤ c +ℤ pos 0 ≤ℤ pos 0 = omega int_laws in ground arith

nothing_counted :
    (due : ℤ) (s : Sums)
    → s.noncash ≡ pos 0
    → s.tendered ≡ pos 0
    → s.exact ≡ pos 0
    → ltb_ℤ (pos 0) (total_of due s) ≡ false
nothing_counted due s n t e =
    rw (n, t, e) (not_positive_sum _ (min_ℤ-le (pos 0) (max_ℤ (due -ℤ pos 0 -ℤ pos 0) (pos 0))).0)

-- Evidence that counts something has a time.
pub payment_evidence-stamped :
    (m : Methods) (sale : Sale) (e : PaymentEvidence)
    → payment_evidence m sale ≡ ok e
    → ltb_ℤ (pos 0) e.total ≡ true
    → is_some e.paid_at ≡ true
unfolding payment_evidence
payment_evidence-stamped m sale e h counted =
    let (x, summed, h1) = bind_ok_inv _ (all_sums m sale) h in
    let (fit, done) = raise_if_inv _ (ltb_ℤ sale.due (x.0.noncash +ℤ x.0.exact)) _ h1 in
    let same = ok-injective done in
    let has_time : Stamped x.0 → is_some (evidence_of m sale x).paid_at ≡ true = λ st. elim st [
      | inl t ↦ t
      | inr zero ↦ true-ne-false (
          sym counted
          ∙ ap (λ y. ltb_ℤ (pos 0) y.total) (sym same)
          ∙ nothing_counted sale.due x.0 zero.0 zero.1 zero.2)
    ] in
    subst (λ y. is_some y.paid_at ≡ true) same (has_time (all_sums-Stamped m sale x summed))

derived-twice :
    (m : Methods) (now now' : ℕ) (at at' : Option ℕ) (e : PaymentEvidence) (h : PaidHeader)
    → (covers e ≡ true → is_some e.paid_at ≡ true)
    → derived m now' at' e (derived m now at e h) ≡ derived m now at e h
derived-twice m now now' at at' e h timed = elim (Bool-cases (covers e)) [
  | inl c ↦ by_time e.paid_at refl (timed c) c
  | inr c ↦
      rw c (elim (Bool-cases h.is_paid) [ inl paid ↦ rw paid refl | inr unpaid ↦ rw unpaid refl ])
]
  where
    by_time :
        (o : Option ℕ)
        → e.paid_at ≡ o
        → is_some o ≡ true
        → covers e ≡ true
        → derived m now' at' e (derived m now at e h) ≡ derived m now at e h
    by_time none f s c = true-ne-false (sym s)
    by_time (some t) f s c = rw (c, f) refl

first_true : (b c : Bool) → b && c ≡ true → b ≡ true
first_true true c k = refl
first_true false c k = cc

-- A second derivation from the same rows, at whatever time, leaves the header as the first one did.
pub recompute_twice :
    (m : Methods) (now now' : ℕ) (at at' : Option ℕ) (sale : Sale) (h : PaidHeader)
    → recompute_order_paid m now' at' sale (recompute_order_paid m now at sale h)
      ≡ recompute_order_paid m now at sale h
unfolding recompute_order_paid
recompute_twice m now now' at at' sale h = by_evidence (payment_evidence m sale) refl
  where
    by_evidence :
        (r : Result EvidenceError PaymentEvidence)
        → payment_evidence m sale ≡ r
        → from_evidence m now' at' r (from_evidence m now at r h) ≡ from_evidence m now at r h
    by_evidence (err refusal) found = refl
    by_evidence (ok e) found =
        derived-twice m now now' at at' e h
          (λ c. payment_evidence-stamped m sale e found (first_true _ _ c))
