-- ===== src/Couriers/Evidence/Loops.antt =====
-- One more row in the loops of the evidence (couriers/payments.py, _payment_evidence).
use mathlib.Core.Path.{subst}
use alpha_pos_server.Base.{
  ◌≡◌, refl, sym, ap, ◌∙◌, Bool, true, false, not, ◌&&◌, ◌||◌, List, [], ◌∷◌, ◌++◌, Text, text_eq,
  text_eq_refl, ◌==◌, if◌then◌else◌, Result, ok, ◌>>=◌, ◌>>◌, raise_if, ok-injective, bind_ok_inv,
  raise_if_inv, Bool-cases, inl, inr, true-ne-false,
}
use alpha_pos_server.Base.Int.{ℤ, is_zero, pos, ◌+ℤ◌, ◌≤ℤ◌, ltb_ℤ, leb_ℤ, int_laws}
use alpha_pos_server.Couriers.Evidence.{
  Methods, of_provider, TillRow, ExternalRow, CourierRow, EvidenceError, Sums, add_external,
  add_courier, till_loop, external_loop, courier_loop, is_mirrored, add_till, negative_till,
  other_branch, invalid_method, not_positive,
}
use alpha_pos_server.Couriers.Evidence.Amounts.{not_below}

pub last_passed : (test : Bool) (e : EvidenceError) → raise_if test e ≡ ok tt → test ≡ false
last_passed true e h = cc
last_passed false e h = refl

-- Three guards before a rest.
pub guards_inv :
    {A : Type 0} (a b c : Bool) (e f g : EvidenceError) (rest : Result EvidenceError A) {end : A}
    → (raise_if a e >> (raise_if b f >> (raise_if c g >> rest))) ≡ ok end
    → (a ≡ false) × (b ≡ false) × (c ≡ false) × (rest ≡ ok end)
guards_inv a b c e f g rest h =
    let (ha, h1) = raise_if_inv _ a e h in
    let (hb, h2) = raise_if_inv _ b f h1 in let (hc, h3) = raise_if_inv _ c g h2 in (ha, hb, hc, h3)

guards_pass :
    {A : Type 0} (a b c : Bool) (e f g : EvidenceError) (rest : Result EvidenceError A) {end : A}
    → a ≡ false
    → b ≡ false
    → c ≡ false
    → rest ≡ ok end
    → (raise_if a e >> (raise_if b f >> (raise_if c g >> rest))) ≡ ok end
guards_pass a b c e f g rest ha hb hc h = rw (ha, hb, hc) h

-- One more exact amount under one more mirrored event, all else as it was.
abbrev pub Extends : Text → ℤ → Sums → Sums → Type 0
Extends id a s s' =
    (s'.noncash ≡ s.noncash)
    × (s'.tendered ≡ s.tendered)
    × (s'.exact ≡ s.exact +ℤ a)
    × ((x : Text) → is_mirrored x s'.mirrored ≡ text_eq x id || is_mirrored x s.mirrored)

-- A row that the loop of external events takes.
abbrev pub IsValid : Methods → Text → ExternalRow → Type 0
IsValid m branch r =
    (not (text_eq r.branch branch) ≡ false)
    × (not (m.is_concrete r.method) ≡ false)
    × (leb_ℤ r.amount (pos 0) ≡ false)

pub external_loop-snoc :
    (m : Methods) (branch : Text) (rs : List ExternalRow) (r : ExternalRow) (s end : Sums)
    → external_loop m branch rs s ≡ ok end
    → IsValid m branch r
    → external_loop m branch (rs ++ r ∷ []) s ≡ ok (add_external r end)
unfolding external_loop
external_loop-snoc m branch [] r s end h (a, b, c) =
    guards_pass _ _ _ other_branch invalid_method not_positive (ok (add_external r s)) a b c
      (ap (λ x. let v : Result EvidenceError Sums = ok (add_external r x) in v) (ok-injective h))
external_loop-snoc m branch (q ∷ rs) r s end h valid =
    let (a, b, c, rest) =
      guards_inv _ _ _ other_branch invalid_method not_positive
        (external_loop m branch rs (add_external q s)) h in
    guards_pass _ _ _ other_branch invalid_method not_positive
      (external_loop m branch (rs ++ r ∷ []) (add_external q s)) a b c
      (external_loop-snoc m branch rs r (add_external q s) end rest valid)

pub add_external-Extends :
    (r : ExternalRow) (s : Sums) → Extends r.source_id r.amount s (add_external r s)
add_external-Extends r s = (refl, refl, refl, λ x. refl)

-- No courier payment of the order has this key yet.
abbrev pub is_unused : Text → List CourierRow → Bool
is_unused id [] = true
is_unused id (c ∷ cs) = not (text_eq c.external_id id) && is_unused id cs

swap_last : (x a b : ℤ) → x +ℤ a +ℤ b ≡ x +ℤ b +ℤ a
swap_last x a b = omega int_laws

add_courier-Extends :
    (m : Methods) (c : CourierRow) (id : Text) (a : ℤ) (s s' : Sums)
    → Extends id a s s'
    → Extends id a (add_courier m c s) (add_courier m c s')
add_courier-Extends m c id a s s' (n, t, e, mirrored) =
    (n, t, ap (λ x. x +ℤ c.amount) e ∙ swap_last s.exact a c.amount, mirrored)

own_mirrored :
    (c : CourierRow) (id : Text) (a : ℤ) (s s' : Sums)
    → Extends id a s s'
    → c.external_id ≡ id
    → is_mirrored c.external_id s'.mirrored ≡ true
own_mirrored c id a s s' (n, t, e, mirrored) own =
    mirrored c.external_id
    ∙ ap (λ x. text_eq x id || is_mirrored c.external_id s.mirrored) own
    ∙ rw (text_eq_refl id) refl

unused_head :
    (q : CourierRow) (id : Text) (a : ℤ) (s s' : Sums) (rest : Bool)
    → Extends id a s s'
    → not (text_eq q.external_id id) && rest ≡ true
    → (is_mirrored q.external_id s'.mirrored ≡ is_mirrored q.external_id s.mirrored) × (rest ≡ true)
unused_head q id a s s' rest (n, t, e, mirrored) h = elim (Bool-cases (text_eq q.external_id id)) [
  | inl own ↦ true-ne-false (sym h ∙ rw own refl)
  | inr other ↦ (mirrored q.external_id ∙ rw other refl, sym (rw other refl) ∙ h)
]

marked : Sums × Bool → Result EvidenceError (Sums × Bool)
marked x = ok (x.0, true)

abbrev pub Added : Methods → Text → List CourierRow → Text → ℤ → Sums → Bool → Sums → Type 0
Added m branch cs id a t l s' =
    (t' : Sums) × (courier_loop m branch cs s' ≡ ok (t', l)) × Extends id a t t'

-- The new payment's own row is mirrored by its event, and the others count as before.
pub courier_loop-snoc :
    (m : Methods) (branch : Text) (cs : List CourierRow) (c : CourierRow) (id : Text) (a : ℤ)
    (s s' t : Sums) (l : Bool)
    → courier_loop m branch cs s ≡ ok (t, l)
    → Extends id a s s'
    → is_unused id cs ≡ true
    → c.external_id ≡ id
    → Added m branch (cs ++ c ∷ []) id a t l s'
unfolding courier_loop marked
courier_loop-snoc m branch [] c id a s s' t l h ext unused own =
    let done = ok-injective h in
    (
      s',
      rw (own_mirrored c id a s s' ext own)
          (ap (λ x. let v : Result EvidenceError (Sums × Bool) = ok (s', x.1) in v) done),
      subst (λ x. Extends id a x s') (ap (λ x. x.0) done) ext,
    )
courier_loop-snoc m branch (q ∷ cs) c id a s s' t l h ext unused own =
    let (same, unused') = unused_head q id a s s' (is_unused id cs) ext unused in
    by_mirrored (is_mirrored q.external_id s.mirrored) same h
      (λ k. courier_loop-snoc m branch cs c id a s s' t l k ext unused' own)
      (λ u. λ k.
        courier_loop-snoc m branch cs c id a (add_courier m q s) (add_courier m q s') t u k
          (add_courier-Extends m q id a s s' ext) unused' own)
  where
    A : Bool
    A = not (text_eq q.branch branch)

    B : Bool
    B = not (m.is_concrete (of_provider m q.provider))

    C : Bool
    C = leb_ℤ q.amount (pos 0)

    by_mirrored :
        (b : Bool)
        → is_mirrored q.external_id s'.mirrored ≡ b
        → (if b
            then courier_loop m branch cs s
            else raise_if A other_branch
              >> (raise_if B invalid_method
                  >> (raise_if C not_positive
                      >> (courier_loop m branch cs (add_courier m q s) >>= marked))))
          ≡ ok (t, l)
        → (courier_loop m branch cs s ≡ ok (t, l) → Added m branch (cs ++ c ∷ []) id a t l s')
        → ((u : Bool)
            → courier_loop m branch cs (add_courier m q s) ≡ ok (t, u)
            → Added m branch (cs ++ c ∷ []) id a t u (add_courier m q s'))
        → Added m branch (q ∷ (cs ++ c ∷ [])) id a t l s'
    by_mirrored true e k skip count = let (t', done, ext') = skip k in (t', rw e done, ext')
    by_mirrored false e k skip count =
        let (x, y, z, rest) =
          guards_inv A B C other_branch invalid_method not_positive
            (courier_loop m branch cs (add_courier m q s) >>= marked) k in
        let ((t0, u), counted, end) =
          bind_ok_inv marked (courier_loop m branch cs (add_courier m q s)) rest in
        let t_eq = ap (λ p. p.0) (ok-injective end) in
        let l_eq = ap (λ p. p.1) (ok-injective end) in
        let (t', done, ext') =
          count u (
            counted ∙ ap (λ p. let v : Result EvidenceError (Sums × Bool) = ok (p, u) in v) t_eq) in
        (
          t',
          rw e (
              guards_pass A B C other_branch invalid_method not_positive _ x y z (
                ap (λ r. r >>= marked) done
                ∙ ap (λ p. let v : Result EvidenceError (Sums × Bool) = ok (t', p) in v) l_eq)),
          ext',
        )

sum-nonneg : (a b : ℤ) → pos 0 ≤ℤ a → ltb_ℤ b (pos 0) ≡ false → pos 0 ≤ℤ a +ℤ b
sum-nonneg a b h k = let b_pos = not_below b (pos 0) k in omega int_laws

add_till-nonneg :
    (m : Methods) (r : TillRow) (s : Sums)
    → ltb_ℤ r.amount (pos 0) ≡ false
    → pos 0 ≤ℤ s.tendered
    → pos 0 ≤ℤ (add_till m r s).tendered
add_till-nonneg m r s h k = elim (Bool-cases (is_zero r.amount)) [
  | inl nothing ↦ rw nothing k
  | inr some_amount ↦ rw some_amount (elim (Bool-cases (r.method == m.in_cash)) [
    | inl paid_in_cash ↦ rw paid_in_cash (sum-nonneg s.tendered r.amount k h)
    | inr other ↦ rw other k
  ])
]

pub till_loop-nonneg :
    (m : Methods) (branch : Text) (rs : List TillRow) (s end : Sums)
    → till_loop m branch rs s ≡ ok end
    → pos 0 ≤ℤ s.tendered
    → pos 0 ≤ℤ end.tendered
unfolding till_loop
till_loop-nonneg m branch [] s end h k = subst (λ x. pos 0 ≤ℤ x.tendered) (ok-injective h) k
till_loop-nonneg m branch (r ∷ rs) s end h k =
    let (a, b, c, rest) =
      guards_inv _ _ _ other_branch invalid_method negative_till
        (till_loop m branch rs (add_till m r s)) h in
    till_loop-nonneg m branch rs (add_till m r s) end rest (add_till-nonneg m r s c k)

pub external_loop-tendered :
    (m : Methods) (branch : Text) (rs : List ExternalRow) (s end : Sums)
    → external_loop m branch rs s ≡ ok end
    → end.tendered ≡ s.tendered
unfolding external_loop
external_loop-tendered m branch [] s end h = ap (λ x. x.tendered) (sym (ok-injective h))
external_loop-tendered m branch (r ∷ rs) s end h =
    let (a, b, c, rest) =
      guards_inv _ _ _ other_branch invalid_method not_positive
        (external_loop m branch rs (add_external r s)) h in
    external_loop-tendered m branch rs (add_external r s) end rest

pub courier_loop-tendered :
    (m : Methods) (branch : Text) (cs : List CourierRow) (s t : Sums) (l : Bool)
    → courier_loop m branch cs s ≡ ok (t, l)
    → t.tendered ≡ s.tendered
unfolding courier_loop marked
courier_loop-tendered m branch [] s t l h = ap (λ x. x.0.tendered) (sym (ok-injective h))
courier_loop-tendered m branch (q ∷ cs) s t l h =
    by_mirrored (is_mirrored q.external_id s.mirrored) h
      (λ k. courier_loop-tendered m branch cs s t l k)
      (λ u. λ k. courier_loop-tendered m branch cs (add_courier m q s) t u k)
  where
    by_mirrored :
        (b : Bool)
        → (if b
            then courier_loop m branch cs s
            else raise_if (not (text_eq q.branch branch)) other_branch
              >> (raise_if (not (m.is_concrete (of_provider m q.provider))) invalid_method
                  >> (raise_if (leb_ℤ q.amount (pos 0)) not_positive
                      >> (courier_loop m branch cs (add_courier m q s) >>= marked))))
          ≡ ok (t, l)
        → (courier_loop m branch cs s ≡ ok (t, l) → t.tendered ≡ s.tendered)
        → ((u : Bool)
            → courier_loop m branch cs (add_courier m q s) ≡ ok (t, u)
            → t.tendered ≡ s.tendered)
        → t.tendered ≡ s.tendered
    by_mirrored true k skip count = skip k
    by_mirrored false k skip count =
        let (x, y, z, rest) =
          guards_inv _ _ _ other_branch invalid_method not_positive
            (courier_loop m branch cs (add_courier m q s) >>= marked) k in
        let ((t0, u), counted, end) =
          bind_ok_inv marked (courier_loop m branch cs (add_courier m q s)) rest in
        count u (
          counted
          ∙ ap (λ p. let v : Result EvidenceError (Sums × Bool) = ok (p, u) in v)
              (ap (λ p. p.0) (ok-injective end)))
