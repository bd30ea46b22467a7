-- ===== src/Couriers/Evidence/Amounts.antt =====
-- The arithmetic of cash, change and what is left of a bill.
use mathlib.Core.Path.{subst}
use alpha_pos_server.Base.{
  ◌≡◌, refl, sym, ◌∙◌, true, false, arith, Bool-cases, inl, inr, true-ne-false,
}
use alpha_pos_server.Base.Int.{
  ℤ, pos, ◌+ℤ◌, ◌-ℤ◌, ◌≤ℤ◌, ltb_ℤ, leb_ℤ, max_ℤ, min_ℤ, min_ℤ-le, int_laws,
}

pub not_below : (a b : ℤ) → ltb_ℤ a b ≡ false → b ≤ℤ a
not_below a b h = ground arith

paid_out : (a : ℤ) → a ≤ℤ pos 0 → leb_ℤ a (pos 0) ≡ true
paid_out a h = ground arith

not_above : (a b : ℤ) → b ≤ℤ a → ltb_ℤ a b ≡ false
not_above a b h = ground arith

min_of_le : (a b : ℤ) → a ≤ℤ b → min_ℤ a b ≡ a
unfolding min_ℤ
min_of_le a b h = ground arith

min_of_gt : (a b : ℤ) → ltb_ℤ b a ≡ true → min_ℤ a b ≡ b
unfolding min_ℤ
min_of_gt a b h = rw h refl

max_of_ge : (a : ℤ) → pos 0 ≤ℤ a → max_ℤ a (pos 0) ≡ a
unfolding max_ℤ
max_of_ge a h = ground arith

residual : (due n e : ℤ) → ltb_ℤ due (n +ℤ e) ≡ false → pos 0 ≤ℤ due -ℤ n -ℤ e
residual due n e h = let k = not_below due (n +ℤ e) h in omega int_laws

le_residual : (due n e m : ℤ) → m ≤ℤ due -ℤ n -ℤ e → n +ℤ m +ℤ e ≤ℤ due
le_residual due n e m h = omega int_laws

-- Cash counts up to the residual of the bill.
pub total-le_due :
    (due n t e : ℤ)
    → ltb_ℤ due (n +ℤ e) ≡ false
    → n +ℤ min_ℤ t (max_ℤ (due -ℤ n -ℤ e) (pos 0)) +ℤ e ≤ℤ due
total-le_due due n t e h =
    rw (max_of_ge (due -ℤ n -ℤ e) (residual due n e h))
      (le_residual due n e _ (min_ℤ-le t (due -ℤ n -ℤ e)).1)

fits :
    (due n t e a : ℤ)
    → pos 0 ≤ℤ t
    → a ≤ℤ due -ℤ (n +ℤ t +ℤ e)
    → (t ≤ℤ due -ℤ n -ℤ (e +ℤ a)) × (n +ℤ (e +ℤ a) ≤ℤ due)
fits due n t e a h k = (omega int_laws, omega int_laws)

shuffle : (n t e a : ℤ) → n +ℤ t +ℤ (e +ℤ a) ≡ n +ℤ t +ℤ e +ℤ a
shuffle n t e a = omega int_laws

full : (due n e a : ℤ) → a ≤ℤ due -ℤ (n +ℤ (due -ℤ n -ℤ e) +ℤ e) → a ≤ℤ pos 0
full due n e a h = omega int_laws

-- One more exact amount that fits adds itself to the total.
pub total-add :
    (due n t e a : ℤ)
    → pos 0 ≤ℤ t
    → leb_ℤ a (pos 0) ≡ false
    → a ≤ℤ due -ℤ (n +ℤ min_ℤ t (max_ℤ (due -ℤ n -ℤ e) (pos 0)) +ℤ e)
    → ltb_ℤ due (n +ℤ e) ≡ false
    → (n +ℤ min_ℤ t (max_ℤ (due -ℤ n -ℤ (e +ℤ a)) (pos 0)) +ℤ (e +ℤ a)
        ≡ n +ℤ min_ℤ t (max_ℤ (due -ℤ n -ℤ e) (pos 0)) +ℤ e +ℤ a)
      × (ltb_ℤ due (n +ℤ (e +ℤ a)) ≡ false)
total-add due n t e a paid positive room h =
    let r = due -ℤ n -ℤ e in
    let r_eq = max_of_ge r (residual due n e h) in
    let room' = subst (λ m. a ≤ℤ due -ℤ (n +ℤ min_ℤ t m +ℤ e)) r_eq room in
    elim (Bool-cases (ltb_ℤ r t)) [
      | inl over ↦
          none_left
            (full due n e a (subst (λ m. a ≤ℤ due -ℤ (n +ℤ m +ℤ e)) (min_of_gt t r over) room'))
      | inr under ↦
          let t_le = not_below r t under in
          let (t_le', total_le) =
            fits due n t e a paid
              (subst (λ m. a ≤ℤ due -ℤ (n +ℤ m +ℤ e)) (min_of_le t r t_le) room') in
          let below = not_above due (n +ℤ (e +ℤ a)) total_le in
          (
            rw
                (
                  r_eq,
                  max_of_ge (due -ℤ n -ℤ (e +ℤ a)) (residual due n (e +ℤ a) below),
                  min_of_le t r t_le,
                  min_of_le t (due -ℤ n -ℤ (e +ℤ a)) t_le',
                )
                (shuffle n t e a),
            below,
          )
    ]
  where
    none_left : {P : Type 0} → a ≤ℤ pos 0 → P
    none_left h = true-ne-false (sym (paid_out a h) ∙ positive)
