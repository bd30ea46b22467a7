-- ===== src/Couriers/Settling/Handover.antt =====
-- The handover at a settlement (couriers/services.py, settle).
use mathlib.Core.Path.{subst}
use alpha_pos_server.Base.{
  ℕ, ◌+◌, ◌≤◌, ◌≡◌, refl, sym, ap, ◌∙◌, true, Option, none, some, List, [], ◌∷◌, ◌++◌, Text, arith,
  max, ◌==◌, get_or, or_else, ==_refl, ==→eq, Bool-cases, inl, inr,
}
use alpha_pos_server.Base.Int.{ℤ, pos, ◌+ℤ◌, ◌-ℤ◌, neg, int_laws, whole, is_zero}
use alpha_pos_server.Couriers.Ledger.{
  Payment, Entry, Settlement, Book, courier_refund_entries, courier_refund_events,
}
use alpha_pos_server.Couriers.Settling.{
  reconciliation_snapshot, sum, cash_of, is_cash, held_payments, held_refunds, Snapshot, settle,
  unsettled_start, last_period_end, later, earliest, first_paid, first_delivered,
}
use alpha_pos_server.Couriers.Settling.Windows.{reconciliation_snapshot-AddsUp}

abbrev amount_of : ℕ × ℤ → ℤ
amount_of h = h.1

sum-append :
    (xs ys : List (ℕ × ℤ)) → sum amount_of (xs ++ ys) ≡ sum amount_of xs +ℤ sum amount_of ys
sum-append [] ys = omega int_laws
sum-append (x ∷ xs) ys = rw (sum-append xs ys) (omega int_laws)

zero_add : (a : ℤ) → a ≡ pos 0 +ℤ a
zero_add a = omega int_laws

skip_zero : (a s : ℤ) → a ≡ pos 0 → neg s ≡ neg (a +ℤ s)
skip_zero a s h = rw h (ap neg (zero_add s))

neg_sum : (a s : ℤ) → neg a +ℤ neg s ≡ neg (a +ℤ s)
neg_sum a s = omega int_laws

held_difference : (a b c d : ℤ) → a ≡ c → b ≡ neg d → a +ℤ b ≡ c -ℤ d
held_difference a b c d h k = rw (h, k) (omega int_laws)

sum-held_payments : (ps : List Payment) → sum amount_of (held_payments ps) ≡ sum cash_of ps
sum-held_payments [] = refl
sum-held_payments (p ∷ ps) = elim (Bool-cases (is_cash p)) [
  | inl in_cash ↦ rw in_cash (ap (λ s. p.amount +ℤ s) (sum-held_payments ps))
  | inr other ↦ rw other (sum-held_payments ps ∙ zero_add (sum cash_of ps))
]

is_zero→eq : (a : ℤ) → is_zero a ≡ true → a ≡ pos 0
is_zero→eq a h = ground arith

sum-held_refunds :
    (es : List Entry) → sum amount_of (held_refunds es) ≡ neg (sum (λ e. whole e.cash) es)
sum-held_refunds [] = omega int_laws
sum-held_refunds (e ∷ es) = elim (Bool-cases (is_zero (whole e.cash))) [
  | inl nothing ↦ rw nothing (
      sum-held_refunds es
      ∙ skip_zero (whole e.cash) (sum (λ x. whole x.cash) es) (is_zero→eq _ nothing))
  | inr some_cash ↦ rw some_cash (
      ap (λ s. neg (whole e.cash) +ℤ s) (sum-held_refunds es)
      ∙ neg_sum (whole e.cash) (sum (λ x. whole x.cash) es))
]

-- The cash that the snapshot says is in the courier's hand is the sum of the lines that it lists as
-- held: the cash payments of the window, less the cash of the refunds attributed to the courier.
pub held_sums_to_cash_in_hand :
    (cid start end : ℕ) (bonuses tips : ℤ) (b : Book)
    → let snap = reconciliation_snapshot cid start end bonuses tips b in
      sum (λ (h : ℕ × ℤ). h.1) snap.held ≡ snap.cash_in_hand
unfolding reconciliation_snapshot
held_sums_to_cash_in_hand cid start end bonuses tips b =
    sum-append _ _ ∙ held_difference _ _ _ _ (sum-held_payments _) (sum-held_refunds _)

-- Every settlement of the courier ended by time `t`.
abbrev pub EndedBy : ℕ → ℕ → List Settlement → Type 0
EndedBy cid t [] = Unit
EndedBy cid t (s ∷ ss) = (s.courier ≡ cid → s.period_end ≤ t) × EndedBy cid t ss

abbrev IsBy : ℕ → Option ℕ → Type 0
IsBy t none = Unit
IsBy t (some u) = u ≤ t

max_self : (t v : ℕ) → v ≤ t → max t v ≡ t
max_self t v h = omega arith

later-le : (t u : ℕ) (o : Option ℕ) → u ≤ t → IsBy t o → IsBy t (later u o)
later-le t u none h k = h
later-le t u (some v) h k = omega arith

later_self : (t : ℕ) (o : Option ℕ) → IsBy t o → later t o ≡ some t
later_self t none h = refl
later_self t (some v) h = ap some (max_self t v h)

last_period_end-le :
    (cid t : ℕ) (ss : List Settlement) → EndedBy cid t ss → IsBy t (last_period_end cid ss)
unfolding last_period_end
last_period_end-le cid t [] h = tt
last_period_end-le cid t (s ∷ ss) h = elim (Bool-cases (s.courier == cid)) [
  | inl mine ↦ rw mine (
      later-le t s.period_end (last_period_end cid ss) (h.0 (==→eq s.courier cid mine))
        (last_period_end-le cid t ss h.1))
  | inr other ↦ rw other (last_period_end-le cid t ss h.1)
]

last_period_end-cons :
    (s : Settlement) (ss : List Settlement)
    → EndedBy s.courier s.period_end ss
    → last_period_end s.courier (s ∷ ss) ≡ some s.period_end
unfolding last_period_end
last_period_end-cons s ss ended = rw (==_refl s.courier) (
    later_self s.period_end (last_period_end s.courier ss)
      (last_period_end-le s.courier s.period_end ss ended))

-- After a settlement at `now`, if no earlier one of the courier ended later, the unsettled window
-- starts at `now`, whatever the day's midnight is.
unsettled_start-settle :
    (now today later_today cid : ℕ) (bonuses tips : ℤ) (note : Text) (b : Book)
    → EndedBy cid now b.settlements
    → unsettled_start later_today cid (settle now today cid bonuses tips note b).0 ≡ now
unfolding unsettled_start settle
unsettled_start-settle now today later_today cid bonuses tips note b ended =
    let row = (settle now today cid bonuses tips note b).1 in
    ap
      (λ (o : Option ℕ).
        get_or
          (or_else o (earliest (first_paid cid b.payments ∷ first_delivered cid b.deliveries ∷ [])))
          later_today)
      (last_period_end-cons row b.settlements ended)

-- A snapshot reads no settlement.
snapshot-settlements :
    (cid start end : ℕ) (bonuses tips : ℤ) (b : Book) (ss : List Settlement)
    → reconciliation_snapshot cid start end bonuses tips (record b { settlements = ss })
      ≡ reconciliation_snapshot cid start end bonuses tips b
unfolding reconciliation_snapshot courier_refund_entries courier_refund_events
snapshot-settlements cid start end bonuses tips b ss = refl

snapshot-start :
    (cid start end : ℕ) (bonuses tips : ℤ) (b : Book)
    → (reconciliation_snapshot cid start end bonuses tips b).period_start ≡ start
unfolding reconciliation_snapshot
snapshot-start cid start end bonuses tips b = refl

abbrev Follows : ℕ → Snapshot → Snapshot → Snapshot → Type 0
Follows cut all first second =
    (second.period_start ≡ cut)
    × (all.deliveries ≡ first.deliveries + second.deliveries)
    × (all.delivery_fees ≡ first.delivery_fees +ℤ second.delivery_fees)
    × (all.cash_collected ≡ first.cash_collected +ℤ second.cash_collected)
    × (all.qr_collected ≡ first.qr_collected +ℤ second.qr_collected)

follows :
    (cid start cut end : ℕ) (bonuses tips bonuses' tips' : ℤ) (b : Book) (ss : List Settlement)
    → start ≤ cut
    → cut ≤ end
    → Follows cut
        (reconciliation_snapshot cid start end bonuses tips b)
        (reconciliation_snapshot cid start cut bonuses tips b)
        (reconciliation_snapshot cid cut end bonuses' tips' (record b { settlements = ss }))
follows cid start cut end bonuses tips bonuses' tips' b ss h₁ h₂ =
    let sums =
      reconciliation_snapshot-AddsUp cid start cut end bonuses tips bonuses tips bonuses' tips' b h₁
        h₂ in
    rw (snapshot-settlements cid cut end bonuses' tips' b ss) (
      snapshot-start cid cut end bonuses' tips' b,
      sums.deliveries,
      sums.fees,
      sums.cash,
      sums.noncash,
    )

-- Two settlements of a courier in a row, at `t₁` and then `t₂`, with no other change of the book
-- between them and no earlier settlement that ended after `t₁`: the second window starts exactly
-- where the first one ended, and together the two rows hold the deliveries, fees, cash and non-cash
-- of one reconciliation over the whole time from the first start to `t₂`.
pub settle_twice :
    (t₁ t₂ today later_today cid : ℕ) (bonuses tips bonuses' tips' : ℤ) (note note' : Text)
    (b : Book)
    → EndedBy cid t₁ b.settlements
    → unsettled_start today cid b ≤ t₁
    → t₁ ≤ t₂
    → let (b₁, s₁) = settle t₁ today cid bonuses tips note b in
      let (b₂, s₂) = settle t₂ later_today cid bonuses' tips' note' b₁ in
      let all = reconciliation_snapshot cid (unsettled_start today cid b) t₂ bonuses tips b in
      (s₂.period_start ≡ s₁.period_end)
      × (all.deliveries ≡ s₁.deliveries + s₂.deliveries)
      × (all.delivery_fees ≡ s₁.delivery_fees +ℤ s₂.delivery_fees)
      × (all.cash_collected ≡ s₁.cash_collected +ℤ s₂.cash_collected)
      × (all.qr_collected ≡ s₁.qr_collected +ℤ s₂.qr_collected)
unfolding settle
settle_twice t₁ t₂ today later_today cid bonuses tips bonuses' tips' note note' b ended h₁ h₂ =
    let start = unsettled_start today cid b in
    let b₁ = (settle t₁ today cid bonuses tips note b).0 in
    let next : unsettled_start later_today cid b₁ ≡ t₁ =
      unsettled_start-settle t₁ today later_today cid bonuses tips note b ended in
    subst
      (λ u.
        Follows t₁ (reconciliation_snapshot cid start t₂ bonuses tips b)
          (reconciliation_snapshot cid start t₁ bonuses tips b)
          (reconciliation_snapshot cid u t₂ bonuses' tips' b₁))
      (sym next) (follows cid start t₁ t₂ bonuses tips bonuses' tips' b b₁.settlements h₁ h₂)
