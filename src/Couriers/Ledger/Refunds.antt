-- ===== src/Couriers/Ledger/Refunds.antt =====
-- The share of a cancellation (couriers/services.py, courier_refund_entries).
use mathlib.Core.Path.{subst}
use alpha_pos_server.Base.{
  ℕ, ◌≡◌, Bool, true, false, ◌&&◌, some, List, [], ◌∷◌, arith, ◌==◌, if◌then◌else◌, inl, inr,
  Option-cases,
}
use alpha_pos_server.Base.Int.{ℤ, pos, ◌+ℤ◌, ◌-ℤ◌, ◌≤ℤ◌, max_ℤ, min_ℤ-le, hundredths, int_laws}
use alpha_pos_server.Couriers.Ledger.{
  Provider, cash, card, qr, Payment, Refund, order_cancel, Entry, is_collected, find_last,
  left_after, is_provider_refund, event_key, remaining_of, provider_eq, outstanding, cancel_entry,
  attributed, any_entry, if_positive, entry_of,
}

-- Every payment and refund amount is non-negative.
abbrev pub NonNegative {ℓ} : {A : Type ℓ} → (A → ℤ) → List A → Type 0
NonNegative f [] = Unit
NonNegative f (x ∷ xs) = (pos 0 ≤ℤ f x) × NonNegative f xs

-- What the courier collected on the order, in hundredths.
abbrev pub collected_on : ℕ → ℕ → List Payment → ℤ
collected_on cid oid [] = pos 0
collected_on cid oid (p ∷ ps) =
    let rest = collected_on cid oid ps in
    if is_collected cid p && p.order == oid then hundredths p.amount +ℤ rest else rest

find_last_nonneg :
    (test : Refund → Bool) (rs : List Refund) (r : Refund)
    → NonNegative (λ x. x.amount) rs
    → find_last test rs ≡ some r
    → pos 0 ≤ℤ r.amount
find_last_nonneg test [] r h e = cc
find_last_nonneg test (x ∷ xs) r h e = ground (arith, find_last_nonneg test xs r h.1)

hundredths_nonneg : (a : ℤ) → pos 0 ≤ℤ a → pos 0 ≤ℤ hundredths a
unfolding hundredths
hundredths_nonneg a h = ground arith

left_after-le :
    (at : ℕ) (prior : Refund) (a : ℤ)
    → pos 0 ≤ℤ prior.amount
    → pos 0 ≤ℤ a
    → left_after at (some prior) a ≤ℤ a
unfolding max_ℤ ◌-ℤ◌
left_after-le at prior a h k = ground arith

remaining_of-le :
    (rs : List Refund) (r : Refund) (p : Payment)
    → NonNegative (λ x. x.amount) rs
    → pos 0 ≤ℤ p.amount
    → remaining_of rs r p ≤ℤ hundredths p.amount
unfolding remaining_of
remaining_of-le rs r p h k = elim (Option-cases (find_last (is_provider_refund (event_key p)) rs)) [
  | inl absent ↦ rw absent (omega arith)
  | inr (prior, found) ↦ rw found (
      left_after-le r.recorded_at prior (hundredths p.amount)
        (find_last_nonneg (is_provider_refund (event_key p)) rs prior h found)
        (hundredths_nonneg p.amount k))
]

-- One more payment fills one bucket at most.
bucket_step :
    (v : Provider) (mine here : Bool) (x y c d q t : ℤ)
    → x ≤ℤ y
    → c +ℤ d +ℤ q ≤ℤ t
    → (if mine && here && provider_eq v cash then x +ℤ c else c)
        +ℤ (if mine && here && provider_eq v card then x +ℤ d else d)
        +ℤ (if mine && here && provider_eq v qr then x +ℤ q else q)
      ≤ℤ (if mine && here then y +ℤ t else t)
bucket_step v false here x y c d q t h k = k
bucket_step v true false x y c d q t h k = k
bucket_step cash true true x y c d q t h k = omega int_laws
bucket_step card true true x y c d q t h k = omega int_laws
bucket_step qr true true x y c d q t h k = omega int_laws

-- The three buckets together hold no more than was collected.
outstanding-le :
    (cid : ℕ) (rs : List Refund) (r : Refund) (ps : List Payment)
    → NonNegative (λ x. x.amount) rs
    → NonNegative (λ p. p.amount) ps
    → outstanding cid rs r cash ps +ℤ outstanding cid rs r card ps +ℤ outstanding cid rs r qr ps
      ≤ℤ collected_on cid r.order ps
unfolding outstanding
outstanding-le cid rs r [] h k = omega int_laws
outstanding-le cid rs r (p ∷ ps) h k =
    bucket_step p.provider (is_collected cid p) (p.order == r.order) (remaining_of rs r p)
      (hundredths p.amount) (outstanding cid rs r cash ps) (outstanding cid rs r card ps)
      (outstanding cid rs r qr ps) (collected_on cid r.order ps) (remaining_of-le rs r p h k.0)
      (outstanding-le cid rs r ps h k.1)

three_le : (a b c x y z : ℤ) → a ≤ℤ x → b ≤ℤ y → c ≤ℤ z → a +ℤ b +ℤ c ≤ℤ x +ℤ y +ℤ z
three_le a b c x y z h k l = omega int_laws

≤ℤ_trans : (a b c : ℤ) → a ≤ℤ b → b ≤ℤ c → a ≤ℤ c
≤ℤ_trans a b c h k = omega arith

cancel_entry-le :
    (cid : ℕ) (ps : List Payment) (rs : List Refund) (r : Refund)
    → NonNegative (λ x. x.amount) rs
    → NonNegative (λ p. p.amount) ps
    → attributed (cancel_entry cid ps rs r) ≤ℤ collected_on cid r.order ps
unfolding cancel_entry
cancel_entry-le cid ps rs r h k =
    let tender = cancel_entry cid ps rs r in
    ≤ℤ_trans (attributed tender)
      (outstanding cid rs r cash ps +ℤ outstanding cid rs r card ps +ℤ outstanding cid rs r qr ps)
      (collected_on cid r.order ps)
      (three_le tender.cash tender.card tender.payme (outstanding cid rs r cash ps)
        (outstanding cid rs r card ps) (outstanding cid rs r qr ps)
        (min_ℤ-le _ (outstanding cid rs r cash ps)).1 (min_ℤ-le _ (outstanding cid rs r card ps)).1
        (min_ℤ-le _ (outstanding cid rs r qr ps)).1)
      (outstanding-le cid rs r ps h k)

if_positive-eq_some :
    (e e' : Entry) → if_positive (some e) ≡ some e' → (e ≡ e') × (pos 1 ≤ℤ attributed e')
if_positive-eq_some e e' h = ground arith

-- Where no payment or refund amount is negative, what an order's cancellation attributes to a
-- courier is positive, and at most what that courier collected on the order; its cash is at most
-- the cash of the refund that did not come out of the till's drawer.
pub cancellation_is_bounded :
    (cid : ℕ) (ps : List Payment) (rs : List Refund) (r : Refund) (e : Entry)
    → NonNegative (λ x. x.amount) rs
    → NonNegative (λ p. p.amount) ps
    → r.source ≡ order_cancel
    → entry_of cid ps rs r ≡ some e
    → (pos 1 ≤ℤ attributed e)
      × (attributed e ≤ℤ collected_on cid r.order ps)
      × (e.cash ≤ℤ max_ℤ (r.cash_amount -ℤ r.drawer_cash_amount) (pos 0))
unfolding entry_of cancel_entry
cancellation_is_bounded cid ps rs r e h k cancelled found =
    let shared = cancel_entry cid ps rs r in
    let kept : if_positive (some shared) ≡ some e =
      subst (λ s. if_positive (any_entry cid ps rs r s) ≡ some e) cancelled found in
    let (same, positive) = if_positive-eq_some shared e kept in
    (
      positive,
      subst (λ x. attributed x ≤ℤ collected_on cid r.order ps) same
          (cancel_entry-le cid ps rs r h k),
      subst (λ x. x.cash ≤ℤ max_ℤ (r.cash_amount -ℤ r.drawer_cash_amount) (pos 0)) same
          (min_ℤ-le _ (outstanding cid rs r cash ps)).0,
    )
