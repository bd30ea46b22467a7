-- ===== src/Couriers/Settling/Windows.antt =====
-- Windows of reconciliation_snapshot (couriers/services.py).
use alpha_pos_server.Base.{
  ℕ, ◌+◌, ◌≤◌, ◌≡◌, refl, ap, ◌∙◌, Bool, true, false, ◌&&◌, ◌||◌, Option, none, some, List, [], ◌∷◌,
  arith, if◌then◌else◌, keep_if, length,
}
use alpha_pos_server.Base.Int.{ℤ, pos, ◌+ℤ◌, ◌-ℤ◌, int_laws, whole}
use alpha_pos_server.Couriers.Ledger.{
  Payment, Refund, Entry, Book, in_window, is_refund_event, courier_refund_events,
  courier_refund_entries, entries_of, entry_of, add_entry,
}
use alpha_pos_server.Couriers.Settling.{
  reconciliation_snapshot, is_done, is_pay, sum, cash_of, noncash_of, Snapshot,
}

-- Two tests that no element passes both, and one that exactly those pass.
abbrev Parts {ℓ} : {A : Type ℓ} → (A → Bool) → (A → Bool) → (A → Bool) → Type ℓ
Parts {A} p q r = (x : A) → (p x ≡ q x || r x) × (q x && r x ≡ false)

-- One more element on both sides of a cut.
cut_step :
    (a b c : Bool) (u s t w : ℤ)
    → a ≡ b || c
    → b && c ≡ false
    → s ≡ t +ℤ w
    → (if a then u +ℤ s else s) ≡ (if b then u +ℤ t else t) +ℤ (if c then u +ℤ w else w)
cut_step a true true u s t w e none_both h = cc
cut_step a true false u s t w e none_both h = rw (e, h) (omega int_laws)
cut_step a false true u s t w e none_both h = rw (e, h) (omega int_laws)
cut_step a false false u s t w e none_both h = rw e h

sum-if {ℓ} :
    {A : Type ℓ} (f : A → ℤ) (b : Bool) (x : A) (xs : List A)
    → sum f (if b then x ∷ xs else xs) ≡ (if b then f x +ℤ sum f xs else sum f xs)
sum-if f true x xs = refl
sum-if f false x xs = refl

module _ {ℓ} {A : Type ℓ} (p q r : A → Bool) (parts : Parts p q r) where
  length-split :
      (xs : List A) → length (keep_if p xs) ≡ length (keep_if q xs) + length (keep_if r xs)
  length-split [] = omega arith
  length-split (x ∷ xs) = ground (arith, length-split xs, parts x)

  sum-split :
      (f : A → ℤ) (xs : List A)
      → sum f (keep_if p xs) ≡ sum f (keep_if q xs) +ℤ sum f (keep_if r xs)
  sum-split f [] = omega int_laws
  sum-split f (x ∷ xs) =
      rw
        (
          sum-if f (p x) x (keep_if p xs),
          sum-if f (q x) x (keep_if q xs),
          sum-if f (r x) x (keep_if r xs),
        )
        (cut_step (p x) (q x) (r x) (f x) (sum f (keep_if p xs)) (sum f (keep_if q xs))
          (sum f (keep_if r xs)) (parts x).0 (parts x).1 (sum-split f xs))

-- The sum of a figure of the entries, refund by refund.
abbrev figure : (Entry → ℤ) → Option Entry → ℤ
figure f none = pos 0
figure f (some e) = f e

sum-add_entry :
    (f : Entry → ℤ) (e : Option Entry) (es : List Entry)
    → sum f (add_entry e es) ≡ figure f e +ℤ sum f es
sum-add_entry f none es = omega int_laws
sum-add_entry f (some e) es = refl

sum-entries_of :
    (f : Entry → ℤ) (cid : ℕ) (ps : List Payment) (all : List Refund) (rs : List Refund)
    → sum f (entries_of cid ps all rs) ≡ sum (λ r. figure f (entry_of cid ps all r)) rs
sum-entries_of f cid ps all [] = refl
sum-entries_of f cid ps all (r ∷ rs) =
    sum-add_entry f (entry_of cid ps all r) (entries_of cid ps all rs)
    ∙ ap (λ s. figure f (entry_of cid ps all r) +ℤ s) (sum-entries_of f cid ps all rs)

sub_sums : (a b c x y z : ℤ) → a ≡ b +ℤ c → x ≡ y +ℤ z → a -ℤ x ≡ b -ℤ y +ℤ (c -ℤ z)
sub_sums a b c x y z h k = rw (h, k) (omega int_laws)

module _ (cid start cut end : ℕ) (before : start ≤ cut) (after : cut ≤ end) where
  done-Parts : Parts (is_done cid start end) (is_done cid start cut) (is_done cid cut end)
  unfolding is_done
  done-Parts d = ground arith

  pay-Parts : Parts (is_pay cid start end) (is_pay cid start cut) (is_pay cid cut end)
  unfolding is_pay
  pay-Parts p = ground arith

  event-Parts :
      (b : Book)
      → Parts
          (λ r. is_refund_event cid b.payments r && in_window start end r.recorded_at)
          (λ r. is_refund_event cid b.payments r && in_window start cut r.recorded_at)
          (λ r. is_refund_event cid b.payments r && in_window cut end r.recorded_at)
  event-Parts b r = ground arith

  entries-split :
      (f : Entry → ℤ) (b : Book)
      → sum f (courier_refund_entries cid start end b)
        ≡ sum f (courier_refund_entries cid start cut b)
          +ℤ sum f (courier_refund_entries cid cut end b)
  unfolding courier_refund_entries courier_refund_events
  entries-split f b =
      rw
        (
          sum-entries_of f cid b.payments b.refunds (courier_refund_events cid start end b),
          sum-entries_of f cid b.payments b.refunds (courier_refund_events cid start cut b),
          sum-entries_of f cid b.payments b.refunds (courier_refund_events cid cut end b),
        )
        (sum-split (λ r. is_refund_event cid b.payments r && in_window start end r.recorded_at)
          (λ r. is_refund_event cid b.payments r && in_window start cut r.recorded_at)
          (λ r. is_refund_event cid b.payments r && in_window cut end r.recorded_at) (event-Parts b)
          (λ r. figure f (entry_of cid b.payments b.refunds r)) b.refunds)

-- The figures of two snapshots add up to those of a third.
pub record AddsUp (whole_window first second : Snapshot) : Type 0 where
  pub deliveries : whole_window.deliveries ≡ first.deliveries + second.deliveries
  pub fees : whole_window.delivery_fees ≡ first.delivery_fees +ℤ second.delivery_fees
  pub cash : whole_window.cash_collected ≡ first.cash_collected +ℤ second.cash_collected
  pub noncash : whole_window.qr_collected ≡ first.qr_collected +ℤ second.qr_collected

-- For any courier, book and times start ≤ cut ≤ end, the reconciliation over [start, end) is the
-- sum of those over [start, cut) and [cut, end): in deliveries, delivery fees, cash and non-cash,
-- refunds subtracted. So a cut neither loses an event nor counts one twice.
pub reconciliation_snapshot-AddsUp :
    (cid start cut end : ℕ) (bonuses tips bonuses' tips' bonuses'' tips'' : ℤ) (b : Book)
    → start ≤ cut
    → cut ≤ end
    → AddsUp
        (reconciliation_snapshot cid start end bonuses tips b)
        (reconciliation_snapshot cid start cut bonuses' tips' b)
        (reconciliation_snapshot cid cut end bonuses'' tips'' b)
unfolding reconciliation_snapshot
reconciliation_snapshot-AddsUp cid start cut end bonuses tips bonuses' tips' bonuses'' tips'' b
      before after =
    let done = done-Parts cid start cut end before after in
    let pays = pay-Parts cid start cut end before after in
    record {
      deliveries = length-split _ _ _ done b.deliveries;
      fees = sum-split _ _ _ done (λ d. d.fee) b.deliveries;
      cash =
          sub_sums _ _ _ _ _ _ (sum-split _ _ _ pays cash_of b.payments)
            (entries-split cid start cut end before after (λ e. whole e.cash) b);
      noncash =
          sub_sums _ _ _ _ _ _ (sum-split _ _ _ pays noncash_of b.payments)
            (entries-split cid start cut end before after (λ e. whole (e.card +ℤ e.payme)) b);
    }
