-- ===== src/Couriers/Settling.antt =====
-- The reconciliation of a courier's window and the settlement that closes it (couriers/services.py).
pub mod Windows
pub mod Handover
mod Examples
use alpha_pos_server.Base.{
  ℕ, ◌+◌, Bool, true, false, not, ◌&&◌, ◌||◌, Option, none, some, List, [], ◌∷◌, ◌++◌, map, Text,
  take_chars, or_else, get_or, is_key, ltb, leb, ◌==◌, min, max, if◌then◌else◌, keep_if, length,
}
use alpha_pos_server.Base.Int.{ℤ, pos, ◌+ℤ◌, ◌-ℤ◌, neg, whole, is_zero}
use alpha_pos_server.Couriers.Ledger.{
  Provider, cash, card, qr, Payment, Delivery, Entry, Settlement, Book, is_collected, within,
  exists_in, courier_refund_entries,
}

-- `order_by(...).first()` of times, and `max`: the earliest and the latest of a list.
abbrev pub earlier : ℕ → Option ℕ → Option ℕ
earlier t none = some t
earlier t (some u) = some (min t u)

abbrev pub earliest : List (Option ℕ) → Option ℕ
earliest [] = none
earliest (none ∷ ts) = earliest ts
earliest (some t ∷ ts) = earlier t (earliest ts)

abbrev pub later : ℕ → Option ℕ → Option ℕ
later t none = some t
later t (some u) = some (max t u)

unfoldable pub last_period_end : ℕ → List Settlement → Option ℕ
last_period_end cid [] = none
last_period_end cid (s ∷ ss) =
    let rest = last_period_end cid ss in if s.courier == cid then later s.period_end rest else rest

unfoldable pub first_paid : ℕ → List Payment → Option ℕ
first_paid cid ps = earliest (map (λ p. p.paid_at) (keep_if (is_collected cid) ps))

unfoldable pub first_delivered : ℕ → List Delivery → Option ℕ
first_delivered cid ds =
    earliest (map (λ d. d.delivered_at) (keep_if (λ d. is_key cid d.courier && d.is_delivered) ds))

-- The start of the unsettled window; `today` is the last midnight.
unfoldable pub unsettled_start : ℕ → ℕ → Book → ℕ
unsettled_start today cid b =
    get_or
      (or_else (last_period_end cid b.settlements)
        (earliest (first_paid cid b.payments ∷ first_delivered cid b.deliveries ∷ [])))
      today

pub record Snapshot : Type 0 where
  pub deliveries : ℕ
  pub cash_collected : ℤ
  pub qr_collected : ℤ
  pub delivery_fees : ℤ
  pub bonuses : ℤ
  pub tips : ℤ
  pub cash_orders : ℕ
  pub qr_orders : ℕ
  pub net_payout : ℤ
  pub cash_in_hand : ℤ
  pub held : List (ℕ × ℤ)
  pub period_start : ℕ
  pub period_end : ℕ

-- The rows of the window.
unfoldable pub is_done : ℕ → ℕ → ℕ → Delivery → Bool
is_done cid start end d = is_key cid d.courier && d.is_delivered && within start end d.delivered_at

unfoldable pub is_pay : ℕ → ℕ → ℕ → Payment → Bool
is_pay cid start end p = is_collected cid p && within start end p.paid_at

abbrev pub sum {ℓ} : {A : Type ℓ} → (A → ℤ) → List A → ℤ
sum f [] = pos 0
sum f (x ∷ xs) = f x +ℤ sum f xs

abbrev pub is_cash : Payment → Bool
is_cash p = is_cash_provider p.provider
  where
    is_cash_provider : Provider → Bool
    is_cash_provider cash = true
    is_cash_provider _ = false

-- `len(set(...))`
abbrev pub distinct : List ℕ → ℕ
distinct [] = 0
distinct (x ∷ xs) = let rest = distinct xs in if exists_in (λ y. y == x) xs then rest else rest + 1

abbrev pub held_payments : List Payment → List (ℕ × ℤ)
held_payments [] = []
held_payments (p ∷ ps) =
    let rest = held_payments ps in if is_cash p then (p.order, p.amount) ∷ rest else rest

-- The cash of an entry goes out of the hand.
abbrev pub held_refunds : List Entry → List (ℕ × ℤ)
held_refunds [] = []
held_refunds (e ∷ es) =
    let rest = held_refunds es in
    if is_zero (whole e.cash) then rest else (e.order, neg (whole e.cash)) ∷ rest

abbrev pub cash_of : Payment → ℤ
cash_of p = if is_cash p then p.amount else pos 0

abbrev pub noncash_of : Payment → ℤ
noncash_of p = if is_cash p then pos 0 else p.amount

unfoldable pub reconciliation_snapshot : ℕ → ℕ → ℕ → ℤ → ℤ → Book → Snapshot
reconciliation_snapshot cid start end bonuses tips b =
    let done = keep_if (is_done cid start end) b.deliveries in
    let pays = keep_if (is_pay cid start end) b.payments in
    let entries = courier_refund_entries cid start end b in
    let fees = sum (λ d. d.fee) done in
    let collected = sum cash_of pays -ℤ sum (λ e. whole e.cash) entries in
    record {
      deliveries = length done;
      cash_collected = collected;
      qr_collected = sum noncash_of pays -ℤ sum (λ e. whole (e.card +ℤ e.payme)) entries;
      delivery_fees = fees;
      bonuses = bonuses;
      tips = tips;
      cash_orders = distinct (map (λ p. p.order) (keep_if is_cash pays));
      qr_orders = distinct (map (λ p. p.order) (keep_if (λ p. not (is_cash p)) pays));
      net_payout = fees +ℤ bonuses +ℤ tips;
      cash_in_hand = collected;
      held = held_payments pays ++ held_refunds entries;
      period_start = start;
      period_end = end;
    }

-- One settlement at the time `now`; the handover code is a print of the courier's key, left out. The locks of the branches and of the courier serialize it with
-- other writers and change nothing.
unfoldable pub settle : ℕ → ℕ → ℕ → ℤ → ℤ → Text → Book → Book × Settlement
settle now today cid bonuses tips note b =
    let snap = reconciliation_snapshot cid (unsettled_start today cid b) now bonuses tips b in
    let row : Settlement = record {
      courier = cid;
      period_start = snap.period_start;
      period_end = now;
      deliveries = snap.deliveries;
      cash_collected = snap.cash_collected;
      qr_collected = snap.qr_collected;
      delivery_fees = snap.delivery_fees;
      bonuses = snap.bonuses;
      tips = snap.tips;
      net_payout = snap.net_payout;
      note = take_chars 200 note;
    } in
    (record b { settlements = row ∷ b.settlements }, row)
