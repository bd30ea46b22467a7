-- ===== src/Couriers/Settling/Examples.antt =====
-- A courier's book with payments, a delivery and a cancelled order, and the theorems on it.
use alpha_pos_server.Base.{
  ◌≡◌, ◌+◌, refl, ℕ, true, false, some, List, [], ◌∷◌, arith, Text, text, decimal,
}
use alpha_pos_server.Base.Int.{
  ℤ, pos, negsuc, ◌+ℤ◌, ◌-ℤ◌, ◌≤ℤ◌, neg, max_ℤ, min_ℤ, hundredths, whole,
}
use alpha_pos_server.Couriers.Ledger.{
  Payment, cash, qr, paid, Refund, order_cancel, Book, Entry, event_key, is_refund_event,
  courier_refund_events, is_provider_refund, remaining_of, outstanding, cancel_entry, entry_of,
  courier_refund_entries, attributed,
}
use alpha_pos_server.Couriers.Ledger.Refunds.{collected_on, cancellation_is_bounded}
use alpha_pos_server.Couriers.Settling.{
  last_period_end, first_paid, first_delivered, unsettled_start, is_done, is_pay,
  reconciliation_snapshot, settle, sum,
}
use alpha_pos_server.Couriers.Settling.Windows.{AddsUp, reconciliation_snapshot-AddsUp}
use alpha_pos_server.Couriers.Settling.Handover.{held_sums_to_cash_in_hand, settle_twice}

-- 500 in cash for order 7 and 300 by QR for order 8.
abbrev payments : List Payment
payments =
    record {
      key = 1;
      order = 7;
      courier = some 3;
      provider = cash;
      amount = pos 500;
      status = paid;
      external_id = text "a";
      paid_at = some 110;
    }
    ∷ record {
      key = 2;
      order = 8;
      courier = some 3;
      provider = qr;
      amount = pos 300;
      status = paid;
      external_id = [];
      paid_at = some 130;
    }
    ∷ []

-- Order 7 is cancelled: 700.00 in cash, of which 400.00 had gone into the till.
abbrev cancellation : Refund
cancellation = record {
  source = order_cancel;
  source_id = [];
  order = 7;
  amount = pos 70000;
  cash_amount = pos 70000;
  drawer_cash_amount = pos 40000;
  card_amount = pos 0;
  payme_amount = pos 0;
  refunded_at = 140;
  recorded_at = 140;
  is_deleted = false;
}

abbrev book : Book
book = record {
  payments = payments;
  refunds = cancellation ∷ [];
  deliveries =
      record { courier = some 3; is_delivered = true; fee = pos 15; delivered_at = some 105 } ∷ [];
  settlements = [];
}

-- What a run computes with.
ledger_run : ℕ → Text → Text
unfolding reconciliation_snapshot courier_refund_entries courier_refund_events entry_of cancel_entry
    outstanding remaining_of is_provider_refund is_refund_event event_key decimal is_done is_pay
    settle unsettled_start first_paid first_delivered last_period_end ◌+ℤ◌ ◌-ℤ◌ neg max_ℤ min_ℤ
    hundredths whole
ledger_run n t = t

snapshot_of_all :
    let snap = reconciliation_snapshot 3 100 200 (pos 0) (pos 5) book in
    (snap.cash_collected ≡ pos 200)
    × (snap.qr_collected ≡ pos 300)
    × (snap.net_payout ≡ pos 20)
    × (snap.held ≡ (7, pos 500) ∷ (7, negsuc 299) ∷ [])
unfolding ledger_run
snapshot_of_all = (refl, refl, refl, refl)

legacy_key :
    let p : Payment = record {
      key = 42;
      order = 8;
      courier = some 3;
      provider = qr;
      amount = pos 300;
      status = paid;
      external_id = [];
      paid_at = some 130;
    } in
    event_key p ≡ text "legacy-payment:42"
unfolding ledger_run
legacy_key = refl

reconciliation_snapshot-AddsUp_example :
    AddsUp
      (reconciliation_snapshot 3 100 200 (pos 0) (pos 5) book)
      (reconciliation_snapshot 3 100 120 (pos 0) (pos 0) book)
      (reconciliation_snapshot 3 120 200 (pos 0) (pos 0) book)
reconciliation_snapshot-AddsUp_example =
    reconciliation_snapshot-AddsUp 3 100 120 200 (pos 0) (pos 5) (pos 0) (pos 0) (pos 0) (pos 0)
      book (omega arith) (omega arith)

held_sums_to_cash_in_hand_example :
    let snap = reconciliation_snapshot 3 100 200 (pos 0) (pos 5) book in
    sum (λ (h : ℕ × ℤ). h.1) snap.held ≡ snap.cash_in_hand
held_sums_to_cash_in_hand_example = held_sums_to_cash_in_hand 3 100 200 (pos 0) (pos 5) book

settle_twice_example :
    let (b₁, s₁) = settle 120 100 3 (pos 0) (pos 0) [] book in
    let (b₂, s₂) = settle 200 100 3 (pos 0) (pos 5) [] b₁ in
    let all = reconciliation_snapshot 3 (unsettled_start 100 3 book) 200 (pos 0) (pos 0) book in
    (s₂.period_start ≡ s₁.period_end)
    × (all.deliveries ≡ s₁.deliveries + s₂.deliveries)
    × (all.delivery_fees ≡ s₁.delivery_fees +ℤ s₂.delivery_fees)
    × (all.cash_collected ≡ s₁.cash_collected +ℤ s₂.cash_collected)
    × (all.qr_collected ≡ s₁.qr_collected +ℤ s₂.qr_collected)
unfolding ledger_run
settle_twice_example =
    settle_twice 120 200 100 100 3 (pos 0) (pos 0) (pos 0) (pos 5) [] [] book tt (omega arith)
      (omega arith)

abbrev share : Entry
share = record { order = 7; cash = pos 30000; card = pos 0; payme = pos 0 }

share_found : entry_of 3 payments (cancellation ∷ []) cancellation ≡ some share
unfolding ledger_run
share_found = refl

cancellation_is_bounded_example :
    (pos 1 ≤ℤ attributed share)
    × (attributed share ≤ℤ collected_on 3 7 payments)
    × (pos 30000 ≤ℤ max_ℤ (pos 70000 -ℤ pos 40000) (pos 0))
cancellation_is_bounded_example =
    cancellation_is_bounded 3 payments (cancellation ∷ []) cancellation share (omega arith)
      (omega arith) refl share_found
