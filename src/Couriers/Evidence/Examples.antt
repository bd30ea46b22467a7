-- ===== src/Couriers/Evidence/Examples.antt =====
-- An order with a cash payment at the till and a collection at the door, and the theorems on it.
use alpha_pos_server.Base.{
  ℕ, ◌≡◌, ◌⊎◌, refl, Bool, true, false, none, some, [], ◌∷◌, Text, text, ok, ◌==◌,
}
use alpha_pos_server.Base.Int.{pos, ◌+ℤ◌, ◌-ℤ◌, ◌≤ℤ◌, max_ℤ, min_ℤ}
use alpha_pos_server.Couriers.Ledger.{cash}
use alpha_pos_server.Couriers.Evidence.{
  Methods, ExternalRow, CourierRow, Sale, PaymentEvidence, PaidHeader, till_loop, external_loop,
  courier_loop, all_sums, payment_evidence, capacity, recompute_order_paid,
}
use alpha_pos_server.Couriers.Evidence.Room.{collected, total_is_within_due, collection_fits}
use alpha_pos_server.Couriers.Evidence.Header.{covers, header_is_earned, paid_header_is_kept}

abbrev methods : Methods
methods = record { is_concrete = λ k. not_mixed k; in_cash = 1; uzcard = 2; payme = 3; mixed = 9 }
  where
    not_mixed : ℕ → Bool
    not_mixed k = elim (k == 9) [ true ↦ false | false ↦ true ]

abbrev b1 : Text
b1 = text "b1"

-- 100.00 are due, and 40.00 were paid in cash.
abbrev sale : Sale
sale = record {
  branch = b1;
  due = pos 10000;
  till = record { branch = b1; method = 1; amount = pos 4000; created_at = 50 } ∷ [];
  external = [];
  courier = [];
}

abbrev event : ExternalRow
event = record {
  branch = b1;
  method = 1;
  amount = pos 6000;
  occurred_at = 80;
  source_id = text "k";
}

abbrev payment : CourierRow
payment = record {
  branch = b1;
  provider = cash;
  amount = pos 6000;
  external_id = text "k";
  paid_at = some 80;
  created_at = 80;
}

abbrev full_sale : Sale
full_sale = collected sale event payment

-- What a run computes with.
evidence_run : Sale → Sale
unfolding till_loop external_loop courier_loop all_sums payment_evidence capacity
    recompute_order_paid max_ℤ min_ℤ ◌+ℤ◌ ◌-ℤ◌
evidence_run s = s

has_room : capacity methods sale false (pos 6000) ≡ ok tt
unfolding evidence_run
has_room = refl

collection_fits_example :
    (e : PaymentEvidence) × (e' : PaymentEvidence) × (payment_evidence methods sale ≡ ok e)
    × (payment_evidence methods full_sale ≡ ok e')
    × (e'.total ≡ e.total +ℤ pos 6000)
    × (e'.total ≤ℤ pos 10000)
collection_fits_example =
    collection_fits methods sale false event payment has_room (refl, refl, refl) refl refl

abbrev evidence : PaymentEvidence
evidence = record {
  due = pos 10000;
  total = pos 10000;
  methods = 1 ∷ 1 ∷ [];
  paid_at = some 80;
  has_rows = true;
}

finds : payment_evidence methods full_sale ≡ ok evidence
unfolding evidence_run
finds = refl

total_is_within_due_example : evidence.total ≤ℤ full_sale.due
total_is_within_due_example = total_is_within_due methods full_sale evidence finds

abbrev unpaid : PaidHeader
unpaid = record { is_paid = false; recorded_at = none; method = none; paid_at = none }

turns_paid : (recompute_order_paid methods 90 (some 90) full_sale unpaid).is_paid ≡ true
unfolding evidence_run
turns_paid = refl

header_is_earned_example :
    (e : PaymentEvidence) × (payment_evidence methods full_sale ≡ ok e) × (e.total ≡ full_sale.due)
header_is_earned_example = header_is_earned methods 90 (some 90) full_sale unpaid refl turns_paid

abbrev paid_before : PaidHeader
paid_before = record { is_paid = true; recorded_at = some 70; method = some 1; paid_at = some 60 }

-- The evidence of a sale without its collection does not cover the bill.
paid_header_is_kept_example :
    ((recompute_order_paid methods 90 none sale paid_before).is_paid ≡ true)
    × ((recompute_order_paid methods 90 none sale paid_before).recorded_at ≡ some 70)
    × (((e : PaymentEvidence) × (payment_evidence methods sale ≡ ok e) × (covers e ≡ true))
        ⊎ (recompute_order_paid methods 90 none sale paid_before ≡ paid_before))
paid_header_is_kept_example = paid_header_is_kept methods 90 none sale paid_before refl
