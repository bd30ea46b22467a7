-- ===== src/Couriers/Webhook.antt =====
-- The refund of a payment and the callback of a payment gateway (couriers/payments.py,
-- refund_payment and apply_webhook), and the sequences of payment calls.
pub mod Final
mod Examples
use alpha_pos_server.Base.{
  ℕ, Bool, true, false, Option, none, some, List, [], ◌∷◌, map, Text, text, text_eq, strip,
  take_chars, is_blank, ◌||◌, if◌then◌else◌, Result, err, ok, Table, get, put, lower_char,
}
use alpha_pos_server.Base.Int.{ℤ, pos, hundredths}
use alpha_pos_server.Couriers.Ledger.{PaymentStatus, pending, paid, refunded, failed, Refund}
use alpha_pos_server.Couriers.Evidence.{capacity, of_provider}
use alpha_pos_server.Couriers.Receipts.{
  Receipt, DoorOrder, Books, sale_of, recomputed, refund_event_id, existing_refund,
}
use alpha_pos_server.Couriers.Payments.{
  with_evidence, presented, if_room, key_lookup, if_row, paid_row, create_payment,
}
use alpha_pos_server.Couriers.Asks.{
  Outside, RawAmount, Ask, Answer, refuse, reply, refund_refused, paid_event, refunded_event,
  no_branch, unknown_order, unknown_payment, unsupported_status, only_paid, no_refund,
}

unfoldable pub if_order : Table DoorOrder → ℕ → Answer → (DoorOrder → Answer) → Answer
if_order orders oid otherwise next = elim (get oid orders) [ none ↦ otherwise | some o ↦ next o ]

unfoldable pub if_owned : Books → DoorOrder → Answer → Answer
if_owned s o next = if is_blank o.branch then refuse s no_branch else next

abbrev pub record_refund : Books → ℕ → Result Text (Refund × Bool × List Refund) → Answer
record_refund s k (err why) = refuse s (refund_refused why)
record_refund s k (ok (r, is_new, refunds)) =
    reply (record s { refunds = refunds }) k refunded (if is_new then refunded_event k ∷ [] else [])

abbrev pub legacy_refund : Books → ℕ → Option Refund → Answer
legacy_refund s k none = refuse s no_refund
legacy_refund s k (some r) = reply s k refunded []

abbrev pub refund_by_status : Outside → ℕ → ℕ → Receipt → DoorOrder → Books → PaymentStatus → Answer
refund_by_status w now k p o s paid = if_owned s o (
    with_evidence w s s p p.order o.branch λ s'. record_refund s' k (
      w.provider_refund o (of_provider w.methods p.provider) (hundredths p.amount)
        (refund_event_id k p) s'.refunds))
refund_by_status w now k p o s refunded = if_owned s o (
    with_evidence w s s p p.order o.branch
      λ s'. legacy_refund s' k (existing_refund s'.refunds k p))
refund_by_status w now k p o s _ = refuse (recomputed w.methods now none p.order s) only_paid

-- `refund_payment`, of the row with this key.
unfoldable pub refund_payment : Outside → ℕ → ℕ → Receipt → Books → Answer
refund_payment w now k p s =
    if_order s.orders p.order (refuse s unknown_order) λ o. refund_by_status w now k p o s p.status

pub record Hook : Type 0 where
  pub external_id : Text
  pub payment_id : Option ℕ
  pub status : Text
  pub order_id : Option ℕ
  pub provider : Text
  pub amount : RawAmount

pub data Verdict : Type 0 where
  says_paid says_refunded says_failed says_else : Verdict

abbrev pub is_one_of : Text → List Text → Bool
is_one_of s [] = false
is_one_of s (w ∷ ws) = text_eq s w || is_one_of s ws

-- `_PAID_WORDS`, `_REFUND_WORDS`, `_FAIL_WORDS`
abbrev pub paid_words : List Text
paid_words =
    text "paid" ∷ text "success" ∷ text "succeeded" ∷ text "completed" ∷ text "confirmed" ∷ []

abbrev pub refund_words : List Text
refund_words = text "refund" ∷ text "refunded" ∷ text "reversed" ∷ text "chargeback" ∷ []

abbrev pub fail_words : List Text
fail_words = text "fail" ∷ text "failed" ∷ text "canceled" ∷ text "cancelled" ∷ text "declined" ∷ []

abbrev pub verdict_of : Text → Verdict
verdict_of s =
    if is_one_of s paid_words
    then says_paid
    else if is_one_of s refund_words
    then says_refunded
    else if is_one_of s fail_words
    then says_failed
    else says_else

unfoldable pub read_verdict : Text → Verdict
read_verdict raw = verdict_of (map lower_char (strip raw))

abbrev pub hook_key : Hook → Text
hook_key h = take_chars 128 (strip h.external_id)

abbrev pub hook_lookup : Hook → Table Receipt → Option ℕ → Option ℕ
hook_lookup h rows (some k) = some k
hook_lookup h rows none = if is_blank (hook_key h) then none else key_lookup (hook_key h) rows

-- A paid callback of an existing payment, by its status.
abbrev pub paid_by_status : Outside → ℕ → ℕ → Receipt → DoorOrder → Books → PaymentStatus → Answer
paid_by_status w now k p o s paid = if_owned s o (
    with_evidence w s s p p.order o.branch
      λ s'. presented (recomputed w.methods now none p.order s') k p)
paid_by_status w now k p o s refunded = if_owned s o (
    with_evidence w s s p p.order o.branch
      λ s'. reply (recomputed w.methods now none p.order s') k refunded [])
paid_by_status w now k p o s failed = reply (recomputed w.methods now none p.order s) k failed []
paid_by_status w now k p o s pending =
    if_room s (capacity w.methods (sale_of p.order o s) o.header.is_paid (hundredths p.amount)) (
      if_owned s o (
        with_evidence w s (record s { receipts = put k (paid_row now p) s.receipts })
          (paid_row now p) p.order o.branch
          λ s'. reply (recomputed w.methods now (some now) p.order s') k paid (paid_event k ∷ [])))

unfoldable pub paid_callback : Outside → ℕ → ℕ → Receipt → Books → Answer
paid_callback w now k p s =
    if_order s.orders p.order (refuse s unknown_order) λ o. paid_by_status w now k p o s p.status

-- The online-payment seam: the order's courier collects.
abbrev pub hook_ask : Hook → ℕ → DoorOrder → Ask
hook_ask h oid o = record {
  courier = o.assigned;
  order = oid;
  seen = o.due;
  provider = h.provider;
  amount = h.amount;
  external_id = hook_key h;
  note = text "gateway";
  link = [];
}

abbrev pub online_payment :
    Outside → ℕ → Hook → ℕ → Option (ℕ × Receipt) → Books → Option ℕ → Answer
online_payment w now h draw arrival s none = refuse s unknown_payment
online_payment w now h draw arrival s (some oid) =
    if_order s.orders oid (refuse s unknown_order)
      λ o. create_payment w now (hook_ask h oid o) draw arrival s

abbrev pub failed_row : Receipt → Receipt
failed_row p = record p { status = failed }

abbrev pub fail_by_status : ℕ → Receipt → Books → PaymentStatus → Books
fail_by_status k p s pending = record s { receipts = put k (failed_row p) s.receipts }
fail_by_status k p s _ = s

abbrev pub status_after_failure : PaymentStatus → PaymentStatus
status_after_failure pending = failed
status_after_failure st = st

unfoldable pub failed_callback : Outside → ℕ → ℕ → Receipt → Books → Answer
failed_callback w now k p s =
    reply (recomputed w.methods now none p.order (fail_by_status k p s p.status)) k
      (status_after_failure p.status) []

abbrev pub by_verdict : Outside → ℕ → Hook → ℕ → Option (ℕ × Receipt) → Books → Verdict → Answer
by_verdict w now h draw arrival s says_paid =
    if_row s.receipts (hook_lookup h s.receipts h.payment_id) (λ k. λ p. paid_callback w now k p s)
      (online_payment w now h draw arrival s h.order_id)
by_verdict w now h draw arrival s says_refunded =
    if_row s.receipts (hook_lookup h s.receipts h.payment_id) (λ k. λ p. refund_payment w now k p s)
      (refuse s unknown_payment)
by_verdict w now h draw arrival s says_failed =
    if_row s.receipts (hook_lookup h s.receipts h.payment_id)
      (λ k. λ p. failed_callback w now k p s) (s, ok none)
by_verdict w now h draw arrival s says_else = refuse s unsupported_status

-- `apply_webhook`
unfoldable pub apply_webhook : Outside → ℕ → Hook → ℕ → Option (ℕ × Receipt) → Books → Answer
apply_webhook w now h draw arrival s = by_verdict w now h draw arrival s (read_verdict h.status)

-- A payment call, at a time. A refund names a row by its key; of no such row nothing happens.
pub data Call : Type 0 where
  create : Ask → Call
  refund : ℕ → Call
  webhook : Hook → Call

abbrev pub refund_of : Outside → ℕ → ℕ → Books → Answer
refund_of w now k s =
    if_row s.receipts (some k) (λ j. λ p. refund_payment w now j p s) (refuse s unknown_payment)

unfoldable pub perform : Outside → ℕ → Call → ℕ → Option (ℕ × Receipt) → Books → Answer
perform w now (create a) draw arrival s = create_payment w now a draw arrival s
perform w now (refund k) draw arrival s = refund_of w now k s
perform w now (webhook h) draw arrival s = apply_webhook w now h draw arrival s
