-- ===== src/Couriers/Payments.antt =====
-- The collection of a payment (couriers/payments.py, create_payment). A call is one transaction; its
-- answer holds the tables as they are committed, so that an early return keeps what was written
-- before it, and a conflict with an event, which rolls the transaction back, holds the tables as
-- they were. What another transaction commits under the same key between the lookup and the insert
-- is an argument, and so is the primary key that the table gives to a new row.
pub mod Cases
pub mod Writes
pub mod Stands
pub mod Replay
pub mod Refusals
use alpha_pos_server.Base.{
  ℕ, ◌+◌, ◌-◌, ◌%◌, ◌/◌, ◌^◌, Bool, true, false, not, ◌&&◌, ◌||◌, Option, none, some, List, [], ◌∷◌,
  ◌++◌, map, Text, text, text_eq, strip, take_chars, is_blank, decimal, key_eq, leb, ◌==◌,
  if◌then◌else◌, Result, err, ok, ◌>>=◌, ◌>>◌, raise_if, or_raise, Table, get, put, find_key,
}
use alpha_pos_server.Base.Int.{ℤ, pos, negsuc, leb_ℤ, pos_part, neg_part, sub_ℕ, hundredths}
use alpha_pos_server.Couriers.Ledger.{
  Provider, cash, card, qr, PaymentStatus, pending, paid, refunded, failed, Refund, provider_eq,
}
use alpha_pos_server.Couriers.Evidence.{Methods, EvidenceError, capacity, of_provider}
use alpha_pos_server.Couriers.Receipts.{
  Receipt, Event, DoorOrder, Books, EventConflict, ensure_evidence, sale_of, recomputed, eq_ℤ,
  refund_event_id, existing_refund,
}
use alpha_pos_server.Couriers.Asks.{
  PaymentError, taken_key, no_room, conflict, Outside, received_notice, Answer, refuse, reply,
  identity_error, Ask, Terms, supplied_external_id, terms_of, paid_event, failed_payment,
}

abbrev pub fresh_receipt : Ask → Terms → ℕ → Receipt
fresh_receipt a t now = record {
  order = a.order;
  courier = a.courier;
  provider = t.kind;
  amount = t.sum;
  status = paid;
  external_id = t.key;
  branch = t.row.branch;
  note = take_chars 200 a.note;
  link = take_chars 512 a.link;
  paid_at = some now;
  created_at = now;
}

-- `_evidence_error_or_none`, and what follows it: a conflict leaves the tables of the start.
abbrev pub evidence_step :
    Books → Books → Result EventConflict (List Event) → (Books → Answer) → Answer
evidence_step start s (err c) next = refuse start (conflict c)
evidence_step start s (ok events) next = next (record s { events = events })

unfoldable pub with_evidence :
    Outside → Books → Books → Receipt → ℕ → Text → (Books → Answer) → Answer
with_evidence w start s p oid branch next =
    evidence_step start s (ensure_evidence w.methods p oid branch s.events) next

-- The payment as it is, or as refunded if the ledger has its refund.
abbrev pub shown : Books → ℕ → PaymentStatus → Option Refund → Answer
shown s k st none = reply s k st []
shown s k st (some r) = reply s k refunded []

unfoldable pub presented : Books → ℕ → Receipt → Answer
presented s k p = shown s k p.status (existing_refund s.refunds k p)

-- The end of a collection: the evidence, the header, the event and the notice to the courier.
unfoldable pub collect : Outside → ℕ → Ask → Terms → Books → ℕ → Receipt → Books → Answer
collect w now a t start k p s = with_evidence w start s p a.order t.row.branch λ s'.
    reply (recomputed w.methods now (some now) a.order s') k paid
      (paid_event k ∷ received_notice a.courier ∷ [])

abbrev pub paid_row : ℕ → Receipt → Receipt
paid_row now p = record p { status = paid; paid_at = some now }

unfoldable pub if_room : Books → Result EvidenceError (Unit {0}) → Answer → Answer
if_room s (err e) next = refuse s (no_room e)
if_room s (ok u) next = next

-- An existing payment of the same identity, by its status.
abbrev pub resume : Outside → ℕ → Ask → Terms → Books → ℕ → Receipt → Books → PaymentStatus → Answer
resume w now a t start k p s paid =
    with_evidence w start s p a.order t.row.branch
      λ s'. presented (recomputed w.methods now (some now) a.order s') k p
resume w now a t start k p s refunded =
    with_evidence w start s p a.order t.row.branch
      λ s'. reply (recomputed w.methods now (some now) a.order s') k refunded []
resume w now a t start k p s failed =
    refuse (recomputed w.methods now (some now) a.order s) failed_payment
resume w now a t start k p s pending =
    if_room s (capacity w.methods (sale_of a.order t.row s) t.row.header.is_paid (hundredths t.sum))
      (collect w now a t start k (paid_row now p)
        (record s { receipts = put k (paid_row now p) s.receipts }))

unfoldable pub if_same : Books → Result PaymentError (Unit {0}) → Answer → Answer
if_same s (err e) next = refuse s e
if_same s (ok u) next = next

abbrev pub same_identity : Ask → Terms → Receipt → Result PaymentError (Unit {0})
same_identity a t p = identity_error p a.order a.courier t.kind t.sum

unfoldable pub existing_payment : Outside → ℕ → Ask → Terms → Books → ℕ → Receipt → Books → Answer
existing_payment w now a t start k p s =
    if_same s (same_identity a t p) (resume w now a t start k p s p.status)

-- Another request won the race for the key.
abbrev pub raced_by_status :
    Outside → ℕ → Ask → Terms → ℕ → Receipt → Books → PaymentStatus → Answer
raced_by_status w now a t k p s pending = refuse s (taken_key pending)
raced_by_status w now a t k p s failed = refuse s (taken_key failed)
raced_by_status w now a t k p s _ =
    with_evidence w s s p a.order t.row.branch
      λ s'. presented (recomputed w.methods now (some now) a.order s') k p

unfoldable pub raced_payment : Outside → ℕ → Ask → Terms → ℕ → Receipt → Books → Answer
raced_payment w now a t k p s =
    if_same s (same_identity a t p) (raced_by_status w now a t k p s p.status)

-- `objects.filter(external_id=key)`: the row's primary key.
abbrev pub key_lookup : Text → Table Receipt → Option ℕ
key_lookup id rows = find_key (λ p. text_eq p.external_id id) rows

-- A row by the key that a lookup has found.
unfoldable pub if_row {ℓ} : {A : Type ℓ} → Table Receipt → Option ℕ → (ℕ → Receipt → A) → A → A
if_row rows none found otherwise = otherwise
if_row rows (some k) found otherwise = elim (get k rows) [ none ↦ otherwise | some p ↦ found k p ]

-- What another transaction commits in between.
abbrev pub with_arrival : Option (ℕ × Receipt) → Table Receipt → Table Receipt
with_arrival none rows = rows
with_arrival (some x) rows = put x.0 x.1 rows

abbrev pub get_or_create : Outside → ℕ → Ask → Terms → ℕ → Books → Answer
get_or_create w now a t draw s =
    if_row s.receipts (key_lookup t.key s.receipts) (λ k. λ p. raced_payment w now a t k p s)
      (collect w now a t s draw (fresh_receipt a t now)
        (record s { receipts = put draw (fresh_receipt a t now) s.receipts }))

unfoldable pub new_payment : Outside → ℕ → Ask → Terms → ℕ → Option (ℕ × Receipt) → Books → Answer
new_payment w now a t draw arrival s =
    if_room s (capacity w.methods (sale_of a.order t.row s) t.row.header.is_paid (hundredths t.sum))
      (get_or_create w now a t draw (record s { receipts = with_arrival arrival s.receipts }))

-- A row of an earlier release that has no key.
abbrev pub is_keyless : Ask → Terms → Receipt → Bool
is_keyless a t p =
    is_blank p.external_id
    && p.order == a.order
    && key_eq p.courier a.courier
    && provider_eq p.provider t.kind
    && eq_ℤ p.amount t.sum

abbrev pub keyless_lookup : Ask → Terms → Table Receipt → Option ℕ
keyless_lookup a t rows =
    if is_blank (supplied_external_id a) then find_key (is_keyless a t) rows else none

abbrev pub keyed : Text → Receipt → Receipt
keyed id p = record p { external_id = id }

unfoldable pub locate : Outside → ℕ → Ask → Terms → ℕ → Option (ℕ × Receipt) → Books → Answer
locate w now a t draw arrival s =
    if_row s.receipts (key_lookup t.key s.receipts) (λ k. λ p. existing_payment w now a t s k p s)
      (if_row s.receipts (keyless_lookup a t s.receipts)
        (λ k. λ p.
          existing_payment w now a t s k (keyed t.key p)
            (record s { receipts = put k (keyed t.key p) s.receipts }))
        (new_payment w now a t draw arrival s))

-- `create_payment`, at a time, with the primary key that the table would give to a new row.
unfoldable pub create_payment : Outside → ℕ → Ask → ℕ → Option (ℕ × Receipt) → Books → Answer
create_payment w now a draw arrival s = elim (terms_of w a s.orders) [
  | err e ↦ refuse s e
  | ok t ↦ locate w now a t draw arrival s
]
