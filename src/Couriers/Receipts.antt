-- ===== src/Couriers/Receipts.antt =====
-- The receipts of couriers and the external events that mirror them (couriers/payments.py,
-- _ensure_external_payment_evidence), with the tables that the payment calls read and write.
-- A receipt's amount is in whole so'm, an event's in hundredths. A receipt always has a creation
-- time, so that an event always has a time. The order of the rows of an evidence is that of the
-- tables; it decides only which of several errors is named. Events are those of the source COURIER.
use alpha_pos_server.Base.{
  ℕ, Bool, false, not, ◌&&◌, Option, none, some, List, [], ◌∷◌, ◌++◌, Text, text_eq, strip,
  is_blank, ◌==◌, if◌then◌else◌, Result, ok, ◌>>=◌, ◌>>◌, raise_if, Table, get, put, get_or,
}
use alpha_pos_server.Base.Int.{ℤ, pos, leb_ℤ, hundredths}
use alpha_pos_server.Couriers.Ledger.{
  Provider, PaymentStatus, Payment, Refund, has_been_paid, event_key, is_provider_refund,
}
use alpha_pos_server.Couriers.Evidence.{
  Methods, TillRow, ExternalRow, CourierRow, Sale, PaidHeader, of_provider, recompute_order_paid,
}

pub record Receipt : Type 0 where
  pub order : ℕ
  pub courier : Option ℕ
  pub provider : Provider
  pub amount : ℤ
  pub status : PaymentStatus
  pub external_id : Text
  pub branch : Text
  pub note : Text
  pub link : Text
  pub paid_at : Option ℕ
  pub created_at : ℕ

pub record Event : Type 0 where
  pub order : ℕ
  pub branch : Text
  pub source_id : Text
  pub method : ℕ
  pub amount : ℤ
  pub occurred_at : ℕ
  pub is_deleted : Bool

-- An order as the payment calls see it, with the courier of its assignment.
pub record DoorOrder : Type 0 where
  pub uuid : Text
  pub branch : Text
  pub is_delivery : Bool
  pub due : ℤ  -- total_amount, in hundredths
  pub assigned : Option ℕ
  pub till : List TillRow
  pub header : PaidHeader

pub record Books : Type 0 where
  pub orders : Table DoorOrder
  pub receipts : Table Receipt
  pub events : List Event
  pub refunds : List Refund

pub data EventConflict : Type 0 where
  unpaid_receipt foreign_order unowned_order foreign_branch no_source_id no_method no_amount :
      EventConflict
  changed_event : EventConflict

abbrev pub occurred : Receipt → ℕ
occurred p = get_or p.paid_at p.created_at

abbrev pub event_of : Methods → Receipt → ℕ → Text → Event
event_of m p oid branch = record {
  order = oid;
  branch = strip branch;
  source_id = p.external_id;
  method = of_provider m p.provider;
  amount = hundredths p.amount;
  occurred_at = occurred p;
  is_deleted = false;
}

-- `_external_evidence_values`, on the branch of the order.
unfoldable pub external_evidence_values : Methods → Receipt → ℕ → Text → Result EventConflict Event
external_evidence_values m p oid branch = do
  raise_if (not (has_been_paid p.status)) unpaid_receipt
  raise_if (not (p.order == oid)) foreign_order
  raise_if (is_blank (strip branch)) unowned_order
  raise_if (not (is_blank (strip p.branch)) && not (text_eq (strip p.branch) (strip branch)))
      foreign_branch
  raise_if (is_blank (strip p.external_id)) no_source_id
  raise_if (not (m.is_concrete (of_provider m p.provider))) no_method
  raise_if (leb_ℤ p.amount (pos 0)) no_amount
  ok (event_of m p oid branch)

abbrev pub find_first {ℓ} : {A : Type ℓ} → (A → Bool) → List A → Option A
find_first p [] = none
find_first p (x ∷ xs) = let rest = find_first p xs in if p x then some x else rest

-- The row that a lookup by branch, source and source id finds.
abbrev pub is_same_event : Event → Event → Bool
is_same_event v e = text_eq e.branch v.branch && text_eq e.source_id v.source_id

abbrev pub eq_ℤ : ℤ → ℤ → Bool
eq_ℤ a b = leb_ℤ a b && leb_ℤ b a

-- Nothing of the event differs from what the receipt says.
unfoldable pub agrees : Event → Event → Bool
agrees v e =
    text_eq (strip e.branch) v.branch
    && e.order == v.order
    && text_eq e.source_id v.source_id
    && e.method == v.method
    && eq_ℤ e.amount v.amount
    && e.occurred_at == v.occurred_at
    && not e.is_deleted

abbrev pub with_event : Event → List Event → Option Event → Result EventConflict (List Event)
with_event v t (some e) = raise_if (not (agrees v e)) changed_event >> ok t
with_event v t none = raise_if (not (agrees v v)) changed_event >> ok (t ++ v ∷ [])

-- `_ensure_external_payment_evidence`
unfoldable pub ensure_evidence :
    Methods → Receipt → ℕ → Text → List Event → Result EventConflict (List Event)
ensure_evidence m p oid branch t = do
  v ← external_evidence_values m p oid branch
  with_event v t (find_first (is_same_event v) t)

abbrev pub external_rows : ℕ → List Event → List ExternalRow
external_rows oid [] = []
external_rows oid (e ∷ es) =
    let rest = external_rows oid es in
    if e.order == oid && not e.is_deleted
    then record {
      branch = e.branch;
      method = e.method;
      amount = e.amount;
      occurred_at = e.occurred_at;
      source_id = e.source_id;
    }
      ∷ rest
    else rest

abbrev pub courier_rows : ℕ → Table Receipt → List CourierRow
courier_rows oid [] = []
courier_rows oid ((k, p) ∷ ps) =
    let rest = courier_rows oid ps in
    if p.order == oid && has_been_paid p.status
    then record {
      branch = p.branch;
      provider = p.provider;
      amount = hundredths p.amount;
      external_id = p.external_id;
      paid_at = p.paid_at;
      created_at = p.created_at;
    }
      ∷ rest
    else rest

-- The order with the rows that the queries of `_payment_evidence` return.
abbrev pub sale_of : ℕ → DoorOrder → Books → Sale
sale_of oid o s = record {
  branch = o.branch;
  due = o.due;
  till = o.till;
  external = external_rows oid s.events;
  courier = courier_rows oid s.receipts;
}

abbrev pub with_header : Methods → ℕ → Option ℕ → ℕ → Books → Option DoorOrder → Books
with_header m now at oid s none = s
with_header m now at oid s (some o) = record s {
  orders =
      put oid (record o { header = recompute_order_paid m now at (sale_of oid o s) o.header })
        s.orders;
}

-- `_recompute_order_paid`, with the save of the order.
unfoldable pub recomputed : Methods → ℕ → Option ℕ → ℕ → Books → Books
recomputed m now at oid s = with_header m now at oid s (get oid s.orders)

abbrev pub as_payment : ℕ → Receipt → Payment
as_payment k p = record {
  key = k;
  order = p.order;
  courier = p.courier;
  provider = p.provider;
  amount = p.amount;
  status = p.status;
  external_id = p.external_id;
  paid_at = p.paid_at;
}

-- `_refund_event_id`
abbrev pub refund_event_id : ℕ → Receipt → Text
refund_event_id k p = event_key (as_payment k p)

-- `_existing_refund`
unfoldable pub existing_refund : List Refund → ℕ → Receipt → Option Refund
existing_refund rs k p = find_first (is_provider_refund (refund_event_id k p)) rs
