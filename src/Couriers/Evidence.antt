-- ===== src/Couriers/Evidence.antt =====
-- The evidence that an order is paid (couriers/payments.py): till rows, external events and
-- courier payments that no event mirrors yet, the room that is left for a collection, and the paid
-- header that is derived from them.
-- Amounts are in hundredths. The lists are the order's rows as the queries return them; a payment
-- method of the core is a number, and `Methods` says which of them are concrete.
pub mod Amounts
pub mod Loops
pub mod Room
pub mod Header
pub mod Repeats
mod Examples
use alpha_pos_server.Base.{
  ℕ, Bool, true, false, not, ◌&&◌, ◌||◌, Option, none, some, List, [], ◌∷◌, ◌++◌, Text, text_eq,
  get_or, ltb, leb, ◌==◌, max, if◌then◌else◌, Result, err, ok, ◌>>=◌, ◌>>◌, raise_if,
}
use alpha_pos_server.Base.Int.{ℤ, pos, ◌+ℤ◌, ◌-ℤ◌, ltb_ℤ, leb_ℤ, max_ℤ, min_ℤ, is_zero}
use alpha_pos_server.Couriers.Ledger.{Provider, cash, card, qr}

-- The payment methods of the core.
pub record Methods : Type 0 where
  pub is_concrete : ℕ → Bool  -- _CONCRETE_METHODS
  pub in_cash : ℕ  -- Order.PaymentMethod.CASH
  pub uzcard : ℕ
  pub payme : ℕ
  pub mixed : ℕ  -- Order.PaymentMethod.MIXED

-- `PROVIDER_TO_METHOD`
abbrev pub of_provider : Methods → Provider → ℕ
of_provider m cash = m.in_cash
of_provider m card = m.uzcard
of_provider m qr = m.payme

pub record TillRow : Type 0 where
  pub branch : Text
  pub method : ℕ
  pub amount : ℤ
  pub created_at : ℕ

pub record ExternalRow : Type 0 where
  pub branch : Text
  pub method : ℕ
  pub amount : ℤ
  pub occurred_at : ℕ
  pub source_id : Text

-- A courier payment that is paid or refunded.
pub record CourierRow : Type 0 where
  pub branch : Text
  pub provider : Provider
  pub amount : ℤ
  pub external_id : Text
  pub paid_at : Option ℕ
  pub created_at : ℕ

pub record Sale : Type 0 where
  pub branch : Text
  pub due : ℤ  -- total_amount
  pub till : List TillRow
  pub external : List ExternalRow
  pub courier : List CourierRow

pub data EvidenceError : Type 0 where
  other_branch invalid_method negative_till not_positive noncash_exceeds exact_exceeds :
      EvidenceError
  nothing_due already_paid exceeds_remaining : EvidenceError

-- What the three loops have summed up.
pub record Sums : Type 0 where
  pub noncash : ℤ
  pub tendered : ℤ  -- cash_tendered
  pub exact : ℤ  -- exact_external
  pub methods : List ℕ
  pub stamps : List ℕ
  pub mirrored : List Text

abbrev pub add_till : Methods → TillRow → Sums → Sums
add_till m r s =
    if is_zero r.amount
    then s
    else if r.method == m.in_cash
    then record s { tendered = s.tendered +ℤ r.amount; stamps = r.created_at ∷ s.stamps }
    else record s {
      noncash = s.noncash +ℤ r.amount;
      methods = r.method ∷ s.methods;
      stamps = r.created_at ∷ s.stamps;
    }

unfoldable pub till_loop : Methods → Text → List TillRow → Sums → Result EvidenceError Sums
till_loop m branch [] s = ok s
till_loop m branch (r ∷ rs) s =
    let rest = till_loop m branch rs (add_till m r s) in
    raise_if (not (text_eq r.branch branch)) other_branch
    >> (raise_if (not (m.is_concrete r.method)) invalid_method
        >> (raise_if (ltb_ℤ r.amount (pos 0)) negative_till >> rest))

abbrev pub add_external : ExternalRow → Sums → Sums
add_external r s = record s {
  exact = s.exact +ℤ r.amount;
  methods = r.method ∷ s.methods;
  stamps = r.occurred_at ∷ s.stamps;
  mirrored = r.source_id ∷ s.mirrored;
}

unfoldable pub external_loop : Methods → Text → List ExternalRow → Sums → Result EvidenceError Sums
external_loop m branch [] s = ok s
external_loop m branch (r ∷ rs) s =
    let rest = external_loop m branch rs (add_external r s) in
    raise_if (not (text_eq r.branch branch)) other_branch
    >> (raise_if (not (m.is_concrete r.method)) invalid_method
        >> (raise_if (leb_ℤ r.amount (pos 0)) not_positive >> rest))

abbrev pub is_mirrored : Text → List Text → Bool
is_mirrored id [] = false
is_mirrored id (x ∷ xs) = text_eq id x || is_mirrored id xs

abbrev pub add_courier : Methods → CourierRow → Sums → Sums
add_courier m r s = record s {
  exact = s.exact +ℤ r.amount;
  methods = of_provider m r.provider ∷ s.methods;
  stamps = get_or r.paid_at r.created_at ∷ s.stamps;
}

-- The sums, and whether a row was not mirrored.
unfoldable pub courier_loop :
    Methods → Text → List CourierRow → Sums → Result EvidenceError (Sums × Bool)
courier_loop m branch [] s = ok (s, false)
courier_loop m branch (r ∷ rs) s =
    let skipped = courier_loop m branch rs s in
    let rest = courier_loop m branch rs (add_courier m r s) in
    if is_mirrored r.external_id s.mirrored
    then skipped
    else raise_if (not (text_eq r.branch branch)) other_branch
      >> (raise_if (not (m.is_concrete (of_provider m r.provider))) invalid_method
          >> (raise_if (leb_ℤ r.amount (pos 0)) not_positive >> (rest >>= λ x. ok (x.0, true))))

abbrev pub latest : List ℕ → Option ℕ
latest [] = none
latest (t ∷ ts) = some (get_or (with_max t (latest ts)) t)
  where
    with_max : ℕ → Option ℕ → Option ℕ
    with_max t none = none
    with_max t (some u) = some (max t u)

pub record PaymentEvidence : Type 0 where
  pub due : ℤ
  pub total : ℤ
  pub methods : List ℕ
  pub paid_at : Option ℕ
  pub has_rows : Bool

-- Cash over the residual of the bill is change.
abbrev pub cash_applied : ℤ → Sums → ℤ
cash_applied due s = min_ℤ s.tendered (max_ℤ (due -ℤ s.noncash -ℤ s.exact) (pos 0))

abbrev pub total_of : ℤ → Sums → ℤ
total_of due s = s.noncash +ℤ cash_applied due s +ℤ s.exact

abbrev pub is_some_row {ℓ} : {A : Type ℓ} → List A → Bool
is_some_row [] = false
is_some_row (x ∷ xs) = true

abbrev pub no_sums : Sums
no_sums = record {
  noncash = pos 0;
  tendered = pos 0;
  exact = pos 0;
  methods = [];
  stamps = [];
  mirrored = [];
}

unfoldable pub all_sums : Methods → Sale → Result EvidenceError (Sums × Bool)
all_sums m sale = do
  till ← till_loop m sale.branch sale.till no_sums
  raise_if (ltb_ℤ sale.due till.noncash) noncash_exceeds
  external ← external_loop m sale.branch sale.external till
  courier_loop m sale.branch sale.courier external

abbrev pub evidence_of : Methods → Sale → Sums × Bool → PaymentEvidence
evidence_of m sale x = record {
  due = sale.due;
  total = total_of sale.due x.0;
  methods =
      if ltb_ℤ (pos 0) (cash_applied sale.due x.0) then m.in_cash ∷ x.0.methods else x.0.methods;
  paid_at = latest x.0.stamps;
  has_rows = is_some_row sale.till || is_some_row sale.external || x.1;
}

-- `_payment_evidence`
unfoldable pub payment_evidence : Methods → Sale → Result EvidenceError PaymentEvidence
payment_evidence m sale = do
  x ← all_sums m sale
  raise_if (ltb_ℤ sale.due (x.0.noncash +ℤ x.0.exact)) exact_exceeds
  ok (evidence_of m sale x)

-- `_capacity_error`, of an order that is or is not marked as paid.
unfoldable pub capacity : Methods → Sale → Bool → ℤ → Result EvidenceError (Unit {0})
capacity m sale is_paid amount = do
  e ← payment_evidence m sale
  raise_if (leb_ℤ e.due (pos 0)) nothing_due
  raise_if (is_paid && not e.has_rows) already_paid
  raise_if (ltb_ℤ (e.due -ℤ e.total) amount) exceeds_remaining

-- The paid header of an order.
pub record PaidHeader : Type 0 where
  pub is_paid : Bool
  pub recorded_at : Option ℕ  -- accounting_recorded_at
  pub method : Option ℕ  -- payment_method
  pub paid_at : Option ℕ

-- All of the methods are this one.
abbrev pub all_same : ℕ → List ℕ → Bool
all_same x [] = true
all_same x (y ∷ ys) = x == y && all_same x ys

-- `next(iter(methods)) if len(methods) == 1 else 'MIXED'`
abbrev pub header_method : Methods → List ℕ → ℕ
header_method m [] = m.mixed
header_method m (x ∷ xs) = if all_same x xs then x else m.mixed

abbrev pub or_recorded : Option ℕ → Option ℕ → Option ℕ
or_recorded none at = at
or_recorded (some t) at = some t

abbrev pub derived : Methods → ℕ → Option ℕ → PaymentEvidence → PaidHeader → PaidHeader
derived m now recorded_at e h =
    if ltb_ℤ (pos 0) e.total && leb_ℤ e.due e.total
    then record {
      is_paid = true;
      recorded_at = if h.is_paid then h.recorded_at else or_recorded h.recorded_at recorded_at;
      method = some (header_method m e.methods);
      paid_at = some (get_or e.paid_at now);
    }
    else if h.is_paid
    then h
    else record h { method = none; paid_at = none }

abbrev pub from_evidence :
    Methods → ℕ → Option ℕ → Result EvidenceError PaymentEvidence → PaidHeader → PaidHeader
from_evidence m now recorded_at (err refusal) h = h
from_evidence m now recorded_at (ok e) h = derived m now recorded_at e h

-- `_recompute_order_paid`
unfoldable pub recompute_order_paid : Methods → ℕ → Option ℕ → Sale → PaidHeader → PaidHeader
recompute_order_paid m now recorded_at sale h =
    from_evidence m now recorded_at (payment_evidence m sale) h
