-- ===== src/Couriers/Asks.antt =====
-- What a call of create_payment asks for (couriers/payments.py): its provider, amount and key, and
-- the checks before the first lookup.
-- The lock of a branch or a courier changes no table.
use alpha_pos_server.Base.{
  ℕ, ◌+◌, ◌%◌, ◌/◌, ◌^◌, Bool, true, false, not, ◌&&◌, Option, none, some, List, [], ◌∷◌, ◌++◌, map,
  Text, text, text_eq, strip, take_chars, is_blank, decimal, key_eq, ◌==◌, if◌then◌else◌, Result,
  err, ok, ◌>>=◌, ◌>>◌, raise_if, or_raise, Table, get, upper_char,
}
use alpha_pos_server.Base.Int.{ℤ, pos, negsuc, leb_ℤ, pos_part, neg_part, sub_ℕ}
use alpha_pos_server.Couriers.Ledger.{Provider, cash, card, qr, PaymentStatus, Refund, provider_eq}
use alpha_pos_server.Couriers.Evidence.{Methods, EvidenceError}
use alpha_pos_server.Couriers.Receipts.{Receipt, DoorOrder, Books, EventConflict, eq_ℤ}

pub data PaymentError : Type 0 where
  invalid_provider not_integer not_positive not_delivery not_assigned no_branch : PaymentError
  other_order other_provider other_amount other_courier failed_payment : PaymentError
  unknown_order unknown_payment unsupported_status only_paid no_refund : PaymentError
  taken_key : PaymentStatus → PaymentError
  no_room : EvidenceError → PaymentError
  conflict : EventConflict → PaymentError
  refund_refused : Text → PaymentError

-- What the calls use outside of this module: the methods of the core, SHA-256 as hexadecimal
-- digits, and `record_external_provider_refund` of the core, by the order, the method, the amount
-- and the source id, with the refund, whether it is new, and the refunds after it.
pub record Outside : Type 0 where
  pub methods : Methods
  pub digest : Text → Text
  pub provider_refund :
      DoorOrder → ℕ → ℤ → Text → List Refund → Result Text (Refund × Bool × List Refund)

pub data MoneyEffect : Type 0 where
  paid_event refunded_event : ℕ → MoneyEffect
  received_notice : Option ℕ → MoneyEffect

-- The payment that a call returns, with the status it shows.
pub record Reply : Type 0 where
  pub payment : ℕ
  pub status : PaymentStatus
  pub effects : List MoneyEffect

abbrev pub Answer : Type 0
Answer = Books × Result PaymentError (Option Reply)

abbrev pub refuse : Books → PaymentError → Answer
refuse s e = (s, err e)

abbrev pub reply : Books → ℕ → PaymentStatus → List MoneyEffect → Answer
reply s k st effects = (s, ok (some (record { payment = k; status = st; effects = effects })))

abbrev pub provider_of : Text → Option Provider
provider_of s =
    if text_eq s (text "CASH")
    then some cash
    else if text_eq s (text "CARD")
    then some card
    else if text_eq s (text "QR")
    then some qr
    else none

unfoldable pub read_provider : Text → Option Provider
read_provider raw = provider_of (map upper_char (strip raw))

-- An amount of a request: none or the empty text, no number, no finite number, or a decimal number
-- with its digits after the point.
pub data RawAmount : Type 0 where
  missing not_a_decimal not_finite : RawAmount
  decimal_number : ℤ → ℕ → RawAmount

abbrev pub is_missing : RawAmount → Bool
is_missing missing = true
is_missing _ = false

abbrev pub or_total : ℤ → RawAmount → RawAmount
or_total total missing = decimal_number total 2
or_total total amount = amount

abbrev pub integer_of : RawAmount → Result PaymentError ℤ
integer_of (decimal_number n places) = do
  raise_if (not (pos_part n % 10 ^ places == 0 && neg_part n % 10 ^ places == 0)) not_integer
  ok (sub_ℕ (pos_part n / 10 ^ places) (neg_part n / 10 ^ places))
integer_of _ = err not_integer

-- `_coerce_amount`, with the total of the order in hundredths.
unfoldable pub coerce_amount : RawAmount → ℤ → Result PaymentError ℤ
coerce_amount amount total = do
  n ← integer_of (or_total total amount)
  raise_if (leb_ℤ n (pos 0)) not_positive
  ok n

abbrev pub show_ℤ : ℤ → Text
show_ℤ (pos n) = decimal n
show_ℤ (negsuc n) = 45 ∷ decimal (n + 1)

abbrev pub show_key : Option ℕ → Text
show_key none = []
show_key (some k) = decimal k

abbrev pub provider_word : Provider → Text
provider_word cash = text "CASH"
provider_word card = text "CARD"
provider_word qr = text "QR"

-- `_manual_external_id`
unfoldable pub manual_external_id : (Text → Text) → Text → Option ℕ → Provider → ℤ → Text
manual_external_id digest uuid courier provider amount =
    text "manual:"
    ++ digest
        (uuid ++ 124 ∷ show_key courier ++ 124 ∷ provider_word provider ++ 124 ∷ show_ℤ amount)

-- `_identity_error`
unfoldable pub identity_error :
    Receipt → ℕ → Option ℕ → Provider → ℤ → Result PaymentError (Unit {0})
identity_error p oid courier provider amount = do
  raise_if (not (p.order == oid)) other_order
  raise_if (not (provider_eq p.provider provider)) other_provider
  raise_if (not (eq_ℤ p.amount amount)) other_amount
  raise_if (not (key_eq p.courier courier)) other_courier

-- A call of `create_payment`: `seen` is the total of the caller's copy of the order.
pub record Ask : Type 0 where
  pub courier : Option ℕ
  pub order : ℕ
  pub seen : ℤ
  pub provider : Text
  pub amount : RawAmount
  pub external_id : Text
  pub note : Text
  pub link : Text

-- What the first checks give.
pub record Terms : Type 0 where
  pub row : DoorOrder
  pub kind : Provider
  pub sum : ℤ
  pub key : Text

abbrev pub is_stranger : Option ℕ → DoorOrder → Bool
is_stranger none o = false
is_stranger (some c) o = not (key_eq o.assigned (some c))

abbrev pub supplied_external_id : Ask → Text
supplied_external_id a = take_chars 128 (strip a.external_id)

abbrev pub key_of : Outside → Ask → DoorOrder → Provider → ℤ → Text
key_of w a o p amount =
    if is_blank (supplied_external_id a)
    then manual_external_id w.digest o.uuid a.courier p amount
    else supplied_external_id a

-- The checks of `create_payment` before its first lookup, on the order's row if there is one.
unfoldable pub terms_from : Outside → Ask → Option DoorOrder → Result PaymentError Terms
terms_from w a row = do
  provider ← or_raise (read_provider a.provider) invalid_provider
  early ← coerce_amount a.amount a.seen
  o ← or_raise row unknown_order
  raise_if (not o.is_delivery) not_delivery
  raise_if (is_stranger a.courier o) not_assigned
  raise_if (is_blank o.branch) no_branch
  amount ← (if is_missing a.amount then coerce_amount missing o.due else ok early)
  ok (record { row = o; kind = provider; sum = amount; key = key_of w a o provider amount })

abbrev pub terms_of : Outside → Ask → Table DoorOrder → Result PaymentError Terms
terms_of w a orders = terms_from w a (get a.order orders)
