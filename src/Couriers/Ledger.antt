-- ===== src/Couriers/Ledger.antt =====
-- The courier's money (couriers/services.py): refunds attributed to a courier, the reconciliation
-- of a half-open window of time, and the settlement that closes it.
-- A payment's amount and every figure of a snapshot are whole so'm; a refund's columns and what is
-- attributed of them are hundredths, 0 where the column is NULL. The lists of a book hold the rows
-- in the order in which the queries return them.
pub mod Refunds
use alpha_pos_server.Base.{
  ℕ, ◌+◌, Bool, true, false, not, ◌&&◌, ◌||◌, Option, none, some, List, [], ◌∷◌, ◌++◌, map, Text,
  text_eq, is_blank, text, decimal, take_chars, or_else, get_or, is_key, ltb, leb, ◌==◌,
  if◌then◌else◌, keep_if, length,
}
use alpha_pos_server.Base.Int.{ℤ, pos, ◌+ℤ◌, ◌-ℤ◌, neg, leb_ℤ, max_ℤ, min_ℤ, hundredths, whole}

pub data Provider : Type 0 where
  cash card qr : Provider

pub data PaymentStatus : Type 0 where
  pending paid refunded failed : PaymentStatus

pub record Payment : Type 0 where
  pub key : ℕ
  pub order : ℕ
  pub courier : Option ℕ
  pub provider : Provider
  pub amount : ℤ
  pub status : PaymentStatus
  pub external_id : Text
  pub paid_at : Option ℕ

pub data RefundSource : Type 0 where
  courier_payment order_cancel other_source : RefundSource

pub record Refund : Type 0 where
  pub source : RefundSource
  pub source_id : Text
  pub order : ℕ
  pub amount : ℤ
  pub cash_amount : ℤ
  pub drawer_cash_amount : ℤ
  pub card_amount : ℤ
  pub payme_amount : ℤ
  pub refunded_at : ℕ
  pub recorded_at : ℕ  -- accounting_recorded_at
  pub is_deleted : Bool

-- A delivered assignment: its courier, fee and time of delivery.
pub record Delivery : Type 0 where
  pub courier : Option ℕ
  pub is_delivered : Bool  -- step == DELIVERED
  pub fee : ℤ
  pub delivered_at : Option ℕ

-- A courier's share of a refund, by tender.
pub record Entry : Type 0 where
  pub order : ℕ
  pub cash : ℤ
  pub card : ℤ
  pub payme : ℤ

pub record Settlement : Type 0 where
  pub courier : ℕ
  pub period_start : ℕ
  pub period_end : ℕ
  pub deliveries : ℕ
  pub cash_collected : ℤ
  pub qr_collected : ℤ
  pub delivery_fees : ℤ
  pub bonuses : ℤ
  pub tips : ℤ
  pub net_payout : ℤ
  pub note : Text

pub record Book : Type 0 where
  pub payments : List Payment
  pub refunds : List Refund
  pub deliveries : List Delivery
  pub settlements : List Settlement

-- `courier_payment_event_key`
unfoldable pub event_key : Payment → Text
event_key p =
    if is_blank p.external_id then text "legacy-payment:" ++ decimal p.key else p.external_id

abbrev pub has_been_paid : PaymentStatus → Bool
has_been_paid paid = true
has_been_paid refunded = true
has_been_paid _ = false

abbrev pub is_set : Option ℕ → Bool
is_set none = false
is_set (some t) = true

-- A payment that the courier has collected.
abbrev pub is_collected : ℕ → Payment → Bool
is_collected cid p = is_key cid p.courier && has_been_paid p.status && is_set p.paid_at

abbrev pub exists_in {ℓ} : {A : Type ℓ} → (A → Bool) → List A → Bool
exists_in p [] = false
exists_in p (x ∷ xs) = p x || exists_in p xs

-- A dictionary built from a list: the last of equal keys stays.
abbrev pub find_last {ℓ} : {A : Type ℓ} → (A → Bool) → List A → Option A
find_last p [] = none
find_last p (x ∷ xs) = or_else (find_last p xs) (if p x then some x else none)

-- `start <= t < end`
abbrev pub in_window : ℕ → ℕ → ℕ → Bool
in_window start end t = leb start t && ltb t end

abbrev pub within : ℕ → ℕ → Option ℕ → Bool
within start end none = false
within start end (some t) = in_window start end t

abbrev pub is_relevant : RefundSource → Bool → Bool → Bool
is_relevant courier_payment by_key by_order = by_key
is_relevant order_cancel by_key by_order = by_order
is_relevant other_source by_key by_order = false

-- The filter of `courier_refund_events`, over every payment of the courier.
unfoldable pub is_refund_event : ℕ → List Payment → Refund → Bool
is_refund_event cid ps r =
    not r.is_deleted
    && is_relevant r.source
        (exists_in (λ p. is_key cid p.courier && text_eq (event_key p) r.source_id) ps)
        (exists_in (λ p. is_key cid p.courier && p.order == r.order) ps)

unfoldable pub courier_refund_events : ℕ → ℕ → ℕ → Book → List Refund
courier_refund_events cid start end b =
    keep_if (λ r. is_refund_event cid b.payments r && in_window start end r.recorded_at) b.refunds

-- What is left of a payment at the time of a cancellation.
abbrev pub left_after : ℕ → Option Refund → ℤ → ℤ
left_after at none remaining = remaining
left_after at (some prior) remaining =
    if leb prior.recorded_at at then max_ℤ (remaining -ℤ prior.amount) (pos 0) else remaining

abbrev pub is_direct : RefundSource → Bool
is_direct courier_payment = true
is_direct _ = false

unfoldable pub is_provider_refund : Text → Refund → Bool
is_provider_refund k r = not r.is_deleted && is_direct r.source && text_eq r.source_id k

unfoldable pub remaining_of : List Refund → Refund → Payment → ℤ
remaining_of rs r p =
    left_after r.recorded_at (find_last (is_provider_refund (event_key p)) rs) (hundredths p.amount)

abbrev pub provider_eq : Provider → Provider → Bool
provider_eq cash cash = true
provider_eq card card = true
provider_eq qr qr = true
provider_eq _ _ = false

-- `outstanding[bucket]`: the courier's payments on the cancelled order, by provider.
unfoldable pub outstanding : ℕ → List Refund → Refund → Provider → List Payment → ℤ
outstanding cid rs r bucket [] = pos 0
outstanding cid rs r bucket (p ∷ ps) =
    let rest = outstanding cid rs r bucket ps in
    if is_collected cid p && p.order == r.order && provider_eq p.provider bucket
    then remaining_of rs r p +ℤ rest
    else rest

-- The share by the tender of the payment that was refunded.
abbrev pub by_provider : Provider → ℕ → ℤ → Entry
by_provider cash oid a = record { order = oid; cash = a; card = pos 0; payme = pos 0 }
by_provider card oid a = record { order = oid; cash = pos 0; card = a; payme = pos 0 }
by_provider qr oid a = record { order = oid; cash = pos 0; card = pos 0; payme = a }

abbrev pub direct_entry : Refund → Option Payment → Option Entry
direct_entry r none = none
direct_entry r (some p) = some (by_provider p.provider r.order r.amount)

-- What of a cancellation the courier held: the till's own cash is taken off first.
unfoldable pub cancel_entry : ℕ → List Payment → List Refund → Refund → Entry
cancel_entry cid ps rs r = record {
  order = r.order;
  cash =
      min_ℤ (max_ℤ (r.cash_amount -ℤ r.drawer_cash_amount) (pos 0)) (outstanding cid rs r cash ps);
  card = min_ℤ r.card_amount (outstanding cid rs r card ps);
  payme = min_ℤ r.payme_amount (outstanding cid rs r qr ps);
}

abbrev pub attributed : Entry → ℤ
attributed e = e.cash +ℤ e.card +ℤ e.payme

-- An entry of nothing is left out.
abbrev pub if_positive : Option Entry → Option Entry
if_positive none = none
if_positive (some e) = if leb_ℤ (attributed e) (pos 0) then none else some e

abbrev pub any_entry : ℕ → List Payment → List Refund → Refund → RefundSource → Option Entry
any_entry cid ps rs r courier_payment =
    direct_entry r (find_last (λ p. is_collected cid p && text_eq (event_key p) r.source_id) ps)
any_entry cid ps rs r _ = some (cancel_entry cid ps rs r)

unfoldable pub entry_of : ℕ → List Payment → List Refund → Refund → Option Entry
entry_of cid ps rs r = if_positive (any_entry cid ps rs r r.source)

abbrev pub add_entry : Option Entry → List Entry → List Entry
add_entry none es = es
add_entry (some e) es = e ∷ es

abbrev pub entries_of : ℕ → List Payment → List Refund → List Refund → List Entry
entries_of cid ps all [] = []
entries_of cid ps all (r ∷ rs) = add_entry (entry_of cid ps all r) (entries_of cid ps all rs)

unfoldable pub courier_refund_entries : ℕ → ℕ → ℕ → Book → List Entry
courier_refund_entries cid start end b =
    entries_of cid b.payments b.refunds (courier_refund_events cid start end b)
