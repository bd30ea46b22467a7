-- ===== src/Smartfood/Outbox.antt =====
-- The outbox of Telegram messages (smartfood/services/outbound_message_service.py): the messages on
-- orders and of broadcasts, and the claim of the next one. `Reports` has the report on what became
-- of a message, and `Sending` the loop of a worker.
-- `queue_event`, `claim_message` and `finish_message` are atomic steps. The send is an argument of a
-- run; what a message says is left to it, as nothing else reads that. Clock readings are seconds,
-- and tokens and Telegram's keys are numbers.
pub mod Reports
pub mod Sending
pub mod Steps
pub mod Order
pub mod Settled
pub mod Workers
mod Examples
use alpha_pos_server.Base.{
  ℕ, ◌+◌, ◌-◌, ◌*◌, ◌^◌, Bool, true, false, not, ◌&&◌, ◌||◌, Option, none, some, List, [], ◌∷◌,
  Text, text, text_eq, take_chars, Table, get, put, exists, is_key, is_some, leb, ltb, ◌==◌, min,
  if◌then◌else◌,
}

pub data MessageKind : Type 0 where
  order_status broadcast_message : MessageKind

pub data MessageStatus : Type 0 where
  msg_pending msg_processing msg_sent msg_failed msg_skipped : MessageStatus

pub record OutboundMessage : Type 0 where
  pub kind : MessageKind
  pub customer : ℕ
  pub bot_order : Option ℕ
  pub broadcast : Option ℕ
  pub event_key : Text
  pub status : MessageStatus
  pub attempts : ℕ
  pub next_attempt_at : ℕ
  pub locked_at : Option ℕ
  pub claim_token : Option ℕ
  pub sent_at : Option ℕ
  pub telegram_message_id : Option ℕ
  pub last_error : Text

pub data BroadcastStatus : Type 0 where
  draft queued sending broadcast_sent broadcast_partial broadcast_failed : BroadcastStatus

pub record Broadcast : Type 0 where
  pub status : BroadcastStatus
  pub recipient_count : ℕ
  pub delivered_count : ℕ
  pub failed_count : ℕ
  pub skipped_count : ℕ
  pub started_at : Option ℕ
  pub finished_at : Option ℕ

-- What the outbox reads and writes of a customer.
pub record Recipient : Type 0 where
  pub is_blocked : Bool
  pub broadcast_opted_in : Bool
  pub telegram_reachable : Bool

pub record Outbox : Type 0 where
  pub messages : Table OutboundMessage
  pub broadcasts : Table Broadcast
  pub recipients : Table Recipient

abbrev pub is_order_status : MessageKind → Bool
is_order_status order_status = true
is_order_status broadcast_message = false

abbrev pub is_waiting : MessageStatus → Bool
is_waiting msg_pending = true
is_waiting _ = false

abbrev pub is_sending : MessageStatus → Bool
is_sending msg_processing = true
is_sending _ = false

-- Pending or being sent.
abbrev pub is_unsettled : MessageStatus → Bool
is_unsettled s = is_waiting s || is_sending s

-- `bot_order_id=OuterRef('bot_order_id')`, which no missing key answers.
abbrev pub same_order : Option ℕ → Option ℕ → Bool
same_order none o = false
same_order (some a) o = is_key a o

abbrev pub is_event_of : ℕ → Text → ℕ → OutboundMessage → Bool
is_event_of order event k m = is_key order m.bot_order && text_eq m.event_key event

abbrev pub event_message : ℕ → ℕ → ℕ → Text → OutboundMessage
event_message now customer order event = record {
  kind = order_status;
  customer = customer;
  bot_order = some order;
  broadcast = none;
  event_key = event;
  status = msg_pending;
  attempts = 0;
  next_attempt_at = now;
  locked_at = none;
  claim_token = none;
  sent_at = none;
  telegram_message_id = none;
  last_error = [];
}

abbrev pub is_blocked_recipient : Option Recipient → Bool
is_blocked_recipient none = false
is_blocked_recipient (some r) = r.is_blocked

-- `queue_order_status` for an order of `customer` and an event that has a text, under the key of a
-- new row.
unfoldable pub queue_event : ℕ → ℕ → ℕ → ℕ → Text → Outbox → Outbox
queue_event now key customer order event box =
    if is_blocked_recipient (get customer box.recipients)
      || exists (is_event_of order event) box.messages
    then box
    else record box { messages = put key (event_message now customer order event) box.messages }

-- `locked_at < now - _LOCK_TIMEOUT`
abbrev pub is_abandoned : ℕ → Option ℕ → Bool
is_abandoned now none = false
is_abandoned now (some t) = ltb (t + 300) now

unfoldable pub is_due : ℕ → OutboundMessage → Bool
is_due now m =
    is_waiting m.status && leb m.next_attempt_at now
    || is_sending m.status && is_abandoned now m.locked_at

abbrev pub is_earlier : ℕ → Option ℕ → ℕ → OutboundMessage → Bool
is_earlier id order k m =
    ltb k id && same_order m.bot_order order && is_order_status m.kind && is_unsettled m.status

-- The filters of `_claim`; `unlocked` are the rows that no other transaction holds.
unfoldable pub is_ready : Table OutboundMessage → ℕ → (ℕ → Bool) → ℕ → OutboundMessage → Bool
is_ready t now unlocked id m =
    unlocked id
    && is_due now m
    && (not (is_order_status m.kind) || not (exists (is_earlier id m.bot_order) t))

-- delivery_priority
abbrev pub priority : MessageKind → ℕ
priority order_status = 0
priority broadcast_message = 1

-- `order_by('delivery_priority', 'next_attempt_at', 'id')`
abbrev pub goes_before : ℕ × OutboundMessage → ℕ × OutboundMessage → Bool
goes_before (i, m) (j, n) =
    ltb (priority m.kind) (priority n.kind)
    || priority m.kind == priority n.kind
      && (ltb m.next_attempt_at n.next_attempt_at
          || m.next_attempt_at == n.next_attempt_at && leb i j)

abbrev pub first_of :
    ℕ × OutboundMessage → Option (ℕ × OutboundMessage) → Option (ℕ × OutboundMessage)
first_of e none = some e
first_of e (some f) = if goes_before e f then some e else some f

-- The first row of those that pass.
abbrev pub first_ready :
    (ℕ → OutboundMessage → Bool) → Table OutboundMessage → Option (ℕ × OutboundMessage)
first_ready p [] = none
first_ready p ((k, m) ∷ t) =
    let rest = first_ready p t in if p k m then first_of (k, m) rest else rest

abbrev pub claimed_message : ℕ → ℕ → OutboundMessage → OutboundMessage
claimed_message now token m = record m {
  status = msg_processing;
  attempts = m.attempts + 1;
  locked_at = some now;
  claim_token = some token;
}

abbrev pub claim_first : ℕ → ℕ → Option (ℕ × OutboundMessage) → Outbox → Outbox × Option ℕ
claim_first now token none box = (box, none)
claim_first now token (some (k, m)) box =
    (record box { messages = put k (claimed_message now token m) box.messages }, some k)

-- `_claim(1)`, the only limit in use, with its new random token.
unfoldable pub claim_message : ℕ → ℕ → (ℕ → Bool) → Outbox → Outbox × Option ℕ
claim_message now token unlocked box =
    claim_first now token (first_ready (is_ready box.messages now unlocked) box.messages) box
