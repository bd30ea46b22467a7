-- ===== src/Smartfood/Outbox/Reports.antt =====
-- The report on a message that was sent, failed or was skipped, and the counts of a broadcast
-- (smartfood/services/outbound_message_service.py, _finish and _refresh_broadcast).
-- A step reads the clock once where the source reads it up to three times in a row.
use alpha_pos_server.Base.{
  ℕ, ◌+◌, ◌-◌, ◌*◌, ◌^◌, Bool, true, false, not, ◌&&◌, ◌||◌, Option, none, some, [], ◌∷◌, Text,
  take_chars, Table, get, put, is_key, is_some, leb, ◌==◌, min, if◌then◌else◌,
}
use alpha_pos_server.Smartfood.Outbox.{
  Broadcast, MessageStatus, OutboundMessage, Outbox, Recipient, broadcast_failed, broadcast_partial,
  broadcast_sent, is_sending, msg_failed, msg_pending, msg_sent, msg_skipped, sending,
}

-- What is reported on a claimed message.
pub record Report : Type 0 where
  pub is_success : Bool
  pub telegram_id : Option ℕ
  pub error : Text
  pub is_permanent : Bool
  pub retry_after : Option ℕ
  pub consumes_attempt : Bool
  pub suppresses_customer : Bool
  pub is_skipped : Bool

abbrev pub holds_claim : ℕ → OutboundMessage → Bool
holds_claim token m = is_sending m.status && is_key token m.claim_token

abbrev pub delay_of : Option ℕ → ℕ → ℕ
delay_of (some s) attempts = s
delay_of none attempts = min 900 (30 * 2 ^ (attempts - 1))

-- The message after the lock is gone and an attempt that does not count is taken back.
abbrev pub released : Report → OutboundMessage → OutboundMessage
released r m = record m {
  locked_at = none;
  claim_token = none;
  attempts = if r.consumes_attempt then m.attempts else m.attempts - 1;
}

abbrev pub is_terminal_failure : Report → OutboundMessage → Bool
is_terminal_failure r m =
    not r.is_skipped && not r.is_success && (r.is_permanent || leb 5 (released r m).attempts)

abbrev pub settle_message : ℕ → Report → OutboundMessage → OutboundMessage
settle_message now r m =
    if r.is_skipped
    then record m { status = msg_skipped; last_error = take_chars 500 r.error }
    else if r.is_success
    then record m {
      status = msg_sent;
      sent_at = some now;
      telegram_message_id = r.telegram_id;
      last_error = [];
    }
    else if r.is_permanent || leb 5 m.attempts
    then record m { status = msg_failed; last_error = take_chars 500 r.error }
    else record m {
      status = msg_pending;
      next_attempt_at = now + delay_of r.retry_after m.attempts;
      last_error = take_chars 500 r.error;
    }

abbrev pub on_recipient : Bool → ℕ → Option Recipient → Table Recipient → Table Recipient
on_recipient reachable c none t = t
on_recipient reachable c (some r) t = put c (record r { telegram_reachable = reachable }) t

-- The reachability of the customer.
abbrev pub note_reachable : Report → ℕ → Table Recipient → Table Recipient
note_reachable r c t =
    if r.suppresses_customer
    then on_recipient false c (get c t) t
    else if r.is_success
    then on_recipient true c (get c t) t
    else t

-- `broadcast.messages.values('status').annotate(count=Count('id'))`
abbrev pub count_status : (MessageStatus → Bool) → ℕ → Table OutboundMessage → ℕ
count_status p b [] = 0
count_status p b ((k, m) ∷ t) =
    let rest = count_status p b t in if is_key b m.broadcast && p m.status then rest + 1 else rest

abbrev pub is_sent : MessageStatus → Bool
is_sent msg_sent = true
is_sent _ = false

abbrev pub is_failed : MessageStatus → Bool
is_failed msg_failed = true
is_failed _ = false

abbrev pub is_skipped_status : MessageStatus → Bool
is_skipped_status msg_skipped = true
is_skipped_status _ = false

abbrev pub refreshed : ℕ → ℕ → ℕ → ℕ → Broadcast → Broadcast
refreshed now delivered failed skipped b =
    let counted = record b {
      delivered_count = delivered;
      failed_count = failed;
      skipped_count = skipped;
    } in
    if leb b.recipient_count (delivered + failed + skipped)
    then record counted {
      finished_at = some now;
      status =
          if delivered == b.recipient_count
          then broadcast_sent
          else if not (delivered == 0 && skipped == 0)
          then broadcast_partial
          else broadcast_failed;
    }
    else record counted {
      status = sending;
      started_at = if is_some b.started_at then b.started_at else some now;
    }

abbrev pub refresh_row : ℕ → ℕ → Option Broadcast → Outbox → Outbox
refresh_row now id none box = box
refresh_row now id (some b) box =
    let count = λ (p : MessageStatus → Bool). count_status p id box.messages in
    record box {
      broadcasts =
          put id (refreshed now (count is_sent) (count is_failed) (count is_skipped_status) b)
            box.broadcasts;
    }

-- `_refresh_broadcast`
unfoldable pub refresh_broadcast : ℕ → Option ℕ → Outbox → Outbox
refresh_broadcast now none box = box
refresh_broadcast now (some id) box = refresh_row now id (get id box.broadcasts) box

abbrev pub finish_message_row :
    ℕ → ℕ → ℕ → Report → Option OutboundMessage → Outbox → Outbox × Bool × Bool
finish_message_row now id token r none box = (box, false, false)
finish_message_row now id token r (some m) box =
    if holds_claim token m
    then (
      refresh_broadcast now m.broadcast (record box {
        messages = put id (settle_message now r (released r m)) box.messages;
        recipients = note_reachable r m.customer box.recipients;
      }),
      true,
      is_terminal_failure r m,
    )
    else (box, false, false)

-- `_finish`: whether the claim was still held, and whether the message failed for good.
unfoldable pub finish_message : ℕ → ℕ → ℕ → Report → Outbox → Outbox × Bool × Bool
finish_message now id token r box = finish_message_row now id token r (get id box.messages) box
