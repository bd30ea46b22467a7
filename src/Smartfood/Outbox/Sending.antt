-- ===== src/Smartfood/Outbox/Sending.antt =====
-- The loop of a worker (smartfood/services/outbound_message_service.py, process_due). What the send
-- of a message reports, and what others do to the outbox while it runs, are arguments.
use alpha_pos_server.Base.{
  ℕ, zero, suc, ◌+◌, Bool, true, false, not, Option, none, some, [], Text, text, is_blank, get, min,
  max, if◌then◌else◌,
}
use alpha_pos_server.Base.Int.{pos_part}
use alpha_pos_server.Base.Settings.{Setting, integer}
use alpha_pos_server.Smartfood.Outbox.{
  OutboundMessage, Recipient, Outbox, is_order_status, claim_message,
}
use alpha_pos_server.Smartfood.Outbox.Reports.{Report, finish_message}

-- One turn of the loop.
pub record Turn : Type 0 where
  pub claimed_at : ℕ
  pub ended_at : ℕ
  pub token : ℕ
  pub unlocked : ℕ → Bool
  pub send : OutboundMessage → Option Report  -- none where it raises
  pub meanwhile : Outbox → Outbox  -- by others, while the message is sent

-- How a turn ends.
pub data TurnEnd : Type 0 where
  no_message gone sent_turn failed_turn retry_turn skipped_turn raised_turn : TurnEnd

pub record Tally : Type 0 where
  pub claimed : ℕ
  pub sent : ℕ
  pub failed : ℕ
  pub retrying : ℕ
  pub skipped : ℕ

unfoldable pub batch_limit : Setting → ℕ
batch_limit (integer n) = min 500 (max 1 (pos_part n))
batch_limit _ = 50

abbrev pub skip_reason : Recipient → Text
skip_reason r =
    if r.is_blocked
    then text "Customer account was blocked before delivery."
    else if not r.broadcast_opted_in
    then text "Customer opted out before delivery."
    else if not r.telegram_reachable
    then text "Telegram chat became unreachable before delivery."
    else []

abbrev pub skip_report : Text → Report
skip_report reason = record {
  is_success = false;
  telegram_id = none;
  error = reason;
  is_permanent = false;
  retry_after = none;
  consumes_attempt = true;
  suppresses_customer = false;
  is_skipped = true;
}

-- What the loop reports of a send, also of one that raised.
abbrev pub send_report : Option Report → Report
send_report (some r) = record r { is_skipped = false }
send_report none = record {
  is_success = false;
  telegram_id = none;
  error = text "Unexpected Telegram delivery failure.";
  is_permanent = false;
  retry_after = none;
  consumes_attempt = true;
  suppresses_customer = false;
  is_skipped = false;
}

abbrev pub end_of_skip : Bool → TurnEnd
end_of_skip held = if held then skipped_turn else gone

abbrev pub end_of_send : Report → Bool → Bool → TurnEnd
end_of_send r held terminal =
    if not held
    then gone
    else if r.is_success
    then sent_turn
    else if terminal
    then failed_turn
    else retry_turn

unfoldable pub send_out : Turn → ℕ → OutboundMessage → Outbox → Outbox × TurnEnd
send_out turn id m box =
    let r = send_report (turn.send m) in
    let (box', held, terminal) =
      finish_message turn.ended_at id turn.token r (turn.meanwhile box) in
    (box', end_of_send r held terminal)

abbrev pub skip_out : Turn → ℕ → Text → Outbox → Outbox × TurnEnd
skip_out turn id reason box =
    let (box', held, terminal) =
      finish_message turn.ended_at id turn.token (skip_report reason) box in
    (box', end_of_skip held)

-- A broadcast is checked against its recipient again.
abbrev pub to_recipient : Turn → ℕ → OutboundMessage → Option Recipient → Outbox → Outbox × TurnEnd
to_recipient turn id m none box = (box, raised_turn)
to_recipient turn id m (some r) box =
    if is_blank (skip_reason r)
    then send_out turn id m box
    else skip_out turn id (skip_reason r) box

abbrev pub of_message : Turn → ℕ → Option OutboundMessage → Outbox → Outbox × TurnEnd
of_message turn id none box = (box, gone)
of_message turn id (some m) box =
    if is_order_status m.kind
    then send_out turn id m box
    else to_recipient turn id m (get m.customer box.recipients) box

abbrev pub after_claim_turn : Turn → Outbox × Option ℕ → Outbox × TurnEnd
after_claim_turn turn (box, none) = (box, no_message)
after_claim_turn turn (box, some id) = of_message turn id (get id box.messages) box

unfoldable pub take_turn : Turn → Outbox → Outbox × TurnEnd
take_turn turn box =
    after_claim_turn turn (claim_message turn.claimed_at turn.token turn.unlocked box)

-- The counts after a turn; `none` where the loop ends.
abbrev pub counted : TurnEnd → Tally → Tally
counted sent_turn t = record t { claimed = t.claimed + 1; sent = t.sent + 1 }
counted failed_turn t = record t { claimed = t.claimed + 1; failed = t.failed + 1 }
counted retry_turn t = record t { claimed = t.claimed + 1; retrying = t.retrying + 1 }
counted skipped_turn t = record t { claimed = t.claimed + 1; skipped = t.skipped + 1 }
counted gone t = record t { claimed = t.claimed + 1 }
counted raised_turn t = record t { claimed = t.claimed + 1 }
counted no_message t = t

abbrev pub go_on :
    (Tally → Outbox → Outbox × Option Tally) → Tally → Outbox × TurnEnd → Outbox × Option Tally
go_on rest t (box, no_message) = (box, some t)
go_on rest t (box, raised_turn) = (box, none)
go_on rest t (box, e) = rest (counted e t) box

-- The turns that are left.
unfoldable pub take_turns : (ℕ → Turn) → ℕ → Tally → Outbox → Outbox × Option Tally
take_turns turns zero t box = (box, some t)
take_turns turns (suc n) t box =
    let rest = take_turns turns n in go_on rest t (take_turn (turns n) box)

abbrev pub nothing_yet : Tally
nothing_yet = record { claimed = 0; sent = 0; failed = 0; retrying = 0; skipped = 0 }

-- `process_due`: the counts, or none where the look-up of a recipient raises.
unfoldable pub process_due : Setting → (ℕ → Turn) → Outbox → Outbox × Option Tally
process_due limit turns box = take_turns turns (batch_limit limit) nothing_yet box
