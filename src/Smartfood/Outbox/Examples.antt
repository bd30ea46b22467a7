-- ===== src/Smartfood/Outbox/Examples.antt =====
-- Two messages on an order: the first is sent, the second waits for it.
use alpha_pos_server.Base.{
  ℕ, ◌≡◌, refl, sym, ◌∙◌, every-get, true-ne-false, true, false, none, some, [], ◌∷◌, text, get,
  is_distinct,
}
use alpha_pos_server.Smartfood.Outbox.{
  OutboundMessage, Outbox, event_message, queue_event, is_due, is_ready, claim_message, msg_sent,
  is_waiting,
}
use alpha_pos_server.Smartfood.Outbox.Reports.{Report, finish_message, refresh_broadcast}
use alpha_pos_server.Smartfood.Outbox.Steps.{OutboxReach, at_start, then_writes, claims, finishes}
use alpha_pos_server.Base.Settings.{unset}
use alpha_pos_server.Smartfood.Outbox.Sending.{
  Turn, process_due, take_turns, take_turn, send_out, batch_limit,
}
use alpha_pos_server.Smartfood.Outbox.Workers.{is_consistent, process_due-Steps}
use alpha_pos_server.Smartfood.Outbox.Order.{InOrder, OutboxReach-InOrder}
use alpha_pos_server.Smartfood.Outbox.Settled.{settled_message_is_final}

abbrev box : Outbox
box = record {
  messages =
      (1, event_message 100 5 3 (text "placed")) ∷ (2, event_message 110 5 3 (text "ready")) ∷ [];
  broadcasts = [];
  recipients =
      (5, record { is_blocked = false; broadcast_opted_in = true; telegram_reachable = true }) ∷ [];
}

abbrev delivered : Report
delivered = record {
  is_success = true;
  telegram_id = some 9;
  error = [];
  is_permanent = false;
  retry_after = none;
  consumes_attempt = true;
  suppresses_customer = false;
  is_skipped = false;
}

-- Two workers claim; the second finds nothing, and the first reports its message sent.
abbrev first_claim : Outbox
first_claim = (claim_message 120 55 (λ k. true) box).0

abbrev second_claim : Outbox
second_claim = (claim_message 121 56 (λ k. true) first_claim).0

abbrev reported : Outbox
reported = (finish_message 125 1 55 delivered second_claim).0

-- What a run computes with.
outbox_run : Outbox → Outbox
unfolding queue_event is_due is_ready claim_message finish_message refresh_broadcast
outbox_run b = b

second_waits : claim_message 121 56 (λ k. true) first_claim ≡ (first_claim, none)
unfolding outbox_run
second_waits = refl

abbrev run : OutboxReach box reported
run =
    then_writes
      (then_writes (then_writes at_start (claims 120 55 (λ k. true))) (claims 121 56 (λ k. true)))
      (finishes 125 1 55 delivered)

all_pending : InOrder box.messages
all_pending i j m n at_i at_j before begun =
    true-ne-false (sym (every-get (λ r. is_waiting r.status) j n box.messages refl at_j) ∙ begun)

OutboxReach-InOrder_example : InOrder reported.messages
OutboxReach-InOrder_example = OutboxReach-InOrder run refl all_pending

abbrev sent_message : OutboundMessage
sent_message = record (event_message 100 5 3 (text "placed")) {
  status = msg_sent;
  attempts = 1;
  sent_at = some 125;
  telegram_message_id = some 9;
}

was_sent : get 1 reported.messages ≡ some sent_message
unfolding outbox_run
was_sent = refl

keys_once : is_distinct reported.messages ≡ true
unfolding outbox_run
keys_once = refl

-- The second message is claimed, and the first worker reports once more.
abbrev meddling :
    OutboxReach reported
      (finish_message 410 1 55 delivered (claim_message 400 57 (λ k. true) reported).0).0
meddling =
    then_writes (then_writes at_start (claims 400 57 (λ k. true))) (finishes 410 1 55 delivered)

settled_message_is_final_example :
    get 1
      (finish_message 410 1 55 delivered (claim_message 400 57 (λ k. true) reported).0).0.messages
    ≡ some sent_message
settled_message_is_final_example =
    settled_message_is_final 1 sent_message meddling keys_once was_sent refl

abbrev turn : ℕ → Turn
turn k = record {
  claimed_at = 120;
  ended_at = 125;
  token = k;
  unlocked = λ id. true;
  send = λ m. some delivered;
  meanwhile = λ b. b;
}

-- The second message is sent after the first, and then there is none.
sends_both :
    (process_due unset turn box).1
    ≡ some (record { claimed = 2; sent = 2; failed = 0; retrying = 0; skipped = 0 })
unfolding outbox_run process_due take_turns take_turn send_out batch_limit
sends_both = refl

process_due-Steps_example :
    OutboxReach box (process_due unset turn box).0
    × (is_consistent (process_due unset turn box).1 ≡ true)
process_due-Steps_example = process_due-Steps unset turn box (λ k b. at_start)
