-- ===== src/Smartfood/Outbox/Workers.antt =====
-- A run of a worker as steps of the outbox (smartfood/services/outbound_message_service.py,
-- process_due).
use mathlib.Core.Path.{subst}
use alpha_pos_server.Base.{
  ℕ, zero, suc, ◌+◌, ◌≤◌, ◌≡◌, refl, Bool, true, false, ◌&&◌, leb, Option, none, some, arith, get,
  is_blank, if◌then◌else◌, some_inv,
}
use alpha_pos_server.Base.Settings.{Setting, unset, not_a_number, integer}
use alpha_pos_server.Smartfood.Outbox.{
  OutboundMessage, Recipient, Outbox, is_order_status, claim_message,
}
use alpha_pos_server.Smartfood.Outbox.Steps.{OutboxReach, at_start, then_writes, claims, finishes}
use alpha_pos_server.Smartfood.Outbox.Sending.{
  Turn, TurnEnd, no_message, gone, sent_turn, failed_turn, retry_turn, skipped_turn, raised_turn,
  Tally, batch_limit, skip_reason, send_out, skip_out, to_recipient, of_message, after_claim_turn,
  take_turn, go_on, take_turns, nothing_yet, process_due,
}

reach-trans : {a b c : Outbox} → OutboxReach a b → OutboxReach b c → OutboxReach a c
reach-trans first at_start = first
reach-trans first (then_writes reach step) = then_writes (reach-trans first reach) step

-- Others take steps too.
abbrev pub IsFair : Turn → Type 0
IsFair turn = (box : Outbox) → OutboxReach box (turn.meanwhile box)

send_out-Reach :
    (turn : Turn) (id : ℕ) (m : OutboundMessage) (start box : Outbox)
    → IsFair turn
    → OutboxReach start box
    → OutboxReach start (send_out turn id m box).0
unfolding send_out
send_out-Reach turn id m start box fair reach =
    then_writes (reach-trans reach (fair box)) (finishes turn.ended_at id turn.token _)

to_recipient-Reach :
    (turn : Turn) (id : ℕ) (m : OutboundMessage) (row : Option Recipient) (start box : Outbox)
    → IsFair turn
    → OutboxReach start box
    → OutboxReach start (to_recipient turn id m row box).0
to_recipient-Reach turn id m none start box fair reach = reach
to_recipient-Reach turn id m (some r) start box fair reach = by_reason (is_blank (skip_reason r))
  where
    by_reason :
        (b : Bool)
        → OutboxReach start
            (if b then send_out turn id m box else skip_out turn id (skip_reason r) box).0
    by_reason true = send_out-Reach turn id m start box fair reach
    by_reason false = then_writes reach (finishes turn.ended_at id turn.token _)

of_message-Reach :
    (turn : Turn) (id : ℕ) (row : Option OutboundMessage) (start box : Outbox)
    → IsFair turn
    → OutboxReach start box
    → OutboxReach start (of_message turn id row box).0
of_message-Reach turn id none start box fair reach = reach
of_message-Reach turn id (some m) start box fair reach = by_kind (is_order_status m.kind)
  where
    by_kind :
        (b : Bool)
        → OutboxReach start
            (if b
              then send_out turn id m box
              else to_recipient turn id m (get m.customer box.recipients) box).0
    by_kind true = send_out-Reach turn id m start box fair reach
    by_kind false =
        to_recipient-Reach turn id m (get m.customer box.recipients) start box fair reach

take_turn-Reach :
    (turn : Turn) (box : Outbox) → IsFair turn → OutboxReach box (take_turn turn box).0
unfolding take_turn
take_turn-Reach turn box fair =
    by_claim (claim_message turn.claimed_at turn.token turn.unlocked box)
      (then_writes at_start (claims turn.claimed_at turn.token turn.unlocked))
  where
    by_claim :
        (r : Outbox × Option ℕ) → OutboxReach box r.0 → OutboxReach box (after_claim_turn turn r).0
    by_claim (mid, none) reach = reach
    by_claim (mid, some id) reach =
        of_message-Reach turn id (get id mid.messages) box mid fair reach

take_turns-Reach :
    (turns : ℕ → Turn) (n : ℕ) (t : Tally) (box : Outbox)
    → ((k : ℕ) → IsFair (turns k))
    → OutboxReach box (take_turns turns n t box).0
unfolding take_turns
take_turns-Reach turns zero t box fair = at_start
take_turns-Reach turns (suc n) t box fair =
    by_end (take_turn (turns n) box) (take_turn-Reach (turns n) box (fair n))
      (λ t' mid. take_turns-Reach turns n t' mid fair)
  where
    by_end :
        (r : Outbox × TurnEnd)
        → OutboxReach box r.0
        → ((t' : Tally) (mid : Outbox) → OutboxReach mid (take_turns turns n t' mid).0)
        → OutboxReach box (go_on (take_turns turns n) t r).0
    by_end (mid, no_message) reach ih = reach
    by_end (mid, raised_turn) reach ih = reach
    by_end (mid, gone) reach ih = reach-trans reach (ih _ mid)
    by_end (mid, sent_turn) reach ih = reach-trans reach (ih _ mid)
    by_end (mid, failed_turn) reach ih = reach-trans reach (ih _ mid)
    by_end (mid, retry_turn) reach ih = reach-trans reach (ih _ mid)
    by_end (mid, skipped_turn) reach ih = reach-trans reach (ih _ mid)

-- The messages that the counts know the end of.
abbrev pub told : Tally → ℕ
told t = t.sent + t.failed + t.retrying + t.skipped

no_more :
    (t end : Tally) (n : ℕ)
    → told t ≤ t.claimed
    → t ≡ end
    → (told end ≤ end.claimed) × (end.claimed ≤ t.claimed + n)
no_more t end n h same =
    subst (λ x. (told x ≤ x.claimed) × (x.claimed ≤ t.claimed + n)) same (h, omega arith)

one_more :
    (c : ℕ) (end : Tally) (n : ℕ)
    → (told end ≤ end.claimed) × (end.claimed ≤ c + 1 + n)
    → (told end ≤ end.claimed) × (end.claimed ≤ c + suc n)
one_more c end n (fits, below) = (fits, omega arith)

-- Counts that know the end of no more messages than were claimed, and those at most 500.
abbrev pub is_consistent : Option Tally → Bool
is_consistent none = true
is_consistent (some t) = leb (told t) t.claimed && leb t.claimed 500

take_turns-Counts :
    (turns : ℕ → Turn) (n : ℕ) (t end : Tally) (box : Outbox)
    → told t ≤ t.claimed
    → (take_turns turns n t box).1 ≡ some end
    → (told end ≤ end.claimed) × (end.claimed ≤ t.claimed + n)
unfolding take_turns
take_turns-Counts turns zero t end box h e = no_more t end 0 h (some_inv e)
take_turns-Counts turns (suc n) t end box h e =
    by_end (take_turn (turns n) box) e (λ t' mid. take_turns-Counts turns n t' end mid)
  where
    by_end :
        (r : Outbox × TurnEnd)
        → (go_on (take_turns turns n) t r).1 ≡ some end
        → ((t' : Tally) (mid : Outbox)
            → told t' ≤ t'.claimed
            → (take_turns turns n t' mid).1 ≡ some end
            → (told end ≤ end.claimed) × (end.claimed ≤ t'.claimed + n))
        → (told end ≤ end.claimed) × (end.claimed ≤ t.claimed + suc n)
    by_end (mid, no_message) e ih = no_more t end (suc n) h (some_inv e)
    by_end (mid, raised_turn) e ih = cc
    by_end (mid, gone) e ih = one_more _ end n (ih _ mid (omega arith) e)
    by_end (mid, sent_turn) e ih = one_more _ end n (ih _ mid (omega arith) e)
    by_end (mid, failed_turn) e ih = one_more _ end n (ih _ mid (omega arith) e)
    by_end (mid, retry_turn) e ih = one_more _ end n (ih _ mid (omega arith) e)
    by_end (mid, skipped_turn) e ih = one_more _ end n (ih _ mid (omega arith) e)

batch_limit-bounds : (limit : Setting) → batch_limit limit ≤ 500
unfolding batch_limit
batch_limit-bounds unset = omega arith
batch_limit-bounds not_a_number = omega arith
batch_limit-bounds (integer n) = omega arith

-- A run of a worker, beside others that take steps of the outbox themselves, does to the outbox what
-- some sequence of steps does, however the sends end and also where it raises. If it returns its
-- counts, they know the end of no more messages than were claimed, and it claimed at most 500.
pub process_due-Steps :
    (limit : Setting) (turns : ℕ → Turn) (box : Outbox)
    → ((k : ℕ) → IsFair (turns k))
    → OutboxReach box (process_due limit turns box).0
      × (is_consistent (process_due limit turns box).1 ≡ true)
unfolding process_due
process_due-Steps limit turns box fair = (
  take_turns-Reach turns (batch_limit limit) nothing_yet box fair,
  by_counts (process_due limit turns box).1
      (λ t. take_turns-Counts turns (batch_limit limit) nothing_yet t box (omega arith)),
)
  where
    by_counts :
        (o : Option Tally)
        → ((t : Tally) → o ≡ some t → (told t ≤ t.claimed) × (t.claimed ≤ 0 + batch_limit limit))
        → is_consistent o ≡ true
    by_counts none h = refl
    by_counts (some t) h =
        let (fits, below) = h t refl in let cap = batch_limit-bounds limit in ground arith
