-- ===== src/Smartfood/Outbox/Steps.antt =====
-- Steps of the outbox (smartfood/services/outbound_message_service.py, _claim, _finish and
-- queue_order_status) by any number of workers, and what each writes.
use mathlib.Core.Path.{subst}
use mathlib.Core.Logic.{◌⊎◌}
use alpha_pos_server.Base.{
  ℕ, ◌<◌, ◌≡◌, refl, sym, ap, ◌∙◌, Bool, true, false, ◌||◌, Option, none, some, [], ◌∷◌, Text,
  Table, arith, get, put, exists, is_distinct, is_distinct-put, is_key, ==_refl, Bool-cases, inl,
  inr, some_inv, if◌then◌else◌,
}
use alpha_pos_server.Smartfood.Outbox.{
  Broadcast, OutboundMessage, Outbox, queue_event, event_message, is_event_of, is_blocked_recipient,
  is_ready, first_of, first_ready, goes_before, claim_message, claim_first, claimed_message,
}
use alpha_pos_server.Smartfood.Outbox.Reports.{
  Report, holds_claim, settle_message, released, refresh_broadcast, refresh_row, finish_message,
  finish_message_row,
}

-- One atomic step. A new message on an order has a key above those of the order's other messages:
-- keys are drawn under the lock of the order's row. The broadcasts and the recipients may change in
-- any way.
pub data OutboxStep : Outbox → Outbox → Type 0 where
  queues :
      {box : Outbox} (now key customer order : ℕ) (event : Text)
      → get key box.messages ≡ none
      → ((k : ℕ) (m : OutboundMessage)
          → get k box.messages ≡ some m
          → is_key order m.bot_order ≡ true
          → k < key)
      → OutboxStep box (queue_event now key customer order event box)
  claims :
      {box : Outbox} (now token : ℕ) (unlocked : ℕ → Bool)
      → OutboxStep box (claim_message now token unlocked box).0
  finishes :
      {box : Outbox} (now id token : ℕ) (r : Report)
      → OutboxStep box (finish_message now id token r box).0
  others_change : {box box' : Outbox} → box'.messages ≡ box.messages → OutboxStep box box'

pub data OutboxReach : Outbox → Outbox → Type 0 where
  at_start : {box : Outbox} → OutboxReach box box
  then_writes :
      {box mid end : Outbox} → OutboxReach box mid → OutboxStep mid end → OutboxReach box end

first_of-cases :
    (e f : ℕ × OutboundMessage) (o : Option (ℕ × OutboundMessage))
    → first_of e o ≡ some f
    → (e ≡ f) ⊎ (o ≡ some f)
first_of-cases e f none h = inl (some_inv h)
first_of-cases e f (some g) h = elim (Bool-cases (goes_before e g)) [
  | inl t ↦ inl (some_inv (rw t at h))
  | inr t ↦ inr (rw t at h)
]

-- Where the chosen row of a table is.
chosen-cases :
    (p : ℕ → OutboundMessage → Bool) (e f : ℕ × OutboundMessage) (t : Table OutboundMessage)
    → first_ready p (e ∷ t) ≡ some f
    → ((p e.0 e.1 ≡ true) × (e ≡ f)) ⊎ (first_ready p t ≡ some f)
chosen-cases p (j, s) f t h = elim (Bool-cases (p j s)) [
  | inl e ↦ elim (first_of-cases (j, s) f (first_ready p t) (rw e at h)) [
    | inl same ↦ inl (e, same)
    | inr later ↦ inr later
  ]
  | inr e ↦ inr (rw e at h)
]

-- The row that is chosen passes.
pub first_ready-passes :
    (p : ℕ → OutboundMessage → Bool) (t : Table OutboundMessage) (k : ℕ) (m : OutboundMessage)
    → first_ready p t ≡ some (k, m)
    → p k m ≡ true
first_ready-passes p [] k m h = cc
first_ready-passes p (e ∷ t) k m h = elim (chosen-cases p e (k, m) t h) [
  | inl (passed, same) ↦ ap (λ x. p x.0 x.1) (sym same) ∙ passed
  | inr later ↦ first_ready-passes p t k m later
]

-- It is the row under its key.
pub first_ready-found :
    (p : ℕ → OutboundMessage → Bool) (t : Table OutboundMessage) (k : ℕ) (m : OutboundMessage)
    → is_distinct t ≡ true
    → first_ready p t ≡ some (k, m)
    → get k t ≡ some m
first_ready-found p [] k m d h = cc
first_ready-found p ((j, s) ∷ t) k m d h = elim (chosen-cases p (j, s) (k, m) t h) [
  | inl (passed, same) ↦ rw (sym (ap (λ x. x.0) same), ==_refl j) (ap (λ x. some x.1) same)
  | inr later ↦ ground (arith, first_ready-found p t k m)
]

-- A step writes at most one message: a new one, one that was ready, or one that was held.
pub data Written : Table OutboundMessage → Table OutboundMessage → Type 0 where
  nothing : {t : Table OutboundMessage} → Written t t
  added :
      {t : Table OutboundMessage} (now key customer order : ℕ) (event : Text)
      → get key t ≡ none
      → ((k : ℕ) (m : OutboundMessage)
          → get k t ≡ some m
          → is_key order m.bot_order ≡ true
          → k < key)
      → Written t (put key (event_message now customer order event) t)
  taken :
      {t : Table OutboundMessage} (now token : ℕ) (unlocked : ℕ → Bool) (k : ℕ)
      (m : OutboundMessage)
      → get k t ≡ some m
      → is_ready t now unlocked k m ≡ true
      → Written t (put k (claimed_message now token m) t)
  reported :
      {t : Table OutboundMessage} (now token : ℕ) (r : Report) (k : ℕ) (m : OutboundMessage)
      → get k t ≡ some m
      → holds_claim token m ≡ true
      → Written t (put k (settle_message now r (released r m)) t)

refresh_broadcast-messages :
    (now : ℕ) (b : Option ℕ) (box : Outbox) → (refresh_broadcast now b box).messages ≡ box.messages
unfolding refresh_broadcast
refresh_broadcast-messages now none box = refl
refresh_broadcast-messages now (some id) box = by_row (get id box.broadcasts)
  where
    by_row : (o : Option Broadcast) → (refresh_row now id o box).messages ≡ box.messages
    by_row none = refl
    by_row (some b) = refl

claim_message-Written :
    (now token : ℕ) (unlocked : ℕ → Bool) (box : Outbox)
    → is_distinct box.messages ≡ true
    → Written box.messages (claim_message now token unlocked box).0.messages
unfolding claim_message
claim_message-Written now token unlocked box d =
    by_first (first_ready (is_ready box.messages now unlocked) box.messages) refl
  where
    by_first :
        (o : Option (ℕ × OutboundMessage))
        → first_ready (is_ready box.messages now unlocked) box.messages ≡ o
        → Written box.messages (claim_first now token o box).0.messages
    by_first none e = nothing
    by_first (some (k, m)) e =
        taken now token unlocked k m (first_ready-found _ box.messages k m d e)
          (first_ready-passes _ box.messages k m e)

finish_message-Written :
    (now id token : ℕ) (r : Report) (box : Outbox)
    → Written box.messages (finish_message now id token r box).0.messages
unfolding finish_message
finish_message-Written now id token r box = by_row (get id box.messages) refl
  where
    by_row :
        (o : Option OutboundMessage)
        → get id box.messages ≡ o
        → Written box.messages (finish_message_row now id token r o box).0.messages
    by_row none e = nothing
    by_row (some m) e = elim (Bool-cases (holds_claim token m)) [
      | inl held ↦
          rw (held, refresh_broadcast-messages now m.broadcast _) (reported now token r id m e held)
      | inr other ↦ rw other nothing
    ]

pub OutboxStep-Written :
    {box box' : Outbox}
    → is_distinct box.messages ≡ true
    → OutboxStep box box'
    → Written box.messages box'.messages
unfolding queue_event
OutboxStep-Written {box = box} d (queues now key customer order event fresh above) = by_test (
    is_blocked_recipient (get customer box.recipients)
    || exists (is_event_of order event) box.messages)
  where
    by_test :
        (b : Bool)
        → Written box.messages
            (if b then box else record box {
              messages = put key (event_message now customer order event) box.messages;
            }).messages
    by_test true = nothing
    by_test false = added now key customer order event fresh above
OutboxStep-Written {box = box} d (claims now token unlocked) =
    claim_message-Written now token unlocked box d
OutboxStep-Written {box = box} d (finishes now id token r) =
    finish_message-Written now id token r box
OutboxStep-Written {box = box} d (others_change same) =
    subst (Written box.messages) (sym same) nothing

pub Written-distinct :
    {t t' : Table OutboundMessage} → Written t t' → is_distinct t ≡ true → is_distinct t' ≡ true
Written-distinct nothing d = d
Written-distinct (added now key customer order event fresh above) d = is_distinct-put key _ _ d
Written-distinct (taken now token unlocked k m found ready) d = is_distinct-put k _ _ d
Written-distinct (reported now token r k m found held) d = is_distinct-put k _ _ d
