-- ===== src/Smartfood/Outbox/Order.antt =====
-- The order of the messages on one order (smartfood/services/outbound_message_service.py, _claim,
-- _finish and queue_order_status).
use mathlib.Core.Path.{subst}
use alpha_pos_server.Base.{
  ℕ, ◌<◌, ◌≡◌, refl, sym, ap, ◌∙◌, Bool, true, false, ◌&&◌, some, Table, Text, arith, get, put,
  get-put_ne, get-put_self, exists, exists-eq-false, is_distinct, is_key, ltb, ◌==◌, ==→eq, ==→ne,
  Bool-cases, inl, inr, some_inv, true-ne-false,
}
use alpha_pos_server.Smartfood.Outbox.{
  OutboundMessage, Outbox, is_unsettled, is_waiting, is_ready, is_order_status, is_earlier,
  same_order, claimed_message, event_message,
}
use alpha_pos_server.Smartfood.Outbox.Reports.{Report, holds_claim, settle_message, released}
use alpha_pos_server.Smartfood.Outbox.Steps.{
  OutboxReach, at_start, then_writes, Written, nothing, added, taken, reported, OutboxStep-Written,
  Written-distinct,
}
use alpha_pos_server.Smartfood.Outbox.Settled.{is_ready-unsettled, holds_claim-unsettled}

-- The message `m` is before `n` on the same order.
abbrev pub precedes : ℕ → OutboundMessage → ℕ → OutboundMessage → Bool
precedes i m j n =
    ltb i j
    && same_order m.bot_order n.bot_order
    && is_order_status m.kind
    && is_order_status n.kind

-- A message on an order that is no longer pending has only settled ones before it.
abbrev pub InOrder : Table OutboundMessage → Type 0
InOrder t =
    (i j : ℕ) (m n : OutboundMessage)
    → get i t ≡ some m
    → get j t ≡ some n
    → precedes i m j n ≡ true
    → is_waiting n.status ≡ false
    → is_unsettled m.status ≡ false

written_row :
    (t : Table OutboundMessage) (k i : ℕ) (r m : OutboundMessage)
    → (i == k) ≡ true
    → get i (put k r t) ≡ some m
    → (i ≡ k) × (m ≡ r)
written_row t k i r m same h =
    let e = ==→eq i k same in
    (e, some_inv (sym h ∙ ap (λ x. get x (put k r t)) e ∙ get-put_self k r t))

-- What a write of the row `k` must keep to.
InOrder-put :
    (t : Table OutboundMessage) (k : ℕ) (r : OutboundMessage)
    → InOrder t
    → ((i : ℕ) (m : OutboundMessage)
        → get i t ≡ some m
        → precedes i m k r ≡ true
        → is_waiting r.status ≡ false
        → is_unsettled m.status ≡ false)
    → ((j : ℕ) (n : OutboundMessage)
        → get j t ≡ some n
        → precedes k r j n ≡ true
        → is_waiting n.status ≡ false
        → is_unsettled r.status ≡ false)
    → InOrder (put k r t)
InOrder-put t k r h earlier later i j m n at_i at_j before begun = elim (Bool-cases (i == k)) [
  | inl si ↦ elim (Bool-cases (j == k)) [
    | inl sj ↦ ground arith
    | inr oj ↦
        let (ki, rm) = written_row t k i r m si at_i in
        let before' = subst (λ x. precedes x m j n ≡ true) ki before in
        let before'' = subst (λ x. precedes k x j n ≡ true) rm before' in
        subst (λ x. is_unsettled x.status ≡ false) (sym rm)
          (later j n (sym (get-put_ne j k r t (==→ne j k oj)) ∙ at_j) before'' begun)
  ]
  | inr oi ↦ elim (Bool-cases (j == k)) [
    | inl sj ↦
        let (kj, rn) = written_row t k j r n sj at_j in
        let before' = subst (λ x. precedes i m x n ≡ true) kj before in
        let before'' = subst (λ x. precedes i m k x ≡ true) rn before' in
        earlier i m (sym (get-put_ne i k r t (==→ne i k oi)) ∙ at_i) before''
          (subst (λ x. is_waiting x.status ≡ false) rn begun)
    | inr oj ↦
        h i j m n (sym (get-put_ne i k r t (==→ne i k oi)) ∙ at_i)
          (sym (get-put_ne j k r t (==→ne j k oj)) ∙ at_j) before begun
  ]
]

-- A row that is ready has only settled messages before it.
ready-clear :
    (t : Table OutboundMessage) (now : ℕ) (unlocked : ℕ → Bool) (k i : ℕ) (r m : OutboundMessage)
    → is_ready t now unlocked k r ≡ true
    → get i t ≡ some m
    → precedes i m k r ≡ true
    → is_unsettled m.status ≡ false
unfolding is_ready
ready-clear t now unlocked k i r m ready found before =
    let none_before : exists (is_earlier k r.bot_order) t ≡ false = ground arith in
    let refused = exists-eq-false (is_earlier k r.bot_order) t i m none_before found in ground arith

-- A report leaves the order and the kind of its message.
settle_message-keeps :
    (now : ℕ) (r : Report) (m : OutboundMessage)
    → ((settle_message now r m).kind ≡ m.kind) × ((settle_message now r m).bot_order ≡ m.bot_order)
settle_message-keeps now r m = ground arith

report-precedes :
    (now : ℕ) (r : Report) (i k : ℕ) (m n : OutboundMessage)
    → (precedes i n k (settle_message now r (released r m)) ≡ precedes i n k m)
      × (precedes k (settle_message now r (released r m)) i n ≡ precedes k m i n)
report-precedes now r i k m n =
    let (kind, order) = settle_message-keeps now r (released r m) in
    (rw (kind, order) refl, rw (kind, order) refl)

new-last :
    (now key customer order j : ℕ) (event : Text) (n : OutboundMessage)
    → precedes key (event_message now customer order event) j n ≡ true
    → (is_key order n.bot_order ≡ true) × (key < j)
new-last now key customer order j event n h = (ground arith, ground arith)

sending_not_waiting :
    (token : ℕ) (m : OutboundMessage) → holds_claim token m ≡ true → is_waiting m.status ≡ false
sending_not_waiting token m h = ground arith

Written-InOrder : {t t' : Table OutboundMessage} → Written t t' → InOrder t → InOrder t'
Written-InOrder nothing h = h
Written-InOrder {t = t} (added now key customer order event fresh above) h =
    InOrder-put t key (event_message now customer order event) h
      (λ i m found before begun. true-ne-false begun)
      (λ j n found before begun.
        let (same, below) = new-last now key customer order j event n before in
        let over = above j n found same in ground arith)
Written-InOrder {t = t} (taken now token unlocked k r there ready) h =
    InOrder-put t k (claimed_message now token r) h
      (λ i m found before begun. ready-clear t now unlocked k i r m ready found before)
      (λ j n found before begun.
        true-ne-false
          (sym (is_ready-unsettled t now unlocked k r ready) ∙ h k j r n there found before begun))
Written-InOrder {t = t} (reported now token r k m there held) h =
    InOrder-put t k (settle_message now r (released r m)) h
      (λ i n found before begun.
        h i k n m found there (sym (report-precedes now r i k m n).0 ∙ before)
          (sending_not_waiting token m held))
      (λ j n found before begun. true-ne-false (
        sym (holds_claim-unsettled token m held)
        ∙ h k j m n there found (sym (report-precedes now r j k m n).1 ∙ before) begun))

reach-InOrder :
    {box end : Outbox}
    → OutboxReach box end
    → is_distinct box.messages ≡ true
    → InOrder box.messages
    → (is_distinct end.messages ≡ true) × InOrder end.messages
reach-InOrder at_start d h = (d, h)
reach-InOrder (then_writes reach step) d h =
    let (d', h') = reach-InOrder reach d h in
    let wrote = OutboxStep-Written d' step in (Written-distinct wrote d', Written-InOrder wrote h')

-- The messages on an order are taken in the order of its events: if in a table every message on an
-- order that is no longer pending has only sent, failed or skipped ones before it, then so it is
-- after any steps of any workers, with claims that time out, reports under old claims and new events
-- between. So no two messages on one order are claimed at once, and none is claimed while an earlier
-- one is pending or claimed. The table has each key once.
pub OutboxReach-InOrder :
    {box end : Outbox}
    → OutboxReach box end
    → is_distinct box.messages ≡ true
    → InOrder box.messages
    → InOrder end.messages
OutboxReach-InOrder reach d h = (reach-InOrder reach d h).1
