-- ===== src/Smartfood/Outbox/Settled.antt =====
-- Messages that are sent, failed or skipped (smartfood/services/outbound_message_service.py, _claim
-- and _finish).
use alpha_pos_server.Base.{
  ℕ, ◌≡◌, sym, ap, ◌∙◌, Bool, true, false, some, Table, arith, get, put, get-put_ne, is_distinct,
  some_inv, true-ne-false, none-ne-some,
}
use alpha_pos_server.Smartfood.Outbox.{OutboundMessage, Outbox, is_unsettled, is_due, is_ready}
use alpha_pos_server.Smartfood.Outbox.Reports.{holds_claim}
use alpha_pos_server.Smartfood.Outbox.Steps.{
  OutboxReach, at_start, then_writes, Written, nothing, added, taken, reported, OutboxStep-Written,
  Written-distinct,
}

pub is_due-unsettled :
    (now : ℕ) (m : OutboundMessage) → is_due now m ≡ true → is_unsettled m.status ≡ true
unfolding is_due
is_due-unsettled now m h = ground arith

pub is_ready-unsettled :
    (t : Table OutboundMessage) (now : ℕ) (unlocked : ℕ → Bool) (k : ℕ) (m : OutboundMessage)
    → is_ready t now unlocked k m ≡ true
    → is_unsettled m.status ≡ true
unfolding is_ready
is_ready-unsettled t now unlocked k m h = is_due-unsettled now m (ground arith)

pub holds_claim-unsettled :
    (token : ℕ) (m : OutboundMessage) → holds_claim token m ≡ true → is_unsettled m.status ≡ true
holds_claim-unsettled token m h = ground arith

-- A settled row is not the one that is written.
kept_settled :
    (id k : ℕ) (m i new : OutboundMessage) (t : Table OutboundMessage)
    → get id t ≡ some m
    → is_unsettled m.status ≡ false
    → get k t ≡ some i
    → is_unsettled i.status ≡ true
    → get id (put k new t) ≡ some m
kept_settled id k m i new t found settled there open_row =
    get-put_ne id k new t (λ same.
      let at_k = some_inv (sym found ∙ ap (λ x. get x t) same ∙ there) in
      true-ne-false (sym open_row ∙ ap (λ x. is_unsettled x.status) (sym at_k) ∙ settled))
    ∙ found

Written-settled :
    {t t' : Table OutboundMessage} (id : ℕ) (m : OutboundMessage)
    → Written t t'
    → get id t ≡ some m
    → is_unsettled m.status ≡ false
    → get id t' ≡ some m
Written-settled id m nothing found settled = found
Written-settled {t = t} id m (added now key customer order event fresh above) found settled =
    get-put_ne id key _ t (λ same. none-ne-some (sym fresh ∙ ap (λ x. get x t) (sym same) ∙ found))
    ∙ found
Written-settled {t = t} id m (taken now token unlocked k i there ready) found settled =
    kept_settled id k m i _ t found settled there (is_ready-unsettled t now unlocked k i ready)
Written-settled {t = t} id m (reported now token r k i there held) found settled =
    kept_settled id k m i _ t found settled there (holds_claim-unsettled token i held)

settled_reach :
    {box end : Outbox} (id : ℕ) (m : OutboundMessage)
    → OutboxReach box end
    → is_distinct box.messages ≡ true
    → get id box.messages ≡ some m
    → is_unsettled m.status ≡ false
    → (is_distinct end.messages ≡ true) × (get id end.messages ≡ some m)
settled_reach id m at_start d found settled = (d, found)
settled_reach id m (then_writes reach step) d found settled =
    let (d', there) = settled_reach id m reach d found settled in
    let wrote = OutboxStep-Written d' step in
    (Written-distinct wrote d', Written-settled id m wrote there settled)

-- A message that is sent, failed or skipped stays as it is, to the last column, whatever steps any
-- workers take after it: it is never claimed again, so never sent a second time, and a late report
-- under an old claim does not touch it. The table has each key once.
pub settled_message_is_final :
    {box end : Outbox} (id : ℕ) (m : OutboundMessage)
    → OutboxReach box end
    → is_distinct box.messages ≡ true
    → get id box.messages ≡ some m
    → is_unsettled m.status ≡ false
    → get id end.messages ≡ some m
settled_message_is_final id m reach d found settled = (settled_reach id m reach d found settled).1
