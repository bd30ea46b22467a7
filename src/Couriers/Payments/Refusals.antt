-- ===== src/Couriers/Payments/Refusals.antt =====
-- What a refused call of create_payment has written (couriers/payments.py).
use mathlib.Core.Path.{subst}
use alpha_pos_server.Base.{
  ℕ, ◌≡◌, ◌⊎◌, inl, inr, refl, true, Option, some, List, [], is_blank, Table, get, put, is_distinct,
  Result, err, ok, ap,
}
use alpha_pos_server.Couriers.Ledger.{PaymentStatus, pending, paid, refunded, failed}
use alpha_pos_server.Couriers.Evidence.{Methods}
use alpha_pos_server.Couriers.Receipts.{Receipt, Event, Books, recomputed}
use alpha_pos_server.Couriers.Payments.{
  with_evidence, presented, paid_row, keyed, with_arrival, collect, resume, existing_payment,
  raced_by_status, raced_payment, new_payment, locate, create_payment,
}
use alpha_pos_server.Couriers.Asks.{
  Outside, Ask, Terms, PaymentError, Answer, MoneyEffect, refuse, reply, terms_of,
}
use alpha_pos_server.Couriers.Payments.Cases.{
  recomputed-keeps, with_evidence_cases, presented_cases, if_room_cases, if_same_cases,
  if_row_cases,
}
use alpha_pos_server.Couriers.Payments.Writes.{keyless_found}

module _ (s0 : Books) (arrival : Option (ℕ × Receipt)) where
  -- The receipts as they were, with what another transaction committed, or with a key for a row
  -- that had none.
  abbrev pub Unpaid : Table Receipt → Type 0
  Unpaid rows =
      (rows ≡ s0.receipts)
      ⊎ ((rows ≡ with_arrival arrival s0.receipts)
          ⊎ ((k : ℕ) × (q : Receipt) × (id : List ℕ) × (get k s0.receipts ≡ some q)
              × (is_blank q.external_id ≡ true)
              × (rows ≡ put k (keyed id q) s0.receipts)))

  -- No event and no refund is new either.
  abbrev pub Unrecorded : Books → Type 0
  Unrecorded s = (s.events ≡ s0.events) × (s.refunds ≡ s0.refunds) × Unpaid s.receipts

  abbrev Refusal : Answer → Type 0
  Refusal x = (e : PaymentError) → x.1 ≡ err e → Unrecorded x.0

  reply-Refusal :
      (s : Books) (k : ℕ) (st : PaymentStatus) (effects : List MoneyEffect)
      → Refusal (reply s k st effects)
  reply-Refusal s k st effects e h = cc

  recomputed-Unrecorded :
      (m : Methods) (now : ℕ) (at : Option ℕ) (oid : ℕ) (s : Books)
      → Unrecorded s
      → Unrecorded (recomputed m now at oid s)
  recomputed-Unrecorded m now at oid s h =
      let (rows, events, refunds) = recomputed-keeps m now at oid s in rw (rows, events, refunds) h

  module _ (w : Outside) (now : ℕ) (a : Ask) (t : Terms) where
    abbrev after : Books → List Event → Books
    after s events = recomputed w.methods now (some now) a.order (record s { events = events })

    shown-Refusal :
        (start s : Books) (k : ℕ) (q : Receipt)
        → Unrecorded start
        → Refusal (
            with_evidence w start s q a.order t.row.branch
              λ s'. presented (recomputed w.methods now (some now) a.order s') k q)
    shown-Refusal start s k q before =
        with_evidence_cases Refusal w start s q _ _ _ (λ c. λ e. λ h. before)
          (λ events.
            λ e. presented_cases Refusal _ k q (λ st. reply-Refusal (after s events) k st []))

    collect-Refusal :
        (start : Books) (k : ℕ) (q : Receipt) (s : Books)
        → Unrecorded start
        → Refusal (collect w now a t start k q s)
    unfolding collect
    collect-Refusal start k q s before =
        with_evidence_cases Refusal w start s q _ _ _ (λ c. λ e. λ h. before)
          (λ events. λ e. reply-Refusal (after s events) k paid _)

    resume-Refusal :
        (start : Books) (k : ℕ) (q : Receipt) (s : Books) (st : PaymentStatus)
        → Unrecorded start
        → Unrecorded s
        → Refusal (resume w now a t start k q s st)
    resume-Refusal start k q s paid before h = shown-Refusal start s k q before
    resume-Refusal start k q s refunded before h =
        with_evidence_cases Refusal w start s q _ _ _ (λ c. λ e. λ h. before)
          (λ events. λ e. reply-Refusal (after s events) k refunded [])
    resume-Refusal start k q s failed before h =
        λ e. λ f. recomputed-Unrecorded w.methods now (some now) a.order s h
    resume-Refusal start k q s pending before h =
        if_room_cases Refusal s _ _ (λ c. λ e. λ f. h)
          (λ room. collect-Refusal start k (paid_row now q) _ before)

    existing_payment-Refusal :
        (start : Books) (k : ℕ) (q : Receipt) (s : Books)
        → Unrecorded start
        → Unrecorded s
        → Refusal (existing_payment w now a t start k q s)
    unfolding existing_payment
    existing_payment-Refusal start k q s before h =
        if_same_cases Refusal s _ _ (λ c. λ e. λ f. h)
          (λ same. resume-Refusal start k q s q.status before h)

    raced_by_status-Refusal :
        (k : ℕ) (q : Receipt) (s : Books) (st : PaymentStatus)
        → Unrecorded s
        → Refusal (raced_by_status w now a t k q s st)
    raced_by_status-Refusal k q s pending h = λ e. λ f. h
    raced_by_status-Refusal k q s failed h = λ e. λ f. h
    raced_by_status-Refusal k q s paid h = shown-Refusal s s k q h
    raced_by_status-Refusal k q s refunded h = shown-Refusal s s k q h

    raced_payment-Refusal :
        (k : ℕ) (q : Receipt) (s : Books) → Unrecorded s → Refusal (raced_payment w now a t k q s)
    unfolding raced_payment
    raced_payment-Refusal k q s h =
        if_same_cases Refusal s _ _ (λ c. λ e. λ f. h)
          (λ same. raced_by_status-Refusal k q s q.status h)

    new_payment-Refusal : (draw : ℕ) → Refusal (new_payment w now a t draw arrival s0)
    unfolding new_payment
    new_payment-Refusal draw =
        let arrived = record s0 { receipts = with_arrival arrival s0.receipts } in
        if_room_cases Refusal s0 _ _ (λ c. λ e. λ f. (refl, refl, inl refl))
          (λ room.
            if_row_cases Refusal arrived.receipts _ _ _
              (λ k.
                λ q. λ found. λ row. raced_payment-Refusal k q arrived (refl, refl, inr (inl refl)))
              (collect-Refusal arrived draw _ _ (refl, refl, inr (inl refl))))

    locate-Refusal :
        (draw : ℕ) → is_distinct s0.receipts ≡ true → Refusal (locate w now a t draw arrival s0)
    unfolding locate
    locate-Refusal draw distinct =
        if_row_cases Refusal s0.receipts _ _ _
          (λ k. λ q. λ found.
            λ row. existing_payment-Refusal s0 k q s0 (refl, refl, inl refl) (refl, refl, inl refl))
          (if_row_cases Refusal s0.receipts _ _ _
            (λ k. λ q. λ found. λ row.
              existing_payment-Refusal s0 k (keyed t.key q) _ (refl, refl, inl refl)
                (
                  refl,
                  refl,
                  inr (
                      inr (
                        k,
                        q,
                        t.key,
                        row,
                        keyless_found a t s0.receipts k q distinct found row,
                        refl,
                      )),
                ))
            (new_payment-Refusal draw))

-- A refused call of create_payment records no money: whatever the refusal, it leaves no new event
-- and no new refund, and the receipts as they were, or with what another transaction committed
-- under the same key, or with a key for one row of an earlier release that had none. In particular
-- no payment has turned paid. The keys of the table are distinct.
pub refused_create_records_nothing :
    (w : Outside) (now : ℕ) (a : Ask) (draw : ℕ) (arrival : Option (ℕ × Receipt)) (s s' : Books)
    (e : PaymentError)
    → is_distinct s.receipts ≡ true
    → create_payment w now a draw arrival s ≡ (s', err e)
    → (s'.events ≡ s.events) × (s'.refunds ≡ s.refunds) × Unpaid s arrival s'.receipts
unfolding create_payment
refused_create_records_nothing w now a draw arrival s s' e distinct h =
    by_terms (terms_of w a s.orders) h
  where
    by_terms :
        (x : Result PaymentError Terms)
        → (elim x [ err r ↦ refuse s r | ok t ↦ locate w now a t draw arrival s ]) ≡ (s', err e)
        → Unrecorded s arrival s'
    by_terms (err r) k = subst (Unrecorded s arrival) (ap (λ x. x.0) k) (refl, refl, inl refl)
    by_terms (ok t) k =
        subst (Unrecorded s arrival) (ap (λ x. x.0) k)
          (locate-Refusal s arrival w now a t draw distinct e (ap (λ x. x.1) k))
