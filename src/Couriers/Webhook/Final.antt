-- ===== src/Couriers/Webhook/Final.antt =====
-- Payments that are settled, through any later calls (couriers/payments.py).
use alpha_pos_server.Base.{
  ℕ, ◌≡◌, ◌≢◌, refl, Bool, true, false, Option, none, some, is_blank, Table, get, put, is_distinct,
  if◌then◌else◌, Text, List, Result, err, ok,
}
use alpha_pos_server.Couriers.Ledger.{Refund, PaymentStatus, pending, paid, refunded, failed}
use alpha_pos_server.Couriers.Receipts.{Receipt, DoorOrder, Books}
use alpha_pos_server.Couriers.Payments.{paid_row, if_row}
use alpha_pos_server.Couriers.Asks.{Outside, Answer, refuse, no_branch}
use alpha_pos_server.Couriers.Payments.Cases.{with_evidence_cases, if_room_cases, if_row_cases}
use alpha_pos_server.Couriers.Webhook.{
  Call, create, refund, webhook, Hook, refund_payment, paid_callback, failed_callback,
  apply_webhook, perform, record_refund, legacy_refund, refund_by_status, paid_by_status,
  fail_by_status, if_owned, if_order, by_verdict, Verdict, says_paid, says_refunded, says_failed,
  says_else, online_payment, hook_ask, read_verdict,
}
use alpha_pos_server.Couriers.Payments.Writes.{
  Has, Holds, Fresh, is_settled, recomputed-Has, presented-Holds, put-Has, unsettled_elsewhere,
  create_payment-Holds, pending-unsettled,
}

module _ (P : Answer → Type 0) where
  if_order_cases :
      (orders : Table DoorOrder) (oid : ℕ) (otherwise : Answer) (next : DoorOrder → Answer)
      → P otherwise
      → ((o : DoorOrder) → get oid orders ≡ some o → P (next o))
      → P (if_order orders oid otherwise next)
  unfolding if_order
  if_order_cases orders oid otherwise next none_left one = by_row (get oid orders) refl
    where
      by_row :
          (r : Option DoorOrder)
          → get oid orders ≡ r
          → P (elim r [ none ↦ otherwise | some o ↦ next o ])
      by_row none e = none_left
      by_row (some o) e = one o e

  if_owned_cases :
      (s : Books) (o : DoorOrder) (next : Answer)
      → P (refuse s no_branch)
      → P next
      → P (if_owned s o next)
  unfolding if_owned
  if_owned_cases s o next refused passed = by_branch (is_blank o.branch)
    where
      by_branch : (b : Bool) → P (if b then refuse s no_branch else next)
      by_branch true = refused
      by_branch false = passed

module _ (k : ℕ) (p : Receipt) where
  module _ (w : Outside) (now : ℕ) where
    record_refund-Holds :
        (s : Books) (j : ℕ) (r : Result Text (Refund × Bool × List Refund))
        → Has k p s.receipts
        → Holds k p (record_refund s j r)
    record_refund-Holds s j (err why) has = has
    record_refund-Holds s j (ok r) has = has

    legacy_refund-Holds :
        (s : Books) (j : ℕ) (r : Option Refund)
        → Has k p s.receipts
        → Holds k p (legacy_refund s j r)
    legacy_refund-Holds s j none has = has
    legacy_refund-Holds s j (some r) has = has

    refund_by_status-Holds :
        (j : ℕ) (q : Receipt) (o : DoorOrder) (s : Books) (st : PaymentStatus)
        → Has k p s.receipts
        → Holds k p (refund_by_status w now j q o s st)
    refund_by_status-Holds j q o s paid has = if_owned_cases (Holds k p) s o _ has (
        with_evidence_cases (Holds k p) w s s q _ _ _ (λ c. has)
          (λ events. λ e. record_refund-Holds (record s { events = events }) j _ has))
    refund_by_status-Holds j q o s refunded has = if_owned_cases (Holds k p) s o _ has (
        with_evidence_cases (Holds k p) w s s q _ _ _ (λ c. has)
          (λ events. λ e. legacy_refund-Holds (record s { events = events }) j _ has))
    refund_by_status-Holds j q o s pending has = recomputed-Has k p w now none q.order s has
    refund_by_status-Holds j q o s failed has = recomputed-Has k p w now none q.order s has

    refund_payment-Holds :
        (j : ℕ) (q : Receipt) (s : Books)
        → Has k p s.receipts
        → Holds k p (refund_payment w now j q s)
    unfolding refund_payment
    refund_payment-Holds j q s has =
        if_order_cases (Holds k p) s.orders q.order _ _ has
          (λ o. λ found. refund_by_status-Holds j q o s q.status has)

    paid_by_status-Holds :
        (j : ℕ) (q : Receipt) (o : DoorOrder) (s : Books) (st : PaymentStatus)
        → Has k p s.receipts
        → (st ≡ pending → k ≢ j)
        → Holds k p (paid_by_status w now j q o s st)
    paid_by_status-Holds j q o s paid has other = if_owned_cases (Holds k p) s o _ has (
        with_evidence_cases (Holds k p) w s s q _ _ _ (λ c. has)
          (λ events. λ e.
            presented-Holds k p _ j q
              (recomputed-Has k p w now none q.order (record s { events = events }) has)))
    paid_by_status-Holds j q o s refunded has other = if_owned_cases (Holds k p) s o _ has (
        with_evidence_cases (Holds k p) w s s q _ _ _ (λ c. has)
          (λ events. λ e. recomputed-Has k p w now none q.order (record s { events = events }) has))
    paid_by_status-Holds j q o s failed has other = recomputed-Has k p w now none q.order s has
    paid_by_status-Holds j q o s pending has other =
        if_room_cases (Holds k p) s _ _ (λ e. has)
          (λ room. if_owned_cases (Holds k p) s o _ has (
            with_evidence_cases (Holds k p) w s _ _ _ _ _ (λ c. has)
              (λ events. λ e.
                recomputed-Has k p w now (some now) q.order
                  (record s { receipts = put j (paid_row now q) s.receipts; events = events })
                  (put-Has k p s.receipts j _ has (other refl)))))

    failed_callback-Holds :
        (j : ℕ) (q : Receipt) (s : Books)
        → Has k p s.receipts
        → (q.status ≡ pending → k ≢ j)
        → Holds k p (failed_callback w now j q s)
    unfolding failed_callback
    failed_callback-Holds j q s has other =
        recomputed-Has k p w now none q.order _ (by_status q.status other)
      where
        by_status :
            (st : PaymentStatus)
            → (st ≡ pending → k ≢ j)
            → Has k p (fail_by_status j q s st).receipts
        by_status pending other = put-Has k p s.receipts j _ has (other refl)
        by_status paid other = has
        by_status refunded other = has
        by_status failed other = has

    paid_callback-Holds :
        (j : ℕ) (q : Receipt) (s : Books)
        → Has k p s.receipts
        → (q.status ≡ pending → k ≢ j)
        → Holds k p (paid_callback w now j q s)
    unfolding paid_callback
    paid_callback-Holds j q s has other =
        if_order_cases (Holds k p) s.orders q.order _ _ has
          (λ o. λ found. paid_by_status-Holds j q o s q.status has other)

    module _ (s : Books) (has : Has k p s.receipts) (settled : is_settled p ≡ true) where
      if_row-Holds :
          (o : Option ℕ) (found : ℕ → Receipt → Answer) (otherwise : Answer)
          → ((j : ℕ) (q : Receipt) → (q.status ≡ pending → k ≢ j) → Holds k p (found j q))
          → Holds k p otherwise
          → Holds k p (if_row s.receipts o found otherwise)
      if_row-Holds o found otherwise one none_left =
          if_row_cases (Holds k p) s.receipts o found otherwise
            (λ j. λ q. λ e. λ row. one j q (λ st.
              unsettled_elsewhere k p s.receipts j q has settled row (pending-unsettled q st)))
            none_left

      online_payment-Holds :
          (h : Hook) (draw : ℕ) (arrival : Option (ℕ × Receipt)) (oid : Option ℕ)
          → Fresh draw arrival s.receipts
          → Holds k p (online_payment w now h draw arrival s oid)
      online_payment-Holds h draw arrival none free = has
      online_payment-Holds h draw arrival (some oid) free =
          if_order_cases (Holds k p) s.orders oid _ _ has (λ o. λ found.
            create_payment-Holds k p w now (hook_ask h oid o) draw arrival s free has settled)

      by_verdict-Holds :
          (h : Hook) (draw : ℕ) (arrival : Option (ℕ × Receipt)) (v : Verdict)
          → Fresh draw arrival s.receipts
          → Holds k p (by_verdict w now h draw arrival s v)
      by_verdict-Holds h draw arrival says_paid free =
          if_row-Holds _ _ _ (λ j. λ q. λ other. paid_callback-Holds j q s has other)
            (online_payment-Holds h draw arrival h.order_id free)
      by_verdict-Holds h draw arrival says_refunded free =
          if_row-Holds _ _ _ (λ j. λ q. λ other. refund_payment-Holds j q s has) has
      by_verdict-Holds h draw arrival says_failed free =
          if_row-Holds _ _ _ (λ j. λ q. λ other. failed_callback-Holds j q s has other) has
      by_verdict-Holds h draw arrival says_else free = has

      perform-Holds :
          (call : Call) (draw : ℕ) (arrival : Option (ℕ × Receipt))
          → Fresh draw arrival s.receipts
          → Holds k p (perform w now call draw arrival s)
      unfolding perform apply_webhook
      perform-Holds (create a) draw arrival free =
          create_payment-Holds k p w now a draw arrival s free has settled
      perform-Holds (refund j) draw arrival free =
          if_row-Holds _ _ _ (λ j. λ q. λ other. refund_payment-Holds j q s has) has
      perform-Holds (webhook h) draw arrival free =
          by_verdict-Holds h draw arrival (read_verdict h.status) free

-- The tables that calls lead to, each at a time and with free keys for new rows.
pub data PaymentReach (w : Outside) : Books → Books → Type 0 where
  here : {s : Books} → PaymentReach w s s
  then_perform :
      {s mid : Books} (now : ℕ) (call : Call) (draw : ℕ) (arrival : Option (ℕ × Receipt))
      → PaymentReach w s mid
      → Fresh draw arrival mid.receipts
      → PaymentReach w s (perform w now call draw arrival mid).0

PaymentReach-Has :
    (w : Outside) (k : ℕ) (p : Receipt) {s s' : Books}
    → PaymentReach w s s'
    → Has k p s.receipts
    → is_settled p ≡ true
    → Has k p s'.receipts
PaymentReach-Has w k p here has settled = has
PaymentReach-Has w k p (then_perform now call draw arrival before free) has settled =
    perform-Holds k p w now _ (PaymentReach-Has w k p before has settled) settled call draw arrival
      free

-- A payment that is paid, failed or refunded, and has a key, keeps every column through all later
-- calls of create_payment, refund_payment and apply_webhook, whatever they answer: no terminal
-- payment is revived, and a refund leaves the paid row as it was. The keys of the table are distinct
-- and those of new rows free.
pub settled_payment_is_final :
    (w : Outside) (k : ℕ) (p : Receipt) (s s' : Books)
    → PaymentReach w s s'
    → is_distinct s.receipts ≡ true
    → get k s.receipts ≡ some p
    → is_settled p ≡ true
    → get k s'.receipts ≡ some p
settled_payment_is_final w k p s s' reach distinct row settled =
    (PaymentReach-Has w k p reach (row, distinct) settled).0
