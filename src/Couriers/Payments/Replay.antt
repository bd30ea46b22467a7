-- ===== src/Couriers/Payments/Replay.antt =====
-- A call of create_payment that is repeated (couriers/payments.py).
use mathlib.Core.Path.{subst}
use alpha_pos_server.Base.{
  ℕ, true-ne-false, ◌≡◌, refl, sym, ap, ◌∙◌, true, false, not, Option, none, some, List, [], Table,
  get, Result, err, ok, ok-injective, bind_ok_inv, or_raise_inv, raise_if_inv, get-put_self,
  is_blank, if◌then◌else◌,
}
use alpha_pos_server.Base.Int.{ℤ}
use alpha_pos_server.Couriers.Ledger.{
  Refund, Provider, PaymentStatus, pending, paid, refunded, failed, has_been_paid,
}
use alpha_pos_server.Couriers.Evidence.{Methods, PaidHeader, recompute_order_paid}
use alpha_pos_server.Couriers.Receipts.{
  existing_refund, Receipt, Event, DoorOrder, Books, EventConflict, ensure_evidence, sale_of,
  recomputed,
}
use alpha_pos_server.Couriers.Payments.{
  with_evidence, presented, if_same, same_identity, key_lookup, if_row, resume, existing_payment,
  locate, create_payment, shown, evidence_step,
}
use alpha_pos_server.Couriers.Asks.{
  Outside, Ask, Terms, PaymentError, Answer, Reply, refuse, reply, terms_from, terms_of,
  read_provider, coerce_amount, is_stranger, is_missing, key_of, invalid_provider, unknown_order,
  not_delivery, not_assigned, no_branch, missing,
}
use alpha_pos_server.Couriers.Payments.Cases.{recomputed-keeps}
use alpha_pos_server.Couriers.Payments.Stands.{recomputed_twice, Stands, locate-Good}

abbrev drawn : Outside → Ask → DoorOrder → Provider → ℤ → Terms
drawn w a o p n = record { row = o; kind = p; sum = n; key = key_of w a o p n }

checks_pass :
    (w : Outside) (a : Ask) (o : DoorOrder) (p : Provider) (early n : ℤ)
    → read_provider a.provider ≡ some p
    → coerce_amount a.amount a.seen ≡ ok early
    → not o.is_delivery ≡ false
    → is_stranger a.courier o ≡ false
    → is_blank o.branch ≡ false
    → (if is_missing a.amount then coerce_amount missing o.due else ok early) ≡ ok n
    → terms_from w a (some o) ≡ ok (drawn w a o p n)
unfolding terms_from
checks_pass w a o p early n e1 e2 d f b e = rw (e1, e2, d, f, b, e) refl

stranger_header :
    (c : Option ℕ) (o : DoorOrder) (h : PaidHeader)
    → is_stranger c (record o { header = h }) ≡ is_stranger c o
stranger_header none o h = refl
stranger_header (some c) o h = refl

-- A header changes nothing of the checks.
terms_from-header :
    (w : Outside) (a : Ask) (row : Option DoorOrder) (t : Terms) (h : PaidHeader)
    → terms_from w a row ≡ ok t
    → (row ≡ some t.row)
      × (terms_from w a (some (record t.row { header = h }))
          ≡ ok (record t { row = record t.row { header = h } }))
unfolding terms_from
terms_from-header w a row t h e =
    let (p, e1, h1) = or_raise_inv _ (read_provider a.provider) invalid_provider e in
    let (early, e2, h2) = bind_ok_inv _ (coerce_amount a.amount a.seen) h1 in
    let (o, e3, h3) = or_raise_inv _ row unknown_order h2 in
    let (d, h4) = raise_if_inv _ (not o.is_delivery) not_delivery h3 in
    let (f, h5) = raise_if_inv _ (is_stranger a.courier o) not_assigned h4 in
    let (b, h6) = raise_if_inv _ (is_blank o.branch) no_branch h5 in
    let (n, e7, h7) =
      bind_ok_inv _ (if is_missing a.amount then coerce_amount missing o.due else ok early) h6 in
    let t_eq = ok-injective h7 in
    subst
      (λ x.
        (row ≡ some x.row)
        × (terms_from w a (some (record x.row { header = h }))
            ≡ ok (record x { row = record x.row { header = h } })))
      t_eq
      (
        e3,
        checks_pass w a (record o { header = h }) p early n e1 e2 d
            (stranger_header a.courier o h ∙ f) b e7,
      )

create_payment_inv :
    (w : Outside) (now : ℕ) (a : Ask) (draw : ℕ) (arrival : Option (ℕ × Receipt)) (s s' : Books)
    (r : Reply)
    → create_payment w now a draw arrival s ≡ (s', ok (some r))
    → (t : Terms) × (terms_of w a s.orders ≡ ok t)
      × (locate w now a t draw arrival s ≡ (s', ok (some r)))
unfolding create_payment
create_payment_inv w now a draw arrival s s' r h = by_terms (terms_of w a s.orders) refl h
  where
    by_terms :
        (x : Result PaymentError Terms)
        → terms_of w a s.orders ≡ x
        → (elim x [ err e ↦ refuse s e | ok t ↦ locate w now a t draw arrival s ])
          ≡ (s', ok (some r))
        → (t : Terms) × (terms_of w a s.orders ≡ ok t)
          × (locate w now a t draw arrival s ≡ (s', ok (some r)))
    by_terms (err e) f k = let no : err e ≡ ok (some r) = ap (λ x. x.1) k in cc
    by_terms (ok t) f k = (t, f, k)

presented_as :
    (s : Books) (k : ℕ) (q : Receipt) → (st : PaymentStatus) × (presented s k q ≡ reply s k st [])
unfolding presented
presented_as s k q = by_refund (existing_refund s.refunds k q)
  where
    by_refund :
        (r : Option Refund) → (st : PaymentStatus) × (shown s k q.status r ≡ reply s k st [])
    by_refund none = (q.status, refl)
    by_refund (some r) = (refunded, refl)

if_row-found :
    (rows : Table Receipt) (k : ℕ) (p : Receipt) (found : ℕ → Receipt → Answer) (otherwise : Answer)
    → get k rows ≡ some p
    → if_row rows (some k) found otherwise ≡ found k p
unfolding if_row
if_row-found rows k p found otherwise e =
    ap (λ x. elim x [ none ↦ otherwise | some r ↦ found k r ]) e

module _ (w : Outside) (now : ℕ) (a : Ask) (t : Terms) (k : ℕ) (q : Receipt) (s : Books) where
  module _ (e : ensure_evidence w.methods q a.order t.row.branch s.events ≡ ok s.events)
      (same : recomputed w.methods now (some now) a.order s ≡ s) where
    evidence_again :
        (next : Books → Answer)
        → with_evidence w s s q a.order t.row.branch
            (λ s'. next (recomputed w.methods now (some now) a.order s'))
          ≡ next s
    unfolding with_evidence
    evidence_again next =
        ap (λ x. evidence_step s s x λ s'. next (recomputed w.methods now (some now) a.order s')) e
        ∙ ap next same

    resumed :
        (st : PaymentStatus)
        → has_been_paid st ≡ true
        → (st' : PaymentStatus) × (resume w now a t s k q s st ≡ reply s k st' [])
    resumed paid h =
        let (st, done) = presented_as s k q in (st, evidence_again (λ x. presented x k q) ∙ done)
    resumed refunded h = (refunded, evidence_again (λ x. reply x k refunded []))
    resumed pending h = true-ne-false (sym h)
    resumed failed h = true-ne-false (sym h)

  located :
      (draw : ℕ) (arrival : Option (ℕ × Receipt))
      → key_lookup t.key s.receipts ≡ some k
      → get k s.receipts ≡ some q
      → same_identity a t q ≡ ok tt
      → locate w now a t draw arrival s ≡ resume w now a t s k q s q.status
  unfolding locate existing_payment if_same
  located draw arrival found row same = rw found (
      if_row-found s.receipts k q (λ j. λ p. existing_payment w now a t s j p s) _ row
      ∙ rw same refl)

recomputed-row :
    (m : Methods) (now : ℕ) (at : Option ℕ) (oid : ℕ) (s : Books) (o : DoorOrder)
    → get oid s.orders ≡ some o
    → (h : PaidHeader) × (get oid (recomputed m now at oid s).orders
        ≡ some (record o { header = h }))
unfolding recomputed
recomputed-row m now at oid s o e =
    (recompute_order_paid m now at (sale_of oid o s) o.header, rw e (get-put_self oid _ s.orders))

create_payment-located :
    (w : Outside) (now : ℕ) (a : Ask) (draw : ℕ) (arrival : Option (ℕ × Receipt)) (s : Books)
    (t : Terms)
    → terms_of w a s.orders ≡ ok t
    → create_payment w now a draw arrival s ≡ locate w now a t draw arrival s
unfolding create_payment
create_payment-located w now a draw arrival s t e =
    ap (λ x. elim x [ err r ↦ refuse s r | ok t ↦ locate w now a t draw arrival s ]) e

Stands-replays :
    (w : Outside) (now now' : ℕ) (a : Ask) (t : Terms) (orders : Table DoorOrder) (s : Books)
    (k draw : ℕ) (arrival : Option (ℕ × Receipt))
    → terms_of w a orders ≡ ok t
    → Stands w now a t orders s k
    → (st : PaymentStatus) × (create_payment w now' a draw arrival s ≡ reply s k st [])
Stands-replays w now now' a t orders s k draw arrival e (q, base, is_base, ready, evidence) =
    let (o, found, row, same, settled) = ready in
    let at = some now in
    let (kept, kept_events, kept_refunds) = recomputed-keeps w.methods now at a.order base in
    let passed = terms_from-header w a (get a.order orders) t in
    let (h, row') =
      recomputed-row w.methods now at a.order base t.row
        (ap (λ x. get a.order x) o ∙ (passed t.row.header e).0) in
    let t' = record t { row = record t.row { header = h } } in
    let s' = recomputed w.methods now at a.order base in
    let again = recomputed_twice w.methods now now' at (some now') a.order base in
    let (st, resumes) =
      resumed w now' a t' k q s'
        (ap (λ x. ensure_evidence w.methods q a.order t.row.branch x) kept_events
          ∙ evidence
          ∙ ap (λ x. let v : Result EventConflict (List Event) = ok x in v) (sym kept_events))
        again q.status settled in
    (
      st,
      subst (λ x. create_payment w now' a draw arrival x ≡ reply x k st []) (sym is_base)
          (create_payment-located w now' a draw arrival s' t'
              (ap (λ x. terms_from w a x) row' ∙ (passed h e).1)
            ∙ located w now' a t' k q s' draw arrival (ap (λ x. key_lookup t.key x) kept ∙ found)
                (ap (λ x. get k x) kept ∙ row) same
            ∙ resumes),
    )

-- A call of create_payment that returned a payment can be repeated with the same arguments at any
-- later time: it answers with the same payment, sends nothing, and leaves every table as the first
-- call left it, the paid header included; so a retry never records, counts or announces money
-- twice. This holds with or without a key of the caller.
pub create_payment_replay :
    (w : Outside) (now now' : ℕ) (a : Ask) (draw draw' : ℕ)
    (arrival arrival' : Option (ℕ × Receipt)) (s s' : Books) (r : Reply)
    → create_payment w now a draw arrival s ≡ (s', ok (some r))
    → (st : PaymentStatus) × (create_payment w now' a draw' arrival' s'
        ≡ (s', ok (some (record { payment = r.payment; status = st; effects = [] }))))
create_payment_replay w now now' a draw draw' arrival arrival' s s' r h =
    let (t, terms, done) = create_payment_inv w now a draw arrival s s' r h in
    let stands =
      subst (λ x. (r : Reply) → x.1 ≡ ok (some r) → Stands w now a t s.orders x.0 r.payment) done
        (locate-Good w now a t s.orders draw arrival s refl) r refl in
    Stands-replays w now now' a t s.orders s' r.payment draw' arrival' terms stands
