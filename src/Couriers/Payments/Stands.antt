-- ===== src/Couriers/Payments/Stands.antt =====
-- What a call of create_payment leaves for a repeated one to find (couriers/payments.py).
use mathlib.Core.Path.{subst}
use alpha_pos_server.Base.{
  ℕ, ◌≡◌, refl, ap, some_inv, ◌∙◌, Bool, true, not, Option, none, some, List, [], ◌∷◌, ◌++◌, Text,
  text_eq, text_eq_refl, Table, get, put, ok, ok-injective, bind_ok_inv, raise_if_inv, get-put_self,
  put-put_same, find_key-put, find_key-put_first, ==_refl, key_eq, arith,
}
use alpha_pos_server.Base.Int.{ℤ}
use alpha_pos_server.Couriers.Ledger.{
  Provider, cash, card, qr, PaymentStatus, pending, paid, refunded, failed, has_been_paid,
  provider_eq,
}
use alpha_pos_server.Couriers.Evidence.{Methods, recompute_order_paid}
use alpha_pos_server.Couriers.Evidence.Repeats.{recompute_twice}
use alpha_pos_server.Couriers.Receipts.{
  Receipt, Event, DoorOrder, Books, external_evidence_values, is_same_event, find_first, agrees,
  with_event, changed_event, ensure_evidence, sale_of, with_header, recomputed, eq_ℤ,
}
use alpha_pos_server.Couriers.Payments.{
  with_evidence, presented, same_identity, key_lookup, paid_row, fresh_receipt, keyed, with_arrival,
  collect, resume, existing_payment, raced_by_status, raced_payment, get_or_create, new_payment,
  locate,
}
use alpha_pos_server.Couriers.Asks.{
  Outside, Ask, Terms, PaymentError, Answer, Reply, refuse, reply, identity_error, MoneyEffect,
}
use alpha_pos_server.Couriers.Payments.Cases.{
  with_evidence_cases, presented_cases, if_room_cases, if_same_cases, if_row_cases, lookup_cases,
}

find_first-snoc :
    (p : Event → Bool) (t : List Event) (v : Event)
    → find_first p t ≡ none
    → p v ≡ true
    → find_first p (t ++ v ∷ []) ≡ some v
find_first-snoc p [] v h e = rw e refl
find_first-snoc p (x ∷ xs) v h e = ground (arith, find_first-snoc p xs v)

is_same_event_refl : (v : Event) → is_same_event v v ≡ true
is_same_event_refl v = rw (text_eq_refl v.branch, text_eq_refl v.source_id) refl

with_event-twice :
    (v : Event) (t t' : List Event)
    → with_event v t (find_first (is_same_event v) t) ≡ ok t'
    → with_event v t' (find_first (is_same_event v) t') ≡ ok t'
with_event-twice v t t' h = by_row (find_first (is_same_event v) t) refl h
  where
    by_row :
        (o : Option Event)
        → find_first (is_same_event v) t ≡ o
        → with_event v t o ≡ ok t'
        → with_event v t' (find_first (is_same_event v) t') ≡ ok t'
    by_row none e k =
        let (same, done) = raise_if_inv _ (not (agrees v v)) changed_event k in
        let t_eq = ok-injective done in
        subst (λ x. with_event v x (find_first (is_same_event v) x) ≡ ok x) t_eq
          (rw (find_first-snoc (is_same_event v) t v e (is_same_event_refl v), same) refl)
    by_row (some x) e k =
        let (same, done) = raise_if_inv _ (not (agrees v x)) changed_event k in
        let t_eq = ok-injective done in
        subst (λ y. with_event v y (find_first (is_same_event v) y) ≡ ok y) t_eq (rw (e, same) refl)

-- An event that has been ensured is found again.
ensure_evidence-twice :
    (m : Methods) (p : Receipt) (oid : ℕ) (branch : Text) (t t' : List Event)
    → ensure_evidence m p oid branch t ≡ ok t'
    → ensure_evidence m p oid branch t' ≡ ok t'
unfolding ensure_evidence
ensure_evidence-twice m p oid branch t t' h =
    let (v, valid, done) = bind_ok_inv _ (external_evidence_values m p oid branch) h in
    rw valid (with_event-twice v t t' done)

-- A header that is derived again is the same.
pub recomputed_twice :
    (m : Methods) (now now' : ℕ) (at at' : Option ℕ) (oid : ℕ) (s : Books)
    → recomputed m now' at' oid (recomputed m now at oid s) ≡ recomputed m now at oid s
unfolding recomputed
recomputed_twice m now now' at at' oid s = by_row (get oid s.orders) refl
  where
    by_row :
        (o : Option DoorOrder)
        → get oid s.orders ≡ o
        → with_header m now' at' oid
            (with_header m now at oid s o)
            (get oid (with_header m now at oid s o).orders)
          ≡ with_header m now at oid s o
    by_row none e = rw e refl
    by_row (some o) e =
        let o' = record o { header = recompute_order_paid m now at (sale_of oid o s) o.header } in
        rw (get-put_self oid o' s.orders) (
          ap (λ x. record s { orders = x })
            (put-put_same oid o' _ s.orders
              ∙ ap (λ h. put oid (record o { header = h }) s.orders)
                  (recompute_twice m now now' at at' (sale_of oid o s) o.header)))

-- The payment stands under the key of the terms, with their identity, and it has been paid.
abbrev Ready : Ask → Terms → Table DoorOrder → ℕ → Receipt → Books → Type 0
Ready a t orders j q s =
    (s.orders ≡ orders)
    × (key_lookup t.key s.receipts ≡ some j)
    × (get j s.receipts ≡ some q)
    × (same_identity a t q ≡ ok tt)
    × (has_been_paid q.status ≡ true)

provider_eq_refl : (p : Provider) → provider_eq p p ≡ true
provider_eq_refl cash = refl
provider_eq_refl card = refl
provider_eq_refl qr = refl

key_eq_refl : (o : Option ℕ) → key_eq o o ≡ true
key_eq_refl none = refl
key_eq_refl (some k) = ==_refl k

eq_ℤ_refl : (n : ℤ) → eq_ℤ n n ≡ true
eq_ℤ_refl n = ground arith

fresh_identity : (a : Ask) (t : Terms) (now : ℕ) → same_identity a t (fresh_receipt a t now) ≡ ok tt
unfolding identity_error
fresh_identity a t now =
    rw (==_refl a.order, provider_eq_refl t.kind, eq_ℤ_refl t.sum, key_eq_refl a.courier) refl

module _ (w : Outside) (now : ℕ) (a : Ask) (t : Terms) (orders : Table DoorOrder) where
  -- The tables are those of a payment that stands, with its event, after the header was derived.
  abbrev pub Stands : Books → ℕ → Type 0
  Stands s k =
      (q : Receipt) × (base : Books) × (s ≡ recomputed w.methods now (some now) a.order base)
      × Ready a t orders k q base
      × (ensure_evidence w.methods q a.order t.row.branch base.events ≡ ok base.events)

  abbrev Good : Answer → Type 0
  Good x = (r : Reply) → x.1 ≡ ok (some r) → Stands x.0 r.payment

  refuse-Good : (s : Books) (e : PaymentError) → Good (refuse s e)
  refuse-Good s e r h = cc

  reply-Good :
      (s : Books) (k : ℕ) (st : PaymentStatus) (effects : List MoneyEffect)
      → Stands s k
      → Good (reply s k st effects)
  reply-Good s k st effects stands r h =
      subst (λ x. Stands s x.payment) (some_inv (ok-injective h)) stands

  ensured :
      (j : ℕ) (q : Receipt) (s : Books) (events : List Event)
      → Ready a t orders j q s
      → ensure_evidence w.methods q a.order t.row.branch s.events ≡ ok events
      → Stands (recomputed w.methods now (some now) a.order (record s { events = events })) j
  ensured j q s events ready e = (
    q,
    record s { events = events },
    refl,
    ready,
    ensure_evidence-twice w.methods q a.order t.row.branch s.events events e,
  )

  collect-Good :
      (start : Books) (j : ℕ) (q : Receipt) (s : Books)
      → Ready a t orders j q s
      → Good (collect w now a t start j q s)
  unfolding collect
  collect-Good start j q s ready =
      with_evidence_cases Good w start s q _ _ _ (λ c. refuse-Good start _)
        (λ events. λ e. reply-Good _ j _ _ (ensured j q s events ready e))

  paid_row-Ready :
      (j : ℕ) (q : Receipt) (s : Books)
      → s.orders ≡ orders
      → key_lookup t.key s.receipts ≡ some j
      → get j s.receipts ≡ some q
      → same_identity a t q ≡ ok tt
      → Ready a t orders j
          (paid_row now q)
          (record s { receipts = put j (paid_row now q) s.receipts })
  unfolding identity_error
  paid_row-Ready j q s o found row same = (
    o,
    find_key-put (λ p. text_eq p.external_id t.key) j q (paid_row now q) s.receipts row refl
        ∙ found,
    get-put_self j (paid_row now q) s.receipts,
    same,
    refl,
  )

  resume-Good :
      (start : Books) (j : ℕ) (q : Receipt) (s : Books) (st : PaymentStatus)
      → q.status ≡ st
      → s.orders ≡ orders
      → key_lookup t.key s.receipts ≡ some j
      → get j s.receipts ≡ some q
      → same_identity a t q ≡ ok tt
      → Good (resume w now a t start j q s st)
  resume-Good start j q s paid e o found row same =
      with_evidence_cases Good w start s q _ _ _ (λ c. refuse-Good start _)
        (λ events. λ f.
          presented_cases Good _ j q
            (λ st. reply-Good _ j st [] (ensured j q s events (o, found, row, same, rw e refl) f)))
  resume-Good start j q s refunded e o found row same =
      with_evidence_cases Good w start s q _ _ _ (λ c. refuse-Good start _)
        (λ events.
          λ f. reply-Good _ j _ [] (ensured j q s events (o, found, row, same, rw e refl) f))
  resume-Good start j q s failed e o found row same = refuse-Good _ _
  resume-Good start j q s pending e o found row same =
      if_room_cases Good s _ _ (λ e. refuse-Good s _)
        (λ room. collect-Good start j (paid_row now q) _ (paid_row-Ready j q s o found row same))

  existing_payment-Good :
      (start : Books) (j : ℕ) (q : Receipt) (s : Books)
      → s.orders ≡ orders
      → key_lookup t.key s.receipts ≡ some j
      → get j s.receipts ≡ some q
      → Good (existing_payment w now a t start j q s)
  unfolding existing_payment
  existing_payment-Good start j q s o found row =
      if_same_cases Good s _ _ (λ e. refuse-Good s _)
        (λ same. resume-Good start j q s q.status refl o found row same)

  raced_shown :
      (j : ℕ) (q : Receipt) (s : Books)
      → Ready a t orders j q s
      → Good (
          with_evidence w s s q a.order t.row.branch
            λ s'. presented (recomputed w.methods now (some now) a.order s') j q)
  raced_shown j q s ready =
      with_evidence_cases Good w s s q _ _ _ (λ c. refuse-Good s _)
        (λ events. λ f.
          presented_cases Good _ j q (λ st. reply-Good _ j st [] (ensured j q s events ready f)))

  raced-Good :
      (j : ℕ) (q : Receipt) (s : Books) (st : PaymentStatus)
      → q.status ≡ st
      → s.orders ≡ orders
      → key_lookup t.key s.receipts ≡ some j
      → get j s.receipts ≡ some q
      → same_identity a t q ≡ ok tt
      → Good (raced_by_status w now a t j q s st)
  raced-Good j q s pending e o found row same = refuse-Good _ _
  raced-Good j q s failed e o found row same = refuse-Good _ _
  raced-Good j q s paid e o found row same = raced_shown j q s (o, found, row, same, rw e refl)
  raced-Good j q s refunded e o found row same = raced_shown j q s (o, found, row, same, rw e refl)

  raced_payment-Good :
      (j : ℕ) (q : Receipt) (s : Books)
      → s.orders ≡ orders
      → key_lookup t.key s.receipts ≡ some j
      → get j s.receipts ≡ some q
      → Good (raced_payment w now a t j q s)
  unfolding raced_payment
  raced_payment-Good j q s o found row =
      if_same_cases Good s _ _ (λ e. refuse-Good s _)
        (λ same. raced-Good j q s q.status refl o found row same)

  written-Ready :
      (j : ℕ) (q : Receipt) (s : Books)
      → s.orders ≡ orders
      → key_lookup t.key s.receipts ≡ none
      → q.external_id ≡ t.key
      → same_identity a t q ≡ ok tt
      → has_been_paid q.status ≡ true
      → Ready a t orders j q (record s { receipts = put j q s.receipts })
  written-Ready j q s o free own same settled = (
    o,
    find_key-put_first (λ p. text_eq p.external_id t.key) j q s.receipts free
        (rw own (text_eq_refl t.key)),
    get-put_self j q s.receipts,
    same,
    settled,
  )

  get_or_create-Good :
      (draw : ℕ) (s : Books) → s.orders ≡ orders → Good (get_or_create w now a t draw s)
  get_or_create-Good draw s o =
      lookup_cases Good s.receipts (λ p. text_eq p.external_id t.key) _ _
        (λ j. λ q. λ found. λ row. raced_payment-Good j q s o found row)
        (λ free.
          collect-Good s draw _ _ (
            written-Ready draw (fresh_receipt a t now) s o free refl (fresh_identity a t now) refl))

  new_payment-Good :
      (draw : ℕ) (arrival : Option (ℕ × Receipt)) (s : Books)
      → s.orders ≡ orders
      → Good (new_payment w now a t draw arrival s)
  unfolding new_payment
  new_payment-Good draw arrival s o =
      if_room_cases Good s _ _ (λ e. refuse-Good s _)
        (λ room.
          get_or_create-Good draw (record s { receipts = with_arrival arrival s.receipts }) o)

  pub locate-Good :
      (draw : ℕ) (arrival : Option (ℕ × Receipt)) (s : Books)
      → s.orders ≡ orders
      → Good (locate w now a t draw arrival s)
  unfolding locate
  locate-Good draw arrival s o =
      lookup_cases Good s.receipts (λ p. text_eq p.external_id t.key) _ _
        (λ j. λ q. λ found. λ row. existing_payment-Good s j q s o found row)
        (λ free.
          if_row_cases Good s.receipts _ _ _
            (λ j. λ q. λ found. λ row.
              existing_payment-Good s j (keyed t.key q)
                (record s { receipts = put j (keyed t.key q) s.receipts }) o
                (find_key-put_first (λ p. text_eq p.external_id t.key) j (keyed t.key q) s.receipts
                  free (text_eq_refl t.key))
                (get-put_self j (keyed t.key q) s.receipts))
            (new_payment-Good draw arrival s o))
