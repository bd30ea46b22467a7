-- ===== src/Couriers/Payments/Writes.antt =====
-- What create_payment writes of the table of receipts (couriers/payments.py).
use alpha_pos_server.Base.{
  ℕ, ◌≡◌, ◌≢◌, refl, sym, ◌∙◌, Bool, true, false, not, ◌&&◌, Option, none, some, is_blank, Table,
  get, put, is_distinct, is_distinct-put, find_key, find_key-passes, Bool-cases, inl, inr,
  true-ne-false, none-ne-some, if◌then◌else◌, Result, err, ok,
}
use alpha_pos_server.Couriers.Ledger.{PaymentStatus, pending, paid, refunded, failed}
use alpha_pos_server.Couriers.Receipts.{Receipt, Books, recomputed}
use alpha_pos_server.Couriers.Payments.{
  collect, existing_payment, raced_payment, get_or_create, new_payment, locate, create_payment,
  paid_row, keyed, is_keyless, keyless_lookup, with_arrival, resume, presented, with_evidence,
  raced_by_status,
}
use alpha_pos_server.Couriers.Asks.{Outside, Ask, Terms, PaymentError, Answer, terms_of, refuse}
use alpha_pos_server.Couriers.Payments.Cases.{
  recomputed-keeps, with_evidence_cases, presented_cases, if_room_cases, if_same_cases,
  if_row_cases, is_pending, rows-ne, new_row-ne, kept-put,
}

-- The table keeps a row with these columns, and its keys are distinct.
abbrev pub Has : ℕ → Receipt → Table Receipt → Type 0
Has k p rows = (get k rows ≡ some p) × (is_distinct rows ≡ true)

-- A payment that is settled and has a key.
abbrev pub is_settled : Receipt → Bool
is_settled p = not (is_pending p.status) && not (is_blank p.external_id)

-- The primary keys that a call would give to new rows are free.
abbrev pub Fresh : ℕ → Option (ℕ × Receipt) → Table Receipt → Type 0
Fresh draw none rows = get draw rows ≡ none
Fresh draw (some x) rows = (get draw rows ≡ none) × (get x.0 rows ≡ none)

pub pending-unsettled : (q : Receipt) → q.status ≡ pending → is_settled q ≡ false
pending-unsettled q st = rw st refl

keyless-unsettled : (q : Receipt) → is_blank q.external_id ≡ true → is_settled q ≡ false
keyless-unsettled q blank = rw blank (and_false (not (is_pending q.status)))
  where
    and_false : (b : Bool) → b && false ≡ false
    and_false true = refl
    and_false false = refl

first_true : (b c : Bool) → b && c ≡ true → b ≡ true
first_true true c h = refl
first_true false c h = cc

pub keyless_found :
    (a : Ask) (t : Terms) (rows : Table Receipt) (j : ℕ) (q : Receipt)
    → is_distinct rows ≡ true
    → keyless_lookup a t rows ≡ some j
    → get j rows ≡ some q
    → is_blank q.external_id ≡ true
keyless_found a t rows j q distinct found row = by_supplied _ found
  where
    blank_of : is_keyless a t q ≡ true → is_blank q.external_id ≡ true
    blank_of passes = elim (Bool-cases (is_blank q.external_id)) [
      | inl blank ↦ blank
      | inr other ↦ true-ne-false (sym passes ∙ rw other refl)
    ]

    by_supplied :
        (b : Bool)
        → (if b then find_key (is_keyless a t) rows else none) ≡ some j
        → is_blank q.external_id ≡ true
    by_supplied true e = blank_of (find_key-passes (is_keyless a t) rows j q distinct e row)
    by_supplied false e = none-ne-some e

module _ (k : ℕ) (p : Receipt) where
  abbrev pub Holds : Answer → Type 0
  Holds a = Has k p a.0.receipts

  pub recomputed-Has :
      (w : Outside) (now : ℕ) (at : Option ℕ) (oid : ℕ) (s : Books)
      → Has k p s.receipts
      → Has k p (recomputed w.methods now at oid s).receipts
  recomputed-Has w now at oid s has = rw ((recomputed-keeps w.methods now at oid s).0) has

  pub presented-Holds :
      (s : Books) (j : ℕ) (q : Receipt) → Has k p s.receipts → Holds (presented s j q)
  presented-Holds s j q has = presented_cases Holds s j q λ st. has

  pub put-Has :
      (rows : Table Receipt) (j : ℕ) (r : Receipt) → Has k p rows → k ≢ j → Has k p (put j r rows)
  put-Has rows j r (row, distinct) other =
      (kept-put rows j k r p row other, is_distinct-put j r rows distinct)

  pub unsettled_elsewhere :
      (rows : Table Receipt) (j : ℕ) (q : Receipt)
      → Has k p rows
      → is_settled p ≡ true
      → get j rows ≡ some q
      → is_settled q ≡ false
      → k ≢ j
  unsettled_elsewhere rows j q (row, distinct) settled found open_row =
      rows-ne (λ r. not (is_settled r)) rows j k q p found row (rw open_row refl) (rw settled refl)

  module _ (w : Outside) (now : ℕ) (a : Ask) (t : Terms) (start : Books) where
    collect-Holds :
        (j : ℕ) (q : Receipt) (s : Books)
        → Has k p start.receipts
        → Has k p s.receipts
        → Holds (collect w now a t start j q s)
    unfolding collect
    collect-Holds j q s before has =
        with_evidence_cases Holds w start s _ _ _ _ (λ c. before)
          (λ events.
            λ e. recomputed-Has w now (some now) a.order (record s { events = events }) has)

    resume-Holds :
        (j : ℕ) (q : Receipt) (s : Books) (st : PaymentStatus)
        → Has k p start.receipts
        → Has k p s.receipts
        → (st ≡ pending → k ≢ j)
        → Holds (resume w now a t start j q s st)
    resume-Holds j q s paid before has other =
        with_evidence_cases Holds w start s _ _ _ _ (λ c. before)
          (λ events. λ e.
            presented-Holds _ j q
              (recomputed-Has w now (some now) a.order (record s { events = events }) has))
    resume-Holds j q s refunded before has other =
        with_evidence_cases Holds w start s _ _ _ _ (λ c. before)
          (λ events.
            λ e. recomputed-Has w now (some now) a.order (record s { events = events }) has)
    resume-Holds j q s failed before has other = recomputed-Has w now (some now) a.order s has
    resume-Holds j q s pending before has other =
        if_room_cases Holds s _ _ (λ e. has)
          (λ room.
            collect-Holds j (paid_row now q) _ before (put-Has s.receipts j _ has (other refl)))

    existing_payment-Holds :
        (j : ℕ) (q : Receipt) (s : Books)
        → Has k p start.receipts
        → Has k p s.receipts
        → (q.status ≡ pending → k ≢ j)
        → Holds (existing_payment w now a t start j q s)
    unfolding existing_payment
    existing_payment-Holds j q s before has other =
        if_same_cases Holds s _ _ (λ e. has) (λ same. resume-Holds j q s q.status before has other)

  module _ (w : Outside) (now : ℕ) (a : Ask) (t : Terms) where
    raced_shown-Holds :
        (j : ℕ) (q : Receipt) (s : Books)
        → Has k p s.receipts
        → Holds (
            with_evidence w s s q a.order t.row.branch
              λ s'. presented (recomputed w.methods now (some now) a.order s') j q)
    raced_shown-Holds j q s has =
        with_evidence_cases Holds w s s _ _ _ _ (λ c. has)
          (λ events. λ e.
            presented-Holds _ j q
              (recomputed-Has w now (some now) a.order (record s { events = events }) has))

    raced_by_status-Holds :
        (j : ℕ) (q : Receipt) (s : Books) (st : PaymentStatus)
        → Has k p s.receipts
        → Holds (raced_by_status w now a t j q s st)
    raced_by_status-Holds j q s pending has = has
    raced_by_status-Holds j q s failed has = has
    raced_by_status-Holds j q s paid has = raced_shown-Holds j q s has
    raced_by_status-Holds j q s refunded has = raced_shown-Holds j q s has

    raced_payment-Holds :
        (j : ℕ) (q : Receipt) (s : Books)
        → Has k p s.receipts
        → Holds (raced_payment w now a t j q s)
    unfolding raced_payment
    raced_payment-Holds j q s has =
        if_same_cases Holds s _ _ (λ e. has) (λ same. raced_by_status-Holds j q s q.status has)

    get_or_create-Holds :
        (draw : ℕ) (s : Books)
        → Has k p s.receipts
        → k ≢ draw
        → Holds (get_or_create w now a t draw s)
    get_or_create-Holds draw s has other =
        if_row_cases Holds s.receipts _ _ _
          (λ j. λ q. λ found. λ row. raced_payment-Holds j q s has)
          (collect-Holds w now a t s draw _ _ has (put-Has s.receipts draw _ has other))

    with_arrival-Has :
        (draw : ℕ) (arrival : Option (ℕ × Receipt)) (rows : Table Receipt)
        → Fresh draw arrival rows
        → Has k p rows
        → Has k p (with_arrival arrival rows) × (k ≢ draw)
    with_arrival-Has draw none rows free has = (has, new_row-ne rows draw k p free has.0)
    with_arrival-Has draw (some x) rows free has = (
      put-Has rows x.0 x.1 has (new_row-ne rows x.0 k p free.1 has.0),
      new_row-ne rows draw k p free.0 has.0,
    )

    new_payment-Holds :
        (draw : ℕ) (arrival : Option (ℕ × Receipt)) (s : Books)
        → Fresh draw arrival s.receipts
        → Has k p s.receipts
        → Holds (new_payment w now a t draw arrival s)
    unfolding new_payment
    new_payment-Holds draw arrival s free has =
        let (arrived, other) = with_arrival-Has draw arrival s.receipts free has in
        if_room_cases Holds s _ _ (λ e. has)
          (λ room.
            get_or_create-Holds draw (record s { receipts = with_arrival arrival s.receipts })
              arrived other)

    locate-Holds :
        (draw : ℕ) (arrival : Option (ℕ × Receipt)) (s : Books)
        → Fresh draw arrival s.receipts
        → Has k p s.receipts
        → is_settled p ≡ true
        → Holds (locate w now a t draw arrival s)
    unfolding locate
    locate-Holds draw arrival s free has settled =
        if_row_cases Holds s.receipts _ _ _
          (λ j. λ q. λ found. λ row.
            existing_payment-Holds w now a t s j q s has has
              (λ st. unsettled_elsewhere s.receipts j q has settled row (pending-unsettled q st)))
          (if_row_cases Holds s.receipts _ _ _
            (λ j. λ q. λ found. λ row.
              let other =
                unsettled_elsewhere s.receipts j q has settled row
                  (keyless-unsettled q (keyless_found a t s.receipts j q has.1 found row)) in
              existing_payment-Holds w now a t s j (keyed t.key q) _ has
                (put-Has s.receipts j _ has other) (λ st. other))
            (new_payment-Holds draw arrival s free has))

  module _ (w : Outside) (now : ℕ) where
    pub create_payment-Holds :
        (a : Ask) (draw : ℕ) (arrival : Option (ℕ × Receipt)) (s : Books)
        → Fresh draw arrival s.receipts
        → Has k p s.receipts
        → is_settled p ≡ true
        → Holds (create_payment w now a draw arrival s)
    unfolding create_payment
    create_payment-Holds a draw arrival s free has settled = by_terms (terms_of w a s.orders)
      where
        by_terms :
            (r : Result PaymentError Terms)
            → Holds (elim r [ err e ↦ refuse s e | ok t ↦ locate w now a t draw arrival s ])
        by_terms (err e) = has
        by_terms (ok t) = locate-Holds w now a t draw arrival s free has settled
