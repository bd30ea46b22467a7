-- ===== src/Couriers/Payments/Cases.antt =====
-- Case principles of the shapes that the payment calls are built of (couriers/payments.py).
use alpha_pos_server.Base.{
  ℕ, ◌≡◌, ◌≢◌, refl, sym, ap, ◌∙◌, Bool, true, false, Option, none, some, List, [], Text, Result,
  err, ok, Table, get, put, some_inv, none-ne-some, true-ne-false, get-put_ne, find_key,
  find_key-get, is_some,
}
use alpha_pos_server.Couriers.Ledger.{Refund, PaymentStatus, pending, refunded}
use alpha_pos_server.Couriers.Evidence.{Methods, EvidenceError}
use alpha_pos_server.Couriers.Receipts.{
  Receipt, Event, DoorOrder, Books, EventConflict, existing_refund, ensure_evidence, with_header,
  recomputed,
}
use alpha_pos_server.Couriers.Payments.{
  no_room, conflict, evidence_step, with_evidence, presented, shown, if_room, if_same, if_row,
}
use alpha_pos_server.Couriers.Asks.{PaymentError, Answer, refuse, reply, Outside}

module _ (m : Methods) (now : ℕ) (at : Option ℕ) (oid : ℕ) (s : Books) where
  header_only :
      (o : Option DoorOrder)
      → ((with_header m now at oid s o).receipts ≡ s.receipts)
        × ((with_header m now at oid s o).events ≡ s.events)
        × ((with_header m now at oid s o).refunds ≡ s.refunds)
  header_only none = (refl, refl, refl)
  header_only (some o) = (refl, refl, refl)

  -- The paid header is all that its derivation writes.
  pub recomputed-keeps :
      ((recomputed m now at oid s).receipts ≡ s.receipts)
      × ((recomputed m now at oid s).events ≡ s.events)
      × ((recomputed m now at oid s).refunds ≡ s.refunds)
  unfolding recomputed
  recomputed-keeps = header_only (get oid s.orders)

module _ (P : Answer → Type 0) where
  evidence_step_cases :
      (start s : Books) (r : Result EventConflict (List Event)) (next : Books → Answer)
      → ((c : EventConflict) → P (refuse start (conflict c)))
      → ((events : List Event) → r ≡ ok events → P (next (record s { events = events })))
      → P (evidence_step start s r next)
  evidence_step_cases start s (err c) next refused passed = refused c
  evidence_step_cases start s (ok events) next refused passed = passed events refl

  pub with_evidence_cases :
      (w : Outside) (start s : Books) (p : Receipt) (oid : ℕ) (branch : Text)
      (next : Books → Answer)
      → ((c : EventConflict) → P (refuse start (conflict c)))
      → ((events : List Event)
          → ensure_evidence w.methods p oid branch s.events ≡ ok events
          → P (next (record s { events = events })))
      → P (with_evidence w start s p oid branch next)
  unfolding with_evidence
  with_evidence_cases w start s p oid branch next =
      evidence_step_cases start s (ensure_evidence w.methods p oid branch s.events) next

  pub presented_cases :
      (s : Books) (j : ℕ) (q : Receipt)
      → ((st : PaymentStatus) → P (reply s j st []))
      → P (presented s j q)
  unfolding presented
  presented_cases s j q replied = by_refund (existing_refund s.refunds j q)
    where
      by_refund : (r : Option Refund) → P (shown s j q.status r)
      by_refund none = replied q.status
      by_refund (some r) = replied refunded

  pub if_room_cases :
      (s : Books) (r : Result EvidenceError (Unit {0})) (next : Answer)
      → ((e : EvidenceError) → P (refuse s (no_room e)))
      → (r ≡ ok tt → P next)
      → P (if_room s r next)
  unfolding if_room
  if_room_cases s (err e) next refused passed = refused e
  if_room_cases s (ok tt) next refused passed = passed refl

  pub if_same_cases :
      (s : Books) (r : Result PaymentError (Unit {0})) (next : Answer)
      → ((e : PaymentError) → P (refuse s e))
      → (r ≡ ok tt → P next)
      → P (if_same s r next)
  unfolding if_same
  if_same_cases s (err e) next refused passed = refused e
  if_same_cases s (ok tt) next refused passed = passed refl

  pub if_row_cases :
      (rows : Table Receipt) (o : Option ℕ) (found : ℕ → Receipt → Answer) (otherwise : Answer)
      → ((k : ℕ) (p : Receipt) → o ≡ some k → get k rows ≡ some p → P (found k p))
      → P otherwise
      → P (if_row rows o found otherwise)
  unfolding if_row
  if_row_cases rows none found otherwise one none_left = none_left
  if_row_cases rows (some k) found otherwise one none_left = by_row (get k rows) refl
    where
      by_row :
          (r : Option Receipt)
          → get k rows ≡ r
          → P (elim r [ none ↦ otherwise | some p ↦ found k p ])
      by_row none e = none_left
      by_row (some p) e = one k p refl e

  -- Where the search that gives the key finds only rows that are there.
  pub lookup_cases :
      (rows : Table Receipt) (test : Receipt → Bool) (found : ℕ → Receipt → Answer)
      (otherwise : Answer)
      → ((k : ℕ) (p : Receipt) → find_key test rows ≡ some k → get k rows ≡ some p → P (found k p))
      → (find_key test rows ≡ none → P otherwise)
      → P (if_row rows (find_key test rows) found otherwise)
  unfolding if_row
  lookup_cases rows test found otherwise one none_left = by_key (find_key test rows) refl
    where
      by_row :
          (k : ℕ) (r : Option Receipt)
          → find_key test rows ≡ some k
          → get k rows ≡ r
          → P (elim r [ none ↦ otherwise | some p ↦ found k p ])
      by_row k none f e = true-ne-false (sym (find_key-get test rows k f) ∙ ap (λ o. is_some o) e)
      by_row k (some p) f e = one k p f e

      by_key : (o : Option ℕ) → find_key test rows ≡ o → P (if_row rows o found otherwise)
      by_key none f = none_left f
      by_key (some k) f = by_row k (get k rows) f refl

abbrev pub is_pending : PaymentStatus → Bool
is_pending pending = true
is_pending _ = false

-- Two rows that a test tells apart have different keys.
pub rows-ne :
    (test : Receipt → Bool) (rows : Table Receipt) (j k : ℕ) (q p : Receipt)
    → get j rows ≡ some q
    → get k rows ≡ some p
    → test q ≡ true
    → test p ≡ false
    → k ≢ j
rows-ne test rows j k q p row_j row_k passes fails = λ e.
    true-ne-false
      (sym passes ∙ ap test (some_inv (sym row_j ∙ ap (λ x. get x rows) (sym e) ∙ row_k)) ∙ fails)

-- A row stands elsewhere than a new one.
pub new_row-ne :
    (rows : Table Receipt) (j k : ℕ) (p : Receipt) → get j rows ≡ none → get k rows ≡ some p → k ≢ j
new_row-ne rows j k p free row = λ e. none-ne-some (sym free ∙ ap (λ x. get x rows) (sym e) ∙ row)

pub kept-put :
    (rows : Table Receipt) (j k : ℕ) (r p : Receipt)
    → get k rows ≡ some p
    → k ≢ j
    → get k (put j r rows) ≡ some p
kept-put rows j k r p row other = get-put_ne k j r rows other ∙ row
