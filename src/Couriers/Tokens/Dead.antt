-- ===== src/Couriers/Tokens/Dead.antt =====
-- Calls on a family of which every token is revoked (couriers/tokens.py).
use alpha_pos_server.Base.{
  ℕ, ◌≡◌, ◌≢◌, refl, sym, Bool, true, not, ◌&&◌, ◌||◌, Option, none, some, List, [], ◌∷◌, arith,
  get, put, every, find_key, every-put, every-get, every-update_where, every-update_all, is_some,
  is_key, ◌==◌, leb, Bool-cases, inl, inr,
}
use alpha_pos_server.Couriers.Tokens.{
  Identity, RefreshToken, Db, Draw, delete_session, delete_sessions, revoke_family, family_sessions,
  write_session, exchange, claim_row, rotate_row, rotate_refresh_token, revoke_refresh_token,
  mark_replaced, delete_old, at_token, with_token, lost_race, can_claim, is_courier_identity,
  revoke_found, revoke_at_key,
}

-- The row is of another family, or revoked.
abbrev pub is_dead : ℕ → RefreshToken → Bool
is_dead family r = not (r.family == family) || is_some r.revoked_at

-- Every token of the family is revoked.
abbrev pub IsDead : ℕ → Db → Type 0
IsDead family db = every (is_dead family) db.tokens ≡ true

module _ (family : ℕ) where
  delete_session-IsDead :
      (sid : ℕ) (db : Db) → IsDead family db → IsDead family (delete_session sid db)
  unfolding delete_session
  delete_session-IsDead sid db h =
      every-update_where (is_dead family) (λ r. is_key sid r.session)
        (λ r. record r { session = none }) db.tokens h (λ r dead. dead)

  delete_sessions-IsDead :
      (sids : List ℕ) (db : Db) → IsDead family db → IsDead family (delete_sessions sids db)
  delete_sessions-IsDead [] db h = h
  delete_sessions-IsDead (sid ∷ sids) db h =
      delete_sessions-IsDead sids (delete_session sid db) (delete_session-IsDead sid db h)

  delete_old-IsDead : (o : Option ℕ) (db : Db) → IsDead family db → IsDead family (delete_old o db)
  delete_old-IsDead none db h = h
  delete_old-IsDead (some sid) db h = delete_session-IsDead sid db h

  pub revoke_family-kills : (at : ℕ) (db : Db) → IsDead family (revoke_family family at db)
  unfolding revoke_family
  revoke_family-kills at db = delete_sessions-IsDead (family_sessions family db.tokens) _ (
      every-update_all (is_dead family) (λ r. r.family == family && not (is_some r.revoked_at))
        (λ r. record r { revoked_at = some at }) db.tokens (λ r. ground arith))

  revoke_family-IsDead :
      (other at : ℕ) (db : Db) → IsDead family db → IsDead family (revoke_family other at db)
  unfolding revoke_family
  revoke_family-IsDead other at db h = delete_sessions-IsDead (family_sessions other db.tokens) _ (
      every-update_where (is_dead family) (λ r. r.family == other && not (is_some r.revoked_at))
        (λ r. record r { revoked_at = some at }) db.tokens h (λ r dead. ground arith))

  pub write_session-IsDead :
      (d : Draw) (cid other end : ℕ) (db : Db)
      → other ≢ family
      → IsDead family db
      → IsDead family (write_session d cid other end db).0
  unfolding write_session
  write_session-IsDead d cid other end db apart h =
      every-put (is_dead family) d.token_key _ db.tokens h (ground arith)

  mark_replaced-IsDead :
      (k new : ℕ) (o : Option RefreshToken) (db : Db)
      → o ≡ get k db.tokens
      → IsDead family db
      → IsDead family (mark_replaced k new o db)
  mark_replaced-IsDead k new none db e h = h
  mark_replaced-IsDead k new (some r) db e h =
      every-put (is_dead family) k (record r { replaced_by = some new }) db.tokens h
        (every-get (is_dead family) k r db.tokens h (sym e))

  exchange-IsDead :
      (d : Draw) (k : ℕ) (r : RefreshToken) (db : Db)
      → r.family ≢ family
      → IsDead family db
      → IsDead family (exchange d k r db).0
  unfolding exchange
  exchange-IsDead d k r db apart h =
      let claimed = record db { tokens = put k (record r { used_at = some d.now }) db.tokens } in
      let old = delete_old r.session claimed in
      let written = (write_session d r.courier r.family r.expires_at old).0 in
      mark_replaced-IsDead k d.token_key (get k written.tokens) written refl (
        write_session-IsDead d r.courier r.family r.expires_at old apart (
          delete_old-IsDead r.session claimed (
            every-put (is_dead family) k (record r { used_at = some d.now }) db.tokens h
              (ground arith))))

  alive_elsewhere :
      (now : ℕ) (r : RefreshToken)
      → is_dead family r ≡ true
      → can_claim now r ≡ true
      → r.family ≢ family
  alive_elsewhere now r dead claimable = ground arith

  lost_race-IsDead :
      (now : ℕ) (o : Option RefreshToken) (db : Db)
      → IsDead family db
      → IsDead family (lost_race now o db)
  lost_race-IsDead now none db h = h
  lost_race-IsDead now (some latest) db h = elim (Bool-cases (is_some latest.used_at)) [
    | inl used ↦ rw used (revoke_family-IsDead latest.family now db h)
    | inr unused ↦ rw unused h
  ]

  claim_row-IsDead :
      (d : Draw) (k : ℕ) (r : RefreshToken) (db : Db)
      → is_dead family r ≡ true
      → IsDead family db
      → IsDead family (claim_row d k r db).0
  unfolding claim_row
  claim_row-IsDead d k r db dead h = elim (Bool-cases (can_claim d.now r)) [
    | inl claimable ↦
        rw claimable (exchange-IsDead d k r db (alive_elsewhere d.now r dead claimable) h)
    | inr raced ↦ rw raced (lost_race-IsDead d.now (get k db.tokens) db h)
  ]

  -- A row of a dead family is never exchanged; any other keeps the family dead.
  rotate_row-IsDead :
      (d : Draw) (k : ℕ) (r : RefreshToken) (o : Option Identity) (db : Db)
      → get k db.tokens ≡ some r
      → IsDead family db
      → IsDead family (rotate_row d k r o db).0
  unfolding rotate_row
  rotate_row-IsDead d k r none db found h = h
  rotate_row-IsDead d k r (some u) db found h = elim (Bool-cases (is_some r.used_at)) [
    | inl used ↦ rw used (revoke_family-IsDead r.family d.now db h)
    | inr unused ↦ rw unused (elim (Bool-cases (is_some r.revoked_at || leb r.expires_at d.now)) [
      | inl over ↦ rw over h
      | inr open_row ↦ rw open_row (elim (Bool-cases (not (is_courier_identity u))) [
        | inl stranger ↦ rw stranger (revoke_family-IsDead r.family d.now db h)
        | inr known ↦
            rw known
              (claim_row-IsDead d k r db (every-get (is_dead family) k r db.tokens h found) h)
      ])
    ])
  ]

  -- No token of a dead family is exchanged.
  pub rotate_row-refuses :
      (d : Draw) (k : ℕ) (r : RefreshToken) (o : Option Identity) (db : Db)
      → is_dead family r ≡ true
      → r.family ≡ family
      → (rotate_row d k r o db).1 ≡ none
  unfolding rotate_row
  rotate_row-refuses d k r none db dead mine = refl
  rotate_row-refuses d k r (some u) db dead mine = ground arith

  with_token-IsDead :
      (d : Draw) (k : ℕ) (o : Option RefreshToken) (db : Db)
      → get k db.tokens ≡ o
      → IsDead family db
      → IsDead family (with_token d db k o).0
  with_token-IsDead d k none db found h = h
  with_token-IsDead d k (some r) db found h =
      rotate_row-IsDead d k r (get r.courier db.couriers) db found h

  at_token-IsDead :
      (d : Draw) (o : Option ℕ) (db : Db) → IsDead family db → IsDead family (at_token d db o).0
  at_token-IsDead d none db h = h
  at_token-IsDead d (some k) db h = with_token-IsDead d k (get k db.tokens) db refl h

  pub rotate-IsDead :
      (d : Draw) (raw : Option ℕ) (db : Db)
      → IsDead family db
      → IsDead family (rotate_refresh_token d raw db).0
  unfolding rotate_refresh_token
  rotate-IsDead d none db h = h
  rotate-IsDead d (some digest) db h =
      at_token-IsDead d (find_key (λ r. r.digest == digest) db.tokens) db h

  revoke_found-IsDead :
      (at : ℕ) (o : Option RefreshToken) (db : Db)
      → IsDead family db
      → IsDead family (revoke_found at o db)
  revoke_found-IsDead at none db h = h
  revoke_found-IsDead at (some r) db h = revoke_family-IsDead r.family at db h

  revoke_at_key-IsDead :
      (at : ℕ) (o : Option ℕ) (db : Db) → IsDead family db → IsDead family (revoke_at_key at o db)
  revoke_at_key-IsDead at none db h = h
  revoke_at_key-IsDead at (some k) db h = revoke_found-IsDead at (get k db.tokens) db h

  pub revoke_refresh_token-IsDead :
      (at : ℕ) (raw : Option ℕ) (db : Db)
      → IsDead family db
      → IsDead family (revoke_refresh_token at raw db)
  unfolding revoke_refresh_token
  revoke_refresh_token-IsDead at none db h = h
  revoke_refresh_token-IsDead at (some digest) db h =
      revoke_at_key-IsDead at (find_key (λ r. r.digest == digest) db.tokens) db h
