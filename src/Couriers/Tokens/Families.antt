-- ===== src/Couriers/Tokens/Families.antt =====
-- Families of refresh tokens (couriers/tokens.py, rotate_refresh_token).
use mathlib.Core.Path.{subst}
use alpha_pos_server.Base.{
  ◌+◌, some_inv, none-ne-some, ℕ, ◌≡◌, ◌≢◌, sym, ap, ◌∙◌, true, Option, none, some, get, find_key,
  every-get, is_some, ◌==◌, Bool-cases, inl, inr,
}
use alpha_pos_server.Couriers.Tokens.{
  Identity, RefreshToken, Db, Draw, Issued, revoke_family, issue_session, ttl, refresh_default,
  rotate_row, rotate_refresh_token, revoke_refresh_token, at_token, with_token, is_courier_identity,
}
use alpha_pos_server.Couriers.Tokens.Dead.{
  is_dead, IsDead, revoke_family-kills, write_session-IsDead, rotate_row-refuses, rotate-IsDead,
  revoke_refresh_token-IsDead,
}

-- The calls that write refresh tokens; a login draws a family that is not `family`.
pub data TokenStep (family : ℕ) : Db → Db → Type 0 where
  logs_in :
      (d : Draw) (cid : ℕ) (u : Identity) {db db' : Db} (issued : Issued)
      → d.family ≢ family
      → issue_session d cid u db ≡ some (db', issued)
      → TokenStep family db db'
  rotates :
      (d : Draw) (raw : Option ℕ) {db : Db} → TokenStep family db (rotate_refresh_token d raw db).0
  revokes :
      (at : ℕ) (raw : Option ℕ) {db : Db} → TokenStep family db (revoke_refresh_token at raw db)

pub data TokenReach (family : ℕ) (start : Db) : Db → Type 0 where
  here : TokenReach family start start
  next :
      {db db' : Db}
      → TokenReach family start db
      → TokenStep family db db'
      → TokenReach family start db'

issue_session-IsDead :
    (family : ℕ) (d : Draw) (cid : ℕ) (u : Identity) (db db' : Db) (issued : Issued)
    → d.family ≢ family
    → issue_session d cid u db ≡ some (db', issued)
    → IsDead family db
    → IsDead family db'
unfolding issue_session
issue_session-IsDead family d cid u db db' issued apart done h =
    elim (Bool-cases (is_courier_identity u)) [
      | inl known ↦
          let end = d.now + ttl d.refresh_ttl refresh_default in
          let issued_now = some_inv (rw known at done) in
          subst (λ (r : Db × Issued). IsDead family r.0) issued_now
            (write_session-IsDead family d cid d.family end db apart h)
      | inr stranger ↦ none-ne-some (rw stranger at done)
    ]

TokenStep-IsDead :
    {family : ℕ} {db db' : Db} → TokenStep family db db' → IsDead family db → IsDead family db'
TokenStep-IsDead {family} (logs_in d cid u {db = db} {db' = db'} issued apart done) h =
    issue_session-IsDead family d cid u db db' issued apart done h
TokenStep-IsDead {family} (rotates d raw {db = db}) h = rotate-IsDead family d raw db h
TokenStep-IsDead {family} (revokes at raw {db = db}) h =
    revoke_refresh_token-IsDead family at raw db h

TokenReach-IsDead :
    {family : ℕ} {start db : Db}
    → IsDead family start
    → TokenReach family start db
    → IsDead family db
TokenReach-IsDead h here = h
TokenReach-IsDead h (next r st) = TokenStep-IsDead st (TokenReach-IsDead h r)

-- The row that a raw value of this digest names, and its courier.
pub record Named (digest : ℕ) (db : Db) (k : ℕ) (r : RefreshToken) (u : Identity) : Type 0 where
  pub first : find_key (λ x. x.digest == digest) db.tokens ≡ some k
  pub row : get k db.tokens ≡ some r
  pub owner : get r.courier db.couriers ≡ some u

rotate-Named :
    (d : Draw) (digest k : ℕ) (r : RefreshToken) (u : Identity) (db : Db)
    → Named digest db k r u
    → rotate_refresh_token d (some digest) db ≡ rotate_row d k r (some u) db
unfolding rotate_refresh_token
rotate-Named d digest k r u db n =
    ap (at_token d db) n.first
    ∙ ap (with_token d db k) n.row
    ∙ ap (λ o. rotate_row d k r o db) n.owner

used_row :
    (d : Draw) (k : ℕ) (r : RefreshToken) (u : Identity) (db : Db)
    → is_some r.used_at ≡ true
    → rotate_row d k r (some u) db ≡ (revoke_family r.family d.now db, none)
unfolding rotate_row
used_row d k r u db used = rw used

-- The replay of a refresh token that was used before is refused and kills its family for good: in
-- every state that logins (which draw other families), rotations and revocations reach from there,
-- no token of that family is exchanged for a session, whenever and with whatever digest it is sent.
pub replay_kills_family :
    (d : Draw) (digest k : ℕ) (r : RefreshToken) (u : Identity) (db : Db)
    → Named digest db k r u
    → is_some r.used_at ≡ true
    → let (after, issued) = rotate_refresh_token d (some digest) db in
      (issued ≡ none)
      × ((db' : Db) (d' : Draw) (digest' k' : ℕ) (r' : RefreshToken) (u' : Identity)
          → TokenReach r.family after db'
          → Named digest' db' k' r' u'
          → r'.family ≡ r.family
          → (rotate_refresh_token d' (some digest') db').1 ≡ none)
replay_kills_family d digest k r u db n used =
    let revoked = rotate-Named d digest k r u db n ∙ used_row d k r u db used in
    let killed =
      subst (λ (x : Db × Option Issued). IsDead r.family x.0) (sym revoked)
        (revoke_family-kills r.family d.now db) in
    (
      ap (λ (x : Db × Option Issued). x.1) revoked,
      λ db' d' digest' k' r' u' reached n' same.
          let dead = TokenReach-IsDead killed reached in
          ap (λ (x : Db × Option Issued). x.1) (rotate-Named d' digest' k' r' u' db' n')
          ∙ rotate_row-refuses r.family d' k' r' (some u') db'
              (every-get (is_dead r.family) k' r' db'.tokens dead n'.row) same,
    )
