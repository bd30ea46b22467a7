-- ===== src/Couriers/Tokens.antt =====
-- One-time login claims and rotating refresh tokens of the courier app (couriers/tokens.py).
-- Digests and random values are numbers; what is drawn at random is an argument. The root lock of
-- a call makes it one step, and a foreign key always finds its row.
pub mod Claims
pub mod Dead
pub mod Families
mod Examples
use alpha_pos_server.Base.{
  ℕ, ◌+◌, ◌*◌, ◌≢◌, ◌≡◌, Bool, true, false, not, ◌&&◌, ◌||◌, Option, none, some, List, [], ◌∷◌,
  Table, Text, text, get, put, exists, every, update_where, remove, find_key, is_some, is_key, ltb,
  leb, ◌==◌, min, max, if◌then◌else◌, keep_if,
}
use alpha_pos_server.Base.Settings.{Setting, unset, not_a_number, integer}
use alpha_pos_server.Base.Int.{ℤ, pos_part}

-- The user of a courier, as `_require_courier_identity` reads it.
pub record Identity : Type 0 where
  pub is_courier : Bool  -- role == COURIER
  pub is_deleted : Bool
  pub is_active : Bool  -- status == ACTIVE

pub record Claim : Type 0 where
  pub courier : ℕ
  pub digest : ℕ
  pub expires_at : ℕ
  pub consumed_at : Option ℕ
  pub revoked_at : Option ℕ

pub record RefreshToken : Type 0 where
  pub courier : ℕ
  pub session : Option ℕ
  pub digest : ℕ
  pub family : ℕ
  pub expires_at : ℕ
  pub used_at : Option ℕ
  pub revoked_at : Option ℕ
  pub replaced_by : Option ℕ

pub record Session : Type 0 where
  pub courier : ℕ
  pub payload : ℕ
  pub expires_at : ℕ

pub record Db : Type 0 where
  pub couriers : Table Identity
  pub claims : Table Claim
  pub tokens : Table RefreshToken
  pub sessions : Table Session
  pub cached : List ℕ  -- payloads of the session cache

-- A lifetime of the settings, in seconds.
unfoldable pub ttl : Setting → ℕ → ℕ
ttl unset default = default
ttl not_a_number default = default
ttl (integer n) default = max 1 (pos_part n)

abbrev pub is_courier_identity : Identity → Bool
is_courier_identity u = u.is_courier && not u.is_deleted && u.is_active

-- What a call draws at random or reads from outside: the clock, the digest of the raw values, the
-- keys of new rows and the settings; and what the core's session repository does to create a row.
pub record Draw : Type 0 where
  pub now : ℕ
  pub access : ℕ  -- the digest of the new access token
  pub refresh : ℕ  -- the digest of the new refresh token
  pub session_key : ℕ
  pub create_session : ℕ → Session → Table Session → Table Session
  pub token_key : ℕ
  pub family : ℕ
  pub access_ttl : Setting
  pub refresh_ttl : Setting

abbrev pub access_default : ℕ
access_default = 7 * 86400

abbrev pub refresh_default : ℕ
refresh_default = 30 * 86400

abbrev pub claim_default : ℕ
claim_default = 600

-- A claim that is neither consumed nor revoked.
abbrev pub is_outstanding : Claim → Bool
is_outstanding c = not (is_some c.consumed_at) && not (is_some c.revoked_at)

unfoldable pub revoke_claims : ℕ → ℕ → Table Claim → Table Claim
revoke_claims cid now =
    update_where (λ c. c.courier == cid && is_outstanding c)
      (λ c. record c { revoked_at = some now })

-- `issue_login_claim`: the old claims are revoked, and a new one is written.
unfoldable pub issue_login_claim : ℕ → Setting → ℕ → ℕ → ℕ → Identity → Db → Option Db
issue_login_claim now lifetime digest key cid u db =
    let claim : Claim = record {
      courier = cid;
      digest = digest;
      expires_at = now + ttl lifetime claim_default;
      consumed_at = none;
      revoked_at = none;
    } in
    if is_courier_identity u
    then some (record db { claims = put key claim (revoke_claims cid now db.claims) })
    else none

-- The conditional UPDATE: the claim is consumed if it is outstanding and not expired.
unfoldable pub use_claim : ℕ → ℕ → Claim → Option Identity → Db → Db × Option ℕ
use_claim now k c none db = (db, none)
use_claim now k c (some u) db =
    if is_courier_identity u && is_outstanding c && ltb now c.expires_at
    then (
      record db { claims = put k (record c { consumed_at = some now }) db.claims },
      some c.courier,
    )
    else (db, none)

abbrev pub with_claim : ℕ → Db → ℕ → Option Claim → Db × Option ℕ
with_claim now db k none = (db, none)
with_claim now db k (some c) = use_claim now k c (get c.courier db.couriers) db

abbrev pub at_claim : ℕ → Db → Option ℕ → Db × Option ℕ
at_claim now db none = (db, none)
at_claim now db (some k) = with_claim now db k (get k db.claims)

-- `consume_login_claim` of a raw value with the given digest; `none` is a value without the prefix.
unfoldable pub consume_login_claim : ℕ → Option ℕ → Db → Db × Option ℕ
consume_login_claim now none db = (db, none)
consume_login_claim now (some digest) db =
    at_claim now db (find_key (λ c. c.digest == digest) db.claims)

abbrev uncache : Option Session → List ℕ → List ℕ
uncache none cached = cached
uncache (some s) cached = keep_if (λ p. not (p == s.payload)) cached

-- `_delete_access_session`: the cache entry and the row go, and the token's link becomes NULL.
unfoldable pub delete_session : ℕ → Db → Db
delete_session sid db = record db {
  sessions = remove sid db.sessions;
  tokens = update_where (λ r. is_key sid r.session) (λ r. record r { session = none }) db.tokens;
  cached = uncache (get sid db.sessions) db.cached;
}

-- The sessions of a family's rows.
abbrev pub family_sessions : ℕ → Table RefreshToken → List ℕ
family_sessions family [] = []
family_sessions family ((k, r) ∷ t) =
    add_session (r.family == family) r.session (family_sessions family t)
  where
    add_session : Bool → Option ℕ → List ℕ → List ℕ
    add_session true (some sid) rest = sid ∷ rest
    add_session _ _ rest = rest

abbrev pub delete_sessions : List ℕ → Db → Db
delete_sessions [] db = db
delete_sessions (sid ∷ sids) db = delete_sessions sids (delete_session sid db)

-- `_revoke_family`
unfoldable pub revoke_family : ℕ → ℕ → Db → Db
revoke_family family at db = delete_sessions (family_sessions family db.tokens) (record db {
  tokens =
      update_where (λ r. r.family == family && not (is_some r.revoked_at))
        (λ r. record r { revoked_at = some at }) db.tokens;
})

pub record Issued : Type 0 where
  pub access_expires_at : ℕ
  pub refresh_expires_at : ℕ

-- `_issue_session` after its identity check: a session that does not outlive the family, and its row.
unfoldable pub write_session : Draw → ℕ → ℕ → ℕ → Db → Db × Issued
write_session d cid family refresh_end db =
    let access_end = min (d.now + ttl d.access_ttl access_default) refresh_end in
    let session : Session = record { courier = cid; payload = d.access; expires_at = access_end } in
    let row : RefreshToken = record {
      courier = cid;
      session = some d.session_key;
      digest = d.refresh;
      family = family;
      expires_at = refresh_end;
      used_at = none;
      revoked_at = none;
      replaced_by = none;
    } in
    (
      record db {
        sessions = d.create_session d.session_key session db.sessions;
        tokens = put d.token_key row db.tokens;
      },
      record { access_expires_at = access_end; refresh_expires_at = refresh_end },
    )

-- `issue_session`: `none` where the identity check raises.
unfoldable pub issue_session : Draw → ℕ → Identity → Db → Option (Db × Issued)
issue_session d cid u db =
    if is_courier_identity u
    then some (write_session d cid d.family (d.now + ttl d.refresh_ttl refresh_default) db)
    else none

abbrev pub delete_old : Option ℕ → Db → Db
delete_old none db = db
delete_old (some sid) db = delete_session sid db

-- The links of a row that was replaced.
abbrev pub mark_replaced : ℕ → ℕ → Option RefreshToken → Db → Db
mark_replaced k new none db = db
mark_replaced k new (some r) db = record db {
  tokens = put k (record r { replaced_by = some new }) db.tokens;
}

-- The token is claimed, its old session goes, and a new session and token of the same family and
-- end are written.
unfoldable pub exchange : Draw → ℕ → RefreshToken → Db → Db × Option Issued
exchange d k r db =
    let claimed = record db { tokens = put k (record r { used_at = some d.now }) db.tokens } in
    let (db', issued) =
      write_session d r.courier r.family r.expires_at (delete_old r.session claimed) in
    (mark_replaced k d.token_key (get k db'.tokens) db', some issued)

-- The compare-and-swap: the row is unused, unrevoked and unexpired when it is claimed.
abbrev pub can_claim : ℕ → RefreshToken → Bool
can_claim now r = not (is_some r.used_at) && not (is_some r.revoked_at) && ltb now r.expires_at

abbrev pub lost_race : ℕ → Option RefreshToken → Db → Db
lost_race now none db = db
lost_race now (some latest) db =
    if is_some latest.used_at then revoke_family latest.family now db else db

unfoldable pub claim_row : Draw → ℕ → RefreshToken → Db → Db × Option Issued
claim_row d k r db =
    if can_claim d.now r then exchange d k r db else (lost_race d.now (get k db.tokens) db, none)

unfoldable pub rotate_row : Draw → ℕ → RefreshToken → Option Identity → Db → Db × Option Issued
rotate_row d k r none db = (db, none)
rotate_row d k r (some u) db =
    if is_some r.used_at
    then (revoke_family r.family d.now db, none)
    else if is_some r.revoked_at || leb r.expires_at d.now
    then (db, none)
    else if not (is_courier_identity u)
    then (revoke_family r.family d.now db, none)
    else claim_row d k r db

abbrev pub with_token : Draw → Db → ℕ → Option RefreshToken → Db × Option Issued
with_token d db k none = (db, none)
with_token d db k (some r) = rotate_row d k r (get r.courier db.couriers) db

abbrev pub at_token : Draw → Db → Option ℕ → Db × Option Issued
at_token d db none = (db, none)
at_token d db (some k) = with_token d db k (get k db.tokens)

-- `rotate_refresh_token` of a raw value with the given digest; `none` is a value without the prefix.
unfoldable pub rotate_refresh_token : Draw → Option ℕ → Db → Db × Option Issued
rotate_refresh_token d none db = (db, none)
rotate_refresh_token d (some digest) db =
    at_token d db (find_key (λ r. r.digest == digest) db.tokens)

abbrev pub revoke_found : ℕ → Option RefreshToken → Db → Db
revoke_found at none db = db
revoke_found at (some r) db = revoke_family r.family at db

abbrev pub revoke_at_key : ℕ → Option ℕ → Db → Db
revoke_at_key at none db = db
revoke_at_key at (some k) db = revoke_found at (get k db.tokens) db

-- `revoke_refresh_token`
unfoldable pub revoke_refresh_token : ℕ → Option ℕ → Db → Db
revoke_refresh_token at none db = db
revoke_refresh_token at (some digest) db =
    revoke_at_key at (find_key (λ r. r.digest == digest) db.tokens) db
