-- ===== src/Couriers/Tokens/Examples.antt =====
-- A courier who logs in by a claim, rotates a token and replays it.
use alpha_pos_server.Base.{ℕ, ◌≡◌, refl, true, false, none, some, [], ◌∷◌, put}
use alpha_pos_server.Base.Int.{pos}
use alpha_pos_server.Base.Settings.{unset, integer}
use alpha_pos_server.Couriers.Tokens.{
  Identity, Claim, RefreshToken, Db, Draw, ttl, issue_login_claim, revoke_claims,
  consume_login_claim, use_claim, rotate_refresh_token, rotate_row, claim_row, exchange,
  write_session, delete_session, revoke_family,
}
use alpha_pos_server.Couriers.Tokens.Claims.{Consumed, claim_works_once}
use alpha_pos_server.Couriers.Tokens.Families.{Named, TokenReach, replay_kills_family}

abbrev rider : Identity
rider = record { is_courier = true; is_deleted = false; is_active = true }

abbrev claim : Claim
claim = record { courier = 1; digest = 70; expires_at = 600; consumed_at = none; revoked_at = none }

abbrev token : RefreshToken
token = record {
  courier = 1;
  session = some 30;
  digest = 80;
  family = 5;
  expires_at = 9000;
  used_at = none;
  revoked_at = none;
  replaced_by = none;
}

abbrev start : Db
start = record {
  couriers = (1, rider) ∷ [];
  claims = (4, claim) ∷ [];
  tokens = (9, token) ∷ [];
  sessions = (30, record { courier = 1; payload = 81; expires_at = 800 }) ∷ [];
  cached = 81 ∷ [];
}

abbrev draw : Draw
draw = record {
  now = 100;
  access = 91;
  refresh = 90;
  session_key = 31;
  create_session = put;
  token_key = 10;
  family = 6;
  access_ttl = integer (pos 60);
  refresh_ttl = unset;
}

-- What a run computes with.
token_run : Db → Db
unfolding ttl issue_login_claim revoke_claims consume_login_claim use_claim rotate_refresh_token
    rotate_row claim_row exchange write_session delete_session revoke_family
token_run db = db

abbrev logged_in : Db
logged_in = record start { claims = (4, record claim { consumed_at = some 100 }) ∷ [] }

logs_in : consume_login_claim 100 (some 70) start ≡ (logged_in, some 1)
unfolding token_run
logs_in = refl

claim_works_once_example :
    Consumed 100 70 start logged_in 1
    × (consume_login_claim 200 (some 70) logged_in ≡ (logged_in, none))
claim_works_once_example = claim_works_once 100 200 70 start logged_in 1 logs_in

abbrev rotated : Db
rotated = (rotate_refresh_token draw (some 80) start).0

rotates_once :
    (rotate_refresh_token draw (some 80) start).1
    ≡ some (record { access_expires_at = 160; refresh_expires_at = 9000 })
unfolding token_run
rotates_once = refl

abbrev used : RefreshToken
used = record token { session = none; used_at = some 100; replaced_by = some 10 }

used-Named : Named 80 rotated 9 used rider
unfolding token_run
used-Named = record { first = refl; row = refl; owner = refl }

-- The replay, and then the replacement token of the same family, by its digest 90.
abbrev dead : Db
dead = (rotate_refresh_token draw (some 80) rotated).0

replay_kills_family_example :
    let (after, issued) = rotate_refresh_token draw (some 80) rotated in
    (issued ≡ none)
    × ((db' : Db) (d' : Draw) (digest' k' : ℕ) (r' : RefreshToken) (u' : Identity)
        → TokenReach 5 after db'
        → Named digest' db' k' r' u'
        → r'.family ≡ 5
        → (rotate_refresh_token d' (some digest') db').1 ≡ none)
replay_kills_family_example = replay_kills_family draw 80 9 used rider rotated used-Named refl

replacement : RefreshToken
replacement = record {
  courier = 1;
  session = none;
  digest = 90;
  family = 5;
  expires_at = 9000;
  used_at = none;
  revoked_at = some 100;
  replaced_by = none;
}

replacement-Named : Named 90 dead 10 replacement rider
unfolding token_run replacement
replacement-Named = record { first = refl; row = refl; owner = refl }
