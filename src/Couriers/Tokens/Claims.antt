-- ===== src/Couriers/Tokens/Claims.antt =====
-- One-time login claims (couriers/tokens.py).
use mathlib.Core.Path.{subst}
use alpha_pos_server.Base.{
  ℕ, ◌<◌, ◌≡◌, ◌≢◌, refl, sym, ap, ◌∙◌, Bool, true, false, not, ◌&&◌, ◌||◌, Option, none, some,
  Table, arith, get, put, every, get-put_self, get-put_ne, find_key, find_key-put, every-get,
  every-update_all, some_inv, none-ne-some, ◌==◌, Bool-cases, Option-cases, inl, inr,
}
use alpha_pos_server.Base.Settings.{Setting}
use alpha_pos_server.Couriers.Tokens.{
  Identity, Claim, Db, is_courier_identity, is_outstanding, revoke_claims, issue_login_claim,
  use_claim, with_claim, at_claim, consume_login_claim,
}

-- What a login by a claim rests on, and what it writes.
pub record Consumed (now digest : ℕ) (db db' : Db) (cid : ℕ) : Type 0 where
  pub key : ℕ
  pub claim : Claim
  pub user : Identity
  pub first : find_key (λ c. c.digest == digest) db.claims ≡ some key
  pub row : get key db.claims ≡ some claim
  pub owner : get claim.courier db.couriers ≡ some user
  pub courier : claim.courier ≡ cid
  pub allowed : is_courier_identity user ≡ true
  pub outstanding : is_outstanding claim ≡ true
  pub in_time : now < claim.expires_at
  pub written :
      db' ≡ record db { claims = put key (record claim { consumed_at = some now }) db.claims }

use_claim-some :
    (now k : ℕ) (c : Claim) (o : Option Identity) (db db' : Db) (cid : ℕ)
    → use_claim now k c o db ≡ (db', some cid)
    → (u : Identity) × (o ≡ some u)
      × (c.courier ≡ cid)
      × (is_courier_identity u ≡ true)
      × (is_outstanding c ≡ true)
      × (now < c.expires_at)
      × (db' ≡ record db { claims = put k (record c { consumed_at = some now }) db.claims })
unfolding use_claim
use_claim-some now k c none db db' cid h = none-ne-some (ap (λ r. r.1) h)
use_claim-some now k c (some u) db db' cid h =
    (u, refl, ground arith, ground arith, ground arith, ground arith, ground arith)

consume-Consumed :
    (now digest : ℕ) (db db' : Db) (cid : ℕ)
    → consume_login_claim now (some digest) db ≡ (db', some cid)
    → Consumed now digest db db' cid
unfolding consume_login_claim
consume-Consumed now digest db db' cid h =
    elim (Option-cases (find_key (λ c. c.digest == digest) db.claims)) [
      | inl absent ↦ none-ne-some (ap (λ r. r.1) (sym (ap (at_claim now db) absent) ∙ h))
      | inr (k, found) ↦ at_row k found (sym (ap (at_claim now db) found) ∙ h)
    ]
  where
    at_row :
        (k : ℕ)
        → find_key (λ c. c.digest == digest) db.claims ≡ some k
        → with_claim now db k (get k db.claims) ≡ (db', some cid)
        → Consumed now digest db db' cid
    at_row k found e = elim (Option-cases (get k db.claims)) [
      | inl gone ↦ none-ne-some (ap (λ r. r.1) (sym (ap (with_claim now db k) gone) ∙ e))
      | inr (c, row) ↦
          let (u, owner, courier, allowed, outstanding, in_time, written) =
            use_claim-some now k c (get c.courier db.couriers) db db' cid
              (sym (ap (with_claim now db k) row) ∙ e) in
          record {
            key = k;
            claim = c;
            user = u;
            first = found;
            row = row;
            owner = owner;
            courier = courier;
            allowed = allowed;
            outstanding = outstanding;
            in_time = in_time;
            written = written;
          }
    ]

spent_use :
    (now k : ℕ) (c : Claim) (o : Option Identity) (db : Db)
    → is_outstanding c ≡ false
    → use_claim now k c o db ≡ (db, none)
unfolding use_claim
spent_use now k c none db spent = refl
spent_use now k c (some u) db spent = ground arith

-- A claim that is used up or revoked lets nobody in.
spent_claim :
    (now digest k : ℕ) (c : Claim) (db : Db)
    → find_key (λ x. x.digest == digest) db.claims ≡ some k
    → get k db.claims ≡ some c
    → is_outstanding c ≡ false
    → consume_login_claim now (some digest) db ≡ (db, none)
unfolding consume_login_claim
spent_claim now digest k c db found row spent =
    ap (at_claim now db) found
    ∙ ap (with_claim now db k) row
    ∙ spent_use now k c (get c.courier db.couriers) db spent

-- A login by a claim succeeds only for an active courier identity, before the claim's expiry and
-- while it is outstanding; and the same claim sent again, at any time, is refused with no change.
pub claim_works_once :
    (now later digest : ℕ) (db db' : Db) (cid : ℕ)
    → consume_login_claim now (some digest) db ≡ (db', some cid)
    → Consumed now digest db db' cid × (consume_login_claim later (some digest) db' ≡ (db', none))
claim_works_once now later digest db db' cid h =
    let s = consume-Consumed now digest db db' cid h in
    let row = record s.claim { consumed_at = some now } in
    let after = record db { claims = put s.key row db.claims } in
    (
      s,
      subst (λ x. consume_login_claim later (some digest) x ≡ (x, none)) (sym s.written)
          (spent_claim later digest s.key row after
            (find_key-put (λ c. c.digest == digest) s.key s.claim row db.claims s.row refl
              ∙ s.first)
            (get-put_self s.key row db.claims) refl),
    )

-- The claim is another courier's, or spent.
abbrev is_settled : ℕ → Claim → Bool
is_settled cid c = not (c.courier == cid) || not (is_outstanding c)

revoke_claims-settles :
    (cid now : ℕ) (t : Table Claim) → every (is_settled cid) (revoke_claims cid now t) ≡ true
unfolding revoke_claims
revoke_claims-settles cid now t =
    every-update_all (is_settled cid) (λ c. c.courier == cid && is_outstanding c)
      (λ c. record c { revoked_at = some now }) t (λ c. ground arith)

settled_row :
    (cid : ℕ) (c : Claim) → is_settled cid c ≡ true → c.courier ≡ cid → is_outstanding c ≡ false
settled_row cid c h mine = ground arith

old_claims :
    (now digest key cid : ℕ) (lifetime : Setting) (u : Identity) (db db' : Db) (k : ℕ) (c : Claim)
    → issue_login_claim now lifetime digest key cid u db ≡ some db'
    → get k db'.claims ≡ some c
    → c.courier ≡ cid
    → k ≢ key
    → is_outstanding c ≡ false
unfolding issue_login_claim
old_claims now digest key cid lifetime u db db' k c h row mine other =
    elim (Bool-cases (is_courier_identity u)) [
      | inl known ↦
          let e = ap (λ (x : Db). get k x.claims) (some_inv (rw known at h)) in
          settled_row cid c
            (every-get (is_settled cid) k c (revoke_claims cid now db.claims)
              (revoke_claims-settles cid now db.claims)
              (sym (get-put_ne k key _ (revoke_claims cid now db.claims) other) ∙ e ∙ row))
            mine
      | inr stranger ↦ none-ne-some (rw stranger at h)
    ]

-- Issuing a claim to a courier revokes the courier's earlier ones: any value that names a claim of
-- that courier other than the new row is refused from then on, at any time, with no change.
new_claim_replaces_old :
    (now later digest key cid : ℕ) (lifetime : Setting) (u : Identity) (db db' : Db)
    (digest' k' : ℕ) (c' : Claim)
    → issue_login_claim now lifetime digest key cid u db ≡ some db'
    → find_key (λ c. c.digest == digest') db'.claims ≡ some k'
    → get k' db'.claims ≡ some c'
    → c'.courier ≡ cid
    → k' ≢ key
    → consume_login_claim later (some digest') db' ≡ (db', none)
new_claim_replaces_old now later digest key cid lifetime u db db' digest' k' c' h found row mine
      other =
    spent_claim later digest' k' c' db' found row
      (old_claims now digest key cid lifetime u db db' k' c' h row mine other)
