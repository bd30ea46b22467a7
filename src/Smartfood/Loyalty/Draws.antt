-- ===== src/Smartfood/Loyalty/Draws.antt =====
-- The draw of a gift's code (smartfood/services/loyalty_service.py).
use alpha_pos_server.Base.{
  ℕ, ◌≡◌, refl, sym, ap, ◌∙◌, Bool, true, false, not, ◌&&◌, ◌||◌, Option, none, some, List, [], ◌∷◌,
  Table, Text, get, ok, err, is_ok, Result, if◌then◌else◌, ltb, ◌==◌, Bool-cases, inl, inr, ◌>>=◌,
  arith,
}
use alpha_pos_server.Base.Int.{ℤ, pos, ltb_ℤ, leb_ℤ, ◌-ℤ◌}
use alpha_pos_server.Smartfood.Loyalty.Gifts.{gift_guards-cost, claim_guards-passed, mint-Exact}
use alpha_pos_server.Smartfood.Loyalty.{
  Club, Customer, Redemption, Reward, ClubRefusal, redeem, mint, gift_guards, claim_guards,
  fresh_code, has_code, gift_not_found, active_reward, is_free_product, is_discount, used_by,
}

-- One of the codes that are drawn is new.
abbrev pub has_fresh : List Text → Table Redemption → Bool
has_fresh [] t = false
has_fresh (code ∷ codes) t = not (has_code code t) || has_fresh codes t

fresh_code-found :
    (codes : List Text) (t : Table Redemption)
    → has_fresh codes t ≡ true
    → (code : Text) × (fresh_code codes t ≡ some code) × (has_code code t ≡ false)
unfolding fresh_code
fresh_code-found [] t h = cc
fresh_code-found (d ∷ codes) t h = first_or_later (has_code d t) refl h (fresh_code-found codes t)
  where
    first_or_later :
        (b : Bool)
        → has_code d t ≡ b
        → not b || has_fresh codes t ≡ true
        → (has_fresh codes t ≡ true
            → (code : Text) × (fresh_code codes t ≡ some code) × (has_code code t ≡ false))
        → (code : Text) × ((if b then fresh_code codes t else some d) ≡ some code)
          × (has_code code t ≡ false)
    first_or_later true e k later = later k
    first_or_later false e k later = (d, refl, e)

-- A limited stock that is not used up, or one without a limit.
abbrev pub is_in_stock : Option ℤ → Bool
is_in_stock none = true
is_in_stock (some n) = ltb_ℤ (pos 0) n

-- When the customer `c` may redeem the gift `r`, written as one condition.
abbrev pub is_redeemable : (Option ℕ → Bool) → ℕ → Customer → ℕ → Reward → Club → Bool
is_redeemable is_visible cid c rid r db =
    r.is_active
    && ((ltb 0 r.points_cost
          && (not (is_free_product r.kind) || is_visible r.product)
          && (not (is_discount r.kind) || ltb_ℤ (pos 0) r.discount_amount))
        && (leb_ℤ (pos r.points_cost) c.points
            && is_in_stock r.stock
            && (r.per_customer_limit == 0
                || ltb (used_by cid rid db.redemptions) r.per_customer_limit)))

abbrev points_in : Option Customer → Option ℤ
points_in none = none
points_in (some c) = some c.points

-- The customer's points after a call of redeem from `db`.
abbrev pub points_after : ℕ → Club → Result ClubRefusal (Club × Redemption) → Option ℤ
points_after cid db (err e) = points_in (get cid db.customers)
points_after cid db (ok (db', row)) = points_in (get cid db'.customers)

gift_guards-ok :
    (is_visible : Option ℕ → Bool) (r : Reward)
    → is_ok (gift_guards is_visible r)
      ≡ ltb 0 r.points_cost
        && (not (is_free_product r.kind) || is_visible r.product)
        && (not (is_discount r.kind) || ltb_ℤ (pos 0) r.discount_amount)
unfolding gift_guards
gift_guards-ok is_visible r = ground arith

claim_guards-ok :
    (cid : ℕ) (c : Customer) (rid : ℕ) (r : Reward) (db : Club)
    → is_ok (claim_guards cid c rid r db)
      ≡ leb_ℤ (pos r.points_cost) c.points
        && is_in_stock r.stock
        && (r.per_customer_limit == 0 || ltb (used_by cid rid db.redemptions) r.per_customer_limit)
unfolding claim_guards
claim_guards-ok cid c rid r db = ground arith

-- The guards in turn, before a call that is right.
guarded :
    (cid : ℕ) (db : Club) (before after : Option ℤ) (gift claim : Result ClubRefusal (Unit {0}))
    (gift_ok claim_ok : Bool) (made : Result ClubRefusal (Club × Redemption))
    → points_in (get cid db.customers) ≡ before
    → is_ok gift ≡ gift_ok
    → is_ok claim ≡ claim_ok
    → is_ok made ≡ true
    → (gift ≡ ok tt → claim ≡ ok tt → points_after cid db made ≡ after)
    → let r = gift >>= λ u. claim >>= λ v. made in
      (is_ok r ≡ gift_ok && claim_ok)
      × (points_after cid db r ≡ (if gift_ok && claim_ok then after else before))
guarded cid db before after gift claim gift_ok claim_ok made now g k done paid = ground arith

active_reward-on : (r : Reward) → r.is_active ≡ true → active_reward (some r) ≡ some r
active_reward-on r h = rw h refl

active_reward-off : (r : Reward) → r.is_active ≡ false → active_reward (some r) ≡ none
active_reward-off r h = rw h refl

mint-paid :
    (now key cid : ℕ) (is_visible : Option ℕ → Bool) (c : Customer) (rid : ℕ) (r : Reward)
    (code : Text) (db : Club)
    → get key db.redemptions ≡ none
    → has_code code db.redemptions ≡ false
    → gift_guards is_visible r ≡ ok tt
    → claim_guards cid c rid r db ≡ ok tt
    → points_after cid db (ok (mint now key cid c rid r code db))
      ≡ some (c.points -ℤ pos r.points_cost)
mint-paid now key cid is_visible c rid r code db new unused gift claim =
    let (rich, stocked, limit) = claim_guards-passed cid c rid r db claim in
    ap points_in
      (mint-Exact now key cid c rid r code db new (gift_guards-cost is_visible r gift) rich stocked
        limit unused).2

-- A redemption of a gift that is there by a customer who is there, with a key that no redemption has
-- and a new code among those that are drawn, however many taken ones are drawn before it, succeeds
-- exactly when the gift is active, costs something, is of a visible product if it is one and takes
-- something off if it is a discount, and the customer has the points, the stock is not used up and
-- the customer's earlier redemptions of the gift are below its limit, if it has one. If it succeeds
-- the customer has exactly the cost less, and otherwise as many points as before.
pub redeem_succeeds :
    (now key : ℕ) (is_visible : Option ℕ → Bool) (draws : List Text) (cid rid : ℕ) (db : Club)
    (r : Reward) (c : Customer)
    → get rid db.rewards ≡ some r
    → get cid db.customers ≡ some c
    → get key db.redemptions ≡ none
    → has_fresh draws db.redemptions ≡ true
    → let result = redeem now key is_visible draws cid rid db in
      let may = is_redeemable is_visible cid c rid r db in
      (is_ok result ≡ may)
      × (points_after cid db result
          ≡ (if may then some (c.points -ℤ pos r.points_cost) else some c.points))
unfolding redeem
redeem_succeeds now key is_visible draws cid rid db r c there found new fresh =
    let (code, drawn, unused) = fresh_code-found draws db.redemptions fresh in
    elim (Bool-cases r.is_active) [
      | inl on ↦
          let active = ap active_reward there ∙ active_reward-on r on in
          let made : Result ClubRefusal (Club × Redemption) =
            ok (mint now key cid c rid r code db) in
          let steps : redeem now key is_visible draws cid rid db
              ≡ (gift_guards is_visible r >>= λ u. claim_guards cid c rid r db >>= λ v. made) =
            rw (active, found, drawn) refl in
          let (succeeds, points) =
            guarded cid db (some c.points) (some (c.points -ℤ pos r.points_cost))
              (gift_guards is_visible r) (claim_guards cid c rid r db) _ _ made (ap points_in found)
              (gift_guards-ok is_visible r) (claim_guards-ok cid c rid r db) refl
              (mint-paid now key cid is_visible c rid r code db new unused) in
          let passes = allowed r.is_active _ on in
          (
            ap is_ok steps ∙ succeeds ∙ sym passes,
            ap (points_after cid db) steps
                ∙ points
                ∙ ap (λ b. if b then some (c.points -ℤ pos r.points_cost) else some c.points)
                    (sym passes),
          )
      | inr off ↦
          let stops : redeem now key is_visible draws cid rid db ≡ err gift_not_found =
            rw (ap active_reward there ∙ active_reward-off r off) refl in
          let fails = refused r.is_active _ off in
          (
            ap is_ok stops ∙ sym fails,
            ap (points_after cid db) stops
                ∙ ap points_in found
                ∙ ap (λ b. if b then some (c.points -ℤ pos r.points_cost) else some c.points)
                    (sym fails),
          )
    ]
  where
    allowed : (a b : Bool) → a ≡ true → a && b ≡ b
    allowed a b h = rw h refl

    refused : (a b : Bool) → a ≡ false → a && b ≡ false
    refused a b h = rw h refl
