-- ===== src/Smartfood/Loyalty/Gifts.antt =====
-- Gifts and scans (smartfood/services/loyalty_service.py).
use mathlib.Core.Path.{subst}
use native.Mathlib.Nat.{mul-le-mul, one-le-pow, div-mul-le_self, lt-div-mul-add}
use alpha_pos_server.Base.{
  whole_quotient-exact, ℕ, ◌+◌, ◌*◌, ◌/◌, ◌^◌, ◌≤◌, ◌<◌, ◌≡◌, ◌≢◌, refl, sym, ap, ◌∙◌, Bool, true,
  false, not, Option, none, some, List, [], ◌∷◌, Table, Text, arith, get, put, get-put_self,
  find_key, find_key-put, text_eq, ◌==◌, ==_refl, ==→ne, if◌then◌else◌, ok, err, some_inv,
  or_raise_inv, raise_if_inv, ok-injective, not-eq-false,
}
use alpha_pos_server.Base.Int.{
  ℤ, pos, pos_part, ◌-ℤ◌, ◌≤ℤ◌, leb_ℤ, ltb_ℤ, int_laws, eq_of_parts, max_ℤ, neg, ◌+ℤ◌,
}
use alpha_pos_server.Smartfood.Loyalty.{
  Club, Customer, already, issued, fulfilled, Amount, Redemption, Reward, redeem, mint, award_scan,
  fulfill, active_reward, gift_guards, claim_guards, fresh_code, has_code, used_by, counts_for,
  is_sold_out, one_less, write_change, points_for, redemption_at, with_key, is_issued,
}
use alpha_pos_server.Smartfood.Loyalty.Ledger.{redeem_inv}

-- The cost of a gift is positive.
pub gift_guards-cost :
    (is_visible : Option ℕ → Bool) (r : Reward)
    → gift_guards is_visible r ≡ ok tt
    → 0 < r.points_cost
unfolding gift_guards
gift_guards-cost is_visible r h =
    let (costs, rest) = raise_if_inv _ (r.points_cost == 0) _ h in ground arith

pub claim_guards-passed :
    (cid : ℕ) (c : Customer) (rid : ℕ) (r : Reward) (db : Club)
    → claim_guards cid c rid r db ≡ ok tt
    → (pos r.points_cost ≤ℤ c.points)
      × (is_sold_out r.stock ≡ false)
      × (r.per_customer_limit ≢ 0 → used_by cid rid db.redemptions < r.per_customer_limit)
unfolding claim_guards
claim_guards-passed cid c rid r db h =
    let (rich, h1) = raise_if_inv _ (ltb_ℤ c.points (pos r.points_cost)) _ h in
    let (stocked, h2) = raise_if_inv _ (is_sold_out r.stock) _ h1 in
    (ground arith, stocked, λ limited. ground arith)

max_zero : (x : ℤ) → pos 0 ≤ℤ x → max_ℤ (pos 0) x ≡ x
unfolding max_ℤ
max_zero x h = ground (arith, eq_of_parts (pos 0) x)

exact_debit : (p : ℤ) (n : ℕ) → pos n ≤ℤ p → max_ℤ (pos 0) (p +ℤ neg (pos n)) ≡ p -ℤ pos n
exact_debit p n h =
    let e : p +ℤ neg (pos n) ≡ p -ℤ pos n = omega int_laws in
    rw e (max_zero (p -ℤ pos n) (omega int_laws))

fresh_code-is_new :
    (codes : List Text) (t : Table Redemption) (code : Text)
    → fresh_code codes t ≡ some code
    → has_code code t ≡ false
unfolding fresh_code
fresh_code-is_new [] t code h = cc
fresh_code-is_new (d ∷ codes) t code h =
    first_or_later (has_code d t) refl (fresh_code-is_new codes t code) h
  where
    first_or_later :
        (b : Bool)
        → has_code d t ≡ b
        → (fresh_code codes t ≡ some code → has_code code t ≡ false)
        → (if b then fresh_code codes t else some d) ≡ some code
        → has_code code t ≡ false
    first_or_later true e in_rest later = in_rest later
    first_or_later false e in_rest first = ap (λ c. has_code c t) (sym (some_inv first)) ∙ e

used_by-put :
    (cid rid key : ℕ) (row : Redemption) (t : Table Redemption)
    → get key t ≡ none
    → counts_for cid rid row ≡ true
    → used_by cid rid (put key row t) ≡ used_by cid rid t + 1
used_by-put cid rid key row [] h e = rw e refl
used_by-put cid rid key row ((k, r) ∷ t) h e = ground (arith, used_by-put cid rid key row t)

counts_own :
    (cid rid : ℕ) (row : Redemption)
    → row.customer ≡ cid
    → row.reward ≡ rid
    → row.status ≡ issued
    → counts_for cid rid row ≡ true
counts_own cid rid row a b c = rw (a, b, c, ==_refl cid, ==_refl rid) refl

-- What the caller of `redeem` sees of the gift, the points and the code.
abbrev pub Exact : ℕ → ℕ → ℕ → Club → Club → Redemption → Reward → Customer → Type 0
Exact key cid rid db db' row r c =
    (0 < r.points_cost)
    × (pos r.points_cost ≤ℤ c.points)
    × (get cid db'.customers ≡ some (record c { points = c.points -ℤ pos r.points_cost }))
    × (is_sold_out r.stock ≡ false)
    × (get rid db'.rewards ≡ some (record r { stock = one_less r.stock }))
    × (get key db'.redemptions ≡ some row)
    × (row.points_spent ≡ r.points_cost)
    × (has_code row.code db.redemptions ≡ false)
    × (r.per_customer_limit ≢ 0 → used_by cid rid db'.redemptions ≤ r.per_customer_limit)

pub mint-Exact :
    (now key cid : ℕ) (c : Customer) (rid : ℕ) (r : Reward) (code : Text) (db : Club)
    → get key db.redemptions ≡ none
    → 0 < r.points_cost
    → pos r.points_cost ≤ℤ c.points
    → is_sold_out r.stock ≡ false
    → (r.per_customer_limit ≢ 0 → used_by cid rid db.redemptions < r.per_customer_limit)
    → has_code code db.redemptions ≡ false
    → Exact key cid rid db
        (mint now key cid c rid r code db).0
        (mint now key cid c rid r code db).1
        r
        c
unfolding mint write_change
mint-Exact now key cid c rid r code db new costs rich stocked limit unused = (
  costs,
  rich,
  rw (exact_debit c.points r.points_cost rich) (get-put_self cid _ db.customers),
  stocked,
  get-put_self rid _ db.rewards,
  get-put_self key _ db.redemptions,
  refl,
  unused,
  λ limited.
      let below = limit limited in
      rw
        (used_by-put cid rid key (mint now key cid c rid r code db).1 db.redemptions new
          (counts_own cid rid (mint now key cid c rid r code db).1 refl refl refl))
        (omega arith),
)

active_reward-row :
    (o : Option Reward) (r : Reward)
    → active_reward o ≡ some r
    → (o ≡ some r) × (r.is_active ≡ true)
active_reward-row none r h = cc
active_reward-row (some s) r h = active_or_not s.is_active refl h
  where
    active_or_not :
        (b : Bool)
        → s.is_active ≡ b
        → (if b then some s else none) ≡ some r
        → (some s ≡ some r) × (r.is_active ≡ true)
    active_or_not true e same = (same, ap (λ x. x.is_active) (sym (some_inv same)) ∙ e)
    active_or_not false e none_there = cc

-- A successful redemption, whose row gets a key that no redemption has, is of an active gift with a
-- positive cost that the customer can pay; it takes exactly that cost off the customer's points,
-- one off a stock that is limited and not used up, stores an issued row of that cost under a code
-- that no redemption had, and the customer's redemptions of the gift stay within its limit.
pub redeem-Exact :
    (now key : ℕ) (is_visible : Option ℕ → Bool) (draws : List Text) (cid rid : ℕ) (db db' : Club)
    (row : Redemption)
    → get key db.redemptions ≡ none
    → redeem now key is_visible draws cid rid db ≡ ok (db', row)
    → (r : Reward) × (c : Customer) × (get rid db.rewards ≡ some r)
      × (r.is_active ≡ true)
      × (get cid db.customers ≡ some c)
      × Exact key cid rid db db' row r c
redeem-Exact now key is_visible draws cid rid db db' row new h =
    let (r, c, code, active, gift, found, claimed, fresh, done) =
      redeem_inv now key is_visible draws cid rid db db' row h in
    let (there, on) = active_reward-row (get rid db.rewards) r active in
    let (rich, stocked, limit) = claim_guards-passed cid c rid r db claimed in
    (
      r,
      c,
      there,
      on,
      found,
      subst (λ (x : Club × Redemption). Exact key cid rid db x.0 x.1 r c) done
          (mint-Exact now key cid c rid r code db new (gift_guards-cost is_visible r gift) rich
            stocked limit (fresh_code-is_new draws db.redemptions code fresh)),
    )

with_key_inv :
    (k : ℕ) (o : Option Redemption) (e : ℕ × Redemption)
    → with_key k o ≡ some e
    → (some k ≡ some e.0) × (o ≡ some e.1)
with_key_inv k none e h = cc
with_key_inv k (some r) e h = (ap (λ x. some x.0) (some_inv h), ap (λ x. some x.1) (some_inv h))

redemption_at_inv :
    (o : Option ℕ) (t : Table Redemption) (e : ℕ × Redemption)
    → redemption_at o t ≡ some e
    → (o ≡ some e.0) × (get e.0 t ≡ some e.1)
redemption_at_inv none t e h = cc
redemption_at_inv (some k) t e h =
    let (key, row) = with_key_inv k (get k t) e h in
    (key, ap (λ j. get j t) (sym (some_inv key)) ∙ row)

fulfill_again :
    (now : ℕ) (code : Text) (staff : Option ℕ) (db : Club) (k : ℕ) (r : Redemption)
    → find_key (λ x. text_eq x.code code) db.redemptions ≡ some k
    → get k db.redemptions ≡ some r
    → r.status ≡ fulfilled
    → fulfill now code staff db ≡ err (already fulfilled)
unfolding fulfill
fulfill_again now code staff db k r named there over = rw (named, there, over) refl

-- A handover by a code succeeds only on an issued redemption, whose row becomes fulfilled with the
-- time and the staff member, and writes nothing else; the same code is refused from then on, by
-- whomever and whenever it is shown again, as already fulfilled.
pub fulfill_once :
    (now later : ℕ) (code : Text) (staff other : Option ℕ) (db db' : Club) (r : Redemption)
    → fulfill now code staff db ≡ ok (db', r)
    → (k : ℕ) × (old : Redemption) × (get k db.redemptions ≡ some old)
      × (is_issued old.status ≡ true)
      × (r ≡ record old { status = fulfilled; fulfilled_at = some now; fulfilled_by = staff })
      × (db' ≡ record db { redemptions = put k r db.redemptions })
      × (fulfill later code other db' ≡ err (already fulfilled))
unfolding fulfill
fulfill_once now later code staff other db db' r h =
    let key = find_key (λ x. text_eq x.code code) db.redemptions in
    let ((k, old), found, h1) = or_raise_inv _ (redemption_at key db.redemptions) _ h in
    let (open_row, done) = raise_if_inv _ (not (is_issued old.status)) _ h1 in
    let (named, there) = redemption_at_inv key db.redemptions (k, old) found in
    let new : Redemption = record old {
      status = fulfilled;
      fulfilled_at = some now;
      fulfilled_by = staff;
    } in
    let db_eq = ap (λ x. x.0) (ok-injective done) in
    let r_eq = ap (λ x. x.1) (ok-injective done) in
    (
      k,
      old,
      there,
      not-eq-false open_row,
      sym r_eq,
      sym db_eq ∙ ap (λ x. record db { redemptions = put k x db.redemptions }) r_eq,
      ap (fulfill later code other) (sym db_eq)
          ∙ fulfill_again later code other (record db { redemptions = put k new db.redemptions }) k
              new
              (find_key-put (λ x. text_eq x.code code) k old new db.redemptions there refl ∙ named)
              (get-put_self k new db.redemptions) refl,
    )

floor_bounds : (a b n : ℕ) → n ≡ a / b → 0 < b → (n * b ≤ a) × (a < (n + 1) * b)
floor_bounds a b n e h =
    (rw e (div-mul-le_self a b), rw e (omega (arith, lt-div-mul-add {a = a} {b = b} h)))

rate_is_positive :
    (earn_per : ℤ) (scale : ℕ) → leb_ℤ earn_per (pos 0) ≡ false → 0 < pos_part earn_per * 10 ^ scale
rate_is_positive earn_per scale h =
    let rate : 1 ≤ pos_part earn_per = ground arith in
    mul-le-mul {n₁ = 1} {m₁ = 1} rate (one-le-pow scale 10 (omega arith))

-- A purchase whose amount has at most 25 digits and that earns points is of a member who is not
-- blocked, at a positive rate, and earns the whole part of the amount over the rate, which the
-- rounding of the quotient to 28 digits does not change: the points at that rate cost no more than
-- was paid, and one point more would cost more; the balance becomes the old one plus these points,
-- at least 0.
pub award_scan-whole_points :
    (now : ℕ) (earn_per : ℤ) (currency : Text) (member : Option ℕ) (a : Amount) (staff : Option ℕ)
    (db db' : Club) (n : ℕ)
    → award_scan now earn_per currency member (some a) staff db ≡ ok (db', n)
    → pos_part a.digits < 10 ^ 25
    → (cid : ℕ) × (c : Customer) × (member ≡ some cid)
      × (get cid db.customers ≡ some c)
      × (c.is_blocked ≡ false)
      × (0 < n)
      × (n * (pos_part earn_per * 10 ^ a.scale) ≤ pos_part a.digits * 100)
      × (pos_part a.digits * 100 < (n + 1) * (pos_part earn_per * 10 ^ a.scale))
      × (get cid db'.customers ≡ some (record c { points = max_ℤ (pos 0) (c.points +ℤ pos n) }))
unfolding award_scan write_change
award_scan-whole_points now earn_per currency member a staff db db' n h short =
    let (cid, named, h1) = or_raise_inv _ member _ h in
    let (c, found, h2) = or_raise_inv _ (get cid db.customers) _ h1 in
    let (free, h3) = raise_if_inv _ c.is_blocked _ h2 in
    let (rated, h4) = raise_if_inv _ (leb_ℤ earn_per (pos 0)) _ h3 in
    let (positive, h5) = raise_if_inv _ (leb_ℤ a.digits (pos 0)) _ h4 in
    let (enough, done) = raise_if_inv _ (points_for a (pos_part earn_per) == 0) _ h5 in
    let db_eq = ap (λ x. x.0) (ok-injective done) in
    let n_eq = ap (λ x. x.1) (ok-injective done) in
    let nonzero : n ≢ 0 = λ none_earned. ==→ne _ 0 enough (n_eq ∙ none_earned) in
    let some_rate = rate_is_positive earn_per a.scale rated in
    let exact =
      whole_quotient-exact (pos_part a.digits * 100) (pos_part earn_per * 10 ^ a.scale) some_rate
        (omega arith) in
    let (low, high) =
      floor_bounds (pos_part a.digits * 100) (pos_part earn_per * 10 ^ a.scale) n (sym n_eq ∙ exact)
        some_rate in
    (
      cid,
      c,
      named,
      found,
      free,
      omega arith,
      low,
      high,
      ap (λ x. get cid x.customers) (sym db_eq)
          ∙ get-put_self cid _ db.customers
          ∙ ap (λ m. some (record c { points = max_ℤ (pos 0) (c.points +ℤ pos m) })) n_eq,
    )
