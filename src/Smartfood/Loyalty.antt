-- ===== src/Smartfood/Loyalty.antt =====
-- The points club (smartfood/services/loyalty_service.py): the balance and its ledger, gifts and
-- their codes, points for purchases, grants and the handover of gifts.
-- The ledger has its newest row first. A customer is the row that a member id resolves to; money is
-- in hundredths. `Customer.objects.get` raises where there is no row.
pub mod Ledger
pub mod Gifts
pub mod Draws
mod Examples
use alpha_pos_server.Base.{
  whole_quotient, ℕ, ◌+◌, ◌-◌, ◌*◌, ◌/◌, ◌^◌, Bool, true, false, not, ◌&&◌, ◌||◌, Option, none,
  some, List, [], ◌∷◌, ◌++◌, Table, Text, text, text_eq, is_blank, take_chars, decimal, get, put,
  exists, find_key, ltb, leb, ◌==◌, if◌then◌else◌, Result, err, ok, ◌>>=◌, ◌>>◌, raise_if, or_raise,
}
use alpha_pos_server.Base.Int.{
  ℤ, pos, negsuc, pos_part, ◌+ℤ◌, ◌-ℤ◌, neg, ltb_ℤ, leb_ℤ, max_ℤ, is_zero,
}

pub record Customer : Type 0 where
  pub points : ℤ  -- loyalty_points
  pub is_blocked : Bool

pub data RewardKind : Type 0 where
  free_product discount free_delivery custom : RewardKind

pub record Reward : Type 0 where
  pub name_uz : Text
  pub name_en : Text
  pub kind : RewardKind
  pub points_cost : ℕ
  pub product : Option ℕ
  pub discount_amount : ℤ
  pub is_active : Bool
  pub stock : Option ℤ
  pub per_customer_limit : ℕ

pub data RedemptionStatus : Type 0 where
  issued fulfilled canceled : RedemptionStatus

pub record Redemption : Type 0 where
  pub customer : ℕ
  pub reward : ℕ
  pub code : Text
  pub points_spent : ℕ
  pub reward_name : Text
  pub kind : RewardKind
  pub status : RedemptionStatus
  pub fulfilled_at : Option ℕ
  pub fulfilled_by : Option ℕ

pub data TxnKind : Type 0 where
  earn_order earn_scan spend_order redeem_gift grant_bonus refund_points adjust : TxnKind

pub record Txn : Type 0 where
  pub customer : ℕ
  pub kind : TxnKind
  pub points : ℤ
  pub balance_after : ℤ
  pub reason : Text
  pub bot_order : Option ℕ
  pub reward : Option ℕ
  pub redemption : Option ℕ
  pub staff : Option ℕ
  pub created_at : ℕ

pub record Club : Type 0 where
  pub customers : Table Customer
  pub rewards : Table Reward
  pub redemptions : Table Redemption
  pub txns : List Txn

-- What `record` is told of a change.
pub record Change : Type 0 where
  pub kind : TxnKind
  pub points : ℤ
  pub reason : Text
  pub bot_order : Option ℕ
  pub reward : Option ℕ
  pub redemption : Option ℕ
  pub staff : Option ℕ

pub data ClubRefusal : Type 0 where
  customer_missing gift_not_found gift_misconfigured gift_unavailable not_enough_points :
      ClubRefusal
  out_of_stock limit_reached no_fresh_code : ClubRefusal
  member_not_found member_blocked no_earn_rate invalid_amount amount_not_positive too_small :
      ClubRefusal
  not_a_whole_number zero_points code_not_found : ClubRefusal
  already : RedemptionStatus → ClubRefusal

abbrev pub txn_of : ℕ → ℕ → Change → ℤ → Txn
txn_of now cid ch balance = record {
  customer = cid;
  kind = ch.kind;
  points = ch.points;
  balance_after = balance;
  reason = take_chars 200 ch.reason;
  bot_order = ch.bot_order;
  reward = ch.reward;
  redemption = ch.redemption;
  staff = ch.staff;
  created_at = now;
}

abbrev pub balance_after : Customer → Change → ℤ
balance_after c ch = max_ℤ (pos 0) (c.points +ℤ ch.points)

-- The two writes of `record`.
unfoldable pub write_change : ℕ → ℕ → Customer → Change → Club → Club
write_change now cid c ch db =
    let balance = balance_after c ch in
    record db {
      customers = put cid (record c { points = balance }) db.customers;
      txns = txn_of now cid ch balance ∷ db.txns;
    }

-- `record`: the new state, and the balance.
unfoldable pub record_points : ℕ → ℕ → Change → Club → Result ClubRefusal (Club × ℤ)
record_points now cid ch db = do
  c ← or_raise (get cid db.customers) customer_missing
  ok (write_change now cid c ch db, balance_after c ch)

-- Sold out: a limited stock that is used up.
abbrev pub is_sold_out : Option ℤ → Bool
is_sold_out none = false
is_sold_out (some n) = leb_ℤ n (pos 0)

abbrev pub one_less : Option ℤ → Option ℤ
one_less none = none
one_less (some n) = some (n -ℤ pos 1)

abbrev pub is_free_product : RewardKind → Bool
is_free_product free_product = true
is_free_product _ = false

abbrev pub is_discount : RewardKind → Bool
is_discount discount = true
is_discount _ = false

abbrev pub is_voided : RedemptionStatus → Bool
is_voided canceled = true
is_voided _ = false

abbrev pub is_issued : RedemptionStatus → Bool
is_issued issued = true
is_issued _ = false

abbrev pub counts_for : ℕ → ℕ → Redemption → Bool
counts_for cid rid r = r.customer == cid && r.reward == rid && not (is_voided r.status)

-- The redemptions of a gift by a customer that are not cancelled.
abbrev pub used_by : ℕ → ℕ → Table Redemption → ℕ
used_by cid rid [] = 0
used_by cid rid (e ∷ t) =
    let rest = used_by cid rid t in if counts_for cid rid e.1 then rest + 1 else rest

abbrev pub has_code : Text → Table Redemption → Bool
has_code code = exists (λ k r. text_eq code r.code)

-- The loop that draws until a code is new, over the codes that are drawn.
unfoldable pub fresh_code : List Text → Table Redemption → Option Text
fresh_code [] t = none
fresh_code (code ∷ codes) t =
    let rest = fresh_code codes t in if has_code code t then rest else some code

abbrev pub active_reward : Option Reward → Option Reward
active_reward none = none
active_reward (some r) = if r.is_active then some r else none

abbrev pub reward_label : Reward → Text
reward_label r =
    if is_blank r.name_uz then if is_blank r.name_en then text "Gift" else r.name_en else r.name_uz

-- The checks of the gift itself; `is_visible` is the catalogue's word on its product.
unfoldable pub gift_guards : (Option ℕ → Bool) → Reward → Result ClubRefusal (Unit {0})
gift_guards is_visible r = do
  raise_if (r.points_cost == 0) gift_misconfigured
  raise_if (is_free_product r.kind && not (is_visible r.product)) gift_unavailable
  raise_if (is_discount r.kind && leb_ℤ r.discount_amount (pos 0)) gift_misconfigured

-- The checks against the customer's points, the stock and the limit.
unfoldable pub claim_guards : ℕ → Customer → ℕ → Reward → Club → Result ClubRefusal (Unit {0})
claim_guards cid c rid r db = do
  raise_if (ltb_ℤ c.points (pos r.points_cost)) not_enough_points
  raise_if (is_sold_out r.stock) out_of_stock
  raise_if
      (not (r.per_customer_limit == 0) && leb r.per_customer_limit (used_by cid rid db.redemptions))
      limit_reached

-- The new redemption and the debit; `key` is the key that the database gives the row.
unfoldable pub mint : ℕ → ℕ → ℕ → Customer → ℕ → Reward → Text → Club → Club × Redemption
mint now key cid c rid r code db =
    let row : Redemption = record {
      customer = cid;
      reward = rid;
      code = code;
      points_spent = r.points_cost;
      reward_name = reward_label r;
      kind = r.kind;
      status = issued;
      fulfilled_at = none;
      fulfilled_by = none;
    } in
    let debit : Change = record {
      kind = redeem_gift;
      points = neg (pos r.points_cost);
      reason = text "Redeemed " ++ reward_label r;
      bot_order = none;
      reward = some rid;
      redemption = some key;
      staff = none;
    } in
    let stocked = record db {
      rewards = put rid (record r { stock = one_less r.stock }) db.rewards;
      redemptions = put key row db.redemptions;
    } in
    (write_change now cid c debit stocked, row)

unfoldable pub redeem :
    ℕ → ℕ → (Option ℕ → Bool) → List Text → ℕ → ℕ → Club → Result ClubRefusal (Club × Redemption)
redeem now key is_visible draws cid rid db = do
  r ← or_raise (active_reward (get rid db.rewards)) gift_not_found
  gift_guards is_visible r
  c ← or_raise (get cid db.customers) customer_missing
  claim_guards cid c rid r db
  code ← or_raise (fresh_code draws db.redemptions) no_fresh_code
  ok (mint now key cid c rid r code db)

-- A decimal amount: `digits` / 10 ^ `scale`.
pub record Amount : Type 0 where
  pub digits : ℤ
  pub scale : ℕ

-- `int(amount / per)` for positive ones, with `per` in hundredths.
abbrev pub points_for : Amount → ℕ → ℕ
points_for a per = whole_quotient (pos_part a.digits * 100) (per * 10 ^ a.scale)

abbrev pub scan_reason : Amount → Text → Text
scan_reason a currency =
    text "In-store purchase " ++ decimal (pos_part a.digits / 10 ^ a.scale) ++ text " " ++ currency

-- `earn_per` and `currency` are the shop's configuration; an amount that does not parse is `none`.
unfoldable pub award_scan :
    ℕ → ℤ → Text → Option ℕ → Option Amount → Option ℕ → Club → Result ClubRefusal (Club × ℕ)
award_scan now earn_per currency member amount staff db = do
  cid ← or_raise member member_not_found
  c ← or_raise (get cid db.customers) member_not_found
  raise_if c.is_blocked member_blocked
  raise_if (leb_ℤ earn_per (pos 0)) no_earn_rate
  a ← or_raise amount invalid_amount
  raise_if (leb_ℤ a.digits (pos 0)) amount_not_positive
  let pts = points_for a (pos_part earn_per)
  raise_if (pts == 0) too_small
  let credit : Change = record {
    kind = earn_scan;
    points = pos pts;
    reason = scan_reason a currency;
    bot_order = none;
    reward = none;
    redemption = none;
    staff = staff;
  }
  ok (write_change now cid c credit db, pts)

abbrev pub grant_kind : ℤ → TxnKind
grant_kind n = if ltb_ℤ (pos 0) n then grant_bonus else adjust

unfoldable pub grant :
    ℕ → Option ℕ → Option ℤ → Text → Option ℕ → Club → Result ClubRefusal (Club × ℤ)
grant now member points reason staff db = do
  cid ← or_raise member member_not_found
  pts ← or_raise points not_a_whole_number
  raise_if (is_zero pts) zero_points
  let change : Change = record {
    kind = grant_kind pts;
    points = pts;
    reason = if is_blank reason then text "Manual grant" else reason;
    bot_order = none;
    reward = none;
    redemption = none;
    staff = staff;
  }
  record_points now cid change db

abbrev pub with_key : ℕ → Option Redemption → Option (ℕ × Redemption)
with_key k none = none
with_key k (some r) = some (k, r)

abbrev pub redemption_at : Option ℕ → Table Redemption → Option (ℕ × Redemption)
redemption_at none t = none
redemption_at (some k) t = with_key k (get k t)

-- `code` is in its stripped upper-case form.
unfoldable pub fulfill : ℕ → Text → Option ℕ → Club → Result ClubRefusal (Club × Redemption)
fulfill now code staff db = do
  e ←
      or_raise (redemption_at (find_key (λ r. text_eq r.code code) db.redemptions) db.redemptions)
        code_not_found
  raise_if (not (is_issued e.1.status)) (already e.1.status)
  let r = record e.1 { status = fulfilled; fulfilled_at = some now; fulfilled_by = staff }
  ok (record db { redemptions = put e.0 r db.redemptions }, r)
