-- ===== src/Smartfood/Loyalty/Examples.antt =====
-- A member of the club with a gift to redeem, and the theorems on them.
use alpha_pos_server.Base.{
  half_even, places, whole_quotient, arith, ℕ, ◌≡◌, refl, true, false, Option, none, some, [], ◌∷◌,
  text, if◌then◌else◌, get, put, Bool, ok, err, decimal, ◌*◌, ◌+◌, ◌^◌, ◌≤◌, ◌<◌, is_ok,
}
use alpha_pos_server.Base.Int.{pos, ◌+ℤ◌, ◌-ℤ◌, neg, max_ℤ, pos_part}
use alpha_pos_server.Smartfood.Loyalty.{
  points_for, Customer, custom, earn_scan, Reward, Redemption, issued, fulfilled, already, Club,
  write_change, record_points, fresh_code, gift_guards, claim_guards, mint, redeem, award_scan,
  grant, fulfill, Amount, is_issued,
}
use alpha_pos_server.Smartfood.Loyalty.Ledger.{
  Lockstep, opening_of, empty-Lockstep, here, then_call, redeemed, scanned, handed_over,
  LoyaltyReach-Lockstep,
}
use alpha_pos_server.Smartfood.Loyalty.Draws.{redeem_succeeds, is_redeemable, points_after}
use alpha_pos_server.Smartfood.Loyalty.Gifts.{
  Exact, redeem-Exact, fulfill_once, award_scan-whole_points,
}

abbrev member : Customer
member = record { points = pos 50; is_blocked = false }

-- Two mugs are left.
abbrev mug : Reward
mug = record {
  name_uz = [];
  name_en = text "Mug";
  kind = custom;
  points_cost = 40;
  product = none;
  discount_amount = pos 0;
  is_active = true;
  stock = some (pos 2);
  per_customer_limit = 1;
}

abbrev opened : Club
opened = record {
  customers = (1, member) ∷ [];
  rewards = (5, mug) ∷ [];
  redemptions = [];
  txns = [];
}

abbrev gift : Redemption
gift = record {
  customer = 1;
  reward = 5;
  code = text "GIFT-A";
  points_spent = 40;
  reward_name = text "Mug";
  kind = custom;
  status = issued;
  fulfilled_at = none;
  fulfilled_by = none;
}

-- What a run computes with.
club_run : Club → Club
unfolding half_even places whole_quotient record_points write_change fresh_code gift_guards
    claim_guards mint redeem award_scan grant fulfill max_ℤ neg ◌+ℤ◌ ◌-ℤ◌ decimal
club_run db = db

abbrev after_redeem : Club
after_redeem = (mint 100 9 1 member 5 mug (text "GIFT-A") opened).0

abbrev anything : Option ℕ → Bool
anything product = true

redeems : redeem 100 9 anything (text "GIFT-A" ∷ []) 1 5 opened ≡ ok (after_redeem, gift)
unfolding club_run
redeems = refl

redeem-Exact_example :
    (r : Reward) × (c : Customer) × (get 5 opened.rewards ≡ some r)
    × (r.is_active ≡ true)
    × (get 1 opened.customers ≡ some c)
    × Exact 9 1 5 opened after_redeem gift r c
redeem-Exact_example =
    redeem-Exact 100 9 anything (text "GIFT-A" ∷ []) 1 5 opened after_redeem gift refl redeems

abbrev handed : Redemption
handed = record gift { status = fulfilled; fulfilled_at = some 200; fulfilled_by = some 7 }

abbrev after_handover : Club
after_handover = record after_redeem { redemptions = (9, handed) ∷ [] }

hands_over : fulfill 200 (text "GIFT-A") (some 7) after_redeem ≡ ok (after_handover, handed)
unfolding club_run
hands_over = refl

fulfill_once_example :
    (k : ℕ) × (old : Redemption) × (get k after_redeem.redemptions ≡ some old)
    × (is_issued old.status ≡ true)
    × (handed ≡ record old { status = fulfilled; fulfilled_at = some 200; fulfilled_by = some 7 })
    × (after_handover ≡ record after_redeem { redemptions = put k handed after_redeem.redemptions })
    × (fulfill 300 (text "GIFT-A") none after_handover ≡ err (already fulfilled))
fulfill_once_example =
    fulfill_once 200 300 (text "GIFT-A") (some 7) none after_redeem after_handover handed hands_over

-- 2599.90 at one point per 1000.00.
abbrev bill : Amount
bill = record { digits = pos 259990; scale = 2 }

abbrev after_scan : Club
after_scan =
    write_change 300 1 (record member { points = pos 10 })
      (record {
        kind = earn_scan;
        points = pos 2;
        reason = text "In-store purchase 2599 UZS";
        bot_order = none;
        reward = none;
        redemption = none;
        staff = some 7;
      })
      after_handover

scans :
    award_scan 300 (pos 100000) (text "UZS") (some 1) (some bill) (some 7) after_handover
    ≡ ok (after_scan, 2)
unfolding club_run
scans = refl

-- An amount that is below 3 by less than 28 digits hold earns 3 points at the rate 1.
rounds_up : points_for (record { digits = pos 299999999999999999999999999999; scale = 29 }) 100 ≡ 3
unfolding club_run
rounds_up = refl

award_scan-whole_points_example :
    (cid : ℕ) × (c : Customer) × (some 1 ≡ some cid)
    × (get cid after_handover.customers ≡ some c)
    × (c.is_blocked ≡ false)
    × (0 < 2)
    × (2 * (pos_part (pos 100000) * 10 ^ bill.scale) ≤ pos_part bill.digits * 100)
    × (pos_part bill.digits * 100 < (2 + 1) * (pos_part (pos 100000) * 10 ^ bill.scale))
    × (get cid after_scan.customers
        ≡ some (record c { points = max_ℤ (pos 0) (c.points +ℤ pos 2) }))
award_scan-whole_points_example =
    award_scan-whole_points 300 (pos 100000) (text "UZS") (some 1) bill (some 7) after_handover
      after_scan 2 scans (omega arith)

LoyaltyReach-Lockstep_example : Lockstep (opening_of opened) after_scan
LoyaltyReach-Lockstep_example =
    LoyaltyReach-Lockstep (opening_of opened)
      (then_call
        (then_call (then_call here (redeemed 100 9 anything (text "GIFT-A" ∷ []) 1 5 redeems))
          (handed_over 200 (text "GIFT-A") (some 7) hands_over))
        (scanned 300 (pos 100000) (text "UZS") (some 1) (some bill) (some 7) scans))
      (empty-Lockstep opened refl)

-- The first code that is drawn is taken.
abbrev second_member : Customer
second_member = record { points = pos 90; is_blocked = false }

abbrev joined : Club
joined = record after_redeem { customers = (2, second_member) ∷ [] }

redeem_succeeds_example :
    let result = redeem 400 10 anything (text "GIFT-A" ∷ text "GIFT-B" ∷ []) 2 5 joined in
    let may =
      is_redeemable anything 2 second_member 5 (record mug { stock = some (pos 1) }) joined in
    (is_ok result ≡ may)
    × (points_after 2 joined result ≡ (
        if may
        then some (second_member.points -ℤ pos mug.points_cost)
        else some second_member.points))
unfolding club_run
redeem_succeeds_example =
    redeem_succeeds 400 10 anything (text "GIFT-A" ∷ text "GIFT-B" ∷ []) 2 5 joined
      (record mug { stock = some (pos 1) }) second_member refl refl refl refl

may_redeem :
    is_redeemable anything 2 second_member 5 (record mug { stock = some (pos 1) }) joined ≡ true
unfolding mint write_change
may_redeem = refl
