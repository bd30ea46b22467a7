-- ===== src/Smartfood/Handling/Refunds.antt =====
-- The points of an order that is made and then canceled (smartfood/services/order_service.py,
-- smartfood/services/loyalty_settlement_service.py).
use mathlib.Core.Path.{subst}
use alpha_pos_server.Base.{
  zero, suc, ℕ, ◌≤◌, ◌≡◌, refl, sym, ap, ◌∙◌, Bool, true, false, not, ◌&&◌, none, some, List, ◌∷◌,
  get, get-put_self, get_or, ◌==◌, min, if◌then◌else◌, arith, Result, ok, ◌>>=◌, ok-injective,
  Bool-cases, inl, inr,
}
use alpha_pos_server.Base.Int.{
  ℤ, pos, pos_part, ◌+ℤ◌, ◌≤ℤ◌, neg, max_ℤ, ltb_ℤ, is_zero, int_laws, negsuc,
}
use alpha_pos_server.Smartfood.Loyalty.{
  Club, Customer, Txn, ClubRefusal, record_points, write_change, txn_of,
}
use alpha_pos_server.Smartfood.PointSettlement.{
  canceled, BotOrder, Shop, Work, PointEffect, earn, restore, reversal, first_event, mark_restored,
  mark_reversed, owes_reversal, restore_change, restore_spend, take_back, reverse_earn,
  apply_outcome, save_work, reconcile_row, reconcile_bot_order_loyalty,
}
use alpha_pos_server.Smartfood.PointSettlement.Steps.{adopt_nothing}
use alpha_pos_server.Smartfood.Cart.{Config, usable, Priced}
use alpha_pos_server.Smartfood.Checkout.{spend_change, reserve, new_order}

-- The ledger has no row of this order yet.
abbrev pub Unused : ℕ → List Txn → Type 0
Unused id txns = (e : PointEffect) → first_event e id txns ≡ none

spend_is_none :
    (now cid id points : ℕ) (balance : ℤ) (txns : List Txn)
    → Unused id txns
    → Unused id (txn_of now cid (spend_change id points) balance ∷ txns)
unfolding first_event
spend_is_none now cid id points balance txns unused earn = unused earn
spend_is_none now cid id points balance txns unused restore = unused restore
spend_is_none now cid id points balance txns unused reversal = unused reversal

-- The balance after points are reserved.
abbrev pub reserved : ℕ → ℤ → ℤ
reserved n b = if n == 0 then b else max_ℤ (pos 0) (b +ℤ neg (pos n))

pub reserve-takes :
    (now cid id n : ℕ) (club club' : Club) (c : Customer)
    → get cid club.customers ≡ some c
    → reserve now cid id n club ≡ ok club'
    → Unused id club.txns
    → (get cid club'.customers ≡ some (record c { points = reserved n c.points }))
      × Unused id club'.txns
unfolding reserve record_points write_change
reserve-takes now cid id n club club' c here h unused = by_points (n == 0) refl h
  where
    by_points :
        (b : Bool)
        → (n == 0) ≡ b
        → (if b then ok club else (record_points now cid (spend_change id n) club >>= λ r. ok r.0))
          ≡ ok club'
        → (get cid club'.customers ≡ some (record c { points = reserved n c.points }))
          × Unused id club'.txns
    by_points true e k = (
      ap (λ x. get cid x.customers) (sym (ok-injective k)) ∙ here ∙ rw e refl,
      subst (λ x. Unused id x.txns) (ok-injective k) unused,
    )
    by_points false e k =
        let ch = spend_change id n in
        let posted : (record_points now cid ch club >>= λ r. ok r.0)
            ≡ (let x : Result ClubRefusal Club = ok (write_change now cid c ch club) in x) =
          rw here refl in
        let e' = ok-injective (sym posted ∙ k) in
        (
          subst (λ x. get cid x.customers ≡ some (record c { points = reserved n c.points })) e'
              (get-put_self cid _ club.customers ∙ rw e refl),
          subst (λ x. Unused id x.txns) e' (spend_is_none now cid id n _ club.txns unused),
        )

-- The row of a canceled order that nothing was settled for.
abbrev pub canceled_order : ℕ → Priced → BotOrder
canceled_order cid priced = record (new_order cid priced) { status = canceled }

-- The balance after reserved points come back.
abbrev pub returned : ℕ → ℤ → ℤ
returned n b = if ltb_ℤ (pos 0) (pos n) && true then max_ℤ (pos 0) (b +ℤ pos n) else b

reverse_keeps :
    (now id : ℕ) (w : Work)
    → w.row.earned_settled_at ≡ none
    → (end : Work) × (reverse_earn now id w ≡ ok end) × (end.club ≡ w.club)
unfolding reverse_earn
reverse_keeps now id w open_earn = by_owed (owes_reversal w.row)
  where
    by_owed :
        (b : Bool)
        → (end : Work) × ((if b then take_back now id w else ok w) ≡ ok end) × (end.club ≡ w.club)
    by_owed true = (mark_reversed now w.club w, rw open_earn refl, refl)
    by_owed false = (w, refl, refl)

restore_gives :
    (now cid id : ℕ) (priced : Priced) (club : Club) (c : Customer)
    → get cid club.customers ≡ some c
    → let w : Work = record { club = club; row = canceled_order cid priced; changed = false } in
      (end : Work) × (restore_spend now id w ≡ ok end)
      × (end.row.earned_settled_at ≡ none)
      × (get cid end.club.customers
          ≡ some (record c { points = returned priced.points_used c.points }))
unfolding restore_spend record_points write_change
restore_gives now cid id priced club c here =
    by_owed (ltb_ℤ (pos 0) (pos priced.points_used) && true) refl
  where
    w : Work
    w = record { club = club; row = canceled_order cid priced; changed = false }

    paid_back : Club
    paid_back = write_change now cid c (restore_change id (canceled_order cid priced)) club

    by_owed :
        (b : Bool)
        → ltb_ℤ (pos 0) (pos priced.points_used) && true ≡ b
        → (end : Work) × ((if b
              then (record_points now cid (restore_change id (canceled_order cid priced)) club
                  >>= λ r. ok (mark_restored now r.0 w))
              else ok w)
            ≡ ok end)
          × (end.row.earned_settled_at ≡ none)
          × (get cid end.club.customers
              ≡ some (record c {
                points = if b then max_ℤ (pos 0) (c.points +ℤ pos priced.points_used) else c.points;
              }))
    by_owed true e =
        (mark_restored now paid_back w, rw here refl, refl, get-put_self cid _ club.customers)
    by_owed false e = (w, refl, refl, here)

-- The settlement of a canceled order that has settled nothing.
pub canceled-returns :
    (now : ℕ) (has_issues : ℕ → Bool) (cid id : ℕ) (priced : Priced) (shop : Shop) (c : Customer)
    → get id shop.bot_orders ≡ some (canceled_order cid priced)
    → get cid shop.club.customers ≡ some c
    → Unused id shop.club.txns
    → (r : Shop × Bool) × (reconcile_bot_order_loyalty now has_issues id shop ≡ ok r)
      × (get cid r.0.club.customers
          ≡ some (record c { points = returned priced.points_used c.points }))
unfolding reconcile_bot_order_loyalty reconcile_row apply_outcome
canceled-returns now has_issues cid id priced shop c row here unused =
    let o = canceled_order cid priced in
    let (mid, restored, unsettled, gives) = restore_gives now cid id priced shop.club c here in
    let (end, reversed, same) = reverse_keeps now id mid unsettled in
    let adopted = adopt_nothing id shop.club o (unused earn, unused restore, unused reversal) in
    (
      save_work id shop end,
      rw (row, adopted, restored, reversed) refl,
      ap (λ x. get cid x.customers) same ∙ gives,
    )

some_used : (n : ℕ) → (n == 0) ≡ false → ltb_ℤ (pos 0) (pos n) ≡ true
some_used n h = ground arith

none_used : (n : ℕ) → (n == 0) ≡ true → ltb_ℤ (pos 0) (pos n) ≡ false
none_used n h = ground arith

max_zero : (a : ℤ) → pos 0 ≤ℤ a → max_ℤ (pos 0) a ≡ a
unfolding max_ℤ
max_zero (pos zero) h = refl
max_zero (pos (suc n)) h = ground arith
max_zero (negsuc n) h = ground arith

left_over : (n m : ℕ) → n ≤ m → pos 0 ≤ℤ pos m +ℤ neg (pos n)
left_over n m h = omega int_laws

refilled : (n m : ℕ) → pos m +ℤ neg (pos n) +ℤ pos n ≡ pos m
refilled n m = omega int_laws

there_and_back :
    (n : ℕ) (b : ℤ)
    → n ≤ pos_part b
    → (n == 0) ≡ false
    → max_ℤ (pos 0) (max_ℤ (pos 0) (b +ℤ neg (pos n)) +ℤ pos n) ≡ b
there_and_back n (pos m) h some_points =
    ap (λ x. max_ℤ (pos 0) (x +ℤ pos n)) (max_zero _ (left_over n m h))
    ∙ ap (max_ℤ (pos 0)) (refilled n m)
    ∙ max_zero (pos m) (omega arith)
there_and_back n (negsuc m) h some_points = ground arith

pub returned-reserved : (n : ℕ) (b : ℤ) → n ≤ pos_part b → returned n (reserved n b) ≡ b
returned-reserved n b h = elim (Bool-cases (n == 0)) [
  | inl e ↦ rw (e, none_used n e) refl
  | inr e ↦ rw (e, some_used n e) (there_and_back n b h e)
]

pub usable-within :
    (cfg : Config) (points : ℕ) (b : ℤ) → get_or (usable cfg points (some b)) 0 ≤ pos_part b
usable-within cfg points b = by_test (not (points == 0) && not (is_zero cfg.loyalty_point_value))
  where
    by_test :
        (t : Bool) → get_or (if t then some (min points (pos_part b)) else none) 0 ≤ pos_part b
    by_test true = omega arith
    by_test false = omega arith
