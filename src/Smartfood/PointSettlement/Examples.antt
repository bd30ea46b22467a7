-- ===== src/Smartfood/PointSettlement/Examples.antt =====
-- An order whose points are released and then taken back, and the theorems on it.
use alpha_pos_server.Base.{
  ℕ, ◌≡◌, ◌≤◌, refl, Bool, true, false, none, some, [], ◌∷◌, decimal, ok, arith,
}
use alpha_pos_server.Base.Int.{pos, ◌+ℤ◌, neg, max_ℤ}
use alpha_pos_server.Smartfood.Loyalty.{Customer, Club, record_points, write_change}
use alpha_pos_server.Smartfood.PointSettlement.{
  BotOrder, dispatched, PosOrder, pos_completed, pos_canceled, Shop, earn, first_event, adopt,
  restore_spend, reverse_earn, release_earn, has_authoritative_settlement, apply_outcome,
  reconcile_row, reconcile_bot_order_loyalty, earn_change, restore_change, reversal_change,
}
use alpha_pos_server.Smartfood.PointSettlement.Once.{reconcile_twice}
use alpha_pos_server.Smartfood.PointSettlement.Effects.{
  times, start_here, then_settle, reconciled, elsewhere, effects_at_most_once,
}

abbrev buyer : Customer
buyer = record { points = pos 5; is_blocked = false }

-- 20 points were spent on the order, and it earns 30.
abbrev order : BotOrder
order = record {
  customer = 1;
  status = dispatched;
  pos_order = some 8;
  points_used = pos 20;
  points_earned = pos 30;
  earned_settled_at = none;
  spend_restored_at = none;
  earn_reversed_at = none;
}

abbrev paid_order : PosOrder
paid_order = record {
  is_deleted = false;
  status = pos_completed;
  is_paid = true;
  paid_at = some 90;
}

abbrev club : Club
club = record { customers = (1, buyer) ∷ []; rewards = []; redemptions = []; txns = [] }

abbrev shop : Shop
shop = record { club = club; bot_orders = (4, order) ∷ []; pos_orders = (8, paid_order) ∷ [] }

abbrev no_issues : ℕ → Bool
no_issues key = false

abbrev released : Shop
released = record shop {
  club = write_change 100 1 buyer (earn_change 4 order) club;
  bot_orders = (4, record order { earned_settled_at = some 100 }) ∷ [];
}

-- What a run computes with.
settlement_run : Shop → Shop
unfolding record_points write_change first_event adopt restore_spend reverse_earn release_earn
    has_authoritative_settlement apply_outcome reconcile_row reconcile_bot_order_loyalty max_ℤ neg
    ◌+ℤ◌ decimal
settlement_run s = s

releases : reconcile_bot_order_loyalty 100 no_issues 4 shop ≡ ok (released, true)
unfolding settlement_run
releases = refl

reconcile_twice_example :
    reconcile_bot_order_loyalty 170 no_issues 4 released ≡ ok (released, false)
reconcile_twice_example = reconcile_twice 100 170 no_issues 4 shop released true releases

abbrev called_off : Shop
called_off = record released { pos_orders = (8, record paid_order { status = pos_canceled }) ∷ [] }

-- 35 points, then 55 with the restored ones, then 25.
abbrev returned : Shop
returned = record called_off {
  club =
      write_change 200 1 (record buyer { points = pos 55 }) (reversal_change 4 order)
        (write_change 200 1 (record buyer { points = pos 35 }) (restore_change 4 order)
          called_off.club);
  bot_orders =
      (
        4,
        record order {
          earned_settled_at = some 100;
          spend_restored_at = some 200;
          earn_reversed_at = some 200;
        },
      )
      ∷ [];
}

returns : reconcile_bot_order_loyalty 200 no_issues 4 called_off ≡ ok (returned, true)
unfolding settlement_run
returns = refl

effects_at_most_once_example : times earn 4 returned.club.txns ≤ 1
effects_at_most_once_example =
    effects_at_most_once earn 4
      (then_settle
        (then_settle (then_settle start_here (reconciled 100 no_issues 4 releases))
          (elsewhere {shop = released} {shop' = called_off} refl))
        (reconciled 200 no_issues 4 returns))
      (omega arith)
