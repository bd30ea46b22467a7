-- ===== src/Smartfood/Handling/Examples.antt =====
-- An order that uses points, its retry and its cancellation.
use alpha_pos_server.Base.{
  ◌≡◌, refl, get, true, false, none, some, [], ◌∷◌, Text, text, strip, decimal, take_chars, ok,
}
use alpha_pos_server.Base.Int.{pos, ◌+ℤ◌, ◌-ℤ◌, neg, max_ℤ, min_ℤ}
use alpha_pos_server.Smartfood.Loyalty.{record_points, write_change}
use alpha_pos_server.Smartfood.PointSettlement.{
  earn, restore, reversal, BotOrder, pending, canceled, first_event, adopt, restore_spend,
  reverse_earn, release_earn, has_authoritative_settlement, apply_outcome, reconcile_row,
  reconcile_bot_order_loyalty,
}
use alpha_pos_server.Smartfood.Cart.{
  pickup, Catalog, Config, group_rule, group_rules, priced_line, priced_lines, totals, price_cart,
}
use alpha_pos_server.Smartfood.OrderInput.{
  by_cash, Scalar, null, int_value, text_value, absent, item_list, no_tip, integer_in, optional_id,
  topping_ids, normalize_toppings, normalize_item, normalize_list, normalize_cart_items,
  normalize_points, normalize_address_id, normalize_tip, normalize_note, normalize_order_type,
  normalize_payment_method,
}
use alpha_pos_server.Smartfood.Checkout.Repeats.{create_order_twice}
use alpha_pos_server.Smartfood.Handling.Board.{board_of}
use alpha_pos_server.Smartfood.Handling.Runs.{
  BoardReach, here, then_call, creates, DeskReach-refines, Refused, decided_order_is_final,
}
use alpha_pos_server.Smartfood.Desk.{
  Slip, on_placed, Desk, queue_order_status, notify_customer, is_profile_complete,
}
use alpha_pos_server.Smartfood.Checkout.{
  spend_change, Payload, Store, normalize_payload, check_phone, repeated, place_of, reserve,
  first_request, create_order,
}
use alpha_pos_server.Smartfood.Handling.Refunds.{Unused}
use alpha_pos_server.Smartfood.Handling.Undo.{checkout_then_cancel}
use alpha_pos_server.Smartfood.Handling.{
  Clock, settle_points, cancel_order, reject_order, stock_passes, has_identity, dispatch_order,
  auto_dispatch,
}

abbrev catalog : Catalog
catalog = record {
  products =
      (
        1,
        record {
          is_published = true;
          is_category_published = true;
          is_category_selling = true;
          is_deleted = false;
          is_selling = true;
          price = pos 10000;
        },
      )
      ∷ [];
  sizes = [];
  groups = [];
  toppings = [];
}

abbrev config : Config
config = record {
  min_order_amount = pos 0;
  free_delivery_threshold = pos 0;
  delivery_fee = pos 0;
  loyalty_point_value = pos 1000;
  loyalty_earn_per = pos 10000;
}

abbrev store : Store
store = record {
  max_item_quantity = pos 100;
  auto_dispatch = true;
  catalog = catalog;
  config = config;
  is_open = true;
  has_cashier = true;
  normalize_phone = λ v. phone_text v;
  is_canonical = λ s. true;
  fingerprint = λ items. λ kind. λ address. λ phone. λ note. λ tip. λ points. λ pay. note;
}
  where
    phone_text : Scalar → Text
    phone_text (text_value s) = s
    phone_text _ = []

abbrev desk : Desk
desk = record {
  shop = record {
    club = record {
      customers = (5, record { points = pos 7; is_blocked = false }) ∷ [];
      rewards = [];
      redemptions = [];
      txns = [];
    };
    bot_orders = [];
    pos_orders = [];
  };
  slips = [];
  members =
      (
        5,
        record {
          first_name = text "A";
          last_name = text "B";
          phone = text "+998900000000";
          confirmed_at = some 1;
        },
      )
      ∷ [];
  addresses = [];
  till_orders = [];
  jobs = [];
  messages = [];
  pushes = [];
}

abbrev payload : Payload
payload = record {
  client_order_id = some 77;
  items = item_list (
      some (record { product = int_value (pos 1); quantity = none; size = null; toppings = absent })
      ∷ []);
  order_type = text_value (text "pickup");
  address_id = null;
  phone = null;
  note = null;
  tip = no_tip;
  points_used = int_value (pos 2);
  payment_method = text_value (text "CASH");
}

-- What a run computes with.
desk_run : Desk → Desk
unfolding strip decimal take_chars ◌+ℤ◌ ◌-ℤ◌ neg max_ℤ min_ℤ record_points write_change first_event
    adopt restore_spend reverse_earn release_earn has_authoritative_settlement apply_outcome
    reconcile_row reconcile_bot_order_loyalty group_rule group_rules priced_line priced_lines totals
    price_cart integer_in optional_id topping_ids normalize_toppings normalize_item normalize_list
    normalize_cart_items normalize_points normalize_address_id normalize_tip normalize_note
    normalize_order_type normalize_payment_method queue_order_status notify_customer
    is_profile_complete normalize_payload check_phone repeated place_of reserve first_request
    create_order settle_points cancel_order reject_order stock_passes has_identity dispatch_order
    auto_dispatch
desk_run d = d

abbrev order : BotOrder
order = record {
  customer = 5;
  status = pending;
  pos_order = none;
  points_used = pos 2;
  points_earned = pos 1;
  earned_settled_at = none;
  spend_restored_at = none;
  earn_reversed_at = none;
}

abbrev slip : Slip
slip = record {
  owner = 5;
  client_order_id = some 77;
  fingerprint = [];
  order_type = pickup;
  address = none;
  address_text = [];
  lat = none;
  lng = none;
  phone = text "+998900000000";
  note = [];
  subtotal = pos 10000;
  delivery_fee = pos 0;
  discount = pos 2000;
  tip = pos 0;
  total = pos 8000;
  payment = by_cash;
  lines =
      record {
        product = 1;
        size = none;
        quantity = 1;
        unit_price = pos 10000;
        line_total = pos 10000;
      }
      ∷ [];
  cashier = none;
  handled_by = none;
  dispatched_at = none;
  reject_reason = [];
}

-- Two of the seven points are spent.
abbrev with_order : BotOrder → Desk
with_order o = record desk {
  shop = record {
    club =
        write_change 100 5 (record { points = pos 7; is_blocked = false }) (spend_change 3 2)
          desk.shop.club;
    bot_orders = (3, o) ∷ [];
    pos_orders = [];
  };
  slips = (3, slip) ∷ [];
  jobs = 3 ∷ [];
  messages = record { order = 3; event = on_placed } ∷ [];
}

makes : create_order store 100 3 5 payload desk ≡ ok (3, with_order order)
unfolding desk_run
makes = refl

create_order_twice_example :
    create_order store 200 4 5 payload (with_order order) ≡ ok (3, with_order order)
create_order_twice_example =
    create_order_twice store 100 200 3 4 5 payload desk (with_order order) 3 makes

DeskReach-refines_example : BoardReach (board_of desk) (board_of (with_order order))
DeskReach-refines_example =
    DeskReach-refines (then_call here (creates store 100 3 5 payload 3 makes refl))

abbrev called_off : Desk
called_off = with_order (record order { status = canceled })

-- A retry after the cancellation finds the canceled order.
finds : create_order store 200 4 5 payload called_off ≡ ok (3, called_off)
unfolding desk_run
finds = refl

decided_order_is_final_example :
    (board_of called_off 3 ≡ some canceled) × Refused 3 canceled called_off
decided_order_is_final_example =
    decided_order_is_final called_off called_off 3 canceled
      (then_call here (creates store 200 4 5 payload 3 finds refl)) refl refl

abbrev clock : Clock
clock = record { now = 200; has_tender_issues = λ k. true }

no_rows : Unused 3 desk.shop.club.txns
unfolding first_event
no_rows earn = refl
no_rows restore = refl
no_rows reversal = refl

checkout_then_cancel_example :
    (end : Desk) × (cancel_order clock 5 3 (with_order order) ≡ ok end)
    × (get 5 end.shop.club.customers ≡ some (record { points = pos 7; is_blocked = false }))
checkout_then_cancel_example =
    checkout_then_cancel store clock 100 3 5 payload desk (with_order order) _ makes refl refl
      no_rows
