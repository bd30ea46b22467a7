-- ===== src/Smartfood/Cart/Examples.antt =====
-- A cart of one line with two toppings, and the theorems on it.
use alpha_pos_server.Base.{
  is_ok, if◌then◌else◌, none, ◌≤◌, ◌≡◌, refl, true, false, some, [], ◌∷◌, ok, arith,
}
use alpha_pos_server.Base.Int.{pos, ◌+ℤ◌, ◌-ℤ◌, ◌≤ℤ◌, min_ℤ}
use alpha_pos_server.Smartfood.Cart.{
  ToppingGroup, Catalog, Item, Line, Config, delivery, Priced, group_rule, group_rules, priced_line,
  priced_lines, sum_lines, totals, price_cart, max_pos_total,
}
use alpha_pos_server.Smartfood.Cart.PriceList.{is_offered, list_price}
use alpha_pos_server.Smartfood.Cart.Lines.{total_of, priced_line-is_offered}
use alpha_pos_server.Smartfood.Cart.Totals.{price_cart-totals}

abbrev sauces : ToppingGroup
sauces = record { product = 1; is_required = true; min_select = 0; max_select = 2 }

abbrev catalog : Catalog
catalog = record {
  products =
      (
        1,
        record {
          is_published = true;
          is_category_published = true;
          is_category_selling = true;
          is_deleted = false;
          is_selling = true;
          price = pos 2500000;
        },
      )
      ∷ [];
  sizes = (2, record { product = 1; is_selling = true; price_delta = pos 500000 }) ∷ [];
  groups = (3, sauces) ∷ [];
  toppings =
      (7, record { group = 3; product = 1; is_selling = true; price = pos 100000 })
      ∷ (8, record { group = 3; product = 1; is_selling = true; price = pos 0 })
      ∷ [];
}

abbrev item : Item
item = record { product = 1; quantity = 2; size = some 2; toppings = 7 ∷ 8 ∷ [] }

abbrev line : Line
line = record {
  product = 1;
  size = some 2;
  quantity = 2;
  unit_price = pos 3100000;
  line_total = pos 6200000;
}

-- What a run computes with.
cart_run : Catalog → Catalog
unfolding group_rule group_rules priced_line priced_lines totals price_cart min_ℤ ◌+ℤ◌ ◌-ℤ◌
cart_run c = c

prices : priced_line catalog item ≡ ok line
unfolding cart_run
prices = refl

priced_line-is_offered_example :
    (is_ok (priced_line catalog item) ≡ is_offered catalog item)
    × (total_of (priced_line catalog item)
        ≡ (if is_offered catalog item then some (list_price catalog item) else none))
priced_line-is_offered_example = priced_line-is_offered catalog item

offers : is_offered catalog item ≡ true
offers = refl

-- Ten points are worth 500.00 each, and one is earned per 10000.00.
abbrev config : Config
config = record {
  min_order_amount = pos 1000000;
  free_delivery_threshold = pos 10000000;
  delivery_fee = pos 1200000;
  loyalty_point_value = pos 50000;
  loyalty_earn_per = pos 1000000;
}

abbrev priced : Priced
priced = record {
  lines = line ∷ [];
  subtotal = pos 6200000;
  delivery_fee = pos 1200000;
  free_delivery_applied = false;
  discount = pos 400000;
  tip = pos 300000;
  total = pos 7300000;
  points_used = 8;
  points_earned = pos 6;
}

priced_cart :
    price_cart catalog config (item ∷ []) delivery 10 (pos 300000) (some (pos 8)) ≡ ok priced
unfolding cart_run
priced_cart = refl

price_cart-totals_example :
    (priced.subtotal ≡ sum_lines priced.lines)
    × (priced_lines catalog (item ∷ []) ≡ ok priced.lines)
    × (priced.total ≡ priced.subtotal +ℤ priced.delivery_fee +ℤ priced.tip -ℤ priced.discount)
    × (priced.discount ≤ℤ priced.subtotal)
    × (priced.delivery_fee +ℤ priced.tip ≤ℤ priced.total)
    × (priced.total ≤ℤ max_pos_total)
    × (priced.points_used ≤ 10)
    × (pos priced.points_used ≤ℤ pos 8)
price_cart-totals_example =
    price_cart-totals catalog config (item ∷ []) delivery 10 (pos 300000) (pos 8) priced priced_cart
      (omega arith) (omega arith) (omega arith) (omega arith)
