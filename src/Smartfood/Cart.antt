-- ===== src/Smartfood/Cart.antt =====
-- The price of a cart (smartfood/services/cart_service.py): lines priced from the live catalogue,
-- the rules of topping groups, and the totals of the order.
-- Money is in hundredths, so rounding to a hundredth changes nothing. The items, points and tip are
-- those that the order's input checks return: quantities and points are numbers.
pub mod Totals
pub mod PriceList
pub mod Lines
mod Examples
use alpha_pos_server.Base.{
  ℕ, ◌+◌, ◌*◌, ◌/◌, Bool, true, false, not, ◌&&◌, ◌||◌, Option, none, some, List, [], ◌∷◌, Table,
  get, get_or, every, is_key, ltb, leb, ◌==◌, min, max, if◌then◌else◌, Result, err, ok, ◌>>=◌, ◌>>◌,
  raise_if, or_raise,
}
use alpha_pos_server.Base.Int.{
  ℤ, pos, pos_part, neg_part, sub_ℕ, ◌+ℤ◌, ◌-ℤ◌, ltb_ℤ, leb_ℤ, min_ℤ, is_zero,
}

pub record BotProduct : Type 0 where
  pub is_published : Bool
  pub is_category_published : Bool
  pub is_category_selling : Bool
  pub is_deleted : Bool
  pub is_selling : Bool
  pub price : ℤ

pub record Size : Type 0 where
  pub product : ℕ
  pub is_selling : Bool
  pub price_delta : ℤ

pub record ToppingGroup : Type 0 where
  pub product : ℕ
  pub is_required : Bool
  pub min_select : ℕ
  pub max_select : ℕ

-- A topping, with the product of its group.
pub record Topping : Type 0 where
  pub group : ℕ
  pub product : ℕ
  pub is_selling : Bool
  pub price : ℤ

pub record Catalog : Type 0 where
  pub products : Table BotProduct
  pub sizes : Table Size
  pub groups : Table ToppingGroup
  pub toppings : Table Topping

pub record Item : Type 0 where
  pub product : ℕ
  pub quantity : ℕ
  pub size : Option ℕ
  pub toppings : List ℕ

pub record Line : Type 0 where
  pub product : ℕ
  pub size : Option ℕ
  pub quantity : ℕ
  pub unit_price : ℤ
  pub line_total : ℤ

pub data CartError : Type 0 where
  item_unavailable sold_out size_invalid size_unavailable topping_invalid topping_sold_out :
      CartError
  topping_required topping_min topping_max min_order cart_total_too_large : CartError

-- The browse filter.
abbrev pub published : Option BotProduct → Option BotProduct
published none = none
published (some p) =
    if p.is_published && p.is_category_published && p.is_category_selling then some p else none

abbrev pub size_of : ℕ → Option Size → Option Size
size_of product none = none
size_of product (some s) = if s.product == product then some s else none

-- What the size adds to the price.
abbrev pub size_delta : Catalog → ℕ → Option ℕ → Result CartError ℤ
size_delta cat product none = ok (pos 0)
size_delta cat product (some id) = do
  s ← or_raise (size_of product (get id cat.sizes)) size_invalid
  raise_if (not s.is_selling) size_unavailable
  ok s.price_delta

abbrev pub is_in : ℕ → List ℕ → Bool
is_in n [] = false
is_in n (m ∷ ms) = n == m || is_in n ms

-- The chosen toppings: the product's rows whose key is asked for.
abbrev pub chosen : ℕ → List ℕ → Table Topping → Table Topping
chosen product ids [] = []
chosen product ids ((k, t) ∷ ts) =
    let rest = chosen product ids ts in
    if is_in k ids && t.product == product then (k, t) ∷ rest else rest

abbrev pub has_row : Table Topping → ℕ → Bool
has_row [] k = false
has_row ((j, t) ∷ ts) k = k == j || has_row ts k

abbrev pub all_found : List ℕ → Table Topping → Bool
all_found [] ts = true
all_found (k ∷ ks) ts = has_row ts k && all_found ks ts

abbrev pub toppings_price : Table Topping → ℤ
toppings_price [] = pos 0
toppings_price ((k, t) ∷ ts) = t.price +ℤ toppings_price ts

-- `chosen_by_group`
abbrev pub count_group : ℕ → Table Topping → ℕ
count_group g [] = 0
count_group g ((k, t) ∷ ts) = let rest = count_group g ts in if t.group == g then rest + 1 else rest

-- The rules of one group, for `n` chosen toppings.
unfoldable pub group_rule : ToppingGroup → ℕ → Result CartError (Unit {0})
group_rule g n = do
  raise_if (g.is_required && ltb n (max g.min_select 1)) topping_required
  raise_if (not g.is_required && not (n == 0) && not (g.min_select == 0) && ltb n g.min_select)
      topping_min
  raise_if (not (g.max_select == 0) && ltb g.max_select n) topping_max

unfoldable pub group_rules : ℕ → Table ToppingGroup → Table Topping → Result CartError (Unit {0})
group_rules product [] picked = ok tt
group_rules product ((k, g) ∷ gs) picked =
    let rest = group_rules product gs picked in
    if g.product == product then group_rule g (count_group k picked) >> rest else rest

-- `unit * quantity`
abbrev pub times_quantity : ℤ → ℕ → ℤ
times_quantity unit n = sub_ℕ (pos_part unit * n) (neg_part unit * n)

-- `_priced_line`
unfoldable pub priced_line : Catalog → Item → Result CartError Line
priced_line cat item = do
  p ← or_raise (published (get item.product cat.products)) item_unavailable
  raise_if p.is_deleted item_unavailable
  raise_if (not p.is_selling) sold_out
  delta ← size_delta cat item.product item.size
  let picked = chosen item.product item.toppings cat.toppings
  raise_if (not (all_found item.toppings picked)) topping_invalid
  raise_if (not (every (λ t. t.is_selling) picked)) topping_sold_out
  group_rules item.product cat.groups picked
  let unit = p.price +ℤ delta +ℤ toppings_price picked
  let line : Line = record {
    product = item.product;
    size = item.size;
    quantity = item.quantity;
    unit_price = unit;
    line_total = times_quantity unit item.quantity;
  }
  ok line

unfoldable pub priced_lines : Catalog → List Item → Result CartError (List Line)
priced_lines cat [] = ok []
priced_lines cat (item ∷ items) =
    let rest = priced_lines cat items in
    priced_line cat item >>= λ line. rest >>= λ lines. ok (line ∷ lines)

abbrev pub sum_lines : List Line → ℤ
sum_lines [] = pos 0
sum_lines (l ∷ ls) = l.line_total +ℤ sum_lines ls

-- The columns of BotConfig that pricing reads.
pub record Config : Type 0 where
  pub min_order_amount : ℤ
  pub free_delivery_threshold : ℤ
  pub delivery_fee : ℤ
  pub loyalty_point_value : ℤ
  pub loyalty_earn_per : ℤ

pub data OrderType : Type 0 where
  delivery pickup : OrderType

abbrev pub is_pickup : OrderType → Bool
is_pickup pickup = true
is_pickup delivery = false

-- 99999999.99
abbrev pub max_pos_total : ℤ
max_pos_total = pos 9999999999

abbrev pub is_free : Config → OrderType → ℤ → Bool
is_free cfg order_type subtotal =
    is_pickup order_type
    || not (is_zero cfg.free_delivery_threshold) && leb_ℤ cfg.free_delivery_threshold subtotal

-- A member's points that may be used: at most the balance, and none below 0. `none` where points
-- play no part.
abbrev pub usable : Config → ℕ → Option ℤ → Option ℕ
usable cfg points none = none
usable cfg points (some balance) =
    if not (points == 0) && not (is_zero cfg.loyalty_point_value)
    then some (min points (pos_part balance))
    else none

abbrev pub discount_of : Config → Option ℕ → ℤ → ℤ
discount_of cfg none subtotal = pos 0
discount_of cfg (some n) subtotal = min_ℤ (times_quantity cfg.loyalty_point_value n) subtotal

-- `int(subtotal / per)`, cut towards 0.
abbrev pub earned_points : Config → ℤ → ℤ
earned_points cfg subtotal =
    let per = pos_part cfg.loyalty_earn_per in
    if per == 0 then pos 0 else sub_ℕ (pos_part subtotal / per) (neg_part subtotal / per)

pub record Priced : Type 0 where
  pub lines : List Line
  pub subtotal : ℤ
  pub delivery_fee : ℤ
  pub free_delivery_applied : Bool
  pub discount : ℤ
  pub tip : ℤ
  pub total : ℤ
  pub points_used : ℕ
  pub points_earned : ℤ

-- The totals of lines that are priced.
unfoldable pub totals : Config → OrderType → ℕ → ℤ → Option ℤ → List Line → Priced
totals cfg order_type points tip balance lines =
    let subtotal = sum_lines lines in
    let fee = if is_free cfg order_type subtotal then pos 0 else cfg.delivery_fee in
    let discount = discount_of cfg (usable cfg points balance) subtotal in
    let total = subtotal +ℤ fee +ℤ tip -ℤ discount in
    record {
      lines = lines;
      subtotal = subtotal;
      delivery_fee = fee;
      free_delivery_applied = is_free cfg order_type subtotal;
      discount = discount;
      tip = tip;
      total = if ltb_ℤ total (pos 0) then pos 0 else total;
      points_used = get_or (usable cfg points balance) 0;
      points_earned = earned_points cfg subtotal;
    }

-- `price_cart`; `balance` is the member's points, `none` without a member.
unfoldable pub price_cart :
    Catalog → Config → List Item → OrderType → ℕ → ℤ → Option ℤ → Result CartError Priced
price_cart cat cfg items order_type points tip balance = do
  lines ← priced_lines cat items
  raise_if (ltb_ℤ max_pos_total (sum_lines lines)) cart_total_too_large
  raise_if (not (is_zero cfg.min_order_amount) && ltb_ℤ (sum_lines lines) cfg.min_order_amount)
      min_order
  let priced = totals cfg order_type points tip balance lines
  raise_if (ltb_ℤ max_pos_total priced.total) cart_total_too_large
  ok priced
