-- ===== src/Smartfood/Cart/PriceList.antt =====
-- What the catalogue offers and at what price, as a customer reads it
-- (smartfood/services/cart_service.py, _priced_line).
use alpha_pos_server.Base.{
  ℕ, zero, suc, ◌+◌, Bool, true, false, not, ◌&&◌, ◌||◌, Option, none, some, List, [], ◌∷◌, Table,
  get, exists, max, leb, ◌==◌, if◌then◌else◌,
}
use alpha_pos_server.Base.Int.{ℤ, pos, ◌+ℤ◌}
use alpha_pos_server.Smartfood.Cart.{Catalog, BotProduct, Size, ToppingGroup, Topping, Item, is_in}

-- A product that is on sale.
abbrev pub is_on_sale : Option BotProduct → Bool
is_on_sale none = false
is_on_sale (some p) =
    p.is_published
    && p.is_category_published
    && p.is_category_selling
    && not p.is_deleted
    && p.is_selling

-- One of the product's sizes that is selling, if a size is asked for.
abbrev pub is_own_size : ℕ → Option Size → Bool
is_own_size product none = false
is_own_size product (some s) = s.product == product && s.is_selling

abbrev pub size_fits : ℕ → Option ℕ → Table Size → Bool
size_fits product none sizes = true
size_fits product (some id) sizes = is_own_size product (get id sizes)

-- Each topping that is asked for is one of the product.
abbrev pub all_listed : ℕ → List ℕ → Table Topping → Bool
all_listed product [] ts = true
all_listed product (k ∷ ks) ts =
    exists (λ j t. k == j && t.product == product) ts && all_listed product ks ts

-- One of those is sold out.
abbrev pub any_gone : ℕ → List ℕ → Table Topping → Bool
any_gone product ids = exists (λ j t. is_in j ids && t.product == product && not t.is_selling)

-- The toppings of the product that are asked for, in one group.
abbrev pub asked_in : ℕ → ℕ → List ℕ → Table Topping → ℕ
asked_in group product ids [] = 0
asked_in group product ids ((k, t) ∷ ts) =
    let rest = asked_in group product ids ts in
    if is_in k ids && t.product == product && t.group == group then rest + 1 else rest

-- The rules of a group, for `n` toppings: its minimum, and at least one, if it is required, its
-- minimum if there are any, and its maximum if it has one.
abbrev pub keeps_rules : ToppingGroup → ℕ → Bool
keeps_rules g n =
    (not g.is_required || leb (max g.min_select 1) n)
    && (n == 0 || leb g.min_select n)
    && (g.max_select == 0 || leb n g.max_select)

abbrev pub all_keep : ℕ → List ℕ → Table Topping → Table ToppingGroup → Bool
all_keep product ids ts [] = true
all_keep product ids ts ((k, g) ∷ gs) =
    (not (g.product == product) || keeps_rules g (asked_in k product ids ts))
    && all_keep product ids ts gs

-- The catalogue offers the item.
abbrev pub is_offered : Catalog → Item → Bool
is_offered cat item =
    is_on_sale (get item.product cat.products)
    && (size_fits item.product item.size cat.sizes
        && (all_listed item.product item.toppings cat.toppings
            && (not (any_gone item.product item.toppings cat.toppings)
                && all_keep item.product item.toppings cat.toppings cat.groups)))

-- The prices of the list.
abbrev pub product_price : Option BotProduct → ℤ
product_price none = pos 0
product_price (some p) = p.price

abbrev pub delta_of : Option Size → ℤ
delta_of none = pos 0
delta_of (some s) = s.price_delta

abbrev pub size_price : Option ℕ → Table Size → ℤ
size_price none sizes = pos 0
size_price (some id) sizes = delta_of (get id sizes)

abbrev pub asked_price : ℕ → List ℕ → Table Topping → ℤ
asked_price product ids [] = pos 0
asked_price product ids ((k, t) ∷ ts) =
    let rest = asked_price product ids ts in
    if is_in k ids && t.product == product then t.price +ℤ rest else rest

-- `n` of them.
abbrev pub copies : ℕ → ℤ → ℤ
copies zero unit = pos 0
copies (suc n) unit = unit +ℤ copies n unit

abbrev pub list_price : Catalog → Item → ℤ
list_price cat item = copies item.quantity (
    product_price (get item.product cat.products)
    +ℤ size_price item.size cat.sizes
    +ℤ asked_price item.product item.toppings cat.toppings)
