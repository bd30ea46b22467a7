-- ===== src/Smartfood/Cart/Lines.antt =====
-- The lines of a cart (smartfood/services/cart_service.py, _priced_line), against a price list.
use alpha_pos_server.Base.{
  ℕ, zero, suc, ◌≡◌, refl, sym, ap, ◌∙◌, Bool, true, false, not, ◌&&◌, Option, none, some, List, [],
  ◌∷◌, Table, arith, get, every, exists, ◌==◌, is_ok, ◌>>◌, ◌>>=◌, raise_if, or_raise,
  if◌then◌else◌, Result, ok, err, Bool-cases, ==→eq, ==_refl, inl, inr,
}
use alpha_pos_server.Base.Int.{ℤ, ◌+ℤ◌, int_laws}
use alpha_pos_server.Smartfood.Cart.{
  Catalog, BotProduct, Size, ToppingGroup, Topping, Item, Line, CartError, published, size_of,
  size_delta, is_in, chosen, has_row, all_found, toppings_price, count_group, group_rule,
  group_rules, times_quantity, priced_line, size_invalid, size_unavailable, item_unavailable,
  sold_out, topping_invalid, topping_sold_out,
}
use alpha_pos_server.Smartfood.Cart.PriceList.{
  is_on_sale, is_own_size, size_fits, all_listed, any_gone, asked_in, keeps_rules, all_keep,
  is_offered, product_price, delta_of, size_price, asked_price, copies, list_price,
}

chosen-count :
    (group product : ℕ) (ids : List ℕ) (ts : Table Topping)
    → count_group group (chosen product ids ts) ≡ asked_in group product ids ts
chosen-count group product ids [] = refl
chosen-count group product ids ((k, t) ∷ ts) = ground (arith, chosen-count group product ids ts)

chosen-has_row :
    (product k : ℕ) (ids : List ℕ) (ts : Table Topping)
    → is_in k ids ≡ true
    → has_row (chosen product ids ts) k ≡ exists (λ j t. k == j && t.product == product) ts
chosen-has_row product k ids [] h = refl
chosen-has_row product k ids ((j, t) ∷ ts) h = elim (Bool-cases (k == j)) [
  | inl e ↦
      let own : is_in j ids ≡ true = ap (λ x. is_in x ids) (sym (==→eq k j e)) ∙ h in
      ground (arith, chosen-has_row product k ids ts h)
  | inr e ↦ ground (arith, chosen-has_row product k ids ts h)
]

abbrev all_in : List ℕ → List ℕ → Bool
all_in [] ids = true
all_in (k ∷ ks) ids = is_in k ids && all_in ks ids

all_in-cons : (ks ids : List ℕ) (k : ℕ) → all_in ks ids ≡ true → all_in ks (k ∷ ids) ≡ true
all_in-cons [] ids k h = refl
all_in-cons (j ∷ ks) ids k h = ground (arith, all_in-cons ks ids k)

all_in_self : (ids : List ℕ) → all_in ids ids ≡ true
all_in_self [] = refl
all_in_self (k ∷ ids) = ground (arith, ==_refl k, all_in-cons ids ids k (all_in_self ids))

chosen-all_found :
    (product : ℕ) (ks ids : List ℕ) (ts : Table Topping)
    → all_in ks ids ≡ true
    → all_found ks (chosen product ids ts) ≡ all_listed product ks ts
chosen-all_found product [] ids ts h = refl
chosen-all_found product (k ∷ ks) ids ts h =
    ground (arith, chosen-has_row product k ids ts, chosen-all_found product ks ids ts)

chosen-every :
    (product : ℕ) (ids : List ℕ) (ts : Table Topping)
    → every (λ t. t.is_selling) (chosen product ids ts) ≡ not (any_gone product ids ts)
chosen-every product ids [] = refl
chosen-every product ids ((k, t) ∷ ts) = ground (arith, chosen-every product ids ts)

group_rule-keeps : (g : ToppingGroup) (n : ℕ) → is_ok (group_rule g n) ≡ keeps_rules g n
unfolding group_rule
group_rule-keeps g n = ground arith

then_ok :
    {B : Type 0} (check : Result CartError (Unit {0})) (rest : Result CartError B)
    → is_ok (check >> rest) ≡ is_ok check && is_ok rest
then_ok (err e) rest = refl
then_ok (ok u) rest = refl

group_rules-keep :
    (product : ℕ) (ids : List ℕ) (ts : Table Topping) (gs : Table ToppingGroup)
    → is_ok (group_rules product gs (chosen product ids ts)) ≡ all_keep product ids ts gs
unfolding group_rules
group_rules-keep product ids ts [] = refl
group_rules-keep product ids ts ((k, g) ∷ gs) = elim (Bool-cases (g.product == product)) [
  | inl own ↦ rw own (
      then_ok (group_rule g (count_group k (chosen product ids ts))) _
      ∙ ap (λ b. b && is_ok (group_rules product gs (chosen product ids ts)))
          (group_rule-keeps g _ ∙ ap (keeps_rules g) (chosen-count k product ids ts))
      ∙ ap (λ b. keeps_rules g (asked_in k product ids ts) && b)
          (group_rules-keep product ids ts gs))
  | inr other ↦ rw other (group_rules-keep product ids ts gs)
]

chosen-price :
    (product : ℕ) (ids : List ℕ) (ts : Table Topping)
    → toppings_price (chosen product ids ts) ≡ asked_price product ids ts
chosen-price product ids [] = refl
chosen-price product ids ((k, t) ∷ ts) = elim (Bool-cases (is_in k ids && t.product == product)) [
  | inl own ↦ rw own (ap (λ x. t.price +ℤ x) (chosen-price product ids ts))
  | inr other ↦ rw other (chosen-price product ids ts)
]

one_more : (n : ℕ) (unit : ℤ) → times_quantity unit (suc n) ≡ unit +ℤ times_quantity unit n
one_more n unit = grind int_laws

copies-times : (n : ℕ) (unit : ℤ) → times_quantity unit n ≡ copies n unit
copies-times zero unit = grind int_laws
copies-times (suc n) unit = one_more n unit ∙ ap (λ x. unit +ℤ x) (copies-times n unit)

abbrev pub total_of : Result CartError Line → Option ℤ
total_of (err e) = none
total_of (ok l) = some l.line_total

-- A pricing that succeeds if `b` and then costs `v`.
abbrev Sells : Bool → ℤ → Result CartError Line → Type 0
Sells b v r = (is_ok r ≡ b) × (total_of r ≡ (if b then some v else none))

checked :
    (check : Result CartError (Unit {0})) (c b : Bool) (v : ℤ) (r : Result CartError Line)
    → is_ok check ≡ c
    → Sells b v r
    → Sells (c && b) v (check >> r)
checked (err e) true b v r h k = cc
checked (err e) false b v r h k = (refl, refl)
checked (ok u) true b v r h k = k
checked (ok u) false b v r h k = cc

raise_if-ok : (b : Bool) (e : CartError) → is_ok (raise_if (not b) e) ≡ b
raise_if-ok true e = refl
raise_if-ok false e = refl

sized_by :
    (product : ℕ) (row : Option Size) (b : Bool) (v : ℤ) (rest : ℤ → Result CartError Line)
    → Sells b v (rest (delta_of row))
    → Sells (is_own_size product row && b) v (
        or_raise (size_of product row) size_invalid
        >>= (λ s. raise_if (not s.is_selling) size_unavailable >> ok s.price_delta)
        >>= rest)
sized_by product none b v rest h = (refl, refl)
sized_by product (some s) b v rest h = elim (Bool-cases (s.product == product)) [
  | inr other ↦ rw other (refl, refl)
  | inl own ↦ elim (Bool-cases s.is_selling) [
    | inl sells ↦ rw (own, sells) h
    | inr stopped ↦ rw (own, stopped) (refl, refl)
  ]
]

sized :
    (cat : Catalog) (product : ℕ) (size : Option ℕ) (b : Bool) (v : ℤ)
    (rest : ℤ → Result CartError Line)
    → Sells b v (rest (size_price size cat.sizes))
    → Sells (size_fits product size cat.sizes && b) v (size_delta cat product size >>= rest)
sized cat product none b v rest h = h
sized cat product (some id) b v rest h = sized_by product (get id cat.sizes) b v rest h

on_sale :
    (row : Option BotProduct) (b : Bool) (v : ℤ) (rest : BotProduct → Result CartError Line)
    → ((p : BotProduct) → row ≡ some p → Sells b v (rest p))
    → Sells (is_on_sale row && b) v (
        or_raise (published row) item_unavailable >>= λ p.
        raise_if p.is_deleted item_unavailable >> (raise_if (not p.is_selling) sold_out >> rest p))
on_sale none b v rest h = (refl, refl)
on_sale (some p) b v rest h =
    elim (Bool-cases (p.is_published && p.is_category_published && p.is_category_selling)) [
      | inr hidden ↦ rw hidden (refl, refl)
      | inl shown ↦ elim (Bool-cases p.is_deleted) [
        | inl gone ↦ rw (shown, gone) (refl, refl)
        | inr there ↦ elim (Bool-cases p.is_selling) [
          | inl sells ↦ simp (shown, there, sells) (h p refl)
          | inr stopped ↦ rw (shown, there, stopped) (refl, refl)
        ]
      ]
    ]

priced :
    (check : Result CartError (Unit {0})) (c : Bool) (v : ℤ) (l : Line)
    → is_ok check ≡ c
    → l.line_total ≡ v
    → Sells c v (check >> ok l)
priced (err e) true v l h k = cc
priced (err e) false v l h k = (refl, refl)
priced (ok u) true v l h k = (refl, ap (λ x. some x) k)
priced (ok u) false v l h k = cc

line_costs :
    (cat : Catalog) (item : Item) (p : BotProduct)
    → get item.product cat.products ≡ some p
    → times_quantity
        (p.price
          +ℤ size_price item.size cat.sizes
          +ℤ toppings_price (chosen item.product item.toppings cat.toppings))
        item.quantity
      ≡ list_price cat item
line_costs cat item p row =
    copies-times item.quantity _
    ∙ ap (λ x. copies item.quantity (p.price +ℤ size_price item.size cat.sizes +ℤ x))
        (chosen-price item.product item.toppings cat.toppings)
    ∙ ap
        (λ x. copies item.quantity (
          x
          +ℤ size_price item.size cat.sizes
          +ℤ asked_price item.product item.toppings cat.toppings))
        (sym (ap product_price row))

-- An item is priced exactly when the catalogue offers it: its product is published, in a published
-- and selling category, not deleted and selling; its size, if it has one, is the product's and
-- selling; each topping is one of the product's and none of these is sold out; and every topping
-- group of the product has its rules kept by the toppings that are asked for in it. The line then
-- costs the price of the product, its size and these toppings, summed as often as the quantity
-- says; otherwise there is no line.
pub priced_line-is_offered :
    (cat : Catalog) (item : Item)
    → (is_ok (priced_line cat item) ≡ is_offered cat item)
      × (total_of (priced_line cat item)
          ≡ (if is_offered cat item then some (list_price cat item) else none))
unfolding priced_line
priced_line-is_offered cat item =
    let picked = chosen item.product item.toppings cat.toppings in
    on_sale (get item.product cat.products) _ (list_price cat item) _ (λ p row.
      sized cat item.product item.size _ (list_price cat item) _ (
        checked (raise_if (not (all_found item.toppings picked)) topping_invalid)
          (all_listed item.product item.toppings cat.toppings) _ _ _
          (raise_if-ok _ topping_invalid
            ∙ chosen-all_found item.product item.toppings item.toppings cat.toppings
                (all_in_self item.toppings))
          (checked (raise_if (not (every (λ t. t.is_selling) picked)) topping_sold_out)
            (not (any_gone item.product item.toppings cat.toppings)) _ _ _
            (raise_if-ok _ topping_sold_out ∙ chosen-every item.product item.toppings cat.toppings)
            (priced (group_rules item.product cat.groups picked) _ _ _
              (group_rules-keep item.product item.toppings cat.toppings cat.groups)
              (line_costs cat item p row)))))
