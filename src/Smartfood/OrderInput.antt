-- ===== src/Smartfood/OrderInput.antt =====
-- The checks of untrusted cart and order payloads (smartfood/services/order_input.py).
-- A JSON value is read as far as the checks tell values apart: a float is either a whole number or
-- not. The language's `int` refuses a text of more than 4300 digits with an error of its own.
pub mod Bounds
pub mod RoundTrip
mod Examples
use alpha_pos_server.Base.{
  ℕ, zero, suc, ◌+◌, ◌*◌, Bool, true, false, not, ◌&&◌, ◌||◌, Option, none, some, List, [], ◌∷◌,
  map, Text, text, text_eq, strip, is_blank, is_digits, read_digits, ltb, leb, ◌==◌, max, length,
  if◌then◌else◌, Result, err, ok, ◌>>=◌, ◌>>◌, raise_if, upper_char,
}
use alpha_pos_server.Base.Int.{ℤ, pos, negsuc, pos_part, ltb_ℤ, leb_ℤ}
use alpha_pos_server.Smartfood.Cart.{Item, is_in, OrderType, delivery, pickup, max_pos_total}

-- A value that is no list and no object, or `other_value`.
pub data Scalar : Type 0 where
  null other_value : Scalar
  boolean : Bool → Scalar
  int_value whole_float : ℤ → Scalar
  part_float : Scalar
  text_value : Text → Scalar

pub data InputField : Type 0 where
  product_id quantity size_id topping_id address_id points_used : InputField

pub data InputError : Type 0 where
  not_an_integer out_of_range : InputField → InputError
  digit_limit : InputError
  invalid_items empty_cart too_many_items invalid_topping_ids duplicate_topping_ids : InputError
  address_required invalid_tip invalid_phone invalid_note invalid_order_type : InputError
  invalid_payment_method : InputError

abbrev pub max_cart_lines : ℕ
max_cart_lines = 100

abbrev pub max_toppings_per_line : ℕ
max_toppings_per_line = 50

abbrev pub max_points : ℕ
max_points = 2147483647

abbrev pub max_database_id : ℕ
max_database_id = 9223372036854775807

-- `int(s)` of a stripped text.
abbrev pub int_of_text : InputField → Text → Result InputError ℤ
int_of_text field s = do
  raise_if (is_blank s || not (is_digits s)) (not_an_integer field)
  raise_if (ltb 4300 (length s)) digit_limit
  ok (pos (read_digits 0 s))

abbrev pub parsed : InputField → Scalar → Result InputError ℤ
parsed field (int_value n) = ok n
parsed field (whole_float n) = ok n
parsed field (text_value s) = int_of_text field (strip s)
parsed field _ = err (not_an_integer field)

-- `_integer`, whose minimum is never below 0.
unfoldable pub integer_in : InputField → ℕ → ℕ → Scalar → Result InputError ℕ
integer_in field minimum maximum value = do
  n ← parsed field value
  raise_if (ltb_ℤ n (pos minimum) || ltb_ℤ (pos maximum) n) (out_of_range field)
  ok (pos_part n)

-- `value in (None, '')`
abbrev pub is_unset : Scalar → Bool
is_unset null = true
is_unset (text_value s) = is_blank s
is_unset _ = false

unfoldable pub optional_id : InputField → Scalar → Result InputError (Option ℕ)
optional_id field value =
    if is_unset value
    then ok none
    else (integer_in field 1 max_database_id value >>= λ n. ok (some n))

-- The topping_ids of an item: absent, a list, or another value.
pub data Toppings : Type 0 where
  absent : Toppings
  array : List Scalar → Toppings
  scalar : Scalar → Toppings

pub record RawItem : Type 0 where
  pub product : Scalar
  pub quantity : Option Scalar
  pub size : Scalar
  pub toppings : Toppings

-- The items of a payload: no list, or a list of objects and other values.
pub data RawCart : Type 0 where
  not_a_list : RawCart
  item_list : List (Option RawItem) → RawCart

abbrev pub topping_list : Toppings → Result InputError (List Scalar)
topping_list absent = ok []
topping_list (array values) = ok values
topping_list (scalar value) = if is_unset value then ok [] else err invalid_topping_ids

unfoldable pub topping_ids : List Scalar → Result InputError (List ℕ)
topping_ids [] = ok []
topping_ids (v ∷ vs) =
    let rest = topping_ids vs in
    integer_in topping_id 1 max_database_id v >>= λ n. rest >>= λ ns. ok (n ∷ ns)

-- `len(set(ids)) != len(ids)`
abbrev pub has_duplicate : List ℕ → Bool
has_duplicate [] = false
has_duplicate (n ∷ ns) = is_in n ns || has_duplicate ns

abbrev pub insert : ℕ → List ℕ → List ℕ
insert n [] = n ∷ []
insert n (m ∷ ms) = let rest = insert n ms in if leb n m then n ∷ m ∷ ms else m ∷ rest

-- `sorted(ids)`
abbrev pub sorted : List ℕ → List ℕ
sorted [] = []
sorted (n ∷ ns) = insert n (sorted ns)

-- max(1, int(SMARTFOOD_MAX_ITEM_QUANTITY))
abbrev pub max_quantity : ℤ → ℕ
max_quantity setting = max 1 (pos_part setting)

abbrev pub or_one : Option Scalar → Scalar
or_one none = int_value (pos 1)
or_one (some v) = v

unfoldable pub normalize_toppings : Toppings → Result InputError (List ℕ)
normalize_toppings raw = do
  values ← topping_list raw
  raise_if (ltb max_toppings_per_line (length values)) invalid_topping_ids
  ids ← topping_ids values
  raise_if (has_duplicate ids) duplicate_topping_ids
  ok (sorted ids)

-- One item of the loop.
unfoldable pub normalize_item : ℤ → Option RawItem → Result InputError Item
normalize_item setting none = err invalid_items
normalize_item setting (some raw) = do
  product ← integer_in product_id 1 max_database_id raw.product
  n ← integer_in quantity 1 (max_quantity setting) (or_one raw.quantity)
  size ← optional_id size_id raw.size
  toppings ← normalize_toppings raw.toppings
  ok (record { product = product; quantity = n; size = size; toppings = toppings })

unfoldable pub normalize_list : ℤ → List (Option RawItem) → Result InputError (List Item)
normalize_list setting [] = ok []
normalize_list setting (raw ∷ raws) =
    let rest = normalize_list setting raws in
    normalize_item setting raw >>= λ item. rest >>= λ items. ok (item ∷ items)

abbrev pub is_empty : List (Option RawItem) → Bool
is_empty [] = true
is_empty (x ∷ xs) = false

-- `normalize_cart_items`, by the setting of the largest quantity.
unfoldable pub normalize_cart_items : ℤ → RawCart → Result InputError (List Item)
normalize_cart_items setting not_a_list = err invalid_items
normalize_cart_items setting (item_list raws) = do
  raise_if (is_empty raws) empty_cart
  raise_if (ltb max_cart_lines (length raws)) too_many_items
  normalize_list setting raws

-- `normalize_points`
unfoldable pub normalize_points : Scalar → Result InputError ℕ
normalize_points value = if is_unset value then ok 0 else integer_in points_used 0 max_points value

-- `normalize_address_id`
unfoldable pub normalize_address_id : Scalar → Bool → Result InputError (Option ℕ)
normalize_address_id value required =
    if is_unset value
    then raise_if required address_required >> ok none
    else (integer_in address_id 1 max_database_id value >>= λ n. ok (some n))

-- A tip: not set, a boolean or a value that is no decimal number, an infinity or NaN, or a number
-- by its digits and how many of them follow the point.
pub data RawTip : Type 0 where
  no_tip not_decimal unbounded : RawTip
  decimal_tip : ℤ → ℕ → RawTip

-- 10 ^ n
abbrev pub power_ten : ℕ → ℕ
power_ten zero = 1
power_ten (suc n) = 10 * power_ten n

-- `normalize_tip`, in hundredths: at most two digits may follow the point.
unfoldable pub normalize_tip : RawTip → Result InputError ℤ
normalize_tip no_tip = ok (pos 0)
normalize_tip not_decimal = err invalid_tip
normalize_tip unbounded = err invalid_tip
normalize_tip (decimal_tip n places) = do
  raise_if (ltb_ℤ n (pos 0) || ltb (pos_part max_pos_total * power_ten places) (pos_part n * 100))
      invalid_tip
  raise_if (ltb 2 places) invalid_tip
  ok (pos (pos_part n * power_ten (hundredths_left places)))
  where
    hundredths_left : ℕ → ℕ
    hundredths_left zero = 2
    hundredths_left (suc zero) = 1
    hundredths_left _ = 0

-- `normalize_note`, with the limit of 2000 characters.
unfoldable pub normalize_note : Scalar → Result InputError Text
normalize_note null = ok []
normalize_note (text_value s) = do raise_if (ltb 2000 (length (strip s))) invalid_note; ok (strip s)
normalize_note _ = err invalid_note

abbrev pub order_type_of : Text → Result InputError OrderType
order_type_of s =
    if text_eq s (text "DELIVERY")
    then ok delivery
    else if text_eq s (text "PICKUP")
    then ok pickup
    else err invalid_order_type

-- `normalize_order_type`
unfoldable pub normalize_order_type : Scalar → Result InputError OrderType
normalize_order_type (text_value s) = order_type_of (map upper_char (strip s))
normalize_order_type _ = err invalid_order_type

pub data PayBy : Type 0 where
  by_cash by_card : PayBy

abbrev pub pay_by : Text → Result InputError PayBy
pay_by s =
    if text_eq s (text "CASH")
    then ok by_cash
    else if text_eq s (text "CARD")
    then ok by_card
    else err invalid_payment_method

-- `normalize_payment_method`
unfoldable pub normalize_payment_method : Scalar → Result InputError PayBy
normalize_payment_method (text_value s) = pay_by (map upper_char (strip s))
normalize_payment_method _ = err invalid_payment_method

-- `normalize_phone`, with the limit of 20 characters.
abbrev pub phone_of : Scalar → Result InputError Text
phone_of (text_value s) = do raise_if (ltb 20 (length (strip s))) invalid_phone; ok (strip s)
phone_of _ = err invalid_phone

unfoldable pub normalize_phone : Scalar → Text → Result InputError Text
normalize_phone value fallback = phone_of (if is_unset value then text_value fallback else value)
