-- ===== src/Smartfood/OrderInput/RoundTrip.antt =====
-- A normalised cart that is written as a payload and normalised again
-- (smartfood/services/order_input.py, normalize_cart_items).
use alpha_pos_server.Base.{
  ℕ, suc, ◌≤◌, ◌<◌, ◌≡◌, refl, ap, ◌∙◌, Bool, true, false, ◌&&◌, ◌||◌, Option, none, some, List, [],
  ◌∷◌, map, strip, decimal, ltb, leb, length, ok, arith,
}
use alpha_pos_server.Base.Texts.Decimals.{
  strip-solid, digits-solid, decimal-digits, decimal-read, decimal-length,
}
use alpha_pos_server.Base.Int.{ℤ, pos, ltb_ℤ}
use alpha_pos_server.Smartfood.Cart.{Item, is_in}
use alpha_pos_server.Smartfood.OrderInput.{
  Scalar, int_value, text_value, null, InputField, topping_id, size_id, int_of_text, parsed,
  integer_in, is_unset, optional_id, RawItem, array, RawCart, item_list, topping_ids, has_duplicate,
  insert, sorted, max_quantity, normalize_toppings, normalize_item, normalize_list, is_empty,
  normalize_cart_items, max_cart_lines, max_toppings_per_line, max_database_id, product_id,
  quantity,
}
use alpha_pos_server.Smartfood.OrderInput.Bounds.{
  is_within, is_rising, all_within, are_toppings, is_size, is_normal, all_normal,
  normalized_cart_is_bounded,
}

-- How a number is written: as a number or as a text of its digits.
pub data Form : Type 0 where
  as_number as_text : Form

abbrev pub written : Form → ℕ → Scalar
written as_number n = int_value (pos n)
written as_text n = text_value (decimal n)

abbrev pub written_size : Form → Option ℕ → Scalar
written_size form none = null
written_size form (some n) = written form n

abbrev pub written_item : Form → Item → Option RawItem
written_item form item = some (record {
  product = written form item.product;
  quantity = some (written form item.quantity);
  size = written_size form item.size;
  toppings = array (map (written form) item.toppings);
})

-- The payload of a cart.
unfoldable pub written_cart : Form → List Item → RawCart
written_cart form items = item_list (map (written_item form) items)

short_text : (k : ℕ) → k ≤ 20 → ltb 4300 k ≡ false
short_text k h = ground arith

in_20_digits : (n : ℕ) → n ≤ max_database_id → n < 100000000000000000000
in_20_digits n h = omega arith

int_of_decimal :
    (field : InputField) (n : ℕ)
    → n ≤ max_database_id
    → int_of_text field (strip (decimal n)) ≡ ok (pos n)
int_of_decimal field n h =
    let (digits, filled) = decimal-digits n in
    rw
      (
        strip-solid (decimal n) (digits-solid (decimal n) digits),
        filled,
        digits,
        short_text (length (decimal n)) (decimal-length n (in_20_digits n h)),
        decimal-read n,
      )
      refl

written-parsed :
    (form : Form) (field : InputField) (n : ℕ)
    → n ≤ max_database_id
    → parsed field (written form n) ≡ ok (pos n)
written-parsed as_number field n h = refl
written-parsed as_text field n h = int_of_decimal field n h

in_range :
    (low high n : ℕ)
    → is_within low high n ≡ true
    → ltb_ℤ (pos n) (pos low) || ltb_ℤ (pos high) (pos n) ≡ false
in_range low high n h = ground arith

below_high : (low high n : ℕ) → is_within low high n ≡ true → n ≤ high
below_high low high n h = ground arith

written-read :
    (form : Form) (field : InputField) (low high n : ℕ)
    → is_within low high n ≡ true
    → high ≤ max_database_id
    → integer_in field low high (written form n) ≡ ok n
unfolding integer_in
written-read form field low high n h top =
    let below = below_high low high n h in
    rw (written-parsed form field n (omega arith), in_range low high n h) refl

written-set : (form : Form) (n : ℕ) → is_unset (written form n) ≡ false
written-set as_number n = refl
written-set as_text n = (decimal-digits n).1

written_size-read :
    (form : Form) (field : InputField) (o : Option ℕ)
    → is_size o ≡ true
    → optional_id field (written_size form o) ≡ ok o
unfolding optional_id
written_size-read form field none h = refl
written_size-read form field (some n) h =
    rw (written-set form n, written-read form field 1 max_database_id n h (omega arith)) refl

both_inv : {a b : Bool} → a && b ≡ true → (a ≡ true) × (b ≡ true)
both_inv {a = true} h = (refl, h)
both_inv {a = false} h = cc

written-topping_ids :
    (form : Form) (ns : List ℕ)
    → all_within 1 max_database_id ns ≡ true
    → topping_ids (map (written form) ns) ≡ ok ns
unfolding topping_ids
written-topping_ids form [] h = refl
written-topping_ids form (n ∷ ns) h =
    let (first, rest) = both_inv h in
    rw
      (
        written-read form topping_id 1 max_database_id n first (omega arith),
        written-topping_ids form ns rest,
      )
      refl

rising-absent : (low k : ℕ) (ns : List ℕ) → is_rising low ns ≡ true → k ≤ low → is_in k ns ≡ false
rising-absent low k [] h e = refl
rising-absent low k (n ∷ ns) h e = ground (arith, rising-absent n k ns)

rising-distinct : (low : ℕ) (ns : List ℕ) → is_rising low ns ≡ true → has_duplicate ns ≡ false
rising-distinct low [] h = refl
rising-distinct low (n ∷ ns) h = ground (arith, rising-absent n n ns, rising-distinct n ns)

insert-first : (n : ℕ) (ns : List ℕ) → is_rising n ns ≡ true → insert n ns ≡ n ∷ ns
insert-first n [] h = refl
insert-first n (m ∷ ms) h = ground arith

rising-sorted : (low : ℕ) (ns : List ℕ) → is_rising low ns ≡ true → sorted ns ≡ ns
rising-sorted low [] h = refl
rising-sorted low (n ∷ ns) h =
    let (above, rest) = both_inv h in
    ap (insert n) (rising-sorted n ns rest) ∙ insert-first n ns rest

length-map : {A B : Type 0} (f : A → B) (xs : List A) → length (map f xs) ≡ length xs
length-map f [] = refl
length-map f (x ∷ xs) = ap suc (length-map f xs)

few : (n most : ℕ) → leb n most ≡ true → ltb most n ≡ false
few n most h = ground arith

written-toppings :
    (form : Form) (ns : List ℕ)
    → are_toppings ns ≡ true
    → normalize_toppings (array (map (written form) ns)) ≡ ok ns
unfolding normalize_toppings
written-toppings form ns h =
    let (h1, short) = both_inv h in
    let (fits, rising) = both_inv h1 in
    rw
      (
        length-map (written form) ns,
        few (length ns) max_toppings_per_line short,
        written-topping_ids form ns fits,
        rising-distinct 0 ns rising,
        rising-sorted 0 ns rising,
      )
      refl

-- What is_normal tells of an item.
normal_inv :
    (most : ℕ) (item : Item)
    → is_normal most item ≡ true
    → (is_within 1 max_database_id item.product ≡ true)
      × (is_within 1 most item.quantity ≡ true)
      × (is_size item.size ≡ true)
      × (are_toppings item.toppings ≡ true)
normal_inv most item h =
    let (h1, toppings) = both_inv h in
    let (h2, size) = both_inv h1 in
    let (product, amount) = both_inv h2 in (product, amount, size, toppings)

written_item-normalized :
    (form : Form) (setting : ℤ) (item : Item)
    → max_quantity setting ≤ max_database_id
    → is_normal (max_quantity setting) item ≡ true
    → normalize_item setting (written_item form item) ≡ ok item
unfolding normalize_item
written_item-normalized form setting item top h =
    let (product, quantity_in, size, toppings) = normal_inv (max_quantity setting) item h in
    rw
      (
        written-read form product_id 1 max_database_id item.product product (omega arith),
        written-read form quantity 1 (max_quantity setting) item.quantity quantity_in top,
        written_size-read form size_id item.size size,
        written-toppings form item.toppings toppings,
      )
      refl

written_list-normalized :
    (form : Form) (setting : ℤ) (items : List Item)
    → max_quantity setting ≤ max_database_id
    → all_normal (max_quantity setting) items ≡ true
    → normalize_list setting (map (written_item form) items) ≡ ok items
unfolding normalize_list
written_list-normalized form setting [] top h = refl
written_list-normalized form setting (item ∷ items) top h =
    let (first, rest) = both_inv h in
    rw
      (
        written_item-normalized form setting item top first,
        written_list-normalized form setting items top rest,
      )
      refl

lines_pass :
    (form : Form) (items : List Item)
    → 1 ≤ length items
    → length items ≤ 100
    → (is_empty (map (written_item form) items) ≡ false)
      × (ltb max_cart_lines (length (map (written_item form) items)) ≡ false)
lines_pass form [] one h = (absurd_lines one, refl)
  where
    absurd_lines : 1 ≤ 0 → true ≡ false
    absurd_lines e = ground arith
lines_pass form (item ∷ items) one h =
    (refl, rw (length-map (written_item form) (item ∷ items)) (at_most (length (item ∷ items)) h))
  where
    at_most : (n : ℕ) → n ≤ 100 → ltb max_cart_lines n ≡ false
    at_most n e = ground arith

-- A cart that the checks have let through, written as a payload again, with its numbers as numbers
-- or as texts of their digits, is normalised to the same cart: no line is lost, merged,
-- reordered or changed. The largest quantity of the settings is at most the largest key of the
-- database.
pub normalized_cart_round_trip :
    (form : Form) (setting : ℤ) (raw : RawCart) (items : List Item)
    → max_quantity setting ≤ max_database_id
    → normalize_cart_items setting raw ≡ ok items
    → normalize_cart_items setting (written_cart form items) ≡ ok items
unfolding normalize_cart_items written_cart
normalized_cart_round_trip form setting raw items top h =
    let (one, most, fits) = normalized_cart_is_bounded setting raw items h in
    let (filled, short) = lines_pass form items one most in
    rw (filled, short, written_list-normalized form setting items top fits) refl
