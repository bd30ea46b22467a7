-- ===== src/Smartfood/OrderInput/Bounds.antt =====
-- What a normalised cart keeps to (smartfood/services/order_input.py, normalize_cart_items).
use alpha_pos_server.Base.{
  ℕ, suc, ◌≤◌, ◌≡◌, refl, sym, ap, ◌∙◌, Bool, true, false, ◌&&◌, ◌||◌, Option, none, some, List, [],
  ◌∷◌, ltb, leb, ◌==◌, length, if◌then◌else◌, Result, ok, ◌>>=◌, ok-injective, bind_ok_inv,
  raise_if_inv, arith,
}
use alpha_pos_server.Base.Int.{ℤ, pos, pos_part, ltb_ℤ}
use alpha_pos_server.Smartfood.Cart.{Item, is_in}
use alpha_pos_server.Smartfood.OrderInput.{
  Scalar, InputField, InputError, out_of_range, too_many_items, empty_cart, invalid_topping_ids,
  duplicate_topping_ids, product_id, quantity, size_id, topping_id, parsed, integer_in, is_unset,
  optional_id, RawItem, Toppings, RawCart, not_a_list, item_list, topping_list, topping_ids,
  has_duplicate, insert, sorted, max_quantity, or_one, normalize_toppings, normalize_item,
  normalize_list, is_empty, normalize_cart_items, max_cart_lines, max_toppings_per_line,
  max_database_id,
}

-- `low <= n <= high`
abbrev pub is_within : ℕ → ℕ → ℕ → Bool
is_within low high n = leb low n && leb n high

pub both_true : {a b : Bool} → a ≡ true → b ≡ true → a && b ≡ true
both_true h k = rw (h, k) refl

within_range :
    (n : ℤ) (low high : ℕ)
    → ltb_ℤ n (pos low) || ltb_ℤ (pos high) n ≡ false
    → is_within low high (pos_part n) ≡ true
within_range n low high h = ground arith

pub integer_in-within :
    (field : InputField) (low high : ℕ) (v : Scalar) (n : ℕ)
    → integer_in field low high v ≡ ok n
    → is_within low high n ≡ true
unfolding integer_in
integer_in-within field low high v n h =
    let (m, read, h1) = bind_ok_inv _ (parsed field v) h in
    let (fits, done) =
      raise_if_inv _ (ltb_ℤ m (pos low) || ltb_ℤ (pos high) m) (out_of_range field) h1 in
    ap (is_within low high) (sym (ok-injective done)) ∙ within_range m low high fits

-- Strictly rising, above a bound.
abbrev pub is_rising : ℕ → List ℕ → Bool
is_rising low [] = true
is_rising low (n ∷ ns) = ltb low n && is_rising n ns

abbrev pub is_rising_list : List ℕ → Bool
is_rising_list [] = true
is_rising_list (n ∷ ns) = is_rising n ns

abbrev pub all_within : ℕ → ℕ → List ℕ → Bool
all_within low high [] = true
all_within low high (n ∷ ns) = is_within low high n && all_within low high ns

insert-rising :
    (low n : ℕ) (ns : List ℕ)
    → is_rising low ns ≡ true
    → ltb low n ≡ true
    → is_in n ns ≡ false
    → is_rising low (insert n ns) ≡ true
insert-rising low n [] h k e = ground arith
insert-rising low n (m ∷ ms) h k e = ground (arith, insert-rising m n ms)

is_in-insert : (k n : ℕ) (ns : List ℕ) → is_in k (insert n ns) ≡ (k == n || is_in k ns)
is_in-insert k n [] = refl
is_in-insert k n (m ∷ ms) = ground (arith, is_in-insert k n ms)

pub is_in-sorted : (k : ℕ) (ns : List ℕ) → is_in k (sorted ns) ≡ is_in k ns
is_in-sorted k [] = refl
is_in-sorted k (n ∷ ns) = ground (arith, is_in-sorted k ns, is_in-insert k n (sorted ns))

insert-within :
    (low high n : ℕ) (ns : List ℕ)
    → all_within low high (insert n ns) ≡ (is_within low high n && all_within low high ns)
insert-within low high n [] = refl
insert-within low high n (m ∷ ms) = ground (arith, insert-within low high n ms)

sorted-within :
    (low high : ℕ) (ns : List ℕ) → all_within low high (sorted ns) ≡ all_within low high ns
sorted-within low high [] = refl
sorted-within low high (n ∷ ns) =
    ground (arith, sorted-within low high ns, insert-within low high n (sorted ns))

insert-length : (n : ℕ) (ns : List ℕ) → length (insert n ns) ≡ suc (length ns)
insert-length n [] = refl
insert-length n (m ∷ ms) = ground (arith, insert-length n ms)

sorted-length : (ns : List ℕ) → length (sorted ns) ≡ length ns
sorted-length [] = refl
sorted-length (n ∷ ns) = insert-length n (sorted ns) ∙ ap suc (sorted-length ns)

-- Ids that start at 1 are sorted strictly, if none stands twice.
sorted-rising :
    (high : ℕ) (ns : List ℕ)
    → all_within 1 high ns ≡ true
    → has_duplicate ns ≡ false
    → is_rising 0 (sorted ns) ≡ true
sorted-rising high [] h d = refl
sorted-rising high (n ∷ ns) h d =
    ground (arith, sorted-rising high ns, insert-rising 0 n (sorted ns), is_in-sorted n ns)

topping_ids-within :
    (vs : List Scalar) (ns : List ℕ)
    → topping_ids vs ≡ ok ns
    → (all_within 1 max_database_id ns ≡ true) × (length ns ≡ length vs)
unfolding topping_ids
topping_ids-within [] ns h =
    let e = ok-injective h in (ap (all_within 1 max_database_id) (sym e), ap length (sym e))
topping_ids-within (v ∷ vs) ns h =
    let (n, read, h1) = bind_ok_inv _ (integer_in topping_id 1 max_database_id v) h in
    let (ms, rest, done) = bind_ok_inv _ (topping_ids vs) h1 in
    let (fits, same) = topping_ids-within vs ms rest in
    let e = ok-injective done in
    (
      ap (all_within 1 max_database_id) (sym e)
          ∙ both_true (integer_in-within topping_id 1 max_database_id v n read) fits,
      ap length (sym e) ∙ ap suc same,
    )

-- A normalised list of toppings.
abbrev pub are_toppings : List ℕ → Bool
are_toppings ns =
    all_within 1 max_database_id ns && is_rising 0 ns && leb (length ns) max_toppings_per_line

normalize_toppings-are :
    (raw : Toppings) (ns : List ℕ) → normalize_toppings raw ≡ ok ns → are_toppings ns ≡ true
unfolding normalize_toppings
normalize_toppings-are raw ns h =
    let (vs, listed, h1) = bind_ok_inv _ (topping_list raw) h in
    let (few, h2) = raise_if_inv _ (ltb max_toppings_per_line (length vs)) invalid_topping_ids h1 in
    let (ids, read, h3) = bind_ok_inv _ (topping_ids vs) h2 in
    let (distinct, done) = raise_if_inv _ (has_duplicate ids) duplicate_topping_ids h3 in
    let (fits, same) = topping_ids-within vs ids read in
    ap are_toppings (sym (ok-injective done))
    ∙ both_true
        (both_true (sorted-within 1 max_database_id ids ∙ fits)
          (sorted-rising max_database_id ids fits distinct))
        (few_toppings (length (sorted ids)) (length vs) (sorted-length ids ∙ same) few)
  where
    few_toppings :
        (n m : ℕ) → n ≡ m → ltb max_toppings_per_line m ≡ false → leb n max_toppings_per_line ≡ true
    few_toppings n m e f = ground arith

abbrev pub is_size : Option ℕ → Bool
is_size none = true
is_size (some n) = is_within 1 max_database_id n

-- A normalised item, by the largest quantity.
abbrev pub is_normal : ℕ → Item → Bool
is_normal most item =
    is_within 1 max_database_id item.product
    && is_within 1 most item.quantity
    && is_size item.size
    && are_toppings item.toppings

optional_id-size :
    (field : InputField) (v : Scalar) (o : Option ℕ) → optional_id field v ≡ ok o → is_size o ≡ true
unfolding optional_id
optional_id-size field v o h = by_value (is_unset v) h
  where
    by_value :
        (b : Bool)
        → (if b
            then (let r : Result InputError (Option ℕ) = ok none in r)
            else (integer_in field 1 max_database_id v >>= λ n. ok (some n)))
          ≡ ok o
        → is_size o ≡ true
    by_value true e = ap is_size (sym (ok-injective e))
    by_value false e =
        let (n, read, done) = bind_ok_inv _ (integer_in field 1 max_database_id v) e in
        ap is_size (sym (ok-injective done)) ∙ integer_in-within field 1 max_database_id v n read

normalize_item-normal :
    (setting : ℤ) (raw : Option RawItem) (item : Item)
    → normalize_item setting raw ≡ ok item
    → is_normal (max_quantity setting) item ≡ true
unfolding normalize_item
normalize_item-normal setting none item h = cc
normalize_item-normal setting (some raw) item h =
    let (p, e1, h1) = bind_ok_inv _ (integer_in product_id 1 max_database_id raw.product) h in
    let (q, e2, h2) =
      bind_ok_inv _ (integer_in quantity 1 (max_quantity setting) (or_one raw.quantity)) h1 in
    let (s, e3, h3) = bind_ok_inv _ (optional_id size_id raw.size) h2 in
    let (ts, e4, done) = bind_ok_inv _ (normalize_toppings raw.toppings) h3 in
    ap (is_normal (max_quantity setting)) (sym (ok-injective done))
    ∙ both_true
        (both_true
          (both_true (integer_in-within product_id 1 max_database_id raw.product p e1)
            (integer_in-within quantity 1 (max_quantity setting) (or_one raw.quantity) q e2))
          (optional_id-size size_id raw.size s e3))
        (normalize_toppings-are raw.toppings ts e4)

abbrev pub all_normal : ℕ → List Item → Bool
all_normal most [] = true
all_normal most (item ∷ items) = is_normal most item && all_normal most items

normalize_list-normal :
    (setting : ℤ) (raws : List (Option RawItem)) (items : List Item)
    → normalize_list setting raws ≡ ok items
    → (all_normal (max_quantity setting) items ≡ true) × (length items ≡ length raws)
unfolding normalize_list
normalize_list-normal setting [] items h =
    let e = ok-injective h in (ap (all_normal (max_quantity setting)) (sym e), ap length (sym e))
normalize_list-normal setting (raw ∷ raws) items h =
    let (item, e1, h1) = bind_ok_inv _ (normalize_item setting raw) h in
    let (rest, e2, done) = bind_ok_inv _ (normalize_list setting raws) h1 in
    let (fits, same) = normalize_list-normal setting raws rest e2 in
    let e = ok-injective done in
    (
      ap (all_normal (max_quantity setting)) (sym e)
          ∙ both_true (normalize_item-normal setting raw item e1) fits,
      ap length (sym e) ∙ ap suc same,
    )

-- A cart that the checks let through has between 1 and 100 lines; every line has a product and a
-- size that are keys of the database, a quantity from 1 to the largest one of the settings, and at
-- most 50 toppings, which are keys of the database in strictly rising order, so that none stands
-- twice.
pub normalized_cart_is_bounded :
    (setting : ℤ) (raw : RawCart) (items : List Item)
    → normalize_cart_items setting raw ≡ ok items
    → (1 ≤ length items) × (length items ≤ 100) × (all_normal (max_quantity setting) items ≡ true)
unfolding normalize_cart_items
normalized_cart_is_bounded setting not_a_list items h = cc
normalized_cart_is_bounded setting (item_list raws) items h =
    let (some_line, h1) = raise_if_inv _ (is_empty raws) empty_cart h in
    let (few, h2) = raise_if_inv _ (ltb max_cart_lines (length raws)) too_many_items h1 in
    let (fits, same) = normalize_list-normal setting raws items h2 in
    (rw same (one_line raws some_line), rw same (few_lines (length raws) few), fits)
  where
    one_line : (raws : List (Option RawItem)) → is_empty raws ≡ false → 1 ≤ length raws
    one_line [] e = cc
    one_line (r ∷ rs) e = omega arith

    few_lines : (n : ℕ) → ltb max_cart_lines n ≡ false → n ≤ 100
    few_lines n e = ground arith
