-- ===== src/Smartfood/OrderInput/Examples.antt =====
-- A cart of one line, sent with texts for numbers.
use alpha_pos_server.Base.{
  ℕ, ◌≤◌, ◌≡◌, refl, true, none, some, List, [], ◌∷◌, text, strip, length, ok, arith,
}
use alpha_pos_server.Base.Int.{pos}
use alpha_pos_server.Smartfood.Cart.{Item}
use alpha_pos_server.Smartfood.OrderInput.{
  int_value, whole_float, text_value, null, array, RawCart, item_list, integer_in, optional_id,
  topping_ids, normalize_toppings, normalize_item, normalize_list, normalize_cart_items,
  max_quantity,
}
use alpha_pos_server.Smartfood.OrderInput.Bounds.{all_normal, normalized_cart_is_bounded}
use alpha_pos_server.Smartfood.OrderInput.RoundTrip.{
  as_text, written_cart, normalized_cart_round_trip,
}

abbrev cart : RawCart
cart = item_list (
    some (record {
      product = int_value (pos 7);
      quantity = some (text_value (text " 2"));
      size = null;
      toppings = array (whole_float (pos 5) ∷ text_value (text "03") ∷ []);
    })
    ∷ [])

abbrev items : List Item
items = record { product = 7; quantity = 2; size = none; toppings = 3 ∷ 5 ∷ [] } ∷ []

-- What a run computes with.
input_run : ℕ → ℕ
unfolding strip integer_in optional_id topping_ids normalize_toppings normalize_item normalize_list
    normalize_cart_items
input_run n = n

reads : normalize_cart_items (pos 100) cart ≡ ok items
unfolding input_run
reads = refl

normalized_cart_is_bounded_example :
    (1 ≤ length items) × (length items ≤ 100) × (all_normal (max_quantity (pos 100)) items ≡ true)
normalized_cart_is_bounded_example = normalized_cart_is_bounded (pos 100) cart items reads

normalized_cart_round_trip_example :
    normalize_cart_items (pos 100) (written_cart as_text items) ≡ ok items
normalized_cart_round_trip_example =
    normalized_cart_round_trip as_text (pos 100) cart items (omega arith) reads
