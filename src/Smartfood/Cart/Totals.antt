-- ===== src/Smartfood/Cart/Totals.antt =====
-- The totals of a cart (smartfood/services/cart_service.py, price_cart).
use mathlib.Core.Path.{subst}
use alpha_pos_server.Base.{
  ℕ, ◌≤◌, ◌≡◌, sym, ap, ◌∙◌, Bool, true, false, not, ◌&&◌, Option, none, some, List, arith, get_or,
  if◌then◌else◌, Result, ok, ok-injective, bind_ok_inv, raise_if_inv,
}
use alpha_pos_server.Base.Int.{ℤ, pos, ◌+ℤ◌, ◌-ℤ◌, ◌≤ℤ◌, ltb_ℤ, min_ℤ-le, int_laws, is_zero}
use alpha_pos_server.Smartfood.Cart.{
  Catalog, Config, Item, Line, OrderType, Priced, CartError, priced_lines, sum_lines, max_pos_total,
  totals, price_cart, usable, discount_of, is_free,
}

-- The discount is at most the subtotal.
discount_of-le :
    (cfg : Config) (o : Option ℕ) (subtotal : ℤ)
    → pos 0 ≤ℤ subtotal
    → discount_of cfg o subtotal ≤ℤ subtotal
discount_of-le cfg none subtotal h = h
discount_of-le cfg (some n) subtotal h = (min_ℤ-le _ subtotal).1

unclamped : (x : ℤ) → pos 0 ≤ℤ x → (if ltb_ℤ x (pos 0) then pos 0 else x) ≡ x
unclamped x h = ground arith

fee-nonneg :
    (cfg : Config) (b : Bool)
    → pos 0 ≤ℤ cfg.delivery_fee
    → pos 0 ≤ℤ (if b then pos 0 else cfg.delivery_fee)
fee-nonneg cfg true h = omega arith
fee-nonneg cfg false h = h

total_covers : (s f t d : ℤ) → d ≤ℤ s → pos 0 ≤ℤ f → pos 0 ≤ℤ t → f +ℤ t ≤ℤ s +ℤ f +ℤ t -ℤ d
total_covers s f t d h1 h2 h3 = omega int_laws

above_zero : (f t x : ℤ) → pos 0 ≤ℤ f → pos 0 ≤ℤ t → f +ℤ t ≤ℤ x → pos 0 ≤ℤ x
above_zero f t x h1 h2 h3 = omega int_laws

usable-le :
    (cfg : Config) (points : ℕ) (balance : Option ℤ) → get_or (usable cfg points balance) 0 ≤ points
usable-le cfg points none = omega arith
usable-le cfg points (some b) = ground arith

usable-le_balance :
    (cfg : Config) (points : ℕ) (b : ℤ)
    → pos 0 ≤ℤ b
    → pos (get_or (usable cfg points (some b)) 0) ≤ℤ b
usable-le_balance cfg points b h = ground arith

pub price_cart_inv :
    (cat : Catalog) (cfg : Config) (items : List Item) (order_type : OrderType) (points : ℕ)
    (tip : ℤ) (balance : Option ℤ) (priced : Priced)
    → price_cart cat cfg items order_type points tip balance ≡ ok priced
    → (lines : List Line) × (priced_lines cat items ≡ ok lines)
      × (ltb_ℤ max_pos_total priced.total ≡ false)
      × (not (is_zero cfg.min_order_amount) && ltb_ℤ (sum_lines lines) cfg.min_order_amount ≡ false)
      × (priced ≡ totals cfg order_type points tip balance lines)
unfolding price_cart
price_cart_inv cat cfg items order_type points tip balance priced h =
    let (lines, valid, h1) = bind_ok_inv _ (priced_lines cat items) h in
    let (small, h2) = raise_if_inv _ (ltb_ℤ max_pos_total (sum_lines lines)) _ h1 in
    let (enough, h3) =
      raise_if_inv _
        (not (is_zero cfg.min_order_amount) && ltb_ℤ (sum_lines lines) cfg.min_order_amount) _ h2 in
    let (fits, done) =
      raise_if_inv _ (ltb_ℤ max_pos_total (totals cfg order_type points tip balance lines).total) _
        h3 in
    let e = sym (ok-injective done) in
    (lines, valid, ap (λ p. ltb_ℤ max_pos_total p.total) e ∙ fits, enough, e)

not_above : (x : ℤ) → ltb_ℤ max_pos_total x ≡ false → x ≤ℤ max_pos_total
not_above x h = ground arith

-- A cart that is priced, with a fee and a tip that are not negative and a subtotal that is not, has
-- the subtotal of its lines, and a total that is exactly the subtotal, fee and tip less the
-- discount: the cut at 0 never applies. The discount is at most the subtotal, so the fee and tip
-- are always paid; the total fits the POS; and no more points are used than were asked for, nor
-- than the member has.
pub price_cart-totals :
    (cat : Catalog) (cfg : Config) (items : List Item) (order_type : OrderType) (points : ℕ)
    (tip : ℤ) (balance : ℤ) (priced : Priced)
    → price_cart cat cfg items order_type points tip (some balance) ≡ ok priced
    → pos 0 ≤ℤ cfg.delivery_fee
    → pos 0 ≤ℤ tip
    → pos 0 ≤ℤ priced.subtotal
    → pos 0 ≤ℤ balance
    → (priced.subtotal ≡ sum_lines priced.lines)
      × (priced_lines cat items ≡ ok priced.lines)
      × (priced.total ≡ priced.subtotal +ℤ priced.delivery_fee +ℤ priced.tip -ℤ priced.discount)
      × (priced.discount ≤ℤ priced.subtotal)
      × (priced.delivery_fee +ℤ priced.tip ≤ℤ priced.total)
      × (priced.total ≤ℤ max_pos_total)
      × (priced.points_used ≤ points)
      × (pos priced.points_used ≤ℤ balance)
unfolding totals
price_cart-totals cat cfg items order_type points tip balance priced h fee_ok tip_ok sub_ok
      balance_ok =
    let (lines, valid, small, enough, e) =
      price_cart_inv cat cfg items order_type points tip (some balance) priced h in
    let subtotal = sum_lines lines in
    let fee = (totals cfg order_type points tip (some balance) lines).delivery_fee in
    let discount = (totals cfg order_type points tip (some balance) lines).discount in
    let sub_pos : pos 0 ≤ℤ subtotal = subst (λ p. pos 0 ≤ℤ p.subtotal) e sub_ok in
    let fee_pos = fee-nonneg cfg (is_free cfg order_type subtotal) fee_ok in
    let below = discount_of-le cfg (usable cfg points (some balance)) subtotal sub_pos in
    let covers = total_covers subtotal fee tip discount below fee_pos tip_ok in
    let exact =
      unclamped (subtotal +ℤ fee +ℤ tip -ℤ discount) (above_zero fee tip _ fee_pos tip_ok covers) in
    (
      ap (λ p. p.subtotal) e ∙ ap sum_lines (sym (ap (λ p. p.lines) e)),
      valid ∙ ap (λ p. let r : Result CartError (List Line) = ok p.lines in r) (sym e),
      subst (λ (p : Priced). p.total ≡ p.subtotal +ℤ p.delivery_fee +ℤ p.tip -ℤ p.discount) (sym e)
          exact,
      subst (λ (p : Priced). p.discount ≤ℤ p.subtotal) (sym e) below,
      subst (λ (p : Priced). p.delivery_fee +ℤ p.tip ≤ℤ p.total) (sym e)
          (subst (λ x. fee +ℤ tip ≤ℤ x) (sym exact) covers),
      not_above priced.total small,
      subst (λ (p : Priced). p.points_used ≤ points) (sym e) (usable-le cfg points (some balance)),
      subst (λ (p : Priced). pos p.points_used ≤ℤ balance) (sym e)
          (usable-le_balance cfg points balance balance_ok),
    )
