-- ===== src/Smartfood/PointSettlement/Once.antt =====
-- Repeated reconciliation of an order (smartfood/services/loyalty_settlement_service.py).
use mathlib.Core.Path.{subst}
use alpha_pos_server.Base.{
  ℕ, ◌≡◌, refl, sym, ap, ◌∙◌, Bool, true, false, ◌&&◌, ◌||◌, Option, none, some, Table, get,
  get-put_self, or_else, if◌then◌else◌, Bool-cases, inl, inr, ok, ◌>>=◌, bind_ok_inv, ok-injective,
}
use alpha_pos_server.Smartfood.Loyalty.{Club}
use alpha_pos_server.Smartfood.PointSettlement.{
  BotOrder, PosOrder, Shop, Work, earn, restore, first_event, is_new, adopt, owes_spend,
  owes_reversal, owes_earn, restore_spend, reverse_earn, release_earn, is_pos_canceled,
  is_called_off, has_authoritative_settlement, pos_of, apply_outcome, save_work, reconcile_row,
  reconcile_bot_order_loyalty,
}
use alpha_pos_server.Smartfood.PointSettlement.Steps.{
  Quiet, adopt-Quiet, adopt_nothing, Kept, restore_spend-Kept, reverse_earn-Reversed,
  release_earn-Kept,
}

-- The branch that the outcome takes.
abbrev is_off : Table PosOrder → BotOrder → Bool
is_off pos_orders o = is_called_off o.status || is_pos_canceled (pos_of o.pos_order pos_orders)

-- Nothing is left to do for the row.
abbrev Rests : (ℕ → Bool) → Table PosOrder → BotOrder → Type 0
Rests has_issues pos_orders o =
    (is_off pos_orders o ≡ true → (owes_spend o ≡ false) × (owes_reversal o ≡ false))
    × (is_off pos_orders o ≡ false
        → owes_earn o
            && has_authoritative_settlement has_issues o.pos_order (pos_of o.pos_order pos_orders)
          ≡ false)

apply_outcome-Rests :
    (now : ℕ) (has_issues : ℕ → Bool) (id : ℕ) (pos_orders : Table PosOrder) (w : Work)
    → Rests has_issues pos_orders w.row
    → apply_outcome now has_issues id pos_orders w ≡ ok w
unfolding apply_outcome restore_spend reverse_earn release_earn
apply_outcome-Rests now has_issues id pos_orders w (off, on) =
    elim (Bool-cases (is_off pos_orders w.row)) [
      | inl e ↦ let (spend, reversed) = off e in rw (e, spend, reversed) refl
      | inr e ↦ rw (e, on e) refl
    ]

is_off_same :
    (pos_orders : Table PosOrder) (o p : BotOrder)
    → o.status ≡ p.status
    → o.pos_order ≡ p.pos_order
    → is_off pos_orders o ≡ is_off pos_orders p
is_off_same pos_orders o p a b = rw (a, b) refl

pub apply_outcome-Kept :
    (now : ℕ) (has_issues : ℕ → Bool) (id : ℕ) (pos_orders : Table PosOrder) (w end : Work)
    → Quiet id w.club w.row
    → apply_outcome now has_issues id pos_orders w ≡ ok end
    → Kept id w end × Rests has_issues pos_orders end.row
unfolding apply_outcome
apply_outcome-Kept now has_issues id pos_orders w end quiet h =
    by_branch (is_off pos_orders w.row) refl h
  where
    auth : Bool
    auth =
        has_authoritative_settlement has_issues w.row.pos_order (pos_of w.row.pos_order pos_orders)

    by_branch :
        (b : Bool)
        → is_off pos_orders w.row ≡ b
        → (if b then restore_spend now id w >>= reverse_earn now id else release_earn now id auth w)
          ≡ ok end
        → Kept id w end × Rests has_issues pos_orders end.row
    by_branch true e both =
        let (mid, first, second) =
          bind_ok_inv (reverse_earn now id) (restore_spend now id w) both in
        let ((quiet_mid, status_mid, link_mid, same_mid), paid) =
          restore_spend-Kept now id w mid quiet first in
        let ((quiet_end, status_end, link_end, same_end), taken, spend) =
          reverse_earn-Reversed now id mid end quiet_mid second in
        let branch =
          is_off_same pos_orders end.row w.row (status_end ∙ status_mid) (link_end ∙ link_mid)
          ∙ e in
        (
          (
            quiet_end,
            status_end ∙ status_mid,
            link_end ∙ link_mid,
            λ unchanged.
                let to_mid = same_end unchanged in
                to_mid ∙ same_mid (ap (λ x. x.changed) (sym to_mid) ∙ unchanged),
          ),
          ((λ off. (spend ∙ paid, taken)), λ on. cc),
        )
    by_branch false e released =
        let ((quiet_end, status_end, link_end, same_end), done) =
          release_earn-Kept now id auth w end quiet released in
        let branch = is_off_same pos_orders end.row w.row status_end link_end ∙ e in
        ((quiet_end, status_end, link_end, same_end), ((λ off. cc), λ on. rw link_end done))

no_news : (a b : Option ℕ) → is_new a (or_else a b) ≡ false → or_else a b ≡ a
no_news none none h = refl
no_news none (some y) h = cc
no_news (some x) b h = refl

or_false : (a b : Bool) → a || b ≡ false → (a ≡ false) × (b ≡ false)
or_false true b h = cc
or_false false b h = (refl, h)

-- Where nothing was adopted the row is as it was.
adopt-same :
    (id : ℕ) (club : Club) (o : BotOrder)
    → (adopt id club o).changed ≡ false
    → (adopt id club o).row ≡ o
unfolding adopt
adopt-same id club o h =
    let (ab, c) = or_false _ (is_new o.earn_reversed_at _) h in
    let settled = or_else o.earned_settled_at (first_event earn id club.txns) in
    let restored = or_else o.spend_restored_at (first_event restore id club.txns) in
    let (a, b) =
      or_false (is_new o.earned_settled_at settled) (is_new o.spend_restored_at restored) ab in
    rw
      (
        no_news o.earned_settled_at _ a,
        no_news o.spend_restored_at _ b,
        no_news o.earn_reversed_at _ c,
      )
      refl

-- The row that a call leaves in the table.
stored :
    (id : ℕ) (shop : Shop) (o : BotOrder) (w : Work)
    → get id shop.bot_orders ≡ some o
    → (w.changed ≡ false → w ≡ adopt id shop.club o)
    → get id (save_work id shop w).0.bot_orders ≡ some w.row
stored id shop o w found same = elim (Bool-cases w.changed) [
  | inl e ↦ rw e (get-put_self id w.row shop.bot_orders)
  | inr e ↦
      let was = same e in
      rw e (
        found
        ∙ ap some (
            sym (
              ap (λ x. x.row) was ∙ adopt-same id shop.club o (ap (λ x. x.changed) (sym was) ∙ e))))
]

reconcile_stored :
    (later : ℕ) (has_issues : ℕ → Bool) (id : ℕ) (shop : Shop) (o : BotOrder)
    → get id shop.bot_orders ≡ some o
    → Quiet id shop.club o
    → Rests has_issues shop.pos_orders o
    → reconcile_bot_order_loyalty later has_issues id shop ≡ ok (shop, false)
unfolding reconcile_bot_order_loyalty reconcile_row adopt
reconcile_stored later has_issues id shop o found quiet rests =
    let idle : Work = record { club = shop.club; row = o; changed = false } in
    rw
      (
        found,
        adopt_nothing id shop.club o quiet,
        apply_outcome-Rests later has_issues id shop.pos_orders idle rests,
      )
      refl

-- Reconciling a bot order's points is idempotent: a second call on the same POS orders, at whatever
-- time, reports no change and changes nothing, whether the first released, restored, reversed or
-- adopted points or did nothing.
pub reconcile_twice :
    (now later : ℕ) (has_issues : ℕ → Bool) (id : ℕ) (shop shop' : Shop) (b : Bool)
    → reconcile_bot_order_loyalty now has_issues id shop ≡ ok (shop', b)
    → reconcile_bot_order_loyalty later has_issues id shop' ≡ ok (shop', false)
unfolding reconcile_bot_order_loyalty reconcile_row adopt
reconcile_twice now later has_issues id shop shop' b h = by_row (get id shop.bot_orders) refl h
  where
    by_row :
        (row : Option BotOrder)
        → get id shop.bot_orders ≡ row
        → reconcile_row now has_issues id row shop ≡ ok (shop', b)
        → reconcile_bot_order_loyalty later has_issues id shop' ≡ ok (shop', false)
    by_row none missing done =
        subst (λ s. reconcile_bot_order_loyalty later has_issues id s ≡ ok (s, false))
          (ap (λ x. x.0) (ok-injective done)) (rw missing refl)
    by_row (some o) found done =
        let (w, applied, saved) =
          bind_ok_inv _ (apply_outcome now has_issues id shop.pos_orders (adopt id shop.club o))
            done in
        let ((quiet, status_same, link_same, same), rests) =
          apply_outcome-Kept now has_issues id shop.pos_orders (adopt id shop.club o) w
            (adopt-Quiet id shop.club o) applied in
        subst (λ s. reconcile_bot_order_loyalty later has_issues id s ≡ ok (s, false))
          (ap (λ x. x.0) (ok-injective saved))
          (reconcile_stored later has_issues id (save_work id shop w).0 w.row
            (stored id shop o w found same) quiet rests)
