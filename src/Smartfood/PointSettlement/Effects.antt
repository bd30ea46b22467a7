-- ===== src/Smartfood/PointSettlement/Effects.antt =====
-- Sequences of reconciliations (smartfood/services/loyalty_settlement_service.py).
use mathlib.Core.Path.{subst}
use alpha_pos_server.Base.{
  ℕ, ◌≡◌, ◌≤◌, ◌+◌, refl, sym, ap, ◌∙◌, Bool, true, false, not, ◌&&◌, ◌||◌, Option, none, some,
  List, [], ◌∷◌, Table, arith, get, or_else, is_some, is_key, if◌then◌else◌, Bool-cases, inl, inr,
  ok, ◌>>=◌, bind_ok_inv, ok-injective,
}
use alpha_pos_server.Base.Int.{ℤ}
use alpha_pos_server.Smartfood.Loyalty.{Club, Txn, txn_of}
use alpha_pos_server.Smartfood.PointSettlement.{
  BotOrder, PosOrder, Shop, Work, PointEffect, earn, restore, reversal, is_event, first_event,
  earlier_event, adopt, post, mark_restored, mark_reversed, mark_released, take_back, owes_spend,
  owes_reversal, owes_earn, restore_change, reversal_change, earn_change, restore_spend,
  reverse_earn, release_earn, is_pos_canceled, is_called_off, has_authoritative_settlement, pos_of,
  apply_outcome, reconcile_row, reconcile_bot_order_loyalty,
}
use alpha_pos_server.Smartfood.PointSettlement.Steps.{
  Quiet, adopt-Quiet, post_inv, by_owed, ok_inv, restore_spend-Kept,
}

-- How often an effect of an order stands in the ledger.
abbrev pub times : PointEffect → ℕ → List Txn → ℕ
times e id [] = 0
times e id (t ∷ ts) = let rest = times e id ts in if is_event e id t then rest + 1 else rest

-- A call on any order, or any change of the orders that leaves the ledger alone.
pub data SettlementStep : Shop → Shop → Type 0 where
  reconciled :
      {shop shop' : Shop} {b : Bool} (now : ℕ) (has_tender_issues : ℕ → Bool) (id : ℕ)
      → reconcile_bot_order_loyalty now has_tender_issues id shop ≡ ok (shop', b)
      → SettlementStep shop shop'
  elsewhere : {shop shop' : Shop} → shop'.club.txns ≡ shop.club.txns → SettlementStep shop shop'

pub data SettlementReach : Shop → Shop → Type 0 where
  start_here : {shop : Shop} → SettlementReach shop shop
  then_settle :
      {shop mid end : Shop}
      → SettlementReach shop mid
      → SettlementStep mid end
      → SettlementReach shop end

earlier_event-some : (t : ℕ) (o : Option ℕ) (n : ℕ) → earlier_event t o ≡ none → n ≡ 0
earlier_event-some t none n h = cc
earlier_event-some t (some u) n h = ground arith

no_event :
    (e : PointEffect) (id : ℕ) (ts : List Txn) → first_event e id ts ≡ none → times e id ts ≡ 0
unfolding first_event
no_event e id [] h = refl
no_event e id (t ∷ ts) h = here_or_not (is_event e id t) h (no_event e id ts)
  where
    here_or_not :
        (b : Bool)
        → (if b then earlier_event t.created_at (first_event e id ts) else first_event e id ts)
          ≡ none
        → (first_event e id ts ≡ none → times e id ts ≡ 0)
        → (if b then times e id ts + 1 else times e id ts) ≡ 0
    here_or_not true found in_rest = earlier_event-some t.created_at (first_event e id ts) _ found
    here_or_not false none_there in_rest = in_rest none_there

unstamped :
    (e : PointEffect) (id : ℕ) (ts : List Txn) (stamp : Option ℕ)
    → is_some stamp ≡ false
    → or_else stamp (first_event e id ts) ≡ stamp
    → times e id ts ≡ 0
unstamped e id ts none h quiet = no_event e id ts quiet
unstamped e id ts (some t) h quiet = cc

added_once :
    (e : PointEffect) (id : ℕ) (t : Txn) (ts : List Txn)
    → (is_event e id t ≡ true → times e id ts ≡ 0)
    → times e id ts ≤ 1
    → times e id (t ∷ ts) ≤ 1
added_once e id t ts first h = elim (Bool-cases (is_event e id t)) [
  | inl own ↦ rw (own, first own) (omega arith)
  | inr other ↦ rw other h
]

owed_stamp : (a s : Bool) → a && not s ≡ true → s ≡ false
owed_stamp true false h = refl
owed_stamp true true h = cc
owed_stamp false s h = cc

both_left : (a b : Bool) → a && b ≡ true → a ≡ true
both_left true b h = refl
both_left false b h = cc

own_key : (id j : ℕ) (rest : Bool) → is_key id (some j) && rest ≡ true → j ≡ id
own_key id j rest h = ground arith

-- Of an order and an effect that stand in the ledger once at most, this still holds.
abbrev AtMostOnce : PointEffect → ℕ → Club → Club → Type 0
AtMostOnce e id before after = times e id before.txns ≤ 1 → times e id after.txns ≤ 1

restore_spend-AtMostOnce :
    (now j : ℕ) (w end : Work) (e : PointEffect) (id : ℕ)
    → Quiet j w.club w.row
    → restore_spend now j w ≡ ok end
    → AtMostOnce e id w.club end.club
unfolding restore_spend
restore_spend-AtMostOnce now j w end e id quiet h =
    by_owed (λ x. AtMostOnce e id w.club x.club) (owes_spend w.row) _ w end h
      (λ owed posted.
        let (club, balance, wrote, marked) =
          post_inv now (restore_change j w.row) (mark_restored now) w end posted in
        subst (λ x. AtMostOnce e id w.club x.club) (sym marked)
          (λ before. rw wrote (added_once e id _ w.club.txns (first_of e owed balance) before)))
      (λ idle before. before)
  where
    first_of :
        (e : PointEffect)
        → owes_spend w.row ≡ true
        → (balance : ℤ)
        → is_event e id (txn_of now w.row.customer (restore_change j w.row) balance) ≡ true
        → times e id w.club.txns ≡ 0
    first_of earn owed balance own = cc
    first_of restore owed balance own =
        ap (λ k. times restore k w.club.txns) (sym (own_key id j _ own))
        ∙ unstamped restore j w.club.txns w.row.spend_restored_at (owed_stamp _ _ owed) quiet.1
    first_of reversal owed balance own = cc

take_back-AtMostOnce :
    (now j : ℕ) (w end : Work) (e : PointEffect) (id : ℕ)
    → Quiet j w.club w.row
    → owes_reversal w.row ≡ true
    → take_back now j w ≡ ok end
    → AtMostOnce e id w.club end.club
take_back-AtMostOnce now j w end e id quiet owed h =
    released_or_not (is_some w.row.earned_settled_at) h
  where
    first_of :
        (e : PointEffect)
        → (balance : ℤ)
        → is_event e id (txn_of now w.row.customer (reversal_change j w.row) balance) ≡ true
        → times e id w.club.txns ≡ 0
    first_of earn balance own = cc
    first_of restore balance own = cc
    first_of reversal balance own =
        ap (λ k. times reversal k w.club.txns) (sym (own_key id j _ (both_left _ _ own)))
        ∙ unstamped reversal j w.club.txns w.row.earn_reversed_at (owed_stamp _ _ owed) quiet.2

    released_or_not :
        (b : Bool)
        → (if b
            then post now (reversal_change j w.row) (mark_reversed now) w
            else ok (mark_reversed now w.club w))
          ≡ ok end
        → AtMostOnce e id w.club end.club
    released_or_not true posted =
        let (club, balance, wrote, marked) =
          post_inv now (reversal_change j w.row) (mark_reversed now) w end posted in
        subst (λ x. AtMostOnce e id w.club x.club) (sym marked)
          (λ before. rw wrote (added_once e id _ w.club.txns (first_of e balance) before))
    released_or_not false done =
        subst (λ x. AtMostOnce e id w.club x.club) (ok_inv done) (λ before. before)

reverse_earn-AtMostOnce :
    (now j : ℕ) (w end : Work) (e : PointEffect) (id : ℕ)
    → Quiet j w.club w.row
    → reverse_earn now j w ≡ ok end
    → AtMostOnce e id w.club end.club
unfolding reverse_earn
reverse_earn-AtMostOnce now j w end e id quiet h =
    by_owed (λ x. AtMostOnce e id w.club x.club) (owes_reversal w.row) (take_back now j w) w end h
      (λ owed taken. take_back-AtMostOnce now j w end e id quiet owed taken) (λ idle before. before)

release_earn-AtMostOnce :
    (now j : ℕ) (is_settled : Bool) (w end : Work) (e : PointEffect) (id : ℕ)
    → Quiet j w.club w.row
    → release_earn now j is_settled w ≡ ok end
    → AtMostOnce e id w.club end.club
unfolding release_earn
release_earn-AtMostOnce now j is_settled w end e id quiet h =
    by_owed (λ x. AtMostOnce e id w.club x.club) (owes_earn w.row && is_settled) _ w end h
      (λ owed posted.
        let (club, balance, wrote, marked) =
          post_inv now (earn_change j w.row) (mark_released now) w end posted in
        subst (λ x. AtMostOnce e id w.club x.club) (sym marked)
          (λ before. rw wrote (added_once e id _ w.club.txns (first_of e owed balance) before)))
      (λ idle before. before)
  where
    first_of :
        (e : PointEffect)
        → owes_earn w.row && is_settled ≡ true
        → (balance : ℤ)
        → is_event e id (txn_of now w.row.customer (earn_change j w.row) balance) ≡ true
        → times e id w.club.txns ≡ 0
    first_of earn owed balance own =
        ap (λ k. times earn k w.club.txns) (sym (own_key id j _ own))
        ∙ unstamped earn j w.club.txns w.row.earned_settled_at
            (owed_stamp _ _ (both_left _ is_settled owed)) quiet.0
    first_of restore owed balance own = cc
    first_of reversal owed balance own = cc

apply_outcome-AtMostOnce :
    (now : ℕ) (has_issues : ℕ → Bool) (j : ℕ) (pos_orders : Table PosOrder) (w end : Work)
    (e : PointEffect) (id : ℕ)
    → Quiet j w.club w.row
    → apply_outcome now has_issues j pos_orders w ≡ ok end
    → AtMostOnce e id w.club end.club
unfolding apply_outcome
apply_outcome-AtMostOnce now has_issues j pos_orders w end e id quiet h =
    by_branch (is_called_off w.row.status || is_pos_canceled (pos_of w.row.pos_order pos_orders)) h
  where
    auth : Bool
    auth =
        has_authoritative_settlement has_issues w.row.pos_order (pos_of w.row.pos_order pos_orders)

    by_branch :
        (b : Bool)
        → (if b then restore_spend now j w >>= reverse_earn now j else release_earn now j auth w)
          ≡ ok end
        → AtMostOnce e id w.club end.club
    by_branch true both =
        let (mid, first, second) = bind_ok_inv (reverse_earn now j) (restore_spend now j w) both in
        let quiet_mid = (restore_spend-Kept now j w mid quiet first).0.0 in
        λ before.
          reverse_earn-AtMostOnce now j mid end e id quiet_mid second
            (restore_spend-AtMostOnce now j w mid e id quiet first before)
    by_branch false released = release_earn-AtMostOnce now j auth w end e id quiet released

SettlementStep-AtMostOnce :
    (e : PointEffect) (id : ℕ) {shop shop' : Shop}
    → SettlementStep shop shop'
    → AtMostOnce e id shop.club shop'.club
unfolding reconcile_bot_order_loyalty reconcile_row adopt
SettlementStep-AtMostOnce e id (elsewhere same) = λ before. rw same before
SettlementStep-AtMostOnce e id {shop} {shop'} (reconciled {b} now has_issues j h) =
    by_row (get j shop.bot_orders) h
  where
    by_row :
        (row : Option BotOrder)
        → reconcile_row now has_issues j row shop ≡ ok (shop', b)
        → AtMostOnce e id shop.club shop'.club
    by_row none done =
        subst (λ s. AtMostOnce e id shop.club s.club) (ap (λ x. x.0) (ok-injective done))
          (λ before. before)
    by_row (some o) done =
        let (w, applied, saved) =
          bind_ok_inv _ (apply_outcome now has_issues j shop.pos_orders (adopt j shop.club o))
            done in
        subst (λ s. AtMostOnce e id shop.club s.club) (ap (λ x. x.0) (ok-injective saved))
          (apply_outcome-AtMostOnce now has_issues j shop.pos_orders (adopt j shop.club o) w e id
            (adopt-Quiet j shop.club o) applied)

-- However often, in whatever order and at whatever times the points of the orders are reconciled,
-- and whatever happens to the orders' own rows in between (their stamps included), as long as
-- nothing else writes the ledger: of the earn, the restored points and the reversed points of an
-- order, each is in the ledger at most once if it was at the start.
pub effects_at_most_once :
    (e : PointEffect) (id : ℕ) {shop end : Shop}
    → SettlementReach shop end
    → times e id shop.club.txns ≤ 1
    → times e id end.club.txns ≤ 1
effects_at_most_once e id start_here before = before
effects_at_most_once e id (then_settle reach step) before =
    SettlementStep-AtMostOnce e id step (effects_at_most_once e id reach before)
