-- ===== src/Smartfood/PointSettlement/Steps.antt =====
-- The steps of a reconciliation (smartfood/services/loyalty_settlement_service.py).
use mathlib.Core.Path.{subst}
use alpha_pos_server.Base.{
  ℕ, ◌≡◌, refl, sym, ap, Bool, true, false, not, ◌&&◌, Option, none, some, ◌∷◌, get, or_else,
  is_some, if◌then◌else◌, Result, ok, bind_ok_inv, or_raise_inv, ok-injective,
}
use alpha_pos_server.Base.Int.{ℤ, pos, ltb_ℤ}
use alpha_pos_server.Smartfood.Loyalty.{
  Club, Change, ClubRefusal, record_points, write_change, txn_of, balance_after,
}
use alpha_pos_server.Smartfood.PointSettlement.{
  BotOrder, Work, earn, restore, reversal, first_event, is_new, adopt, post, mark_restored,
  mark_reversed, mark_released, take_back, owes_spend, owes_reversal, owes_earn, restore_change,
  reversal_change, earn_change, restore_spend, reverse_earn, release_earn,
}

-- The ledger holds no effect that the row has no stamp for.
abbrev pub Quiet : ℕ → Club → BotOrder → Type 0
Quiet id club o =
    (or_else o.earned_settled_at (first_event earn id club.txns) ≡ o.earned_settled_at)
    × (or_else o.spend_restored_at (first_event restore id club.txns) ≡ o.spend_restored_at)
    × (or_else o.earn_reversed_at (first_event reversal id club.txns) ≡ o.earn_reversed_at)

or_else_again {ℓ} : {A : Type ℓ} (a b : Option A) → or_else (or_else a b) b ≡ or_else a b
or_else_again none none = refl
or_else_again none (some y) = refl
or_else_again (some x) b = refl

not_new : (a : Option ℕ) → is_new a a ≡ false
not_new none = refl
not_new (some x) = refl

pub adopt-Quiet : (id : ℕ) (club : Club) (o : BotOrder) → Quiet id club (adopt id club o).row
unfolding adopt
adopt-Quiet id club o = (
  or_else_again o.earned_settled_at _,
  or_else_again o.spend_restored_at _,
  or_else_again o.earn_reversed_at _,
)

-- A quiet row has nothing to adopt.
pub adopt_nothing :
    (id : ℕ) (club : Club) (o : BotOrder)
    → Quiet id club o
    → adopt id club o ≡ (let w : Work = record { club = club; row = o; changed = false } in w)
unfolding adopt
adopt_nothing id club o (a, b, c) =
    rw
      (
        a,
        b,
        c,
        not_new o.earned_settled_at,
        not_new o.spend_restored_at,
        not_new o.earn_reversed_at,
      )
      refl

pub post_inv :
    (now : ℕ) (ch : Change) (mark : Club → Work → Work) (w end : Work)
    → post now ch mark w ≡ ok end
    → (club : Club) × (balance : ℤ) × (club.txns
        ≡ txn_of now w.row.customer ch balance ∷ w.club.txns)
      × (end ≡ mark club w)
unfolding record_points write_change
post_inv now ch mark w end h =
    let (r, recorded, done) = bind_ok_inv _ (record_points now w.row.customer ch w.club) h in
    let (c, found, wrote) = or_raise_inv _ (get w.row.customer w.club.customers) _ recorded in
    (
      r.0,
      balance_after c ch,
      ap (λ x. x.0.txns) (sym (ok-injective wrote)),
      sym (ok-injective done),
    )

and_not-true : (b : Bool) → b && not true ≡ false
and_not-true true = refl
and_not-true false = refl

pub ok_inv : {a b : Work} → let r : Result ClubRefusal Work = ok a in r ≡ ok b → a ≡ b
ok_inv h = ok-injective h

-- A step is the identity, or a mark.
pub by_owed :
    (P : Work → Type 0) (b : Bool) (m : Result ClubRefusal Work) (w end : Work)
    → (if b then m else ok w) ≡ ok end
    → (b ≡ true → m ≡ ok end → P end)
    → (b ≡ false → P w)
    → P end
by_owed P true m w end h owed idle = owed refl h
by_owed P false m w end h owed idle = subst P (ok_inv h) (idle refl)

-- What a step keeps of the row, and that it says so when it writes.
abbrev pub Kept : ℕ → Work → Work → Type 0
Kept id w end =
    Quiet id end.club end.row
    × (end.row.status ≡ w.row.status)
    × (end.row.pos_order ≡ w.row.pos_order)
    × (end.changed ≡ false → end ≡ w)

pub restore_spend-Kept :
    (now id : ℕ) (w end : Work)
    → Quiet id w.club w.row
    → restore_spend now id w ≡ ok end
    → Kept id w end × (owes_spend end.row ≡ false)
unfolding restore_spend first_event
restore_spend-Kept now id w end quiet h =
    by_owed (λ x. Kept id w x × (owes_spend x.row ≡ false)) (owes_spend w.row) _ w end h
      (λ owed posted.
        let (club, balance, wrote, marked) =
          post_inv now (restore_change id w.row) (mark_restored now) w end posted in
        subst (λ x. Kept id w x × (owes_spend x.row ≡ false)) (sym marked)
          (
            ((rw wrote quiet.0, refl, rw wrote quiet.2), refl, refl, λ unchanged. cc),
            and_not-true _,
          ))
      (λ idle. ((quiet, refl, refl, λ unchanged. refl), idle))

abbrev Reversed : ℕ → Work → Work → Type 0
Reversed id w end =
    Kept id w end × (owes_reversal end.row ≡ false) × (owes_spend end.row ≡ owes_spend w.row)

take_back-Reversed :
    (now id : ℕ) (w end : Work)
    → Quiet id w.club w.row
    → take_back now id w ≡ ok end
    → Reversed id w end
unfolding first_event
take_back-Reversed now id w end quiet h = released_or_not (is_some w.row.earned_settled_at) h
  where
    released_or_not :
        (b : Bool)
        → (if b
            then post now (reversal_change id w.row) (mark_reversed now) w
            else ok (mark_reversed now w.club w))
          ≡ ok end
        → Reversed id w end
    released_or_not true posted =
        let (club, balance, wrote, marked) =
          post_inv now (reversal_change id w.row) (mark_reversed now) w end posted in
        subst (Reversed id w) (sym marked) (
          ((rw wrote quiet.0, rw wrote quiet.1, refl), refl, refl, λ unchanged. cc),
          and_not-true _,
          refl,
        )
    released_or_not false done =
        subst (Reversed id w) (ok_inv done)
          (((quiet.0, quiet.1, refl), refl, refl, λ unchanged. cc), and_not-true _, refl)

pub reverse_earn-Reversed :
    (now id : ℕ) (w end : Work)
    → Quiet id w.club w.row
    → reverse_earn now id w ≡ ok end
    → Reversed id w end
unfolding reverse_earn
reverse_earn-Reversed now id w end quiet h =
    by_owed (Reversed id w) (owes_reversal w.row) (take_back now id w) w end h
      (λ owed taken. take_back-Reversed now id w end quiet taken)
      (λ idle. ((quiet, refl, refl, λ unchanged. refl), idle, refl))

pub release_earn-Kept :
    (now id : ℕ) (is_settled : Bool) (w end : Work)
    → Quiet id w.club w.row
    → release_earn now id is_settled w ≡ ok end
    → Kept id w end × (owes_earn end.row && is_settled ≡ false)
unfolding release_earn first_event
release_earn-Kept now id is_settled w end quiet h =
    by_owed (λ x. Kept id w x × (owes_earn x.row && is_settled ≡ false))
      (owes_earn w.row && is_settled) _ w end h
      (λ owed posted.
        let (club, balance, wrote, marked) =
          post_inv now (earn_change id w.row) (mark_released now) w end posted in
        subst (λ x. Kept id w x × (owes_earn x.row && is_settled ≡ false)) (sym marked)
          (
            ((refl, rw wrote quiet.1, rw wrote quiet.2), refl, refl, λ unchanged. cc),
            rw (and_not-true (ltb_ℤ (pos 0) w.row.points_earned)) refl,
          ))
      (λ idle. ((quiet, refl, refl, λ unchanged. refl), idle))
