-- ===== src/Smartfood/PointSettlement.antt =====
-- The points of a bot order against the outcome of its POS order
-- (smartfood/services/loyalty_settlement_service.py).
-- One call reads the clock once. The core's order is the columns that are read here, and
-- `has_tender_issues` is the core's check of the tender of the order with this key.
pub mod Steps
pub mod Once
pub mod Effects
mod Examples
use alpha_pos_server.Base.{
  ℕ, Bool, true, false, not, ◌&&◌, ◌||◌, Option, none, some, List, [], ◌∷◌, ◌++◌, Table, Text, text,
  decimal, get, put, is_some, is_key, or_else, ltb, ◌==◌, if◌then◌else◌, Result, err, ok, ◌>>=◌,
}
use alpha_pos_server.Base.Int.{ℤ, pos, neg, ltb_ℤ, leb_ℤ}
use alpha_pos_server.Smartfood.Loyalty.{
  Club, Txn, TxnKind, earn_order, earn_scan, spend_order, redeem_gift, grant_bonus, refund_points,
  adjust, Change, ClubRefusal, record_points,
}

pub data BotStatus : Type 0 where
  pending dispatched rejected canceled : BotStatus

pub record BotOrder : Type 0 where
  pub customer : ℕ
  pub status : BotStatus
  pub pos_order : Option ℕ
  pub points_used : ℤ  -- loyalty_points_used
  pub points_earned : ℤ  -- loyalty_points_earned
  pub earned_settled_at : Option ℕ  -- loyalty_earned_settled_at
  pub spend_restored_at : Option ℕ  -- loyalty_spend_restored_at
  pub earn_reversed_at : Option ℕ  -- loyalty_earn_reversed_at

pub data PosStatus : Type 0 where
  pos_completed pos_canceled pos_other : PosStatus

pub record PosOrder : Type 0 where
  pub is_deleted : Bool
  pub status : PosStatus
  pub is_paid : Bool
  pub paid_at : Option ℕ

pub record Shop : Type 0 where
  pub club : Club
  pub bot_orders : Table BotOrder
  pub pos_orders : Table PosOrder

abbrev pub kind_code : TxnKind → ℕ
kind_code earn_order = 0
kind_code earn_scan = 1
kind_code spend_order = 2
kind_code redeem_gift = 3
kind_code grant_bonus = 4
kind_code refund_points = 5
kind_code adjust = 6

abbrev pub starts_with : Text → Text → Bool
starts_with [] s = true
starts_with (a ∷ p) [] = false
starts_with (a ∷ p) (b ∷ s) = a == b && starts_with p s

abbrev pub reversal_prefix : Text
reversal_prefix = text "Reversed earned points for canceled order "

-- The rows that the three searches of the ledger look for.
pub data PointEffect : Type 0 where
  earn restore reversal : PointEffect

abbrev pub is_event : PointEffect → ℕ → Txn → Bool
is_event earn id t = kind_code t.kind == 0 && is_key id t.bot_order && ltb_ℤ (pos 0) t.points
is_event restore id t = kind_code t.kind == 5 && is_key id t.bot_order && ltb_ℤ (pos 0) t.points
is_event reversal id t =
    kind_code t.kind == 6
    && is_key id t.bot_order
    && ltb_ℤ t.points (pos 0)
    && starts_with reversal_prefix t.reason

-- `order_by('created_at', 'id').first()` over rows whose ids fall: a tie goes to the older row.
abbrev pub earlier_event : ℕ → Option ℕ → Option ℕ
earlier_event t none = some t
earlier_event t (some u) = if ltb t u then some t else some u

-- `_first_event`: the time of the first such row.
unfoldable pub first_event : PointEffect → ℕ → List Txn → Option ℕ
first_event e id [] = none
first_event e id (t ∷ ts) =
    let rest = first_event e id ts in
    if is_event e id t then earlier_event t.created_at rest else rest

-- The locked row while a call works on it.
pub record Work : Type 0 where
  pub club : Club
  pub row : BotOrder
  pub changed : Bool

abbrev pub is_new : Option ℕ → Option ℕ → Bool
is_new before after = is_some after && not (is_some before)

-- Rows of the ledger that an earlier version wrote are adopted.
unfoldable pub adopt : ℕ → Club → BotOrder → Work
adopt id club o =
    let settled = or_else o.earned_settled_at (first_event earn id club.txns) in
    let restored = or_else o.spend_restored_at (first_event restore id club.txns) in
    let reversed = or_else o.earn_reversed_at (first_event reversal id club.txns) in
    record {
      club = club;
      row = record o {
        earned_settled_at = settled;
        spend_restored_at = restored;
        earn_reversed_at = reversed;
      };
      changed =
          is_new o.earned_settled_at settled
          || is_new o.spend_restored_at restored
          || is_new o.earn_reversed_at reversed;
    }

abbrev pub order_code : ℕ → Text
order_code id = text "SF-" ++ decimal id

abbrev pub order_change : ℕ → TxnKind → ℤ → Text → Change
order_change id kind points reason = record {
  kind = kind;
  points = points;
  reason = reason;
  bot_order = some id;
  reward = none;
  redemption = none;
  staff = none;
}

abbrev pub mark_restored : ℕ → Club → Work → Work
mark_restored now club w = record w {
  club = club;
  row = record w.row { spend_restored_at = some now };
  changed = true;
}

abbrev pub mark_reversed : ℕ → Club → Work → Work
mark_reversed now club w = record w {
  club = club;
  row = record w.row { earn_reversed_at = some now };
  changed = true;
}

abbrev pub mark_released : ℕ → Club → Work → Work
mark_released now club w = record w {
  club = club;
  row = record w.row { earned_settled_at = some now };
  changed = true;
}

-- The row of the ledger, and then the mark.
abbrev pub post : ℕ → Change → (Club → Work → Work) → Work → Result ClubRefusal Work
post now ch mark w = record_points now w.row.customer ch w.club >>= λ r. ok (mark r.0 w)

abbrev pub owes_spend : BotOrder → Bool
owes_spend o = ltb_ℤ (pos 0) o.points_used && not (is_some o.spend_restored_at)

abbrev pub owes_reversal : BotOrder → Bool
owes_reversal o = ltb_ℤ (pos 0) o.points_earned && not (is_some o.earn_reversed_at)

abbrev pub owes_earn : BotOrder → Bool
owes_earn o = ltb_ℤ (pos 0) o.points_earned && not (is_some o.earned_settled_at)

abbrev pub restore_change : ℕ → BotOrder → Change
restore_change id o =
    order_change id refund_points o.points_used
      (text "Restored points for canceled order " ++ order_code id)

abbrev pub reversal_change : ℕ → BotOrder → Change
reversal_change id o =
    order_change id adjust (neg o.points_earned) (reversal_prefix ++ order_code id)

abbrev pub earn_change : ℕ → BotOrder → Change
earn_change id o =
    order_change id earn_order o.points_earned (text "Earned on completed order " ++ order_code id)

-- The points spent at checkout come back.
unfoldable pub restore_spend : ℕ → ℕ → Work → Result ClubRefusal Work
restore_spend now id w =
    if owes_spend w.row then post now (restore_change id w.row) (mark_restored now) w else ok w

-- Released points are taken back; where none were released, none will be.
abbrev pub take_back : ℕ → ℕ → Work → Result ClubRefusal Work
take_back now id w =
    if is_some w.row.earned_settled_at
    then post now (reversal_change id w.row) (mark_reversed now) w
    else ok (mark_reversed now w.club w)

unfoldable pub reverse_earn : ℕ → ℕ → Work → Result ClubRefusal Work
reverse_earn now id w = if owes_reversal w.row then take_back now id w else ok w

-- The points that the order earned are released.
unfoldable pub release_earn : ℕ → ℕ → Bool → Work → Result ClubRefusal Work
release_earn now id is_settled w =
    if owes_earn w.row && is_settled
    then post now (earn_change id w.row) (mark_released now) w
    else ok w

abbrev pub is_pos_completed : PosStatus → Bool
is_pos_completed pos_completed = true
is_pos_completed _ = false

abbrev pub is_pos_canceled : Option PosOrder → Bool
is_pos_canceled none = false
is_pos_canceled (some p) = is_canceled_status p.status
  where
    is_canceled_status : PosStatus → Bool
    is_canceled_status pos_canceled = true
    is_canceled_status _ = false

abbrev pub is_called_off : BotStatus → Bool
is_called_off canceled = true
is_called_off rejected = true
is_called_off _ = false

-- `_has_authoritative_settlement`
unfoldable pub has_authoritative_settlement : (ℕ → Bool) → Option ℕ → Option PosOrder → Bool
has_authoritative_settlement has_tender_issues (some key) (some p) =
    not p.is_deleted
    && is_pos_completed p.status
    && p.is_paid
    && is_some p.paid_at
    && not (has_tender_issues key)
has_authoritative_settlement has_tender_issues _ _ = false

abbrev pub pos_of : Option ℕ → Table PosOrder → Option PosOrder
pos_of none t = none
pos_of (some k) t = get k t

-- Cancelled orders give back; paid and completed ones release.
unfoldable pub apply_outcome : ℕ → (ℕ → Bool) → ℕ → Table PosOrder → Work → Result ClubRefusal Work
apply_outcome now has_tender_issues id pos_orders w =
    let p = pos_of w.row.pos_order pos_orders in
    if is_called_off w.row.status || is_pos_canceled p
    then restore_spend now id w >>= reverse_earn now id
    else release_earn now id (has_authoritative_settlement has_tender_issues w.row.pos_order p) w

-- The row is saved if it changed.
abbrev pub save_work : ℕ → Shop → Work → Shop × Bool
save_work id shop w = (
  record shop {
    club = w.club;
    bot_orders = if w.changed then put id w.row shop.bot_orders else shop.bot_orders;
  },
  w.changed,
)

unfoldable pub reconcile_row :
    ℕ → (ℕ → Bool) → ℕ → Option BotOrder → Shop → Result ClubRefusal (Shop × Bool)
reconcile_row now has_tender_issues id none shop = ok (shop, false)
reconcile_row now has_tender_issues id (some o) shop =
    apply_outcome now has_tender_issues id shop.pos_orders (adopt id shop.club o) >>= λ w.
    ok (save_work id shop w)

-- `reconcile_bot_order_loyalty`
unfoldable pub reconcile_bot_order_loyalty :
    ℕ → (ℕ → Bool) → ℕ → Shop → Result ClubRefusal (Shop × Bool)
reconcile_bot_order_loyalty now has_tender_issues id shop =
    reconcile_row now has_tender_issues id (get id shop.bot_orders) shop
