-- ===== src/Couriers/Records.antt =====
-- The rows of the delivery handoff (couriers/models.py): the courier steps and their order, and the
-- columns of orders, couriers and assignments that the services read or write.
-- Keys and clock readings are numbers; a nullable column is an Option. An assignment is one-to-one
-- with its order, so its table is keyed by the order.
use alpha_pos_server.Base.{
  ℕ, ◌+◌, Bool, true, false, Option, none, some, List, [], ◌∷◌, Table, Text, ltb, ◌==◌,
  if◌then◌else◌,
}
use alpha_pos_server.Base.Int.{ℤ}

pub data Step : Type 0 where
  assigned ready picked_up on_way delivered declined : Step

abbrev pub step_code : Step → ℕ
step_code assigned = 0
step_code ready = 1
step_code picked_up = 2
step_code on_way = 3
step_code delivered = 4
step_code declined = 5

abbrev pub step_eq : Step → Step → Bool
step_eq a b = step_code a == step_code b

-- `FORWARD`
abbrev pub forward : List Step
forward = assigned ∷ ready ∷ picked_up ∷ on_way ∷ delivered ∷ []

-- `list.index`; `none` where Python raises ValueError.
abbrev pub index_from : ℕ → Step → List Step → Option ℕ
index_from i s [] = none
index_from i s (x ∷ xs) = let rest = index_from (i + 1) s xs in if step_eq s x then some i else rest

abbrev compare_index : Option ℕ → Option ℕ → Bool
compare_index (some target) (some current) = ltb current target
compare_index _ _ = false

unfoldable pub can_advance_to : Step → Step → Bool
can_advance_to current target =
    compare_index (index_from 0 target forward) (index_from 0 current forward)

-- `COURIER_SETTABLE`
abbrev pub is_courier_settable : Step → Bool
is_courier_settable picked_up = true
is_courier_settable on_way = true
is_courier_settable delivered = true
is_courier_settable _ = false

-- `_PROTECTED_ASSIGNMENT_STEPS`
abbrev pub is_protected : Step → Bool
is_protected picked_up = true
is_protected on_way = true
is_protected delivered = true
is_protected _ = false

-- `_BUSY_ASSIGNMENT_STEPS`
abbrev pub is_busy : Step → Bool
is_busy assigned = true
is_busy ready = true
is_busy picked_up = true
is_busy on_way = true
is_busy _ = false

-- The statuses of `base.Order` that this server tells apart.
pub data OrderStatus : Type 0 where
  preparing order_ready completed canceled : OrderStatus

abbrev pub is_completed : OrderStatus → Bool
is_completed completed = true
is_completed _ = false

abbrev pub is_canceled : OrderStatus → Bool
is_canceled canceled = true
is_canceled _ = false

abbrev pub is_order_ready : OrderStatus → Bool
is_order_ready order_ready = true
is_order_ready _ = false

pub record Order : Type 0 where
  pub branch_id : Text
  pub is_delivery : Bool  -- order_type == DELIVERY
  pub status : OrderStatus
  pub is_paid : Bool
  pub ready_at : Option ℕ
  pub delivery_person : Option ℕ
  pub is_deleted : Bool

-- A courier with the two columns of its staff user that the services test.
pub record Courier : Type 0 where
  pub branch_id : Text
  pub code : Text
  pub online : Bool
  pub share_loc : Bool
  pub shift_started_at : Option ℕ
  pub user_active : Bool  -- user.status == 'ACTIVE'
  pub user_deleted : Bool

-- The address snapshot; coordinates and distance are whole numbers of a fixed small unit.
pub record Address : Type 0 where
  pub text : Text
  pub landmark : Text
  pub lat : Option ℤ
  pub lng : Option ℤ
  pub distance : Option ℤ

pub record Assignment : Type 0 where
  pub courier : Option ℕ
  pub step : Step
  pub fee : ℤ
  pub assigned_at : Option ℕ
  pub accepted_at : Option ℕ
  pub ready_at : Option ℕ
  pub picked_at : Option ℕ
  pub delivered_at : Option ℕ
  pub expires_at : Option ℕ
  pub declined_reason : Text
  pub address : Address

-- The texts of the bell feed, by what they say.
pub data Notice : Type 0 where
  reassigned_away : Notice
  new_order : Bool → Notice  -- whether it is ready for pickup
  order_is_ready : Notice

-- What runs after the commit: events over the sockets, and pushes.
pub data Effect : Type 0 where
  unassigned : ℕ → ℕ → Effect  -- order, courier
  order_assigned : ℕ → ℕ → ℤ → Bool → Step → Effect  -- order, courier, fee, paid, step
  cashier_status : Text → ℕ → Option Text → Step → Effect  -- branch, order, courier code, step
  courier_ready : ℕ → Option ℕ → Effect  -- order, courier
  cashier_delivered : Text → ℕ → Option Text → ℕ → Effect  -- branch, order, courier code, time
  courier_status : Text → ℕ → Option ℕ → Step → Effect  -- branch, order, courier, step

pub record Db : Type 0 where
  pub orders : Table Order
  pub couriers : Table Courier
  pub assignments : Table Assignment
  pub notifications : List (ℕ × ℕ × Notice)  -- courier, order, text
  pub on_commit : List Effect
