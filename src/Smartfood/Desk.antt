-- ===== src/Smartfood/Desk.antt =====
-- The orders of the bot with the tables around them (smartfood/models.py, smartfood/services/), and
-- the messages on an order (smartfood/services/outbound_message_service.py, queue_order_status).
-- The columns of a bot order stand in two tables under one key: those that the settlement of points
-- reads in `Shop`, the others in slips. The same holds of a customer and of an order of the core.
-- Of a dispatch job only its order is kept here, and of a message its order and event: the text is
-- a template of the event, the language and the code. A push over a socket runs after the commit.
use alpha_pos_server.Base.{
  ℕ, Bool, true, false, not, ◌&&◌, ◌||◌, Option, none, some, List, [], ◌∷◌, ◌++◌, Text, Table, get,
  is_blank, strip, ◌==◌, if◌then◌else◌, is_some,
}
use alpha_pos_server.Base.Int.{ℤ}
use alpha_pos_server.Smartfood.Loyalty.{Customer}
use alpha_pos_server.Smartfood.PointSettlement.{BotOrder, Shop}
use alpha_pos_server.Smartfood.Cart.{OrderType, Line, is_in}
use alpha_pos_server.Smartfood.OrderInput.{PayBy}

pub record Slip : Type 0 where
  pub owner : ℕ  -- customer
  pub client_order_id : Option ℕ
  pub fingerprint : Text
  pub order_type : OrderType
  pub address : Option ℕ
  pub address_text : Text
  pub lat : Option ℤ
  pub lng : Option ℤ
  pub phone : Text
  pub note : Text
  pub subtotal : ℤ
  pub delivery_fee : ℤ
  pub discount : ℤ
  pub tip : ℤ
  pub total : ℤ
  pub payment : PayBy
  pub lines : List Line
  pub cashier : Option ℕ
  pub handled_by : Option ℕ  -- dispatched_by
  pub dispatched_at : Option ℕ
  pub reject_reason : Text

pub record Member : Type 0 where
  pub first_name : Text
  pub last_name : Text
  pub phone : Text
  pub confirmed_at : Option ℕ

pub record SavedAddress : Type 0 where
  pub owner : ℕ
  pub line : Text
  pub lat : Option ℤ
  pub lng : Option ℤ

pub data TillStatus : Type 0 where
  till_preparing till_ready : TillStatus

pub record TillLine : Type 0 where
  pub product : ℕ
  pub quantity : ℕ
  pub price : ℤ
  pub ready_at : Option ℕ

-- The order of the core that a dispatch makes.
pub record TillOrder : Type 0 where
  pub cashier : ℕ
  pub branch : Text
  pub order_type : OrderType
  pub phone : Text
  pub address : Text
  pub subtotal : ℤ
  pub discount : ℤ
  pub total : ℤ
  pub status : TillStatus
  pub ready_at : Option ℕ
  pub lines : List TillLine

pub data OrderEvent : Type 0 where
  on_placed on_dispatched on_ready on_canceled on_rejected : OrderEvent

pub record Message : Type 0 where
  pub order : ℕ
  pub event : OrderEvent

pub record Desk : Type 0 where
  pub shop : Shop
  pub slips : Table Slip
  pub members : Table Member
  pub addresses : Table SavedAddress
  pub till_orders : Table TillOrder
  pub jobs : List ℕ
  pub messages : List Message
  pub pushes : List Message

abbrev pub event_eq : OrderEvent → OrderEvent → Bool
event_eq on_placed on_placed = true
event_eq on_dispatched on_dispatched = true
event_eq on_ready on_ready = true
event_eq on_canceled on_canceled = true
event_eq on_rejected on_rejected = true
event_eq _ _ = false

abbrev pub has_message : ℕ → OrderEvent → List Message → Bool
has_message id event [] = false
has_message id event (m ∷ ms) = m.order == id && event_eq m.event event || has_message id event ms

abbrev pub is_blocked_customer : Option Customer → Bool
is_blocked_customer none = false
is_blocked_customer (some c) = c.is_blocked

abbrev pub messages_of : ℕ → OrderEvent → Desk → Option BotOrder → List Message
messages_of id event d none = d.messages
messages_of id event d (some o) =
    if is_blocked_customer (get o.customer d.shop.club.customers) || has_message id event d.messages
    then d.messages
    else d.messages ++ record { order = id; event = event } ∷ []

-- `queue_order_status`: one message for an order and an event, and none to a blocked customer.
unfoldable pub queue_order_status : ℕ → OrderEvent → Desk → Desk
queue_order_status id event d = record d {
  messages = messages_of id event d (get id d.shop.bot_orders);
}

-- A push, after the commit.
abbrev pub pushed : ℕ → OrderEvent → Desk → Desk
pushed id event d = record d { pushes = d.pushes ++ record { order = id; event = event } ∷ [] }

-- `_notify`
unfoldable pub notify_customer : ℕ → OrderEvent → Desk → Desk
notify_customer id event d = pushed id event (queue_order_status id event d)

-- `get_or_create` of the job of an order.
abbrev pub ensure_job : ℕ → List ℕ → List ℕ
ensure_job id jobs = if is_in id jobs then jobs else id ∷ jobs

-- A saved profile lacks nothing, by the check of a phone number.
unfoldable pub is_profile_complete : (Text → Bool) → Member → Bool
is_profile_complete is_canonical m =
    not (is_blank (strip m.first_name))
    && not (is_blank (strip m.last_name))
    && is_canonical m.phone
    && is_some m.confirmed_at
