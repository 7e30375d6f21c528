-- ===== src/Contract/Types.antt =====
-- contract/api-types.ts, the data part of contract/ws-events.ts, and core/ports.ts.
use comdove_fake_backend.Base.{ℕ, Text, Bool, true, false, Option, List}

pub data Direction : Type 0 where
  outbound inbound : Direction

pub data Source : Type 0 where
  api tile inject autoreply : Source

pub data MessageStatus : Type 0 where
  sent delivered read : MessageStatus

pub data ReplyMode : Type 0 where
  manual echo keyword : ReplyMode

pub record Rule : Type 0 where
  pub keyword : Text
  pub reply : Text

pub record AutoReply : Type 0 where
  pub mode : ReplyMode
  pub delay_ms : ℕ
  pub rules : List Rule

pub record BusinessNumber : Type 0 where
  pub phone_number_id : Text
  pub display_number : Text
  pub label : Option Text
  pub token : Text
  pub waba_id : Text
  pub created_at : ℕ

-- `locked_since` is null exactly when the status is 'free'.
pub record GroupSummary : Type 0 where
  pub id : Text
  pub name : Text
  pub count : ℕ
  pub locked : Bool  -- status: 'locked' or 'free'
  pub locked_since : Option ℕ

pub record CustomerItem : Type 0 where
  pub number : Text
  pub label : Option Text
  pub group_id : Text
  pub online : Bool
  pub effective_online : Bool
  pub claimed : Bool  -- claim_status: 'locked' or 'free'
  pub reply_mode : ReplyMode

pub record Customer : Type 0 where
  pub number : Text
  pub group_id : Text
  pub position : ℕ
  pub label : Option Text
  pub online : Bool
  pub reply_mode : ReplyMode
  pub reply_delay_ms : ℕ

pub record StoredMessage : Type 0 where
  pub wamid : Text
  pub conversation_id : ℕ
  pub seq : ℕ
  pub direction : Direction
  pub source : Source
  pub phone_number_id : Text
  pub customer_number : Text
  pub from_number : Text
  pub to_number : Text
  pub body : Text
  pub created_at : ℕ
  pub sent_at : Option ℕ
  pub delivered_at : Option ℕ
  pub read_at : Option ℕ

pub record RejectedRequest : Type 0 where
  pub at : ℕ
  pub phone_number_id : Text
  pub http_status : ℕ
  pub code : ℕ
  pub subcode : Option ℕ
  pub forced : Bool
  pub to : Option Text
  pub body : Option Text

abbrev pub is_outbound : Direction → Bool
is_outbound outbound = true
is_outbound inbound = false

abbrev pub max_group_size : ℕ
max_group_size = 100

abbrev pub max_body_length : ℕ
max_body_length = 4096

abbrev pub max_delay_ms : ℕ
max_delay_ms = 30000

abbrev pub snapshot_history_per_tile : ℕ
snapshot_history_per_tile = 50
