-- ===== src/Contract/Events.antt =====
-- The events of contract/ws-events.ts: client to server, server to group session, server to admin.
use comdove_fake_backend.Base.{ℕ, Text, Bool, Option, List}
use comdove_fake_backend.Contract.Types.{
  Direction, Source, MessageStatus, AutoReply, BusinessNumber, GroupSummary, CustomerItem,
}

pub data WsErrorCode : Type 0 where
  bad_json bad_request unknown_type not_claimed already_claimed unknown_group : WsErrorCode
  number_not_in_group unknown_business tile_offline group_deleted : WsErrorCode

pub data ClientEvent : Type 0 where
  group_claim : (group : Text) → ClientEvent
  message_send : (from to body : Text) → ClientEvent
  tile_presence : (number : Text) (online : Bool) → ClientEvent
  chat_read : (number peer : Text) → ClientEvent
  tile_autoreply : (number : Text) → AutoReply → ClientEvent
  admin_subscribe : ClientEvent

-- One chat bubble.
pub record WsMessage : Type 0 where
  pub wamid : Text
  pub peer : Text
  pub direction : Direction
  pub body : Text
  pub status : MessageStatus
  pub created_at : ℕ

pub record Tile : Type 0 where
  pub number : Text
  pub label : Option Text
  pub online : Bool
  pub auto_reply : AutoReply
  pub history : List WsMessage
  pub queued : List WsMessage
  pub unread : List (Text × ℕ)

pub record SnapshotBusiness : Type 0 where
  pub phone_number_id : Text
  pub display_number : Text
  pub label : Option Text

pub record Snapshot : Type 0 where
  pub id : Text
  pub name : Text
  pub business_numbers : List SnapshotBusiness
  pub tiles : List Tile

pub data JobKind : Type 0 where
  inbound sent delivered read : JobKind

pub data JobState : Type 0 where
  pending ok failed : JobState

pub record AttemptEntry : Type 0 where
  pub n : ℕ
  pub http_status : Option ℕ
  pub error : Option Text
  pub duration_ms : ℕ
  pub at : ℕ

pub record WebhookEntry : Type 0 where
  pub kind : JobKind
  pub state : JobState
  pub attempts : List AttemptEntry

pub record LogEntry : Type 0 where
  pub wamid : Text
  pub time : ℕ
  pub direction : Direction
  pub source : Source
  pub from : Text
  pub to : Text
  pub business : Option (Text × Option Text)
  pub group_id : Option Text
  pub body : Text
  pub status : MessageStatus
  pub timeline : List (MessageStatus × ℕ)
  pub webhooks : List WebhookEntry

pub record RejectedLogEntry : Type 0 where
  pub time : ℕ
  pub phone_number_id : Text
  pub to : Option Text
  pub body : Option Text
  pub http_status : ℕ
  pub code : ℕ
  pub subcode : Option ℕ
  pub forced : Bool

-- `ServerEvent | AdminEvent`: what a session sends.
pub data ServerEvent : Type 0 where
  group_claimed : Snapshot → ServerEvent
  group_locked : (group : Text) (since : ℕ) → ServerEvent
  message_new : (to number : Text) → WsMessage → ServerEvent
  queue_flush : (number : Text) → List WsMessage → ServerEvent
  message_status : (wamid number : Text) → MessageStatus → (at : ℕ) → ServerEvent
  presence : (number : Text) (online : Bool) → ServerEvent
  auto_reply : (number : Text) → AutoReply → ServerEvent
  error : WsErrorCode → (message : Text) → ServerEvent
  log_entry : LogEntry → ServerEvent
  log_rejected : RejectedLogEntry → ServerEvent
  log_update : LogEntry → ServerEvent
  log_reset : ServerEvent
  groups_update : List GroupSummary → ServerEvent
  numbers_update : List BusinessNumber → List CustomerItem → ServerEvent
  webhook_verify : (ok : Bool) (at : ℕ) (detail : Text) → ServerEvent
