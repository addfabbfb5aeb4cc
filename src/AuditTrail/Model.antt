-- ===== src/AuditTrail/Model.antt =====
-- services/audit-trail/internal/model/model.go: events, append requests, verification results.
-- A time is a number of nanoseconds, and a UUID a number, with the zero UUID as 0.
use obvious.Base.{ℕ, String, Bool, Option}
use obvious.Base.Json.{Fields}

-- `other_event` holds any other text; `event_type: ""` is one of those.
pub data EventType : Type 0 where
  user_action system_action evidence_change finding_change engagement_change auth_event : EventType
  other_event : String → EventType

-- string(et)
abbrev pub event_text : EventType → String
event_text user_action = "user_action"
event_text system_action = "system_action"
event_text evidence_change = "evidence_change"
event_text finding_change = "finding_change"
event_text engagement_change = "engagement_change"
event_text auth_event = "auth_event"
event_text (other_event t) = t

pub record AuditEvent : Type 0 where
  pub id : ℕ
  pub org_id : ℕ
  pub event_id : ℕ
  pub actor_id : Option ℕ
  pub actor_email : String
  pub action : String
  pub event_type : EventType
  pub resource_type : String
  pub resource_id : Option ℕ
  pub engagement_id : Option ℕ
  pub changes : Option Fields
  pub context : Option Fields
  pub ip_address : String
  pub user_agent : String
  pub previous_hash : String
  pub event_hash : String
  pub occurred_at : ℕ

pub record AppendRequest : Type 0 where
  pub org_id : ℕ
  pub actor_id : Option ℕ
  pub actor_email : String
  pub action : String
  pub event_type : EventType
  pub resource_type : String
  pub resource_id : Option ℕ
  pub engagement_id : Option ℕ
  pub changes : Option Fields
  pub context : Option Fields
  pub ip_address : String
  pub user_agent : String

pub record VerifyResult : Type 0 where
  pub valid : Bool
  pub total_events : ℕ
  pub tampered_at : Option ℕ
  pub message : String
