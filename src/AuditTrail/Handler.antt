-- ===== src/AuditTrail/Handler.antt =====
-- services/audit-trail/internal/handler/handler.go: appending an event and verifying a chain. The
-- database faults that a call may meet, the body decoder's result and the time are arguments.
use obvious.Base.{
  ℕ, ◌+◌, String, Bool, true, false, not, Option, none, some, List, [], ◌∷◌, str_eq, if◌then◌else◌,
  ◌==◌,
}
use obvious.AuditTrail.Model.{
  EventType, user_action, system_action, evidence_change, finding_change, engagement_change,
  auth_event, other_event, AuditEvent, AppendRequest, VerifyResult,
}
use obvious.AuditTrail.HashChain.{Hashing, genesis_hash, compute, verify}
use obvious.AuditTrail.Store.{Log, Database, append, get_last_hash, all_events_for_org}

pub data Body : Type 0 where
  decoded : AppendRequest → Body
  malformed : String → Body

pub data Response : Type 0 where
  failure : ℕ → String → String → Response
  created : AuditEvent → Response
  verified : ℕ → VerifyResult → Response

-- Which statements of a call fail in the database.
pub record Faults : Type 0 where
  pub last_hash_fails : Bool
  pub append_fails : Bool

unfoldable pub valid_event_type : EventType → Bool
valid_event_type user_action = true
valid_event_type system_action = true
valid_event_type evidence_change = true
valid_event_type finding_change = true
valid_event_type engagement_change = true
valid_event_type auth_event = true
valid_event_type (other_event _) = false

-- How reading the events may fail: the query, the scan of a row, or the end of the rows.
pub data Fault : Type 0 where
  streaming scanning reading : Fault

module _ (h : Hashing) (d : Database) where
  unfoldable pub persist :
      Faults → ℕ → Log → AppendRequest → String → Option String → Log × Response
  persist faults now log req previous none =
      (log, failure 500 "INTERNAL_ERROR" "failed to compute event hash")
  persist faults now log req previous (some hash) =
      if faults.append_fails
      then (log, failure 500 "INTERNAL_ERROR" "failed to persist event")
      else (let (log', event) = append d log req hash previous now in (log', created event))

  -- AppendEvent from the decoded request on.
  unfoldable pub append_decoded : Faults → ℕ → Log → AppendRequest → Log × Response
  unfolding persist valid_event_type
  append_decoded faults now log req =
      if req.org_id == 0
      then (log, failure 400 "MISSING_FIELD" "org_id is required")
      else if str_eq req.action ""
      then (log, failure 400 "MISSING_FIELD" "action is required")
      else if str_eq req.resource_type ""
      then (log, failure 400 "MISSING_FIELD" "resource_type is required")
      else if not (valid_event_type req.event_type)
      then (
        log,
        failure 400 "INVALID_EVENT_TYPE"
            "event_type must be one of: user_action, system_action, evidence_change, finding_change, engagement_change, auth_event",
      )
      else if faults.last_hash_fails
      then (log, failure 500 "INTERNAL_ERROR" "failed to retrieve chain head")
      else let previous = get_last_hash log req.org_id in
        persist faults now log req previous (compute h previous req now)

  unfoldable pub append_event : Faults → ℕ → Log → Body → Log × Response
  unfolding append_decoded
  append_event faults now log (malformed problem) = (log, failure 400 "INVALID_JSON" problem)
  append_event faults now log (decoded req) = append_decoded faults now log req

-- `if tamperedAt == nil && !Verify(ev, prevHash) { tamperedAt = &id }`
abbrev pub noted : Option ℕ → Bool → ℕ → Option ℕ
noted none intact id = if intact then none else some id
noted (some first) intact id = some first

module _ (h : Hashing) where
  -- The loop of VerifyChain over its variables `prevHash`, `totalEvents` and `tamperedAt`.
  unfoldable pub walk : String → ℕ → Option ℕ → List AuditEvent → ℕ × Option ℕ
  walk previous total tampered [] = (total, tampered)
  walk previous total tampered (ev ∷ evs) =
      walk ev.event_hash (total + 1) (noted tampered (verify h ev previous) ev.id) evs

  abbrev pub verdict : ℕ × Option ℕ → VerifyResult
  verdict (total, none) = record {
    valid = true;
    total_events = total;
    tampered_at = none;
    message = "chain integrity verified";
  }
  verdict (total, some id) = record {
    valid = false;
    total_events = total;
    tampered_at = some id;
    message = "chain integrity violation detected";
  }

  unfoldable pub verify_events : List AuditEvent → VerifyResult
  unfolding walk
  verify_events events = verdict (walk genesis_hash 0 none events)

  abbrev verification : Option Fault → List AuditEvent → Response
  verification (some streaming) events = failure 500 "INTERNAL_ERROR" "failed to stream events"
  verification (some scanning) events =
      failure 500 "INTERNAL_ERROR" "scan error during verification"
  verification (some reading) events = failure 500 "INTERNAL_ERROR" "rows error during verification"
  verification none events =
      let result = verify_events events in verified (if result.valid then 200 else 409) result

  unfoldable pub verify_chain : (String → Option ℕ) → String → Option Fault → Log → Response
  unfolding verify_events
  verify_chain parse_uuid org_header fault log = elim (parse_uuid org_header) [
    | none ↦ failure 400 "MISSING_ORG" "X-Org-ID header must be a valid UUID"
    | some org ↦ verification fault (all_events_for_org log org)
  ]
