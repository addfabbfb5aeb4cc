-- ===== src/AuditTrail/HashChain.antt =====
-- services/audit-trail/internal/hashchain/hashchain.go: the hash of an event, and the check of one
-- link. SHA-256 with its hex encoding, the JSON encoder and the printers of UUIDs and times are
-- libraries of Go: the fields of `Hashing`.
use Prim.Native.String.{◌++◌ as concat}
use obvious.Base.{
  ℕ, String, ◌≡◌, ◌↔◌, Bool, true, false, not, Option, none, some, str_eq, if◌then◌else◌, arith,
  str_eq_iff, Option-cases, inl, inr,
}
use obvious.Base.Json.{Fields}
use obvious.AuditTrail.Model.{event_text, AuditEvent, AppendRequest}

-- The struct `canonicalFields`.
pub record CanonicalFields : Type 0 where
  pub org_id : String
  pub actor_email : String
  pub action : String
  pub event_type : String
  pub resource_type : String
  pub resource_id : String
  pub engagement_id : String
  pub changes : Option Fields
  pub occurred_at : String

pub record Hashing : Type 0 where
  -- hex.EncodeToString of sha256.Sum256
  pub digest : String → String
  -- json.Marshal, which may fail
  pub marshal : CanonicalFields → Option String
  pub uuid_text : ℕ → String
  -- t.UTC().Format(time.RFC3339Nano)
  pub time_text : ℕ → String

abbrev pub genesis_hash : String
genesis_hash = ""

-- `previousHash + string(payload)`, hashed, or the encoder's error.
abbrev pub sealed : Hashing → String → Option String → Option String
sealed h previous none = none
sealed h previous (some payload) = some (h.digest (concat previous payload))

abbrev pub matches : Option String → String → Bool
matches none stored = false
matches (some expected) stored = str_eq expected stored

module _ (h : Hashing) where
  abbrev optional_uuid : Option ℕ → String
  optional_uuid none = ""
  optional_uuid (some id) = h.uuid_text id

  unfoldable pub canonical_request : AppendRequest → ℕ → CanonicalFields
  canonical_request req occurred_at = record {
    org_id = h.uuid_text req.org_id;
    actor_email = req.actor_email;
    action = req.action;
    event_type = event_text req.event_type;
    resource_type = req.resource_type;
    resource_id = optional_uuid req.resource_id;
    engagement_id = optional_uuid req.engagement_id;
    changes = req.changes;
    occurred_at = h.time_text occurred_at;
  }

  unfoldable pub canonical_event : AuditEvent → CanonicalFields
  canonical_event event = record {
    org_id = h.uuid_text event.org_id;
    actor_email = event.actor_email;
    action = event.action;
    event_type = event_text event.event_type;
    resource_type = event.resource_type;
    resource_id = optional_uuid event.resource_id;
    engagement_id = optional_uuid event.engagement_id;
    changes = event.changes;
    occurred_at = h.time_text event.occurred_at;
  }

  unfoldable pub compute : String → AppendRequest → ℕ → Option String
  compute previous_hash req occurred_at =
      sealed h previous_hash (h.marshal (canonical_request req occurred_at))

  unfoldable pub verify : AuditEvent → String → Bool
  verify event expected_previous =
      if not (str_eq event.previous_hash expected_previous)
      then false
      else matches (sealed h expected_previous (h.marshal (canonical_event event))) event.event_hash

  -- A link is intact exactly when it names its predecessor and carries the digest of its
  -- predecessor's hash and its own canonical fields.
  pub verify_iff :
      (event : AuditEvent) (previous : String)
      → (verify event previous ≡ true) ↔ (
          (event.previous_hash ≡ previous)
          × (sealed h previous (h.marshal (canonical_event event)) ≡ some event.event_hash))
  unfolding verify
  verify_iff event previous = elim (Option-cases (h.marshal (canonical_event event))) [
    | inl fails ↦ rw fails (ground arith)
    | inr (payload, marshals) ↦ rw marshals (
        ground (
          arith,
          str_eq_iff event.previous_hash previous,
          str_eq_iff (h.digest (concat previous payload)) event.event_hash,
        ))
  ]
