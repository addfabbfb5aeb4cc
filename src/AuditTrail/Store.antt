-- ===== src/AuditTrail/Store.antt =====
-- services/audit-trail/internal/store/store.go, with the table `audit_events` as the list of its
-- rows in the order of their IDs. The statements are those of the source: the INSERT names no
-- event type, and neither does the SELECT that `ScanEvent` reads.
use obvious.Base.{
  ℕ, String, Option, none, some, List, [], ◌∷◌, ◌++◌, map, str_eq, if◌then◌else◌, ◌==◌,
}
use obvious.Base.Json.{Fields}
use obvious.AuditTrail.Model.{other_event, AuditEvent, AppendRequest}

-- A row of the table.
pub record Row : Type 0 where
  pub id : ℕ
  pub event_id : ℕ
  pub org_id : ℕ
  pub actor_id : Option ℕ
  pub actor_email : String
  pub action : String
  pub resource_type : String
  pub resource_id : Option ℕ
  pub engagement_id : Option ℕ
  pub changes : Option Fields
  pub context : Option Fields
  pub ip_address : Option String
  pub user_agent : Option String
  pub previous_hash : String
  pub event_hash : String
  pub occurred_at : ℕ

abbrev pub Log : Type 0
Log = List Row

abbrev nil_if_empty : String → Option String
nil_if_empty s = if str_eq s "" then none else some s

-- A scan into a string that is left alone at NULL.
abbrev or_empty : Option String → String
or_empty none = ""
or_empty (some s) = s

-- What the database itself chooses: the next ID, the event's UUID, and the time that TIMESTAMPTZ
-- keeps of a time.
pub record Database : Type 0 where
  pub next_id : Log → ℕ
  pub new_event_id : Log → ℕ
  pub stored_time : ℕ → ℕ

-- The event that Append returns: RETURNING gives `id`, `event_id` and `occurred_at`.
unfoldable pub returned : Row → AppendRequest → AuditEvent
returned row req = record {
  id = row.id;
  org_id = req.org_id;
  event_id = row.event_id;
  actor_id = req.actor_id;
  actor_email = req.actor_email;
  action = req.action;
  event_type = req.event_type;
  resource_type = req.resource_type;
  resource_id = req.resource_id;
  engagement_id = req.engagement_id;
  changes = req.changes;
  context = req.context;
  ip_address = req.ip_address;
  user_agent = req.user_agent;
  previous_hash = row.previous_hash;
  event_hash = row.event_hash;
  occurred_at = row.occurred_at;
}

module _ (d : Database) where
  unfoldable pub row_of : Log → AppendRequest → String → String → ℕ → Row
  row_of log req hash previous_hash occurred_at = record {
    id = d.next_id log;
    event_id = d.new_event_id log;
    org_id = req.org_id;
    actor_id = req.actor_id;
    actor_email = req.actor_email;
    action = req.action;
    resource_type = req.resource_type;
    resource_id = req.resource_id;
    engagement_id = req.engagement_id;
    changes = req.changes;
    context = req.context;
    ip_address = nil_if_empty req.ip_address;
    user_agent = nil_if_empty req.user_agent;
    previous_hash = previous_hash;
    event_hash = hash;
    occurred_at = d.stored_time occurred_at;
  }

  unfoldable pub append : Log → AppendRequest → String → String → ℕ → Log × AuditEvent
  unfolding row_of returned
  append log req hash previous_hash occurred_at =
      let row = row_of log req hash previous_hash occurred_at in (log ++ row ∷ [], returned row req)

-- ORDER BY id DESC LIMIT 1 over the rows of one organisation.
abbrev last_hash_from : String → ℕ → Log → String
last_hash_from found org [] = found
last_hash_from found org (row ∷ rows) =
    last_hash_from (if row.org_id == org then row.event_hash else found) org rows

unfoldable pub get_last_hash : Log → ℕ → String
get_last_hash log org = last_hash_from "" org log

-- ScanEvent into a fresh event, whose event type stays the empty text. JSONB is taken to give back
-- the value that was stored, and the driver to scan INET into the text that was stored; an error of
-- the scan is the handler's `Fault`.
unfoldable pub scan_event : Row → AuditEvent
scan_event row = record {
  id = row.id;
  org_id = row.org_id;
  event_id = row.event_id;
  actor_id = row.actor_id;
  actor_email = row.actor_email;
  action = row.action;
  event_type = other_event "";
  resource_type = row.resource_type;
  resource_id = row.resource_id;
  engagement_id = row.engagement_id;
  changes = row.changes;
  context = row.context;
  ip_address = or_empty row.ip_address;
  user_agent = or_empty row.user_agent;
  previous_hash = row.previous_hash;
  event_hash = row.event_hash;
  occurred_at = row.occurred_at;
}

rows_for_org : ℕ → Log → Log
rows_for_org org [] = []
rows_for_org org (row ∷ rows) =
    let rest = rows_for_org org rows in if row.org_id == org then row ∷ rest else rest

unfoldable pub all_events_for_org : Log → ℕ → List AuditEvent
unfolding rows_for_org scan_event
all_events_for_org log org = map scan_event (rows_for_org org log)
