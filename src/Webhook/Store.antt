-- ===== src/Webhook/Store.antt =====
-- services/webhook/internal/domain/types.go and internal/store/store.go, with the two tables as
-- lists of their rows. Go's `len` and slicing of a text are arguments of `truncate`; an ID is a
-- text; a time is a number of nanoseconds.
use obvious.Base.{
  ℕ, ◌+◌, String, Bool, true, false, not, ◌&&◌, ◌||◌, Option, none, some, List, [], ◌∷◌, str_eq,
  if◌then◌else◌, ltb, leb, any, get_elem?, filter, take,
}

pub data Status : Type 0 where
  pending delivering delivered failed dead_lettered : Status

abbrev pub max_attempts : ℕ
max_attempts = 3

abbrev pub retry_delays : List ℕ
retry_delays = 1000000000 ∷ 5000000000 ∷ 25000000000 ∷ []

pub record Endpoint : Type 0 where
  pub id : String
  pub org_id : String
  pub url : String
  pub secret : String
  pub event_types : List String
  pub description : String
  pub enabled : Bool
  pub created_at : ℕ
  pub updated_at : ℕ

pub record Delivery : Type 0 where
  pub id : String
  pub endpoint_id : String
  pub event_type : String
  pub payload : String
  pub status : Status
  pub attempts : ℕ
  pub max_attempts : ℕ
  pub next_retry_at : ℕ
  pub delivered_at : Option ℕ
  pub dead_lettered_at : Option ℕ
  pub last_response_code : Option ℕ
  pub last_response_body : Option String
  pub created_at : ℕ
  pub updated_at : ℕ

pub record Tables : Type 0 where
  pub endpoints : List Endpoint
  pub deliveries : List Delivery

-- What the caller gives of an endpoint.
pub record NewEndpoint : Type 0 where
  pub org_id : String
  pub url : String
  pub secret : String
  pub event_types : List String
  pub description : String
  pub enabled : Bool

abbrev pub endpoint_row : String → ℕ → NewEndpoint → Endpoint
endpoint_row id now ep = record {
  id = id;
  org_id = ep.org_id;
  url = ep.url;
  secret = ep.secret;
  event_types = ep.event_types;
  description = ep.description;
  enabled = ep.enabled;
  created_at = now;
  updated_at = now;
}

-- CreateEndpoint; the database chooses the ID and the times.
unfoldable pub create_endpoint : String → ℕ → NewEndpoint → Tables → Tables × Endpoint
create_endpoint id now ep t =
    (record t { endpoints = endpoint_row id now ep ∷ t.endpoints }, endpoint_row id now ep)

-- The rows stand with the newest first, as ListEndpoints orders them.
unfoldable pub list_endpoints : String → Tables → List Endpoint
list_endpoints org t = filter (λ ep. str_eq ep.org_id org) t.endpoints

abbrev pub first {ℓ} : {A : Type ℓ} → List A → Option A
first [] = none
first (x ∷ xs) = some x

-- `none` stands for nil without an error.
unfoldable pub get_endpoint : String → String → Tables → Option Endpoint
get_endpoint id org t = first (filter (λ ep. str_eq ep.id id && str_eq ep.org_id org) t.endpoints)

unfoldable pub delete_endpoint : String → String → Tables → Tables
delete_endpoint id org t = record t {
  endpoints = filter (λ ep. not (str_eq ep.id id && str_eq ep.org_id org)) t.endpoints;
}

unfoldable pub enabled_endpoints_for_event : String → String → Tables → List Endpoint
enabled_endpoints_for_event org event_type t =
    filter
      (λ ep.
        str_eq ep.org_id org
        && ep.enabled
        && (any (λ e. str_eq e "*") ep.event_types
            || any (λ e. str_eq e event_type) ep.event_types))
      t.endpoints

abbrev pub delivery_row : String → ℕ → String → String → String → Delivery
delivery_row id now endpoint event_type payload = record {
  id = id;
  endpoint_id = endpoint;
  event_type = event_type;
  payload = payload;
  status = pending;
  attempts = 0;
  max_attempts = 3;
  next_retry_at = now;
  delivered_at = none;
  dead_lettered_at = none;
  last_response_code = none;
  last_response_body = none;
  created_at = now;
  updated_at = now;
}

unfoldable pub enqueue_delivery : String → ℕ → String → String → String → Tables → Tables
enqueue_delivery id now endpoint event_type payload t = record t {
  deliveries = delivery_row id now endpoint event_type payload ∷ t.deliveries;
}

-- An UPDATE of the rows with an ID.
unfoldable pub update_where : String → (Delivery → Delivery) → List Delivery → List Delivery
update_where id change [] = []
update_where id change (d ∷ ds) =
    (if str_eq d.id id then change d else d) ∷ update_where id change ds

abbrev open_status : Status → Bool
open_status pending = true
open_status failed = true
open_status _ = false

abbrev pub is_due : ℕ → Delivery → Bool
is_due now d = open_status d.status && leb d.next_retry_at now

-- min(attempts, len(RetryDelays)-1)
abbrev pub delay_index : ℕ → ℕ
delay_index attempts = if ltb attempts 2 then attempts else 2

-- The index is in range, so the other case never stands.
abbrev pub delay_of : Option ℕ → ℕ
delay_of none = 0
delay_of (some delay) = delay

-- What the code takes from Go's texts and the database's ORDER BY.
pub record Platform : Type 0 where
  pub len : String → ℕ
  -- s[:n]
  pub prefix : ℕ → String → String
  pub by_next_retry : List Delivery → List Delivery

module _ (p : Platform) where
  unfoldable pub truncate : String → ℕ → String
  truncate s n = if leb (p.len s) n then s else p.prefix n s

  -- DuePendingDeliveries.
  unfoldable pub due_pending_deliveries : ℕ → ℕ → Tables → List Delivery
  due_pending_deliveries now limit t =
      take limit (p.by_next_retry (filter (is_due now) t.deliveries))

  -- What MarkDelivered makes of the row.
  unfoldable pub mark_delivered : ℕ → ℕ → String → Delivery → Delivery
  unfolding truncate
  mark_delivered now code body d = record d {
    status = delivered;
    delivered_at = some now;
    last_response_code = some code;
    last_response_body = some (truncate body 2000);
    attempts = d.attempts + 1;
  }

  -- What MarkFailed makes of the row, given the attempts that the caller has read.
  unfoldable pub mark_failed : ℕ → ℕ → String → ℕ → Delivery → Delivery
  unfolding truncate
  mark_failed now code body attempts d =
      if leb max_attempts attempts
      then record d {
        status = dead_lettered;
        dead_lettered_at = some now;
        last_response_code = some code;
        last_response_body = some (truncate body 2000);
        attempts = d.attempts + 1;
      }
      else record d {
        status = failed;
        next_retry_at = now + delay_of (get_elem? retry_delays (delay_index attempts));
        last_response_code = some code;
        last_response_body = some (truncate body 2000);
        attempts = d.attempts + 1;
      }
