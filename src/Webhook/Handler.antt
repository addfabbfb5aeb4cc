-- ===== src/Webhook/Handler.antt =====
-- services/webhook/internal/handler/handler.go: each handler takes the tables to new tables and a
-- response. Go's text functions, the header, the body's decoding, the secret, and which statements
-- of the database fail are arguments.
use Prim.Native.String.{◌++◌ as concat}
use obvious.Base.{
  ℕ, ◌+◌, String, Bool, true, false, not, ◌&&◌, ◌||◌, Option, none, some, List, [], ◌∷◌, length,
  map, str_eq, if◌then◌else◌, ltb, leb, filter, take, drop,
}
use obvious.Base.Int.{ℤ, pos, negsuc}
use obvious.Base.Json.{Json}
use obvious.Webhook.Store.{
  Endpoint, Delivery, Tables, create_endpoint, list_endpoints, get_endpoint, delete_endpoint,
  enabled_endpoints_for_event, enqueue_delivery,
}

-- What the code takes from Go's libraries.
pub record Texts : Type 0 where
  pub has_prefix : String → String → Bool
  pub atoi : String → Option ℤ
  pub len : String → ℕ
  -- s[len(s)-4:]
  pub last_four : String → String
  -- json.Marshal, which may fail
  pub marshal : Json → Option String

pub data Body {ℓ} (A : Type ℓ) : Type ℓ where
  decoded : A → Body A
  malformed : String → Body A

pub record EndpointRequest : Type 0 where
  pub url : String
  pub event_types : List String
  pub description : String
  pub enabled : Option Bool

pub record DispatchRequest : Type 0 where
  pub org_id : String
  pub event_type : String
  pub payload : Option Json

pub data Response : Type 0 where
  failure : ℕ → String → String → Response
  endpoint_body : ℕ → Endpoint → Response
  endpoints_body : ℕ → List Endpoint → ℕ → Response
  deliveries_body : ℕ → List Delivery → ℕ → Response
  dispatched_body : ℕ → String → ℕ → ℕ → Response
  no_content : Response

abbrev or_wildcard : List String → List String
or_wildcard [] = "*" ∷ []
or_wildcard (e ∷ es) = e ∷ es

abbrev or_enabled : Option Bool → Bool
or_enabled none = true
or_enabled (some b) = b

abbrev missing_org : Response
missing_org = failure 400 "MISSING_ORG" "X-Org-ID header is required"

module _ (x : Texts) where
  unfoldable pub mask_secret : String → String
  mask_secret s = if ltb (x.len s) 4 then "****" else concat "****" (x.last_four s)

  abbrev masked : Endpoint → Endpoint
  masked ep = record ep { secret = mask_secret ep.secret }

  abbrev pub inserted : Bool → Tables → Tables × Endpoint → Tables × Response
  inserted true t _ = (t, failure 500 "SERVER_ERROR" "failed to create endpoint")
  inserted false t (t', ep) = (t', endpoint_body 201 ep)

  -- CreateEndpoint with a secret, or none where generateSecret fails.
  abbrev pub with_secret :
      String → ℕ → String → EndpointRequest → Bool → Tables → Option String → Tables × Response
  with_secret id now org req fails t none =
      (t, failure 500 "SERVER_ERROR" "failed to generate secret")
  with_secret id now org req fails t (some secret) = inserted fails t (
      create_endpoint id now
        (record {
          org_id = org;
          url = req.url;
          secret = secret;
          event_types = or_wildcard req.event_types;
          description = req.description;
          enabled = or_enabled req.enabled;
        })
        t)

  -- CreateEndpoint from the decoded request on.
  unfoldable pub create_decoded :
      String → ℕ → Option String → Bool → String → EndpointRequest → Tables → Tables × Response
  create_decoded id now secret fails org req t =
      if str_eq req.url ""
      then (t, failure 400 "MISSING_FIELD" "url is required")
      else if not (x.has_prefix req.url "http://") && not (x.has_prefix req.url "https://")
      then (t, failure 400 "INVALID_URL" "url must start with http:// or https://")
      else with_secret id now org req fails t secret

  abbrev pub decoding :
      String → ℕ → Option String → Bool → String → Body EndpointRequest → Tables → Tables × Response
  decoding id now secret fails org (malformed problem) t = (t, failure 400 "INVALID_JSON" problem)
  decoding id now secret fails org (decoded req) t = create_decoded id now secret fails org req t

  unfoldable pub create_endpoint_call :
      String → ℕ → Option String → Bool → String → Body EndpointRequest → Tables → Tables × Response
  unfolding create_decoded
  create_endpoint_call id now secret fails org body t =
      if str_eq org "" then (t, missing_org) else decoding id now secret fails org body t

  unfoldable pub list_endpoints_call : Bool → String → Tables → Response
  unfolding mask_secret
  list_endpoints_call fails org t =
      let found = map masked (list_endpoints org t) in
      if str_eq org ""
      then missing_org
      else if fails
      then failure 500 "SERVER_ERROR" "failed to list endpoints"
      else endpoints_body 200 found (length found)

  abbrev shown : Option Endpoint → Response
  shown none = failure 404 "NOT_FOUND" "endpoint not found"
  shown (some ep) = endpoint_body 200 (masked ep)

  unfoldable pub get_endpoint_call : Bool → String → String → Tables → Response
  unfolding mask_secret
  get_endpoint_call fails org id t =
      if str_eq org ""
      then missing_org
      else if fails
      then failure 500 "SERVER_ERROR" "failed to get endpoint"
      else shown (get_endpoint id org t)

  unfoldable pub delete_endpoint_call : Bool → String → String → Tables → Tables × Response
  delete_endpoint_call fails org id t =
      if str_eq org ""
      then (t, missing_org)
      else if fails
      then (t, failure 500 "SERVER_ERROR" "failed to delete endpoint")
      else (delete_endpoint id org t, no_content)

  -- A limit of the query: a number from 1 to 200, and else 50.
  abbrev limit_of : Option ℤ → ℕ
  limit_of none = 50
  limit_of (some (pos n)) = if ltb 0 n && leb n 200 then n else 50
  limit_of (some (negsuc n)) = 50

  abbrev offset_of : Option ℤ → ℕ
  offset_of none = 0
  offset_of (some (pos n)) = n
  offset_of (some (negsuc n)) = 0

  unfoldable pub limit_param : String → ℕ
  limit_param s = if str_eq s "" then 50 else limit_of (x.atoi s)

  unfoldable pub offset_param : String → ℕ
  offset_param s = if str_eq s "" then 0 else offset_of (x.atoi s)

  abbrev history : Bool → ℕ → ℕ → String → Tables → Option Endpoint → Response
  history fails limit offset id t none = failure 404 "NOT_FOUND" "endpoint not found"
  history fails limit offset id t (some ep) =
      let found = take limit (drop offset (filter (λ d. str_eq d.endpoint_id id) t.deliveries)) in
      if fails
      then failure 500 "SERVER_ERROR" "failed to list deliveries"
      else deliveries_body 200 found (length found)

  -- ListDeliveries; the rows of the table stand with the newest first.
  unfoldable pub list_deliveries_call :
      Bool → Bool → String → String → String → String → Tables → Response
  unfolding limit_param offset_param
  list_deliveries_call lookup_fails list_fails org id limit offset t =
      if str_eq org ""
      then missing_org
      else if lookup_fails
      then failure 404 "NOT_FOUND" "endpoint not found"
      else history list_fails (limit_param limit) (offset_param offset) id t (get_endpoint id org t)

  -- The loop of DispatchEvent: the tables and `enqueued`. `fresh` gives the new rows' IDs, and
  -- `fails` says which inserts fail, by the endpoint.
  unfoldable pub enqueue_each :
      (String → String)
      → (String → Bool)
      → ℕ
      → String
      → String
      → List Endpoint
      → Tables × ℕ
      → Tables × ℕ
  enqueue_each fresh fails now event_type payload [] acc = acc
  enqueue_each fresh fails now event_type payload (ep ∷ eps) (t, n) =
      enqueue_each fresh fails now event_type payload eps (
        if fails ep.id
        then (t, n)
        else (enqueue_delivery (fresh ep.id) now ep.id event_type payload t, n + 1))

  abbrev pub dispatched : String → List Endpoint → Tables × ℕ → Tables × Response
  dispatched event_type eps (t, n) = (t, dispatched_body 202 event_type (length eps) n)

  abbrev pub dispatch_encoded :
      (String → String)
      → (String → Bool)
      → Bool
      → ℕ
      → DispatchRequest
      → Tables
      → Option String
      → Tables × Response
  dispatch_encoded fresh fails query_fails now req t none =
      (t, failure 500 "SERVER_ERROR" "failed to marshal payload")
  dispatch_encoded fresh fails query_fails now req t (some payload) =
      let eps = enabled_endpoints_for_event req.org_id req.event_type t in
      if query_fails
      then (t, failure 500 "SERVER_ERROR" "failed to query endpoints")
      else dispatched req.event_type eps
          (enqueue_each fresh fails now req.event_type payload eps (t, 0))

  abbrev pub dispatch_payload :
      (String → String)
      → (String → Bool)
      → Bool
      → ℕ
      → DispatchRequest
      → Tables
      → Option Json
      → Tables × Response
  dispatch_payload fresh fails query_fails now req t none =
      (t, failure 400 "MISSING_FIELD" "org_id, event_type, and payload are required")
  dispatch_payload fresh fails query_fails now req t (some payload) =
      dispatch_encoded fresh fails query_fails now req t (x.marshal payload)

  unfoldable pub dispatch_event :
      (String → String)
      → (String → Bool)
      → Bool
      → ℕ
      → Body DispatchRequest
      → Tables
      → Tables × Response
  unfolding enqueue_each
  dispatch_event fresh fails query_fails now (malformed problem) t =
      (t, failure 400 "INVALID_JSON" problem)
  dispatch_event fresh fails query_fails now (decoded req) t =
      if str_eq req.org_id "" || str_eq req.event_type ""
      then (t, failure 400 "MISSING_FIELD" "org_id, event_type, and payload are required")
      else dispatch_payload fresh fails query_fails now req t req.payload
