-- ===== src/Webhooks/Handler.antt =====
-- services/webhooks/internal/handler/handler.go: each handler takes the tables to new tables and a
-- response. uuid.Parse, strconv.Atoi, the hash of a secret, what decoding the body gives, and which
-- statements fail are arguments.
use Prim.Native.String.{◌++◌ as concat}
use obvious.Base.{
  ℕ, String, Bool, true, false, Option, none, some, List, [], ◌∷◌, str_eq, if◌then◌else◌, ◌==◌, ltb,
  any, length,
}
use obvious.Base.Int.{ℤ, pos}
use obvious.Base.Json.{Fields}
use obvious.Webhooks.Delivery.{WebhookDelivery}
use obvious.Webhooks.Subscriptions.{
  WebhookSubscription, CreateSubscriptionRequest, UpdateSubscriptionRequest, Tables,
  create_subscription, get_subscription, list_subscriptions, update_subscription,
  delete_subscription, list_deliveries_for_subscription,
}
use obvious.Webhooks.Dispatch.{Started, Database, scan_all, dispatch}

pub data Body (A : Type 0) : Type 0 where
  decoded : A → Body A
  malformed : String → Body A

pub record DispatchRequest : Type 0 where
  pub org_id : ℕ
  pub event_type : String
  pub data_fields : Option Fields

pub data Response : Type 0 where
  failure : ℕ → String → String → Response
  subscription_body : ℕ → WebhookSubscription → Response
  subscriptions_body : ℕ → List WebhookSubscription → ℕ → Response
  deliveries_body : ℕ → List WebhookDelivery → ℕ → Response
  dispatched_body : ℕ → ℕ → String → Response
  no_content : Response

abbrev pub all_event_types : List String
all_event_types =
    "evidence.intake.complete" ∷ "reasoning.conclusion" ∷ "finding.status.changed" ∷ []

-- What the code takes from Go's libraries; `quote` is Sprintf's %q.
pub record Texts : Type 0 where
  pub parse : String → Option ℕ
  pub atoi : String → Option ℤ
  pub quote : String → String
  pub hash_secret : String → String

abbrev bad_org : Response
bad_org = failure 400 "INVALID_PARAM" "orgId must be a valid UUID"

abbrev bad_webhook : Response
bad_webhook = failure 400 "INVALID_PARAM" "webhookId must be a valid UUID"

abbrev internal_create : Response
internal_create = failure 500 "INTERNAL_ERROR" "failed to create subscription"

abbrev limit_of : Option ℤ → ℕ
limit_of (some (pos n)) = if n == 0 then 50 else if ltb 500 n then 500 else n
limit_of _ = 50

abbrev offset_of : Option ℤ → ℕ
offset_of (some (pos n)) = n
offset_of _ = 0

module _ (x : Texts) where
  -- The error of validateEventTypes, or none.
  unfoldable pub validate_event_types : List String → Option String
  validate_event_types [] = none
  validate_event_types (e ∷ es) =
      let rest = validate_event_types es in
      if any (λ v. str_eq v e) all_event_types
      then rest
      else some (
          concat "unknown event type " (
            concat (x.quote e)
              "; valid: evidence.intake.complete, reasoning.conclusion, finding.status.changed"))

  unfoldable pub pagination_params : String → String → ℕ × ℕ
  pagination_params limit offset = (limit_of (x.atoi limit), offset_of (x.atoi offset))

  -- parseOrgID and parseWebhookID.
  unfoldable pub parse_org_id : String → (ℕ → Tables × Response) → Tables → Tables × Response
  parse_org_id org next t = parsed (x.parse org)
    where
      parsed : Option ℕ → Tables × Response
      parsed none = (t, bad_org)
      parsed (some id) = next id

  unfoldable pub parse_webhook_id : String → (ℕ → Tables × Response) → Tables → Tables × Response
  parse_webhook_id webhook next t = parsed (x.parse webhook)
    where
      parsed : Option ℕ → Tables × Response
      parsed none = (t, bad_webhook)
      parsed (some id) = next id

  abbrev stored : Bool → Tables → Tables × WebhookSubscription → Tables × Response
  stored true t w = (t, internal_create)
  stored false t (t', sub) = (t', subscription_body 201 sub)

  abbrev create_validated :
      ℕ → ℕ → Bool → ℕ → CreateSubscriptionRequest → Tables → Option String → Tables × Response
  create_validated id now fails org req t (some problem) =
      (t, failure 400 "INVALID_EVENT_TYPE" problem)
  create_validated id now fails org req t none =
      stored fails t (create_subscription id now org (x.hash_secret req.secret) req t)

  abbrev create_body :
      ℕ → ℕ → Bool → ℕ → Body CreateSubscriptionRequest → Tables → Tables × Response
  create_body id now fails org (malformed problem) t = (t, failure 400 "INVALID_JSON" problem)
  create_body id now fails org (decoded req) t =
      if str_eq req.url ""
      then (t, failure 400 "MISSING_FIELD" "url is required")
      else if str_eq req.secret ""
      then (t, failure 400 "MISSING_FIELD" "secret is required")
      else if length req.event_types == 0
      then (t, failure 400 "MISSING_FIELD" "event_types must not be empty")
      else create_validated id now fails org req t (validate_event_types req.event_types)

  unfoldable pub create_subscription_call :
      ℕ → ℕ → Bool → String → Body CreateSubscriptionRequest → Tables → Tables × Response
  unfolding validate_event_types parse_org_id
  create_subscription_call id now fails org body t =
      parse_org_id org (λ org_id. create_body id now fails org_id body t) t

  unfoldable pub list_subscriptions_call : Bool → String → Tables → Tables × Response
  unfolding parse_org_id
  list_subscriptions_call fails org t =
      parse_org_id org
        (λ org_id.
          let found = list_subscriptions org_id t in
          if fails
          then (t, failure 500 "INTERNAL_ERROR" "failed to list subscriptions")
          else (t, subscriptions_body 200 found (length found)))
        t

  abbrev shown : Option WebhookSubscription → Response
  shown none = failure 404 "NOT_FOUND" "webhook subscription not found"
  shown (some sub) = subscription_body 200 sub

  unfoldable pub get_subscription_call : Bool → String → String → Tables → Tables × Response
  unfolding parse_org_id parse_webhook_id
  get_subscription_call fails org webhook t =
      parse_org_id org
        (λ org_id.
          parse_webhook_id webhook
            (λ id.
              if fails
              then (t, failure 500 "INTERNAL_ERROR" "failed to get subscription")
              else (t, shown (get_subscription org_id id t)))
            t)
        t

  abbrev update_validated :
      ℕ → Bool → ℕ → ℕ → UpdateSubscriptionRequest → Tables → Option String → Tables × Response
  update_validated now fails org id req t (some problem) =
      (t, failure 400 "INVALID_EVENT_TYPE" problem)
  update_validated now fails org id req t none =
      let new = update_subscription now org id req t in
      if fails
      then (t, failure 500 "INTERNAL_ERROR" "failed to update subscription")
      else (new.0, shown new.1)

  abbrev update_body :
      ℕ → Bool → ℕ → ℕ → Body UpdateSubscriptionRequest → Tables → Tables × Response
  update_body now fails org id (malformed problem) t = (t, failure 400 "INVALID_JSON" problem)
  update_body now fails org id (decoded req) t =
      update_validated now fails org id req t (validate_event_types req.event_types)

  unfoldable pub update_subscription_call :
      ℕ → Bool → String → String → Body UpdateSubscriptionRequest → Tables → Tables × Response
  unfolding validate_event_types parse_org_id parse_webhook_id
  update_subscription_call now fails org webhook body t =
      parse_org_id org
        (λ org_id. parse_webhook_id webhook (λ id. update_body now fails org_id id body t) t) t

  unfoldable pub delete_subscription_call : ℕ → Bool → String → String → Tables → Tables × Response
  unfolding parse_org_id parse_webhook_id
  delete_subscription_call now fails org webhook t =
      parse_org_id org
        (λ org_id.
          parse_webhook_id webhook
            (λ id.
              if fails
              then (t, failure 500 "INTERNAL_ERROR" "failed to delete subscription")
              else (delete_subscription now org_id id t, no_content))
            t)
        t

  abbrev deliveries_scanned : Option (List WebhookDelivery) → Response
  deliveries_scanned none = failure 500 "INTERNAL_ERROR" "failed to list deliveries"
  deliveries_scanned (some found) = deliveries_body 200 found (length found)

  -- The organisation is parsed and then not used. `of_null` is what the driver makes of NULL for a
  -- Go string.
  unfoldable pub list_deliveries_call :
      Option String → Bool → String → String → String → String → Tables → Tables × Response
  unfolding scan_all pagination_params parse_org_id parse_webhook_id
  list_deliveries_call of_null fails org webhook limit offset t =
      parse_org_id org
        (λ org_id.
          parse_webhook_id webhook
            (λ id.
              let page = pagination_params limit offset in
              let found = list_deliveries_for_subscription id page.0 page.1 t in
              if fails
              then (t, failure 500 "INTERNAL_ERROR" "failed to list deliveries")
              else (t, deliveries_scanned (scan_all of_null found)))
            t)
        t

  abbrev launched :
      DispatchRequest → Tables → Option (Tables × List Started) → (Tables × List Started) × Response
  launched req t none = ((t, []), failure 500 "INTERNAL_ERROR" "dispatch failed")
  launched req t (some w) = (w, dispatched_body 202 req.org_id req.event_type)

  abbrev dispatch_validated :
      Database → ℕ → DispatchRequest → Tables → Option String → (Tables × List Started) × Response
  dispatch_validated db now req t (some problem) =
      ((t, []), failure 400 "INVALID_EVENT_TYPE" problem)
  dispatch_validated db now req t none =
      launched req t (dispatch db now req.org_id req.event_type req.data_fields t)

  -- Dispatch, with the goroutines that it starts.
  unfoldable pub dispatch_call :
      Database → ℕ → Body DispatchRequest → Tables → (Tables × List Started) × Response
  unfolding validate_event_types
  dispatch_call db now (malformed problem) t = ((t, []), failure 400 "INVALID_JSON" problem)
  dispatch_call db now (decoded req) t =
      if req.org_id == 0
      then ((t, []), failure 400 "MISSING_FIELD" "org_id is required")
      else if str_eq req.event_type ""
      then ((t, []), failure 400 "MISSING_FIELD" "event_type is required")
      else dispatch_validated db now req t (validate_event_types (req.event_type ∷ []))
