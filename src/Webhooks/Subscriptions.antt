-- ===== src/Webhooks/Subscriptions.antt =====
-- The two tables of services/webhooks/internal/store/store.go with its statements on subscriptions
-- and its queries of deliveries, as lists of rows with the newest first. An ID is a number and
-- uuid.Nil is 0.
use obvious.Base.{
  ℕ, String, Bool, true, false, ◌&&◌, ◌||◌, Option, none, some, List, [], ◌∷◌, str_eq,
  if◌then◌else◌, ◌==◌, leb, any, filter, take, drop,
}
use obvious.Webhooks.Delivery.{DeliveryStatus, pending, WebhookDelivery}

-- A row of webhook_subscriptions, with the columns that no answer shows.
pub record WebhookSubscription : Type 0 where
  pub id : ℕ
  pub org_id : ℕ
  pub url : String
  pub event_types : List String
  pub description : String
  pub is_active : Bool
  pub created_by : ℕ
  pub created_at : ℕ
  pub updated_at : ℕ
  pub secret_value : String
  pub secret_hash : String

pub record CreateSubscriptionRequest : Type 0 where
  pub url : String
  pub secret : String
  pub event_types : List String
  pub description : String

pub record UpdateSubscriptionRequest : Type 0 where
  pub url : Option String
  pub event_types : List String
  pub description : Option String
  pub is_active : Option Bool

pub record Tables : Type 0 where
  pub subscriptions : List WebhookSubscription
  pub deliveries : List WebhookDelivery

abbrev pub first {ℓ} : {A : Type ℓ} → List A → Option A
first [] = none
first (x ∷ xs) = some x

-- The handler gives no creator, so the column holds uuid.Nil when it is read.
abbrev pub subscription_row : ℕ → ℕ → ℕ → String → CreateSubscriptionRequest → WebhookSubscription
subscription_row id now org secret_hash req = record {
  id = id;
  org_id = org;
  url = req.url;
  event_types = req.event_types;
  description = req.description;
  is_active = true;
  created_by = 0;
  created_at = now;
  updated_at = now;
  secret_value = req.secret;
  secret_hash = secret_hash;
}

unfoldable pub create_subscription :
    ℕ → ℕ → ℕ → String → CreateSubscriptionRequest → Tables → Tables × WebhookSubscription
create_subscription id now org secret_hash req t =
    let sub = subscription_row id now org secret_hash req in
    (record t { subscriptions = sub ∷ t.subscriptions }, sub)

abbrev pub is_of : ℕ → ℕ → WebhookSubscription → Bool
is_of org id sub = (sub.org_id == org) && (sub.id == id)

-- `none` stands for nil without an error.
unfoldable pub get_subscription : ℕ → ℕ → Tables → Option WebhookSubscription
get_subscription org id t = first (filter (is_of org id) t.subscriptions)

-- The row has the secret too.
unfoldable pub get_subscription_with_secret : ℕ → Tables → Option WebhookSubscription
get_subscription_with_secret id t =
    first (filter (λ sub. (sub.id == id) && sub.is_active) t.subscriptions)

unfoldable pub list_subscriptions : ℕ → Tables → List WebhookSubscription
list_subscriptions org t = filter (λ sub. sub.org_id == org) t.subscriptions

abbrev or_else {ℓ} : {A : Type ℓ} → Option A → A → A
or_else none old = old
or_else (some new) old = new

abbrev or_old : List String → List String → List String
or_old [] old = old
or_old (e ∷ es) old = e ∷ es

-- The UPDATE, whose trigger sets the column updated_at.
abbrev pub patched : ℕ → UpdateSubscriptionRequest → WebhookSubscription → WebhookSubscription
patched now req sub = record sub {
  url = or_else req.url sub.url;
  description = or_else req.description sub.description;
  is_active = or_else req.is_active sub.is_active;
  event_types = or_old req.event_types sub.event_types;
  updated_at = now;
}

-- An UPDATE of the rows that a test holds of.
unfoldable pub update_where :
    (WebhookSubscription → Bool)
    → (WebhookSubscription → WebhookSubscription)
    → List WebhookSubscription
    → List WebhookSubscription
update_where test change [] = []
update_where test change (sub ∷ subs) =
    (if test sub then change sub else sub) ∷ update_where test change subs

abbrev pub is_empty : UpdateSubscriptionRequest → Bool
is_empty req = none_given req.url req.description req.is_active req.event_types
  where
    none_given : Option String → Option String → Option Bool → List String → Bool
    none_given none none none [] = true
    none_given _ _ _ _ = false

unfoldable pub update_subscription :
    ℕ → ℕ → ℕ → UpdateSubscriptionRequest → Tables → Tables × Option WebhookSubscription
unfolding update_where get_subscription
update_subscription now org id req t =
    let t' = record t {
      subscriptions = update_where (is_of org id) (patched now req) t.subscriptions;
    } in
    if is_empty req then (t, get_subscription org id t) else (t', get_subscription org id t')

unfoldable pub delete_subscription : ℕ → ℕ → ℕ → Tables → Tables
unfolding update_where
delete_subscription now org id t = record t {
  subscriptions =
      update_where (is_of org id) (λ sub. record sub { is_active = false; updated_at = now })
        t.subscriptions;
}

-- The condition of the query.
abbrev pub opted_in : ℕ → String → WebhookSubscription → Bool
opted_in org event_type sub =
    (sub.org_id == org)
    && sub.is_active
    && (any (λ e. str_eq e event_type) sub.event_types
        || any (λ e. str_eq e "wildcard") sub.event_types)

unfoldable pub active_subscriptions_for_event : ℕ → String → Tables → List WebhookSubscription
active_subscriptions_for_event org event_type t = filter (opted_in org event_type) t.subscriptions

abbrev is_pending : DeliveryStatus → Bool
is_pending pending = true
is_pending _ = false

abbrev is_past : ℕ → Option ℕ → Bool
is_past now none = true
is_past now (some at) = leb at now

-- `oldest_first` is the ORDER BY.
unfoldable pub pending_deliveries :
    (List WebhookDelivery → List WebhookDelivery) → ℕ → ℕ → Tables → List WebhookDelivery
pending_deliveries oldest_first now limit t =
    take limit
      (oldest_first (filter (λ d. is_pending d.status && is_past now d.next_retry_at) t.deliveries))

unfoldable pub list_deliveries_for_subscription : ℕ → ℕ → ℕ → Tables → List WebhookDelivery
list_deliveries_for_subscription id limit offset t =
    take limit (drop offset (filter (λ d. d.subscription_id == id) t.deliveries))
