-- ===== src/Webhooks/Dispatch.antt =====
-- services/webhooks/internal/delivery/delivery.go on the tables: Dispatch and the retry batch give
-- the tables and the attempts that they start, each in a goroutine of its own.
use obvious.Base.{ℕ, String, Bool, Option, none, some, List, [], ◌∷◌, str_eq, if◌then◌else◌}
use obvious.Base.Json.{Fields}
use obvious.Webhooks.Delivery.{WebhookDelivery, create_delivery, scan_delivery}
use obvious.Webhooks.Subscriptions.{
  WebhookSubscription, Tables, active_subscriptions_for_event, pending_deliveries,
  get_subscription_with_secret,
}

-- What a goroutine is given.
pub record Started : Type 0 where
  pub delivery : WebhookDelivery
  pub url : String
  pub secret : String

abbrev pub retry_batch_size : ℕ
retry_batch_size = 50

-- What the database gives and does: the new rows' IDs and whether an INSERT fails, both by the
-- subscription; whether the query fails, and a lookup by its subscription; the order by age; and
-- what the driver makes of NULL for a Go string.
pub record Database : Type 0 where
  pub fresh : ℕ → ℕ
  pub insert_fails : ℕ → Bool
  pub query_fails : Bool
  pub lookup_fails : ℕ → Bool
  pub oldest_first : List WebhookDelivery → List WebhookDelivery
  pub of_null : Option String

abbrev pub collected : {A : Type 0} → Option A → Option (List A) → Option (List A)
collected none rest = none
collected (some a) none = none
collected (some a) (some rest) = some (a ∷ rest)

-- The loop over the rows of a query: an error of one is an error of all.
unfoldable pub scan_all : Option String → List WebhookDelivery → Option (List WebhookDelivery)
unfolding scan_delivery
scan_all of_null [] = some []
scan_all of_null (d ∷ ds) = collected (scan_delivery of_null d) (scan_all of_null ds)

abbrev pub started_with : WebhookSubscription → Option WebhookDelivery → List Started → List Started
started_with sub none rest = rest
started_with sub (some d) rest =
    record { delivery = d; url = sub.url; secret = sub.secret_value } ∷ rest

module _ (db : Database) (now : ℕ) where
  abbrev pub new_row : ℕ → String → Option Fields → WebhookSubscription → WebhookDelivery
  new_row org event_type payload sub =
      create_delivery (db.fresh sub.id) now sub.id org event_type payload

  -- The loop of Dispatch: a row that is inserted stays, even when it cannot be scanned.
  unfoldable pub fan_out :
      ℕ → String → Option Fields → List WebhookSubscription → Tables → Tables × List Started
  unfolding scan_delivery create_delivery
  fan_out org event_type payload [] t = (t, [])
  fan_out org event_type payload (sub ∷ subs) t =
      let d = new_row org event_type payload sub in
      let rest =
        fan_out org event_type payload subs
          (if db.insert_fails sub.id then t else record t { deliveries = d ∷ t.deliveries }) in
      if db.insert_fails sub.id
      then rest
      else (rest.0, started_with sub (scan_delivery db.of_null d) rest.1)

  -- `none` is the error of Dispatch.
  unfoldable pub dispatch : ℕ → String → Option Fields → Tables → Option (Tables × List Started)
  unfolding fan_out active_subscriptions_for_event
  dispatch org event_type payload t =
      if db.query_fails
      then none
      else some (fan_out org event_type payload (active_subscriptions_for_event org event_type t) t)

  abbrev pub retried : WebhookDelivery → Option WebhookSubscription → List Started → List Started
  retried d none rest = rest
  retried d (some sub) rest =
      if str_eq sub.secret_value ""
      then rest
      else record { delivery = d; url = sub.url; secret = sub.secret_value } ∷ rest

  unfoldable pub retry_each : List WebhookDelivery → Tables → List Started
  unfolding get_subscription_with_secret
  retry_each [] t = []
  retry_each (d ∷ ds) t =
      let rest = retry_each ds t in
      if db.lookup_fails d.subscription_id
      then rest
      else retried d (get_subscription_with_secret d.subscription_id t) rest

  abbrev pub retry_scanned : Tables → Option (List WebhookDelivery) → List Started
  retry_scanned t none = []
  retry_scanned t (some ds) = retry_each ds t

  -- runRetryBatch, which only reads.
  unfoldable pub run_retry_batch : Tables → List Started
  unfolding scan_all retry_each pending_deliveries
  run_retry_batch t =
      if db.query_fails
      then []
      else retry_scanned t
          (scan_all db.of_null (pending_deliveries db.oldest_first now retry_batch_size t))
