-- ===== src/Webhooks/Delivery.antt =====
-- One row of webhook_deliveries: services/webhooks/internal/model, the statements on it in
-- services/webhooks/internal/store/store.go, and an attempt of
-- services/webhooks/internal/delivery/delivery.go. A time is a number of nanoseconds, the printer
-- of numbers is an argument, and what the HTTP client and the database do are arguments too.
use Prim.Native.String.{◌++◌ as concat}
use obvious.Base.{
  ℕ, ◌+◌, String, Bool, false, ◌&&◌, Option, none, some, List, [], ◌∷◌, if◌then◌else◌, ltb, leb,
  get_elem?,
}
use obvious.Base.Json.{Fields}

pub data DeliveryStatus : Type 0 where
  pending delivered failed : DeliveryStatus

abbrev pub retry_schedule : List ℕ
retry_schedule = 30000000000 ∷ 300000000000 ∷ 1800000000000 ∷ []

abbrev pub max_attempts : ℕ
max_attempts = 3

pub record WebhookDelivery : Type 0 where
  pub id : ℕ
  pub subscription_id : ℕ
  pub org_id : ℕ
  pub event_type : String
  pub payload : Option Fields
  pub status : DeliveryStatus
  pub attempt_count : ℕ
  pub last_attempt_at : Option ℕ
  pub next_retry_at : Option ℕ
  pub response_status : Option ℕ
  -- `none` is NULL, which a Go string of the struct cannot be.
  pub error_message : Option String
  pub delivered_at : Option ℕ
  pub created_at : ℕ

-- The row that CreateDelivery inserts; its statement leaves the other columns at their defaults.
unfoldable pub create_delivery : ℕ → ℕ → ℕ → ℕ → String → Option Fields → WebhookDelivery
create_delivery id now subscription org event_type payload = record {
  id = id;
  subscription_id = subscription;
  org_id = org;
  event_type = event_type;
  payload = payload;
  status = pending;
  attempt_count = 0;
  last_attempt_at = none;
  next_retry_at = none;
  response_status = none;
  error_message = none;
  delivered_at = none;
  created_at = now;
}

-- scanDelivery: what the driver makes of NULL for the Go string, where `none` is its error.
unfoldable pub scan_delivery : Option String → WebhookDelivery → Option WebhookDelivery
scan_delivery of_null d = filled of_null d d.error_message
  where
    filled : Option String → WebhookDelivery → Option String → Option WebhookDelivery
    filled of_null d (some message) = some d
    filled (some message) d none = some (record d { error_message = some message })
    filled none d none = none

unfoldable pub mark_delivered : ℕ → ℕ → WebhookDelivery → WebhookDelivery
mark_delivered now response d = record d {
  status = delivered;
  response_status = some response;
  delivered_at = some now;
  last_attempt_at = some now;
}

-- The UPDATE of RecordAttemptFailure.
abbrev pub failure_row :
    ℕ → ℕ → Option ℕ → String → DeliveryStatus → Option ℕ → WebhookDelivery → WebhookDelivery
failure_row now count response message status next d = record d {
  attempt_count = count;
  last_attempt_at = some now;
  next_retry_at = next;
  response_status = response;
  error_message = some message;
  status = status;
}

abbrev scheduled : ℕ → ℕ → Option ℕ → String → WebhookDelivery → Option ℕ → Option WebhookDelivery
scheduled now count response message d none = none
scheduled now count response message d (some delay) =
    some (failure_row now count response message pending (some (now + delay)) d)

-- `none` stands for the panic of an index out of range.
unfoldable pub record_attempt_failure :
    ℕ → ℕ → Option ℕ → String → WebhookDelivery → Option WebhookDelivery
record_attempt_failure now count response message d =
    if ltb count max_attempts
    then scheduled now count response message d (get_elem? retry_schedule count)
    else some (failure_row now count response message failed none d)

-- What may come of the request: the payload is not encoded, the request is not built, the client
-- fails, or the subscriber answers with a status.
pub data Outcome : Type 0 where
  not_marshalled not_built not_sent : String → Outcome
  answered : ℕ → Outcome

abbrev pub is_success : Outcome → Bool
is_success (answered code) = leb 200 code && ltb code 300
is_success _ = false

module _ (print : ℕ → String) where
  unfoldable pub record_failure : ℕ → Option ℕ → String → WebhookDelivery → Option WebhookDelivery
  unfolding record_attempt_failure
  record_failure now response message d =
      record_attempt_failure now (d.attempt_count + 1) response message d

  -- attempt, with the row that it leaves when the database takes the write.
  unfoldable pub attempt : ℕ → Outcome → WebhookDelivery → Option WebhookDelivery
  unfolding record_failure mark_delivered
  attempt now (not_marshalled e) d = record_failure now none (concat "marshal payload: " e) d
  attempt now (not_built e) d = record_failure now none (concat "build request: " e) d
  attempt now (not_sent e) d = record_failure now none (concat "http error: " e) d
  attempt now (answered code) d =
      let failure = record_failure now (some code) (concat "non-2xx response: " (print code)) d in
      if leb 200 code && ltb code 300 then some (mark_delivered now code d) else failure
