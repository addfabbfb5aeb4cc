-- ===== src/Webhook/Tests.antt =====
-- The theorems on the deliveries of the worker at small runs.
use obvious.Base.{ℕ, ◌≡◌, ◌≢◌, refl, true, false, some, none, List, [], ◌∷◌, length, All}
use obvious.Base.Int.{pos}
use obvious.Base.Json.{end, object}
use obvious.Webhook.Store.{
  enabled_endpoints_for_event, create_endpoint, enqueue_delivery, Endpoint, Delivery, Platform,
  Tables, delivered, endpoint_row,
}
use obvious.Webhook.Worker.{process_batch, Trip, not_sent, answered}
use obvious.Webhook.Handler.{dispatch_event, create_endpoint_call, Texts, decoded}
use obvious.Webhook.Settling.{Tick}
use obvious.Webhook.Undelivered.{
  Call, creating, dispatching, polling, serve, serve_all, none_delivered,
}

abbrev platform : Platform
platform = record { len = λ s. 0; prefix = λ n s. s; by_next_retry = λ ds. ds }

abbrev texts : Texts
texts = record {
  has_prefix = λ s prefix. true;
  atoi = λ s. some (pos 5);
  len = λ s. 8;
  last_four = λ s. s;
  marshal = λ j. some "{}";
}

abbrev ep : Endpoint
ep = endpoint_row "ep" 0 (record {
  org_id = "acme";
  url = "https://acme.example";
  secret = "s";
  event_types = "*" ∷ [];
  description = "";
  enabled = true;
})

abbrev endpoints : Tables
endpoints = record { endpoints = ep ∷ []; deliveries = [] }

abbrev queued : Tables
queued = enqueue_delivery "d" 0 "ep" "audit.closed" "{}" endpoints

abbrev refused : ℕ → Tick
refused at = record {
  at = at;
  trips = λ id. record { lookup_fails = false; outcome = not_sent "refused"; write_fails = false };
}

abbrev ticks : List Tick
ticks =
    refused 100000000000
    ∷ refused 200000000000
    ∷ refused 300000000000
    ∷ refused 400000000000
    ∷ refused 500000000000
    ∷ []

abbrev trip : Trip
trip = record { lookup_fails = false; outcome = answered 200 "ok"; write_fails = false }

abbrev calls : List Call
calls =
    creating "ep" 0 (some "secret") false "acme" (
      decoded (record {
        url = "https://acme.example";
        event_types = [];
        description = "";
        enabled = none;
      }))
    ∷ dispatching (λ id. "d") (λ id. false) false 0
        (decoded
          (record { org_id = "acme"; event_type = "audit.closed"; payload = some (object end) }))
    ∷ polling 1 false (λ id. trip)
    ∷ []

none_delivered_example :
    All
      (λ (d : Delivery). d.status ≢ delivered)
      (serve_all platform texts calls (record { endpoints = []; deliveries = [] })).deliveries
none_delivered_example = none_delivered platform texts calls

-- The endpoint would answer, and the one delivery has failed its first attempt.
first_attempt :
    length (serve_all platform texts calls (record { endpoints = []; deliveries = [] })).deliveries
    ≡ 1
unfolding serve_all serve process_batch dispatch_event enabled_endpoints_for_event
    create_endpoint_call create_endpoint enqueue_delivery
first_attempt = refl
