-- ===== src/Webhooks/Tests.antt =====
-- The retries of one delivery, at a subscriber that answers 500 and then cannot be reached, and a
-- dispatch to one subscription.
use obvious.Base.{ℕ, ◌+◌, ◌≡◌, refl, String, false, none, some, List, [], ◌∷◌, All}
use obvious.Webhooks.Dispatch.{Database}
use obvious.Webhooks.FanOut.{
  Step, subscribing, dispatching, retrying, serve_all, idle_service, Blank, no_attempt,
}
use obvious.Webhooks.Delivery.{
  pending, failed, WebhookDelivery, create_delivery, not_sent, answered, attempt,
}
use obvious.Webhooks.Retries.{failures_schedule}

abbrev print : ℕ → String
print n = "500"

abbrev fresh : WebhookDelivery
fresh = create_delivery 1 10 2 3 "finding.status.changed" none

failures_schedule_example :
    (d₁ d₂ d₃ : WebhookDelivery) × (attempt print 11 (answered 500) fresh ≡ some d₁)
    × (attempt print 400000000000 (not_sent "refused") d₁ ≡ some d₂)
    × (attempt print 3000000000000 (answered 500) d₂ ≡ some d₃)
    × (d₁.status ≡ pending)
    × (d₁.next_retry_at ≡ some (11 + 300000000000))
    × (d₂.status ≡ pending)
    × (d₂.next_retry_at ≡ some (400000000000 + 1800000000000))
    × (d₃.status ≡ failed)
    × (d₃.next_retry_at ≡ none)
unfolding create_delivery
failures_schedule_example =
    failures_schedule print fresh 11 400000000000 3000000000000 (answered 500) (not_sent "refused")
      (answered 500) refl refl refl refl

abbrev database : Database
database = record {
  fresh = λ sub. sub;
  insert_fails = λ sub. false;
  query_fails = false;
  lookup_fails = λ sub. false;
  oldest_first = λ ds. ds;
  of_null = none;
}

abbrev steps : List Step
steps =
    subscribing 7 1 3 "hash" (record {
      url = "https://acme.example";
      secret = "s";
      event_types = "reasoning.conclusion" ∷ [];
      description = "";
    })
    ∷ dispatching database 2 3 "reasoning.conclusion" none
    ∷ retrying database 3
    ∷ []

no_attempt_example :
    let s = serve_all (λ n. "") steps idle_service in
    (s.running ≡ []) × All Blank s.tables.deliveries
no_attempt_example = no_attempt (λ n. "") steps (tt, ((refl, λ ds h. h), ((refl, λ ds h. h), tt)))
