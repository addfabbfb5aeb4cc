-- ===== src/Webhooks/Retries.antt =====
-- The life of a delivery under services/webhooks/internal/delivery/delivery.go: failed attempts one
-- after another.
use Prim.Native.String.{◌++◌ as concat}
use obvious.Base.{ℕ, ◌+◌, ◌≡◌, refl, ap, ◌∙◌, String, false, Option, none, some}
use obvious.Webhooks.Delivery.{
  pending, failed, WebhookDelivery, Outcome, not_marshalled, not_built, not_sent, answered,
  is_success, attempt, record_failure, record_attempt_failure, failure_row,
}

-- A failed attempt records a failure, with some status and message.
abbrev Records : (ℕ → String) → ℕ → Outcome → WebhookDelivery → Type 0
Records print now o d =
    (response : Option ℕ) × (message : String) × (attempt print now o d
      ≡ record_failure print now response message d)

module _ (print : ℕ → String) where
  failing :
      (now : ℕ) (o : Outcome) (d : WebhookDelivery) → is_success o ≡ false → Records print now o d
  unfolding attempt
  failing now (not_marshalled e) d h = (none, _, refl)
  failing now (not_built e) d h = (none, _, refl)
  failing now (not_sent e) d h = (none, _, refl)
  failing now (answered code) d h = (some code, concat "non-2xx response: " (print code), rw h refl)

  module _ (now : ℕ) (response : Option ℕ) (message : String) (d : WebhookDelivery) where
    first-failure :
        d.attempt_count ≡ 0
        → record_failure print now response message d
          ≡ some (failure_row now 1 response message pending (some (now + 300000000000)) d)
    unfolding record_failure
    first-failure e = ap (λ c. record_attempt_failure now (c + 1) response message d) e

    second-failure :
        d.attempt_count ≡ 1
        → record_failure print now response message d
          ≡ some (failure_row now 2 response message pending (some (now + 1800000000000)) d)
    unfolding record_failure
    second-failure e = ap (λ c. record_attempt_failure now (c + 1) response message d) e

    third-failure :
        d.attempt_count ≡ 2
        → record_failure print now response message d
          ≡ some (failure_row now 3 response message failed none d)
    unfolding record_failure
    third-failure e = ap (λ c. record_attempt_failure now (c + 1) response message d) e

  -- Three failed attempts on a delivery without any before, whatever fails and whenever: the first
  -- is followed by a wait of five minutes, the second by one of thirty, and the third moves the
  -- delivery to failed.
  pub failures_schedule :
      (d : WebhookDelivery) (t₁ t₂ t₃ : ℕ) (o₁ o₂ o₃ : Outcome)
      → d.attempt_count ≡ 0
      → is_success o₁ ≡ false
      → is_success o₂ ≡ false
      → is_success o₃ ≡ false
      → (d₁ d₂ d₃ : WebhookDelivery) × (attempt print t₁ o₁ d ≡ some d₁)
        × (attempt print t₂ o₂ d₁ ≡ some d₂)
        × (attempt print t₃ o₃ d₂ ≡ some d₃)
        × (d₁.status ≡ pending)
        × (d₁.next_retry_at ≡ some (t₁ + 300000000000))
        × (d₂.status ≡ pending)
        × (d₂.next_retry_at ≡ some (t₂ + 1800000000000))
        × (d₃.status ≡ failed)
        × (d₃.next_retry_at ≡ none)
  failures_schedule d t₁ t₂ t₃ o₁ o₂ o₃ new f₁ f₂ f₃ =
      let (r₁, m₁, a₁) = failing t₁ o₁ d f₁ in
      let d₁ = failure_row t₁ 1 r₁ m₁ pending (some (t₁ + 300000000000)) d in
      let (r₂, m₂, a₂) = failing t₂ o₂ d₁ f₂ in
      let d₂ = failure_row t₂ 2 r₂ m₂ pending (some (t₂ + 1800000000000)) d₁ in
      let (r₃, m₃, a₃) = failing t₃ o₃ d₂ f₃ in
      let d₃ = failure_row t₃ 3 r₃ m₃ failed none d₂ in
      (
        d₁,
        d₂,
        d₃,
        a₁ ∙ first-failure t₁ r₁ m₁ d new,
        a₂ ∙ second-failure t₂ r₂ m₂ d₁ refl,
        a₃ ∙ third-failure t₃ r₃ m₃ d₂ refl,
        refl,
        refl,
        refl,
        refl,
        refl,
        refl,
      )
