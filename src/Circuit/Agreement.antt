-- ===== src/Circuit/Agreement.antt =====
-- The two circuit breakers, of sdk/connector/circuit/breaker.go and of
-- services/integration/internal/connector/circuit_breaker.go, on calls that do not overlap.
use obvious.Base.{
  ℕ, suc, ◌≤◌, ◌≡◌, refl, ◌⊎◌, Bool, true, false, Option, none, some, List, [], ◌∷◌, arith,
}
use obvious.Base.Int.{pos}
use obvious.Circuit.State.{closed}
use obvious.Circuit.Breaker.{Breaker, new, do_call}
use obvious.Circuit.Connector.{
  CircuitBreaker, Outcome, fetched, failed, circuit_open, Inner, answer, error, fetch_logs,
  new_circuit_breaker,
}

-- The breakers agree between two calls.
pub record Agree (b : Breaker) (c : CircuitBreaker) : Type 0 where
  pub threshold : b.failure_threshold ≡ c.config.failure_threshold
  pub timeout : b.recovery_timeout ≡ c.config.recovery_timeout
  pub state : b.state ≡ c.state
  pub fails : b.consecutive_fails ≡ c.consecutive_fails
  pub since : b.opened_at ≡ c.opened_at
  pub idle : b.half_open_in_flight ≡ false
  pub tripped : (b.state ≡ closed) ⊎ (b.failure_threshold ≤ b.consecutive_fails)

abbrev pub succeeds {ℓ} : {A : Type ℓ} → Inner A → Bool
succeeds (answer _) = true
succeeds (error _) = false

abbrev pub verdict {ℓ} : {A : Type ℓ} → Outcome A → Option Bool
verdict (fetched _) = some true
verdict (failed _) = some false
verdict circuit_open = none

module _ (asked ended : ℕ) (b : Breaker) (c : CircuitBreaker) (agree : Agree b c) where
  pub do_call-Agree :
      (inner : Inner ℕ)
      → Agree (do_call asked ended (succeeds inner) b).0 (fetch_logs asked ended inner c).0
  unfolding do_call fetch_logs
  do_call-Agree (answer a) = ground arith
  do_call-Agree (error e) = ground arith

  pub do_call-verdict :
      (inner : Inner ℕ)
      → (do_call asked ended (succeeds inner) b).1 ≡ verdict (fetch_logs asked ended inner c).1
  unfolding do_call fetch_logs
  do_call-verdict (answer a) = ground arith
  do_call-verdict (error e) = ground arith

-- Calls that do not overlap: each is asked at one time and ends at another, before the next.
unfoldable pub do_calls : List (ℕ × ℕ × Inner ℕ) → Breaker → Breaker × List (Option Bool)
do_calls [] b = (b, [])
do_calls ((asked, ended, inner) ∷ rest) b =
    let first = do_call asked ended (succeeds inner) b in
    let others = do_calls rest first.0 in (others.0, first.1 ∷ others.1)

unfoldable pub fetches :
    List (ℕ × ℕ × Inner ℕ) → CircuitBreaker → CircuitBreaker × List (Option Bool)
fetches [] c = (c, [])
fetches ((asked, ended, inner) ∷ rest) c =
    let first = fetch_logs asked ended inner c in
    let others = fetches rest first.0 in (others.0, verdict first.1 ∷ others.1)

calls-Agree :
    (cs : List (ℕ × ℕ × Inner ℕ)) (b : Breaker) (c : CircuitBreaker)
    → Agree b c
    → Agree (do_calls cs b).0 (fetches cs c).0 × ((do_calls cs b).1 ≡ (fetches cs c).1)
unfolding do_calls fetches
calls-Agree [] b c agree = (agree, refl)
calls-Agree ((asked, ended, inner) ∷ cs) b c agree =
    let (still, same) =
      calls-Agree cs (do_call asked ended (succeeds inner) b).0 (fetch_logs asked ended inner c).0
        (do_call-Agree asked ended b c agree inner) in
    let heads = do_call-verdict asked ended b c agree inner in (still, cc)

new-Agree :
    (n t : ℕ) (told : Bool)
    → Agree
        (new (record {
          failure_threshold = pos (suc n);
          recovery_timeout = pos (suc t);
          on_state_change = told;
        }))
        (new_circuit_breaker (record { failure_threshold = suc n; recovery_timeout = suc t }))
unfolding new new_circuit_breaker
new-Agree n t told = ground arith

-- For a positive threshold and timeout, with a callback or without, and any calls that do not overlap, the two circuit
-- breakers are interchangeable: each call gets the same verdict of both, which is its own success
-- or failure or a refusal, and both end in the same state with the same count and opening time.
pub breakers_agree :
    (n t : ℕ) (told : Bool) (cs : List (ℕ × ℕ × Inner ℕ))
    → let sdk = do_calls cs (
        new (record {
          failure_threshold = pos (suc n);
          recovery_timeout = pos (suc t);
          on_state_change = told;
        })) in
      let own =
        fetches cs
          (new_circuit_breaker (record { failure_threshold = suc n; recovery_timeout = suc t })) in
      (sdk.1 ≡ own.1)
      × (sdk.0.state ≡ own.0.state)
      × (sdk.0.consecutive_fails ≡ own.0.consecutive_fails)
      × (sdk.0.opened_at ≡ own.0.opened_at)
breakers_agree n t told cs =
    let (agree, same) = calls-Agree cs _ _ (new-Agree n t told) in
    (same, agree.state, agree.fails, agree.since)
