-- ===== src/Circuit/Connector.antt =====
-- services/integration/internal/connector/circuit_breaker.go, and its copy around IAM connectors in
-- services/integration/internal/iam/circuit_breaker.go. `A` is what the wrapped call returns on
-- success. A threshold below 0 acts as 0.
use obvious.Base.{ℕ, ◌+◌, Bool, true, false, not, ◌&&◌, if◌then◌else◌, leb, String}
use obvious.Circuit.State.{State, closed, opened, half_open, eq_state}

pub record CircuitBreakerConfig : Type 0 where
  pub failure_threshold : ℕ
  pub recovery_timeout : ℕ

pub record CircuitBreaker : Type 0 where
  pub config : CircuitBreakerConfig
  pub state : State
  pub consecutive_fails : ℕ
  pub opened_at : ℕ

abbrev pub default_config : CircuitBreakerConfig
default_config = record { failure_threshold = 5; recovery_timeout = 30000000000 }

unfoldable pub new_circuit_breaker : CircuitBreakerConfig → CircuitBreaker
new_circuit_breaker cfg = record {
  config = cfg;
  state = closed;
  consecutive_fails = 0;
  opened_at = 0;
}

unfoldable pub maybe_transition_to_half_open : ℕ → CircuitBreaker → CircuitBreaker
maybe_transition_to_half_open now cb =
    if eq_state cb.state opened && leb (cb.opened_at + cb.config.recovery_timeout) now
    then record cb { state = half_open }
    else cb

-- record, by whether `err == nil`.
unfoldable pub record_outcome : ℕ → Bool → CircuitBreaker → CircuitBreaker
record_outcome now true cb = record cb { consecutive_fails = 0; state = closed }
record_outcome now false cb =
    let counted : CircuitBreaker = record cb { consecutive_fails = cb.consecutive_fails + 1 } in
    if leb counted.config.failure_threshold counted.consecutive_fails
      && not (eq_state counted.state opened)
    then record counted { state = opened; opened_at = now }
    else counted

-- What a protected call gives: the inner result, the inner error, or ErrCircuitOpen.
pub data Outcome {ℓ} (A : Type ℓ) : Type ℓ where
  fetched : A → Outcome A
  failed : String → Outcome A
  circuit_open : Outcome A

-- What the wrapped connector answers.
pub data Inner {ℓ} (A : Type ℓ) : Type ℓ where
  answer : A → Inner A
  error : String → Inner A

abbrev pub conclude {ℓ} : {A : Type ℓ} → ℕ → Inner A → CircuitBreaker → CircuitBreaker × Outcome A
conclude ended (answer a) cb = (record_outcome ended true cb, fetched a)
conclude ended (error e) cb = (record_outcome ended false cb, failed e)

-- FetchLogs (and Sync), asked at one time, the inner call ending at another.
unfoldable pub fetch_logs {ℓ} :
    {A : Type ℓ} → ℕ → ℕ → Inner A → CircuitBreaker → CircuitBreaker × Outcome A
unfolding maybe_transition_to_half_open record_outcome
fetch_logs asked ended inner cb =
    let cb' = maybe_transition_to_half_open asked cb in
    if eq_state cb'.state opened then (cb', circuit_open) else conclude ended inner cb'

unfoldable pub circuit_state : ℕ → CircuitBreaker → CircuitBreaker × State
unfolding maybe_transition_to_half_open
circuit_state now cb = let cb' = maybe_transition_to_half_open now cb in (cb', cb'.state)
