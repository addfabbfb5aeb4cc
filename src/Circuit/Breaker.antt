-- ===== src/Circuit/Breaker.antt =====
-- sdk/connector/circuit/breaker.go. A method takes the breaker to a new breaker and its result; a
-- time and a duration are numbers of nanoseconds, `time.Now()` is an argument. `consecutiveFails`
-- is an unbounded number. `notified` has the goroutines that call `OnStateChange`, in the order in which
-- they are started; when each of them runs is the scheduler's.
use obvious.Base.{
  ℕ, ◌+◌, Bool, true, false, not, ◌&&◌, ◌||◌, Option, none, some, List, [], ◌∷◌, ◌++◌,
  if◌then◌else◌, leb,
}
use obvious.Base.Int.{ℤ, positive_or}
use obvious.Circuit.State.{State, closed, opened, half_open, eq_state}

pub record Config : Type 0 where
  pub failure_threshold : ℤ
  pub recovery_timeout : ℤ
  -- OnStateChange is not nil.
  pub on_state_change : Bool

pub record Breaker : Type 0 where
  pub failure_threshold : ℕ
  pub recovery_timeout : ℕ
  pub on_state_change : Bool
  pub state : State
  pub consecutive_fails : ℕ
  pub opened_at : ℕ
  pub half_open_in_flight : Bool
  pub notified : List (State × State)

-- New fills the defaults in: 5 failures and 30 seconds.
unfoldable pub new : Config → Breaker
new cfg = record {
  failure_threshold = positive_or cfg.failure_threshold 5;
  recovery_timeout = positive_or cfg.recovery_timeout 30000000000;
  on_state_change = cfg.on_state_change;
  state = closed;
  consecutive_fails = 0;
  opened_at = 0;
  half_open_in_flight = false;
  notified = [];
}

unfoldable pub transition : State → Breaker → Breaker
transition next b = record b {
  state = next;
  notified =
      if eq_state b.state next || not b.on_state_change
      then b.notified
      else b.notified ++ (b.state, next) ∷ [];
}

unfoldable pub maybe_transition_to_half_open : ℕ → Breaker → Breaker
unfolding transition
maybe_transition_to_half_open now b =
    if eq_state b.state opened && leb (b.opened_at + b.recovery_timeout) now
    then transition half_open b
    else b

-- The `switch` of Allow: `false` stands for ErrOpen.
abbrev admit : State → Breaker → Breaker × Bool
admit opened b = (b, false)
admit half_open b =
    if b.half_open_in_flight then (b, false) else (record b { half_open_in_flight = true }, true)
admit closed b = (b, true)

unfoldable pub allow : ℕ → Breaker → Breaker × Bool
unfolding maybe_transition_to_half_open
allow now b = let b' = maybe_transition_to_half_open now b in admit b'.state b'

-- Record(nil)
unfoldable pub record_success : Breaker → Breaker
unfolding transition
record_success b =
    let b' = if eq_state b.state closed then b else transition closed b in
    record b' { consecutive_fails = 0; half_open_in_flight = false }

-- Record(err)
unfoldable pub record_failure : ℕ → Breaker → Breaker
unfolding transition
record_failure now b =
    let counted : Breaker = record b {
      half_open_in_flight = false;
      consecutive_fails = b.consecutive_fails + 1;
    } in
    if eq_state counted.state half_open
      || (eq_state counted.state closed && leb counted.failure_threshold counted.consecutive_fails)
    then record (transition opened counted) { opened_at = now }
    else counted

-- Record, by whether `err == nil`.
unfoldable pub record_outcome : ℕ → Bool → Breaker → Breaker
unfolding record_success record_failure
record_outcome now true b = record_success b
record_outcome now false b = record_failure now b

abbrev continue : ℕ → Bool → Breaker × Bool → Breaker × Option Bool
continue now succeeds (b, false) = (b, none)
continue now succeeds (b, true) = (record_outcome now succeeds b, some succeeds)

-- Do: the call is asked for at one time and ends at another; `none` stands for ErrOpen, and else
-- the result says whether `fn` returned nil.
unfoldable pub do_call : ℕ → ℕ → Bool → Breaker → Breaker × Option Bool
unfolding allow record_outcome
do_call asked ended succeeds b = continue ended succeeds (allow asked b)

-- The method `State`.
unfoldable pub current_state : ℕ → Breaker → Breaker × State
unfolding maybe_transition_to_half_open
current_state now b = let b' = maybe_transition_to_half_open now b in (b', b'.state)
