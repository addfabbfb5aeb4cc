-- ===== src/Circuit/State.antt =====
-- The type `State` of sdk/connector/circuit/breaker.go and of
-- services/integration/internal/connector/circuit_breaker.go.
use obvious.Base.{Bool, true, false}

pub data State : Type 0 where
  closed opened half_open : State

abbrev pub eq_state : State → State → Bool
eq_state closed closed = true
eq_state opened opened = true
eq_state half_open half_open = true
eq_state _ _ = false
