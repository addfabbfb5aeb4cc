-- ===== src/Sdk/Retry.antt =====
-- sdk/connector/retry/retry.go. Floating point, the random number, and what the context and the
-- retried function do at each attempt are arguments. A duration is a number of nanoseconds.
use obvious.Base.{
  ℕ, zero, suc, ◌+◌, ◌-◌, String, Bool, true, false, Option, none, some, List, [], ◌∷◌, ◌++◌,
  if◌then◌else◌, ◌==◌, ltb,
}
use obvious.Base.Int.{ℤ, pos, positive_or, lessb}

-- `float64` and what the code does with it.
pub record Floats : Type 1 where
  pub Float : Type 0
  pub of_int : ℤ → Float
  pub add : Float → Float → Float
  pub mul : Float → Float → Float
  pub pow : Float → Float → Float
  -- x > 0
  pub is_positive : Float → Bool
  pub two : Float
  -- time.Duration(x)
  pub to_duration : Float → ℤ

pub record Config (f : Floats) : Type 0 where
  pub max_attempts : ℤ
  pub base_delay : ℤ
  pub max_delay : ℤ
  pub multiplier : f.Float
  pub jitter : f.Float

-- An error: a text, one that `Permanent` marks, or one that wraps another behind a text.
pub data Error : Type 0 where
  plain : String → Error
  permanent : Error → Error
  wrapped : String → Error → Error

-- IsPermanent follows the chain of `Unwrap`.
unfoldable pub is_permanent : Error → Bool
is_permanent (plain _) = false
is_permanent (permanent _) = true
is_permanent (wrapped _ e) = is_permanent e

-- What Do returns, where it is not nil.
pub data Failure : Type 0 where
  cancelled_on : ℕ → Error → Failure
  cancelled_waiting : ℕ → Error → Failure
  gave_up : Error → Failure
  exhausted : ℕ → Option Error → Failure

-- Attempt; a `Number` is positive, and `Err` is nil at a success.
pub record Attempt : Type 0 where
  pub number : ℕ
  pub err : Option Error
  pub delay : ℤ

-- What happens at attempt `n`: `ctx.Err()` before it, the result of `fn` (`none` is nil), whether
-- the context is done before the delay after it has passed, and `rand.Float64()`.
pub record World (f : Floats) : Type 0 where
  pub before : ℕ → Option Error
  pub fn : ℕ → Option Error
  pub waiting : ℕ → Option Error
  pub random : ℕ → f.Float

module _ (f : Floats) where
  -- applyDefaults.
  unfoldable pub apply_defaults : Config f → Config f
  apply_defaults cfg = record {
    max_attempts = pos (positive_or cfg.max_attempts 3);
    base_delay = pos (positive_or cfg.base_delay 500000000);
    max_delay = pos (positive_or cfg.max_delay 30000000000);
    multiplier = if f.is_positive cfg.multiplier then cfg.multiplier else f.two;
    jitter = cfg.jitter;
  }

  -- The number of attempts after the defaults.
  abbrev pub attempts_of : Config f → ℕ
  attempts_of cfg = positive_or cfg.max_attempts 3

  -- delayForAttempt.
  unfoldable pub delay_for_attempt : Config f → f.Float → ℕ → ℤ
  delay_for_attempt cfg random attempt =
      let plain =
        f.mul (f.of_int cfg.base_delay) (f.pow cfg.multiplier (f.of_int (pos (attempt - 1)))) in
      let delay =
        if f.is_positive cfg.jitter
        then f.add plain (f.mul (f.mul plain cfg.jitter) random)
        else plain in
      if lessb cfg.max_delay (f.to_duration delay) then cfg.max_delay else f.to_duration delay

  -- The loops of Do (`do_fn`) and DoWithAttempts, after the defaults. What they return is given with the
  -- number of calls of `fn` by Do, and with the attempts by DoWithAttempts.
  module _ (w : World f) (cfg : Config f) (max : ℕ) where
    unfoldable pub waited : ℕ → Option Error → ℕ × Option Failure → ℕ × Option Failure
    waited n (some done) later = (1, some (cancelled_waiting (n + 1) done))
    waited n none later = (later.0 + 1, later.1)

    -- A round: what `ctx.Err()` and `fn` give, and what the next rounds return.
    unfoldable pub round : ℕ → Option Error → Option Error → ℕ × Option Failure → ℕ × Option Failure
    unfolding waited is_permanent
    round n (some done) called later = (0, some (cancelled_on n done))
    round n none none later = (1, none)
    round n none (some e) later =
        if is_permanent e
        then (1, some (gave_up e))
        else if n == max
        then (1, some (exhausted max (some e)))
        else waited n (w.waiting n) later

    -- Rounds that are left, the attempt, and `lastErr`.
    unfoldable pub do_from : ℕ → ℕ → Option Error → ℕ × Option Failure
    unfolding round
    do_from zero n last = (0, some (exhausted max last))
    do_from (suc rest) n last = round n (w.before n) (w.fn n) (do_from rest (n + 1) (w.fn n))

    unfoldable pub recorded : ℕ → Option Error → Bool → List Attempt → List Attempt
    unfolding delay_for_attempt
    recorded n called delayed acc =
        acc
        ++ record {
          number = n;
          err = called;
          delay = if delayed then delay_for_attempt cfg (w.random n) n else pos 0;
        }
          ∷ []

    unfoldable pub waited_recording :
        ℕ
        → Option Error
        → List Attempt
        → (List Attempt → List Attempt × Option Failure)
        → List Attempt × Option Failure
    waited_recording n (some done) acc later = (acc, some (cancelled_waiting (n + 1) done))
    waited_recording n none acc later = later acc

    unfoldable pub round_recording :
        ℕ
        → Option Error
        → Option Error
        → List Attempt
        → (List Attempt → List Attempt × Option Failure)
        → List Attempt × Option Failure
    unfolding recorded waited_recording is_permanent
    round_recording n (some done) called acc later = (acc, some (cancelled_on n done))
    round_recording n none none acc later = (recorded n none false acc, none)
    round_recording n none (some e) acc later =
        if is_permanent e
        then (recorded n (some e) false acc, some (gave_up e))
        else if n == max
        then (recorded n (some e) false acc, some (exhausted max (some e)))
        else waited_recording n (w.waiting n) (recorded n (some e) (ltb n max) acc) later

    unfoldable pub do_recording_from :
        ℕ → ℕ → Option Error → List Attempt → List Attempt × Option Failure
    unfolding round_recording
    do_recording_from zero n last acc = (acc, some (exhausted max last))
    do_recording_from (suc rest) n last acc =
        round_recording n (w.before n) (w.fn n) acc (do_recording_from rest (n + 1) (w.fn n))

  unfoldable pub do_fn : World f → Config f → ℕ × Option Failure
  unfolding do_from
  do_fn w cfg = do_from w (apply_defaults cfg) (attempts_of cfg) (attempts_of cfg) 1 none

  unfoldable pub do_with_attempts : World f → Config f → List Attempt × Option Failure
  unfolding do_recording_from apply_defaults
  do_with_attempts w cfg =
      do_recording_from w (apply_defaults cfg) (attempts_of cfg) (attempts_of cfg) 1 none []
