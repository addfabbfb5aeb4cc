-- ===== src/Sdk/Tests.antt =====
-- The theorems on retries and the registry at small inputs, with whole numbers for floating point.
use obvious.Base.{
  ℕ, ◌+◌, ◌*◌, ◌≡◌, refl, ◌↔◌, true, none, some, is_some, List, [], ◌∷◌, length, if◌then◌else◌, ltb,
  Exists,
}
use obvious.Base.Int.{ℤ, pos, negsuc}
use obvious.Sdk.Retry.{
  Floats, Config, plain, permanent, wrapped, World, apply_defaults, attempts_of, do_fn,
  do_with_attempts,
}
use obvious.Sdk.Attempts.{Run}
use obvious.Sdk.Recording.{Numbered, do_fn-Run, do_with_attempts_agrees}
use obvious.Sdk.Registry.{new_registry, get, list}
use obvious.Sdk.Registry.Refines.{Op, registering, unregistering, run, replay, registry_refines}

abbrev absolute : ℤ → ℕ
absolute (pos n) = n
absolute (negsuc n) = n + 1

-- Numbers of nanoseconds, with doubling as the only power.
abbrev whole : Floats
whole = record {
  Float = ℕ;
  of_int = absolute;
  add = λ x y. x + y;
  mul = λ x y. x * y;
  pow = λ x y. x * y;
  is_positive = λ x. ltb 0 x;
  two = 2;
  to_duration = λ x. pos x;
}

abbrev config : Config whole
config = record {
  max_attempts = pos 3;
  base_delay = pos 100;
  max_delay = pos 150;
  multiplier = 2;
  jitter = 0;
}

-- The first call fails, the second fails for good.
abbrev world : World whole
world = record {
  before = λ n. none;
  fn = λ n.
      if ltb n 2 then some (plain "busy") else some (wrapped "call: " (permanent (plain "gone")));
  waiting = λ n. none;
  random = λ n. 0;
}

do_fn-Run_example :
    let t = do_fn whole world config in
    Run whole world (apply_defaults whole config) (attempts_of whole config) 1 t.0 t.1
do_fn-Run_example = do_fn-Run whole world config

-- Two calls, and the second failure is returned.
do_fn_twice : (do_fn whole world config).0 ≡ 2
unfolding do_fn
do_fn_twice = refl

do_with_attempts_agrees_example :
    let u = do_with_attempts whole world config in
    (u.1 ≡ (do_fn whole world config).1)
    × (length u.0 ≡ (do_fn whole world config).0)
    × Numbered whole world 1 u.0
do_with_attempts_agrees_example = do_with_attempts_agrees whole world config

abbrev ops : List (Op ℕ)
ops =
    registering "splunk" 1
    ∷ registering "splunk" 2
    ∷ registering "okta" 3
    ∷ unregistering "okta"
    ∷ []

registry_refines_example :
    let r = run (λ s. s) ops new_registry in
    (get r "splunk" ≡ replay ops (λ _. none) "splunk")
    × (Exists (λ n. n ≡ "splunk") (list (λ l. l) r) ↔ (is_some (get r "splunk") ≡ true))
registry_refines_example =
    registry_refines (λ s. s) (λ l. l) (λ xs x. ((λ e. e), λ e. e)) ops "splunk"
