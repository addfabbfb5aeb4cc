-- ===== src/Circuit/Tests.antt =====
-- The circuit-breaker theorems at a breaker that trips at the second failure and waits 10.
use obvious.Base.{ℕ, ◌≤◌, ◌<◌, ◌≡◌, refl, true, false, List, [], ◌∷◌, arith, leb}
use obvious.Base.Int.{pos}
use obvious.Circuit.State.{closed, opened, half_open}
use obvious.Circuit.Breaker.{Config, Breaker, new, allow, record_success, record_failure}
use obvious.Circuit.Diagram.{
  Call, allowing, recording, observing, serve_all, Inv, Told, serve_all-Inv,
}
use obvious.Circuit.Probe.{failures, trips_at_threshold, one_probe, probe_decides}
use obvious.Circuit.Connector.{Inner, answer, error, new_circuit_breaker}
use obvious.Circuit.Agreement.{do_calls, fetches, breakers_agree}

abbrev config : Config
config = record { failure_threshold = pos 2; recovery_timeout = pos 10; on_state_change = true }

abbrev tripped : Breaker
tripped = record (new config) { state = opened; opened_at = 5; consecutive_fails = 2 }

abbrev calls : List (ℕ × Call)
calls =
    (1, allowing)
    ∷ (2, recording false)
    ∷ (3, recording false)
    ∷ (20, observing)
    ∷ (21, allowing)
    ∷ (22, recording true)
    ∷ []

serve_all-Inv_example : let b = serve_all calls (new config) in Inv b × Told true b
serve_all-Inv_example = serve_all-Inv config calls

trips_at_threshold_example :
    let during = failures (4 ∷ []) (new config) in
    let before = failures [] during in
    (during.state ≡ closed)
    × (before.state ≡ closed)
    × ((record_failure 5 before).state ≡ opened)
    × ((record_failure 5 before).opened_at ≡ 5)
unfolding new
trips_at_threshold_example = trips_at_threshold (4 ∷ []) [] 5 (new config) refl refl

one_probe_example :
    (9 < 15 → allow 9 tripped ≡ (tripped, false))
    × (15 ≤ 9
        → ((allow 9 tripped).1 ≡ true)
          × ((allow 9 tripped).0.state ≡ half_open)
          × (allow 30 (allow 9 tripped).0 ≡ ((allow 9 tripped).0, false)))
unfolding new
one_probe_example = one_probe 9 30 tripped refl refl

probe_decides_example :
    let probing = (allow 16 tripped).0 in
    let recovered = record_success probing in
    let refusing = record_failure 18 probing in
    (allow 17 recovered ≡ (recovered, true))
    × ((failures (19 ∷ []) recovered).state ≡ closed)
    × ((record_failure 20 (failures (19 ∷ []) recovered)).state ≡ opened)
    × ((allow 17 refusing).1 ≡ leb 28 17)
    × ((allow 20 (allow 28 refusing).0).1 ≡ false)
unfolding new
probe_decides_example = probe_decides 16 18 17 20 (19 ∷ []) tripped refl refl (omega arith) refl

abbrev plain_calls : List (ℕ × ℕ × Inner ℕ)
plain_calls =
    (1, 2, error "down") ∷ (3, 4, error "down") ∷ (5, 6, answer 1) ∷ (20, 21, answer 2) ∷ []

breakers_agree_example :
    let sdk = do_calls plain_calls (new config) in
    let own =
      fetches plain_calls
        (new_circuit_breaker (record { failure_threshold = 2; recovery_timeout = 10 })) in
    (sdk.1 ≡ own.1)
    × (sdk.0.state ≡ own.0.state)
    × (sdk.0.consecutive_fails ≡ own.0.consecutive_fails)
    × (sdk.0.opened_at ≡ own.0.opened_at)
breakers_agree_example = breakers_agree 1 9 true plain_calls
