-- ===== src/Circuit/Probe.antt =====
-- Tripping and recovery of the breaker of sdk/connector/circuit/breaker.go.
use obvious.Base.{ℕ, ◌+◌, ◌≤◌, ◌<◌, ◌≡◌, true, false, List, [], ◌∷◌, arith, leb, length}
use obvious.Circuit.State.{closed, opened, half_open}
use obvious.Circuit.Breaker.{Breaker, allow, record_success, record_failure}

-- Failures recorded one after another, at these times.
unfoldable pub failures : List ℕ → Breaker → Breaker
failures [] b = b
failures (now ∷ rest) b = failures rest (record_failure now b)

counted :
    (now : ℕ) (b : Breaker)
    → b.state ≡ closed
    → b.consecutive_fails + 1 < b.failure_threshold
    → ((record_failure now b).state ≡ closed)
      × ((record_failure now b).consecutive_fails ≡ b.consecutive_fails + 1)
      × ((record_failure now b).failure_threshold ≡ b.failure_threshold)
unfolding record_failure
counted now b s h = ground arith

tripped :
    (now : ℕ) (b : Breaker)
    → b.state ≡ closed
    → b.failure_threshold ≤ b.consecutive_fails + 1
    → ((record_failure now b).state ≡ opened) × ((record_failure now b).opened_at ≡ now)
unfolding record_failure
tripped now b s h = ground arith

trips :
    (times : List ℕ) (last : ℕ) (b : Breaker)
    → b.state ≡ closed
    → b.consecutive_fails + length times + 1 ≡ b.failure_threshold
    → ((failures times b).state ≡ closed)
      × ((record_failure last (failures times b)).state ≡ opened)
      × ((record_failure last (failures times b)).opened_at ≡ last)
unfolding failures
trips [] last b s h = let (o, at) = tripped last b s (omega arith) in (s, o, at)
trips (now ∷ times) last b s h =
    let (still, more, kept) = counted now b s (omega arith) in
    trips times last (record_failure now b) still (omega (arith, more, kept))

-- A closed circuit that has counted `f` failures stays closed after each further failure while
-- their number is below the threshold, and the failure that reaches it opens the circuit at its
-- own time.
pub trips_at_threshold :
    (early times : List ℕ) (last : ℕ) (b : Breaker)
    → b.state ≡ closed
    → b.consecutive_fails + length early + length times + 1 ≡ b.failure_threshold
    → let during = failures early b in
      let before = failures times during in
      (during.state ≡ closed)
      × (before.state ≡ closed)
      × ((record_failure last before).state ≡ opened)
      × ((record_failure last before).opened_at ≡ last)
unfolding failures
trips_at_threshold [] times last b s h =
    let (still, opens, at) = trips times last b s (omega arith) in (s, still, opens, at)
trips_at_threshold (now ∷ early) times last b s h =
    let (still, more, kept) = counted now b s (omega arith) in
    trips_at_threshold early times last (record_failure now b) still (omega (arith, more, kept))

-- An open circuit refuses every request until its timeout has passed since it opened, and does
-- not change; the first request after that is let through as the probe, and while no outcome is
-- recorded every further request, at any time, is refused and changes nothing.
pub one_probe :
    (now later : ℕ) (b : Breaker)
    → b.state ≡ opened
    → b.half_open_in_flight ≡ false
    → (now < b.opened_at + b.recovery_timeout → allow now b ≡ (b, false))
      × (b.opened_at + b.recovery_timeout ≤ now
          → ((allow now b).1 ≡ true)
            × ((allow now b).0.state ≡ half_open)
            × (allow later (allow now b).0 ≡ ((allow now b).0, false)))
unfolding allow
one_probe now later b s f =
    (λ early. ground arith, λ due. (ground arith, ground arith, ground arith))

-- Once an open circuit has let its probe through, the probe's outcome decides on what follows. A
-- success lets every further request through, however soon, and `threshold` new failures
-- trip the circuit. A failure keeps every request out until the timeout has passed since that
-- failure; the next request is then the new probe, and the only one.
pub probe_decides :
    (now ended later last : ℕ) (times : List ℕ) (b : Breaker)
    → b.state ≡ opened
    → b.half_open_in_flight ≡ false
    → b.opened_at + b.recovery_timeout ≤ now
    → length times + 1 ≡ b.failure_threshold
    → let probing = (allow now b).0 in
      let recovered = record_success probing in
      let refusing = record_failure ended probing in
      (allow later recovered ≡ (recovered, true))
      × ((failures times recovered).state ≡ closed)
      × ((record_failure last (failures times recovered)).state ≡ opened)
      × ((allow later refusing).1 ≡ leb (ended + b.recovery_timeout) later)
      × ((allow last (allow (ended + b.recovery_timeout) refusing).0).1 ≡ false)
unfolding allow record_success record_failure
probe_decides now ended later last times b s f due few =
    let recovered = record_success (allow now b).0 in
    let closes : recovered.state ≡ closed = ground arith in
    let none_counted : recovered.consecutive_fails ≡ 0 = ground arith in
    let kept : recovered.failure_threshold ≡ b.failure_threshold = ground arith in
    let (still, opens, _) =
      trips times last recovered closes (omega (arith, none_counted, kept, few)) in
    (ground arith, still, opens, ground arith, ground arith)

-- A success that is recorded while the circuit is open closes it, whatever the time: the recovery
-- timeout is skipped, and the next request is let through.
pub late_success_closes :
    (now : ℕ) (b : Breaker)
    → b.state ≡ opened
    → ((record_success b).state ≡ closed) × ((allow now (record_success b)).1 ≡ true)
unfolding record_success allow
late_success_closes now b s = ground arith
