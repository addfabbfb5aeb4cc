-- ===== src/Circuit/Diagram.antt =====
-- The invariant of the breaker of sdk/connector/circuit/breaker.go, and the goroutines that
-- report its changes, after any calls.
use mathlib.Core.Path.{subst, subst₂}
use obvious.Base.{
  ℕ, ◌<◌, ◌≡◌, refl, sym, ◌∙◌, inl, inr, ◌⊎◌, Bool, true, false, List, [], ◌∷◌, ◌++◌, arith,
  if◌then◌else◌,
}
use obvious.Base.Int.{ℤ, pos, negsuc, positive_or}
use obvious.Circuit.State.{State, closed, opened, half_open}
use obvious.Circuit.Breaker.{Config, Breaker, new, allow, record_outcome, current_state}

-- What callers may do, at any times and in any interleaving.
pub data Call : Type 0 where
  allowing : Call
  recording : Bool → Call
  observing : Call

unfoldable pub serve : ℕ → Call → Breaker → Breaker
unfolding allow record_outcome current_state
serve now allowing b = (allow now b).0
serve now (recording succeeded) b = record_outcome now succeeded b
serve now observing b = (current_state now b).0

pub record Inv (b : Breaker) : Type 0 where
  pub threshold_pos : 0 < b.failure_threshold
  pub timeout_pos : 0 < b.recovery_timeout
  pub closed_below : b.state ≡ closed → b.consecutive_fails < b.failure_threshold
  pub probe_in_half_open : b.half_open_in_flight ≡ true → b.state ≡ half_open

positive_or-pos : (n : ℤ) (d : ℕ) → 0 < d → 0 < positive_or n d
positive_or-pos (pos n) d h = ground arith
positive_or-pos (negsuc n) d h = h

pub new-Inv : (cfg : Config) → Inv (new cfg)
unfolding new
new-Inv cfg = ground (
  arith,
  positive_or-pos cfg.failure_threshold 5,
  positive_or-pos cfg.recovery_timeout 30000000000,
)

pub serve-Inv : (now : ℕ) (c : Call) (b : Breaker) → Inv b → Inv (serve now c b)
unfolding serve
serve-Inv now allowing b h = ground arith
serve-Inv now (recording true) b h = ground arith
serve-Inv now (recording false) b h = ground arith
serve-Inv now observing b h = ground arith

-- The transitions that the package comment lists, and one more: a success recorded while the
-- circuit is open, of a call that was let through before, closes it at once.
infix 40 ◌⟶◌
pub data ◌⟶◌ : State → State → Type 0 where
  trip : closed ⟶ opened
  recover : opened ⟶ half_open
  probe_succeeds : half_open ⟶ closed
  probe_fails : half_open ⟶ opened
  late_success : opened ⟶ closed

ruleset edges = (trip, recover, probe_succeeds, probe_fails, late_success)

-- A step that changes the state does it along an edge. It starts one goroutine for the change where
-- there is a callback, and none otherwise; a step that keeps the state starts none.
Reports : Breaker → Breaker → Type 0
Reports b c =
    (c.on_state_change ≡ b.on_state_change)
    × (((c.state ≡ b.state) × (c.notified ≡ b.notified))
        ⊎ ((b.state ⟶ c.state)
            × (c.notified ≡ (
                if b.on_state_change then b.notified ++ (b.state, c.state) ∷ [] else b.notified))))

serve-Reports : (now : ℕ) (c : Call) (b : Breaker) → Reports b (serve now c b)
unfolding serve Reports
serve-Reports now allowing b = grind (arith, edges)
serve-Reports now (recording true) b = grind (arith, edges)
serve-Reports now (recording false) b = grind (arith, edges)
serve-Reports now observing b = grind (arith, edges)

-- The reports lead from one state to another, edge by edge.
abbrev pub PathOf : State → List (State × State) → State → Type 0
PathOf s [] t = s ≡ t
PathOf s ((u, v) ∷ rest) t = (u ≡ s) × (u ⟶ v) × PathOf v rest t

PathOf-snoc :
    (s : State) (l : List (State × State)) (t u : State)
    → PathOf s l t
    → t ⟶ u
    → PathOf s (l ++ (t, u) ∷ []) u
PathOf-snoc s [] t u p e = (sym p, e, refl)
PathOf-snoc s ((v, w) ∷ l) t u p e = (p.0, p.1, PathOf-snoc w l t u p.2 e)

-- The goroutines that were started, by whether there is a callback: a path from closed to the
-- state, or none.
abbrev pub Told : Bool → Breaker → Type 0
Told true b = PathOf closed b.notified b.state
Told false b = b.notified ≡ []

Reports-Told :
    (reporting : Bool) (b c : Breaker)
    → b.on_state_change ≡ reporting
    → Reports b c
    → Told reporting b
    → Told reporting c
unfolding Reports
Reports-Told true b c e (_, inl (same, quiet)) p = subst₂ (PathOf closed) (sym quiet) (sym same) p
Reports-Told true b c e (_, inr (edge, told)) p =
    subst (λ l. PathOf closed l c.state) (sym (rw e at told))
      (PathOf-snoc closed b.notified b.state c.state p edge)
Reports-Told false b c e (_, inl (_, quiet)) p = quiet ∙ p
Reports-Told false b c e (_, inr (_, told)) p = (rw e at told) ∙ p

unfoldable pub serve_all : List (ℕ × Call) → Breaker → Breaker
serve_all [] b = b
serve_all ((now, c) ∷ rest) b = serve_all rest (serve now c b)

serve_all-keeps :
    (reporting : Bool) (cs : List (ℕ × Call)) (b : Breaker)
    → b.on_state_change ≡ reporting
    → Inv b
    → Told reporting b
    → Inv (serve_all cs b) × Told reporting (serve_all cs b)
unfolding serve_all Reports
serve_all-keeps reporting [] b e i p = (i, p)
serve_all-keeps reporting ((now, c) ∷ cs) b e i p =
    let step = serve-Reports now c b in
    serve_all-keeps reporting cs (serve now c b) (step.0 ∙ e) (serve-Inv now c b i)
      (Reports-Told reporting b (serve now c b) e step p)

new-Told : (cfg : Config) (reporting : Bool) → Told reporting (new cfg)
unfolding new
new-Told cfg true = refl
new-Told cfg false = refl

-- From a new breaker, after any calls at any times in any order: a closed circuit has counted
-- fewer failures than its threshold, a probe is in flight only in the half-open state, and
-- threshold and timeout are positive. With a callback, the goroutines that report the changes were
-- started in an order that leads from closed to the state, edge by edge, one for each change;
-- without one, none was started.
pub serve_all-Inv :
    (cfg : Config) (cs : List (ℕ × Call))
    → let b = serve_all cs (new cfg) in Inv b × Told cfg.on_state_change b
unfolding new
serve_all-Inv cfg cs =
    serve_all-keeps cfg.on_state_change cs (new cfg) refl (new-Inv cfg)
      (new-Told cfg cfg.on_state_change)
