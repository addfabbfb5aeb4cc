-- ===== src/Engagement/Timeline.antt =====
-- The lifecycle of services/engagement/internal/domain/engagement.go: which transitions are
-- allowed, and what an engagement looks like after any of them.
use mathlib.Core.Path.{subst}
use obvious.Base.{
  ℕ, ◌+◌, ◌≤◌, ◌≡◌, refl, sym, ap, ◌↔◌, inl, inr, Bool, true, false, Bool-cases, is_some, List, [],
  ◌∷◌, ◌++◌, arith, length, length-append, ◌||◌, any, if◌then◌else◌,
}
use obvious.Engagement.Lifecycle.{
  Phase, planning, fieldwork, reporting, monitoring, completed, cancelled, eq_phase, Result, ok,
  err, engagement_terminal, invalid_transition, PhaseEvent, Engagement, TransitionRequest,
  CreateEngagementRequest, is_terminal, transition, new_engagement, moved, event_of,
}

-- The lifecycle: forward one phase at a time, or to cancelled.
infix 40 ◌⟶◌
pub data ◌⟶◌ : Phase → Phase → Type 0 where
  start : planning ⟶ fieldwork
  write_up : fieldwork ⟶ reporting
  follow_up : reporting ⟶ monitoring
  close : monitoring ⟶ completed
  cancel_planning : planning ⟶ cancelled
  cancel_fieldwork : fieldwork ⟶ cancelled
  cancel_reporting : reporting ⟶ cancelled
  cancel_monitoring : monitoring ⟶ cancelled

ruleset edges = (
  start, write_up, follow_up, close, cancel_planning, cancel_fieldwork, cancel_reporting,
  cancel_monitoring,
)

abbrev pub is_ok {ℓ} : {A : Type ℓ} → Result A → Bool
is_ok (ok _) = true
is_ok (err _) = false

accepted-edge :
    (id now : ℕ) (e : Engagement) (req : TransitionRequest)
    → is_ok (transition id now e req).1 ≡ true
    → e.phase ⟶ req.to_phase
unfolding transition
accepted-edge id now e req h = grind (arith, edges)

edge-accepted :
    {p q : Phase} (id now : ℕ) (e : Engagement) (req : TransitionRequest)
    → p ⟶ q
    → e.phase ≡ p
    → req.to_phase ≡ q
    → transition id now e req ≡ (moved id now e req, ok (event_of id now e req))
unfolding transition
edge-accepted id now e req start from to = ground arith
edge-accepted id now e req write_up from to = ground arith
edge-accepted id now e req follow_up from to = ground arith
edge-accepted id now e req close from to = ground arith
edge-accepted id now e req cancel_planning from to = ground arith
edge-accepted id now e req cancel_fieldwork from to = ground arith
edge-accepted id now e req cancel_reporting from to = ground arith
edge-accepted id now e req cancel_monitoring from to = ground arith

refused-unchanged :
    (id now : ℕ) (e : Engagement) (req : TransitionRequest)
    → is_ok (transition id now e req).1 ≡ false
    → transition id now e req
      ≡ (e, err (if is_terminal e then engagement_terminal else invalid_transition))
unfolding transition
refused-unchanged id now e req h = ground arith

-- A transition is accepted exactly along an edge of the lifecycle. Then the engagement moves and
-- gets the event; a refused transition leaves it as it was, and the error says whether its phase
-- is terminal.
pub transition_iff :
    (id now : ℕ) (e : Engagement) (req : TransitionRequest)
    → ((e.phase ⟶ req.to_phase) ↔ (is_ok (transition id now e req).1 ≡ true))
      × (e.phase ⟶ req.to_phase
          → transition id now e req ≡ (moved id now e req, ok (event_of id now e req)))
      × (is_ok (transition id now e req).1 ≡ false
          → transition id now e req
            ≡ (e, err (if is_terminal e then engagement_terminal else invalid_transition)))
transition_iff id now e req =
    let accepted : e.phase ⟶ req.to_phase
        → transition id now e req ≡ (moved id now e req, ok (event_of id now e req)) =
      λ edge. edge-accepted id now e req edge refl refl in
    (
      (λ edge. ap (λ r. is_ok r.1) (accepted edge), accepted-edge id now e req),
      accepted,
      refused-unchanged id now e req,
    )

-- How many phases lie behind.
abbrev rank : Phase → ℕ
rank fieldwork = 1
rank reporting = 2
rank monitoring = 3
rank completed = 4
rank cancelled = 4
rank _ = 0

edge-rank : {p q : Phase} → p ⟶ q → rank p + 1 ≤ rank q
edge-rank start = omega arith
edge-rank write_up = omega arith
edge-rank follow_up = omega arith
edge-rank close = omega arith
edge-rank cancel_planning = omega arith
edge-rank cancel_fieldwork = omega arith
edge-rank cancel_reporting = omega arith
edge-rank cancel_monitoring = omega arith

edge-open : {p q : Phase} → p ⟶ q → (eq_phase p completed || eq_phase p cancelled) ≡ false
edge-open start = refl
edge-open write_up = refl
edge-open follow_up = refl
edge-open close = refl
edge-open cancel_planning = refl
edge-open cancel_fieldwork = refl
edge-open cancel_reporting = refl
edge-open cancel_monitoring = refl

rank-bound : (p : Phase) → rank p ≤ 4
rank-bound p = ground arith

-- The events lead from one phase to another, edge by edge.
abbrev pub PathOf : Phase → List PhaseEvent → Phase → Type 0
PathOf p [] q = p ≡ q
PathOf p (v ∷ rest) q = (v.from_phase ≡ p) × (v.from_phase ⟶ v.to_phase) × PathOf v.to_phase rest q

PathOf-snoc :
    (p : Phase) (l : List PhaseEvent) (v : PhaseEvent)
    → PathOf p l v.from_phase
    → v.from_phase ⟶ v.to_phase
    → PathOf p (l ++ v ∷ []) v.to_phase
PathOf-snoc p [] v path edge = (sym path, edge, refl)
PathOf-snoc p (w ∷ l) v path edge = (path.0, path.1, PathOf-snoc w.to_phase l v path.2 edge)

abbrev into_fieldwork : PhaseEvent → Bool
into_fieldwork v = eq_phase v.to_phase fieldwork

any-snoc :
    (l : List PhaseEvent) (v : PhaseEvent)
    → any into_fieldwork (l ++ v ∷ []) ≡ any into_fieldwork l || into_fieldwork v
any-snoc [] v = ground arith
any-snoc (w ∷ l) v = ground (arith, any-snoc l v)

-- What holds of an engagement in service.
pub record Timeline (e : Engagement) : Type 0 where
  pub path : PathOf planning e.phase_history e.phase
  pub behind : length e.phase_history ≤ rank e.phase
  pub started : is_some e.actual_start_date ≡ any into_fieldwork e.phase_history
  pub ended : is_some e.actual_end_date ≡ is_terminal e

pub new_engagement-Timeline :
    (id now : ℕ) (req : CreateEngagementRequest) → Timeline (new_engagement id now req)
unfolding new_engagement
new_engagement-Timeline id now req = ground arith

moved-Timeline :
    (id now : ℕ) (e : Engagement) (req : TransitionRequest)
    → Timeline e
    → e.phase ⟶ req.to_phase
    → Timeline (moved id now e req)
moved-Timeline id now e req t edge = record {
  path = PathOf-snoc planning e.phase_history (event_of id now e req) t.path edge;
  behind =
      omega (
        arith,
        t.behind,
        edge-rank edge,
        length-append e.phase_history (event_of id now e req ∷ []),
      );
  started = ground (arith, t.started, any-snoc e.phase_history (event_of id now e req));
  ended = ground (arith, t.ended, edge-open edge);
}

pub transition-Timeline :
    (id now : ℕ) (e : Engagement) (req : TransitionRequest)
    → Timeline e
    → Timeline (transition id now e req).0
transition-Timeline id now e req t = elim (Bool-cases (is_ok (transition id now e req).1)) [
  | inl accepted ↦
      let edge = accepted-edge id now e req accepted in
      subst (λ r. Timeline r.0) (sym (edge-accepted id now e req edge refl refl))
        (moved-Timeline id now e req t edge)
  | inr refused ↦ subst (λ r. Timeline r.0) (sym (refused-unchanged id now e req refused)) t
]

-- Any requests, accepted or not, one after another, with their fresh IDs and times.
unfoldable pub run : List (ℕ × ℕ × TransitionRequest) → Engagement → Engagement
run [] e = e
run ((id, now, req) ∷ rest) e = run rest (transition id now e req).0

run-keeps-Timeline :
    (rs : List (ℕ × ℕ × TransitionRequest)) (e : Engagement) → Timeline e → Timeline (run rs e)
unfolding run
run-keeps-Timeline [] e t = t
run-keeps-Timeline ((id, now, req) ∷ rs) e t =
    run-keeps-Timeline rs (transition id now e req).0 (transition-Timeline id now e req t)

-- After any transition requests, accepted or refused, on a new engagement: its events form a path
-- of the lifecycle from planning to its phase, they are at most four, it has a start date exactly
-- when some event entered fieldwork, and an end date exactly when its phase is terminal.
pub run-Timeline :
    (id now : ℕ) (req : CreateEngagementRequest) (rs : List (ℕ × ℕ × TransitionRequest))
    → let e = run rs (new_engagement id now req) in Timeline e × (length e.phase_history ≤ 4)
run-Timeline id now req rs =
    let e = run rs (new_engagement id now req) in
    let t =
      run-keeps-Timeline rs (new_engagement id now req) (new_engagement-Timeline id now req) in
    (t, omega (arith, t.behind, rank-bound e.phase))
