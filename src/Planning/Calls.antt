-- ===== src/Planning/Calls.antt =====
-- The handlers of annual plans in services/planning/internal/handler/handler.go, as what they do to
-- the store: one after another they keep one open plan for an organisation and a year, and a write
-- of what was read before may break it.
use obvious.Base.{
  ℕ, ◌≡◌, ◌≢◌, refl, sym, ap, ◌∙◌, Option, some, List, [], ◌∷◌, true, arith, if◌then◌else◌, ◌==◌,
}
use obvious.Base.Table
use obvious.Base.Table.{get-put}
use obvious.Planning.Annual.{
  Result, ok, err, AnnualPlan, CreateAnnualPlanRequest, UpdateAnnualPlanRequest, new_annual_plan,
  approve, activate, archive, apply,
}
use obvious.Planning.Store.{AnnualPlanStore, new_annual_plan_store, create, update}
use obvious.Planning.Store
use obvious.Planning.Uniqueness.{OneOpen, Tame, is_open, create-OneOpen, written-OneOpen, read-at}

approve-Tame : (now : ℕ) (approval : Option ℕ) (p : AnnualPlan) → Tame p (approve now approval p).0
unfolding approve
approve-Tame now approval p = ground arith

activate-Tame : (now : ℕ) (p : AnnualPlan) → Tame p (activate now p).0
unfolding activate
activate-Tame now p = ground arith

archive-Tame : (now : ℕ) (p : AnnualPlan) → Tame p (archive now p).0
unfolding archive
archive-Tame now p = ground arith

apply-Tame :
    (fresh : ℕ → ℕ) (now : ℕ) (req : UpdateAnnualPlanRequest) (p : AnnualPlan)
    → Tame p (apply fresh now req p)
unfolding apply
apply-Tame fresh now req p = ground arith

-- What a request does to the store: it makes a plan and creates it, or it reads one, changes it
-- and, unless that is refused, writes it back.
pub data Call : Type 0 where
  create_call : (ℕ → ℕ) → ℕ → CreateAnnualPlanRequest → Call
  update_call : ℕ → ℕ → (ℕ → ℕ) → UpdateAnnualPlanRequest → Call
  approve_call : ℕ → ℕ → Option ℕ → Call
  activate_call archive_call : ℕ → ℕ → Call

unfoldable pub made : AnnualPlanStore → Result AnnualPlan → AnnualPlanStore
made s (ok p) = (create s p).0
made s (err x) = s

unfoldable pub kept : AnnualPlanStore → AnnualPlan × Result (Unit {0}) → AnnualPlanStore
kept s (p, ok _) = (update s p).0
kept s (p, err x) = s

unfoldable pub changed :
    AnnualPlanStore
    → (AnnualPlan → AnnualPlan × Result (Unit {0}))
    → Result AnnualPlan
    → AnnualPlanStore
unfolding kept
changed s f (ok p) = kept s (f p)
changed s f (err x) = s

unfoldable pub serve : ℕ → AnnualPlanStore → Call → AnnualPlanStore
unfolding made changed
serve now s (create_call fresh id req) = made s (new_annual_plan fresh id now req)
serve now s (update_call org id fresh req) =
    changed s (λ p. (apply fresh now req p, ok tt)) (Store.get s org id)
serve now s (approve_call org id approval) = changed s (approve now approval) (Store.get s org id)
serve now s (activate_call org id) = changed s (activate now) (Store.get s org id)
serve now s (archive_call org id) = changed s (archive now) (Store.get s org id)

unfoldable pub serve_all : AnnualPlanStore → List (ℕ × Call) → AnnualPlanStore
unfolding serve
serve_all s [] = s
serve_all s ((now, c) ∷ rest) = serve_all (serve now s c) rest

made-OneOpen : (s : AnnualPlanStore) (r : Result AnnualPlan) → OneOpen s → OneOpen (made s r)
unfolding made
made-OneOpen s (ok p) o = create-OneOpen s p o
made-OneOpen s (err x) o = o

module _ (s : AnnualPlanStore) (o : OneOpen s) (org id : ℕ) where
  kept-OneOpen :
      (p : AnnualPlan) (p' : AnnualPlan) (r : Result (Unit {0}))
      → Store.get s org id ≡ ok p
      → Tame p p'
      → OneOpen (kept s (p', r))
  unfolding kept
  kept-OneOpen p p' (ok _) read t = written-OneOpen s o org id p p' read t
  kept-OneOpen p p' (err x) read t = o

  changed-OneOpen :
      (f : AnnualPlan → AnnualPlan × Result (Unit {0}))
      → ((p : AnnualPlan) → Tame p (f p).0)
      → (r : Result AnnualPlan) → Store.get s org id ≡ r
      → OneOpen (changed s f r)
  unfolding changed
  changed-OneOpen f tame (ok p) read = kept-OneOpen p (f p).0 (f p).1 read (tame p)
  changed-OneOpen f tame (err x) read = o

serve-OneOpen : (now : ℕ) (s : AnnualPlanStore) (c : Call) → OneOpen s → OneOpen (serve now s c)
unfolding serve
serve-OneOpen now s (create_call fresh id req) o =
    made-OneOpen s (new_annual_plan fresh id now req) o
serve-OneOpen now s (update_call org id fresh req) o =
    changed-OneOpen s o org id (λ p. (apply fresh now req p, ok tt)) (apply-Tame fresh now req)
      (Store.get s org id) refl
serve-OneOpen now s (approve_call org id approval) o =
    changed-OneOpen s o org id (approve now approval) (approve-Tame now approval)
      (Store.get s org id) refl
serve-OneOpen now s (activate_call org id) o =
    changed-OneOpen s o org id (activate now) (activate-Tame now) (Store.get s org id) refl
serve-OneOpen now s (archive_call org id) o =
    changed-OneOpen s o org id (archive now) (archive-Tame now) (Store.get s org id) refl

serve_all-keeps-OneOpen :
    (s : AnnualPlanStore) (cs : List (ℕ × Call)) → OneOpen s → OneOpen (serve_all s cs)
unfolding serve_all
serve_all-keeps-OneOpen s [] o = o
serve_all-keeps-OneOpen s ((now, c) ∷ cs) o =
    serve_all-keeps-OneOpen (serve now s c) cs (serve-OneOpen now s c o)

-- After any creations, updates, approvals, activations and archivings from the empty store, one
-- after another and refused ones included: every plan lies under its own ID, and two plans of one
-- organisation and year that are not archived lie under one key.
pub serve_all-OneOpen : (cs : List (ℕ × Call)) → OneOpen (serve_all new_annual_plan_store cs)
unfolding new_annual_plan_store Table.get
serve_all-OneOpen cs =
    serve_all-keeps-OneOpen new_annual_plan_store cs
      (record { keyed = λ k p found. cc; unique = λ j k p q at_j at_k open_p open_q org year. cc })

update-at :
    (s : AnnualPlanStore) (p old : AnnualPlan) (k : ℕ)
    → Table.get s.entries p.id ≡ some old
    → Table.get (update s p).0.entries k ≡ (if p.id == k then some p else Table.get s.entries k)
unfolding update
update-at s p old k found = ground (arith, get-put s.entries p.id k p)

create-at :
    (s : AnnualPlanStore) (p : AnnualPlan) (k : ℕ)
    → (create s p).1 ≡ ok tt
    → Table.get (create s p).0.entries k ≡ (if p.id == k then some p else Table.get s.entries k)
unfolding create
create-at s p k accepted = ground (arith, get-put s.entries p.id k p)

-- The handlers do not hold the lock between reading a plan and writing it back. When an open plan
-- is read, and before its update is written it is archived and another open plan of its
-- organisation and year is accepted under another ID, then the update that is written last leaves
-- two open plans for that organisation and year.
pub stale_update_reopens :
    (s : AnnualPlanStore) (p q : AnnualPlan) (now : ℕ) (fresh : ℕ → ℕ)
    (req : UpdateAnnualPlanRequest)
    → OneOpen s
    → Store.get s p.org_id p.id ≡ ok p
    → is_open p ≡ true
    → is_open q ≡ true
    → q.org_id ≡ p.org_id
    → q.year ≡ p.year
    → q.id ≢ p.id
    → let between = create (update s (archive now p).0).0 q in
      between.1 ≡ ok tt → ¬ OneOpen (update between.0 (apply fresh now req p)).0
unfolding archive apply
stale_update_reopens s p q now fresh req o read open_p open_q org year other accepted two =
    let a = (archive now p).0 in
    let s₁ = (update s a).0 in
    let s₂ = (create s₁ q).0 in
    let u = apply fresh now req p in
    let same_id = (archive-Tame now p).same_id in
    let at_a = ap (Table.get s.entries) same_id ∙ read-at s p.org_id p.id p read in
    let archived_there : Table.get s₁.entries p.id ≡ some a =
      ground (arith, update-at s a p p.id at_a, same_id) in
    let still_there : Table.get s₂.entries p.id ≡ some a =
      ground (arith, create-at s₁ q p.id accepted) in
    let first : Table.get (update s₂ u).0.entries p.id ≡ some u =
      ground (arith, update-at s₂ u a p.id still_there) in
    let second : Table.get (update s₂ u).0.entries q.id ≡ some q =
      ground (arith, update-at s₂ u a q.id still_there, create-at s₁ q q.id accepted) in
    other (sym (two.unique p.id q.id u q first second open_p open_q (sym org) (sym year)))
