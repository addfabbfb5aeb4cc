-- ===== src/Engagement/Service.antt =====
-- The handlers of services/engagement/internal/handler/handler.go over the store: what holds after
-- any sequence of calls, and what a patch does.
use mathlib.Core.Path.{subst}
use obvious.Base.{
  ℕ, String, ◌≡◌, refl, sym, Bool, true, false, Option, some, List, [], ◌∷◌, if◌then◌else◌, ◌==◌,
  arith, str_eq,
}
use obvious.Base.Table
use obvious.Engagement.Lifecycle.{
  Phase, Result, ok, err, PhaseEvent, Engagement, CreateEngagementRequest, UpdateEngagementRequest,
  TransitionRequest, new_engagement, is_terminal,
}
use obvious.Engagement.Lifecycle
use obvious.Engagement.Timeline.{Timeline, new_engagement-Timeline, transition-Timeline}
use obvious.Engagement.Store.{
  EngagementStore, Keeps, engagement_create-Keeps, engagement_update-Keeps, engagement_get-Keeps,
  engagement_update_read,
}
use obvious.Engagement.Store
use obvious.Engagement.Handler.{
  Body, bound, malformed, Response, engagement_body, Checked, pass, stop, parsed, loaded, ◌>>=◌,
  create, create_bound, patched, saved, update_on, update, respond, transition_on, transition, load,
  parse_org,
}

>>=-pass {ℓ κ} :
    {A : Type ℓ} {B : Type κ} (m : Checked A) (f : A → Checked B) {b : B}
    → (m >>= f) ≡ pass b
    → (a : A) × (m ≡ pass a) × (f a ≡ pass b)
>>=-pass (pass a) f h = (a, refl, h)
>>=-pass (stop r) f h = cc

loaded-pass : (r : Result Engagement) {e : Engagement} → loaded r ≡ pass e → r ≡ ok e
loaded-pass (ok e) h = ground arith
loaded-pass (err x) h = ground arith

load-get :
    (parse : String → Option ℕ) (s : EngagementStore) (org id : String) {e : Engagement}
    → load parse s org id ≡ pass e
    → (o : ℕ) × (i : ℕ) × (parse_org parse org ≡ pass o) × (Store.get s o i ≡ ok e)
unfolding load
load-get parse s org id h =
    let (o, of_org, rest) = >>=-pass (parse_org parse org) _ h in
    let (i, of_id, found) = >>=-pass (parsed "invalid id" (parse id)) _ rest in
    (o, i, of_org, loaded-pass (Store.get s o i) found)

saved-store :
    (answer : Response) (s : EngagementStore) (r : Result (Unit {0})) → (saved answer (s, r)).0 ≡ s
saved-store answer s (ok _) = refl
saved-store answer s (err _) = refl

module _ (s : EngagementStore) (k : Keeps Timeline s) (e : Engagement) where
  saved-Keeps :
      (answer : Response) → Timeline e → Keeps Timeline (saved answer (Store.update s e)).0
  saved-Keeps answer t =
      subst (Keeps Timeline) (sym (saved-store answer (Store.update s e).0 (Store.update s e).1))
        (engagement_update-Keeps s k e t)

  respond-Keeps-Timeline :
      (r : Result PhaseEvent) → Timeline e → Keeps Timeline (respond s (e, r)).0
  unfolding respond
  respond-Keeps-Timeline (ok event) t = saved-Keeps _ t
  respond-Keeps-Timeline (err x) t = k

-- A patch touches nothing that the lifecycle speaks of.
patched-Timeline :
    (req : UpdateEngagementRequest) (e : Engagement) → Timeline e → Timeline (patched req e)
patched-Timeline req e t = record {
  path = t.path;
  behind = t.behind;
  started = t.started;
  ended = t.ended;
}

module _ (parse : String → Option ℕ) (s : EngagementStore) (k : Keeps Timeline s)
    (org id : String) where
  transition_on-Keeps-Timeline :
      (event_id now : ℕ) (body : Body TransitionRequest) (c : Checked Engagement)
      → load parse s org id ≡ c
      → Keeps Timeline (transition_on event_id now s body c).0
  unfolding transition_on
  transition_on-Keeps-Timeline event_id now body (stop r) loads = k
  transition_on-Keeps-Timeline event_id now (malformed problem) (pass e) loads = k
  transition_on-Keeps-Timeline event_id now (bound req) (pass e) loads =
      let (o, i, _, read) = load-get parse s org id loads in
      let after = Lifecycle.transition event_id now e req in
      respond-Keeps-Timeline s k after.0 after.1
        (transition-Timeline event_id now e req (engagement_get-Keeps s k e o i read).2)

  update_on-Keeps :
      (body : Body UpdateEngagementRequest) (c : Checked Engagement)
      → load parse s org id ≡ c
      → Keeps Timeline (update_on s body c).0
  unfolding update_on
  update_on-Keeps body (stop r) loads = k
  update_on-Keeps (malformed problem) (pass e) loads = k
  update_on-Keeps (bound req) (pass e) loads =
      let (o, i, _, read) = load-get parse s org id loads in
      saved-Keeps s k (patched req e) _
        (patched-Timeline req e (engagement_get-Keeps s k e o i read).2)

if-Keeps-Timeline :
    (b : Bool) (x y : EngagementStore × Response)
    → Keeps Timeline x.0
    → Keeps Timeline y.0
    → Keeps Timeline (if b then x else y).0
if-Keeps-Timeline true x y kx ky = kx
if-Keeps-Timeline false x y kx ky = ky

create_bound-Keeps :
    (id now : ℕ) (s : EngagementStore) (req : CreateEngagementRequest)
    → Keeps Timeline s
    → Keeps Timeline (create_bound id now s req).0
unfolding create_bound
create_bound-Keeps id now s req k =
    let made =
      engagement_create-Keeps s k (new_engagement id now req)
        (new_engagement-Timeline id now req) in
    if-Keeps-Timeline (str_eq req.name "") _ _ k (
      if-Keeps-Timeline (req.org_id == 0) _ _ k
        (if-Keeps-Timeline (req.framework_id == 0) _ _ k made))

-- The calls that a client may make; those that only read leave the store alone.
pub data Call : Type 0 where
  create_call : Body CreateEngagementRequest → Call
  update_call : String → String → Body UpdateEngagementRequest → Call
  transition_call : String → String → Body TransitionRequest → Call

-- `id` is the fresh ID that the call would use, `now` its time.
unfoldable pub serve :
    (String → Option ℕ) → ℕ → ℕ → EngagementStore → Call → EngagementStore × Response
serve parse id now s (create_call body) = create id now s body
serve parse id now s (update_call org e body) = update parse s org e body
serve parse id now s (transition_call org e body) = transition parse id now s org e body

unfoldable pub serve_all :
    (String → Option ℕ) → EngagementStore → List (ℕ × ℕ × Call) → EngagementStore
unfolding serve
serve_all parse s [] = s
serve_all parse s ((id, now, c) ∷ rest) = serve_all parse (serve parse id now s c).0 rest

serve-Keeps-Timeline :
    (parse : String → Option ℕ) (id now : ℕ) (s : EngagementStore) (c : Call)
    → Keeps Timeline s
    → Keeps Timeline (serve parse id now s c).0
unfolding serve create update transition
serve-Keeps-Timeline parse id now s (create_call (malformed problem)) k = k
serve-Keeps-Timeline parse id now s (create_call (bound req)) k = create_bound-Keeps id now s req k
serve-Keeps-Timeline parse id now s (update_call org e body) k =
    update_on-Keeps parse s k org e body (load parse s org e) refl
serve-Keeps-Timeline parse id now s (transition_call org e body) k =
    transition_on-Keeps-Timeline parse s k org e id now body (load parse s org e) refl

serve_all-Keeps-Timeline :
    (parse : String → Option ℕ) (s : EngagementStore) (cs : List (ℕ × ℕ × Call))
    → Keeps Timeline s
    → Keeps Timeline (serve_all parse s cs)
unfolding serve_all
serve_all-Keeps-Timeline parse s [] k = k
serve_all-Keeps-Timeline parse s ((id, now, c) ∷ rest) k =
    serve_all-Keeps-Timeline parse (serve parse id now s c).0 rest
      (serve-Keeps-Timeline parse id now s c k)

-- Whatever creations, patches and transitions are served from the empty store, valid or not:
-- every stored engagement lies under its own ID, its events form a path of the lifecycle from
-- planning to its phase and are not more than its phase allows, it has a start date exactly when
-- some event entered fieldwork, and an end date exactly when its phase is terminal.
pub serve_all-Timeline :
    (parse : String → Option ℕ) (cs : List (ℕ × ℕ × Call))
    → Keeps Timeline (serve_all parse Store.new_engagement_store cs)
unfolding Store.new_engagement_store Table.get
serve_all-Timeline parse cs =
    serve_all-Keeps-Timeline parse Store.new_engagement_store cs (record { at = λ j e found. cc })

-- A patch of an engagement that was read from a keyed store is accepted in every phase, the
-- terminal ones included: it answers 200 with the patched engagement and stores it, all else
-- staying as it was.
pub update_any_phase :
    {P : Engagement → Type 0} (parse : String → Option ℕ) (s : EngagementStore) (org id : String)
    (req : UpdateEngagementRequest) (e : Engagement)
    → Keeps P s
    → load parse s org id ≡ pass e
    → let after = update parse s org id (bound req) in
      (after.1 ≡ engagement_body 200 (patched req e))
      × ((j : ℕ)
          → Table.get after.0.entries j
            ≡ (if e.id == j then some (patched req e) else Table.get s.entries j))
unfolding update update_on
update_any_phase parse s org id req e k found =
    let (o, i, _, read) = load-get parse s org id found in
    let (wrote, reads) = engagement_update_read s k o i e (patched req e) read refl in
    subst
      (λ c.
        let after = update_on s (bound req) c in
        (after.1 ≡ engagement_body 200 (patched req e))
        × ((j : ℕ)
            → Table.get after.0.entries j
              ≡ (if e.id == j then some (patched req e) else Table.get s.entries j)))
      (sym found) (ground (arith, wrote), λ j. ground (arith, reads j))
