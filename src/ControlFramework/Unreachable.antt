-- ===== src/ControlFramework/Unreachable.antt =====
-- The handlers of services/control-framework that ask for an organisation, behind its middleware as
-- cmd/api/main.go mounts them.
use obvious.Base.{
  List, ℕ, ◌≡◌, ◌≢◌, refl, String, Bool, false, Option, some, [], ◌∷◌, str_eq, str_eq_iff, arith,
}
use obvious.ControlFramework.Domain.{Framework, CreateFrameworkRequest, AssessControlRequest}
use obvious.Base.Int.{ℤ}
use obvious.ControlFramework.Controls.{CreateControlRequest, Database}
use obvious.ControlFramework.Repository.{Tables}
use obvious.ControlFramework.Service.{Failures}
use obvious.ControlFramework.Context.{
  Context, Parsing, Passed, onward, stopped, middleware_org_id_key, dev_auth, org_text,
  org_id_from_context, value,
}
use obvious.ControlFramework.Handlers.{
  Body, Response, failure, missing_org, Query, list_frameworks_call, create_framework_call,
  list_controls_call, create_control_call, assess_control_call,
}

-- The five routes that ask for an organisation, with what the handler takes.
pub data Route : Type 0 where
  listing : (List Framework → List Framework) → Option String → Route
  creating : ℕ → ℕ → Option String → Body CreateFrameworkRequest → Route
  listing_controls : Database → (String → Option ℕ) → (String → ℤ) → Option String → Query → Route
  creating_control :
      Database
      → (String → String → Bool)
      → ℕ
      → ℕ
      → Option String
      → Body CreateControlRequest
      → Route
  assessing : (String → String) → ℕ → ℕ → Failures → Option ℕ → Body AssessControlRequest → Route

unfoldable pub handle : Route → Context → Tables → Tables × Response
handle (listing order error) ctx t = list_frameworks_call order error ctx t
handle (creating id now error body) ctx t = create_framework_call id now error body ctx t
handle (listing_controls db parse atoi error q) ctx t =
    list_controls_call db parse atoi error q ctx t
handle (creating_control db less id now error body) ctx t =
    create_control_call db less id now error body ctx t
handle (assessing quote id now failures control body) ctx t =
    assess_control_call quote id now failures control body ctx t

abbrev pub passed : Route → Tables → Passed → Tables × Response
passed r t (stopped status problem) = (t, failure status problem)
passed r t (onward ctx) = handle r ctx t

-- The middleware, and then the route.
unfoldable pub routed : Parsing → String → String → Route → Tables → Tables × Response
unfolding dev_auth
routed x header bearer r t = passed r t (dev_auth x header bearer [])

refused :
    (r : Route) (org : ℕ) (t : Tables)
    → handle r ((middleware_org_id_key, org) ∷ []) t ≡ (t, missing_org)
unfolding handle list_frameworks_call create_framework_call list_controls_call create_control_call
    assess_control_call org_id_from_context value
refused (listing order error) org t = refl
refused (creating id now error body) org t = refl
refused (listing_controls db parse atoi error q) org t = refl
refused (creating_control db less id now error body) org t = refl
refused (assessing quote id now failures control body) org t = refl

-- A request that names an organisation by a header or a token that parses is answered 401 on each
-- of the five routes that ask for an organisation (the frameworks and the controls are listed and
-- created, and a control is assessed), and changes nothing.
pub routed_unauthorized :
    (x : Parsing) (header bearer : String) (org : ℕ) (r : Route) (t : Tables)
    → org_text x header bearer ≢ ""
    → x.parse (org_text x header bearer) ≡ some org
    → routed x header bearer r t ≡ (t, missing_org)
unfolding routed dev_auth
routed_unauthorized x header bearer org r t named parsed =
    let given : str_eq (org_text x header bearer) "" ≡ false =
      ground (arith, str_eq_iff (org_text x header bearer) "", named) in
    rw (given, parsed) (refused r org t)
