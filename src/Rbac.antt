-- ===== src/Rbac.antt =====
-- The permission matrix of services/identity/pkg/rbac/rbac.go, the personas of
-- services/identity/internal/models/models.go, and the middleware that asks the matrix, of
-- services/identity/internal/middleware/auth.go.
pub mod Laws
mod Tests
use obvious.Base.{
  String, Bool, true, false, ◌||◌, Option, none, some, List, [], ◌∷◌, str_eq, if◌then◌else◌, any, ℕ,
}

-- The constructors `other_…` hold any other text.
pub data Persona : Type 0 where
  internal_auditor cae audit_committee auditee_ciso cosourced_provider ptwg_member beta_tester :
      Persona
  other_persona : String → Persona

pub data Action : Type 0 where
  read write delete manage : Action
  other_action : String → Action

pub data Resource : Type 0 where
  engagement finding control evidence report user org audit_trail work_paper dashboard : Resource
  other_resource : String → Resource

abbrev pub eq_persona : Persona → Persona → Bool
eq_persona internal_auditor internal_auditor = true
eq_persona cae cae = true
eq_persona audit_committee audit_committee = true
eq_persona auditee_ciso auditee_ciso = true
eq_persona cosourced_provider cosourced_provider = true
eq_persona ptwg_member ptwg_member = true
eq_persona beta_tester beta_tester = true
eq_persona (other_persona a) (other_persona b) = str_eq a b
eq_persona _ _ = false

abbrev pub eq_action : Action → Action → Bool
eq_action read read = true
eq_action write write = true
eq_action delete delete = true
eq_action manage manage = true
eq_action (other_action a) (other_action b) = str_eq a b
eq_action _ _ = false

abbrev pub eq_resource : Resource → Resource → Bool
eq_resource engagement engagement = true
eq_resource finding finding = true
eq_resource control control = true
eq_resource evidence evidence = true
eq_resource report report = true
eq_resource user user = true
eq_resource org org = true
eq_resource audit_trail audit_trail = true
eq_resource work_paper work_paper = true
eq_resource dashboard dashboard = true
eq_resource (other_resource a) (other_resource b) = str_eq a b
eq_resource _ _ = false

pub record Permission : Type 0 where
  pub resource : Resource
  pub action : Action

abbrev pub on : Resource → Action → Permission
on r a = record { resource = r; action = a }

-- personaPermissions; `Permissions` returns an entry of it. A missing key is `none`.
unfoldable pub persona_permissions : Persona → Option (List Permission)
persona_permissions internal_auditor = some (
    on engagement read
    ∷ on engagement write
    ∷ on finding read
    ∷ on finding write
    ∷ on control read
    ∷ on evidence read
    ∷ on evidence write
    ∷ on work_paper read
    ∷ on work_paper write
    ∷ on report read
    ∷ on dashboard read
    ∷ on audit_trail read
    ∷ [])
persona_permissions cae = some (
    on engagement manage
    ∷ on finding manage
    ∷ on control manage
    ∷ on evidence manage
    ∷ on work_paper manage
    ∷ on report manage
    ∷ on dashboard manage
    ∷ on audit_trail read
    ∷ on user manage
    ∷ on org read
    ∷ on org write
    ∷ [])
persona_permissions audit_committee =
    some (on report read ∷ on dashboard read ∷ on finding read ∷ on engagement read ∷ [])
persona_permissions auditee_ciso = some (
    on finding read
    ∷ on finding write
    ∷ on engagement read
    ∷ on control read
    ∷ on evidence read
    ∷ on evidence write
    ∷ on dashboard read
    ∷ [])
persona_permissions cosourced_provider = some (
    on engagement read
    ∷ on finding read
    ∷ on finding write
    ∷ on evidence read
    ∷ on evidence write
    ∷ on work_paper read
    ∷ on work_paper write
    ∷ [])
persona_permissions ptwg_member = some (
    on work_paper read
    ∷ on work_paper write
    ∷ on control read
    ∷ on finding read
    ∷ on report read
    ∷ [])
persona_permissions beta_tester = some (
    on engagement read
    ∷ on finding read
    ∷ on control read
    ∷ on evidence read
    ∷ on report read
    ∷ on dashboard read
    ∷ on work_paper read
    ∷ [])
persona_permissions (other_persona _) = none

-- The two conditions in the loop of Can.
unfoldable pub allows : Permission → Resource → Action → Bool
allows p r a =
    if eq_resource p.resource r then eq_action p.action a || eq_action p.action manage else false

-- The loop of Can.
unfoldable pub permitted : List Permission → Resource → Action → Bool
permitted [] r a = false
permitted (p ∷ ps) r a = let rest = permitted ps r a in if allows p r a then true else rest

abbrev pub slice : Option (List Permission) → List Permission
slice none = []
slice (some ps) = ps

-- The method `Permissions`.
unfoldable pub permissions : Persona → List Permission
permissions persona = slice (persona_permissions persona)

unfoldable pub among : Option (List Permission) → Resource → Action → Bool
among none r a = false
among (some ps) r a = permitted ps r a

unfoldable pub can : Persona → Resource → Action → Bool
unfolding among permitted allows persona_permissions
can persona r a = among (persona_permissions persona) r a

abbrev pub all_personas : List Persona
all_personas =
    internal_auditor ∷ cae ∷ audit_committee ∷ auditee_ciso ∷ cosourced_provider ∷ ptwg_member
    ∷ beta_tester ∷ []

unfoldable pub valid_persona : Persona → Bool
valid_persona p = any (λ v. eq_persona v p) all_personas

-- What RequirePermission does with a request: a failure with status and message, or the next handler.
pub data Gate : Type 0 where
  rejected : ℕ → String → Gate
  next : Gate

-- The persona of the claims in the request's context; `none` when there are no claims.
unfoldable pub require_permission : Resource → Action → Option Persona → Gate
unfolding can
require_permission r a none = rejected 401 "authentication required"
require_permission r a (some persona) =
    if can persona r a then next else rejected 403 "insufficient permissions for this operation"
