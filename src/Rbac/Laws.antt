-- ===== src/Rbac/Laws.antt =====
-- What the matrix of services/identity/pkg/rbac/rbac.go grants.
use mathlib.Core.Path.{subst}
use obvious.Base.{
  ◌||◌, ◌≡◌, refl, sym, ◌↔◌, ◌⊎◌, inl, inr, Bool, true, Option, none, some, List, [], ◌∷◌, arith,
  Bool-cases, Exists, str_eq_iff,
}
use obvious.Rbac.{
  eq_resource, eq_action, Persona, internal_auditor, cae, Action, manage, Resource, Permission,
  persona_permissions, permitted, allows, among, slice, permissions, can, next, require_permission,
}

eq_resource_iff : (r q : Resource) → (eq_resource r q ≡ true) ↔ (r ≡ q)
eq_resource_iff r q = grind (arith, str_eq_iff)

eq_action_iff : (a b : Action) → (eq_action a b ≡ true) ↔ (a ≡ b)
eq_action_iff a b = grind (arith, str_eq_iff)

-- The permission is the action itself, or `manage`, on the resource.
abbrev pub Allows : Resource → Action → Permission → Type 0
Allows r a q = (q.resource ≡ r) × ((q.action ≡ a) ⊎ (q.action ≡ manage))

allows-Allows : (q : Permission) (r : Resource) (a : Action) → allows q r a ≡ true → Allows r a q
unfolding allows
allows-Allows q r a h =
    let (same_resource, _) = eq_resource_iff q.resource r in
    let (same_action, _) = eq_action_iff q.action a in
    let (is_manage, _) = eq_action_iff q.action manage in
    elim (Bool-cases (eq_resource q.resource r)) [
      | inl on_it ↦ (
        same_resource on_it,
        elim (Bool-cases (eq_action q.action a)) [
          | inl exact ↦ inl (same_action exact)
          | inr inexact ↦ inr (is_manage (rw (on_it, inexact) at h))
        ],
      )
      | inr off ↦ ground arith
    ]

or-true : (b : Bool) → (b || true) ≡ true
or-true b = ground arith

Allows-allows : (q : Permission) (r : Resource) (a : Action) → Allows r a q → allows q r a ≡ true
unfolding allows
Allows-allows q r a (same, inl exact) =
    rw ((eq_resource_iff q.resource r).1 same, (eq_action_iff q.action a).1 exact) refl
Allows-allows q r a (same, inr super) =
    rw ((eq_resource_iff q.resource r).1 same, (eq_action_iff q.action manage).1 super)
      (or-true (eq_action q.action a))

permitted-Exists :
    (ps : List Permission) (r : Resource) (a : Action)
    → permitted ps r a ≡ true
    → Exists (Allows r a) ps
unfolding permitted
permitted-Exists [] r a h = ground arith
permitted-Exists (p ∷ ps) r a h = elim (Bool-cases (allows p r a)) [
  | inl here ↦ inl (allows-Allows p r a here)
  | inr there ↦ inr (permitted-Exists ps r a (rw there at h))
]

Exists-permitted :
    (ps : List Permission) (r : Resource) (a : Action)
    → Exists (Allows r a) ps
    → permitted ps r a ≡ true
unfolding permitted
Exists-permitted [] r a g = elim g [ ]
Exists-permitted (p ∷ ps) r a (inl here) = rw (Allows-allows p r a here) refl
Exists-permitted (p ∷ ps) r a (inr there) = ground (arith, Exists-permitted ps r a there)

among_iff :
    (ps : Option (List Permission)) (r : Resource) (a : Action)
    → (among ps r a ≡ true) ↔ Exists (Allows r a) (slice ps)
unfolding among
among_iff none r a = (λ h. ground arith, λ g. elim g [ ])
among_iff (some ps) r a = (permitted-Exists ps r a, Exists-permitted ps r a)

granted :
    (r : Resource) (a : Action) (p : Persona)
    → Exists (Allows r a) (permissions p)
    → require_permission r a (some p) ≡ next
unfolding require_permission can permissions
granted r a p g = rw ((among_iff (persona_permissions p) r a).1 g) refl

passed :
    (r : Resource) (a : Action) (p : Persona)
    → require_permission r a (some p) ≡ next
    → Exists (Allows r a) (permissions p)
unfolding require_permission can permissions
passed r a p h = (among_iff (persona_permissions p) r a).0 (ground arith)

some-inj : {p q : Persona} → some p ≡ some q → p ≡ q
some-inj h = ground arith

-- A request reaches the handler behind the middleware exactly when it has claims and the matrix
-- lists, for their persona and on that resource, the action itself or `manage`.
pub require_permission_iff :
    (r : Resource) (a : Action) (claims : Option Persona)
    → (require_permission r a claims ≡ next)
      ↔ ((p : Persona) × (claims ≡ some p) × Exists (Allows r a) (permissions p))
unfolding require_permission
require_permission_iff r a none = (λ h. ground arith, λ (p, h, _). ground arith)
require_permission_iff r a (some p) = (
  λ h. (p, refl, passed r a p h),
  λ (q, same, g).
      granted r a p (subst (λ v. Exists (Allows r a) (permissions v)) (sym (some-inj same)) g),
)

-- Whoever may manage a resource may do any action on it, and only the CAE may manage any; and the
-- CAE may do all that an internal auditor may, though the matrix lists the two apart.
cae_covers :
    (p : Persona) (r : Resource) (a : Action)
    → (can internal_auditor r a ≡ true → can cae r a ≡ true)
      × (can p r manage ≡ true → (p ≡ cae) × (can p r a ≡ true))
unfolding can
cae_covers p r a = (λ h. ground arith, λ h. (ground arith, ground arith))
