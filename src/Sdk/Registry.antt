-- ===== src/Sdk/Registry.antt =====
-- sdk/connector/registry.go: the connectors under their names. The map is a list of entries in
-- which a name stands once; sorting and the message's quoting are libraries of Go, so arguments.
pub mod Refines
use Prim.Native.String.{◌++◌ as concat}
use obvious.Base.{
  ℕ, suc, ◌+◌, ◌≡◌, ◌≢◌, refl, sym, ap, ◌∙◌, inl, inr, String, Bool, true, false, Bool-cases,
  Option, none, some, is_some, List, [], ◌∷◌, map, length, arith, str_eq, str_eq_iff, if◌then◌else◌,
  All, Exists,
}

module _ {ℓ} {C : Type ℓ} where
  -- c, ok := r.connectors[name]
  unfoldable pub find : List (String × C) → String → Option C
  find [] name = none
  find ((n, c) ∷ m) name = if str_eq n name then some c else find m name

  unfoldable pub drop_name : List (String × C) → String → List (String × C)
  drop_name [] name = []
  drop_name ((n, c) ∷ m) name =
      let rest = drop_name m name in if str_eq n name then rest else (n, c) ∷ rest

pub record Registry {ℓ} (C : Type ℓ) : Type ℓ where
  pub connectors : List (String × C)

module _ {ℓ} {C : Type ℓ} where
  abbrev pub new_registry : Registry C
  new_registry = record { connectors = [] }

  -- Get
  unfoldable pub get : Registry C → String → Option C
  unfolding find
  get r name = find r.connectors name

  -- The result is nil, or the error's message.
  registered : (String → String) → String → C → Registry C → Option C → Registry C × Option String
  registered quote name c r (some _) =
      (r, some (concat "connector registry: " (concat (quote name) " already registered")))
  registered quote name c r none = (record { connectors = (name, c) ∷ r.connectors }, none)

  unfoldable pub register : (String → String) → String → C → Registry C → Registry C × Option String
  unfolding registered find
  register quote name c r = registered quote name c r (find r.connectors name)

  -- MustRegister: `none` is the panic.
  abbrev must : Registry C × Option String → Option (Registry C)
  must (r, none) = some r
  must (r, some message) = none

  unfoldable pub must_register : (String → String) → String → C → Registry C → Option (Registry C)
  unfolding register
  must_register quote name c r = must (register quote name c r)

  unfoldable pub unregister : String → Registry C → Registry C
  unfolding drop_name
  unregister name r = record { connectors = drop_name r.connectors name }

  unfoldable pub list : (List String → List String) → Registry C → List String
  list sort r = sort (map (λ e. e.0) r.connectors)

  unfoldable pub len : Registry C → ℕ
  len r = length r.connectors
