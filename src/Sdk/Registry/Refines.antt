-- ===== src/Sdk/Registry/Refines.antt =====
-- The registry of sdk/connector/registry.go as a partial function from names.
use obvious.Base.{
  ◌≡◌, refl, sym, ap, ◌∙◌, inl, inr, ◌↔◌, String, true, Bool-cases, Option, none, some, is_some,
  List, [], ◌∷◌, map, arith, str_eq, str_eq_iff, if◌then◌else◌, Exists,
}
use obvious.Sdk.Registry.{
  Registry, find, drop_name, new_registry, get, register, registered, unregister, list,
}

-- The abstract view.
abbrev pub Spec {ℓ} : Type ℓ → Type ℓ
Spec C = String → Option C

pub data Op {ℓ} (C : Type ℓ) : Type ℓ where
  registering : String → C → Op C
  unregistering : String → Op C

abbrev keep_first {ℓ} : {C : Type ℓ} → Option C → C → Option C
keep_first none c = some c
keep_first (some old) c = some old

module _ {ℓ} {C : Type ℓ} where
  unfoldable pub run : (String → String) → List (Op C) → Registry C → Registry C
  unfolding register unregister
  run quote [] r = r
  run quote (registering name c ∷ ops) r = run quote ops (register quote name c r).0
  run quote (unregistering name ∷ ops) r = run quote ops (unregister name r)

  -- The same calls on a function: the first registration of a name stands until the name is
  -- unregistered.
  unfoldable pub replay : List (Op C) → Spec C → Spec C
  replay [] s name = s name
  replay (registering n c ∷ ops) s name =
      replay ops (λ m. if str_eq n m then keep_first (s m) c else s m) name
  replay (unregistering n ∷ ops) s name = replay ops (λ m. if str_eq n m then none else s m) name

  find-drop :
      (m : List (String × C)) (n name : String)
      → find (drop_name m n) name ≡ (if str_eq n name then none else find m name)
  unfolding find drop_name
  find-drop [] n name = ground arith
  find-drop ((k, c) ∷ m) n name = elim (Bool-cases (str_eq k n)) [
    | inl same ↦
        rw same
          (ground (arith, find-drop m n name, ap (λ x. str_eq x name) ((str_eq_iff k n).0 same)))
    | inr other ↦ rw other (
        ground
          (arith, find-drop m n name, str_eq_iff k name, str_eq_iff n name, str_eq_iff k n, other))
  ]

  find-registered :
      (quote : String → String) (n name : String) (c : C) (r : Registry C) (o : Option C)
      → find r.connectors n ≡ o
      → find (registered quote n c r o).0.connectors name
        ≡ (if str_eq n name then keep_first (find r.connectors name) c else find r.connectors name)
  unfolding registered find
  find-registered quote n name c r (some old) e = elim (Bool-cases (str_eq n name)) [
    | inl same ↦
        let here = ap (find r.connectors) (sym ((str_eq_iff n name).0 same)) ∙ e in
        rw (same, here) refl
    | inr other ↦ rw other refl
  ]
  find-registered quote n name c r none e = elim (Bool-cases (str_eq n name)) [
    | inl same ↦
        let here = ap (find r.connectors) (sym ((str_eq_iff n name).0 same)) ∙ e in
        rw (same, here) refl
    | inr other ↦ rw other refl
  ]

  find-register :
      (quote : String → String) (n name : String) (c : C) (r : Registry C)
      → find (register quote n c r).0.connectors name
        ≡ (if str_eq n name then keep_first (find r.connectors name) c else find r.connectors name)
  unfolding register
  find-register quote n name c r = find-registered quote n name c r (find r.connectors n) refl

  replay-ext :
      (ops : List (Op C)) (s t : Spec C) (name : String)
      → ((m : String) → s m ≡ t m)
      → replay ops s name ≡ replay ops t name
  unfolding replay
  replay-ext [] s t name h = h name
  replay-ext (registering n c ∷ ops) s t name h =
      replay-ext ops _ _ name (λ m. ap (λ o. if str_eq n m then keep_first o c else o) (h m))
  replay-ext (unregistering n ∷ ops) s t name h =
      replay-ext ops _ _ name (λ m. ap (λ o. if str_eq n m then none else o) (h m))

  run-replays :
      (quote : String → String) (ops : List (Op C)) (r : Registry C) (name : String)
      → find (run quote ops r).connectors name ≡ replay ops (find r.connectors) name
  unfolding run replay
  run-replays quote [] r name = refl
  run-replays quote (registering n c ∷ ops) r name =
      run-replays quote ops (register quote n c r).0 name
      ∙ replay-ext ops _ _ name (λ m. find-register quote n m c r)
  run-replays quote (unregistering n ∷ ops) r name =
      run-replays quote ops (unregister n r) name
      ∙ replay-ext ops _ _ name (λ m. unfold unregister in find-drop r.connectors n m)

  listed :
      (m : List (String × C)) (name : String)
      → Exists (λ n. n ≡ name) (map (λ e. e.0) m) ↔ (is_some (find m name) ≡ true)
  unfolding find
  listed [] name = ((λ e. elim e [ ]), λ h. ground arith)
  listed ((n, c) ∷ m) name = elim (Bool-cases (str_eq n name)) [
    | inl same ↦ rw same ((λ _. refl), λ _. inl ((str_eq_iff n name).0 same))
    | inr other ↦ rw other (
      (λ e. elim e [
        | inl here ↦ ground (arith, str_eq_iff n name)
        | inr later ↦ (listed m name).0 later
      ]),
      λ h. inr ((listed m name).1 h),
    )
  ]

-- After any registrations and removals, refused ones included, the registry reads as the same
-- calls on a partial function, where the first registration of a name stands until the name is
-- removed; and List, if sorting keeps the elements of a list, has exactly the names that Get finds.
pub registry_refines {ℓ} :
    {C : Type ℓ} (quote : String → String) (sort : List String → List String)
    (keeps : (xs : List String) (x : String)
      → Exists (λ y. y ≡ x) (sort xs) ↔ Exists (λ y. y ≡ x) xs)
    (ops : List (Op C)) (name : String)
    → let r = run quote ops new_registry in
      (get r name ≡ replay ops (λ _. none) name)
      × (Exists (λ n. n ≡ name) (list sort r) ↔ (is_some (get r name) ≡ true))
unfolding get list find
registry_refines quote sort keeps ops name =
    let r = run quote ops new_registry in
    let (kept, back) = keeps (map (λ e. e.0) r.connectors) name in
    let (found, there) = listed r.connectors name in
    (run-replays quote ops new_registry name, (λ e. found (kept e), λ h. back (there h)))
