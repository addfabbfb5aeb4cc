-- ===== src/AuditTrail/Walk.antt =====
-- What VerifyChain of services/audit-trail/internal/handler/handler.go reports of any events.
use mathlib.Core.Path.{subst}
use obvious.Base.{
  ℕ, ◌+◌, String, ◌≡◌, refl, sym, ◌∙◌, ◌↔◌, ◌⊎◌, inl, inr, true, false, Bool-cases, Option, none,
  some, List, [], ◌∷◌, length, arith,
}
use obvious.AuditTrail.Model.{AuditEvent}
use obvious.AuditTrail.HashChain.{Hashing, genesis_hash, verify}
use obvious.AuditTrail.Handler.{noted, walk, verdict, verify_events}

module _ (h : Hashing) where
  -- Every link holds, from a previous hash on.
  abbrev pub Intact : String → List AuditEvent → Type 0
  Intact previous [] = Unit {0}
  Intact previous (ev ∷ evs) = (verify h ev previous ≡ true) × Intact ev.event_hash evs

  -- The first link that fails is that of the event with this ID.
  abbrev pub FirstBroken : String → List AuditEvent → ℕ → Type 0
  FirstBroken previous [] id = ⊥
  FirstBroken previous (ev ∷ evs) id =
      ((verify h ev previous ≡ false) × (ev.id ≡ id))
      ⊎ ((verify h ev previous ≡ true) × FirstBroken ev.event_hash evs id)

  abbrev Reported : String → List AuditEvent → Option ℕ → Type 0
  Reported previous evs none = Intact previous evs
  Reported previous evs (some id) = FirstBroken previous evs id

  walk-total :
      (previous : String) (total : ℕ) (t : Option ℕ) (evs : List AuditEvent)
      → (walk h previous total t evs).0 ≡ total + length evs
  unfolding walk
  walk-total previous total t [] = omega arith
  walk-total previous total t (ev ∷ evs) =
      omega (arith, walk-total ev.event_hash (total + 1) (noted t (verify h ev previous) ev.id) evs)

  walk-some :
      (previous : String) (total id : ℕ) (evs : List AuditEvent)
      → (walk h previous total (some id) evs).1 ≡ some id
  unfolding walk
  walk-some previous total id [] = refl
  walk-some previous total id (ev ∷ evs) = walk-some ev.event_hash (total + 1) id evs

  Reported-cons :
      (previous : String) (ev : AuditEvent) (evs : List AuditEvent) (t : Option ℕ)
      → verify h ev previous ≡ true
      → Reported ev.event_hash evs t
      → Reported previous (ev ∷ evs) t
  Reported-cons previous ev evs none holds r = (holds, r)
  Reported-cons previous ev evs (some id) holds r = inr (holds, r)

  walk-Reported :
      (previous : String) (total : ℕ) (evs : List AuditEvent)
      → Reported previous evs (walk h previous total none evs).1
  unfolding walk
  walk-Reported previous total [] = tt
  walk-Reported previous total (ev ∷ evs) = elim (Bool-cases (verify h ev previous)) [
    | inl holds ↦
        subst
          (λ b.
            Reported previous (ev ∷ evs)
              (walk h ev.event_hash (total + 1) (noted none b ev.id) evs).1)
          (sym holds)
          (Reported-cons previous ev evs (walk h ev.event_hash (total + 1) none evs).1 holds
            (walk-Reported ev.event_hash (total + 1) evs))
    | inr fails ↦
        subst
          (λ b.
            Reported previous (ev ∷ evs)
              (walk h ev.event_hash (total + 1) (noted none b ev.id) evs).1)
          (sym fails)
          (subst (Reported previous (ev ∷ evs))
            (sym (walk-some ev.event_hash (total + 1) ev.id evs)) (inl (fails, refl)))
  ]

  not-Intact :
      (previous : String) (evs : List AuditEvent) (id : ℕ)
      → FirstBroken previous evs id
      → ¬ Intact previous evs
  not-Intact previous [] id b i = b
  not-Intact previous (ev ∷ evs) id (inl here) i = ground arith
  not-Intact previous (ev ∷ evs) id (inr later) i = not-Intact ev.event_hash evs id later.1 i.1

  verdict-reports :
      (previous : String) (evs : List AuditEvent) (total : ℕ) (t : Option ℕ)
      → Reported previous evs t
      → (((verdict h (total, t)).valid ≡ true) ↔ Intact previous evs)
        × ((verdict h (total, t)).valid ≡ false
            → (id : ℕ) × ((verdict h (total, t)).tampered_at ≡ some id)
              × FirstBroken previous evs id)
  verdict-reports previous evs total none r = ((λ _. r, λ _. refl), λ e. cc)
  verdict-reports previous evs total (some id) r =
      ((λ e. cc, λ i. absurd (not-Intact previous evs id r i)), λ _. (id, refl, r))

  verdict-total : (total : ℕ) (t : Option ℕ) → (verdict h (total, t)).total_events ≡ total
  verdict-total total none = refl
  verdict-total total (some id) = refl

  -- VerifyChain counts every event, says that the chain is valid exactly when every link holds
  -- from the genesis hash on, and otherwise names as tampered the event at the first link that fails.
  pub verify_events_reports :
      (evs : List AuditEvent)
      → ((verify_events h evs).total_events ≡ length evs)
        × (((verify_events h evs).valid ≡ true) ↔ Intact genesis_hash evs)
        × ((verify_events h evs).valid ≡ false
            → (id : ℕ) × ((verify_events h evs).tampered_at ≡ some id)
              × FirstBroken genesis_hash evs id)
  unfolding verify_events
  verify_events_reports evs =
      let (total, t) = walk h genesis_hash 0 none evs in
      let (valid, first) =
        verdict-reports genesis_hash evs total t (walk-Reported genesis_hash 0 evs) in
      (verdict-total total t ∙ walk-total genesis_hash 0 none evs ∙ omega arith, valid, first)
