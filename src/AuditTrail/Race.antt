-- ===== src/AuditTrail/Race.antt =====
-- Two calls of AppendEvent in services/audit-trail/internal/handler/handler.go that overlap: both
-- read the head of the chain before either inserts its row.
use Prim.Native.String.{◌++◌ as concat, count}
use mathlib.Core.Path.{subst, subst₂}
use obvious.Base.{
  ℕ, ◌≡◌, refl, sym, ap, ◌∙◌, inl, inr, false, Bool-cases, some, [], ◌∷◌, String, arith, ==_iff,
}
use obvious.AuditTrail.Model.{AppendRequest}
use obvious.AuditTrail.HashChain.{Hashing, genesis_hash, compute, canonical_request, verify_iff}
use obvious.AuditTrail.Store.{
  Log, Database, append, row_of, scan_event, get_last_hash, all_events_for_org,
}
use obvious.AuditTrail.Handler.{Faults, persist, verify_events}
use obvious.AuditTrail.Commitment.{sealed-some}
use obvious.AuditTrail.Walk.{Intact, verify_events_reports}

-- No statement fails.
abbrev pub no_faults : Faults
no_faults = record { last_hash_fails = false; append_fails = false }

-- The log after two calls for one organisation that both read the head of the empty log; the
-- first call inserts first.
unfoldable pub race : Hashing → Database → ℕ → AppendRequest → AppendRequest → ℕ → ℕ → Log
race h d org r₁ r₂ t₁ t₂ =
    let head = get_last_hash [] org in
    let log = (persist h d no_faults t₁ [] r₁ head (compute h head r₁ t₁)).0 in
    (persist h d no_faults t₂ log r₂ head (compute h head r₂ t₂)).0

module _ (h : Hashing) (d : Database) (fixed_length : (x : String) → count (h.digest x) ≡ 64)
    (org : ℕ) (r₁ r₂ : AppendRequest) (t₁ t₂ : ℕ) (own₁ : r₁.org_id ≡ org) (own₂ : r₂.org_id ≡ org)
    {hash₁ hash₂ : String} (hashed₁ : compute h "" r₁ t₁ ≡ some hash₁)
    (hashed₂ : compute h "" r₂ t₂ ≡ some hash₂) where
  race-events :
      all_events_for_org (race h d org r₁ r₂ t₁ t₂) org
      ≡ scan_event (row_of d [] r₁ hash₁ "" t₁)
        ∷ scan_event (row_of d ((append d [] r₁ hash₁ "" t₁).0) r₂ hash₂ "" t₂)
        ∷ []
  unfolding race all_events_for_org get_last_hash persist append
  race-events =
      subst₂
        (λ a b.
          all_events_for_org
            (persist h d no_faults t₂ (persist h d no_faults t₁ [] r₁ "" a).0 r₂ "" b).0 org
          ≡ scan_event (row_of d [] r₁ hash₁ "" t₁)
            ∷ scan_event (row_of d (append d [] r₁ hash₁ "" t₁).0 r₂ hash₂ "" t₂)
            ∷ [])
        (sym hashed₁) (sym hashed₂)
        (rw ((==_iff r₁.org_id org).1 own₁, (==_iff r₂.org_id org).1 own₂) refl)

  race-link : Intact h genesis_hash (all_events_for_org (race h d org r₁ r₂ t₁ t₂) org) → "" ≡ hash₁
  unfolding scan_event row_of
  race-link i =
      let links = subst (Intact h genesis_hash) race-events i in ((verify_iff h _ _).0 links.1.0).0

  -- Where every digest has 64 characters: when two calls for one organisation both read the head
  -- of the empty log and then both insert, the chain that results never verifies.
  pub race_breaks_chain :
      (verify_events h (all_events_for_org (race h d org r₁ r₂ t₁ t₂) org)).valid ≡ false
  unfolding compute
  race_breaks_chain =
      elim (Bool-cases
        (verify_events h (all_events_for_org (race h d org r₁ r₂ t₁ t₂) org)).valid) [
          | inr broken ↦ broken
          | inl valid ↦
              let intact =
                (verify_events_reports h (all_events_for_org (race h d org r₁ r₂ t₁ t₂) org)).1.0
                  valid in
              let (text, _, digest) =
                sealed-some h "" (h.marshal (canonical_request h r₁ t₁)) hashed₁ in
              absurd (
                omega
                  (arith, ap count (race-link intact ∙ sym digest), fixed_length (concat "" text)))
        ]
