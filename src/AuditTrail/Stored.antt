-- ===== src/AuditTrail/Stored.antt =====
-- From the append to the stored row and back: whether an event that the audit-trail service wrote
-- passes its own verification. services/audit-trail/internal/store/store.go.
use obvious.Base.{
  ℕ, ◌*◌, ◌/◌, ◌%◌, ◌==◌, String, ◌≡◌, refl, sym, ◌∙◌, ◌≢◌, ◌⊎◌, inl, inr, true, false, Bool-cases,
  some, arith, str_eq_iff,
}
use obvious.AuditTrail.Model.{
  EventType, user_action, system_action, evidence_change, finding_change, engagement_change,
  auth_event, other_event, event_text, AppendRequest,
}
use obvious.AuditTrail.HashChain.{
  Hashing, CanonicalFields, canonical_event, canonical_request, compute, verify, verify_iff,
}
use obvious.AuditTrail.Store.{Log, Database, row_of, append, scan_event}
use obvious.AuditTrail.Handler.{valid_event_type}
use obvious.AuditTrail.Commitment.{Clashing, passes-same}

valid-text : (t : EventType) → valid_event_type t ≡ true → event_text t ≢ ""
unfolding valid_event_type
valid-text user_action v = λ e. ground (arith, str_eq_iff "user_action" "")
valid-text system_action v = λ e. ground (arith, str_eq_iff "system_action" "")
valid-text evidence_change v = λ e. ground (arith, str_eq_iff "evidence_change" "")
valid-text finding_change v = λ e. ground (arith, str_eq_iff "finding_change" "")
valid-text engagement_change v = λ e. ground (arith, str_eq_iff "engagement_change" "")
valid-text auth_event v = λ e. ground (arith, str_eq_iff "auth_event" "")
valid-text (other_event t) v = cc

module _ (h : Hashing) (d : Database) (log : Log) (req : AppendRequest) (previous hash : String)
    (now : ℕ) (hashed : compute h previous req now ≡ some hash) where
  -- The row that an append of a valid request writes, read back by `ScanEvent`, fails verification
  -- against the very hash that it was chained to, or the two texts that are hashed, for the row and
  -- for the request, differ and have one digest: the hash covers the event type, and the table has
  -- no column for it. (It is assumed of the JSON encoder that equal encodings have equal event
  -- types.)
  pub row_fails :
      ((a b : CanonicalFields) (t : String)
        → h.marshal a ≡ some t
        → h.marshal b ≡ some t
        → a.event_type ≡ b.event_type)
      → valid_event_type req.event_type ≡ true
      → let ev = scan_event (row_of d log req hash previous now) in
        (verify h ev previous ≡ false)
        ⊎ Clashing h previous (canonical_event h ev) previous (canonical_request h req now)
  unfolding compute scan_event row_of
  row_fails separates valid =
      let ev = scan_event (row_of d log req hash previous now) in
      let request = canonical_request h req now in
      elim (Bool-cases (verify h ev previous)) [
        | inr fails ↦ inl fails
        | inl passes ↦ elim (passes-same h ev request previous hashed passes) [
          | inr found ↦ inr found
          | inl (t, has_t, has_u) ↦ absurd (
              valid-text req.event_type valid (
                sym (
                  unfold canonical_event canonical_request in
                  separates (canonical_event h ev) request t has_t has_u)))
        ]
      ]

  returned_passes :
      d.stored_time now ≡ now → verify h (append d log req hash previous now).1 previous ≡ true
  unfolding append compute canonical_request
  returned_passes kept =
      (verify_iff h (append d log req hash previous now).1 previous).1
        (refl, unfold canonical_event in rw kept hashed)

  returned_fails :
      ((a b : CanonicalFields) (t : String)
        → h.marshal a ≡ some t
        → h.marshal b ≡ some t
        → a.occurred_at ≡ b.occurred_at)
      → ((t u : ℕ) → h.time_text t ≡ h.time_text u → t ≡ u)
      → d.stored_time now ≢ now
      → let ev = (append d log req hash previous now).1 in
        (verify h ev previous ≡ false)
        ⊎ Clashing h previous (canonical_event h ev) previous (canonical_request h req now)
  unfolding append compute
  returned_fails separates printed lost =
      let ev = (append d log req hash previous now).1 in
      let request = canonical_request h req now in
      elim (Bool-cases (verify h ev previous)) [
        | inr fails ↦ inl fails
        | inl passes ↦ elim (passes-same h ev request previous hashed passes) [
          | inr found ↦ inr found
          | inl (t, has_t, has_u) ↦ absurd (
              lost (
                printed (d.stored_time now) now (
                  unfold canonical_event canonical_request in
                  separates (canonical_event h ev) request t has_t has_u)))
        ]
      ]

  -- TIMESTAMPTZ keeps whole microseconds, and the hash covers nanoseconds. So the event that Append
  -- returns to its caller passes verification against the hash that it was chained to when the
  -- time is of whole microseconds; at any other time it fails, or the two texts that are hashed, for the
  -- event and for the request, differ and have one digest. (It is assumed of the JSON encoder that
  -- equal encodings have equal times, and of RFC3339Nano that it prints two times differently.)
  pub returned_verifies :
      ((a b : CanonicalFields) (t : String)
        → h.marshal a ≡ some t
        → h.marshal b ≡ some t
        → a.occurred_at ≡ b.occurred_at)
      → ((t u : ℕ) → h.time_text t ≡ h.time_text u → t ≡ u)
      → ((t : ℕ) → d.stored_time t ≡ t / 1000 * 1000)
      → let ev = (append d log req hash previous now).1 in
        ((now % 1000 ≡ 0) × (verify h ev previous ≡ true))
        ⊎ ((now % 1000 ≢ 0)
            × ((verify h ev previous ≡ false)
                ⊎ Clashing h previous
                    (canonical_event h ev)
                    previous
                    (canonical_request h req now)))
  returned_verifies separates printed micros = elim (Bool-cases (now % 1000 == 0)) [
    | inl whole ↦ inl (ground (arith, whole), returned_passes (micros now ∙ ground (arith, whole)))
    | inr rest ↦ inr (
      (λ e. ground (arith, rest)),
      returned_fails separates printed (λ e. ground (arith, rest, micros now)),
    )
  ]
