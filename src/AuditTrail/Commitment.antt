-- ===== src/AuditTrail/Commitment.antt =====
-- The chain of services/audit-trail/internal/hashchain/hashchain.go as a commitment: what its head
-- fixes.
use Prim.Native.String.{◌++◌ as concat, count}
use text.Mathlib.TextLemmas.{append_inj, append_cancel_left}
use obvious.Base.{
  String, ◌≡◌, refl, sym, ap, ◌∙◌, ◌≢◌, ◌⊎◌, inl, inr, true, Bool-cases, Option, none, some, List,
  [], ◌∷◌, length, map, arith, str_eq, str_eq_iff,
}
use obvious.AuditTrail.Model.{AuditEvent}
use obvious.AuditTrail.HashChain.{
  Hashing, CanonicalFields, genesis_hash, sealed, canonical_event, verify, verify_iff,
}
use obvious.AuditTrail.Walk.{Intact}

-- These two texts differ and have one digest.
pub record Collision (h : Hashing) (x y : String) : Type 0 where
  pub differ : x ≢ y
  pub same_digest : h.digest x ≡ h.digest y

digest-inj : (h : Hashing) (x y : String) → h.digest x ≡ h.digest y → (x ≡ y) ⊎ Collision h x y
digest-inj h x y e = elim (Bool-cases (str_eq x y)) [
  | inl same ↦ inl ((str_eq_iff x y).0 same)
  | inr other ↦ inr (record { differ = λ p. ground (arith, str_eq_iff x y); same_digest = e })
]

-- The texts that are hashed for two links, of these fields after these hashes, collide.
abbrev pub Clashing : Hashing → String → CanonicalFields → String → CanonicalFields → Type 0
Clashing h p a q b =
    (t : String) × (u : String) × (h.marshal a ≡ some t)
    × (h.marshal b ≡ some u)
    × Collision h (concat p t) (concat q u)

pub sealed-some :
    (h : Hashing) (previous : String) (payload : Option String) {hash : String}
    → sealed h previous payload ≡ some hash
    → (text : String) × (payload ≡ some text) × (h.digest (concat previous text) ≡ hash)
sealed-some h previous none e = cc
sealed-some h previous (some text) e = (text, refl, ground arith)

-- An event that passes against a hash that was computed of some fields has the encoding of those
-- fields, or the two texts that were hashed collide.
pub passes-same :
    (h : Hashing) (ev : AuditEvent) (c : CanonicalFields) (previous : String)
    → sealed h previous (h.marshal c) ≡ some ev.event_hash
    → verify h ev previous ≡ true
    → ((t : String) × (h.marshal (canonical_event h ev) ≡ some t) × (h.marshal c ≡ some t))
      ⊎ Clashing h previous (canonical_event h ev) previous c
passes-same h ev c previous hashed passes =
    let (_, seal) = (verify_iff h ev previous).0 passes in
    let (t, has_t, digest_t) = sealed-some h previous (h.marshal (canonical_event h ev)) seal in
    let (u, has_u, digest_u) = sealed-some h previous (h.marshal c) hashed in
    elim (digest-inj h (concat previous t) (concat previous u) (digest_t ∙ sym digest_u)) [
      | inr found ↦ inr (t, u, has_t, has_u, found)
      | inl same ↦ inl (t, has_t, has_u ∙ ap some (sym (append_cancel_left previous t u same)))
    ]

-- At one place of two chains, the texts that are hashed collide.
pub data Clash (h : Hashing) : String → List AuditEvent → String → List AuditEvent → Type 0 where
  here :
      {p q : String} {e d : AuditEvent} {es ds : List AuditEvent}
      → Clashing h p (canonical_event h e) q (canonical_event h d)
      → Clash h p (e ∷ es) q (d ∷ ds)
  later :
      {p q : String} {e d : AuditEvent} {es ds : List AuditEvent}
      → Clash h e.event_hash es d.event_hash ds
      → Clash h p (e ∷ es) q (d ∷ ds)

-- The hash of the last event, or the previous hash where there is none.
abbrev pub head : String → List AuditEvent → String
head previous [] = previous
head previous (ev ∷ evs) = head ev.event_hash evs

-- The canonical encodings, which the hashes cover.
abbrev pub payloads : Hashing → List AuditEvent → List (Option String)
payloads h evs = map (λ ev. h.marshal (canonical_event h ev)) evs

module _ (h : Hashing) (fixed_length : (x : String) → count (h.digest x) ≡ 64) where
  link-commits :
      (p q : String) (e d : AuditEvent)
      → count p ≡ count q
      → verify h e p ≡ true
      → verify h d q ≡ true
      → e.event_hash ≡ d.event_hash
      → ((p ≡ q) × (h.marshal (canonical_event h e) ≡ h.marshal (canonical_event h d)))
        ⊎ Clashing h p (canonical_event h e) q (canonical_event h d)
  link-commits p q e d counts ve vd same =
      let (_, seal_e) = (verify_iff h e p).0 ve in
      let (_, seal_d) = (verify_iff h d q).0 vd in
      let (t, has_t, digest_t) = sealed-some h p (h.marshal (canonical_event h e)) seal_e in
      let (u, has_u, digest_u) = sealed-some h q (h.marshal (canonical_event h d)) seal_d in
      elim (digest-inj h (concat p t) (concat q u) (digest_t ∙ same ∙ sym digest_u)) [
        | inr found ↦ inr (t, u, has_t, has_u, found)
        | inl equal ↦
            let (pq, tu) = append_inj equal counts in inl (pq, has_t ∙ ap some tu ∙ sym has_u)
      ]

  hash-count : (p : String) (e : AuditEvent) → verify h e p ≡ true → count e.event_hash ≡ 64
  hash-count p e v =
      let (_, seal) = (verify_iff h e p).0 v in
      let (t, _, digest) = sealed-some h p (h.marshal (canonical_event h e)) seal in
      ap count (sym digest) ∙ fixed_length (concat p t)

  commits :
      (p q : String) (es ds : List AuditEvent)
      → count p ≡ count q
      → length es ≡ length ds
      → Intact h p es
      → Intact h q ds
      → head p es ≡ head q ds
      → ((p ≡ q) × (payloads h es ≡ payloads h ds)) ⊎ Clash h p es q ds
  commits p q [] [] counts len ie id same = inl (same, refl)
  commits p q [] (d ∷ ds) counts len ie id same = absurd (omega arith)
  commits p q (e ∷ es) [] counts len ie id same = absurd (omega arith)
  commits p q (e ∷ es) (d ∷ ds) counts len ie id same =
      elim (commits e.event_hash d.event_hash es ds
        (hash-count p e ie.0 ∙ sym (hash-count q d id.0)) (omega arith) ie.1 id.1 same) [
          | inr found ↦ inr (later found)
          | inl (hashes, rest) ↦ elim (link-commits p q e d counts ie.0 id.0 hashes) [
            | inr found ↦ inr (here found)
            | inl (pq, equal) ↦ inl (pq, cc (equal, rest))
          ]
        ]

  -- Where every digest has 64 characters: two chains that both verify from the genesis hash, of
  -- one length and with one head hash, hold the same canonical payloads in the same order, or at
  -- one place the two texts that were hashed for the two chains differ and have one digest.
  pub head_commits :
      (es ds : List AuditEvent)
      → length es ≡ length ds
      → Intact h genesis_hash es
      → Intact h genesis_hash ds
      → head genesis_hash es ≡ head genesis_hash ds
      → (payloads h es ≡ payloads h ds) ⊎ Clash h genesis_hash es genesis_hash ds
  head_commits es ds len ie id same =
      elim (commits genesis_hash genesis_hash es ds refl len ie id same) [
        | inl (_, equal) ↦ inl equal
        | inr found ↦ inr found
      ]
