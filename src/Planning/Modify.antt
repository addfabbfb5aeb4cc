-- ===== src/Planning/Modify.antt =====
-- What the shared steps of services/planning/internal/handler/handler.go do to a store: a changing
-- handler leaves it or writes back a row that it read, so other organisations see no difference.
use obvious.Base.{
  ℕ, ◌≡◌, ◌≢◌, refl, sym, ◌∙◌, String, Bool-cases, inl, inr, ◌⊎◌, ap, Option, none, some, str_eq,
  arith,
}
use mathlib.Core.Path.{subst}
use obvious.Planning.Annual
use obvious.Planning.Annual.{
  Result, ok, err, not_found, invalid_transition, duplicate_year, invalid, CreateAnnualPlanRequest,
  UpdateAnnualPlanRequest, AnnualPlan,
}
use obvious.Planning.Repository.{Repository, Lawful}
use obvious.Planning.Handler.{
  Body, decoded, malformed, Request, Response, Change, refused, changed, org_text, require_org_id,
  parse_id, with_org, with_id, found, settled, saved, stored, made, modify, make,
}

-- A change keeps the row's ID and organisation.
abbrev pub Keeping : {S A : Type 0} → Repository S A → (A → Change A) → Type 0
Keeping {S} {A} r change =
    (p q : A)
    → change p ≡ changed q
    → (r.row.id_of q ≡ r.row.id_of p) × (r.row.org_of q ≡ r.row.org_of p)

saved-store : {S A : Type 0} (p : A) (w : S × Result (Unit {0})) → (saved p w).0 ≡ w.0
saved-store p (s, ok x) = refl
saved-store p (s, err e) = refl

module _ {S A : Type 0} (r : Repository S A) (parse : String → Option ℕ) (missing : String)
    (req : Request) (change : A → Change A) (s : S) where
  -- What a handler that ends in a new store has done.
  pub record Wrote (s' : S) : Type 0 where
    pub org : ℕ
    pub id : ℕ
    pub old : A
    pub new : A
    pub asked : parse (org_text req) ≡ some org
    pub was : r.read s org id ≡ ok old
    pub became : change old ≡ changed new
    pub now : s' ≡ (r.write s new).0

  settled-cases :
      (org id : ℕ) (p : A) (c : Change A)
      → parse (org_text req) ≡ some org
      → r.read s org id ≡ ok p
      → change p ≡ c
      → ((settled r s c).0 ≡ s) ⊎ Wrote (settled r s c).0
  settled-cases org id p (refused answer) asked was e = inl refl
  settled-cases org id p (changed q) asked was e = inr (record {
    org = org;
    id = id;
    old = p;
    new = q;
    asked = asked;
    was = was;
    became = e;
    now = saved-store q (r.write s q);
  })

  found-cases :
      (org id : ℕ) (x : Result A)
      → parse (org_text req) ≡ some org
      → r.read s org id ≡ x
      → ((found missing (λ p. settled r s (change p)) s x).0 ≡ s)
        ⊎ Wrote (found missing (λ p. settled r s (change p)) s x).0
  found-cases org id (ok p) asked was = settled-cases org id p (change p) asked was refl
  found-cases org id (err not_found) asked was = inl refl
  found-cases org id (err invalid_transition) asked was = inl refl
  found-cases org id (err duplicate_year) asked was = inl refl
  found-cases org id (err (invalid text)) asked was = inl refl

  with_id-cases :
      (org : ℕ) (o : Option ℕ)
      → parse (org_text req) ≡ some org
      → let w =
          with_id (λ id. found missing (λ p. settled r s (change p)) s (r.read s org id)) s o in
        (w.0 ≡ s) ⊎ Wrote w.0
  with_id-cases org none asked = inl refl
  with_id-cases org (some id) asked = found-cases org id (r.read s org id) asked refl

  with_org-cases :
      (o : Option ℕ)
      → parse (org_text req) ≡ o
      → let w =
          with_org
            (λ org.
              parse_id parse req
                (λ id. found missing (λ p. settled r s (change p)) s (r.read s org id))
                s)
            s
            o in
        (w.0 ≡ s) ⊎ Wrote w.0
  unfolding parse_id
  with_org-cases none asked = inl refl
  with_org-cases (some org) asked = with_id-cases org (parse req.id) asked

  -- A handler leaves the store as it is, or reads a row and writes what it makes of it.
  pub modify-cases :
      ((modify r parse missing req change s).0 ≡ s) ⊎ Wrote (modify r parse missing req change s).0
  unfolding modify require_org_id
  modify-cases = elim (Bool-cases (str_eq (org_text req) "")) [
    | inl empty ↦ rw empty (inl refl)
    | inr given ↦ rw given (with_org-cases (parse (org_text req)) refl)
  ]

  module _ (l : Lawful r) (keeping : Keeping r change) (good : l.Good s) where
    pub modify-Good : l.Good (modify r parse missing req change s).0
    modify-Good = elim modify-cases [
      | inl same ↦ subst l.Good (sym same) good
      | inr w ↦ subst l.Good (sym w.now) (l.write-Good s w.new good)
    ]

    pub modify-other :
        (org other i : ℕ)
        → parse (org_text req) ≡ some org
        → other ≢ org
        → r.read (modify r parse missing req change s).0 other i ≡ r.read s other i
    modify-other org other i asked differ = elim modify-cases [
      | inl same ↦ ap (λ t. r.read t other i) same
      | inr w ↦
          let kept = keeping w.old w.new w.became in
          let same_org : w.org ≡ org = ground (arith, asked, w.asked) in
          ap (λ t. r.read t other i) w.now
          ∙ l.write-other s w.org w.id w.old w.new good w.was kept.0 kept.1 other i
              (λ e. differ (e ∙ same_org))
    ]

pub stored-store :
    {S A : Type 0} (refusal : Annual.Error → Response A) (p : A) (w : S × Result (Unit {0}))
    → (stored refusal p w).0 ≡ w.0
stored-store refusal p (s, ok x) = refl
stored-store refusal p (s, err e) = refl

module _ {S A : Type 0} (r : Repository S A) (l : Lawful r) (refusal : Annual.Error → Response A)
    (s : S) (good : l.Good s) where
  made-Good : (x : Result A) → l.Good (made r refusal s x).0
  made-Good (ok p) = subst l.Good (sym (stored-store refusal p (r.add s p))) (l.add-Good s p good)
  made-Good (err e) = good

  pub make-Good :
      {R : Type 0} (body : Body R) (new : R → Result A) → l.Good (make r body new refusal s).0
  unfolding make
  make-Good (decoded req) new = made-Good (new req)
  make-Good (malformed problem) new = good
