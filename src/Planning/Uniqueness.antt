-- ===== src/Planning/Uniqueness.antt =====
-- At most one annual plan that is not archived for an organisation and a year: the check in Create
-- of services/planning/internal/store/store.go, against whatever else the handlers of
-- services/planning/internal/handler/handler.go do to plans, one call after another.
use obvious.Base.{
  ℕ, ◌≡◌, refl, sym, ◌∙◌, ap, inl, inr, ◌⊎◌, Bool, true, false, not, Bool-cases, Option, none, some,
  List, [], ◌∷◌, arith, All,
}
use obvious.Base.Table
use obvious.Base.Table.{Table, put-cases, All-values-get}
use obvious.Planning.Annual.{archived, eq_status, ok, AnnualPlan}
use obvious.Planning.Store.{
  AnnualPlanStore, new_annual_plan_store, rivals, has_rival, created, create, update, written,
}
use obvious.Planning.Store

abbrev pub is_open : AnnualPlan → Bool
is_open p = not (eq_status p.status archived)

-- Every plan stands under its own ID, and two open plans of one organisation and year are one.
pub record OneOpen (s : AnnualPlanStore) : Type 0 where
  pub keyed : (k : ℕ) (p : AnnualPlan) → Table.get s.entries k ≡ some p → p.id ≡ k
  pub unique :
      (j k : ℕ) (p q : AnnualPlan)
      → Table.get s.entries j ≡ some p
      → Table.get s.entries k ≡ some q
      → is_open p ≡ true
      → is_open q ≡ true
      → p.org_id ≡ q.org_id
      → p.year ≡ q.year
      → j ≡ k

no-rival :
    (p : AnnualPlan) (qs : List AnnualPlan)
    → has_rival p qs ≡ false
    → All (λ q. rivals p q ≡ false) qs
unfolding has_rival
no-rival p [] h = tt
no-rival p (q ∷ qs) h = elim (Bool-cases (rivals p q)) [
  | inl here ↦ ground arith
  | inr none_here ↦ (none_here, no-rival p qs (rw none_here at h))
]

rivals-true :
    (p q : AnnualPlan)
    → p.org_id ≡ q.org_id
    → p.year ≡ q.year
    → is_open q ≡ true
    → rivals p q ≡ true
rivals-true p q org year open_q = ground arith

-- A put is harmless when an open plan that is put has no open rival under another key.
module _ (s : AnnualPlanStore) (o : OneOpen s) (p : AnnualPlan)
    (alone : (k : ℕ) (q : AnnualPlan)
      → Table.get s.entries k ≡ some q
      → is_open p ≡ true
      → rivals p q ≡ true
      → p.id ≡ k) where
  put_unique :
      (j k : ℕ) (q r : AnnualPlan)
      → ((p.id ≡ j) × (p ≡ q)) ⊎ (Table.get s.entries j ≡ some q)
      → ((p.id ≡ k) × (p ≡ r)) ⊎ (Table.get s.entries k ≡ some r)
      → is_open q ≡ true
      → is_open r ≡ true
      → q.org_id ≡ r.org_id
      → q.year ≡ r.year
      → j ≡ k
  put_unique j k q r (inl (at_j, _)) (inl (at_k, _)) open_q open_r org year = sym at_j ∙ at_k
  put_unique j k q r (inl (at_j, p_q)) (inr old) open_q open_r org year =
      sym at_j
      ∙ alone k r old (ap is_open p_q ∙ open_q)
          (rivals-true p r (ap (λ v. v.org_id) p_q ∙ org) (ap (λ v. v.year) p_q ∙ year) open_r)
  put_unique j k q r (inr old) (inl (at_k, p_r)) open_q open_r org year =
      sym (
        alone j q old (ap is_open p_r ∙ open_r) (
          rivals-true p q (ap (λ v. v.org_id) p_r ∙ sym org) (ap (λ v. v.year) p_r ∙ sym year)
            open_q))
      ∙ at_k
  put_unique j k q r (inr old_j) (inr old_k) open_q open_r org year =
      o.unique j k q r old_j old_k open_q open_r org year

  put-keyed :
      (k : ℕ) (q : AnnualPlan)
      → ((p.id ≡ k) × (p ≡ q)) ⊎ (Table.get s.entries k ≡ some q)
      → q.id ≡ k
  put-keyed k q (inl (at_k, p_q)) = sym (ap (λ v. v.id) p_q) ∙ at_k
  put-keyed k q (inr old) = o.keyed k q old

  put-OneOpen : OneOpen (record { entries = Table.put s.entries p.id p })
  put-OneOpen = record {
    keyed = λ k q found. put-keyed k q (put-cases s.entries p.id k p found);
    unique = λ j k q r at_j at_k.
        put_unique j k q r (put-cases s.entries p.id j p at_j) (put-cases s.entries p.id k p at_k);
  }

created-OneOpen :
    (s : AnnualPlanStore) (p : AnnualPlan) (found : Bool)
    → has_rival p (Table.values s.entries) ≡ found
    → OneOpen s
    → OneOpen (created s p found).0
unfolding created
created-OneOpen s p true _ o = o
created-OneOpen s p false free o = put-OneOpen s o p (λ k q found open_p rival.
    let lone = no-rival p (Table.values s.entries) free in
    let harmless = All-values-get (λ v. rivals p v ≡ false) s.entries k lone found in ground arith)

pub create-OneOpen : (s : AnnualPlanStore) (p : AnnualPlan) → OneOpen s → OneOpen (create s p).0
unfolding create
create-OneOpen s p o = created-OneOpen s p (has_rival p (Table.values s.entries)) refl o

-- What the operations on a plan keep: its identity, and that it is not reopened.
pub record Tame (p p' : AnnualPlan) : Type 0 where
  pub same_id : p'.id ≡ p.id
  pub same_org : p'.org_id ≡ p.org_id
  pub same_year : p'.year ≡ p.year
  pub not_reopened : is_open p' ≡ true → is_open p ≡ true

rivals-open :
    (p q : AnnualPlan)
    → rivals p q ≡ true
    → (q.org_id ≡ p.org_id) × (q.year ≡ p.year) × (is_open q ≡ true)
rivals-open p q h = ground arith

pub read-at :
    (s : AnnualPlanStore) (org id : ℕ) (p : AnnualPlan)
    → Store.get s org id ≡ ok p
    → Table.get s.entries id ≡ some p
unfolding Store.get
read-at s org id p h = ground arith

pub written-OneOpen :
    (s : AnnualPlanStore) (o : OneOpen s) (org id : ℕ) (p p' : AnnualPlan)
    → Store.get s org id ≡ ok p
    → Tame p p'
    → OneOpen (update s p').0
unfolding update Store.get
written-OneOpen s o org id p p' read t = go (Table.get s.entries p'.id)
  where
    go : (found : Option AnnualPlan) → OneOpen (written s p' found).0
    go none = o
    go (some _) = put-OneOpen s o p' (λ k q at_k open_p' rival.
        let at_id = read-at s org id p read in
        let (org_q, year_q, open_q) = rivals-open p' q rival in
        t.same_id
        ∙ o.keyed id p at_id
        ∙ o.unique id k p q at_id at_k (t.not_reopened open_p') open_q (sym t.same_org ∙ sym org_q)
            (sym t.same_year ∙ sym year_q))
