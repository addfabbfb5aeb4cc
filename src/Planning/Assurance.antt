-- ===== src/Planning/Assurance.antt =====
-- The assurance map of services/planning/internal/domain/plan.go: business units against control
-- domains, row by row.
use obvious.Base.{
  ℕ, ◌+◌, ◌*◌, ◌≡◌, refl, ◌∙◌, ap, String, Option, none, some, List, [], ◌∷◌, ◌++◌, map, str_eq,
  if◌then◌else◌, ◌==◌, length, length-append, length-map, get_elem?, get_elem-append_left,
  get_elem-append_right, get_elem-map, arith, zero, suc,
}
use obvious.Base.Int.{ℤ}
use obvious.Base.Json.{Fields, end}
use obvious.Planning.Annual.{Result, ok, err, invalid}

-- `other_coverage` holds any other text.
pub data CoverageLevel : Type 0 where
  no_coverage partial full : CoverageLevel
  other_coverage : String → CoverageLevel

pub record AssuranceCell : Type 0 where
  pub business_unit : String
  pub control_domain : String
  pub coverage : CoverageLevel
  pub engagement_ids : List ℕ
  pub notes : String

pub record AssuranceMap : Type 0 where
  pub id : ℕ
  pub org_id : ℕ
  pub annual_plan_id : Option ℕ
  pub year : ℤ
  pub name : String
  pub business_units : List String
  pub control_domains : List String
  pub matrix : List AssuranceCell
  pub metadata : Fields
  pub created_at : ℕ
  pub updated_at : ℕ

-- A matrix that is nil is `none`.
pub record CreateAssuranceMapRequest : Type 0 where
  pub org_id : ℕ
  pub annual_plan_id : Option ℕ
  pub year : ℤ
  pub name : String
  pub business_units : List String
  pub control_domains : List String
  pub matrix : Option (List AssuranceCell)
  pub metadata : Option Fields

pub record UpdateAssuranceMapRequest : Type 0 where
  pub name : Option String
  pub matrix : Option (List AssuranceCell)

abbrev pub empty_cell : String → String → AssuranceCell
empty_cell bu cd = record {
  business_unit = bu;
  control_domain = cd;
  coverage = no_coverage;
  engagement_ids = [];
  notes = "";
}

-- The two loops.
unfoldable pub initial_matrix : List String → List String → List AssuranceCell
initial_matrix [] cds = []
initial_matrix (bu ∷ bus) cds = map (empty_cell bu) cds ++ initial_matrix bus cds

abbrev or_empty_map : Option Fields → Fields
or_empty_map none = end
or_empty_map (some m) = m

unfoldable pub matrix_of :
    CreateAssuranceMapRequest → Option (List AssuranceCell) → List AssuranceCell
unfolding initial_matrix
matrix_of req (some matrix) = matrix
matrix_of req none = initial_matrix req.business_units req.control_domains

unfoldable pub new_assurance_map : ℕ → ℕ → CreateAssuranceMapRequest → Result AssuranceMap
unfolding matrix_of
new_assurance_map id now req =
    if str_eq req.name ""
    then err (invalid "name is required")
    else if req.org_id == 0
    then err (invalid "org_id is required")
    else ok (record {
      id = id;
      org_id = req.org_id;
      annual_plan_id = req.annual_plan_id;
      year = req.year;
      name = req.name;
      business_units = req.business_units;
      control_domains = req.control_domains;
      matrix = matrix_of req req.matrix;
      metadata = or_empty_map req.metadata;
      created_at = now;
      updated_at = now;
    })

abbrev assigned {ℓ} : {A : Type ℓ} → Option A → A → A
assigned none old = old
assigned (some new) old = new

unfoldable pub apply_update : ℕ → UpdateAssuranceMapRequest → AssuranceMap → AssuranceMap
apply_update now req m = record m {
  name = assigned req.name m.name;
  matrix = assigned req.matrix m.matrix;
  updated_at = now;
}

initial_matrix-length :
    (bus cds : List String) → length (initial_matrix bus cds) ≡ length bus * length cds
unfolding initial_matrix
initial_matrix-length [] cds = omega arith
initial_matrix-length (bu ∷ bus) cds =
    let row = length-map (empty_cell bu) cds in
    let rest = initial_matrix-length bus cds in
    let parts = length-append (map (empty_cell bu) cds) (initial_matrix bus cds) in
    omega (arith, row, rest, parts)

initial_matrix-at :
    (bus cds : List String) (i j : ℕ) {bu cd : String}
    → get_elem? bus i ≡ some bu
    → get_elem? cds j ≡ some cd
    → get_elem? (initial_matrix bus cds) (i * length cds + j) ≡ some (empty_cell bu cd)
unfolding initial_matrix
initial_matrix-at [] cds i j at_i at_j = cc
initial_matrix-at (b ∷ bus) cds zero j {bu} {cd} at_i at_j =
    let same : b ≡ bu = ground arith in
    let here =
      get_elem-append_left (map (empty_cell b) cds) (initial_matrix bus cds) j
        (get_elem-map (empty_cell b) cds j at_j) in
    let start : 0 * length cds + j ≡ j = omega arith in
    ap (get_elem? (map (empty_cell b) cds ++ initial_matrix bus cds)) start
    ∙ here
    ∙ ap (λ c. some (empty_cell c cd)) same
initial_matrix-at (b ∷ bus) cds (suc i) j at_i at_j =
    let later = initial_matrix-at bus cds i j at_i at_j in
    let skip =
      get_elem-append_right (map (empty_cell b) cds) (initial_matrix bus cds)
        (i * length cds + j) in
    let position : suc i * length cds + j ≡ length (map (empty_cell b) cds) + (i * length cds + j) =
      omega (arith, length-map (empty_cell b) cds) in
    ap (get_elem? (map (empty_cell b) cds ++ initial_matrix bus cds)) position ∙ skip ∙ later

accepted-matrix :
    (id now : ℕ) (req : CreateAssuranceMapRequest) (m : AssuranceMap)
    → new_assurance_map id now req ≡ ok m
    → m.matrix ≡ matrix_of req req.matrix
unfolding new_assurance_map
accepted-matrix id now req m h = ground arith

unset-matrix :
    (req : CreateAssuranceMapRequest)
    → matrix_of req none ≡ initial_matrix req.business_units req.control_domains
unfolding matrix_of
unset-matrix req = refl

-- An accepted assurance map that was requested without a matrix has a cell for every business unit
-- and control domain, row by row: as many as their product, and in row `i` and column `j` the
-- empty cell of the unit `i` and the domain `j`.
pub new_assurance_map_complete :
    (id now : ℕ) (req : CreateAssuranceMapRequest) (m : AssuranceMap)
    → new_assurance_map id now req ≡ ok m
    → req.matrix ≡ none
    → (length m.matrix ≡ length req.business_units * length req.control_domains)
      × ((i j : ℕ) (bu cd : String)
          → get_elem? req.business_units i ≡ some bu
          → get_elem? req.control_domains j ≡ some cd
          → get_elem? m.matrix (i * length req.control_domains + j) ≡ some (empty_cell bu cd))
new_assurance_map_complete id now req m accepted unset =
    let initial = accepted-matrix id now req m accepted ∙ ap (matrix_of req) unset in
    let filled : m.matrix ≡ initial_matrix req.business_units req.control_domains =
      initial ∙ unset-matrix req in
    (
      ap length filled ∙ initial_matrix-length req.business_units req.control_domains,
      λ i j bu cd at_i at_j.
          ap (λ c. get_elem? c (i * length req.control_domains + j)) filled
          ∙ initial_matrix-at req.business_units req.control_domains i j at_i at_j,
    )
