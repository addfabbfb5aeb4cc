-- ===== src/ControlFramework/Controls.antt =====
-- The controls of services/control-framework: their types in internal/domain/types.go, their rows and
-- statements in internal/repository/postgres.go, and what internal/service/service.go does before. A
-- float64 is its text.
use Prim.Native.String.{◌++◌ as concat}
use obvious.Base.{
  ℕ, String, Bool, true, false, not, ◌&&◌, ◌||◌, Option, none, some, List, [], ◌∷◌, ◌++◌, str_eq,
  if◌then◌else◌, ◌==◌, ltb, length, filter, take, drop,
}

pub record TestProcedure : Type 0 where
  pub id : String
  pub description : String
  pub expected_evidence : String

pub record EvidenceRequirement : Type 0 where
  pub kind : String
  pub description : String
  pub required : Bool

pub record Control : Type 0 where
  pub id : ℕ
  pub framework_id : ℕ
  pub org_id : ℕ
  pub parent_id : Option ℕ
  pub control_id : String
  pub title : String
  pub description : String
  pub objective : String
  pub category : String
  pub domain : String
  pub article_ref : String
  pub implementation_notes : String
  pub test_procedures : List TestProcedure
  pub evidence_requirements : List EvidenceRequirement
  pub risk_weight : String
  pub tags : List String
  pub is_active : Bool
  pub created_at : ℕ
  pub updated_at : ℕ

-- `tags` is nil where the request has none.
pub record CreateControlRequest : Type 0 where
  pub framework_id : ℕ
  pub parent_id : Option ℕ
  pub control_id : String
  pub title : String
  pub description : String
  pub objective : String
  pub category : String
  pub domain : String
  pub article_ref : String
  pub implementation_notes : String
  pub test_procedures : List TestProcedure
  pub evidence_requirements : List EvidenceRequirement
  pub risk_weight : String
  pub tags : Option (List String)

pub record ListControlsFilter : Type 0 where
  pub framework_id : Option ℕ
  pub domain : Option String
  pub article_ref : Option String
  pub parent_id : Option ℕ
  pub is_active : Option Bool
  pub search : Option String
  pub limit : ℕ
  pub offset : ℕ

pub record PaginatedControls : Type 0 where
  pub controls : List Control
  pub total : ℕ
  pub limit : ℕ
  pub offset : ℕ

-- What the database does: ILIKE for a text inside another, the order by control_id, what
-- NUMERIC(3,2) keeps of a number, and its error for NULL in the column tags.
pub record Database : Type 0 where
  pub contains : String → String → Bool
  pub by_control_id : List Control → List Control
  pub stored_weight : String → String
  pub null_tags : String

abbrev given_id : Option ℕ → ℕ → Bool
given_id none n = true
given_id (some m) n = n == m

abbrev given_parent : Option ℕ → Option ℕ → Bool
given_parent none parent = true
given_parent (some m) none = false
given_parent (some m) (some n) = n == m

abbrev given_text : Option String → String → Bool
given_text none s = true
given_text (some t) s = str_eq s t

abbrev given_flag : Option Bool → Bool → Bool
given_flag none b = true
given_flag (some true) b = b
given_flag (some false) b = not b

-- The row that the INSERT writes: it names no implementation_notes.
abbrev pub control_row : Database → ℕ → ℕ → ℕ → CreateControlRequest → List String → Control
control_row db id now org req tags = record {
  id = id;
  framework_id = req.framework_id;
  org_id = org;
  parent_id = req.parent_id;
  control_id = req.control_id;
  title = req.title;
  description = req.description;
  objective = req.objective;
  category = req.category;
  domain = req.domain;
  article_ref = req.article_ref;
  implementation_notes = "";
  test_procedures = req.test_procedures;
  evidence_requirements = req.evidence_requirements;
  risk_weight = db.stored_weight req.risk_weight;
  tags = tags;
  is_active = true;
  created_at = now;
  updated_at = now;
}

pub data Inserted : Type 0 where
  inserted : List Control → Control → Inserted
  refused : String → Inserted

module _ (db : Database) where
  abbrev given_search : Option String → Control → Bool
  given_search none c = true
  given_search (some text) c =
      str_eq text "" || (db.contains c.title text || db.contains c.description text)

  -- The WHERE clause of ListControls.
  unfoldable pub is_listed : ℕ → ListControlsFilter → Control → Bool
  is_listed org f c =
      (c.org_id == org)
      && given_id f.framework_id c.framework_id
      && given_text f.domain c.domain
      && given_text f.article_ref c.article_ref
      && given_parent f.parent_id c.parent_id
      && given_flag f.is_active c.is_active
      && given_search f.search c

  -- ListControls of the repository.
  unfoldable pub select_controls : ℕ → ListControlsFilter → List Control → PaginatedControls
  unfolding is_listed
  select_controls org f rows =
      let found = filter (is_listed org f) rows in
      let limit = if f.limit == 0 then 50 else f.limit in
      record {
        controls = take limit (drop f.offset (db.by_control_id found));
        total = length found;
        limit = limit;
        offset = f.offset;
      }

  -- ListControls of the service.
  unfoldable pub list_controls : ℕ → ListControlsFilter → List Control → PaginatedControls
  unfolding select_controls
  list_controls org f rows =
      let limit = if f.limit == 0 then 50 else f.limit in
      select_controls org (record f { limit = if ltb 200 limit then 200 else limit }) rows

  abbrev with_tags :
      ℕ → ℕ → ℕ → CreateControlRequest → List Control → Option (List String) → Inserted
  with_tags id now org req rows none = refused (concat "create control: " db.null_tags)
  with_tags id now org req rows (some tags) =
      let c = control_row db id now org req tags in inserted (rows ++ c ∷ []) c

  -- CreateControl of the repository; `failure` is another error of the database.
  unfoldable pub insert_control :
      ℕ → ℕ → Option String → ℕ → CreateControlRequest → List Control → Inserted
  insert_control id now (some failure) org req rows = refused (concat "create control: " failure)
  insert_control id now none org req rows = with_tags id now org req rows req.tags

  -- CreateControl of the service; `less` is < on float64.
  unfoldable pub create_control :
      (String → String → Bool)
      → ℕ
      → ℕ
      → Option String
      → ℕ
      → CreateControlRequest
      → List Control
      → Inserted
  unfolding insert_control
  create_control less id now failure org req rows =
      if str_eq req.control_id ""
      then refused "control_id is required"
      else if str_eq req.title ""
      then refused "title is required"
      else if req.framework_id == 0
      then refused "framework_id is required"
      else if less req.risk_weight "0" || less "5" req.risk_weight
      then refused "risk_weight must be between 0 and 5"
      else insert_control id now failure org req rows
