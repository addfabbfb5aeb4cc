-- ===== src/Evidence/Handler.antt =====
-- The handlers of services/evidence/internal/handler/handler.go that read the repository; the memory
-- repository's searches never fail. `parse` is uuid.Parse.
use obvious.Base.{ℕ, String, Option, none, some, List, if◌then◌else◌, length, str_eq}
use obvious.Evidence.Model.{Evidence, QualityScore}
use obvious.Evidence.Repository.{
  MemoryRepository, find_by_id, find_by_control_id, find_quality_score_by_evidence_id,
  find_quality_scores_by_control_id,
}
use obvious.Evidence.Sufficiency.{RiskRating, Floats, SufficiencyResult, evaluate, rating_of}

pub data Response (Float : Type 0) : Type 0 where
  failure : ℕ → String → Response Float
  evidence_body : ℕ → Evidence → Response Float
  evidence_list_body : ℕ → List Evidence → ℕ → Response Float
  score_body : ℕ → QualityScore Float → Response Float
  sufficiency_body : ℕ → SufficiencyResult Float → Response Float

module _ {Float : Type 0} (parse : String → Option ℕ) where
  abbrev found : Option Evidence → Response Float
  found none = failure 404 "evidence not found"
  found (some ev) = evidence_body 200 ev

  abbrev getting : MemoryRepository Float → Option ℕ → Response Float
  getting r none = failure 400 "invalid evidence id"
  getting r (some id) = found (find_by_id id r)

  unfoldable pub get_evidence : String → MemoryRepository Float → Response Float
  get_evidence id r = getting r (parse id)

  abbrev listing : MemoryRepository Float → Option ℕ → Response Float
  listing r none = failure 400 "invalid control_id"
  listing r (some control) =
      let evidence = find_by_control_id control r in
      evidence_list_body 200 evidence (length evidence)

  unfoldable pub list_evidence_by_control : String → MemoryRepository Float → Response Float
  list_evidence_by_control control r =
      if str_eq control ""
      then failure 400 "control_id query parameter is required"
      else listing r (parse control)

  abbrev scored : Option (QualityScore Float) → Response Float
  scored none = failure 404 "quality score not found"
  scored (some qs) = score_body 200 qs

  abbrev scoring : MemoryRepository Float → Option ℕ → Response Float
  scoring r none = failure 400 "invalid evidence id"
  scoring r (some id) = scored (find_quality_score_by_evidence_id id r)

  unfoldable pub get_quality_score : String → MemoryRepository Float → Response Float
  get_quality_score id r = scoring r (parse id)

  module _ (x : Floats Float) where
    abbrev pub sufficiency_of : ℕ → RiskRating → MemoryRepository Float → SufficiencyResult Float
    sufficiency_of control rating r =
        record (evaluate x (find_by_control_id control r)
          (find_quality_scores_by_control_id control r) rating) { control_id = control }

    abbrev evaluated : RiskRating → MemoryRepository Float → Option ℕ → Response Float
    evaluated rating r none = failure 400 "invalid control_id"
    evaluated rating r (some control) = sufficiency_body 200 (sufficiency_of control rating r)

    unfoldable pub get_control_sufficiency :
        String → String → MemoryRepository Float → Response Float
    get_control_sufficiency control rating r =
        evaluated (rating_of (if str_eq rating "" then "medium" else rating)) r (parse control)
