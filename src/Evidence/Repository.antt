-- ===== src/Evidence/Repository.antt =====
-- MemoryRepository of services/evidence/internal/repository/repository.go, which the service starts
-- with. Each method is one step, and `none` is the error of a missing key.
use obvious.Base.{ℕ, Option, none, some, List, [], ◌∷◌, ◌==◌, filter}
use obvious.Base.Table.{Table, get, put, values}
use obvious.Evidence.Model.{Evidence, Classification, QualityScore}

pub record MemoryRepository (Float : Type 0) : Type 0 where
  pub evidence : Table Evidence
  pub classifications : Table (Classification Float)
  pub quality_scores : Table (QualityScore Float)

module _ {Float : Type 0} where
  unfoldable pub save : Evidence → MemoryRepository Float → MemoryRepository Float
  unfolding put
  save ev r = record r { evidence = put r.evidence ev.id ev }

  unfoldable pub find_by_id : ℕ → MemoryRepository Float → Option Evidence
  unfolding get
  find_by_id id r = get r.evidence id

  unfoldable pub find_by_control_id : ℕ → MemoryRepository Float → List Evidence
  unfolding values
  find_by_control_id control r = filter (λ ev. ev.control_id == control) (values r.evidence)

  unfoldable pub save_classification :
      Classification Float → MemoryRepository Float → MemoryRepository Float
  unfolding put
  save_classification c r = record r { classifications = put r.classifications c.evidence_id c }

  unfoldable pub find_classification_by_evidence_id :
      ℕ → MemoryRepository Float → Option (Classification Float)
  unfolding get
  find_classification_by_evidence_id evidence r = get r.classifications evidence

  unfoldable pub save_quality_score :
      QualityScore Float → MemoryRepository Float → MemoryRepository Float
  unfolding put
  save_quality_score qs r = record r { quality_scores = put r.quality_scores qs.evidence_id qs }

  unfoldable pub find_quality_score_by_evidence_id :
      ℕ → MemoryRepository Float → Option (QualityScore Float)
  unfolding get
  find_quality_score_by_evidence_id evidence r = get r.quality_scores evidence

  abbrev pub cons_some :
      Option (QualityScore Float) → List (QualityScore Float) → List (QualityScore Float)
  cons_some none rest = rest
  cons_some (some qs) rest = qs ∷ rest

  unfoldable pub scores_of : List Evidence → Table (QualityScore Float) → List (QualityScore Float)
  unfolding get
  scores_of [] scores = []
  scores_of (ev ∷ evs) scores = cons_some (get scores ev.id) (scores_of evs scores)

  unfoldable pub find_quality_scores_by_control_id :
      ℕ → MemoryRepository Float → List (QualityScore Float)
  unfolding scores_of find_by_control_id
  find_quality_scores_by_control_id control r =
      scores_of (find_by_control_id control r) r.quality_scores
