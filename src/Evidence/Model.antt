-- ===== src/Evidence/Model.antt =====
-- services/evidence/internal/models/evidence.go. An ID and a time are numbers, and `Float` stands for
-- float64.
use obvious.Base.{ℕ, String, Option, List}
use obvious.Base.Json.{Fields}

-- `other_tier` is any other int.
pub data EvidenceTier : Type 0 where
  policy standard guideline procedure evidence_record telemetry other_tier : EvidenceTier

unfoldable pub tier_label : EvidenceTier → String
tier_label policy = "L1-Policy"
tier_label standard = "L2-Standard"
tier_label guideline = "L3-Guideline"
tier_label procedure = "L4-Procedure"
tier_label evidence_record = "L5-Record"
tier_label telemetry = "L6-Telemetry"
tier_label other_tier = "Unknown"

pub record ProvenanceEntry : Type 0 where
  pub timestamp : ℕ
  pub actor_id : Option ℕ
  pub action : String
  pub description : String
  pub hash : String

pub record Evidence : Type 0 where
  pub id : ℕ
  pub org_id : ℕ
  pub engagement_id : ℕ
  pub control_id : ℕ
  pub uploaded_by_id : Option ℕ
  pub title : String
  pub description : String
  pub source_type : String
  pub source_ref : String
  pub content_format : String
  pub content : String
  pub file_path : String
  pub file_hash : String
  pub collected_at : ℕ
  pub tags : List String
  pub metadata : Option Fields
  pub provenance_chain : List ProvenanceEntry
  pub created_at : ℕ
  pub updated_at : ℕ

pub record Classification (Float : Type 0) : Type 0 where
  pub id : ℕ
  pub evidence_id : ℕ
  pub org_id : ℕ
  pub tier : EvidenceTier
  pub tier_label : String
  pub confidence : Float
  pub reasoning : String
  pub classified_at : ℕ

pub record QualityScore (Float : Type 0) : Type 0 where
  pub id : ℕ
  pub evidence_id : ℕ
  pub org_id : ℕ
  pub completeness_score : Float
  pub currency_score : Float
  pub source_reliability : Float
  pub corroboration_score : Float
  pub relevance_score : Float
  pub aggregate_score : Float
  pub deficiencies : List String
  pub scored_at : ℕ
