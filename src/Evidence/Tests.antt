-- ===== src/Evidence/Tests.antt =====
-- The evaluation on one piece of evidence, with hundredths for float64.
use obvious.Base.{ℕ, ◌+◌, ◌-◌, ◌*◌, ◌/◌, ◌≤◌, [], ◌∷◌, ◌≡◌, ◌↔◌, true, false, none, length, ltb}
use obvious.Base.Int.{ℤ, pos, negsuc}
use obvious.Evidence.Model.{Evidence, QualityScore}
use obvious.Evidence.Sufficiency.{informational, Floats, evaluate}
use obvious.Evidence.Sufficient.{for_informational, mean, aggregates, sufficient_iff}

abbrev hundredths : ℤ → ℕ
hundredths (pos n) = n * 100
hundredths (negsuc n) = 0

abbrev arithmetic : Floats ℕ
arithmetic = record {
  quotient = λ n d. n * 100 / d;
  of_int = hundredths;
  truncated = λ f. pos (f / 100);
  plus = λ a b. a + b;
  minus = λ a b. a - b;
  times = λ a b. a * b / 100;
  over = λ a b. a * 100 / b;
  less = ltb;
}

abbrev scan : Evidence
scan = record {
  id = 5;
  org_id = 1;
  engagement_id = 2;
  control_id = 3;
  uploaded_by_id = none;
  title = "scan";
  description = "";
  source_type = "automated_scan";
  source_ref = "";
  content_format = "json";
  content = "{}";
  file_path = "";
  file_hash = "";
  collected_at = 0;
  tags = [];
  metadata = none;
  provenance_chain = [];
  created_at = 0;
  updated_at = 0;
}

abbrev score : QualityScore ℕ
score = record {
  id = 6;
  evidence_id = 5;
  org_id = 1;
  completeness_score = 90;
  currency_score = 90;
  source_reliability = 90;
  corroboration_score = 50;
  relevance_score = 80;
  aggregate_score = 80;
  deficiencies = [];
  scored_at = 0;
}

sufficient_iff_example :
    ((evaluate arithmetic (scan ∷ []) (score ∷ []) informational).is_sufficient ≡ true) ↔ (
      (1 ≤ length (scan ∷ []))
      × (arithmetic.less
            (mean arithmetic (aggregates arithmetic (score ∷ [])))
            (arithmetic.quotient 40 100)
          ≡ false))
sufficient_iff_example =
    sufficient_iff arithmetic (scan ∷ []) (score ∷ []) informational 1 40 for_informational
