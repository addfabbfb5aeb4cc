-- ===== src/Evidence/Sufficiency.antt =====
-- services/evidence/internal/sufficiency/sufficiency.go. The arithmetic of float64 is an argument.
use Prim.Native.String.{◌++◌ as concat}
use obvious.Base.{
  ℕ, zero, suc, ◌/◌, ◌%◌, ◌≤◌, String, Bool, true, Bool-cases, inl, inr, ap, List, [], ◌∷◌, ◌++◌,
  ◌≡◌, refl, if◌then◌else◌, ◌==◌, str_eq, ltb, length, arith,
}
use obvious.Base.Int.{ℤ, pos, negsuc}
use obvious.Evidence.Model.{Evidence, QualityScore}

-- `other_rating` holds any other text.
pub data RiskRating : Type 0 where
  critical high medium low informational : RiskRating
  other_rating : String → RiskRating

abbrev pub text_of : RiskRating → String
text_of critical = "critical"
text_of high = "high"
text_of medium = "medium"
text_of low = "low"
text_of informational = "informational"
text_of (other_rating t) = t

-- Go's RiskRating is the text.
unfoldable pub rating_of : String → RiskRating
rating_of t =
    if str_eq t "critical"
    then critical
    else if str_eq t "high"
    then high
    else if str_eq t "medium"
    then medium
    else if str_eq t "low"
    then low
    else if str_eq t "informational"
    then informational
    else other_rating t

-- The operations on float64; `quotient n d` is the constant n / d, `truncated` the conversion to
-- int, and `less` is <.
pub record Floats (Float : Type 0) : Type 0 where
  pub quotient : ℕ → ℕ → Float
  pub of_int : ℤ → Float
  pub truncated : Float → ℤ
  pub plus : Float → Float → Float
  pub minus : Float → Float → Float
  pub times : Float → Float → Float
  pub over : Float → Float → Float
  pub less : Float → Float → Bool

pub record ThresholdConfig (Float : Type 0) : Type 0 where
  pub min_count : ℕ
  pub min_score : Float

pub record SufficiencyResult (Float : Type 0) : Type 0 where
  pub control_id : ℕ
  pub risk_rating : RiskRating
  pub evidence_count : ℕ
  pub min_required : ℕ
  pub aggregate_score : Float
  pub min_score_required : Float
  pub is_sufficient : Bool
  pub gaps : List String
  pub evidence_ids : List ℕ

abbrev digit : ℕ → String
digit n =
    if n == 0
    then "0"
    else if n == 1
    then "1"
    else if n == 2
    then "2"
    else if n == 3
    then "3"
    else if n == 4
    then "4"
    else if n == 5
    then "5"
    else if n == 6
    then "6"
    else if n == 7
    then "7"
    else if n == 8
    then "8"
    else "9"

-- The loop of itoa, on fuel.
unfoldable pub digits : ℕ → ℕ → String
digits zero n = ""
digits (suc fuel) n =
    let rest = digits fuel (n / 10) in if n == 0 then "" else concat rest (digit (n % 10))

-- As much fuel as the number is enough.
digits_enough : (f g n : ℕ) → n ≤ f → n ≤ g → digits f n ≡ digits g n
unfolding digits
digits_enough zero zero n h k = refl
digits_enough zero (suc g) n h k = ground arith
digits_enough (suc f) zero n h k = ground arith
digits_enough (suc f) (suc g) n h k = elim (Bool-cases (n == 0)) [
  | inl same ↦ rw same refl
  | inr other ↦ rw other (
      ap (λ s. concat s (digit (n % 10)))
        (digits_enough f g (n / 10) (ground arith) (ground arith)))
]

-- A negative number gives no digits.
unfoldable pub itoa : ℤ → String
unfolding digits
itoa (pos n) = if n == 0 then "0" else digits n n
itoa (negsuc n) = ""

abbrev is_below_ten : ℤ → Bool
is_below_ten (pos n) = ltb n 10
is_below_ten (negsuc n) = true

module _ {Float : Type 0} (x : Floats Float) where
  unfoldable pub ftoa : Float → String
  unfolding itoa
  ftoa f =
      let whole = x.truncated f in
      let frac =
        x.truncated
          (x.plus (x.times (x.minus f (x.of_int whole)) (x.of_int (pos 100))) (x.quotient 1 2)) in
      concat (itoa whole) (concat "." (concat (if is_below_ten frac then "0" else "") (itoa frac)))

  unfoldable pub build_count_gap : RiskRating → ℕ → ℕ → String
  unfolding itoa
  build_count_gap rr found need = concat (text_of rr) (
      concat " risk requires " (
        concat (itoa (pos need))
          (concat " evidence items; only " (concat (itoa (pos found)) " provided"))))

  unfoldable pub build_score_gap : RiskRating → Float → Float → String
  unfolding ftoa
  build_score_gap rr found need = concat (text_of rr) (
      concat " risk requires aggregate quality >= "
        (concat (ftoa need) (concat "; current = " (ftoa found))))

  unfoldable pub round_score : Float → Float
  round_score v =
      x.over (x.of_int (x.truncated (x.times v (x.of_int (pos 10000))))) (x.of_int (pos 10000))

  -- The map, and the default for an unknown rating.
  unfoldable pub threshold : RiskRating → ThresholdConfig Float
  threshold critical = record { min_count = 5; min_score = x.quotient 80 100 }
  threshold high = record { min_count = 4; min_score = x.quotient 70 100 }
  threshold medium = record { min_count = 3; min_score = x.quotient 60 100 }
  threshold low = record { min_count = 2; min_score = x.quotient 50 100 }
  threshold informational = record { min_count = 1; min_score = x.quotient 40 100 }
  threshold (other_rating t) = record { min_count = 3; min_score = x.quotient 60 100 }

  unfoldable pub total_from : Float → List (QualityScore Float) → Float
  total_from total [] = total
  total_from total (qs ∷ rest) = total_from (x.plus total qs.aggregate_score) rest

  unfoldable pub average : List (QualityScore Float) → Float
  unfolding total_from
  average [] = x.of_int (pos 0)
  average (qs ∷ rest) =
      x.over (total_from (x.of_int (pos 0)) (qs ∷ rest)) (x.of_int (pos (length (qs ∷ rest))))

  unfoldable pub check_tier_diversity : List Evidence → List String
  check_tier_diversity items = []

  abbrev found_gaps : RiskRating → ThresholdConfig Float → List Evidence → Float → List String
  found_gaps rr cfg items score =
      (if ltb (length items) cfg.min_count
        then build_count_gap rr (length items) cfg.min_count ∷ []
        else [])
      ++ ((if x.less score cfg.min_score then build_score_gap rr score cfg.min_score ∷ [] else [])
          ++ check_tier_diversity items)

  unfoldable pub evaluate :
      List Evidence → List (QualityScore Float) → RiskRating → SufficiencyResult Float
  unfolding threshold average build_count_gap build_score_gap round_score check_tier_diversity
  evaluate items scores rr =
      let cfg = threshold rr in
      let gaps = found_gaps rr cfg items (average scores) in
      record {
        control_id = 0;
        risk_rating = rr;
        evidence_count = length items;
        min_required = cfg.min_count;
        aggregate_score = round_score (average scores);
        min_score_required = cfg.min_score;
        is_sufficient = length gaps == 0;
        gaps = gaps;
        evidence_ids = [];
      }
