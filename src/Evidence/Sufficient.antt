-- ===== src/Evidence/Sufficient.antt =====
-- What the evaluation in services/evidence/internal/sufficiency/sufficiency.go decides, against the
-- thresholds that its package comment lists.
use obvious.Base.{
  ℕ, ◌≤◌, ◌≡◌, refl, sym, ap, ◌∙◌, ◌↔◌, true, false, Bool-cases, inl, inr, String, List, [], ◌∷◌,
  map, ltb, length, arith,
}
use obvious.Base.Int.{pos}
use obvious.Evidence.Model.{Evidence, QualityScore}
use obvious.Evidence.Sufficiency.{
  RiskRating, critical, high, medium, low, informational, other_rating, Floats, threshold, average,
  total_from, evaluate, check_tier_diversity,
}

-- What each rating demands: so many items, and an average of so many hundredths.
pub data Demands : RiskRating → ℕ → ℕ → Type 0 where
  for_critical : Demands critical 5 80
  for_high : Demands high 4 70
  for_medium : Demands medium 3 60
  for_low : Demands low 2 50
  for_informational : Demands informational 1 40
  for_unknown : {text : String} → Demands (other_rating text) 3 60

module _ {Float : Type 0} (x : Floats Float) where
  -- The sum of numbers onto a number, from the left.
  abbrev pub sum_onto : Float → List Float → Float
  sum_onto total [] = total
  sum_onto total (a ∷ rest) = sum_onto (x.plus total a) rest

  -- The mean of numbers is their sum divided by how many they are, and 0 of none.
  abbrev pub mean : List Float → Float
  mean [] = x.of_int (pos 0)
  mean (a ∷ rest) =
      x.over (sum_onto (x.of_int (pos 0)) (a ∷ rest)) (x.of_int (pos (length (a ∷ rest))))

  abbrev pub aggregates : List (QualityScore Float) → List Float
  aggregates scores = map (λ (qs : QualityScore Float). qs.aggregate_score) scores

  total_from-sum :
      (total : Float) (scores : List (QualityScore Float))
      → total_from x total scores ≡ sum_onto total (aggregates scores)
  unfolding total_from
  total_from-sum total [] = refl
  total_from-sum total (qs ∷ rest) = total_from-sum (x.plus total qs.aggregate_score) rest

  length-aggregates :
      (scores : List (QualityScore Float)) → length (aggregates scores) ≡ length scores
  length-aggregates [] = refl
  length-aggregates (qs ∷ rest) = ground (arith, length-aggregates rest)

  average-mean : (scores : List (QualityScore Float)) → average x scores ≡ mean (aggregates scores)
  unfolding average
  average-mean [] = refl
  average-mean (qs ∷ rest) =
      ap (x.over (total_from x (x.of_int (pos 0)) (qs ∷ rest)))
        (ap (λ n. x.of_int (pos n)) (sym (length-aggregates (qs ∷ rest))))
      ∙ ap (λ s. x.over s (x.of_int (pos (length (aggregates (qs ∷ rest))))))
          (total_from-sum (x.of_int (pos 0)) (qs ∷ rest))

  by_threshold :
      (items : List Evidence) (scores : List (QualityScore Float)) (rr : RiskRating)
      → ((evaluate x items scores rr).is_sufficient ≡ true) ↔ (
          ((threshold x rr).min_count ≤ length items)
          × (x.less (average x scores) (threshold x rr).min_score ≡ false))
  unfolding evaluate check_tier_diversity
  by_threshold items scores rr = elim (Bool-cases (ltb (length items) (threshold x rr).min_count)) [
    | inl few ↦ elim (Bool-cases (x.less (average x scores) (threshold x rr).min_score)) [
      | inl below ↦ rw (few, below) (ground arith)
      | inr fine ↦ rw (few, fine) (ground arith)
    ]
    | inr many ↦ elim (Bool-cases (x.less (average x scores) (threshold x rr).min_score)) [
      | inl below ↦ rw (many, below) (ground arith)
      | inr fine ↦ rw (many, fine) (ground arith)
    ]
  ]

  demanded :
      (rr : RiskRating) (count percent : ℕ)
      → Demands rr count percent
      → ((threshold x rr).min_count ≡ count) × ((threshold x rr).min_score ≡ x.quotient percent 100)
  unfolding threshold
  demanded rr count percent for_critical = (refl, refl)
  demanded rr count percent for_high = (refl, refl)
  demanded rr count percent for_medium = (refl, refl)
  demanded rr count percent for_low = (refl, refl)
  demanded rr count percent for_informational = (refl, refl)
  demanded rr count percent for_unknown = (refl, refl)

  -- The evidence suffices exactly when there are as many items as the rating demands, and the mean
  -- of the aggregate scores is not below the hundredths that it demands: 5 items and 80 for
  -- critical, 4 and 70 for high, 3 and 60 for medium and for an unknown rating, 2 and 50 for low,
  -- 1 and 40 for informational.
  pub sufficient_iff :
      (items : List Evidence) (scores : List (QualityScore Float)) (rr : RiskRating)
      (count percent : ℕ)
      → Demands rr count percent
      → ((evaluate x items scores rr).is_sufficient ≡ true) ↔ (
          (count ≤ length items)
          × (x.less (mean (aggregates scores)) (x.quotient percent 100) ≡ false))
  sufficient_iff items scores rr count percent demands =
      let (counts, hundredths) = demanded rr count percent demands in
      rw (sym (average-mean scores), sym counts, sym hundredths) (by_threshold items scores rr)
