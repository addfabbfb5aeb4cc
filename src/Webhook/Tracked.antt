-- ===== src/Webhook/Tracked.antt =====
-- What a batch of services/webhook/internal/worker/worker.go makes of one row, which is the only one
-- with its ID.
use mathlib.Core.Path.{subst}
use obvious.Base.{
  ℕ, zero, suc, ◌≤◌, ◌≡◌, refl, sym, ap, ◌∙◌, inl, inr, String, Bool, true, false, Bool-cases,
  Option, none, some, List, [], ◌∷◌, map, length, filter, take, All, arith, str_eq, str_eq_iff,
  if◌then◌else◌,
}
use obvious.Webhook.Store.{
  Endpoint, Delivery, Tables, Platform, is_due, update_where, due_pending_deliveries, mark_failed,
  mark_delivered,
}
use obvious.Webhook.Worker.{
  Outcome, not_built, not_sent, answered, Trip, batch_size, fetch_endpoint, attempt_change, deliver,
  deliver_each, process_batch,
}

abbrev pub has : String → Delivery → Bool
has id d = str_eq d.id id

-- The row with an ID.
abbrev pub Only : String → Delivery → List Delivery → Type 0
Only id d ds = filter (has id) ds ≡ d ∷ []

-- ORDER BY gives the rows that it is given, each as often: what holds of all still does, and as
-- many pass a test.
pub record Sorts (p : Platform) : Type 1 where
  pub kept : (P : Delivery → Type 0) (ds : List Delivery) → All P ds → All P (p.by_next_retry ds)
  pub counted :
      (test : Delivery → Bool) (ds : List Delivery)
      → length (filter test (p.by_next_retry ds)) ≡ length (filter test ds)

module _ {ℓ} {A : Type ℓ} where
  filter_comm : (p q : A → Bool) (xs : List A) → filter p (filter q xs) ≡ filter q (filter p xs)
  filter_comm p q [] = refl
  filter_comm p q (x ∷ xs) = ground (arith, filter_comm p q xs)

  filter_all : (xs : List A) → filter (λ x. true) xs ≡ xs
  filter_all [] = refl
  filter_all (x ∷ xs) = ap (◌∷◌ x) (filter_all xs)

  take_all : (n : ℕ) (xs : List A) → length xs ≤ n → take n xs ≡ xs
  take_all zero [] h = refl
  take_all zero (x ∷ xs) h = absurd (omega arith)
  take_all (suc n) [] h = refl
  take_all (suc n) (x ∷ xs) h = ap (◌∷◌ x) (take_all n xs (omega arith))

  no_length : (xs : List A) → length xs ≡ 0 → xs ≡ []
  no_length [] h = refl
  no_length (x ∷ xs) h = absurd (omega arith)

module _ (p : Delivery → Bool) (d : Delivery) where
  all_same :
      (ds : List Delivery)
      → All (λ (e : Delivery). e ≡ d) (filter p ds)
      → All (λ (e : Delivery). p e ≡ true → e ≡ d) ds
  all_same [] h = tt
  all_same (e ∷ ds) h = elim (Bool-cases (p e)) [
    | inl holds ↦ let g = rw holds at h in ((λ t. g.0), all_same ds g.1)
    | inr fails ↦ ((λ t. cc), all_same ds (rw fails at h))
  ]

  same_all :
      (ds : List Delivery)
      → All (λ (e : Delivery). p e ≡ true → e ≡ d) ds
      → length (filter p ds) ≡ 1
      → filter p ds ≡ d ∷ []
  same_all [] h l = absurd (omega arith)
  same_all (e ∷ ds) h l = elim (Bool-cases (p e)) [
    | inl holds ↦
        let none_left : length (filter p ds) ≡ 0 = ground (arith, holds, l) in
        let rest = no_length (filter p ds) none_left in
        let equal = h.0 holds in rw (holds, rest, equal) refl
    | inr fails ↦ rw fails (same_all ds h.1 (rw fails at l))
  ]

module _ (p : Platform) (sorts : Sorts p) (id : String) where
  sorted-Only : (d : Delivery) (ds : List Delivery) → Only id d ds → Only id d (p.by_next_retry ds)
  sorted-Only d ds only =
      same_all (has id) d (p.by_next_retry ds)
        (sorts.kept (λ e. has id e ≡ true → e ≡ d) ds (all_same (has id) d ds (rw only (refl, tt))))
        (sorts.counted (has id) ds ∙ ap length only)

  sorted-none :
      (ds : List Delivery) → filter (has id) ds ≡ [] → filter (has id) (p.by_next_retry ds) ≡ []
  sorted-none ds none_there =
      no_length (filter (has id) (p.by_next_retry ds))
        (sorts.counted (has id) ds ∙ ap length none_there)

  length-sorted : (ds : List Delivery) → length (p.by_next_retry ds) ≡ length ds
  length-sorted ds =
      ap length (sym (filter_all (p.by_next_retry ds)))
      ∙ sorts.counted (λ d. true) ds
      ∙ ap length (filter_all ds)

  -- Where no more rows are due than a batch takes, the batch is all of them.
  batch-all :
      (now : ℕ) (t : Tables)
      → length (filter (is_due now) t.deliveries) ≤ batch_size
      → due_pending_deliveries p now batch_size t
        ≡ p.by_next_retry (filter (is_due now) t.deliveries)
  unfolding due_pending_deliveries
  batch-all now t few =
      let ds = filter (is_due now) t.deliveries in
      take_all batch_size (p.by_next_retry ds) (omega (arith, length-sorted ds, few))

  due-Only :
      (now : ℕ) (d : Delivery) (t : Tables)
      → Only id d t.deliveries
      → is_due now d ≡ true
      → Only id d (filter (is_due now) t.deliveries)
  due-Only now d t only due = filter_comm (has id) (is_due now) t.deliveries ∙ rw (only, due) refl

  due-none :
      (now : ℕ) (d : Delivery) (t : Tables)
      → Only id d t.deliveries
      → is_due now d ≡ false
      → filter (has id) (filter (is_due now) t.deliveries) ≡ []
  due-none now d t only early =
      filter_comm (has id) (is_due now) t.deliveries ∙ rw (only, early) refl

  attempt-id :
      (now : ℕ) (o : Outcome) (ep : Option Endpoint) (attempts : ℕ) (d : Delivery)
      → (attempt_change p now o ep attempts d).id ≡ d.id
  unfolding attempt_change mark_failed mark_delivered
  attempt-id now o none attempts d = ground arith
  attempt-id now (not_built x) (some ep) attempts d = ground arith
  attempt-id now (not_sent x) (some ep) attempts d = ground arith
  attempt-id now (answered code body) (some ep) attempts d = ground arith

  module _ (change : Delivery → Delivery) (keeps : (d : Delivery) → (change d).id ≡ d.id) where
    update-other :
        (other : String) (ds : List Delivery)
        → str_eq other id ≡ false
        → filter (has id) (update_where other change ds) ≡ filter (has id) ds
    unfolding update_where
    update-other other [] apart = refl
    update-other other (d ∷ ds) apart = elim (Bool-cases (str_eq d.id other)) [
      | inl same ↦
          let equal : d.id ≡ other = (str_eq_iff d.id other).0 same in
          let old : str_eq d.id id ≡ false = ap (λ s. str_eq s id) equal ∙ apart in
          let new : str_eq (change d).id id ≡ false = ap (λ s. str_eq s id) (keeps d) ∙ old in
          rw (same, new, old) (update-other other ds apart)
      | inr differ ↦
          rw differ (ap (λ l. if str_eq d.id id then d ∷ l else l) (update-other other ds apart))
    ]

    update-same :
        (ds : List Delivery)
        → filter (has id) (update_where id change ds) ≡ map change (filter (has id) ds)
    unfolding update_where
    update-same [] = refl
    update-same (d ∷ ds) = elim (Bool-cases (str_eq d.id id)) [
      | inl same ↦
          let new : str_eq (change d).id id ≡ true = ap (λ s. str_eq s id) (keeps d) ∙ same in
          rw (same, new) (ap (◌∷◌ (change d)) (update-same ds))
      | inr differ ↦ rw (differ, differ) (update-same ds)
    ]

  deliver-other :
      (now : ℕ) (trip : Trip) (e : Delivery) (t : Tables)
      → str_eq e.id id ≡ false
      → filter (has id) (deliver p now trip e t).deliveries ≡ filter (has id) t.deliveries
  unfolding deliver
  deliver-other now trip e t apart = elim (Bool-cases trip.write_fails) [
    | inl fails ↦ rw fails refl
    | inr writes ↦ rw writes (
        update-other _
          (attempt-id now trip.outcome (fetch_endpoint trip e.endpoint_id t) e.attempts) e.id
          t.deliveries apart)
  ]

  each-none :
      (now : ℕ) (trips : String → Trip) (ds : List Delivery) (t : Tables)
      → filter (has id) ds ≡ []
      → filter (has id) (deliver_each p now trips ds t).deliveries ≡ filter (has id) t.deliveries
  unfolding deliver_each
  each-none now trips [] t h = refl
  each-none now trips (e ∷ ds) t h = elim (Bool-cases (str_eq e.id id)) [
    | inl same ↦ absurd (ground (arith, same, h))
    | inr apart ↦
        each-none now trips ds (deliver p now (trips e.id) e t) (rw apart at h)
        ∙ deliver-other now (trips e.id) e t apart
  ]

  -- The row after an attempt, for some outcome of looking its endpoint up.
  abbrev pub Attempted : ℕ → Outcome → Delivery → List Delivery → Type 0
  Attempted now o d ds =
      (ep : Option Endpoint) × Only id (attempt_change p now o ep d.attempts d) ds

  deliver-own :
      (now : ℕ) (trip : Trip) (d : Delivery) (t : Tables)
      → d.id ≡ id
      → trip.write_fails ≡ false
      → Only id d t.deliveries
      → Attempted now trip.outcome d (deliver p now trip d t).deliveries
  unfolding deliver
  deliver-own now trip d t own writes only =
      let ep = fetch_endpoint trip d.endpoint_id t in
      let change = attempt_change p now trip.outcome ep d.attempts in
      (
        ep,
        rw writes (
            ap (λ k. filter (has id) (update_where k change t.deliveries)) own
            ∙ update-same change (attempt-id now trip.outcome ep d.attempts) t.deliveries
            ∙ ap (map change) only),
      )

  own-first :
      (now : ℕ) (trips : String → Trip) (d : Delivery) (ds : List Delivery) (t : Tables)
      → d.id ≡ id
      → (trips id).write_fails ≡ false
      → filter (has id) ds ≡ []
      → Only id d t.deliveries
      → Attempted now
          (trips id).outcome
          d
          (deliver_each p now trips ds (deliver p now (trips d.id) d t)).deliveries
  own-first now trips d ds t own writes rest only =
      let (ep, made) =
        subst (λ k. Attempted now (trips id).outcome d (deliver p now (trips k) d t).deliveries)
          (sym own) (deliver-own now (trips id) d t own writes only) in
      (ep, each-none now trips ds (deliver p now (trips d.id) d t) rest ∙ made)

  pub each-own :
      (now : ℕ) (trips : String → Trip) (d : Delivery) (ds : List Delivery) (t : Tables)
      → (trips id).write_fails ≡ false
      → Only id d ds
      → Only id d t.deliveries
      → Attempted now (trips id).outcome d (deliver_each p now trips ds t).deliveries
  unfolding deliver_each
  each-own now trips d [] t writes there only = cc
  each-own now trips d (e ∷ ds) t writes there only = elim (Bool-cases (str_eq e.id id)) [
    | inl same ↦
        let first_is : e ∷ filter (has id) ds ≡ d ∷ [] = rw same at there in
        let equal : e ≡ d = cc first_is in
        let rest : filter (has id) ds ≡ [] = cc first_is in
        let own : d.id ≡ id =
          ap (λ (x : Delivery). x.id) (sym equal) ∙ (str_eq_iff e.id id).0 same in
        subst
          (λ x.
            Attempted now (trips id).outcome d
              (deliver_each p now trips ds (deliver p now (trips x.id) x t)).deliveries)
          (sym equal) (own-first now trips d ds t own writes rest only)
    | inr apart ↦
        each-own now trips d ds (deliver p now (trips e.id) e t) writes (rw apart at there)
          (deliver-other now (trips e.id) e t apart ∙ only)
  ]

  -- A batch makes an attempt of the row when it is due, and else leaves it alone.
  pub batch-due :
      (now : ℕ) (trips : String → Trip) (d : Delivery) (t : Tables)
      → length (filter (is_due now) t.deliveries) ≤ batch_size
      → (trips id).write_fails ≡ false
      → Only id d t.deliveries
      → is_due now d ≡ true
      → Attempted now (trips id).outcome d (process_batch p now false trips t).deliveries
  unfolding process_batch
  batch-due now trips d t few writes only due = rw (batch-all now t few) (
      each-own now trips d (p.by_next_retry (filter (is_due now) t.deliveries)) t writes
        (sorted-Only d (filter (is_due now) t.deliveries) (due-Only now d t only due)) only)

  pub batch-early :
      (now : ℕ) (trips : String → Trip) (d : Delivery) (t : Tables)
      → length (filter (is_due now) t.deliveries) ≤ batch_size
      → Only id d t.deliveries
      → is_due now d ≡ false
      → Only id d (process_batch p now false trips t).deliveries
  unfolding process_batch
  batch-early now trips d t few only early = rw (batch-all now t few) (
      each-none now trips (p.by_next_retry (filter (is_due now) t.deliveries)) t
        (sorted-none (filter (is_due now) t.deliveries) (due-none now d t only early))
      ∙ only)
