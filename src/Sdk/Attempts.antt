-- ===== src/Sdk/Attempts.antt =====
-- What the loops of sdk/connector/retry/retry.go do: how often they call the function, what they
-- return, and that the recording loop is the other one with a record.
use obvious.Base.{
  ℕ, zero, suc, ◌+◌, ◌≤◌, ◌<◌, ◌≡◌, refl, sym, ap, ◌∙◌, inl, inr, true, false, Bool-cases, Option,
  none, some, arith, ◌==◌, if◌then◌else◌, ==_iff,
}
use obvious.Base.Int.{ℤ, pos, negsuc, lessb}
use obvious.Sdk.Retry.{
  Floats, Config, Error, is_permanent, Failure, cancelled_on, gave_up, exhausted, World,
  delay_for_attempt, waited, round, do_from,
}

-- A delay is never longer than the maximum.
pub delay_bounded :
    (f : Floats) (cfg : Config f) (random : f.Float) (attempt : ℕ)
    → lessb cfg.max_delay (delay_for_attempt f cfg random attempt) ≡ false
unfolding delay_for_attempt
delay_bounded f cfg random attempt = capped cfg.max_delay (f.to_duration _)
  where
    capped : (m d : ℤ) → lessb m (if lessb m d then m else d) ≡ false
    capped (pos m) (pos d) = ground arith
    capped (pos m) (negsuc d) = ground arith
    capped (negsuc m) (pos d) = ground arith
    capped (negsuc m) (negsuc d) = ground arith

module _ (f : Floats) (w : World f) (cfg : Config f) (max : ℕ) where
  -- What a run from attempt `n` may have been: `calls` calls of the function, then the result.
  pub record Run (n calls : ℕ) (result : Option Failure) : Type 0 where
    pub bounded : n + calls ≤ max + 1
    pub failed_before :
        (i : ℕ)
        → n ≤ i
        → i + 1 < n + calls
        → (e : Error) × (w.fn i ≡ some e) × (is_permanent e ≡ false)
    pub success : result ≡ none → (k : ℕ) × (n + calls ≡ k + 1) × (n ≤ k) × (w.fn k ≡ none)
    pub refusal :
        (e : Error)
        → result ≡ some (gave_up e)
        → (k : ℕ) × (n + calls ≡ k + 1) × (n ≤ k) × (w.fn k ≡ some e) × (is_permanent e ≡ true)
    pub exhaustion :
        (m : ℕ) (last : Option Error)
        → result ≡ some (exhausted m last)
        → (n + calls ≡ max + 1) × (m ≡ max)

  -- A run that ends before a call, or with its first.
  no_call : (n : ℕ) (e : Error) → n ≤ max → Run n 0 (some (cancelled_on n e))
  no_call n e h = record {
    bounded = omega arith;
    failed_before = λ i lo hi. absurd (omega arith);
    success = λ h. cc;
    refusal = λ e h. cc;
    exhaustion = λ m last h. cc;
  }

  module _ (n : ℕ) (e : Error) (h : n ≤ max) (called : w.fn n ≡ some e) (later : ℕ × Option Failure)
      (r : Run (n + 1) later.0 later.1) where
    failed_at :
        is_permanent e ≡ false
        → (i : ℕ) → n ≤ i
        → i + 1 < n + (later.0 + 1)
        → (e : Error) × (w.fn i ≡ some e) × (is_permanent e ≡ false)
    failed_at soft i lo hi = elim (Bool-cases (i == n)) [
      | inl same ↦ let at_n : i ≡ n = ground arith in (e, ap w.fn at_n ∙ called, soft)
      | inr other ↦ r.failed_before i (ground arith) (omega arith)
    ]

    waited-Run :
        is_permanent e ≡ false
        → (wait : Option Error) → let t = waited f w cfg max n wait later in Run n t.0 t.1
    unfolding waited
    waited-Run soft (some done) = record {
      bounded = omega arith;
      failed_before = λ i lo hi. absurd (omega arith);
      success = λ h. cc;
      refusal = λ e h. cc;
      exhaustion = λ m last h. cc;
    }
    waited-Run soft none = record {
      bounded = omega (arith, r.bounded);
      failed_before = failed_at soft;
      success =
          λ h. let (k, ends, lo, ok) = r.success h in (k, omega (arith, ends), omega arith, ok);
      refusal = λ e h.
          let (k, ends, lo, at_k, hard) = r.refusal e h in
          (k, omega (arith, ends), omega arith, at_k, hard);
      exhaustion =
          λ m last h. let (ends, same) = r.exhaustion m last h in (omega (arith, ends), same);
    }

  -- A round whose call is the last one.
  one_call :
      (n : ℕ) (called : Option Error) (result : Option Failure)
      → n ≤ max
      → w.fn n ≡ called
      → (result ≡ none → called ≡ none)
      → ((e : Error) → result ≡ some (gave_up e) → (called ≡ some e) × (is_permanent e ≡ true))
      → ((m : ℕ) (last : Option Error) → result ≡ some (exhausted m last) → (n ≡ max) × (m ≡ max))
      → Run n 1 result
  one_call n called result h at_n success refusal exhaustion = record {
    bounded = omega arith;
    failed_before = λ i lo hi. absurd (omega arith);
    success = λ r. (n, refl, omega arith, at_n ∙ success r);
    refusal = λ e r. let (at_e, hard) = refusal e r in (n, refl, omega arith, at_n ∙ at_e, hard);
    exhaustion = λ m last r. let (end, same) = exhaustion m last r in (omega (arith, end), same);
  }

  round-Run :
      (n : ℕ) (ctx called : Option Error) (later : ℕ × Option Failure)
      → n ≤ max
      → w.fn n ≡ called
      → Run (n + 1) later.0 later.1
      → let t = round f w cfg max n ctx called later in Run n t.0 t.1
  unfolding round
  round-Run n (some done) called later h at_n r = no_call n done h
  round-Run n none none later h at_n r =
      one_call n none none h at_n (λ _. refl) (λ e q. cc) (λ m last q. cc)
  round-Run n none (some e) later h at_n r = elim (Bool-cases (is_permanent e)) [
    | inl hard ↦ rw hard (
        one_call n (some e) (some (gave_up e)) h at_n (λ q. cc)
          (λ d q.
            let same : e ≡ d = ground arith in (ap some same, ap is_permanent (sym same) ∙ hard))
          (λ m last q. cc))
    | inr soft ↦ elim (Bool-cases (n == max)) [
      | inl last_one ↦
          rw (soft, last_one)
            (one_call n (some e) (some (exhausted max (some e))) h at_n (λ q. cc) (λ d q. cc)
              (λ m last q. ((==_iff n max).0 last_one, ground arith)))
      | inr more ↦ rw (soft, more) (waited-Run n e h at_n later r soft (w.waiting n))
    ]
  ]

  pub do_from-Run :
      (rest n : ℕ) (last : Option Error)
      → n + rest ≡ max + 1
      → let r = do_from f w cfg max rest n last in Run n r.0 r.1
  unfolding do_from
  do_from-Run zero n last e = record {
    bounded = omega arith;
    failed_before = λ i lo hi. absurd (omega arith);
    success = λ h. cc;
    refusal = λ e h. cc;
    exhaustion = λ m last h. (omega arith, ground arith);
  }
  do_from-Run (suc rest) n last e =
      round-Run n (w.before n) (w.fn n) (do_from f w cfg max rest (n + 1) (w.fn n)) (omega arith)
        refl (do_from-Run rest (n + 1) (w.fn n) (omega arith))
