-- ===== src/Sdk/Recording.antt =====
-- DoWithAttempts of sdk/connector/retry/retry.go against Do: the same calls and the same failure,
-- and the attempts that were made, in order.
use obvious.Base.{
  ℕ, zero, suc, ◌+◌, ◌≡◌, refl, ap, ◌∙◌, inl, inr, Bool, false, Bool-cases, Option, none, some,
  List, [], ◌∷◌, ◌++◌, arith, length, length-append, ◌==◌, ltb,
}
use obvious.Sdk.Retry.{
  Floats, Config, Error, is_permanent, Failure, Attempt, World, apply_defaults, attempts_of, waited,
  round, waited_recording, round_recording, recorded, do_from, do_recording_from, do_fn,
  do_with_attempts,
}
use obvious.Sdk.Attempts.{Run, do_from-Run}

module _ (f : Floats) (w : World f) where
  -- The attempts are numbered from `n` on, and hold what the function gave.
  abbrev pub Numbered : ℕ → List Attempt → Type 0
  Numbered n [] = Unit
  Numbered n (a ∷ log) = (a.number ≡ n) × (a.err ≡ w.fn n) × Numbered (n + 1) log

  Numbered-snoc :
      (n k : ℕ) (log : List Attempt) (a : Attempt)
      → Numbered n log
      → n + length log ≡ k
      → a.number ≡ k
      → a.err ≡ w.fn k
      → Numbered n (log ++ a ∷ [])
  Numbered-snoc n k [] a h e number err =
      let same : k ≡ n = omega arith in (number ∙ same, err ∙ ap w.fn same, tt)
  Numbered-snoc n k (b ∷ log) a h e number err =
      (h.0, h.1, Numbered-snoc (n + 1) k log a h.2 (omega arith) number err)

  module _ (cfg : Config f) (max : ℕ) where
    -- What a recording run adds to a plain one.
    abbrev Records : List Attempt → List Attempt × Option Failure → ℕ × Option Failure → Type 0
    Records acc u t = (u.1 ≡ t.1) × (length u.0 ≡ length acc + t.0) × Numbered 1 u.0

    module _ (n : ℕ) (acc : List Attempt) (numbered : Numbered 1 acc)
        (at_n : 1 + length acc ≡ n) where
      recorded-Numbered :
          (called : Option Error) (delayed : Bool)
          → called ≡ w.fn n
          → Numbered 1 (recorded f w cfg max n called delayed acc)
            × (length (recorded f w cfg max n called delayed acc) ≡ length acc + 1)
      unfolding recorded
      recorded-Numbered called delayed e =
          (Numbered-snoc 1 n acc _ numbered at_n refl e, length-append acc _)

      waited-Records :
          (wait : Option Error) (acc' : List Attempt) (later : ℕ × Option Failure)
          (more : List Attempt → List Attempt × Option Failure)
          → Numbered 1 acc' × (length acc' ≡ length acc + 1)
          → Records acc' (more acc') later
          → Records acc
              (waited_recording f w cfg max n wait acc' more)
              (waited f w cfg max n wait later)
      unfolding waited waited_recording
      waited-Records (some done) acc' later more (num, len) r = (refl, len, num)
      waited-Records none acc' later more (num, len) (same, total, num') =
          (same, omega (arith, len, total), num')

      round-Records :
          (ctx called : Option Error) (later : ℕ × Option Failure)
          (more : List Attempt → List Attempt × Option Failure)
          → called ≡ w.fn n
          → ((a : List Attempt) → Numbered 1 a → 1 + length a ≡ n + 1 → Records a (more a) later)
          → Records acc
              (round_recording f w cfg max n ctx called acc more)
              (round f w cfg max n ctx called later)
      unfolding round round_recording
      round-Records (some done) called later more e same = (refl, omega arith, numbered)
      round-Records none none later more e same =
          let (num, len) = recorded-Numbered none false e in (refl, len, num)
      round-Records none (some x) later more e same =
          let (num, len) = recorded-Numbered (some x) false e in
          let (num', len') = recorded-Numbered (some x) (ltb n max) e in
          elim (Bool-cases (is_permanent x)) [
            | inl hard ↦ rw hard (refl, len, num)
            | inr soft ↦ elim (Bool-cases (n == max)) [
              | inl last ↦ rw (soft, last) (refl, len, num)
              | inr more_left ↦
                  rw (soft, more_left)
                    (waited-Records (w.waiting n) _ later more (num', len')
                      (same _ num' (omega (arith, len', at_n))))
            ]
          ]

    do_from-Records :
        (rest n : ℕ) (last : Option Error) (acc : List Attempt)
        → Numbered 1 acc
        → 1 + length acc ≡ n
        → Records acc
            (do_recording_from f w cfg max rest n last acc)
            (do_from f w cfg max rest n last)
    unfolding do_from do_recording_from
    do_from-Records zero n last acc numbered at_n = (refl, omega arith, numbered)
    do_from-Records (suc rest) n last acc numbered at_n =
        round-Records n acc numbered at_n (w.before n) (w.fn n)
          (do_from f w cfg max rest (n + 1) (w.fn n))
          (do_recording_from f w cfg max rest (n + 1) (w.fn n)) refl
          (λ a num len. do_from-Records rest (n + 1) (w.fn n) a num len)

-- Do always returns. It calls the function at most as often as configured, and again only after a
-- failure that is not permanent; nil is returned only after a call that gave nil, a permanent
-- error only when the last call gave it, and exhaustion only when every attempt was used.
pub do_fn-Run :
    (f : Floats) (w : World f) (cfg : Config f)
    → let t = do_fn f w cfg in Run f w (apply_defaults f cfg) (attempts_of f cfg) 1 t.0 t.1
unfolding do_fn
do_fn-Run f w cfg =
    do_from-Run f w (apply_defaults f cfg) (attempts_of f cfg) (attempts_of f cfg) 1 none
      (omega arith)

-- DoWithAttempts fails as Do does and makes as many calls: it returns one attempt for each, the
-- attempts numbered from 1 on, each with what the function gave.
pub do_with_attempts_agrees :
    (f : Floats) (w : World f) (cfg : Config f)
    → let u = do_with_attempts f w cfg in
      (u.1 ≡ (do_fn f w cfg).1) × (length u.0 ≡ (do_fn f w cfg).0) × Numbered f w 1 u.0
unfolding do_fn do_with_attempts
do_with_attempts_agrees f w cfg =
    let (same, total, numbered) =
      do_from-Records f w (apply_defaults f cfg) (attempts_of f cfg) (attempts_of f cfg) 1 none []
        tt refl in
    (same, omega (arith, total), numbered)
