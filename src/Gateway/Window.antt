-- ===== src/Gateway/Window.antt =====
-- How many requests services/gateway/internal/middleware/ratelimit.go lets through in a window.
use obvious.Base.{
  ℕ, ◌≤◌, ◌≡◌, refl, String, Bool, true, false, Bool-cases, inl, inr, ◌&&◌, Option, none, some,
  List, [], ◌∷◌, leb, arith,
}
use obvious.Base.Int.{ℤ}
use obvious.Gateway.RateLimit.{
  SortedSet, SortedSetLaws, count, Key, cleared, room, answered, pending_expiry, limiter_script,
  RateLimiter, Claims, limit_for, tier_of, Outcome, unlimited, served, limited, reported,
  rate_limit,
}
use obvious.Gateway.Remembered.{
  count-le, within, cap, Limited, Remembers, Remembers-later, accepted-Remembers, refused-Remembers,
  accepted-Limited,
}

-- A request to the key: when, the member that it would add, and whether Redis fails before the
-- script runs.
pub record Hit : Type 0 where
  pub now : ℕ
  pub member : String
  pub fails : Bool

-- The times are in order, from a time on.
abbrev pub Ordered : ℕ → List Hit → Type 0
Ordered last [] = Unit
Ordered last (h ∷ hs) = (last ≤ h.now) × Ordered h.now hs

-- A request that is served within the limit, and not past Redis, is noted.
abbrev pub noted : ℕ → Outcome → List ℕ → List ℕ
noted now unlimited log = log
noted now (served limit left reset) log = now ∷ log
noted now (limited limit left reset) log = log

module _ {Z : Type 0} (r : SortedSet Z) (rl : RateLimiter) (claims : Option Claims) where
  abbrev pub after : Hit → Key Z → Key Z × Outcome
  after h key = rate_limit r rl h.fails h.now h.member claims key

  -- The times at which requests were let through, with the newest first.
  unfoldable pub run : List Hit → Key Z → List ℕ → List ℕ
  run [] key log = log
  run (h ∷ hs) key log = run hs (after h key).0 (noted h.now (after h key).1 log)

  module _ (l : SortedSetLaws r) where
    -- The random numbers differ: no member that is added is in the set already.
    abbrev pub Fresh : List Hit → Key Z → Type 0
    Fresh [] key = Unit
    Fresh (h ∷ hs) key =
        (l.has (cleared r h.now rl.window key) h.member ≡ false) × Fresh hs (after h key).0

    abbrev Kept : ℕ → Key Z × Outcome → ℕ → List ℕ → Type 0
    Kept now w limit log =
        Remembers r l rl.window now w.0 (noted now w.1 log)
        × Limited rl.window limit (noted now w.1 log)

    answered-Kept :
        (now last : ℕ) (limit : ℤ) (member : String) (key : Key Z) (log : List ℕ) (o : Option ℕ)
        → Remembers r l rl.window last key log
        → last ≤ now
        → l.has (cleared r now rl.window key) member ≡ false
        → Limited rl.window (cap limit) log
        → room r limit (r.zcard (cleared r now rl.window key)) ≡ o
        → Kept now
            (reported limit (
              answered r now rl.window member
                (cleared r now rl.window key)
                (pending_expiry r now key.expires)
                o))
            (cap limit)
            log
    answered-Kept now last limit member key log (some left) m ordered fresh few e = (
      accepted-Remembers r l rl.window now last limit member key log m ordered fresh,
      (accepted-Limited r l rl.window now last limit member key log m ordered left e, few),
    )
    answered-Kept now last limit member key log none m ordered fresh few e =
        (refused-Remembers r l rl.window now last limit member key log m ordered, few)

    after-Kept :
        (last : ℕ) (now : ℕ) (member : String) (fails : Bool) (key : Key Z) (log : List ℕ)
        → Remembers r l rl.window last key log
        → last ≤ now
        → l.has (cleared r now rl.window key) member ≡ false
        → Limited rl.window (cap (limit_for rl (tier_of claims))) log
        → Kept now
            (rate_limit r rl fails now member claims key)
            (cap (limit_for rl (tier_of claims)))
            log
    unfolding rate_limit limiter_script
    after-Kept last now member true key log m ordered fresh few =
        (Remembers-later r l rl.window last now key log m ordered, few)
    after-Kept last now member false key log m ordered fresh few =
        answered-Kept now last (limit_for rl (tier_of claims)) member key log _ m ordered fresh few
          refl

    run-Limited :
        (hs : List Hit) (last : ℕ) (key : Key Z) (log : List ℕ)
        → Remembers r l rl.window last key log
        → Ordered last hs
        → Fresh hs key
        → Limited rl.window (cap (limit_for rl (tier_of claims))) log
        → Limited rl.window (cap (limit_for rl (tier_of claims))) (run hs key log)
    unfolding run
    run-Limited [] last key log m ordered fresh few = few
    run-Limited (h ∷ hs) last key log m ordered fresh few =
        let next = after-Kept last h.now h.member h.fails key log m ordered.0 fresh.0 few in
        run-Limited hs h.now (after h key).0 (noted h.now (after h key).1 log) next.0 ordered.1
          fresh.1 next.1

-- The times of a window that ends at a time.
abbrev pub in_window : ℕ → ℕ → ℕ → Bool
in_window window t s = leb s t && within window t s

Limited-window :
    (window limit t : ℕ) (log : List ℕ)
    → Limited window limit log
    → count (in_window window t) log ≤ limit
Limited-window window limit t [] few = omega arith
Limited-window window limit t (a ∷ log) few = elim (Bool-cases (leb a t)) [
  | inl closed ↦
      let within_first =
        count-le (in_window window t) (within window a) (λ s e. ground (arith, e, closed))
          (a ∷ log) in
      omega (arith, within_first, few.0)
  | inr open_ ↦ let rest = Limited-window window limit t log few.1 in ground (arith, open_, rest)
]

-- Of the requests to a key that start on an empty set, whose times do not go back and whose members
-- are new to the set, and whatever requests Redis fails on: in every window of the limiter's size,
-- whenever it ends, no more are served within the limit than the tier of the claims allows.
pub window_limited :
    {Z : Type 0} (r : SortedSet Z) (l : SortedSetLaws r) (rl : RateLimiter) (claims : Option Claims)
    (hs : List Hit)
    → Ordered 0 hs
    → Fresh r rl claims l hs (record { set = r.empty; expires = none })
    → (t : ℕ)
    → count
        (in_window rl.window t)
        (run r rl claims hs (record { set = r.empty; expires = none }) [])
      ≤ cap (limit_for rl (tier_of claims))
window_limited r l rl claims hs ordered fresh t = Limited-window rl.window _ t _ (
    run-Limited r rl claims l hs 0 (record { set = r.empty; expires = none }) []
      (record {
        recent = λ u later. omega arith;
        gone = λ at e u later. refl;
        past = λ u later. refl;
      })
      ordered fresh tt)
