-- ===== src/Gateway/Tests.antt =====
-- The theorem on the limiter on sorted sets as lists of their entries, with two requests a minute.
use obvious.Base.{
  ℕ, ◌≤◌, ◌≡◌, refl, String, Bool, true, false, Bool-cases, inl, inr, not, ◌&&◌, ◌||◌, Option, none,
  some, List, [], ◌∷◌, if◌then◌else◌, ltb, str_eq, filter, map, arith,
}
use obvious.Base.Int.{ℤ, pos, lessb}
use obvious.Gateway.RateLimit.{
  SortedSet, SortedSetLaws, count, Claims, standard_tier, new_rate_limiter, RateLimiter, limit_for,
  tier_of, rate_limit,
}
use obvious.Gateway.Remembered.{cap}
use obvious.Gateway.Window.{Hit, in_window, run, window_limited}

abbrev Entries : Type 0
Entries = List (ℕ × String)

abbrev lower : ℕ → Option ℕ → ℕ
lower s none = s
lower s (some t) = if ltb s t then s else t

abbrev minimum : Entries → Option ℕ
minimum [] = none
minimum (e ∷ z) = some (lower e.0 (minimum z))

abbrev entries : SortedSet Entries
entries = record {
  empty = [];
  zremrangebyscore = λ b z. filter (λ e. lessb b (pos e.0)) z;
  zcard = λ z. count (λ s. true) (map (λ e. e.0) z);
  zadd = λ s m z. (s, m) ∷ filter (λ e. not (str_eq e.1 m)) z;
  lowest = minimum;
}

abbrev member_of : Entries → String → Bool
member_of [] m = false
member_of (e ∷ z) m = str_eq e.1 m || member_of z m

abbrev scores_of : Entries → List ℕ
scores_of z = map (λ e. e.0) z

removed :
    (b : ℤ) (z : Entries) (p : ℕ → Bool)
    → count p (scores_of (filter (λ e. lessb b (pos e.0)) z))
      ≡ count (λ s. lessb b (pos s) && p s) (scores_of z)
removed b [] p = refl
removed b (e ∷ z) p = elim (Bool-cases (lessb b (pos e.0))) [
  | inl stays ↦ rw stays (ground (arith, removed b z p))
  | inr leaves ↦ rw leaves (ground (arith, removed b z p))
]

unchanged :
    (m : String) (z : Entries) → member_of z m ≡ false → filter (λ e. not (str_eq e.1 m)) z ≡ z
unchanged m [] absent = refl
unchanged m (e ∷ z) absent = ground (arith, absent, unchanged m z)

abbrev laws : SortedSetLaws entries
laws = record {
  scores = scores_of;
  has = member_of;
  empty_law = refl;
  card_law = λ z. refl;
  remove_law = removed;
  add_law = λ s m z absent p. rw (unchanged m z absent) refl;
}

abbrev limiter : RateLimiter
limiter = new_rate_limiter (pos 2) (pos 10) (pos 20)

abbrev claims : Option Claims
claims = some (record { org_id = "acme"; org_tier = standard_tier })

abbrev hit : ℕ → String → Hit
hit now member = record { now = now; member = member; fails = false }

abbrev hits : List Hit
hits = hit 1000 "1000-1" ∷ hit 1000 "1000-2" ∷ hit 1001 "1001-3" ∷ hit 61000 "61000-4" ∷ []

window_limited_example :
    count
      (in_window 60000 61000)
      (run entries limiter claims hits (record { set = []; expires = none }) [])
    ≤ cap (limit_for limiter (tier_of claims))
unfolding rate_limit
window_limited_example =
    window_limited entries laws limiter claims hits
      (omega arith, (omega arith, (omega arith, (omega arith, tt))))
      (refl, (refl, (refl, (refl, tt)))) 61000

-- The third request is refused.
three_served :
    run entries limiter claims hits (record { set = []; expires = none }) []
    ≡ 61000 ∷ 1000 ∷ 1000 ∷ []
unfolding run rate_limit
three_served = refl
