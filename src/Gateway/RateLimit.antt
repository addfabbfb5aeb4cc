-- ===== src/Gateway/RateLimit.antt =====
-- services/gateway/internal/middleware/ratelimit.go on one key of Redis, whose sorted sets are an
-- interface; the clocks of the gateway and of Redis are one, in milliseconds.
use Prim.Native.String.{◌++◌ as concat}
use obvious.Base.{
  ℕ, ◌+◌, ◌-◌, ◌/◌, ◌≡◌, String, Bool, true, false, ◌&&◌, Option, none, some, List, [], ◌∷◌,
  if◌then◌else◌, ltb, leb, str_eq,
}
use obvious.Base.Int.{ℤ, pos, negsuc, lessb}
use obvious.Base.Int64.{subtract}

-- The commands on the sorted set of one key; the set of a key that is not there is empty.
pub record SortedSet (Z : Type 0) : Type 0 where
  pub empty : Z
  -- ZREMRANGEBYSCORE from -inf to a bound.
  pub zremrangebyscore : ℤ → Z → Z
  pub zcard : Z → ℕ
  -- ZADD of a member with a score.
  pub zadd : ℕ → String → Z → Z
  -- The score that ZRANGE 0 0 WITHSCORES gives.
  pub lowest : Z → Option ℕ

abbrev pub count : (ℕ → Bool) → List ℕ → ℕ
count p [] = 0
count p (x ∷ xs) = (if p x then 1 else 0) + count p xs

-- What Redis documents of the commands, of the scores alone: `has` says which members there are,
-- and adding one that is not there adds its score.
pub record SortedSetLaws {Z : Type 0} (r : SortedSet Z) : Type 0 where
  pub scores : Z → List ℕ
  pub has : Z → String → Bool
  pub empty_law : scores r.empty ≡ []
  pub card_law : (z : Z) → r.zcard z ≡ count (λ s. true) (scores z)
  pub remove_law :
      (b : ℤ) (z : Z) (p : ℕ → Bool)
      → count p (scores (r.zremrangebyscore b z)) ≡ count (λ s. lessb b (pos s) && p s) (scores z)
  pub add_law :
      (s : ℕ) (m : String) (z : Z)
      → has z m ≡ false
      → (p : ℕ → Bool) → count p (scores (r.zadd s m z)) ≡ count p (s ∷ scores z)

-- The key: its set, and the time at which it expires.
pub record Key (Z : Type 0) : Type 0 where
  pub set : Z
  pub expires : Option ℕ

pub record Reply : Type 0 where
  pub allowed : Bool
  pub remaining : ℕ
  pub reset_ms : ℕ

module _ {Z : Type 0} (r : SortedSet Z) where
  abbrev pub kept : ℕ → Z → Option ℕ → Z
  kept now z none = z
  kept now z (some at) = if leb at now then r.empty else z

  abbrev pub reset_of : ℕ → ℕ → Option ℕ → ℕ
  reset_of now window none = now + window
  reset_of now window (some oldest) = oldest + window

  -- The set after the removal of what the window has left.
  abbrev pub cleared : ℕ → ℕ → Key Z → Z
  cleared now window key = r.zremrangebyscore (subtract now window) (kept now key.set key.expires)

  abbrev pub room : ℤ → ℕ → Option ℕ
  room (pos limit) n = if ltb n limit then some (limit - n - 1) else none
  room (negsuc limit) n = none

  abbrev pub answered : ℕ → ℕ → String → Z → Option ℕ → Option ℕ → Key Z × Reply
  answered now window member z expires (some left) = (
    record { set = r.zadd now member z; expires = some (now + window) },
    record { allowed = true; remaining = left; reset_ms = now + window },
  )
  answered now window member z expires none = (
    record { set = z; expires = expires },
    record { allowed = false; remaining = 0; reset_ms = reset_of now window (r.lowest z) },
  )

  -- An expiry that has passed goes with its key.
  abbrev pub pending_expiry : ℕ → Option ℕ → Option ℕ
  pending_expiry now none = none
  pending_expiry now (some at) = if leb at now then none else some at

  -- limiterScript, with the member that it would add.
  unfoldable pub limiter_script : ℕ → ℕ → ℤ → String → Key Z → Key Z × Reply
  limiter_script now window limit member key =
      let z = cleared now window key in
      answered now window member z (pending_expiry now key.expires) (room limit (r.zcard z))

-- `other_tier` holds any other text, the empty one included.
pub data OrgTier : Type 0 where
  standard_tier enterprise_tier integration_tier : OrgTier
  other_tier : String → OrgTier

pub record RateLimiter : Type 0 where
  pub window : ℕ
  pub standard : ℤ
  pub enterprise : ℤ
  pub integration : ℤ

abbrev pub new_rate_limiter : ℤ → ℤ → ℤ → RateLimiter
new_rate_limiter standard enterprise integration = record {
  window = 60000;
  standard = standard;
  enterprise = enterprise;
  integration = integration;
}

unfoldable pub limit_for : RateLimiter → OrgTier → ℤ
limit_for rl enterprise_tier = rl.enterprise
limit_for rl integration_tier = rl.integration
limit_for rl standard_tier = rl.standard
limit_for rl (other_tier t) = rl.standard

pub record Claims : Type 0 where
  pub org_id : String
  pub org_tier : OrgTier

-- The key and the tier of a request, by its claims and its address.
unfoldable pub key_of : Option Claims → String → String
key_of none ip = concat "ratelimit:ip:" ip
key_of (some c) ip = concat "ratelimit:org:" c.org_id

abbrev or_standard : OrgTier → OrgTier
or_standard (other_tier t) = if str_eq t "" then standard_tier else other_tier t
or_standard t = t

unfoldable pub tier_of : Option Claims → OrgTier
tier_of none = standard_tier
tier_of (some c) = or_standard c.org_tier

-- The request goes to the next handler, with or without the three headers, or is answered 429.
pub data Outcome : Type 0 where
  unlimited : Outcome
  served limited : ℤ → ℕ → ℕ → Outcome

abbrev pub outcome_of : ℤ → Reply → Outcome
outcome_of limit reply =
    if reply.allowed
    then served limit reply.remaining (reply.reset_ms / 1000)
    else limited limit reply.remaining (reply.reset_ms / 1000)

abbrev pub reported : {Z : Type 0} → ℤ → Key Z × Reply → Key Z × Outcome
reported limit (key, reply) = (key, outcome_of limit reply)

-- RateLimit, on the key of the request.
unfoldable pub rate_limit :
    {Z : Type 0}
    → SortedSet Z
    → RateLimiter
    → Bool
    → ℕ
    → String
    → Option Claims
    → Key Z
    → Key Z × Outcome
unfolding limiter_script limit_for tier_of
rate_limit r rl true now member claims key = (key, unlimited)
rate_limit r rl false now member claims key =
    let limit = limit_for rl (tier_of claims) in
    reported limit (limiter_script r now rl.window limit member key)
