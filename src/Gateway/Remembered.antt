-- ===== src/Gateway/Remembered.antt =====
-- What the set of a key in services/gateway/internal/middleware/ratelimit.go remembers of the times
-- at which requests were let through.
use obvious.Base.{
  ℕ, ◌+◌, ◌≤◌, ◌<◌, ◌≡◌, refl, ◌∙◌, String, Bool, true, false, Bool-cases, inl, inr, Option, none,
  some, List, [], ◌∷◌, ltb, leb, arith,
}
use obvious.Base.Int.{ℤ, pos, negsuc}
use obvious.Base.Int64.{subtract}
use obvious.Gateway.RateLimit.{
  SortedSet, SortedSetLaws, count, Key, kept, cleared, room, pending_expiry,
}

count-ext : (p q : ℕ → Bool) → ((x : ℕ) → p x ≡ q x) → (xs : List ℕ) → count p xs ≡ count q xs
count-ext p q same [] = refl
count-ext p q same (x ∷ xs) = ground (arith, same x, count-ext p q same xs)

pub count-le :
    (p q : ℕ → Bool) → ((x : ℕ) → p x ≡ true → q x ≡ true) → (xs : List ℕ) → count p xs ≤ count q xs
count-le p q less [] = omega arith
count-le p q less (x ∷ xs) = ground (arith, less x, count-le p q less xs)

-- Later than `window` before a time.
abbrev pub within : ℕ → ℕ → ℕ → Bool
within window t s = ltb t (s + window)

abbrev pub cap : ℤ → ℕ
cap (pos l) = l
cap (negsuc l) = 0

-- Of the times, with the newest first, each closes a window with no more than a limit.
abbrev pub Limited : ℕ → ℕ → List ℕ → Type 0
Limited window limit [] = Unit
Limited window limit (a ∷ log) =
    (count (within window a) (a ∷ log) ≤ limit) × Limited window limit log

module _ {Z : Type 0} (r : SortedSet Z) (l : SortedSetLaws r) (window : ℕ) where
  -- What a key remembers of the times at which it let requests through.
  pub record Remembers (last : ℕ) (key : Key Z) (log : List ℕ) : Type 0 where
    pub recent :
        (t : ℕ)
        → last ≤ t
        → count (within window t) log ≤ count (within window t) (l.scores key.set)
    pub gone : (at : ℕ) → key.expires ≡ some at → (t : ℕ) → at ≤ t → count (within window t) log ≡ 0
    pub past : (t : ℕ) → last + window ≤ t → count (within window t) log ≡ 0

  removed-within :
      (now t : ℕ) (z : Z)
      → now ≤ t
      → count (within window t) (l.scores (r.zremrangebyscore (subtract now window) z))
        ≡ count (within window t) (l.scores z)
  removed-within now t z later =
      l.remove_law (subtract now window) z (within window t)
      ∙ count-ext _ (within window t) (λ s. ground (arith, later)) (l.scores z)

  kept-recent :
      (now last t : ℕ) (key : Key Z) (log : List ℕ) (e : Option ℕ)
      → Remembers last key log
      → last ≤ now
      → now ≤ t
      → key.expires ≡ e
      → count (within window t) log ≤ count (within window t) (l.scores (kept r now key.set e))
  kept-recent now last t key log none m ordered later same =
      m.recent t (omega (arith, ordered, later))
  kept-recent now last t key log (some at) m ordered later same = elim (Bool-cases (leb at now)) [
    | inl lapsed ↦ rw lapsed (omega (arith, m.gone at same t (ground (arith, lapsed, later))))
    | inr alive ↦ rw alive (m.recent t (omega (arith, ordered, later)))
  ]

  cleared-recent :
      (now last t : ℕ) (key : Key Z) (log : List ℕ)
      → Remembers last key log
      → last ≤ now
      → now ≤ t
      → count (within window t) log ≤ count (within window t) (l.scores (cleared r now window key))
  cleared-recent now last t key log m ordered later =
      let clear = removed-within now t (kept r now key.set key.expires) later in
      let rest = kept-recent now last t key log key.expires m ordered later refl in
      omega (arith, clear, rest)

  cleared-count :
      (now last : ℕ) (key : Key Z) (log : List ℕ)
      → Remembers last key log
      → last ≤ now
      → count (within window now) log ≤ r.zcard (cleared r now window key)
  cleared-count now last key log m ordered =
      let some_of =
        count-le (within window now) (λ s. true) (λ x e. refl)
          (l.scores (cleared r now window key)) in
      omega (
        arith,
        cleared-recent now last now key log m ordered (omega arith),
        some_of,
        l.card_law (cleared r now window key),
      )

  room-some : (limit : ℤ) (n left : ℕ) → room r limit n ≡ some left → n < cap limit
  room-some (pos m) n left e = ground arith
  room-some (negsuc m) n left e = cc

  pub Remembers-later :
      (last now : ℕ) (key : Key Z) (log : List ℕ)
      → Remembers last key log
      → last ≤ now
      → Remembers now key log
  Remembers-later last now key log m ordered = record {
    recent = λ t later. m.recent t (omega (arith, ordered, later));
    gone = m.gone;
    past = λ t later. m.past t (omega (arith, ordered, later));
  }

  pending_expiry-some :
      (now : ℕ) (o : Option ℕ) {at : ℕ} → pending_expiry r now o ≡ some at → o ≡ some at
  pending_expiry-some now none e = e
  pending_expiry-some now (some at) e = ground (arith, e)

  module _ (now last : ℕ) (limit : ℤ) (member : String) (key : Key Z) (log : List ℕ)
      (m : Remembers last key log) (ordered : last ≤ now) where
    pub accepted-Remembers :
        l.has (cleared r now window key) member ≡ false
        → Remembers now
            (record {
              set = r.zadd now member (cleared r now window key);
              expires = some (now + window);
            })
            (now ∷ log)
    accepted-Remembers fresh = record {
      recent = λ t later.
          let added = l.add_law now member (cleared r now window key) fresh (within window t) in
          let old = cleared-recent now last t key log m ordered later in omega (arith, added, old);
      gone = λ at e t later.
          let same : now + window ≡ at = ground (arith, e) in
          let old = m.past t (omega (arith, ordered, later, same)) in
          ground (arith, old, later, same);
      past = λ t later.
          let old = m.past t (omega (arith, ordered, later)) in ground (arith, old, later);
    }

    pub refused-Remembers :
        Remembers now
          (record { set = cleared r now window key; expires = pending_expiry r now key.expires })
          log
    refused-Remembers = record {
      recent = λ t later. cleared-recent now last t key log m ordered later;
      gone = λ at e t later. m.gone at (pending_expiry-some now key.expires e) t later;
      past = λ t later. m.past t (omega (arith, ordered, later));
    }

    pub accepted-Limited :
        (left : ℕ)
        → room r limit (r.zcard (cleared r now window key)) ≡ some left
        → count (within window now) (now ∷ log) ≤ cap limit
    accepted-Limited left e =
        let less = room-some limit (r.zcard (cleared r now window key)) left e in
        let few = cleared-count now last key log m ordered in ground (arith, less, few)
