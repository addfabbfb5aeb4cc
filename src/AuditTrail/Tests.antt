-- ===== src/AuditTrail/Tests.antt =====
-- The theorems on the audit trail at two small hashings. `plain` digests a text to itself and
-- encodes the event type alone, so it separates event types; `constant` digests every
-- text to the same 64 characters.
use Prim.Native.String.{◌++◌ as concat, count}
use text.Mathlib.TextLemmas.{length-append}
use obvious.Base.{
  arith, ℕ, zero, suc, String, ◌+◌, ◌*◌, ◌/◌, ◌%◌, ◌≢◌, sym, ap, ◌∙◌, ◌≡◌, refl, ◌↔◌, ◌⊎◌, true,
  false, none, some, [], ◌∷◌, length,
}
use obvious.AuditTrail.Model.{user_action, AuditEvent, AppendRequest}
use obvious.AuditTrail.HashChain.{
  Hashing, CanonicalFields, genesis_hash, canonical_event, canonical_request, compute, verify,
}
use obvious.AuditTrail.Store.{Database, row_of, append, scan_event, all_events_for_org}
use obvious.AuditTrail.Handler.{valid_event_type, verify_events}
use obvious.AuditTrail.Walk.{Intact, FirstBroken, verify_events_reports}
use obvious.AuditTrail.Commitment.{Clashing, Clash, payloads, head_commits}
use obvious.AuditTrail.Stored.{returned_verifies, row_fails}
use obvious.AuditTrail.Race.{race, race_breaks_chain}

abbrev plain : Hashing
plain = record {
  digest = λ t. t;
  marshal = λ c. some c.event_type;
  uuid_text = λ n. "id";
  time_text = λ n. "time";
}

abbrev constant : Hashing
constant = record plain {
  digest = λ t. "0123456789abcdef0123456789abcdef0123456789abcdef0123456789abcdef";
}

abbrev database : Database
database = record {
  next_id = λ log. length log + 1;
  new_event_id = λ log. length log + 100;
  stored_time = λ t. t;
}

abbrev login : AppendRequest
login = record {
  org_id = 3;
  actor_id = some 21;
  actor_email = "lead@example.org";
  action = "login";
  event_type = user_action;
  resource_type = "session";
  resource_id = none;
  engagement_id = none;
  changes = none;
  context = none;
  ip_address = "";
  user_agent = "";
}

-- What an append of `login` to the empty log gives.
abbrev event : AuditEvent
event = (append database [] login "user_action" "" 5).1

verify_events_reports_example :
    ((verify_events plain (event ∷ [])).total_events ≡ 1)
    × (((verify_events plain (event ∷ [])).valid ≡ true) ↔ Intact plain genesis_hash (event ∷ []))
    × ((verify_events plain (event ∷ [])).valid ≡ false
        → (id : ℕ) × ((verify_events plain (event ∷ [])).tampered_at ≡ some id)
          × FirstBroken plain genesis_hash (event ∷ []) id)
verify_events_reports_example = verify_events_reports plain (event ∷ [])

-- Prints a time as that many strokes, and encodes the time alone.
unfoldable strokes : ℕ → String
strokes zero = ""
strokes (suc n) = concat "|" (strokes n)

strokes-count : (n : ℕ) → count (strokes n) ≡ n
unfolding strokes
strokes-count zero = refl
strokes-count (suc n) = ground (arith, length-append "|" (strokes n), strokes-count n)

abbrev timed : Hashing
timed = record plain { marshal = λ c. some c.occurred_at; time_text = strokes }

abbrev postgres : Database
postgres = record database { stored_time = λ t. t / 1000 * 1000 }

abbrev returned_event : AuditEvent
returned_event = (append postgres [] login (strokes 5) "" 5).1

returned_verifies_example :
    ((5 % 1000 ≡ 0) × (verify timed returned_event "" ≡ true))
    ⊎ ((5 % 1000 ≢ 0)
        × ((verify timed returned_event "" ≡ false)
            ⊎ Clashing timed ""
                (canonical_event timed returned_event)
                ""
                (canonical_request timed login 5)))
unfolding compute canonical_request strokes
returned_verifies_example =
    returned_verifies timed postgres [] login "" (strokes 5) 5 refl (λ a b t x y. cc)
      (λ t u e. sym (strokes-count t) ∙ ap count e ∙ strokes-count u) (λ t. refl)

plain-separates :
    (a b : CanonicalFields) (t : String)
    → plain.marshal a ≡ some t
    → plain.marshal b ≡ some t
    → a.event_type ≡ b.event_type
plain-separates a b t x y = cc

row_fails_example :
    (verify plain (scan_event (row_of database [] login "user_action" "" 5)) "" ≡ false)
    ⊎ Clashing plain ""
        (canonical_event plain (scan_event (row_of database [] login "user_action" "" 5)))
        ""
        (canonical_request plain login 5)
unfolding compute canonical_request valid_event_type
row_fails_example = row_fails plain database [] login "" "user_action" 5 refl plain-separates refl

constant_digest : (t : String) → count (constant.digest t) ≡ 64
constant_digest t = refl

-- The event that an append of `login` gives under `constant`.
abbrev sealed_event : AuditEvent
sealed_event = (append database [] login (constant.digest "") "" 5).1

head_commits_example :
    (payloads constant (sealed_event ∷ []) ≡ payloads constant (sealed_event ∷ []))
    ⊎ Clash constant genesis_hash (sealed_event ∷ []) genesis_hash (sealed_event ∷ [])
unfolding verify append canonical_event
head_commits_example =
    head_commits constant constant_digest (sealed_event ∷ []) (sealed_event ∷ []) refl (refl, tt)
      (refl, tt) refl

race_breaks_chain_example :
    (verify_events constant (all_events_for_org (race constant database 3 login login 5 6) 3)).valid
    ≡ false
unfolding compute
race_breaks_chain_example =
    race_breaks_chain constant database constant_digest 3 login login 5 6 refl refl refl refl
