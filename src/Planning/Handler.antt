-- ===== src/Planning/Handler.antt =====
-- The steps that the handlers of services/planning/internal/handler/handler.go share: the
-- organisation and the ID of the request, reading a row, changing it and writing it back. A handler
-- takes a store to a new store and a response.
use Prim.Native.String.{◌++◌ as concat}
use obvious.Base.{ℕ, String, Option, none, some, List, str_eq, if◌then◌else◌}
use obvious.Planning.Annual.{
  Error, not_found, invalid_transition, duplicate_year, invalid, Result, ok, err,
}
use obvious.Planning.Repository.{Repository}

pub data Body (A : Type 0) : Type 0 where
  decoded : A → Body A
  malformed : String → Body A

-- The header X-Org-ID, the query parameter org_id, and the ID of the path.
pub record Request : Type 0 where
  pub header : String
  pub query : String
  pub id : String

pub data Response (A : Type 0) : Type 0 where
  failure : ℕ → String → String → Response A
  single : ℕ → A → Response A
  several : ℕ → List A → Response A

-- The texts of the sentinel errors, and of the others.
abbrev pub message : Error → String
message not_found = "record not found"
message invalid_transition = "invalid plan status transition"
message duplicate_year = "an annual plan for this year already exists"
message (invalid text) = text

abbrev pub org_text : Request → String
org_text r = if str_eq r.header "" then r.query else r.header

-- The answer to an error of a store, and to one of AnnualPlans.Create.
abbrev pub server_error : {A : Type 0} → Error → Response A
server_error e = failure 500 "INTERNAL_ERROR" (message e)

abbrev pub year_error : {A : Type 0} → Error → Response A
year_error duplicate_year = failure 409 "DUPLICATE_YEAR" (message duplicate_year)
year_error e = server_error e

-- What a handler makes of the row that it read: a refusal, or the row to write back.
pub data Change (A : Type 0) : Type 0 where
  refused : Response A → Change A
  changed : A → Change A

module _ {S A : Type 0} where
  abbrev pub with_org : (ℕ → S × Response A) → S → Option ℕ → S × Response A
  with_org next s none = (s, failure 400 "INVALID_REQUEST" "invalid org_id")
  with_org next s (some org) = next org

  abbrev pub with_id : (ℕ → S × Response A) → S → Option ℕ → S × Response A
  with_id next s none = (s, failure 400 "INVALID_REQUEST" (concat "invalid " "id"))
  with_id next s (some id) = next id

  abbrev pub found : String → (A → S × Response A) → S → Result A → S × Response A
  found missing next s (ok p) = next p
  found missing next s (err not_found) = (s, failure 404 "NOT_FOUND" missing)
  found missing next s (err e) = (s, server_error e)

  abbrev pub saved : A → S × Result (Unit {0}) → S × Response A
  saved p (s, ok _) = (s, single 200 p)
  saved p (s, err e) = (s, server_error e)

  abbrev pub stored : (Error → Response A) → A → S × Result (Unit {0}) → S × Response A
  stored refusal p (s, ok _) = (s, single 201 p)
  stored refusal p (s, err e) = (s, refusal e)

  -- `parse` is uuid.Parse.
  unfoldable pub require_org_id :
      (String → Option ℕ) → Request → (ℕ → S × Response A) → S → S × Response A
  require_org_id parse r next s =
      if str_eq (org_text r) ""
      then (s, failure 400 "INVALID_REQUEST" "X-Org-ID header or org_id query param required")
      else with_org next s (parse (org_text r))

  unfoldable pub parse_id :
      (String → Option ℕ) → Request → (ℕ → S × Response A) → S → S × Response A
  parse_id parse r next s = with_id next s (parse r.id)

module _ {S A : Type 0} (r : Repository S A) where
  abbrev pub settled : S → Change A → S × Response A
  settled s (refused answer) = (s, answer)
  settled s (changed p) = saved p (r.write s p)

  -- A handler that changes one row; `missing` is its answer when there is none.
  unfoldable pub modify :
      (String → Option ℕ) → String → Request → (A → Change A) → S → S × Response A
  unfolding require_org_id parse_id
  modify parse missing req change s =
      require_org_id parse req
        (λ org.
          parse_id parse req (λ id. found missing (λ p. settled s (change p)) s (r.read s org id))
            s)
        s

  -- A handler that shows one row.
  unfoldable pub show : (String → Option ℕ) → String → Request → S → S × Response A
  unfolding require_org_id parse_id
  show parse missing req s =
      require_org_id parse req
        (λ org.
          parse_id parse req (λ id. found missing (λ p. (s, single 200 p)) s (r.read s org id)) s)
        s

  -- A row that was made of the request, or an error.
  abbrev pub made : (Error → Response A) → S → Result A → S × Response A
  made refusal s (ok p) = stored refusal p (r.add s p)
  made refusal s (err e) = (s, failure 400 "INVALID_REQUEST" (message e))

  -- A handler that makes a row; its last argument but one answers an error of the store.
  unfoldable pub make :
      {R : Type 0} → Body R → (R → Result A) → (Error → Response A) → S → S × Response A
  make (malformed problem) new refusal s = (s, failure 400 "INVALID_REQUEST" problem)
  make (decoded req) new refusal s = made refusal s (new req)

module _ {A : Type 0} where
  -- A method of the row that may refuse.
  abbrev pub transition : A × Result (Unit {0}) → Change A
  transition (p, ok _) = changed p
  transition (p, err invalid_transition) =
      refused (failure 409 "INVALID_TRANSITION" (message invalid_transition))
  transition (p, err e) = refused (server_error e)

  -- An update of the decoded fields.
  abbrev pub patch : {R : Type 0} → Body R → (R → A → A) → A → Change A
  patch (malformed problem) apply p = refused (failure 400 "INVALID_REQUEST" problem)
  patch (decoded req) apply p = changed (apply req p)
