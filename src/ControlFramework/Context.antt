-- ===== src/ControlFramework/Context.antt =====
-- The values of a request's context, as services/control-framework/internal/middleware/auth.go sets
-- them and internal/handlers/controls.go reads them. Each package declares a type `contextKey` of
-- its own, and Go takes keys of two types for different, whatever their texts.
use obvious.Base.{ℕ, String, Bool, false, Option, none, some, List, [], ◌∷◌, if◌then◌else◌, str_eq}

-- A value of middleware.contextKey or of handlers.contextKey.
pub data ContextKey : Type 0 where
  middleware_key handlers_key : String → ContextKey

abbrev pub eq_key : ContextKey → ContextKey → Bool
eq_key (middleware_key s) (middleware_key t) = str_eq s t
eq_key (handlers_key s) (handlers_key t) = str_eq s t
eq_key _ _ = false

-- The values that were set, with the last first; each is an organisation's ID.
abbrev pub Context : Type 0
Context = List (ContextKey × ℕ)

-- Value.
unfoldable pub value : Context → ContextKey → Option ℕ
value [] key = none
value ((k, v) ∷ ctx) key = let rest = value ctx key in if eq_key k key then some v else rest

abbrev pub middleware_org_id_key : ContextKey
middleware_org_id_key = middleware_key "org_id"

abbrev pub handlers_org_id_key : ContextKey
handlers_org_id_key = handlers_key "org_id"

-- The request goes on with a context, or is answered.
pub data Passed : Type 0 where
  onward : Context → Passed
  stopped : ℕ → String → Passed

-- What the code takes from Go's texts: HasPrefix and TrimPrefix for one prefix, and uuid.Parse.
pub record Parsing : Type 0 where
  pub without_bearer : String → Option String
  pub parse : String → Option ℕ

abbrev or_bearer : Option String → String
or_bearer none = ""
or_bearer (some token) = token

module _ (x : Parsing) where
  -- The header X-Org-Id, or the token of Authorization.
  unfoldable pub org_text : String → String → String
  org_text header bearer = if str_eq header "" then or_bearer (x.without_bearer bearer) else header

  abbrev pub with_org : Context → Option ℕ → Passed
  with_org ctx none = stopped 400 "invalid org_id format"
  with_org ctx (some org) = onward ((middleware_org_id_key, org) ∷ ctx)

  unfoldable pub dev_auth : String → String → Context → Passed
  unfolding org_text
  dev_auth header bearer ctx =
      if str_eq (org_text header bearer) ""
      then stopped 401 "missing X-Org-Id header"
      else with_org ctx (x.parse (org_text header bearer))

-- handlers.orgIDFromContext.
unfoldable pub org_id_from_context : Context → Option ℕ
unfolding value
org_id_from_context ctx = value ctx handlers_org_id_key
