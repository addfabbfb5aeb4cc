-- ===== src/Planning/Safe.antt =====
-- A request to services/planning/internal/handler/handler.go that is safe for a store: other
-- organisations read the same from it.
use obvious.Base.{ℕ, ◌≡◌, ◌≢◌, refl, String, Option, none, some}
use obvious.Planning.Annual
use obvious.Planning.Annual.{
  Result, ok, err, not_found, invalid_transition, duplicate_year, invalid, CreateAnnualPlanRequest,
  UpdateAnnualPlanRequest, AnnualPlan,
}
use obvious.Planning.Repository.{Repository, Lawful}
use obvious.Planning.Handler.{modify, make, Response, Body, Request, Change, org_text}
use obvious.Planning.Modify.{Keeping, modify-Good, modify-other, make-Good}

-- The request names an organisation.
abbrev pub Asked : (String → Option ℕ) → Option Request → ℕ → Type 0
Asked parse none org = ⊥
Asked parse (some req) org = parse (org_text req) ≡ some org

-- A store stays good, and other organisations than the request's read the same from it.
pub record Safe {S A : Type 0} (r : Repository S A) (l : Lawful r) (parse : String → Option ℕ)
    (req : Option Request) (s s' : S) : Type 0 where
  pub stays : l.Good s → l.Good s'
  pub unseen :
      l.Good s
      → (org other i : ℕ) → Asked parse req org
      → other ≢ org
      → r.read s' other i ≡ r.read s other i

module _ {S A : Type 0} (r : Repository S A) (l : Lawful r) (parse : String → Option ℕ) where
  pub same-Safe : (req : Option Request) (s : S) → Safe r l parse req s s
  same-Safe req s = record { stays = λ g. g; unseen = λ g org other i asked differ. refl }

  pub modify-Safe :
      (missing : String) (req : Request) (change : A → Change A) (s : S)
      → Keeping r change
      → Safe r l parse (some req) s (modify r parse missing req change s).0
  modify-Safe missing req change s k = record {
    stays = λ g. modify-Good r parse missing req change s l k g;
    unseen = λ g org other i asked differ.
        modify-other r parse missing req change s l k g org other i asked differ;
  }

  pub make-Safe :
      (refusal : Annual.Error → Response A) (s : S) {R : Type 0} (body : Body R)
      (new_row : R → Result A)
      → Safe r l parse none s (make r body new_row refusal s).0
  make-Safe refusal s body new_row = record {
    stays = λ g. make-Good r l refusal s g body new_row;
    unseen = λ g org other i asked differ. absurd asked;
  }
