-- ===== src/Rbac/Tests.antt =====
-- The laws of the matrix at single requests.
use obvious.Base.{◌≡◌, ◌↔◌, some, Exists}
use obvious.Rbac.{Persona, internal_auditor, write, finding, permissions, require_permission, next}
use obvious.Rbac.Laws.{Allows, require_permission_iff}

require_permission_iff_example :
    (require_permission finding write (some internal_auditor) ≡ next) ↔ (
      (p : Persona) × (some internal_auditor ≡ some p)
      × Exists (Allows finding write) (permissions p))
require_permission_iff_example = require_permission_iff finding write (some internal_auditor)
