-- ===== src/Tenant/Tests.antt =====
-- The guard at concrete requests.
use allidb.Tenant.{
  Context, Violation, returned, panicked, no_tenant, with_tenant, validate_tenant,
  validate_entity_tenant, must_require_tenant, default_tenant_guard,
}
use allidb.Tenant.Isolation.{refused, validate_entity_tenant_iff}
use allidb.Base.{codes, false, length, none, refl, some, ◌<◌, ◌↔◌, ◌≡◌, ◌⊎◌}

abbrev request : Context
request = some (codes "t")

validate_entity_tenant_iff_example :
    ((validate_entity_tenant default_tenant_guard request (codes "u") ≡ returned tt)
      ↔ ((request ≡ some (codes "u")) × (0 < length (codes "u"))))
    × ((validate_entity_tenant default_tenant_guard request (codes "u") ≡ returned tt)
        ⊎ ((v : Violation) × (validate_entity_tenant default_tenant_guard request (codes "u")
              ≡ refused default_tenant_guard v)))
    × (validate_tenant default_tenant_guard request (codes "u")
        ≡ validate_entity_tenant default_tenant_guard request (codes "u"))
validate_entity_tenant_iff_example =
    validate_entity_tenant_iff default_tenant_guard request (codes "u")

absent : must_require_tenant (record { fail_hard = false }) none ≡ panicked no_tenant
unfolding must_require_tenant
absent = refl

set : must_require_tenant default_tenant_guard (with_tenant (codes "t") none) ≡ returned (codes "t")
unfolding must_require_tenant with_tenant
set = refl
