-- ===== src/Tenant.antt =====
-- core/storage/guard.go and core/security/tenant/context.go: the tenant of a request, and the guard
-- that keeps tenants apart. A context is the value that core/security/auth stores in it, if any.
pub mod Isolation
mod Tests
use allidb.Base.{Bool, Bytes, Option, [], if◌then◌else◌, none, some, str_eq, true, ◌∷◌}

abbrev pub Context : Type 0
Context = Option Bytes

unfoldable pub with_tenant : Bytes → Context → Context
with_tenant id ctx = some id

-- An empty id counts as none.
unfoldable pub tenant_from_context : Context → Option Bytes
tenant_from_context none = none
tenant_from_context (some []) = none
tenant_from_context (some (c ∷ cs)) = some (c ∷ cs)

pub record TenantGuard : Type 0 where
  pub fail_hard : Bool

pub data Violation : Type 0 where
  no_tenant wrong_tenant : Violation

-- A Go function that returns, returns an error, or panics.
pub data Outcome (A : Type 0) : Type 0 where
  returned : A → Outcome A
  failed panicked : Violation → Outcome A

-- tenant.RequireTenant
unfoldable pub tenant_of : Context → Outcome Bytes
unfolding tenant_from_context
tenant_of ctx = elim (tenant_from_context ctx) [ none ↦ failed no_tenant | some id ↦ returned id ]

unfoldable pub violate : {A : Type 0} → TenantGuard → Violation → Outcome A
violate g v = if g.fail_hard then panicked v else failed v

unfoldable pub require_tenant : TenantGuard → Context → Outcome Bytes
unfolding tenant_of violate
require_tenant g ctx = elim (tenant_of ctx) [
  | returned id ↦ returned id
  | failed v ↦ violate g v
  | panicked v ↦ panicked v
]

unfoldable pub check_tenant : TenantGuard → Bytes → Outcome Bytes → Outcome (Unit {0})
unfolding violate
check_tenant g expected (returned id) =
    if str_eq id expected then returned tt else violate g wrong_tenant
check_tenant g expected (failed v) = failed v
check_tenant g expected (panicked v) = panicked v

unfoldable pub validate_tenant : TenantGuard → Context → Bytes → Outcome (Unit {0})
unfolding require_tenant check_tenant
validate_tenant g ctx expected = check_tenant g expected (require_tenant g ctx)

unfoldable pub validate_entity_tenant : TenantGuard → Context → Bytes → Outcome (Unit {0})
unfolding require_tenant check_tenant
validate_entity_tenant g ctx entity_tenant = check_tenant g entity_tenant (require_tenant g ctx)

unfoldable pub must_require_tenant : TenantGuard → Context → Outcome Bytes
unfolding require_tenant
must_require_tenant g ctx = elim (require_tenant g ctx) [
  | returned id ↦ returned id
  | failed v ↦ panicked v
  | panicked v ↦ panicked v
]

abbrev pub default_tenant_guard : TenantGuard
default_tenant_guard = record { fail_hard = true }
