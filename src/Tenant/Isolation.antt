-- ===== src/Tenant/Isolation.antt =====
-- An entity passes the guard only with its own tenant.
use allidb.Tenant.{
  Context, TenantGuard, Violation, no_tenant, wrong_tenant, Outcome, returned, failed, panicked,
  validate_tenant, validate_entity_tenant,
}
use allidb.Base.{
  Bool-cases, Bytes, [], arith, if◌then◌else◌, inl, inr, length, none, refl, some, str_eq,
  str_eq_iff, ◌<◌, ◌↔◌, ◌∷◌, ◌≡◌, ◌⊎◌,
}

-- What the guard does on a violation.
abbrev pub refused : TenantGuard → Violation → Outcome (Unit {0})
refused g v = if g.fail_hard then panicked v else failed v

-- ValidateEntityTenant, of any request and entity: it returns exactly where the request's tenant is
-- the entity's and is not empty; without a tenant, or with another one, it panics where the guard
-- fails hard and returns an error where it does not; and ValidateTenant does the same.
pub validate_entity_tenant_iff :
    (g : TenantGuard) (ctx : Context) (entity_tenant : Bytes)
    → ((validate_entity_tenant g ctx entity_tenant ≡ returned tt)
        ↔ ((ctx ≡ some entity_tenant) × (0 < length entity_tenant)))
      × ((validate_entity_tenant g ctx entity_tenant ≡ returned tt)
          ⊎ ((v : Violation) × (validate_entity_tenant g ctx entity_tenant ≡ refused g v)))
      × (validate_tenant g ctx entity_tenant ≡ validate_entity_tenant g ctx entity_tenant)
unfolding validate_entity_tenant validate_tenant
validate_entity_tenant_iff g none entity_tenant =
    ((λ h. ground (arith, h), λ h. ground (arith, h)), inr (no_tenant, ground arith), refl)
validate_entity_tenant_iff g (some []) entity_tenant =
    ((λ h. ground (arith, h), λ h. ground (arith, h)), inr (no_tenant, ground arith), refl)
validate_entity_tenant_iff g (some (c ∷ cs)) entity_tenant = (
  (
    λ h. ground (arith, h, str_eq_iff (c ∷ cs) entity_tenant),
    λ h. ground (arith, h, str_eq_iff (c ∷ cs) entity_tenant),
  ),
  elim (Bool-cases (str_eq (c ∷ cs) entity_tenant)) [
    | inl e ↦ inl (rw e refl)
    | inr e ↦ inr (wrong_tenant, rw e refl)
  ],
  refl,
)
