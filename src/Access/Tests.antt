-- ===== src/Access/Tests.antt =====
-- The guards on a small table of role assignments.
use brsr_v.Prelude.{
  Somewhere, ◌≡◌, ◌↔◌, refl, false, none, some, [], ◌∷◌, text_eq, is_one_of, codes, All, arith,
}
use brsr_v.Access.{
  is_platform_admin, User, allowed, forbidden, RoleAssignment, Visit, cached, abac_guard,
  with_permissions, with_user, by_policy, rbac, resolve_user_permissions, from_cache, refreshed,
  looked_up, permissions_of, covers, tenant_scope_guard, roles_guard, has_some_role,
}
use brsr_v.Access.Granting.{IsGranted, request, abac_guard_iff}
use brsr_v.Access.Staleness.{start, next, IsBasis, abac_guard-IsBasis}

abbrev reader : User
reader = record { id = 7; tenant = 1; roles = codes "ANALYST" ∷ [] }

-- a role of the tenant's that lets the reader read until the time 500
abbrev reading : RoleAssignment
reading = record {
  user = 7;
  expires_at = some 500;
  role_tenant = some 1;
  permissions = codes "metrics:read" ∷ [];
}

-- a request before the role expires, and one after it when the database fails
abbrev early : Visit
early = request 100 101 (some (reading ∷ [])) (codes "metrics:read") [] reader

abbrev late : Visit
late = request 600 601 none (codes "metrics:read") [] reader

not_admin : is_platform_admin reader.roles ≡ false
unfolding is_platform_admin is_one_of text_eq
not_admin = refl

abac_guard_iff_example :
    ((abac_guard [] early).1 ≡ allowed) ↔ All (IsGranted early reader) (codes "metrics:read" ∷ [])
unfolding cached
abac_guard_iff_example =
    abac_guard_iff [] 100 101 (some (reading ∷ [])) (codes "metrics:read") [] reader not_admin refl

-- The cached permissions still let the late request through.
late_allowed : (abac_guard (abac_guard [] early).0 late).1 ≡ allowed
unfolding is_platform_admin abac_guard with_permissions with_user by_policy rbac
    resolve_user_permissions from_cache refreshed looked_up permissions_of cached covers is_one_of
    text_eq
late_allowed = refl

abac_guard-IsBasis_example :
    Somewhere (IsBasis 600 7 (codes "metrics:read" ∷ [])) (late ∷ early ∷ [])
abac_guard-IsBasis_example =
    abac_guard-IsBasis (early ∷ []) (abac_guard [] early).0 600 601 none (codes "metrics:read") []
      reader (next [] [] early start) (omega arith) not_admin late_allowed

-- With no cached permissions the same request is refused.
late_refused : (abac_guard [] late).1 ≡ forbidden
unfolding is_platform_admin abac_guard with_permissions with_user by_policy rbac
    resolve_user_permissions from_cache refreshed looked_up permissions_of cached covers is_one_of
    text_eq
late_refused = refl

other_guards :
    (roles_guard (codes "ADMIN" ∷ codes "ANALYST" ∷ []) (some reader) ≡ allowed)
    × (roles_guard (codes "ADMIN" ∷ []) (some reader) ≡ forbidden)
    × (tenant_scope_guard (some 2) (some reader) ≡ forbidden)
    × (tenant_scope_guard (some 1) (some reader) ≡ allowed)
unfolding is_platform_admin roles_guard tenant_scope_guard has_some_role is_one_of text_eq
other_guards = (refl, refl, refl, refl)
