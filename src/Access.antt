-- ===== src/Access.antt =====
-- The guards of requests (services/api/src/common/guards): roles.guard.ts, tenant-scope.guard.ts and
-- abac.guard.ts. The claims of a request's token and the permissions that a route declares are
-- arguments; Open Policy Agent is one by its answer.
pub mod Granting
pub mod Staleness
mod Tests
use brsr_v.Prelude.{
  ℕ, ◌+◌, Bool, true, false, not, ◌&&◌, ◌||◌, Option, none, some, List, [], ◌∷◌, ◌++◌, Text,
  is_one_of, codes, ltb, ◌==◌, if◌then◌else◌,
}

-- the user of a request, from its token
pub record User : Type 0 where
  pub id : ℕ
  pub tenant : ℕ
  pub roles : List Text

-- What a guard does: it lets the request through or throws a ForbiddenException.
pub data Decision : Type 0 where
  allowed forbidden : Decision

abbrev pub roles_of : Option User → List Text
roles_of none = []
roles_of (some u) = u.roles

-- `required.some((r) => userRoles.includes(r))`
unfoldable pub has_some_role : List Text → List Text → Bool
unfolding is_one_of
has_some_role [] roles = false
has_some_role (r ∷ rs) roles = is_one_of r roles || has_some_role rs roles

-- `RolesGuard.canActivate`
unfoldable pub roles_guard : List Text → Option User → Decision
unfolding has_some_role
roles_guard [] user = allowed
roles_guard (r ∷ rs) user = if has_some_role (r ∷ rs) (roles_of user) then allowed else forbidden

unfoldable pub is_platform_admin : List Text → Bool
unfolding is_one_of
is_platform_admin roles = is_one_of (codes "PLATFORM_ADMIN") roles

-- `TenantScopeGuard.canActivate`, of the parameter `tenantId` of the route
unfoldable pub tenant_scope_guard : Option ℕ → Option User → Decision
unfolding is_one_of
tenant_scope_guard none user = allowed
tenant_scope_guard (some tenant) none = forbidden
tenant_scope_guard (some tenant) (some u) =
    if tenant == u.tenant || is_platform_admin u.roles then allowed else forbidden

-- a role assignment with its role; a role without a tenant is the system's
pub record RoleAssignment : Type 0 where
  pub user : ℕ
  pub expires_at : Option ℕ
  pub role_tenant : Option ℕ
  pub permissions : List Text

abbrev pub is_live : ℕ → Option ℕ → Bool
is_live now none = true
is_live now (some t) = ltb now t

abbrev pub is_own : ℕ → Option ℕ → Bool
is_own tenant none = true
is_own tenant (some t) = t == tenant

-- the condition of `findMany`, and the test of the loop
abbrev pub counts : ℕ → ℕ → ℕ → RoleAssignment → Bool
counts user tenant now a = a.user == user && is_live now a.expires_at && is_own tenant a.role_tenant

-- the union of the permissions, from the rows of the table
unfoldable pub permissions_of : ℕ → ℕ → ℕ → List RoleAssignment → List Text
permissions_of user tenant now [] = []
permissions_of user tenant now (a ∷ as') =
    let rest = permissions_of user tenant now as' in
    if counts user tenant now a then a.permissions ++ rest else rest

-- no permissions where the database fails
unfoldable pub looked_up : ℕ → ℕ → ℕ → Option (List RoleAssignment) → List Text
unfolding permissions_of
looked_up user tenant now none = []
looked_up user tenant now (some rows) = permissions_of user tenant now rows

-- an entry of `permsCache`
pub record CachedPerms : Type 0 where
  pub perms : List Text
  pub expires_at : ℕ

abbrev pub Cache : Type 0
Cache = List (ℕ × CachedPerms)

unfoldable pub cached : ℕ → Cache → Option CachedPerms
cached user [] = none
cached user ((u, e) ∷ c) = let rest = cached user c in if u == user then some e else rest

abbrev pub perms_cache_ttl : ℕ
perms_cache_ttl = 60000

-- A request at the guard: when it comes, when a lookup for it is done, the table of assignments at
-- that time (`none` where the query fails), the declared permissions, the user, and the answer of
-- the policy agent, `none` where it is not enabled.
pub record Visit : Type 0 where
  pub now : ℕ
  pub stored_at : ℕ
  pub assignments : Option (List RoleAssignment)
  pub required : List Text
  pub user : Option User
  pub policy : Option Bool

-- the lookup, whose result is put before older entries of the same user
unfoldable pub refreshed : Cache → ℕ → ℕ → Visit → Cache × List Text
unfolding looked_up
refreshed c user tenant v =
    let perms = looked_up user tenant v.now v.assignments in
    ((user, record { perms = perms; expires_at = v.stored_at + perms_cache_ttl }) ∷ c, perms)

unfoldable pub from_cache : Cache → ℕ → ℕ → Visit → Option CachedPerms → Cache × List Text
unfolding looked_up
from_cache c user tenant v none = refreshed c user tenant v
from_cache c user tenant v (some e) =
    if ltb v.now e.expires_at then (c, e.perms) else refreshed c user tenant v

unfoldable pub resolve_user_permissions : Cache → ℕ → ℕ → Visit → Cache × List Text
unfolding from_cache cached
resolve_user_permissions c user tenant v = from_cache c user tenant v (cached user c)

-- whether nothing required is missing
unfoldable pub covers : List Text → List Text → Bool
unfolding is_one_of
covers granted [] = true
covers granted (p ∷ ps) = is_one_of p granted && covers granted ps

abbrev pub decide : Bool → Decision
decide b = if b then allowed else forbidden

-- the fallback, where the policy agent is not enabled
unfoldable pub rbac : Cache → Visit → User → Cache × Decision
unfolding resolve_user_permissions covers is_one_of
rbac c v u = if is_platform_admin u.roles then (c, allowed) else (
  (resolve_user_permissions c u.id u.tenant v).0,
  decide (covers (resolve_user_permissions c u.id u.tenant v).1 v.required),
)

unfoldable pub by_policy : Cache → Visit → User → Option Bool → Cache × Decision
unfolding rbac
by_policy c v u (some allow) = (c, decide allow)
by_policy c v u none = rbac c v u

unfoldable pub with_user : Cache → Visit → Option User → Cache × Decision
unfolding by_policy
with_user c v none = (c, forbidden)
with_user c v (some u) = by_policy c v u v.policy

unfoldable pub with_permissions : Cache → Visit → List Text → Cache × Decision
unfolding with_user
with_permissions c v [] = (c, allowed)
with_permissions c v (p ∷ ps) = with_user c v v.user

-- `AbacGuard.canActivate`
unfoldable pub abac_guard : Cache → Visit → Cache × Decision
unfolding with_permissions
abac_guard c v = with_permissions c v v.required
