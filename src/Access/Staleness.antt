-- ===== src/Access/Staleness.antt =====
-- How old the permissions are that AbacGuard's cache lets a request through with.
use brsr_v.Prelude.{
  Somewhere, here, there, ℕ, ◌+◌, ◌<◌, ◌≤◌, ◌≡◌, refl, sym, ap, ◌∙◌, subst, inl, inr, Bool, true,
  false, Option, none, some, List, [], ◌∷◌, Text, is_one_of, All, All-map, ltb, ltb→lt, ◌==◌,
  ==_iff, Bool-cases, arith,
}
use brsr_v.Access.{
  User, allowed, is_platform_admin, RoleAssignment, looked_up, CachedPerms, Cache, cached,
  perms_cache_ttl, Visit, refreshed, from_cache, resolve_user_permissions, rbac, by_policy,
  with_user, with_permissions, abac_guard,
}
use brsr_v.Access.Granting.{
  IsGranted, looked_up_iff, covers-All, decide_iff, request, abac_guard_lem,
}

-- the cache after a sequence of requests, the last one first
pub data Reached : List Visit → Cache → Type 0 where
  start : Reached [] []
  next :
      (vs : List Visit) (c : Cache) (v : Visit) → Reached vs c → Reached (v ∷ vs) (abac_guard c v).0

-- the request whose lookup made an entry of the cache
record IsSource (user : ℕ) (e : CachedPerms) (w : Visit) : Type 0 where
  visitor : User
  by_visitor : w.user ≡ some visitor
  same_id : visitor.id ≡ user
  same_perms : e.perms ≡ looked_up visitor.id visitor.tenant w.now w.assignments
  same_expiry : e.expires_at ≡ w.stored_at + perms_cache_ttl

abbrev IsKept : List Visit → Cache → Type 0
IsKept vs c = All (λ x. Somewhere (IsSource x.0 x.1) vs) c

abbrev new_entry : Visit → User → ℕ × CachedPerms
new_entry v u = (
  u.id,
  record {
    perms = looked_up u.id u.tenant v.now v.assignments;
    expires_at = v.stored_at + perms_cache_ttl;
  },
)

-- A request leaves the cache, or puts the result of its own lookup before it.
data Cached (c : Cache) (v : Visit) : Cache → Type 0 where
  left : (d : Cache) → d ≡ c → Cached c v d
  stored : (d : Cache) (u : User) → v.user ≡ some u → d ≡ new_entry v u ∷ c → Cached c v d

from_cache-Cached :
    (c : Cache) (v : Visit) (u : User) (o : Option CachedPerms)
    → v.user ≡ some u
    → Cached c v (from_cache c u.id u.tenant v o).0
unfolding from_cache refreshed
from_cache-Cached c v u none e = stored _ u e refl
from_cache-Cached c v u (some entry) e = elim (Bool-cases (ltb v.now entry.expires_at)) [
  | inl h ↦ rw h (left c refl)
  | inr h ↦ rw h (stored _ u e refl)
]

abac_guard-Cached : (c : Cache) (v : Visit) → Cached c v (abac_guard c v).0
unfolding abac_guard with_permissions with_user by_policy rbac resolve_user_permissions
abac_guard-Cached c v = by_permissions v.required
  where
    by_answer : (u : User) (o : Option Bool) → v.user ≡ some u → Cached c v (by_policy c v u o).0
    by_answer u (some allow) e = left c refl
    by_answer u none e = elim (Bool-cases (is_platform_admin u.roles)) [
      | inl h ↦ rw h (left c refl)
      | inr h ↦ rw h (from_cache-Cached c v u (cached u.id c) e)
    ]

    by_user : (o : Option User) → v.user ≡ o → Cached c v (with_user c v o).0
    by_user none e = left c refl
    by_user (some u) e = by_answer u v.policy e

    by_permissions : (ps : List Text) → Cached c v (with_permissions c v ps).0
    by_permissions [] = left c refl
    by_permissions (p ∷ ps) = by_user v.user refl

Cached-IsKept :
    (vs : List Visit) (c d : Cache) (v : Visit) → Cached c v d → IsKept vs c → IsKept (v ∷ vs) d
Cached-IsKept vs c d v (left _ e) k =
    subst (IsKept (v ∷ vs)) (sym e) (All-map c (λ x s. there v vs s) k)
Cached-IsKept vs c d v (stored _ u e f) k = subst (IsKept (v ∷ vs)) (sym f) (
  here v vs (record {
    visitor = u;
    by_visitor = e;
    same_id = refl;
    same_perms = refl;
    same_expiry = refl;
  }),
  All-map c (λ x s. there v vs s) k,
)

Reached-IsKept : (vs : List Visit) (c : Cache) → Reached vs c → IsKept vs c
Reached-IsKept vs c start = tt
Reached-IsKept vs c (next ws d v r) =
    Cached-IsKept ws d (abac_guard d v).0 v (abac_guard-Cached d v) (Reached-IsKept ws d r)

cached-IsSource :
    (user : ℕ) (e : CachedPerms) (vs : List Visit) (c : Cache)
    → IsKept vs c
    → cached user c ≡ some e
    → Somewhere (IsSource user e) vs
unfolding cached
cached-IsSource user e vs [] k h = cc
cached-IsSource user e vs ((u, d) ∷ c) (k, ks) h = elim (Bool-cases (u == user)) [
  | inl q ↦
      subst (λ e. Somewhere (IsSource user e) vs) (inj (rw q at h))
        (subst (λ i. Somewhere (IsSource i d) vs) ((==_iff u user).0 q) k)
  | inr q ↦ cached-IsSource user e vs c ks (rw q at h)
]
  where
    inj : some d ≡ some e → d ≡ e
    inj f = cc

Somewhere-map :
    (P Q : Visit → Type 0) (vs : List Visit)
    → ((w : Visit) → P w → Q w)
    → Somewhere P vs
    → Somewhere Q vs
Somewhere-map P Q vs f (here w ws p) = here w ws (f w p)
Somewhere-map P Q vs f (there w ws s) = there w ws (Somewhere-map P Q ws f s)

-- A request of the same user whose lookup gave the permissions, and whose result may be used for less
-- than a minute more.
record IsLookup (now user : ℕ) (perms : List Text) (w : Visit) : Type 0 where
  visitor : User
  by_visitor : w.user ≡ some visitor
  same_id : visitor.id ≡ user
  same_perms : perms ≡ looked_up visitor.id visitor.tenant w.now w.assignments
  recent : now < w.stored_at + perms_cache_ttl

own-IsLookup :
    (v : Visit) (u : User)
    → v.user ≡ some u
    → v.now ≤ v.stored_at
    → IsLookup v.now u.id (looked_up u.id u.tenant v.now v.assignments) v
own-IsLookup v u e h = record {
  visitor = u;
  by_visitor = e;
  same_id = refl;
  same_perms = refl;
  recent = omega arith;
}

from_cache-IsLookup :
    (vs : List Visit) (c : Cache) (v : Visit) (u : User) (o : Option CachedPerms)
    → IsKept vs c
    → cached u.id c ≡ o
    → v.user ≡ some u
    → v.now ≤ v.stored_at
    → Somewhere (IsLookup v.now u.id (from_cache c u.id u.tenant v o).1) (v ∷ vs)
unfolding from_cache refreshed
from_cache-IsLookup vs c v u none k h e le = here v vs (own-IsLookup v u e le)
from_cache-IsLookup vs c v u (some entry) k h e le =
    elim (Bool-cases (ltb v.now entry.expires_at)) [
      | inr x ↦ rw x (here v vs (own-IsLookup v u e le))
      | inl x ↦ rw x (
          there v vs (
            Somewhere-map (IsSource u.id entry) (IsLookup v.now u.id entry.perms) vs
              (λ w s. record {
                visitor = s.visitor;
                by_visitor = s.by_visitor;
                same_id = s.same_id;
                same_perms = s.same_perms;
                recent = omega (arith, s.same_expiry, ltb→lt v.now entry.expires_at x);
              })
              (cached-IsSource u.id entry vs c k h)))
    ]

-- A request of the same user, less than a minute before the given time or later, whose own lookup
-- found each of the permissions granted. The token of that request may name another tenant.
pub record IsBasis (now user : ℕ) (ps : List Text) (w : Visit) : Type 0 where
  pub visitor : User
  pub by_visitor : w.user ≡ some visitor
  pub same_id : visitor.id ≡ user
  pub recent : now < w.stored_at + perms_cache_ttl
  pub granted : All (IsGranted w visitor) ps

-- After any requests, with the policy agent not enabled, a user who is no PLATFORM_ADMIN is let
-- through a route that declares permissions only where all of them were granted to a user with that
-- id at this request or at one whose lookup was done less than a minute before.
pub abac_guard-IsBasis :
    (vs : List Visit) (c : Cache) (now stored_at : ℕ) (assignments : Option (List RoleAssignment))
    (p : Text) (ps : List Text) (u : User)
    → Reached vs c
    → now ≤ stored_at
    → is_platform_admin u.roles ≡ false
    → (abac_guard c (request now stored_at assignments p ps u)).1 ≡ allowed
    → Somewhere (IsBasis now u.id (p ∷ ps)) (request now stored_at assignments p ps u ∷ vs)
unfolding resolve_user_permissions
abac_guard-IsBasis vs c now stored_at assignments p ps u r le h ok =
    Somewhere-map (IsLookup now u.id perms) (IsBasis now u.id (p ∷ ps)) (v ∷ vs)
      (λ w l. record {
        visitor = l.visitor;
        by_visitor = l.by_visitor;
        same_id = l.same_id;
        recent = l.recent;
        granted =
            All-map (p ∷ ps)
              (λ q g.
                (looked_up_iff w l.visitor q).0 (subst (λ g. is_one_of q g ≡ true) l.same_perms g))
              covered;
      })
      (from_cache-IsLookup vs c v u (cached u.id c) (Reached-IsKept vs c r) refl refl le)
  where
    v : Visit
    v = request now stored_at assignments p ps u

    perms : List Text
    perms = (resolve_user_permissions c u.id u.tenant v).1

    covered : All (λ q. is_one_of q perms ≡ true) (p ∷ ps)
    covered = (covers-All perms (p ∷ ps)).0 (
        (decide_iff _).0
          (sym (ap (λ r. r.1) (abac_guard_lem c now stored_at assignments p ps u h)) ∙ ok))
