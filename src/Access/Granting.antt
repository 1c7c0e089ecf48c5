-- ===== src/Access/Granting.antt =====
-- Which permissions let a request through AbacGuard's fallback.
use brsr_v.Prelude.{
  Somewhere, here, there, ℕ, ◌<◌, ◌≡◌, refl, sym, ap, subst, ◌∙◌, inl, inr, ◌↔◌, Bool, true, false,
  ◌&&◌, ◌||◌, Option, none, some, List, [], ◌∷◌, ◌++◌, Text, is_one_of, All, All-map, ltb→lt,
  lt→ltb, ==_iff, Bool-cases, arith,
}
use brsr_v.Access.{
  User, allowed, is_platform_admin, RoleAssignment, is_live, is_own, counts, permissions_of,
  looked_up, Cache, cached, Visit, refreshed, from_cache, resolve_user_permissions, covers, decide,
  rbac, by_policy, with_user, with_permissions, abac_guard,
}

-- An assignment of the user's that has not expired, to a role of the system or of the tenant that
-- lists the permission.
pub record IsGrant (user tenant now : ℕ) (p : Text) (a : RoleAssignment) : Type 0 where
  pub same_user : a.user ≡ user
  pub live : (t : ℕ) → a.expires_at ≡ some t → now < t
  pub own : (t : ℕ) → a.role_tenant ≡ some t → t ≡ tenant
  pub listed : is_one_of p a.permissions ≡ true

is_one_of-append :
    (p : Text) (xs ys : List Text) → is_one_of p (xs ++ ys) ≡ (is_one_of p xs || is_one_of p ys)
unfolding is_one_of
is_one_of-append p [] ys = refl
is_one_of-append p (x ∷ xs) ys = ground (arith, is_one_of-append p xs ys)

is_live_iff : (now : ℕ) (o : Option ℕ) → (is_live now o ≡ true) ↔ ((t : ℕ) → o ≡ some t → now < t)
is_live_iff now none = (λ h t e. cc, λ h. refl)
is_live_iff now (some t) =
    (λ h t' e. subst (λ t. now < t) (inj e) (ltb→lt now t h), λ h. lt→ltb now t (h t refl))
  where
    inj : {a b : ℕ} → some a ≡ some b → a ≡ b
    inj e = cc

is_own_iff :
    (tenant : ℕ) (o : Option ℕ) → (is_own tenant o ≡ true) ↔ ((t : ℕ) → o ≡ some t → t ≡ tenant)
is_own_iff tenant none = (λ h t e. cc, λ h. refl)
is_own_iff tenant (some t) =
    (λ h t' e. sym (inj e) ∙ (==_iff t tenant).0 h, λ h. (==_iff t tenant).1 (h t refl))
  where
    inj : {a b : ℕ} → some a ≡ some b → a ≡ b
    inj e = cc

counts-IsGrant :
    (user tenant now : ℕ) (p : Text) (a : RoleAssignment)
    → counts user tenant now a ≡ true
    → is_one_of p a.permissions ≡ true
    → IsGrant user tenant now p a
counts-IsGrant user tenant now p a h l =
    let (e, i, o) = conditions _ _ _ h in
    record {
      same_user = (==_iff a.user user).0 e;
      live = (is_live_iff now a.expires_at).0 i;
      own = (is_own_iff tenant a.role_tenant).0 o;
      listed = l;
    }
  where
    conditions : (a b c : Bool) → (a && b && c) ≡ true → (a ≡ true) × (b ≡ true) × (c ≡ true)
    conditions a b c h = (ground (arith, h), ground (arith, h), ground (arith, h))

IsGrant-counts :
    (user tenant now : ℕ) (p : Text) (a : RoleAssignment)
    → IsGrant user tenant now p a
    → counts user tenant now a ≡ true
IsGrant-counts user tenant now p a g =
    rw
      (
        (==_iff a.user user).1 g.same_user,
        (is_live_iff now a.expires_at).1 g.live,
        (is_own_iff tenant a.role_tenant).1 g.own,
      )
      refl

permissions_of-Somewhere :
    (user tenant now : ℕ) (p : Text) (rows : List RoleAssignment)
    → is_one_of p (permissions_of user tenant now rows) ≡ true
    → Somewhere (IsGrant user tenant now p) rows
unfolding permissions_of is_one_of
permissions_of-Somewhere user tenant now p [] h = cc
permissions_of-Somewhere user tenant now p (a ∷ as') h =
    elim (Bool-cases (counts user tenant now a)) [
      | inl e ↦ elim (Bool-cases (is_one_of p a.permissions)) [
        | inl l ↦ here a as' (counts-IsGrant user tenant now p a e l)
        | inr l ↦
            there a as' (permissions_of-Somewhere user tenant now p as' (rest a.permissions e l))
      ]
      | inr e ↦ there a as' (permissions_of-Somewhere user tenant now p as' (rw e at h))
    ]
  where
    rest :
        (xs : List Text)
        → counts user tenant now a ≡ true
        → is_one_of p a.permissions ≡ false
        → is_one_of p (permissions_of user tenant now as') ≡ true
    rest xs e l =
        ground
          (arith, is_one_of-append p a.permissions (permissions_of user tenant now as'), rw e at h)

Somewhere-permissions_of :
    (user tenant now : ℕ) (p : Text) (rows : List RoleAssignment)
    → Somewhere (IsGrant user tenant now p) rows
    → is_one_of p (permissions_of user tenant now rows) ≡ true
unfolding permissions_of
Somewhere-permissions_of user tenant now p rows (here a as' g) =
    rw
      (
        IsGrant-counts user tenant now p a g,
        is_one_of-append p a.permissions (permissions_of user tenant now as'),
        g.listed,
      )
      refl
Somewhere-permissions_of user tenant now p rows (there a as' s) =
    elim (Bool-cases (counts user tenant now a)) [
      | inl e ↦ rw e (
          is_one_of-append p a.permissions (permissions_of user tenant now as')
          ∙ right (is_one_of p a.permissions) _ (Somewhere-permissions_of user tenant now p as' s))
      | inr e ↦ rw e (Somewhere-permissions_of user tenant now p as' s)
    ]
  where
    right : (b c : Bool) → c ≡ true → (b || c) ≡ true
    right b c h = ground (arith, h)

-- The rows that the database gives, if it does, hold a grant of the permission.
pub IsGranted : Visit → User → Text → Type 0
IsGranted v u p =
    (rows : List RoleAssignment) × (v.assignments ≡ some rows)
    × Somewhere (IsGrant u.id u.tenant v.now p) rows

pub looked_up_iff :
    (v : Visit) (u : User) (p : Text)
    → (is_one_of p (looked_up u.id u.tenant v.now v.assignments) ≡ true) ↔ IsGranted v u p
unfolding IsGranted looked_up is_one_of
looked_up_iff v u p = by_rows v.assignments
  where
    inj : {a b : List RoleAssignment} → some a ≡ some b → a ≡ b
    inj e = cc

    by_rows :
        (o : Option (List RoleAssignment))
        → (is_one_of p (looked_up u.id u.tenant v.now o) ≡ true) ↔ (
            (rows : List RoleAssignment) × (o ≡ some rows)
            × Somewhere (IsGrant u.id u.tenant v.now p) rows)
    by_rows none = (λ h. cc, λ (rows, e, s). cc)
    by_rows (some rows) = (
      λ h. (rows, refl, permissions_of-Somewhere u.id u.tenant v.now p rows h),
      λ (rows', e, s).
          Somewhere-permissions_of u.id u.tenant v.now p rows
            (subst (λ r. Somewhere (IsGrant u.id u.tenant v.now p) r) (sym (inj e)) s),
    )

pub covers-All : (g ps : List Text) → (covers g ps ≡ true) ↔ All (λ p. is_one_of p g ≡ true) ps
unfolding covers
covers-All g [] = (λ h. tt, λ h. refl)
covers-All g (p ∷ ps) = (
  λ h. (left _ _ h, (covers-All g ps).0 (right _ _ h)),
  λ (l, r). both _ _ l ((covers-All g ps).1 r),
)
  where
    left : (a b : Bool) → (a && b) ≡ true → a ≡ true
    left a b h = ground (arith, h)

    right : (a b : Bool) → (a && b) ≡ true → b ≡ true
    right a b h = ground (arith, h)

    both : (a b : Bool) → a ≡ true → b ≡ true → (a && b) ≡ true
    both a b h k = ground (arith, h, k)

-- a request of a user for a route that declares permissions, with the policy agent not enabled
abbrev pub request : ℕ → ℕ → Option (List RoleAssignment) → Text → List Text → User → Visit
request now stored_at assignments p ps u = record {
  now = now;
  stored_at = stored_at;
  assignments = assignments;
  required = p ∷ ps;
  user = some u;
  policy = none;
}

pub decide_iff : (b : Bool) → (decide b ≡ allowed) ↔ (b ≡ true)
decide_iff true = (λ h. refl, λ h. refl)
decide_iff false = (λ h. cc, λ h. cc)

All-iff : (P Q : Text → Type 0) (ps : List Text) → ((p : Text) → P p ↔ Q p) → All P ps ↔ All Q ps
All-iff P Q ps f = (All-map ps (λ p. (f p).0), All-map ps (λ p. (f p).1))

-- the decision of the fallback
pub abac_guard_lem :
    (c : Cache) (now stored_at : ℕ) (assignments : Option (List RoleAssignment)) (p : Text)
    (ps : List Text) (u : User)
    → is_platform_admin u.roles ≡ false
    → let v = request now stored_at assignments p ps u in
      abac_guard c v ≡ (
        (resolve_user_permissions c u.id u.tenant v).0,
        decide (covers (resolve_user_permissions c u.id u.tenant v).1 (p ∷ ps)),
      )
unfolding abac_guard with_permissions with_user by_policy rbac
abac_guard_lem c now stored_at assignments p ps u h = rw h refl

resolved :
    (c : Cache) (v : Visit) (u : User)
    → cached u.id c ≡ none
    → (resolve_user_permissions c u.id u.tenant v).1 ≡ looked_up u.id u.tenant v.now v.assignments
unfolding resolve_user_permissions from_cache refreshed
resolved c v u k = rw k refl

-- With the policy agent not enabled, a user who is no PLATFORM_ADMIN and has no cached permissions is
-- let through a route that declares permissions if and only if the database gives the assignments
-- and each declared permission has one of the user's among them that has not expired, to a role of
-- the system or of the tenant. So nobody is let through where the query fails.
pub abac_guard_iff :
    (c : Cache) (now stored_at : ℕ) (assignments : Option (List RoleAssignment)) (p : Text)
    (ps : List Text) (u : User)
    → is_platform_admin u.roles ≡ false
    → cached u.id c ≡ none
    → let v = request now stored_at assignments p ps u in
      ((abac_guard c v).1 ≡ allowed) ↔ All (IsGranted v u) (p ∷ ps)
abac_guard_iff c now stored_at assignments p ps u h k =
    subst (λ d. (d ≡ allowed) ↔ All (IsGranted v u) (p ∷ ps))
      (sym (
        ap (λ r. r.1) (abac_guard_lem c now stored_at assignments p ps u h)
        ∙ ap (λ g. decide (covers g (p ∷ ps))) (resolved c v u k)))
      (compose (decide_iff (covers (looked_up u.id u.tenant now assignments) (p ∷ ps))) (
        compose (covers-All (looked_up u.id u.tenant now assignments) (p ∷ ps))
          (All-iff _ (IsGranted v u) (p ∷ ps) (λ q. looked_up_iff v u q))))
  where
    v : Visit
    v = request now stored_at assignments p ps u

    compose : {A B C : Type 0} → A ↔ B → B ↔ C → A ↔ C
    compose f g = (λ a. g.0 (f.0 a), λ c. f.1 (g.1 c))
