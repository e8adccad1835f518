-- ===== src/Auth/Permissions/Sources.antt =====
-- Where a permission can come from.
use daisy_workflow.Common.{
  or_text, ℕ, String, ◌≡◌, refl, ap, ◌∙◌, inl, inr, Bool, false, not, ◌&&◌, ◌||◌, Option, none,
  some, List, [], ◌∷◌, ◌++◌, ◌==◌, if◌then◌else◌, Bool-cases, any, elem, elem-append, arith,
}
use daisy_workflow.Auth.Permissions.{
  RoleGrant, CustomRole, JitGrant, ResourceGrant, Database, Principal, Hints, member_role,
  workspace_role, in_scope, is_live, listed, granted_ids, role_permissions,
  merge_custom_role_grants, merge_jit_grants, is_about, matching_grants, merge_resource_grants,
  is_admin, project_perms, resolve_effective_permissions,
}
use daisy_workflow.Auth.Permissions.Roles.{
  all_perms, builtin_role_perms, workspace_admin_extra_perms,
}

-- A custom role that some grant of the user names, in the workspace or the project.
abbrev pub gives_role : String → String → String → String → RoleGrant → Bool
gives_role user workspace project id g =
    g.user == user
    && (in_scope workspace project g.scope_type g.scope_id
        && elim (g.custom_role_id) [ none ↦ false | some i ↦ i == id ])

abbrev pub by_custom_role : Database → String → String → String → String → Bool
by_custom_role db user workspace project perm =
    any
      (λ r.
        any (gives_role user workspace project r.id) db.role_grants
        && elem perm (listed r.permissions))
      db.custom_roles

-- An elevation that is neither revoked nor over.
abbrev pub by_elevation : List JitGrant → ℕ → String → String → String → String → Bool
by_elevation gs now user workspace project perm =
    any (λ g. is_live now user workspace project g && elem perm (builtin_role_perms g.role)) gs

abbrev pub by_resource : Database → String → String → Hints → String → Bool
by_resource db principal_type principal_id h perm =
    not (h.resource_type == "" || h.resource_id == "")
    && any (λ g. is_about principal_type principal_id h g && elem perm (listed g.permissions))
        db.resource_grants

granted_ids-elem :
    (gs : List RoleGrant) (user workspace project id : String)
    → elem id (granted_ids gs user workspace project)
      ≡ any (gives_role user workspace project id) gs
unfolding granted_ids elem
granted_ids-elem [] user workspace project id = refl
granted_ids-elem (g ∷ gs) user workspace project id =
    elim (Bool-cases (g.user == user && in_scope workspace project g.scope_type g.scope_id)) [
      | inl here ↦ ground (arith, granted_ids-elem gs user workspace project id)
      | inr away ↦ ground (arith, granted_ids-elem gs user workspace project id)
    ]

role_permissions-elem :
    (rs : List CustomRole) (ids : List String) (perm : String)
    → elem perm (role_permissions rs ids)
      ≡ any (λ r. elem r.id ids && elem perm (listed r.permissions)) rs
unfolding role_permissions elem
role_permissions-elem [] ids perm = refl
role_permissions-elem (r ∷ rs) ids perm = ground (
  arith,
  role_permissions-elem rs ids perm,
  elem-append perm (listed r.permissions) (role_permissions rs ids),
)

any-congr :
    {A : Type 0} (p q : A → Bool) (xs : List A) → ((x : A) → p x ≡ q x) → any p xs ≡ any q xs
any-congr p q [] h = refl
any-congr p q (x ∷ xs) h = ground (arith, h x, any-congr p q xs h)

custom_roles-elem :
    (db : Database) (user workspace project perm : String)
    → elem perm (merge_custom_role_grants db user workspace project)
      ≡ by_custom_role db user workspace project perm
unfolding merge_custom_role_grants
custom_roles-elem db user workspace project perm =
    role_permissions-elem db.custom_roles (granted_ids db.role_grants user workspace project) perm
    ∙ any-congr _ _ db.custom_roles (λ r.
      ap (λ b. b && elem perm (listed r.permissions))
        (granted_ids-elem db.role_grants user workspace project r.id))

merge_jit_grants-elem :
    (gs : List JitGrant) (now : ℕ) (user workspace project perm : String)
    → elem perm (merge_jit_grants gs now user workspace project)
      ≡ by_elevation gs now user workspace project perm
unfolding merge_jit_grants elem
merge_jit_grants-elem [] now user workspace project perm = refl
merge_jit_grants-elem (g ∷ gs) now user workspace project perm =
    elim (Bool-cases (is_live now user workspace project g)) [
      | inl live ↦
          rw (live, if◌then◌else◌)
            (elem-append perm (builtin_role_perms g.role)
                (merge_jit_grants gs now user workspace project)
              ∙ ap (λ b. elem perm (builtin_role_perms g.role) || b)
                  (merge_jit_grants-elem gs now user workspace project perm))
      | inr over ↦
          rw (over, if◌then◌else◌) (merge_jit_grants-elem gs now user workspace project perm)
    ]

matching_grants-elem :
    (gs : List ResourceGrant) (principal_type principal_id : String) (h : Hints) (perm : String)
    → elem perm (matching_grants gs principal_type principal_id h)
      ≡ any (λ g. is_about principal_type principal_id h g && elem perm (listed g.permissions)) gs
unfolding matching_grants elem
matching_grants-elem [] principal_type principal_id h perm = refl
matching_grants-elem (g ∷ gs) principal_type principal_id h perm = ground (
  arith,
  matching_grants-elem gs principal_type principal_id h perm,
  elem-append perm (listed g.permissions) (matching_grants gs principal_type principal_id h),
)

merge_resource_grants-elem :
    (db : Database) (principal_type principal_id : String) (h : Hints) (perm : String)
    → elem perm (merge_resource_grants db principal_type principal_id h)
      ≡ by_resource db principal_type principal_id h perm
unfolding merge_resource_grants elem
merge_resource_grants-elem db principal_type principal_id h perm =
    ground (arith, matching_grants-elem db.resource_grants principal_type principal_id h perm)

cons-append :
    (x : String) (xs ys : List String) (perm : String)
    → elem perm (x ∷ (xs ++ ys)) ≡ (x == perm || (elem perm xs || elem perm ys))
unfolding elem
cons-append x xs ys perm = ap (λ b. x == perm || b) (elem-append perm xs ys)

append-of_four :
    (ws xs ys zs : List String) (perm : String) {a b c d : Bool}
    → elem perm xs ≡ b
    → elem perm ys ≡ c
    → elem perm zs ≡ d
    → elem perm ws ≡ a
    → elem perm (ws ++ (xs ++ (ys ++ zs))) ≡ (a || (b || (c || d)))
append-of_four ws xs ys zs perm e f g h =
    elem-append perm ws (xs ++ (ys ++ zs))
    ∙ rw (h, elem-append perm xs (ys ++ zs), e, elem-append perm ys zs, f, g) refl

project_role-elem :
    (project : String) (role : Option String) (perm : String)
    → elem perm (if project == "" then [] else project_perms role)
      ≡ (not (project == "") && elem perm (project_perms role))
unfolding elem
project_role-elem project role perm = elim (Bool-cases (project == "")) [
  | inl absent ↦ rw (absent, if◌then◌else◌)
  | inr there ↦ rw (there, if◌then◌else◌)
]

-- All the sources of a permission, by the kind of the principal.
unfoldable pub is_granted : Database → ℕ → Principal → Hints → String → Bool
unfolding workspace_role member_role elem in_scope is_live builtin_role_perms
    workspace_admin_extra_perms
is_granted db now p h perm =
    let project = or_text h.project_id p.project_id in
    if p.kind == "service_account"
    then elem perm (builtin_role_perms (or_text p.role "editor"))
      || by_resource db "service_account" p.id h perm
    else if is_admin (workspace_role db p.id p.workspace_id)
    then all_perms == perm
      || (elem perm (builtin_role_perms "admin") || elem perm workspace_admin_extra_perms)
    else (not (project == "")
        && elem perm (project_perms (member_role db.project_members p.id project)))
      || (by_custom_role db p.id p.workspace_id project perm
          || (by_elevation db.jit_grants now p.id p.workspace_id project perm
              || by_resource db "user" p.id h perm))

-- A signed-in principal has the effective permission exactly if one of its sources gives it. For a
-- service account these are its role and the grants on the resource; for a workspace admin the
-- wildcard and the lists of a project and a workspace admin; for another user the role in the
-- project, the granted custom roles, the elevations that are not revoked and not over, and the
-- grants on the resource.
pub resolve_effective_permissions-elem :
    (db : Database) (now : ℕ) (p : Principal) (h : Hints) (perm : String)
    → elem perm (resolve_effective_permissions db now (some p) h) ≡ is_granted db now p h perm
unfolding resolve_effective_permissions is_granted
resolve_effective_permissions-elem db now p h perm =
    elim (Bool-cases (p.kind == "service_account")) [
      | inl service ↦
          rw (service, if◌then◌else◌)
            (elem-append perm (builtin_role_perms (or_text p.role "editor"))
                (merge_resource_grants db "service_account" p.id h)
              ∙ ap (λ b. elem perm (builtin_role_perms (or_text p.role "editor")) || b)
                  (merge_resource_grants-elem db "service_account" p.id h perm))
      | inr human ↦ elim (Bool-cases (is_admin (workspace_role db p.id p.workspace_id))) [
        | inl admin ↦
            rw (human, if◌then◌else◌, admin)
              (cons-append all_perms (builtin_role_perms "admin") workspace_admin_extra_perms perm)
        | inr other ↦
            rw (human, if◌then◌else◌, other)
              (append-of_four _ _ _ _ perm (custom_roles-elem db p.id p.workspace_id project perm)
                (merge_jit_grants-elem db.jit_grants now p.id p.workspace_id project perm)
                (merge_resource_grants-elem db "user" p.id h perm)
                (project_role-elem project (member_role db.project_members p.id project) perm))
      ]
    ]
  where
    project : String
    project = or_text h.project_id p.project_id
