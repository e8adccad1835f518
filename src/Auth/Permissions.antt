-- ===== src/Auth/Permissions.antt =====
-- backend/src/auth/permissions.js: the effective permissions of a request. The tables of the database
-- are lists of rows, a query filters them, and a query with `LIMIT 1` takes the first row. An id or a
-- role that is null or not there is the empty text, which no row has.
pub mod Roles
pub mod Catalog
pub mod Sources
pub mod Bounds
mod Tests
use daisy_workflow.Common.{
  or_text, ℕ, String, Bool, true, false, not, ◌&&◌, ◌||◌, Option, none, some, List, [], ◌∷◌, ◌++◌,
  ◌==◌, ltb, if◌then◌else◌, or_else, elem,
}
use daisy_workflow.Js.{Value, str, walk, split_dots}
use daisy_workflow.Auth.Permissions.Roles.{
  all_perms, builtin_role_perms, workspace_admin_extra_perms,
}

-- The rows, with the columns that the queries read.
pub record Membership : Type 0 where
  pub user : String
  pub scope : String
  pub role : String

pub record RoleGrant : Type 0 where
  pub user : String
  pub scope_type : String
  pub scope_id : String
  pub custom_role_id : Option String

-- `permissions` is a JSON column; what is no array counts as none.
pub record CustomRole : Type 0 where
  pub id : String
  pub permissions : Option (List String)

pub record JitGrant : Type 0 where
  pub user : String
  pub scope_type : String
  pub scope_id : String
  pub role : String
  pub revoked : Bool
  pub expires_at : ℕ

pub record ResourceGrant : Type 0 where
  pub resource_type : String
  pub resource_id : String
  pub principal_type : String
  pub principal_id : String
  pub permissions : Option (List String)

pub record Database : Type 0 where
  pub workspace_members : List Membership
  pub users : List Membership
  pub project_members : List Membership
  pub role_grants : List RoleGrant
  pub custom_roles : List CustomRole
  pub jit_grants : List JitGrant
  pub resource_grants : List ResourceGrant

pub record Principal : Type 0 where
  pub kind : String
  pub id : String
  pub workspace_id : String
  pub project_id : String
  pub role : String

-- The hints of a route.
pub record Hints : Type 0 where
  pub project_id : String
  pub resource_type : String
  pub resource_id : String

-- The role in the first row about the user and the scope.
unfoldable pub member_role : List Membership → String → String → Option String
member_role [] user scope = none
member_role (m ∷ ms) user scope =
    let later = member_role ms user scope in
    if m.user == user && m.scope == scope then some m.role else later

unfoldable pub workspace_role : Database → String → String → Option String
unfolding member_role
workspace_role db user workspace =
    let found =
      or_else (member_role db.workspace_members user workspace)
        (member_role db.users user workspace) in
    if user == "" || workspace == "" then none else found

abbrev no_project : String
no_project = "00000000-0000-0000-0000-000000000000"

-- The scope of a grant: the workspace, or the project.
unfoldable pub in_scope : String → String → String → String → Bool
in_scope workspace project scope_type scope_id =
    (scope_type == "workspace" && (scope_id == workspace && not (workspace == "")))
    || (scope_type == "project" && scope_id == or_text project no_project)

abbrev pub listed : Option (List String) → List String
listed none = []
listed (some ps) = ps

-- The custom roles that are granted, as `id = ANY(ids)` finds them.
unfoldable pub granted_ids : List RoleGrant → String → String → String → List String
unfolding in_scope
granted_ids [] user workspace project = []
granted_ids (g ∷ gs) user workspace project =
    let later = granted_ids gs user workspace project in
    if g.user == user && in_scope workspace project g.scope_type g.scope_id
    then elim (g.custom_role_id) [ none ↦ later | some id ↦ id ∷ later ]
    else later

unfoldable pub role_permissions : List CustomRole → List String → List String
unfolding elem
role_permissions [] ids = []
role_permissions (r ∷ rs) ids =
    let later = role_permissions rs ids in
    if elem r.id ids then listed r.permissions ++ later else later

unfoldable pub merge_custom_role_grants : Database → String → String → String → List String
unfolding granted_ids role_permissions
merge_custom_role_grants db user workspace project =
    role_permissions db.custom_roles (granted_ids db.role_grants user workspace project)

-- A row of the user's that is neither revoked nor over, in the workspace or the project.
unfoldable pub is_live : ℕ → String → String → String → JitGrant → Bool
unfolding in_scope
is_live now user workspace project g =
    g.user == user
    && (not g.revoked
        && (ltb now g.expires_at && in_scope workspace project g.scope_type g.scope_id))

unfoldable pub merge_jit_grants : List JitGrant → ℕ → String → String → String → List String
unfolding is_live builtin_role_perms
merge_jit_grants [] now user workspace project = []
merge_jit_grants (g ∷ gs) now user workspace project =
    let later = merge_jit_grants gs now user workspace project in
    if is_live now user workspace project g then builtin_role_perms g.role ++ later else later

abbrev pub is_about : String → String → Hints → ResourceGrant → Bool
is_about principal_type principal_id h g =
    g.resource_type == h.resource_type
    && (g.resource_id == h.resource_id
        && (g.principal_type == principal_type && g.principal_id == principal_id))

unfoldable pub matching_grants : List ResourceGrant → String → String → Hints → List String
matching_grants [] principal_type principal_id h = []
matching_grants (g ∷ gs) principal_type principal_id h =
    let later = matching_grants gs principal_type principal_id h in
    if is_about principal_type principal_id h g then listed g.permissions ++ later else later

unfoldable pub merge_resource_grants : Database → String → String → Hints → List String
unfolding matching_grants
merge_resource_grants db principal_type principal_id h =
    if h.resource_type == "" || h.resource_id == ""
    then []
    else matching_grants db.resource_grants principal_type principal_id h

abbrev pub is_admin : Option String → Bool
is_admin none = false
is_admin (some role) = role == "admin"

abbrev pub project_perms : Option String → List String
project_perms none = []
project_perms (some role) = builtin_role_perms role

-- A set is a list here: only membership is asked.
unfoldable pub resolve_effective_permissions : Database → ℕ → Option Principal → Hints → List String
unfolding workspace_role member_role merge_custom_role_grants merge_jit_grants merge_resource_grants
    builtin_role_perms workspace_admin_extra_perms
resolve_effective_permissions db now none h = []
resolve_effective_permissions db now (some p) h =
    let project = or_text h.project_id p.project_id in
    if p.kind == "service_account"
    then builtin_role_perms (or_text p.role "editor")
      ++ merge_resource_grants db "service_account" p.id h
    else if is_admin (workspace_role db p.id p.workspace_id)
    then all_perms ∷ (builtin_role_perms "admin" ++ workspace_admin_extra_perms)
    else (if project == "" then [] else project_perms (member_role db.project_members p.id project))
      ++ (merge_custom_role_grants db p.id p.workspace_id project
          ++ (merge_jit_grants db.jit_grants now p.id p.workspace_id project
              ++ merge_resource_grants db "user" p.id h))

unfoldable pub has_permission : Database → ℕ → Option Principal → String → Hints → Bool
unfolding resolve_effective_permissions elem
has_permission db now user permission h =
    let effective = resolve_effective_permissions db now user h in
    elem all_perms effective || elem permission effective

-- A request: its user, and the value that `pluck` reads.
pub record Request : Type 0 where
  pub user : Option Principal
  pub value : Value

-- The options of a route: a resource type, and the path to the resource's id.
pub record RouteOptions : Type 0 where
  pub resource_type : String
  pub resource_id_from : String

-- What the middleware does: the next handler with the permissions, or one of its two errors.
pub data Verdict : Type 0 where
  passed : List String → Verdict
  unauthorized : Verdict
  forbidden : String → Verdict

-- An id that is no text is in no row.
abbrev text_of : Value → String
text_of (str s) = s
text_of _ = ""

unfoldable pub pluck : Request → String → String
unfolding walk split_dots
pluck req path = if path == "" then "" else text_of (walk req.value (split_dots path))

unfoldable pub require_permission : Database → ℕ → String → RouteOptions → Request → Verdict
unfolding resolve_effective_permissions elem pluck
require_permission db now permission opts req = elim (req.user) [
  | none ↦ unauthorized
  | some p ↦
      let effective = resolve_effective_permissions db now (some p) (record {
        project_id = p.project_id;
        resource_type = opts.resource_type;
        resource_id = pluck req opts.resource_id_from;
      }) in
      if elem all_perms effective || elem permission effective
      then passed effective
      else forbidden permission
]
