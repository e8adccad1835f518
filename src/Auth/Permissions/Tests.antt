-- ===== src/Auth/Permissions/Tests.antt =====
-- A user with an elevation, and a service account.
use daisy_workflow.Common.{◌≡◌, refl, true, false, not, ◌||◌, some, [], ◌∷◌, elem, arith}
use daisy_workflow.Auth.Permissions.{JitGrant, Database, Principal, Hints, has_permission}
use daisy_workflow.Auth.Permissions.Roles.{builtin_role_perms}
use daisy_workflow.Auth.Permissions.Bounds.{
  builtin_role_perms-ordered, has_permission_mono, has_permission-without_gone,
}

abbrev no_hints : Hints
no_hints = record { project_id = ""; resource_type = ""; resource_id = "" }

abbrev user : Principal
user = record { kind = "user"; id = "u"; workspace_id = "w"; project_id = "p"; role = "" }

abbrev elevation : JitGrant
elevation = record {
  user = "u";
  scope_type = "workspace";
  scope_id = "w";
  role = "viewer";
  revoked = false;
  expires_at = 10;
}

abbrev db : Database
db = record {
  workspace_members = [];
  users = [];
  project_members = [];
  role_grants = [];
  custom_roles = [];
  jit_grants = elevation ∷ [];
  resource_grants = [];
}

has_permission_mono_example : has_permission db 3 (some user) "kb.read" no_hints ≡ true
unfolding has_permission
has_permission_mono_example = has_permission_mono db 3 9 user "kb.read" no_hints (omega arith) refl

-- At time 11 the elevation is over.
has_permission-without_gone_example :
    has_permission (record db { jit_grants = [] }) 11 (some user) "kb.read" no_hints
    ≡ has_permission db 11 (some user) "kb.read" no_hints
has_permission-without_gone_example = has_permission-without_gone db 11 user "kb.read" no_hints

builtin_role_perms-ordered_example :
    ((not (elem "kb.read" (builtin_role_perms "viewer"))
        || elem "kb.read" (builtin_role_perms "editor"))
      ≡ true)
    × ((not (elem "kb.read" (builtin_role_perms "editor"))
          || elem "kb.read" (builtin_role_perms "admin"))
        ≡ true)
builtin_role_perms-ordered_example = builtin_role_perms-ordered "kb.read"
