-- ===== src/Auth/Permissions/Roles.antt =====
-- The built-in roles and their permissions (backend/src/auth/permissions.js).
use daisy_workflow.Common.{String, List, [], ◌∷◌, ◌++◌, ◌==◌, if◌then◌else◌}

-- The wildcard.
abbrev pub all_perms : String
all_perms = "*"

unfoldable pub read_perms : List String
read_perms =
    "workflow.read" ∷ "trigger.read" ∷ "config.read" ∷ "agent.read" ∷ "execution.read"
    ∷ "memory.read" ∷ "plugin.list" ∷ "project.read" ∷ "project.member.read" ∷ "kb.read"
    ∷ "guardrails.read" ∷ "prompt.read" ∷ "eval.read" ∷ "route.read" ∷ []

unfoldable pub write_perms : List String
write_perms =
    "workflow.create" ∷ "workflow.update" ∷ "workflow.delete" ∷ "workflow.run" ∷ "trigger.create"
    ∷ "trigger.update" ∷ "trigger.delete" ∷ "trigger.fire" ∷ "config.create" ∷ "config.update"
    ∷ "config.delete" ∷ "agent.create" ∷ "agent.update" ∷ "agent.delete" ∷ "execution.cancel"
    ∷ "execution.resume" ∷ "execution.delete" ∷ "memory.write" ∷ "memory.delete" ∷ "plugin.invoke"
    ∷ "kb.write" ∷ "guardrails.write" ∷ "prompt.write" ∷ "eval.write" ∷ "route.write" ∷ []

-- What a project admin has on top of an editor.
unfoldable pub administration : List String
administration =
    "project.update" ∷ "project.delete" ∷ "project.member.write" ∷ "config.reveal_secret"
    ∷ "audit.read.project" ∷ "service_account.read" ∷ "service_account.create"
    ∷ "service_account.delete" ∷ "quota.read" ∷ "resource_grant.read" ∷ "resource_grant.write"
    ∷ "custom_role.grant" ∷ []

unfoldable pub admin_perms : List String
unfolding read_perms write_perms administration
admin_perms = read_perms ++ (write_perms ++ administration)

unfoldable pub viewer_perms : List String
viewer_perms =
    "workflow.read" ∷ "trigger.read" ∷ "execution.read" ∷ "agent.read" ∷ "memory.read"
    ∷ "plugin.list" ∷ "project.read" ∷ "kb.read" ∷ "guardrails.read" ∷ "prompt.read" ∷ "eval.read"
    ∷ "route.read" ∷ []

unfoldable pub workspace_admin_extra_perms : List String
workspace_admin_extra_perms =
    "workspace.read" ∷ "workspace.update" ∷ "project.create" ∷ "project.delete" ∷ "user.read"
    ∷ "user.write" ∷ "plugin.install" ∷ "plugin.uninstall" ∷ "audit.read.workspace" ∷ "quota.write"
    ∷ "config.share_workspace" ∷ "agent.share_workspace" ∷ "cross_project.grant" ∷ "jit.grant"
    ∷ "custom_role.read" ∷ "custom_role.create" ∷ "custom_role.update" ∷ "custom_role.delete"
    ∷ "prompt.share_workspace" ∷ "compliance.read" ∷ "compliance.write" ∷ "compliance.dataSubject"
    ∷ []

-- `BUILTIN_ROLE_PERMS[role] || []`
unfoldable pub builtin_role_perms : String → List String
unfolding read_perms write_perms admin_perms viewer_perms
builtin_role_perms role =
    if role == "admin"
    then admin_perms
    else if role == "editor"
    then read_perms ++ write_perms
    else if role == "viewer"
    then viewer_perms
    else []
