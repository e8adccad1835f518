-- ===== src/Auth/Permissions/Catalog.antt =====
-- The catalogue of permissions that the custom-role picker shows.
use daisy_workflow.Common.{String, List, [], ◌∷◌}

pub record CatalogEntry : Type 0 where
  pub name : String
  pub group : String
  pub description : String

abbrev entry : String → String → String → CatalogEntry
entry n g d = record { name = n; group = g; description = d }

unfoldable pub permission_catalog : List CatalogEntry
permission_catalog =
    entry "workflow.read" "Workflows" "View workflow definitions and history"
    ∷ entry "workflow.create" "Workflows" "Create new workflows"
    ∷ entry "workflow.update" "Workflows" "Edit existing workflows"
    ∷ entry "workflow.delete" "Workflows" "Delete workflows"
    ∷ entry "workflow.run" "Workflows" "Run / execute workflows"
    ∷ entry "trigger.read" "Triggers" "View triggers"
    ∷ entry "trigger.create" "Triggers" "Create new triggers"
    ∷ entry "trigger.update" "Triggers" "Edit triggers"
    ∷ entry "trigger.delete" "Triggers" "Delete triggers"
    ∷ entry "trigger.fire" "Triggers" "Manually fire a trigger"
    ∷ entry "config.read" "Configs" "View credential metadata (not the secret values)"
    ∷ entry "config.create" "Configs" "Create credentials"
    ∷ entry "config.update" "Configs" "Edit credentials"
    ∷ entry "config.delete" "Configs" "Delete credentials"
    ∷ entry "config.reveal_secret" "Configs" "See decrypted secret values"
    ∷ entry "config.share_workspace" "Configs"
        "Promote a config to workspace-shared (workspace admin only)"
    ∷ entry "agent.read" "Agents" "View agents"
    ∷ entry "agent.create" "Agents" "Create agents"
    ∷ entry "agent.update" "Agents" "Edit agents"
    ∷ entry "agent.delete" "Agents" "Delete agents"
    ∷ entry "agent.share_workspace" "Agents"
        "Promote an agent to workspace-shared (workspace admin only)"
    ∷ entry "execution.read" "Executions" "View execution history + logs"
    ∷ entry "execution.cancel" "Executions" "Cancel a running execution"
    ∷ entry "execution.resume" "Executions" "Resume / skip / edit a failed execution"
    ∷ entry "execution.delete" "Executions" "Delete execution history rows"
    ∷ entry "memory.read" "Memory" "Read memory store entries"
    ∷ entry "memory.write" "Memory" "Set or append memory entries"
    ∷ entry "memory.delete" "Memory" "Clear memory entries"
    ∷ entry "plugin.list" "Plugins" "List installed plugins"
    ∷ entry "plugin.invoke" "Plugins" "Toggle plugin enablement in projects"
    ∷ entry "plugin.install" "Plugins" "Install a plugin at workspace level (workspace admin)"
    ∷ entry "plugin.uninstall" "Plugins" "Uninstall a plugin from the workspace (workspace admin)"
    ∷ entry "project.read" "Projects" "List visible projects"
    ∷ entry "project.update" "Projects" "Edit a project's name / metadata"
    ∷ entry "project.delete" "Projects" "Soft-delete a project"
    ∷ entry "project.create" "Projects" "Create new projects (workspace admin)"
    ∷ entry "project.member.read" "Projects" "List project members + their roles"
    ∷ entry "project.member.write" "Projects" "Add / remove / change role of project members"
    ∷ entry "service_account.read" "Service accounts" "List service accounts + their keys"
    ∷ entry "service_account.create" "Service accounts" "Create SAs and issue API keys"
    ∷ entry "service_account.delete" "Service accounts" "Disable SAs and revoke keys"
    ∷ entry "cross_project.grant" "Cross-project"
        "Grant `workflow.fire` from one project into another (workspace admin)"
    ∷ entry "jit.grant" "Just-in-time" "Issue time-bound role elevations (workspace admin)"
    ∷ entry "audit.read.project" "Audit" "Read audit log for your project"
    ∷ entry "audit.read.workspace" "Audit"
        "Read audit log for the whole workspace (workspace admin)"
    ∷ entry "quota.read" "Quotas" "View token / execution quotas + usage"
    ∷ entry "quota.write" "Quotas" "Set or change quotas (workspace admin)"
    ∷ entry "workspace.read" "Workspace" "Read workspace metadata"
    ∷ entry "workspace.update" "Workspace" "Rename the workspace (workspace admin)"
    ∷ entry "user.read" "Workspace" "List workspace members + roles (workspace admin)"
    ∷ entry "user.write" "Workspace" "Add / disable / change users' roles (workspace admin)"
    ∷ entry "custom_role.read" "RBAC" "View workspace's custom roles"
    ∷ entry "custom_role.create" "RBAC" "Define new custom roles (workspace admin)"
    ∷ entry "custom_role.update" "RBAC" "Edit custom roles (workspace admin)"
    ∷ entry "custom_role.delete" "RBAC" "Delete custom roles (workspace admin)"
    ∷ entry "custom_role.grant" "RBAC" "Assign a custom role to a user (workspace OR project admin)"
    ∷ entry "resource_grant.read" "RBAC"
        "See who has resource-level access to a specific workflow / config / agent"
    ∷ entry "resource_grant.write" "RBAC"
        "Share a specific workflow / config / agent with a user or service account"
    ∷ []
