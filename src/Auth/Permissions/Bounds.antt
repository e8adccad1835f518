-- ===== src/Auth/Permissions/Bounds.antt =====
-- How far the permissions reach: the built-in roles are ordered, time takes permissions away, and
-- elevations that are gone mean nothing.
use daisy_workflow.Common.{
  any, or_text, ℕ, ◌≤◌, String, ◌≡◌, refl, sym, ap, keep, ◌∙◌, inl, inr, Bool, true, false, not,
  ◌&&◌, ◌||◌, some, List, [], ◌∷◌, ◌++◌, ◌==◌, ltb, if◌then◌else◌, Bool-cases, all, elem, arith,
  eq_iff,
}
use daisy_workflow.Auth.Permissions.{
  JitGrant, Database, Principal, Hints, workspace_role, member_role, project_perms, is_admin,
  is_live, resolve_effective_permissions, has_permission,
}
use daisy_workflow.Auth.Permissions.Roles.{
  all_perms, read_perms, write_perms, admin_perms, viewer_perms, builtin_role_perms,
  workspace_admin_extra_perms,
}
use daisy_workflow.Auth.Permissions.Sources.{
  by_elevation, by_custom_role, by_resource, is_granted, resolve_effective_permissions-elem,
}

subset :
    (xs ys : List String) (perm : String)
    → all (λ x. elem x ys) xs ≡ true
    → elem perm xs ≡ true
    → elem perm ys ≡ true
unfolding elem
subset [] ys perm h at = cc
subset (x ∷ xs) ys perm h at = ground (arith, eq_iff x perm, subset xs ys perm)

viewer_in_editor : all (λ x. elem x (read_perms ++ write_perms)) viewer_perms ≡ true
unfolding elem read_perms write_perms viewer_perms
viewer_in_editor = refl

editor_in_admin : all (λ x. elem x admin_perms) (read_perms ++ write_perms) ≡ true
unfolding elem read_perms write_perms admin_perms
editor_in_admin = refl

no_wildcard : elem all_perms admin_perms ≡ false
unfolding elem admin_perms
no_wildcard = refl

-- What a viewer may do an editor may do, and what an editor may do a project admin may do.
pub builtin_role_perms-ordered :
    (perm : String)
    → ((not (elem perm (builtin_role_perms "viewer")) || elem perm (builtin_role_perms "editor"))
        ≡ true)
      × ((not (elem perm (builtin_role_perms "editor")) || elem perm (builtin_role_perms "admin"))
          ≡ true)
unfolding builtin_role_perms
builtin_role_perms-ordered perm = (
  implied (elem perm viewer_perms)
      (subset viewer_perms (read_perms ++ write_perms) perm viewer_in_editor),
  implied (elem perm (read_perms ++ write_perms))
      (subset (read_perms ++ write_perms) admin_perms perm editor_in_admin),
)
  where
    implied : (a : Bool) {b : Bool} → (a ≡ true → b ≡ true) → (not a || b) ≡ true
    implied true h = h refl
    implied false h = refl

-- A deadline that has not passed later has not passed now.
before :
    (a b c : Bool) (now later deadline : ℕ)
    → now ≤ later
    → (a && (b && (ltb later deadline && c))) ≡ true
    → (a && (b && (ltb now deadline && c))) ≡ true
before a b c now later deadline le h = ground arith

is_live_mono :
    (now later : ℕ) (user workspace project : String) (g : JitGrant)
    → now ≤ later
    → is_live later user workspace project g ≡ true
    → is_live now user workspace project g ≡ true
unfolding is_live
is_live_mono now later user workspace project g le h =
    before (g.user == user) (not g.revoked) _ now later g.expires_at le h

by_elevation_mono :
    (gs : List JitGrant) (now later : ℕ) (user workspace project perm : String)
    → now ≤ later
    → by_elevation gs later user workspace project perm ≡ true
    → by_elevation gs now user workspace project perm ≡ true
by_elevation_mono [] now later user workspace project perm le h = h
by_elevation_mono (g ∷ gs) now later user workspace project perm le h =
    let this = is_live_mono now later user workspace project g le in
    let rest = by_elevation_mono gs now later user workspace project perm le in
    either _ _ _ _ _ this rest h
  where
    either :
        (l l' b r r' : Bool)
        → (l ≡ true → l' ≡ true)
        → (r ≡ true → r' ≡ true)
        → (l && b || r) ≡ true
        → (l' && b || r') ≡ true
    either true l' b r r' f g' k = ground (arith, f refl, g')
    either false l' b r r' f g' k = ground (arith, g')

is_granted_mono :
    (db : Database) (now later : ℕ) (p : Principal) (h : Hints) (perm : String)
    → now ≤ later
    → is_granted db later p h perm ≡ true
    → is_granted db now p h perm ≡ true
unfolding is_granted
is_granted_mono db now later p h perm le t = elim (Bool-cases (p.kind == "service_account")) [
  | inl service ↦ rw (service, if◌then◌else◌) (rw (service, if◌then◌else◌) at t)
  | inr human ↦ elim (Bool-cases (is_admin (workspace_role db p.id p.workspace_id))) [
    | inl admin ↦ rw (human, if◌then◌else◌, admin) (rw (human, if◌then◌else◌, admin) at t)
    | inr other ↦
        rw (human, if◌then◌else◌, other)
          (third _ _ _ _ _
            (by_elevation_mono db.jit_grants now later p.id p.workspace_id
              (or_text h.project_id p.project_id) perm le)
            (rw (human, if◌then◌else◌, other) at t))
  ]
]
  where
    third :
        (a b c c' d : Bool)
        → (c ≡ true → c' ≡ true)
        → (a || (b || (c || d))) ≡ true
        → (a || (b || (c' || d))) ≡ true
    third a b true c' d f k = ground (arith, f refl)
    third a b false c' d f k = ground arith

-- With the same tables time only takes permissions away: what a principal may do later it may do now.
pub has_permission_mono :
    (db : Database) (now later : ℕ) (p : Principal) (perm : String) (h : Hints)
    → now ≤ later
    → has_permission db later (some p) perm h ≡ true
    → has_permission db now (some p) perm h ≡ true
unfolding has_permission
has_permission_mono db now later p perm h le t = either _ _ _ _ (kept all_perms) (kept perm) t
  where
    kept :
        (q : String)
        → elem q (resolve_effective_permissions db later (some p) h) ≡ true
        → elem q (resolve_effective_permissions db now (some p) h) ≡ true
    kept q k =
        resolve_effective_permissions-elem db now p h q
        ∙ is_granted_mono db now later p h q le
            (sym (resolve_effective_permissions-elem db later p h q) ∙ k)

    either :
        (a a' b b' : Bool)
        → (a ≡ true → a' ≡ true)
        → (b ≡ true → b' ≡ true)
        → (a || b) ≡ true
        → (a' || b') ≡ true
    either true a' b b' f g k = ground (arith, f refl)
    either false a' b b' f g k = ground (arith, g k)

-- An elevation that is neither revoked nor over.
abbrev pub is_current : ℕ → JitGrant → Bool
is_current now g = not g.revoked && ltb now g.expires_at

is_live-is_current :
    (now : ℕ) (user workspace project : String) (g : JitGrant)
    → is_current now g ≡ false
    → is_live now user workspace project g ≡ false
unfolding is_live
is_live-is_current now user workspace project g h =
    apart (g.user == user) (not g.revoked) (ltb now g.expires_at) _ h
  where
    apart : (a b c d : Bool) → (b && c) ≡ false → (a && (b && (c && d))) ≡ false
    apart a b c d h = ground arith

any-keep :
    {A : Type 0} (f c : A → Bool) (xs : List A)
    → ((x : A) → c x ≡ false → f x ≡ false)
    → any f (keep c xs) ≡ any f xs
any-keep f c [] h = refl
any-keep f c (x ∷ xs) h = ground (arith, any-keep f c xs h, h x)

by_elevation-keep :
    (gs : List JitGrant) (now : ℕ) (user workspace project perm : String)
    → by_elevation (keep (is_current now) gs) now user workspace project perm
      ≡ by_elevation gs now user workspace project perm
by_elevation-keep gs now user workspace project perm = any-keep _ (is_current now) gs λ g gone.
    ap (λ l. l && elem perm (builtin_role_perms g.role))
      (is_live-is_current now user workspace project g gone)

abbrev pub without_gone : ℕ → Database → Database
without_gone now db = record db { jit_grants = keep (is_current now) db.jit_grants }

is_granted-without_gone :
    (db : Database) (now : ℕ) (p : Principal) (h : Hints) (perm : String)
    → is_granted (without_gone now db) now p h perm ≡ is_granted db now p h perm
unfolding is_granted
is_granted-without_gone db now p h perm =
    ap
      (λ b.
        if p.kind == "service_account"
        then elem perm (builtin_role_perms (or_text p.role "editor"))
          || by_resource db "service_account" p.id h perm
        else if is_admin (workspace_role db p.id p.workspace_id)
        then all_perms == perm
          || (elem perm (builtin_role_perms "admin") || elem perm workspace_admin_extra_perms)
        else (not (project == "")
            && elem perm (project_perms (member_role db.project_members p.id project)))
          || (by_custom_role db p.id p.workspace_id project perm
              || (b || by_resource db "user" p.id h perm)))
      (by_elevation-keep db.jit_grants now p.id p.workspace_id project perm)
  where
    project : String
    project = or_text h.project_id p.project_id

-- An elevation that is revoked or over counts for nothing: with the rows of all such elevations
-- deleted every principal has the same permissions.
pub has_permission-without_gone :
    (db : Database) (now : ℕ) (p : Principal) (perm : String) (h : Hints)
    → has_permission (without_gone now db) now (some p) perm h
      ≡ has_permission db now (some p) perm h
unfolding has_permission
has_permission-without_gone db now p perm h = both (same all_perms) (same perm)
  where
    same :
        (q : String)
        → elem q (resolve_effective_permissions (without_gone now db) now (some p) h)
          ≡ elem q (resolve_effective_permissions db now (some p) h)
    same q =
        resolve_effective_permissions-elem (without_gone now db) now p h q
        ∙ is_granted-without_gone db now p h q
        ∙ sym (resolve_effective_permissions-elem db now p h q)

    both : {a b c d : Bool} → a ≡ b → c ≡ d → (a || c) ≡ (b || d)
    both e f = rw (e, f) refl
