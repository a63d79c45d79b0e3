-- ===== src/Node/Deploy/Updates.antt =====
-- What checkVersionChanges reports to performDeploy.
use the_family_vpn.Base.{
  if◌then◌else◌, if-false, Bytes, codes, text_eq, ◌≡◌, refl, ap, ◌∙◌, Bool, true, false, ◌||◌, List,
  [], ◌∷◌,
}
use the_family_vpn.Node.Deploy.{
  Machine, VersionUpdates, no_updates, all_updates, core_changed, websocket_changed, cli_changed,
  first_root, find_project_root, store_version, check_service, check_services,
  check_version_changes,
}
use the_family_vpn.Node.Deploy.Versions.{
  IsDisk, version_of, has_changed, is_stored, check_service_lem, after, flags_lem, after_keeps,
  check_services_clears,
}

abbrev four : (a b c e : Bool) → VersionUpdates
four a b c e =
    let u1 = if a then core_changed no_updates else no_updates in
    let u2 = if b then websocket_changed u1 else u1 in
    let u3 = if c then cli_changed u2 else u2 in if e then cli_changed u3 else u3

four_lem :
    (a b c e : Bool)
    → four a b c e
      ≡ record { rebuild_node = a || b; rebuild_cli = a || (c || e); restart_node = a || b }
four_lem true true true true = refl
four_lem true true true false = refl
four_lem true true false true = refl
four_lem true true false false = refl
four_lem true false true true = refl
four_lem true false true false = refl
four_lem true false false true = refl
four_lem true false false false = refl
four_lem false true true true = refl
four_lem false true true false = refl
four_lem false true false true = refl
four_lem false true false false = refl
four_lem false false true true = refl
four_lem false false true false = refl
four_lem false false false true = refl
four_lem false false false false = refl

module _ {World : Type 0} (m : Machine World) (data_dir root : Bytes)
    (disk : IsDisk m data_dir) where
  check_services_flags :
      (w : World)
      → (check_services m data_dir root w).0
        ≡ four
            (has_changed m data_dir root (codes "core") w)
            (has_changed m data_dir root (codes "websocket") w)
            (has_changed m data_dir root (codes "cli") w)
            (has_changed m data_dir root (codes "ui") w)
  unfolding check_services text_eq
  check_services_flags w =
      let s1 = check_service m data_dir root (codes "core") core_changed (no_updates, w) in
      let s2 = check_service m data_dir root (codes "websocket") websocket_changed s1 in
      let s3 = check_service m data_dir root (codes "cli") cli_changed s2 in
      flags_lem m data_dir root disk (codes "ui") cli_changed s3
      ∙ rw (
        after_keeps m data_dir root disk (codes "cli") (codes "ui") cli_changed s2 refl,
        after_keeps m data_dir root disk (codes "websocket") (codes "ui") websocket_changed s1 refl,
        after_keeps m data_dir root disk (codes "core") (codes "ui") core_changed (no_updates, w)
            refl,
        flags_lem m data_dir root disk (codes "cli") cli_changed s2,
        after_keeps m data_dir root disk (codes "websocket") (codes "cli") websocket_changed s1
            refl,
        after_keeps m data_dir root disk (codes "core") (codes "cli") core_changed (no_updates, w)
            refl,
        flags_lem m data_dir root disk (codes "websocket") websocket_changed s1,
        after_keeps m data_dir root disk (codes "core") (codes "websocket") core_changed
            (no_updates, w) refl,
        flags_lem m data_dir root disk (codes "core") core_changed (no_updates, w),
      )

-- The project root is found again in a world that has the same module files.
first_root_kept :
    {World : Type 0} (m : Machine World) (locs : List Bytes) (w w' : World)
    → ((loc : Bytes) → m.stat (loc ∷ codes "go.mod" ∷ []) w' ≡ m.stat (loc ∷ codes "go.mod" ∷ []) w)
    → first_root m locs w' ≡ first_root m locs w
unfolding first_root
first_root_kept m [] w w' same = refl
first_root_kept m (loc ∷ locs) w w' same = rw (same loc, first_root_kept m locs w w' same)

module _ {World : Type 0} (m : Machine World) (data_dir root : Bytes)
    (disk : IsDisk m data_dir) where
  root_kept :
      (name : Bytes) (changed : VersionUpdates → VersionUpdates) (s : VersionUpdates × World)
      → find_project_root m (after m data_dir root disk name changed s) ≡ find_project_root m s.1
  unfolding find_project_root
  root_kept name changed s =
      ap (λ x. find_project_root m x.1) (check_service_lem m data_dir root name changed s.0 s.1)
      ∙ by_store (is_stored m data_dir root name s.1)
    where
      by_store :
          (b : Bool)
          → find_project_root m (
              if b
              then store_version m data_dir name (version_of m data_dir root name s.1) s.1
              else s.1)
            ≡ find_project_root m s.1
      by_store true =
          first_root_kept m _ _ _
            λ loc. disk.keeps_module loc name (version_of m data_dir root name s.1) s.1
      by_store false = refl

  check_services_root :
      (w : World) → find_project_root m (check_services m data_dir root w).1 ≡ find_project_root m w
  unfolding check_services
  check_services_root w =
      let s1 = check_service m data_dir root (codes "core") core_changed (no_updates, w) in
      let s2 = check_service m data_dir root (codes "websocket") websocket_changed s1 in
      let s3 = check_service m data_dir root (codes "cli") cli_changed s2 in
      root_kept (codes "ui") cli_changed s3
      ∙ root_kept (codes "cli") cli_changed s2
      ∙ root_kept (codes "websocket") websocket_changed s1
      ∙ root_kept (codes "core") core_changed (no_updates, w)

module _ {World : Type 0} (m : Machine World) (data_dir : Bytes) (disk : IsDisk m data_dir) where
  -- With a project root, checkVersionChanges asks for the node's build and for its restart exactly if
  -- core or websocket has changed, and for the command line's build exactly if core, cli or ui
  -- has. A service has changed if its VERSION file and the stored version are both there, not
  -- empty, and differ, all as they were before the check.
  pub check_version_changes_lem :
      (w : World)
      → text_eq (find_project_root m w) [] ≡ false
      → let changed = λ (name : Bytes). has_changed m data_dir (find_project_root m w) name w in
        (check_version_changes m data_dir w).0 ≡ record {
          rebuild_node = changed (codes "core") || changed (codes "websocket");
          rebuild_cli = changed (codes "core") || (changed (codes "cli") || changed (codes "ui"));
          restart_node = changed (codes "core") || changed (codes "websocket");
        }
  unfolding check_version_changes
  check_version_changes_lem w found =
      let root = find_project_root m w in
      ap (λ s. s.0)
        (if-false (text_eq root []) (all_updates, w) (check_services m data_dir root w) found)
      ∙ check_services_flags m data_dir root disk w
      ∙ four_lem (has_changed m data_dir root (codes "core") w)
          (has_changed m data_dir root (codes "websocket") w)
          (has_changed m data_dir root (codes "cli") w) (has_changed m data_dir root (codes "ui") w)

  -- When checkVersionChanges has found the project, on a disk that keeps what is stored, calling it
  -- again right after reports no change: the first call has already stored the versions that it found.
  pub check_version_changes_twice :
      (w : World)
      → text_eq (find_project_root m w) [] ≡ false
      → (check_version_changes m data_dir (check_version_changes m data_dir w).1).0 ≡ no_updates
  unfolding check_version_changes
  check_version_changes_twice w found =
      let root = find_project_root m w in
      let w' = (check_services m data_dir root w).1 in
      let same : find_project_root m w' ≡ root = check_services_root m data_dir root disk w in
      let once =
        if-false (text_eq root []) (all_updates, w) (check_services m data_dir root w) found in
      let (core, (websocket, (cli, ui))) = check_services_clears m data_dir root disk w in
      ap (λ s. (check_version_changes m data_dir s.1).0) once
      ∙ check_version_changes_lem w' (rw same found)
      ∙ rw (same, core, websocket, cli, ui)
