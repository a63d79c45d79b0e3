-- ===== src/Node/Deploy.antt =====
-- internal/node/deploy.go: the webhook, the check of the VERSION files, the builds and the restart.
-- `World` is the machine that the standard library's calls read and change. The asynchronous
-- deployment of a handler runs here when the handler has answered.
pub mod Versions
pub mod Updates
pub mod Rollout
pub mod Restart
use the_family_vpn.Base.{
  if◌then◌else◌, Bytes, codes, text_eq, Result, Bool, true, false, not, Option, none, some, List,
  [], ◌∷◌, ◌++◌, ok, err,
}
use the_family_vpn.Protocol.Control.{}
use the_family_vpn.Node.Server.{}

-- The arguments of filepath.Join
abbrev pub FilePath : Type 0
FilePath = List Bytes

-- exec.Program with its Dir
pub record Program : Type 0 where
  pub program : Bytes
  pub args : List Bytes
  pub dir : Bytes

-- What is called of os, os/exec, path/filepath, strings, runtime and syscall. A result `none` or
-- `false` is an error. `exec_fails` says whether syscall.Exec returns.
pub record Machine (World : Type 0) : Type 0 where
  pub is_darwin : Bool
  pub home_variable : Bytes
  pub user_home_dir : Option Bytes
  pub executable : Option Bytes
  pub eval_symlinks : Bytes → Option Bytes
  pub dir_of : Bytes → Bytes
  pub trim_space : Bytes → Bytes
  pub look_path : World → Option Bytes
  pub stat : FilePath → World → Bool
  pub read_file : FilePath → World → Option Bytes
  pub mkdir_all : FilePath → World → World
  pub write_file : FilePath → Bytes → World → World
  pub run : Program → World → Bool × World
  pub exec_fails : Bytes → World → Bool

pub record VersionUpdates : Type 0 where
  pub rebuild_node : Bool
  pub rebuild_cli : Bool
  pub restart_node : Bool

abbrev pub no_updates : VersionUpdates
no_updates = record { rebuild_node = false; rebuild_cli = false; restart_node = false }

abbrev pub all_updates : VersionUpdates
all_updates = record { rebuild_node = true; rebuild_cli = true; restart_node = true }

-- What the four blocks of checkVersionChanges set
abbrev pub core_changed : VersionUpdates → VersionUpdates
core_changed u = record u { rebuild_node = true; rebuild_cli = true; restart_node = true }

abbrev pub websocket_changed : VersionUpdates → VersionUpdates
websocket_changed u = record u { rebuild_node = true; restart_node = true }

abbrev pub cli_changed : VersionUpdates → VersionUpdates
cli_changed u = record u { rebuild_cli = true }

pub data DeployError : Type 0 where
  no_project_root no_go_binary pull_failed node_build_failed cli_build_failed : DeployError

module _ {World : Type 0} (m : Machine World) where
  first_root : List Bytes → World → Bytes
  first_root [] w = []
  first_root (loc ∷ locs) w =
      let rest = first_root locs w in if m.stat (loc ∷ codes "go.mod" ∷ []) w then loc else rest

  abbrev root_locations : List Bytes
  root_locations =
      codes "/root/vpn-source"
      ∷ codes "/root/the-family-vpn"
      ∷ (m.home_variable ++ codes "/the-family-vpn")
      ∷ (m.home_variable ++ codes "/vpn")
      ∷ codes "."
      ∷ []

  abbrev near_executable : Option Bytes → List Bytes → List Bytes
  near_executable none locs = locs
  near_executable (some exe) locs = m.dir_of (m.dir_of exe) ∷ locs

  -- findProjectRoot
  unfoldable pub find_project_root : World → Bytes
  unfolding first_root
  find_project_root = first_root (near_executable m.executable root_locations)

  abbrev go_locations : List Bytes
  go_locations =
      codes "/usr/local/go/bin/go"
      ∷ codes "/usr/local/bin/go"
      ∷ codes "/opt/homebrew/bin/go"
      ∷ codes "/usr/bin/go"
      ∷ codes "/root/go/bin/go"
      ∷ []

  first_file : List Bytes → World → Bytes
  first_file [] w = []
  first_file (loc ∷ locs) w =
      let rest = first_file locs w in if m.stat (loc ∷ []) w then loc else rest

  abbrev or_search : Option Bytes → World → Bytes
  or_search none w = first_file go_locations w
  or_search (some path) w = path

  -- findGoBinary
  unfoldable pub find_go_binary : World → Bytes
  unfolding first_file
  find_go_binary w = or_search (m.look_path w) w

  abbrev pub trimmed : Option Bytes → Bytes
  trimmed none = []
  trimmed (some contents) = m.trim_space contents

  -- readVersionFile
  unfoldable pub read_version_file : FilePath → World → Bytes
  read_version_file path w = trimmed (m.read_file path w)

  abbrev in_home : Option Bytes → FilePath
  in_home none = [] ∷ []
  in_home (some home) = home ∷ codes ".vpn-node" ∷ []

  -- The directory of the stored versions, for the DataDir of the configuration
  abbrev pub versions_dir : Bytes → FilePath
  versions_dir [] = in_home m.user_home_dir ++ codes "versions" ∷ []
  versions_dir (c ∷ cs) = (c ∷ cs) ∷ codes "versions" ∷ []

  -- readStoredVersion
  unfoldable pub read_stored_version : Bytes → Bytes → World → Bytes
  read_stored_version data_dir name w = trimmed (m.read_file (versions_dir data_dir ++ name ∷ []) w)

  -- storeVersion
  unfoldable pub store_version : Bytes → Bytes → Bytes → World → World
  store_version data_dir name version w =
      m.write_file (versions_dir data_dir ++ name ∷ []) version
        (m.mkdir_all (versions_dir data_dir) w)

  abbrev pub version_path : Bytes → Bytes → FilePath
  version_path root name = root ∷ codes "services" ∷ name ∷ codes "VERSION" ∷ []

  -- One of the four blocks of checkVersionChanges
  unfoldable pub check_service :
      Bytes
      → Bytes
      → Bytes
      → (VersionUpdates → VersionUpdates)
      → VersionUpdates × World
      → VersionUpdates × World
  check_service data_dir root name changed (u, w) =
      let version = read_version_file (version_path root name) w in
      let stored = read_stored_version data_dir name w in
      if text_eq version []
      then (u, w)
      else if text_eq stored []
      then (u, store_version data_dir name version w)
      else if not (text_eq version stored)
      then (changed u, store_version data_dir name version w)
      else (u, w)

  -- checkVersionChanges, when it has found the project root
  unfoldable pub check_services : Bytes → Bytes → World → VersionUpdates × World
  check_services data_dir root w = check_service data_dir root (codes "ui") cli_changed (
      check_service data_dir root (codes "cli") cli_changed (
        check_service data_dir root (codes "websocket") websocket_changed
          (check_service data_dir root (codes "core") core_changed (no_updates, w))))

  -- checkVersionChanges
  unfoldable pub check_version_changes : Bytes → World → VersionUpdates × World
  check_version_changes data_dir w =
      let root = find_project_root w in
      if text_eq root [] then (all_updates, w) else check_services data_dir root w

  abbrev pub checked : DeployError → Bool × World → Result DeployError (Unit {0}) × World
  checked e (true, w) = (ok tt, w)
  checked e (false, w) = (err e, w)

  -- gitPull
  unfoldable pub git_pull : World → Result DeployError (Unit {0}) × World
  git_pull w =
      let root = find_project_root w in
      if text_eq root []
      then (err no_project_root, w)
      else checked pull_failed (
          m.run
            (record {
              program = codes "git";
              args = codes "pull" ∷ codes "origin" ∷ codes "main" ∷ [];
              dir = root;
            })
            w)
