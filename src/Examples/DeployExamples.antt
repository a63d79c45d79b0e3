-- ===== src/Examples/DeployExamples.antt =====
-- A machine whose files are a function of their paths, and deployments on it.
use the_family_vpn.Base.{
  if◌then◌else◌, Bytes, codes, text_eq, text_eq_refl, String, ◌≡◌, refl, ap, Bool, true, false,
  ◌&&◌, Option, none, some, [], ◌∷◌, ok,
}
use the_family_vpn.Protocol.Control.{
  cmd_update_available, cmd_server_restarting, make_control_message,
}
use the_family_vpn.Node.Server.{send_all, broadcast_restart_notification}
use the_family_vpn.Node.Deploy.{
  FilePath, Program, Machine, no_updates, find_project_root, find_go_binary, read_version_file,
  read_stored_version, store_version, check_service, check_services, check_version_changes,
  git_pull,
}
use the_family_vpn.Node.Deploy.Versions.{IsDisk, has_changed}
use the_family_vpn.Node.Deploy.Updates.{check_version_changes_lem, check_version_changes_twice}
use the_family_vpn.Node.Deploy.Rollout.{
  Node, broadcast_update, shut_down_node, rebuild_binaries_selective, schedule_restart,
  finish_deploy, perform_deploy, handle_deploy,
}
use the_family_vpn.Node.Deploy.Restart.{
  Undisturbed, perform_deploy-Undisturbed, FailedOrAnnounced, perform_deploy_hot,
}
use the_family_vpn.Examples.ServerExamples.{home}

abbrev Files : Type 0
Files = FilePath → Option Bytes

abbrev path_eq : FilePath → FilePath → Bool
path_eq [] [] = true
path_eq [] (y ∷ ys) = false
path_eq (x ∷ xs) [] = false
path_eq (x ∷ xs) (y ∷ ys) = text_eq x y && path_eq xs ys

abbrev write : FilePath → Bytes → Files → Files
write path content files other = if path_eq path other then some content else files other

abbrev is_there : Option Bytes → Bool
is_there none = false
is_there (some content) = true

-- `git pull` brings version 2 of one service. Every other command works and changes nothing.
abbrev run_on : Bytes → Program → Files → Bool × Files
run_on service c files =
    if text_eq c.program (codes "git")
    then (
      true,
      write (codes "/root/vpn-source" ∷ codes "services" ∷ service ∷ codes "VERSION" ∷ [])
          (codes "2") files,
    )
    else (true, files)

abbrev box : String → Machine Files
box service = record {
  is_darwin = false;
  home_variable = codes "/root";
  user_home_dir = some (codes "/root");
  executable = some (codes "/usr/local/bin/vpn-node");
  eval_symlinks = some;
  dir_of = λ path. codes "/usr";
  trim_space = λ s. s;
  look_path = λ files. some (codes "/usr/bin/go");
  stat = λ path files. is_there (files path);
  read_file = λ path files. files path;
  mkdir_all = λ path files. files;
  write_file = write;
  run = run_on (codes service);
  exec_fails = λ path files. false;
}

abbrev data_at : Bytes
data_at = codes "/data"

path_eq_refl : (p : FilePath) → path_eq p p ≡ true
path_eq_refl [] = refl
path_eq_refl (x ∷ p) = rw (text_eq_refl x, path_eq_refl p) refl

never : (b : Bool) (x y : Option Bytes) → (if b && false then x else y) ≡ y
never true x y = refl
never false x y = refl

box-IsDisk : (service : String) → IsDisk (box service) data_at
unfolding store_version text_eq
box-IsDisk service = record {
  trim_again = λ s. refl;
  trim_empty = refl;
  reads_back = λ name version w. rw (text_eq_refl name) refl;
  keeps_stored = λ name other version w apart. rw apart refl;
  keeps_source = λ root name other version w. never (text_eq data_at root) _ _;
  keeps_module = λ loc name version w. ap is_there (never (text_eq data_at loc) _ _);
}

abbrev stored_path : String → FilePath
stored_path name = data_at ∷ codes "versions" ∷ codes name ∷ []

abbrev source_path : String → FilePath
source_path name = codes "/root/vpn-source" ∷ codes "services" ∷ codes name ∷ codes "VERSION" ∷ []

-- Version 1 of core and of cli is deployed.
abbrev installed : Files
installed = write (codes "/root/vpn-source" ∷ codes "go.mod" ∷ []) [] (
    write (source_path "core") (codes "1") (
      write (stored_path "core") (codes "1") (
        write (source_path "cli") (codes "1")
          (write (stored_path "cli") (codes "1") λ path. none))))

abbrev deployed : Bool → Node Files
deployed server_mode = record {
  server_mode = server_mode;
  data_dir = data_at;
  world = installed;
  server = record home { peer_conns = (codes "10.8.0.2", 7) ∷ [] };
  waited = 0;
  shut_down = false;
  replaced = none;
  exited = false;
}

abbrev no_join : FilePath → Bytes
no_join path = []

-- The server that gets a new core tells its peer of the update and of the restart.
server_restarts :
    let e = perform_deploy (box "core") no_join (deployed true) in
    (e.replaced ≡ some (codes "/usr/local/bin/vpn-node"))
    × ((e.waited ≡ 2500000000)
        × (e.server.sent
            ≡ (7, make_control_message cmd_update_available)
              ∷ (7, make_control_message cmd_server_restarting)
              ∷ []))
unfolding perform_deploy git_pull find_project_root check_version_changes check_services
    check_service read_version_file read_stored_version store_version text_eq
    rebuild_binaries_selective find_go_binary finish_deploy schedule_restart broadcast_update
    shut_down_node broadcast_restart_notification send_all
server_restarts = (refl, (refl, refl))

handle_deploy_get :
    handle_deploy (box "core") no_join (codes "GET") (deployed true) ≡ ((405, none), deployed true)
unfolding handle_deploy text_eq
handle_deploy_get = refl

abbrev pulled : String → Files
pulled service = write (source_path service) (codes "2") installed

pulled_lem : git_pull (box "cli") installed ≡ (ok tt, pulled "cli")
unfolding git_pull find_project_root text_eq
pulled_lem = refl

check_version_changes_lem_example :
    (check_version_changes (box "core") data_at (pulled "core")).0
    ≡ record { rebuild_node = true; rebuild_cli = true; restart_node = true }
unfolding find_project_root has_changed read_version_file read_stored_version text_eq
check_version_changes_lem_example =
    check_version_changes_lem (box "core") data_at (box-IsDisk "core") (pulled "core") refl

check_version_changes_twice_example :
    (check_version_changes
      (box "core")
      data_at
      (check_version_changes (box "core") data_at (pulled "core")).1).0
    ≡ no_updates
unfolding find_project_root text_eq
check_version_changes_twice_example =
    check_version_changes_twice (box "core") data_at (box-IsDisk "core") (pulled "core") refl

perform_deploy-Undisturbed_example :
    Undisturbed (deployed false) (perform_deploy (box "core") no_join (deployed false))
perform_deploy-Undisturbed_example =
    perform_deploy-Undisturbed (box "core") no_join (deployed false) refl

perform_deploy_hot_example :
    FailedOrAnnounced (deployed true) (perform_deploy (box "cli") no_join (deployed true))
unfolding git_pull find_project_root has_changed read_version_file read_stored_version text_eq
perform_deploy_hot_example =
    perform_deploy_hot (box "cli") no_join (deployed true) (pulled "cli") (box-IsDisk "cli") refl
      refl refl refl
