-- ===== src/Node/Deploy/Rollout.antt =====
-- internal/node/deploy.go, from the builds to the restart: rebuildBinariesSelective, broadcastUpdate,
-- scheduleRestart, performDeploy and the two handlers that start it.
use the_family_vpn.Base.{
  if◌then◌else◌, Bytes, codes, text_eq, Result, ℕ, ◌+◌, Bool, true, not, ◌&&◌, ◌||◌, Option, none,
  some, List, [], ◌∷◌, ◌++◌, ok, err,
}
use the_family_vpn.Protocol.Control.{cmd_update_available, make_control_message}
use the_family_vpn.Node.Server.{Server, send_all, broadcast_restart_notification}
use the_family_vpn.Node.Deploy.{
  FilePath, Program, Machine, VersionUpdates, DeployError, find_project_root, find_go_binary,
  read_version_file, version_path, check_version_changes, checked, git_pull, no_project_root,
  no_go_binary, node_build_failed, cli_build_failed,
}

-- The daemon that deploys. `server` has its connections and what it sends, `waited` is the
-- nanoseconds slept, `replaced` the executable that took the process over, `exited` whether os.Exit
-- was called.
pub record Node (World : Type 0) : Type 0 where
  pub server_mode : Bool
  pub data_dir : Bytes
  pub world : World
  pub server : Server
  pub waited : ℕ
  pub shut_down : Bool
  pub replaced : Option Bytes
  pub exited : Bool

pub record DeployResponse : Type 0 where
  pub success : Bool
  pub message : Bytes
  pub node : Bytes

module _ {World : Type 0} where
  -- broadcastUpdate: a write that fails is only logged
  unfoldable pub broadcast_update : Node World → Node World
  broadcast_update d = record d {
    server = record d.server {
      sent =
          d.server.sent ++ send_all d.server.peer_conns (make_control_message cmd_update_available);
    };
  }

  -- shutdown, the part that the peers see: the notification is sent once and by a server
  unfoldable pub shut_down_node : Node World → Node World
  shut_down_node d = if d.shut_down then d else record d {
    shut_down = true;
    server = if d.server_mode then broadcast_restart_notification d.server else d.server;
  }

module _ {World : Type 0} (m : Machine World) where
  abbrev build : Bytes → Bytes → Bytes → Bytes → Bytes → Program
  build root go ldflags out target = record {
    program = go;
    args = codes "build" ∷ codes "-ldflags" ∷ ldflags ∷ codes "-o" ∷ out ∷ target ∷ [];
    dir = root;
  }

  abbrev pub build_node : Bytes → Bytes → Bytes → Program
  build_node root go ldflags = build root go ldflags (codes "bin/vpn-node") (codes "./cmd/vpn-node")

  abbrev pub build_cli : Bytes → Bytes → Bytes → Program
  build_cli root go ldflags = build root go ldflags (codes "bin/vpn") (codes "./cmd/vpn")

  -- `join` is filepath.Join. The result of the copy is only logged.
  abbrev copy_node : (FilePath → Bytes) → Bytes → World → World
  copy_node join root w =
      if m.is_darwin
      then w
      else (m.run
          (record {
            program = codes "cp";
            args =
                join (root ∷ codes "bin" ∷ codes "vpn-node" ∷ [])
                ∷ codes "/usr/local/bin/vpn-node"
                ∷ [];
            dir = [];
          })
          w).1

  abbrev copied :
      (FilePath → Bytes)
      → Bytes
      → Result DeployError (Unit {0}) × World
      → Result DeployError (List Bytes) × World
  copied join root (err e, w) = (err e, w)
  copied join root (ok _, w) = (ok (codes "bin/vpn-node" ∷ []), copy_node join root w)

  -- The first build of rebuildBinariesSelective, with the binaries to sign
  abbrev first_build :
      (FilePath → Bytes)
      → Bytes
      → Bytes
      → Bytes
      → Bool
      → World
      → Result DeployError (List Bytes) × World
  first_build join root go ldflags needed w =
      if needed
      then copied join root (checked m node_build_failed (m.run (build_node root go ldflags) w))
      else (ok [], w)

  abbrev built :
      List Bytes → Result DeployError (Unit {0}) × World → Result DeployError (List Bytes) × World
  built binaries (err e, w) = (err e, w)
  built binaries (ok _, w) = (ok (binaries ++ codes "bin/vpn" ∷ []), w)

  -- The second one
  abbrev second_build :
      Bytes
      → Bytes
      → Bytes
      → Bool
      → Result DeployError (List Bytes) × World
      → Result DeployError (List Bytes) × World
  second_build root go ldflags needed (err e, w) = (err e, w)
  second_build root go ldflags needed (ok binaries, w) =
      if needed
      then built binaries (checked m cli_build_failed (m.run (build_cli root go ldflags) w))
      else (ok binaries, w)

  sign_all : Bytes → List Bytes → World → World
  sign_all root [] w = w
  sign_all root (bin ∷ bins) w =
      sign_all root bins
        (m.run
          (record {
            program = codes "codesign";
            args = codes "--sign" ∷ codes "-" ∷ codes "--force" ∷ bin ∷ [];
            dir = root;
          })
          w).1

  signed : Bytes → Result DeployError (List Bytes) × World → Result DeployError (Unit {0}) × World
  signed root (err e, w) = (err e, w)
  signed root (ok binaries, w) = (ok tt, if m.is_darwin then sign_all root binaries w else w)

  abbrev or_dev : Bytes → Bytes
  or_dev version = if text_eq version [] then codes "dev" else version

  abbrev pub version_flags : Bytes → World → Bytes
  version_flags root w =
      codes "-X github.com/miguelemosreverte/vpn/internal/node.Version="
      ++ or_dev (read_version_file m (version_path m root (codes "core")) w)

  -- rebuildBinariesSelective
  unfoldable pub rebuild_binaries_selective :
      (FilePath → Bytes) → VersionUpdates → World → Result DeployError (Unit {0}) × World
  unfolding signed sign_all
  rebuild_binaries_selective join updates w =
      let root = find_project_root m w in
      let go = find_go_binary m w in
      let ldflags = version_flags root w in
      if text_eq root []
      then (err no_project_root, w)
      else if text_eq go []
      then (err no_go_binary, w)
      else signed root (
          second_build root go ldflags updates.rebuild_cli
            (first_build join root go ldflags updates.rebuild_node w))

  exec_new : Bytes → Node World → Node World
  exec_new path d =
      if m.exec_fails path d.world
      then record d { exited = true }
      else record d { replaced = some path }

  restart_at : Option Bytes → Node World → Node World
  unfolding exec_new
  restart_at none d = d
  restart_at (some path) d =
      let d' = shut_down_node d in exec_new path (record d' { waited = d'.waited + 500000000 })

  resolved : Option Bytes → Option Bytes
  resolved none = none
  resolved (some exe) = m.eval_symlinks exe

  -- scheduleRestart
  unfoldable pub schedule_restart : Node World → Node World
  unfolding restart_at resolved
  schedule_restart d = restart_at (resolved m.executable) d

  -- performDeploy from the broadcast on
  unfoldable pub finish_deploy : VersionUpdates → Node World → Node World
  finish_deploy updates d =
      let d' = if d.server_mode then broadcast_update d else d in
      if updates.restart_node && d.server_mode
      then schedule_restart (record d' { waited = d'.waited + 2000000000 })
      else d'

  abbrev pub after_rebuild :
      VersionUpdates → Node World → Result DeployError (Unit {0}) × World → Node World
  after_rebuild updates d (err e, w) = record d { world = w }
  after_rebuild updates d (ok _, w) = finish_deploy updates (record d { world = w })

  abbrev pub after_check : (FilePath → Bytes) → Node World → VersionUpdates × World → Node World
  after_check join d (updates, w) =
      if updates.rebuild_node || updates.rebuild_cli
      then after_rebuild updates d (rebuild_binaries_selective join updates w)
      else finish_deploy updates (record d { world = w })

  abbrev pub after_pull :
      (FilePath → Bytes) → Node World → Result DeployError (Unit {0}) × World → Node World
  after_pull join d (err e, w) = record d { world = w }
  after_pull join d (ok _, w) = after_check join d (check_version_changes m d.data_dir w)

  -- performDeploy
  unfoldable pub perform_deploy : (FilePath → Bytes) → Node World → Node World
  perform_deploy join d = after_pull join d (git_pull m d.world)

  -- HandleUpdateMessage
  unfoldable pub handle_update_message : (FilePath → Bytes) → Node World → Node World
  handle_update_message join d = perform_deploy join d

  -- handleDeploy: the status, the body, and the daemon when the deployment that it starts is over
  unfoldable pub handle_deploy :
      (FilePath → Bytes) → Bytes → Node World → (ℕ × Option DeployResponse) × Node World
  handle_deploy join method d = if not (text_eq method (codes "POST")) then ((405, none), d) else (
    (
      202,
      some (record {
        success = true;
        message = codes "Deploy triggered, propagating to network";
        node = d.server.node_name;
      }),
    ),
    perform_deploy join d,
  )
