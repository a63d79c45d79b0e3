-- ===== src/Node/Deploy/Restart.antt =====
-- What a deployment does to the connections of the daemon.
use mathlib.Core.Path.{subst}
use the_family_vpn.Base.{
  if◌then◌else◌, if-false, Bytes, codes, text_eq, Result, ◌≡◌, refl, sym, ap, ◌∙◌, ◌⊎◌, inl, inr,
  Bool, true, false, ◌&&◌, ◌||◌, [], arith, ok, err,
}
use the_family_vpn.Protocol.Control.{}
use the_family_vpn.Node.Server.{}
use the_family_vpn.Node.Deploy.Versions.{IsDisk, has_changed}
use the_family_vpn.Node.Deploy.Updates.{check_version_changes_lem}
use the_family_vpn.Node.Deploy.{
  FilePath, Machine, VersionUpdates, DeployError, find_project_root, check_version_changes,
  git_pull,
}
use the_family_vpn.Node.Deploy.Rollout.{
  Node, broadcast_update, rebuild_binaries_selective, finish_deploy, after_rebuild, after_check,
  after_pull, perform_deploy,
}

-- A daemon whose connections are as they were: only its world may differ.
abbrev pub Undisturbed : {World : Type 0} → Node World → Node World → Type 0
Undisturbed d e = e ≡ record d { world = e.world }

and_false : (a b : Bool) → b ≡ false → (a && b) ≡ false
and_false a b h = ground arith

module _ {World : Type 0} (m : Machine World) (join : FilePath → Bytes) where
  finish_deploy_client :
      (updates : VersionUpdates) (d : Node World)
      → d.server_mode ≡ false
      → finish_deploy m updates d ≡ d
  unfolding finish_deploy
  finish_deploy_client updates d client =
      let quiet = and_false updates.restart_node d.server_mode client in
      if-false (updates.restart_node && d.server_mode) _ _ quiet
      ∙ if-false d.server_mode (broadcast_update d) d client

  after_rebuild_client :
      (updates : VersionUpdates) (d : Node World) (r : Result DeployError (Unit {0}) × World)
      → d.server_mode ≡ false
      → Undisturbed d (after_rebuild m updates d r)
  after_rebuild_client updates d (err e, w) client = refl
  after_rebuild_client updates d (ok u, w) client =
      let same = finish_deploy_client updates (record d { world = w }) client in
      same ∙ ap (λ x. record d { world = x.world }) (sym same)

  after_check_client :
      (d : Node World) (s : VersionUpdates × World)
      → d.server_mode ≡ false
      → Undisturbed d (after_check m join d s)
  after_check_client d (updates, w) client = by_need (updates.rebuild_node || updates.rebuild_cli)
    where
      by_need :
          (b : Bool)
          → Undisturbed d (
              if b
              then after_rebuild m updates d (rebuild_binaries_selective m join updates w)
              else finish_deploy m updates (record d { world = w }))
      by_need true =
          after_rebuild_client updates d (rebuild_binaries_selective m join updates w) client
      by_need false = after_rebuild_client updates d (ok tt, w) client

  after_pull_client :
      (d : Node World) (r : Result DeployError (Unit {0}) × World)
      → d.server_mode ≡ false
      → Undisturbed d (after_pull m join d r)
  after_pull_client d (err e, w) client = refl
  after_pull_client d (ok u, w) client =
      after_check_client d (check_version_changes m d.data_dir w) client

  -- performDeploy on a client sends nothing, waits for nothing, and neither stops nor replaces the
  -- process, whatever has changed and whatever the commands answer: only the machine's files and
  -- programs may differ after it.
  pub perform_deploy-Undisturbed :
      (d : Node World) → d.server_mode ≡ false → Undisturbed d (perform_deploy m join d)
  unfolding perform_deploy
  perform_deploy-Undisturbed d client = after_pull_client d (git_pull m d.world) client

abbrev pub FailedOrAnnounced : {World : Type 0} → Node World → Node World → Type 0
FailedOrAnnounced d e = Undisturbed d e ⊎ Undisturbed (broadcast_update d) e

module _ {World : Type 0} (m : Machine World) (join : FilePath → Bytes) where
  finish_deploy_hot :
      (updates : VersionUpdates) (d : Node World)
      → updates.restart_node ≡ false
      → finish_deploy m updates d ≡ (if d.server_mode then broadcast_update d else d)
  unfolding finish_deploy
  finish_deploy_hot updates d hot =
      if-false (updates.restart_node && d.server_mode) _ _ (rw hot refl)

  announced :
      (d : Node World) (w : World) (b : Bool)
      → FailedOrAnnounced d
          (if b then broadcast_update (record d { world = w }) else record d { world = w })
  unfolding broadcast_update
  announced d w true = inr refl
  announced d w false = inl refl

  after_rebuild_hot :
      (updates : VersionUpdates) (d : Node World) (r : Result DeployError (Unit {0}) × World)
      → updates.restart_node ≡ false
      → FailedOrAnnounced d (after_rebuild m updates d r)
  after_rebuild_hot updates d (err e, w) hot = inl refl
  after_rebuild_hot updates d (ok u, w) hot =
      subst (FailedOrAnnounced d) (sym (finish_deploy_hot updates (record d { world = w }) hot))
        (announced d w d.server_mode)

  after_check_hot :
      (d : Node World) (s : VersionUpdates × World)
      → s.0.restart_node ≡ false
      → FailedOrAnnounced d (after_check m join d s)
  after_check_hot d (updates, w) hot = by_need (updates.rebuild_node || updates.rebuild_cli)
    where
      by_need :
          (b : Bool)
          → FailedOrAnnounced d (
              if b
              then after_rebuild m updates d (rebuild_binaries_selective m join updates w)
              else finish_deploy m updates (record d { world = w }))
      by_need true = after_rebuild_hot updates d (rebuild_binaries_selective m join updates w) hot
      by_need false = after_rebuild_hot updates d (ok tt, w) hot

  -- When the sources that were pulled have the versions of core and websocket that are stored (or
  -- none is stored, or none is there), a deployment does not restart the daemon: it either fails and
  -- disturbs nothing, or at most announces UPDATE_AVAILABLE to every peer.
  pub perform_deploy_hot :
      (d : Node World) (w : World)
      → IsDisk m d.data_dir
      → git_pull m d.world ≡ (ok tt, w)
      → text_eq (find_project_root m w) [] ≡ false
      → has_changed m d.data_dir (find_project_root m w) (codes "core") w ≡ false
      → has_changed m d.data_dir (find_project_root m w) (codes "websocket") w ≡ false
      → FailedOrAnnounced d (perform_deploy m join d)
  unfolding perform_deploy
  perform_deploy_hot d w disk pulled found core websocket =
      let flags = ap (λ u. u.restart_node) (check_version_changes_lem m d.data_dir disk w found) in
      subst (λ r. FailedOrAnnounced d (after_pull m join d r)) (sym pulled)
        (after_check_hot d (check_version_changes m d.data_dir w)
          (flags ∙ rw (core, websocket) refl))
