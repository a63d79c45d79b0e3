-- ===== src/Node/Deploy/Versions.antt =====
-- What checkVersionChanges reports, and when it reports it again.
use the_family_vpn.Base.{
  if◌then◌else◌, Bytes, codes, text_eq, text_eq_refl, ◌≡◌, refl, ap, ◌∙◌, Bool, true, false, not,
  ◌&&◌, ◌||◌, Option, none, some, [], ◌∷◌, ◌++◌, arith,
}
use the_family_vpn.Node.Deploy.{
  Machine, VersionUpdates, no_updates, core_changed, websocket_changed, cli_changed, trimmed,
  read_version_file, versions_dir, read_stored_version, store_version, version_path, check_service,
  check_services,
}

-- Storing a version succeeds: it changes the file of that version, and neither another one nor the
-- project's files; strings.TrimSpace leaves nothing to trim.
pub record IsDisk {World : Type 0} (m : Machine World) (data_dir : Bytes) : Type 0 where
  pub trim_again : (s : Bytes) → m.trim_space (m.trim_space s) ≡ m.trim_space s
  pub trim_empty : m.trim_space [] ≡ []
  pub reads_back :
      (name version : Bytes) (w : World)
      → m.read_file (versions_dir m data_dir ++ name ∷ []) (store_version m data_dir name version w)
        ≡ some version
  pub keeps_stored :
      (name other version : Bytes) (w : World)
      → text_eq name other ≡ false
      → m.read_file
          (versions_dir m data_dir ++ other ∷ [])
          (store_version m data_dir name version w)
        ≡ m.read_file (versions_dir m data_dir ++ other ∷ []) w
  pub keeps_source :
      (root name other version : Bytes) (w : World)
      → m.read_file (version_path m root other) (store_version m data_dir name version w)
        ≡ m.read_file (version_path m root other) w
  pub keeps_module :
      (loc name version : Bytes) (w : World)
      → m.stat (loc ∷ codes "go.mod" ∷ []) (store_version m data_dir name version w)
        ≡ m.stat (loc ∷ codes "go.mod" ∷ []) w

choose :
    {W : Type 0} (a b c : Bool) (u v : VersionUpdates) (w w' : W)
    → ◌≡◌ {A = VersionUpdates × W}
        (if a then (u, w) else if b then (u, w') else if not c then (v, w') else (u, w))
        (if not a && (not b && not c) then v else u, if not a && (b || not c) then w' else w)
choose true b c u v w w' = refl
choose false true c u v w w' = refl
choose false false true u v w w' = refl
choose false false false u v w w' = refl

all_same : (a b : Bool) (s : Bytes) → (not a && (not b && not (text_eq s s))) ≡ false
all_same a b s = ground (arith, text_eq_refl s)

unstored : (a b c : Bool) → (not a && (b || not c)) ≡ false → (not a && (not b && not c)) ≡ false
unstored a b c h = ground (arith)

module _ {World : Type 0} (m : Machine World) (data_dir root : Bytes) where
  abbrev pub version_of : Bytes → World → Bytes
  version_of name w = read_version_file m (version_path m root name) w

  -- A service has changed if it has a version and another one is stored.
  unfoldable pub has_changed : Bytes → World → Bool
  has_changed name w =
      not (text_eq (version_of name w) [])
      && (not (text_eq (read_stored_version m data_dir name w) [])
          && not (text_eq (version_of name w) (read_stored_version m data_dir name w)))

  abbrev pub is_stored : Bytes → World → Bool
  is_stored name w =
      not (text_eq (version_of name w) [])
      && (text_eq (read_stored_version m data_dir name w) []
          || not (text_eq (version_of name w) (read_stored_version m data_dir name w)))

  -- No service has changed.
  abbrev pub Settled : World → Type 0
  Settled w =
      (has_changed (codes "core") w ≡ false)
      × ((has_changed (codes "websocket") w ≡ false)
          × ((has_changed (codes "cli") w ≡ false) × (has_changed (codes "ui") w ≡ false)))

  pub check_service_lem :
      (name : Bytes) (changed : VersionUpdates → VersionUpdates) (u : VersionUpdates) (w : World)
      → check_service m data_dir root name changed (u, w) ≡ (
        if has_changed name w then changed u else u,
        if is_stored name w then store_version m data_dir name (version_of name w) w else w,
      )
  unfolding check_service has_changed
  check_service_lem name changed u w =
      choose (text_eq (version_of name w) []) (text_eq (read_stored_version m data_dir name w) [])
        (text_eq (version_of name w) (read_stored_version m data_dir name w)) u (changed u) w
        (store_version m data_dir name (version_of name w) w)

module _ {World : Type 0} (m : Machine World) (data_dir root : Bytes)
    (disk : IsDisk m data_dir) where
  version_kept :
      (name other version : Bytes) (w : World)
      → version_of m data_dir root other (store_version m data_dir name version w)
        ≡ version_of m data_dir root other w
  unfolding read_version_file
  version_kept name other version w = ap (trimmed m) (disk.keeps_source root name other version w)

  store_keeps :
      (name other version : Bytes) (w : World)
      → text_eq name other ≡ false
      → has_changed m data_dir root other (store_version m data_dir name version w)
        ≡ has_changed m data_dir root other w
  unfolding has_changed read_stored_version
  store_keeps name other version w apart =
      rw (version_kept name other version w, disk.keeps_stored name other version w apart)

  trimmed_again : (o : Option Bytes) → m.trim_space (trimmed m o) ≡ trimmed m o
  trimmed_again none = disk.trim_empty
  trimmed_again (some s) = disk.trim_again s

  store_clears :
      (name : Bytes) (w : World)
      → has_changed m data_dir root name
          (store_version m data_dir name (version_of m data_dir root name w) w)
        ≡ false
  unfolding has_changed read_stored_version read_version_file
  store_clears name w =
      rw
        (
          version_kept name name (version_of m data_dir root name w) w,
          disk.reads_back name (version_of m data_dir root name w) w,
          trimmed_again (m.read_file (version_path m root name) w),
        )
        (all_same _ _ _)

  abbrev pub after : Bytes → (VersionUpdates → VersionUpdates) → VersionUpdates × World → World
  after name changed s = (check_service m data_dir root name changed s).1

  pub flags_lem :
      (name : Bytes) (changed : VersionUpdates → VersionUpdates) (s : VersionUpdates × World)
      → (check_service m data_dir root name changed s).0
        ≡ (if has_changed m data_dir root name s.1 then changed s.0 else s.0)
  flags_lem name changed s = ap (λ x. x.0) (check_service_lem m data_dir root name changed s.0 s.1)

  -- A block of checkVersionChanges leaves the other services as they are.
  pub after_keeps :
      (name other : Bytes) (changed : VersionUpdates → VersionUpdates) (s : VersionUpdates × World)
      → text_eq name other ≡ false
      → has_changed m data_dir root other (after name changed s)
        ≡ has_changed m data_dir root other s.1
  after_keeps name other changed s apart =
      ap (λ x. has_changed m data_dir root other x.1)
        (check_service_lem m data_dir root name changed s.0 s.1)
      ∙ by_store (is_stored m data_dir root name s.1)
    where
      by_store :
          (b : Bool)
          → has_changed m data_dir root other (
              if b
              then store_version m data_dir name (version_of m data_dir root name s.1) s.1
              else s.1)
            ≡ has_changed m data_dir root other s.1
      by_store true = store_keeps name other (version_of m data_dir root name s.1) s.1 apart
      by_store false = refl

  -- It leaves its own service unchanged from what is stored.
  after_clears :
      (name : Bytes) (changed : VersionUpdates → VersionUpdates) (s : VersionUpdates × World)
      → has_changed m data_dir root name (after name changed s) ≡ false
  unfolding has_changed
  after_clears name changed s =
      ap (λ x. has_changed m data_dir root name x.1)
        (check_service_lem m data_dir root name changed s.0 s.1)
      ∙ by_store (is_stored m data_dir root name s.1) refl
    where
      by_store :
          (b : Bool)
          → is_stored m data_dir root name s.1 ≡ b
          → has_changed m data_dir root name (
              if b
              then store_version m data_dir name (version_of m data_dir root name s.1) s.1
              else s.1)
            ≡ false
      by_store true h = store_clears name s.1
      by_store false h = unstored _ _ _ h

  -- The four blocks leave nothing changed.
  pub check_services_clears :
      (w : World) → Settled m data_dir root (check_services m data_dir root w).1
  unfolding check_services text_eq
  check_services_clears w =
      let s1 = check_service m data_dir root (codes "core") core_changed (no_updates, w) in
      let s2 = check_service m data_dir root (codes "websocket") websocket_changed s1 in
      let s3 = check_service m data_dir root (codes "cli") cli_changed s2 in
      let core_settled =
        after_keeps (codes "ui") (codes "core") cli_changed s3 refl
        ∙ after_keeps (codes "cli") (codes "core") cli_changed s2 refl
        ∙ after_keeps (codes "websocket") (codes "core") websocket_changed s1 refl
        ∙ after_clears (codes "core") core_changed (no_updates, w) in
      let websocket_settled =
        after_keeps (codes "ui") (codes "websocket") cli_changed s3 refl
        ∙ after_keeps (codes "cli") (codes "websocket") cli_changed s2 refl
        ∙ after_clears (codes "websocket") websocket_changed s1 in
      let cli_settled =
        after_keeps (codes "ui") (codes "cli") cli_changed s3 refl
        ∙ after_clears (codes "cli") cli_changed s2 in
      (core_settled, (websocket_settled, (cli_settled, after_clears (codes "ui") cli_changed s3)))
