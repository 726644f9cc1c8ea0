-- ===== src/Mirror/Entry/Dispatch.antt =====
-- internal/mirror/mirror.go: the runs that the entry points start.
use git_bridge.Base.{
  Text, List, [], ◌∷◌, Bool, true, false, ◌&&◌, if◌then◌else◌, ◌==◌, ◌≡◌, refl, sym, ◌∙◌, ◌⊎◌, inl,
  inr, Bool-cases, and_true, ==_iff, is_some, lookup,
}
use mathlib.Core.List.{Memᴰ}
use git_bridge.Config.{RepoConfig, direction_source_to_target, direction_target_to_source}
use git_bridge.Errors.{Error}
use git_bridge.Mirror.{EventMeta}
use git_bridge.Mirror.Flow.{Service}
use git_bridge.Mirror.Refs.{allows_source_to_target, allows_target_to_source, direction_allowed}
use git_bridge.Mirror.Refs.Directions.{direction_allowed-forth, direction_allowed-back}
use git_bridge.Mirror.Sync.{Leg, forth, back, do_mirror}
use git_bridge.Mirror.Entry.{
  Call, give_up, side_matches, sync_loop, sync, sync_by_target_loop, sync_by_target,
  retry_direction, retry_loop, retry, resolve_direction,
}

-- The leg of the repository whose event at `path` it is, when the direction carries it.
abbrev pub Carries : RepoConfig → Leg → Text → Type 0
Carries cfg leg path =
    ((leg ≡ forth cfg) × (cfg.source_path ≡ path) × (allows_source_to_target cfg.direction ≡ true))
    ⊎ ((leg ≡ back cfg) × (cfg.target_path ≡ path) × (allows_target_to_source cfg.direction ≡ true))

module _ {W : Type 0} (s : Service W) where
  -- A call that changes nothing and returns an error, or one that is a run of `doMirror`.
  abbrev pub Starts : (RepoConfig → Leg → Type 0) → List RepoConfig → EventMeta → Call W → Type 0
  Starts Fits cfgs meta call =
      ((e : Error) × (call ≡ give_up e))
      ⊎ ((cfg : RepoConfig) × (leg : Leg) × Memᴰ cfg cfgs
          × Fits cfg leg
          × (call ≡ do_mirror s cfg leg meta))

  later :
      (Fits : RepoConfig → Leg → Type 0) (cfg : RepoConfig) (cfgs : List RepoConfig)
      (meta : EventMeta) (call : Call W)
      → Starts Fits cfgs meta call
      → Starts Fits (cfg ∷ cfgs) meta call
  later Fits cfg cfgs meta call (inl h) = inl h
  later Fits cfg cfgs meta call (inr (c, leg, mem, fits, run)) =
      inr (c, leg, Memᴰ.tail mem, fits, run)

  gated :
      (Fits : RepoConfig → Leg → Type 0) (cfg : RepoConfig) (cfgs : List RepoConfig) (leg : Leg)
      (meta : EventMeta) (b : Bool) (e : Error)
      → (b ≡ true → Fits cfg leg)
      → Starts Fits (cfg ∷ cfgs) meta (if b then do_mirror s cfg leg meta else give_up e)
  gated Fits cfg cfgs leg meta true e fits = inr (cfg, leg, Memᴰ.head refl, fits refl, refl)
  gated Fits cfg cfgs leg meta false e fits = inl (e, refl)

  -- A leg that leaves from this path on the source's side.
  abbrev pub FromSource : Text → RepoConfig → Leg → Type 0
  FromSource path cfg leg =
      (leg ≡ forth cfg) × (cfg.source_path ≡ path) × (allows_source_to_target cfg.direction ≡ true)

  sync_loop-Starts :
      (repo : Text) (meta : EventMeta) (cfgs : List RepoConfig)
      → Starts (FromSource repo) cfgs meta (sync_loop s repo meta cfgs)
  unfolding sync_loop
  sync_loop-Starts repo meta [] = inl (_, refl)
  sync_loop-Starts repo meta (cfg ∷ cfgs) = elim (Bool-cases (cfg.source_path == repo)) [
    | inl ours ↦ rw ours (
        gated (FromSource repo) cfg cfgs (forth cfg) meta (allows_source_to_target cfg.direction) _
          λ allowed. (refl, (==_iff cfg.source_path repo).0 ours, allowed))
    | inr other ↦
        rw other (later (FromSource repo) cfg cfgs meta _ (sync_loop-Starts repo meta cfgs))
  ]

  -- `Sync` either changes nothing and returns an error, or is one run of `doMirror` from source to
  -- target, of a configured repository with this source path whose direction allows it.
  pub sync-Starts :
      (repo : Text) (meta : EventMeta) → Starts (FromSource repo) s.configs meta (sync s repo meta)
  unfolding sync
  sync-Starts repo meta = sync_loop-Starts repo meta s.configs

  -- The leg of a side with this path and this provider, when the direction carries it.
  abbrev pub FromSide : Text → Text → RepoConfig → Leg → Type 0
  FromSide key path cfg leg =
      (leg ≡ forth cfg)
        × (side_matches s cfg.source key ≡ true)
        × (cfg.source_path ≡ path)
        × (allows_source_to_target cfg.direction ≡ true)
      ⊎ ((leg ≡ back cfg)
          × (side_matches s cfg.target key ≡ true)
          × (cfg.target_path ≡ path)
          × (allows_target_to_source cfg.direction ≡ true))

  from_source :
      (key path : Text) (cfg : RepoConfig) (cfgs : List RepoConfig) (meta : EventMeta) (e : Error)
      (rest : Call W)
      → Starts (FromSide key path) cfgs meta rest
      → Starts (FromSide key path) (cfg ∷ cfgs) meta (
          if is_some (lookup cfg.target s.providers)
            && (side_matches s cfg.source key && cfg.source_path == path)
          then (if allows_source_to_target cfg.direction
              then do_mirror s cfg (forth cfg) meta
              else give_up e)
          else rest)
  from_source key path cfg cfgs meta e rest h =
      elim (Bool-cases (
        is_some (lookup cfg.target s.providers)
        && (side_matches s cfg.source key && cfg.source_path == path))) [
          | inl ours ↦
              let both =
                and_true (side_matches s cfg.source key) (cfg.source_path == path)
                  (and_true (is_some (lookup cfg.target s.providers)) _ ours).1 in
              rw ours (
                gated (FromSide key path) cfg cfgs (forth cfg) meta
                  (allows_source_to_target cfg.direction) e
                  λ allowed. inl (refl, both.0, (==_iff cfg.source_path path).0 both.1, allowed))
          | inr other ↦ rw other (later (FromSide key path) cfg cfgs meta rest h)
        ]

  sync_by_target_loop-Starts :
      (key path : Text) (meta : EventMeta) (cfgs : List RepoConfig)
      → Starts (FromSide key path) cfgs meta (sync_by_target_loop s key path meta cfgs)
  unfolding sync_by_target_loop
  sync_by_target_loop-Starts key path meta [] = inl (_, refl)
  sync_by_target_loop-Starts key path meta (cfg ∷ cfgs) =
      elim (Bool-cases (side_matches s cfg.target key && cfg.target_path == path)) [
        | inl ours ↦
            let both = and_true (side_matches s cfg.target key) (cfg.target_path == path) ours in
            rw ours (
              gated (FromSide key path) cfg cfgs (back cfg) meta
                (allows_target_to_source cfg.direction) _
                λ allowed. inr (refl, both.0, (==_iff cfg.target_path path).0 both.1, allowed))
        | inr other ↦
            rw other (
              from_source key path cfg cfgs meta _ _
                (sync_by_target_loop-Starts key path meta cfgs))
      ]

  -- `SyncByTarget` either changes nothing and returns an error, or is one run of `doMirror` of a
  -- configured repository, away from a side that has this path and is named by this provider key, and
  -- in a direction that the repository allows.
  pub sync_by_target-Starts :
      (key path : Text) (meta : EventMeta)
      → Starts (FromSide key path) s.configs meta (sync_by_target s key path meta)
  unfolding sync_by_target
  sync_by_target-Starts key path meta = sync_by_target_loop-Starts key path meta s.configs

  -- A leg of the repository of this name, in the direction that the request resolves to, which the
  -- repository allows.
  abbrev pub Requested : Text → Text → RepoConfig → Leg → Type 0
  Requested repo direction cfg leg =
      (cfg.name ≡ repo)
      × (((leg ≡ forth cfg)
            × (resolve_direction cfg direction ≡ direction_source_to_target)
            × (allows_source_to_target cfg.direction ≡ true))
          ⊎ ((leg ≡ back cfg)
              × (resolve_direction cfg direction ≡ direction_target_to_source)
              × (allows_target_to_source cfg.direction ≡ true)))

  retry_direction-Starts :
      (repo direction : Text) (cfg : RepoConfig) (cfgs : List RepoConfig) (meta : EventMeta)
      → cfg.name ≡ repo
      → (dir : Text) → resolve_direction cfg direction ≡ dir
      → Starts (Requested repo direction) (cfg ∷ cfgs) meta (retry_direction s cfg meta dir)
  unfolding retry_direction
  retry_direction-Starts repo direction cfg cfgs meta named dir resolved =
      elim (Bool-cases (direction_allowed cfg.direction dir)) [
        | inr refused ↦ rw refused (inl (_, refl))
        | inl allowed ↦ elim (Bool-cases (dir == direction_source_to_target)) [
          | inl ahead ↦
              let is_forth = (==_iff dir direction_source_to_target).0 ahead in
              rw (allowed, ahead)
                (inr (
                  cfg,
                  forth cfg,
                  Memᴰ.head refl,
                  (
                    named,
                    inl (
                      refl,
                      resolved ∙ is_forth,
                      sym (direction_allowed-forth cfg.direction) ∙ (rw (← is_forth) allowed),
                    ),
                  ),
                  refl,
                ))
          | inr not_ahead ↦ elim (Bool-cases (dir == direction_target_to_source)) [
            | inl behind ↦
                let is_back = (==_iff dir direction_target_to_source).0 behind in
                rw (allowed, not_ahead, behind)
                  (inr (
                    cfg,
                    back cfg,
                    Memᴰ.head refl,
                    (
                      named,
                      inr (
                        refl,
                        resolved ∙ is_back,
                        sym (direction_allowed-back cfg.direction) ∙ (rw (← is_back) allowed),
                      ),
                    ),
                    refl,
                  ))
            | inr unknown ↦ rw (allowed, not_ahead, unknown) (inl (_, refl))
          ]
        ]
      ]

  retry_loop-Starts :
      (repo direction : Text) (meta : EventMeta) (cfgs : List RepoConfig)
      → Starts (Requested repo direction) cfgs meta (retry_loop s repo direction meta cfgs)
  unfolding retry_loop
  retry_loop-Starts repo direction meta [] = inl (_, refl)
  retry_loop-Starts repo direction meta (cfg ∷ cfgs) = elim (Bool-cases (cfg.name == repo)) [
    | inl named ↦ rw named (
        retry_direction-Starts repo direction cfg cfgs meta ((==_iff cfg.name repo).0 named) _ refl)
    | inr other ↦ rw other (
        later (Requested repo direction) cfg cfgs meta _
          (retry_loop-Starts repo direction meta cfgs))
  ]

  -- `Retry` either changes nothing and returns an error, or is one run of `doMirror` of the configured
  -- repository of that name, in the direction that the request resolves to, which the repository allows.
  pub retry-Starts :
      (repo direction : Text) (meta : EventMeta)
      → Starts (Requested repo direction) s.configs meta (retry s repo direction meta)
  unfolding retry
  retry-Starts repo direction meta = retry_loop-Starts repo direction meta s.configs
