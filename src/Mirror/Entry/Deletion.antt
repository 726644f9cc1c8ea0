-- ===== src/Mirror/Entry/Deletion.antt =====
-- internal/mirror/mirror.go: the deletions that `SyncDelete` and `SyncDeleteByTarget` start.
use git_bridge.Base.{
  Text, List, [], ◌∷◌, Bool, true, false, ◌&&◌, not, if◌then◌else◌, ◌==◌, ==_iff, ◌≡◌, refl, ◌⊎◌,
  inl, inr, Bool-cases, and_true,
}
use mathlib.Core.List.{Memᴰ}
use git_bridge.Config.{RepoConfig}
use git_bridge.Errors.{Error}
use git_bridge.Mirror.{source_sqs, source_webhook}
use git_bridge.Mirror.Flow.{Service}
use git_bridge.Mirror.Refs.{allows_source_to_target, allows_target_to_source, ref_override_blocks}
use git_bridge.Mirror.Sync.{Leg, forth, back}
use git_bridge.Mirror.Delete.{do_delete_ref}
use git_bridge.Mirror.Entry.{
  Call, give_up, give_nil, side_matches, sync_delete_loop, sync_delete, sync_delete_by_target_loop,
  sync_delete_by_target,
}

module _ {W : Type 0} (s : Service W) (ref_type ref_name source : Text) where
  -- A call that changes nothing, or one that is a run of `doDeleteRef`.
  abbrev pub Removes : (RepoConfig → Leg → Type 0) → List RepoConfig → Call W → Type 0
  Removes Fits cfgs call =
      ((e : Error) × (call ≡ give_up e))
      ⊎ (call ≡ give_nil)
      ⊎ ((cfg : RepoConfig) × (leg : Leg) × Memᴰ cfg cfgs
          × Fits cfg leg
          × (call ≡ do_delete_ref s cfg leg ref_type ref_name source))

  Removes-later :
      (Fits : RepoConfig → Leg → Type 0) (cfg : RepoConfig) (cfgs : List RepoConfig) (call : Call W)
      → Removes Fits cfgs call
      → Removes Fits (cfg ∷ cfgs) call
  Removes-later Fits cfg cfgs call (inl h) = inl h
  Removes-later Fits cfg cfgs call (inr (inl h)) = inr (inl h)
  Removes-later Fits cfg cfgs call (inr (inr (c, leg, mem, fits, run))) =
      inr (inr (c, leg, Memᴰ.tail mem, fits, run))

  Removes-if :
      (Fits : RepoConfig → Leg → Type 0) (cfgs : List RepoConfig) (test : Bool) (c d : Call W)
      → (test ≡ true → Removes Fits cfgs c)
      → (test ≡ false → Removes Fits cfgs d)
      → Removes Fits cfgs (if test then c else d)
  Removes-if Fits cfgs true c d h k = h refl
  Removes-if Fits cfgs false c d h k = k refl

  -- A leg away from this path on the source's side, which the direction carries and from which no
  -- override pins the ref away.
  abbrev pub Leaves : Text → RepoConfig → Leg → Type 0
  Leaves repo cfg leg =
      (leg ≡ forth cfg)
      × (cfg.source_path ≡ repo)
      × (allows_source_to_target cfg.direction ≡ true)
      × (ref_override_blocks cfg ref_name leg.from leg.to ≡ false)

module _ {W : Type 0} (s : Service W) (ref_type ref_name : Text) where
  sync_delete_loop-Removes :
      (repo : Text) (cfgs : List RepoConfig)
      → Removes s ref_type ref_name source_sqs
          (Leaves s ref_type ref_name source_sqs repo)
          cfgs
          (sync_delete_loop s repo ref_type ref_name cfgs)
  unfolding sync_delete_loop
  sync_delete_loop-Removes repo [] = inl (_, refl)
  sync_delete_loop-Removes repo (cfg ∷ cfgs) =
      let Fits = Leaves s ref_type ref_name source_sqs repo in
      elim (Bool-cases (cfg.source_path == repo)) [
        | inr other ↦ rw other (
            Removes-later s ref_type ref_name source_sqs Fits cfg cfgs _
              (sync_delete_loop-Removes repo cfgs))
        | inl ours ↦ rw ours (
            Removes-if s ref_type ref_name source_sqs Fits (cfg ∷ cfgs)
              (ref_override_blocks cfg ref_name cfg.source cfg.target) _ _
              (λ pinned. inr (inl refl))
              λ free.
                Removes-if s ref_type ref_name source_sqs Fits (cfg ∷ cfgs)
                  (allows_source_to_target cfg.direction) _ _
                  (λ allowed. inr (
                    inr (
                      cfg,
                      forth cfg,
                      Memᴰ.head refl,
                      (refl, (==_iff cfg.source_path repo).0 ours, allowed, free),
                      refl,
                    )))
                  λ refused. inl (_, refl))
      ]

  -- `SyncDelete` either changes nothing, or is one run of `doDeleteRef` from source to target, of a
  -- configured repository with this source path whose direction allows it, for a ref that no override
  -- pins to the other direction.
  pub sync_delete-Removes :
      (repo : Text)
      → Removes s ref_type ref_name source_sqs
          (Leaves s ref_type ref_name source_sqs repo)
          s.configs
          (sync_delete s repo ref_type ref_name)
  unfolding sync_delete
  sync_delete-Removes repo = sync_delete_loop-Removes repo s.configs

  -- A leg away from a side that has this path and is named by this provider key, which the direction
  -- carries and from which no override pins the ref away.
  abbrev pub LeavesSide : Text → Text → RepoConfig → Leg → Type 0
  LeavesSide key path cfg leg =
      (ref_override_blocks cfg ref_name leg.from leg.to ≡ false)
      × (((leg ≡ forth cfg)
            × (side_matches s cfg.source key ≡ true)
            × (cfg.source_path ≡ path)
            × (allows_source_to_target cfg.direction ≡ true))
          ⊎ ((leg ≡ back cfg)
              × (side_matches s cfg.target key ≡ true)
              × (cfg.target_path ≡ path)
              × (allows_target_to_source cfg.direction ≡ true)))

  -- The two gates of a matching side: the direction, then the override.
  Removes-gate :
      (Fits : RepoConfig → Leg → Type 0) (cfg : RepoConfig) (cfgs : List RepoConfig) (leg : Leg)
      (allowed : Bool) (e : Error)
      → (allowed ≡ true → ref_override_blocks cfg ref_name leg.from leg.to ≡ false → Fits cfg leg)
      → Removes s ref_type ref_name source_webhook Fits (cfg ∷ cfgs) (
          if not allowed
          then give_up e
          else if ref_override_blocks cfg ref_name leg.from leg.to
          then give_nil
          else do_delete_ref s cfg leg ref_type ref_name source_webhook)
  Removes-gate Fits cfg cfgs leg false e fits = inl (e, refl)
  Removes-gate Fits cfg cfgs leg true e fits =
      Removes-if s ref_type ref_name source_webhook Fits (cfg ∷ cfgs)
        (ref_override_blocks cfg ref_name leg.from leg.to) _ _ (λ pinned. inr (inl refl))
        λ free. inr (inr (cfg, leg, Memᴰ.head refl, fits refl free, refl))

  sync_delete_by_target_loop-Removes :
      (key path : Text) (cfgs : List RepoConfig)
      → Removes s ref_type ref_name source_webhook
          (LeavesSide key path)
          cfgs
          (sync_delete_by_target_loop s key path ref_type ref_name cfgs)
  unfolding sync_delete_by_target_loop
  sync_delete_by_target_loop-Removes key path [] = inl (_, refl)
  sync_delete_by_target_loop-Removes key path (cfg ∷ cfgs) =
      let Fits = LeavesSide key path in
      Removes-if s ref_type ref_name source_webhook Fits (cfg ∷ cfgs)
        (side_matches s cfg.target key && cfg.target_path == path) _ _
        (λ theirs.
          let both = and_true (side_matches s cfg.target key) (cfg.target_path == path) theirs in
          Removes-gate Fits cfg cfgs (back cfg) (allows_target_to_source cfg.direction) _
            λ allowed free.
              (free, inr (refl, both.0, (==_iff cfg.target_path path).0 both.1, allowed)))
        λ not_theirs.
          Removes-if s ref_type ref_name source_webhook Fits (cfg ∷ cfgs)
            (side_matches s cfg.source key && cfg.source_path == path) _ _
            (λ ours.
              let both = and_true (side_matches s cfg.source key) (cfg.source_path == path) ours in
              Removes-gate Fits cfg cfgs (forth cfg) (allows_source_to_target cfg.direction) _
                λ allowed free.
                  (free, inl (refl, both.0, (==_iff cfg.source_path path).0 both.1, allowed)))
            λ not_ours.
              Removes-later s ref_type ref_name source_webhook Fits cfg cfgs _
                (sync_delete_by_target_loop-Removes key path cfgs)

  -- `SyncDeleteByTarget` either changes nothing, or is one run of `doDeleteRef` of a configured
  -- repository, away from a side that has this path and is named by this provider key, in a direction
  -- that the repository allows, for a ref that no override pins to the other direction.
  pub sync_delete_by_target-Removes :
      (key path : Text)
      → Removes s ref_type ref_name source_webhook
          (LeavesSide key path)
          s.configs
          (sync_delete_by_target s key path ref_type ref_name)
  unfolding sync_delete_by_target
  sync_delete_by_target-Removes key path = sync_delete_by_target_loop-Removes key path s.configs
