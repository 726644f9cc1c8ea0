-- ===== src/Mirror/Console/Writes/Forced.antt =====
-- internal/mirror/mirror.go, `ForcePush`: which run of `doMirror` it is.
use mathlib.Core.List.{Memᴰ}
use git_bridge.Base.{Text, List, [], ◌∷◌, true, ◌==◌, ◌≡◌, refl, ◌⊎◌, inl, inr, Bool-cases}
use git_bridge.Config.{RepoConfig}
use git_bridge.Errors.{Error}
use git_bridge.History.{Event, Reason}
use git_bridge.Mirror.Flow.{Service, State, ◌>>=◌, run}
use git_bridge.Mirror.Refs.{allows_source_to_target, allows_target_to_source}
use git_bridge.Mirror.Steps.{leave}
use git_bridge.Mirror.Sync.{Leg, forth, back, do_mirror}
use git_bridge.Mirror.Entry.{Call}
use git_bridge.Mirror.Console.{Side, both, target, source, neither, side_of}
use git_bridge.Mirror.Console.Writes.{
  refused, refuse_act, refuse_force, force_meta, force_side, force_loop, force_push,
}

module _ {W : Type 0} (s : Service W) where
  -- The world stays as it is, or the call is one forced run of `doMirror` of a repository of the list,
  -- in a direction that it allows.
  abbrev pub Forces : List RepoConfig → Text → Text → Text → Call W → Type 0
  Forces cfgs ref dest actor call =
      ((st : State W) → (call st).1.world ≡ st.world)
      ⊎ ((cfg : RepoConfig) × (leg : Leg) × Memᴰ cfg cfgs
          × (((leg ≡ forth cfg) × (allows_source_to_target cfg.direction ≡ true))
              ⊎ ((leg ≡ back cfg) × (allows_target_to_source cfg.direction ≡ true)))
          × (call ≡ do_mirror s cfg leg (force_meta ref dest actor)))

  refused-still :
      (ev : Event) (why : Reason) (e : Error) (st : State W)
      → (refused s ev why e st).1.world ≡ st.world
  unfolding refused refuse_act run ◌>>=◌ leave
  refused-still ev why e st = refl

  side-Forces :
      (cfg : RepoConfig) (cfgs : List RepoConfig) (to ref dest actor : Text) (side : Side)
      → Forces (cfg ∷ cfgs) ref dest actor (force_side s cfg to ref dest actor side)
  unfolding force_side refuse_force
  side-Forces cfg cfgs to ref dest actor both = inl (refused-still _ _ _)
  side-Forces cfg cfgs to ref dest actor neither = inl (refused-still _ _ _)
  side-Forces cfg cfgs to ref dest actor target =
      elim (Bool-cases (allows_source_to_target cfg.direction)) [
        | inl allowed ↦ rw allowed (inr (cfg, forth cfg, Memᴰ.head refl, inl (refl, allowed), refl))
        | inr barred ↦ rw barred (inl (refused-still _ _ _))
      ]
  side-Forces cfg cfgs to ref dest actor source =
      elim (Bool-cases (allows_target_to_source cfg.direction)) [
        | inl allowed ↦ rw allowed (inr (cfg, back cfg, Memᴰ.head refl, inr (refl, allowed), refl))
        | inr barred ↦ rw barred (inl (refused-still _ _ _))
      ]

  more-Forces :
      (cfg : RepoConfig) (cfgs : List RepoConfig) (ref dest actor : Text) (call : Call W)
      → Forces cfgs ref dest actor call
      → Forces (cfg ∷ cfgs) ref dest actor call
  more-Forces cfg cfgs ref dest actor call (inl still) = inl still
  more-Forces cfg cfgs ref dest actor call (inr (c, leg, mem, way, runs)) =
      inr (c, leg, Memᴰ.tail mem, way, runs)

  loop-Forces :
      (repo to ref dest actor : Text) (cfgs : List RepoConfig)
      → Forces cfgs ref dest actor (force_loop s repo to ref dest actor cfgs)
  unfolding force_loop
  loop-Forces repo to ref dest actor [] = inl (refused-still _ _ _)
  loop-Forces repo to ref dest actor (cfg ∷ cfgs) = elim (Bool-cases (cfg.name == repo)) [
    | inl named ↦ rw named (side-Forces cfg cfgs to ref dest actor (side_of s cfg to))
    | inr other ↦
        rw other (more-Forces cfg cfgs ref dest actor _ (loop-Forces repo to ref dest actor cfgs))
  ]

  pub force_push-Forces :
      (repo to ref dest actor : Text)
      → Forces s.configs ref dest actor (force_push s repo to ref dest actor)
  unfolding force_push
  force_push-Forces repo to ref dest actor = loop-Forces repo to ref dest actor s.configs
