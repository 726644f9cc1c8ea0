-- ===== src/Mirror/Console/Writes/Once.antt =====
-- internal/mirror/mirror.go: what `RestoreRef` and `ForcePush` record.
use git_bridge.Base.{
  Text, List, [], ◌∷◌, ◌++◌, Option, some, Bool, true, false, not, if◌then◌else◌, ◌==◌, ◌≡◌, refl,
  ◌∙◌, ==_iff, Bool-cases, inl, inr,
}
use git_bridge.Config.{RepoConfig}
use git_bridge.Errors.{Error}
use git_bridge.History.{Event, Action, Reason, fail}
use git_bridge.Mirror.{full_ref_name, source_console}
use git_bridge.Mirror.Flow.{Service, State}
use git_bridge.Mirror.Entry.{Call}
use git_bridge.Mirror.Refs.{allows_source_to_target, allows_target_to_source, ref_override_blocks}
use git_bridge.Mirror.Sync.{forth, back, mirror_event, do_mirror}
use git_bridge.Mirror.Sync.Once.{do_mirror-records}
use git_bridge.Mirror.Delete.{ref_event}
use git_bridge.Mirror.Restore.{do_restore_ref}
use git_bridge.Mirror.Restore.Once.{do_restore_ref-records}
use git_bridge.Mirror.Settles.{
  Agrees, RecordsOnce, run_settled, Settles-bind, Settles-ask, Settles-leave,
}
use git_bridge.Mirror.Console.{Side, both, target, source, neither, side_of}
use git_bridge.Mirror.Console.Writes.{
  refused_event, force_meta, refused, refuse_act, restore_side, restore_loop, restore_ref,
  force_side, force_loop, force_push,
}

-- One event of this repository, action, ref and actor, from the console, is recorded, and it is a
-- failure exactly when an error is returned.
abbrev pub Audited :
    {W : Type 0} → Text → Action → Text → Text → State W → Option Error × State W → Type 0
Audited repo action ref actor st out =
    (ev : Event) × (out.1.recorded ≡ st.recorded ++ (ev ∷ []))
    × (ev.repo ≡ repo)
    × (ev.action ≡ action)
    × (ev.source ≡ source_console)
    × (ev.ref ≡ ref)
    × (ev.actor ≡ actor)
    × Agrees out.0 ev.result

module _ {W : Type 0} where
  abbrev Heard : Text → Action → Text → Text → Call W → Type 0
  Heard repo action ref actor call = (st : State W) → Audited repo action ref actor st (call st)

  -- An operation that records its event once is heard of under the event's own names.
  heard :
      (hist : Event) (call : Call W)
      → hist.source ≡ source_console
      → ((st : State W) → RecordsOnce hist st (call st).0 (call st).1)
      → Heard hist.repo hist.action hist.ref hist.actor call
  heard hist call console records st =
      let (ev, one, (repo, action, cause, from, to, ref, actor), agrees) = records st in
      (ev, one, repo, action, cause ∙ console, ref, actor, agrees)

module _ {W : Type 0} (s : Service W) where
  refused-records :
      (ev : Event) (why : Reason) (e : Error) (st : State W)
      → RecordsOnce ev st (refused s ev why e st).0 (refused s ev why e st).1
  unfolding refused refuse_act
  refused-records ev why e st =
      run_settled {hist = ev} _
        (Settles-bind _ _ (Settles-ask _) λ now.
          Settles-leave s now ev fail why (some e) (refl, refl, refl, refl, refl, refl, refl) refl)
        st

  refused-Heard :
      (action : Action) (repo from to ref actor : Text) (why : Reason) (e : Error)
      → Heard repo action ref actor (refused s (refused_event action repo from to ref actor) why e)
  refused-Heard action repo from to ref actor why e =
      heard (refused_event action repo from to ref actor)
        (refused s (refused_event action repo from to ref actor) why e) refl
        (refused-records (refused_event action repo from to ref actor) why e)

  Heard-if :
      (repo : Text) (action : Action) (ref actor : Text) (b : Bool) (c d : Call W)
      → Heard repo action ref actor c
      → Heard repo action ref actor d
      → Heard repo action ref actor (if b then c else d)
  Heard-if repo action ref actor true c d kc kd = kc
  Heard-if repo action ref actor false c d kc kd = kd

  Heard-restore :
      (cfg : RepoConfig) (to ref_type ref_name sha actor : Text) (side : Side)
      → Heard cfg.name Action.restore
          (full_ref_name ref_type ref_name)
          actor
          (restore_side s cfg to ref_type ref_name sha actor side)
  unfolding restore_side
  Heard-restore cfg to ref_type ref_name sha actor both =
      refused-Heard Action.restore cfg.name _ _ _ actor _ _
  Heard-restore cfg to ref_type ref_name sha actor neither =
      refused-Heard Action.restore cfg.name _ _ _ actor _ _
  Heard-restore cfg to ref_type ref_name sha actor target =
      Heard-if _ _ _ _ (not (allows_source_to_target cfg.direction)) _ _
        (refused-Heard Action.restore cfg.name _ _ _ actor _ _)
        (Heard-if _ _ _ _ (ref_override_blocks cfg ref_name cfg.source cfg.target) _ _
          (refused-Heard Action.restore cfg.name _ _ _ actor _ _)
          (heard (ref_event Action.restore cfg (forth cfg) ref_type ref_name source_console actor)
            (do_restore_ref s cfg (forth cfg) ref_type ref_name sha actor) refl
            (do_restore_ref-records s cfg (forth cfg) ref_type ref_name sha actor)))
  Heard-restore cfg to ref_type ref_name sha actor source =
      Heard-if _ _ _ _ (not (allows_target_to_source cfg.direction)) _ _
        (refused-Heard Action.restore cfg.name _ _ _ actor _ _)
        (Heard-if _ _ _ _ (ref_override_blocks cfg ref_name cfg.target cfg.source) _ _
          (refused-Heard Action.restore cfg.name _ _ _ actor _ _)
          (heard (ref_event Action.restore cfg (back cfg) ref_type ref_name source_console actor)
            (do_restore_ref s cfg (back cfg) ref_type ref_name sha actor) refl
            (do_restore_ref-records s cfg (back cfg) ref_type ref_name sha actor)))

  Heard-force :
      (cfg : RepoConfig) (to ref dest actor : Text) (side : Side)
      → Heard cfg.name Action.mirror ref actor (force_side s cfg to ref dest actor side)
  unfolding force_side
  Heard-force cfg to ref dest actor both = refused-Heard Action.mirror cfg.name _ _ ref actor _ _
  Heard-force cfg to ref dest actor neither = refused-Heard Action.mirror cfg.name _ _ ref actor _ _
  Heard-force cfg to ref dest actor target =
      Heard-if _ _ _ _ (not (allows_source_to_target cfg.direction)) _ _
        (refused-Heard Action.mirror cfg.name _ _ ref actor _ _)
        (heard (mirror_event cfg (forth cfg) (force_meta ref dest actor))
          (do_mirror s cfg (forth cfg) (force_meta ref dest actor)) refl
          (do_mirror-records s cfg (forth cfg) (force_meta ref dest actor)))
  Heard-force cfg to ref dest actor source =
      Heard-if _ _ _ _ (not (allows_target_to_source cfg.direction)) _ _
        (refused-Heard Action.mirror cfg.name _ _ ref actor _ _)
        (heard (mirror_event cfg (back cfg) (force_meta ref dest actor))
          (do_mirror s cfg (back cfg) (force_meta ref dest actor)) refl
          (do_mirror-records s cfg (back cfg) (force_meta ref dest actor)))

  Heard-restore_loop :
      (repo to ref_type ref_name sha actor : Text) (cfgs : List RepoConfig)
      → Heard repo Action.restore
          (full_ref_name ref_type ref_name)
          actor
          (restore_loop s repo to ref_type ref_name sha actor cfgs)
  unfolding restore_loop
  Heard-restore_loop repo to ref_type ref_name sha actor [] =
      refused-Heard Action.restore repo _ _ _ actor _ _
  Heard-restore_loop repo to ref_type ref_name sha actor (cfg ∷ cfgs) =
      elim (Bool-cases (cfg.name == repo)) [
        | inl named ↦ rw named (
            rw (← (==_iff cfg.name repo).0 named)
              (Heard-restore cfg to ref_type ref_name sha actor (side_of s cfg to)))
        | inr other ↦ rw other (Heard-restore_loop repo to ref_type ref_name sha actor cfgs)
      ]

  -- Whatever is asked of `RestoreRef` and whatever git answers, exactly one event is recorded: a
  -- restore of the named repository and ref by the named person, from the console, which is a failure
  -- exactly when an error is returned. Every refusal, the unknown repository included, leaves one.
  pub restore_ref-Audited :
      (repo to ref_type ref_name sha actor : Text) (st : State W)
      → Audited repo Action.restore
          (full_ref_name ref_type ref_name)
          actor
          st
          (restore_ref s repo to ref_type ref_name sha actor st)
  unfolding restore_ref
  restore_ref-Audited repo to ref_type ref_name sha actor =
      Heard-restore_loop repo to ref_type ref_name sha actor s.configs

  Heard-force_loop :
      (repo to ref dest actor : Text) (cfgs : List RepoConfig)
      → Heard repo Action.mirror ref actor (force_loop s repo to ref dest actor cfgs)
  unfolding force_loop
  Heard-force_loop repo to ref dest actor [] = refused-Heard Action.mirror repo _ _ ref actor _ _
  Heard-force_loop repo to ref dest actor (cfg ∷ cfgs) = elim (Bool-cases (cfg.name == repo)) [
    | inl named ↦ rw named (
        rw (← (==_iff cfg.name repo).0 named)
          (Heard-force cfg to ref dest actor (side_of s cfg to)))
    | inr other ↦ rw other (Heard-force_loop repo to ref dest actor cfgs)
  ]

  -- Whatever is asked of `ForcePush` and whatever git answers, exactly one event is recorded: a mirror
  -- run of the named repository and ref by the named person, from the console, which is a failure
  -- exactly when an error is returned.
  force_push-Audited :
      (repo to ref dest actor : Text) (st : State W)
      → Audited repo Action.mirror ref actor st (force_push s repo to ref dest actor st)
  unfolding force_push
  force_push-Audited repo to ref dest actor = Heard-force_loop repo to ref dest actor s.configs
