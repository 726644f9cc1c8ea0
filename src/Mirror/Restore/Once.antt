-- ===== src/Mirror/Restore/Once.antt =====
-- internal/mirror/mirror.go: what `doRestoreRef` records.
use git_bridge.Base.{Text, ℕ, [], Option, none, some, refl, ◌==◌, not}
use git_bridge.Config.{RepoConfig}
use git_bridge.Errors.{Error, Result, value, failed}
use git_bridge.History.{Event, Action, Reason, ok, skip, fail}
use git_bridge.Provider.{Provider}
use git_bridge.Mirror.{source_console}
use git_bridge.Mirror.Flow.{Service, State}
use git_bridge.Mirror.Settles.{
  run_settled, Story, RecordsOnce, Settles, Settles-leave, Settles-leave_as, Settles-bind,
  Settles-if, Settles-ask, Settles-call, Settles-require_provider, Settles-send, Settles-is_busy,
}
use git_bridge.Mirror.Steps.Settle.{mirror_dir_for-Settles}
use git_bridge.Mirror.Sync.{Leg}
use git_bridge.Mirror.Delete.{ref_event}
use git_bridge.Mirror.Restore.{
  refuse, created, create, fetched, cached, fill, tip_outcome, locked, restore_act, do_restore_ref,
}

module _ {W : Type 0} (s : Service W) (cfg : RepoConfig) (leg : Leg)
    (ref_type ref_name sha actor : Text) where
  module _ {hist : Event} (since : ℕ) (hist' : Event) (h : Story hist hist') where
    refuse-Settles :
        (why : Reason) (e : Error)
        → Settles hist (refuse s cfg leg ref_type ref_name sha actor since hist' why e)
    unfolding refuse
    refuse-Settles why e =
        Settles-bind _ _ (Settles-send _) λ _. Settles-leave s since hist' fail why (some e) h refl

    created-Settles :
        (tgt : Provider) (e : Option Error)
        → Settles hist (created s cfg leg ref_type ref_name sha actor since hist' tgt e)
    unfolding created
    created-Settles tgt (some e) =
        Settles-bind _ _ (Settles-send _) λ _. Settles-leave_as s since hist' _ e _ h
    created-Settles tgt none =
        Settles-bind _ _ (Settles-send _) λ _. Settles-leave s since _ ok _ none h (λ e. cc)

    create-Settles :
        (tgt : Provider) (dir : Text)
        → Settles hist (create s cfg leg ref_type ref_name sha actor since hist' tgt dir)
    unfolding create
    create-Settles tgt dir = Settles-bind _ _ (Settles-call _) λ made. created-Settles tgt made

    fetched-Settles :
        (tgt : Provider) (dir : Text) (e : Option Error)
        → Settles hist (fetched s cfg leg ref_type ref_name sha actor since hist' tgt dir e)
    unfolding fetched
    fetched-Settles tgt dir (some e) = refuse-Settles _ _
    fetched-Settles tgt dir none = create-Settles tgt dir

    cached-Settles :
        (src tgt : Provider) (dir : Text) (e : Option Error)
        → Settles hist (cached s cfg leg ref_type ref_name sha actor since hist' src tgt dir e)
    unfolding cached
    cached-Settles src tgt dir (some e) = refuse-Settles _ e
    cached-Settles src tgt dir none = Settles-bind _ _ (Settles-ask _) λ there.
        Settles-if there _ _ (create-Settles tgt dir)
          (Settles-bind _ _ (Settles-call _) λ got. fetched-Settles tgt dir got)

    fill-Settles :
        (src tgt : Provider)
        → Settles hist (fill s cfg leg ref_type ref_name sha actor since hist' src tgt)
    unfolding fill
    fill-Settles src tgt =
        Settles-bind _ _ (mirror_dir_for-Settles s cfg.name leg.from)
          λ dir. Settles-bind _ _ (Settles-call _) λ made. cached-Settles src tgt dir made

    tip_outcome-Settles :
        (src tgt : Provider) (tip : Result Text)
        → Settles hist (tip_outcome s cfg leg ref_type ref_name sha actor since hist' src tgt tip)
    unfolding tip_outcome
    tip_outcome-Settles src tgt (failed e) =
        Settles-bind _ _ (Settles-send _) λ _. Settles-leave_as s since hist' _ e _ h
    tip_outcome-Settles src tgt (value tip) =
        Settles-if (tip == sha) _ _ (Settles-leave s since hist' skip _ none h (λ e. cc))
          (Settles-if (not (tip == [])) _ _ (refuse-Settles _ _) (fill-Settles src tgt))

    locked-Settles : Settles hist (locked s cfg leg ref_type ref_name sha actor since hist')
    unfolding locked
    locked-Settles = Settles-bind _ _ (Settles-require_provider s since hist' leg.from h) λ src.
        Settles-bind _ _ (Settles-require_provider s since hist' leg.to h)
          λ tgt. Settles-bind _ _ (Settles-call _) λ tip. tip_outcome-Settles src tgt tip

  restore_act-Settles :
      Settles
        (ref_event Action.restore cfg leg ref_type ref_name source_console actor)
        (restore_act s cfg leg ref_type ref_name sha actor)
  unfolding restore_act
  restore_act-Settles =
      let hist = ref_event Action.restore cfg leg ref_type ref_name source_console actor in
      let story : Story hist hist = (refl, refl, refl, refl, refl, refl, refl) in
      Settles-bind _ _ (Settles-ask _) λ since. Settles-bind _ _ (Settles-is_busy _) λ held.
        Settles-if held _ _ (Settles-leave s since _ fail _ _ story refl)
          (locked-Settles since _ story)

  -- Whatever happens, `doRestoreRef` returns having recorded exactly one event of the restore, and its
  -- result is a failure exactly when an error is returned.
  pub do_restore_ref-records :
      (st : State W)
      → RecordsOnce
          (ref_event Action.restore cfg leg ref_type ref_name source_console actor)
          st
          (do_restore_ref s cfg leg ref_type ref_name sha actor st).0
          (do_restore_ref s cfg leg ref_type ref_name sha actor st).1
  unfolding do_restore_ref
  do_restore_ref-records st =
      run_settled (restore_act s cfg leg ref_type ref_name sha actor) restore_act-Settles st
