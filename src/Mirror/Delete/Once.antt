-- ===== src/Mirror/Delete/Once.antt =====
-- internal/mirror/mirror.go: what `doDeleteRef` records.
use git_bridge.Base.{Text, ℕ, [], Option, none, some, refl, ◌==◌}
use git_bridge.Config.{RepoConfig}
use git_bridge.Errors.{Error, Result, value, failed}
use git_bridge.History.{Event, Action, ok, skip}
use git_bridge.Provider.{Provider}
use git_bridge.Mirror.Flow.{Service, State}
use git_bridge.Mirror.Settles.{
  run_settled, Story, RecordsOnce, Settles, Settles-leave, Settles-leave_as, Settles-bind,
  Settles-if, Settles-ask, Settles-call, Settles-require_provider, Settles-send, Settles-finally,
}
use git_bridge.Mirror.Sync.{Leg}
use git_bridge.Mirror.Delete.{ref_event, deleted, tip_outcome, check_tip, delete_act, do_delete_ref}

module _ {W : Type 0} (s : Service W) (cfg : RepoConfig) (leg : Leg)
    (ref_type ref_name : Text) where
  module _ {hist : Event} (since : ℕ) (tgt : Provider) where
    deleted-Settles :
        (hist' : Event) (tip : Text) (e : Option Error)
        → Story hist hist'
        → Settles hist (deleted s cfg leg ref_type ref_name since hist' tgt tip e)
    unfolding deleted
    deleted-Settles hist' tip (some e) h =
        Settles-bind _ _ (Settles-send _) λ _. Settles-leave_as s since hist' _ e _ h
    deleted-Settles hist' tip none h =
        Settles-bind _ _ (Settles-send _) λ _. Settles-leave s since _ ok _ none h (λ e. cc)

    tip_outcome-Settles :
        (hist' : Event) (dir : Text) (tip : Result Text)
        → Story hist hist'
        → Settles hist (tip_outcome s cfg leg ref_type ref_name since hist' tgt dir tip)
    unfolding tip_outcome
    tip_outcome-Settles hist' dir (failed e) h =
        Settles-bind _ _ (Settles-send _) λ _. Settles-leave_as s since hist' _ e _ h
    tip_outcome-Settles hist' dir (value tip) h =
        Settles-if (tip == []) _ _ (Settles-leave s since hist' skip _ none h (λ e. cc))
          (Settles-bind _ _ (Settles-call _) λ gone. deleted-Settles hist' tip gone h)

    check_tip-Settles :
        (hist' : Event) (dir : Text)
        → Story hist hist'
        → Settles hist (check_tip s cfg leg ref_type ref_name since hist' tgt dir)
    unfolding check_tip
    check_tip-Settles hist' dir h =
        Settles-bind _ _ (Settles-call _) λ tip. tip_outcome-Settles hist' dir tip h

  delete_act-Settles :
      (source : Text)
      → Settles
          (ref_event Action.delete cfg leg ref_type ref_name source [])
          (delete_act s cfg leg ref_type ref_name source)
  unfolding delete_act
  delete_act-Settles source =
      let hist = ref_event Action.delete cfg leg ref_type ref_name source [] in
      let story : Story hist hist = (refl, refl, refl, refl, refl, refl, refl) in
      Settles-bind _ _ (Settles-ask _) λ since.
        Settles-bind _ _ (Settles-require_provider s since _ leg.to story) λ tgt.
          Settles-bind _ _ (Settles-require_provider s since _ leg.from story)
            λ src. Settles-finally _ _ (check_tip-Settles since tgt _ _ story)

  -- Whatever happens, `doDeleteRef` returns having recorded exactly one event of the deletion, and its
  -- result is a failure exactly when an error is returned.
  pub do_delete_ref-records :
      (source : Text) (st : State W)
      → RecordsOnce
          (ref_event Action.delete cfg leg ref_type ref_name source [])
          st
          (do_delete_ref s cfg leg ref_type ref_name source st).0
          (do_delete_ref s cfg leg ref_type ref_name source st).1
  unfolding do_delete_ref
  do_delete_ref-records source st =
      run_settled (delete_act s cfg leg ref_type ref_name source) (delete_act-Settles source) st
