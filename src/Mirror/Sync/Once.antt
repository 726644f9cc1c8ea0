-- ===== src/Mirror/Sync/Once.antt =====
-- internal/mirror/mirror.go: what `doMirror` records.
use git_bridge.Base.{lit, not, is_empty, Text, ℕ, List, [], ◌∷◌, Option, none, some, refl}
use git_bridge.Config.{RepoConfig}
use git_bridge.Errors.{Error, Result, value, failed}
use git_bridge.History.{ok, skip, fail, Event, ForcedRef, Reason}
use git_bridge.Mirror.{EventMeta}
use git_bridge.Mirror.Flow.{Service, State}
use git_bridge.Mirror.Git.{PushResult}
use git_bridge.Mirror.Plan.{PushPlan}
use git_bridge.Provider.{Provider}
use git_bridge.Mirror.Steps.Settle.{
  report_held-Settles, report_forced-Settles, mirror_dir_for-Settles, ensure_mirror-Settles,
}
use git_bridge.Mirror.Settles.{
  run_settled, Story, RecordsOnce, Settles, settles_rules, Settles-leave, Settles-leave_as,
  Settles-bind, Settles-if, Settles-ask, Settles-call, Settles-require_provider, Settles-send,
}
use git_bridge.Mirror.Sync.{
  Leg, mirror_event, push_failed, announce, report_overwritten, pushed, push_outcome, carry_out,
  plan_outcome, refs_outcome, prepared, mirror_body, mirror_act, do_mirror,
}

module _ {W : Type 0} (s : Service W) (cfg : RepoConfig) (leg : Leg) (meta : EventMeta)
    {hist : Event} where
  -- Each part of `doMirror` settles, whatever event of the same story it is handed.
  module _ (since : ℕ) where
    push_failed-Settles :
        {A : Type 0} (hist' : Event) (step : Text) (e : Error)
        → Story hist hist'
        → Settles hist (push_failed s cfg leg meta {A = A} since hist' step e)
    unfolding push_failed
    push_failed-Settles hist' step e h = search (settles_rules, Settles-leave_as)

    announce-Settles :
        (hist' : Event) (dir : Text) (tgt : Provider) (elapsed : ℕ) (why : Reason)
        (forced : List ForcedRef)
        → Story hist hist'
        → Settles hist (announce s cfg leg meta since hist' dir tgt elapsed why forced)
    unfolding announce
    announce-Settles hist' dir tgt elapsed why forced h =
        Settles-bind _ _ (Settles-ask _) λ message.
          Settles-bind _ _ (Settles-send message)
            λ _. Settles-leave s since hist' ok why none h (λ e. cc)

    report_overwritten-Settles :
        (hist' : Event) (dir : Text) (tgt : Provider) (elapsed : ℕ) (forced : List ForcedRef)
        → Story hist hist'
        → Settles hist (report_overwritten s cfg leg meta since hist' dir tgt elapsed forced)
    unfolding report_overwritten
    report_overwritten-Settles hist' dir tgt elapsed forced h =
        Settles-bind _ _ (Settles-ask _) λ checked.
          Settles-bind _ _ (report_forced-Settles s cfg meta _) λ alerted.
            Settles-if alerted _ _ (Settles-leave s since _ ok _ none h (λ e. cc))
              (announce-Settles _ dir tgt elapsed _ checked h)

    pushed-Settles :
        (start : ℕ) (hist' : Event) (dir : Text) (tgt : Provider) (res : PushResult)
        → Story hist hist'
        → Settles hist (pushed s cfg leg meta since start hist' dir tgt res)
    unfolding pushed
    pushed-Settles start hist' dir tgt res h = Settles-bind _ _ (Settles-ask _) λ now.
        Settles-if (not res.changed) _ _ (Settles-leave s since hist' skip _ none h (λ e. cc)) (
          Settles-if (is_empty res.forced) _ _ (announce-Settles hist' dir tgt _ _ [] h)
            (report_overwritten-Settles hist' dir tgt _ res.forced h))

    push_outcome-Settles :
        (start : ℕ) (hist' : Event) (dir : Text) (tgt : Provider) (res : Result PushResult)
        → Story hist hist'
        → Settles hist (push_outcome s cfg leg meta since start hist' dir tgt res)
    unfolding push_outcome
    push_outcome-Settles start hist' dir tgt (failed e) h =
        push_failed-Settles hist' (lit "push") e h
    push_outcome-Settles start hist' dir tgt (value res) h =
        pushed-Settles start hist' dir tgt res h

    carry_out-Settles :
        (start : ℕ) (hist' : Event) (dir : Text) (tgt : Provider) (plan : PushPlan)
        → Story hist hist'
        → Settles hist (carry_out s cfg leg meta since start hist' dir tgt plan)
    unfolding carry_out
    carry_out-Settles start hist' dir tgt plan h =
        Settles-bind _ _ (report_held-Settles s cfg meta _) λ _.
          Settles-if (is_empty plan.specs) _ _ (Settles-leave s since _ skip _ none h (λ e. cc))
            (Settles-bind _ _ (Settles-call _) λ res. push_outcome-Settles start _ dir tgt res h)

    plan_outcome-Settles :
        (start : ℕ) (hist' : Event) (dir : Text) (tgt : Provider) (plan : Result PushPlan)
        → Story hist hist'
        → Settles hist (plan_outcome s cfg leg meta since start hist' dir tgt plan)
    unfolding plan_outcome
    plan_outcome-Settles start hist' dir tgt (failed e) h =
        push_failed-Settles hist' (lit "plan push") e h
    plan_outcome-Settles start hist' dir tgt (value plan) h =
        carry_out-Settles start hist' dir tgt plan h

    refs_outcome-Settles :
        (start : ℕ) (hist' : Event) (dir : Text) (tgt : Provider) (refs : Result (List Text))
        → Story hist hist'
        → Settles hist (refs_outcome s cfg leg meta since start hist' dir tgt refs)
    unfolding refs_outcome
    refs_outcome-Settles start hist' dir tgt (failed e) h =
        push_failed-Settles hist' (lit "resolve refs") e h
    refs_outcome-Settles start hist' dir tgt (value []) h =
        Settles-leave s since hist' skip _ none h (λ e. cc)
    refs_outcome-Settles start hist' dir tgt (value (ref ∷ refs)) h =
        Settles-bind _ _ (Settles-call _) λ plan. plan_outcome-Settles start hist' dir tgt plan h

    prepared-Settles :
        (start : ℕ) (hist' : Event) (dir : Text) (tgt : Provider) (e : Option Error)
        → Story hist hist'
        → Settles hist (prepared s cfg leg meta since start hist' dir tgt e)
    unfolding prepared
    prepared-Settles start hist' dir tgt (some e) h =
        Settles-leave s since hist' fail _ (some e) h refl
    prepared-Settles start hist' dir tgt none h =
        Settles-bind _ _ (Settles-ask _) λ refs. refs_outcome-Settles start hist' dir tgt refs h

    mirror_body-Settles :
        (hist' : Event) → Story hist hist' → Settles hist (mirror_body s cfg leg meta since hist')
    unfolding mirror_body
    mirror_body-Settles hist' h =
        Settles-bind _ _ (Settles-require_provider s since hist' leg.from h) λ src.
          Settles-bind _ _ (Settles-require_provider s since hist' leg.to h) λ tgt.
            Settles-bind _ _ (Settles-ask _) λ start.
              Settles-bind _ _ (mirror_dir_for-Settles s cfg.name leg.from) λ dir.
                Settles-bind _ _ (ensure_mirror-Settles s cfg meta _ dir _)
                  λ ready. prepared-Settles start hist' dir tgt ready h

module _ {W : Type 0} (s : Service W) (cfg : RepoConfig) (leg : Leg) (meta : EventMeta) where
  mirror_act-Settles : Settles (mirror_event cfg leg meta) (mirror_act s cfg leg meta)
  unfolding mirror_act
  mirror_act-Settles =
      let story : Story (mirror_event cfg leg meta) (mirror_event cfg leg meta) =
        (refl, refl, refl, refl, refl, refl, refl) in
      Settles-bind _ _ (Settles-ask _) λ since.
        Settles-if _ _ _ (Settles-leave s since _ skip _ none story (λ e. cc))
          (mirror_body-Settles s cfg leg meta since _ story)

  -- Whatever git and the providers answer, `doMirror` returns having recorded exactly one event: it
  -- names the repository, the two sides, the trigger, the ref and the actor that the run was for, and
  -- its result is a failure exactly when an error is returned.
  pub do_mirror-records :
      (st : State W)
      → RecordsOnce
          (mirror_event cfg leg meta)
          st
          (do_mirror s cfg leg meta st).0
          (do_mirror s cfg leg meta st).1
  unfolding do_mirror
  do_mirror-records st = run_settled (mirror_act s cfg leg meta) mirror_act-Settles st
