-- ===== src/Consumer/Traffic.antt =====
-- internal/consumer with internal/mirror/mirror.go: everything that arrives, in its order.
use mathlib.Core.List.{Memᴰ}
use mathlib.Core.Path.{subst}
use git_bridge.Base.{
  Text, some, true, false, lit, ◌==◌, [], ◌≡◌, ◌≢◌, refl, sym, ◌⊎◌, inl, inr, lookup, Bool-cases,
}
use git_bridge.Config.{RepoConfig}
use git_bridge.Provider.{Provider}
use git_bridge.Mirror.{EventMeta, source_sqs, source_webhook, source_console}
use git_bridge.Mirror.Flow.{Service, State}
use git_bridge.Mirror.Preserves.{Upkeep}
use git_bridge.Mirror.Refs.{allows_source_to_target, allows_target_to_source, ref_override_blocks}
use git_bridge.Mirror.Sync.{Leg, forth, back}
use git_bridge.Mirror.Sync.Guard.{PermittedPushes, do_mirror-guarded}
use git_bridge.Mirror.Delete.Guard.{SeenDeletes, do_delete_ref-guarded}
use git_bridge.Mirror.Entry.{Call}
use git_bridge.Mirror.Entry.Dispatch.{
  Starts, FromSource, FromSide, Requested, sync-Starts, sync_by_target-Starts, retry-Starts,
}
use git_bridge.Mirror.Entry.Deletion.{
  Removes, Leaves, LeavesSide, sync_delete-Removes, sync_delete_by_target-Removes,
}
use git_bridge.Mirror.Console.Writes.{force_meta, force_push}
use git_bridge.Mirror.Console.Writes.Forced.{force_push-Forces}
use git_bridge.Consumer.{Job, run_job, sync_job, delete_job, retry_job}
use git_bridge.Consumer.Retry.Gates.{Deliberate}
use git_bridge.Consumer.Queue.{CodeCommitEvent, event_call}
use git_bridge.Consumer.Queue.Recorded.{push_event}

-- A leg that the repository's direction allows.
abbrev pub IsOpen : RepoConfig → Leg → Type 0
IsOpen cfg leg =
    ((leg ≡ forth cfg) × (allows_source_to_target cfg.direction ≡ true))
    ⊎ ((leg ≡ back cfg) × (allows_target_to_source cfg.direction ≡ true))

-- An event that is deliberate, or the console's forced push of a named ref at a named tip.
abbrev pub IsCommanded : EventMeta → Type 0
IsCommanded meta =
    Deliberate meta ⊎ ((meta.ref ≢ []) × (meta.force_lease ≢ []) × (meta.source ≡ source_console))

-- The property holds on after what the service may do for an arrival: git's reads and upkeep; pushes
-- that the plan permits, of a commanded event, on an open leg of a configured repository; and
-- deletions of refs that the destination has just shown, on such a leg, that no override pins away.
pub record Bounded {W : Type 0} (s : Service W) (Inv : W → Type 0) : Type 0 where
  pub upkeep : Upkeep s.git Inv
  pub pushes :
      (cfg : RepoConfig) (leg : Leg) (meta : EventMeta)
      → Memᴰ cfg s.configs
      → IsOpen cfg leg
      → IsCommanded meta
      → (tgt : Provider) → lookup leg.to s.providers ≡ some tgt
      → PermittedPushes s.git Inv cfg leg (tgt.remote leg.to_path) meta
  pub deletes :
      (cfg : RepoConfig) (leg : Leg) (ref_type ref_name : Text)
      → Memᴰ cfg s.configs
      → IsOpen cfg leg
      → ref_override_blocks cfg ref_name leg.from leg.to ≡ false
      → (tgt : Provider) → lookup leg.to s.providers ≡ some tgt
      → SeenDeletes s.git Inv (tgt.remote leg.to_path) ref_type ref_name

-- The event of a job that a handler may start.
abbrev pub IsMeant : Job → Type 0
IsMeant (sync_job key path meta) = Deliberate meta
IsMeant (delete_job key path ref_type ref_name) = Unit
IsMeant (retry_job repo direction meta) = Deliberate meta

module _ {W : Type 0} (s : Service W) (Inv : W → Type 0) (bounds : Bounded s Inv) where
  abbrev pub Keeps : Call W → Type 0
  Keeps call = (st : State W) → Inv st.world → Inv (call st).1.world

  Starts-Keeps :
      (Fits : RepoConfig → Leg → Type 0) (meta : EventMeta) (call : Call W)
      → ((cfg : RepoConfig) (leg : Leg) → Fits cfg leg → IsOpen cfg leg)
      → Deliberate meta
      → Starts s Fits s.configs meta call
      → Keeps call
  Starts-Keeps Fits meta call fits meant (inl (why, refused)) =
      subst Keeps (sym refused) (λ st h. h)
  Starts-Keeps Fits meta call fits meant (inr (cfg, leg, mem, fit, runs)) = subst Keeps (sym runs) (
      do_mirror-guarded s cfg leg meta bounds.upkeep
        (bounds.pushes cfg leg meta mem (fits cfg leg fit) (inl meant)))

  Removes-Keeps :
      (ref_type ref_name source : Text) (Fits : RepoConfig → Leg → Type 0) (call : Call W)
      → ((cfg : RepoConfig) (leg : Leg)
          → Fits cfg leg
          → IsOpen cfg leg × (ref_override_blocks cfg ref_name leg.from leg.to ≡ false))
      → Removes s ref_type ref_name source Fits s.configs call
      → Keeps call
  Removes-Keeps ref_type ref_name source Fits call fits (inl (why, refused)) =
      subst Keeps (sym refused) (λ st h. h)
  Removes-Keeps ref_type ref_name source Fits call fits (inr (inl nothing)) =
      subst Keeps (sym nothing) (λ st h. h)
  Removes-Keeps ref_type ref_name source Fits call fits (inr (inr (cfg, leg, mem, fit, runs))) =
      let (is_open, free) = fits cfg leg fit in
      subst Keeps (sym runs) (
        do_delete_ref-guarded s cfg leg ref_type ref_name bounds.upkeep
          (bounds.deletes cfg leg ref_type ref_name mem is_open free) source)

  FromSource-IsOpen :
      (repo : Text) (cfg : RepoConfig) (leg : Leg) → FromSource s repo cfg leg → IsOpen cfg leg
  FromSource-IsOpen repo cfg leg (away, path, allowed) = inl (away, allowed)

  FromSide-IsOpen :
      (key path : Text) (cfg : RepoConfig) (leg : Leg)
      → FromSide s key path cfg leg
      → IsOpen cfg leg
  FromSide-IsOpen key path cfg leg (inl (away, named, there, allowed)) = inl (away, allowed)
  FromSide-IsOpen key path cfg leg (inr (away, named, there, allowed)) = inr (away, allowed)

  Requested-IsOpen :
      (repo direction : Text) (cfg : RepoConfig) (leg : Leg)
      → Requested s repo direction cfg leg
      → IsOpen cfg leg
  Requested-IsOpen repo direction cfg leg (named, inl (away, resolved, allowed)) =
      inl (away, allowed)
  Requested-IsOpen repo direction cfg leg (named, inr (away, resolved, allowed)) =
      inr (away, allowed)

  LeavesSide-IsOpen :
      (key path ref_type ref_name : Text) (cfg : RepoConfig) (leg : Leg)
      → LeavesSide s ref_type ref_name key path cfg leg
      → IsOpen cfg leg × (ref_override_blocks cfg ref_name leg.from leg.to ≡ false)
  LeavesSide-IsOpen key path ref_type ref_name cfg leg (free, inl (away, named, there, allowed)) =
      (inl (away, allowed), free)
  LeavesSide-IsOpen key path ref_type ref_name cfg leg (free, inr (away, named, there, allowed)) =
      (inr (away, allowed), free)

  Leaves-IsOpen :
      (repo ref_type ref_name : Text) (cfg : RepoConfig) (leg : Leg)
      → Leaves s ref_type ref_name source_sqs repo cfg leg
      → IsOpen cfg leg × (ref_override_blocks cfg ref_name leg.from leg.to ≡ false)
  Leaves-IsOpen repo ref_type ref_name cfg leg (away, path, allowed, free) =
      (inl (away, allowed), free)

  pub run_job-Keeps : (job : Job) → IsMeant job → Keeps (run_job s job)
  unfolding run_job
  run_job-Keeps (sync_job key path meta) meant =
      Starts-Keeps (FromSide s key path) meta _ (FromSide-IsOpen key path) meant
        (sync_by_target-Starts s key path meta)
  run_job-Keeps (delete_job key path ref_type ref_name) meant =
      Removes-Keeps ref_type ref_name source_webhook (LeavesSide s ref_type ref_name key path) _
        (LeavesSide-IsOpen key path ref_type ref_name)
        (sync_delete_by_target-Removes s ref_type ref_name key path)
  run_job-Keeps (retry_job repo direction meta) meant =
      Starts-Keeps (Requested s repo direction) meta _ (Requested-IsOpen repo direction) meant
        (retry-Starts s repo direction meta)

  pub event_call-Keeps : (e : CodeCommitEvent) → Keeps (event_call s e)
  unfolding event_call
  event_call-Keeps e = elim (Bool-cases (e.event == lit "referenceDeleted")) [
    | inl gone ↦ rw gone (
        Removes-Keeps e.reference_type e.reference_name source_sqs _ _
          (Leaves-IsOpen e.repository_name e.reference_type e.reference_name)
          (sync_delete-Removes s e.reference_type e.reference_name e.repository_name))
    | inr pushed ↦ rw pushed (
        Starts-Keeps (FromSource s e.repository_name) (push_event e) _
          (FromSource-IsOpen e.repository_name) (inl refl)
          (sync-Starts s e.repository_name (push_event e)))
  ]

  pub force_push-Keeps :
      (repo to ref dest actor : Text)
      → ref ≢ []
      → dest ≢ []
      → Keeps (force_push s repo to ref dest actor)
  force_push-Keeps repo to ref dest actor named leased =
      elim (force_push-Forces s repo to ref dest actor) [
        | inl still ↦ λ st h. subst Inv (sym (still st)) h
        | inr (cfg, leg, mem, way, runs) ↦ subst Keeps (sym runs) (
            do_mirror-guarded s cfg leg (force_meta ref dest actor) bounds.upkeep (
              bounds.pushes cfg leg (force_meta ref dest actor) mem way
                (inr (named, leased, refl))))
      ]
