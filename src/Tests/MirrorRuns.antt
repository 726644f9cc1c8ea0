-- ===== src/Tests/MirrorRuns.antt =====
-- Runs of the mirror service.
use git_bridge.Base.{
  Text, ℕ, [], ◌∷◌, none, some, Bool, true, false, lit, Map, lookup, ◌≡◌, refl, ◌==◌, ==_iff, All,
  inl, inr, arith, if◌then◌else◌,
}
use mathlib.Core.Path.{subst}
use git_bridge.Errors.{value}
use git_bridge.History.{Action}
use git_bridge.Mirror.{full_ref_name, source_console, source_sqs, source_webhook}
use git_bridge.Mirror.Git.{PushSpec}
use git_bridge.Mirror.Plan.{PushPlan, plan_push}
use git_bridge.Mirror.Plan.Guard.{Safe, Sound, TipsRead, plan_push-Sound}
use git_bridge.Mirror.Plan.Coverage.{Handled, plan_push-Handled}
use git_bridge.Mirror.Preserves.{Upkeep}
use git_bridge.Mirror.Settles.{RecordsOnce}
use git_bridge.Mirror.Sync.{forth, back, mirror_event, do_mirror}
use git_bridge.Mirror.Sync.Once.{do_mirror-records}
use git_bridge.Mirror.Sync.Guard.{PermittedPushes, do_mirror-guarded}
use git_bridge.Mirror.Delete.{ref_event, do_delete_ref}
use git_bridge.Mirror.Delete.Once.{do_delete_ref-records}
use git_bridge.Mirror.Delete.Guard.{SeenDeletes, do_delete_ref-guarded}
use git_bridge.Mirror.Restore.{do_restore_ref}
use git_bridge.Mirror.Restore.Once.{do_restore_ref-records}
use git_bridge.Mirror.Restore.Guard.{FilledHoles, do_restore_ref-guarded}
use git_bridge.Mirror.Entry.{sync, sync_delete, sync_delete_by_target, sync_by_target, retry}
use git_bridge.Mirror.Entry.Deletion.{
  Removes, Leaves, sync_delete-Removes, LeavesSide, sync_delete_by_target-Removes,
}
use git_bridge.Mirror.Entry.Dispatch.{
  Starts, FromSource, FromSide, Requested, sync-Starts, sync_by_target-Starts, retry-Starts,
}
use git_bridge.Mirror.Console.Writes.{restore_ref}
use git_bridge.Mirror.Console.Writes.Once.{Audited, restore_ref-Audited}
use git_bridge.Provider.{Remote}
use git_bridge.Tests.Toy.{
  toy_git, toy_local, toy_remote, toy_repo, toy_service, start, push_meta, main_ref,
}

abbrev gh_remote : Remote
gh_remote = record { url = []; username = []; password = [] }

-- Nothing was written to a destination.
abbrev Unwritten : ℕ → Type 0
Unwritten n = n ≡ 0

toy_upkeep : Upkeep toy_git Unwritten
toy_upkeep = record {
  clone_mirror = λ rem dir w h. h;
  fetch_mirror = λ rem dir w h. h;
  remote_refs = λ rem w h. h;
  ref_tip = λ rem ref_type ref_name w h. h;
  ensure_bare_dir = λ dir w h. h;
  fetch_object = λ dir rem sha w h. h;
  gc_auto = λ dir w h. h;
  sanitize_cache = λ dir rem w h. h;
  rename = λ old new w h. h;
  remove_all = λ dir w h. h;
}

-- One table with one key has it when another has.
same_key :
    (b : Bool) (src : Text)
    → (if b then some (lit "c1") else none) ≡ none
    → (if b then some (lit "c2") else none) ≡ some src
    → ⊥
same_key true src h k = cc
same_key false src h k = cc

-- No spec is safe where the destination has a commit that is not here.
nothing-Safe :
    (dir : Text) (w : ℕ) (spec : PushSpec) → Safe toy_git dir w toy_local toy_remote spec → ⊥
unfolding lookup
nothing-Safe dir w spec (src, here, inl (gone, lease)) =
    same_key (main_ref == spec.ref) src gone here
nothing-Safe dir w spec (src, here, inr (there, moved, known, behind)) = cc

tips_are :
    (dir : Text) (rem : Remote) (w₀ w : ℕ) (local remote : Map Text)
    → TipsRead toy_git dir rem w₀ local remote w
    → (local ≡ toy_local) × (remote ≡ toy_remote)
tips_are dir rem w₀ w local remote (here, there) = (ground (arith, here), ground (arith, there))

toy_pushes :
    (rem : Remote) → PermittedPushes toy_git Unwritten toy_repo (forth toy_repo) rem push_meta
toy_pushes rem dir [] w meant permitted h = ground (arith, h)
toy_pushes rem dir (spec ∷ specs) w meant (w₀, local, remote, read, (safe, safes)) h =
    let tips = tips_are dir rem w₀ w local remote read in
    absurd (
      nothing-Safe dir w spec (
        subst (λ m. Safe toy_git dir w m toy_remote spec) tips.0
          (subst (λ m. Safe toy_git dir w local m spec) tips.1 safe)))

toy_deletes : (rem : Remote) → SeenDeletes toy_git Unwritten rem (lit "branch") (lit "old")
toy_deletes rem dir tip w w' seen there h =
    absurd (no_tip tip (==_iff tip []).1 (ground (arith, seen)) there)
  where
    no_tip : (tip : Text) → (tip ≡ [] → (tip == []) ≡ true) → tip ≡ [] → (tip == []) ≡ false → ⊥
    no_tip tip same empty there = ground (arith, same empty, there)

toy_fills :
    (source rem : Remote)
    → FilledHoles toy_git Unwritten source rem (lit "branch") (lit "old") (lit "c9")
toy_fills source rem dir w₀ w₁ w hole (inl known) h = cc
toy_fills source rem dir w₀ w₁ w hole (inr (w₂, fetched)) h = cc

do_mirror-guarded_example :
    Unwritten (do_mirror toy_service toy_repo (forth toy_repo) push_meta start).1.world
do_mirror-guarded_example =
    do_mirror-guarded toy_service toy_repo (forth toy_repo) push_meta toy_upkeep
      (λ tgt found. toy_pushes (tgt.remote toy_repo.target_path)) start refl

plan_push-Sound_example :
    (plan : PushPlan) × (plan_push toy_git (lit "d") gh_remote (main_ref ∷ []) false [] 0
      ≡ (value plan, 0))
    × Sound toy_git (lit "d") 0 toy_local toy_remote plan
plan_push-Sound_example =
    plan_push-Sound toy_git (lit "d") gh_remote main_ref [] [] 0 0 toy_local toy_remote (refl, refl)

plan_push-Handled_example :
    (plan : PushPlan) × (plan_push toy_git (lit "d") gh_remote (main_ref ∷ []) true (lit "c1") 0
      ≡ (value plan, 0))
    × All (Handled toy_git (lit "d") 0 toy_local toy_remote plan) (main_ref ∷ [])
plan_push-Handled_example =
    plan_push-Handled toy_git (lit "d") gh_remote main_ref [] true (lit "c1") 0 0 toy_local
      toy_remote (refl, refl)

do_mirror-records_example :
    RecordsOnce
      (mirror_event toy_repo (back toy_repo) push_meta)
      start
      (do_mirror toy_service toy_repo (back toy_repo) push_meta start).0
      (do_mirror toy_service toy_repo (back toy_repo) push_meta start).1
do_mirror-records_example = do_mirror-records toy_service toy_repo (back toy_repo) push_meta start

do_delete_ref-guarded_example :
    Unwritten
      (do_delete_ref toy_service toy_repo
        (forth toy_repo)
        (lit "branch")
        (lit "old")
        (lit "sqs")
        start).1.world
do_delete_ref-guarded_example =
    do_delete_ref-guarded toy_service toy_repo (forth toy_repo) (lit "branch") (lit "old")
      toy_upkeep (λ tgt found. toy_deletes (tgt.remote toy_repo.target_path)) (lit "sqs") start refl

do_delete_ref-records_example :
    RecordsOnce
      (ref_event Action.delete toy_repo (forth toy_repo) (lit "branch") (lit "old") (lit "sqs") [])
      start
      (do_delete_ref toy_service toy_repo
        (forth toy_repo)
        (lit "branch")
        (lit "old")
        (lit "sqs")
        start).0
      (do_delete_ref toy_service toy_repo
        (forth toy_repo)
        (lit "branch")
        (lit "old")
        (lit "sqs")
        start).1
do_delete_ref-records_example =
    do_delete_ref-records toy_service toy_repo (forth toy_repo) (lit "branch") (lit "old")
      (lit "sqs") start

do_restore_ref-guarded_example :
    Unwritten
      (do_restore_ref toy_service toy_repo
        (forth toy_repo)
        (lit "branch")
        (lit "old")
        (lit "c9")
        (lit "ana")
        start).1.world
do_restore_ref-guarded_example =
    do_restore_ref-guarded toy_service toy_repo (forth toy_repo) (lit "branch") (lit "old")
      (lit "c9") (lit "ana") toy_upkeep
      (λ src tgt from to.
        toy_fills (src.remote toy_repo.source_path) (tgt.remote toy_repo.target_path))
      start refl

do_restore_ref-records_example :
    RecordsOnce
      (ref_event Action.restore toy_repo
        (forth toy_repo)
        (lit "branch")
        (lit "old")
        source_console
        (lit "ana"))
      start
      (do_restore_ref toy_service toy_repo
        (forth toy_repo)
        (lit "branch")
        (lit "old")
        (lit "c9")
        (lit "ana")
        start).0
      (do_restore_ref toy_service toy_repo
        (forth toy_repo)
        (lit "branch")
        (lit "old")
        (lit "c9")
        (lit "ana")
        start).1
do_restore_ref-records_example =
    do_restore_ref-records toy_service toy_repo (forth toy_repo) (lit "branch") (lit "old")
      (lit "c9") (lit "ana") start

restore_ref-Audited_example :
    Audited
      (lit "app")
      Action.restore
      (full_ref_name (lit "branch") (lit "old"))
      (lit "ana")
      start
      (restore_ref toy_service
        (lit "app")
        (lit "gh/org/app")
        (lit "branch")
        (lit "old")
        (lit "c9")
        (lit "ana")
        start)
restore_ref-Audited_example =
    restore_ref-Audited toy_service (lit "app") (lit "gh/org/app") (lit "branch") (lit "old")
      (lit "c9") (lit "ana") start

sync-Starts_example :
    Starts toy_service
      (FromSource toy_service (lit "app"))
      toy_service.configs
      push_meta
      (sync toy_service (lit "app") push_meta)
sync-Starts_example = sync-Starts toy_service (lit "app") push_meta

sync_by_target-Starts_example :
    Starts toy_service
      (FromSide toy_service (lit "github") (lit "org/app"))
      toy_service.configs
      push_meta
      (sync_by_target toy_service (lit "github") (lit "org/app") push_meta)
sync_by_target-Starts_example =
    sync_by_target-Starts toy_service (lit "github") (lit "org/app") push_meta

retry-Starts_example :
    Starts toy_service
      (Requested toy_service (lit "app") (lit "auto"))
      toy_service.configs
      push_meta
      (retry toy_service (lit "app") (lit "auto") push_meta)
retry-Starts_example = retry-Starts toy_service (lit "app") (lit "auto") push_meta

sync_delete-Removes_example :
    Removes toy_service
      (lit "branch")
      (lit "old")
      source_sqs
      (Leaves toy_service (lit "branch") (lit "old") source_sqs (lit "app"))
      toy_service.configs
      (sync_delete toy_service (lit "app") (lit "branch") (lit "old"))
sync_delete-Removes_example = sync_delete-Removes toy_service (lit "branch") (lit "old") (lit "app")

sync_delete_by_target-Removes_example :
    Removes toy_service
      (lit "branch")
      (lit "old")
      source_webhook
      (LeavesSide toy_service (lit "branch") (lit "old") (lit "github") (lit "org/app"))
      toy_service.configs
      (sync_delete_by_target toy_service (lit "github") (lit "org/app") (lit "branch") (lit "old"))
sync_delete_by_target-Removes_example =
    sync_delete_by_target-Removes toy_service (lit "branch") (lit "old") (lit "github")
      (lit "org/app")
