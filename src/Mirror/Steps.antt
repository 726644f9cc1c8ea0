-- ===== src/Mirror/Steps.antt =====
-- internal/mirror/mirror.go: the steps that the mirror operations share.
pub mod Settle
pub mod Keep
use git_bridge.Base.{
  Text, ℕ, ◌-◌, List, [], ◌∷◌, ◌++◌, Option, none, some, Bool, true, false, ◌&&◌, ◌||◌, not,
  if◌then◌else◌, lit, concat, ◌==◌, lookup, get_or, is_empty,
}
use git_bridge.Config.{RepoConfig}
use git_bridge.Errors.{Error, Result, value, failed, plain, wrap, quote}
use git_bridge.History.{Event, Action, Outcome, ok, skip, fail, Reason, with, HeldRef}
use git_bridge.Notify.{Message, Level, success, error, warning, data_loss}
use git_bridge.Provider.{Provider, Remote}
use git_bridge.Mirror.{EventMeta, source_webhook}
use git_bridge.Mirror.Git.{Git}
use git_bridge.Mirror.Flow.{
  Service, State, Act, Flow, finished, going, continue, ◌>>=◌, ◌>>◌, pure, exit, ask, call, change,
  send_message, record_outcome,
}
use git_bridge.Mirror.Forced.{ForcedReport, lossy_branches, forced_body}
use git_bridge.Mirror.Held.{HeldReport, held_branches, held_body}

-- `Service.endpoint`
unfoldable pub endpoint : Text → Text → Text
endpoint provider path = provider ++ (b'/' ∷ path)

-- "<from>/<path> → <to>/<path>"
abbrev pub route_of : Text → Text → Text → Text → Text
route_of from from_path to to_path =
    concat (endpoint from from_path ∷ lit " → " ∷ endpoint to to_path ∷ [])

-- `appendSource`
unfoldable pub append_source : Text → EventMeta → Text
append_source body meta =
    if meta.source == [] || meta.source == source_webhook
    then body
    else body ++ (lit "\nSource: " ++ meta.source)

not_found : Text → Error
not_found name = plain (concat (lit "provider " ∷ quote name ∷ lit " not found" ∷ []))

module _ {W : Type 0} (s : Service W) where
  -- `Service.record`: the elapsed time is stamped on, and the recorder called.
  unfoldable pub record_since : ℕ → Event → Act W (Unit {0})
  record_since since ev = record_outcome (λ w. record ev { duration_ms = s.git.clock w - since })

  -- Record an outcome and return.
  unfoldable pub leave : {A : Type 0} → ℕ → Event → Outcome → Reason → Option Error → Act W A
  unfolding record_since with
  leave since hist outcome why e = record_since since (with hist outcome why e) >> exit e

  -- Record a failure under one error and return another, which wraps it.
  unfoldable pub leave_as : {A : Type 0} → ℕ → Event → Reason → Error → Error → Act W A
  unfolding record_since with
  leave_as since hist why e wrapped =
      record_since since (with hist fail why (some e)) >> exit (some wrapped)

  require : {A : Type 0} → ℕ → Event → Text → Option A → Act W A
  unfolding leave not_found
  require since hist name none = leave since hist fail Reason.provider (some (not_found name))
  require since hist name (some p) = pure p

  -- `s.providers[name]`, with the failure that is recorded when it is missing
  unfoldable pub require_provider : ℕ → Event → Text → Act W Provider
  unfolding require
  require_provider since hist name = require since hist name (lookup name s.providers)

  -- `notifyFailure`
  unfoldable pub notify_failure : RepoConfig → Text → Text → EventMeta → Error → Act W (Unit {0})
  notify_failure cfg action route meta e = send_message (record {
    level = error;
    title = lit "Mirror Sync Failed: " ++ cfg.name;
    body =
        append_source
          (concat
            (lit "Action: " ∷ action ∷ lit "\nRoute: " ∷ route ∷ lit "\nError: " ∷ e.message ∷ []))
          meta;
    webhook_url = cfg.slack_webhook_url;
  })

  -- filepath.Join(workDir, name)
  cache_path : Text → Text → Text
  cache_path repo suffix = concat (s.work_dir ∷ lit "/" ∷ repo ∷ lit "-" ∷ suffix ∷ lit ".git" ∷ [])

  move_legacy : Text → Text → Act W Text
  move_legacy legacy dir = do moved ← call (s.git.rename legacy dir); pure dir

  legacy_cache : Text → Text → Option Provider → Act W Text
  unfolding cache_path move_legacy
  legacy_cache repo dir none = pure dir
  legacy_cache repo dir (some p) = do
    let legacy = cache_path repo p.type
    there ← ask (s.git.is_git_dir legacy)
    if legacy == dir || not there then pure dir else move_legacy legacy dir

  -- `mirrorDirFor`; a failed rename is only logged
  unfoldable pub mirror_dir_for : Text → Text → Act W Text
  unfolding legacy_cache
  mirror_dir_for repo from = do
    let dir = cache_path repo from
    there ← ask (s.git.is_git_dir dir)
    if there then pure dir else legacy_cache repo dir (lookup from s.providers)

  clone_outcome : RepoConfig → Text → Text → EventMeta → Option Error → Act W (Option Error)
  unfolding notify_failure
  clone_outcome cfg step route meta none = pure none
  clone_outcome cfg step route meta (some e) = do
    notify_failure cfg step route meta e
    pure (some (wrap (lit "clone: ") e []))

  clone_cache : RepoConfig → Remote → Text → Text → Text → EventMeta → Act W (Option Error)
  unfolding clone_outcome
  clone_cache cfg rem dir step route meta = do
    cloned ← call (s.git.clone_mirror rem dir)
    clone_outcome cfg step route meta cloned

  -- After the fetch: housekeeping when it worked, a clone in its place when it did not.
  fetch_outcome :
      RepoConfig → Remote → Text → Text → EventMeta → Option Error → Act W (Option Error)
  unfolding clone_cache
  fetch_outcome cfg rem dir route meta none = do housekept ← call (s.git.gc_auto dir); pure none
  fetch_outcome cfg rem dir route meta (some e) =
      clone_cache cfg rem dir (lit "clone (fallback)") route meta

  fetch_cache : RepoConfig → Remote → Text → Text → EventMeta → Act W (Option Error)
  unfolding fetch_outcome
  fetch_cache cfg rem dir route meta = do
    scrubbed ← call (s.git.sanitize_cache dir rem)
    fetched ← call (s.git.fetch_mirror rem dir)
    fetch_outcome cfg rem dir route meta fetched

  -- `ensureMirror`; its result is the error that it returns
  unfoldable pub ensure_mirror :
      RepoConfig → Remote → Text → Text → EventMeta → Act W (Option Error)
  unfolding fetch_cache clone_cache
  ensure_mirror cfg rem dir route meta = do
    there ← ask (s.git.is_git_dir dir)
    if there
        then fetch_cache cfg rem dir route meta
        else clone_cache cfg rem dir (lit "clone") route meta

  -- `reportHeld`
  unfoldable pub report_held : RepoConfig → EventMeta → HeldReport → Act W (Unit {0})
  report_held cfg meta rep =
      if is_empty (held_branches rep.held)
      then pure tt
      else send_message (record {
        level = warning;
        title = lit "Push Withheld: " ++ cfg.name;
        body = append_source (held_body cfg rep) meta;
        webhook_url = cfg.slack_webhook_url;
      })

  -- `reportForced`: was the alert sent?
  unfoldable pub report_forced : RepoConfig → EventMeta → ForcedReport → Act W Bool
  report_forced cfg meta rep = if is_empty (lossy_branches rep.forced) then pure false else do
    send_message (record {
      level = data_loss;
      title = lit "Commits Overwritten: " ++ cfg.name;
      body = append_source (forced_body rep) meta;
      webhook_url = cfg.slack_webhook_url;
    })
    pure true
