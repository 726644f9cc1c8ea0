-- ===== src/Mirror/Steps/Settle.antt =====
-- internal/mirror/mirror.go: what the shared steps record.
use git_bridge.Base.{Text, Option, none, some}
use git_bridge.Config.{RepoConfig}
use git_bridge.Errors.{Error}
use git_bridge.History.{Event}
use git_bridge.Provider.{Provider, Remote}
use git_bridge.Mirror.{EventMeta}
use git_bridge.Mirror.Flow.{Service}
use git_bridge.Mirror.Forced.{ForcedReport}
use git_bridge.Mirror.Held.{HeldReport}
use git_bridge.Mirror.Settles.{Settles, settles_rules}
use git_bridge.Mirror.Steps.{
  report_held, report_forced, mirror_dir_for, legacy_cache, ensure_mirror, clone_outcome,
  clone_cache, fetch_outcome, fetch_cache,
}

module _ {W : Type 0} (s : Service W) (cfg : RepoConfig) (meta : EventMeta) {hist : Event} where
  pub report_held-Settles : (rep : HeldReport) → Settles hist (report_held s cfg meta rep)
  unfolding report_held
  report_held-Settles rep = search settles_rules

  pub report_forced-Settles : (rep : ForcedReport) → Settles hist (report_forced s cfg meta rep)
  unfolding report_forced
  report_forced-Settles rep = search settles_rules

  clone_outcome-Settles :
      (step route : Text) (e : Option Error) → Settles hist (clone_outcome s cfg step route meta e)
  unfolding clone_outcome
  clone_outcome-Settles step route none = search settles_rules
  clone_outcome-Settles step route (some e) = search settles_rules

  clone_cache-Settles :
      (rem : Remote) (dir step route : Text)
      → Settles hist (clone_cache s cfg rem dir step route meta)
  unfolding clone_cache
  clone_cache-Settles rem dir step route = search (settles_rules, clone_outcome-Settles)

  fetch_outcome-Settles :
      (rem : Remote) (dir route : Text) (e : Option Error)
      → Settles hist (fetch_outcome s cfg rem dir route meta e)
  unfolding fetch_outcome
  fetch_outcome-Settles rem dir route none = search settles_rules
  fetch_outcome-Settles rem dir route (some e) = clone_cache-Settles rem dir _ route

  fetch_cache-Settles :
      (rem : Remote) (dir route : Text) → Settles hist (fetch_cache s cfg rem dir route meta)
  unfolding fetch_cache
  fetch_cache-Settles rem dir route = search (settles_rules, fetch_outcome-Settles)

  pub ensure_mirror-Settles :
      (rem : Remote) (dir route : Text) → Settles hist (ensure_mirror s cfg rem dir route meta)
  unfolding ensure_mirror
  ensure_mirror-Settles rem dir route =
      search (settles_rules, fetch_cache-Settles, clone_cache-Settles)

module _ {W : Type 0} (s : Service W) {hist : Event} where
  legacy_cache-Settles :
      (repo dir : Text) (p : Option Provider) → Settles hist (legacy_cache s repo dir p)
  unfolding legacy_cache
  legacy_cache-Settles repo dir none = search settles_rules
  legacy_cache-Settles repo dir (some p) = search settles_rules

  pub mirror_dir_for-Settles : (repo from : Text) → Settles hist (mirror_dir_for s repo from)
  unfolding mirror_dir_for
  mirror_dir_for-Settles repo from = search (settles_rules, legacy_cache-Settles)
