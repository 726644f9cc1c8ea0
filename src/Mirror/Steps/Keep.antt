-- ===== src/Mirror/Steps/Keep.antt =====
-- internal/mirror/mirror.go: what the shared steps do to the world.
use git_bridge.Base.{Text, Option, none, some}
use git_bridge.Config.{RepoConfig}
use git_bridge.Errors.{Error}
use git_bridge.Provider.{Provider, Remote}
use git_bridge.Mirror.{EventMeta}
use git_bridge.Mirror.Flow.{Service}
use git_bridge.Mirror.Forced.{ForcedReport}
use git_bridge.Mirror.Held.{HeldReport}
use git_bridge.Mirror.Preserves.{
  Upkeep, Preserves, preserves_rules, Preserves-bind, Preserves-call, Preserves-pure,
}
use git_bridge.Mirror.Steps.{
  notify_failure, move_legacy, legacy_cache, mirror_dir_for, clone_outcome, clone_cache,
  fetch_outcome, fetch_cache, ensure_mirror, report_held, report_forced,
}

module _ {W : Type 0} {Inv : W → Type 0} (s : Service W) (cfg : RepoConfig) (meta : EventMeta) where
  pub report_held-Preserves : (rep : HeldReport) → Preserves Inv (report_held s cfg meta rep)
  unfolding report_held
  report_held-Preserves rep = search preserves_rules

  pub report_forced-Preserves : (rep : ForcedReport) → Preserves Inv (report_forced s cfg meta rep)
  unfolding report_forced
  report_forced-Preserves rep = search preserves_rules

module _ {W : Type 0} {Inv : W → Type 0} (s : Service W) (keep : Upkeep s.git Inv)
    (cfg : RepoConfig) (meta : EventMeta) where
  clone_outcome-Preserves :
      (step route : Text) (e : Option Error) → Preserves Inv (clone_outcome s cfg step route meta e)
  unfolding clone_outcome notify_failure
  clone_outcome-Preserves step route none = search preserves_rules
  clone_outcome-Preserves step route (some e) = search preserves_rules

  clone_cache-Preserves :
      (rem : Remote) (dir step route : Text)
      → Preserves Inv (clone_cache s cfg rem dir step route meta)
  unfolding clone_cache
  clone_cache-Preserves rem dir step route =
      Preserves-bind _ _ (Preserves-call _ (keep.clone_mirror rem dir))
        λ e. clone_outcome-Preserves step route e

  fetch_outcome-Preserves :
      (rem : Remote) (dir route : Text) (e : Option Error)
      → Preserves Inv (fetch_outcome s cfg rem dir route meta e)
  unfolding fetch_outcome
  fetch_outcome-Preserves rem dir route none =
      Preserves-bind _ _ (Preserves-call _ (keep.gc_auto dir)) λ e. Preserves-pure _
  fetch_outcome-Preserves rem dir route (some e) = clone_cache-Preserves rem dir _ route

  fetch_cache-Preserves :
      (rem : Remote) (dir route : Text) → Preserves Inv (fetch_cache s cfg rem dir route meta)
  unfolding fetch_cache
  fetch_cache-Preserves rem dir route =
      Preserves-bind _ _ (Preserves-call _ (keep.sanitize_cache dir rem)) λ scrubbed.
        Preserves-bind _ _ (Preserves-call _ (keep.fetch_mirror rem dir))
          λ e. fetch_outcome-Preserves rem dir route e

  pub ensure_mirror-Preserves :
      (rem : Remote) (dir route : Text) → Preserves Inv (ensure_mirror s cfg rem dir route meta)
  unfolding ensure_mirror
  ensure_mirror-Preserves rem dir route =
      search (preserves_rules, fetch_cache-Preserves, clone_cache-Preserves)

module _ {W : Type 0} {Inv : W → Type 0} (s : Service W) (keep : Upkeep s.git Inv) where
  legacy_cache-Preserves :
      (repo dir : Text) (p : Option Provider) → Preserves Inv (legacy_cache s repo dir p)
  unfolding legacy_cache move_legacy
  legacy_cache-Preserves repo dir none = Preserves-pure dir
  legacy_cache-Preserves repo dir (some p) = search (preserves_rules, keep.rename)

  pub mirror_dir_for-Preserves : (repo from : Text) → Preserves Inv (mirror_dir_for s repo from)
  unfolding mirror_dir_for
  mirror_dir_for-Preserves repo from = search (preserves_rules, legacy_cache-Preserves)
