-- ===== src/Mirror/Console/Writes/Pinned.antt =====
-- internal/mirror/mirror.go and internal/server/console.go: restores of a ref that an override pins.
use mathlib.Core.Path.{subst}
use git_bridge.Base.{
  Text, ℕ, List, [], ◌∷◌, some, true, false, lit, ◌==◌, ==_iff, ◌≡◌, ◌≢◌, refl, sym, ◌∙◌, ◌⊎◌, inl,
  inr, get_or, to_lower, All, Map, Bool-cases, arith,
}
use git_bridge.Config.{
  RepoConfig, RefOverride, ProviderConfig, path_match, first_match, match_ref_override,
  direction_bidirectional,
}
use git_bridge.Config.Validate.Laws.{RepoOk, OverrideOk}
use git_bridge.Errors.{Error}
use git_bridge.Mirror.Entry.{Call}
use git_bridge.Mirror.Flow.{Service, State, ◌>>=◌, run}
use git_bridge.Mirror.Refs.{allows_source_to_target, allows_target_to_source, ref_override_blocks}
use git_bridge.Mirror.Restore.{do_restore_ref}
use git_bridge.Mirror.Steps.{leave}
use git_bridge.Mirror.Sync.{forth, back}
use git_bridge.Mirror.Console.{target, source, pinned_target, pinned_source}
use git_bridge.Mirror.Console.Writes.{restore_side, refused, refuse_act, refuse_restore}
use git_bridge.Server.{restore_failure_status}

-- The override that pins a ref is one of the repository's.
first_match-OverrideOk :
    (r : RepoConfig) (ref : Text) (ovs : List RefOverride) (ov : RefOverride)
    → All (OverrideOk r) ovs
    → first_match ref ovs ≡ some ov
    → OverrideOk r ov
unfolding first_match
first_match-OverrideOk r ref [] ov oks h = cc
first_match-OverrideOk r ref (o ∷ ovs) ov (ok, oks) h =
    elim (Bool-cases (get_or false (path_match o.pattern ref))) [
      | inl hit ↦ subst (OverrideOk r) (ground (arith, h, hit)) ok
      | inr miss ↦ first_match-OverrideOk r ref ovs ov oks (rw miss at h)
    ]

same_text : (a b : Text) → a ≡ b → (a == b) ≡ true
same_text a b e = (==_iff a b).1 e

apart_text : (a b : Text) → a ≢ b → (a == b) ≡ false
apart_text a b h = elim (Bool-cases (a == b)) [
  | inl same ↦ absurd (h ((==_iff a b).0 same))
  | inr apart ↦ apart
]

blocks-own :
    (cfg : RepoConfig) (ref from to : Text) (ov : RefOverride)
    → match_ref_override cfg ref ≡ some ov
    → ov.from ≡ from
    → ov.to ≡ to
    → ref_override_blocks cfg ref from to ≡ false
unfolding ref_override_blocks
blocks-own cfg ref from to ov found out home =
    rw found (rw (same_text ov.from from out, same_text ov.to to home) refl)

blocks-against :
    (cfg : RepoConfig) (ref from to : Text) (ov : RefOverride)
    → match_ref_override cfg ref ≡ some ov
    → ov.from ≢ from
    → ref_override_blocks cfg ref from to ≡ true
unfolding ref_override_blocks
blocks-against cfg ref from to ov found other = rw found (rw (apart_text ov.from from other) refl)

-- The call changes nothing, and returns an error that the console answers like this.
abbrev pub Refuses : {W : Type 0} → Call W → ℕ → Text → Type 0
Refuses {W} call status reason =
    (st : State W)
    → ((call st).1.world ≡ st.world)
      × ((e : Error) × ((call st).0 ≡ some e) × (restore_failure_status e ≡ (status, reason)))

module _ {W : Type 0} (s : Service W) (cfg : RepoConfig)
    (to ref_type ref_name sha actor : Text) where
  refused_target :
      allows_source_to_target cfg.direction ≡ true
      → ref_override_blocks cfg ref_name cfg.source cfg.target ≡ true
      → Refuses (restore_side s cfg to ref_type ref_name sha actor target) 403 (lit "ref-override")
  unfolding restore_side refuse_restore refused refuse_act run ◌>>=◌ leave pinned_target
      restore_failure_status
  refused_target open_way pin st = rw (open_way, pin) (refl, (pinned_target ref_name, refl, refl))

  refused_source :
      allows_target_to_source cfg.direction ≡ true
      → ref_override_blocks cfg ref_name cfg.target cfg.source ≡ true
      → Refuses
          (restore_side s cfg to ref_type ref_name sha actor source)
          500
          (lit "restore-failed")
  unfolding restore_side refuse_restore refused refuse_act run ◌>>=◌ leave pinned_source
      restore_failure_status
  refused_source open_way pin st = rw (open_way, pin) (refl, (pinned_source ref_name, refl, refl))

  runs_target :
      allows_source_to_target cfg.direction ≡ true
      → ref_override_blocks cfg ref_name cfg.source cfg.target ≡ false
      → restore_side s cfg to ref_type ref_name sha actor target
        ≡ do_restore_ref s cfg (forth cfg) ref_type ref_name sha actor
  unfolding restore_side
  runs_target open_way free = rw (open_way, free) refl

  runs_source :
      allows_target_to_source cfg.direction ≡ true
      → ref_override_blocks cfg ref_name cfg.target cfg.source ≡ false
      → restore_side s cfg to ref_type ref_name sha actor source
        ≡ do_restore_ref s cfg (back cfg) ref_type ref_name sha actor
  unfolding restore_side
  runs_source open_way free = rw (open_way, free) refl

  -- On a repository that the configuration's checks accept and that mirrors both ways, a restore of a ref
  -- that an override pins is one run of `doRestoreRef` on the side that the override writes; on the other
  -- side it leaves the world as it is and returns an error. The console answers 403 "ref-override" to
  -- that error on the target, but 500 "restore-failed" on the source.
  pub restore_side-pinned :
      (providers : Map ProviderConfig) (ov : RefOverride)
      → RepoOk providers cfg
      → to_lower cfg.direction ≡ direction_bidirectional
      → match_ref_override cfg ref_name ≡ some ov
      → ((ov.to ≡ cfg.target)
          × (restore_side s cfg to ref_type ref_name sha actor target
              ≡ do_restore_ref s cfg (forth cfg) ref_type ref_name sha actor)
          × Refuses
              (restore_side s cfg to ref_type ref_name sha actor source)
              500
              (lit "restore-failed"))
        ⊎ ((ov.to ≡ cfg.source)
            × (restore_side s cfg to ref_type ref_name sha actor source
                ≡ do_restore_ref s cfg (back cfg) ref_type ref_name sha actor)
            × Refuses
                (restore_side s cfg to ref_type ref_name sha actor target)
                403
                (lit "ref-override"))
  unfolding match_ref_override allows_source_to_target allows_target_to_source ◌==◌
  restore_side-pinned providers ov (named, src, tgt, apart, known, chosen, pinned) both found =
      elim (first_match-OverrideOk cfg ref_name cfg.ref_overrides ov pinned found).1 [
        | inl (out, home, way) ↦ inl (
          home,
          runs_target (rw both refl)
              (blocks-own cfg ref_name cfg.source cfg.target ov found out home),
          refused_source (rw both refl) (
              blocks-against cfg ref_name cfg.target cfg.source ov found
                (λ e. apart (sym out ∙ e))),
        )
        | inr (out, home, way) ↦ inr (
          home,
          runs_source (rw both refl)
              (blocks-own cfg ref_name cfg.target cfg.source ov found out home),
          refused_target (rw both refl) (
              blocks-against cfg ref_name cfg.source cfg.target ov found
                (λ e. apart (sym e ∙ out))),
        )
      ]
