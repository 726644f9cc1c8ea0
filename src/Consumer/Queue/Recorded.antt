-- ===== src/Consumer/Queue/Recorded.antt =====
-- internal/consumer/sqs.go: what the history holds when a push's message is deleted.
use mathlib.Core.List.{Memᴰ}
use mathlib.Core.Path.{subst}
use git_bridge.Base.{
  [], ◌∷◌, ◌++◌, none, false, lit, ◌==◌, if◌then◌else◌, ◌≡◌, ◌≢◌, refl, sym, ap, ◌∙◌, inl, inr,
  some_or_none,
}
use git_bridge.Config.{RepoConfig}
use git_bridge.History.{Event, fail}
use git_bridge.Mirror.{EventMeta, refs_heads_prefix, refs_tags_prefix, ref_type_tag, source_sqs}
use git_bridge.Mirror.Flow.{Service, State}
use git_bridge.Mirror.Entry.{Call, sync}
use git_bridge.Mirror.Entry.Dispatch.{Starts, FromSource, sync-Starts}
use git_bridge.Mirror.Settles.{Story, Agrees}
use git_bridge.Mirror.Sync.{forth, mirror_event, do_mirror}
use git_bridge.Mirror.Sync.Once.{do_mirror-records}
use git_bridge.Consumer.Queue.{CodeCommitEvent, event_call}

-- The event that the service is given for a push.
abbrev pub push_event : CodeCommitEvent → EventMeta
push_event e = record {
  ref =
      (if e.reference_type == ref_type_tag then refs_tags_prefix else refs_heads_prefix)
      ++ e.reference_name;
  source = source_sqs;
  force = false;
  force_lease = [];
  actor = [];
}

module _ {W : Type 0} (s : Service W) (e : CodeCommitEvent) where
  -- One mirror run of a configured repository with this source path, away from the source, has been
  -- recorded, and it has not failed.
  abbrev pub Mirrored : State W → State W → Type 0
  Mirrored st st' =
      (cfg : RepoConfig) × (ev : Event) × Memᴰ cfg s.configs
      × (cfg.source_path ≡ e.repository_name)
      × (st'.recorded ≡ st.recorded ++ (ev ∷ []))
      × Story (mirror_event cfg (forth cfg) (push_event e)) ev
      × (ev.result ≢ fail)

  run-Mirrored :
      (cfg : RepoConfig) (st : State W)
      → Memᴰ cfg s.configs
      → cfg.source_path ≡ e.repository_name
      → (do_mirror s cfg (forth cfg) (push_event e) st).0 ≡ none
      → Mirrored st (do_mirror s cfg (forth cfg) (push_event e) st).1
  run-Mirrored cfg st mem path ok =
      let (ev, one, story, agrees) = do_mirror-records s cfg (forth cfg) (push_event e) st in
      (cfg, ev, mem, path, one, story, subst (λ o. Agrees o ev.result) ok agrees)

  Starts-Mirrored :
      (call : Call W) (st : State W)
      → Starts s (FromSource s e.repository_name) s.configs (push_event e) call
      → (call st).0 ≡ none
      → Mirrored st (call st).1
  Starts-Mirrored call st (inl (why, refused)) ok =
      absurd (some_or_none why (sym (ap (λ c. (c st).0) refused) ∙ ok))
  Starts-Mirrored call st (inr (cfg, leg, mem, (away, path, allowed), runs)) ok =
      let same : call ≡ do_mirror s cfg (forth cfg) (push_event e) =
        runs ∙ ap (λ l. do_mirror s cfg l (push_event e)) away in
      subst (λ c. Mirrored st (c st).1) (sym same)
        (run-Mirrored cfg st mem path (sym (ap (λ c. (c st).0) same) ∙ ok))

  -- When the service's call for a push has returned nil, so that the message is deleted, it has recorded
  -- exactly one event: of a mirror run of a configured repository with this source path, away from the
  -- source, and not a failure.
  pub event_call-Mirrored :
      (st : State W)
      → (e.event == lit "referenceDeleted") ≡ false
      → (event_call s e st).0 ≡ none
      → Mirrored st (event_call s e st).1
  unfolding event_call
  event_call-Mirrored st push ok =
      subst (λ c. Mirrored st (c st).1) (sym is_sync)
        (Starts-Mirrored (sync s e.repository_name (push_event e)) st
          (sync-Starts s e.repository_name (push_event e)) (sym (ap (λ c. (c st).0) is_sync) ∙ ok))
    where
      is_sync : event_call s e ≡ sync s e.repository_name (push_event e)
      is_sync = rw push refl
