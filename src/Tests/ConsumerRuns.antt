-- ===== src/Tests/ConsumerRuns.antt =====
-- Requests and messages to the consumers.
use git_bridge.Base.{
  trim_space, Text, List, [], ◌∷◌, ◌++◌, none, some, Bool, true, false, lit, Map, lookup, ◌≡◌, ◌≢◌,
  ◌↔◌, refl, sym, ◌∙◌, ◌==◌, All, inl, inr, arith, if◌then◌else◌, map, length, ◌≤◌,
}
use mathlib.Core.Path.{subst}
use git_bridge.Config.Hosts.{UrlHost}
use git_bridge.Consumer.{read_all, Request, Job, sync_job, retry_job}
use git_bridge.Consumer.Arrivals.{
  Front, Arrival, gitlab_hook, retry_call, retry_click, force_click, queue_receive, serve_all,
  serve_all-guarded,
}
use git_bridge.Consumer.Queue.{Consumed, CodeCommitEvent, Message, received, start, event_call}
use git_bridge.Consumer.Queue.Acknowledged.{Accounts, start-Accounts}
use git_bridge.Consumer.Queue.Recorded.{Mirrored, event_call-Mirrored}
use git_bridge.Consumer.Retry.{
  is_valid_retry_direction, resolve_retry_source, RetryRequest, max_retry_body_size, retry_handler,
}
use git_bridge.Consumer.Retry.Gates.{Sane, retry_handler-Gated}
use git_bridge.Consumer.Traffic.{Bounded, IsCommanded}
use git_bridge.Consumer.Webhook.{
  Webhook, GitLabPushEvent, GitHubPushEvent, github_handler, new_webhook,
}
use git_bridge.Consumer.Webhook.Accepted.{FromGitHub, github_handler-FromGitHub}
use git_bridge.Errors.{Result, value}
use git_bridge.Mirror.{EventMeta}
use git_bridge.Mirror.Flow.{Service}
use git_bridge.Mirror.Git.{Git, PushSpec}
use git_bridge.Mirror.Plan.Guard.{Safe}
use git_bridge.Mirror.Plan.Permit.{Permitted}
use git_bridge.Mirror.Preserves.{Upkeep}
use git_bridge.Provider.{Remote, new_codecommit}
use git_bridge.Mirror.Entry.{sync}
use git_bridge.Mirror.Refs.{
  allows_source_to_target, ref_override_blocks, build_full_refspecs, resolve_refs,
  retry_direction_for, reverse_carries,
}
use git_bridge.Base.{
  to_lower, has_prefix, trim_prefix, after_prefix, concat, join, show_nat, to_lower_char,
}
use git_bridge.Mirror.Sync.{do_mirror}
use git_bridge.Mirror.Flow.{
  run, ◌>>=◌, ask, call, exit, finally, pure, record_outcome, send_message,
}
use git_bridge.Config.{match_ref_override, path_match}
use git_bridge.Mirror.{short_name, full_ref_name, is_tag}
use git_bridge.Mirror.Steps.{
  require_provider, mirror_dir_for, append_source, endpoint, ensure_mirror, leave, leave_as,
  notify_failure, record_since, report_forced, report_held,
}
use git_bridge.Errors.{quote}
use git_bridge.History.{forced_reason, nothing_lost, with}
use git_bridge.Mirror.Forced.{
  classify_forced, forced_body, lossy_branches, lost_commit_lines, preserved_branches, rewrite_note,
  short_sha,
}
use git_bridge.Mirror.Held.{advise, force_request_body, held_body, held_branches}
use git_bridge.Mirror.Plan.{plan_loop, plan_push}
use git_bridge.Notify.{link}
use git_bridge.Server.{decoded}
use git_bridge.History.{Event, Action, new_event, hold_destination_ahead}
use git_bridge.Server.Force.{ForceClick}
use git_bridge.Server.Retry.{RetryClick}
use git_bridge.Tests.Toy.{noting, toy_local, toy_remote, toy_service, main_ref}

-- The leases that were pushed with.
abbrev ledger : Git (List Text)
ledger = noting (λ specs leases. map (λ (s : PushSpec). s.lease) specs ++ leases) (λ leases. leases)

abbrev keeper : Service (List Text)
keeper = record {
  configs = toy_service.configs;
  providers = toy_service.providers;
  work_dir = toy_service.work_dir;
  git = ledger;
}

-- No push went without a lease.
abbrev Leased : List Text → Type 0
Leased leases = All (λ l. l ≢ []) leases

ledger_upkeep : Upkeep ledger Leased
ledger_upkeep = record {
  clone_mirror = λ rem dir w h. h;
  fetch_mirror = λ rem dir w h. h;
  remote_refs = λ rem w h. h;
  ref_tip = λ rem ref_type ref_name w h. h;
  ensure_bare_dir = λ dir w h. h;
  fetch_object = λ dir rem sha w h. h;
  gc_auto = λ dir w h. h;
  sanitize_cache = λ dir rem w h. h;
  rename = λ old new w h. h;
  remove_all = λ dir w h. h;
}

leases_join :
    (lease : Text) (specs : List PushSpec) (w : List Text)
    → lease ≢ []
    → All (λ (s : PushSpec). s.lease ≡ lease) specs
    → Leased w
    → Leased (map (λ (s : PushSpec). s.lease) specs ++ w)
leases_join lease [] w named same h = h
leases_join lease (s ∷ ss) w named (e, same) h =
    (λ gone. named (sym e ∙ gone), leases_join lease ss w named same h)

-- No spec is safe where the destination has a commit that is not here, and the same of every other ref.
same_key :
    (b : Bool) (src : Text)
    → (if b then some (lit "c1") else none) ≡ none
    → (if b then some (lit "c2") else none) ≡ some src
    → ⊥
same_key true src h k = cc
same_key false src h k = cc

ledger-Safe :
    (dir : Text) (w : List Text) (spec : PushSpec) → Safe ledger dir w toy_local toy_remote spec → ⊥
unfolding lookup
ledger-Safe dir w spec (src, here, inl (gone, lease)) =
    same_key (main_ref == spec.ref) src gone here
ledger-Safe dir w spec (src, here, inr (there, moved, known, behind)) = cc

ledger_pushes :
    (dir : Text) (rem : Remote) (force : Bool) (lease : Text) (specs : List PushSpec)
    (w : List Text)
    → (force ≡ true → lease ≢ [])
    → Permitted ledger dir rem force lease w specs
    → Leased w
    → Leased (map (λ (s : PushSpec). s.lease) specs ++ w)
ledger_pushes dir rem true lease specs w named same h =
    leases_join lease specs w (named refl) same h
ledger_pushes dir rem false lease [] w named permitted h = h
ledger_pushes dir rem false lease (spec ∷ specs) w named
      (w₀, local, remote, (here, there), (safe, safes)) h =
    absurd (
      ledger-Safe dir w spec (
        subst (λ m. Safe ledger dir w m toy_remote spec) (tips_here local here)
          (subst (λ m. Safe ledger dir w local m spec) (tips_there remote there) safe)))
  where
    tips_here : (local : Map Text) → value toy_local ≡ value local → local ≡ toy_local
    tips_here local e = ground (arith, e)

    tips_there :
        (remote : Map Text)
        → ◌≡◌ {A = Result (Map Text) × List Text} (value toy_remote, w₀) (value remote, w)
        → remote ≡ toy_remote
    tips_there remote e = ground (arith, e)

keeper_bounds : Bounded keeper Leased
keeper_bounds = record {
  upkeep = ledger_upkeep;
  pushes = λ cfg leg meta mem is_open meant tgt found dir specs w refs permitted h.
      ledger_pushes dir (tgt.remote leg.to_path) meta.force meta.force_lease specs w
        (named meta meant) permitted h;
  deletes = λ cfg leg ref_type ref_name mem is_open free tgt found dir tip w w' seen there h. h;
}
  where
    named : (meta : EventMeta) → IsCommanded meta → meta.force ≡ true → meta.force_lease ≢ []
    named meta (inl (inl unforced)) force = absurd (ground (arith, unforced, force))
    named meta (inl (inr (ref, lease, source))) force = lease
    named meta (inr (ref, lease, source)) force = lease

-- A route whose bodies are what they parse to, by their first byte.
abbrev toy_url_host : UrlHost
toy_url_host url = none

abbrev toy_webhook : Webhook
toy_webhook = new_webhook (lit "t") (lit "s") [] []

abbrev toy_hmac : Text → Text → Text
toy_hmac payload secret = secret ++ payload

abbrev gitlab_push : GitLabPushEvent
gitlab_push = record {
  user_name = lit "ana";
  path_with_namespace = lit "org/app";
  web_url = lit "https://gitlab.com/org/app";
  ref = main_ref;
  after = lit "c2";
}

abbrev github_push : GitHubPushEvent
github_push = record {
  ref = main_ref;
  after = lit "c2";
  pusher = lit "ana";
  sender_login = lit "ana";
  full_name = lit "org/app";
  deleted = false;
}

abbrev forced_retry : RetryRequest
forced_retry = record {
  repo = lit "app";
  direction = lit "source-to-target";
  ref = main_ref;
  source = [];
  force = true;
  dest = lit "c1";
  actor = lit "ana";
}

abbrev codecommit_push : CodeCommitEvent
codecommit_push = record {
  repository_name = lit "app";
  reference_name = lit "main";
  reference_type = lit "branch";
  event = lit "referenceUpdated";
}

-- The history has the push that was held back.
abbrev held_back : Event
held_back = record (new_event Action.mirror) {
  to = lit "gh/org/app";
  held = record { ref = main_ref; reason = hold_destination_ahead; dest = lit "c1" } ∷ [];
}

abbrev toy_front : Front
toy_front = record {
  webhook = toy_webhook;
  api_token = lit "k";
  url_host = toy_url_host;
  hmac = toy_hmac;
  gitlab_body = λ body. some gitlab_push;
  github_body = λ body. some github_push;
  retry_body = λ body. some forced_retry;
  queue_body = λ body. some codecommit_push;
  history = λ events. some (λ q. held_back ∷ []);
  now = lit "2026-01-01T00:00:00Z";
}

abbrev push_by_webhook : EventMeta
push_by_webhook = record {
  ref = main_ref;
  source = lit "webhook";
  force = false;
  force_lease = [];
  actor = [];
}

-- A request that shows this in every header.
abbrev post : Text → Request
post shown = record { is_post = true; header = λ name. shown; body = lit "{}"; broken = false }

abbrev message : Message
message = record { message_id = lit "m1"; body = lit "{}" }

abbrev nothing_yet : Consumed (List Text)
nothing_yet = record {
  mirror = record { world = []; recorded = []; sent = []; busy = [] };
  deleted = [];
}

abbrev toy_click : RetryClick
toy_click = record {
  is_post = true;
  content_type = lit "application/json";
  body =
      decoded (record { repo = lit "app"; direction = []; to = lit "gh/org/app"; ref = main_ref });
  auth_user = lit "ana";
}

abbrev toy_force : ForceClick
toy_force = record {
  is_post = true;
  content_type = lit "application/json";
  body =
      decoded (record { repo = lit "app"; to = lit "gh/org/app"; ref = main_ref; dest = lit "c1" });
  auth_user = lit "ana";
}

abbrev traffic : List Arrival
traffic =
    gitlab_hook (post (lit "t"))
    ∷ retry_call (post (lit "Bearer k"))
    ∷ retry_click toy_click
    ∷ force_click toy_force
    ∷ queue_receive (received (message ∷ []))
    ∷ []

serve_all-guarded_example : Leased (serve_all keeper toy_front traffic nothing_yet).mirror.world
serve_all-guarded_example =
    serve_all-guarded keeper toy_front Leased keeper_bounds traffic nothing_yet tt

github_handler-FromGitHub_example :
    ((github_handler toy_url_host toy_webhook toy_hmac
        (λ body. some github_push)
        (post (lit "sha256=s{}"))).started
      ≡ some (sync_job (lit "github") (lit "org/app") push_by_webhook))
    ↔ FromGitHub toy_url_host toy_webhook
        (post (lit "sha256=s{}"))
        toy_hmac
        (λ body. some github_push)
        (sync_job (lit "github") (lit "org/app") push_by_webhook)
github_handler-FromGitHub_example =
    github_handler-FromGitHub toy_url_host toy_webhook (post (lit "sha256=s{}")) toy_hmac
      (λ body. some github_push) (sync_job (lit "github") (lit "org/app") push_by_webhook)

start-Accounts_example :
    Accounts keeper
      (λ body. some codecommit_push)
      (message ∷ [])
      nothing_yet
      (start keeper (λ body. some codecommit_push) (received (message ∷ []) ∷ []) nothing_yet)
start-Accounts_example =
    start-Accounts keeper (λ body. some codecommit_push) (received (message ∷ []) ∷ []) nothing_yet

-- Nothing fails: the ref is held back.
goes_well : (event_call keeper codecommit_push nothing_yet.mirror).0 ≡ none
unfolding sync allows_source_to_target to_lower do_mirror run ◌>>=◌ ref_override_blocks
    match_ref_override path_match short_name has_prefix trim_prefix require_provider lookup
    mirror_dir_for after_prefix concat join show_nat to_lower_char quote forced_reason nothing_lost
    with ask call exit finally pure record_outcome send_message classify_forced forced_body
    lossy_branches lost_commit_lines preserved_branches rewrite_note short_sha advise
    force_request_body held_body held_branches plan_loop plan_push build_full_refspecs resolve_refs
    retry_direction_for reverse_carries append_source endpoint ensure_mirror leave leave_as
    notify_failure record_since report_forced report_held full_ref_name is_tag link event_call ◌==◌
    new_codecommit
goes_well = refl

is_push : (codecommit_push.event == lit "referenceDeleted") ≡ false
unfolding ◌==◌
is_push = refl

event_call-Mirrored_example :
    Mirrored keeper codecommit_push nothing_yet.mirror
      (event_call keeper codecommit_push nothing_yet.mirror).1
event_call-Mirrored_example =
    event_call-Mirrored keeper codecommit_push nothing_yet.mirror is_push goes_well

abbrev toy_retry : Job
toy_retry = retry_job (lit "app") (lit "source-to-target") (record {
  ref = main_ref;
  source = lit "retry-api";
  force = true;
  force_lease = lit "c1";
  actor = lit "ana";
})

retry_handler-Gated_example :
    (lit "k" ≢ [])
    × (lit "Bearer k" ≡ lit "Bearer " ++ lit "k")
    × (true ≡ true)
    × (length (lit "{}") ≤ max_retry_body_size)
    × (false ≡ false)
    × Sane toy_retry
unfolding retry_handler ◌==◌ has_prefix trim_prefix read_all trim_space is_valid_retry_direction
    to_lower resolve_retry_source
retry_handler-Gated_example =
    retry_handler-Gated (lit "now") (lit "k") (λ body. some forced_retry) (post (lit "Bearer k"))
      toy_retry refl
