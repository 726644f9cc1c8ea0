-- ===== src/Consumer/Webhook/Accepted.antt =====
-- internal/consumer/webhook.go: which requests start a job, and which job.
use mathlib.Core.Path.{subst}
use git_bridge.Base.{
  Text, [], ◌++◌, some, Bool, true, false, lit, length, ◌≡◌, refl, sym, ◌↔◌, ◌⊎◌, inl, inr, ◌≤◌,
  arith, ==_iff, ◌==◌, if◌then◌else◌, Bool-cases, Option-cases, has_prefix, trim_prefix,
  after_prefix,
}
use git_bridge.Base.TextLaws.{prefixed}
use git_bridge.Config.Hosts.{UrlHost}
use git_bridge.Mirror.{
  EventMeta, refs_heads_prefix, refs_tags_prefix, full_ref_name, short_name, is_tag,
}
use git_bridge.Consumer.{Decode, Request, Job, sync_job, delete_job, retry_job, read_all}
use git_bridge.Consumer.Webhook.{
  Webhook, PushEvent, GitLabPushEvent, GitHubPushEvent, gitlab_event, github_event, event_job,
  pushed_meta, dispatch_key, gitlab_handler, github_handler, header_gitlab_token,
  header_github_signature, github_sig_prefix, accepted,
}

module _ (url_host : UrlHost) (w : Webhook) (r : Request) where
  -- A POST whose body arrived whole and within the limit.
  abbrev pub Posted : Type 0
  Posted = (r.is_post ≡ true) × (length r.body ≤ w.max_body_size) × (r.broken ≡ false)

  module _ (decode : Decode GitLabPushEvent) where
    -- Such a request with the configured token, if there is one, whose body parses to a push, and the
    -- job of that push.
    abbrev pub FromGitLab : Job → Type 0
    FromGitLab job =
        Posted
        × ((w.gitlab_secret ≡ []) ⊎ (r.header header_gitlab_token ≡ w.gitlab_secret))
        × ((e : GitLabPushEvent) × (decode r.body ≡ some e)
            × (job ≡ event_job url_host w (lit "gitlab") (gitlab_event e)))

    -- The GitLab route starts a job exactly when the request is a POST, its body arrived whole and within
    -- the limit and parses to a push, and it carries the configured token, if there is one; the job is
    -- that of the push.
    pub gitlab_handler-FromGitLab :
        (job : Job) → ((gitlab_handler url_host w decode r).started ≡ some job) ↔ FromGitLab job
    unfolding gitlab_handler read_all accepted
    gitlab_handler-FromGitLab job = (
      λ h. (
        ground (arith, h),
        elim (Bool-cases (w.gitlab_secret == [])) [
          | inl open_to_all ↦ inl ((==_iff w.gitlab_secret []).0 open_to_all)
          | inr guarded ↦
              inr
                (ground (arith, h, guarded, ==_iff (r.header header_gitlab_token) w.gitlab_secret))
        ],
        elim (Option-cases (decode r.body)) [
          | inl unparsed ↦ absurd (ground (arith, h, unparsed))
          | inr (e, parsed) ↦ (e, parsed, ground (arith, h, parsed))
        ],
      ),
      λ ((is_post, within, whole), token, (e, parsed, its_job)). elim token [
        | inl open_to_all ↦ ground (arith, ==_iff w.gitlab_secret [])
        | inr shown ↦ ground (arith, ==_iff (r.header header_gitlab_token) w.gitlab_secret)
      ],
    )

  module _ (hmac : Text → Text → Text) (decode : Decode GitHubPushEvent) where
    -- The same of GitHub, where the signature of the body takes the place of the token.
    abbrev pub FromGitHub : Job → Type 0
    FromGitHub job =
        Posted
        × ((w.github_secret ≡ [])
            ⊎ (github_sig_prefix ++ hmac r.body w.github_secret ≡ r.header header_github_signature))
        × ((e : GitHubPushEvent) × (decode r.body ≡ some e)
            × (job ≡ event_job url_host w (lit "github") (github_event e)))

    -- The GitHub route starts a job exactly when the request is a POST, its body arrived whole and within
    -- the limit and parses to a push, and it carries the signature of this body under the configured
    -- secret, if there is one; the job is that of the push.
    pub github_handler-FromGitHub :
        (job : Job)
        → ((github_handler url_host w hmac decode r).started ≡ some job) ↔ FromGitHub job
    unfolding github_handler read_all accepted
    github_handler-FromGitHub job =
        let signature = github_sig_prefix ++ hmac r.body w.github_secret in
        (
          λ h. (
            ground (arith, h),
            elim (Bool-cases (w.github_secret == [])) [
              | inl open_to_all ↦ inl ((==_iff w.github_secret []).0 open_to_all)
              | inr guarded ↦
                  inr (
                    ground (arith, h, guarded, ==_iff signature (r.header header_github_signature)))
            ],
            elim (Option-cases (decode r.body)) [
              | inl unparsed ↦ absurd (ground (arith, h, unparsed))
              | inr (e, parsed) ↦ (e, parsed, ground (arith, h, parsed))
            ],
          ),
          λ ((is_post, within, whole), token, (e, parsed, its_job)). elim token [
            | inl open_to_all ↦ ground (arith, ==_iff w.github_secret [])
            | inr shown ↦ ground (arith, ==_iff signature (r.header header_github_signature))
          ],
        )

abbrev pub Unforced : Job → Type 0
Unforced (sync_job key path meta) = meta.force ≡ false
Unforced (delete_job key path ref_type ref_name) = Unit
Unforced (retry_job repo direction meta) = ⊥

branch_or_tag :
    (ref : Text)
    → ((has_prefix ref refs_heads_prefix ≡ true) × (has_prefix ref refs_tags_prefix ≡ false))
      ⊎ ((has_prefix ref refs_heads_prefix ≡ false) × (has_prefix ref refs_tags_prefix ≡ true))
      ⊎ ((has_prefix ref refs_heads_prefix ≡ false) × (has_prefix ref refs_tags_prefix ≡ false))
unfolding has_prefix after_prefix
branch_or_tag ref = elim (Bool-cases (has_prefix ref refs_heads_prefix)) [
  | inl branch ↦
      let name = trim_prefix ref refs_heads_prefix in
      inl (branch, rw (prefixed ref refs_heads_prefix branch) refl)
  | inr other ↦ elim (Bool-cases (has_prefix ref refs_tags_prefix)) [
    | inl tag ↦ inr (inl (other, tag))
    | inr neither ↦ inr (inr (other, neither))
  ]
]

-- The type and the short name of a branch or a tag make up its full name again.
full_ref_name-short_name :
    (meta : EventMeta)
    → (has_prefix meta.ref refs_heads_prefix ≡ true) ⊎ (has_prefix meta.ref refs_tags_prefix ≡ true)
    → full_ref_name (if is_tag meta then lit "tag" else lit "branch") (short_name meta.ref)
      ≡ meta.ref
unfolding full_ref_name short_name is_tag ◌==◌
full_ref_name-short_name meta known = elim (branch_or_tag meta.ref) [
  | inl (branch, no_tag) ↦ rw (branch, no_tag) (sym (prefixed meta.ref refs_heads_prefix branch))
  | inr (inl (no_branch, tag)) ↦ rw (no_branch, tag) (sym (prefixed meta.ref refs_tags_prefix tag))
  | inr (inr (no_branch, no_tag)) ↦ absurd (ground arith)
]

module _ (url_host : UrlHost) (w : Webhook) (provider : Text) (e : PushEvent) where
  -- A push that deletes a branch or a tag, by its full name, starts the deletion of the ref of that name,
  -- and every other push starts a sync of the ref of that name.
  abbrev Names : Job → Type 0
  Names (sync_job key path meta) =
      (e.is_delete ≡ false) × (path ≡ e.repo_path) × (meta.ref ≡ e.ref) × (meta.force ≡ false)
  Names (delete_job key path ref_type ref_name) =
      (e.is_delete ≡ true) × (path ≡ e.repo_path) × (full_ref_name ref_type ref_name ≡ e.ref)
  Names (retry_job repo direction meta) = ⊥

  Names-if :
      (gone : Bool)
      → e.is_delete ≡ gone
      → (has_prefix e.ref refs_heads_prefix ≡ true) ⊎ (has_prefix e.ref refs_tags_prefix ≡ true)
      → Names (
          if gone
          then delete_job
              (dispatch_key url_host w provider e.instance_url)
              e.repo_path
              (if is_tag (pushed_meta e) then lit "tag" else lit "branch")
              (short_name e.ref)
          else sync_job
              (dispatch_key url_host w provider e.instance_url)
              e.repo_path
              (pushed_meta e))
  Names-if true gone known = (gone, refl, full_ref_name-short_name (pushed_meta e) known)
  Names-if false pushed known = (pushed, refl, refl, refl)

  Unforced-if :
      (gone : Bool)
      → Unforced (
          if gone
          then delete_job
              (dispatch_key url_host w provider e.instance_url)
              e.repo_path
              (if is_tag (pushed_meta e) then lit "tag" else lit "branch")
              (short_name e.ref)
          else sync_job
              (dispatch_key url_host w provider e.instance_url)
              e.repo_path
              (pushed_meta e))
  Unforced-if true = tt
  Unforced-if false = refl

  pub event_job-Names :
      (has_prefix e.ref refs_heads_prefix ≡ true) ⊎ (has_prefix e.ref refs_tags_prefix ≡ true)
      → Names (event_job url_host w provider e)
  unfolding event_job
  event_job-Names known = Names-if e.is_delete refl known

  -- No webhook starts a retry, or a sync with force.
  pub event_job-Unforced : (job : Job) → event_job url_host w provider e ≡ job → Unforced job
  unfolding event_job
  event_job-Unforced job same = subst Unforced same (Unforced-if e.is_delete)
