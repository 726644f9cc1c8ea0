-- ===== src/Consumer/Webhook.antt =====
-- internal/consumer/webhook.go: the push events of GitLab and GitHub.
pub mod Accepted
use git_bridge.Base.{
  Text, ℕ, ℤ, pos, List, [], ◌∷◌, Option, none, some, Bool, true, false, ◌&&◌, ◌||◌, not, lit, Map,
  ◌==◌, if◌then◌else◌, ◌*◌, ◌^◌, ◌++◌, ltb, ◌%◌, zero, suc,
}
use git_bridge.Config.Hosts.{UrlHost, resolve}
use git_bridge.Mirror.{EventMeta, short_name, is_tag, source_webhook}
use git_bridge.Consumer.{
  Decode, Request, Reading, oversize, unreadable, complete, read_all, Job, sync_job, delete_job,
  Handled, http_error,
}

abbrev pub header_gitlab_token : Text
header_gitlab_token = lit "X-Gitlab-Token"

abbrev pub header_github_signature : Text
header_github_signature = lit "X-Hub-Signature-256"

abbrev pub github_sig_prefix : Text
github_sig_prefix = lit "sha256="

abbrev pub zero_sha : Text
zero_sha = lit "0000000000000000000000000000000000000000"

-- `GitLabPushEvent`, the fields that are read
pub record GitLabPushEvent : Type 0 where
  pub user_name : Text
  pub path_with_namespace : Text
  pub web_url : Text
  pub ref : Text
  pub after : Text

-- `GitHubPushEvent`, the fields that are read
pub record GitHubPushEvent : Type 0 where
  pub ref : Text
  pub after : Text
  pub pusher : Text
  pub sender_login : Text
  pub full_name : Text
  pub deleted : Bool

-- The interface `pushEvent`, with what its methods give; the pusher is only logged. The address is
-- `none` where the provider cannot be narrowed down by its host.
pub record PushEvent : Type 0 where
  pub repo_path : Text
  pub ref : Text
  pub pusher : Text
  pub is_delete : Bool
  pub instance_url : Option Text

unfoldable pub gitlab_event : GitLabPushEvent → PushEvent
gitlab_event e = record {
  repo_path = e.path_with_namespace;
  ref = e.ref;
  pusher = e.user_name;
  is_delete = e.after == zero_sha;
  instance_url = some e.web_url;
}

unfoldable pub github_event : GitHubPushEvent → PushEvent
github_event e = record {
  repo_path = e.full_name;
  ref = e.ref;
  pusher = (if e.pusher == [] then e.sender_login else e.pusher);
  is_delete = e.deleted || e.after == zero_sha;
  instance_url = none;
}

-- `Webhook`; the task group and the service are in what a handler starts
pub record Webhook : Type 0 where
  pub gitlab_secret : Text
  pub github_secret : Text
  pub hosts : Map Text
  pub max_body_size : ℕ

-- `int64(mb) << 20`, as http.MaxBytesReader takes it: a negative limit counts as 0
unfoldable pub body_limit : ℕ → ℕ
body_limit mb = let x = (mb * 2 ^ 20) % 2 ^ 64 in if ltb x (2 ^ 63) then x else 0

-- `WithMaxBodySizeMB`
unfoldable pub with_max_body_size_mb : ℤ → Webhook → Webhook
unfolding body_limit
with_max_body_size_mb (pos zero) w = w
with_max_body_size_mb (pos (suc n)) w = record w { max_body_size = body_limit (suc n) }
with_max_body_size_mb _ w = w

-- `NewWebhook`, with its options in order
apply_options : List (Webhook → Webhook) → Webhook → Webhook
apply_options [] w = w
apply_options (opt ∷ opts) w = apply_options opts (opt w)

unfoldable pub new_webhook : Text → Text → Map Text → List (Webhook → Webhook) → Webhook
unfolding apply_options
new_webhook gitlab_secret github_secret hosts opts = apply_options opts (record {
  gitlab_secret = gitlab_secret;
  github_secret = github_secret;
  hosts = hosts;
  max_body_size = 10 * 2 ^ 20;
})

accepted : Job → Handled
accepted job = record {
  status = 200;
  text = [];
  fields = (lit "status", lit "accepted") ∷ [];
  started = some job;
}

abbrev pub pushed_meta : PushEvent → EventMeta
pushed_meta e = record {
  ref = e.ref;
  source = source_webhook;
  force = false;
  force_lease = [];
  actor = [];
}

module _ (url_host : UrlHost) (w : Webhook) where
  -- The key that the repository is looked up by: the provider that the instance's address names, or
  -- else the provider type of the route.
  unfoldable pub dispatch_key : Text → Option Text → Text
  dispatch_key provider none = provider
  dispatch_key provider (some url) =
      let name = resolve url_host w.hosts url in if not (name == []) then name else provider

  -- The job of an event.
  unfoldable pub event_job : Text → PushEvent → Job
  unfolding dispatch_key
  event_job provider e =
      let meta = pushed_meta e in
      let key = dispatch_key provider e.instance_url in
      if e.is_delete
      then delete_job key e.repo_path (if is_tag meta then lit "tag" else lit "branch")
          (short_name e.ref)
      else sync_job key e.repo_path meta

  -- `dispatchPushEvent`, on what the body parsed to
  dispatch_push_event : Text → Option PushEvent → Handled
  unfolding accepted event_job
  dispatch_push_event provider none = http_error (lit "bad request") 400
  dispatch_push_event provider (some e) = accepted (event_job provider e)

  -- `readLimitedBody`, and what the caller does with a body that it gives
  with_limited_body : Request → (Text → Handled) → Handled
  with_limited_body r use_body = elim (read_all w.max_body_size r) [
    | oversize ↦ http_error (lit "payload too large") 413
    | unreadable ↦ http_error (lit "bad request") 400
    | complete body ↦ use_body body
  ]

  -- `GitLabHandler`
  unfoldable pub gitlab_handler : Decode GitLabPushEvent → Request → Handled
  unfolding with_limited_body dispatch_push_event gitlab_event event_job
  gitlab_handler decode r =
      if not r.is_post
      then http_error (lit "method not allowed") 405
      else if not (w.gitlab_secret == []) && not (r.header header_gitlab_token == w.gitlab_secret)
      then http_error (lit "unauthorized") 401
      else with_limited_body r λ body.
        dispatch_push_event (lit "gitlab")
          (elim (decode body) [ none ↦ none | some e ↦ some (gitlab_event e) ])

  -- `verifyGitHubSignature`, with the hexadecimal HMAC-SHA256 of a payload under a secret
  unfoldable pub verify_github_signature : (Text → Text → Text) → Text → Text → Text → Bool
  verify_github_signature hmac payload secret signature =
      (github_sig_prefix ++ hmac payload secret) == signature

  -- `GitHubHandler`
  unfoldable pub github_handler : (Text → Text → Text) → Decode GitHubPushEvent → Request → Handled
  unfolding with_limited_body dispatch_push_event github_event verify_github_signature event_job
  github_handler hmac decode r =
      if not r.is_post
      then http_error (lit "method not allowed") 405
      else with_limited_body r λ body.
        if not (w.github_secret == [])
          && not
              (verify_github_signature hmac body w.github_secret (r.header header_github_signature))
        then http_error (lit "unauthorized") 401
        else dispatch_push_event (lit "github")
            (elim (decode body) [ none ↦ none | some e ↦ some (github_event e) ])
