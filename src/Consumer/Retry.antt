-- ===== src/Consumer/Retry.antt =====
-- internal/consumer/retry.go: the retry endpoint.
pub mod Gates
use git_bridge.Base.{
  Text, ℕ, [], ◌∷◌, ◌++◌, Option, none, some, Bool, true, false, ◌&&◌, ◌||◌, not, lit, ◌==◌,
  if◌then◌else◌, trim_space, to_lower, has_prefix, trim_prefix,
}
use git_bridge.Mirror.{EventMeta, source_retry_api, source_cron}
use git_bridge.Consumer.{
  Decode, Request, oversize, unreadable, complete, read_all, Job, retry_job, Handled, http_error,
}

-- `RetryRequest`
pub record RetryRequest : Type 0 where
  pub repo : Text
  pub direction : Text
  pub ref : Text
  pub source : Text
  pub force : Bool
  pub dest : Text
  pub actor : Text

-- `resolveRetrySource`
unfoldable pub resolve_retry_source : Text → Option Text
resolve_retry_source hint =
    let h = to_lower (trim_space hint) in
    if h == [] then some source_retry_api else if h == source_cron then some source_cron else none

-- `IsValidRetryDirection`
unfoldable pub is_valid_retry_direction : Text → Bool
is_valid_retry_direction d =
    let l = to_lower d in
    l == lit "source-to-target" || (l == lit "target-to-source" || l == lit "auto")

abbrev pub max_retry_body_size : ℕ
max_retry_body_size = 4096

-- What is started, with the checks on it passed; `now` is the time of the reply as it is printed.
retry_started : Text → RetryRequest → Text → Text → Handled
retry_started now rr direction source = record {
  status = 200;
  text = [];
  fields =
      (lit "status", lit "accepted")
      ∷ (lit "repo", rr.repo)
      ∷ (lit "direction", direction)
      ∷ (lit "ref", rr.ref)
      ∷ (lit "queued_at", now)
      ∷ [];
  started = some (
      retry_job rr.repo direction (record {
        ref = rr.ref;
        source = source;
        force = rr.force;
        force_lease = trim_space rr.dest;
        actor = rr.actor;
      }));
}

-- The checks from the source on.
retry_sourced : Text → RetryRequest → Text → Option Text → Handled
unfolding retry_started
retry_sourced now rr direction none = http_error (lit "bad request: invalid source") 400
retry_sourced now rr direction (some source) =
    if rr.force && trim_space rr.ref == []
    then http_error (lit "bad request: force requires ref") 400
    else if rr.force && trim_space rr.dest == []
    then http_error
        (lit "bad request: force requires dest (the destination tip you are overwriting)") 400
    else if rr.force && source == source_cron
    then http_error (lit "bad request: cron may not force") 400
    else retry_started now rr direction source

-- The checks on a request that parsed.
retry_parsed : Text → Option RetryRequest → Handled
unfolding retry_sourced
retry_parsed now none = http_error (lit "bad request: invalid json") 400
retry_parsed now (some rr) =
    let direction = if rr.direction == [] then lit "auto" else rr.direction in
    if trim_space rr.repo == []
    then http_error (lit "bad request: repo required") 400
    else if not (is_valid_retry_direction direction)
    then http_error (lit "bad request: invalid direction") 400
    else retry_sourced now rr direction (resolve_retry_source rr.source)

retry_read : Text → Decode RetryRequest → Request → Handled
unfolding retry_parsed
retry_read now decode r = elim (read_all max_retry_body_size r) [
  | oversize ↦ http_error (lit "payload too large") 413
  | unreadable ↦ http_error (lit "bad request") 400
  | complete body ↦ retry_parsed now (decode body)
]

-- `Retry.Handler`
unfoldable pub retry_handler : Text → Text → Decode RetryRequest → Request → Handled
unfolding retry_read
retry_handler now api_token decode r =
    let auth = r.header (lit "Authorization") in
    if api_token == []
    then http_error (lit "404 page not found") 404
    else if not r.is_post
    then http_error (lit "method not allowed") 405
    else if not (has_prefix auth (lit "Bearer "))
    then http_error (lit "unauthorized") 401
    else if not (trim_prefix auth (lit "Bearer ") == api_token)
    then http_error (lit "unauthorized") 401
    else retry_read now decode r
