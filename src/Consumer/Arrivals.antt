-- ===== src/Consumer/Arrivals.antt =====
-- internal/consumer, internal/server/console.go and cmd/git-bridge/main.go: the service with its public
-- routes, the console's retry and force routes and its queue, run on whatever arrives. A job that a handler starts
-- is run to its end before the next arrival; runs of one repository do not overlap in the program
-- either, since each holds the repository's lock.
use mathlib.Core.Path.{subst}
use git_bridge.Base.{
  ◌≢◌, false, true, ◌==◌, ==_iff, arith, Text, List, [], ◌∷◌, Option, none, some, lit, ◌≡◌, refl,
  sym, inl,
}
use git_bridge.Config.Hosts.{UrlHost}
use git_bridge.Mirror.Flow.{Service}
use git_bridge.Consumer.{Decode, Request, Job, sync_job, delete_job, retry_job, run_job}
use git_bridge.Consumer.Webhook.{
  Webhook, GitLabPushEvent, GitHubPushEvent, gitlab_event, github_event, gitlab_handler,
  github_handler,
}
use git_bridge.Consumer.Webhook.Accepted.{
  Unforced, event_job-Unforced, gitlab_handler-FromGitLab, github_handler-FromGitHub,
}
use git_bridge.Consumer.Retry.{RetryRequest, retry_handler}
use git_bridge.Consumer.Retry.Gates.{retry_handler-Gated, Sane}
use git_bridge.Consumer.Queue.{CodeCommitEvent, Consumed, Received, poll}
use git_bridge.Consumer.Queue.Kept.{poll-keeps}
use git_bridge.Mirror.Console.{direction_to}
use git_bridge.History.{Event}
use git_bridge.Mirror.Console.Writes.{force_push}
use git_bridge.Server.{Reader}
use git_bridge.Server.Force.{
  ForceClick, ForceCall, IsComplete, force_handler, force_handler-IsComplete,
}
use git_bridge.Server.Retry.{
  RetryClick, IsConsoleRetry, console_retry_handler, console_retry_handler-IsConsoleRetry,
}
use git_bridge.Consumer.Traffic.{
  Bounded, IsMeant, run_job-Keeps, event_call-Keeps, force_push-Keeps,
}

-- What the routes and the queue are set up with, and the library functions that they use.
pub record Front : Type 0 where
  pub webhook : Webhook
  pub api_token : Text
  pub url_host : UrlHost
  pub hmac : Text → Text → Text
  pub gitlab_body : Decode GitLabPushEvent
  pub github_body : Decode GitHubPushEvent
  pub retry_body : Decode RetryRequest
  pub queue_body : Decode CodeCommitEvent
  -- what the console reads, of the events recorded so far
  pub history : List Event → Option Reader
  pub now : Text  -- the time that a reply shows

pub data Arrival : Type 0 where
  gitlab_hook github_hook retry_call : Request → Arrival
  retry_click : RetryClick → Arrival
  force_click : ForceClick → Arrival
  queue_receive : Received → Arrival

Sane-IsMeant : (job : Job) → Sane job → IsMeant job
Sane-IsMeant (retry_job repo direction meta) h = h.3
Sane-IsMeant (sync_job key path meta) h = absurd h
Sane-IsMeant (delete_job key path ref_type ref_name) h = tt

ConsoleRetry-IsMeant : (job : Job) → IsConsoleRetry job → IsMeant job
ConsoleRetry-IsMeant job (repo, direction, ref, its_job) = subst IsMeant (sym its_job) (inl refl)

Unforced-IsMeant : (job : Job) → Unforced job → IsMeant job
Unforced-IsMeant (retry_job repo direction meta) h = absurd h
Unforced-IsMeant (sync_job key path meta) h = inl h
Unforced-IsMeant (delete_job key path ref_type ref_name) h = tt

filled : (t : Text) → (t == []) ≡ false → t ≢ []
filled t h e = ground (arith, h, e, ==_iff t [])

module _ {W : Type 0} (s : Service W) (front : Front) where
  serve_started : Option Job → Consumed W → Consumed W
  serve_started none c = c
  serve_started (some job) c = record c { mirror = (run_job s job c.mirror).1 }

  serve_forced : Option ForceCall → Consumed W → Consumed W
  serve_forced none c = c
  serve_forced (some f) c = record c {
    mirror = (force_push s f.repo f.to f.ref f.dest f.actor c.mirror).1;
  }

  serve : Arrival → Consumed W → Consumed W
  unfolding serve_started serve_forced
  serve (gitlab_hook r) c =
      serve_started (gitlab_handler front.url_host front.webhook front.gitlab_body r).started c
  serve (github_hook r) c =
      serve_started
        (github_handler front.url_host front.webhook front.hmac front.github_body r).started c
  serve (retry_call r) c =
      serve_started (retry_handler front.now front.api_token front.retry_body r).started c
  serve (retry_click r) c = serve_started (console_retry_handler (some (direction_to s)) r).1 c
  serve (force_click r) c =
      serve_forced (force_handler true (front.history c.mirror.recorded) r).1 c
  serve (queue_receive given) c = poll s front.queue_body given c

  unfoldable pub serve_all : List Arrival → Consumed W → Consumed W
  unfolding serve
  serve_all [] c = c
  serve_all (a ∷ rest) c = serve_all rest (serve a c)

  module _ (Inv : W → Type 0) (bounds : Bounded s Inv) where
    serve_started-keeps :
        (o : Option Job) (c : Consumed W)
        → ((job : Job) → o ≡ some job → IsMeant job)
        → Inv c.mirror.world
        → Inv (serve_started o c).mirror.world
    unfolding serve_started
    serve_started-keeps none c meant h = h
    serve_started-keeps (some job) c meant h =
        run_job-Keeps s Inv bounds job (meant job refl) c.mirror h

    serve_forced-keeps :
        (o : Option ForceCall) (c : Consumed W)
        → IsComplete o
        → Inv c.mirror.world
        → Inv (serve_forced o c).mirror.world
    unfolding serve_forced
    serve_forced-keeps none c complete h = h
    serve_forced-keeps (some f) c (named, leased) h =
        force_push-Keeps s Inv bounds f.repo f.to f.ref f.dest f.actor (filled f.ref named)
          (filled f.dest leased) c.mirror h

    serve-keeps : (a : Arrival) (c : Consumed W) → Inv c.mirror.world → Inv (serve a c).mirror.world
    unfolding serve
    serve-keeps (gitlab_hook r) c h =
        serve_started-keeps _ c
          (λ job started.
            let (posted, shown, (e, parsed, its_job)) =
              (gitlab_handler-FromGitLab front.url_host front.webhook r front.gitlab_body job).0
                started in
            Unforced-IsMeant job (
              event_job-Unforced front.url_host front.webhook (lit "gitlab") (gitlab_event e) job
                (sym its_job)))
          h
    serve-keeps (github_hook r) c h =
        serve_started-keeps _ c
          (λ job started.
            let (posted, shown, (e, parsed, its_job)) =
              (github_handler-FromGitHub front.url_host front.webhook r front.hmac front.github_body
                  job).0
                started in
            Unforced-IsMeant job (
              event_job-Unforced front.url_host front.webhook (lit "github") (github_event e) job
                (sym its_job)))
          h
    serve-keeps (retry_call r) c h =
        serve_started-keeps _ c
          (λ job started.
            Sane-IsMeant job
              (retry_handler-Gated front.now front.api_token front.retry_body r job started).5)
          h
    serve-keeps (retry_click r) c h =
        serve_started-keeps _ c
          (λ job started.
            ConsoleRetry-IsMeant job
              (console_retry_handler-IsConsoleRetry (some (direction_to s)) r job started))
          h
    serve-keeps (force_click r) c h =
        let reader = front.history c.mirror.recorded in
        serve_forced-keeps (force_handler true reader r).1 c
          (force_handler-IsComplete true reader r) h
    serve-keeps (queue_receive given) c h =
        poll-keeps s front.queue_body Inv (event_call-Keeps s Inv bounds) given c h

    -- Whatever arrives at the public routes, at the console's retry and force routes and in the queue, in
    -- whatever order and however malformed, the service keeps every property of the world that is kept
    -- by git's reads and upkeep, by pushes that the plan permits, and by deletions of refs that the
    -- destination has just shown: pushes only on legs that the configuration allows, and forced only
    -- where a ref and the tip to overwrite are named, by the retry API's caller or at the console;
    -- deletions only on such legs, of refs that no override pins away.
    pub serve_all-guarded :
        (arrivals : List Arrival) (c : Consumed W)
        → Inv c.mirror.world
        → Inv (serve_all arrivals c).mirror.world
    unfolding serve_all
    serve_all-guarded [] c h = h
    serve_all-guarded (a ∷ rest) c h = serve_all-guarded rest (serve a c) (serve-keeps a c h)
