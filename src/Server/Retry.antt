-- ===== src/Server/Retry.antt =====
-- internal/server/console.go, `retryHandler`: the console's button that runs a sync again. The sync runs on
-- the task group; the job that is handed to it is a result here.
use git_bridge.Base.{
  Text, [], ◌∷◌, Option, none, some, false, ◌&&◌, not, if◌then◌else◌, lit, ◌==◌, ◌≡◌, inl, inr,
  trim_space, arith, Bool-cases,
}
use git_bridge.Consumer.{Job, retry_job}
use git_bridge.Consumer.Retry.{is_valid_retry_direction}
use git_bridge.Errors.{Result, value, failed}
use git_bridge.Mirror.{source_console}
use git_bridge.Server.{Body, too_large, invalid, decoded, Request, Reply, fault, refused_early}

pub record RetryBody : Type 0 where
  pub repo : Text
  pub direction : Text
  pub to : Text
  pub ref : Text

abbrev pub RetryClick : Type 0
RetryClick = Request RetryBody

abbrev pub console_job : Text → Text → Text → Job
console_job repo direction ref =
    retry_job repo direction
      (record { ref = ref; source = source_console; force = false; force_lease = []; actor = [] })

-- With the direction known.
retry_directed : Text → Text → Text → Reply × Option Job
retry_directed repo ref direction =
    if not (is_valid_retry_direction direction)
    then (fault 400 (lit "invalid direction"), none)
    else (
      record {
        status = 202;
        fields =
            (lit "status", lit "accepted") ∷ (lit "repo", repo) ∷ (lit "direction", direction) ∷ [];
      },
      some (console_job repo direction ref),
    )

-- With what `DirectionTo` says of the row's destination.
retry_resolved : Text → Text → Result Text → Reply × Option Job
unfolding retry_directed
retry_resolved repo ref (failed e) = (fault 409 e.message, none)
retry_resolved repo ref (value direction) =
    retry_directed repo ref (if direction == [] then lit "auto" else direction)

module _ (direction_to : Text → Text → Result Text) where
  retry_fields : RetryBody → Reply × Option Job
  unfolding retry_resolved retry_directed
  retry_fields b =
      let repo = trim_space b.repo in
      let to = trim_space b.to in
      let direction = trim_space b.direction in
      if repo == []
      then (fault 400 (lit "repo is required"), none)
      else if not (to == []) && direction == []
      then retry_resolved repo b.ref (direction_to repo to)
      else retry_directed repo b.ref (if direction == [] then lit "auto" else direction)

  retry_decoded : Body RetryBody → Reply × Option Job
  unfolding retry_fields
  retry_decoded too_large = (fault 413 (lit "payload too large"), none)
  retry_decoded invalid = (fault 400 (lit "invalid json"), none)
  retry_decoded (decoded b) = retry_fields b

  retry_request : Request RetryBody → Option Reply → Reply × Option Job
  unfolding retry_decoded
  retry_request r (some early) = (early, none)
  retry_request r none = retry_decoded r.body

-- `retryHandler`, with the `DirectionTo` of its retrier, if it has one
unfoldable pub console_retry_handler :
    Option (Text → Text → Result Text) → Request RetryBody → Reply × Option Job
unfolding retry_request
console_retry_handler none r = (record { status = 404; fields = [] }, none)
console_retry_handler (some direction_to) r = retry_request direction_to r (refused_early r)

-- What it starts: an unforced retry, recorded as the console's.
abbrev pub IsConsoleRetry : Job → Type 0
IsConsoleRetry job = (repo direction ref : Text) × (job ≡ console_job repo direction ref)

retry_directed-IsConsoleRetry :
    (repo ref direction : Text) (job : Job)
    → (retry_directed repo ref direction).1 ≡ some job
    → IsConsoleRetry job
unfolding retry_directed
retry_directed-IsConsoleRetry repo ref direction job h = (repo, direction, ref, ground (arith, h))

retry_resolved-IsConsoleRetry :
    (repo ref : Text) (r : Result Text) (job : Job)
    → (retry_resolved repo ref r).1 ≡ some job
    → IsConsoleRetry job
unfolding retry_resolved
retry_resolved-IsConsoleRetry repo ref (failed e) job h = absurd (ground (arith, h))
retry_resolved-IsConsoleRetry repo ref (value direction) job h =
    retry_directed-IsConsoleRetry repo ref _ job h

pub console_retry_handler-IsConsoleRetry :
    (retrier : Option (Text → Text → Result Text)) (r : Request RetryBody) (job : Job)
    → (console_retry_handler retrier r).1 ≡ some job
    → IsConsoleRetry job
unfolding console_retry_handler retry_request retry_decoded retry_fields
console_retry_handler-IsConsoleRetry none r job h = absurd (ground (arith, h))
console_retry_handler-IsConsoleRetry (some direction_to) r job h = asked (refused_early r) h
  where
    fields : (b : RetryBody) → (retry_fields direction_to b).1 ≡ some job → IsConsoleRetry job
    fields b k = elim (Bool-cases (trim_space b.repo == [])) [
      | inl unnamed ↦ absurd (ground (arith, k, unnamed))
      | inr named ↦
          elim (Bool-cases (not (trim_space b.to == []) && trim_space b.direction == [])) [
            | inl row ↦
                retry_resolved-IsConsoleRetry (trim_space b.repo) b.ref
                  (direction_to (trim_space b.repo) (trim_space b.to)) job (rw (named, row) at k)
            | inr own ↦
                retry_directed-IsConsoleRetry (trim_space b.repo) b.ref _ job (rw (named, own) at k)
          ]
    ]

    body : (o : Body RetryBody) → (retry_decoded direction_to o).1 ≡ some job → IsConsoleRetry job
    body too_large k = absurd (ground (arith, k))
    body invalid k = absurd (ground (arith, k))
    body (decoded b) k = fields b k

    asked :
        (early : Option Reply)
        → (retry_request direction_to r early).1 ≡ some job
        → IsConsoleRetry job
    asked (some early) k = absurd (ground (arith, k))
    asked none k = body r.body k
