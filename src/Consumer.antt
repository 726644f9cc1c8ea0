-- ===== src/Consumer.antt =====
-- internal/consumer: the requests and messages that start the mirror service's operations. Decoding JSON
-- and computing an HMAC are the standard library's and are arguments here; logging is left out.
pub mod Webhook
pub mod Retry
pub mod Queue
pub mod Limits
pub mod Traffic
pub mod Arrivals
use git_bridge.Base.{Text, ℕ, List, [], length, Option, none, some, Bool, ltb, if◌then◌else◌}
use git_bridge.Mirror.{EventMeta}
use git_bridge.Mirror.Flow.{Service}
use git_bridge.Mirror.Entry.{Call, sync_by_target, sync_delete_by_target, retry}

-- What json.Unmarshal makes of a body: `none` is its error.
abbrev pub Decode : Type 0 → Type 0
Decode A = Text → Option A

-- A request: the method, the headers, and the body as it comes in. A body that is `broken` fails to
-- read behind the bytes that it has.
pub record Request : Type 0 where
  pub is_post : Bool
  pub header : Text → Text
  pub body : Text
  pub broken : Bool

-- io.ReadAll over http.MaxBytesReader
pub data Reading : Type 0 where
  oversize unreadable : Reading
  complete : Text → Reading

unfoldable pub read_all : ℕ → Request → Reading
read_all limit r =
    if ltb limit (length r.body) then oversize else if r.broken then unreadable else complete r.body

-- The calls of the mirror service that a handler hands to `tasks.Go`.
pub data Job : Type 0 where
  -- `SyncByTarget`: the provider key, the path, the event
  sync_job : Text → Text → EventMeta → Job
  -- `SyncDeleteByTarget`: the provider key, the path, the ref's type and name
  delete_job : Text → Text → Text → Text → Job
  -- `Retry`: the repository, the direction, the event
  retry_job : Text → Text → EventMeta → Job

-- The body of the goroutine: its error is logged and goes nowhere else.
unfoldable pub run_job : {W : Type 0} → Service W → Job → Call W
run_job s (sync_job key path meta) = sync_by_target s key path meta
run_job s (delete_job key path ref_type ref_name) =
    sync_delete_by_target s key path ref_type ref_name
run_job s (retry_job repo direction meta) = retry s repo direction meta

-- A reply, in plain text or as the fields of a JSON object, and the job that was started before it.
pub record Handled : Type 0 where
  pub status : ℕ
  pub text : Text
  pub fields : List (Text × Text)
  pub started : Option Job

-- http.Error
abbrev pub http_error : Text → ℕ → Handled
http_error text status = record { status = status; text = text; fields = []; started = none }
