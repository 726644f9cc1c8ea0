-- ===== src/Server.antt =====
-- internal/server/console.go: the two console routes that write, with what they check before they do.
-- The response headers are left out; a JSON body is the map that is written.
pub mod Gates
pub mod Force
pub mod Retry
pub mod Views
use git_bridge.Base.{
  Text, ℕ, List, [], ◌∷◌, Option, none, some, Bool, true, false, ◌&&◌, ◌||◌, not, if◌then◌else◌,
  lit, ◌==◌, nat_eq, leb, any, length, trim_space, to_lower, has_prefix, trim_prefix,
}
use git_bridge.Errors.{Error, Sentinel}
use git_bridge.History.{Event, Action, Outcome, ok, HeldRef}
use git_bridge.History.Writer.{Query}
use git_bridge.Mirror.{refs_heads_prefix, refs_tags_prefix, source_cron}

status_of : Option Sentinel → ℕ × Text
status_of (some Sentinel.ref_exists) = (409, lit "ref-exists")
status_of (some Sentinel.object_gone) = (410, lit "object-gone")
status_of (some Sentinel.direction_not_allowed) = (403, lit "direction")
status_of (some Sentinel.ref_overridden) = (403, lit "ref-override")
status_of (some Sentinel.unknown_side) = (400, lit "unknown-side")
status_of (some Sentinel.unknown_repo) = (400, lit "unknown-repo")
status_of (some Sentinel.repo_busy) = (503, lit "repo-busy")
status_of none = (500, lit "restore-failed")

-- `restoreFailureStatus`: an error wraps at most one of the sentinels
unfoldable pub restore_failure_status : Error → ℕ × Text
unfolding status_of
restore_failure_status e = status_of e.sentinel

-- `history.Reader`, as far as the routes use it
abbrev pub Reader : Type 0
Reader = Query → List Event

abbrev pub max_history_limit : ℕ
max_history_limit = 500

-- `gateQuery`
abbrev pub gate_query : Text → Query
gate_query repo = record {
  limit = max_history_limit;
  failures_only = false;
  repo = repo;
  routine_source = source_cron;
  forced_only = false;
  source = [];
}

abbrev is_delete : Action → Bool
is_delete Action.delete = true
is_delete _ = false

abbrev is_ok : Outcome → Bool
is_ok ok = true
is_ok _ = false

-- A delete of this ref, at this commit, from this destination.
unfoldable pub is_matching_delete : Text → Text → Text → Event → Bool
is_matching_delete to ref sha ev =
    is_delete ev.action
    && (is_ok ev.result && (ev.to == to && (ev.ref == ref && ev.deleted_tip == sha)))

-- `matchingDeleteExists`
unfoldable pub matching_delete_exists : Option Reader → Text → Text → Text → Text → Bool
matching_delete_exists none repo to ref sha = false
matching_delete_exists (some read) repo to ref sha =
    any (is_matching_delete to ref sha) (read (gate_query repo))

hex_only : Text → Bool
hex_only [] = true
hex_only (c ∷ cs) =
    let rest = hex_only cs in (leb b'0' c && leb c b'9' || leb b'a' c && leb c b'f') && rest

-- `fullSHA`
unfoldable pub is_full_sha : Text → Bool
unfolding hex_only
is_full_sha sha = nat_eq (length sha) 40 && hex_only sha

-- What decoding the body of a request came to.
pub data Body (A : Type 0) : Type 0 where
  too_large invalid : Body A
  decoded : A → Body A

pub record Request (A : Type 0) : Type 0 where
  pub is_post : Bool
  pub content_type : Text
  pub body : Body A
  pub auth_user : Text

pub record Reply : Type 0 where
  pub status : ℕ
  pub fields : List (Text × Text)

abbrev pub fault : ℕ → Text → Reply
fault status text = record { status = status; fields = (lit "error", text) ∷ [] }

-- The refusals that the two routes share, before they look at what was decoded.
abbrev refused_early : {A : Type 0} → Request A → Option Reply
refused_early r =
    if not r.is_post
    then some (fault 405 (lit "method not allowed"))
    else if not (has_prefix r.content_type (lit "application/json"))
    then some (fault 415 (lit "content-type must be application/json"))
    else none

pub record RestoreBody : Type 0 where
  pub repo : Text
  pub to : Text
  pub ref : Text
  pub sha : Text

-- The `switch` on the ref's prefix: the type and the short name of a branch or a tag.
unfoldable pub ref_parts : Text → Option (Text × Text)
ref_parts ref =
    if has_prefix ref refs_heads_prefix
    then some (lit "branch", trim_prefix ref refs_heads_prefix)
    else if has_prefix ref refs_tags_prefix
    then some (lit "tag", trim_prefix ref refs_tags_prefix)
    else none

-- `RefRestorer` and `PushForcer`, on a state that they may change
abbrev pub Restorer : Type 0 → Type 0
Restorer S = Text → Text → Text → Text → Text → Text → S → Option Error × S

restored : {S : Type 0} → RestoreBody → Option Error × S → Reply × S
restored b (some e, st) =
    let (status, reason) = restore_failure_status e in
    (
      record { status = status; fields = (lit "error", e.message) ∷ (lit "reason", reason) ∷ [] },
      st,
    )
restored b (none, st) =
    let fields =
      (lit "status", lit "restored")
      ∷ (lit "repo", b.repo)
      ∷ (lit "ref", b.ref)
      ∷ (lit "sha", b.sha)
      ∷ [] in
    (record { status = 200; fields = fields }, st)

no_matching_delete : Reply
no_matching_delete =
    let error = lit "no recorded delete matches this repo, destination, ref and commit" in
    record {
      status = 409;
      fields = (lit "error", error) ∷ (lit "reason", lit "no-matching-delete") ∷ [];
    }

-- With the ref taken apart.
restore_parts :
    {S : Type 0}
    → Restorer S
    → Option Reader
    → Text
    → RestoreBody
    → Option (Text × Text)
    → S
    → Reply × S
unfolding restored no_matching_delete
restore_parts restore reader actor b none st =
    (fault 400 (lit "ref must be a refs/heads/ or refs/tags/ ref"), st)
restore_parts restore reader actor b (some (ref_type, ref_name)) st =
    if ref_name == []
    then (fault 400 (lit "ref name is empty"), st)
    else if not (matching_delete_exists reader b.repo b.to b.ref b.sha)
    then (no_matching_delete, st)
    else restored b (restore b.repo b.to ref_type ref_name b.sha actor st)

-- The fields as the route uses them: without space around, the commit in lower case.
abbrev pub tidy : RestoreBody → RestoreBody
tidy b = record {
  repo = trim_space b.repo;
  to = trim_space b.to;
  ref = trim_space b.ref;
  sha = to_lower (trim_space b.sha);
}

abbrev pub actor_of : Text → Text
actor_of user = if trim_space user == [] then lit "unknown" else trim_space user

restore_body : {S : Type 0} → Restorer S → Option Reader → Text → RestoreBody → S → Reply × S
unfolding restore_parts
restore_body restore reader actor b st =
    if b.repo == [] || b.to == []
    then (fault 400 (lit "repo and to are required"), st)
    else if not (is_full_sha b.sha)
    then (fault 400 (lit "sha must be a full 40-character object name"), st)
    else restore_parts restore reader actor b (ref_parts b.ref) st

restore_decoded :
    {S : Type 0} → Restorer S → Option Reader → Text → Body RestoreBody → S → Reply × S
unfolding restore_body
restore_decoded restore reader user too_large st = (fault 413 (lit "payload too large"), st)
restore_decoded restore reader user invalid st = (fault 400 (lit "invalid json"), st)
restore_decoded restore reader user (decoded b) st =
    restore_body restore reader (actor_of user) (tidy b) st

restore_request :
    {S : Type 0} → Restorer S → Option Reader → Request RestoreBody → Option Reply → S → Reply × S
unfolding restore_decoded
restore_request restore reader r (some early) st = (early, st)
restore_request restore reader r none st = restore_decoded restore reader r.auth_user r.body st

-- `restoreHandler`
unfoldable pub restore_handler :
    {S : Type 0} → Option (Restorer S) → Option Reader → Request RestoreBody → S → Reply × S
unfolding restore_request
restore_handler none reader r st = (record { status = 404; fields = [] }, st)
restore_handler (some restore) reader r st = restore_request restore reader r (refused_early r) st
