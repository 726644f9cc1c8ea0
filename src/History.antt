-- ===== src/History.antt =====
-- internal/history/history.go: the vocabulary of the history and the event.
-- The actions, results and reasons are Go string constants; each vocabulary is a data type here,
-- and `no_reason` is the empty string.
pub mod Writer
pub mod Tail
pub mod Ring
use git_bridge.Base.{
  Text, ℕ, List, [], ◌∷◌, Option, none, some, Bool, true, false, if◌then◌else◌, lit, ltb, nat_eq,
  ◌&&◌, ◌||◌, is_empty, not, ◌≤◌,
}
use git_bridge.Errors.{Error}

pub data Action : Type 0 where
  mirror delete restore : Action

pub data Outcome : Type 0 where
  ok skip fail : Outcome

pub data Reason : Type 0 where
  no_reason : Reason
  already_up_to_date ref_override no_refs_to_push already_absent destination_ahead lease_rejected :
      Reason
  clone push check_ref delete_ref provider ref_exists object_gone create_ref direction unknown_side
        unknown_repo repo_busy :
      Reason
  forced_update rewritten : Reason

-- `LostCommit`
pub record LostCommit : Type 0 where
  pub sha : Text
  pub author : Text
  pub subject : Text

-- `ForcedRef`: a ref that a push overwrote, with the tip that it discarded
pub record ForcedRef : Type 0 where
  pub ref : Text
  pub old : Text
  pub new : Text
  pub preserved : Bool
  pub lost : List LostCommit
  pub lost_total : ℕ
  pub elsewhere : ℕ

-- `HeldRef`, with the two reasons of mirror.go (`holdDestinationAhead`, `holdDestinationUnknown`)
pub data Hold : Type 0 where
  hold_destination_ahead hold_destination_unknown : Hold

pub record HeldRef : Type 0 where
  pub ref : Text
  pub reason : Hold
  pub dest : Text

abbrev pub max_lost_commits : ℕ
max_lost_commits = 10

abbrev pub default_source : Text
default_source = lit "webhook"

-- `Event`; a `ts` of 0 is Go's zero time
pub record Event : Type 0 where
  pub ts : ℕ
  pub repo : Text
  pub action : Action
  pub source : Text
  pub from : Text
  pub to : Text
  pub ref : Text
  pub result : Outcome
  pub reason : Reason
  pub duration_ms : ℕ
  pub err : Text
  pub forced : List ForcedRef
  pub held : List HeldRef
  pub deleted_tip : Text
  pub restored_tip : Text
  pub actor : Text

-- A literal `history.Event{Action: action}`: Go's zero values, until `With` fills the outcome in.
abbrev pub new_event : Action → Event
new_event action = record {
  ts = 0;
  repo = [];
  action = action;
  source = [];
  from = [];
  to = [];
  ref = [];
  result = ok;
  reason = no_reason;
  duration_ms = 0;
  err = [];
  forced = [];
  held = [];
  deleted_tip = [];
  restored_tip = [];
  actor = [];
}

-- `ForcedRef.NothingLost`
unfoldable pub nothing_lost : ForcedRef → Bool
nothing_lost f = f.preserved || (nat_eq f.lost_total 0 && ltb 0 f.elsewhere)

-- `Event.IsForced`
unfoldable pub is_forced : Event → Bool
is_forced e = not (is_empty e.forced)

-- The loop of `ForcedReason`.
forced_reason_loop : List ForcedRef → Reason
forced_reason_loop [] = rewritten
forced_reason_loop (f ∷ fs) =
    let rest = forced_reason_loop fs in if not (nothing_lost f) then forced_update else rest

-- `ForcedReason`
unfoldable pub forced_reason : List ForcedRef → Reason
unfolding forced_reason_loop nothing_lost
forced_reason [] = no_reason
forced_reason (f ∷ fs) = forced_reason_loop (f ∷ fs)

err_text : Text → Option Error → Text
err_text t none = t
err_text t (some e) = e.message

-- `Event.With`
unfoldable pub with : Event → Outcome → Reason → Option Error → Event
unfolding err_text
with e outcome why err = record e { result = outcome; reason = why; err = err_text e.err err }
