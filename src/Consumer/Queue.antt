-- ===== src/Consumer/Queue.antt =====
-- internal/consumer/sqs.go: the queue of CodeCommit's events. The queue's client and the logging are left
-- out: what a receive gives is an argument, and a message that is deleted is added to a list.
pub mod Acknowledged
pub mod Recorded
pub mod Kept
use git_bridge.Base.{
  Text, ℕ, ℤ, pos, negsuc, List, [], ◌∷◌, ◌++◌, Option, none, some, false, lit, ◌==◌, if◌then◌else◌,
  ◌%◌, ◌^◌, ◌-◌, ltb,
}
use git_bridge.Config.{ConsumerConfig}
use git_bridge.Errors.{Error}
use git_bridge.Mirror.{refs_heads_prefix, refs_tags_prefix, ref_type_tag, source_sqs}
use git_bridge.Mirror.Flow.{Service, State}
use git_bridge.Mirror.Entry.{Call, sync, sync_delete}
use git_bridge.Consumer.{Decode}

-- Go's conversion of an int to int32
unfoldable pub to_int32 : ℤ → ℤ
to_int32 (pos n) =
    let low = n % 2 ^ 32 in if ltb low (2 ^ 31) then pos low else negsuc (2 ^ 32 - low - 1)
to_int32 (negsuc n) =
    let low = n % 2 ^ 32 in if ltb low (2 ^ 31) then negsuc low else pos (2 ^ 32 - low - 1)

-- `SQS`, without its client and the service
pub record Sqs : Type 0 where
  pub name : Text
  pub queue_url : Text
  pub visibility_timeout : ℤ

-- `NewSQS`, where the AWS configuration loads
unfoldable pub new_sqs : ConsumerConfig → Sqs
unfolding to_int32
new_sqs cfg = record {
  name = (if cfg.name == [] then lit "default" else cfg.name);
  queue_url = cfg.queue_url;
  visibility_timeout = to_int32 cfg.visibility_timeout_seconds;
}

-- `CodeCommitEvent`, its `detail`
pub record CodeCommitEvent : Type 0 where
  pub repository_name : Text
  pub reference_name : Text
  pub reference_type : Text
  pub event : Text

pub record Message : Type 0 where
  pub message_id : Text
  pub body : Text

-- The service's state, and the messages that were deleted from the queue so far.
pub record Consumed (W : Type 0) : Type 0 where
  pub mirror : State W
  pub deleted : List Message

-- What one call of ReceiveMessage gives.
pub data Received : Type 0 where
  receive_failed : Received
  received : List Message → Received

module _ {W : Type 0} (s : Service W) where
  -- The call of the service that an event comes to.
  unfoldable pub event_call : CodeCommitEvent → Call W
  event_call e =
      let prefix =
        if e.reference_type == ref_type_tag then refs_tags_prefix else refs_heads_prefix in
      if e.event == lit "referenceDeleted"
      then sync_delete s e.repository_name e.reference_type e.reference_name
      else sync s e.repository_name (record {
        ref = prefix ++ e.reference_name;
        source = source_sqs;
        force = false;
        force_lease = [];
        actor = [];
      })

  -- `deleteMessage`, as a deletion asked for: the queue's answer is only logged
  delete_message : Message → Consumed W → Consumed W
  delete_message msg c = record c { deleted = c.deleted ++ (msg ∷ []) }

  -- The end of `handleMessage`: without an error the message is deleted.
  settled : Message → List Message → Option Error × State W → Consumed W
  unfolding delete_message
  settled msg deleted (some e, st) = record { mirror = st; deleted = deleted }
  settled msg deleted (none, st) = delete_message msg (record { mirror = st; deleted = deleted })

  handle_event : Message → Option CodeCommitEvent → Consumed W → Consumed W
  unfolding settled event_call delete_message
  handle_event msg none c = delete_message msg c
  handle_event msg (some e) c = settled msg c.deleted (event_call e c.mirror)

  module _ (decode : Decode CodeCommitEvent) where
    -- `handleMessage`
    unfoldable pub handle_message : Message → Consumed W → Consumed W
    unfolding handle_event
    handle_message msg c = handle_event msg (decode msg.body) c

    -- The loop of `poll`
    handle_all : List Message → Consumed W → Consumed W
    unfolding handle_message
    handle_all [] c = c
    handle_all (msg ∷ msgs) c = handle_all msgs (handle_message msg c)

    -- `poll`: after a failed receive nothing is handled
    unfoldable pub poll : Received → Consumed W → Consumed W
    unfolding handle_all
    poll receive_failed c = c
    poll (received msgs) c = handle_all msgs c

    -- `Start`, with what each round received until the context was cancelled
    unfoldable pub start : List Received → Consumed W → Consumed W
    unfolding poll
    start [] c = c
    start (r ∷ rs) c = start rs (poll r c)
