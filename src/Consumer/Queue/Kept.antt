-- ===== src/Consumer/Queue/Kept.antt =====
-- internal/consumer/sqs.go: what a batch of messages keeps.
use git_bridge.Base.{List, [], ◌∷◌, Option, none, some}
use git_bridge.Errors.{Error}
use git_bridge.Mirror.Flow.{Service, State}
use git_bridge.Consumer.{Decode}
use git_bridge.Consumer.Queue.{
  CodeCommitEvent, Message, Consumed, Received, receive_failed, received, event_call, settled,
  delete_message, handle_event, handle_message, handle_all, poll,
}

-- A property of the world that the service's call for each event keeps is kept by each poll.
module _ {W : Type 0} (s : Service W) (decode : Decode CodeCommitEvent) (Inv : W → Type 0)
    (keeps : (e : CodeCommitEvent) (st : State W)
      → Inv st.world
      → Inv (event_call s e st).1.world) where
  settled-keeps :
      (msg : Message) (deleted : List Message) (r : Option Error × State W)
      → Inv r.1.world
      → Inv (settled s msg deleted r).mirror.world
  unfolding settled delete_message
  settled-keeps msg deleted (some e, st) h = h
  settled-keeps msg deleted (none, st) h = h

  handle_event-keeps :
      (msg : Message) (o : Option CodeCommitEvent) (c : Consumed W)
      → Inv c.mirror.world
      → Inv (handle_event s msg o c).mirror.world
  unfolding handle_event delete_message
  handle_event-keeps msg none c h = h
  handle_event-keeps msg (some e) c h =
      settled-keeps msg c.deleted (event_call s e c.mirror) (keeps e c.mirror h)

  handle_all-keeps :
      (msgs : List Message) (c : Consumed W)
      → Inv c.mirror.world
      → Inv (handle_all s decode msgs c).mirror.world
  unfolding handle_all handle_message
  handle_all-keeps [] c h = h
  handle_all-keeps (msg ∷ msgs) c h =
      handle_all-keeps msgs (handle_event s msg (decode msg.body) c)
        (handle_event-keeps msg (decode msg.body) c h)

  pub poll-keeps :
      (r : Received) (c : Consumed W) → Inv c.mirror.world → Inv (poll s decode r c).mirror.world
  unfolding poll
  poll-keeps receive_failed c h = h
  poll-keeps (received msgs) c h = handle_all-keeps msgs c h
