-- ===== src/Consumer/Queue/Acknowledged.antt =====
-- internal/consumer/sqs.go: which messages are deleted from the queue.
use mathlib.Core.List.{Memᴰ}
use git_bridge.Base.{
  List, [], ◌∷◌, ◌++◌, Option, none, some, ◌≡◌, refl, ◌⊎◌, inl, inr, All, All-append, sym, ◌∙◌,
  append-nil, append_assoc,
}
use git_bridge.Errors.{Error}
use git_bridge.Mirror.Flow.{Service, State}
use git_bridge.Consumer.{Decode}
use git_bridge.Consumer.Queue.{
  CodeCommitEvent, Message, Consumed, Received, receive_failed, received, event_call, settled,
  delete_message, handle_event, handle_message, handle_all, poll, start,
}

Memᴰ-append : {A : Type 0} (x : A) (xs ys : List A) → Memᴰ x xs → Memᴰ x (xs ++ ys)
Memᴰ-append x xs ys (Memᴰ.head e) = Memᴰ.head e
Memᴰ-append x xs ys (Memᴰ.tail m) = Memᴰ.tail (Memᴰ-append x _ ys m)

Memᴰ-last : {A : Type 0} (x : A) (xs : List A) → Memᴰ x (xs ++ (x ∷ []))
Memᴰ-last x [] = Memᴰ.head refl
Memᴰ-last x (y ∷ ys) = Memᴰ.tail (Memᴰ-last x ys)

module _ {W : Type 0} (s : Service W) (decode : Decode CodeCommitEvent) where
  -- The message has nothing to do, or the service's call for its event has returned nil.
  abbrev pub IsDone : Message → Type 0
  IsDone msg =
      (decode msg.body ≡ none)
      ⊎ ((e : CodeCommitEvent) × (st : State W) × (decode msg.body ≡ some e)
          × ((event_call s e st).0 ≡ none))

  -- The service's call for the event of the message has returned an error.
  abbrev pub HasFailed : Message → Type 0
  HasFailed msg =
      (e : CodeCommitEvent) × (st : State W) × (why : Error) × (decode msg.body ≡ some e)
      × ((event_call s e st).0 ≡ some why)

  -- The message is deleted, or its event has failed.
  abbrev pub IsSettled : Consumed W → Message → Type 0
  IsSettled c msg = Memᴰ msg c.deleted ⊎ HasFailed msg

  -- What one handled message adds to the deleted ones.
  abbrev Handles : Message → Consumed W → Consumed W → Type 0
  Handles msg c c' =
      ((c'.deleted ≡ c.deleted ++ (msg ∷ [])) × IsDone msg)
      ⊎ ((c'.deleted ≡ c.deleted) × HasFailed msg)

  settled-Handles :
      (msg : Message) (e : CodeCommitEvent) (c : Consumed W) (r : Option Error × State W)
      → decode msg.body ≡ some e
      → (event_call s e c.mirror).0 ≡ r.0
      → Handles msg c (settled s msg c.deleted r)
  unfolding settled delete_message
  settled-Handles msg e c (none, st) parsed ran = inl (refl, inr (e, c.mirror, parsed, ran))
  settled-Handles msg e c (some why, st) parsed ran = inr (refl, (e, c.mirror, why, parsed, ran))

  handle_event-Handles :
      (msg : Message) (o : Option CodeCommitEvent) (c : Consumed W)
      → decode msg.body ≡ o
      → Handles msg c (handle_event s msg o c)
  unfolding handle_event delete_message
  handle_event-Handles msg none c unparsed = inl (refl, inl unparsed)
  handle_event-Handles msg (some e) c parsed =
      settled-Handles msg e c (event_call s e c.mirror) parsed refl

  -- What has been deleted stays so, only done messages are added, and all these messages are settled.
  abbrev pub Accounts : List Message → Consumed W → Consumed W → Type 0
  Accounts msgs c c' =
      ((new : List Message) × (c'.deleted ≡ c.deleted ++ new) × All IsDone new)
      × All (IsSettled c') msgs

  keep-IsSettled :
      (msgs : List Message) (c c' : Consumed W) (new : List Message)
      → c'.deleted ≡ c.deleted ++ new
      → All (IsSettled c) msgs
      → All (IsSettled c') msgs
  keep-IsSettled [] c c' new added h = tt
  keep-IsSettled (msg ∷ msgs) c c' new added (inl gone, h) =
      (inl (rw added (Memᴰ-append msg c.deleted new gone)), keep-IsSettled msgs c c' new added h)
  keep-IsSettled (msg ∷ msgs) c c' new added (inr failed, h) =
      (inr failed, keep-IsSettled msgs c c' new added h)

  Accounts-append :
      (ms ns : List Message) (c c' c'' : Consumed W)
      → Accounts ms c c'
      → Accounts ns c' c''
      → Accounts (ms ++ ns) c c''
  Accounts-append ms ns c c' c'' ((new, added, done), settled) ((more, next, also), rest) = (
    (
      new ++ more,
      rw next (rw added (append_assoc c.deleted new more)),
      All-append IsDone new more done also,
    ),
    All-append (IsSettled c'') ms ns (keep-IsSettled ms c' c'' more next settled) rest,
  )

  handle_message-Accounts :
      (msg : Message) (c : Consumed W) → Accounts (msg ∷ []) c (handle_message s decode msg c)
  unfolding handle_message
  handle_message-Accounts msg c = elim (handle_event-Handles msg (decode msg.body) c refl) [
    | inl (gone, ok) ↦ ((msg ∷ [], gone, (ok, tt)), (inl (rw gone (Memᴰ-last msg c.deleted)), tt))
    | inr (same, failed) ↦ (([], same ∙ sym (append-nil _), tt), (inr failed, tt))
  ]

  handle_all-Accounts :
      (msgs : List Message) (c : Consumed W) → Accounts msgs c (handle_all s decode msgs c)
  unfolding handle_all
  handle_all-Accounts [] c = (([], sym (append-nil _), tt), tt)
  handle_all-Accounts (msg ∷ msgs) c =
      Accounts-append (msg ∷ []) msgs c (handle_message s decode msg c)
        (handle_all s decode msgs (handle_message s decode msg c)) (handle_message-Accounts msg c)
        (handle_all-Accounts msgs (handle_message s decode msg c))

  abbrev pub messages : List Received → List Message
  messages [] = []
  messages (receive_failed ∷ rs) = messages rs
  messages (received msgs ∷ rs) = msgs ++ messages rs

  -- However the receives go until the consumer stops: only messages are deleted whose body does not
  -- parse or for which the service's call has returned nil, none that was deleted before comes back,
  -- and every message that was received is deleted unless the service's call for it has returned an
  -- error.
  pub start-Accounts :
      (rs : List Received) (c : Consumed W) → Accounts (messages rs) c (start s decode rs c)
  unfolding start poll
  start-Accounts [] c = (([], sym (append-nil _), tt), tt)
  start-Accounts (receive_failed ∷ rs) c = start-Accounts rs c
  start-Accounts (received msgs ∷ rs) c =
      Accounts-append msgs (messages rs) c (handle_all s decode msgs c)
        (start s decode rs (handle_all s decode msgs c)) (handle_all-Accounts msgs c)
        (start-Accounts rs (handle_all s decode msgs c))
