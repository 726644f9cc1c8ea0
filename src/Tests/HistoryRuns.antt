-- ===== src/Tests/HistoryRuns.antt =====
-- Runs of the history.
use git_bridge.Base.{
  Text, ℕ, List, [], ◌∷◌, ◌++◌, none, some, Bool, true, false, lit, ◌≡◌, refl, ◌+◌, arith, take,
  keep, reverse, All, ◌↔◌,
}
use git_bridge.History.{Event, Action, new_event}
use git_bridge.History.Writer.{Writer, Answers, record_event, Query, recent, default_ring_size}
use git_bridge.History.Writer.Queries.{Wanted, wanted, recent_lem}
use git_bridge.History.Tail.{new_writer, parsed, new_writer-ring}
use git_bridge.History.Writer.Rotation.{IsBounded, record_event-IsBounded, failed_rename-size}
use git_bridge.History.Ring.{last, stamped, record_all, record_all-ring}

abbrev event_of : Text → Event
event_of ref = record (new_event Action.mirror) { ref = ref }

abbrev written : ℕ → Bool → Answers
written len renamed = record {
  now = 7;
  line = some len;
  renamed = renamed;
  reopened = true;
  written = len;
}

abbrev small : Writer
small = record {
  is_open = true;
  size = 8;
  max_bytes = 10;
  ring = event_of (lit "a") ∷ event_of (lit "b") ∷ [];
  ring_size = 2;
  on_disk = 8;
}

abbrev two_events : List (Answers × Event)
two_events = (written 3 true, event_of (lit "c")) ∷ (written 3 true, event_of (lit "d")) ∷ []

record_all-ring_example :
    (record_all small two_events).ring
    ≡ last 2 ((event_of (lit "a") ∷ event_of (lit "b") ∷ []) ++ stamped two_events)
record_all-ring_example =
    record_all-ring small (event_of (lit "a") ∷ event_of (lit "b") ∷ []) two_events (omega arith)
      refl ((λ h. cc), ((λ h. cc), tt))

record_event-IsBounded_example :
    IsBounded (record_event small (written 3 true) (event_of (lit "c")))
record_event-IsBounded_example =
    record_event-IsBounded small (written 3 true) (event_of (lit "c"))
      (record { counted = λ h. refl; bounded = omega arith })
      (record {
        fits = λ len h. ground (arith, h);
        partial = λ len h. ground (arith, h);
        renames = refl;
      })

failed_rename-size_example :
    (record_event small (written 3 false) (event_of (lit "c"))).on_disk
    ≡ (record_event small (written 3 false) (event_of (lit "c"))).size + 8
failed_rename-size_example =
    failed_rename-size small (written 3 false) (event_of (lit "c")) 3 refl refl (omega arith) refl
      refl

abbrev of_b : Query
of_b = record {
  limit = 1;
  failures_only = false;
  repo = [];
  routine_source = lit "sqs";
  forced_only = false;
  source = [];
}

recent_lem_example :
    (recent small of_b ≡ take of_b.limit (keep (wanted of_b) (reverse small.ring)))
    × ((ev : Event) → (wanted of_b ev ≡ true) ↔ Wanted of_b ev)
    × All (Wanted of_b) (recent small of_b)
recent_lem_example = recent_lem small of_b

new_writer-ring_example :
    (new_writer 9 (some (event_of (lit "a")) ∷ none ∷ [])).ring
    ≡ last default_ring_size (parsed (some (event_of (lit "a")) ∷ none ∷ []))
new_writer-ring_example = new_writer-ring 9 (some (event_of (lit "a")) ∷ none ∷ [])
