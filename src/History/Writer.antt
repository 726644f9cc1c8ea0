-- ===== src/History/Writer.antt =====
-- internal/history/history.go, `Writer`: the JSONL file with its rotation, and the ring in memory.
-- The file system's answers are arguments; `on_disk` is the length of the live file.
pub mod Queries
pub mod Rotation
use git_bridge.Base.{
  member, Text, ℕ, zero, suc, ◌+◌, ◌-◌, List, [], ◌∷◌, ◌++◌, Option, none, some, Bool, true, false,
  if◌then◌else◌, lit, ltb, leb, nat_eq, ◌&&◌, ◌||◌, not, is_empty, length, take, drop, ◌==◌,
  reverse, min,
}
use git_bridge.History.{
  Event, Outcome, Reason, fail, skip, already_up_to_date, default_source, is_forced,
}

pub record Writer : Type 0 where
  pub is_open : Bool  -- `f != nil`
  pub size : ℕ
  pub max_bytes : ℕ
  pub ring : List Event
  pub ring_size : ℕ
  pub on_disk : ℕ

-- What the environment answers while one event is recorded.
pub record Answers : Type 0 where
  pub now : ℕ
  pub line : Option ℕ  -- the length of the marshalled line with its newline; `none` is an error
  pub renamed : Bool  -- `os.Rename` moved the live file aside
  pub reopened : Bool  -- `openForAppend` succeeded
  pub written : ℕ  -- the bytes that `Write` accepted

abbrev pub default_max_bytes : ℕ
default_max_bytes = 10485760

abbrev pub default_ring_size : ℕ
default_ring_size = 5000

-- Go's `copy(dst, src)`
unfoldable pub copy {ℓ} : {A : Type ℓ} → List A → List A → List A
copy dst src = take (length dst) src ++ drop (length src) dst

-- `Writer.push`; `ringSize` is at least 1, so its `ringSize - 1` does not fall below 0
unfoldable pub push_ring : Writer → Event → List Event
unfolding copy
push_ring w ev =
    if leb w.ring_size (length w.ring)
    then (let moved = copy w.ring (drop (length w.ring - w.ring_size + 1) w.ring) in
        take (w.ring_size - 1) moved ++ (ev ∷ []))
    else w.ring ++ (ev ∷ [])

-- `Writer.rotate`: after a failed rename the reopened file is the old one
unfoldable pub rotate : Writer → Answers → Writer
rotate w io =
    if io.reopened
    then record w { is_open = true; size = 0; on_disk = (if io.renamed then 0 else w.on_disk) }
    else record w { is_open = false; on_disk = (if io.renamed then 0 else w.on_disk) }

write_line : Writer → ℕ → Writer
write_line w n = record w { size = w.size + n; on_disk = w.on_disk + n }

-- `Record`, from the lock on
append_line : Writer → Answers → ℕ → Writer
append_line w io len =
    if not w.is_open
    then w
    else if ltb w.max_bytes (w.size + len)
    then (let r = rotate w io in if not r.is_open then r else write_line r io.written)
    else write_line w io.written

-- The two defaults that `Record` fills in.
unfoldable pub stamp : Event → ℕ → Event
stamp ev now = record ev {
  ts = (if nat_eq ev.ts 0 then now else ev.ts);
  source = (if ev.source == [] then default_source else ev.source);
}

-- `Writer.Record`
unfoldable pub record_event : Writer → Answers → Event → Writer
unfolding append_line write_line rotate stamp push_ring
record_event w io ev =
    let ev' = stamp ev io.now in
    elim io.line [ none ↦ w | some len ↦ append_line (record w { ring = push_ring w ev' }) io len ]

-- `Query`; a limit below 1 is 0
pub record Query : Type 0 where
  pub limit : ℕ
  pub failures_only : Bool
  pub repo : Text
  pub routine_source : Text
  pub forced_only : Bool
  pub source : Text

abbrev pub is_fail : Outcome → Bool
is_fail fail = true
is_fail _ = false

-- `isRoutineNoop`
noop_outcome : Outcome → Reason → Bool
noop_outcome skip already_up_to_date = true
noop_outcome _ _ = false

unfoldable pub is_routine_noop : Event → Bool
unfolding noop_outcome
is_routine_noop ev = noop_outcome ev.result ev.reason

-- One round of the loop of `Recent`: is the event passed over?
unfoldable pub passed_over : Query → Event → Bool
unfolding is_routine_noop is_forced
passed_over q ev =
    if q.failures_only && not (is_fail ev.result)
    then true
    else if q.forced_only && not (is_forced ev)
    then true
    else if not (q.repo == []) && not (ev.repo == q.repo)
    then true
    else if not (q.source == []) && not (ev.source == q.source)
    then true
    else if not (q.routine_source == []) && (ev.source == q.routine_source && is_routine_noop ev)
    then true
    else false

-- The loop of `Recent`, over the ring from its newest event; `room` is `q.Limit - len(out)`
recent_loop : Query → List Event → ℕ → List Event
recent_loop q [] room = []
recent_loop q (ev ∷ evs) zero = []
recent_loop q (ev ∷ evs) (suc room) =
    let without = recent_loop q evs (suc room) in
    let rest = recent_loop q evs room in if passed_over q ev then without else ev ∷ rest

-- `Writer.Recent`
unfoldable pub recent : Writer → Query → List Event
unfolding recent_loop passed_over
recent w q = recent_loop q (reverse w.ring) q.limit

-- The set that `Sources` and `Repos` collect, in the order of first sight.
seen_values : (Event → Text) → List Event → List Text → List Text
seen_values f [] seen = seen
seen_values f (ev ∷ evs) seen =
    seen_values f evs (if f ev == [] || member (f ev) seen then seen else f ev ∷ seen)

-- Go's order of strings, which is that of their code points
unfoldable pub text_le : Text → Text → Bool
text_le [] t = true
text_le (a ∷ s) [] = false
text_le (a ∷ s) (b ∷ t) =
    let rest = text_le s t in if ltb a b then true else if ltb b a then false else rest

insert_sorted : Text → List Text → List Text
insert_sorted t [] = t ∷ []
insert_sorted t (u ∷ us) =
    let rest = insert_sorted t us in if text_le t u then t ∷ u ∷ us else u ∷ rest

-- sort.Strings
unfoldable pub sort_strings : List Text → List Text
unfolding insert_sorted text_le
sort_strings [] = []
sort_strings (t ∷ ts) = insert_sorted t (sort_strings ts)

-- `Writer.Sources`
unfoldable pub sources : Writer → List Text
unfolding seen_values sort_strings
sources w = sort_strings (seen_values (λ ev. ev.source) w.ring [])

-- `Writer.Repos`
unfoldable pub repos : Writer → List Text
unfolding seen_values sort_strings
repos w = sort_strings (seen_values (λ ev. ev.repo) w.ring [])

-- `Writer.Close`: the handle is gone whether or not closing it failed
unfoldable pub close : Writer → Writer
close w = record w { is_open = false }
