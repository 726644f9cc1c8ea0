-- ===== src/History/Tail.antt =====
-- internal/history/history.go, `tail` and `New`: the ring that a restart restores. The lines are
-- those of the last part of the file, each with the event that it parses to, if it does.
use git_bridge.Base.{
  ℕ, ◌-◌, ◌≤◌, ◌≡◌, refl, sym, ◌∙◌, List, [], ◌∷◌, ◌++◌, Option, none, some, true, false, arith,
  length, take, drop, nat_eq, length-append, append_assoc, append-nil, if◌then◌else◌,
}
use native.Mathlib.Decide.{dec_le}
use git_bridge.History.{Event}
use git_bridge.History.Writer.{Writer, copy, default_max_bytes, default_ring_size}
use git_bridge.History.Ring.{last, take-copy, length-last, last_short, last_push_full}

-- One line of the loop of `tail`.
tail_step : ℕ → List Event → Option Event → List Event
unfolding copy
tail_step n evs none = evs
tail_step n evs (some ev) =
    if nat_eq (length evs) n
    then take (n - 1) (copy evs (drop 1 evs)) ++ (ev ∷ [])
    else evs ++ (ev ∷ [])

tail_loop : ℕ → List Event → List (Option Event) → List Event
tail_loop n evs [] = evs
tail_loop n evs (line ∷ lines) = tail_loop n (tail_step n evs line) lines

-- `tail`
unfoldable pub tail : ℕ → List (Option Event) → List Event
unfolding tail_loop tail_step
tail n lines = tail_loop n [] lines

-- `New` after the file is open: `file_size` is what `Stat` reports.
unfoldable pub new_writer : ℕ → List (Option Event) → Writer
unfolding tail
new_writer file_size lines = record {
  is_open = true;
  size = file_size;
  max_bytes = default_max_bytes;
  ring = tail default_ring_size lines;
  ring_size = default_ring_size;
  on_disk = file_size;
}

abbrev pub parsed : List (Option Event) → List Event
parsed [] = []
parsed (none ∷ lines) = parsed lines
parsed (some ev ∷ lines) = ev ∷ parsed lines

tail_step-last :
    (n : ℕ) (all evs : List Event) (ev : Event)
    → 1 ≤ n
    → evs ≡ last n all
    → tail_step n evs (some ev) ≡ last n (all ++ (ev ∷ []))
unfolding tail_step
tail_step-last n all evs ev h e = elim (dec_le n (length all)) [
  | yes full ↦
      (let k : length evs ≡ n = rw e (length-last n all full) in
        let b : nat_eq (length evs) n ≡ true = ground arith in
        rw (b, ← k, take-copy evs, k, e) (last_push_full n all ev h full))
  | no short ↦
      (let same : evs ≡ all = e ∙ last_short n all (omega arith) in
        let b : nat_eq (length evs) n ≡ false = rw same (ground arith) in
        rw (b, same)
          (sym (last_short n (all ++ (ev ∷ [])) (omega (arith, length-append all (ev ∷ []))))))
]

tail_loop-last :
    (n : ℕ) (all evs : List Event) (lines : List (Option Event))
    → 1 ≤ n
    → evs ≡ last n all
    → tail_loop n evs lines ≡ last n (all ++ parsed lines)
unfolding tail_loop tail_step
tail_loop-last n all evs [] h e = rw (append-nil all) e
tail_loop-last n all evs (none ∷ lines) h e = tail_loop-last n all evs lines h e
tail_loop-last n all evs (some ev ∷ lines) h e =
    tail_loop-last n (all ++ (ev ∷ [])) (tail_step n evs (some ev)) lines h
      (tail_step-last n all evs ev h e)
    ∙ rw (append_assoc all (ev ∷ []) (parsed lines))

-- A restart restores the newest events that the scanned lines parse to, in order; a line that does
-- not parse costs nothing but itself.
pub new_writer-ring :
    (file_size : ℕ) (lines : List (Option Event))
    → (new_writer file_size lines).ring ≡ last default_ring_size (parsed lines)
unfolding new_writer tail
new_writer-ring file_size lines = tail_loop-last default_ring_size [] [] lines (omega arith) refl
