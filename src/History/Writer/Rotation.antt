-- ===== src/History/Writer/Rotation.antt =====
-- internal/history/history.go: the size of the live file.
use git_bridge.Base.{Option-cases, inl, inr, ℕ, ◌+◌, ◌≤◌, ◌<◌, ◌≡◌, true, false, some, arith}
use git_bridge.History.{Event}
use git_bridge.History.Writer.{
  Writer, Answers, record_event, rotate, write_line, append_line, push_ring, stamp,
}

-- What a well-behaved disk answers: a line fits the file, a write accepts at most the line, and a
-- rename moves the file.
pub record IsSound (w : Writer) (io : Answers) : Type 0 where
  pub fits : (len : ℕ) → io.line ≡ some len → len ≤ w.max_bytes
  pub partial : (len : ℕ) → io.line ≡ some len → io.written ≤ len
  pub renames : io.renamed ≡ true

-- The counter is the length of the file, and the file is within its limit.
pub record IsBounded (w : Writer) : Type 0 where
  pub counted : w.is_open ≡ true → w.size ≡ w.on_disk
  pub bounded : w.on_disk ≤ w.max_bytes

append_line-IsBounded :
    (w : Writer) (io : Answers) (len : ℕ)
    → IsBounded w
    → len ≤ w.max_bytes
    → io.written ≤ len
    → io.renamed ≡ true
    → IsBounded (append_line w io len)
unfolding append_line rotate write_line
append_line-IsBounded w io len b fits partial renames = ground arith

-- While lines fit the file and a rename moves it aside, recording keeps the size counter equal to
-- the length of the live file and the file within its limit, whatever else fails.
pub record_event-IsBounded :
    (w : Writer) (io : Answers) (ev : Event)
    → IsBounded w
    → IsSound w io
    → IsBounded (record_event w io ev)
unfolding record_event
record_event-IsBounded w io ev b s = elim (Option-cases io.line) [
  | inl lost ↦ rw lost b
  | inr (len, e) ↦ rw e (
      append_line-IsBounded (record w { ring = push_ring w (stamp ev io.now) }) io len
        (record { counted = b.counted; bounded = b.bounded }) (s.fits len e) (s.partial len e)
        s.renames)
]

-- When a line would take an open file past its limit, the rename fails and the file can be opened
-- again, the counter starts at 0 on a file that keeps its length, so the counter is below the length of
-- the file by all that the file held.
pub failed_rename-size :
    (w : Writer) (io : Answers) (ev : Event) (len : ℕ)
    → w.is_open ≡ true
    → io.line ≡ some len
    → w.max_bytes < w.size + len
    → io.renamed ≡ false
    → io.reopened ≡ true
    → (record_event w io ev).on_disk ≡ (record_event w io ev).size + w.on_disk
unfolding record_event
failed_rename-size w io ev len opened line over failed again = ground arith
