-- ===== src/Mirror/Runner.antt =====
-- internal/mirror/mirror.go, `defaultGitRunner`: what the service reads in git's output.
pub mod Porcelain
pub mod Tips
pub mod Push
pub mod Lost
pub mod Commands
pub mod Cache
pub mod Blind
use git_bridge.Base.{
  Text, ℕ, List, [], ◌∷◌, ◌++◌, Option, none, some, Bool, true, false, ◌&&◌, ◌||◌, not, lit, ◌==◌,
  if◌then◌else◌, nat_eq, has_prefix, has_suffix, contains, split, cut, after_last, before_first,
  trim_space, trim_right, is_empty, Map, insert,
}
use git_bridge.History.{ForcedRef}
use git_bridge.Mirror.Git.{PushResult}

-- `parseRejectedLine`, on the fields between the tabs
rejected_fields : Text → List Text → Text
rejected_fields line (flag ∷ refs ∷ summary ∷ rest) =
    after_last refs b':' ++ (lit ": " ++ trim_space summary)
rejected_fields line (flag ∷ refs ∷ []) = after_last refs b':'
rejected_fields line (flag ∷ []) = trim_space line
rejected_fields line [] = trim_space line

unfoldable pub parse_rejected_line : Text → Text
unfolding rejected_fields
parse_rejected_line line = rejected_fields line (split line 9)

-- The parts of a forced line, unless one of them is empty.
forced_parts : Text → Text → Text → Option ForcedRef
forced_parts ref old new =
    if ref == [] || (old == [] || new == [])
    then none
    else some (record {
      ref = ref;
      old = old;
      new = new;
      preserved = false;
      lost = [];
      lost_total = 0;
      elsewhere = 0;
    })

-- The summary of a forced line, cut at the three dots.
pub forced_tips : Text → Option (Text × Text) → Option ForcedRef
unfolding forced_parts
forced_tips ref none = none
forced_tips ref (some (old, updated)) =
    forced_parts ref (trim_space old) (trim_space (before_first updated b' '))

forced_fields : List Text → Option ForcedRef
unfolding forced_tips
forced_fields (flag ∷ refs ∷ summary ∷ rest) =
    forced_tips (after_last refs b':') (cut summary (lit "..."))
forced_fields (flag ∷ refs ∷ []) = none
forced_fields (flag ∷ []) = none
forced_fields [] = none

-- `parseForcedLine`, with the ref that `parsePush` makes of it
unfoldable pub parse_forced_line : Text → Option ForcedRef
unfolding forced_fields
parse_forced_line line = forced_fields (split line 9)

add_forced : PushResult → Option ForcedRef → PushResult
add_forced res none = res
add_forced res (some f) = record res { forced = res.forced ++ (f ∷ []) }

-- The `if`s of `parsePush` on the first character of a line.
pub flagged : ℕ → Text → PushResult → PushResult
unfolding add_forced
flagged flag line res =
    if nat_eq flag b'='
    then res
    else if nat_eq flag b'!'
    then record res { rejected = res.rejected ++ (parse_rejected_line line ∷ []) }
    else if not (nat_eq flag b'+')
    then record res { changed = true }
    else add_forced (record res { changed = true }) (parse_forced_line line)

-- A line that is not passed over; it has a first character.
push_line : Text → PushResult → PushResult
unfolding flagged
push_line [] res = res
push_line (flag ∷ rest) res = flagged flag (flag ∷ rest) res

-- One round of the loop of `parsePush`.
pub push_round : Text → PushResult → PushResult
unfolding push_line
push_round raw res =
    let line = trim_right raw 13 in
    if trim_space line == [] || (has_prefix line (lit "To ") || has_prefix line (lit "Done"))
    then res
    else push_line line res

push_lines : List Text → PushResult → PushResult
unfolding push_round
push_lines [] res = res
push_lines (line ∷ lines) res = push_lines lines (push_round line res)

abbrev pub no_change : PushResult
no_change = record { changed = false; forced = []; rejected = [] }

-- `parsePush`
unfoldable pub parse_push : Text → PushResult
unfolding push_lines
parse_push output = push_lines (split output 10) no_change

abbrev pub stale_lease_marker : Text
stale_lease_marker = lit "stale info"

every_stale : List Text → Bool
every_stale [] = true
every_stale (r ∷ rs) =
    let rest = every_stale rs in if contains r stale_lease_marker then rest else false

-- `allStaleLease`
unfoldable pub all_stale_lease : List Text → Bool
unfolding every_stale
all_stale_lease rejected = not (is_empty rejected) && every_stale rejected

-- One round of the loop of `parseRefTips`.
tip_cut : Option (Text × Text) → Map Text → Map Text
tip_cut none tips = tips
tip_cut (some (sha, raw)) tips =
    let ref = trim_space raw in
    if ref == [] || has_suffix ref (lit "^{}") then tips else insert ref (trim_space sha) tips

tip_lines : Text → List Text → Map Text → Map Text
unfolding tip_cut
tip_lines sep [] tips = tips
tip_lines sep (line ∷ lines) tips = tip_lines sep lines (tip_cut (cut (trim_space line) sep) tips)

-- `parseRefTips`
unfoldable pub parse_ref_tips : Text → Text → Map Text
unfolding tip_lines
parse_ref_tips output sep = tip_lines sep (split output 10) []
