-- ===== src/Mirror/Runner/Lost.antt =====
-- internal/mirror/mirror.go, `UnmatchedCommits`: the commits that an overwrite discarded, from what git prints.
-- A local git command only reads the repository, so its output is a function of its arguments.
pub mod Sorted
pub mod Counted
use git_bridge.Base.{
  Text, ℕ, List, [], ◌∷◌, ◌++◌, Option, none, some, Bool, true, false, ◌&&◌, ◌||◌, not, lit, concat,
  ◌==◌, if◌then◌else◌, ltb, leb, ◌+◌, length, Map, lookup, insert, member, any, contains, split,
  cut, show_nat, is_space, cons_head,
}
use git_bridge.Errors.{Result, value, failed, Error, plain, wrap, quote}
use git_bridge.History.{LostCommit, max_lost_commits}
use git_bridge.Mirror.Git.{UnmatchedReport}

-- `sideCommit`
pub record SideCommit : Type 0 where
  pub commit : LostCommit
  pub merge : Bool

-- strings.SplitN at NUL, into four: what is behind the third NUL is left whole.
abbrev quarters : Option (Text × Text) → (Text → Text → Option SideCommit) → Option SideCommit
quarters none f = none
quarters (some (field, rest)) f = f field rest

-- One line of `parseSideCommits`; `none` is a line with less than four fields.
side_commit : Text → Option SideCommit
side_commit line = quarters (cut line (0 ∷ [])) λ sha rest.
    quarters (cut rest (0 ∷ [])) λ parents rest. quarters (cut rest (0 ∷ [])) λ author subject.
      some (record {
        commit = record { sha = sha; author = author; subject = subject };
        merge = contains parents (lit " ");
      })

abbrev and_rest {ℓ} : {A : Type ℓ} → Error → Option A → Result (List A) → Result (List A)
and_rest e none rest = failed e
and_rest e (some a) (failed e') = failed e'
and_rest e (some a) (value rest) = value (a ∷ rest)

unexpected : Text → Error
unexpected line = plain (lit "unexpected line " ++ quote line)

side_lines : List Text → Result (List SideCommit)
unfolding side_commit unexpected
side_lines [] = value []
side_lines (line ∷ lines) =
    let rest = side_lines lines in
    if line == [] then rest else and_rest (unexpected line) (side_commit line) rest

-- `parseSideCommits`. Where several lines are bad the source stops at the first, as this does.
unfoldable pub parse_side_commits : Text → Result (List SideCommit)
unfolding side_lines
parse_side_commits out = side_lines (split out 10)

-- One line of `parsePatchIDs`
patch_line : Text → Option (Text × Text) → Map Text → Result (Map Text)
patch_line line none ids = failed (plain (lit "patch-id: unexpected line " ++ quote line))
patch_line line (some (id, commit)) ids =
    if id == [] || commit == []
    then failed (plain (lit "patch-id: unexpected line " ++ quote line))
    else value (insert commit id ids)

abbrev and_then {ℓ κ} : {A : Type ℓ} {B : Type κ} → Result A → (A → Result B) → Result B
and_then (failed e) f = failed e
and_then (value a) f = f a

patch_lines : List Text → Map Text → Result (Map Text)
unfolding patch_line
patch_lines [] ids = value ids
patch_lines (line ∷ lines) ids =
    if line == []
    then patch_lines lines ids
    else and_then (patch_line line (cut line (lit " ")) ids) (patch_lines lines)

-- `parsePatchIDs`
unfoldable pub parse_patch_ids : Text → Result (Map Text)
unfolding patch_lines
parse_patch_ids out = patch_lines (split out 10) []

-- strings.Fields
fields_from : Text → List Text
unfolding cons_head
fields_from [] = [] ∷ []
fields_from (c ∷ cs) =
    let rest = fields_from cs in if is_space c then [] ∷ rest else cons_head c rest

abbrev drop_blank : List Text → List Text
drop_blank [] = []
drop_blank (t ∷ ts) = let rest = drop_blank ts in if t == [] then rest else t ∷ rest

unfoldable pub fields : Text → List Text
unfolding fields_from
fields t = drop_blank (fields_from t)

-- Is the patch among those of the kept side?
patch_kept : Text → Map Text → Bool
patch_kept id kept = any (λ entry. entry.1 == id) kept

-- Has the commit content that the kept side does not hold? A commit without a patch has none.
pub content_gone : Map Text → Map Text → SideCommit → Bool
unfolding patch_kept
content_gone kept discarded c =
    c.merge
    || (elim (lookup c.commit.sha discarded) [ none ↦ false | some id ↦ not (patch_kept id kept) ])

abbrev pub count_lost : UnmatchedReport → LostCommit → UnmatchedReport
count_lost rep c = record rep {
  total = rep.total + 1;
  lost = if ltb (length rep.lost) max_lost_commits then rep.lost ++ (c ∷ []) else rep.lost;
}

-- The loop of `UnmatchedCommits`.
count_loop : Map Text → Map Text → List Text → List SideCommit → UnmatchedReport → UnmatchedReport
unfolding content_gone
count_loop kept discarded branchless [] rep = rep
count_loop kept discarded branchless (c ∷ cs) rep = count_loop kept discarded branchless cs (
    if not (content_gone kept discarded c)
    then rep
    else if not (member c.commit.sha branchless)
    then record rep { elsewhere = rep.elsewhere + 1 }
    else count_lost rep c.commit)

abbrev pub nothing_found : UnmatchedReport
nothing_found = record { lost = []; total = 0; elsewhere = 0 }

abbrev pub max_classify_commits : ℕ
max_classify_commits = 2000

module _ (git_output : List Text → Result Text) (patches : Text → Text → Result Text)
    (scan_counts : Text → Option (ℕ × ℕ)) where
  -- With the discarded side's commits parsed; `patches side range` is the output of `git log -p` through
  -- `git patch-id`.
  with_commits : Text → Text → Result (List SideCommit) → Result UnmatchedReport
  unfolding count_loop
  with_commits discarded range (failed e) =
      failed (wrap (concat (lit "log " ∷ range ∷ lit ": " ∷ [])) e [])
  with_commits discarded range (value commits) =
      and_then (and_then (patches (lit "--left-only") range) parse_patch_ids) λ kept_ids.
        and_then (and_then (patches (lit "--right-only") range) parse_patch_ids) λ discarded_ids.
          and_then (git_output (lit "rev-list" ∷ discarded ∷ lit "--not" ∷ lit "--branches" ∷ []))
            λ branchless.
              value (count_loop kept_ids discarded_ids (fields branchless) commits nothing_found)

  -- With the counts read.
  with_counts : Text → Text → Text → Option (ℕ × ℕ) → Result UnmatchedReport
  unfolding with_commits
  with_counts discarded range counts none = failed (
      plain
        (concat (lit "rev-list --count " ∷ range ∷ lit ": unexpected output " ∷ quote counts ∷ [])))
  with_counts discarded range counts (some (left, right)) =
      if ltb max_classify_commits (left + right)
      then failed (
          plain (
            concat (
              range
              ∷ lit " spans "
              ∷ show_nat (left + right)
              ∷ lit " commits, more than the "
              ∷ show_nat max_classify_commits
              ∷ lit " this check compares"
              ∷ [])))
      else and_then
          (git_output
            (lit "log" ∷ lit "--right-only" ∷ lit "--format=%H%x00%P%x00%an%x00%s" ∷ range ∷ []))
          λ listing. with_commits discarded range (parse_side_commits listing)

  -- `UnmatchedCommits`; `scan_counts` is fmt.Sscanf with "%d\t%d"
  unfoldable pub unmatched_commits : Text → Text → Result UnmatchedReport
  unfolding with_counts
  unmatched_commits kept discarded =
      let range = kept ++ (lit "..." ++ discarded) in
      and_then (git_output (lit "rev-list" ∷ lit "--count" ∷ lit "--left-right" ∷ range ∷ []))
        λ counts. with_counts discarded range counts (scan_counts counts)
