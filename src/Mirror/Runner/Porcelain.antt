-- ===== src/Mirror/Runner/Porcelain.antt =====
-- internal/mirror/mirror.go, `parsePush`: the report of `git push --porcelain`, written down from the format
-- that the program's comment describes, and what is read in it.
pub mod Lines
pub mod Fields
pub mod Read
use git_bridge.Base.{
  Text, ℕ, List, [], ◌∷◌, ◌++◌, Option, none, some, Bool, true, false, ◌||◌, lit, nat_eq, ◌≡◌, ◌≢◌,
  map, trim_space, if◌then◌else◌,
}
use git_bridge.Base.Scan.{free, lacks, solid, unlines}
use git_bridge.History.{ForcedRef}
use git_bridge.Mirror.Git.{PushResult}

-- What happened to one ref, with the summary that git prints.
pub data Update : Type 0 where
  -- the old and the new tip
  fast_forward : Text → Text → Update
  -- the old tip, the new one, and a remark behind a space if there is one
  forced : Text → Text → Option Text → Update
  created removed current refused : Text → Update

-- A line: the local ref, the one at the destination, and what happened to it.
pub record Report : Type 0 where
  pub from : Text
  pub to : Text
  pub update : Update

abbrev pub flag : Update → ℕ
flag (fast_forward old new) = b' '
flag (forced old new remark) = b'+'
flag (created text) = b'*'
flag (removed text) = b'-'
flag (current text) = b'='
flag (refused text) = b'!'

abbrev pub remark_text : Option Text → Text
remark_text none = []
remark_text (some remark) = b' ' ∷ remark

abbrev pub summary : Update → Text
summary (fast_forward old new) = old ++ (b'.' ∷ b'.' ∷ new)
summary (forced old new remark) =
    old ++ (b'.' ∷ ((b'.' ∷ b'.' ∷ []) ++ (new ++ remark_text remark)))
summary (created text) = text
summary (removed text) = text
summary (current text) = text
summary (refused text) = text

-- "<flag>\t<from>:<to>\t<summary>"
abbrev pub print_fields : ℕ → Text → Text → Text → Text
print_fields mark from to text = (mark ∷ (9 ∷ from)) ++ (b':' ∷ (to ++ (9 ∷ text)))

abbrev pub print_line : Report → Text
print_line r = print_fields (flag r.update) r.from r.to (summary r.update)

-- The whole report, between its first and its last line.
unfoldable pub print_push : Text → List Report → Text
print_push url rs = unlines ((lit "To " ++ url) ∷ (map print_line rs ++ (lit "Done" ∷ [])))

-- Tabs and line breaks, which end a field or a line.
abbrev pub is_break : ℕ → Bool
is_break c = nat_eq c 9 || (nat_eq c 10 || nat_eq c 13)

abbrev pub IsTip : Text → Type 0
IsTip tip = (tip ≢ []) × (solid tip ≡ true) × (lacks b'.' tip ≡ true)

abbrev pub CleanUpdate : Update → Type 0
CleanUpdate (fast_forward old new) = IsTip old × IsTip new
CleanUpdate (forced old new remark) =
    IsTip old × IsTip new × (free is_break (remark_text remark) ≡ true)
CleanUpdate (created text) = free is_break text ≡ true
CleanUpdate (removed text) = free is_break text ≡ true
CleanUpdate (current text) = free is_break text ≡ true
CleanUpdate (refused text) = free is_break text ≡ true

-- Ref names hold no white space and no colon, and tips neither white space nor dots; git's texts hold no
-- tab and no line break.
abbrev pub IsClean : Report → Type 0
IsClean r =
    (free is_break r.from ≡ true)
    × (r.to ≢ [])
    × (solid r.to ≡ true)
    × (lacks b':' r.to ≡ true)
    × CleanUpdate r.update

-- Did the ref move?
abbrev pub moved : Update → Bool
moved (current text) = false
moved (refused text) = false
moved _ = true

abbrev pub overwritten : Text → Update → List ForcedRef
overwritten to (forced old new remark) =
    record {
      ref = to;
      old = old;
      new = new;
      preserved = false;
      lost = [];
      lost_total = 0;
      elsewhere = 0;
    }
    ∷ []
overwritten to _ = []

abbrev pub refusal : Text → Update → List Text
refusal to (refused text) = (to ++ (lit ": " ++ trim_space text)) ∷ []
refusal to _ = []

-- What one line adds.
abbrev pub tell : PushResult → Report → PushResult
tell res r = record {
  changed = if moved r.update then true else res.changed;
  forced = res.forced ++ overwritten r.to r.update;
  rejected = res.rejected ++ refusal r.to r.update;
}

-- What a push has come to, in the order of its report.
abbrev pub outcome : PushResult → List Report → PushResult
outcome res [] = res
outcome res (r ∷ rs) = outcome (tell res r) rs
