-- ===== src/Mirror/Held.antt =====
-- internal/mirror/mirror.go: the message about refs that the guard withheld (`reportHeld`).
use git_bridge.Base.{
  Text, ℕ, ◌/◌, ◌%◌, List, [], ◌∷◌, ◌++◌, Bool, true, false, if◌then◌else◌, lit, concat, nat_eq,
  ltb, keep, is_empty, map, join,
}
use git_bridge.Config.{RepoConfig}
use git_bridge.Errors.{hex_digit}
use git_bridge.History.{HeldRef, Hold, hold_destination_ahead, hold_destination_unknown}
use git_bridge.Mirror.{is_branch}
use git_bridge.Mirror.Refs.{reverse_carries}

-- `heldReport`
pub record HeldReport : Type 0 where
  pub route : Text
  pub reverse_route : Text
  pub dest : Text
  pub repo : Text
  pub direction : Text
  pub held : List HeldRef

-- What json.Marshal writes for one character of a string.
json_char : ℕ → Text
json_char c =
    if nat_eq c b'"'
    then lit "\\\""
    else if nat_eq c b'\\'
    then lit "\\\\"
    else if nat_eq c 8
    then lit "\\b"
    else if nat_eq c 12
    then lit "\\f"
    else if nat_eq c 10
    then lit "\\n"
    else if nat_eq c 13
    then lit "\\r"
    else if nat_eq c 9
    then lit "\\t"
    else if ltb c 32
    then lit "\\u00" ++ (hex_digit (c / 16) ∷ hex_digit (c % 16) ∷ [])
    else if nat_eq c b'<'
    then lit "\\u003c"
    else if nat_eq c b'>'
    then lit "\\u003e"
    else if nat_eq c b'&'
    then lit "\\u0026"
    else if nat_eq c 0x2028
    then lit "\\u2028"
    else if nat_eq c 0x2029
    then lit "\\u2029"
    else c ∷ []

json_tail : Text → Text
json_tail [] = lit "\""
json_tail (c ∷ cs) = json_char c ++ json_tail cs

json_string : Text → Text
unfolding json_tail json_char
json_string t = b'"' ∷ json_tail t

-- `forceRequestBody`
unfoldable pub force_request_body : Text → Text → Text → Text → Text
unfolding json_string
force_request_body repo direction ref dest = concat (
    lit "{\"repo\":"
    ∷ json_string repo
    ∷ (if is_empty direction then [] else lit ",\"direction\":" ++ json_string direction)
    ∷ lit ",\"ref\":"
    ∷ json_string ref
    ∷ lit ",\"dest\":"
    ∷ json_string dest
    ∷ lit ",\"force\":true}"
    ∷ [])

-- How the `switch` of `reportHeld` sorts a withheld branch.
pub data Advice : Type 0 where
  rewind reverse overwrite : Advice

advise_hold : Bool → Hold → Advice
advise_hold carries hold_destination_ahead = rewind
advise_hold carries hold_destination_unknown = if carries then reverse else overwrite

unfoldable pub advise : RepoConfig → HeldRef → Advice
unfolding advise_hold
advise cfg h = advise_hold (reverse_carries cfg h.ref) h.reason

abbrev is_rewind : Advice → Bool
is_rewind rewind = true
is_rewind _ = false

abbrev is_reverse : Advice → Bool
is_reverse reverse = true
is_reverse _ = false

abbrev is_overwrite : Advice → Bool
is_overwrite overwrite = true
is_overwrite _ = false

-- The withheld branches; tags stay quiet.
unfoldable pub held_branches : List HeldRef → List HeldRef
held_branches hs = keep (λ h. is_branch h.ref) hs

hold_text : Hold → Text
hold_text hold_destination_ahead = lit "destination-ahead"
hold_text hold_destination_unknown = lit "destination-unknown"

held_line : HeldRef → Text
held_line h = concat (
    lit "• "
    ∷ h.ref
    ∷ lit ": destination is at "
    ∷ h.dest
    ∷ lit " ("
    ∷ hold_text h.reason
    ∷ lit ")"
    ∷ [])

command : HeldReport → HeldRef → Text
command rep h = concat (
    lit
      "  curl -X POST <git-bridge-url>/retry/mirror -H \"Authorization: Bearer $RETRY_API_TOKEN\" -H 'Content-Type: application/json' -d '"
    ∷ force_request_body rep.repo rep.direction h.ref h.dest
    ∷ lit "'"
    ∷ [])

refs_of : List HeldRef → Text
refs_of hs = join (map (λ h. h.ref) hs) (lit ", ")

rewind_part : HeldReport → List HeldRef → List Text
rewind_part rep [] = []
rewind_part rep (h ∷ hs) =
    concat (
      lit "For "
      ∷ refs_of (h ∷ hs)
      ∷ lit
          ": the destination already holds what this side would have pushed, so the write would have discarded commits there instead of mirroring them.\n\nAn echo that arrived late settles on its own — the newer side raises its own event and the two converge, so there is nothing to do here.\n\nA rewind someone meant to make does not settle on its own. Apply it from the console, where the row carries a button per held ref — or here, one call per ref:\n"
      ∷ join (map (command rep) (h ∷ hs)) (lit "\n")
      ∷ [])
    ∷ []

reverse_part : HeldReport → List HeldRef → List Text
reverse_part rep [] = []
reverse_part rep (h ∷ hs) =
    concat (
      lit "For "
      ∷ refs_of (h ∷ hs)
      ∷ lit
          ": the destination holds a commit this side has never fetched: either a push still on its way here, which settles on its own, or a rewrite made there. Forcing this route would discard that commit.\n\nCheck the reverse route first: "
      ∷ rep.reverse_route
      ∷ lit
          " normally carries it, and raises its own alert if it cannot. If that route reports this ref withheld too, the two sides diverged and neither will carry the other: choose one and overwrite the other, from the console row's button or the retry API."
      ∷ [])
    ∷ []

overwrite_part : HeldReport → List HeldRef → List Text
overwrite_part rep [] = []
overwrite_part rep (h ∷ hs) =
    concat (
      lit "For "
      ∷ refs_of (h ∷ hs)
      ∷ lit
          ": the destination holds a commit this side has never fetched, and no reverse route will carry it back. To overwrite that commit, use the console row's button or, one call per ref:\n"
      ∷ join (map (command rep) (h ∷ hs)) (lit "\n")
      ∷ [])
    ∷ []

-- The body of the message of `reportHeld`, before the source line.
unfoldable pub held_body : RepoConfig → HeldReport → Text
unfolding rewind_part reverse_part overwrite_part held_line hold_text command refs_of
held_body cfg rep =
    let branches = held_branches rep.held in
    let first = concat (
      lit "Route: "
      ∷ rep.route
      ∷ lit "\nTarget: "
      ∷ rep.dest
      ∷ lit "\nWithheld refs:\n"
      ∷ join (map held_line branches) (lit "\n")
      ∷ lit "\n\nNothing was written."
      ∷ []) in
    join
      (first
        ∷ (rewind_part rep (keep (λ h. is_rewind (advise cfg h)) branches)
            ++ (reverse_part rep (keep (λ h. is_reverse (advise cfg h)) branches)
                ++ overwrite_part rep (keep (λ h. is_overwrite (advise cfg h)) branches))))
      (lit "\n\n")
