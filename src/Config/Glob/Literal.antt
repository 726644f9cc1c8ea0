-- ===== src/Config/Glob/Literal.antt =====
-- path.Match on patterns without a special character.
use git_bridge.Base.{
  append-nil, Text, ℕ, List, [], ◌∷◌, ◌++◌, ◌≡◌, refl, ◌≢◌, ◌==◌, arith, map, some, append_assoc,
  ap, ◌∙◌,
}
use git_bridge.Config.Glob.{
  Item, char, top, scan, scan_all, finish, parse, matches, match_parsed, path_match,
}

abbrev pub IsPlain : Text → Type 0
IsPlain [] = Unit
IsPlain (c ∷ cs) = ((c ≢ b'*') × (c ≢ b'?') × (c ≢ b'[') × (c ≢ b'\\')) × IsPlain cs

abbrev IsOrdinary : ℕ → Type 0
IsOrdinary c = (c ≢ b'*') × (c ≢ b'?') × (c ≢ b'[') × (c ≢ b'\\')

scan_plain :
    (c : ℕ) (done : List Item) → IsOrdinary c → scan top c done ≡ (top, done ++ (char c ∷ []))
unfolding scan
scan_plain c done h = ground arith

scan_all_plain :
    (done : List Item) (cs : Text)
    → IsPlain cs
    → scan_all (top, done) cs ≡ (top, done ++ map char cs)
unfolding scan_all
scan_all_plain done [] h = rw append-nil
scan_all_plain done (c ∷ cs) (p, h) = rw (scan_plain c done p) (
    scan_all_plain (done ++ (char c ∷ [])) cs h
    ∙ rw (append_assoc done (char c ∷ []) (map char cs)))

matches_chars : (p name : Text) → matches (map char p) name ≡ (name == p)
unfolding matches ◌==◌
matches_chars [] [] = refl
matches_chars [] (c ∷ cs) = refl
matches_chars (d ∷ p) [] = refl
matches_chars (d ∷ p) (c ∷ cs) = ground (arith, matches_chars p cs)

-- A pattern with no special character is accepted, and matches its own text alone.
pub path_match_plain :
    (pattern name : Text) → IsPlain pattern → path_match pattern name ≡ some (name == pattern)
unfolding path_match parse
path_match_plain pattern name h =
    rw (scan_all_plain [] pattern h, match_parsed, finish) (ap some (matches_chars pattern name))
