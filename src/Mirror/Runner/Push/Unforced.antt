-- ===== src/Mirror/Runner/Push/Unforced.antt =====
-- internal/mirror/mirror.go, `PushMirror`: the command lines that push.
use git_bridge.Base.{Text, List, [], ◌∷◌, true, false, lit, has_prefix, ◌≡◌, ◌==◌}
use git_bridge.Mirror.Git.{PushSpec}

-- The argument does not take the force of the leases: it is no option of force, and no refspec with a plus.
abbrev pub Unforced : Text → Type 0
Unforced arg =
    ((arg == lit "--force") ≡ false)
    × ((arg == lit "-f") ≡ false)
    × (has_prefix arg (lit "+") ≡ false)

abbrev pub FullNames : List PushSpec → Type 0
FullNames [] = Unit
FullNames (s ∷ ss) = (has_prefix s.ref (lit "refs/") ≡ true) × FullNames ss
