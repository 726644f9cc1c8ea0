-- ===== src/Tests/ServerRuns.antt =====
-- Requests to the console.
use git_bridge.Base.{
  Text, ℕ, suc, [], ◌∷◌, none, some, true, lit, ◌≡◌, refl, ◌==◌, has_prefix, trim_space,
  trim_prefix, to_lower,
}
use git_bridge.History.{Action, new_event, hold_destination_ahead}
use git_bridge.Server.{
  Reader, Request, decoded, RestoreBody, Restorer, restore_handler, matching_delete_exists,
  is_matching_delete, is_full_sha, ref_parts,
}
use git_bridge.Server.Gates.{Answered, restore_handler-Answered}
use git_bridge.Server.Force.{
  ForceBody, ForceCall, force_handler, Withheld, force_handler-Withheld, matching_hold_exists,
  is_matching_hold,
}

abbrev sha : Text
sha = lit "0123456789abcdef0123456789abcdef01234567"

abbrev old_ref : Text
old_ref = lit "refs/heads/old"

-- The history has one delete and one hold.
abbrev reader : Reader
reader q =
    record (new_event Action.delete) { to = lit "gh/org/app"; ref = old_ref; deleted_tip = sha }
    ∷ record (new_event Action.mirror) {
      to = lit "gh/org/app";
      held = record { ref = old_ref; reason = hold_destination_ahead; dest = lit "c1" } ∷ [];
    }
    ∷ []

-- The state counts the restores.
abbrev counting : Restorer ℕ
counting repo to ref_type ref_name commit actor n = (none, suc n)

abbrev restore_click : Request RestoreBody
restore_click = record {
  is_post = true;
  content_type = lit "application/json";
  body = decoded (record { repo = lit "app "; to = lit "gh/org/app"; ref = old_ref; sha = sha });
  auth_user = lit "ana";
}

abbrev force_click : Request ForceBody
force_click = record {
  is_post = true;
  content_type = lit "application/json; charset=utf-8";
  body =
      decoded (record { repo = lit "app"; to = lit "gh/org/app"; ref = old_ref; dest = lit "c1" });
  auth_user = lit "ana";
}

abbrev forced : ForceCall
forced = record {
  repo = lit "app";
  to = lit "gh/org/app";
  ref = old_ref;
  dest = lit "c1";
  actor = lit "ana";
}

-- The restore goes through, once.
restores_once : (restore_handler (some counting) (some reader) restore_click 0).1 ≡ 1
unfolding restore_handler matching_delete_exists is_matching_delete is_full_sha ref_parts ◌==◌
    has_prefix trim_space trim_prefix to_lower
restores_once = refl

restore_handler-Answered_example :
    Answered counting
      (some reader)
      (lit "ana")
      restore_click.body
      0
      (restore_handler (some counting) (some reader) restore_click 0)
restore_handler-Answered_example = restore_handler-Answered counting (some reader) restore_click 0

hands_over : (force_handler true (some reader) force_click).1 ≡ some forced
unfolding force_handler matching_hold_exists is_matching_hold ◌==◌ has_prefix trim_space
hands_over = refl

force_handler-Withheld_example : Withheld (some reader) forced
force_handler-Withheld_example =
    force_handler-Withheld true (some reader) force_click forced hands_over
