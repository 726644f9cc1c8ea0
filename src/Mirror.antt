-- ===== src/Mirror.antt =====
-- internal/mirror/mirror.go: the vocabulary of the mirror service.
pub mod Git
pub mod Runner
pub mod Flow
pub mod Refs
pub mod Forced
pub mod Held
pub mod Steps
pub mod Sync
pub mod Settles
pub mod Preserves
pub mod Delete
pub mod Restore
pub mod Entry
pub mod Console
pub mod Plan
use git_bridge.Base.{
  Text, List, [], ◌∷◌, ◌++◌, Bool, true, false, if◌then◌else◌, lit, has_prefix, trim_prefix, ◌==◌,
}

abbrev pub refs_heads_prefix : Text
refs_heads_prefix = lit "refs/heads/"

abbrev pub refs_tags_prefix : Text
refs_tags_prefix = lit "refs/tags/"

abbrev pub ref_type_tag : Text
ref_type_tag = lit "tag"

-- `fullRefName`
unfoldable pub full_ref_name : Text → Text → Text
full_ref_name ref_type ref_name =
    if ref_type == ref_type_tag then refs_tags_prefix ++ ref_name else refs_heads_prefix ++ ref_name

abbrev pub source_webhook : Text
source_webhook = lit "webhook"

abbrev pub source_sqs : Text
source_sqs = lit "sqs"

abbrev pub source_retry_api : Text
source_retry_api = lit "retry-api"

abbrev pub source_console : Text
source_console = lit "console"

abbrev pub source_cron : Text
source_cron = lit "cron"

pub record EventMeta : Type 0 where
  pub ref : Text
  pub source : Text
  pub force : Bool
  pub force_lease : Text
  pub actor : Text

-- `EventMeta.RefName`, a function of the ref alone
unfoldable pub short_name : Text → Text
short_name ref =
    if has_prefix ref refs_heads_prefix
    then trim_prefix ref refs_heads_prefix
    else if has_prefix ref refs_tags_prefix
    then trim_prefix ref refs_tags_prefix
    else ref

abbrev pub ref_name : EventMeta → Text
ref_name m = short_name m.ref

-- `EventMeta.IsTag`
unfoldable pub is_tag : EventMeta → Bool
is_tag m = has_prefix m.ref refs_tags_prefix

abbrev pub is_branch : Text → Bool
is_branch ref = has_prefix ref refs_heads_prefix
