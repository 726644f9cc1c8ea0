-- ===== src/Tests/Toy.antt =====
-- A small service to run: two providers with one repository each, and a git that counts what it
-- writes to a destination. The destination's `main` is at a commit that is not here.
use git_bridge.Base.{Text, List, ℕ, suc, ◌+◌, [], ◌∷◌, none, some, true, false, lit, Map, length}
use git_bridge.Config.{RepoConfig, ProviderConfig}
use git_bridge.Errors.{value}
use git_bridge.Provider.{new_codecommit, new_github}
use git_bridge.Mirror.{EventMeta}
use git_bridge.Mirror.Git.{Git, PushSpec}
use git_bridge.Mirror.Flow.{Service, State}

abbrev pub main_ref : Text
main_ref = lit "refs/heads/main"

abbrev pub toy_local : Map Text
toy_local = (main_ref, lit "c2") ∷ []

abbrev pub toy_remote : Map Text
toy_remote = (main_ref, lit "c1") ∷ []

-- A git that is at these tips whatever happens, and notes what it is asked to write.
abbrev pub noting : {W : Type 0} → (List PushSpec → W → W) → (W → W) → Git W
noting pushes writes = record {
  clone_mirror = λ rem dir w. (none, w);
  fetch_mirror = λ rem dir w. (none, w);
  push_mirror = λ dir rem specs w.
      (value (record { changed = true; forced = []; rejected = [] }), pushes specs w);
  list_refs = λ dir w. value (main_ref ∷ []);
  list_ref_tips = λ dir w. value toy_local;
  remote_refs = λ rem w. (value toy_remote, w);
  is_ancestor = λ dir a b w. false;
  unmatched_commits = λ dir a b w. value (record { lost = []; total = 0; elsewhere = 0 });
  delete_ref = λ dir rem ref_type ref_name w. (none, writes w);
  ref_tip = λ rem ref_type ref_name w. (value [], w);
  ensure_bare_dir = λ dir w. (none, w);
  has_object = λ dir sha w. false;
  fetch_object = λ dir rem sha w. (some (record { message = lit "gone"; sentinel = none }), w);
  create_ref = λ dir rem sha ref w. (none, writes w);
  commit_author = λ dir ref w. value [];
  gc_auto = λ dir w. (none, w);
  sanitize_cache = λ dir rem w. (none, w);
  is_git_dir = λ dir w. false;
  rename = λ old new w. (none, w);
  remove_all = λ dir w. w;
  clock = λ w. 0;
  show_duration = λ n. [];
}

-- The world is the number of refs written to destinations so far.
abbrev pub toy_git : Git ℕ
toy_git = noting (λ specs n. n + length specs) suc

abbrev pub toy_repo : RepoConfig
toy_repo = record {
  name = lit "app";
  source = lit "cc";
  target = lit "gh";
  source_path = lit "app";
  target_path = lit "org/app";
  direction = lit "bidirectional";
  retry_direction = [];
  ref_overrides =
      record { pattern = lit "release"; from = lit "gh"; to = lit "cc" }
      ∷ record { pattern = lit "stable"; from = lit "cc"; to = lit "gh" }
      ∷ [];
  slack_webhook_url = [];
}

abbrev pub codecommit_config : ProviderConfig
codecommit_config = record {
  type = lit "codecommit";
  base_url = [];
  region = lit "eu-west-1";
  credentials = [];
}

abbrev pub github_config : ProviderConfig
github_config = record {
  type = lit "github";
  base_url = lit "https://github.com";
  region = [];
  credentials = [];
}

abbrev pub toy_service : Service ℕ
toy_service = record {
  configs = toy_repo ∷ [];
  providers =
      (lit "cc", new_codecommit codecommit_config) ∷ (lit "gh", new_github github_config) ∷ [];
  work_dir = lit "/tmp";
  git = toy_git;
}

abbrev pub start : State ℕ
start = record { world = 0; recorded = []; sent = []; busy = [] }

abbrev pub push_meta : EventMeta
push_meta = record {
  ref = main_ref;
  source = lit "webhook";
  force = false;
  force_lease = [];
  actor = lit "ana";
}
