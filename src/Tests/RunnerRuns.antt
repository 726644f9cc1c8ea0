-- ===== src/Tests/RunnerRuns.antt =====
-- Runs of what reads and writes git's texts.
use git_bridge.Base.{
  ◌==◌, is_space, split, cut, contains, insert, member, if◌then◌else◌, Text, ℕ, ◌+◌, List, [], ◌∷◌,
  ◌++◌, none, some, false, lit, lookup, ◌≡◌, refl, All,
}
use git_bridge.Base.Scan.{free}
use git_bridge.Askpass.{serve}
use git_bridge.Askpass.Answers.{serve-credentials}
use git_bridge.Errors.{Result, value}
use git_bridge.Mirror.Git.{Git, PushSpec, UnmatchedReport}
use git_bridge.Mirror.Runner.{parse_push, no_change, parse_ref_tips}
use git_bridge.Mirror.Runner.Blind.{default_git_runner-blind}
use git_bridge.Mirror.Runner.Cache.{default_git_runner}
use git_bridge.Mirror.Runner.Commands.{Machine, no_pipe}
use git_bridge.Mirror.Runner.Lost.{parse_side_commits, parse_patch_ids, fields, unmatched_commits}
use git_bridge.Mirror.Runner.Lost.Counted.{Compared, unmatched_commits-Compared}
use git_bridge.Mirror.Runner.Porcelain.{Report, fast_forward, forced, refused, print_push, outcome}
use git_bridge.Mirror.Runner.Porcelain.Read.{AllClean, parse_push-print_push}
use git_bridge.Mirror.Runner.Push.{Host, git_remote_env, push_mirror}
use git_bridge.Mirror.Runner.Push.Batches.{flat, Fits, Ends, together, push_mirror-batches}
use git_bridge.Mirror.Runner.Push.Unforced.{Unforced}
use git_bridge.Mirror.Runner.Tips.{Listed, print_tips, tip_of, parse_ref_tips-print_tips}
use git_bridge.Provider.{Remote, has_credentials}
use git_bridge.Tests.Toy.{main_ref}

abbrev toy_remote_repo : Remote
toy_remote_repo = record { url = lit "https://h/a"; username = lit "bot"; password = lit "pw" }

-- A git that succeeds and counts its runs.
abbrev toy_host : Host ℕ
toy_host = record {
  environ = lit "GIT_BRIDGE_ASKPASS=0" ∷ [];
  askpass_helper = lit "/bin/git-bridge";
  run_git = λ args env w. (
    record {
      stdout = [];
      stderr = [];
      combined = [];
      err = none;
      exit_one = false;
      deadline_exceeded = false;
    },
    1,
  );
}

serve-credentials_example :
    (serve (git_remote_env toy_host toy_remote_repo) ((lit "Username" ++ lit " for h: ") ∷ [])
      ≡ some (lit "bot" ++ lit "\n"))
    × (serve (git_remote_env toy_host toy_remote_repo) ((lit "Password" ++ lit " for h: ") ∷ [])
        ≡ some (lit "pw" ++ lit "\n"))
unfolding has_credentials ◌==◌
serve-credentials_example =
    serve-credentials toy_host toy_remote_repo refl (λ e. cc) (lit " for h: ")

abbrev toy_reports : List Report
toy_reports =
    record { from = main_ref; to = main_ref; update = fast_forward (lit "c1") (lit "c2") }
    ∷ record {
      from = lit "refs/heads/a";
      to = lit "refs/heads/a";
      update = forced (lit "c1") (lit "c3") (some (lit "(forced update)"));
    }
    ∷ record {
      from = lit "refs/tags/v1";
      to = lit "refs/tags/v1";
      update = refused (lit "[rejected] (stale info)");
    }
    ∷ []

toy_clean : AllClean toy_reports
unfolding free is_space
toy_clean = (
  (refl, λ e. cc, refl, refl, ((λ e. cc, refl, refl), (λ e. cc, refl, refl))),
  (
    (refl, λ e. cc, refl, refl, ((λ e. cc, refl, refl), (λ e. cc, refl, refl), refl)),
    ((refl, λ e. cc, refl, refl, refl), tt),
  ),
)

parse_push-print_push_example :
    parse_push (print_push (lit "https://h/a") toy_reports) ≡ outcome no_change toy_reports
unfolding free
parse_push-print_push_example = parse_push-print_push (lit "https://h/a") toy_reports refl toy_clean

abbrev toy_listed : List Listed
toy_listed =
    record { sha = lit "c1"; ref = main_ref }
    ∷ record { sha = lit "t1"; ref = lit "refs/tags/v1" }
    ∷ record { sha = lit "c0"; ref = lit "refs/tags/v1^{}" }
    ∷ []

parse_ref_tips-print_tips_example :
    lookup (lit "refs/tags/v1") (parse_ref_tips (print_tips 9 toy_listed) (9 ∷ []))
    ≡ tip_of (lit "refs/tags/v1") toy_listed
unfolding is_space free
parse_ref_tips-print_tips_example =
    parse_ref_tips-print_tips 9 refl refl (lit "refs/tags/v1") toy_listed (
      (λ e. cc, refl, λ e. cc, refl),
      ((λ e. cc, refl, λ e. cc, refl), ((λ e. cc, refl, λ e. cc, refl), tt)),
    )

abbrev toy_specs : List PushSpec
toy_specs = record { ref = main_ref; lease = lit "c1" } ∷ []

push_mirror-batches_example :
    (batches : List (List PushSpec)) × (flat batches ≡ toy_specs)
    × All Fits batches
    × ((w : ℕ)
        → Ends toy_host
            (lit "d")
            toy_remote_repo
            batches
            together
            w
            (push_mirror toy_host (lit "d") toy_remote_repo toy_specs w))
push_mirror-batches_example = push_mirror-batches toy_host (lit "d") toy_remote_repo toy_specs

-- Three commits apart: one whose patch the kept side holds, one that only the discarded side had and no
-- branch reaches, and a merge that a branch reaches.
abbrev toy_output : List Text → Result Text
toy_output (command ∷ args) =
    if command == lit "log"
    then value (
        lit "d1"
        ++ (0 ∷ lit "p")
        ++ (0 ∷ lit "ana")
        ++ (0 ∷ lit "kept\n")
        ++ lit "d2"
        ++ (0 ∷ lit "p")
        ++ (0 ∷ lit "ana")
        ++ (0 ∷ lit "gone\n")
        ++ lit "d3"
        ++ (0 ∷ lit "p q")
        ++ (0 ∷ lit "ana")
        ++ (0 ∷ lit "merge\n"))
    else value (lit "d2\n")
toy_output [] = value []

abbrev toy_patches : Text → Text → Result Text
toy_patches side range =
    if side == lit "--left-only" then value (lit "i1 k1\n") else value (lit "i1 d1\ni2 d2\n")

abbrev toy_report : UnmatchedReport
toy_report = record {
  lost = record { sha = lit "d2"; author = lit "ana"; subject = lit "gone" } ∷ [];
  total = 1;
  elsewhere = 1;
}

toy_compared :
    unmatched_commits toy_output toy_patches (λ t. some (1, 3)) (lit "new") (lit "old")
    ≡ value toy_report
unfolding unmatched_commits ◌==◌ parse_side_commits split cut parse_patch_ids contains lookup insert
    member fields is_space
toy_compared = refl

unmatched_commits-Compared_example :
    Compared toy_output toy_patches (λ t. some (1, 3)) (lit "new") (lit "old") toy_report
unmatched_commits-Compared_example =
    unmatched_commits-Compared toy_output toy_patches (λ t. some (1, 3)) (lit "new") (lit "old")
      toy_report toy_compared

abbrev toy_machine : Machine ℕ
toy_machine = record {
  host = toy_host;
  read_git = λ args w. (toy_host.run_git args [] w).0;
  write_git = λ args w. toy_host.run_git args [] w;
  pipe_git = λ log_args id_args w. no_pipe (lit "no pipe");
  mkdir_all = λ dir w. (none, w);
  remove_all = λ dir w. (none, w);
  remove = λ name w. (none, w);
  rename = λ old new w. (none, w);
  read_dir = λ dir w. none;
  has_user_info = λ url. false;
  scan_counts = λ text. none;
  is_file = λ name w. false;
  clock = λ w. 0;
  show_duration = λ n. [];
}

-- A git that says its environment.
abbrev echo_host : Host ℕ
echo_host = record toy_host {
  run_git = λ args env w. (
    record {
      stdout = flat env;
      stderr = flat env;
      combined = flat env;
      err = none;
      exit_one = false;
      deadline_exceeded = false;
    },
    w + 1,
  );
}

abbrev echo_runner : Git ℕ
echo_runner = default_git_runner (record toy_machine { host = echo_host })

-- The same, but that says the first remote's environment.
abbrev handed_runner : Git ℕ
handed_runner = default_git_runner (record toy_machine {
  host = record echo_host {
    run_git = λ args env w. echo_host.run_git args (git_remote_env echo_host toy_remote_repo) w;
  };
})

abbrev rotated : Remote
rotated = record toy_remote_repo { password = lit "new" }

default_git_runner-blind_example :
    (echo_runner.clone_mirror toy_remote_repo (lit "d") 0
      ≡ handed_runner.clone_mirror rotated (lit "d") 0)
    × (echo_runner.fetch_mirror toy_remote_repo (lit "d") 0
        ≡ handed_runner.fetch_mirror rotated (lit "d") 0)
    × (echo_runner.push_mirror (lit "d") toy_remote_repo toy_specs 0
        ≡ handed_runner.push_mirror (lit "d") rotated toy_specs 0)
    × (echo_runner.remote_refs toy_remote_repo 0 ≡ handed_runner.remote_refs rotated 0)
    × (echo_runner.delete_ref (lit "d") toy_remote_repo (lit "branch") (lit "a") 0
        ≡ handed_runner.delete_ref (lit "d") rotated (lit "branch") (lit "a") 0)
    × (echo_runner.ref_tip toy_remote_repo (lit "branch") (lit "a") 0
        ≡ handed_runner.ref_tip rotated (lit "branch") (lit "a") 0)
    × (echo_runner.fetch_object (lit "d") toy_remote_repo (lit "c9") 0
        ≡ handed_runner.fetch_object (lit "d") rotated (lit "c9") 0)
    × (echo_runner.create_ref (lit "d") toy_remote_repo (lit "c9") main_ref 0
        ≡ handed_runner.create_ref (lit "d") rotated (lit "c9") main_ref 0)
    × (echo_runner.sanitize_cache (lit "d") toy_remote_repo 0
        ≡ handed_runner.sanitize_cache (lit "d") rotated 0)
unfolding has_credentials ◌==◌
default_git_runner-blind_example =
    default_git_runner-blind (record toy_machine { host = echo_host }) toy_remote_repo.url
      (lit "bot") (lit "pw") (lit "bot") (lit "new") refl (lit "d") (lit "c9") main_ref
      (lit "branch") (lit "a") toy_specs 0
