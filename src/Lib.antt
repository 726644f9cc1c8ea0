-- ===== src/Lib.antt =====
-- Verification library of git-bridge, a service that keeps pairs of git repositories on different
-- hosts (CodeCommit, GitHub, GitLab) in step.
--
-- The program and its model. A webhook, a queue message, a retry request or a person at the console
-- calls an entry point of the mirror service (internal/mirror/mirror.go), which finds the repository
-- in the configuration, asks whether its direction and overrides allow the write, and then runs one
-- of three operations: `doMirror`, `doDeleteRef` or `doRestoreRef`. Each talks to git through the
-- interface `GitRunner`, tells the outcome to Slack (internal/notify), and records it in the history
-- (internal/history), from which the console reads.
--
--   Base               text as lists of code points, maps, lists, integers, and their laws
--   Errors             Go errors: the text, and the sentinel that errors.Is finds
--   Config             internal/config/config.go: the records, `MatchRefOverride`
--   Config/Glob        path.Match, as a scanner of the pattern and a matcher
--   Config/Hosts       `HostResolver`, `Resolve`, `normalizeHost`
--   Config/Validate    `validate` and the defaults of `Load`
--   History            internal/history/history.go: events, their reasons
--   History/Writer     `Writer`: `Record`, `rotate`, `push`, `Recent`, `Sources`, `Repos`, `Close`
--   History/Tail       `tail` and `New`
--   Notify             internal/notify/notify.go: messages and the payload that is posted
--   Provider           internal/provider: remotes and web addresses
--   Mirror/Git         `GitRunner`, as a record of functions on a world
--   Mirror/Flow        how a method of `Service` runs: state passing with early returns
--   Mirror/Refs        directions, overrides, `resolveRefs`
--   Mirror/Plan        `planPush`
--   Mirror/Forced      `classifyForced` and the text of `reportForced`
--   Mirror/Held        the text of `reportHeld`
--   Mirror/Steps       `ensureMirror`, `mirrorDirFor`, `record`, `notifyFailure`
--   Mirror/Sync        `doMirror`
--   Mirror/Delete      `doDeleteRef`
--   Mirror/Restore     `doRestoreRef`
--   Mirror/Entry       `Sync`, `SyncByTarget`, `Retry`, `SyncDelete`, `SyncDeleteByTarget`
--   Mirror/Console     `DirectionTo`; Mirror/Console/Writes: `RestoreRef` and `ForcePush`
--   Server             internal/server/console.go: `restoreHandler`, `restoreFailureStatus`
--   Server/Force       `forceHandler`; Server/Retry: `retryHandler`
--   Server/Views       `historyHandler`, `meHandler`
--   Mirror/Runner      `parsePush`, `parseRefTips`, `allStaleLease`
--   Mirror/Runner/Push `runPush`, `PushMirror`, `gitRemoteEnv`: command lines, environment, batches
--   Mirror/Runner/Lost `UnmatchedCommits`, `parseSideCommits`, `parsePatchIDs`
--   Mirror/Runner/Commands, Mirror/Runner/Cache: the methods of `defaultGitRunner`, which fill
--                      `GitRunner` on a machine that runs commands and has files
--   Mirror/Runner/Porcelain, Mirror/Runner/Tips: git's formats written down, to read them against
--   Consumer           internal/consumer: requests, and the jobs that handlers start
--   Consumer/Webhook   the GitLab and GitHub handlers; Consumer/Retry: the retry endpoint
--   Consumer/Queue     the queue of CodeCommit's events
--   Consumer/Arrivals  the service with all its routes and its queue, run on whatever arrives
--   Askpass            internal/askpass: what git's prompts are answered
--   Process            cmd/git-bridge/main.go, internal/task: the goroutines and the shutdown
--   Tests              small runs, and the theorems applied to them
--
-- State. `State` holds the world (everything outside the process), the events recorded, the messages
-- sent and the repositories whose lock another goroutine holds. A method is a function of the state;
-- an action either returns early with an error or goes on with a value. The world is a parameter: what
-- only reads the mirror directory is a function of it, and whatever writes it or talks to a remote
-- returns the next world, in which others may have acted as well. Nothing is assumed of git.
--
-- What an operation may do to the world is said by a property of the world that git's reads and the
-- upkeep of the mirror directory respect (`Upkeep`), together with the one kind of write that the
-- operation may make. What an operation records is said by `RecordsOnce` and `Audited`. The rules for
-- both follow the operation's own steps (Mirror/Preserves, Mirror/Settles).
--
-- From outside. A handler gives its reply and the job that it starts, and a job is a call of the
-- service. In Consumer/Arrivals a job is run to its end before the next arrival: the lock of a
-- repository keeps its runs apart in the program, and others may act on the world during a run. What is
-- not the program's own (JSON, HMAC, the address that url.Parse finds, fmt.Sscanf, the time) is a
-- function that a definition takes. The process is a step relation on counts of what runs, so that
-- every order of requests, tasks, messages, the signal and the timer is covered.
--
-- Bounds. The only fuel is that of the loop of `PushMirror`: the number of refs, which is enough as
-- each round takes at least one; all other loops go over a finite list. Counts
-- and sizes are natural numbers, since the program only adds lengths that memory bounds; the integers
-- of the configuration, which may be negative, are integers, and where one is shifted or converted to
-- 32 bits the wrap-around is written out.
--
-- Not modelled: what git and the file system do with a command, the timeouts and process groups of
-- its processes; logging; the console's page, the other static pages and the route tables; the queue's
-- client; reading and parsing the configuration file; the wiring of main before its goroutines run.
-- Slack's HTTP request is its payload.
--
-- Smaller departures. The length of a request's body is counted in characters where the program counts
-- bytes. A message counts as deleted once its deletion has been asked for, whatever the queue answers.
-- Lower case is that of ASCII letters, in hosts as well. A `*` of a pattern may be followed by a class
-- that matches `/`, which path.Match treats otherwise in some texts. `tail` takes the lines that were
-- scanned from the last 4 MB of a file; opening and seeking in it are outside. The parts of a
-- mirror directory's path are joined without the cleaning of filepath.Join.
pub mod Base
pub mod Errors
pub mod History
pub mod Config
pub mod Notify
pub mod Mirror
pub mod Provider
pub mod Server
pub mod Consumer
pub mod Askpass
pub mod Process
mod Tests
