-- ===== src/Mirror/Flow.antt =====
-- How the service's methods run: over the world, what was recorded in the history, the messages that
-- were sent, and the repositories whose lock another goroutine holds. A method returns early
-- (`finished`) or goes on.
use git_bridge.Base.{Text, List, [], ◌∷◌, ◌++◌, Option, none, Map, Bool, member}
use git_bridge.Config.{RepoConfig}
use git_bridge.Errors.{Error}
use git_bridge.History.{Event}
use git_bridge.Notify.{Message}
use git_bridge.Provider.{Provider}
use git_bridge.Mirror.Git.{Git}

-- `Service`; the notifier and the recorder are in the state
pub record Service (W : Type 0) : Type 0 where
  pub configs : List RepoConfig
  pub providers : Map Provider
  pub work_dir : Text
  pub git : Git W

pub record State (W : Type 0) : Type 0 where
  pub world : W
  pub recorded : List Event
  pub sent : List Message
  pub busy : List Text

pub data Flow (A : Type 0) : Type 0 where
  finished : Option Error → Flow A
  going : A → Flow A

abbrev pub Act : Type 0 → Type 0 → Type 0
Act W A = State W → Flow A × State W

abbrev pub returned : {A : Type 0} → Flow A → Option Error
returned (finished e) = e
returned (going a) = none

module _ {W : Type 0} where
  unfoldable pub pure : {A : Type 0} → A → Act W A
  pure a st = (going a, st)

  -- `return err`
  unfoldable pub exit : {A : Type 0} → Option Error → Act W A
  exit e st = (finished e, st)

  -- A query that leaves the world alone.
  unfoldable pub ask : {A : Type 0} → (W → A) → Act W A
  ask f st = (going (f st.world), st)

  -- An operation on the world.
  unfoldable pub call : {A : Type 0} → (W → A × W) → Act W A
  call f st = let (a, w) = f st.world in (going a, record st { world = w })

  unfoldable pub change : (W → W) → Act W (Unit {0})
  change f st = (going tt, record st { world = f st.world })

  -- Is the lock of this repository held by another goroutine?
  unfoldable pub is_busy : Text → Act W Bool
  is_busy repo st = (going (member repo st.busy), st)

  -- `notifier.Send`
  unfoldable pub send_message : Message → Act W (Unit {0})
  send_message m st = (going tt, record st { sent = st.sent ++ (m ∷ []) })

  -- The recorder's `Record`: the event is the function of the world at that moment.
  unfoldable pub record_outcome : (W → Event) → Act W (Unit {0})
  record_outcome ev st = (going tt, record st { recorded = st.recorded ++ (ev st.world ∷ []) })

module _ {W A B : Type 0} where
  abbrev pub continue : Flow A → (A → Act W B) → Act W B
  continue (finished e) f st = (finished e, st)
  continue (going a) f st = f a st

  infixl 5 ◌>>=◌ ◌>>◌
  -- Opening this opens the actions above.
  unfoldable pub ◌>>=◌ : Act W A → (A → Act W B) → Act W B
  unfolding pure exit ask call change is_busy send_message record_outcome
  ◌>>=◌ m f st = let (r, st') = m st in continue r f st'

  abbrev pub ◌>>◌ : Act W A → Act W B → Act W B
  m >> k = m >>= λ _. k

-- A deferred clean-up: it runs whichever way the action ends.
unfoldable pub finally : {W A : Type 0} → Act W A → (W → W) → Act W A
finally m cleanup st = let (r, st') = m st in (r, record st' { world = cleanup st'.world })

-- What a method returns; one that runs to its end returns nil.
unfoldable pub run : {W A : Type 0} → Act W A → State W → Option Error × State W
unfolding pure exit ask call change is_busy send_message record_outcome
run m st = let (r, st') = m st in (returned r, st')
