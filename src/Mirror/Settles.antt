-- ===== src/Mirror/Settles.antt =====
-- A method settles when it either goes on with nothing recorded, or returns with exactly one event
-- recorded, which tells the method's story and fails exactly when an error is returned.
use git_bridge.Base.{
  Option-cases, inl, inr, lookup, Text, [], ◌∷◌, ◌++◌, Option, none, some, Bool, true, false, ◌≡◌,
  refl, ◌≢◌, ◌∙◌, if◌then◌else◌, ℕ,
}
use git_bridge.Errors.{Error}
use git_bridge.History.{Event, Outcome, Reason, fail}
use git_bridge.Notify.{Message}
use git_bridge.Mirror.Flow.{
  run, returned, Service, State, Act, Flow, finished, going, continue, ◌>>=◌, pure, ask, call,
  change, finally, is_busy, send_message,
}
use git_bridge.Mirror.Steps.{leave, leave_as, require_provider}

-- The fields of an event that say what it is about.
abbrev pub Story : Event → Event → Type 0
Story hist ev =
    (ev.repo ≡ hist.repo)
    × (ev.action ≡ hist.action)
    × (ev.source ≡ hist.source)
    × (ev.from ≡ hist.from)
    × (ev.to ≡ hist.to)
    × (ev.ref ≡ hist.ref)
    × (ev.actor ≡ hist.actor)

abbrev pub Agrees : Option Error → Outcome → Type 0
Agrees none outcome = outcome ≢ fail
Agrees (some e) outcome = outcome ≡ fail

-- One event is recorded, of this story and with the outcome that the returned error shows.
abbrev pub RecordsOnce : {W : Type 0} → Event → State W → Option Error → State W → Type 0
RecordsOnce hist st e st' =
    (ev : Event) × (st'.recorded ≡ st.recorded ++ (ev ∷ [])) × Story hist ev × Agrees e ev.result

module _ {W : Type 0} (hist : Event) where
  abbrev pub Settled : {A : Type 0} → State W → Flow A × State W → Type 0
  Settled st (finished e, st') = RecordsOnce hist st e st'
  Settled st (going a, st') = st'.recorded ≡ st.recorded

  pub record Settles {A : Type 0} (m : Act W A) : Type 0 where
    pub at : (st : State W) → Settled st (m st)

module _ {W : Type 0} where
  rebase :
      {A : Type 0} (hist : Event) (st st' : State W) (r : Flow A × State W)
      → st'.recorded ≡ st.recorded
      → Settled hist st' r
      → Settled hist st r
  rebase hist st st' (finished e, st'') h (ev, one, story, agrees) =
      (ev, rw (← h) one, story, agrees)
  rebase hist st st' (going a, st'') h k = k ∙ h

  cleaned :
      {A : Type 0} (hist : Event) (st : State W) (r : Flow A × State W) (cleanup : W → W)
      → Settled hist st r
      → Settled hist st (r.0, record (r.1) { world = cleanup r.1.world })
  cleaned hist st (finished e, st') cleanup h = h
  cleaned hist st (going a, st') cleanup h = h

  bind-Settled :
      {A B : Type 0} (hist : Event) (st : State W) (r : Flow A × State W) (f : A → Act W B)
      → Settled hist st r
      → ((a : A) → Settles hist (f a))
      → Settled hist st (continue r.0 f r.1)
  bind-Settled hist st (finished e, st') f h kf = h
  bind-Settled hist st (going a, st') f h kf = rebase hist st st' (f a st') h ((kf a).at st')

module _ {W : Type 0} {hist : Event} where
  pub Settles-pure : {A : Type 0} (a : A) → Settles {W = W} hist (pure a)
  unfolding pure
  Settles-pure a = record { at = λ st. refl }

  pub Settles-ask : {A : Type 0} (f : W → A) → Settles hist (ask f)
  unfolding ask
  Settles-ask f = record { at = λ st. refl }

  pub Settles-call : {A : Type 0} (f : W → A × W) → Settles hist (call f)
  unfolding call
  Settles-call f = record { at = λ st. refl }

  pub Settles-change : (f : W → W) → Settles hist (change f)
  unfolding change
  Settles-change f = record { at = λ st. refl }

  pub Settles-is_busy : (t : Text) → Settles {W = W} hist (is_busy t)
  unfolding is_busy
  Settles-is_busy t = record { at = λ st. refl }

  pub Settles-send : (m : Message) → Settles {W = W} hist (send_message m)
  unfolding send_message
  Settles-send m = record { at = λ st. refl }

  pub Settles-finally :
      {A : Type 0} (m : Act W A) (cleanup : W → W)
      → Settles hist m
      → Settles hist (finally m cleanup)
  unfolding finally
  Settles-finally m cleanup h = record { at = λ st. cleaned hist st (m st) cleanup (h.at st) }

  pub Settles-if :
      {A : Type 0} (b : Bool) (m n : Act W A)
      → Settles hist m
      → Settles hist n
      → Settles hist (if b then m else n)
  Settles-if true m n km kn = km
  Settles-if false m n km kn = kn

  pub Settles-bind :
      {A B : Type 0} (m : Act W A) (f : A → Act W B)
      → Settles hist m
      → ((a : A) → Settles hist (f a))
      → Settles hist (m >>= f)
  unfolding ◌>>=◌
  Settles-bind m f km kf = record { at = λ st. bind-Settled hist st (m st) f (km.at st) kf }

module _ {W : Type 0} {hist : Event} (s : Service W) where
  pub Settles-leave :
      {A : Type 0} (since : ℕ) (hist' : Event) (outcome : Outcome) (why : Reason) (e : Option Error)
      → Story hist hist'
      → Agrees e outcome
      → Settles hist (leave s {A = A} since hist' outcome why e)
  unfolding leave ◌>>=◌
  Settles-leave since hist' outcome why e h agrees = record { at = λ st. (_, refl, h, agrees) }

  pub Settles-leave_as :
      {A : Type 0} (since : ℕ) (hist' : Event) (why : Reason) (e wrapped : Error)
      → Story hist hist'
      → Settles hist (leave_as s {A = A} since hist' why e wrapped)
  unfolding leave_as ◌>>=◌
  Settles-leave_as since hist' why e wrapped h = record { at = λ st. (_, refl, h, refl) }

module _ {W : Type 0} {hist : Event} (s : Service W) where
  pub Settles-require_provider :
      (since : ℕ) (hist' : Event) (name : Text)
      → Story hist hist'
      → Settles hist (require_provider s since hist' name)
  unfolding require_provider
  Settles-require_provider since hist' name h = elim (Option-cases (lookup name s.providers)) [
    | inl missing ↦ rw missing (Settles-leave s since hist' fail Reason.provider _ h refl)
    | inr (p, found) ↦ rw found (Settles-pure p)
  ]

module _ {W : Type 0} where
  ended :
      (hist : Event) (st : State W) (r : Flow ⊥ × State W)
      → Settled hist st r
      → RecordsOnce hist st (returned r.0) r.1
  ended hist st (finished e, st') h = h
  ended hist st (going a, st') h = absurd a

module _ {W : Type 0} {hist : Event} where
  -- An action that cannot run to its end records once.
  pub run_settled :
      (m : Act W ⊥)
      → Settles hist m
      → (st : State W) → RecordsOnce hist st (run m st).0 (run m st).1
  unfolding run
  run_settled m h st = ended hist st (m st) (h.at st)

pub ruleset settles_rules = (
  Settles-pure, Settles-ask, Settles-call, Settles-change, Settles-is_busy, Settles-send,
  Settles-if, Settles-bind,
)
