-- ===== src/Mirror/Preserves.antt =====
-- What a method can do to the world: a property of the world that git's reads and the upkeep of the
-- mirror directory respect is kept by every action made of them.
use git_bridge.Base.{
  Text, ℕ, Option, some, Bool, true, false, ◌≡◌, refl, ap, if◌then◌else◌, Option-cases, inl, inr,
  lookup,
}
use git_bridge.Errors.{Error}
use git_bridge.History.{Event, Outcome, Reason}
use git_bridge.Notify.{Message}
use git_bridge.Provider.{Remote, Provider}
use git_bridge.Mirror.Git.{Git}
use git_bridge.Mirror.Flow.{
  Service, State, Act, Flow, finished, going, continue, ◌>>=◌, pure, ask, call, is_busy,
  send_message, finally,
}
use git_bridge.Mirror.Steps.{leave, leave_as, require_provider}

-- The property holds on after everything the service asks of git, except for the three that write
-- to a destination (`push_mirror`, `delete_ref` and `create_ref`).
pub record Upkeep {W : Type 0} (g : Git W) (Inv : W → Type 0) : Type 0 where
  pub clone_mirror : (rem : Remote) (dir : Text) (w : W) → Inv w → Inv (g.clone_mirror rem dir w).1
  pub fetch_mirror : (rem : Remote) (dir : Text) (w : W) → Inv w → Inv (g.fetch_mirror rem dir w).1
  pub remote_refs : (rem : Remote) (w : W) → Inv w → Inv (g.remote_refs rem w).1
  pub ref_tip :
      (rem : Remote) (ref_type ref_name : Text) (w : W)
      → Inv w
      → Inv (g.ref_tip rem ref_type ref_name w).1
  pub ensure_bare_dir : (dir : Text) (w : W) → Inv w → Inv (g.ensure_bare_dir dir w).1
  pub fetch_object :
      (dir : Text) (rem : Remote) (sha : Text) (w : W)
      → Inv w
      → Inv (g.fetch_object dir rem sha w).1
  pub gc_auto : (dir : Text) (w : W) → Inv w → Inv (g.gc_auto dir w).1
  pub sanitize_cache :
      (dir : Text) (rem : Remote) (w : W) → Inv w → Inv (g.sanitize_cache dir rem w).1
  pub rename : (old new : Text) (w : W) → Inv w → Inv (g.rename old new w).1
  pub remove_all : (dir : Text) (w : W) → Inv w → Inv (g.remove_all dir w)

module _ {W : Type 0} (Inv : W → Type 0) where
  pub record Preserves {A : Type 0} (m : Act W A) : Type 0 where
    pub at : (st : State W) → Inv st.world → Inv (m st).1.world

module _ {W : Type 0} {Inv : W → Type 0} where
  pub Preserves-pure : {A : Type 0} (a : A) → Preserves Inv (pure a)
  unfolding pure
  Preserves-pure a = record { at = λ st h. h }

  pub Preserves-ask : {A : Type 0} (f : W → A) → Preserves Inv (ask f)
  unfolding ask
  Preserves-ask f = record { at = λ st h. h }

  pub Preserves-call :
      {A : Type 0} (f : W → A × W) → ((w : W) → Inv w → Inv (f w).1) → Preserves Inv (call f)
  unfolding call
  Preserves-call f keeps = record { at = λ st h. keeps st.world h }

  pub Preserves-is_busy : (t : Text) → Preserves Inv (is_busy t)
  unfolding is_busy
  Preserves-is_busy t = record { at = λ st h. h }

  pub Preserves-send : (m : Message) → Preserves Inv (send_message m)
  unfolding send_message
  Preserves-send m = record { at = λ st h. h }

  pub Preserves-finally :
      {A : Type 0} (m : Act W A) (cleanup : W → W)
      → ((w : W) → Inv w → Inv (cleanup w))
      → Preserves Inv m
      → Preserves Inv (finally m cleanup)
  unfolding finally
  Preserves-finally m cleanup keeps h = record { at = λ st k. keeps (m st).1.world (h.at st k) }

  pub Preserves-if :
      {A : Type 0} (b : Bool) (m n : Act W A)
      → Preserves Inv m
      → Preserves Inv n
      → Preserves Inv (if b then m else n)
  Preserves-if true m n km kn = km
  Preserves-if false m n km kn = kn

  continued :
      {A B : Type 0} (r : Flow A) (st : State W) (f : A → Act W B)
      → Inv st.world
      → ((a : A) → Preserves Inv (f a))
      → Inv (continue r f st).1.world
  continued (finished e) st f h kf = h
  continued (going a) st f h kf = (kf a).at st h

  pub Preserves-bind :
      {A B : Type 0} (m : Act W A) (f : A → Act W B)
      → Preserves Inv m
      → ((a : A) → Preserves Inv (f a))
      → Preserves Inv (m >>= f)
  unfolding ◌>>=◌
  Preserves-bind m f km kf = record { at = λ st h. continued (m st).0 (m st).1 f (km.at st h) kf }

  pub Preserves-leave :
      {A : Type 0} (s : Service W) (since : ℕ) (hist : Event) (outcome : Outcome) (why : Reason)
      (e : Option Error)
      → Preserves Inv (leave s {A = A} since hist outcome why e)
  unfolding leave ◌>>=◌
  Preserves-leave s since hist outcome why e = record { at = λ st h. h }

  -- Nothing runs after a return.
  pub Preserves-leave_bind :
      {A B : Type 0} (s : Service W) (since : ℕ) (hist : Event) (outcome : Outcome) (why : Reason)
      (e : Option Error) (k : A → Act W B)
      → Preserves Inv (leave s since hist outcome why e >>= k)
  unfolding leave ◌>>=◌
  Preserves-leave_bind s since hist outcome why e k = record { at = λ st h. h }

  pub Preserves-leave_as :
      {A : Type 0} (s : Service W) (since : ℕ) (hist : Event) (why : Reason) (e wrapped : Error)
      → Preserves Inv (leave_as s {A = A} since hist why e wrapped)
  unfolding leave_as ◌>>=◌
  Preserves-leave_as s since hist why e wrapped = record { at = λ st h. h }

module _ {W : Type 0} {Inv : W → Type 0} where
  -- What follows a provider's lookup may count on the provider's being the one that was found.
  pub Preserves-require_provider :
      {A : Type 0} (s : Service W) (since : ℕ) (hist : Event) (name : Text) (k : Provider → Act W A)
      → ((p : Provider) → lookup name s.providers ≡ some p → Preserves Inv (k p))
      → Preserves Inv (require_provider s since hist name >>= k)
  unfolding require_provider ◌>>=◌
  Preserves-require_provider s since hist name k next =
      elim (Option-cases (lookup name s.providers)) [
        | inl missing ↦ rw missing (Preserves-leave_bind s since hist _ _ _ k)
        | inr (p, found) ↦ rw found (record { at = (next p found).at })
      ]

-- From every world of which `P` holds, the action leaves one of which `Q` holds.
module _ {W : Type 0} (P Q : W → Type 0) where
  pub record Leads {A : Type 0} (m : Act W A) : Type 0 where
    pub at : (st : State W) → P st.world → Q (m st).1.world

module _ {W : Type 0} {P Q : W → Type 0} where
  pub Leads-kept : {A : Type 0} (m : Act W A) → ((w : W) → P w → Q w) → Preserves Q m → Leads P Q m
  Leads-kept m weaken k = record { at = λ st h. k.at st (weaken st.world h) }

  pub Leads-from :
      {A : Type 0} {P' : W → Type 0} (m : Act W A)
      → ((w : W) → P w → P' w)
      → Leads P' Q m
      → Leads P Q m
  Leads-from m weaken k = record { at = λ st h. k.at st (weaken st.world h) }

  pub Leads-if :
      {A : Type 0} (b : Bool) (m n : Act W A)
      → (b ≡ true → Leads P Q m)
      → (b ≡ false → Leads P Q n)
      → Leads P Q (if b then m else n)
  Leads-if true m n km kn = km refl
  Leads-if false m n km kn = kn refl

  pub Leads-call :
      {A B : Type 0} (f : W → A × W) (k : A → Act W B)
      → ((a : A) → Leads (λ w'. (w : W) × (f w ≡ (a, w')) × P w) Q (k a))
      → Leads P Q (call f >>= k)
  unfolding ◌>>=◌ call
  Leads-call f k next = record {
    at =
        λ st h. (next (f st.world).0).at (record st { world = (f st.world).1 }) (st.world, refl, h);
  }

  pub Leads-ask :
      {A B : Type 0} (f : W → A) (k : A → Act W B)
      → ((a : A) → Leads (λ w. (f w ≡ a) × P w) Q (k a))
      → Leads P Q (ask f >>= k)
  unfolding ◌>>=◌ ask
  Leads-ask f k next = record { at = λ st h. (next (f st.world)).at st (refl, h) }

  leads_on :
      {A B : Type 0} (r : Flow A) (st : State W) (k : A → Act W B)
      → ((w : W) → P w → Q w)
      → P st.world
      → ((a : A) → Leads P Q (k a))
      → Q (continue r k st).1.world
  leads_on (finished e) st k ends h next = ends st.world h
  leads_on (going a) st k ends h next = (next a).at st h

  pub Leads-bind :
      {A B : Type 0} (m : Act W A) (k : A → Act W B)
      → ((w : W) → P w → Q w)
      → Preserves P m
      → ((a : A) → Leads P Q (k a))
      → Leads P Q (m >>= k)
  unfolding ◌>>=◌
  Leads-bind m k ends km next = record {
    at = λ st h. leads_on (m st).0 (m st).1 k ends (km.at st h) next;
  }

module _ {W A : Type 0} where
  -- What holds after a call holds of the world that the call returned.
  pub returned_world : (Inv : W → Type 0) (r : A × W) (a : A) (w : W) → r ≡ (a, w) → Inv r.1 → Inv w
  returned_world Inv r a w e h = rw (← ap (λ x. x.1) e) h

pub ruleset preserves_rules = (
  Preserves-pure, Preserves-ask, Preserves-call, Preserves-is_busy, Preserves-send, Preserves-if,
  Preserves-bind, Preserves-leave, Preserves-leave_as,
)
