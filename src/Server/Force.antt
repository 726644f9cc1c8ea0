-- ===== src/Server/Force.antt =====
-- internal/server/console.go, `forceHandler`: the route that finishes a push which the guard withheld.
-- The push itself runs on the task group after the reply; what is handed to it is the result here.
use git_bridge.Base.{
  not-false, Text, [], ◌∷◌, Option, none, some, Bool, true, false, ◌&&◌, ◌||◌, not, if◌then◌else◌,
  lit, ◌==◌, ==_iff, ◌≡◌, refl, any, Bool-cases, inl, inr, trim_space, arith,
}
use mathlib.Core.Path.{subst}
use mathlib.Core.List.{Memᴰ}
use git_bridge.History.{Event, HeldRef}
use git_bridge.Server.{
  Reader, gate_query, Body, too_large, invalid, decoded, Request, Reply, fault, refused_early,
}
use git_bridge.Server.Gates.{any_member}

-- A hold of this ref at this tip, on this destination.
unfoldable pub is_matching_hold : Text → Text → Text → Event → Bool
is_matching_hold to ref dest ev = ev.to == to && any (λ h. h.ref == ref && h.dest == dest) ev.held

-- `matchingHoldExists`
unfoldable pub matching_hold_exists : Option Reader → Text → Text → Text → Text → Bool
matching_hold_exists none repo to ref dest = false
matching_hold_exists (some read) repo to ref dest =
    any (is_matching_hold to ref dest) (read (gate_query repo))

pub record ForceBody : Type 0 where
  pub repo : Text
  pub to : Text
  pub ref : Text
  pub dest : Text

abbrev pub ForceClick : Type 0
ForceClick = Request ForceBody

-- The arguments of the `ForcePush` that the task runs.
pub record ForceCall : Type 0 where
  pub repo : Text
  pub to : Text
  pub ref : Text
  pub dest : Text
  pub actor : Text

abbrev pub call_of : Text → ForceBody → ForceCall
call_of user b = record {
  repo = trim_space b.repo;
  to = trim_space b.to;
  ref = trim_space b.ref;
  dest = trim_space b.dest;
  actor = trim_space user;
}

accepted : ForceCall → Reply
accepted c = record {
  status = 202;
  fields = (lit "status", lit "accepted") ∷ (lit "repo", c.repo) ∷ (lit "ref", c.ref) ∷ [];
}

abbrev incomplete : ForceCall → Bool
incomplete c = c.repo == [] || (c.to == [] || (c.ref == [] || c.dest == []))

abbrev fields_missing : Reply
fields_missing = fault 400 (lit "repo, to, ref and dest are required")

abbrev no_hold : Reply
no_hold =
    fault 409
      (lit "no withheld push recorded for that ref at that tip — it may have already resolved")

-- The check against the history, and what it lets through.
held_or_refused : Option Reader → ForceCall → Reply × Option ForceCall
unfolding accepted
held_or_refused reader c =
    if not (matching_hold_exists reader c.repo c.to c.ref c.dest)
    then (no_hold, none)
    else (accepted c, some c)

force_checked : Option Reader → ForceCall → Reply × Option ForceCall
unfolding held_or_refused
force_checked reader c = if incomplete c then (fields_missing, none) else held_or_refused reader c

force_decoded : Option Reader → Text → Body ForceBody → Reply × Option ForceCall
unfolding force_checked
force_decoded reader user too_large = (fault 413 (lit "payload too large"), none)
force_decoded reader user invalid = (fault 400 (lit "invalid json"), none)
force_decoded reader user (decoded b) = force_checked reader (call_of user b)

force_request : Option Reader → Request ForceBody → Option Reply → Reply × Option ForceCall
unfolding force_decoded
force_request reader r (some early) = (early, none)
force_request reader r none = force_decoded reader r.auth_user r.body

-- `forceHandler`; `has_forcer` is `forcer != nil`
unfoldable pub force_handler : Bool → Option Reader → Request ForceBody → Reply × Option ForceCall
unfolding force_request
force_handler has_forcer reader r =
    if has_forcer
    then force_request reader r (refused_early r)
    else (record { status = 404; fields = [] }, none)

-- The history records that the guard withheld this ref at this tip, on this destination.
abbrev pub Withheld : Option Reader → ForceCall → Type 0
Withheld reader c =
    (read : Reader) × (ev : Event) × (h : HeldRef) × (reader ≡ some read)
    × Memᴰ ev (read (gate_query c.repo))
    × (ev.to ≡ c.to)
    × Memᴰ h ev.held
    × (h.ref ≡ c.ref)
    × (h.dest ≡ c.dest)

-- What is handed over, if anything, is a push that was withheld.
abbrev Sanctioned : Option Reader → Option ForceCall → Type 0
Sanctioned reader none = Unit
Sanctioned reader (some c) = Withheld reader c

hold_found :
    (reader : Option Reader) (c : ForceCall)
    → matching_hold_exists reader c.repo c.to c.ref c.dest ≡ true
    → Withheld reader c
unfolding matching_hold_exists is_matching_hold
hold_found none c h = absurd (none_found h)
  where
    none_found : false ≡ true → ⊥
    none_found e = cc
hold_found (some read) c h =
    let (ev, mem, matches) =
      any_member (is_matching_hold c.to c.ref c.dest) (read (gate_query c.repo)) h in
    let (held, among, same) =
      any_member (λ x. x.ref == c.ref && x.dest == c.dest) ev.held (ground (arith, matches)) in
    (
      read,
      ev,
      held,
      refl,
      mem,
      ground (arith, matches, ==_iff ev.to c.to),
      among,
      ground (arith, same, ==_iff held.ref c.ref),
      ground (arith, same, ==_iff held.dest c.dest),
    )

Sanctioned-if :
    (reader : Option Reader) (test : Bool) (x y : Reply × Option ForceCall)
    → (test ≡ true → Sanctioned reader x.1)
    → (test ≡ false → Sanctioned reader y.1)
    → Sanctioned reader (if test then x else y).1
Sanctioned-if reader true x y h k = h refl
Sanctioned-if reader false x y h k = k refl

held_or_refused-Sanctioned :
    (reader : Option Reader) (c : ForceCall) → Sanctioned reader (held_or_refused reader c).1
unfolding held_or_refused
held_or_refused-Sanctioned reader c =
    Sanctioned-if reader (not (matching_hold_exists reader c.repo c.to c.ref c.dest))
      (no_hold, none) (accepted c, some c) (λ missing. tt)
      λ there. hold_found reader c (not-false _ there)

force_checked-Sanctioned :
    (reader : Option Reader) (c : ForceCall) → Sanctioned reader (force_checked reader c).1
unfolding force_checked
force_checked-Sanctioned reader c =
    Sanctioned-if reader (incomplete c) (fields_missing, none) (held_or_refused reader c)
      (λ blank. tt) λ given. held_or_refused-Sanctioned reader c

force_decoded-Sanctioned :
    (reader : Option Reader) (user : Text) (body : Body ForceBody)
    → Sanctioned reader (force_decoded reader user body).1
unfolding force_decoded
force_decoded-Sanctioned reader user too_large = tt
force_decoded-Sanctioned reader user invalid = tt
force_decoded-Sanctioned reader user (decoded b) = force_checked-Sanctioned reader (call_of user b)

force_request-Sanctioned :
    (reader : Option Reader) (r : Request ForceBody) (early : Option Reply)
    → Sanctioned reader (force_request reader r early).1
unfolding force_request
force_request-Sanctioned reader r (some reply) = tt
force_request-Sanctioned reader r none = force_decoded-Sanctioned reader r.auth_user r.body

-- Every forced push that the console hands to the service finishes one that was withheld: the history
-- that the console shows records a hold of this ref, at this tip, on this destination.
pub force_handler-Withheld :
    (has_forcer : Bool) (reader : Option Reader) (r : Request ForceBody) (c : ForceCall)
    → (force_handler has_forcer reader r).1 ≡ some c
    → Withheld reader c
unfolding force_handler
force_handler-Withheld has_forcer reader r c handed =
    let sanctioned : Sanctioned reader (force_handler has_forcer reader r).1 =
      Sanctioned-if reader has_forcer (force_request reader r (refused_early r))
        (record { status = 404; fields = [] }, none)
        (λ on. force_request-Sanctioned reader r (refused_early r)) (λ off. tt) in
    subst (Sanctioned reader) handed sanctioned

-- What is handed over names its repository, its destination, its ref and the tip there.
abbrev pub IsComplete : Option ForceCall → Type 0
IsComplete none = Unit
IsComplete (some c) = (c.ref == [] ≡ false) × (c.dest == [] ≡ false)

checked-IsComplete :
    (reader : Option Reader) (c : ForceCall) → IsComplete (force_checked reader c).1
unfolding force_checked held_or_refused
checked-IsComplete reader c = elim (Bool-cases (incomplete c)) [
  | inl blank ↦ rw blank tt
  | inr filled ↦
      rw filled (elim (Bool-cases (matching_hold_exists reader c.repo c.to c.ref c.dest)) [
        | inl held ↦ rw held (ground (arith, filled), ground (arith, filled))
        | inr free ↦ rw free tt
      ])
]

decoded-IsComplete :
    (reader : Option Reader) (user : Text) (body : Body ForceBody)
    → IsComplete (force_decoded reader user body).1
unfolding force_decoded
decoded-IsComplete reader user too_large = tt
decoded-IsComplete reader user invalid = tt
decoded-IsComplete reader user (decoded b) = checked-IsComplete reader (call_of user b)

request-IsComplete :
    (reader : Option Reader) (r : Request ForceBody) (early : Option Reply)
    → IsComplete (force_request reader r early).1
unfolding force_request
request-IsComplete reader r (some reply) = tt
request-IsComplete reader r none = decoded-IsComplete reader r.auth_user r.body

pub force_handler-IsComplete :
    (has_forcer : Bool) (reader : Option Reader) (r : Request ForceBody)
    → IsComplete (force_handler has_forcer reader r).1
unfolding force_handler
force_handler-IsComplete true reader r = request-IsComplete reader r (refused_early r)
force_handler-IsComplete false reader r = tt
