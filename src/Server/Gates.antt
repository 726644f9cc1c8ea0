-- ===== src/Server/Gates.antt =====
-- internal/server/console.go: the gate of `restoreHandler` on the recorded deletes.
use git_bridge.Base.{
  Text, List, [], ◌∷◌, Option, none, some, Bool, true, false, ◌||◌, not, if◌then◌else◌, ◌==◌,
  ==_iff, ◌≡◌, refl, sym, ◌⊎◌, inl, inr, any, Bool-cases, arith, has_prefix,
}
use git_bridge.Base.TextLaws.{prefixed}
use mathlib.Core.List.{Memᴰ}
use git_bridge.Errors.{Error}
use git_bridge.History.{Event, Action, Outcome, ok}
use git_bridge.Mirror.{refs_heads_prefix, refs_tags_prefix, full_ref_name}
use git_bridge.Server.{
  Reader, gate_query, is_delete, is_ok, is_matching_delete, matching_delete_exists, is_full_sha,
  Body, too_large, invalid, decoded, Request, Reply, refused_early, RestoreBody, ref_parts,
  Restorer, restored, restore_parts, tidy, actor_of, restore_body, restore_decoded, restore_request,
  restore_handler,
}

pub any_member :
    {A : Type 0} (p : A → Bool) (xs : List A) → any p xs ≡ true → (x : A) × Memᴰ x xs × (p x ≡ true)
any_member p [] h = absurd (no_member h)
  where
    no_member : false ≡ true → ⊥
    no_member e = cc
any_member p (x ∷ xs) h = elim (Bool-cases (p x)) [
  | inl here ↦ (x, Memᴰ.head refl, here)
  | inr not_here ↦
      (let (y, mem, there) = any_member p xs (ground (arith, not_here, h)) in
        (y, Memᴰ.tail mem, there))
]

-- What the history says of a delete that a restore may undo.
abbrev pub Recorded : Reader → RestoreBody → Event → Type 0
Recorded read b ev =
    Memᴰ ev (read (gate_query b.repo))
    × (ev.action ≡ Action.delete)
    × (ev.result ≡ ok)
    × (ev.to ≡ b.to)
    × (ev.ref ≡ b.ref)
    × (ev.deleted_tip ≡ b.sha)

is_delete-true : (a : Action) → is_delete a ≡ true → a ≡ Action.delete
is_delete-true Action.delete h = refl
is_delete-true Action.mirror h = cc
is_delete-true Action.restore h = cc

is_ok-true : (o : Outcome) → is_ok o ≡ true → o ≡ ok
is_ok-true ok h = refl
is_ok-true _ h = cc

matching-Recorded :
    (read : Reader) (b : RestoreBody) (ev : Event)
    → Memᴰ ev (read (gate_query b.repo))
    → is_matching_delete b.to b.ref b.sha ev ≡ true
    → Recorded read b ev
unfolding is_matching_delete
matching-Recorded read b ev mem h = (
  mem,
  is_delete-true ev.action (ground (arith, h)),
  is_ok-true ev.result (ground (arith, h)),
  ground (arith, h, ==_iff ev.to b.to),
  ground (arith, h, ==_iff ev.ref b.ref),
  ground (arith, h, ==_iff ev.deleted_tip b.sha),
)

found_delete :
    (reader : Option Reader) (b : RestoreBody)
    → matching_delete_exists reader b.repo b.to b.ref b.sha ≡ true
    → (read : Reader) × (reader ≡ some read) × ((ev : Event) × Recorded read b ev)
unfolding matching_delete_exists
found_delete none b h = absurd (none_found h)
  where
    none_found : false ≡ true → ⊥
    none_found e = cc
found_delete (some read) b h =
    let (ev, mem, matches) =
      any_member (is_matching_delete b.to b.ref b.sha) (read (gate_query b.repo)) h in
    (read, refl, (ev, matching-Recorded read b ev mem matches))

-- The parts of a ref, when it has them, name the ref.
abbrev Full : Text → Option (Text × Text) → Type 0
Full ref none = Unit
Full ref (some (ref_type, ref_name)) = full_ref_name ref_type ref_name ≡ ref

ref_parts-Full : (ref : Text) → Full ref (ref_parts ref)
unfolding ref_parts full_ref_name ◌==◌
ref_parts-Full ref = elim (Bool-cases (has_prefix ref refs_heads_prefix)) [
  | inl branch ↦ rw branch (sym (prefixed ref refs_heads_prefix branch))
  | inr other ↦ elim (Bool-cases (has_prefix ref refs_tags_prefix)) [
    | inl tag ↦ rw (other, tag) (sym (prefixed ref refs_tags_prefix tag))
    | inr neither ↦ rw (other, neither) tt
  ]
]

module _ {S : Type 0} where
  -- The state is as it was, or it is what the service's restore of this ref left, and the history
  -- records the delete.
  abbrev pub Undoes : Restorer S → Option Reader → Text → RestoreBody → S → Reply × S → Type 0
  Undoes restore reader actor b st out =
      (out.1 ≡ st)
      ⊎ ((read : Reader) × (ev : Event) × (ref_type : Text) × (ref_name : Text) × (reader
            ≡ some read)
          × Recorded read b ev
          × (is_full_sha b.sha ≡ true)
          × (full_ref_name ref_type ref_name ≡ b.ref)
          × (out.1 ≡ (restore b.repo b.to ref_type ref_name b.sha actor st).1))

  Undoes-if :
      (restore : Restorer S) (reader : Option Reader) (actor : Text) (b : RestoreBody) (st : S)
      (test : Bool) (x y : Reply × S)
      → (test ≡ true → Undoes restore reader actor b st x)
      → (test ≡ false → Undoes restore reader actor b st y)
      → Undoes restore reader actor b st (if test then x else y)
  Undoes-if restore reader actor b st true x y h k = h refl
  Undoes-if restore reader actor b st false x y h k = k refl

  restored-state : (b : RestoreBody) (r : Option Error × S) → (restored b r).1 ≡ r.1
  unfolding restored
  restored-state b (none, st) = refl
  restored-state b (some e, st) = refl

  restore_parts-Undoes :
      (restore : Restorer S) (reader : Option Reader) (actor : Text) (b : RestoreBody)
      (parts : Option (Text × Text)) (st : S)
      → is_full_sha b.sha ≡ true
      → Full b.ref parts
      → Undoes restore reader actor b st (restore_parts restore reader actor b parts st)
  unfolding restore_parts
  restore_parts-Undoes restore reader actor b none st sha full = inl refl
  restore_parts-Undoes restore reader actor b (some (ref_type, ref_name)) st sha full =
      elim (Bool-cases (ref_name == [])) [
        | inl empty ↦ rw empty (inl refl)
        | inr named ↦ elim (Bool-cases (matching_delete_exists reader b.repo b.to b.ref b.sha)) [
          | inr missing ↦ rw (named, missing) (inl refl)
          | inl there ↦
              (let (read, is_read, (ev, recorded)) = found_delete reader b there in
                rw (named, there)
                  (inr (
                    read,
                    ev,
                    ref_type,
                    ref_name,
                    is_read,
                    recorded,
                    sha,
                    full,
                    restored-state b (restore b.repo b.to ref_type ref_name b.sha actor st),
                  )))
        ]
      ]

  restore_body-Undoes :
      (restore : Restorer S) (reader : Option Reader) (actor : Text) (b : RestoreBody) (st : S)
      → Undoes restore reader actor b st (restore_body restore reader actor b st)
  unfolding restore_body
  restore_body-Undoes restore reader actor b st =
      Undoes-if restore reader actor b st (b.repo == [] || b.to == []) _ _ (λ blank. inl refl)
        λ given.
          Undoes-if restore reader actor b st (not (is_full_sha b.sha)) _ _ (λ short. inl refl)
            λ sha.
              restore_parts-Undoes restore reader actor b (ref_parts b.ref) st (ground (arith, sha))
                (ref_parts-Full b.ref)

  -- What a request that was decoded may do; one that was not changes nothing.
  abbrev pub Answered :
      Restorer S → Option Reader → Text → Body RestoreBody → S → Reply × S → Type 0
  Answered restore reader user too_large st out = out.1 ≡ st
  Answered restore reader user invalid st out = out.1 ≡ st
  Answered restore reader user (decoded b) st out =
      Undoes restore reader (actor_of user) (tidy b) st out

  unchanged-Answered :
      (restore : Restorer S) (reader : Option Reader) (user : Text) (body : Body RestoreBody)
      (st : S) (reply : Reply)
      → Answered restore reader user body st (reply, st)
  unchanged-Answered restore reader user too_large st reply = refl
  unchanged-Answered restore reader user invalid st reply = refl
  unchanged-Answered restore reader user (decoded b) st reply = inl refl

  restore_decoded-Answered :
      (restore : Restorer S) (reader : Option Reader) (user : Text) (body : Body RestoreBody)
      (st : S)
      → Answered restore reader user body st (restore_decoded restore reader user body st)
  unfolding restore_decoded
  restore_decoded-Answered restore reader user too_large st = refl
  restore_decoded-Answered restore reader user invalid st = refl
  restore_decoded-Answered restore reader user (decoded b) st =
      restore_body-Undoes restore reader (actor_of user) (tidy b) st

  restore_request-Answered :
      (restore : Restorer S) (reader : Option Reader) (r : Request RestoreBody)
      (early : Option Reply) (st : S)
      → Answered restore reader r.auth_user r.body st (restore_request restore reader r early st)
  unfolding restore_request
  restore_request-Answered restore reader r (some reply) st =
      unchanged-Answered restore reader r.auth_user r.body st reply
  restore_request-Answered restore reader r none st =
      restore_decoded-Answered restore reader r.auth_user r.body st

  -- A request to the restore route either changes nothing, or hands the service a restore of the branch
  -- or tag that it names, at a full commit name, for which the history that the console shows records a
  -- successful delete of this ref, at this commit, from this destination. A body that could not be
  -- decoded changes nothing.
  pub restore_handler-Answered :
      (restore : Restorer S) (reader : Option Reader) (r : Request RestoreBody) (st : S)
      → Answered restore reader r.auth_user r.body st (restore_handler (some restore) reader r st)
  unfolding restore_handler
  restore_handler-Answered restore reader r st =
      restore_request-Answered restore reader r (refused_early r) st
