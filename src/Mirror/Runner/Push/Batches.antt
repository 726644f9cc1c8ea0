-- ===== src/Mirror/Runner/Push/Batches.antt =====
-- internal/mirror/mirror.go, `PushMirror`: the batches that a push is cut into, and what becomes of them.
use git_bridge.Base.{
  Text, ℕ, zero, suc, ◌≤◌, ◌<◌, List, [], ◌∷◌, ◌++◌, Bool, true, false, ◌||◌, take, drop, length,
  length-drop, length-take, take-append-drop, append_assoc, append-nil, lit, ◌≡◌, refl, sym, ap,
  ◌∙◌, ◌⊎◌, inl, inr, arith, All,
}
use mathlib.Core.Path.{subst}
use git_bridge.History.{ForcedRef}
use git_bridge.Errors.{Error, Result, value, failed}
use git_bridge.Mirror.Git.{PushSpec, PushResult}
use git_bridge.Mirror.Runner.{no_change}
use git_bridge.Mirror.Runner.Push.{
  Host, Exec, git_remote_env, push_line, spec_args, push_read, run_push, push_batch, joined,
  after_batch, push_loop, push_mirror,
}
use git_bridge.Provider.{Remote}

abbrev pub flat {ℓ} : {A : Type ℓ} → List (List A) → List A
flat [] = []
flat (b ∷ bs) = b ++ flat bs

-- A batch is not empty and fits a command line.
abbrev pub Fits : List PushSpec → Type 0
Fits batch = (0 < length batch) × (length batch ≤ 500)

-- Each ref with its lease and without a plus.
abbrev pub leased_refs : List PushSpec → List Text
leased_refs [] = []
leased_refs (s ∷ ss) =
    ((lit "--force-with-lease=" ++ (s.ref ++ (lit ":" ++ s.lease))) ∷ [])
    ++ ((s.ref ++ (lit ":" ++ s.ref)) ∷ [])
    ++ leased_refs ss

spec_args-leased_refs : (specs : List PushSpec) → spec_args specs ≡ leased_refs specs
unfolding spec_args
spec_args-leased_refs [] = refl
spec_args-leased_refs (s ∷ ss) =
    ap
      (λ rest.
        (lit "--force-with-lease=" ++ (s.ref ++ (lit ":" ++ s.lease)))
        ∷ (s.ref ++ (lit ":" ++ s.ref))
        ∷ rest)
      (spec_args-leased_refs ss)

-- What the batches have done together.
abbrev pub any_changed : List PushResult → Bool
any_changed [] = false
any_changed (r ∷ rs) = r.changed || any_changed rs

abbrev pub all_forced : List PushResult → List ForcedRef
all_forced [] = []
all_forced (r ∷ rs) = r.forced ++ all_forced rs

abbrev pub all_rejected : List PushResult → List Text
all_rejected [] = []
all_rejected (r ∷ rs) = r.rejected ++ all_rejected rs

abbrev pub together : List PushResult → PushResult
together rs = record {
  changed = any_changed rs;
  forced = all_forced rs;
  rejected = all_rejected rs;
}

-- The result so far with these.
added : PushResult → List PushResult → PushResult
added res rs = record {
  changed = res.changed || any_changed rs;
  forced = res.forced ++ all_forced rs;
  rejected = res.rejected ++ all_rejected rs;
}

added-cons :
    (res r : PushResult) (rs : List PushResult) → added (joined res r) rs ≡ added res (r ∷ rs)
unfolding added
added-cons res r rs = λ i. record {
  changed = or_assoc res.changed r.changed (any_changed rs) i;
  forced = append_assoc res.forced r.forced (all_forced rs) i;
  rejected = append_assoc res.rejected r.rejected (all_rejected rs) i;
}
  where
    or_assoc : (a b c : Bool) → ((a || b) || c) ≡ (a || (b || c))
    or_assoc true b c = refl
    or_assoc false b c = refl

added-nil : (res : PushResult) → added res [] ≡ res
unfolding added
added-nil res = λ i. record {
  changed = or_nothing res.changed i;
  forced = append-nil res.forced i;
  rejected = append-nil res.rejected i;
}
  where
    or_nothing : (a : Bool) → (a || false) ≡ a
    or_nothing true = refl
    or_nothing false = refl

module _ {W : Type 0} (h : Host W) (dir : Text) (rem : Remote) where
  -- One run of `git push` with these refs and no others, from one world to the next, which is read to this.
  pub record Ran (batch : List PushSpec) (w : W) (res : Result PushResult) (w' : W) : Type 0 where
    pub out : Exec
    pub runs :
        h.run_git (push_line dir rem (rem.url ∷ leased_refs batch)) (git_remote_env h rem) w
        ≡ (out, w')
    pub reads : push_read (lit "push refs") out out.err ≡ res

  -- Batches that are pushed one after the other, all of them without an error.
  pub data Pushed : List (List PushSpec) → W → List PushResult → W → Type 0 where
    all_pushed : (w : W) → Pushed [] w [] w
    one_pushed :
        (b : List PushSpec) (bs : List (List PushSpec)) (r : PushResult) (rs : List PushResult)
        (w w' w'' : W)
        → Ran b w (value r) w'
        → Pushed bs w' rs w''
        → Pushed (b ∷ bs) w (r ∷ rs) w''

  -- All batches are pushed, and that is the result together with what was before; or a batch fails after
  -- those before it, and the ones after it are not pushed.
  abbrev pub Ends :
      List (List PushSpec) → (List PushResult → PushResult) → W → Result PushResult × W → Type 0
  Ends bs total w end =
      ((rs : List PushResult) × (w' : W) × Pushed bs w rs w' × (end ≡ (value (total rs), w')))
      ⊎ ((before after : List (List PushSpec)) × (b : List PushSpec) × (rs : List PushResult) × (w'
            w'' : W)
          × (e : Error) × (bs ≡ before ++ (b ∷ after))
          × Pushed before w rs w'
          × Ran b w' (failed e) w''
          × (end ≡ (failed e, w'')))

  after_batch-Ends :
      (b : List PushSpec) (bs : List (List PushSpec))
      (next : PushResult → W → Result PushResult × W) (res : PushResult) (w : W)
      (r : Result PushResult) (w' : W)
      → Ran b w r w'
      → ((res' : PushResult) → Ends bs (added res') w' (next res' w'))
      → Ends (b ∷ bs) (added res) w (after_batch next res (r, w'))
  after_batch-Ends b bs next res w (failed e) w' ran later =
      inr ([], bs, b, [], w, w', e, refl, all_pushed w, ran, refl)
  after_batch-Ends b bs next res w (value r) w' ran later = elim (later (joined res r)) [
    | inl (rs, w'', pushed, end) ↦ inl (
      r ∷ rs,
      w'',
      one_pushed b bs r rs w w' w'' ran pushed,
      end ∙ ap (λ t. (value t, w'')) (added-cons res r rs),
    )
    | inr (before, after, c, rs, w₁, w₂, e, split, pushed, stuck, end) ↦ inr (
      b ∷ before,
      after,
      c,
      r ∷ rs,
      w₁,
      w₂,
      e,
      ap (λ l. b ∷ l) split,
      one_pushed b before r rs w w' w₁ ran pushed,
      stuck,
      end,
    )
  ]

  batch-Ran :
      (b : List PushSpec) (w : W)
      → Ran b w (push_batch h dir rem b w).0 (push_batch h dir rem b w).1
  unfolding push_batch run_push
  batch-Ran b w =
      let run = λ (args : List Text). run_push h dir rem (lit "push refs") (rem.url ∷ args) w in
      let leased : Ran b w (run (leased_refs b)).0 (run (leased_refs b)).1 = record {
        out = _;
        runs = refl;
        reads = refl;
      } in
      subst (λ args. Ran b w (run args).0 (run args).1) (sym (spec_args-leased_refs b)) leased

  -- The batches: 500 refs each, and the last what is left.
  batches_of : ℕ → List PushSpec → List (List PushSpec)
  batches_of zero specs = []
  batches_of (suc fuel) [] = []
  batches_of (suc fuel) (s ∷ ss) = take 500 (s ∷ ss) ∷ batches_of fuel (drop 500 (s ∷ ss))

  flat-batches_of :
      (fuel : ℕ) (specs : List PushSpec)
      → length specs ≤ fuel
      → flat (batches_of fuel specs) ≡ specs
  unfolding batches_of
  flat-batches_of zero [] le = refl
  flat-batches_of zero (s ∷ ss) le = absurd (omega arith)
  flat-batches_of (suc fuel) [] le = refl
  flat-batches_of (suc fuel) (s ∷ ss) le =
      ap (λ l. take 500 (s ∷ ss) ++ l)
        (flat-batches_of fuel (drop 500 (s ∷ ss)) (omega (arith, length-drop 500 (s ∷ ss))))
      ∙ take-append-drop 500 (s ∷ ss)

  batches_of-Fits : (fuel : ℕ) (specs : List PushSpec) → All Fits (batches_of fuel specs)
  unfolding batches_of
  batches_of-Fits zero specs = tt
  batches_of-Fits (suc fuel) [] = tt
  batches_of-Fits (suc fuel) (s ∷ ss) = (
    (omega (arith, length-take 500 (s ∷ ss)), omega (arith, length-take 500 (s ∷ ss))),
    batches_of-Fits fuel (drop 500 (s ∷ ss)),
  )

  push_loop-Ends :
      (fuel : ℕ) (specs : List PushSpec) (res : PushResult) (w : W)
      → Ends (batches_of fuel specs) (added res) w (push_loop h dir rem fuel specs res w)
  unfolding push_loop batches_of
  push_loop-Ends zero specs res w =
      inl ([], w, all_pushed w, ap (λ t. (value t, w)) (sym (added-nil res)))
  push_loop-Ends (suc fuel) [] res w =
      inl ([], w, all_pushed w, ap (λ t. (value t, w)) (sym (added-nil res)))
  push_loop-Ends (suc fuel) (s ∷ ss) res w =
      let batch = take 500 (s ∷ ss) in
      let ran = push_batch h dir rem batch w in
      after_batch-Ends batch (batches_of fuel (drop 500 (s ∷ ss)))
        (push_loop h dir rem fuel (drop 500 (s ∷ ss))) res w ran.0 ran.1 (batch-Ran batch w)
        (λ res'. push_loop-Ends fuel (drop 500 (s ∷ ss)) res' ran.1)

  -- `PushMirror` cuts the refs into batches of 1 to 500, in order, each ref in one batch, and ends in
  -- one of two ways. All batches have been pushed, one run of `git push` each with exactly its refs under
  -- their leases; then the result is that something has changed if a batch has changed something, and
  -- all forced updates and refusals of the batches in their order. Or a batch has failed after those
  -- before it were pushed; then its error is returned, and no later batch is run.
  pub push_mirror-batches :
      (specs : List PushSpec)
      → (batches : List (List PushSpec)) × (flat batches ≡ specs)
        × All Fits batches
        × ((w : W) → Ends batches together w (push_mirror h dir rem specs w))
  unfolding push_mirror added
  push_mirror-batches specs = (
    batches_of (length specs) specs,
    flat-batches_of (length specs) specs (omega arith),
    batches_of-Fits (length specs) specs,
    λ w. push_loop-Ends (length specs) specs no_change w,
  )
