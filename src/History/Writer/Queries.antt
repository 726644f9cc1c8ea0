-- ===== src/History/Writer/Queries.antt =====
-- internal/history/history.go: the filters of `Recent`.
use git_bridge.Base.{
  ℕ, zero, suc, ◌≡◌, refl, ◌≢◌, ◌⊎◌, ◌↔◌, List, [], ◌∷◌, Bool, true, false, arith, keep, take,
  reverse, ==_iff, Bool-cases, inl, inr, not, All,
}
use git_bridge.History.{Event, Outcome, fail, skip, already_up_to_date, is_forced}
use git_bridge.History.Writer.{
  Writer, Query, recent, recent_loop, passed_over, is_fail, is_routine_noop,
}

-- What a query asks of an event, field by field.
pub record Wanted (q : Query) (ev : Event) : Type 0 where
  pub failures : q.failures_only ≡ true → ev.result ≡ fail
  pub forced : q.forced_only ≡ true → is_forced ev ≡ true
  pub repo : (q.repo ≡ []) ⊎ (ev.repo ≡ q.repo)
  pub source : (q.source ≡ []) ⊎ (ev.source ≡ q.source)
  pub routine :
      (q.routine_source ≡ [])
      ⊎ (ev.source ≢ q.routine_source)
      ⊎ (ev.result ≢ skip)
      ⊎ (ev.reason ≢ already_up_to_date)

is_fail_iff : (o : Outcome) → (is_fail o ≡ true) ↔ (o ≡ fail)
is_fail_iff fail = ground arith
is_fail_iff _ = ground arith

passed_over_iff : (q : Query) (ev : Event) → (passed_over q ev ≡ false) ↔ Wanted q ev
unfolding passed_over is_routine_noop
passed_over_iff q ev = (
  λ h. record {
    failures = ground (arith, is_fail_iff ev.result);
    forced = ground arith;
    repo = ground (arith, ==_iff q.repo [], ==_iff ev.repo q.repo);
    source = ground (arith, ==_iff q.source [], ==_iff ev.source q.source);
    routine = ground (arith, ==_iff q.routine_source [], ==_iff ev.source q.routine_source);
  },
  λ h. ground (
    arith,
    is_fail_iff ev.result,
    ==_iff q.repo [],
    ==_iff ev.repo q.repo,
    ==_iff q.source [],
    ==_iff ev.source q.source,
    ==_iff q.routine_source [],
    ==_iff ev.source q.routine_source,
  ),
)

abbrev pub wanted : Query → Event → Bool
wanted q ev = not (passed_over q ev)

recent_loop-keep :
    (q : Query) (evs : List Event) (room : ℕ)
    → recent_loop q evs room ≡ take room (keep (wanted q) evs)
unfolding recent_loop
recent_loop-keep q [] zero = refl
recent_loop-keep q [] (suc room) = refl
recent_loop-keep q (ev ∷ evs) zero = refl
recent_loop-keep q (ev ∷ evs) (suc room) =
    ground (arith, recent_loop-keep q evs (suc room), recent_loop-keep q evs room)

All-keep :
    (q : Query) (evs : List Event) (room : ℕ) → All (Wanted q) (take room (keep (wanted q) evs))
All-keep q [] zero = tt
All-keep q [] (suc room) = tt
All-keep q (ev ∷ evs) zero = tt
All-keep q (ev ∷ evs) (suc room) = elim (Bool-cases (passed_over q ev)) [
  | inl over ↦ rw over (All-keep q evs (suc room))
  | inr here ↦ rw here ((passed_over_iff q ev).0 here, All-keep q evs room)
]

-- `Recent` gives the first `limit` wanted events, newest first, and an event is wanted exactly when
-- it meets every filter of the query.
pub recent_lem :
    (w : Writer) (q : Query)
    → (recent w q ≡ take q.limit (keep (wanted q) (reverse w.ring)))
      × ((ev : Event) → (wanted q ev ≡ true) ↔ Wanted q ev)
      × All (Wanted q) (recent w q)
unfolding recent
recent_lem w q =
    let same = recent_loop-keep q (reverse w.ring) q.limit in
    (same, wanted_iff, rw same (All-keep q (reverse w.ring) q.limit))
  where
    wanted_iff : (ev : Event) → (wanted q ev ≡ true) ↔ Wanted q ev
    wanted_iff ev =
        let e = passed_over_iff q ev in (λ h. e.0 (ground arith), λ h. ground (arith, e.1 h))
