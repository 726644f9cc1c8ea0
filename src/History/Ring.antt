-- ===== src/History/Ring.antt =====
-- internal/history/history.go: the ring that `push` maintains.
use git_bridge.Base.{
  All, ◌≢◌, ◌∙◌, true, false, ℕ, zero, suc, ◌+◌, ◌-◌, ◌≤◌, ◌≡◌, refl, sym, List, [], ◌∷◌, ◌++◌,
  none, arith, length, take, drop, leb, length-append, length-drop, append_assoc, append-nil,
}
use mathlib.Core.Path.{subst}
use native.Mathlib.Decide.{dec_le}
use git_bridge.History.{Event}
use git_bridge.History.Writer.{Writer, Answers, copy, push_ring, record_event, stamp}

module _ {ℓ} {A : Type ℓ} where
  -- The last `n` members.
  abbrev pub last : ℕ → List A → List A
  last n xs = drop (length xs - n) xs

  pub take_all : (xs : List A) → take (length xs) xs ≡ xs
  take_all [] = refl
  take_all (x ∷ xs) = λ i. x ∷ take_all xs i

  take_long : (n : ℕ) (xs : List A) → length xs ≤ n → take n xs ≡ xs
  take_long zero [] h = refl
  take_long zero (x ∷ xs) h = absurd (omega arith)
  take_long (suc n) [] h = refl
  take_long (suc n) (x ∷ xs) h = λ i. x ∷ take_long n xs (omega arith) i

  take-append_left : (xs ys : List A) → take (length xs) (xs ++ ys) ≡ xs
  take-append_left [] ys = refl
  take-append_left (x ∷ xs) ys = λ i. x ∷ take-append_left xs ys i

  drop-append : (n : ℕ) (xs ys : List A) → n ≤ length xs → drop n (xs ++ ys) ≡ drop n xs ++ ys
  drop-append zero xs ys h = refl
  drop-append (suc n) [] ys h = absurd (omega arith)
  drop-append (suc n) (x ∷ xs) ys h = drop-append n xs ys (omega arith)

  drop_one : (n : ℕ) (xs : List A) → drop 1 (drop n xs) ≡ drop (suc n) xs
  drop_one zero xs = refl
  drop_one (suc n) [] = refl
  drop_one (suc n) (x ∷ xs) = drop_one n xs

  -- Moving a full buffer down by one and cutting its last place off drops its first member.
  pub take-copy : (xs : List A) → take (length xs - 1) (copy xs (drop 1 xs)) ≡ drop 1 xs
  unfolding copy
  take-copy [] = refl
  take-copy (x ∷ xs) =
      let e : suc (length xs) - 1 ≡ length xs = omega arith in
      rw (e, take_long (suc (length xs)) xs (omega arith)) (take-append_left xs _)

  take-copy_full :
      (n : ℕ) (xs : List A)
      → length xs ≡ n
      → take (n - 1) (copy xs (drop (length xs - n + 1) xs)) ≡ drop 1 xs
  take-copy_full n xs h =
      subst (λ k. take (k - 1) (copy xs (drop (length xs - k + 1) xs)) ≡ drop 1 xs) h
        (let e : length xs - length xs + 1 ≡ 1 = omega arith in rw e (take-copy xs))

  pub length-last : (n : ℕ) (xs : List A) → n ≤ length xs → length (last n xs) ≡ n
  length-last n xs h = omega (arith, length-drop (length xs - n) xs)

  pub last_short : (n : ℕ) (xs : List A) → length xs ≤ n → last n xs ≡ xs
  last_short n xs h = let e : length xs - n ≡ 0 = omega arith in rw e

abbrev pub full_push : (n : ℕ) (es : List Event) (ev : Event) → List Event
full_push n es ev = drop 1 (last n es) ++ (ev ∷ [])

pub last_push_full :
    (n : ℕ) (es : List Event) (ev : Event)
    → 1 ≤ n
    → n ≤ length es
    → full_push n es ev ≡ last n (es ++ (ev ∷ []))
last_push_full n es ev h k =
    rw (length-append es (ev ∷ []), drop_one (length es - n) es)
      (let e : length es + 1 - n ≡ suc (length es - n) = omega arith in
        rw e (sym (drop-append (suc (length es - n)) es (ev ∷ []) (omega arith))))

-- A push keeps the ring at the newest events.
pub push_ring-last :
    (w : Writer) (es : List Event) (ev : Event)
    → 1 ≤ w.ring_size
    → w.ring ≡ last w.ring_size es
    → push_ring w ev ≡ last w.ring_size (es ++ (ev ∷ []))
unfolding push_ring
push_ring-last w es ev h e = elim (dec_le w.ring_size (length es)) [
  | yes full ↦
      (let n = w.ring_size in
        let k : length w.ring ≡ n = rw e (length-last n es full) in
        let b : leb n (length w.ring) ≡ true = ground arith in
        rw (b, take-copy_full n w.ring k, e) (last_push_full n es ev h full))
  | no short ↦
      (let n = w.ring_size in
        let same : last n es ≡ es = last_short n es (omega arith) in
        let ring : w.ring ≡ es = e ∙ same in
        let b : leb n (length w.ring) ≡ false = rw ring (ground arith) in
        rw (b, ring)
          (sym (last_short n (es ++ (ev ∷ [])) (omega (arith, length-append es (ev ∷ []))))))
]

abbrev pub Marshals : Answers → Type 0
Marshals io = io.line ≢ none

-- One `Record` after another, each with its answers.
unfoldable pub record_all : Writer → List (Answers × Event) → Writer
record_all w [] = w
record_all w ((io, ev) ∷ rest) = record_all (record_event w io ev) rest

abbrev pub stamped : List (Answers × Event) → List Event
stamped [] = []
stamped ((io, ev) ∷ rest) = stamp ev io.now ∷ stamped rest

abbrev pub AllMarshal : List (Answers × Event) → Type 0
AllMarshal rs = All (λ r. Marshals r.0) rs

record_event-ring :
    (w : Writer) (io : Answers) (ev : Event)
    → Marshals io
    → ((record_event w io ev).ring ≡ push_ring w (stamp ev io.now))
      × ((record_event w io ev).ring_size ≡ w.ring_size)
unfolding record_event
record_event-ring w io ev h = ground arith

-- After any events whose lines could be marshalled, on a ring of at least one place that held the
-- newest of what was recorded before, the ring holds the newest `ring_size` of all that were recorded,
-- those before included, in order.
pub record_all-ring :
    (w : Writer) (before : List Event) (rs : List (Answers × Event))
    → 1 ≤ w.ring_size
    → w.ring ≡ last w.ring_size before
    → AllMarshal rs
    → (record_all w rs).ring ≡ last w.ring_size (before ++ stamped rs)
unfolding record_all
record_all-ring w before [] h e m = rw (append-nil before) e
record_all-ring w before ((io, ev) ∷ rs) h e (m, ms) =
    let (pushed, size) = record_event-ring w io ev m in
    let ev' = stamp ev io.now in
    let w' = record_event w io ev in
    let now : w'.ring ≡ last w'.ring_size (before ++ (ev' ∷ [])) =
      rw size (pushed ∙ push_ring-last w before ev' h e) in
    record_all-ring w' (before ++ (ev' ∷ [])) rs (rw size h) now ms
    ∙ (rw (size, append_assoc before (ev' ∷ []) (stamped rs)))
