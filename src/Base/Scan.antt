-- ===== src/Base/Scan.antt =====
-- Laws of the functions that take a text apart, on texts that are free of what they look for.
use Prim.Native.Nat.{ℕ}
use mathlib.Core.Path.{◌≡◌, refl, sym, ap, ◌∙◌}
use mathlib.Core.Logic.{◌≢◌, inl, inr}
use mathlib.Core.Bool.{Bool, true, false}
use mathlib.Core.Option.{none, some}
use mathlib.Core.List.{
  List, [], ◌∷◌, ◌++◌, reverse, reverse-cons, reverse-append, reverse-reverse, append_assoc,
}
use native.Mathlib.Omega.{arith}
use git_bridge.Base.Tests.{nat_eq, if◌then◌else◌, Bool-cases}
use git_bridge.Base.Texts.{
  Text, split, after_last, before_first, cut, contains, has_prefix, after_prefix, trim_space,
  trim_right, drop_while, is_space, cons_head, cons_before,
}

-- No character of the text passes the test.
unfoldable pub free : (ℕ → Bool) → Text → Bool
free p [] = true
free p (a ∷ xs) = let rest = free p xs in if p a then false else rest

-- The character does not occur.
abbrev pub lacks : ℕ → Text → Bool
lacks sep t = free (λ c. nat_eq c sep) t

-- A text without white space.
abbrev pub solid : Text → Bool
solid t = free is_space t

pub free-nil : (p : ℕ → Bool) → free p [] ≡ true
unfolding free
free-nil p = refl

pub free-head : (p : ℕ → Bool) (a : ℕ) (xs : Text) → free p (a ∷ xs) ≡ true → p a ≡ false
unfolding free
free-head p a xs h = ground (arith, h)

pub free-tail : (p : ℕ → Bool) (a : ℕ) (xs : Text) → free p (a ∷ xs) ≡ true → free p xs ≡ true
unfolding free
free-tail p a xs h = ground (arith, h)

pub free-append :
    (p : ℕ → Bool) (xs ys : Text) → free p xs ≡ true → free p ys ≡ true → free p (xs ++ ys) ≡ true
unfolding free
free-append p [] ys h k = k
free-append p (a ∷ xs) ys h k = rw (free-head p a xs h) (free-append p xs ys (free-tail p a xs h) k)

pub free-cons :
    (p : ℕ → Bool) (a : ℕ) (xs : Text) → p a ≡ false → free p xs ≡ true → free p (a ∷ xs) ≡ true
unfolding free
free-cons p a xs h k = rw h k

free-reverse : (p : ℕ → Bool) (xs : Text) → free p xs ≡ true → free p (reverse xs) ≡ true
unfolding free
free-reverse p [] h = refl
free-reverse p (a ∷ xs) h = rw (reverse-cons a xs) (
    free-append p (reverse xs) (a ∷ []) (free-reverse p xs (free-tail p a xs h))
      (rw (free-head p a xs h) refl))

-- A piece without the separator is cut off whole.
pub split-append :
    (sep : ℕ) (t rest : Text)
    → lacks sep t ≡ true
    → split (t ++ (sep ∷ rest)) sep ≡ t ∷ split rest sep
unfolding split cons_head
split-append sep [] rest h = ground arith
split-append sep (a ∷ t) rest h =
    rw (split-append sep t rest (free-tail _ a t h)) (rw (free-head _ a t h) refl)

pub split-lacks : (sep : ℕ) (t : Text) → lacks sep t ≡ true → split t sep ≡ t ∷ []
unfolding split cons_head
split-lacks sep [] h = refl
split-lacks sep (a ∷ t) h = rw (split-lacks sep t (free-tail _ a t h)) (rw (free-head _ a t h) refl)

contains-lacks : (sep : ℕ) (t : Text) → lacks sep t ≡ true → contains t (sep ∷ []) ≡ false
unfolding contains has_prefix after_prefix
contains-lacks sep [] h = refl
contains-lacks sep (a ∷ t) h =
    rw (contains-lacks sep t (free-tail _ a t h)) (rw (free-head _ a t h) refl)

contains-append : (sep : ℕ) (t rest : Text) → contains (t ++ (sep ∷ rest)) (sep ∷ []) ≡ true
unfolding contains has_prefix after_prefix
contains-append sep [] rest = ground arith
contains-append sep (a ∷ t) rest = ground (arith, contains-append sep t rest)

after_last-lacks : (sep : ℕ) (t : Text) → lacks sep t ≡ true → after_last t sep ≡ t
unfolding after_last
after_last-lacks sep [] h = refl
after_last-lacks sep (a ∷ t) h =
    rw (contains-lacks sep t (free-tail _ a t h)) (rw (free-head _ a t h) refl)

pub after_last-append :
    (sep : ℕ) (t name : Text) → lacks sep name ≡ true → after_last (t ++ (sep ∷ name)) sep ≡ name
unfolding after_last
after_last-append sep [] name h = rw (contains-lacks sep name h) (ground arith)
after_last-append sep (a ∷ t) name h =
    rw (contains-append sep t name) (after_last-append sep t name h)

pub before_first-append :
    (sep : ℕ) (t rest : Text) → lacks sep t ≡ true → before_first (t ++ (sep ∷ rest)) sep ≡ t
unfolding before_first
before_first-append sep [] rest h = ground arith
before_first-append sep (a ∷ t) rest h =
    rw (before_first-append sep t rest (free-tail _ a t h)) (rw (free-head _ a t h) refl)

pub before_first-lacks : (sep : ℕ) (t : Text) → lacks sep t ≡ true → before_first t sep ≡ t
unfolding before_first
before_first-lacks sep [] h = refl
before_first-lacks sep (a ∷ t) h =
    rw (before_first-lacks sep t (free-tail _ a t h)) (rw (free-head _ a t h) refl)

-- A separator is found where its first character first occurs.
pub cut-append :
    (c : ℕ) (sep t rest : Text)
    → lacks c t ≡ true
    → after_prefix (c ∷ (sep ++ rest)) (c ∷ sep) ≡ some rest
    → cut (t ++ (c ∷ (sep ++ rest))) (c ∷ sep) ≡ some (t, rest)
unfolding cut cons_before
cut-append c sep [] rest h k = rw (k, cut) refl
cut-append c sep (a ∷ t) rest h k =
    rw (elsewhere a (free-head _ a t h), cut)
      (ap (cons_before a) (cut-append c sep t rest (free-tail _ a t h) k))
  where
    elsewhere :
        (b : ℕ)
        → nat_eq b c ≡ false
        → after_prefix (b ∷ (t ++ (c ∷ (sep ++ rest)))) (c ∷ sep) ≡ none
    elsewhere b other = rw other refl

drop_while-free :
    (p : ℕ → Bool) (t rest : Text) → t ≢ [] → free p t ≡ true → drop_while p (t ++ rest) ≡ t ++ rest
unfolding drop_while
drop_while-free p [] rest h k = absurd (h refl)
drop_while-free p (a ∷ t) rest h k = rw (free-head p a t k) refl

drop_while-lone : (p : ℕ → Bool) (t : Text) → free p t ≡ true → drop_while p t ≡ t
unfolding drop_while
drop_while-lone p [] k = refl
drop_while-lone p (a ∷ t) k = rw (free-head p a t k) refl

reverse-nonempty : (t : Text) → t ≢ [] → reverse t ≢ []
reverse-nonempty t h e = h (sym (reverse-reverse t) ∙ ap reverse e)

-- A text that begins and ends with a piece without white space is left as it is.
pub trim_space-solid :
    (first middle last : Text)
    → first ≢ []
    → solid first ≡ true
    → last ≢ []
    → solid last ≡ true
    → trim_space (first ++ (middle ++ last)) ≡ first ++ (middle ++ last)
unfolding trim_space
trim_space-solid first middle last h k h' k' =
    rw (drop_while-free is_space first (middle ++ last) h k) (
      rw (← append_assoc first middle last) (
        rw (reverse-append (first ++ middle) last) (
          rw
            (drop_while-free is_space (reverse last) (reverse (first ++ middle))
              (reverse-nonempty last h') (free-reverse is_space last k'))
            (rw (← reverse-append (first ++ middle) last)
              (reverse-reverse ((first ++ middle) ++ last))))))

pub trim_space-lone : (t : Text) → solid t ≡ true → trim_space t ≡ t
unfolding trim_space
trim_space-lone t k =
    rw (drop_while-lone is_space t k)
      (rw (drop_while-lone is_space (reverse t) (free-reverse is_space t k)) (reverse-reverse t))

pub trim_right-lacks : (t : Text) (c : ℕ) → lacks c t ≡ true → trim_right t c ≡ t
unfolding trim_right
trim_right-lacks t c h = rw (drop_while-lone _ (reverse t) (free-reverse _ t h)) (reverse-reverse t)

drop_while-keeps :
    (p : ℕ → Bool) (before : Text) (c : ℕ) (after : Text)
    → p c ≡ false
    → (kept : Text) × (drop_while p (before ++ (c ∷ after)) ≡ kept ++ (c ∷ after))
unfolding drop_while
drop_while-keeps p [] c after h = ([], rw h refl)
drop_while-keeps p (a ∷ before) c after h = elim (Bool-cases (p a)) [
  | inl passed ↦ (let (kept, e) = drop_while-keeps p before c after h in (kept, rw passed e))
  | inr kept ↦ (a ∷ before, rw kept refl)
]

-- Trimming a text whose first characters are no white space leaves them.
pub trim_space-front :
    (first : Text) (c : ℕ) (rest : Text)
    → first ≢ []
    → solid first ≡ true
    → is_space c ≡ false
    → (kept : Text) × (trim_space (first ++ (c ∷ rest)) ≡ first ++ (c ∷ kept))
unfolding trim_space
trim_space-front first c rest some_first h k =
    let (kept, e) = drop_while-keeps is_space (reverse rest) c (reverse first) k in
    let turned : reverse (first ++ (c ∷ rest)) ≡ reverse rest ++ (c ∷ reverse first) =
      reverse-append first (c ∷ rest)
      ∙ ap (λ t. t ++ reverse first) (reverse-cons c rest)
      ∙ append_assoc (reverse rest) (c ∷ []) (reverse first) in
    let back : reverse (kept ++ (c ∷ reverse first)) ≡ first ++ (c ∷ reverse kept) =
      reverse-append kept (c ∷ reverse first)
      ∙ ap (λ t. t ++ reverse kept)
          (reverse-cons c (reverse first) ∙ ap (λ t. t ++ (c ∷ [])) (reverse-reverse first))
      ∙ append_assoc first (c ∷ []) (reverse kept) in
    (
      reverse kept,
      rw (drop_while-free is_space first (c ∷ rest) some_first h) (rw turned (rw e back)),
    )

-- A text with a character that is no white space is not blank.
pub trim_space-visible :
    (before : Text) (c : ℕ) (after : Text)
    → is_space c ≡ false
    → trim_space (before ++ (c ∷ after)) ≢ []
unfolding trim_space
trim_space-visible before c after h e =
    let (kept, first) = drop_while-keeps is_space before c after h in
    let turned : reverse (drop_while is_space (before ++ (c ∷ after)))
        ≡ reverse after ++ (c ∷ reverse kept) =
      rw first (
        rw (reverse-append kept (c ∷ after))
          (rw (reverse-cons c after) (append_assoc (reverse after) (c ∷ []) (reverse kept)))) in
    let (kept', second) = drop_while-keeps is_space (reverse after) c (reverse kept) h in
    let all_gone : drop_while is_space (reverse (drop_while is_space (before ++ (c ∷ after))))
        ≡ [] =
      sym (reverse-reverse _) ∙ ap reverse e in
    nonempty kept' c (reverse kept) (sym second ∙ (rw turned at all_gone))
  where
    nonempty : (xs : Text) (c : ℕ) (ys : Text) → (xs ++ (c ∷ ys)) ≡ [] → ⊥
    nonempty [] c ys h = cc
    nonempty (x ∷ xs) c ys h = cc

-- A text free of what passes one test is free of what passes a narrower one.
pub free-narrow :
    (p q : ℕ → Bool) (t : Text)
    → ((c : ℕ) → p c ≡ false → q c ≡ false)
    → free p t ≡ true
    → free q t ≡ true
unfolding free
free-narrow p q [] narrow h = refl
free-narrow p q (a ∷ t) narrow h =
    rw (narrow a (free-head p a t h)) (free-narrow p q t narrow (free-tail p a t h))

-- Lines that end in a newline each.
unfoldable pub unlines : List Text → Text
unlines [] = []
unlines (t ∷ ts) = t ++ (10 ∷ unlines ts)

abbrev pub AllLack : ℕ → List Text → Type 0
AllLack sep [] = Unit
AllLack sep (t ∷ ts) = (lacks sep t ≡ true) × AllLack sep ts

pub split-unlines : (ts : List Text) → AllLack 10 ts → split (unlines ts) 10 ≡ ts ++ ([] ∷ [])
unfolding unlines split
split-unlines [] h = refl
split-unlines (t ∷ ts) (h, hs) =
    split-append 10 t (unlines ts) h ∙ ap (λ l. t ∷ l) (split-unlines ts hs)
