-- ===== src/Glob/Class.antt =====
-- The loop over a class reads what the rules say, and leaves a shorter pattern.
use wedb_embed.Base.{
  ℕ, ◌<◌, inl, inr, not, Bool-cases, ◌≡◌, ◌≢◌, sym, ap, ◌∙◌, min, max, leb, ◌&&◌, List, [], ◌∷◌,
  Bool, ◌||◌, Option, some, arith, ◌==◌, length,
}
use native.Mathlib.Decide.{ℕ_discrete}
use wedb_embed.Glob.{class_of, in_range}
use wedb_embed.Glob.Meaning.{Class, close, escape, range, single, covers, OpensRange}

pub Class-shorter :
    {p rest : List ℕ} {ranges : List (ℕ × ℕ)} → Class p ranges rest → length rest < length p
Class-shorter (close e) = omega arith
Class-shorter (escape e m) = omega (arith, Class-shorter m)
Class-shorter (range h e m) = omega (arith, Class-shorter m)
Class-shorter (single h e m) = omega (arith, Class-shorter m)

within-in_range : (x a b : ℕ) → (leb (min a b) x && leb x (max a b)) ≡ in_range x a b
within-in_range x a b = ground arith

within_self : (x c : ℕ) → (leb (min c c) x && leb x (max c c)) ≡ (c == x)
within_self x c = ground arith

-- A range that is found counts whether it is noted at once or at the end.
or_late : (r c f : Bool) → (c || (r || f)) ≡ ((r || c) || f)
or_late r c f = ground arith

pub class_of-Class :
    (x : ℕ) {p rest : List ℕ} {ranges : List (ℕ × ℕ)} (found : Bool)
    → Class p ranges rest
    → class_of x p found ≡ some (covers x ranges || found, rest)
unfolding class_of
class_of-Class x found (close {rest = []} e) = ground arith
class_of-Class x found (close {rest = q ∷ []} e) = ground arith
class_of-Class x found (close {rest = q ∷ r ∷ ps} e) = ground arith
class_of-Class x found (escape {c} {p = []} e m) =
    ground (arith, class_of-Class x (c == x || found) m)
class_of-Class x found (escape {c} {p = r ∷ ps} {ranges} e m) = ground (
  arith,
  class_of-Class x (c == x || found) m,
  within_self x c,
  or_late (c == x) (covers x ranges) found,
)
class_of-Class x found (range {a} {b} {ranges} h e m) = ground (
  arith,
  class_of-Class x (in_range x a b || found) m,
  within-in_range x a b,
  or_late (in_range x a b) (covers x ranges) found,
)
class_of-Class x found (single {p = []} h n m) = ground (arith, Class-shorter m)
class_of-Class x found (single {a} {p = q ∷ []} {ranges} h n m) = ground (
  arith,
  class_of-Class x (a == x || found) m,
  within_self x a,
  or_late (a == x) (covers x ranges) found,
)
class_of-Class x found (single {a} {p = q ∷ r ∷ ps} {ranges} h n m) = ground (
  arith,
  n,
  class_of-Class x (a == x || found) m,
  within_self x a,
  or_late (a == x) (covers x ranges) found,
)

-- A class that the loop reads is one by the rules, with the answer that its ranges give.
abbrev IsRead : ℕ → List ℕ → Bool → Bool → List ℕ → Type 0
IsRead x p found b rest =
    (ranges : List (ℕ × ℕ)) × Class p ranges rest × (b ≡ (covers x ranges || found))

IsRead-escape :
    (x e c : ℕ) (p rest : List ℕ) (found b : Bool)
    → e ≡ b'\\'
    → IsRead x p (c == x || found) b rest
    → IsRead x (e ∷ c ∷ p) found b rest
IsRead-escape x e c p rest found b h (ranges, m, z) = (
  (c, c) ∷ ranges,
  escape h m,
  z
      ∙ or_late _ (covers x ranges) found
      ∙ ap (λ r. (r || covers x ranges) || found) (sym (within_self x c)),
)

IsRead-range :
    (x a d c : ℕ) (p rest : List ℕ) (found b : Bool)
    → (a ≢ b'\\') × (a ≢ b']')
    → (d ≡ b'-') × (c ≢ b']')
    → IsRead x p (in_range x a c || found) b rest
    → IsRead x (a ∷ d ∷ c ∷ p) found b rest
IsRead-range x a d c p rest found b h k (ranges, m, z) = (
  (a, c) ∷ ranges,
  range h k m,
  z
      ∙ or_late _ (covers x ranges) found
      ∙ ap (λ r. (r || covers x ranges) || found) (sym (within-in_range x a c)),
)

IsRead-single :
    (x a : ℕ) (p rest : List ℕ) (found b : Bool)
    → (a ≢ b'\\') × (a ≢ b']')
    → ¬ OpensRange p
    → IsRead x p (a == x || found) b rest
    → IsRead x (a ∷ p) found b rest
IsRead-single x a p rest found b h n (ranges, m, z) = (
  (a, a) ∷ ranges,
  single h n m,
  z
      ∙ or_late _ (covers x ranges) found
      ∙ ap (λ r. (r || covers x ranges) || found) (sym (within_self x a)),
)

IsRead-close :
    (x c : ℕ) (p rest : List ℕ) (found b : Bool)
    → c ≡ b']'
    → ◌≡◌ {A = Option (Bool × List ℕ)} (some (found, p)) (some (b, rest))
    → IsRead x (c ∷ p) found b rest
IsRead-close x c p rest found b h e = let z : rest ≡ p = cc e in rw z ([], close h, cc e)

pub Class-class_of :
    (x : ℕ) (p rest : List ℕ) (found b : Bool)
    → class_of x p found ≡ some (b, rest)
    → IsRead x p found b rest
unfolding class_of
Class-class_of x [] rest found b e = cc e
Class-class_of x (p ∷ []) rest found b e = elim (ℕ_discrete p b']') [
  | yes h ↦ IsRead-close x p [] rest found b h (ground (arith, e))
  | no h ↦ absurd (ground (arith, e))
]
Class-class_of x (p ∷ q ∷ []) rest found b e = elim (ℕ_discrete p b'\\') [
  | yes h ↦ absurd (ground (arith, e))
  | no h ↦ elim (ℕ_discrete p b']') [
    | yes k ↦ IsRead-close x p (q ∷ []) rest found b k (ground (arith, e))
    | no k ↦
        IsRead-single x p (q ∷ []) rest found b (h, k) (λ o. o)
          (Class-class_of x (q ∷ []) rest (p == x || found) b (ground (arith, e)))
  ]
]
Class-class_of x (p ∷ q ∷ r ∷ ps) rest found b e = elim (ℕ_discrete p b'\\') [
  | yes h ↦
      IsRead-escape x p q (r ∷ ps) rest found b h
        (Class-class_of x (r ∷ ps) rest (q == x || found) b (ground (arith, e)))
  | no h ↦ elim (ℕ_discrete p b']') [
    | yes k ↦ IsRead-close x p (q ∷ r ∷ ps) rest found b k (ground (arith, e))
    | no k ↦ elim (Bool-cases (q == b'-' && not (r == b']'))) [
      | inl o ↦
          IsRead-range x p q r ps rest found b (h, k) (ground (arith, o), ground (arith, o))
            (Class-class_of x ps rest (in_range x p r || found) b (ground (arith, e, o)))
      | inr o ↦
          IsRead-single x p (q ∷ r ∷ ps) rest found b (h, k) (λ u. ground (arith, o, u.0, u.1))
            (Class-class_of x (q ∷ r ∷ ps) rest (p == x || found) b (ground (arith, e, o)))
    ]
  ]
]
