-- ===== src/SetApi/HashSet.antt =====
-- embed/src/api/set/algebra.rs: what the set algebra uses of `HashSet`, as the list of the members, each
-- once.
use wedb_embed.Base.{
  ℕ, ◌≡◌, refl, sym, ap, ◌∙◌, List, [], ◌∷◌, Bool, true, false, not, ◌&&◌, ◌||◌, arith,
  if◌then◌else◌, inl, inr, Bool-cases,
}
use wedb_embed.Bytes.{bytes_eq}
use wedb_embed.Bytes.Order.{bytes_eq→eq}
use wedb_embed.Store.{Entry, Ascending}
use wedb_embed.Store.Ordered.{look_up}
use wedb_embed.Store.Finite.{contains, is_some, look_up-Below}
use wedb_embed.SetApi.{has}
use wedb_embed.SetApi.Members.{members}

abbrev pub set_insert : List ℕ → List (List ℕ) → List (List ℕ)
set_insert m set = if has m set then set else m ∷ set

-- `retain`
unfoldable pub retain : (List ℕ → Bool) → List (List ℕ) → List (List ℕ)
retain test [] = []
retain test (x ∷ set) = let rest = retain test set in if test x then x ∷ rest else rest

-- `remove`, and `take`, which also returns the member.
abbrev pub set_remove : List ℕ → List (List ℕ) → List (List ℕ)
set_remove m set = retain (λ x. not (bytes_eq m x)) set

abbrev pub is_nil : List (List ℕ) → Bool
is_nil [] = true
is_nil (x ∷ set) = false

-- Each member stands once.
abbrev pub Distinct : List (List ℕ) → Type 0
Distinct [] = Unit
Distinct (x ∷ set) = (has x set ≡ false) × Distinct set

-- The list has just the strings that pass the test, each once.
pub record Lists (set : List (List ℕ)) (test : List ℕ → Bool) : Type 0 where
  pub each_once : Distinct set
  pub just : (s : List ℕ) → has s set ≡ test s

pub has-retain :
    (test : List ℕ → Bool) (s : List ℕ) (set : List (List ℕ))
    → has s (retain test set) ≡ has s set && test s
unfolding has retain
has-retain test s [] = refl
has-retain test s (x ∷ set) = elim (Bool-cases (bytes_eq x s)) [
  | inl b ↦ elim (Bool-cases (test x)) [
    | inl t ↦ rw (t, has, b, ap test (sym (bytes_eq→eq x s b)) ∙ t) refl
    | inr t ↦
        rw (t, has, b, ap test (sym (bytes_eq→eq x s b)) ∙ t)
          (has-retain test s set ∙ rw (ap test (sym (bytes_eq→eq x s b)) ∙ t) (ground arith))
  ]
  | inr b ↦ elim (Bool-cases (test x)) [
    | inl t ↦ rw (t, has, b) (has-retain test s set)
    | inr t ↦ rw (t, has, b) (has-retain test s set)
  ]
]

pub retain-Distinct :
    (test : List ℕ → Bool) (set : List (List ℕ)) → Distinct set → Distinct (retain test set)
unfolding retain
retain-Distinct test [] d = tt
retain-Distinct test (x ∷ set) (h, d) = elim (Bool-cases (test x)) [
  | inl t ↦ rw (t, retain) (has-retain test x set ∙ rw h refl, retain-Distinct test set d)
  | inr t ↦ rw (t, retain) (retain-Distinct test set d)
]

pub has-set_insert :
    (m s : List ℕ) (set : List (List ℕ)) → has s (set_insert m set) ≡ bytes_eq m s || has s set
unfolding has
has-set_insert m s set = elim (Bool-cases (has m set)) [
  | inl h ↦ elim (Bool-cases (bytes_eq m s)) [
    | inl b ↦ rw (h, b) (ap (λ t. has t set) (sym (bytes_eq→eq m s b)) ∙ h)
    | inr b ↦ rw (h, b) refl
  ]
  | inr h ↦ rw (h, has) refl
]

pub set_insert-Distinct :
    (m : List ℕ) (set : List (List ℕ)) → Distinct set → Distinct (set_insert m set)
set_insert-Distinct m set d = elim (Bool-cases (has m set)) [ inl h ↦ rw h d | inr h ↦ rw h (h, d) ]

pub has-members : (s : List ℕ) (es : List Entry) → has s (members es) ≡ contains es s
unfolding has look_up
has-members s [] = refl
has-members s (e ∷ es) = elim (Bool-cases (bytes_eq e.0 s)) [
  | inl b ↦ rw (b, has, look_up) refl
  | inr b ↦ rw (b, has, look_up) (has-members s es)
]

pub members-Distinct : (es : List Entry) → Ascending es → Distinct (members es)
members-Distinct [] h = tt
members-Distinct (e ∷ es) (below, h) =
    (has-members e.0 es ∙ ap is_some (look_up-Below e.0 es below), members-Distinct es h)

-- Nothing is in an empty set.
pub has-empty : (s : List ℕ) (set : List (List ℕ)) → is_nil set ≡ true → has s set ≡ false
unfolding has
has-empty s [] h = refl
has-empty s (x ∷ set) h = cc h
