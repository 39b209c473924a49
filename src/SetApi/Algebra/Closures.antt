-- ===== src/SetApi/Algebra/Closures.antt =====
-- embed/src/api/set/algebra.rs: what the closures make of the sets that they change.
use wedb_embed.Base.{
  ℕ, ◌≡◌, refl, ◌∙◌, List, [], ◌∷◌, true, false, not, ◌&&◌, ◌||◌, arith, inl, inr, Bool-cases,
}
use wedb_embed.Bytes.{bytes_eq}
use wedb_embed.Bytes.Order.{bytes_eq→eq}
use wedb_embed.SetApi.{has}
use wedb_embed.SetApi.HashSet.{
  set_insert, set_remove, is_nil, Distinct, has-set_insert, has-retain, has-empty,
  set_insert-Distinct, retain-Distinct,
}
use wedb_embed.SetApi.Read.Visit.{visit}
use wedb_embed.SetApi.Algebra.{collect, take_over, strike}

pub has-visit-collect :
    (s : List ℕ) (ms set : List (List ℕ)) → has s (visit collect ms set) ≡ has s set || has s ms
unfolding visit has
has-visit-collect s [] set = ground arith
has-visit-collect s (m ∷ ms) set =
    has-visit-collect s ms (set_insert m set) ∙ rw (has-set_insert m s set) (ground arith)

pub visit-collect-Distinct :
    (ms set : List (List ℕ)) → Distinct set → Distinct (visit collect ms set)
unfolding visit
visit-collect-Distinct [] set d = d
visit-collect-Distinct (m ∷ ms) set d =
    visit-collect-Distinct ms (set_insert m set) (set_insert-Distinct m set d)

-- A member that is struck.
pub has-visit-strike :
    (s : List ℕ) (ms set : List (List ℕ))
    → has s (visit strike ms set) ≡ has s set && not (has s ms)
unfolding visit has
has-visit-strike s [] set = ground arith
has-visit-strike s (m ∷ ms) set = elim (Bool-cases (is_nil (set_remove m set))) [
  | inl z ↦ rw z (
      has-retain (λ x. not (bytes_eq m x)) s set
      ∙ let empty = has-empty s (set_remove m set) z in
        let kept = has-retain (λ x. not (bytes_eq m x)) s set in ground arith)
  | inr z ↦ rw z (
      has-visit-strike s ms (set_remove m set)
      ∙ rw (has-retain (λ x. not (bytes_eq m x)) s set) (ground arith))
]

pub visit-strike-Distinct : (ms set : List (List ℕ)) → Distinct set → Distinct (visit strike ms set)
unfolding visit
visit-strike-Distinct [] set d = d
visit-strike-Distinct (m ∷ ms) set d =
    let kept = retain-Distinct (λ x. not (bytes_eq m x)) set d in
    elim (Bool-cases (is_nil (set_remove m set))) [
      | inl z ↦ rw z kept
      | inr z ↦ rw z (visit-strike-Distinct ms (set_remove m set) kept)
    ]

-- What is in both goes over.
pub has-visit-take_over :
    (s : List ℕ) (ms current next_set : List (List ℕ))
    → has s (visit take_over ms (current, next_set)).1
      ≡ has s next_set || (has s ms && has s current)
unfolding visit has
has-visit-take_over s [] current next_set = ground arith
has-visit-take_over s (m ∷ ms) current next_set = elim (Bool-cases (has m current)) [
  | inl h ↦
      let kept = has-retain (λ x. not (bytes_eq m x)) s current in
      let put = has-set_insert m s next_set in
      let same = here h in
      elim (Bool-cases (is_nil (set_remove m current))) [
        | inl z ↦ let empty = has-empty s (set_remove m current) z in rw (h, z) (ground arith)
        | inr z ↦
            rw (h, z)
              (has-visit-take_over s ms (set_remove m current) (set_insert m next_set)
                ∙ rw (put, kept) (ground arith))
      ]
  | inr h ↦ let same = away h in rw h (has-visit-take_over s ms current next_set ∙ ground arith)
]
  where
    here : has m current ≡ true → bytes_eq m s && not (has s current) ≡ false
    here h = elim (Bool-cases (bytes_eq m s)) [
      | inl b ↦ rw (b, ← bytes_eq→eq m s b, h) refl
      | inr b ↦ rw b refl
    ]

    away : has m current ≡ false → bytes_eq m s && has s current ≡ false
    away h = elim (Bool-cases (bytes_eq m s)) [
      | inl b ↦ rw (b, ← bytes_eq→eq m s b, h) refl
      | inr b ↦ rw b refl
    ]

pub visit-take_over-Distinct :
    (ms current next_set : List (List ℕ))
    → Distinct next_set
    → Distinct (visit take_over ms (current, next_set)).1
unfolding visit
visit-take_over-Distinct [] current next_set d = d
visit-take_over-Distinct (m ∷ ms) current next_set d = elim (Bool-cases (has m current)) [
  | inl h ↦
      let put = set_insert-Distinct m next_set d in
      elim (Bool-cases (is_nil (set_remove m current))) [
        | inl z ↦ rw (h, z) put
        | inr z ↦
            rw (h, z)
              (visit-take_over-Distinct ms (set_remove m current) (set_insert m next_set) put)
      ]
  | inr h ↦ rw h (visit-take_over-Distinct ms current next_set d)
]
