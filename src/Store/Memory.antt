-- ===== src/Store/Memory.antt =====
-- A store in memory, an association list, as an instance of the engine.
use wedb_embed.Base.{
  ℕ, ◌≡◌, refl, sym, ap, ◌∙◌, List, [], ◌∷◌, Bool, true, false, not, ◌&&◌, ◌↔◌, none, some, inl,
  inr, arith, if◌then◌else◌, Bool-cases,
}
use wedb_embed.Bytes.{bytes_eq, bytes_lt, starts_with}
use wedb_embed.Bytes.Order.{bytes_eq→eq}
use wedb_embed.Store.{Op, Entry, Engine, effect, Has, Ascending, IsStore}
use wedb_embed.Store.Finite.{without, look_up-without}
use wedb_embed.Store.Ordered.{
  look_up, insert_sorted, look_up-insert_sorted, insert_sorted-Ascending, Has→look_up, look_up→Has,
}

unfoldable pub apply_all : List Op → List Entry → List Entry
unfolding without
apply_all [] es = es
apply_all (Op.insert k v ∷ ops) es = apply_all ops ((k, v) ∷ es)
apply_all (Op.rm k ∷ ops) es = apply_all ops (without k es)
apply_all (Op.rm_weak k ∷ ops) es = apply_all ops (without k es)

abbrev inside : List ℕ → List ℕ → List ℕ → Bool
inside lo hi k = not (bytes_lt k lo) && not (bytes_lt hi k)

-- The entries of which the keys pass a test, in order.
unfoldable pub sorted_by : (List ℕ → Bool) → List Entry → List Entry
unfolding insert_sorted
sorted_by test [] = []
sorted_by test (e ∷ es) =
    let rest = sorted_by test es in if test e.0 then insert_sorted e rest else rest

abbrev is_nil : List Entry → Bool
is_nil [] = true
is_nil (e ∷ es) = false

abbrev pub memory : Engine
memory = record {
  Partition = List Entry;
  get = look_up;
  is_empty = is_nil;
  prefix = λ p q. sorted_by (starts_with q) p;
  range = λ p lo hi. sorted_by (inside lo hi) p;
  commit = apply_all;
}

look_up-apply_all :
    (ops : List Op) (es : List Entry) (k : List ℕ)
    → look_up (apply_all ops es) k ≡ effect ops k (look_up es k)
unfolding apply_all effect
look_up-apply_all [] es k = refl
look_up-apply_all (Op.insert j w ∷ ops) es k =
    look_up-apply_all ops ((j, w) ∷ es) k ∙ (unfold look_up in refl)
look_up-apply_all (Op.rm_weak j ∷ ops) es k =
    look_up-apply_all ops (without j es) k ∙ ap (effect ops k) (look_up-without j k es)
look_up-apply_all (Op.rm j ∷ ops) es k =
    look_up-apply_all ops (without j es) k ∙ ap (effect ops k) (look_up-without j k es)

sorted_by-Ascending : (test : List ℕ → Bool) (es : List Entry) → Ascending (sorted_by test es)
unfolding sorted_by
sorted_by-Ascending test [] = tt
sorted_by-Ascending test (e ∷ es) = elim (Bool-cases (test e.0)) [
  | inl b ↦
      rw (b, sorted_by)
        (insert_sorted-Ascending e (sorted_by test es) (sorted_by-Ascending test es))
  | inr b ↦ rw (b, sorted_by) (sorted_by-Ascending test es)
]

look_up-sorted_by :
    (test : List ℕ → Bool) (es : List Entry) (k : List ℕ)
    → look_up (sorted_by test es) k ≡ (if test k then look_up es k else none)
unfolding look_up sorted_by
look_up-sorted_by test [] k = ground arith
look_up-sorted_by test (e ∷ es) k = elim (Bool-cases (test e.0)) [
  | inl b ↦
      rw (b, sorted_by)
        (look_up-insert_sorted e (sorted_by test es) k ∙ elim (Bool-cases (bytes_eq e.0 k)) [
          | inl c ↦ rw (c, ap test (sym (bytes_eq→eq e.0 k c)) ∙ b) refl
          | inr c ↦ rw c (look_up-sorted_by test es k)
        ])
  | inr b ↦
      rw (b, sorted_by)
        (look_up-sorted_by test es k ∙ elim (Bool-cases (bytes_eq e.0 k)) [
          | inl c ↦ rw (c, ap test (sym (bytes_eq→eq e.0 k c)) ∙ b) refl
          | inr c ↦ rw c refl
        ])
]

sorted_by_iff :
    (test : List ℕ → Bool) (p : List Entry) (k v : List ℕ)
    → Has (k, v) (sorted_by test p) ↔ ((look_up p k ≡ some v) × (test k ≡ true))
sorted_by_iff test p k v = (
  λ h. split (
      sym (look_up-sorted_by test p k)
      ∙ Has→look_up (sorted_by test p) k v (sorted_by-Ascending test p) h),
  λ (e, a). look_up→Has (sorted_by test p) k v (look_up-sorted_by test p k ∙ rw a e),
)
  where
    split :
        (if test k then look_up p k else none) ≡ some v → (look_up p k ≡ some v) × (test k ≡ true)
    split h = ground arith

memory_range :
    (p : List Entry) (lo hi k v : List ℕ)
    → Has (k, v) (sorted_by (inside lo hi) p)
      ↔ ((look_up p k ≡ some v) × (bytes_lt k lo ≡ false) × (bytes_lt hi k ≡ false))
memory_range p lo hi k v = (
  λ h. let (e, t) = (sorted_by_iff (inside lo hi) p k v).0 h in (e, ground arith, ground arith),
  λ (e, a, b). (sorted_by_iff (inside lo hi) p k v).1 (e, rw (a, b) refl),
)

memory_empty : (p : List Entry) (k : List ℕ) → is_nil p ≡ true → look_up p k ≡ none
unfolding look_up
memory_empty [] k h = refl
memory_empty (e ∷ es) k h = cc h

pub memory-IsStore : IsStore memory
memory-IsStore = record {
  get-commit = look_up-apply_all;
  prefix_Ascending = λ p q. sorted_by-Ascending (starts_with q) p;
  prefix_iff = λ p q k v. sorted_by_iff (starts_with q) p k v;
  get_empty = memory_empty;
  range_Ascending = λ p lo hi. sorted_by-Ascending (inside lo hi) p;
  range_iff = memory_range;
}
