-- ===== src/ListApi/Items.antt =====
-- embed/src/api/list: what the data partition holds of a list, as the list of its elements, and how the
-- single writes of the commands change it.
use wedb_embed.Base.{
  ℕ, zero, suc, ◌-◌, ◌^◌, ◌≤◌, ◌<◌, ◌≡◌, ◌≢◌, refl, sym, ap, ◌∙◌, List, [], ◌∷◌, ◌++◌, true, arith,
  ◌==◌, length, get_elem?, set, none, some, Option, Bool-cases, inl, inr, if◌then◌else◌,
}
use wedb_embed.Bytes.{IsU64, bytes_eq, starts_with}
use wedb_embed.Bytes.Order.{bytes_eq→eq}
use wedb_embed.KeyComposer.{KeyComposer}
use wedb_embed.ListMeta.{wrapping_add, wrapping_sub}
use wedb_embed.ListApi.Keys.{item}
use wedb_embed.ListApi.Numbers.{
  prefix, starts_with-item, bytes_eq-item, wrapping_sub-IsU64, wrapping_add-IsU64,
}

module _ {ℓ} {A : Type ℓ} where
  pub get_elem?-none : (xs : List A) (i : ℕ) → length xs ≤ i → get_elem? xs i ≡ none
  get_elem?-none [] i h = refl
  get_elem?-none (x ∷ xs) zero h = absurd (omega arith)
  get_elem?-none (x ∷ xs) (suc i) h = get_elem?-none xs i (omega arith)

  pub get_elem?-append_one :
      (xs : List A) (v : A) (i : ℕ)
      → get_elem? (xs ++ (v ∷ [])) i ≡ (if i == length xs then some v else get_elem? xs i)
  get_elem?-append_one [] v zero = refl
  get_elem?-append_one [] v (suc i) = ground arith
  get_elem?-append_one (x ∷ xs) v zero = ground arith
  get_elem?-append_one (x ∷ xs) v (suc i) = ground (arith, get_elem?-append_one xs v i)

  pub get_elem?-set :
      (xs : List A) (i : ℕ) (v : A) (j : ℕ)
      → i < length xs
      → get_elem? (set xs i v) j ≡ (if i == j then some v else get_elem? xs j)
  get_elem?-set [] i v j h = absurd (omega arith)
  get_elem?-set (x ∷ xs) zero v zero h = refl
  get_elem?-set (x ∷ xs) zero v (suc j) h = ground arith
  get_elem?-set (x ∷ xs) (suc i) v zero h = ground arith
  get_elem?-set (x ∷ xs) (suc i) v (suc j) h = ground (arith, get_elem?-set xs i v j)

  pub length-set : (xs : List A) (i : ℕ) (v : A) → length (set xs i v) ≡ length xs
  length-set [] i v = refl
  length-set (x ∷ xs) zero v = refl
  length-set (x ∷ xs) (suc i) v = ap suc (length-set xs i v)

-- The values of the element keys are the elements, from the number `head` on, and no other key of the
-- data partition begins as they do.
pub record Items (kc : KeyComposer) (key : List ℕ) (g : List ℕ → Option (List ℕ)) (head : ℕ)
    (xs : List (List ℕ)) : Type 0 where
  pub at : (n : ℕ) → IsU64 n → g (item kc key n) ≡ get_elem? xs (wrapping_sub n head)
  pub only :
      (k v : List ℕ)
      → starts_with (prefix kc key) k ≡ true
      → g k ≡ some v
      → (n : ℕ) × IsU64 n × (k ≡ item kc key n)

module _ (kc : KeyComposer) (key : List ℕ) (g g' : List ℕ → Option (List ℕ)) where
  pub Items-cong :
      (head : ℕ) (xs : List (List ℕ))
      → ((k : List ℕ) → g' k ≡ g k)
      → Items kc key g head xs
      → Items kc key g' head xs
  Items-cong head xs same it = record {
    at = λ n h. same (item kc key n) ∙ it.at n h;
    only = λ k v p e. it.only k v p (sym (same k) ∙ e);
  }

  -- Only the keys with the prefix count.
  pub Items-within :
      (head : ℕ) (xs : List (List ℕ))
      → ((k : List ℕ) → starts_with (prefix kc key) k ≡ true → g' k ≡ g k)
      → Items kc key g head xs
      → Items kc key g' head xs
  Items-within head xs same it = record {
    at = λ n h. same (item kc key n) (starts_with-item kc key n) ∙ it.at n h;
    only = λ k v p e. it.only k v p (sym (same k p) ∙ e);
  }

  -- Of a write at a number, what the values of the element keys become is all there is to show.
  write_at :
      (head head' t : ℕ) (xs ys : List (List ℕ)) (w : Option (List ℕ))
      → IsU64 t
      → ((k : List ℕ) → g' k ≡ (if bytes_eq (item kc key t) k then w else g k))
      → Items kc key g head xs
      → ((n : ℕ)
          → IsU64 n
          → (if t == n then w else get_elem? xs (wrapping_sub n head))
            ≡ get_elem? ys (wrapping_sub n head'))
      → Items kc key g' head' ys
  write_at head head' t xs ys w ht written it values = record {
    at =
        λ n h. written (item kc key n) ∙ rw (bytes_eq-item kc key t n ht h, it.at n h) (values n h);
    only = λ k v p e. elim (Bool-cases (bytes_eq (item kc key t) k)) [
      | inl b ↦ (t, ht, sym (bytes_eq→eq (item kc key t) k b))
      | inr b ↦ it.only k v p (sym (written k ∙ rw b refl) ∙ e)
    ];
  }

  pub Items-push_left :
      (head : ℕ) (xs : List (List ℕ)) (v : List ℕ)
      → IsU64 head
      → length xs < 2 ^ 64 - 1
      → ((k : List ℕ)
          → g' k ≡ (if bytes_eq (item kc key (wrapping_sub head 1)) k then some v else g k))
      → Items kc key g head xs
      → Items kc key g' (wrapping_sub head 1) (v ∷ xs)
  Items-push_left head xs v hh fits written it =
      write_at head (wrapping_sub head 1) (wrapping_sub head 1) xs (v ∷ xs) (some v)
        (wrapping_sub-IsU64 head 1) written it values
    where
      next :
          (n : ℕ)
          → IsU64 n
          → n ≢ wrapping_sub head 1
          → wrapping_sub n (wrapping_sub head 1) ≡ suc (wrapping_sub n head)
      next n h ne = ground arith

      values :
          (n : ℕ)
          → IsU64 n
          → (if wrapping_sub head 1 == n then some v else get_elem? xs (wrapping_sub n head))
            ≡ get_elem? (v ∷ xs) (wrapping_sub n (wrapping_sub head 1))
      values n h = elim (Bool-cases (wrapping_sub head 1 == n)) [
        | inl e ↦
            rw (e, (let z : wrapping_sub n (wrapping_sub head 1) ≡ 0 = ground arith in z)) refl
        | inr e ↦ rw (e, next n h (λ same. ground arith)) refl
      ]

  pub Items-push_right :
      (head : ℕ) (xs : List (List ℕ)) (v : List ℕ)
      → IsU64 head
      → length xs < 2 ^ 64 - 1
      → ((k : List ℕ)
          → g' k
            ≡ (if bytes_eq (item kc key (wrapping_add head (length xs))) k then some v else g k))
      → Items kc key g head xs
      → Items kc key g' head (xs ++ (v ∷ []))
  Items-push_right head xs v hh fits written it =
      write_at head head (wrapping_add head (length xs)) xs (xs ++ (v ∷ [])) (some v)
        (wrapping_add-IsU64 head (length xs)) written it values
    where
      same_test :
          (n : ℕ)
          → IsU64 n
          → (wrapping_add head (length xs) == n) ≡ (wrapping_sub n head == length xs)
      same_test n h = ground arith

      values :
          (n : ℕ)
          → IsU64 n
          → (if wrapping_add head (length xs) == n
              then some v
              else get_elem? xs (wrapping_sub n head))
            ≡ get_elem? (xs ++ (v ∷ [])) (wrapping_sub n head)
      values n h = rw (same_test n h) (sym (get_elem?-append_one xs v (wrapping_sub n head)))

  pub Items-pop_left :
      (head : ℕ) (x : List ℕ) (xs : List (List ℕ))
      → IsU64 head
      → length xs < 2 ^ 64 - 1
      → ((k : List ℕ) → g' k ≡ (if bytes_eq (item kc key head) k then none else g k))
      → Items kc key g head (x ∷ xs)
      → Items kc key g' (wrapping_add head 1) xs
  Items-pop_left head x xs hh fits written it =
      write_at head (wrapping_add head 1) head (x ∷ xs) xs none hh written it values
    where
      next :
          (n : ℕ)
          → IsU64 n
          → head ≢ n
          → wrapping_sub n head ≡ suc (wrapping_sub n (wrapping_add head 1))
      next n h ne = ground arith

      values :
          (n : ℕ)
          → IsU64 n
          → (if head == n then none else get_elem? (x ∷ xs) (wrapping_sub n head))
            ≡ get_elem? xs (wrapping_sub n (wrapping_add head 1))
      values n h = elim (Bool-cases (head == n)) [
        | inl e ↦
            rw e (sym (get_elem?-none xs (wrapping_sub n (wrapping_add head 1)) (ground arith)))
        | inr e ↦ rw (e, next n h (λ same. ground arith)) refl
      ]

  pub Items-pop_right :
      (head : ℕ) (xs : List (List ℕ)) (x : List ℕ)
      → IsU64 head
      → length xs < 2 ^ 64 - 1
      → ((k : List ℕ)
          → g' k ≡ (if bytes_eq (item kc key (wrapping_add head (length xs))) k then none else g k))
      → Items kc key g head (xs ++ (x ∷ []))
      → Items kc key g' head xs
  Items-pop_right head xs x hh fits written it =
      write_at head head (wrapping_add head (length xs)) (xs ++ (x ∷ [])) xs none
        (wrapping_add-IsU64 head (length xs)) written it values
    where
      same_test :
          (n : ℕ)
          → IsU64 n
          → (wrapping_add head (length xs) == n) ≡ (wrapping_sub n head == length xs)
      same_test n h = ground arith

      values :
          (n : ℕ)
          → IsU64 n
          → (if wrapping_add head (length xs) == n
              then none
              else get_elem? (xs ++ (x ∷ [])) (wrapping_sub n head))
            ≡ get_elem? xs (wrapping_sub n head)
      values n h = elim (Bool-cases (wrapping_sub n head == length xs)) [
        | inl e ↦
            rw (same_test n h, e) (sym (get_elem?-none xs (wrapping_sub n head) (ground arith)))
        | inr e ↦ rw (same_test n h, e, get_elem?-append_one xs x (wrapping_sub n head), e) refl
      ]

  pub Items-set :
      (head i : ℕ) (xs : List (List ℕ)) (v : List ℕ)
      → IsU64 head
      → length xs < 2 ^ 64
      → i < length xs
      → ((k : List ℕ)
          → g' k ≡ (if bytes_eq (item kc key (wrapping_add head i)) k then some v else g k))
      → Items kc key g head xs
      → Items kc key g' head (set xs i v)
  Items-set head i xs v hh fits hi written it =
      write_at head head (wrapping_add head i) xs (set xs i v) (some v) (wrapping_add-IsU64 head i)
        written it (λ n h. rw (same_test n h) (sym (get_elem?-set xs i v (wrapping_sub n head) hi)))
    where
      same_test : (n : ℕ) → IsU64 n → (wrapping_add head i == n) ≡ (i == wrapping_sub n head)
      same_test n h = ground arith

  -- After a removal by prefix there are no elements, and any number may be the first.
  pub Items-clear :
      (head : ℕ)
      → ((k : List ℕ) → g' k ≡ (if starts_with (prefix kc key) k then none else g k))
      → Items kc key g' head []
  Items-clear head cleared = record {
    at = λ n h. cleared (item kc key n) ∙ rw (starts_with-item kc key n) refl;
    only = λ k v p e. cc (sym e ∙ (cleared k ∙ ap (λ b. if b then none else g k) p));
  }
