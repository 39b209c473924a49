-- ===== src/Store.antt =====
-- engine/src/partition.rs, engine/src/batch.rs: what the database asks of its storage engine, for one
-- partition. The engine is a package's; what is documented of the calls is `IsStore`. A read or write
-- that fails with an I/O error ends the operation with that error and is left out. And
-- embed/src/api/key/mod.rs, `clear_prefix_in_batch`: the removal of all keys of a composite value.
pub mod Clear
pub mod Ordered
pub mod Finite
pub mod Memory
mod Examples
use wedb_embed.Base.{
  ℕ, List, [], ◌∷◌, ◌++◌, Bool, true, false, Option, none, some, ◌≡◌, ◌⊎◌, ◌↔◌, All, if◌then◌else◌,
}
use wedb_embed.Bytes.{bytes_eq, bytes_lt, starts_with}

-- The calls that a batch queues.
pub data Op : Type 0 where
  insert : (key value : List ℕ) → Op
  rm : (key : List ℕ) → Op
  rm_weak : (key : List ℕ) → Op

abbrev pub Entry : Type 0
Entry = List ℕ × List ℕ

pub record Engine : Type 1 where
  pub Partition : Type 0
  pub get : Partition → List ℕ → Option (List ℕ)
  pub is_empty : Partition → Bool
  pub prefix : Partition → List ℕ → List Entry
  pub range : Partition → List ℕ → List ℕ → List Entry
  pub commit : List Op → Partition → Partition

-- What the calls of a batch, in order, make of the value of a key. A weak removal is a removal, as the
-- trait's default body has it.
unfoldable pub effect : List Op → List ℕ → Option (List ℕ) → Option (List ℕ)
effect [] k v = v
effect (insert j w ∷ ops) k v = effect ops k (if bytes_eq j k then some w else v)
effect (rm j ∷ ops) k v = effect ops k (if bytes_eq j k then none else v)
effect (rm_weak j ∷ ops) k v = effect ops k (if bytes_eq j k then none else v)

-- An entry of the key stands in a listing.
abbrev pub Lists : List ℕ → List Entry → Type 0
Lists k [] = ⊥
Lists k (e ∷ es) = (e.0 ≡ k) ⊎ Lists k es

-- The entry itself stands in a listing.
abbrev pub Has : Entry → List Entry → Type 0
Has e [] = ⊥
Has e (x ∷ xs) = (x ≡ e) ⊎ Has e xs

-- Each key comes before all the later ones.
abbrev pub Below : List ℕ → List Entry → Type 0
Below k = All (λ e. bytes_lt k e.0 ≡ true)

abbrev pub Ascending : List Entry → Type 0
Ascending [] = Unit
Ascending (x ∷ xs) = Below x.0 xs × Ascending xs

-- A commit takes effect in order; the iterators over a prefix, and over a range with both of its ends,
-- list the entries there in the order of keys.
pub record IsStore (E : Engine) : Type 0 where
  pub get-commit :
      (ops : List Op) (p : E.Partition) (k : List ℕ)
      → E.get (E.commit ops p) k ≡ effect ops k (E.get p k)
  pub prefix_Ascending : (p : E.Partition) (q : List ℕ) → Ascending (E.prefix p q)
  pub prefix_iff :
      (p : E.Partition) (q k v : List ℕ)
      → Has (k, v) (E.prefix p q) ↔ ((E.get p k ≡ some v) × (starts_with q k ≡ true))
  pub get_empty : (p : E.Partition) (k : List ℕ) → E.is_empty p ≡ true → E.get p k ≡ none
  pub range_Ascending : (p : E.Partition) (lo hi : List ℕ) → Ascending (E.range p lo hi)
  pub range_iff :
      (p : E.Partition) (lo hi k v : List ℕ)
      → Has (k, v) (E.range p lo hi)
        ↔ ((E.get p k ≡ some v) × (bytes_lt k lo ≡ false) × (bytes_lt hi k ≡ false))

-- The loop over the iterator: it ends at the first key without the prefix.
unfoldable pub clear_entries : List ℕ → List Entry → List Op → List Op
clear_entries prefix [] batch = batch
clear_entries prefix (entry ∷ entries) batch =
    let rest = clear_entries prefix entries (batch ++ (rm entry.0 ∷ [])) in
    if starts_with prefix entry.0 then rest else batch

unfoldable pub clear_prefix_in_batch : (E : Engine) → E.Partition → List ℕ → List Op → List Op
unfolding clear_entries
clear_prefix_in_batch E partition prefix batch =
    clear_entries prefix (E.prefix partition prefix) batch
