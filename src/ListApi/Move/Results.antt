-- ===== src/ListApi/Move/Results.antt =====
-- embed/src/api/list/move.rs, `lmpop`, on the lists that the keys hold.

use wedb_embed.Base.{
  ℕ, zero, suc, ◌<◌, ◌≡◌, refl, List, [], ◌∷◌, ◌++◌, Bool, false, ◌||◌, arith, ◌==◌, length, take,
  drop, All, some,
}
use wedb_embed.Store.{Engine, IsStore}
use wedb_embed.Db.{Db}
use wedb_embed.Outcome.{◌>>=◌}
use wedb_embed.ListApi.State.{HoldsList, Gives}
use wedb_embed.ListApi.Pop.Steps.{view}
use wedb_embed.ListApi.Pop.Results.{popped-missing, popped-Gives}
use wedb_embed.ListApi.Move.{is_empty, lmpop_keys, lmpop}

taken :
    (count : ℕ) (zs : List (List ℕ)) → 0 < count → 0 < length zs → is_empty (take count zs) ≡ false
taken zero zs hc hz = absurd (omega arith)
taken (suc n) [] hc hz = absurd (omega arith)
taken (suc n) (z ∷ zs) hc hz = refl

run :
    (count : ℕ) (before : List (List ℕ)) (key : List ℕ) (after : List (List ℕ))
    → 0 < count
    → (count == 0 || is_empty (before ++ (key ∷ after))) ≡ false
run count [] key after hc = ground arith
run count (k ∷ before) key after hc = ground arith

module _ (E : Engine) (store : IsStore E) (db : Db E) (left : Bool) (count now : ℕ) where
  lmpop_keys-first :
      (before : List (List ℕ)) (key : List ℕ) (after : List (List ℕ)) (zs : List (List ℕ))
      → 0 < count
      → 0 < length zs
      → All (λ k. HoldsList E db k now []) before
      → HoldsList E db key now (view left zs)
      → Gives E db key now
          (lmpop_keys E db (before ++ (key ∷ after)) left count now)
          (some (key, take count zs))
          (view left (drop count zs))
  unfolding lmpop_keys
  lmpop_keys-first [] key after zs hc hz empty holds =
      let (db', e, held, frame) = popped-Gives E store db key left count now zs holds in
      (db', rw (e, ◌>>=◌, taken count zs hc hz) refl, held, frame)
  lmpop_keys-first (k ∷ before) key after zs hc hz (none_there, empty) holds =
      let (db', e, held, frame) = lmpop_keys-first before key after zs hc hz empty holds in
      (db', rw (popped-missing E store db k left count now none_there, ◌>>=◌) e, held, frame)

  -- If the engine is a store, and of the keys the first ones hold no list and the next one does, of one or more
  -- elements: `lmpop` of at least one element answers that key with its first elements, or with its last
  -- ones, the last one first, up to the count; the others remain at the key, and all that does not
  -- belong to its list is as before.
  pub lmpop-first :
      (before : List (List ℕ)) (key : List ℕ) (after : List (List ℕ)) (zs : List (List ℕ))
      → 0 < count
      → 0 < length zs
      → All (λ k. HoldsList E db k now []) before
      → HoldsList E db key now (view left zs)
      → Gives E db key now
          (lmpop E db (before ++ (key ∷ after)) left count now)
          (some (key, take count zs))
          (view left (drop count zs))
  unfolding lmpop
  lmpop-first before key after zs hc hz empty holds =
      let (db', e, held, frame) = lmpop_keys-first before key after zs hc hz empty holds in
      (db', rw (run count before key after hc) e, held, frame)
