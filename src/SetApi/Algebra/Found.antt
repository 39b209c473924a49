-- ===== src/SetApi/Algebra/Found.antt =====
-- embed/src/api/set/algebra.rs: the sets that the keys hold, and what the end of the commands makes of a
-- set that is found.
use wedb_embed.Base.{
  ℕ, ◌+◌, ◌≤◌, ◌≡◌, sym, ◌∙◌, List, [], ◌∷◌, Bool, false, ◌||◌, Option, none, some, arith, length,
}
use wedb_embed.Bytes.{IsU64}
use wedb_embed.Store.{Engine, IsStore, Entry}
use wedb_embed.Store.Ordered.{look_up}
use wedb_embed.Store.Finite.{contains}
use wedb_embed.Db.{Db}
use wedb_embed.Outcome.{Result}
use wedb_embed.SetApi.{has}
use wedb_embed.SetApi.HashSet.{Distinct, Lists}
use wedb_embed.SetApi.State.{HoldsSet, SetGives}
use wedb_embed.SetApi.Members.{add, add_all, contains-add, length-add}
use wedb_embed.SetApi.Move.{overwrite_set_iter, overwrite_set}
use wedb_embed.SetApi.Move.Overwrite.{overwrite_set-Gives}
use wedb_embed.SetApi.Algebra.{collected, store_set_opt}

-- A `HashSet` yields each of its members once.
pub record IsOrder (into_iter : List (List ℕ) → List (List ℕ)) : Type 0 where
  pub has_same : (s : List ℕ) (set : List (List ℕ)) → has s (into_iter set) ≡ has s set
  pub each_once : (set : List (List ℕ)) → Distinct set → Distinct (into_iter set)

-- The strings that pass the test are found; with no set, none passes it.
abbrev pub Found : Option (List (List ℕ)) → (List ℕ → Bool) → Type 0
Found none test = (s : List ℕ) → test s ≡ false
Found (some set) test = Lists set test

pub Found-cong :
    (found : Option (List (List ℕ))) (test other : List ℕ → Bool)
    → ((s : List ℕ) → test s ≡ other s)
    → Found found test
    → Found found other
Found-cong none test other same h = λ s. sym (same s) ∙ h s
Found-cong (some set) test other same h = record {
  each_once = h.each_once;
  just = λ s. h.just s ∙ same s;
}

pub contains-add_all :
    (ms : List (List ℕ)) (es : List Entry) (s : List ℕ)
    → contains (add_all ms es) s ≡ contains es s || has s ms
unfolding add_all has
contains-add_all [] es s = ground arith
contains-add_all (m ∷ ms) es s =
    contains-add_all ms (add m es) s ∙ rw (contains-add m s es) (ground arith)

-- No more members than were given.
length-add_all :
    (ms : List (List ℕ)) (es : List Entry) → length (add_all ms es) ≤ length es + length ms
unfolding add_all
length-add_all [] es = omega arith
length-add_all (m ∷ ms) es = omega (arith, length-add_all ms (add m es), length-add m es)

module _ (E : Engine) (db : Db E) (now : ℕ) where
  pub Lists-collected :
      (into_iter : List (List ℕ) → List (List ℕ)) (found : Option (List (List ℕ)))
      (test : List ℕ → Bool)
      → IsOrder into_iter
      → Found found test
      → Lists (collected E db now into_iter found) test
  unfolding has
  Lists-collected into_iter none test order h = record { each_once = tt; just = λ s. sym (h s) }
  Lists-collected into_iter (some set) test order h = record {
    each_once = order.each_once set h.each_once;
    just = λ s. order.has_same s set ∙ h.just s;
  }

  -- The set at `dst` is just what passes the test, its size is answered, and the rest is as before.
  abbrev pub Stores : List ℕ → Result (ℕ × Db E) → (List ℕ → Bool) → Type 0
  Stores dst r test =
      (gs : List Entry) × SetGives E db dst now r (length gs) gs
      × ((s : List ℕ) → contains gs s ≡ test s)

  module _ (store : IsStore E) (into_iter : List (List ℕ) → List (List ℕ))
      (order : IsOrder into_iter) (dst : List ℕ) (version : ℕ) (test : List ℕ → Bool)
      (old : List Entry) (hv : IsU64 version) (holds : HoldsSet E db dst now old) where
    pub Stores-overwrite :
        (set : List (List ℕ))
        → IsU64 (length (into_iter set))
        → ((s : List ℕ) → has s set ≡ test s)
        → Stores dst (overwrite_set_iter E db dst (into_iter set) now version) test
    unfolding overwrite_set look_up
    Stores-overwrite set small just = (
      add_all (into_iter set) [],
      overwrite_set-Gives E store db dst (into_iter set) now version old hv
          (omega (arith, small, length-add_all (into_iter set) [])) holds,
      λ s. contains-add_all (into_iter set) [] s ∙ order.has_same s set ∙ just s,
    )

    pub Stores-opt :
        (found : Option (List (List ℕ)))
        → IsU64 (length (collected E db now into_iter found))
        → Found found test
        → Stores dst (store_set_opt E db now into_iter dst found version) test
    unfolding store_set_opt add_all look_up
    Stores-opt none small h =
        ([], overwrite_set-Gives E store db dst [] now version old hv small holds, λ s. sym (h s))
    Stores-opt (some set) small h = Stores-overwrite set small h.just
