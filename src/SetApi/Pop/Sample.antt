-- ===== src/SetApi/Pop/Sample.antt =====
-- embed/src/api/set/pop.rs: the member that is sampled, and a batch without the members that are popped.
use wedb_embed.Base.{
  ℕ, zero, suc, ◌+◌, ◌<◌, ◌≡◌, refl, sym, ap, ◌∙◌, List, [], ◌∷◌, ◌++◌, true, false, some, arith,
  ◌==◌, length, take, drop-length_append, get_elem?, inl, inr, Bool-cases,
}
use wedb_embed.Bytes.{bytes_eq}
use wedb_embed.Bytes.Order.{bytes_eq_refl, starts_with-append, bytes_eq→eq}
use wedb_embed.Store.{Engine, IsStore, Entry, Ascending}
use wedb_embed.Store.Ordered.{look_up}
use wedb_embed.Store.Finite.{contains, without, length-without, without-Ascending}
use wedb_embed.Db.{Db, DbBatch, rm_weak_data}
use wedb_embed.Composite.{prefix}
use wedb_embed.Composite.Queue.{Pending, Pending-rm_weak, prefix_stack_lem}
use wedb_embed.SetApi.{sets, prefix_stack, key_for_member, has}
use wedb_embed.SetApi.State.{key_for_member-prefix}
use wedb_embed.SetApi.Members.{members, without_all, contains-without}
use wedb_embed.SetApi.HashSet.{Distinct}
use wedb_embed.SetApi.Read.Visit.{stored_at, prefix-stored_at}
use wedb_embed.SetApi.Pop.{sample_entries, sample_prefix_element, rm_popped}

sample_entries-get_elem? :
    (p : List ℕ) (es : List Entry) (i n : ℕ)
    → sample_entries p (i + n) (stored_at p es) n ≡ get_elem? (members es) i
unfolding sample_entries
sample_entries-get_elem? p [] i n = refl
sample_entries-get_elem? p (e ∷ es) zero n =
    rw
      (
        starts_with-append p e.0,
        let z : (n == zero + n) ≡ true = ground arith in z,
        drop-length_append p e.0,
      )
      refl
sample_entries-get_elem? p (e ∷ es) (suc i) n =
    rw (starts_with-append p e.0, let z : (n == suc i + n) ≡ false = ground arith in z)
      (ap (λ t. sample_entries p t (stored_at p es) (n + 1))
          (let z : suc i + n ≡ i + (n + 1) = omega arith in z)
        ∙ sample_entries-get_elem? p es i (n + 1))

-- The members have numbers below their number.
get_elem?-has :
    (xs : List (List ℕ)) (i : ℕ)
    → i < length xs
    → (m : List ℕ) × (get_elem? xs i ≡ some m) × (has m xs ≡ true)
unfolding has
get_elem?-has [] i h = absurd (omega arith)
get_elem?-has (x ∷ xs) zero h = (x, refl, rw (bytes_eq_refl x) refl)
get_elem?-has (x ∷ xs) (suc i) h =
    let (m, e, there) = get_elem?-has xs i (omega arith) in (m, e, rw there (ground arith))

pub sample-member :
    (E : Engine) (store : IsStore E) (db : Db E) (key : List ℕ) (es : List Entry) (i : ℕ)
    → Ascending es
    → ((s : List ℕ) → E.get db.data_ks (prefix sets db.kc key ++ s) ≡ look_up es s)
    → i < length (members es)
    → (m : List ℕ) × (sample_prefix_element E db.data_ks (prefix_stack db.kc key) i ≡ some m)
      × (has m (members es) ≡ true)
unfolding sample_prefix_element
sample-member E store db key es i ascending fields h =
    let (m, e, there) = get_elem?-has (members es) i h in
    (
      m,
      rw
          (
            prefix_stack_lem sets db.kc key,
            prefix-stored_at E store db.data_ks (prefix sets db.kc key) es ascending fields,
          )
          (ap
              (λ t.
                sample_entries (prefix sets db.kc key) t (stored_at (prefix sets db.kc key) es) 0)
              (let z : i ≡ i + 0 = omega arith in z)
            ∙ sample_entries-get_elem? (prefix sets db.kc key) es i 0
            ∙ e),
      there,
    )

pub Pending-rm_popped :
    (E : Engine) (db : Db E) (key : List ℕ) (ms : List (List ℕ)) (b : DbBatch) (es : List Entry)
    → Pending E sets db b key es
    → Pending E sets db (rm_popped E db key ms b) key (without_all ms es)
unfolding rm_popped without_all
Pending-rm_popped E db key [] b es p = p
Pending-rm_popped E db key (m ∷ ms) b es p =
    Pending-rm_popped E db key ms (rm_weak_data (key_for_member db.kc key m) b) (without m es) (
      Pending-rm_weak E sets db b key (key_for_member db.kc key m) m es
        (key_for_member-prefix db.kc key m) p)

pub without_all-Ascending :
    (ms : List (List ℕ)) (es : List Entry) → Ascending es → Ascending (without_all ms es)
unfolding without_all
without_all-Ascending [] es h = h
without_all-Ascending (m ∷ ms) es h =
    without_all-Ascending ms (without m es) (without-Ascending m es h)

-- Different members: as many go as are given.
pub length-without_all :
    (ms : List (List ℕ)) (es : List Entry)
    → Ascending es
    → Distinct ms
    → ((s : List ℕ) → has s ms ≡ true → contains es s ≡ true)
    → length (without_all ms es) + length ms ≡ length es
unfolding without_all has
length-without_all [] es h d inside = omega arith
length-without_all (m ∷ ms) es h (new, d) inside = omega (
  arith,
  length-without_all ms (without m es) (without-Ascending m es h) d rest,
  length-without m es h (inside m (rw (bytes_eq_refl m) refl)),
)
  where
    rest : (s : List ℕ) → has s ms ≡ true → contains (without m es) s ≡ true
    rest s there = contains-without m s es ∙ elim (Bool-cases (bytes_eq m s)) [
      | inl b ↦ absurd (
          cc (
            let z : true ≡ false = sym there ∙ ap (λ t. has t ms) (sym (bytes_eq→eq m s b)) ∙ new in
            z))
      | inr b ↦ rw b (inside s (rw there (ground arith)))
    ]

pub has-take :
    (n : ℕ) (s : List ℕ) (xs : List (List ℕ)) → has s (take n xs) ≡ true → has s xs ≡ true
unfolding has
has-take zero s xs h = cc h
has-take (suc n) s [] h = h
has-take (suc n) s (x ∷ xs) h = elim (Bool-cases (bytes_eq x s)) [
  | inl b ↦ rw b refl
  | inr b ↦ rw b (has-take n s xs (rw (b, has) at h))
]

pub take-Distinct : (n : ℕ) (xs : List (List ℕ)) → Distinct xs → Distinct (take n xs)
take-Distinct zero xs d = tt
take-Distinct (suc n) [] d = tt
take-Distinct (suc n) (x ∷ xs) (new, d) = (
  elim (Bool-cases (has x (take n xs))) [
    | inl b ↦ absurd (cc (let z : true ≡ false = sym (has-take n x xs b) ∙ new in z))
    | inr b ↦ b
  ],
  take-Distinct n xs d,
)
