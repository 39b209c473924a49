-- ===== src/ListApi/Read/Slice.antt =====
-- embed/src/api/list/impl.rs, `lrange`, on the list that a key holds.
use wedb_embed.Base.{
  ℕ, suc, ◌+◌, ◌-◌, ◌^◌, ◌≤◌, ◌<◌, ◌≡◌, sym, ap, ◌∙◌, min, List, [], true, false, arith, leb, ◌==◌,
  length, map, take, drop, length-take, take-min, drop_all, drop-take, Bool-cases, ◌⊎◌, inl, inr,
  if◌then◌else◌,
}
use wedb_embed.Base.Int.{ℤ, pos, negsuc, ◌+ℤ◌, ◌-ℤ◌, ltb_ℤ}
use wedb_embed.Range.{normalize_range}
use wedb_embed.KeyMeta.{as_i64}
use wedb_embed.Store.{Engine, IsStore}
use wedb_embed.Db.{Db}
use wedb_embed.Outcome.{ok, ◌>>=◌}
use wedb_embed.ListMeta.{ListMeta, wrapping_add}
use wedb_embed.ListApi.Keys.{as_u64}
use wedb_embed.ListApi.State.{Stored, HoldsList, get_meta_checked-Stored, get_meta_checked-Missing}
use wedb_embed.ListApi.Read.{read_range, lrange}
use wedb_embed.ListApi.Read.Scan.{map-numbered, gather-slice, range-slice}

-- The bounds of a range in a sequence of `n`: how many elements come before it, and how many up to its end.
unfoldable pub before : ℕ → ℤ → ℕ
before n (pos k) = k
before n (negsuc k) = n - (k + 1)

unfoldable pub until : ℕ → ℤ → ℕ
until n (pos k) = k + 1
until n (negsuc k) = n - k

-- The part of a list between two indices, both included, where negative indices count from the end.
abbrev pub slice : ℤ → ℤ → List (List ℕ) → List (List ℕ)
slice start stop xs = drop (before (length xs) start) (take (until (length xs) stop) xs)

-- The normal form of a range, by its bounds.
abbrev pub Normal : ℕ → ℤ → ℤ → ℤ × ℤ → Type 0
Normal n start stop (s, e) =
    ((ltb_ℤ e s ≡ true) × (min (until n stop) n ≤ before n start))
    ⊎ ((ltb_ℤ e s ≡ false)
        × (s ≡ pos (before n start))
        × (e ≡ pos (min (until n stop) n - 1))
        × (before n start < min (until n stop) n))

pub normalize_range-Normal :
    (n : ℕ) (start stop : ℤ) → 0 < n → Normal n start stop (normalize_range start stop (pos n))
unfolding normalize_range before until ◌+ℤ◌ ◌-ℤ◌
normalize_range-Normal n (pos a) (pos b) h = ground arith
normalize_range-Normal n (pos a) (negsuc b) h = ground arith
normalize_range-Normal n (negsuc a) (pos b) h = ground arith
normalize_range-Normal n (negsuc a) (negsuc b) h = ground arith

-- The size of a list, read as a signed number.
pub as_i64_small : (n : ℕ) → n < 2 ^ 63 → as_i64 n ≡ pos n
unfolding as_i64
as_i64_small n h = ground arith

module _ (E : Engine) (db : Db E) (key : List ℕ) (now : ℕ) (xs : List (List ℕ)) where
  as_count : (a b : ℕ) → a ≤ b → as_u64 (pos b -ℤ pos a +ℤ pos 1) ≡ suc (b - a)
  unfolding as_u64 ◌+ℤ◌ ◌-ℤ◌
  as_count a b h = ground arith

  read_range-take :
      (store : IsStore E) (m : ListMeta) (a b : ℕ)
      → Stored E db key now m xs
      → a ≤ b
      → b < length xs
      → read_range E db key m (pos a) (pos b) ≡ take (suc (b - a)) (drop a xs)
  unfolding read_range as_u64
  read_range-take store m a b s le lt =
      elim (Bool-cases (leb (wrapping_add m.head a) (wrapping_add m.head b))) [
        | inl u ↦
            let last : wrapping_add m.head b ≡ wrapping_add m.head a + (b - a) =
              (let f = s.window.fits in ground arith) in
            rw (u, last)
              (ap (map (λ entry. entry.1)) (
                  range-slice E db key xs store m.head a (b - a) s.window.valid.head s.window.fits
                    s.items (omega arith) (omega (arith, last)))
                ∙ map-numbered db.kc key (wrapping_add m.head a) (take (suc (b - a)) (drop a xs)))
        | inr u ↦
            rw (u, as_count a b le)
              (gather-slice E db key xs m (suc (b - a)) a s.window.valid.head s.window.fits s.items
                (omega arith))
      ]

  read_range-slice :
      (store : IsStore E) (m : ListMeta) (start stop : ℤ)
      → Stored E db key now m xs
      → let (s, e) = normalize_range start stop (pos (length xs)) in
        (if ltb_ℤ e s then ok [] else ok (read_range E db key m s e)) ≡ ok (slice start stop xs)
  read_range-slice store m start stop s =
      elim (normalize_range-Normal (length xs) start stop s.nonempty) [
        | inl (empty, over) ↦ rw empty (
            ap ok (
              sym (
                drop_all (before (length xs) start) (take (until (length xs) stop) xs)
                  (omega (arith, over, length-take (until (length xs) stop) xs)))))
        | inr (full, from, to, bound) ↦
            let a = before (length xs) start in
            let b = min (until (length xs) stop) (length xs) in
            rw (full, from, to)
              (ap ok (
                read_range-take store m a (b - 1) s (omega (arith, bound)) (omega (arith, bound))
                ∙ ap (λ n. take n (drop a xs))
                    (let e : suc (b - 1 - a) ≡ b - a = omega (arith, bound) in e)
                ∙ sym (drop-take a b xs)
                ∙ ap (drop a) (take-min (until (length xs) stop) xs)))
      ]

  -- If the engine is a store and the key holds the list `xs`: `lrange` answers the part of `xs` between the two
  -- indices, both included, where negative ones count from the end and what is outside of the list is
  -- left out; whether the numbers of the elements go round between them or not.
  pub lrange-slice :
      (store : IsStore E) (start stop : ℤ)
      → HoldsList E db key now xs
      → lrange E db key start stop now ≡ ok (slice start stop xs)
  unfolding lrange
  lrange-slice store start stop holds = elim holds.value [
    | inl (e, missing) ↦
        rw (get_meta_checked-Missing E db key now holds.free missing, ◌>>=◌)
          (ap ok (
            sym (
              drop_all (before (length xs) start) (take (until (length xs) stop) xs)
                (omega (arith, length-take (until (length xs) stop) xs, ap length e)))))
    | inr (m, s) ↦
        rw
          (
            get_meta_checked-Stored E db key now m xs holds.free s,
            ◌>>=◌,
            s.window.size,
            as_i64_small (length xs) s.window.fits,
            (let z : (length xs == 0) ≡ false = (let h = s.nonempty in ground arith) in z),
          )
          (read_range-slice store m start stop s)
  ]
