-- ===== src/SetApi/Scan.antt =====
-- embed/src/api/set/scan.rs: the scan of a set with a cursor that counts members.
mod Pattern
pub mod Page
mod Examples
use wedb_embed.Base.{
  ℕ, suc, ◌+◌, ◌%◌, ◌^◌, List, [], ◌∷◌, ◌++◌, Bool, true, false, ◌||◌, Option, none, some, ltb, leb,
  if◌then◌else◌, length,
}
use wedb_embed.Bytes.{bytes_eq}
use wedb_embed.Glob.{matches_glob_bytes}
use wedb_embed.Store.{Engine}
use wedb_embed.Db.{Db}
use wedb_embed.Outcome.{Result, ok, ◌>>=◌}
use wedb_embed.SetApi.Read.{siter}

abbrev star : List ℕ
star = 42 ∷ []

-- `count.unwrap_or(10).max(1)`
abbrev pub limit_of : Option ℕ → ℕ
limit_of none = 10
limit_of (some count) = if leb 1 count then count else 1

unfoldable pub is_match_all : Option (List ℕ) → Bool
is_match_all none = true
is_match_all (some p) = bytes_eq p star

abbrev pub pattern_or_star : Option (List ℕ) → List ℕ
pattern_or_star none = star
pattern_or_star (some p) = p

-- The variables of the closure.
pub record Scan : Type 0 where
  pub skipped : ℕ
  pub matched : List (List ℕ)
  pub has_more : Bool

-- `is_match_all || matches_glob_bytes(pat_bytes, member)`
unfoldable pub is_matched : Option (List ℕ) → List ℕ → Bool
unfolding is_match_all matches_glob_bytes
is_matched pattern m = is_match_all pattern || matches_glob_bytes (pattern_or_star pattern) m

-- The closure.
abbrev pub scan_member : Option (List ℕ) → ℕ → ℕ → List ℕ → Scan → Bool × Scan
scan_member pattern cursor limit m scan =
    if is_matched pattern m
    then (if ltb scan.skipped cursor
        then (true, record scan { skipped = scan.skipped + 1 })
        else if ltb (length scan.matched) limit
        then (true, record scan { matched = scan.matched ++ (m ∷ []) })
        else (false, record scan { has_more = true }))
    else (true, scan)

module _ (E : Engine) where
  unfoldable pub sscan :
      Db E → List ℕ → ℕ → Option (List ℕ) → Option ℕ → ℕ → Result (ℕ × List (List ℕ))
  unfolding siter is_matched
  sscan db key cursor pattern count now_ms =
      let start : Scan = record { skipped = 0; matched = []; has_more = false } in
      siter E db key (scan_member pattern cursor (limit_of count)) start now_ms >>= (λ scan.
        ok (if scan.has_more then (cursor + length scan.matched) % 2 ^ 64 else 0, scan.matched))
