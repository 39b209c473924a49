-- ===== src/SetApi/Scan/Pattern.antt =====
-- The test of the pattern in embed/src/api/set/scan.rs, `sscan`, by the rules of patterns.
use wedb_embed.Base.{
  ℕ, ◌≡◌, refl, ◌↔◌, inl, inr, List, [], ◌∷◌, true, ◌||◌, Option, none, some, Bool-cases,
}
use wedb_embed.Bytes.Order.{bytes_eq→eq}
use wedb_embed.Glob.{matches_glob_bytes}
use wedb_embed.Glob.Meaning.{Matches}
use wedb_embed.Glob.Results.{matches_glob_bytes_lem, Matches_star}
use wedb_embed.SetApi.Scan.{is_match_all, pattern_or_star, is_matched}

is_match_all-Matches :
    (pattern : Option (List ℕ)) (m : List ℕ)
    → is_match_all pattern ≡ true
    → Matches (pattern_or_star pattern) m
unfolding is_match_all
is_match_all-Matches none m h = Matches_star m
is_match_all-Matches (some p) m h = rw (bytes_eq→eq p (b'*' ∷ []) h) (Matches_star m)

is_matched-or :
    (pattern : Option (List ℕ)) (m : List ℕ)
    → is_matched pattern m
      ≡ (is_match_all pattern || matches_glob_bytes (pattern_or_star pattern) m)
unfolding is_matched
is_matched-or pattern m = refl

-- Without a pattern, all match.
pub is_matched-Matches :
    (pattern : Option (List ℕ)) (m : List ℕ)
    → (is_matched pattern m ≡ true) ↔ Matches (pattern_or_star pattern) m
is_matched-Matches pattern m =
    let glob = (matches_glob_bytes_lem (pattern_or_star pattern) m).1 in
    rw (is_matched-or pattern m) (elim (Bool-cases (is_match_all pattern)) [
      | inl h ↦ rw h ((λ e. is_match_all-Matches pattern m h), λ k. refl)
      | inr h ↦ rw h glob
    ])
