-- ===== src/Glob/Examples.antt =====
-- Concrete patterns.

use wedb_embed.Glob.Results.{matches_glob_bytes_lem}
use wedb_embed.Glob.Meaning.{IsPlain, Matches}
use wedb_embed.Base.{◌≡◌, ◌↔◌, some, arith, refl, [], ◌∷◌, true, false}
use wedb_embed.Glob.{matches_glob_bytes, glob, round, skip_stars, any_suffix, negation, class_of}

-- `u*[0-9]` matches `user7` and not `user`.
with_class :
    matches_glob_bytes (117 ∷ 42 ∷ 91 ∷ 48 ∷ 45 ∷ 57 ∷ 93 ∷ []) (117 ∷ 115 ∷ 101 ∷ 114 ∷ 55 ∷ [])
    ≡ true
unfolding matches_glob_bytes glob round skip_stars any_suffix negation class_of
with_class = refl

without_digit :
    matches_glob_bytes (117 ∷ 42 ∷ 91 ∷ 48 ∷ 45 ∷ 57 ∷ 93 ∷ []) (117 ∷ 115 ∷ 101 ∷ 114 ∷ []) ≡ false
unfolding matches_glob_bytes glob round skip_stars any_suffix negation class_of
without_digit = refl

-- `u*` and `us`
matches_glob_bytes_lem_example :
    (glob 3 (117 ∷ 42 ∷ []) (117 ∷ 115 ∷ [])
      ≡ some (matches_glob_bytes (117 ∷ 42 ∷ []) (117 ∷ 115 ∷ [])))
    × ((matches_glob_bytes (117 ∷ 42 ∷ []) (117 ∷ 115 ∷ []) ≡ true)
        ↔ Matches (117 ∷ 42 ∷ []) (117 ∷ 115 ∷ []))
matches_glob_bytes_lem_example = matches_glob_bytes_lem (117 ∷ 42 ∷ []) (117 ∷ 115 ∷ [])

u-IsPlain : IsPlain 117
u-IsPlain = (
  λ e. absurd (omega arith),
  λ e. absurd (omega arith),
  λ e. absurd (omega arith),
  λ e. absurd (omega arith),
)
