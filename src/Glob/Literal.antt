-- ===== src/Glob/Literal.antt =====
-- Patterns without wildcards, alone and before a `*`.
use wedb_embed.Base.{
  ℕ, zero, suc, ◌+◌, ◌<◌, ◌≡◌, ◌≢◌, refl, ◌∙◌, List, [], ◌∷◌, ◌++◌, Bool, false, Option, some, All,
  arith, ◌==◌, length, length-append,
}
use wedb_embed.Bytes.{bytes_eq, starts_with}
use wedb_embed.Glob.Meaning.{IsPlain}
use wedb_embed.Glob.{literal, round, glob, matches_glob_bytes, skip_stars}

round-plain :
    (match : List ℕ → List ℕ → Option Bool) (c : ℕ) (p t : List ℕ)
    → IsPlain c
    → round match (c ∷ p) t ≡ literal match c p t
unfolding round
round-plain match c p t h = rw (other b'*' h.0, other b'?' h.1, other b'[' h.2, other b'\\' h.3)
  where
    other : (d : ℕ) → c ≢ d → (c == d) ≡ false
    other d ne = ground arith

glob-plain :
    (n : ℕ) (p t : List ℕ) → All IsPlain p → length p < n → glob n p t ≡ some (bytes_eq p t)
unfolding glob bytes_eq
glob-plain zero p t h lt = absurd (omega arith)
glob-plain (suc n) [] [] h lt = unfold round in refl
glob-plain (suc n) [] (x ∷ t) h lt = unfold round in refl
glob-plain (suc n) (c ∷ p) [] (hc, h) lt = round-plain (glob n) c p [] hc
glob-plain (suc n) (c ∷ p) (x ∷ t) (hc, h) lt =
    round-plain (glob n) c p (x ∷ t) hc ∙ ground (arith, glob-plain n p t h (omega arith))

glob-prefix :
    (n : ℕ) (p t : List ℕ)
    → All IsPlain p
    → length p + 1 < n
    → glob n (p ++ (b'*' ∷ [])) t ≡ some (starts_with p t)
unfolding glob starts_with
glob-prefix zero p t h lt = absurd (omega arith)
glob-prefix (suc n) [] t h lt = unfold round skip_stars in refl
glob-prefix (suc n) (c ∷ p) [] (hc, h) lt = round-plain (glob n) c (p ++ (b'*' ∷ [])) [] hc
glob-prefix (suc n) (c ∷ p) (x ∷ t) (hc, h) lt =
    round-plain (glob n) c (p ++ (b'*' ∷ [])) (x ∷ t) hc
    ∙ ground (arith, glob-prefix n p t h (omega arith))

-- A pattern without wildcards matches itself and nothing else.
pub matches_glob_bytes-plain :
    (p t : List ℕ) → All IsPlain p → matches_glob_bytes p t ≡ bytes_eq p t
unfolding matches_glob_bytes
matches_glob_bytes-plain p t h = rw (glob-plain (suc (length p)) p t h (omega arith)) refl

-- A pattern without wildcards and a `*` behind it match the texts that begin with it.
pub matches_glob_bytes-prefix :
    (p t : List ℕ) → All IsPlain p → matches_glob_bytes (p ++ (b'*' ∷ [])) t ≡ starts_with p t
unfolding matches_glob_bytes
matches_glob_bytes-prefix p t h =
    rw
      (glob-prefix (suc (length (p ++ (b'*' ∷ [])))) p t h
        (omega (arith, length-append p (b'*' ∷ []))))
      refl
