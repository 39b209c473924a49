-- ===== src/Glob/Meaning.antt =====
-- The patterns of embed/src/key_composer/slot.rs, by rules: what a class contains, and which texts a
-- pattern matches. Nothing here is computed by the matcher.
use wedb_embed.Base.{ℕ, ◌≡◌, ◌≢◌, ◌⊎◌, List, [], ◌∷◌, Bool, true, false, ◌&&◌, ◌||◌, min, max, leb}

-- A byte that stands for itself in a pattern.
abbrev pub IsPlain : ℕ → Type 0
IsPlain c = (c ≢ b'*') × (c ≢ b'?') × (c ≢ b'[') × (c ≢ b'\\')

-- Is a byte in one of the ranges? The bounds of a range come in either order.
abbrev pub covers : ℕ → List (ℕ × ℕ) → Bool
covers x [] = false
covers x ((a, b) ∷ ranges) = leb (min a b) x && leb x (max a b) || covers x ranges

-- The byte before this text is the start of a range: a `-` follows, and then a byte that is not `]`.
abbrev pub OpensRange : List ℕ → Type 0
OpensRange [] = ⊥
OpensRange (d ∷ []) = ⊥
OpensRange (d ∷ b ∷ p) = (d ≡ b'-') × (b ≢ b']')

-- A text is a class up to its `]`, with these ranges, and then the rest.
pub data Class : List ℕ → List (ℕ × ℕ) → List ℕ → Type 0 where
  close : {c : ℕ} {rest : List ℕ} → c ≡ b']' → Class (c ∷ rest) [] rest
  escape :
      {e c : ℕ} {p rest : List ℕ} {ranges : List (ℕ × ℕ)}
      → e ≡ b'\\'
      → Class p ranges rest
      → Class (e ∷ c ∷ p) ((c, c) ∷ ranges) rest
  range :
      {a d b : ℕ} {p rest : List ℕ} {ranges : List (ℕ × ℕ)}
      → (a ≢ b'\\') × (a ≢ b']')
      → (d ≡ b'-') × (b ≢ b']')
      → Class p ranges rest
      → Class (a ∷ d ∷ b ∷ p) ((a, b) ∷ ranges) rest
  single :
      {a : ℕ} {p rest : List ℕ} {ranges : List (ℕ × ℕ)}
      → (a ≢ b'\\') × (a ≢ b']')
      → ¬ OpensRange p
      → Class p ranges rest
      → Class (a ∷ p) ((a, a) ∷ ranges) rest

abbrev pub IsNegation : ℕ → Type 0
IsNegation n = (n ≡ b'^') ⊎ (n ≡ b'!')

abbrev pub StartsNegation : List ℕ → Type 0
StartsNegation [] = ⊥
StartsNegation (n ∷ p) = IsNegation n

-- A pattern matches a text. A `*` takes any bytes, a `?` takes one, a class takes one that is in its
-- ranges, or in none of them if it starts with `^` or `!`, and a `\` before a byte takes this byte.
-- A `\` at the end stands for itself.
pub data Matches : List ℕ → List ℕ → Type 0 where
  end : Matches [] []
  star_end : {s : ℕ} {p t : List ℕ} → s ≡ b'*' → Matches p t → Matches (s ∷ p) t
  star_more : {s x : ℕ} {p t : List ℕ} → s ≡ b'*' → Matches (s ∷ p) t → Matches (s ∷ p) (x ∷ t)
  any : {q x : ℕ} {p t : List ℕ} → q ≡ b'?' → Matches p t → Matches (q ∷ p) (x ∷ t)
  inside :
      {o x : ℕ} {p rest t : List ℕ} {ranges : List (ℕ × ℕ)}
      → o ≡ b'['
      → ¬ StartsNegation p
      → Class p ranges rest
      → covers x ranges ≡ true
      → Matches rest t
      → Matches (o ∷ p) (x ∷ t)
  outside :
      {o n x : ℕ} {p rest t : List ℕ} {ranges : List (ℕ × ℕ)}
      → o ≡ b'['
      → IsNegation n
      → Class p ranges rest
      → covers x ranges ≡ false
      → Matches rest t
      → Matches (o ∷ n ∷ p) (x ∷ t)
  literally :
      {e c x : ℕ} {p t : List ℕ} → e ≡ b'\\' → x ≡ c → Matches p t → Matches (e ∷ c ∷ p) (x ∷ t)
  last : {e x : ℕ} {t : List ℕ} → e ≡ b'\\' → x ≡ e → Matches [] t → Matches (e ∷ []) (x ∷ t)
  plain : {c x : ℕ} {p t : List ℕ} → IsPlain c → x ≡ c → Matches p t → Matches (c ∷ p) (x ∷ t)
