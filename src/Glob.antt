-- ===== src/Glob.antt =====
-- embed/src/key_composer/slot.rs, `matches_glob_bytes`: patterns with `*`, `?`, classes and escapes.
-- The loop over the pattern and the call behind a `*` are one recursion on fuel, whose end is `none`;
-- each round takes at least one byte off the pattern, so one more than its length is given.
pub mod Meaning
mod Class
pub mod Decides
mod Star
mod Parts
pub mod Results
pub mod Literal
mod Examples
use wedb_embed.Base.{
  ℕ, zero, suc, ◌+◌, List, [], ◌∷◌, Bool, true, false, not, ◌&&◌, ◌||◌, Option, none, some, leb,
  ◌==◌, if◌then◌else◌, length,
}

-- What follows a run of stars.
unfoldable pub skip_stars : List ℕ → List ℕ
skip_stars [] = []
skip_stars (c ∷ pattern) = elim (c == b'*') [ true ↦ skip_stars pattern | false ↦ c ∷ pattern ]

-- Does a test hold of some end of the text, the text itself and the empty one included? The first
-- that holds ends the search, and a test without an answer ends it without one.
unfoldable pub any_suffix : (List ℕ → Option Bool) → List ℕ → Option Bool
any_suffix test [] = test []
any_suffix test (x ∷ text) = elim (test (x ∷ text)) [
  | none ↦ none
  | some found ↦ elim found [ true ↦ some true | false ↦ any_suffix test text ]
]

-- A leading `^` or `!` of a class, and the class behind it.
unfoldable pub negation : List ℕ → Bool × List ℕ
negation [] = (false, [])
negation (c ∷ pattern) = if c == b'^' || c == b'!' then (true, pattern) else (false, c ∷ pattern)

abbrev pub in_range : ℕ → ℕ → ℕ → Bool
in_range c start stop = leb start c && leb c stop || leb stop c && leb c start

-- The loop over a class: whether the byte was found, and the pattern behind the `]`, if there is one.
unfoldable pub class_of : ℕ → List ℕ → Bool → Option (Bool × List ℕ)
class_of c [] found = none
class_of c (p ∷ []) found = if p == b']' then some (found, []) else none
class_of c (p ∷ q ∷ []) found = elim (p == b'\\') [
  | true ↦ class_of c [] (q == c || found)
  | false ↦ elim (p == b']') [
    | true ↦ some (found, q ∷ [])
    | false ↦ class_of c (q ∷ []) (p == c || found)
  ]
]
class_of c (p ∷ q ∷ r ∷ pattern) found = elim (p == b'\\') [
  | true ↦ class_of c (r ∷ pattern) (q == c || found)
  | false ↦ elim (p == b']') [
    | true ↦ some (found, q ∷ r ∷ pattern)
    | false ↦ elim (q == b'-' && not (r == b']')) [
      | true ↦ class_of c pattern (in_range c p r || found)
      | false ↦ class_of c (q ∷ r ∷ pattern) (p == c || found)
    ]
  ]
]

abbrev pub is_nil : List ℕ → Bool
is_nil [] = true
is_nil (x ∷ xs) = false

-- The first bytes agree, and the rest of both is to be matched.
abbrev pub literal : (List ℕ → List ℕ → Option Bool) → ℕ → List ℕ → List ℕ → Option Bool
literal match c pattern [] = some false
literal match c pattern (x ∷ text) = elim (x == c) [
  | true ↦ match pattern text
  | false ↦ some false
]

abbrev pub any_byte : (List ℕ → List ℕ → Option Bool) → List ℕ → List ℕ → Option Bool
any_byte match pattern [] = some false
any_byte match pattern (x ∷ text) = match pattern text

abbrev pub class_rest :
    (List ℕ → List ℕ → Option Bool) → Bool → List ℕ → Option (Bool × List ℕ) → Option Bool
class_rest match negated text none = some false
class_rest match negated text (some (found, pattern)) =
    elim (if negated then not found else found) [ true ↦ match pattern text | false ↦ some false ]

abbrev pub in_class : (List ℕ → List ℕ → Option Bool) → List ℕ → List ℕ → Option Bool
in_class match pattern [] = some false
in_class match pattern (x ∷ text) =
    let (negated, class) = negation pattern in
    class_rest match negated text (class_of x class false)

-- A `\` at the end of the pattern stands for itself.
abbrev pub escaped : (List ℕ → List ℕ → Option Bool) → List ℕ → List ℕ → Option Bool
escaped match [] text = literal match b'\\' [] text
escaped match (c ∷ pattern) text = literal match c pattern text

abbrev pub star : (List ℕ → List ℕ → Option Bool) → List ℕ → List ℕ → Option Bool
star match [] text = some true
star match (c ∷ pattern) text = any_suffix (match (c ∷ pattern)) text

-- One round, with what matches the rest.
unfoldable pub round : (List ℕ → List ℕ → Option Bool) → List ℕ → List ℕ → Option Bool
unfolding skip_stars any_suffix negation class_of
round match [] text = some (is_nil text)
round match (c ∷ pattern) text =
    if c == b'*'
    then star match (skip_stars pattern) text
    else if c == b'?'
    then any_byte match pattern text
    else if c == b'['
    then in_class match pattern text
    else if c == b'\\'
    then escaped match pattern text
    else literal match c pattern text

unfoldable pub glob : ℕ → List ℕ → List ℕ → Option Bool
glob zero pattern text = none
glob (suc fuel) pattern text = round (glob fuel) pattern text

-- There is an answer always: `matches_glob_bytes_lem` of Results.
abbrev pub answer : Option Bool → Bool
answer none = false
answer (some b) = b

unfoldable pub matches_glob_bytes : List ℕ → List ℕ → Bool
matches_glob_bytes pattern text = answer (glob (suc (length pattern)) pattern text)
