-- ===== src/KeyTag/Laws.antt =====
-- embed/src/key_composer/tag.rs: numbers, slices and kinds of tags.
use wedb_embed.Base.{
  ℕ, zero, suc, ◌<◌, ◌+◌, ◌≡◌, refl, some, List, [], ◌∷◌, arith, ◌≢◌, not, length,
}
use wedb_embed.KeyTag.{
  KeyTag, as_u8, as_slice, from_u8, from_slice, nth_tag, all_tags, is_meta, is_data, raw_string,
}

-- A tag is read back from its slice.
pub from_slice-as_slice : (t : KeyTag) → from_slice (as_slice t) ≡ some t
unfolding from_slice as_slice
from_slice-as_slice KeyTag.raw_string = refl
from_slice-as_slice _ = refl

pub as_u8-lt : (t : KeyTag) → as_u8 t < 35
unfolding as_u8
as_u8-lt KeyTag.raw_string = omega arith
as_u8-lt _ = omega arith

pub from_u8-as_u8 : (t : KeyTag) → from_u8 (as_u8 t) ≡ some t
unfolding from_u8 as_u8
from_u8-as_u8 KeyTag.raw_string = refl
from_u8-as_u8 _ = refl

-- The tags of the list are numbered in order from `k` on.
abbrev Numbered : ℕ → List KeyTag → Type 0
Numbered k [] = Unit
Numbered k (t ∷ ts) = (as_u8 t ≡ k) × Numbered (suc k) ts

nth_tag-Numbered :
    (ts : List KeyTag) (k b : ℕ) (t : KeyTag)
    → Numbered k ts
    → nth_tag ts b ≡ some t
    → as_u8 t ≡ k + b
unfolding nth_tag
nth_tag-Numbered [] k b t n h = cc
nth_tag-Numbered (x ∷ ts) k zero t (e, n) h = ground arith
nth_tag-Numbered (x ∷ ts) k (suc b) t (e, n) h = omega (arith, nth_tag-Numbered ts (suc k) b t n h)

all_tags-Numbered : Numbered 0 all_tags
unfolding as_u8
all_tags-Numbered = omega arith

-- A byte that reads as a tag is that tag's number.
pub from_u8_sound : (b : ℕ) (t : KeyTag) → from_u8 b ≡ some t → as_u8 t ≡ b
unfolding from_u8
from_u8_sound b t h = omega (arith, nth_tag-Numbered all_tags 0 b t all_tags-Numbered h)

-- Every tag but the plain string's is either a metadata tag or a data tag, and never both.
pub is_meta-is_data : (t : KeyTag) → t ≢ raw_string → is_data t ≡ not (is_meta t)
unfolding is_meta is_data
is_meta-is_data KeyTag.raw_string h = absurd (h refl)
is_meta-is_data _ h = refl

-- Bytes read as tags exactly below 35.
pub from_u8-total : (b : ℕ) → b < 35 → (t : KeyTag) × (from_u8 b ≡ some t)
unfolding from_u8
from_u8-total b h = nth_total all_tags b (omega arith)
  where
    nth_total : (ts : List KeyTag) (b : ℕ) → b < length ts → (t : KeyTag) × (nth_tag ts b ≡ some t)
    nth_total [] b h = absurd (omega arith)
    nth_total (t ∷ ts) zero h = (t, unfold nth_tag in refl)
    nth_total (t ∷ ts) (suc b) h = unfold nth_tag in nth_total ts b (omega arith)
