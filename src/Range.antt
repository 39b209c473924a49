-- ===== src/Range.antt =====
-- embed/src/meta.rs, `normalize_range` and `normalize_bitmap_range`: index ranges of commands, where a
-- negative index counts from the end. Lengths are sizes, so sums of an index and a length fit 64 bits.
pub mod Laws
mod Examples
use wedb_embed.Base.{ℕ, ◌+◌, not, if◌then◌else◌}
use wedb_embed.Base.Int.{ℤ, pos, negsuc, ◌+ℤ◌, ◌-ℤ◌, ltb_ℤ}

unfoldable pub normalize_range : ℤ → ℤ → ℤ → ℤ × ℤ
normalize_range start stop len =
    if not (ltb_ℤ (pos 0) len)
    then (pos 0, negsuc 0)
    else let s = if ltb_ℤ start (pos 0) then len +ℤ start else start in
      let e = if ltb_ℤ stop (pos 0) then len +ℤ stop else stop in
      (if ltb_ℤ s (pos 0) then pos 0 else s, if not (ltb_ℤ e len) then len -ℤ pos 1 else e)

unfoldable pub normalize_bitmap_range : ℤ → ℤ → ℤ → ℤ × ℤ
normalize_bitmap_range origin_start origin_end length =
    if not (ltb_ℤ (pos 0) length)
    then (pos 0, negsuc 0)
    else let start = if ltb_ℤ origin_start (pos 0) then origin_start +ℤ length else origin_start in
      let stop = if ltb_ℤ origin_end (pos 0) then origin_end +ℤ length else origin_end in
      let from = if ltb_ℤ start (pos 0) then pos 0 else start in
      let to = if ltb_ℤ stop (pos 0) then pos 0 else stop in
      (from, if not (ltb_ℤ to length) then length -ℤ pos 1 else to)
