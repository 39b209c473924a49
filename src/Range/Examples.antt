-- ===== src/Range/Examples.antt =====
-- The last two of five.
use wedb_embed.Base.{◌<◌, ◌↔◌, arith}
use wedb_embed.Base.Int.{pos, negsuc}
use wedb_embed.Range.{normalize_range, normalize_bitmap_range}
use wedb_embed.Range.Laws.{
  NotBefore, NotAfter, Selects, Within, Places, normalize_range_iff, normalize_bitmap_range-Within,
}

normalize_range_iff_example :
    Selects (normalize_range (negsuc 1) (negsuc 0) (pos 5)) 3
    ↔ ((3 < 5) × NotBefore 5 (negsuc 1) 3 × NotAfter 5 (negsuc 0) 3)
normalize_range_iff_example = normalize_range_iff 5 (negsuc 1) (negsuc 0) 3

normalize_bitmap_range-Within_example :
    Places 5 (negsuc 9) (pos 7) (normalize_bitmap_range (negsuc 9) (pos 7) (pos 5))
    × Within 5 (normalize_bitmap_range (negsuc 9) (pos 7) (pos 5))
normalize_bitmap_range-Within_example =
    normalize_bitmap_range-Within 5 (negsuc 9) (pos 7) (omega arith)
