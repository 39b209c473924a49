-- ===== src/SetApi/Scan/Examples.antt =====
-- The first page of a scan, over a set in a database in memory.
use wedb_embed.Base.{List, ℕ, true, ◌≡◌, ◌↔◌, [], ◌∷◌, some}
use wedb_embed.Store.Memory.{memory, memory-IsStore}
use wedb_embed.Outcome.{ok}
use wedb_embed.SetApi.HashSet.{retain}
use wedb_embed.SetApi.Scan.{is_matched, is_match_all, sscan}
use wedb_embed.Bytes.{bytes_eq}
use wedb_embed.Glob.{glob, round}
use wedb_embed.Glob.Meaning.{Matches}
use wedb_embed.SetApi.Scan.Page.{sscan-page}
use wedb_embed.SetApi.Examples.{greens, green_set, both, both-greens}

-- The pattern `b*` and one member at most, of which `b` is one.
abbrev only_b : List ℕ
only_b = 98 ∷ 42 ∷ []

sscan-page_example :
    (sscan memory both greens 0 (some only_b) (some 1) 10 ≡ ok (0, (98 ∷ []) ∷ []))
    × ((is_matched (some only_b) (98 ∷ []) ≡ true) ↔ Matches only_b (98 ∷ []))
unfolding retain is_matched is_match_all bytes_eq glob round
sscan-page_example =
    sscan-page memory memory-IsStore both greens 0 (some only_b) (some 1) 10 green_set (98 ∷ [])
      both-greens
