-- ===== src/ListMeta/Window.antt =====
-- embed/src/api/list/meta.rs: pushes and pops on the window of element numbers.
use wedb_embed.Base.{ℕ, ◌≡◌, refl, ap, Bool, true, false, arith}
use wedb_embed.Bytes.{IsU64}
use wedb_embed.ListMeta.{ListMeta, wrapping_add, wrapping_sub, push_index, pop_index}

sub-add : (t : ℕ) → IsU64 t → wrapping_sub (wrapping_add t 1) 1 ≡ t
sub-add t h = ground arith

add-sub : (t : ℕ) → IsU64 t → wrapping_add (wrapping_sub t 1) 1 ≡ t
add-sub t h = ground arith

-- Popping at the end that was pushed to gives back the element number that the push wrote and the
-- metadata from before the push, also where the 64-bit end goes round.
pub pop_index-push_index :
    (m : ListMeta) (left : Bool)
    → IsU64 m.head
    → IsU64 m.tail
    → let (number, pushed) = push_index m left in pop_index pushed left ≡ (number, m)
unfolding push_index pop_index
pop_index-push_index m true h t =
    ap (λ n. (wrapping_sub m.head 1, record m { head = n })) (add-sub m.head h)
pop_index-push_index m false h t = rw (sub-add m.tail t) refl
