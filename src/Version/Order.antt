-- ===== src/Version/Order.antt =====
-- embed/src/meta.rs: the order of the versions that `generate_version` returns.
use wedb_embed.Base.{ℕ, ◌-◌, ◌^◌, ◌<◌, ◌≡◌, refl, List, [], ◌∷◌, All, arith}
use wedb_embed.Version.{Versions, bump, Step, Reachable, exchange, draw, load, retry, start}

-- Each version is above all that were returned before it.
abbrev pub Growing : List ℕ → Type 0
Growing [] = Unit
Growing (v ∷ vs) = All (λ w. w < v) vs × Growing vs

-- All versions have a successor in 64 bits.
abbrev pub InRange : List ℕ → Type 0
InRange = All (λ v. v < 2 ^ 64 - 1)

-- The last version is the one that was returned last.
abbrev IsLast : ℕ → List ℕ → Type 0
IsLast n [] = n ≡ 0
IsLast n (v ∷ vs) = n ≡ v

All-lt : (v w : ℕ) (vs : List ℕ) → v < w → All (λ u. u < v) vs → All (λ u. u < w) vs
All-lt v w [] h a = tt
All-lt v w (u ∷ us) h (p, a) = (omega arith, All-lt v w us h a)

bump-lt : (candidate last : ℕ) → last < 2 ^ 64 - 1 → last < bump candidate last
unfolding bump
bump-lt candidate last h = ground arith

-- A version drawn above the last one continues a growing list.
Growing-bump :
    (candidate last : ℕ) (vs : List ℕ)
    → IsLast last vs
    → InRange vs
    → Growing vs
    → Growing (bump candidate last ∷ vs)
Growing-bump candidate last [] e r g = (tt, tt)
Growing-bump candidate last (v ∷ vs) e (r, rs) (a, g) =
    ((above, All-lt v (bump candidate last) vs above a), (a, g))
  where
    above : v < bump candidate last
    above = omega (arith, bump-lt candidate last (omega arith))

Reachable-order :
    (s : Versions)
    → Reachable s
    → IsLast s.last_version s.issued × (InRange s.issued → Growing s.issued)
unfolding start draw load exchange retry
Reachable-order s (Reachable.begin counter) = (refl, λ r. tt)
Reachable-order _ (Reachable.step {s} before (Step.draws t ts idle)) = Reachable-order s before
Reachable-order _ (Reachable.step {s} before (Step.loads t c drawn)) = Reachable-order s before
Reachable-order _ (Reachable.step {s} before (Step.retries t c l looping)) =
    Reachable-order s before
Reachable-order _ (Reachable.step {s} before (Step.exchanges t c l looping e)) =
    let (last, grow) = Reachable-order s before in
    (refl, λ (r, rs). Growing-bump c l s.issued (rw e last) rs (grow rs))

-- Under every interleaving of the threads, the versions that were returned grow strictly, as long as
-- none is the greatest 64-bit number.
pub issued-Growing : (s : Versions) → Reachable s → InRange s.issued → Growing s.issued
issued-Growing s r = (Reachable-order s r).1
