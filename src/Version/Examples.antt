-- ===== src/Version/Examples.antt =====
-- Two threads that draw at the same time with the same clock: one stores first, the other fails, looks
-- again and stores the next number.
use wedb_embed.Base.{ℕ, ◌≡◌, refl, arith, [], ◌∷◌}
use wedb_embed.Version.{
  Versions, Step, Reachable, start, draw, load, exchange, retry, candidate_of, bump,
}
use wedb_embed.Version.Order.{Growing, issued-Growing}

abbrev c0 : ℕ
c0 = candidate_of 1000 6

abbrev c1 : ℕ
c1 = candidate_of 1000 5

abbrev final : Versions
final =
    exchange 1 c1 c0
      (retry 1 c1 0 (exchange 0 c0 0 (load 1 c1 (load 0 c0 (draw 0 1000 (draw 1 1000 (start 5)))))))

final-Reachable : Reachable final
unfolding start draw load exchange retry bump candidate_of
final-Reachable =
    Reachable.step
      (Reachable.step
        (Reachable.step
          (Reachable.step
            (Reachable.step
              (Reachable.step (Reachable.step (Reachable.begin 5) (Step.draws 1 1000 refl))
                (Step.draws 0 1000 refl))
              (Step.loads 0 c0 refl))
            (Step.loads 1 c1 refl))
          (Step.exchanges 0 c0 0 refl refl))
        (Step.retries 1 c1 0 refl))
      (Step.exchanges 1 c1 c0 refl refl)

two_issued : final.issued ≡ 2048007 ∷ 2048006 ∷ []
unfolding start draw load exchange retry bump candidate_of
two_issued = refl

issued-Growing_example : Growing final.issued
issued-Growing_example =
    issued-Growing final final-Reachable (rw two_issued (omega arith, (omega arith, tt)))
