-- ===== src/Version.antt =====
-- embed/src/meta.rs, the versions of composite values: the threads that call `generate_version` share
-- two atomics, and each atomic access is one step, in any order between the threads. The clock is a
-- package's: a step that reads it takes any time.
pub mod Order
mod Examples
use wedb_embed.Base.{
  ℕ, ◌+◌, ◌-◌, ◌*◌, ◌/◌, ◌%◌, ◌^◌, ◌≡◌, bit_and, bit_or, List, [], ◌∷◌, leb, ◌==◌, if◌then◌else◌,
}

abbrev pub version_counter_mask : ℕ
version_counter_mask = 2 ^ 11 - 1

-- Where a thread stands in `generate_version`: before its call, after the counter is drawn, or in the
-- loop with the candidate and the last version that it has seen.
pub data Phase : Type 0 where
  idle : Phase
  drawn : (candidate : ℕ) → Phase
  looping : (candidate last : ℕ) → Phase

-- The atomics, the threads, and the versions that were returned, the latest first.
pub record Versions : Type 0 where
  pub version_counter : ℕ
  pub last_version : ℕ
  pub threads : ℕ → Phase
  pub issued : List ℕ

abbrev pub put : ℕ → Phase → (ℕ → Phase) → ℕ → Phase
put t p threads u = if t == u then p else threads u

-- `(ts_us << 11) | (counter & mask)`, in 64 bits.
unfoldable pub candidate_of : ℕ → ℕ → ℕ
candidate_of ts_us counter = bit_or (ts_us * 2 ^ 11 % 2 ^ 64) (bit_and counter version_counter_mask)

-- `if candidate <= last { candidate = last + 1 }`, which goes round at 2^64.
unfoldable pub bump : ℕ → ℕ → ℕ
bump candidate last = if leb candidate last then (last + 1) % 2 ^ 64 else candidate

-- `fetch_add` on the counter.
unfoldable pub draw : ℕ → ℕ → Versions → Versions
unfolding candidate_of
draw t ts_us s = record s {
  version_counter = (s.version_counter + 1) % 2 ^ 64;
  threads = put t (Phase.drawn (candidate_of ts_us s.version_counter)) s.threads;
}

-- The first `load` of the last version.
unfoldable pub load : ℕ → ℕ → Versions → Versions
load t candidate s = record s { threads = put t (Phase.looping candidate s.last_version) s.threads }

-- `compare_exchange_weak` that succeeds: the candidate is stored and returned.
unfoldable pub exchange : ℕ → ℕ → ℕ → Versions → Versions
unfolding bump
exchange t candidate last s = record s {
  last_version = bump candidate last;
  threads = put t Phase.idle s.threads;
  issued = bump candidate last ∷ s.issued;
}

-- One that fails, for another thread's store or without a reason: the loop goes on with what it saw.
unfoldable pub retry : ℕ → ℕ → ℕ → Versions → Versions
unfolding bump
retry t candidate last s = record s {
  threads = put t (Phase.looping (bump candidate last) s.last_version) s.threads;
}

pub data Step (s : Versions) : Versions → Type 0 where
  draws : (t ts_us : ℕ) → s.threads t ≡ Phase.idle → Step s (draw t ts_us s)
  loads : (t candidate : ℕ) → s.threads t ≡ Phase.drawn candidate → Step s (load t candidate s)
  exchanges :
      (t candidate last : ℕ)
      → s.threads t ≡ Phase.looping candidate last
      → last ≡ s.last_version
      → Step s (exchange t candidate last s)
  retries :
      (t candidate last : ℕ)
      → s.threads t ≡ Phase.looping candidate last
      → Step s (retry t candidate last s)

-- The statics at the start; `init_version_counter` may have set the counter.
unfoldable pub start : ℕ → Versions
start counter = record {
  version_counter = counter;
  last_version = 0;
  threads = λ t. Phase.idle;
  issued = [];
}

pub data Reachable : Versions → Type 0 where
  begin : (counter : ℕ) → Reachable (start counter)
  step : {s s' : Versions} → Reachable s → Step s s' → Reachable s'

-- Creation time in seconds and microseconds.
unfoldable pub version_to_time : ℕ → ℕ × ℕ
version_to_time version = let ts_us = version / 2 ^ 11 in (ts_us / 1_000_000, ts_us % 1_000_000)
