-- ===== src/KeyMeta/Expiry.antt =====
-- embed/src/meta.rs: `is_expired`, `ttl_ms` and `ttl_sec` against expiry time and clock.
use wedb_embed.Base.{
  ℕ, ◌+◌, ◌-◌, ◌*◌, ◌^◌, ◌≤◌, ◌<◌, ◌≡◌, ◌↔◌, ◌⊎◌, Bool, true, false, ◌&&◌, not, arith, ltb, leb,
  ◌==◌, if◌then◌else◌,
}
use wedb_embed.Base.Int.{pos, negsuc}
use wedb_embed.KeyMeta.{KeyMeta, is_emptyable_type, is_expired, ttl_ms, ttl_sec}

-- A value is expired exactly when it is an empty value of a type that may not be empty, or has an
-- expiry time that is reached.
pub is_expired_iff :
    (m : KeyMeta) (now : ℕ)
    → (is_expired m now ≡ true) ↔ (
        ((is_emptyable_type m.rtype ≡ false) × (m.size ≡ 0))
        ⊎ ((0 < m.expire_at) × (m.expire_at ≤ now)))
unfolding is_expired
is_expired_iff m now = (λ h. to (is_emptyable_type m.rtype) h, λ h. ground arith)
  where
    to :
        (b : Bool)
        → (if not b && m.size == 0 then true else ltb 0 m.expire_at && leb m.expire_at now) ≡ true
        → ((b ≡ false) × (m.size ≡ 0)) ⊎ ((0 < m.expire_at) × (m.expire_at ≤ now))
    to b h = grind arith

-- Once expired, a value stays expired.
pub is_expired_mono :
    (m : KeyMeta) (now later : ℕ)
    → now ≤ later
    → is_expired m now ≡ true
    → is_expired m later ≡ true
unfolding is_expired
is_expired_mono m now later le h = ground arith

-- For an expiry time below 2^63, `ttl_ms` is -1 without an expiry time, -2 when it is reached, else
-- the milliseconds that are left.
pub ttl_ms_lem :
    (m : KeyMeta) (now : ℕ)
    → m.expire_at < 2 ^ 63
    → ((m.expire_at ≡ 0) × (ttl_ms m now ≡ negsuc 0))
      ⊎ ((0 < m.expire_at) × (m.expire_at ≤ now) × (ttl_ms m now ≡ negsuc 1))
      ⊎ ((now < m.expire_at) × (ttl_ms m now ≡ pos (m.expire_at - now)))
unfolding ttl_ms
ttl_ms_lem m now h = grind arith

-- For an expiry time below 2^62, if `ttl_sec` answers a number that is not negative, the expiry time
-- is not reached and the number is the remaining time rounded up to whole seconds.
pub ttl_sec_lem :
    (m : KeyMeta) (now n : ℕ)
    → m.expire_at < 2 ^ 62
    → ttl_sec m now ≡ pos n
    → (now < m.expire_at) × (m.expire_at ≤ now + 1000 * n) × (now + 1000 * n < m.expire_at + 1000)
unfolding ttl_sec
ttl_sec_lem m now n h e = ground arith
