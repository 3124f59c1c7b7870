-- ===== src/Link/Bus/Patience.antt =====
-- common/link_session.c, `bulk_timeout_us`: how long a bulk phase may take.
use frank_test.Prelude.{
  ℕ, ◌+◌, ◌*◌, ◌/◌, ◌%◌, ◌^◌, ◌≤◌, ◌<◌, ◌≡◌, ◌⊎◌, refl, inl, inr, ◌==◌, ltb, Bool-cases, ==→eq,
  arith,
}
use native.Mathlib.Nat.{add-mul, mul-add, mul_assoc, mul_comm, lt-mul-div-succ, div-le_self}
use frank_test.Link.Bus.{Link, link_byte_rate, bulk_timeout_us}

-- Four times a quotient and some more, times the divisor.
four_times : (b q r : ℕ) → b < r * (q + 1) → b * 4 ≤ (q * 4 + 100000) * r
four_times b q r h = omega (
  arith,
  add-mul (q * 4) 100000 r,
  mul_assoc q 4 r,
  mul_comm q (4 * r),
  mul_assoc 4 r q,
  mul-add r q 1,
)

-- The limit fits 64 bits, before it is cut to half a minute.
fits :
    (bytes rate : ℕ)
    → bytes < 2 ^ 61
    → (bytes / rate * 4 + 100000) % 2 ^ 64 ≡ bytes / rate * 4 + 100000
fits bytes rate h = let small = div-le_self bytes rate in omega arith

-- A bulk phase gets between a tenth of a second and half a minute: half a minute, or at least four
-- times what its bytes take at the rate of the bus, unless that rate is 0.
bulk_timeout_us_bounds :
    (hz blocks : ℕ) (l : Link)
    → blocks < 2 ^ 26
    → let t = bulk_timeout_us hz l blocks in
      let rate = link_byte_rate hz l in
      (100000 ≤ t)
      × (t ≤ 30000000)
      × ((rate ≡ 0) ⊎ (t ≡ 30000000) ⊎ (blocks * 32768 * 1000000 * 4 ≤ t * rate))
unfolding bulk_timeout_us
bulk_timeout_us_bounds hz blocks l h =
    let rate = link_byte_rate hz l in
    let bytes = blocks * 32768 * 1000000 in
    let whole : bytes % 2 ^ 64 ≡ bytes = omega arith in
    let short_of = fits bytes rate (omega arith) in
    rw (whole, short_of)
      (
        ground arith,
        ground arith,
        elim (Bool-cases (rate == 0)) [
          | inl stopped ↦ inl (==→eq rate 0 stopped)
          | inr moving ↦ elim (Bool-cases (ltb 30000000 (bytes / rate * 4 + 100000))) [
            | inl long ↦ inr (inl (rw (moving, long) refl))
            | inr short ↦ inr (
                inr (
                  rw (moving, short)
                    (four_times bytes (bytes / rate) rate (lt-mul-div-succ bytes (ground arith)))))
          ]
        ],
      )

pub bulk_timeout_us-le : (hz blocks : ℕ) (l : Link) → bulk_timeout_us hz l blocks ≤ 30000000
unfolding bulk_timeout_us
bulk_timeout_us-le hz blocks l = ground arith
