-- ===== src/RateLimiter/Bounds.antt =====
-- How many requests a leaky bucket lets pass.
use native.Mathlib.Nat.{div-add-mod', mul-le-mul_right, add-mul, le-div_iff_mul-le}
use zk_libcod.Prelude.{
  ℕ, suc, ◌+◌, ◌-◌, ◌*◌, ◌/◌, ◌%◌, ◌^◌, ◌<◌, ◌≤◌, ◌≡◌, refl, false, List, [], ◌∷◌, arith, ltb, Bool,
  Bool-cases, ap, ◌∙◌, inl, inr, if◌then◌else◌,
}
use zk_libcod.Prelude.Int.{ℤ, pos, negsuc}
use zk_libcod.RateLimiter.{
  LeakyBucket, u64, signed8, minus, interval_of, leak, svc_rate_limit, count_passed,
}

-- A bucket that holds `n` since `time`.
abbrev pub bucket_of : ℕ → ℕ → LeakyBucket
bucket_of n time = record { last_time = time; burst = pos n }

-- An interval that is not negative is at most the time that has passed.
interval_le :
    (now last k : ℕ) → last ≤ now → now < u64 → interval_of now last ≡ pos k → k ≤ now - last
interval_le now last k h b e = ground arith

mul-split : (n q p : ℕ) → q ≤ n → n * p ≡ (n - q) * p + q * p
mul-split n q p h =
    let parts : n ≡ (n - q) + q = omega arith in
    let same : n * p ≡ ((n - q) + q) * p = ap (λ x. x * p) parts in same ∙ add-mul (n - q) q p

module _ (now period n last : ℕ) (positive : 0 < period) (low : n < 128) (past : last ≤ now)
    (clock : now < u64) where
  -- What leaks is paid for by the time that passes.
  record Leaks (after : LeakyBucket) : Type 0 where
    left : ℕ
    time : ℕ
    same : after ≡ bucket_of left time
    less : left ≤ n
    not_later : time ≤ now
    paid : n * period + last ≤ left * period + time

  leak-Leaks :
      (interval : ℤ)
      → interval_of now last ≡ interval
      → n * period < 2 ^ 31
      → Leaks (leak now (bucket_of n last) period interval)
  unfolding leak
  leak-Leaks (negsuc k) e small = record {
    left = 0;
    time = now;
    same = refl;
    less = omega arith;
    not_later = omega arith;
    paid = ground arith;
  }
  leak-Leaks (pos k) e small =
      let within = interval_le now last k past clock e in
      let split = div-add-mod' k period in
      elim (Bool-cases (ltb (n + 0) (k / period + 0))) [
        | inl drained ↦
            let more = mul-le-mul_right {m = n} {n = k / period} period (ground arith) in
            rw drained (record {
              left = 0;
              time = now;
              same = refl;
              less = omega arith;
              not_later = omega arith;
              paid = omega arith;
            })
        | inr kept ↦
            let enough : k / period ≤ n = ground arith in
            let rest : (now + u64 - k % period) % u64 ≡ now - k % period = ground arith in
            let amount : signed8 (minus (pos n) (k / period)) ≡ pos (n - k / period) =
              ground arith in
            rw (kept, rest, amount)
              (record {
                left = n - k / period;
                time = now - k % period;
                same = refl;
                less = omega arith;
                not_later = omega arith;
                paid = omega (arith, mul-split n (k / period) period enough);
              })
      ]

-- What one call does to a bucket that holds no more than the limit.
record Asked (burst period n last now : ℕ) (result : LeakyBucket × Bool) : Type 0 where
  amount : ℕ
  time : ℕ
  same : result.0 ≡ bucket_of amount time
  within : amount ≤ burst
  not_later : time ≤ now
  paid : (if result.1 then 0 else 1) * period + n * period + last ≤ amount * period + time

module _ (burst period : ℕ) (positive : 0 < period) (limit : burst < 128)
    (small : burst * period < 2 ^ 31) where
  svc_rate_limit-Asked :
      (now n last : ℕ)
      → n ≤ burst
      → last ≤ now
      → now < u64
      → Asked burst period n last now (svc_rate_limit now (bucket_of n last) burst period)
  unfolding svc_rate_limit
  svc_rate_limit-Asked now n last fits past clock =
      let less = mul-le-mul_right {m = n} {n = burst} period fits in
      let leaks =
        leak-Leaks now period n last positive (omega arith) past clock (interval_of now last) refl
          (omega arith) in
      rw leaks.same (elim (Bool-cases (ltb (leaks.left + 0) (burst + 0))) [
        | inl room ↦
            let amount : signed8 (pos (suc leaks.left)) ≡ pos (suc leaks.left) =
              ground (arith, leaks.less) in
            rw (room, amount)
              (record {
                amount = suc leaks.left;
                time = leaks.time;
                same = refl;
                within = ground arith;
                not_later = leaks.not_later;
                paid = omega (arith, leaks.paid, mul-split (suc leaks.left) 1 period (omega arith));
              })
        | inr full ↦ rw full (record {
          amount = leaks.left;
          time = leaks.time;
          same = refl;
          within = omega (arith, leaks.less);
          not_later = leaks.not_later;
          paid = omega (arith, leaks.paid);
        })
      ])

  -- Times that do not fall, up to `end`.
  abbrev pub IsClock : ℕ → List ℕ → ℕ → Type 0
  IsClock start [] end = start ≤ end
  IsClock start (t ∷ ts) end = (start ≤ t) × IsClock t ts end

  IsClock-le : (start : ℕ) (times : List ℕ) (end : ℕ) → IsClock start times end → start ≤ end
  IsClock-le start [] end h = h
  IsClock-le start (t ∷ ts) end h = omega (arith, h.0, IsClock-le t ts end h.1)

  -- For a positive period, a limit below 128, their product below 2 ^ 31, a bucket that holds no
  -- more than the limit, and times from the bucket's on that do not fall and stay below 2 ^ 64:
  -- the number of requests up to `end` that are let pass, and what the bucket held, times the
  -- period, is at most the limit times the period and the time from the bucket's to `end`.
  pub count_passed-paid :
      (times : List ℕ) (n last start end : ℕ)
      → n ≤ burst
      → last ≤ start
      → IsClock start times end
      → end < u64
      → (count_passed times (bucket_of n last) burst period).0 * period + n * period + last
        ≤ burst * period + end
  unfolding count_passed
  count_passed-paid [] n last start end fits past clock small_end =
      omega (arith, mul-le-mul_right {m = n} {n = burst} period fits)
  count_passed-paid (t ∷ ts) n last start end fits past clock small_end =
      let running = IsClock-le t ts end clock.1 in
      let asked = svc_rate_limit-Asked t n last fits (omega (arith, clock.0)) (omega arith) in
      let after = (svc_rate_limit t (bucket_of n last) burst period).0 in
      let limited = (svc_rate_limit t (bucket_of n last) burst period).1 in
      let ih : (count_passed ts after burst period).0 * period + asked.amount * period + asked.time
          ≤ burst * period + end =
        rw asked.same (
          count_passed-paid ts asked.amount asked.time t end asked.within asked.not_later clock.1
            small_end) in
      omega (
        arith,
        asked.paid,
        ih,
        add-mul (if limited then 0 else 1) (count_passed ts after burst period).0 period,
      )

  -- For a positive period, a limit from 1 to 127, their product below 2 ^ 31, and a bucket that
  -- holds no more than the limit, a request is let pass that comes at least one period after the
  -- time of the bucket and less than 2 ^ 31 milliseconds after it, before the clock reaches 2 ^
  -- 64.
  pub svc_rate_limit-passes :
      (now n last : ℕ)
      → 0 < burst
      → n ≤ burst
      → last + period ≤ now
      → now < last + 2 ^ 31
      → now < u64
      → (svc_rate_limit now (bucket_of n last) burst period).1 ≡ false
  unfolding svc_rate_limit leak
  svc_rate_limit-passes now n last some_room fits later soon clock =
      let k = now - last in
      let interval : interval_of now last ≡ pos k = ground arith in
      let leaked : 1 ≤ k / period = (le-div_iff_mul-le positive).1 (omega arith) in
      rw interval (elim (Bool-cases (ltb (n + 0) (k / period + 0))) [
        | inl drained ↦ rw drained (ground arith)
        | inr kept ↦
            let amount : signed8 (minus (pos n) (k / period)) ≡ pos (n - k / period) =
              ground arith in
            rw (kept, amount) (ground arith)
      ])
