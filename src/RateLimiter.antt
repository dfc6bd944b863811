-- ===== src/RateLimiter.antt =====
-- The leaky buckets of code/ratelimiter.cpp: SVC_HashForAddress and SVC_RateLimit. The clock is an
-- argument. The lock around each function makes it one step.
pub mod Bounds
use zk_libcod.Prelude.{
  ℕ, zero, suc, ◌+◌, ◌-◌, ◌*◌, ◌/◌, ◌%◌, ◌^◌, Bool, true, false, List, [], ◌∷◌, ltb, leb,
  if◌then◌else◌, bit_and, bit_xor,
}
use zk_libcod.Prelude.Int.{ℤ, pos, negsuc, ltb_ℤ, signed32}

-- `type`, `adr`, `hash` and the links serve the table of buckets, not the limit.
pub record LeakyBucket : Type 0 where
  pub last_time : ℕ
  pub burst : ℤ

abbrev pub u64 : ℕ
u64 = 2 ^ 64

-- The conversion of a number to `signed char`.
abbrev pub signed8 : ℤ → ℤ
signed8 (pos n) = let r = n % 256 in if ltb r 128 then pos r else negsuc (255 - r)
signed8 (negsuc n) = let r = 255 - n % 256 in if ltb r 128 then pos r else negsuc (255 - r)

abbrev pub plus_one : ℤ → ℤ
plus_one (pos n) = pos (suc n)
plus_one (negsuc zero) = pos 0
plus_one (negsuc (suc n)) = negsuc n

abbrev pub minus : ℤ → ℕ → ℤ
minus (pos n) k = if leb k n then pos (n - k) else negsuc (k - n - 1)
minus (negsuc n) k = negsuc (n + k)

-- `int interval = now - bucket->lastTime`
abbrev pub interval_of : ℕ → ℕ → ℤ
interval_of now last_time = signed32 ((now + u64 - last_time) % u64)

-- The first half of SVC_RateLimit, after the interval is computed: what has leaked since the last time. An interval
-- below zero restarts the bucket, so the division is that of numbers.
pub leak : ℕ → LeakyBucket → ℕ → ℤ → LeakyBucket
leak now bucket period (negsuc _) = record bucket { burst = pos 0; last_time = now }
leak now bucket period (pos interval) =
    let expired = interval / period in
    if ltb_ℤ bucket.burst (pos expired)
    then record bucket { burst = pos 0; last_time = now }
    else record bucket {
      burst = signed8 (minus bucket.burst expired);
      last_time = (now + u64 - interval % period) % u64;
    }

-- SVC_RateLimit for a bucket that is there; `true` tells to drop the request.
pub svc_rate_limit : ℕ → LeakyBucket → ℕ → ℕ → LeakyBucket × Bool
unfolding leak
svc_rate_limit now bucket burst period =
    let leaked = leak now bucket period (interval_of now bucket.last_time) in
    if ltb_ℤ leaked.burst (pos burst)
    then (record leaked { burst = signed8 (plus_one leaked.burst) }, false)
    else (leaked, true)

-- The requests that pass, for a bucket that is asked at each of these times.
pub count_passed : List ℕ → LeakyBucket → ℕ → ℕ → ℕ × LeakyBucket
unfolding svc_rate_limit
count_passed [] bucket burst period = (0, bucket)
count_passed (now ∷ times) bucket burst period =
    let (after, limited) = svc_rate_limit now bucket burst period in
    let (passed, last) = count_passed times after burst period in
    ((if limited then 0 else 1) + passed, last)

-- The loop over the four bytes of the address, from byte `i` on.
pub hash_bytes : ℕ → List ℕ → ℕ
hash_bytes i [] = 0
hash_bytes i (byte ∷ bytes) = byte * (i + 119) + hash_bytes (suc i) bytes

-- SVC_HashForAddress: the chain of the address in the table of 1024 chains.
pub svc_hash_for_address : List ℕ → ℕ
unfolding hash_bytes
svc_hash_for_address ip =
    let hash = hash_bytes 0 ip in
    bit_and (bit_xor (bit_xor hash (hash / 2 ^ 10)) (hash / 2 ^ 20)) 1023
