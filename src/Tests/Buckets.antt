-- ===== src/Tests/Buckets.antt =====
-- The theorems on the leaky bucket, applied to the limit of ten requests a second.
use zk_libcod.Prelude.{ℕ, ◌+◌, ◌*◌, ◌≤◌, ◌≡◌, false, List, [], ◌∷◌, arith}
use zk_libcod.RateLimiter.{svc_rate_limit, count_passed}
use zk_libcod.RateLimiter.Bounds.{bucket_of, count_passed-paid, svc_rate_limit-passes}

abbrev times : List ℕ
times = 5000 ∷ 5001 ∷ 5100 ∷ 7000 ∷ []

count_passed-paid_example :
    (count_passed times (bucket_of 9 4900) 10 1000).0 * 1000 + 9 * 1000 + 4900 ≤ 10 * 1000 + 7000
count_passed-paid_example =
    count_passed-paid 10 1000 (omega arith) (omega arith) (omega arith) times 9 4900 5000 7000
      (omega arith) (omega arith)
      (omega arith, (omega arith, (omega arith, (omega arith, omega arith)))) (omega arith)

svc_rate_limit-passes_example : (svc_rate_limit 6000 (bucket_of 10 4900) 10 1000).1 ≡ false
svc_rate_limit-passes_example =
    svc_rate_limit-passes 10 1000 (omega arith) (omega arith) (omega arith) 6000 10 4900
      (omega arith) (omega arith) (omega arith) (omega arith) (omega arith)
