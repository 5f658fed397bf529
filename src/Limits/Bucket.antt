-- ===== src/Limits/Bucket.antt =====
-- internal/limits/limits.go: the token bucket, over an interface of float64.
pub mod Burst
use proxy_acl.Base.{ℕ, ◌+◌, ◌<◌, ◌≡◌, Bool, true, false, max, min, if◌then◌else◌, ◌==◌}

-- The operations on float64 that the program uses. Times are nanoseconds; `seconds now last` is
-- `now.Sub(last).Seconds()`.
pub record Float64 : Type 1 where
  pub F : Type 0
  pub zero_f : F
  pub one_f : F
  pub of_int : ℕ → F
  pub seconds : ℕ → ℕ → F
  pub le_f : F → F → Bool
  pub lt_f : F → F → Bool
  pub add_f : F → F → F
  pub sub_f : F → F → F
  pub mul_f : F → F → F
  pub min_f : F → F → F

-- What IEEE 754 says of the operations that the program uses: whole numbers below 2^53 are exact, no
-- time is zero seconds, zero times a positive finite number is zero, and adding zero to a converted
-- number changes nothing.
pub record ExactIntegers (fl : Float64) (is_nan is_inf : fl.F → Bool) : Type 0 where
  pub lt-one : (m : ℕ) → m < 0x20_0000_0000_0000 → fl.lt_f (fl.of_int m) fl.one_f ≡ (m == 0)
  pub sub-one :
      (m : ℕ) → m + 1 < 0x20_0000_0000_0000 → fl.sub_f (fl.of_int (m + 1)) fl.one_f ≡ fl.of_int m
  pub min-ints :
      (a b : ℕ)
      → a < 0x20_0000_0000_0000
      → b < 0x20_0000_0000_0000
      → fl.min_f (fl.of_int a) (fl.of_int b) ≡ fl.of_int (min a b)
  pub seconds-same : (t : ℕ) → fl.seconds t t ≡ fl.zero_f
  pub mul-zero :
      (x : fl.F)
      → is_nan x ≡ false
      → is_inf x ≡ false
      → fl.le_f x fl.zero_f ≡ false
      → fl.mul_f fl.zero_f x ≡ fl.zero_f
  pub add-zero : (m : ℕ) → fl.add_f (fl.of_int m) fl.zero_f ≡ fl.of_int m

pub record Bucket (F : Type 0) : Type 0 where
  pub tokens : F
  pub last : ℕ
  pub primed : Bool

module _ (fl : Float64) where
  open fl use {F, zero_f, one_f, of_int, seconds, le_f, lt_f, add_f, sub_f, mul_f, min_f}

  -- The zero value of a bucket.
  abbrev pub new_bucket : Bucket F
  new_bucket = record { tokens = zero_f; last = 0; primed = false }

  -- The tokens at `now`, before one is taken.
  unfoldable pub refill : Bucket F → ℕ → F → ℕ → F
  refill b now rate burst =
      if b.primed
      then min_f (of_int (max burst 1)) (add_f b.tokens (mul_f (seconds now b.last) rate))
      else of_int (max burst 1)

  -- bucket.take: the new bucket, and whether a token was there.
  unfoldable pub take_token : Bucket F → ℕ → F → ℕ → Bucket F × Bool
  unfolding refill
  take_token b now rate burst =
      if le_f rate zero_f
      then (b, true)
      else let tokens = refill b now rate burst in
        if lt_f tokens one_f
        then (record { tokens = tokens; last = now; primed = true }, false)
        else (record { tokens = sub_f tokens one_f; last = now; primed = true }, true)
