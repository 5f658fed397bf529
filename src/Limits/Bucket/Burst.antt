-- ===== src/Limits/Bucket/Burst.antt =====
-- A bucket starts full: of any number of requests at one moment, it grants exactly the burst.
use proxy_acl.Base.{
  ℕ, zero, suc, ◌+◌, ◌≤◌, ◌<◌, ◌≡◌, refl, ap, ◌∙◌, Bool, true, false, max, min, arith,
  if◌then◌else◌, ◌==◌,
}
use proxy_acl.Limits.Bucket.{Float64, ExactIntegers, Bucket, new_bucket, refill, take_token}

module _ (fl : Float64) (is_nan is_inf : fl.F → Bool) (exact : ExactIntegers fl is_nan is_inf) where
  open fl use {F, zero_f, one_f, of_int, seconds, le_f, lt_f, add_f, sub_f, mul_f, min_f}

  -- The results of `n` calls at one time, counted.
  pub granted : ℕ → Bucket F → ℕ → F → ℕ → ℕ
  granted zero b now rate burst = 0
  granted (suc n) b now rate burst =
      let (b', taken) = take_token fl b now rate burst in
      let rest = granted n b' now rate burst in if taken then rest + 1 else rest

  -- A full bucket, or one that was read at this time and holds `m` whole tokens.
  abbrev HoldsAt : ℕ → Bucket F → ℕ → Type 0
  HoldsAt now b m = ◌≡◌ {A = Bucket F} b (record { tokens = of_int m; last = now; primed = true })

  -- A positive finite number.
  abbrev Positive : F → Type 0
  Positive x = (is_nan x ≡ false) × (is_inf x ≡ false) × (le_f x zero_f ≡ false)

  refill-Holds :
      (m now burst : ℕ) (rate : F) (b : Bucket F)
      → HoldsAt now b m
      → Positive rate
      → m ≤ max burst 1
      → max burst 1 < 0x20_0000_0000_0000
      → refill fl b now rate burst ≡ of_int m
  unfolding refill
  refill-Holds m now burst rate b h positive fits small =
      let least : min (max burst 1) m ≡ m = omega arith in
      rw h (
        rw (
          exact.seconds-same now,
          exact.mul-zero rate positive.0 positive.1 positive.2,
          exact.add-zero m,
          exact.min-ints (max burst 1) m small (omega arith),
          least,
        ))

  holding : ℕ → ℕ → Bucket F
  holding m now = record { tokens = of_int m; last = now; primed = true }

  -- With tokens left one is taken; with none the request is refused.
  take_token-none :
      (now burst : ℕ) (rate : F) (b : Bucket F)
      → le_f rate zero_f ≡ false
      → refill fl b now rate burst ≡ of_int 0
      → take_token fl b now rate burst ≡ (holding 0 now, false)
  unfolding take_token holding
  take_token-none now burst rate b positive full = rw (positive, full, exact.lt-one 0 (omega arith))

  take_token-some :
      (m now burst : ℕ) (rate : F) (b : Bucket F)
      → le_f rate zero_f ≡ false
      → m + 1 < 0x20_0000_0000_0000
      → refill fl b now rate burst ≡ of_int (m + 1)
      → take_token fl b now rate burst ≡ (holding m now, true)
  unfolding take_token holding
  take_token-some m now burst rate b positive small full =
      let many : (m + 1 == 0) ≡ false = ground arith in
      rw (positive, full, exact.lt-one (m + 1) small, many, exact.sub-one m small)

  module _ (now burst : ℕ) (rate : F) (positive : Positive rate)
      (small : max burst 1 < 0x20_0000_0000_0000) where
    granted_by :
        (n m : ℕ) (b : Bucket F)
        → m ≤ max burst 1
        → refill fl b now rate burst ≡ of_int m
        → granted n b now rate burst ≡ min n m
    unfolding granted
    granted_by zero m b fits full = omega arith
    granted_by (suc n) zero b fits full = rw (take_token-none now burst rate b positive.2 full) (
        granted_by n 0 (holding 0 now) (omega arith)
          (unfold holding in refill-Holds 0 now burst rate _ refl positive (omega arith) small)
        ∙ omega arith)
    granted_by (suc n) (suc m) b fits full =
        let e : suc m ≡ m + 1 = omega arith in
        let full' : refill fl b now rate burst ≡ of_int (m + 1) = full ∙ ap of_int e in
        rw (take_token-some m now burst rate b positive.2 (omega arith) full') (
          let rest =
            granted_by n m (holding m now) (omega arith) (
              unfold holding in
              refill-Holds m now burst rate _ refl positive (omega arith) small) in
          omega arith)

  -- If the rate is a finite positive number and the burst exactly representable, a new bucket grants
  -- exactly the burst, but at least one, of the requests made at one time, and refuses the others.
  pub granted-new_bucket :
      (n now burst : ℕ) (rate : F)
      → is_nan rate ≡ false
      → is_inf rate ≡ false
      → le_f rate zero_f ≡ false
      → max burst 1 < 0x20_0000_0000_0000
      → granted n (new_bucket fl) now rate burst ≡ min n (max burst 1)
  granted-new_bucket n now burst rate number finite positive small =
      granted_by now burst rate (number, finite, positive) small n (max burst 1) (new_bucket fl)
        (omega arith) (unfold refill in refl)
