-- ===== src/Samples/Limits.antt =====
-- The tracker and the bucket, over a clock of whole nanoseconds and a rate of tokens for each.
use proxy_acl.Base.{
  Bool, false, ℕ, ◌+◌, ◌-◌, ◌≤◌, ◌<◌, ◌≡◌, refl, List, [], ◌∷◌, arith, ltb, leb, min, if◌then◌else◌,
  err, All, ◌*◌,
}
use proxy_acl.Base.Text.{codes}
use proxy_acl.Netip.{v4}
use proxy_acl.Limits.Bucket.{Float64, ExactIntegers, new_bucket}
use proxy_acl.Limits.Bucket.Burst.{granted, granted-new_bucket}
use proxy_acl.Limits.Suppression.{SuppressedKey, new_entry, log_line}
use proxy_acl.Limits.Suppression.Counting.{Recorded, KeysBounded, pending, log_line-counted}
use proxy_acl.Limits.Tracker.{ClientLimits, LimitError, acquire}
use proxy_acl.Limits.World.{
  Op, acquire_op, release_op, allow_op, log_op, log_unknown_op, sweep_op, run_all, start,
}
use proxy_acl.Limits.World.Steps.{WorldInv}
use proxy_acl.Limits.World.Reach.{run_all-Inv}
use proxy_acl.Limits.World.Bounds.{Bounded, Within, run_all-Bounded}

abbrev pub whole : Float64
whole = record {
  F = ℕ;
  zero_f = 0;
  one_f = 1;
  of_int = λ n. n;
  seconds = λ now last. now - last;
  le_f = leb;
  lt_f = ltb;
  add_f = λ a b. a + b;
  sub_f = λ a b. a - b;
  mul_f = λ a b. a * b;
  min_f = min;
}

-- No whole number is NaN or infinite.
abbrev pub never : ℕ → Bool
never x = false

whole-exact : ExactIntegers whole never never
whole-exact = record {
  lt-one = λ m small. ground arith;
  sub-one = λ m small. omega arith;
  min-ints = λ a b small_a small_b. refl;
  seconds-same = λ t. omega arith;
  mul-zero = λ x number finite positive. omega arith;
  add-zero = λ m. omega arith;
}

granted-new_bucket_example : granted whole never never whole-exact 5 (new_bucket whole) 9 1 3 ≡ 3
granted-new_bucket_example =
    granted-new_bucket whole never never whole-exact 5 9 3 1 refl refl refl (omega arith)

abbrev denied : SuppressedKey
denied = record { action = codes "deny"; host = codes "x.org" }

log_line-counted_example :
    Recorded whole
      (new_entry whole)
      denied
      (log_line whole (new_entry whole) 7 denied).0
      (log_line whole (new_entry whole) 7 denied).1
    × (pending whole (log_line whole (new_entry whole) 7 denied).0 ≡ (
        if (log_line whole (new_entry whole) 7 denied).1
        then pending whole (new_entry whole)
        else pending whole (new_entry whole) + 1))
    × KeysBounded whole (log_line whole (new_entry whole) 7 denied).0
log_line-counted_example = log_line-counted whole (new_entry whole) 7 denied (omega arith)

abbrev pub two_each : ClientLimits ℕ
two_each = record {
  max_connections = 2;
  requests_per_second = 1;
  request_burst = 3;
  tunnel_idle_timeout = 0;
}

-- Two clients; the first's third connection is refused, and a release is called twice.
abbrev calls : List (Op ℕ)
calls =
    acquire_op (v4 7) two_each 3 1
    ∷ acquire_op (v4 7) two_each 3 2
    ∷ acquire_op (v4 7) two_each 3 3
    ∷ acquire_op (v4 9) two_each 3 4
    ∷ acquire_op (v4 8) two_each 3 5
    ∷ release_op 1 6
    ∷ release_op 1 7
    ∷ allow_op (v4 9) two_each 8
    ∷ log_op (v4 9) denied 8
    ∷ log_unknown_op (codes "203.0.113.1") 8
    ∷ sweep_op 400_000_000_000
    ∷ []

two_left : (run_all whole (start whole) calls).tracker.total ≡ 2
unfolding run_all start
two_left = refl

third_refused :
    (acquire whole (run_all whole (start whole) calls).tracker (v4 9) two_each 2 9).1
    ≡ err LimitError.total_connections
unfolding run_all start acquire
third_refused = refl

run_all-Inv_example : WorldInv whole (run_all whole (start whole) calls)
run_all-Inv_example = run_all-Inv whole calls

abbrev kind : (0 < 3) × (3 ≤ 3) × (0 < 2) × (2 ≤ 2)
kind = (omega arith, omega arith, omega arith, omega arith)

calls-Within : All (Within 3 2) calls
calls-Within = (kind, (kind, (kind, (kind, (kind, (tt, (tt, (tt, (tt, (tt, (tt, tt)))))))))))

run_all-Bounded_example : Bounded 3 2 (run_all whole (start whole) calls).handles
run_all-Bounded_example = run_all-Bounded whole 3 2 calls calls-Within
