-- ===== src/Config/Apply.antt =====
-- fileClientLimits.apply: the values it takes and the values it refuses.
use proxy_acl.Base.{
  Option, none, some, ℕ, ◌≤◌, ◌≡◌, ◌↔◌, refl, sym, ap, Bool, true, false, arith, ok,
}
use proxy_acl.Base.Ints.{ℤ, pos, negsuc, is_negative, magnitude}
use proxy_acl.Limits.Bucket.{Float64}
use proxy_acl.Limits.Tracker.{ClientLimits}
use proxy_acl.Config.{
  FileClientLimits, Draft, or_default, override, limits_of_draft, check_draft, apply,
}

pos-magnitude : (z : ℤ) → is_negative z ≡ false → pos (magnitude z) ≡ z
pos-magnitude (pos n) h = refl
pos-magnitude (negsuc n) h = ground (arith, h)

not_negative : {z : ℤ} {n : ℕ} → pos n ≡ z → is_negative z ≡ false
not_negative h = sym (ap is_negative h)

magnitude-pos : {z : ℤ} {n : ℕ} → pos n ≡ z → magnitude z ≡ n
magnitude-pos h = sym (ap magnitude h)

-- The value that is set, or else the base's.
abbrev pub Chosen : {A : Type 0} → Option A → A → A → Type 0
Chosen none base v = v ≡ base
Chosen (some a) base v = v ≡ a

chosen : {A : Type 0} (o : Option A) (base v : A) → v ≡ or_default o base → Chosen o base v
chosen none base v h = h
chosen (some a) base v h = h

unchosen : {A : Type 0} (o : Option A) (base v : A) → Chosen o base v → v ≡ or_default o base
unchosen none base v h = h
unchosen (some a) base v h = h

module _ (fl : Float64) (is_nan is_inf : fl.F → Bool) where
  open fl use {F, zero_f, lt_f}

  -- Limits with the values that the file sets, and those of the base elsewhere, none of them refused.
  pub record Taken (f : FileClientLimits F) (base l : ClientLimits F) : Type 0 where
    pub max_connections :
        Chosen f.client_connections (pos base.max_connections) (pos l.max_connections)
    pub rate : Chosen f.requests_per_second base.requests_per_second l.requests_per_second
    pub burst : Chosen f.request_burst (pos base.request_burst) (pos l.request_burst)
    pub idle :
        Chosen f.tunnel_idle_timeout (pos base.tunnel_idle_timeout) (pos l.tunnel_idle_timeout)
    pub a_number : is_nan l.requests_per_second ≡ false
    pub finite : is_inf l.requests_per_second ≡ false
    pub not_below_zero : lt_f l.requests_per_second zero_f ≡ false
    pub some_burst : lt_f zero_f l.requests_per_second ≡ true → 1 ≤ l.request_burst

  -- Limits with the values of the draft, none of them refused.
  record Drafted (d : Draft F) (l : ClientLimits F) : Type 0 where
    max_connections : pos l.max_connections ≡ d.max_connections
    rate : l.requests_per_second ≡ d.rate
    burst : pos l.request_burst ≡ d.burst
    idle : pos l.tunnel_idle_timeout ≡ d.idle
    a_number : is_nan l.requests_per_second ≡ false
    finite : is_inf l.requests_per_second ≡ false
    not_below_zero : lt_f l.requests_per_second zero_f ≡ false
    some_burst : lt_f zero_f l.requests_per_second ≡ true → 1 ≤ l.request_burst

  -- What the tests of the switch say once all of them are passed.
  abbrev Passed : Draft F → Type 0
  Passed d =
      (is_nan d.rate ≡ false)
      × (is_inf d.rate ≡ false)
      × (is_negative d.max_connections ≡ false)
      × (lt_f d.rate zero_f ≡ false)
      × (is_negative d.burst ≡ false)
      × (is_negative d.idle ≡ false)
      × (lt_f zero_f d.rate ≡ true → 1 ≤ magnitude d.burst)

  check_draft-Passed :
      (d : Draft F) {l : ClientLimits F}
      → check_draft fl is_nan is_inf d ≡ ok l
      → (l ≡ limits_of_draft fl is_nan is_inf d) × Passed d
  unfolding check_draft
  check_draft-Passed d h = ground arith

  Passed-Drafted : (d : Draft F) → Passed d → Drafted d (limits_of_draft fl is_nan is_inf d)
  Passed-Drafted d (number, finite, connections, rate, burst, idle, some_burst) = record {
    max_connections = pos-magnitude d.max_connections connections;
    rate = refl;
    burst = pos-magnitude d.burst burst;
    idle = pos-magnitude d.idle idle;
    a_number = number;
    finite = finite;
    not_below_zero = rate;
    some_burst = some_burst;
  }

  Drafted-check_draft :
      (d : Draft F) {l : ClientLimits F} → Drafted d l → check_draft fl is_nan is_inf d ≡ ok l
  unfolding check_draft
  Drafted-check_draft d {l} t =
      rw
        (
          sym t.max_connections,
          sym t.rate,
          sym t.burst,
          sym t.idle,
          t.a_number,
          t.finite,
          t.not_below_zero,
        )
        (ground (arith, t.some_burst))

  Drafted-Taken :
      (f : FileClientLimits F) (base l : ClientLimits F)
      → Drafted (override fl is_nan is_inf f base) l
      → Taken f base l
  Drafted-Taken f base l t = record {
    max_connections = chosen f.client_connections _ _ t.max_connections;
    rate = chosen f.requests_per_second _ _ t.rate;
    burst = chosen f.request_burst _ _ t.burst;
    idle = chosen f.tunnel_idle_timeout _ _ t.idle;
    a_number = t.a_number;
    finite = t.finite;
    not_below_zero = t.not_below_zero;
    some_burst = t.some_burst;
  }

  Taken-Drafted :
      (f : FileClientLimits F) (base l : ClientLimits F)
      → Taken f base l
      → Drafted (override fl is_nan is_inf f base) l
  Taken-Drafted f base l t = record {
    max_connections = unchosen f.client_connections _ _ t.max_connections;
    rate = unchosen f.requests_per_second _ _ t.rate;
    burst = unchosen f.request_burst _ _ t.burst;
    idle = unchosen f.tunnel_idle_timeout _ _ t.idle;
    a_number = t.a_number;
    finite = t.finite;
    not_below_zero = t.not_below_zero;
    some_burst = t.some_burst;
  }

  -- apply succeeds with some limits exactly if each of these is the value of the file, or of the base
  -- where the file has none, none of them is negative, the rate is a finite number, and the burst is at
  -- least 1 if the rate is above 0.
  pub apply-ok_iff :
      (f : FileClientLimits F) (base l : ClientLimits F)
      → (apply fl is_nan is_inf f base ≡ ok l) ↔ Taken f base l
  unfolding apply
  apply-ok_iff f base l = (
    λ h.
        let (e, passed) = check_draft-Passed (override fl is_nan is_inf f base) h in
        Drafted-Taken f base l (rw e (Passed-Drafted (override fl is_nan is_inf f base) passed)),
    λ t. Drafted-check_draft (override fl is_nan is_inf f base) (Taken-Drafted f base l t),
  )
