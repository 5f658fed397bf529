-- ===== src/Limits/World/Steps.antt =====
-- Each operation keeps the invariant of the tracker and its handles.
use proxy_acl.Base.{
  ℕ, zero, suc, ◌+◌, ◌≡◌, ◌⊎◌, inl, inr, refl, ap, Bool, true, false, ◌&&◌, List, [], ◌∷◌, arith,
  if◌then◌else◌, ◌==◌, ltb, leb, Bool-cases, ok, err,
}
use proxy_acl.Netip.{Addr}
use proxy_acl.Limits.Bucket.{Float64, Bucket, take_token}
use proxy_acl.Limits.Suppression.{SuppressedKey, Entry, log_rate, log_burst, suppress, log_line}
use proxy_acl.Limits.Tracker.{
  ClientLimits, LimitError, Tracker, update, set_entry, get_entry, admit_entry, acquire,
  release_entry, allow, log_request,
}
use proxy_acl.Limits.World.{Handle, World, release, release_at, with_handle}
use proxy_acl.Limits.World.Invariant.{
  count_open, open_total, InMaps, Inv, set_entry-Inv, get_entry-Located,
}

module _ (fl : Float64) where
  open fl use {F, of_int}

  abbrev pub WorldInv : World F → Type 0
  WorldInv w = Inv w.tracker w.handles

  admit_entry-Inv :
      (t : Tracker F) (id : ℕ) (lim : ClientLimits F) (hs : List Handle)
      → Inv t hs
      → InMaps t id
      → WorldInv (with_handle fl (admit_entry fl t id lim) hs)
  unfolding admit_entry set_entry update
  admit_entry-Inv t id lim hs v held =
      by_limit (ltb 0 lim.max_connections && leb lim.max_connections (t.entries id).conns)
    where
      by_limit :
          (b : Bool)
          → WorldInv (
              with_handle fl
                (if b then (t, err LimitError.client_connections) else (
                  record (set_entry fl t id (λ c. record c { conns = c.conns + 1 })) {
                    total = t.total + 1;
                  },
                  ok id,
                ))
                hs)
      by_limit true = v
      by_limit false = record {
        counted = λ i. ground (arith, v.counted i);
        summed = omega (arith, v.summed);
        mapped = λ i open_. elim (Bool-cases (id == i)) [
          | inl same ↦ let e : i ≡ id = ground arith in rw e held
          | inr other ↦ v.mapped i (ground arith)
        ];
        maps_below = v.maps_below;
        unused = λ i far. ground (arith, v.unused i far, v.maps_below id held);
      }

  pub acquire-Inv :
      (t : Tracker F) (hs : List Handle) (ip : Addr) (lim : ClientLimits F) (max_total now : ℕ)
      → Inv t hs
      → WorldInv (with_handle fl (acquire fl t ip lim max_total now) hs)
  unfolding acquire
  acquire-Inv t hs ip lim max_total now v = by_limit (ltb 0 max_total && leb max_total t.total)
    where
      by_limit :
          (b : Bool)
          → WorldInv (
              with_handle fl
                (if b
                  then (t, err LimitError.total_connections)
                  else (let (t', id) = get_entry fl t ip now in admit_entry fl t' id lim))
                hs)
      by_limit true = v
      by_limit false =
          let (inv, held) = get_entry-Located fl t ip now hs v in
          admit_entry-Inv _ _ lim hs inv held

  -- What a call of a release function does: nothing, or it ends one open connection.
  abbrev pub Released : Tracker F → List Handle → ℕ → Tracker F × List Handle → Type 0
  Released t hs now r =
      ((r.0 ≡ t) × (r.1 ≡ hs))
      ⊎ ((id : ℕ) × (r.0 ≡ release_entry fl t id now)
          × ((i : ℕ) → count_open i hs ≡ (if id == i then 1 else 0) + count_open i r.1)
          × (open_total hs ≡ suc (open_total r.1)))

  Released-first :
      (t : Tracker F) (hs : List Handle) (now id : ℕ) (b : Bool)
      → let h : Handle = record { entry = id; closed = b } in
        Released t (h ∷ hs) now ((release fl t h now).0, (release fl t h now).1 ∷ hs)
  unfolding release
  Released-first t hs now id true = inl (refl, refl)
  Released-first t hs now id false = inr (id, refl, λ i. omega arith, omega arith)

  Released-next :
      (t : Tracker F) (h : Handle) (hs : List Handle) (now : ℕ) (r : Tracker F × List Handle)
      → Released t hs now r
      → Released t (h ∷ hs) now (r.0, h ∷ r.1)
  Released-next t h hs now r (inl (same, list)) = inl (same, ap (λ l. h ∷ l) list)
  Released-next t h hs now r (inr (id, e, counts, all)) =
      inr (id, e, λ i. omega (arith, counts i), omega (arith, all))

  pub release_at-Released :
      (t : Tracker F) (hs : List Handle) (i now : ℕ) → Released t hs now (release_at fl t hs i now)
  unfolding release_at
  release_at-Released t [] i now = inl (refl, refl)
  release_at-Released t (h ∷ hs) zero now = Released-first t hs now h.entry h.closed
  release_at-Released t (h ∷ hs) (suc i) now =
      Released-next t h hs now (release_at fl t hs i now) (release_at-Released t hs i now)

  pub release_at-Inv :
      (t : Tracker F) (hs : List Handle) (i now : ℕ)
      → Inv t hs
      → Inv (release_at fl t hs i now).0 (release_at fl t hs i now).1
  unfolding release_entry set_entry update
  release_at-Inv t hs i now v = after (release_at fl t hs i now) (release_at-Released t hs i now)
    where
      after : (r : Tracker F × List Handle) → Released t hs now r → Inv r.0 r.1
      after r (inl (same, list)) = rw (same, list) v
      after r (inr (id, e, counts, all)) = rw e record {
        counted = λ j. ground (arith, v.counted j, counts j);
        summed = omega (arith, v.summed, all);
        mapped = λ j open_. v.mapped j (ground (arith, counts j));
        maps_below = v.maps_below;
        unused = λ j far. ground (arith, v.unused j far, counts j);
      }

  pub allow-Inv :
      (t : Tracker F) (hs : List Handle) (ip : Addr) (lim : ClientLimits F) (now : ℕ)
      → Inv t hs
      → Inv (allow fl t ip lim now).0 hs
  unfolding allow
  allow-Inv t hs ip lim now v =
      let r = get_entry fl t ip now in
      let (b, taken) =
        take_token fl (r.0.entries r.1).requests now lim.requests_per_second lim.request_burst in
      set_entry-Inv fl r.0 r.1 (λ c. record c { requests = b }) hs refl
        (get_entry-Located fl t ip now hs v).0

  conns-log_line :
      (c : Entry F) (now : ℕ) (k : SuppressedKey) → (log_line fl c now k).0.conns ≡ c.conns
  unfolding log_line suppress
  conns-log_line c now k = by_token (take_token fl c.logs now (of_int log_rate) log_burst)
    where
      by_token :
          (r : Bucket F × Bool)
          → let c' = record c { logs = r.0 } in
            let r' : Entry F × Bool = if r.1 then (c', true) else (suppress fl c' k, false) in
            r'.0.conns ≡ c.conns
      by_token (b, true) = refl
      by_token (b, false) = grind arith

  pub log_request-Inv :
      (t : Tracker F) (hs : List Handle) (ip : Addr) (k : SuppressedKey) (now : ℕ)
      → Inv t hs
      → Inv (log_request fl t ip k now).0 hs
  unfolding log_request
  log_request-Inv t hs ip k now v =
      let r = get_entry fl t ip now in
      let c = (log_line fl (r.0.entries r.1) now k).0 in
      set_entry-Inv fl r.0 r.1 (λ old. c) hs (conns-log_line (r.0.entries r.1) now k)
        (get_entry-Located fl t ip now hs v).0
