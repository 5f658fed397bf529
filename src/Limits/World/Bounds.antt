-- ===== src/Limits/World/Bounds.antt =====
-- The limits on connections hold after every sequence of operations.
use proxy_acl.Base.{
  ℕ, ◌+◌, ◌≤◌, ◌<◌, ◌≡◌, inl, inr, refl, Bool, true, false, ◌&&◌, List, [], ◌∷◌, arith,
  if◌then◌else◌, ltb, leb, ok, err, All,
}
use proxy_acl.Netip.{Addr}
use proxy_acl.Limits.Bucket.{Float64}
use proxy_acl.Limits.Tracker.{
  ClientLimits, LimitError, Tracker, set_entry, get_entry, admit_entry, acquire,
}
use proxy_acl.Limits.World.{
  Handle, World, Op, acquire_op, release_op, allow_op, log_op, log_unknown_op, sweep_op, release_at,
  with_handle, run, run_all, start,
}
use proxy_acl.Limits.World.Invariant.{count_open, open_total, Inv, get_entry-Located}
use proxy_acl.Limits.World.Steps.{WorldInv, Released, release_at-Released}
use proxy_acl.Limits.World.Reach.{run-Inv, start-Inv}

-- At most `m` open connections, and at most `c` of one entry.
abbrev pub Bounded : ℕ → ℕ → List Handle → Type 0
Bounded m c hs = (open_total hs ≤ m) × ((i : ℕ) → count_open i hs ≤ c)

module _ {F : Type 0} (m c : ℕ) where
  -- The limits that an Acquire gets are set, and at most `m` in all and `c` for a client.
  abbrev pub Within : Op F → Type 0
  Within (acquire_op ip lim max_total now) =
      (0 < max_total) × (max_total ≤ m) × (0 < lim.max_connections) × (lim.max_connections ≤ c)
  Within (release_op i now) = Unit
  Within (allow_op ip lim now) = Unit
  Within (log_op ip k now) = Unit
  Within (log_unknown_op text now) = Unit
  Within (sweep_op now) = Unit

module _ (fl : Float64) (m c : ℕ) where
  open fl use {F}

  admit_entry-Bounded :
      (t : Tracker F) (id : ℕ) (lim : ClientLimits F) (hs : List Handle)
      → Inv t hs
      → open_total hs < m
      → 0 < lim.max_connections
      → lim.max_connections ≤ c
      → Bounded m c hs
      → Bounded m c (with_handle fl (admit_entry fl t id lim) hs).handles
  unfolding admit_entry
  admit_entry-Bounded t id lim hs v room set_ limit b =
      by_limit (ltb 0 lim.max_connections && leb lim.max_connections (t.entries id).conns) refl
    where
      by_limit :
          (full : Bool)
          → (ltb 0 lim.max_connections && leb lim.max_connections (t.entries id).conns) ≡ full
          → Bounded m c
              (with_handle fl
                (if full then (t, err LimitError.client_connections) else (
                  record (set_entry fl t id (λ e. record e { conns = e.conns + 1 })) {
                    total = t.total + 1;
                  },
                  ok id,
                ))
                hs).handles
      by_limit true e = b
      by_limit false e = (
        omega (arith, room),
        λ i. ground (arith, e, v.counted id, v.counted i, b.1 i, set_, limit),
      )

  acquire-Bounded :
      (t : Tracker F) (hs : List Handle) (ip : Addr) (lim : ClientLimits F) (max_total now : ℕ)
      → Inv t hs
      → Within m c (acquire_op ip lim max_total now)
      → Bounded m c hs
      → Bounded m c (with_handle fl (acquire fl t ip lim max_total now) hs).handles
  unfolding acquire
  acquire-Bounded t hs ip lim max_total now v (some_total, total, some_conns, conns) b =
      by_limit (ltb 0 max_total && leb max_total t.total) refl
    where
      by_limit :
          (full : Bool)
          → (ltb 0 max_total && leb max_total t.total) ≡ full
          → Bounded m c
              (with_handle fl
                (if full
                  then (t, err LimitError.total_connections)
                  else (let (t', id) = get_entry fl t ip now in admit_entry fl t' id lim))
                hs).handles
      by_limit true e = b
      by_limit false e =
          let room : open_total hs < m = ground (arith, e, v.summed, some_total, total) in
          let r = get_entry fl t ip now in
          admit_entry-Bounded r.0 r.1 lim hs (get_entry-Located fl t ip now hs v).0 room some_conns
            conns b

  release-Bounded :
      (t : Tracker F) (hs : List Handle) (now : ℕ) (r : Tracker F × List Handle)
      → Released fl t hs now r
      → Bounded m c hs
      → Bounded m c r.1
  release-Bounded t hs now r (inl (same, list)) b = rw list b
  release-Bounded t hs now r (inr (id, e, counts, all)) b =
      (omega (arith, all, b.0), λ i. ground (arith, counts i, b.1 i))

  run-Bounded :
      (w : World F) (op : Op F)
      → WorldInv fl w
      → Within m c op
      → Bounded m c w.handles
      → Bounded m c (run fl w op).handles
  unfolding run
  run-Bounded w (acquire_op ip lim max_total now) v within b =
      acquire-Bounded w.tracker w.handles ip lim max_total now v within b
  run-Bounded w (release_op i now) v within b =
      release-Bounded w.tracker w.handles now (release_at fl w.tracker w.handles i now)
        (release_at-Released fl w.tracker w.handles i now) b
  run-Bounded w (allow_op ip lim now) v within b = b
  run-Bounded w (log_op ip k now) v within b = b
  run-Bounded w (log_unknown_op text now) v within b = b
  run-Bounded w (sweep_op now) v within b = b

  run_all_stays :
      (w : World F) (ops : List (Op F))
      → WorldInv fl w
      → All (Within m c) ops
      → Bounded m c w.handles
      → Bounded m c (run_all fl w ops).handles
  unfolding run_all
  run_all_stays w [] v within b = b
  run_all_stays w (op ∷ ops) v (first, rest) b =
      run_all_stays (run fl w op) ops (run-Inv fl w op v) rest (run-Bounded w op v first b)

  -- For a new tracker and any sequence of its operations in which every Acquire gets a total limit
  -- between 1 and `m` and a client's limit between 1 and `c`: there are at most `m` connections at the
  -- end that were acquired and not released, and at most `c` of every entry.
  pub run_all-Bounded :
      (ops : List (Op F)) → All (Within m c) ops → Bounded m c (run_all fl (start fl) ops).handles
  unfolding start
  run_all-Bounded ops within =
      run_all_stays (start fl) ops (start-Inv fl) within (omega arith, λ i. omega arith)
