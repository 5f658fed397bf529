-- ===== src/Limits/World/Reach.antt =====
-- Sweeping keeps the invariant, so every sequence of operations does.
use proxy_acl.Base.{
  ℕ, ◌<◌, ◌≡◌, inl, inr, refl, ◌∙◌, Bool, true, false, List, [], ◌∷◌, arith, if◌then◌else◌,
}
use proxy_acl.Netip.{Addr}
use proxy_acl.Limits.Bucket.{Float64}
use proxy_acl.Limits.Suppression.{Entry}
use proxy_acl.Limits.Tracker.{Tracker, update, new_tracker, log_unknown}
use proxy_acl.Limits.Sweep.{
  Summary, Swept, clear_pending, forgotten, sweep_map, sweep, of_client, of_prefix,
}
use proxy_acl.Limits.World.{
  Handle, World, Op, acquire_op, release_op, allow_op, log_op, log_unknown_op, sweep_op, run,
  run_all, start,
}
use proxy_acl.Limits.World.Invariant.{count_open, Holds, InMaps, Inv, conns-update}
use proxy_acl.Limits.World.Steps.{WorldInv, acquire-Inv, release_at-Inv, allow-Inv, log_request-Inv}

module _ (fl : Float64) where
  open fl use {F}

  conns-clear_pending : (c : Entry F) → (clear_pending c).conns ≡ c.conns
  unfolding clear_pending
  conns-clear_pending c = grind arith

  module _ {ℓ} {K : Type ℓ} (now : ℕ) (label : K → Summary) where
    -- A sweep changes no entry's number of connections.
    conns-sweep_map :
        (heap : ℕ → Entry F) (m : List (K × ℕ)) (i : ℕ)
        → ((sweep_map fl now label heap m).heap i).conns ≡ (heap i).conns
    unfolding sweep_map
    conns-sweep_map heap [] i = refl
    conns-sweep_map heap ((k, id) ∷ m) i =
        conns-sweep_map (update fl heap id clear_pending) m i
        ∙ conns-update fl heap id clear_pending i (conns-clear_pending (heap id))

    kept_step :
        (heap : ℕ → Entry F) (k : K) (id : ℕ) (m kept : List (K × ℕ)) (i : ℕ) (b : Bool)
        → forgotten now (heap id) ≡ b
        → 0 < (heap i).conns
        → (Holds i m → Holds i kept)
        → Holds i ((k, id) ∷ m)
        → Holds i (if b then kept else (k, id) ∷ kept)
    unfolding forgotten
    kept_step heap k id m kept i false e busy later (inl here) = inl here
    kept_step heap k id m kept i false e busy later (inr h) = inr (later h)
    kept_step heap k id m kept i true e busy later (inl here) =
        let free : (heap i).conns ≡ 0 = rw here (ground (arith, e)) in
        absurd (omega (arith, busy, free))
    kept_step heap k id m kept i true e busy later (inr h) = later h

    -- It forgets no entry with a connection,
    kept-Holds :
        (heap : ℕ → Entry F) (m : List (K × ℕ)) (i : ℕ)
        → 0 < (heap i).conns
        → Holds i m
        → Holds i (sweep_map fl now label heap m).kept
    unfolding sweep_map
    kept-Holds heap [] i busy held = elim held [ ]
    kept-Holds heap ((k, id) ∷ m) i busy held =
        let after = update fl heap id clear_pending in
        let busy' : 0 < (after i).conns =
          rw (conns-update fl heap id clear_pending i (conns-clear_pending (heap id))) busy in
        kept_step heap k id m _ i (forgotten now (heap id)) refl busy (kept-Holds after m i busy')
          held

    earlier_step :
        (k : K) (id : ℕ) (m kept : List (K × ℕ)) (i : ℕ) (b : Bool)
        → (Holds i kept → Holds i m)
        → Holds i (if b then kept else (k, id) ∷ kept)
        → Holds i ((k, id) ∷ m)
    earlier_step k id m kept i true later h = inr (later h)
    earlier_step k id m kept i false later (inl here) = inl here
    earlier_step k id m kept i false later (inr h) = inr (later h)

    -- and adds none.
    Holds-kept :
        (heap : ℕ → Entry F) (m : List (K × ℕ)) (i : ℕ)
        → Holds i (sweep_map fl now label heap m).kept
        → Holds i m
    unfolding sweep_map
    Holds-kept heap [] i held = held
    Holds-kept heap ((k, id) ∷ m) i held =
        earlier_step k id m _ i (forgotten now (heap id))
          (Holds-kept (update fl heap id clear_pending) m i) held

  sweep-Inv : (t : Tracker F) (hs : List Handle) (now : ℕ) → Inv t hs → Inv (sweep fl t now).0 hs
  unfolding sweep
  sweep-Inv t hs now v = record {
    counted = λ i. conns-sweep_map now of_prefix a.heap t.overflow i ∙ after_clients i;
    summed = v.summed;
    mapped = λ i open_. elim (v.mapped i open_) [
      | inl c ↦
          let busy : 0 < (t.entries i).conns = rw (v.counted i) open_ in
          inl (kept-Holds now of_client t.entries t.clients i busy c)
      | inr o ↦
          let busy : 0 < (a.heap i).conns = rw (after_clients i) open_ in
          inr (kept-Holds now of_prefix a.heap t.overflow i busy o)
    ];
    maps_below = λ i held. v.maps_below i (earlier i held);
    unused = v.unused;
  }
    where
      a : Swept fl Addr
      a = sweep_map fl now of_client t.entries t.clients

      after_clients : (i : ℕ) → (a.heap i).conns ≡ count_open i hs
      after_clients i = conns-sweep_map now of_client t.entries t.clients i ∙ v.counted i

      earlier : (i : ℕ) → InMaps (sweep fl t now).0 i → InMaps t i
      earlier i (inl c) = inl (Holds-kept now of_client t.entries t.clients i c)
      earlier i (inr o) = inr (Holds-kept now of_prefix a.heap t.overflow i o)

  pub run-Inv : (w : World F) (op : Op F) → WorldInv fl w → WorldInv fl (run fl w op)
  unfolding run log_unknown
  run-Inv w (acquire_op ip lim max_total now) v =
      acquire-Inv fl w.tracker w.handles ip lim max_total now v
  run-Inv w (release_op i now) v = release_at-Inv fl w.tracker w.handles i now v
  run-Inv w (allow_op ip lim now) v = allow-Inv fl w.tracker w.handles ip lim now v
  run-Inv w (log_op ip k now) v = log_request-Inv fl w.tracker w.handles ip k now v
  run-Inv w (log_unknown_op text now) v = record {
    counted = v.counted;
    summed = v.summed;
    mapped = v.mapped;
    maps_below = v.maps_below;
    unused = v.unused;
  }
  run-Inv w (sweep_op now) v = sweep-Inv w.tracker w.handles now v

  run_all_keeps : (w : World F) (ops : List (Op F)) → WorldInv fl w → WorldInv fl (run_all fl w ops)
  unfolding run_all
  run_all_keeps w [] v = v
  run_all_keeps w (op ∷ ops) v = run_all_keeps (run fl w op) ops (run-Inv w op v)

  pub start-Inv : WorldInv fl (start fl)
  unfolding start new_tracker
  start-Inv = record {
    counted = λ i. refl;
    summed = refl;
    mapped = λ i open_. absurd (omega (arith, open_));
    maps_below = λ i held. elim held [ inl c ↦ absurd c | inr o ↦ absurd o ];
    unused = λ i far. refl;
  }

  -- For a new tracker and any sequence of calls of its operations and of the release functions that
  -- Acquire returned, in any order, at any times, each release function called any number of times:
  -- the total is the number of the connections that were acquired and not released, the count of
  -- every entry is the number of its own, and an entry with such a connection is in the map of
  -- clients or in that of prefixes, however often the tracker was swept.
  pub run_all-Inv : (ops : List (Op F)) → WorldInv fl (run_all fl (start fl) ops)
  run_all-Inv ops = run_all_keeps (start fl) ops start-Inv
