-- ===== src/Proxy/Listener/Admitted.antt =====
-- What Accept leaves: one more open connection if it returns one, of a client in a subnet, and none
-- otherwise.
use proxy_acl.Base.{
  ◌⊎◌, ◌++◌, ℕ, ◌+◌, ◌≡◌, refl, inl, inr, ap, sym, arith, ◌∙◌, Bool, true, false, Option, none,
  some, List, [], ◌∷◌, if◌then◌else◌, is_empty, Result, ok, err,
}
use proxy_acl.Acl.Subnets.{Subnet, subnet_of}
use proxy_acl.Config.{Config, client_limits_of}
use proxy_acl.Limits.Bucket.{Float64}
use proxy_acl.Limits.Tracker.{LimitError, Tracker, acquire}
use proxy_acl.Limits.World.{World, log_op, log_unknown_op, run, with_handle}
use proxy_acl.Limits.World.Invariant.{Inv, open_total}
use proxy_acl.Limits.World.Steps.{WorldInv, acquire-Inv}
use proxy_acl.Limits.World.Reach.{run-Inv}
use proxy_acl.Proxy.Listener.{
  Incoming, connection_key, remote_addr, log_rejected, admit_result, admit_in, admit, accept,
}

module _ (fl : Float64) (enabled : Bool) where
  open fl use {F}

  log_rejected-Inv :
      (w : World F) (c : Incoming) (subnet : _)
      → WorldInv fl w
      → Inv (log_rejected fl enabled w.tracker c subnet) w.handles
  unfolding log_rejected run
  log_rejected-Inv w c subnet v = by_level enabled (is_empty subnet)
    where
      by_level :
          (on blank : Bool)
          → Inv
              (if on
                then (if blank
                    then (run fl w (log_unknown_op c.addr_text c.later)).tracker
                    else (run fl w (log_op (remote_addr c) connection_key c.later)).tracker)
                else w.tracker)
              w.handles
      by_level false blank = v
      by_level true true = run-Inv fl w (log_unknown_op c.addr_text c.later) v
      by_level true false = run-Inv fl w (log_op (remote_addr c) connection_key c.later) v

  -- The world of a rejected connection has the handles it had; that of an admitted one has one more,
  -- which is open.
  record Kept (w w' : World F) (admitted : Bool) : Type 0 where
    sound : WorldInv fl w'
    rejected : admitted ≡ false → w'.handles ≡ w.handles
    taken :
        admitted ≡ true
        → (id : ℕ) × (w'.handles ≡ record { entry = id; closed = false } ∷ w.handles)

  admit_result-Kept :
      (w : World F) (c : Incoming) (s : Subnet) (r : Tracker F × Result LimitError ℕ)
      → (log : (t : Tracker F)
          → Inv t w.handles
          → Inv (log_rejected fl enabled t c s.name) w.handles)
      → WorldInv fl (with_handle fl r w.handles)
      → Kept w (admit_result fl enabled w c s r).0 (admit_result fl enabled w c s r).1
  unfolding admit_result
  admit_result-Kept w c s (t, ok id) log v = record {
    sound = v;
    rejected = λ h. cc;
    taken = λ h. (id, refl);
  }
  admit_result-Kept w c s (t, err e) log v = record {
    sound = log t v;
    rejected = λ h. refl;
    taken = λ h. cc;
  }

  total-handles :
      (w w' : World F)
      → WorldInv fl w
      → WorldInv fl w'
      → w'.handles ≡ w.handles
      → w'.tracker.total ≡ w.tracker.total
  total-handles w w' v v' same = v'.summed ∙ ap open_total same ∙ sym v.summed

  admit_result-Refused :
      (w : World F) (c : Incoming) (s : Subnet) (r : Tracker F × Result LimitError ℕ)
      → (admit_result fl enabled w c s r).1 ≡ false
      → (e : LimitError) × (r.1 ≡ err e)
  unfolding admit_result
  admit_result-Refused w c s (t, ok id) h = cc
  admit_result-Refused w c s (t, err e) h = (e, refl)

  module _ {L : Type 0} where
    admit_in-Kept :
        (cfg : Config L F) (w : World F) (c : Incoming) (o : Option Subnet)
        → WorldInv fl w
        → Kept w (admit_in fl enabled cfg w c o).0 (admit_in fl enabled cfg w c o).1
    unfolding admit_in
    admit_in-Kept cfg w c none v = record {
      sound = log_rejected-Inv w c [] v;
      rejected = λ h. refl;
      taken = λ h. cc;
    }
    admit_in-Kept cfg w c (some s) v =
        admit_result-Kept w c s
          (acquire fl w.tracker (remote_addr c) (client_limits_of cfg (some s))
            cfg.total_connections c.now)
          (λ t i. log_rejected-Inv (record w { tracker = t }) c s.name i)
          (acquire-Inv fl w.tracker w.handles (remote_addr c) (client_limits_of cfg (some s))
            cfg.total_connections c.now v)

    admit_in-subnet :
        (cfg : Config L F) (w : World F) (c : Incoming) (o : Option Subnet)
        → (admit_in fl enabled cfg w c o).1 ≡ true
        → (s : Subnet) × (o ≡ some s)
    unfolding admit_in
    admit_in-subnet cfg w c none h = cc
    admit_in-subnet cfg w c (some s) h = (s, refl)

    admit-Kept :
        (cfg : Config L F) (w : World F) (c : Incoming)
        → WorldInv fl w
        → Kept w (admit fl enabled cfg w c).0 (admit fl enabled cfg w c).1
    unfolding admit
    admit-Kept cfg w c v = admit_in-Kept cfg w c (subnet_of cfg.policy (remote_addr c)) v

    admit-subnet :
        (cfg : Config L F) (w : World F) (c : Incoming)
        → (admit fl enabled cfg w c).1 ≡ true
        → (s : Subnet) × (subnet_of cfg.policy (remote_addr c) ≡ some s)
    unfolding admit
    admit-subnet cfg w c h = admit_in-subnet cfg w c (subnet_of cfg.policy (remote_addr c)) h

    -- A connection is refused for want of a subnet, or because Acquire has an error.
    abbrev pub Refused : Config L F → World F → Incoming → Type 0
    Refused cfg w c =
        (subnet_of cfg.policy (remote_addr c) ≡ none)
        ⊎ ((s : Subnet) × (e : LimitError) × (subnet_of cfg.policy (remote_addr c) ≡ some s)
            × ((acquire fl w.tracker (remote_addr c) (client_limits_of cfg (some s))
                  cfg.total_connections c.now).1
                ≡ err e))

    -- Each of the connections is refused in the world that the refusals before it left.
    abbrev pub AllRefused : List (Config L F × Incoming) → World F → World F → Type 0
    AllRefused [] w w' = w' ≡ w
    AllRefused ((cfg, c) ∷ incoming) w w' =
        Refused cfg w c × AllRefused incoming (admit fl enabled cfg w c).0 w'

    admit_in-Refused :
        (cfg : Config L F) (w : World F) (c : Incoming) (o : Option Subnet)
        → subnet_of cfg.policy (remote_addr c) ≡ o
        → (admit_in fl enabled cfg w c o).1 ≡ false
        → Refused cfg w c
    unfolding admit_in
    admit_in-Refused cfg w c none o h = inl o
    admit_in-Refused cfg w c (some s) o h =
        let (e, refused) = admit_result-Refused w c s _ h in inr (s, e, o, refused)

    admit-Refused :
        (cfg : Config L F) (w : World F) (c : Incoming)
        → (admit fl enabled cfg w c).1 ≡ false
        → Refused cfg w c
    unfolding admit
    admit-Refused cfg w c h = admit_in-Refused cfg w c (subnet_of cfg.policy (remote_addr c)) refl h

    -- What Accept has done to a world.
    abbrev pub Accepted :
        List (Config L F × Incoming)
        → World F
        → World F × Option (Incoming × List (Config L F × Incoming))
        → Type 0
    Accepted incoming w (w', none) =
        AllRefused incoming w w' × (w'.handles ≡ w.handles) × (w'.tracker.total ≡ w.tracker.total)
    Accepted incoming w (w', some (c, rest)) =
        ((skipped : List (Config L F × Incoming)) × (cfg : Config L F) × (s : Subnet)
          × (between : World F) × (incoming ≡ skipped ++ (cfg, c) ∷ rest)
          × AllRefused skipped w between
          × (subnet_of cfg.policy (remote_addr c) ≡ some s))
        × ((id : ℕ) × (w'.handles ≡ record { entry = id; closed = false } ∷ w.handles))
        × (w'.tracker.total ≡ w.tracker.total + 1)

    -- Connections that were rejected before leave no trace.
    Accepted-later :
        (cfg : Config L F) (c : Incoming) (rest : List (Config L F × Incoming)) (w : World F)
        (r : World F × Option (Incoming × List (Config L F × Incoming)))
        → Refused cfg w c
        → (admit fl enabled cfg w c).0.handles ≡ w.handles
        → (admit fl enabled cfg w c).0.tracker.total ≡ w.tracker.total
        → Accepted rest (admit fl enabled cfg w c).0 r
        → Accepted ((cfg, c) ∷ rest) w r
    Accepted-later cfg c rest w (w', none) refused handles total (all, h, t) =
        ((refused, all), h ∙ handles, t ∙ total)
    Accepted-later cfg c rest w (w', some (d, left)) refused handles total
          ((skipped, other, s, between, split, all, subnet), (id, h), t) =
        (
          (
            (cfg, c) ∷ skipped,
            other,
            s,
            between,
            ap (λ l. (cfg, c) ∷ l) split,
            (refused, all),
            subnet,
          ),
          (id, h ∙ ap (λ hs. record { entry = id; closed = false } ∷ hs) handles),
          t ∙ ap (λ n. n + 1) total,
        )

    -- In a world whose counters are right, they still are after Accept. If Accept returns a connection,
    -- all that came in before it were refused, for want of a subnet or by Acquire, those behind it are
    -- still to come, its client is in a subnet of the config at that time, and exactly one connection
    -- was added to those counted, which is open. If it returns none, all connections that came in were
    -- refused so, and none is counted that was not before.
    pub accept-Accepted :
        (incoming : List (Config L F × Incoming)) (w : World F)
        → WorldInv fl w
        → WorldInv fl (accept fl enabled incoming w).0
          × Accepted incoming w (accept fl enabled incoming w)
    unfolding accept
    accept-Accepted [] w v = (v, (refl, refl, refl))
    accept-Accepted ((cfg, c) ∷ rest) w v =
        let k = admit-Kept cfg w c v in
        by_admission (admit fl enabled cfg w c).1 refl k
          (accept fl enabled rest (admit fl enabled cfg w c).0)
          (accept-Accepted rest (admit fl enabled cfg w c).0 k.sound)
      where
        by_admission :
            (b : Bool)
            → (admit fl enabled cfg w c).1 ≡ b
            → Kept w (admit fl enabled cfg w c).0 (admit fl enabled cfg w c).1
            → (onward : World F × Option (Incoming × List (Config L F × Incoming)))
            → WorldInv fl onward.0 × Accepted rest (admit fl enabled cfg w c).0 onward
            → let r : World F × Option (Incoming × List (Config L F × Incoming)) =
                if b then ((admit fl enabled cfg w c).0, some (c, rest)) else onward in
              WorldInv fl r.0 × Accepted ((cfg, c) ∷ rest) w r
        by_admission true h k onward after =
            let (id, handles) = k.taken h in
            let (s, subnet) = admit-subnet cfg w c h in
            (
              k.sound,
              (
                ([], cfg, s, w, refl, refl, subnet),
                (id, handles),
                k.sound.summed ∙ ap open_total handles ∙ omega (arith, v.summed),
              ),
            )
        by_admission false h k onward (sound, after) =
            let same = k.rejected h in
            (
              sound,
              Accepted-later cfg c rest w onward (admit-Refused cfg w c h) same
                  (total-handles w (admit fl enabled cfg w c).0 v k.sound same) after,
            )
