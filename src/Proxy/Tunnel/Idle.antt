-- ===== src/Proxy/Tunnel/Idle.antt =====
-- A tunnel is closed as idle exactly when neither direction has carried data for the whole timeout.
use proxy_acl.Base.{
  ℕ, ◌+◌, ◌≤◌, ◌≡◌, ◌↔◌, refl, inl, inr, Bool, true, false, some, List, [], ◌∷◌, ◌++◌,
  if◌then◌else◌, ltb, leb, arith, All, All-map, All-Member, Member, Bool-cases,
}
use proxy_acl.Proxy.Tunnel.{
  CopyError, end_of_file, deadline_exceeded, net_closed, copy_failed, tunnel_idle, Place, copying,
  deciding, returned, Pipe, Direction, up, down, Tunnel, Move, copied, decided, pipe_of, set_pipe,
  decide, finish_pipe, move_from, move, run_pipes, new_tunnel,
}

-- The newest of some times.
abbrev Newest : ℕ → List ℕ → Type 0
Newest x times = Member x times × All (λ τ. τ ≤ x) times

Newest-cons : (x now : ℕ) (times : List ℕ) → x ≤ now → Newest x times → Newest now (now ∷ times)
Newest-cons x now times later k = (
  inl refl,
  (omega arith, All-map (λ τ. τ ≤ x) (λ τ. τ ≤ now) times (λ τ h. omega (arith, h, later)) k.1),
)

Newest-All :
    (idle x now : ℕ) (times : List ℕ)
    → Newest x times
    → (x + idle ≤ now) ↔ All (λ τ. τ + idle ≤ now) times
Newest-All idle x now times k = (
  λ h. All-map (λ τ. τ ≤ x) (λ τ. τ + idle ≤ now) times (λ τ below. omega (arith, h, below)) k.1,
  λ all. All-Member (λ τ. τ + idle ≤ now) times all k.0,
)

module _ {E : Type 0} where
  -- The time at which a move carries data, if it is one that the pipe makes.
  abbrev pub carried : Place E → Move E → List ℕ
  carried (copying deadline) (copied now n e) = if ltb 0 n then now ∷ [] else []
  carried place m = []

  module _ (idle : ℕ) (can_close_write : Direction → Bool) where
    -- The times at which the moves carried data, the newest first, behind those that are given.
    unfoldable pub data_times : List (Direction × Move E) → Tunnel E → List ℕ → List ℕ
    data_times [] t seen = seen
    data_times ((d, m) ∷ moves) t seen =
        data_times moves (move idle can_close_write d m t) (carried (pipe_of d t).place m ++ seen)

    -- No copy returns before the last data that the tunnel has seen.
    unfoldable pub InOrder : List (Direction × Move E) → Tunnel E → Type 0
    InOrder [] t = Unit
    InOrder ((d, m) ∷ moves) t =
        All (λ τ. t.last ≤ τ) (carried (pipe_of d t).place m)
        × InOrder moves (move idle can_close_write d m t)

    pub last-set_pipe : (d : Direction) (p : _) (t : Tunnel E) → (set_pipe d p t).last ≡ t.last
    last-set_pipe up p t = refl
    last-set_pipe down p t = refl

    last-finish_pipe :
        (d : Direction) (e : CopyError E) (t : Tunnel E)
        → (finish_pipe idle can_close_write d e t).0.last ≡ t.last
    unfolding finish_pipe
    last-finish_pipe up end_of_file t = elim (Bool-cases (can_close_write up)) [
      | inl can ↦ rw can refl
      | inr cannot ↦ rw cannot refl
    ]
    last-finish_pipe down end_of_file t = elim (Bool-cases (can_close_write down)) [
      | inl can ↦ rw can refl
      | inr cannot ↦ rw cannot refl
    ]
    last-finish_pipe d deadline_exceeded t = refl
    last-finish_pipe d net_closed t = refl
    last-finish_pipe d (copy_failed e) t = refl

    last-decide :
        (d : Direction) (now next : ℕ) (e : CopyError E) (t : Tunnel E)
        → (decide idle can_close_write d now next e t).0.last ≡ t.last
    unfolding decide
    last-decide d now next deadline_exceeded t = elim (Bool-cases (leb (t.last + idle) now)) [
      | inl met ↦ rw met refl
      | inr not_yet ↦ rw not_yet refl
    ]
    last-decide d now next end_of_file t = last-finish_pipe d end_of_file t
    last-decide d now next net_closed t = last-finish_pipe d net_closed t
    last-decide d now next (copy_failed e) t = last-finish_pipe d (copy_failed e) t

    move_from-Newest :
        (d : Direction) (place : Place E) (m : Move E) (t : Tunnel E) (seen : List ℕ)
        → All (λ τ. t.last ≤ τ) (carried place m)
        → Newest t.last seen
        → Newest (move_from idle can_close_write d place m t).last (carried place m ++ seen)
    unfolding move_from
    move_from-Newest d (copying deadline) (copied now n e) t seen later k =
        rw (last-set_pipe d _ (if ltb 0 n then record t { last = now } else t))
          (by_data (ltb 0 n) later)
      where
        by_data :
            (b : Bool)
            → All (λ τ. t.last ≤ τ) (if b then now ∷ [] else [])
            → Newest
                (if b then record t { last = now } else t).last
                ((if b then now ∷ [] else []) ++ seen)
        by_data true after = Newest-cons t.last now seen after.0 k
        by_data false after = k
    move_from-Newest d (deciding e) (decided now next) t seen later k =
        rw
          (
            last-set_pipe d _ (decide idle can_close_write d now next e t).0,
            last-decide d now next e t,
          )
          k
    move_from-Newest d (copying deadline) (decided now next) t seen later k = k
    move_from-Newest d (deciding e) (copied now n e') t seen later k = k
    move_from-Newest d (returned r) m t seen later k = k

    run_pipes-Newest :
        (moves : List (Direction × Move E)) (t : Tunnel E) (seen : List ℕ)
        → InOrder moves t
        → Newest t.last seen
        → Newest (run_pipes idle can_close_write moves t).last (data_times moves t seen)
    unfolding run_pipes data_times InOrder move
    run_pipes-Newest [] t seen ordered k = k
    run_pipes-Newest ((d, m) ∷ moves) t seen (later, ordered) k =
        run_pipes-Newest moves (move idle can_close_write d m t)
          (carried (pipe_of d t).place m ++ seen) ordered
          (move_from-Newest d (pipe_of d t).place m t seen later k)

    pub pipe_of-set_pipe :
        (d : Direction) (p : Pipe E) (t : Tunnel E) → pipe_of d (set_pipe d p t) ≡ p
    pipe_of-set_pipe up p t = refl
    pipe_of-set_pipe down p t = refl

    -- What the switch does on a deadline.
    decide_iff :
        (d : Direction) (now next : ℕ) (t : Tunnel E)
        → ((decide idle can_close_write d now next deadline_exceeded t).1
            ≡ returned (some tunnel_idle))
          ↔ (t.last + idle ≤ now)
    unfolding decide
    decide_iff d now next t = elim (Bool-cases (leb (t.last + idle) now)) [
      | inl met ↦ rw met (λ h. ground arith, λ h. refl)
      | inr not_yet ↦ rw not_yet (λ h. cc, λ h. ground arith)
    ]

    new_tunnel-Newest :
        (start up_start down_start : ℕ) (t : Tunnel E)
        → t ≡ new_tunnel idle can_close_write start up_start down_start
        → Newest t.last (start ∷ [])
    unfolding new_tunnel
    new_tunnel-Newest start up_start down_start t h = rw h (inl refl, (omega arith, tt))

    place-move :
        (d : Direction) (now next : ℕ) (e : CopyError E) (t : Tunnel E)
        → (pipe_of d t).place ≡ deciding e
        → (pipe_of d (move idle can_close_write d (decided now next) t)).place
          ≡ (decide idle can_close_write d now next e t).1
    unfolding move move_from
    place-move d now next e t h = rw h (rw (pipe_of-set_pipe d _ _) refl)

    -- In every interleaving of the two pipes of a tunnel in which no copy returns before data that was
    -- seen, a pipe whose read deadline has passed returns that the tunnel is idle exactly if, when it
    -- looks, the whole timeout has passed since the tunnel's start and since every time at which a copy
    -- of either direction returned with data.
    pub idle_close_iff :
        (moves : List (Direction × Move E)) (d : Direction) (start up_start down_start now next : ℕ)
        → InOrder moves (new_tunnel idle can_close_write start up_start down_start)
        → (pipe_of d (
            run_pipes idle can_close_write moves
              (new_tunnel idle can_close_write start up_start down_start))).place
          ≡ deciding deadline_exceeded
        → ((pipe_of d (
              move idle can_close_write d (decided now next) (
                run_pipes idle can_close_write moves
                  (new_tunnel idle can_close_write start up_start down_start)))).place
            ≡ returned (some tunnel_idle))
          ↔ All
              (λ τ. τ + idle ≤ now)
              (data_times moves
                (new_tunnel idle can_close_write start up_start down_start)
                (start ∷ []))
    idle_close_iff moves d start up_start down_start now next ordered at_deadline =
        let t0 = new_tunnel idle can_close_write start up_start down_start in
        let t = run_pipes idle can_close_write moves t0 in
        let newest = Newest-All idle t.last now (data_times moves t0 (start ∷ [])) (
          run_pipes-Newest moves t0 (start ∷ []) ordered
            (new_tunnel-Newest start up_start down_start t0 refl)) in
        let decision = decide_iff d now next t in
        rw (place-move d now next deadline_exceeded t at_deadline)
          (λ h. newest.0 (decision.0 h), λ h. decision.1 (newest.1 h))
