-- ===== src/Proxy/Tunnel/Silent.antt =====
-- A pipe of a silent tunnel returns after a few rounds.
use proxy_acl.Base.{
  ℕ, zero, suc, ◌+◌, ◌*◌, ◌≤◌, ◌<◌, ◌≡◌, ap, ◌∙◌, refl, inl, inr, Bool, true, false, Option, some,
  List, [], ◌∷◌, ltb, leb, arith, length, Bool-cases,
}
use proxy_acl.Proxy.Tunnel.{
  deadline_exceeded, tunnel_idle, Place, copying, deciding, returned, Direction, up, down, Pipe,
  PipeError, Tunnel, Move, copied, decided, check_interval, read_deadline, pipe_of, set_pipe,
  close_both, decide, move_from, move, run_pipes,
}
use proxy_acl.Proxy.Tunnel.Idle.{last-set_pipe, pipe_of-set_pipe}

-- The times of a round without data: the copy returns, the switch is taken, the next deadline is set.
pub record Round : Type 0 where
  pub copied_at : ℕ
  pub decided_at : ℕ
  pub next_at : ℕ

-- A copy without data returns at its deadline or after it, and the clock does not go back.
abbrev pub Timely : ℕ → ℕ → List Round → Type 0
Timely idle deadline [] = Unit
Timely idle deadline (r ∷ rounds) =
    (deadline ≤ r.copied_at)
    × (r.copied_at ≤ r.decided_at)
    × (r.decided_at ≤ r.next_at)
    × Timely idle (r.next_at + check_interval idle) rounds

-- n intervals
unfoldable times : ℕ → ℕ → ℕ
times c zero = 0
times c (suc n) = c + times c n

read_deadline-some :
    (idle now : ℕ) → 1 ≤ idle → read_deadline idle now ≡ some (now + check_interval idle)
unfolding read_deadline
read_deadline-some idle now on = let set : ltb 0 idle ≡ true = ground (arith, on) in rw set refl

-- Five check intervals are as long as the timeout.
five_checks : (idle : ℕ) → idle ≤ 5 * check_interval idle
five_checks idle = ground arith

times_none : (c : ℕ) → times c 0 ≡ 0
unfolding times
times_none c = refl

times_more : (c n : ℕ) → times c (suc n) ≡ c + times c n
unfolding times
times_more c n = refl

times_four : (c : ℕ) → times c 4 ≡ 4 * c
unfolding times
times_four c = omega arith

times_mono : (c m n : ℕ) → m ≤ n → times c m ≤ times c n
unfolding times
times_mono c zero n h = omega arith
times_mono c (suc m) zero h = omega (arith, h)
times_mono c (suc m) (suc n) h = omega (arith, times_mono c m n (omega (arith, h)))

module _ {E : Type 0} where
  abbrev pub moves_of : Direction → List Round → List (Direction × Move E)
  moves_of d [] = []
  moves_of d (r ∷ rounds) =
      (d, copied r.copied_at 0 deadline_exceeded)
      ∷ (d, decided r.decided_at r.next_at)
      ∷ moves_of d rounds

  closed-set_pipe : (d : Direction) (p : Pipe E) (t : Tunnel E) → (set_pipe d p t).closed ≡ t.closed
  closed-set_pipe up p t = refl
  closed-set_pipe down p t = refl

  module _ (idle : ℕ) (can_close_write : Direction → Bool) where
    move-returned :
        (d : Direction) (m : Move E) (r : Option (PipeError E)) (t : Tunnel E)
        → (pipe_of d t).place ≡ returned r
        → move idle can_close_write d m t ≡ t
    unfolding move move_from
    move-returned d m r t h = ap (λ p. move_from idle can_close_write d p m t) h

    round : Direction → Round → Tunnel E → Tunnel E
    round d r t =
        move idle can_close_write d (decided r.decided_at r.next_at)
          (move idle can_close_write d (copied r.copied_at 0 deadline_exceeded) t)

    run_pipes-nil : (t : Tunnel E) → run_pipes idle can_close_write [] t ≡ t
    unfolding run_pipes
    run_pipes-nil t = refl

    run_pipes-cons :
        (d : Direction) (r : Round) (rounds : List Round) (t : Tunnel E)
        → run_pipes idle can_close_write (moves_of d (r ∷ rounds)) t
          ≡ run_pipes idle can_close_write (moves_of d rounds) (round d r t)
    unfolding run_pipes round
    run_pipes-cons d r rounds t = refl

    round-returned :
        (d : Direction) (r : Round) (result : Option (PipeError E)) (t : Tunnel E)
        → (pipe_of d t).place ≡ returned result
        → round d r t ≡ t
    unfolding round
    round-returned d r result t h =
        ap (move idle can_close_write d (decided r.decided_at r.next_at))
          (move-returned d (copied r.copied_at 0 deadline_exceeded) result t h)
        ∙ move-returned d (decided r.decided_at r.next_at) result t h

    -- A pipe that has returned stays as it is.
    run_pipes-returned :
        (d : Direction) (rounds : List Round) (result : Option (PipeError E)) (t : Tunnel E)
        → (pipe_of d t).place ≡ returned result
        → run_pipes idle can_close_write (moves_of d rounds) t ≡ t
    run_pipes-returned d [] result t h = run_pipes-nil t
    run_pipes-returned d (r ∷ rounds) result t h =
        run_pipes-cons d r rounds t
        ∙ ap (run_pipes idle can_close_write (moves_of d rounds)) (round-returned d r result t h)
        ∙ run_pipes-returned d rounds result t h

    -- The pipe at the switch, after a copy without data.
    at_switch : Direction → Tunnel E → Tunnel E
    at_switch d t =
        set_pipe d (record { place = deciding deadline_exceeded; total = (pipe_of d t).total + 0 })
          t

    move-copied :
        (d : Direction) (τ : ℕ) (deadline : Option ℕ) (t : Tunnel E)
        → (pipe_of d t).place ≡ copying deadline
        → move idle can_close_write d (copied τ 0 deadline_exceeded) t ≡ at_switch d t
    unfolding move move_from at_switch
    move-copied d τ deadline t h =
        ap (λ p. move_from idle can_close_write d p (copied τ 0 deadline_exceeded) t) h

    -- The tunnel after the switch, with what the decision gives.
    after_switch : Direction → Tunnel E × Place E → ℕ → Tunnel E
    after_switch d (t, place) total = set_pipe d (record { place = place; total = total }) t

    move-decided :
        (d : Direction) (now next : ℕ) (t : Tunnel E)
        → (pipe_of d t).place ≡ deciding deadline_exceeded
        → move idle can_close_write d (decided now next) t
          ≡ after_switch d
              (decide idle can_close_write d now next deadline_exceeded t)
              (pipe_of d t).total
    unfolding move move_from after_switch
    move-decided d now next t h =
        ap (λ p. move_from idle can_close_write d p (decided now next) t) h

    -- One round without data, before and after the timeout.
    record Rounded (d : Direction) (r : Round) (t t' : Tunnel E) : Type 0 where
      ended :
          t.last + idle ≤ r.decided_at
          → ((pipe_of d t').place ≡ returned (some tunnel_idle)) × (t'.closed ≡ true)
      goes_on :
          r.decided_at < t.last + idle
          → ((pipe_of d t').place ≡ copying (read_deadline idle r.next_at)) × (t'.last ≡ t.last)

    Rounded-after_switch :
        (d : Direction) (r : Round) (t : Tunnel E) (total : ℕ)
        → Rounded d r t (
            after_switch d
              (decide idle can_close_write d r.decided_at r.next_at deadline_exceeded t)
              total)
    unfolding after_switch decide
    Rounded-after_switch d r t total = record {
      ended = λ late.
          let met : leb (t.last + idle) r.decided_at ≡ true = ground (arith, late) in
          rw met (
            ap (λ p. p.place) (pipe_of-set_pipe idle can_close_write d _ (close_both t)),
            closed-set_pipe d _ (close_both t),
          );
      goes_on = λ early.
          let not_yet : leb (t.last + idle) r.decided_at ≡ false = ground (arith, early) in
          rw not_yet (
            ap (λ p. p.place) (pipe_of-set_pipe idle can_close_write d _ t),
            last-set_pipe idle can_close_write d _ t,
          );
    }

    round-Rounded :
        (d : Direction) (r : Round) (deadline : Option ℕ) (t : Tunnel E)
        → (pipe_of d t).place ≡ copying deadline
        → Rounded d r t (round d r t)
    unfolding round at_switch
    round-Rounded d r deadline t h =
        let switch = at_switch d t in
        let at : (pipe_of d switch).place ≡ deciding deadline_exceeded =
          ap (λ p. p.place) (pipe_of-set_pipe idle can_close_write d _ t) in
        let after = Rounded-after_switch d r switch (pipe_of d switch).total in
        let same : switch.last ≡ t.last = last-set_pipe idle can_close_write d _ t in
        rw (move-copied d r.copied_at deadline t h, move-decided d r.decided_at r.next_at switch at)
          (record {
            ended = λ late. after.ended (rw same late);
            goes_on =
                λ early. let (place, last) = after.goes_on (rw same early) in (place, last ∙ same);
          })

    Over : Direction → Tunnel E → Type 0
    Over d t = ((pipe_of d t).place ≡ returned (some tunnel_idle)) × (t.closed ≡ true)

    round-Over :
        (rounds : List Round) (d : Direction) (r : Round) (deadline : ℕ) (t : Tunnel E)
        → (pipe_of d t).place ≡ copying (some deadline)
        → t.last + idle ≤ r.decided_at
        → Over d (run_pipes idle can_close_write (moves_of d (r ∷ rounds)) t)
    unfolding Over
    round-Over rounds d r deadline t at late =
        let (place, closed) = (round-Rounded d r (some deadline) t at).ended late in
        rw (run_pipes-cons d r rounds t, run_pipes-returned d rounds _ (round d r t) place)
          (place, closed)

    run_pipes-Over :
        (rounds : List Round) (d : Direction) (r : Round) (deadline : ℕ) (t : Tunnel E)
        → 1 ≤ idle
        → (pipe_of d t).place ≡ copying (some deadline)
        → Timely idle deadline (r ∷ rounds)
        → t.last + idle ≤ deadline + times (check_interval idle) (length rounds)
        → Over d (run_pipes idle can_close_write (moves_of d (r ∷ rounds)) t)
    unfolding Over
    run_pipes-Over [] d r deadline t on at (t1, t2, t3, later) enough =
        round-Over [] d r deadline t at
          (omega (arith, enough, t1, t2, times_none (check_interval idle)))
    run_pipes-Over (next ∷ rest) d r deadline t on at (t1, t2, t3, later) enough =
        elim (Bool-cases (leb (t.last + idle) r.decided_at)) [
          | inl met ↦ round-Over (next ∷ rest) d r deadline t at (ground (arith, met))
          | inr not_yet ↦
              let early : r.decided_at < t.last + idle = ground (arith, not_yet) in
              let (place, last) = (round-Rounded d r (some deadline) t at).goes_on early in
              rw (run_pipes-cons d r (next ∷ rest) t) (
                run_pipes-Over rest d next (r.next_at + check_interval idle) (round d r t) on
                  (place ∙ ap copying (read_deadline-some idle r.next_at on)) later
                  (rw last (
                    omega
                      (arith, enough, t1, t2, t3, times_more (check_interval idle) (length rest)))))
        ]

    -- With an idle timeout, a pipe that is in io.Copy, whose read deadline was set one check interval
    -- after the last data or later, has returned that the tunnel is idle, and both connections are
    -- closed, after five or more of its rounds in which it copies no data, each at its deadline or
    -- later, while the other pipe does nothing.
    pub run_pipes-five :
        (rounds : List Round) (d : Direction) (start : ℕ) (t : Tunnel E)
        → 1 ≤ idle
        → t.last ≤ start
        → (pipe_of d t).place ≡ copying (some (start + check_interval idle))
        → Timely idle (start + check_interval idle) rounds
        → 5 ≤ length rounds
        → ((pipe_of d (run_pipes idle can_close_write (moves_of d rounds) t)).place
            ≡ returned (some tunnel_idle))
          × ((run_pipes idle can_close_write (moves_of d rounds) t).closed ≡ true)
    unfolding Over
    run_pipes-five [] d start t on quiet at timely enough = absurd (omega (arith, enough))
    run_pipes-five (r ∷ rounds) d start t on quiet at timely enough =
        run_pipes-Over rounds d r (start + check_interval idle) t on at timely (
          omega (
            arith,
            quiet,
            five_checks idle,
            times_four (check_interval idle),
            times_mono (check_interval idle) 4 (length rounds) (omega (arith, enough)),
          ))
