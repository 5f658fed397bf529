-- ===== src/Samples/Tunnels.antt =====
-- A tunnel with a timeout of 80 ms, so that its reads wake every 20 ms.
use proxy_acl.Base.{ℕ, ◌+◌, ◌≤◌, ◌≡◌, ◌↔◌, refl, Bool, true, some, List, [], ◌∷◌, arith, All}
use proxy_acl.Proxy.Tunnel.{
  deadline_exceeded, tunnel_idle, deciding, returned, Direction, up, down, Tunnel, Move, copied,
  decided, copying, pipe_of, move, run_pipes, new_tunnel,
}
use proxy_acl.Proxy.Tunnel.Idle.{data_times, InOrder, idle_close_iff}
use proxy_acl.Proxy.Tunnel.Silent.{Round, Timely, moves_of, run_pipes-five}

abbrev both : Direction → Bool
both d = true

abbrev timeout : ℕ
timeout = 80_000_000

-- Data comes down, and the reads of the client are without data.
abbrev some_moves : List (Direction × Move ℕ)
some_moves =
    (up, copied 20_000_000 0 deadline_exceeded)
    ∷ (up, decided 20_000_000 20_000_000)
    ∷ (down, copied 20_000_005 7 deadline_exceeded)
    ∷ (down, decided 20_000_005 20_000_005)
    ∷ (up, copied 100_000_005 0 deadline_exceeded)
    ∷ []

abbrev fresh_tunnel : Tunnel ℕ
unfolding new_tunnel
fresh_tunnel = new_tunnel timeout both 0 0 0

some_moves-InOrder : InOrder timeout both some_moves (new_tunnel timeout both 0 0 0)
unfolding InOrder new_tunnel move
some_moves-InOrder = (tt, (tt, ((omega arith, tt), (tt, (tt, tt)))))

at_deadline :
    (pipe_of up (run_pipes timeout both some_moves (new_tunnel timeout both 0 0 0))).place
    ≡ deciding deadline_exceeded
unfolding run_pipes new_tunnel
at_deadline = refl

closed_as_idle :
    (move timeout both up
      (decided 100_000_005 100_000_005)
      (run_pipes timeout both some_moves (new_tunnel timeout both 0 0 0))).closed
    ≡ true
unfolding move run_pipes new_tunnel
closed_as_idle = refl

idle_close_iff_example :
    ((pipe_of up (
        move timeout both up
          (decided 100_000_005 100_000_005)
          (run_pipes timeout both some_moves (new_tunnel timeout both 0 0 0)))).place
      ≡ returned (some tunnel_idle))
    ↔ All
        (λ τ. τ + timeout ≤ 100_000_005)
        (data_times timeout both some_moves (new_tunnel timeout both 0 0 0) (0 ∷ []))
idle_close_iff_example =
    idle_close_iff timeout both some_moves up 0 0 0 100_000_005 100_000_005 some_moves-InOrder
      at_deadline

abbrev wake_at : ℕ → Round
wake_at t = record { copied_at = t; decided_at = t + 1; next_at = t + 2 }

abbrev five_rounds : List Round
five_rounds =
    wake_at 20_000_000
    ∷ wake_at 40_000_010
    ∷ wake_at 60_000_020
    ∷ wake_at 80_000_030
    ∷ wake_at 100_000_040
    ∷ []

waiting : (pipe_of down (new_tunnel {E = ℕ} timeout both 0 0 0)).place ≡ copying (some 20_000_000)
unfolding new_tunnel
waiting = refl

no_data : (new_tunnel {E = ℕ} timeout both 0 0 0).last ≤ 0
unfolding new_tunnel
no_data = omega arith

on_time : Timely timeout 20_000_000 five_rounds
on_time = (
  omega arith,
  omega arith,
  omega arith,
  (
    omega arith,
    omega arith,
    omega arith,
    (
      omega arith,
      omega arith,
      omega arith,
      (omega arith, omega arith, omega arith, (omega arith, omega arith, omega arith, tt)),
    ),
  ),
)

run_pipes-five_example :
    ((pipe_of down (
        run_pipes {E = ℕ} timeout both
          (moves_of down five_rounds)
          (new_tunnel timeout both 0 0 0))).place
      ≡ returned (some tunnel_idle))
    × ((run_pipes {E = ℕ} timeout both
          (moves_of down five_rounds)
          (new_tunnel timeout both 0 0 0)).closed
        ≡ true)
run_pipes-five_example =
    run_pipes-five timeout both five_rounds down 0 (new_tunnel timeout both 0 0 0) (omega arith)
      no_data waiting on_time (omega arith)
