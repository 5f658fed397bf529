-- ===== src/Proxy/Tunnel.antt =====
-- internal/proxy/tunnel.go: the two copies of a tunnel, which share the time of the last data and the
-- closing of both connections. What io.Copy gives, and the clock, are the environment's.
pub mod Idle
pub mod Silent
use proxy_acl.Base.{
  ℕ, ◌+◌, ◌/◌, max, Bool, true, false, Option, none, some, List, [], ◌∷◌, if◌then◌else◌, ltb, leb,
}

-- The error of io.Copy: nil is the end of the source. `E` is any other error.
pub data CopyError (E : Type 0) : Type 0 where
  end_of_file deadline_exceeded net_closed : CopyError E
  copy_failed : E → CopyError E

-- The error of pipe.
pub data PipeError (E : Type 0) : Type 0 where
  tunnel_idle deadline_error : PipeError E
  pipe_failed : E → PipeError E

-- Where a pipe is: in io.Copy, with the read deadline of its source, if it has set one; at the switch
-- behind it; or returned.
pub data Place (E : Type 0) : Type 0 where
  copying : Option ℕ → Place E
  deciding : CopyError E → Place E
  returned : Option (PipeError E) → Place E

pub record Pipe (E : Type 0) : Type 0 where
  pub place : Place E
  pub total : ℕ

-- `up` is the pipe from the client to the upstream, whose CloseWrite it calls, and `down` the other.
pub data Direction : Type 0 where
  up down : Direction

-- `tunnelState`: `closed` tells whether closeOnce has run, and the half-closed connections are those
-- whose CloseWrite was called. Times are nanoseconds.
pub record Tunnel (E : Type 0) : Type 0 where
  pub last : ℕ
  pub closed : Bool
  pub half_closed_upstream : Bool
  pub half_closed_client : Bool
  pub pipe_up : Pipe E
  pub pipe_down : Pipe E

-- A step of a pipe: io.Copy returns, at `now`; or the switch is taken, with the time of idleFor and
-- that of the next read deadline.
pub data Move (E : Type 0) : Type 0 where
  copied : (now n : ℕ) → CopyError E → Move E
  decided : (now next : ℕ) → Move E

-- 10 ms
abbrev pub shortest_check : ℕ
shortest_check = 10_000_000

abbrev pub check_interval : ℕ → ℕ
check_interval idle = max (idle / 4) shortest_check

-- The start of a round: SetReadDeadline, if there is an idle timeout.
unfoldable pub read_deadline : ℕ → ℕ → Option ℕ
read_deadline idle now = if ltb 0 idle then some (now + check_interval idle) else none

module _ {E : Type 0} where
  abbrev pub pipe_of : Direction → Tunnel E → Pipe E
  pipe_of up t = t.pipe_up
  pipe_of down t = t.pipe_down

  abbrev pub set_pipe : Direction → Pipe E → Tunnel E → Tunnel E
  set_pipe up p t = record t { pipe_up = p }
  set_pipe down p t = record t { pipe_down = p }

  -- tunnelState.closeBoth
  abbrev pub close_both : Tunnel E → Tunnel E
  close_both t = record t { closed = true }

  -- The destination's CloseWrite.
  abbrev pub close_write : Direction → Tunnel E → Tunnel E
  close_write up t = record t { half_closed_upstream = true }
  close_write down t = record t { half_closed_client = true }

  -- The end of tunnelCopy, once both pipes have returned: the state, the bytes sent and received, and
  -- what errors.Join gets.
  unfoldable pub tunnel_end :
      Tunnel E → Option (Tunnel E × ℕ × ℕ × Option (PipeError E) × Option (PipeError E))
  tunnel_end t = elim t.pipe_up.place [
    | returned e ↦ elim t.pipe_down.place [
      | returned e' ↦ some (close_both t, t.pipe_up.total, t.pipe_down.total, e', e)
      | other ↦ none
    ]
    | other ↦ none
  ]

  module _ (idle : ℕ) (can_close_write : Direction → Bool) where
    -- tunnelState.finish: the state and the error it returns.
    unfoldable pub finish_pipe :
        Direction → CopyError E → Tunnel E → Tunnel E × Option (PipeError E)
    finish_pipe d end_of_file t =
        if can_close_write d then (close_write d t, none) else (close_both t, none)
    finish_pipe d deadline_exceeded t = (close_both t, some deadline_error)
    finish_pipe d net_closed t = (close_both t, none)
    finish_pipe d (copy_failed e) t = (close_both t, some (pipe_failed e))

    -- The switch of pipe; a deadline is met when idleFor is at least `idle`.
    unfoldable pub decide : Direction → ℕ → ℕ → CopyError E → Tunnel E → Tunnel E × Place E
    unfolding read_deadline
    decide d now next deadline_exceeded t =
        if leb (t.last + idle) now
        then (close_both t, returned (some tunnel_idle))
        else (t, copying (read_deadline idle next))
    decide d now next e t = let (t', result) = finish_pipe d e t in (t', returned result)

    -- A move of a pipe, if the pipe is where the move starts.
    unfoldable pub move_from : Direction → Place E → Move E → Tunnel E → Tunnel E
    unfolding decide
    move_from d (copying deadline) (copied now n e) t =
        set_pipe d (record { place = deciding e; total = (pipe_of d t).total + n })
          (if ltb 0 n then record t { last = now } else t)
    move_from d (deciding e) (decided now next) t =
        let (t', place) = decide d now next e t in
        set_pipe d (record { place = place; total = (pipe_of d t).total }) t'
    move_from d place m t = t

    unfoldable pub move : Direction → Move E → Tunnel E → Tunnel E
    unfolding move_from
    move d m t = move_from d (pipe_of d t).place m t

    -- Both pipes, in any interleaving.
    unfoldable pub run_pipes : List (Direction × Move E) → Tunnel E → Tunnel E
    unfolding move
    run_pipes [] t = t
    run_pipes ((d, m) ∷ moves) t = run_pipes moves (move d m t)

    -- The start of tunnelCopy, with the times of touch and of the two read deadlines.
    unfoldable pub new_tunnel : ℕ → ℕ → ℕ → Tunnel E
    unfolding read_deadline
    new_tunnel now now_up now_down = record {
      last = now;
      closed = false;
      half_closed_upstream = false;
      half_closed_client = false;
      pipe_up = record { place = copying (read_deadline idle now_up); total = 0 };
      pipe_down = record { place = copying (read_deadline idle now_down); total = 0 };
    }
