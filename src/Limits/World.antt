-- ===== src/Limits/World.antt =====
-- The tracker with the connections that hold it, and every sequence of its operations.
pub mod Invariant
pub mod Steps
pub mod Reach
pub mod Bounds
use proxy_acl.Base.{
  ℕ, zero, suc, ◌+◌, Bool, true, false, List, [], ◌∷◌, if◌then◌else◌, ◌==◌, Result, ok, err,
}
use proxy_acl.Base.Text.{Bytes}
use proxy_acl.Netip.{Addr}
use proxy_acl.Limits.Bucket.{Float64}
use proxy_acl.Limits.Suppression.{SuppressedKey}
use proxy_acl.Limits.Tracker.{
  ClientLimits, LimitError, Tracker, new_tracker, acquire, release_entry, allow, log_request,
  log_unknown,
}
use proxy_acl.Limits.Sweep.{sweep}

-- The function that Acquire returns: its entry, and whether its `sync.Once` has run.
pub record Handle : Type 0 where
  pub entry : ℕ
  pub closed : Bool

pub record World (F : Type 0) : Type 0 where
  pub tracker : Tracker F
  pub handles : List Handle

-- The calls that other packages make, in any order and number. `release i` calls the function that
-- the i-th last successful Acquire returned.
pub data Op (F : Type 0) : Type 0 where
  acquire_op : Addr → ClientLimits F → ℕ → ℕ → Op F
  release_op : ℕ → ℕ → Op F
  allow_op : Addr → ClientLimits F → ℕ → Op F
  log_op : Addr → SuppressedKey → ℕ → Op F
  log_unknown_op : Bytes → ℕ → Op F
  sweep_op : ℕ → Op F

module _ (fl : Float64) where
  open fl use {F}

  -- A call of a release function: only the first does anything.
  unfoldable pub release : Tracker F → Handle → ℕ → Tracker F × Handle
  unfolding release_entry
  release t h now =
      if h.closed then (t, h) else (release_entry fl t h.entry now, record h { closed = true })

  -- release of the i-th handle; no such handle, no call
  unfoldable pub release_at : Tracker F → List Handle → ℕ → ℕ → Tracker F × List Handle
  unfolding release
  release_at t [] i now = (t, [])
  release_at t (h ∷ hs) zero now = let (t', h') = release t h now in (t', h' ∷ hs)
  release_at t (h ∷ hs) (suc i) now = let (t', hs') = release_at t hs i now in (t', h ∷ hs')

  abbrev pub with_handle : Tracker F × Result LimitError ℕ → List Handle → World F
  with_handle (t, ok id) hs = record {
    tracker = t;
    handles = record { entry = id; closed = false } ∷ hs;
  }
  with_handle (t, err e) hs = record { tracker = t; handles = hs }

  unfoldable pub run : World F → Op F → World F
  unfolding acquire release_at allow log_request log_unknown sweep
  run w (acquire_op ip lim max_total now) =
      with_handle (acquire fl w.tracker ip lim max_total now) w.handles
  run w (release_op i now) =
      let (t, hs) = release_at w.tracker w.handles i now in record { tracker = t; handles = hs }
  run w (allow_op ip lim now) = record w { tracker = (allow fl w.tracker ip lim now).0 }
  run w (log_op ip k now) = record w { tracker = (log_request fl w.tracker ip k now).0 }
  run w (log_unknown_op text now) = record w { tracker = (log_unknown fl w.tracker text now).0 }
  run w (sweep_op now) = record w { tracker = (sweep fl w.tracker now).0 }

  unfoldable pub run_all : World F → List (Op F) → World F
  unfolding run
  run_all w [] = w
  run_all w (op ∷ ops) = run_all (run w op) ops

  unfoldable pub start : World F
  unfolding new_tracker
  start = record { tracker = new_tracker fl; handles = [] }
