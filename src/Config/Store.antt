-- ===== src/Config/Store.antt =====
-- internal/config/store.go: the active config, and the loop that reloads it. Reading the file, the
-- file watcher and the timer are the environment's: an event carries what they give.
pub mod Debounced
pub mod Newest
use proxy_acl.Base.{
  ℕ, ◌+◌, ◌==◌, Bool, true, false, not, ◌&&◌, Option, none, some, List, [], ◌∷◌, if◌then◌else◌, leb,
  Result, ok, err, map_err, ◌>>=◌,
}
use proxy_acl.Base.Text.{Bytes, text_eq}

-- 250 ms, in nanoseconds.
abbrev pub reload_debounce : ℕ
reload_debounce = 250_000_000

pub data LoadError (D E : Type 0) : Type 0 where
  unreadable : D → LoadError D E
  invalid : E → LoadError D E

-- Load, after os.ReadFile.
unfoldable pub load :
    {C D E : Type 0} → (Bytes → Result E C) → Result D Bytes → Result (LoadError D E) C
load parse (err e) = err (unreadable e)
load parse (ok text) = map_err invalid (parse text)

-- `cur`, and the configs that the hook was called with, the newest first.
pub record Store (C : Type 0) : Type 0 where
  pub cur : Option C
  pub applied : List C

-- Store.Reload, with the result of Load; `hooked` is `s.apply != nil`.
unfoldable pub reload : {C E : Type 0} → Bool → Result E C → Store C → Store C × Result E (Unit {0})
reload hooked (err e) s = (s, err e)
reload hooked (ok cfg) s =
    (record { cur = some cfg; applied = if hooked then cfg ∷ s.applied else s.applied }, ok tt)

-- NewStore, after filepath.Abs.
unfoldable pub new_store : {C E : Type 0} → Bool → Result E C → Store C × Result E (Unit {0})
unfolding reload
new_store hooked result = reload hooked result (record { cur = none; applied = [] })

pub data Trigger : Type 0 where
  file_change sighup : Trigger

-- What the select of watchLoop takes. Times are nanoseconds; `result` is what Load gives then.
pub data WatchEvent (R : Type 0) : Type 0 where
  cancelled events_closed errors_closed watcher_error : WatchEvent R
  file_event : (now : ℕ) (name : Bytes) (op : ℕ) → WatchEvent R
  debounce_fired : (now : ℕ) (result : R) → WatchEvent R
  hangup : (result : R) → WatchEvent R

-- The state of watchLoop: `deadline` is the time at which the timer fires, if it is set, and
-- `attempts` are the calls of Reload, the newest first.
pub record Watch (C E : Type 0) : Type 0 where
  pub kept : Store C
  pub deadline : Option ℕ
  pub running : Bool
  pub attempts : List (Trigger × Result E C)

module _ (clean : Bytes → Bytes) (chmod : ℕ) (path : Bytes) where
  -- Whether an event of the directory is about the file's contents.
  unfoldable pub concerns : Bytes → ℕ → Bool
  unfolding text_eq
  concerns name op = text_eq (clean name) path && not (op == chmod)

abbrev pub due : ℕ → Option ℕ → Bool
due now none = false
due now (some t) = leb t now

-- The closure `reload`.
unfoldable pub reload_for : {C E : Type 0} → Bool → Trigger → Result E C → Watch C E → Watch C E
unfolding reload
reload_for hooked trigger result w = record w {
  kept = (reload hooked result w.kept).0;
  attempts = (trigger, result) ∷ w.attempts;
}

module _ {C E : Type 0} (hooked : Bool) (clean : Bytes → Bytes) (chmod : ℕ) (path : Bytes) where
  -- One round of the loop, while it runs. The timer's channel has a value only when it is due.
  unfoldable pub select : WatchEvent (Result E C) → Watch C E → Watch C E
  unfolding concerns reload_for
  select cancelled w = record w { running = false; deadline = none }
  select events_closed w = record w { running = false; deadline = none }
  select errors_closed w = record w { running = false; deadline = none }
  select watcher_error w = w
  select (file_event now name op) w =
      if concerns clean chmod path name op
      then record w { deadline = some (now + reload_debounce) }
      else w
  select (debounce_fired now result) w =
      if due now w.deadline
      then reload_for hooked file_change result (record w { deadline = none })
      else w
  select (hangup result) w = reload_for hooked sighup result w

  -- watchLoop: nothing is taken after it has returned.
  unfoldable pub watch : List (WatchEvent (Result E C)) → Watch C E → Watch C E
  unfolding select
  watch [] w = w
  watch (e ∷ events) w = watch events (if w.running then select e w else w)

-- Watch, once the watcher is set up.
abbrev pub start_watch : {C E : Type 0} → Store C → Watch C E
start_watch s = record { kept = s; deadline = none; running = true; attempts = [] }
