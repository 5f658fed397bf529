-- ===== src/Proxy/Dial.antt =====
-- internal/proxy/dial.go: the address families of a destination, and dialling in order.
pub mod Families
pub mod Frame
pub mod Plan
use proxy_acl.Base.{
  ℕ, ◌-◌, ◌/◌, max, Bool, true, false, not, ◌&&◌, Option, none, some, List, [], ◌∷◌, ◌++◌, ltb,
  length, is_empty, if◌then◌else◌, Result, ok, err,
}
use proxy_acl.Base.Text.{Bytes, itoa, text_eq}
use proxy_acl.Netip.{Addr, is_4}

abbrev pub max_addrs_per_family : ℕ
max_addrs_per_family = 3

-- Two seconds, in nanoseconds.
abbrev pub min_attempt_timeout : ℕ
min_attempt_timeout = 2_000_000_000

-- `vetted`; the tunnel timeout is in nanoseconds.
pub record Vetted : Type 0 where
  pub host : Bytes
  pub port : ℕ
  pub addrs : List Addr
  pub idle : ℕ

-- a.Is4() == addrs[0].Is4()
unfoldable pub same_family : Addr → Addr → Bool
unfolding is_4
same_family first a = if is_4 first then is_4 a else not (is_4 a)

-- The loop of dialParallel: `primary` and `fallback` are its variables.
unfoldable pub group : Addr → List Addr → List Addr → List Addr → List Addr × List Addr
unfolding same_family
group first primary fallback [] = (primary, fallback)
group first primary fallback (a ∷ addrs) =
    let same = same_family first a in
    group first
      (if same && ltb (length primary) max_addrs_per_family then primary ++ a ∷ [] else primary)
      (if not same && ltb (length fallback) max_addrs_per_family
        then fallback ++ a ∷ []
        else fallback)
      addrs

unfoldable pub families : List Addr → List Addr × List Addr
unfolding group
families [] = ([], [])
families (a ∷ addrs) = group a [] [] (a ∷ addrs)

-- The network and the context: `attempt timeout a port` is dialAddr under that timeout, `clock` is
-- the time and `ended` tells whether ctx.Err() is set.
pub record Network (S C E : Type 0) : Type 0 where
  pub attempt : Option ℕ → Addr → ℕ → S → Result E C × S
  pub clock : S → ℕ
  pub deadline : Option ℕ
  pub ended : S → Bool

pub data DialError (E : Type 0) : Type 0 where
  not_vetted : DialError E
  joined : List E → DialError E

-- What dialSerial returns when its loop is over.
unfoldable pub give_up : {E : Type 0} → List E → DialError E
give_up [] = not_vetted
give_up (e ∷ errs) = joined (e ∷ errs)

module _ {S C E : Type 0} (net : Network S C E) where
  -- The timeout of an attempt with `left` addresses to try.
  unfoldable pub attempt_timeout : ℕ → S → Option ℕ
  attempt_timeout left s = elim net.deadline [
    | none ↦ none
    | some d ↦ some (max ((d - net.clock s) / left) min_attempt_timeout)
  ]

  -- After an attempt: its connection, or the end of the loop, or `next`.
  unfoldable pub after_attempt :
      List E
      → (List E → S → Result (DialError E) C × S)
      → Result E C × S
      → Result (DialError E) C × S
  unfolding give_up
  after_attempt errs next (ok c, s) = (ok c, s)
  after_attempt errs next (err e, s) =
      if net.ended s then (err (give_up (errs ++ e ∷ [])), s) else next (errs ++ e ∷ []) s

  unfoldable pub serial : ℕ → List Addr → List E → S → Result (DialError E) C × S
  unfolding after_attempt attempt_timeout give_up
  serial port [] errs s = (err (give_up errs), s)
  serial port (a ∷ addrs) errs s =
      after_attempt errs (serial port addrs)
        (net.attempt (attempt_timeout (length (a ∷ addrs)) s) a port s)

  unfoldable pub dial_serial : List Addr → ℕ → S → Result (DialError E) C × S
  unfolding serial
  dial_serial addrs port s = serial port addrs [] s

-- vetted.dial's guard, with `parts` the result of net.SplitHostPort: the lists that dialParallel
-- then tries, or errNotVetted. There is no race when the second is empty.
unfoldable pub dial_plan : Vetted → Option (Bytes × Bytes) → Option (List Addr × List Addr)
unfolding text_eq itoa families
dial_plan v none = none
dial_plan v (some (host, port)) =
    if text_eq host v.host && text_eq port (itoa v.port) && not (is_empty v.addrs)
    then some (families v.addrs)
    else none
