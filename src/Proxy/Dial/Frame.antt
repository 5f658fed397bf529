-- ===== src/Proxy/Dial/Frame.antt =====
-- Dialling in order tries only the addresses it is given, and returns what an attempt returned.
use proxy_acl.Base.{
  ℕ, ◌≡◌, refl, Option, List, [], ◌∷◌, ◌++◌, inl, inr, Member, length, Result, ok, err, Bool-cases,
}
use proxy_acl.Netip.{Addr}
use proxy_acl.Proxy.Dial.{
  Network, DialError, not_vetted, joined, give_up, attempt_timeout, after_attempt, serial,
  dial_serial,
}

module _ {S C E : Type 0} (net : Network S C E) where
  -- An attempt on one of the addresses, at that port, took the state to `s` and returned `c`.
  abbrev pub Connected : List Addr → ℕ → C → S → Type 0
  Connected addrs port c s =
      (a : Addr) × (timeout : Option ℕ) × (before : S) × Member a addrs
      × (◌≡◌ {A = Result E C × S} (net.attempt timeout a port before) (ok c, s))

  module _ (P : S → Type 0) (port : ℕ) where
    -- Attempts on the addresses keep `P`.
    abbrev pub KeptBy : List Addr → Type 0
    KeptBy addrs =
        (a : Addr) (timeout : Option ℕ) (s : S)
        → Member a addrs
        → P s
        → P (net.attempt timeout a port s).1

    after_attempt-kept :
        (errs : List E) (next : List E → S → Result (DialError E) C × S) (r : Result E C × S)
        → P r.1
        → ((errs' : List E) (s : S) → P s → P (next errs' s).1)
        → P (after_attempt net errs next r).1
    unfolding after_attempt
    after_attempt-kept errs next (ok c, s) here later = here
    after_attempt-kept errs next (err e, s) here later = elim (Bool-cases (net.ended s)) [
      | inl over ↦ rw over here
      | inr on ↦ rw on (later (errs ++ e ∷ []) s here)
    ]

    serial_keeps :
        (addrs : List Addr) (errs : List E) (s : S)
        → KeptBy addrs
        → P s
        → P (serial net port addrs errs s).1
    unfolding serial
    serial_keeps [] errs s kept here = here
    serial_keeps (a ∷ addrs) errs s kept here =
        after_attempt-kept errs (serial net port addrs)
          (net.attempt (attempt_timeout net (length (a ∷ addrs)) s) a port s)
          (kept a _ s (inl refl) here)
          (λ errs' s' h. serial_keeps addrs errs' s' (λ b t u m. kept b t u (inr m)) h)

    -- Whatever holds before dialSerial, and is kept by every attempt on one of its addresses at its
    -- port, holds after it: it touches the network in no other way.
    pub dial_serial_keeps :
        (addrs : List Addr) (s : S) → KeptBy addrs → P s → P (dial_serial net addrs port s).1
    unfolding dial_serial
    dial_serial_keeps addrs s kept here = serial_keeps addrs [] s kept here

  -- What a result of the loop says, with `errs` from before it.
  abbrev pub Explained : List E → List Addr → ℕ → Result (DialError E) C × S → Type 0
  Explained errs addrs port (ok c, s) = Connected addrs port c s
  Explained errs addrs port (err not_vetted, s) =
      (◌≡◌ {A = List E} errs []) × (◌≡◌ {A = List Addr} addrs [])
  Explained errs addrs port (err (joined all), s) = Unit

  append-filled : (errs : List E) (e : E) → ¬ (errs ++ e ∷ [] ≡ [])
  append-filled [] e h = cc
  append-filled (x ∷ errs) e h = cc

  Explained-later :
      (errs : List E) (e : E) (a : Addr) (addrs : List Addr) (port : ℕ)
      (r : Result (DialError E) C × S)
      → Explained (errs ++ e ∷ []) addrs port r
      → Explained errs (a ∷ addrs) port r
  Explained-later errs e a addrs port (ok c, s) (b, timeout, before, m, eq) =
      (b, timeout, before, inr m, eq)
  Explained-later errs e a addrs port (err not_vetted, s) (none_, eq) =
      absurd (append-filled errs e none_)
  Explained-later errs e a addrs port (err (joined all), s) h = tt

  give_up-Explained :
      (errs : List E) (e : E) (a : Addr) (addrs : List Addr) (port : ℕ) (s : S)
      → Explained errs (a ∷ addrs) port (err (give_up (errs ++ e ∷ [])), s)
  unfolding give_up
  give_up-Explained [] e a addrs port s = tt
  give_up-Explained (x ∷ errs) e a addrs port s = tt

  after_attempt-Explained :
      (a : Addr) (addrs : List Addr) (errs : List E) (port : ℕ) (timeout : Option ℕ) (s : S)
      (next : List E → S → Result (DialError E) C × S) (r : Result E C × S)
      → net.attempt timeout a port s ≡ r
      → ((errs' : List E) (s' : S) → Explained errs' addrs port (next errs' s'))
      → Explained errs (a ∷ addrs) port (after_attempt net errs next r)
  unfolding after_attempt
  after_attempt-Explained a addrs errs port timeout s next (ok c, s') eq later =
      (a, timeout, s, inl refl, eq)
  after_attempt-Explained a addrs errs port timeout s next (err e, s') eq later =
      elim (Bool-cases (net.ended s')) [
        | inl over ↦ rw over (give_up-Explained errs e a addrs port s')
        | inr on ↦ rw on (
            Explained-later errs e a addrs port (next (errs ++ e ∷ []) s')
              (later (errs ++ e ∷ []) s'))
      ]

  serial-Explained :
      (addrs : List Addr) (errs : List E) (port : ℕ) (s : S)
      → Explained errs addrs port (serial net port addrs errs s)
  unfolding serial give_up
  serial-Explained [] [] port s = (refl, refl)
  serial-Explained [] (e ∷ errs) port s = tt
  serial-Explained (a ∷ addrs) errs port s =
      after_attempt-Explained a addrs errs port _ s (serial net port addrs) _ refl
        (λ errs' s'. serial-Explained addrs errs' port s')

  -- A connection that dialSerial returns is the result of an attempt on one of its addresses, at its
  -- port, with the state that attempt left; and it reports an unapproved destination only for no
  -- addresses at all.
  pub dial_serial-Explained :
      (addrs : List Addr) (port : ℕ) (s : S)
      → Explained [] addrs port (dial_serial net addrs port s)
  unfolding dial_serial
  dial_serial-Explained addrs port s = serial-Explained addrs [] port s
