-- ===== src/Dns/Resolver/Keeps.antt =====
-- How an invariant that does not depend on the order of the threads is kept by every schedule.
use proxy_acl.Base.{
  ℕ, ◌+◌, ◌≡◌, Bool, sym, inl, inr, List, [], ◌∷◌, ◌++◌, append_assoc, arith, All, All-append,
}
use proxy_acl.Dns.Resolver.Thread.{Query, Resolver, Thread, calling, Env}
use proxy_acl.Dns.Resolver.Step.{advance}
use proxy_acl.Dns.Resolver.Run.{
  Event, call, step, step_at, step_at_lem, happen, run_events, new_resolver,
}

module _ {E : Type 0} where
  -- A count over the threads.
  abbrev pub total : (Thread E → ℕ) → List (Thread E) → ℕ
  total w [] = 0
  total w (p ∷ threads) = w p + total w threads

  pub total-append :
      (w : Thread E → ℕ) (xs ys : List (Thread E)) → total w (xs ++ ys) ≡ total w xs + total w ys
  total-append w [] ys = omega arith
  total-append w (p ∷ xs) ys = omega (arith, total-append w xs ys)

  pub total_swap :
      (w : Thread E → ℕ) (xs ys zs : List (Thread E))
      → total w (xs ++ ys ++ zs) ≡ total w (ys ++ xs ++ zs)
  total_swap w xs ys zs = omega (
    arith,
    total-append w (xs ++ ys) zs,
    total-append w xs ys,
    total-append w (ys ++ xs) zs,
    total-append w ys xs,
  )

  pub All_split :
      (P : Thread E → Type 0) (xs ys : List (Thread E)) → All P (xs ++ ys) → All P xs × All P ys
  All_split P [] ys all = (tt, all)
  All_split P (p ∷ xs) ys (first, all) =
      let (front, back) = All_split P xs ys all in ((first, front), back)

  pub All_swap :
      (P : Thread E → Type 0) (xs ys zs : List (Thread E))
      → All P (xs ++ ys ++ zs)
      → All P (ys ++ xs ++ zs)
  All_swap P xs ys zs all =
      let (xy, z) = All_split P (xs ++ ys) zs all in
      let (x, y) = All_split P xs ys xy in All-append P (ys ++ xs) zs (All-append P ys xs y x) z

  module _ (not_found : E → Bool) (I : Resolver E → List (Thread E) → Type 0)
      (swap : (r : Resolver E) (xs ys zs : List (Thread E))
        → I r (xs ++ ys ++ zs)
        → I r (ys ++ xs ++ zs))
      (keep : (r : Resolver E) (p : Thread E) (rest : List (Thread E)) (env : Env E)
        → I r (p ∷ rest)
        → (let m = advance not_found r p env in I m.resolver (m.thread ∷ m.spawned ++ rest)))
      (add : (r : Resolver E) (threads : List (Thread E)) (q : Query)
        → I r threads
        → I r (calling q ∷ threads)) where
    step_at_keeps :
        (r : Resolver E) (threads : List (Thread E)) (i : ℕ) (env : Env E)
        → I r threads
        → (let s = step_at not_found r threads i env in I s.0 s.1)
    step_at_keeps r threads i env h = elim (step_at_lem not_found r threads i env) [
      | inl same ↦ rw same h
      | inr (before, p, after, here, there) ↦
          let h' : I r (before ++ p ∷ [] ++ after) = rw (sym here) h in
          let m = advance not_found r p env in
          let kept = keep r p (before ++ after) env (swap r before (p ∷ []) after h') in
          let joined : I m.resolver (m.thread ∷ m.spawned ++ before ++ after) =
            rw (append_assoc m.spawned before after) kept in
          rw there (swap m.resolver (m.thread ∷ m.spawned) before after joined)
    ]

    run_keeps :
        (r : Resolver E) (threads : List (Thread E)) (events : List (Event E))
        → I r threads
        → (let s = run_events not_found (r, threads) events in I s.0 s.1)
    unfolding run_events happen
    run_keeps r threads [] h = h
    run_keeps r threads (call q ∷ events) h =
        run_keeps r (calling q ∷ threads) events (add r threads q h)
    run_keeps r threads (step i env ∷ events) h =
        let s = step_at not_found r threads i env in
        run_keeps s.0 s.1 events (step_at_keeps r threads i env h)

    -- From the resolver that New makes.
    pub run_new_keeps :
        (events : List (Event E))
        → I new_resolver []
        → (let s = run_events not_found (new_resolver, []) events in I s.0 s.1)
    run_new_keeps events h = run_keeps new_resolver [] events h
