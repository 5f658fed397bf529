-- ===== src/Dns/Resolver/Answers/Genuine.antt =====
-- No caller gets an address that the resolver behind the cache did not give for that very name.
use proxy_acl.Base.{Bool, List, [], ◌∷◌, Member, All-Member}
use proxy_acl.Base.Maps.{text_key, get}
use proxy_acl.Dns.Cache.{Found, find_fresh}
use proxy_acl.Dns.Resolver.Thread.{Query, query_key, Resolver, answered, Thread, calling, returned}
use proxy_acl.Dns.Resolver.Run.{Event, new_resolver, run_events}
use proxy_acl.Dns.Resolver.Keeps.{run_new_keeps}
use proxy_acl.Dns.Resolver.Answers.{Told, Honest, AnswersInv, swap-AnswersInv}
use proxy_acl.Dns.Resolver.Answers.Steps.{advance-AnswersInv}

module _ {E : Type 0} where
  new-AnswersInv : AnswersInv {E = E} new_resolver []
  unfolding new_resolver get find_fresh
  new-AnswersInv = record {
    owner = λ f. [];
    unique = tt;
    cached_told = λ key now found e. cc;
    landed_told = λ f found e. cc;
    listed_own = λ key f m. cc;
    honest = tt;
  }

  add-AnswersInv :
      (r : Resolver E) (threads : List (Thread E)) (q : Query)
      → AnswersInv r threads
      → AnswersInv r (calling q ∷ threads)
  add-AnswersInv r threads q v = record {
    owner = v.owner;
    unique = v.unique;
    cached_told = v.cached_told;
    landed_told = v.landed_told;
    listed_own = v.listed_own;
    honest = (tt, v.honest);
  }

  run-AnswersInv :
      (not_found : E → Bool) (events : List (Event E))
      → (let s = run_events not_found (new_resolver, []) events in AnswersInv s.0 s.1)
  run-AnswersInv not_found events =
      run_new_keeps not_found AnswersInv swap-AnswersInv
        (λ r p rest env v. advance-AnswersInv not_found r p rest env v) add-AnswersInv events
        new-AnswersInv

  -- In every schedule of any number of calls, with whatever the cache keeps, drops and evicts: a result
  -- that LookupNetIP returns for a question either has no addresses, or is exactly what the resolver
  -- behind the cache once answered to a question with the same key.
  pub returned-Told :
      (not_found : E → Bool) (events : List (Event E)) (q : Query) (found : Found E)
      → (let s = run_events not_found (new_resolver, []) events in
          Member (returned q (answered found)) s.1)
      → (let s = run_events not_found (new_resolver, []) events in
          Told s.0.asked (query_key q) found)
  returned-Told not_found events q found m =
      let s = run_events not_found (new_resolver, []) events in
      let v = run-AnswersInv not_found events in
      All-Member (Honest v.owner s.0.next_flight s.0.asked) s.1 v.honest m
