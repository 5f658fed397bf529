-- ===== src/Samples/Lookups.antt =====
-- The cache, and two clients that ask for the same name at once.
use proxy_acl.Base.{
  inr, ℕ, ◌+◌, ◌≤◌, ◌<◌, ◌≡◌, ◌⊎◌, refl, inl, Bool, none, some, List, [], ◌∷◌, arith, ltb,
  if◌then◌else◌, ◌==◌, All, Member,
}
use proxy_acl.Base.Text.{Bytes, codes, text_eq}
use proxy_acl.Base.Maps.{text_key, get}
use proxy_acl.Netip.{v4, addr_key}
use proxy_acl.Dns.Cache.{
  Found, Entries, ttl, negative_ttl, failure_ttl, drop_expired, store, find_fresh,
}
use proxy_acl.Dns.Cache.Bounded.{Covers, CacheValid, store-CacheValid}
use proxy_acl.Dns.Cache.Fresh.{Stored, find_fresh-store, find_fresh-store_old}
use proxy_acl.Dns.Resolver.Thread.{
  max_concurrent, max_per_client, Query, query_key, answered, returned, finished, Env,
}
use proxy_acl.Dns.Resolver.Run.{Event, call, step, new_resolver, run_events}
use proxy_acl.Dns.Resolver.Keeps.{total}
use proxy_acl.Dns.Resolver.Slots.{held_by, use_of, is_looking}
use proxy_acl.Dns.Resolver.Slots.Tagged.{looks_for}
use proxy_acl.Dns.Resolver.Slots.Bounds.{slots_of, run_events-bounded}
use proxy_acl.Dns.Resolver.Flights.{runs, waits}
use proxy_acl.Dns.Resolver.Flights.Shared.{Served, run_events-Served}
use proxy_acl.Dns.Resolver.Answers.{Told}
use proxy_acl.Dns.Resolver.Answers.Genuine.{returned-Told}

-- Errors are numbers, and 3 is the one of a name that does not exist.
abbrev no_such_name : ℕ → Bool
no_such_name e = e == 3

abbrev site_found : Found ℕ
site_found = record { addrs = v4 1 ∷ []; error = none }

abbrev site_key : Bytes
site_key = codes "ip|x.org"

abbrev empty : Entries ℕ
empty = []

abbrev one_entry : Entries ℕ
unfolding store
one_entry = store no_such_name site_key site_found 10 10 [] empty

Covers-empty : Covers [] (drop_expired 10 empty)
unfolding drop_expired get
Covers-empty k held = absurd (held refl)

store-CacheValid_example : CacheValid (store no_such_name site_key site_found 10 10 [] empty)
store-CacheValid_example =
    store-CacheValid no_such_name site_key site_found 10 10 [] empty Covers-empty (omega arith, tt)

find_fresh-store_example :
    (find_fresh site_key 11 (store no_such_name site_key site_found 10 10 [] empty)
      ≡ (if ltb 11 (10 + ttl) then some site_found else none))
    × (find_fresh site_key 11
          (store no_such_name site_key (record { addrs = []; error = some 3 }) 10 10 [] empty)
        ≡ (if ltb 11 (10 + (if no_such_name 3 then negative_ttl else failure_ttl))
            then some (record { addrs = []; error = some 3 })
            else none))
find_fresh-store_example = find_fresh-store no_such_name site_key 10 10 11 [] empty (v4 1) [] [] 3

found_again :
    find_fresh site_key 11 (store no_such_name site_key site_found 10 10 [] empty) ≡ some site_found
unfolding find_fresh store text_eq
found_again = refl

find_fresh-store_old_example :
    Stored no_such_name site_key site_found 10 11 site_key site_found
    ⊎ (find_fresh site_key 11 empty ≡ some site_found)
find_fresh-store_old_example =
    find_fresh-store_old no_such_name site_key site_key site_found site_found 10 10 11 [] empty tt
      found_again

abbrev question : Query
question = record { client = some (v4 9); network = codes "ip"; host = codes "x.org" }

abbrev other_question : Query
other_question = record question { client = some (v4 8) }

abbrev quiet : Env ℕ
quiet = record { now = 5; later = 5; order = []; ctx_error = none; answer = site_found }

-- The first caller starts a lookup and the second joins it.
abbrev two_callers : List (Event ℕ)
two_callers =
    call question
    ∷ step 0 quiet
    ∷ call other_question
    ∷ step 1 quiet
    ∷ step 1 quiet
    ∷ step 1 quiet
    ∷ step 0 quiet
    ∷ step 2 quiet
    ∷ step 2 quiet
    ∷ step 2 quiet
    ∷ step 2 quiet
    ∷ step 2 quiet
    ∷ step 2 quiet
    ∷ step 2 quiet
    ∷ step 2 quiet
    ∷ step 0 quiet
    ∷ step 1 quiet
    ∷ []

both_answered :
    (run_events no_such_name (new_resolver, []) two_callers).1
    ≡ returned other_question (answered site_found)
      ∷ returned question (answered site_found)
      ∷ finished
      ∷ []
unfolding run_events new_resolver text_eq
both_answered = refl

asked_once :
    (run_events no_such_name (new_resolver, []) two_callers).0.asked ≡ (question, site_found) ∷ []
unfolding run_events new_resolver text_eq
asked_once = refl

run_events-bounded_example :
    (total (looks_for (v4 9)) (run_events no_such_name (new_resolver, []) two_callers).1
      ≤ slots_of (v4 9) (run_events no_such_name (new_resolver, []) two_callers).1)
    × (slots_of (v4 9) (run_events no_such_name (new_resolver, []) two_callers).1 ≤ max_per_client)
    × (total is_looking (run_events no_such_name (new_resolver, []) two_callers).1 ≤ max_concurrent)
    × ((get (v4 9) (run_events no_such_name (new_resolver, []) two_callers).0.clients ≡ none)
        ⊎ ((cs : ℕ) × (get (v4 9) (run_events no_such_name (new_resolver, []) two_callers).0.clients
              ≡ some cs)
            × (0
                < total
                    (λ p. held_by cs (use_of p))
                    (run_events no_such_name (new_resolver, []) two_callers).1)))
run_events-bounded_example = run_events-bounded no_such_name two_callers (v4 9)

run_events-Served_example :
    (total (runs site_key) (run_events no_such_name (new_resolver, []) two_callers).1 ≤ 1)
    × All
        (λ p.
          Served
            (run_events no_such_name (new_resolver, []) two_callers).0
            (run_events no_such_name (new_resolver, []) two_callers).1
            (waits p))
        (run_events no_such_name (new_resolver, []) two_callers).1
run_events-Served_example = run_events-Served no_such_name two_callers site_key

returned_here :
    Member
      (returned question (answered site_found))
      (run_events no_such_name (new_resolver, []) two_callers).1
returned_here = rw both_answered (inr (inl refl))

returned-Told_example :
    Told
      (run_events no_such_name (new_resolver, []) two_callers).0.asked
      (query_key question)
      site_found
returned-Told_example = returned-Told no_such_name two_callers question site_found returned_here
