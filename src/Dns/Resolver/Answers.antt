-- ===== src/Dns/Resolver/Answers.antt =====
-- Where answers come from: the resolver behind the cache, asked for that very name.
pub mod Grow
pub mod Steps
pub mod Genuine
use proxy_acl.Base.{
  ℕ, ◌+◌, ◌≤◌, ◌<◌, ◌≡◌, ◌≢◌, ◌⊎◌, refl, sym, ap, ◌∙◌, inl, inr, Bool, true, false, Option, none,
  some, List, [], ◌∷◌, ◌++◌, arith, if◌then◌else◌, ◌==◌, All, Member, Bool-cases,
}
use proxy_acl.Base.Text.{Bytes}
use proxy_acl.Base.Maps.{text_key, get}
use proxy_acl.Netip.{Addr}
use proxy_acl.Dns.Cache.{Found, find_fresh}
use proxy_acl.Dns.Cache.Bounded.{Unique}
use proxy_acl.Dns.Resolver.Thread.{
  Query, query_key, Resolver, Reply, answered, gave_up, After, wait_on, reply_with, end, Thread,
  calling, entering, queued, slotted, freeing, leaving, waiting, returned, starting, looking,
  looked, storing, landing, closing, finished,
}
use proxy_acl.Dns.Resolver.Keeps.{All_swap}

-- The flight has begun, for that key.
abbrev pub Own : (ℕ → Bytes) → ℕ → ℕ → Bytes → Type 0
Own owner next f key = (f < next) × (owner f ≡ key)

module _ {E : Type 0} where
  -- Without addresses, or exactly an answer to a question with that key.
  abbrev pub Told : List (Query × Found E) → Bytes → Found E → Type 0
  Told asked key found =
      (found.addrs ≡ [])
      ⊎ ((q : Query) × (answer : Found E) × Member (q, answer) asked
          × (query_key q ≡ key)
          × (found ≡ answer))

  abbrev pub HonestReply : List (Query × Found E) → Query → Reply E → Type 0
  HonestReply asked q (answered found) = Told asked (query_key q) found
  HonestReply asked q (gave_up e) = Unit

  module _ (owner : ℕ → Bytes) (next : ℕ) (asked : List (Query × Found E)) where
    abbrev pub HonestAfter : After E → Type 0
    HonestAfter (wait_on q f) = Own owner next f (query_key q)
    HonestAfter (reply_with q reply) = HonestReply asked q reply
    HonestAfter end = Unit

    abbrev pub Honest : Thread E → Type 0
    Honest (calling q) = Unit
    Honest (entering q client) = Unit
    Honest (queued q client cs) = Unit
    Honest (slotted q hold) = Unit
    Honest (freeing hold after) = HonestAfter after
    Honest (leaving client cs after) = HonestAfter after
    Honest (waiting q f) = Own owner next f (query_key q)
    Honest (returned q reply) = HonestReply asked q reply
    Honest (starting q f hold) = Own owner next f (query_key q)
    Honest (looking q f hold) = Own owner next f (query_key q)
    Honest (looked q f hold found) = Own owner next f (query_key q) × Told asked (query_key q) found
    Honest (storing q f hold found) =
        Own owner next f (query_key q) × Told asked (query_key q) found
    Honest (landing q f hold found) =
        Own owner next f (query_key q) × Told asked (query_key q) found
    Honest (closing f hold found) = (f < next) × Told asked (owner f) found
    Honest finished = Unit

  -- `owner` is the key that each flight was begun for.
  pub record AnswersInv (r : Resolver E) (threads : List (Thread E)) : Type 0 where
    pub owner : ℕ → Bytes
    pub unique : Unique r.entries
    pub cached_told :
        (key : Bytes) (now : ℕ) (found : Found E)
        → find_fresh key now r.entries ≡ some found
        → Told r.asked key found
    pub landed_told :
        (f : ℕ) (found : Found E) → r.results f ≡ some found → Told r.asked (owner f) found
    pub listed_own :
        (key : Bytes) (f : ℕ) → get key r.flights ≡ some f → Own owner r.next_flight f key
    pub honest : All (Honest owner r.next_flight r.asked) threads

  pub swap-AnswersInv :
      (r : Resolver E) (xs ys zs : List (Thread E))
      → AnswersInv r (xs ++ ys ++ zs)
      → AnswersInv r (ys ++ xs ++ zs)
  swap-AnswersInv r xs ys zs v = record {
    owner = v.owner;
    unique = v.unique;
    cached_told = v.cached_told;
    landed_told = v.landed_told;
    listed_own = v.listed_own;
    honest = All_swap (Honest v.owner r.next_flight r.asked) xs ys zs v.honest;
  }
