-- ===== src/Dns/Resolver/Answers/Grow.antt =====
-- What is honest stays so, when a flight begins and when an answer is given.
use proxy_acl.Base.{ℕ, ◌+◌, refl, inl, inr, List, [], ◌∷◌, arith, if◌then◌else◌, ◌==◌, All}
use proxy_acl.Base.Text.{Bytes}
use proxy_acl.Base.Maps.{text_key}
use proxy_acl.Dns.Cache.{Found}
use proxy_acl.Dns.Resolver.Thread.{
  Query, query_key, answered, gave_up, After, wait_on, reply_with, end, Thread, calling, entering,
  queued, slotted, freeing, leaving, waiting, returned, starting, looking, looked, storing, landing,
  closing, finished,
}
use proxy_acl.Dns.Resolver.Answers.{Told, Own, HonestAfter, Honest}

-- A new flight belongs to the key of the question it is begun for.
abbrev pub with_owner : (ℕ → Bytes) → ℕ → Bytes → ℕ → Bytes
with_owner owner next key i = if next == i then key else owner i

pub Own-new :
    (owner : ℕ → Bytes) (next f : ℕ) (new key : Bytes)
    → Own owner next f key
    → Own (with_owner owner next new) (next + 1) f key
Own-new owner next f new key (below, own) = ground (arith, below, own)

module _ {E : Type 0} where
  HonestAfter-new :
      (owner : ℕ → Bytes) (next : ℕ) (new : Bytes) (asked : List (Query × Found E))
      (after : After E)
      → HonestAfter owner next asked after
      → HonestAfter (with_owner owner next new) (next + 1) asked after
  HonestAfter-new owner next new asked (wait_on q f) h = Own-new owner next f new (query_key q) h
  HonestAfter-new owner next new asked (reply_with q reply) h = h
  HonestAfter-new owner next new asked end h = h

  Honest-new :
      (owner : ℕ → Bytes) (next : ℕ) (new : Bytes) (asked : List (Query × Found E)) (p : Thread E)
      → Honest owner next asked p
      → Honest (with_owner owner next new) (next + 1) asked p
  Honest-new owner next new asked (calling q) h = h
  Honest-new owner next new asked (entering q client) h = h
  Honest-new owner next new asked (queued q client cs) h = h
  Honest-new owner next new asked (slotted q hold) h = h
  Honest-new owner next new asked (freeing hold after) h =
      HonestAfter-new owner next new asked after h
  Honest-new owner next new asked (leaving client cs after) h =
      HonestAfter-new owner next new asked after h
  Honest-new owner next new asked (waiting q f) h = Own-new owner next f new (query_key q) h
  Honest-new owner next new asked (returned q reply) h = h
  Honest-new owner next new asked (starting q f hold) h = Own-new owner next f new (query_key q) h
  Honest-new owner next new asked (looking q f hold) h = Own-new owner next f new (query_key q) h
  Honest-new owner next new asked (looked q f hold found) (own, told) =
      (Own-new owner next f new (query_key q) own, told)
  Honest-new owner next new asked (storing q f hold found) (own, told) =
      (Own-new owner next f new (query_key q) own, told)
  Honest-new owner next new asked (landing q f hold found) (own, told) =
      (Own-new owner next f new (query_key q) own, told)
  Honest-new owner next new asked (closing f hold found) (below, told) =
      let (below', own) = Own-new owner next f new (owner f) (below, refl) in (below', rw own told)
  Honest-new owner next new asked finished h = h

  pub All_Honest-new :
      (owner : ℕ → Bytes) (next : ℕ) (new : Bytes) (asked : List (Query × Found E))
      (threads : List (Thread E))
      → All (Honest owner next asked) threads
      → All (Honest (with_owner owner next new) (next + 1) asked) threads
  All_Honest-new owner next new asked [] all = tt
  All_Honest-new owner next new asked (p ∷ threads) (first, all) =
      (Honest-new owner next new asked p first, All_Honest-new owner next new asked threads all)

  -- Answers stay, and more are given.
  pub Told-more :
      (x : Query × Found E) (asked : List (Query × Found E)) (key : Bytes) (found : Found E)
      → Told asked key found
      → Told (x ∷ asked) key found
  Told-more x asked key found (inl none_) = inl none_
  Told-more x asked key found (inr (q, answer, m, e, same)) = inr (q, answer, inr m, e, same)

  HonestAfter-more :
      (owner : ℕ → Bytes) (next : ℕ) (x : Query × Found E) (asked : List (Query × Found E))
      (after : After E)
      → HonestAfter owner next asked after
      → HonestAfter owner next (x ∷ asked) after
  HonestAfter-more owner next x asked (wait_on q f) h = h
  HonestAfter-more owner next x asked (reply_with q (answered found)) h =
      Told-more x asked (query_key q) found h
  HonestAfter-more owner next x asked (reply_with q (gave_up e)) h = tt
  HonestAfter-more owner next x asked end h = h

  Honest-more :
      (owner : ℕ → Bytes) (next : ℕ) (x : Query × Found E) (asked : List (Query × Found E))
      (p : Thread E)
      → Honest owner next asked p
      → Honest owner next (x ∷ asked) p
  Honest-more owner next x asked (calling q) h = h
  Honest-more owner next x asked (entering q client) h = h
  Honest-more owner next x asked (queued q client cs) h = h
  Honest-more owner next x asked (slotted q hold) h = h
  Honest-more owner next x asked (freeing hold after) h =
      HonestAfter-more owner next x asked after h
  Honest-more owner next x asked (leaving client cs after) h =
      HonestAfter-more owner next x asked after h
  Honest-more owner next x asked (waiting q f) h = h
  Honest-more owner next x asked (returned q (answered found)) h =
      Told-more x asked (query_key q) found h
  Honest-more owner next x asked (returned q (gave_up e)) h = tt
  Honest-more owner next x asked (starting q f hold) h = h
  Honest-more owner next x asked (looking q f hold) h = h
  Honest-more owner next x asked (looked q f hold found) (own, told) =
      (own, Told-more x asked (query_key q) found told)
  Honest-more owner next x asked (storing q f hold found) (own, told) =
      (own, Told-more x asked (query_key q) found told)
  Honest-more owner next x asked (landing q f hold found) (own, told) =
      (own, Told-more x asked (query_key q) found told)
  Honest-more owner next x asked (closing f hold found) (below, told) =
      (below, Told-more x asked (owner f) found told)
  Honest-more owner next x asked finished h = h

  pub All_Honest-more :
      (owner : ℕ → Bytes) (next : ℕ) (x : Query × Found E) (asked : List (Query × Found E))
      (threads : List (Thread E))
      → All (Honest owner next asked) threads
      → All (Honest owner next (x ∷ asked)) threads
  All_Honest-more owner next x asked [] all = tt
  All_Honest-more owner next x asked (p ∷ threads) (first, all) =
      (Honest-more owner next x asked p first, All_Honest-more owner next x asked threads all)
