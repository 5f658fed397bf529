-- ===== src/Dns/Resolver.antt =====
-- internal/dnscache/dnscache.go: LookupNetIP with everything it calls, for any number of concurrent
-- callers. A thread stands between two steps of the code, each a critical section under the lock, an
-- operation on a channel, or the answer of the resolver behind the cache; a schedule picks the threads.
pub mod Thread
pub mod Step
pub mod Run
pub mod Keeps
pub mod Slots
pub mod Flights
pub mod Answers
