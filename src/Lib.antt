-- ===== src/Lib.antt =====
-- proxy-acl: a forward HTTP proxy that connects only to destinations which per-subnet rules allow.
--
-- The program's parts. A client's address selects a subnet (`Policy.SubnetOf`); the subnet's
-- rules decide on a host and a port (`Subnet.Check`), asking a resolver for the addresses of an
-- allowed name; the proxy then dials only the addresses of the decision. A policy is compiled
-- from texts when the configuration is loaded.
--
-- The files.
--   Base            Boolean tests, results with errors, lists; Base/Text: the operations of Go's
--                   `strings` and `strconv` on byte strings; Base/Decimal: laws of decimal text.
--   Netip           `net/netip`: addresses, prefixes, containment; Netip/Parse: ParseAddr and
--                   ParsePrefix; Netip/Laws: the ranges of parsed addresses.
--   Acl/Host        internal/acl/rules.go: parseHost, checkHostChars, validateHostname, isNumeric.
--   Acl/Port        internal/acl/rules.go: parsePort, parsePortRange.
--   Acl/Wildcard    internal/acl/rules.go: the regular expressions of compileNamePattern.
--   Acl/Rules       internal/acl/rules.go: ruleSet, add, compileRules, match, parsePrefix.
--   Acl/Public      internal/acl/rules.go: nonPublic, isPublic.
--   Acl/Subnets     internal/acl/policy.go: New, compileSubnet, SubnetOf.
--   Acl/Check       internal/acl/policy.go: Check, resolve, allowsPort.
--   Limits/Bucket   internal/limits/limits.go: bucket; Limits/Suppression: client, log.
--   Limits/Tracker  internal/limits/limits.go: Tracker but Sweep and its readers, Limits/Sweep.
--   Limits/World    the tracker with the release functions that its callers hold, and all
--                   sequences of calls.
--   Base/Maps       Go maps with any keys, and their laws.
--   Dns/Cache       internal/dnscache/dnscache.go: the entries, findLocked's test, store.
--   Dns/Resolver    internal/dnscache/dnscache.go: LookupNetIP, wait, run, acquireClient. Thread
--                   holds the data, Step a step of a thread, Run the schedules, Keeps how an
--                   invariant is kept; Slots, Flights and Answers are the three invariants.
--   Config          internal/config/config.go: Parse after decoding, apply, ClientLimits. Apply,
--                   Attach, Parse and Range hold the proofs.
--   Config/Store    internal/config/store.go: Reload and watchLoop.
--   Proxy/Headers   internal/proxy/proxy.go: removeHopByHop.
--   Proxy/Dial      internal/proxy/dial.go: vetted.dial's guard, the families of dialParallel,
--                   dialSerial; Proxy/Race: the race of dialParallel, on a sequence of events.
--   Proxy/Pools     internal/proxy/upstream.go: upstreamPools, poolKey.
--   Proxy/Request   internal/proxy/proxy.go: check; internal/proxy/log.go: clip, logDecision.
--   Proxy/Listener  internal/proxy/listener.go: Accept, admit; internal/proxy/log.go: logRejected.
--   Proxy/Handler   internal/proxy/proxy.go: ServeHTTP, serveConnect, serveRequest, outbound,
--                   badGateway; internal/proxy/log.go: logUpstreamError.
--   Proxy/Tunnel    internal/proxy/tunnel.go: tunnelCopy, pipe, finish.
--   Samples         tests, and the theorems at concrete inputs.
--
-- How the model stands to the code. A Go string is its list of bytes. A map is an association list,
-- nil or not. A pair (value, ok) is an `Option`, and (value, error) a `Result` with a constructor for
-- each error text. An address is a number with its family, and a prefix an address with a length.
-- `Subnet.Check` is `check_subnet`: its tests stand in `screen` (those that need no address),
-- `addresses` (the lookup) and `refusal` (those on one address), in the order of the code. A
-- resolver is a function on a state of its own, so that a lookup shows in the state. The `regexp`
-- package is a parameter, `Regexp`, for the operator's expressions; what the two expressions of a
-- wildcard pattern match is `wildcard_matches`.
--
-- `limits.Tracker` keeps its entries on a heap, since its maps and the release functions share
-- them. Its methods hold one lock from beginning to end, so a concurrent run is a sequence of
-- whole calls. Numbers of connections and limits are natural numbers. The token bucket is over an
-- interface of float64; its theorem assumes what IEEE 754 says of whole numbers below 2^53, and of
-- zero and finite numbers (`ExactIntegers`), and is about a finite rate, as apply takes no other.
--
-- The proxy's network is a record of an attempt's result, the clock and the context, on a state;
-- net.SplitHostPort, textproto's canonical keys and an address's text are arguments.
--
-- A concurrent `dnscache.Resolver` is a list of threads. Each stands between two steps of the code: a
-- critical section under the lock, an operation on a channel, or the answer of the resolver behind
-- the cache. A schedule is a list of new calls and of steps of the threads that are there; what the
-- world gives to a step (times, contexts, answers, the order of `range`) stands in it. Flights and
-- clients' slots are shared by pointers, so they lie on heaps. A step that is blocked changes nothing.
--
-- `config.Parse` starts at what the YAML decoder gives: the first document, if it decodes, and whether
-- it is the last. A Go `int` is `ℤ` in the file and a natural number once its sign is tested. An index
-- out of range, which would be a panic, is an error of its own. watchLoop is a fold over what its
-- select takes; a load's result is part of the event that causes it.
--
-- The two pipes of a tunnel are two places in the code that share a state; each moves when io.Copy
-- returns and when its switch is taken, in any order. A pipe's `idleFor() >= idle` is a comparison of
-- the times themselves, so that it is right whichever is later.
--
-- Fuel. `itoa` has as many rounds as its number, and each divides by ten. An IPv6 text has at
-- most eight groups, so its loop has eight rounds. All other loops recur on a list.
--
-- A request is what net/http and net/url make of it: the fields and the results of the methods that the
-- handler calls. A transport is a function from the destination it dials and the header it is given.
--
-- Not modelled: the YAML decoder, with the two hooks of package config that it calls; sockets, the
-- HTTP server and client, the clock and logging output; of the proxy, Serve, the summaries of log
-- lines, the bodies and trailers of responses, and the bytes that tunnels carry; the command line,
-- which only wires the parts together.
pub mod Base
pub mod Netip
pub mod Acl
mod Samples
pub mod Limits
pub mod Proxy
pub mod Dns
pub mod Config
