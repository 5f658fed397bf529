-- ===== src/Samples/Forwarding.antt =====
-- Headers, dialling and pools.
use proxy_acl.Base.{
  ℕ, ◌+◌, ◌≤◌, ◌≡◌, ◌↔◌, ◌⊎◌, refl, false, not, some, List, [], ◌∷◌, arith, if◌then◌else◌, ◌==◌,
  take, Member, Result, ok, err,
}
use proxy_acl.Base.Text.{Bytes, codes, itoa}
use proxy_acl.Netip.{Addr, v4, v6}
use proxy_acl.Proxy.Headers.{Header, hop_by_hop, values_at, remove_hop_by_hop}
use proxy_acl.Proxy.Headers.Removed.{NamedBy, Listed, remove_hop_by_hop_iff}
use proxy_acl.Proxy.Dial.{Vetted, Network, same_family, families, dial_serial}
use proxy_acl.Proxy.Dial.Families.{filter_by, families_of}
use proxy_acl.Proxy.Dial.Frame.{Explained, dial_serial_keeps, dial_serial-Explained}
use proxy_acl.Proxy.Dial.{dial_plan}
use proxy_acl.Proxy.Dial.Plan.{dial_plan-Member}
use proxy_acl.Proxy.Race.{Event, timer_fired, reported, racing, won, race_start, race_run}
use proxy_acl.Proxy.Race.Verdict.{verdict, answer_to, reports, race_run-verdict}
use proxy_acl.Proxy.Pools.{Pools, pool_key, round_trip, sweep_pools}
use proxy_acl.Proxy.Pools.Bounded.{PoolsValid, Sent, round_trip-Sent}

-- Headers whose names are canonical already.
abbrev as_is : Bytes → Bytes
as_is name = name

abbrev request_header : Header
request_header =
    (codes "Accept", codes "text/html" ∷ [])
    ∷ (codes "Connection", codes "close, X-Hop" ∷ [])
    ∷ (codes "X-Hop", codes "1" ∷ [])
    ∷ (codes "Te", codes "gzip" ∷ [])
    ∷ []

only_accept : remove_hop_by_hop as_is request_header ≡ (codes "Accept", codes "text/html" ∷ []) ∷ []
unfolding remove_hop_by_hop
only_accept = refl

remove_hop_by_hop_iff_example :
    Member (codes "X-Hop", codes "1" ∷ []) (remove_hop_by_hop as_is request_header) ↔ (
      Member (codes "X-Hop", codes "1" ∷ []) request_header
      × ¬ (
          NamedBy as_is (codes "X-Hop") (values_at (codes "Connection") request_header)
          ⊎ Listed as_is (codes "X-Hop") hop_by_hop))
remove_hop_by_hop_iff_example =
    remove_hop_by_hop_iff as_is request_header (codes "X-Hop") (codes "1" ∷ [])

abbrev mixed : List Addr
mixed = v6 5 [] ∷ v4 1 ∷ v4 2 ∷ v4 3 ∷ v4 4 ∷ v6 6 [] ∷ []

two_families : families mixed ≡ (v6 5 [] ∷ v6 6 [] ∷ [], v4 1 ∷ v4 2 ∷ v4 3 ∷ [])
unfolding families
two_families = refl

families_of_example : families mixed ≡ (
  take 3 (filter_by (same_family (v6 5 [])) mixed),
  take 3 (filter_by (λ b. not (same_family (v6 5 []) b)) mixed),
)
families_of_example = families_of (v6 5 []) (v4 1 ∷ v4 2 ∷ v4 3 ∷ v4 4 ∷ v6 6 [] ∷ [])

abbrev answer : Addr → ℕ → Result ℕ ℕ
answer (v4 n) port = if n == 2 then ok port else err 111
answer a port = err 111

-- A network that counts attempts, and of which only one host answers.
abbrev one_host : Network ℕ ℕ ℕ
one_host = record {
  attempt = λ timeout a port s. (answer a port, s + 1);
  clock = λ s. s;
  deadline = some 30_000_000_000;
  ended = λ s. false;
}

second_answers : dial_serial one_host (v4 1 ∷ v4 2 ∷ v4 3 ∷ []) 80 0 ≡ (ok 80, 2)
unfolding dial_serial
second_answers = refl

dial_serial_keeps_example : 7 ≤ (dial_serial one_host (v4 1 ∷ v4 2 ∷ []) 80 7).1
dial_serial_keeps_example =
    dial_serial_keeps one_host (λ s. 7 ≤ s) 80 (v4 1 ∷ v4 2 ∷ []) 7
      (λ a timeout s m h. omega (arith, h)) (omega arith)

dial_serial-Explained_example :
    Explained one_host [] (v4 1 ∷ v4 2 ∷ []) 80 (dial_serial one_host (v4 1 ∷ v4 2 ∷ []) 80 0)
dial_serial-Explained_example = dial_serial-Explained one_host (v4 1 ∷ v4 2 ∷ []) 80 0

abbrev slow_primary : List (Event ℕ ℕ)
slow_primary = timer_fired ∷ reported (err 7) ∷ timer_fired ∷ reported (ok 5) ∷ []

fallback_wins : race_run (racing race_start) slow_primary ≡ won 5 false
unfolding race_run
fallback_wins = refl

race_run-verdict_example :
    verdict (race_run (racing race_start) slow_primary) ≡ answer_to (reports slow_primary)
race_run-verdict_example = race_run-verdict slow_primary

-- Enough of an address's text to tell these apart.
abbrev print_number : Addr → Bytes
print_number (v4 n) = itoa n
print_number a = codes "::"

abbrev site : Vetted
site = record { host = codes "x.org"; port = 80; addrs = v4 2 ∷ v4 1 ∷ []; idle = 0 }

site_key : pool_key print_number (codes "http") site ≡ codes "http|x.org|80|1,2"
unfolding pool_key
site_key = refl

abbrev one_pool : Pools
one_pool = (pool_key print_number (codes "http") site, record { dials = site; used = 1 }) ∷ []

round_trip-Sent_example :
    Sent print_number
      (codes "http")
      (some site)
      (round_trip print_number one_pool (codes "http") (some site) 9)
    × PoolsValid print_number (round_trip print_number one_pool (codes "http") (some site) 9).1
    × PoolsValid print_number (sweep_pools 9 one_pool)
round_trip-Sent_example =
    round_trip-Sent print_number one_pool (codes "http") (some site) 9
      (omega arith, ((codes "http", refl), tt))

site_plan : dial_plan site (some (codes "x.org", codes "80")) ≡ some (v4 2 ∷ v4 1 ∷ [], [])
unfolding dial_plan
site_plan = refl

dial_plan-Member_example :
    (codes "x.org" ≡ site.host)
    × (codes "80" ≡ itoa site.port)
    × ((a : Addr) → Member a (v4 2 ∷ v4 1 ∷ []) ⊎ Member a [] → Member a site.addrs)
dial_plan-Member_example =
    dial_plan-Member site (codes "x.org") (codes "80") (v4 2 ∷ v4 1 ∷ []) [] site_plan
