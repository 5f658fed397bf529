-- ===== src/Acl/Check/Safety.antt =====
-- When `check_subnet` allows a request, in terms of the rules and the addresses.
use proxy_acl.Base.{
  ℕ, ◌≤◌, ◌≡◌, ◌⊎◌, inl, inr, refl, true, none, some, List, [], ◌∷◌, arith, Member, All,
  Option-cases, Bool-cases, Result-cases, ok,
}
use proxy_acl.Base.Text.{Bytes}
use proxy_acl.Netip.{Addr}
use proxy_acl.Acl.Host.{Destination, parse_host}
use proxy_acl.Acl.Port.{PortRange, in_range, parse_port}
use proxy_acl.Acl.Rules.{match_rules, match_addr}
use proxy_acl.Acl.Rules.Hits.{Hit}
use proxy_acl.Acl.Public.{is_public}
use proxy_acl.Acl.Subnets.{Subnet}
use proxy_acl.Acl.Check.{
  Resolver, allow_rule_matched, allows_port, refusal, first_refusal, judge, screen, addresses,
  finish, approve, check_subnet,
}

-- A range of the list holds the port.
abbrev pub PortListed : List PortRange → ℕ → Type 0
PortListed ranges p = (r : PortRange) × Member r ranges × (r.lo ≤ p) × (p ≤ r.hi)

pub allows_port→PortListed :
    (rs : List PortRange) (p : ℕ) → allows_port rs p ≡ true → PortListed rs p
unfolding allows_port
allows_port→PortListed [] p h = cc
allows_port→PortListed (r ∷ rs) p h = elim (Bool-cases (in_range r p)) [
  | inl inside ↦ unfold in_range in (r, inl refl, ground arith, ground arith)
  | inr outside ↦
      let (q, m, low, high) = allows_port→PortListed rs p (ground (arith, outside)) in
      (q, inr m, low, high)
]

pub PortListed→allows_port :
    (rs : List PortRange) (p : ℕ) (r : PortRange)
    → Member r rs
    → r.lo ≤ p
    → p ≤ r.hi
    → allows_port rs p ≡ true
unfolding allows_port in_range
PortListed→allows_port [] p r m low high = absurd m
PortListed→allows_port (q ∷ rs) p r (inl same) low high =
    let low' : q.lo ≤ p = rw same at low in let high' : p ≤ q.hi = rw same at high in ground arith
PortListed→allows_port (q ∷ rs) p r (inr m) low high =
    ground (arith, PortListed→allows_port rs p r m low high)

-- No deny rule covers the address, and it is public or an allow rule covers it.
abbrev pub AddrApproved : Subnet → Addr → Type 0
AddrApproved s a =
    (match_addr s.deny a ≡ none) × ((is_public a ≡ true) ⊎ Hit (match_addr s.allow a))

module _ {E : Type 0} where
  refusal→AddrApproved : (s : Subnet) (a : Addr) → refusal {E = E} s a ≡ none → AddrApproved s a
  unfolding refusal
  refusal→AddrApproved s a h = elim (Option-cases (match_addr s.deny a)) [
    | inr (r, hit) ↦ ground (arith, hit)
    | inl miss ↦ elim (Bool-cases (is_public a)) [
      | inl public ↦ (miss, inl public)
      | inr private ↦ elim (Option-cases (match_addr s.allow a)) [
        | inl none_allow ↦ ground (arith, miss, private, none_allow)
        | inr hit ↦ (miss, inr hit)
      ]
    ]
  ]

  AddrApproved→refusal : (s : Subnet) (a : Addr) → AddrApproved s a → refusal {E = E} s a ≡ none
  unfolding refusal
  AddrApproved→refusal s a (miss, inl public) = ground (arith, miss, public)
  AddrApproved→refusal s a (miss, inr hit) = elim (Bool-cases (is_public a)) [
    | inl public ↦ ground (arith, miss, public)
    | inr private ↦ ground (arith, miss, private, hit.1)
  ]

  refusals→All :
      (s : Subnet) (addrs : List Addr)
      → first_refusal {E = E} s addrs ≡ none
      → All (AddrApproved s) addrs
  unfolding first_refusal
  refusals→All s [] h = tt
  refusals→All s (a ∷ addrs) h = elim (Option-cases (refusal {E = E} s a)) [
    | inl fine ↦ (refusal→AddrApproved s a fine, refusals→All s addrs (ground (arith, fine)))
    | inr (r, bad) ↦ ground (arith, bad)
  ]

  All→refusals :
      (s : Subnet) (addrs : List Addr)
      → All (AddrApproved s) addrs
      → first_refusal {E = E} s addrs ≡ none
  unfolding first_refusal
  All→refusals s [] h = refl
  All→refusals s (a ∷ addrs) (fine, rest) =
      ground (arith, AddrApproved→refusal s a fine, All→refusals s addrs rest)

-- Why a request is allowed: the destination and port that it was read as, the allow rule, and the
-- addresses, each of them checked.
pub record Approval {E S : Type 0} (res : Resolver E S) (s : Subnet) (host port : Bytes) (st : S)
    : Type 0 where
  pub target : Destination
  pub number : ℕ
  pub rule : Bytes
  pub found : List Addr
  pub host_read : parse_host host ≡ ok target
  pub port_read : parse_port port ≡ ok number
  pub not_denied : match_rules s.deny target ≡ none
  pub allowed_by : match_rules s.allow target ≡ some rule
  pub port_listed : PortListed s.ports number
  pub resolves : (addresses res target st).0 ≡ ok found
  pub each : All (AddrApproved s) found

module _ {E S : Type 0} (res : Resolver E S) (s : Subnet) (host port : Bytes) (st : S) where
  pub screen-ok :
      (d : Destination) (n : ℕ) {rule : Bytes}
      → screen {E = E} s d n ≡ ok rule
      → (match_rules s.deny d ≡ none)
        × (match_rules s.allow d ≡ some rule)
        × (allows_port s.ports n ≡ true)
  unfolding screen
  screen-ok d n h = ground arith

  judge-allowed :
      (rule : Bytes) (n : ℕ) (addrs : List Addr)
      → (judge {E = E} s rule n addrs).allowed ≡ true
      → first_refusal {E = E} s addrs ≡ none
  unfolding judge
  judge-allowed rule n addrs h = ground arith

  finish-allowed :
      (rule : Bytes) (n : ℕ) (d : Destination)
      → (finish res s rule n (addresses res d st).0).allowed ≡ true
      → (addrs : List Addr) × ((addresses res d st).0 ≡ ok addrs) × All (AddrApproved s) addrs
  unfolding finish
  finish-allowed rule n d h = elim (Result-cases (addresses res d st).0) [
    | inl (addrs, got) ↦
        let judged : (judge {E = E} s rule n addrs).allowed ≡ true = rw got at h in
        (addrs, got, refusals→All {E = E} s addrs (judge-allowed rule n addrs judged))
    | inr (e, failed) ↦ ground (arith, failed)
  ]

  approve-allowed :
      (d : Destination) (n : ℕ)
      → parse_host host ≡ ok d
      → parse_port port ≡ ok n
      → (approve res s d n st).0.allowed ≡ true
      → Approval res s host port st
  unfolding approve
  approve-allowed d n hd hn h = elim (Result-cases (screen {E = E} s d n)) [
    | inl (r, passed) ↦
        let (not_denied, allowed_by, listed) = screen-ok d n passed in
        let (addrs, got, each) = finish-allowed r n d (ground (arith, passed)) in
        record {
          target = d;
          number = n;
          rule = r;
          found = addrs;
          host_read = hd;
          port_read = hn;
          not_denied = not_denied;
          allowed_by = allowed_by;
          port_listed = allows_port→PortListed s.ports n listed;
          resolves = got;
          each = each;
        }
    | inr (e, refused) ↦ ground (arith, refused)
  ]

  -- A request that is allowed was read as a host and a port, no deny rule and some allow rule of
  -- the subnet matches the host, a range of the subnet has the port, and every address that the
  -- host stands for is covered by no deny rule, and is public or covered by an allow rule.
  pub check_subnet_sound :
      (check_subnet res s host port st).0.allowed ≡ true → Approval res s host port st
  unfolding check_subnet
  check_subnet_sound h = elim (Result-cases (parse_host host)) [
    | inr (e, bad) ↦ ground (arith, bad)
    | inl (d, good) ↦ elim (Result-cases (parse_port port)) [
      | inr (e, bad) ↦ ground (arith, good, bad)
      | inl (n, number) ↦ approve-allowed d n good number (ground (arith, good, number))
    ]
  ]

  -- Conversely such a request is allowed, and the decision carries the checked addresses, the
  -- port and the allow rule, and nothing else.
  pub check_subnet_complete :
      (a : Approval res s host port st)
      → (check_subnet res s host port st).0 ≡ record {
        allowed = true;
        subnet = s.name;
        rule = a.rule;
        reason = allow_rule_matched;
        addrs = a.found;
        port = a.number;
      }
  unfolding check_subnet approve screen finish judge
  check_subnet_complete a =
      let (r, m, low, high) = a.port_listed in
      ground (
        arith,
        a.host_read,
        a.port_read,
        a.not_denied,
        a.allowed_by,
        PortListed→allows_port s.ports a.number r m low high,
        a.resolves,
        All→refusals {E = E} s a.found a.each,
      )
