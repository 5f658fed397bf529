-- ===== src/Acl/Check/Lookups.antt =====
-- Which names `check_subnet` has resolved, for any resolver and any state of it.
use proxy_acl.Base.{ℕ, ◌≡◌, ◌⊎◌, inl, inr, none, some, arith, Result-cases, ok}
use proxy_acl.Base.Text.{Bytes}
use proxy_acl.Acl.Host.{Destination, host_name, ip_literal, parse_host}
use proxy_acl.Acl.Port.{parse_port}
use proxy_acl.Acl.Rules.{match_rules}
use proxy_acl.Acl.Subnets.{Subnet}
use proxy_acl.Acl.Check.{Resolver, screen, resolve, addresses, approve, check_subnet}
use proxy_acl.Acl.Check.Safety.{PortListed, allows_port→PortListed, screen-ok}

-- The one lookup of a request: its name is the validated host, which no deny rule matches and an
-- allow rule does, for a port in the subnet's list; and the resolver ends in the state that this
-- lookup leaves.
pub record OneLookup {E S : Type 0} (res : Resolver E S) (s : Subnet) (host port : Bytes)
    (st after : S) : Type 0 where
  pub name : Bytes
  pub number : ℕ
  pub rule : Bytes
  pub host_read : parse_host host ≡ ok (host_name name)
  pub port_read : parse_port port ≡ ok number
  pub not_denied : match_rules s.deny (host_name name) ≡ none
  pub allowed_by : match_rules s.allow (host_name name) ≡ some rule
  pub port_listed : PortListed s.ports number
  pub looked_up : after ≡ (res name st).1

module _ {E S : Type 0} (res : Resolver E S) (s : Subnet) (host port : Bytes) (st : S) where
  abbrev Quiet : S → Type 0
  Quiet after = (after ≡ st) ⊎ OneLookup res s host port st after

  approve-Quiet :
      (d : Destination) (n : ℕ)
      → parse_host host ≡ ok d
      → parse_port port ≡ ok n
      → Quiet (approve res s d n st).1
  unfolding approve addresses resolve
  approve-Quiet (ip_literal a) n hd hn = elim (Result-cases (screen {E = E} s (ip_literal a) n)) [
    | inl (r, passed) ↦ inl (ground (arith, passed))
    | inr (e, refused) ↦ inl (ground (arith, refused))
  ]
  approve-Quiet (host_name name) n hd hn =
      elim (Result-cases (screen {E = E} s (host_name name) n)) [
        | inl (r, passed) ↦
            let (not_denied, allowed_by, listed) =
              screen-ok res s host port st (host_name name) n passed in
            inr (record {
              name = name;
              number = n;
              rule = r;
              host_read = hd;
              port_read = hn;
              not_denied = not_denied;
              allowed_by = allowed_by;
              port_listed = allows_port→PortListed s.ports n listed;
              looked_up = ground (arith, passed);
            })
        | inr (e, refused) ↦ inl (ground (arith, refused))
      ]

  -- A check leaves the resolver alone, or makes one lookup: of the validated name, once no deny
  -- rule and some allow rule matches it and its port is listed. So a request that the rules refuse
  -- causes no DNS lookup.
  pub check_subnet-lookups :
      ((check_subnet res s host port st).1 ≡ st)
      ⊎ OneLookup res s host port st (check_subnet res s host port st).1
  unfolding check_subnet
  check_subnet-lookups = elim (Result-cases (parse_host host)) [
    | inr (e, bad) ↦ inl (ground (arith, bad))
    | inl (d, good) ↦ elim (Result-cases (parse_port port)) [
      | inr (e, bad) ↦ inl (ground (arith, good, bad))
      | inl (n, number) ↦ rw (good, number, check_subnet) (approve-Quiet d n good number)
    ]
  ]
