-- ===== src/Proxy/Handler/Forwarded.antt =====
-- A request goes upstream, or becomes a tunnel, only if the check approved exactly it.
use proxy_acl.Base.{
  ℕ, ◌≡◌, ◌⊎◌, refl, inl, inr, ap, Bool, true, false, Option, none, some, List, ◌∷◌, ◌==◌,
  if◌then◌else◌, Result, ok, err, Bool-cases,
}
use proxy_acl.Base.Text.{Bytes, codes, text_eq}
use proxy_acl.Netip.{Addr}
use proxy_acl.Acl.Check.{Resolver}
use proxy_acl.Acl.Subnets.{Subnet}
use proxy_acl.Limits.Bucket.{Float64}
use proxy_acl.Limits.Tracker.{ClientLimits, Tracker}
use proxy_acl.Proxy.Dial.{Vetted}
use proxy_acl.Proxy.Headers.{Header, remove_hop_by_hop}
use proxy_acl.Proxy.Pools.{Pools, round_trip}
use proxy_acl.Proxy.Request.{Answer, too_many_requests, blocked, approved}
use proxy_acl.Proxy.Handler.{
  Request, Response, HttpReply, bad_request, bad_gateway, refused, responded, tunnelled, ProxyState,
  Times, default_port, fail, respond, outbound, exchange, forward, check_request, with_check,
  serve_request, serve_connect, or_whole, serve_http, Upstream,
}

module _ (fl : Float64) (enabled : Bool → Bool) {E S : Type 0} (res : Addr → Resolver E S)
    (policy : List Subnet) (limits_of : Option Subnet → ClientLimits fl.F) (canon : Bytes → Bytes)
    (print : Addr → Bytes) where
  open fl use {F}

  approval : ProxyState F S → Request → Bytes → Bytes → Times → Answer
  approval p r host port times =
      (check_request fl enabled res policy limits_of canon print p r host port times).0

  -- One request was sent, to a destination of the pool that the approved destination has, without the
  -- headers that are for one connection.
  pub record Sent (p : ProxyState F S) (r : Request) (times : Times) (sent : List (Vetted × Header))
      : Type 0 where
    pub port : Bytes
    pub vetted : Vetted
    pub dials : Vetted
    pub scheme : default_port r.scheme r.port ≡ some port
    pub checked :
        (check_request fl enabled res policy limits_of canon print p r r.hostname port times).0
        ≡ approved vetted
    pub pooled : (round_trip print p.pools r.scheme (some vetted) times.pooled_at).0 ≡ some dials
    pub added : sent ≡ (dials, remove_hop_by_hop canon r.header) ∷ p.sent

  -- What a reply says of the requests that were sent.
  abbrev pub Justified :
      ProxyState F S → Request → Times → HttpReply → List (Vetted × Header) → Type 0
  Justified p r times (tunnelled v) sent =
      (text_eq r.method (codes "CONNECT") ≡ true)
      × (let (host, port) =
            or_whole fl enabled res policy limits_of canon print r.host_port r.url_host in
          (check_request fl enabled res policy limits_of canon print p r host port times).0
          ≡ approved v)
      × (sent ≡ p.sent)
  Justified p r times (responded response) sent =
      (response.status == 101) ≡ false × Sent p r times sent
  Justified p r times bad_gateway sent = (sent ≡ p.sent) ⊎ Sent p r times sent
  Justified p r times bad_request sent = sent ≡ p.sent
  Justified p r times (refused answer) sent = sent ≡ p.sent

  respond-Justified :
      (p q : ProxyState F S) (r : Request) (times : Times) (now : ℕ) (result : Result Bool Response)
      → Sent p r times q.sent
      → let out = respond fl enabled res policy limits_of canon print q r now result in
        Justified p r times out.0 out.1.sent
  unfolding respond fail
  respond-Justified p q r times now (err on) k = inr k
  respond-Justified p q r times now (ok response) k = elim (Bool-cases (response.status == 101)) [
    | inl switching ↦ rw switching (inr k)
    | inr other ↦ rw other (other, k)
  ]

  -- The exchange, when nothing was sent yet.
  exchange-Justified :
      (up : Upstream fl enabled res policy limits_of canon print) (p q : ProxyState F S)
      (r : Request) (times : Times) (port : Bytes) (v : Vetted) (pooled : Option Vetted × Pools)
      → default_port r.scheme r.port ≡ some port
      → (check_request fl enabled res policy limits_of canon print p r r.hostname port times).0
        ≡ approved v
      → round_trip print p.pools r.scheme (some v) times.pooled_at ≡ pooled
      → q.sent ≡ p.sent
      → let out = exchange fl enabled res policy limits_of canon print up q r times pooled in
        Justified p r times out.0 out.1.sent
  unfolding exchange fail outbound
  exchange-Justified up p q r times port v (none, pools) scheme checked pooled same = inl same
  exchange-Justified up p q r times port v (some dials, pools) scheme checked pooled same =
      respond-Justified p
        (record q { pools = pools; sent = (dials, remove_hop_by_hop canon r.header) ∷ q.sent }) r
        times times.failed_at (up dials (remove_hop_by_hop canon r.header))
        (record {
          port = port;
          vetted = v;
          dials = dials;
          scheme = scheme;
          checked = checked;
          pooled = ap (λ x. x.0) pooled;
          added = ap (λ sent. (dials, remove_hop_by_hop canon r.header) ∷ sent) same;
        })

  forward-Justified :
      (up : Upstream fl enabled res policy limits_of canon print) (p : ProxyState F S) (r : Request)
      (times : Times) (port : Bytes) (result : Answer × Tracker F × S)
      → default_port r.scheme r.port ≡ some port
      → check_request fl enabled res policy limits_of canon print p r r.hostname port times ≡ result
      → let q = with_check fl enabled res policy limits_of canon print p result in
        let out = forward fl enabled res policy limits_of canon print up q r times result.0 in
        Justified p r times out.0 out.1.sent
  unfolding forward
  forward-Justified up p r times port (approved v, t, st) scheme checked =
      exchange-Justified up p (record p { tracker = t; resolver = st }) r times port v
        (round_trip print p.pools r.scheme (some v) times.pooled_at) scheme (ap (λ x. x.0) checked)
        refl refl
  forward-Justified up p r times port (too_many_requests, t, st) scheme checked = refl
  forward-Justified up p r times port (blocked, t, st) scheme checked = refl

  serve_request-Justified :
      (up : Upstream fl enabled res policy limits_of canon print) (p : ProxyState F S) (r : Request)
      (times : Times) (port : Option Bytes)
      → default_port r.scheme r.port ≡ port
      → let out = serve_request fl enabled res policy limits_of canon print up p r times port in
        Justified p r times out.0 out.1.sent
  unfolding serve_request
  serve_request-Justified up p r times none scheme = refl
  serve_request-Justified up p r times (some port) scheme =
      forward-Justified up p r times port
        (check_request fl enabled res policy limits_of canon print p r r.hostname port times) scheme
        refl

  serve_connect-Justified :
      (p : ProxyState F S) (r : Request) (times : Times)
      → text_eq r.method (codes "CONNECT") ≡ true
      → let target = or_whole fl enabled res policy limits_of canon print r.host_port r.url_host in
        let out = serve_connect fl enabled res policy limits_of canon print p r times target in
        Justified p r times out.0 out.1.sent
  unfolding serve_connect
  serve_connect-Justified p r times connect =
      let target = or_whole fl enabled res policy limits_of canon print r.host_port r.url_host in
      by_answer
        (check_request fl enabled res policy limits_of canon print p r target.0 target.1 times) refl
    where
      by_answer :
          (result : Answer × Tracker F × S)
          → (let target =
                or_whole fl enabled res policy limits_of canon print r.host_port r.url_host in
              check_request fl enabled res policy limits_of canon print p r target.0 target.1 times)
            ≡ result
          → Justified p r times
              (elim result.0 as (λ x. HttpReply) [
                | approved v ↦ tunnelled v
                | answer ↦ refused answer
              ])
              (with_check fl enabled res policy limits_of canon print p result).sent
      by_answer (approved v, t, st) e = (connect, ap (λ x. x.0) e, refl)
      by_answer (too_many_requests, t, st) e = refl
      by_answer (blocked, t, st) e = refl

  either :
      (p : ProxyState F S) (r : Request) (times : Times) (b : Bool)
      (x y : HttpReply × ProxyState F S)
      → Justified p r times x.0 x.1.sent
      → Justified p r times y.0 y.1.sent
      → let out = if b then x else y in Justified p r times out.0 out.1.sent
  either p r times true x y jx jy = jx
  either p r times false x y jx jy = jy

  -- ServeHTTP makes a tunnel only for a CONNECT request, to what the check approved for the host and
  -- port of the request; it answers with an upstream response, which is never a 101, only if it sent
  -- one request, to what the pools give for the destination that the check approved for the URL's host
  -- and its port, or its scheme's, and without the headers of a single connection; and when it refuses
  -- a request, nothing was sent.
  pub serve_http-Justified :
      (up : Upstream fl enabled res policy limits_of canon print) (p : ProxyState F S) (r : Request)
      (times : Times)
      → let out = serve_http fl enabled res policy limits_of canon print up p r times in
        Justified p r times out.0 out.1.sent
  unfolding serve_http
  serve_http-Justified up p r times = elim (Bool-cases (text_eq r.method (codes "CONNECT"))) [
    | inl connect ↦ rw connect (serve_connect-Justified p r times connect)
    | inr other ↦ rw other (
        either p r times r.is_absolute _ _
          (serve_request-Justified up p r times (default_port r.scheme r.port) refl) refl)
  ]
