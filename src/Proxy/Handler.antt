-- ===== src/Proxy/Handler.antt =====
-- internal/proxy/proxy.go: ServeHTTP, serveConnect, serveRequest and outbound, with what HTTP servers
-- and clients do as parameters; internal/proxy/log.go: logUpstreamError, as far as it changes the
-- tracker.
pub mod Forwarded
use proxy_acl.Base.{
  ℕ, Bool, true, false, Option, none, some, List, [], ◌∷◌, ◌++◌, ◌==◌, if◌then◌else◌, is_empty,
  Result, ok, err,
}
use proxy_acl.Base.Text.{Bytes, codes, text_eq}
use proxy_acl.Netip.{Addr}
use proxy_acl.Acl.Check.{Resolver, Reason, not_a_proxy_request, unsupported_scheme, Decision}
use proxy_acl.Acl.Subnets.{Subnet}
use proxy_acl.Limits.Bucket.{Float64}
use proxy_acl.Limits.Suppression.{SuppressedKey}
use proxy_acl.Limits.Tracker.{ClientLimits, Tracker, log_request}
use proxy_acl.Proxy.Dial.{Vetted}
use proxy_acl.Proxy.Headers.{Header, remove_hop_by_hop}
use proxy_acl.Proxy.Pools.{Pools, round_trip}
use proxy_acl.Proxy.Request.{
  max_log_host, clip, Answer, too_many_requests, blocked, approved, log_decision, check,
}

-- The parts of a request that the handler looks at, with the results of net/url's methods on its URL;
-- `client` is clientAddr, and `host_port` net.SplitHostPort of URL.Host.
pub record Request : Type 0 where
  pub method : Bytes
  pub is_absolute : Bool
  pub scheme : Bytes
  pub hostname : Bytes
  pub port : Bytes
  pub url_host : Bytes
  pub request_host : Bytes
  pub host_port : Option (Bytes × Bytes)
  pub header : Header
  pub client : Addr

pub record Response : Type 0 where
  pub status : ℕ
  pub fields : Header

-- What the client gets. For a tunnel, the connection is taken over.
pub data HttpReply : Type 0 where
  bad_request bad_gateway : HttpReply
  refused : Answer → HttpReply
  responded : Response → HttpReply
  tunnelled : Vetted → HttpReply

-- The tracker, the resolver, the pools, and the requests sent to upstream servers, the newest first.
pub record ProxyState (F S : Type 0) : Type 0 where
  pub tracker : Tracker F
  pub resolver : S
  pub pools : Pools
  pub sent : List (Vetted × Header)

-- The times of the calls of a request: Allow, the log lines, and the pools.
pub record Times : Type 0 where
  pub allowed_at : ℕ
  pub logged_at : ℕ
  pub pooled_at : ℕ
  pub failed_at : ℕ

-- The switch of serveRequest: the port, with the scheme's default; none is an unsupported scheme.
unfoldable pub default_port : Bytes → Bytes → Option Bytes
unfolding text_eq
default_port scheme port =
    if text_eq scheme (codes "http")
    then some (if is_empty port then codes "80" else port)
    else if text_eq scheme (codes "https")
    then some (if is_empty port then codes "443" else port)
    else none

-- A decision of the handler itself.
abbrev pub decided_here : {E : Type 0} → Reason E → Decision E
decided_here reason = record {
  allowed = false;
  subnet = [];
  rule = [];
  reason = reason;
  addrs = [];
  port = 0;
}

module _ (fl : Float64) (enabled : Bool → Bool) {E S : Type 0} (res : Addr → Resolver E S)
    (policy : List Subnet) (limits_of : Option Subnet → ClientLimits fl.F) (canon : Bytes → Bytes)
    (print : Addr → Bytes) where
  open fl use {F}

  -- What a transport answers to a request: the error, and whether its line is at an enabled level.
  abbrev pub Upstream : Type 0
  Upstream = Vetted → Header → Result Bool Response

  -- logUpstreamError, up to the writing.
  unfoldable pub log_upstream_error : Tracker F → Addr → Bytes → Bool → ℕ → Tracker F
  unfolding clip log_request
  log_upstream_error t client host on now =
      let key : SuppressedKey = record { action = codes "error"; host = clip host max_log_host } in
      if on then (log_request fl t client key now).0 else t

  -- badGateway
  unfoldable pub fail : ProxyState F S → Request → Bool → ℕ → HttpReply × ProxyState F S
  unfolding log_upstream_error
  fail p r on now =
      (bad_gateway, record p { tracker = log_upstream_error p.tracker r.client r.hostname on now })

  -- The end of serveRequest, on the result of the transport. 101 is no answer to what was sent.
  unfoldable pub respond :
      ProxyState F S → Request → ℕ → Result Bool Response → HttpReply × ProxyState F S
  unfolding fail remove_hop_by_hop
  respond p r now (err on) = fail p r on now
  respond p r now (ok response) =
      if response.status == 101
      then fail p r (enabled false) now
      else (responded (record response { fields = remove_hop_by_hop canon response.fields }), p)

  -- outbound: the header of the request that is sent.
  unfoldable pub outbound : Request → Header
  unfolding remove_hop_by_hop
  outbound r = remove_hop_by_hop canon r.header

  -- The round trip of serveRequest: none is errNotVetted, whose line is a warning.
  unfoldable pub exchange :
      Upstream
      → ProxyState F S
      → Request
      → Times
      → Option Vetted × Pools
      → HttpReply × ProxyState F S
  unfolding fail respond outbound
  exchange up p r times (none, pools) =
      fail (record p { pools = pools }) r (enabled false) times.failed_at
  exchange up p r times (some dials, pools) =
      respond (record p { pools = pools; sent = (dials, outbound r) ∷ p.sent }) r times.failed_at
        (up dials (outbound r))

  -- serveRequest after its check
  unfoldable pub forward :
      Upstream → ProxyState F S → Request → Times → Answer → HttpReply × ProxyState F S
  unfolding exchange round_trip
  forward up p r times (approved v) =
      exchange up p r times (round_trip print p.pools r.scheme (some v) times.pooled_at)
  forward up p r times answer = (refused answer, p)

  abbrev pub check_request :
      ProxyState F S → Request → Bytes → Bytes → Times → Answer × Tracker F × S
  check_request p r host port times =
      check fl enabled res policy limits_of p.tracker r.client host port times.allowed_at
        times.logged_at p.resolver

  abbrev pub with_check : ProxyState F S → Answer × Tracker F × S → ProxyState F S
  with_check p (answer, t, st) = record p { tracker = t; resolver = st }

  -- serveRequest, on the port of its switch
  unfoldable pub serve_request :
      Upstream → ProxyState F S → Request → Times → Option Bytes → HttpReply × ProxyState F S
  unfolding forward check log_decision
  serve_request up p r times none = (
    refused blocked,
    record p {
      tracker =
          log_decision fl enabled p.tracker r.client r.hostname
            (decided_here {E = E} unsupported_scheme) times.logged_at;
    },
  )
  serve_request up p r times (some port) =
      let result = check_request p r r.hostname port times in
      forward up (with_check p result) r times result.0

  -- serveConnect, up to the taking over of the connection
  unfoldable pub serve_connect :
      ProxyState F S → Request → Times → Bytes × Bytes → HttpReply × ProxyState F S
  unfolding check
  serve_connect p r times (host, port) =
      let result = check_request p r host port times in
      (elim result.0 [ approved v ↦ tunnelled v | answer ↦ refused answer ], with_check p result)

  abbrev pub or_whole : Option (Bytes × Bytes) → Bytes → Bytes × Bytes
  or_whole (some host_port) text = host_port
  or_whole none text = (text, [])

  -- ServeHTTP
  unfoldable pub serve_http :
      Upstream → ProxyState F S → Request → Times → HttpReply × ProxyState F S
  unfolding serve_connect serve_request default_port log_decision
  serve_http up p r times =
      if text_eq r.method (codes "CONNECT")
      then serve_connect p r times (or_whole r.host_port r.url_host)
      else if r.is_absolute
      then serve_request up p r times (default_port r.scheme r.port)
      else (
        bad_request,
        record p {
          tracker =
              log_decision fl enabled p.tracker r.client r.request_host
                (decided_here {E = E} not_a_proxy_request) times.logged_at;
        },
      )
