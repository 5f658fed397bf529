-- ===== src/Samples/Requests/Handling.antt =====
-- A plain request for an allowed site, and one that the upstream answers with 101.
use proxy_acl.Base.{ℕ, ◌≡◌, refl, Bool, true, none, List, [], ◌∷◌, Result, ok}
use proxy_acl.Base.Text.{Bytes, codes}
use proxy_acl.Netip.{Addr}
use proxy_acl.Limits.Tracker.{new_tracker}
use proxy_acl.Proxy.Dial.{Vetted}
use proxy_acl.Proxy.Headers.{Header}
use proxy_acl.Proxy.Handler.{
  Request, Response, HttpReply, bad_gateway, responded, ProxyState, Times, serve_http,
}
use proxy_acl.Proxy.Handler.Forwarded.{Justified, serve_http-Justified}
use proxy_acl.Samples.Requests.{policy, answers, pc}
use proxy_acl.Samples.Limits.{whole, two_each}

abbrev all_enabled : Bool → Bool
all_enabled allowed = true

abbrev same_text : Bytes → Bytes
same_text key = key

abbrev no_text : Addr → Bytes
no_text a = []

abbrev page : Request
page = record {
  method = codes "GET";
  is_absolute = true;
  scheme = codes "http";
  hostname = codes "www.example.com";
  port = [];
  url_host = codes "www.example.com";
  request_host = codes "www.example.com";
  host_port = none;
  header = (codes "Upgrade", codes "h2c" ∷ []) ∷ (codes "Accept", codes "*/*" ∷ []) ∷ [];
  client = pc;
}

abbrev first_state : ProxyState ℕ (List Bytes)
unfolding new_tracker
first_state = record { tracker = new_tracker whole; resolver = []; pools = []; sent = [] }

abbrev clock : Times
clock = record { allowed_at = 5; logged_at = 6; pooled_at = 7; failed_at = 8 }

abbrev answers_with : ℕ → Vetted → Header → Result Bool Response
answers_with n dials header = ok (record { status = n; fields = [] })

abbrev run_page : ℕ → HttpReply × ProxyState ℕ (List Bytes)
unfolding serve_http new_tracker
run_page n =
    serve_http whole all_enabled (λ client. answers) policy (λ s. two_each) same_text no_text
      (answers_with n) first_state page clock

page_sent : (run_page 200).0 ≡ responded (record { status = 200; fields = [] })
unfolding run_page policy
page_sent = refl

switching_refused : (run_page 101).0 ≡ bad_gateway
unfolding run_page policy
switching_refused = refl

serve_http-Justified_example :
    let out =
      serve_http whole all_enabled
        (λ client. answers)
        policy
        (λ s. two_each)
        same_text
        no_text
        (answers_with 200)
        first_state
        page
        clock in
    Justified whole all_enabled
      (λ client. answers)
      policy
      (λ s. two_each)
      same_text
      no_text
      first_state
      page
      clock
      out.0
      out.1.sent
serve_http-Justified_example =
    serve_http-Justified whole all_enabled (λ client. answers) policy (λ s. two_each) same_text
      no_text (answers_with 200) first_state page clock
