-- ===== src/Samples/Configs.antt =====
-- A file with two subnets, and a watched store. Levels are numbers; names of levels do not parse.
use proxy_acl.Base.{
  ℕ, ◌≡◌, ◌↔◌, refl, true, false, none, some, List, [], ◌∷◌, ◌++◌, arith, Result, ok, err,
}
use proxy_acl.Base.Text.{Bytes, codes}
use proxy_acl.Base.Ints.{pos}
use proxy_acl.Acl.Rules.{Regexp}
use proxy_acl.Limits.Tracker.{ClientLimits}
use proxy_acl.Config.{
  FileClientLimits, FileSubnet, ConfigFile, Config, ConfigError, apply, Decoder, parse,
  client_limits_of,
}
use proxy_acl.Config.Apply.{Taken, apply-ok_iff}
use proxy_acl.Config.Parse.{Built, parse-Built}
use proxy_acl.Config.Store.{
  Store, WatchEvent, watcher_error, file_event, debounce_fired, hangup, watch, start_watch,
  concerns,
}
use proxy_acl.Config.Store.Newest.{Kept, asks, watch-Kept}
use proxy_acl.Config.Store.Debounced.{file_loads, watch-debounced}
use proxy_acl.Samples.Limits.{whole, never}

abbrev unset : FileClientLimits ℕ
unset = record {
  client_connections = none;
  requests_per_second = none;
  request_burst = none;
  tunnel_idle_timeout = none;
}

abbrev few_connections : FileClientLimits ℕ
few_connections = record unset { client_connections = some (pos 4); request_burst = some (pos 20) }

abbrev no_burst : FileClientLimits ℕ
no_burst = record unset { request_burst = some (pos 0) }

abbrev base : ClientLimits ℕ
base = record {
  max_connections = 8;
  requests_per_second = 2;
  request_burst = 9;
  tunnel_idle_timeout = 60;
}

abbrev few : ClientLimits ℕ
few = record base { max_connections = 4; request_burst = 20 }

apply-ok_iff_example :
    (apply whole never never few_connections base ≡ ok few)
    ↔ Taken whole never never few_connections base few
apply-ok_iff_example = apply-ok_iff whole never never few_connections base few

abbrev lan_entry : FileSubnet ℕ
lan_entry = record {
  name = codes "lan";
  cidrs = codes "10.0.0.0/24" ∷ [];
  port_texts = [];
  allow_texts = codes ".example.com" ∷ [];
  deny_texts = [];
  limits = few_connections;
}

abbrev printer_entry : FileSubnet ℕ
printer_entry = record {
  name = [];
  cidrs = codes "10.0.0.7" ∷ [];
  port_texts = codes "631" ∷ [];
  allow_texts = codes "*" ∷ [];
  deny_texts = [];
  limits = unset;
}

abbrev two_entries : ConfigFile ℕ
two_entries = record {
  log_level = [];
  total_connections = some (pos 100);
  client_limits = unset;
  subnets = lan_entry ∷ printer_entry ∷ [];
}

abbrev no_level : Bytes → Result ℕ ℕ
no_level text = err 1

abbrev none_compiles : Regexp
none_compiles e = none

abbrev decoded : Decoder whole never never 6 no_level none_compiles
decoded text = (some (ok two_entries), true)

abbrev parsed : Result (ConfigError ℕ) (Config ℕ ℕ)
unfolding parse
parsed = parse whole never never 6 no_level none_compiles decoded []

abbrev or_nothing : Result (ConfigError ℕ) (Config ℕ ℕ) → Config ℕ ℕ
or_nothing (ok cfg) = cfg
or_nothing (err e) = record {
  log_level = 0;
  policy = [];
  total_connections = 0;
  client_limits = base;
  subnet_limits = [];
}

abbrev loaded_config : Config ℕ ℕ
unfolding parse
loaded_config = or_nothing parsed

parsed_ok : parse whole never never 6 no_level none_compiles decoded [] ≡ ok loaded_config
unfolding parse
parsed_ok = refl

limits_of_printer : (client_limits_of loaded_config none).max_connections ≡ 512
unfolding client_limits_of parse
limits_of_printer = refl

parse-Built_example :
    (f : ConfigFile ℕ) × (decoded [] ≡ (some (ok f), true))
    × Built whole never never 6 no_level none_compiles f loaded_config
parse-Built_example =
    parse-Built whole never never 6 no_level none_compiles decoded [] loaded_config parsed_ok

-- A store that starts with config 1; a write, an unrelated file, SIGHUP with a broken file, the timer.
abbrev first_store : Store ℕ
first_store = record { cur = some 1; applied = 1 ∷ [] }

abbrev same_path : Bytes → Bytes
same_path name = name

abbrev conf : Bytes
conf = codes "/etc/p.yaml"

abbrev between : List (WatchEvent (Result ℕ ℕ))
between = file_event 20 (codes "/etc/hosts") 2 ∷ hangup (err 7) ∷ watcher_error ∷ []

abbrev watched : List (WatchEvent (Result ℕ ℕ))
watched = file_event 10 conf 2 ∷ (between ++ debounce_fired 250_000_010 (ok 2) ∷ [])

watch-Kept_example :
    Kept true same_path 16 conf first_store
      (asks true same_path 16 conf watched)
      (watch true same_path 16 conf watched (start_watch first_store))
watch-Kept_example = watch-Kept true same_path 16 conf watched first_store

unrelated : concerns same_path 16 conf (codes "/etc/hosts") 2 ≡ false
unfolding concerns
unrelated = refl

about : concerns same_path 16 conf conf 2 ≡ true
unfolding concerns
about = refl

watch-debounced_example :
    ((watch true same_path 16 conf watched (start_watch first_store)).kept.cur ≡ some 2)
    × (file_loads (watch true same_path 16 conf watched (start_watch first_store)).attempts ≡ 1)
watch-debounced_example =
    watch-debounced true same_path 16 conf between 10 250_000_010 conf 2 2 (start_watch first_store)
      refl about (unrelated, (tt, (tt, tt))) (omega arith)
