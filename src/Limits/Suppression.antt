-- ===== src/Limits/Suppression.antt =====
-- internal/limits/limits.go: the entry of one client, with its suppressed log lines.
pub mod Counting
use proxy_acl.Base.{
  ℕ, suc, ◌+◌, Bool, true, false, ◌&&◌, ◌||◌, none, some, List, [], ◌∷◌, ltb, ◌==◌, if◌then◌else◌,
  length, is_empty, not,
}
use proxy_acl.Base.Text.{Bytes, text_eq}
use proxy_acl.Limits.Bucket.{Float64, Bucket, new_bucket, take_token}

-- The constants of the package.
abbrev pub log_rate : ℕ
log_rate = 20

abbrev pub log_burst : ℕ
log_burst = 200

abbrev pub max_suppressed_keys : ℕ
max_suppressed_keys = 16

pub record SuppressedKey : Type 0 where
  pub action : Bytes
  pub host : Bytes

unfoldable pub key_eq : SuppressedKey → SuppressedKey → Bool
unfolding text_eq
key_eq j k = text_eq j.action k.action && text_eq j.host k.host

-- The map from keys to counts, nil or not.
abbrev pub Counts : Type 0
Counts = List (SuppressedKey × ℕ)

unfoldable pub has_key : SuppressedKey → Counts → Bool
unfolding key_eq
has_key k [] = false
has_key k ((j, n) ∷ m) = key_eq j k || has_key k m

-- m[k]++
unfoldable pub count_key : SuppressedKey → Counts → Counts
unfolding key_eq
count_key k [] = (k, 1) ∷ []
count_key k ((j, n) ∷ m) = if key_eq j k then (j, n + 1) ∷ m else (j, n) ∷ count_key k m

-- `client`
pub record Entry (F : Type 0) : Type 0 where
  pub conns : ℕ
  pub seen : ℕ
  pub requests : Bucket F
  pub logs : Bucket F
  pub suppressed : Counts
  pub other : ℕ

module _ (fl : Float64) where
  open fl use {F, of_int}

  abbrev pub new_entry : Entry F
  new_entry = record {
    conns = 0;
    seen = 0;
    requests = new_bucket fl;
    logs = new_bucket fl;
    suppressed = [];
    other = 0;
  }

  -- The line is counted under its key, or with the others when the keys are used up.
  unfoldable pub suppress : Entry F → SuppressedKey → Entry F
  unfolding has_key count_key
  suppress c k =
      if has_key k c.suppressed || ltb (length c.suppressed) max_suppressed_keys
      then record c { suppressed = count_key k c.suppressed }
      else record c { other = c.other + 1 }

  -- client.log
  unfoldable pub log_line : Entry F → ℕ → SuppressedKey → Entry F × Bool
  unfolding take_token suppress
  log_line c now k =
      let (logs, written) = take_token fl c.logs now (of_int log_rate) log_burst in
      let c' = record c { logs = logs } in if written then (c', true) else (suppress c' k, false)
