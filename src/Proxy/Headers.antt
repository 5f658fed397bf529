-- ===== src/Proxy/Headers.antt =====
-- internal/proxy/proxy.go: the headers of a single connection. A header is a map from canonical
-- keys to values; `canon` is textproto.CanonicalMIMEHeaderKey.
pub mod Removed
use proxy_acl.Base.{
  ℕ, Bool, true, false, not, ◌||◌, Option, none, some, List, [], ◌∷◌, ◌==◌, reverse, is_empty,
  if◌then◌else◌,
}
use proxy_acl.Base.Text.{Bytes, codes, text_eq, split}

abbrev pub Header : Type 0
Header = List (Bytes × List Bytes)

abbrev is_ascii_space : ℕ → Bool
is_ascii_space c = c == b' ' || c == 9 || c == 10 || c == 13

unfoldable trim_front : Bytes → Bytes
trim_front [] = []
trim_front (c ∷ s) = let rest = trim_front s in if is_ascii_space c then rest else c ∷ s

-- textproto.TrimString
unfoldable pub trim_string : Bytes → Bytes
unfolding trim_front
trim_string s = reverse (trim_front (reverse (trim_front s)))

-- hopByHop
abbrev pub hop_by_hop : List Bytes
hop_by_hop =
    codes "Connection"
    ∷ codes "Keep-Alive"
    ∷ codes "Proxy-Authenticate"
    ∷ codes "Proxy-Authorization"
    ∷ codes "Proxy-Connection"
    ∷ codes "Te"
    ∷ codes "Trailer"
    ∷ codes "Transfer-Encoding"
    ∷ codes "Upgrade"
    ∷ []

-- h.Values of a canonical key
unfoldable pub values_at : Bytes → Header → List Bytes
unfolding text_eq
values_at key [] = []
values_at key ((k, vs) ∷ h) = if text_eq k key then vs else values_at key h

-- The map without a canonical key.
unfoldable pub delete_key : Bytes → Header → Header
unfolding text_eq
delete_key key [] = []
delete_key key ((k, vs) ∷ h) =
    let rest = delete_key key h in if text_eq k key then rest else (k, vs) ∷ rest

module _ (canon : Bytes → Bytes) where
  -- h.Del
  unfoldable pub header_del : Header → Bytes → Header
  unfolding delete_key
  header_del h name = delete_key (canon name) h

  -- The inner loop, over the parts of a field.
  unfoldable pub remove_parts : Header → List Bytes → Header
  unfolding header_del trim_string
  remove_parts h [] = h
  remove_parts h (part ∷ parts) =
      let name = trim_string part in
      remove_parts (if is_empty name then h else header_del h name) parts

  unfoldable pub remove_fields : Header → List Bytes → Header
  unfolding remove_parts split
  remove_fields h [] = h
  remove_fields h (field ∷ fields) = remove_fields (remove_parts h (split field b',')) fields

  unfoldable pub remove_names : Header → List Bytes → Header
  unfolding header_del
  remove_names h [] = h
  remove_names h (name ∷ names) = remove_names (header_del h name) names

  -- removeHopByHop
  unfoldable pub remove_hop_by_hop : Header → Header
  unfolding values_at remove_fields remove_names
  remove_hop_by_hop h =
      remove_names (remove_fields h (values_at (canon (codes "Connection")) h)) hop_by_hop
