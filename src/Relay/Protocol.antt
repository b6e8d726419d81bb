-- ===== src/Relay/Protocol.antt =====
-- The relay protocol string: the regular expression of `NewRelayHandler`, and the strings that
-- `OpenRelay` and `forwardToNextPeer` build.
--   ^/goxic-proxy/relay/([^/]+)/proxy/([^/]+)(?:/next/(.+))?$
pub mod Language
use goxic.Prelude.{
  ℕ, Bool, false, ◌||◌, [], ◌∷◌, ◌++◌, Option, none, some, Bytes, codes, ◌==◌, if◌then◌else◌,
  ◌>>=?◌, is_some, is_empty, has_byte, strip_prefix, span_not,
}

abbrev pub slash : ℕ
slash = b'/'

abbrev pub newline : ℕ
newline = 10

-- The constant `Version`.
abbrev pub relay_version : Bytes
relay_version = codes "1.0.0"

abbrev pub relay_prefix : Bytes
relay_prefix = codes "/goxic-proxy/relay/"

abbrev pub proxy_word : Bytes
proxy_word = codes "/proxy/"

abbrev pub next_word : Bytes
next_word = codes "/next/"

-- The three groups of a match. Group 3 is empty where it did not take part.
pub record SubMatches : Type 0 where
  pub version : Bytes
  pub proxy_id : Bytes
  pub next_peers : Bytes

-- `([^/]+)`: a run without a slash that is not empty, and the rest.
pub segment : Bytes → Option (Bytes × Bytes)
segment s = let (run, rest) = span_not slash s in if is_empty run then none else some (run, rest)

-- `(?:/next/(.+))?$`: the end of the text, or the word and then at least one byte, none a newline.
pub next_group : Bytes → Option Bytes
next_group [] = some []
next_group (c ∷ s) = strip_prefix next_word (c ∷ s) >>=? λ n.
    if is_empty n || has_byte newline n then none else some n

-- The part of the pattern behind `/proxy/`.
pub proxy_part : Bytes → Bytes → Option SubMatches
proxy_part version c = segment c >>=? λ (proxy_id, d). next_group d >>=? λ next.
    some (record { version = version; proxy_id = proxy_id; next_peers = next })

-- The part of the pattern behind `/goxic-proxy/relay/`.
pub version_part : Bytes → Option SubMatches
version_part a = segment a >>=? λ (version, b). strip_prefix proxy_word b >>=? proxy_part version

-- `pattern.FindStringSubmatch`.
pub find_submatch : Bytes → Option SubMatches
find_submatch s = strip_prefix relay_prefix s >>=? version_part

-- `ProtocolMatch`.
unfoldable pub protocol_match : Bytes → Bool
protocol_match s = is_some (find_submatch s)

-- `Sprintf("/goxic-proxy/relay/%s/proxy/%s", version, proxyID)`.
pub base_protocol : Bytes → Bytes → Bytes
base_protocol version proxy_id = relay_prefix ++ (version ++ (proxy_word ++ proxy_id))
