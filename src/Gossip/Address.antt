-- ===== src/Gossip/Address.antt =====
-- src/cluster.rs: the addresses of peers. The URL parser is the reqwest crate's and is the parameter
-- `Urls`; the text of a socket address is one too. An IP address is its number, of 32 or 128 bits.
use Prim.Native.Char.{code}
use Prim.Native.String.{[] as empty, ◌∷◌ as push, ◌++◌, len, slice}
use text.Mathlib.Text.{starts_with, find?}
use llamesh.Prelude.{
  ℕ, ◌-◌, ◌*◌, ◌/◌, ◌^◌, String, Bool, false, ◌&&◌, ◌||◌, Option, none, some, is_some, leb, eqb,
  if◌then◌else◌,
}
use llamesh.Prelude.Eq.{string_key, ◌==◌}

pub data IpAddr : Type 0 where
  v4 v6 : ℕ → IpAddr

pub record Urls : Type 1 where
  pub Url : Type 0
  pub parse : String → Option Url
  pub same : Url → Url → Bool
  pub scheme : Url → String
  pub port_or_known_default : Url → Option ℕ
  pub endpoint : IpAddr → ℕ → String  -- the text of a `SocketAddr`

-- `IpAddr::to_canonical`: an IPv4-mapped IPv6 address as the IPv4 one.
abbrev pub to_canonical : IpAddr → IpAddr
to_canonical (v4 n) = v4 n
to_canonical (v6 n) = if eqb (n / 2 ^ 32) 65535 then v4 (n - 65535 * 2 ^ 32) else v6 n

abbrev pub is_loopback : IpAddr → Bool
is_loopback (v4 n) = eqb (n / 2 ^ 24) 127
is_loopback (v6 n) = eqb n 1

-- Addresses that no route leads to: unspecified, multicast, broadcast, and link-local IPv6.
abbrev pub is_unroutable : IpAddr → Bool
is_unroutable (v4 n) = eqb n 0 || (leb 224 (n / 2 ^ 24) && leb (n / 2 ^ 24) 239) || eqb n 4294967295
is_unroutable (v6 n) = eqb n 0 || eqb (n / 2 ^ 120) 255 || eqb (n / 2 ^ 118) 1018

-- The text before a character, and all of it where the character does not occur.
unfoldable pub before : ℕ → String → String
before sep empty = empty
before sep (push c s) = let rest = before sep s in if eqb (code c) sep then empty else push c rest

-- The text up to a character and with it.
unfoldable pub through : ℕ → String → String
through sep empty = empty
through sep (push c s) =
    let rest = through sep s in if eqb (code c) sep then push c empty else push c rest

abbrev pub colon : ℕ
colon = 58

abbrev pub bracket : ℕ
bracket = 93

abbrev pub after_scheme : String → String
after_scheme url =
    if starts_with url "http://"
    then slice url 7 (len url)
    else if starts_with url "https://"
    then slice url 8 (len url)
    else url

unfoldable pub extract_host_from_url : String → String
unfolding before
extract_host_from_url url =
    let rest = after_scheme url in
    if starts_with rest "["
    then if is_some (find? rest "]") then before bracket (slice rest 1 (len rest)) else rest
    else before colon rest

abbrev pub names_loopback : String → Bool
names_loopback host =
    (host == "localhost")
    || (host == "127.0.0.1")
    || starts_with host "127."
    || (host == "::1")
    || (host == "[::1]")

unfoldable pub is_loopback_address : String → Bool
unfolding before through
is_loopback_address url =
    let rest = after_scheme url in
    names_loopback (if starts_with rest "[" then through bracket rest else before colon rest)

module _ (urls : Urls) where
  abbrev pub web_only : Option urls.Url → Option urls.Url
  web_only none = none
  web_only (some url) =
      if (urls.scheme url == "http") || (urls.scheme url == "https") then some url else none

  unfoldable pub parse_peer_url : String → Option urls.Url
  parse_peer_url address =
      web_only
        (urls.parse (if is_some (find? address "://") then address else "http://" ++ address))

  abbrev pub same_parsed : Option urls.Url → Option urls.Url → Bool
  same_parsed (some left) (some right) = urls.same left right
  same_parsed (some left) none = false
  same_parsed none right = false

  unfoldable pub same_peer_url : String → String → Bool
  unfolding parse_peer_url
  same_peer_url left right = same_parsed (parse_peer_url left) (parse_peer_url right)

  abbrev pub at_port : IpAddr → urls.Url → Option ℕ → Option String
  at_port ip url none = none
  at_port ip url (some port) =
      if eqb port 0 then none else some (urls.scheme url ++ ("://" ++ urls.endpoint ip port))

  abbrev pub at_source : IpAddr → Option urls.Url → Option String
  at_source ip none = none
  at_source ip (some url) = at_port ip url (urls.port_or_known_default url)

  -- The port of the source socket is not among the arguments, since nothing reads it.
  unfoldable pub source_peer_url : String → IpAddr → Option String
  unfolding parse_peer_url
  source_peer_url advertised source =
      let ip = to_canonical source in
      if is_unroutable ip then none else at_source ip (parse_peer_url advertised)
