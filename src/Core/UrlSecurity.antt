-- ===== src/Core/UrlSecurity.antt =====
-- app/core/url_security.py: which URLs may be fetched. `urllib.parse`, `ipaddress` and the resolver are
-- parameters.
pub mod Destination
use mathlib.Core.List.{reverse}
use ject6_4th_ai_analyzer.Base.{
  ℕ, Bool, true, false, ◌||◌, not, Option, none, some, List, [], ◌∷◌, ◌++◌, Text, codes, strip,
  lower, starts_with, is_empty, eqb, ◌==◌, text_eq, if◌then◌else◌,
}
use ject6_4th_ai_analyzer.Base.Int.{pos}
use ject6_4th_ai_analyzer.Base.Decimal.{show}
use ject6_4th_ai_analyzer.Core.Exceptions.{
  Exception, raised, validation_error, builtin, value_error, assertion_error,
}
use ject6_4th_ai_analyzer.Core.Effects.{Result, ok, err}

pub record ParsedUrl : Type 0 where
  pub scheme : Text
  pub hostname : Option Text
  pub username : Option Text
  pub password : Option Text
  -- `none` where reading the port raises a `ValueError`
  pub port : Option (Option ℕ)
  pub path : Text
  pub query : Text

-- What `ipaddress` says of an address.
pub record IpAddress : Type 0 where
  pub is_metadata : Bool
  pub is_private : Bool
  pub is_loopback : Bool
  pub is_link_local : Bool
  pub is_multicast : Bool
  pub is_reserved : Bool
  pub is_unspecified : Bool

pub record UrlLibrary : Type 0 where
  pub urlparse : Text → Result ParsedUrl
  -- of the scheme, the netloc, the path and the query
  pub urlunparse : Text → Text → Text → Text → Text
  pub ip_address : Text → Option IpAddress
  pub getaddrinfo : Text → Result (List Text)

abbrev pub refusal : Text → Exception
refusal message = raised validation_error message none

abbrev ends_with : Text → Text → Bool
ends_with suffix t = starts_with (reverse suffix) (reverse t)

-- `value`, of a string that may be missing
abbrev is_given : Option Text → Bool
is_given none = false
is_given (some t) = not (is_empty t)

unfoldable pub is_blocked_host : Text → Bool
is_blocked_host host =
    host == codes "localhost"
    || host == codes "metadata.google.internal"
    || ends_with (codes ".localhost") host

-- `_is_blocked_ip`; the metadata server is the one address that is listed.
unfoldable pub is_blocked_ip : IpAddress → Bool
is_blocked_ip ip =
    ip.is_metadata || ip.is_private || ip.is_loopback || ip.is_link_local || ip.is_multicast
    || ip.is_reserved || ip.is_unspecified

-- `port` is neither `None` nor 0.
unfoldable pub netloc_of : Text → Option ℕ → Text
netloc_of host none = host
netloc_of host (some port) = if eqb port 0 then host else host ++ codes ":" ++ show (pos port)

module _ (lib : UrlLibrary) where
  -- `_reject_blocked_ip_literal`
  unfoldable pub is_blocked_literal : Text → Bool
  unfolding is_blocked_ip
  is_blocked_literal host = elim (lib.ip_address host) [ none ↦ false | some ip ↦ is_blocked_ip ip ]

  -- The checks on the host, and the URL that is put together.
  unfoldable pub normalize_host : ParsedUrl → Text → Result Text
  unfolding is_blocked_host is_blocked_literal netloc_of
  normalize_host p host =
      if is_blocked_host host
      then err (refusal (codes "crawl url host is not allowed"))
      else if is_blocked_literal host
      then err (refusal (codes "crawl url host is not allowed"))
      else elim p.port [
        | none ↦ err (refusal (codes "crawl url has an invalid port"))
        | some port ↦ ok (
            lib.urlunparse (lower p.scheme) (netloc_of host port)
              (if is_empty p.path then codes "/" else p.path) p.query)
      ]

  unfoldable pub normalize_parsed : ParsedUrl → Result Text
  unfolding normalize_host
  normalize_parsed p =
      if not (p.scheme == codes "http" || p.scheme == codes "https")
      then err (refusal (codes "crawl url must use http or https"))
      else elim p.hostname [
        | none ↦ err (refusal (codes "crawl url must include a hostname"))
        | some hostname ↦
            if is_empty hostname
            then err (refusal (codes "crawl url must include a hostname"))
            else if is_given p.username || is_given p.password
            then err (refusal (codes "crawl url must not include credentials"))
            else normalize_host p (lower hostname)
      ]

  unfoldable pub normalize_crawl_url : Text → Result Text
  unfolding normalize_parsed
  normalize_crawl_url url = elim (lib.urlparse (strip url)) [
    | err e ↦ err e
    | ok p ↦ normalize_parsed p
  ]

  -- The loop over the addresses, which are a set: their order is not the resolver's.
  unfoldable pub check_addresses : List Text → Result {0} Unit
  check_addresses [] = ok tt
  check_addresses (address ∷ addresses) =
      let rest : Result {0} Unit = check_addresses addresses in
      elim (lib.ip_address address) [
        | none ↦ err (builtin value_error (codes "not an IPv4 or IPv6 address"))
        | some ip ↦
            if is_blocked_ip ip
            then err (refusal (codes "crawl url resolves to a blocked address"))
            else rest
      ]

  unfoldable pub check_host : Text → Result {0} Unit
  unfolding check_addresses
  check_host hostname = elim (lib.getaddrinfo hostname) [
    | err e ↦ err e
    | ok addresses ↦
        if is_empty addresses
        then err (refusal (codes "crawl url host could not be resolved"))
        else check_addresses addresses
  ]

  unfoldable pub check_normalized : Text → Result Text
  unfolding check_host
  check_normalized normalized = elim (lib.urlparse normalized) [
    | err e ↦ err e
    | ok p ↦ elim p.hostname [
      | none ↦ err (builtin assertion_error [])
      | some hostname ↦ elim (check_host hostname) [ err e ↦ err e | ok _ ↦ ok normalized ]
    ]
  ]

  unfoldable pub validate_crawl_destination : Text → Result Text
  unfolding normalize_crawl_url check_normalized
  validate_crawl_destination url = elim (normalize_crawl_url url) [
    | err e ↦ err e
    | ok normalized ↦ check_normalized normalized
  ]
