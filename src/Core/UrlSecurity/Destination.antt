-- ===== src/Core/UrlSecurity/Destination.antt =====
-- A URL that passes the checks leads to no blocked address.
use ject6_4th_ai_analyzer.Base.{
  ◌≡◌, refl, ap, ◌∙◌, ◌⊎◌, codes, false, inl, inr, Option, none, some, List, [], ◌∷◌, Text, All,
  arith, is_empty, Bool-cases, if◌then◌else◌,
}
use ject6_4th_ai_analyzer.Core.Exceptions.{Exception, builtin, value_error, assertion_error}
use ject6_4th_ai_analyzer.Core.Effects.{Result, ok, err}
use ject6_4th_ai_analyzer.Core.UrlSecurity.{
  ParsedUrl, IpAddress, UrlLibrary, refusal, is_blocked_ip, normalize_crawl_url, check_addresses,
  check_host, check_normalized, validate_crawl_destination,
}

module _ (lib : UrlLibrary) where
  -- An address that is of none of the classes of local or special addresses.
  pub record IsOpen (address : Text) : Type 0 where
    pub ip : IpAddress
    pub read : lib.ip_address address ≡ some ip
    pub no_metadata : ip.is_metadata ≡ false
    pub no_private : ip.is_private ≡ false
    pub no_loopback : ip.is_loopback ≡ false
    pub no_link_local : ip.is_link_local ≡ false
    pub no_multicast : ip.is_multicast ≡ false
    pub no_reserved : ip.is_reserved ≡ false
    pub no_unspecified : ip.is_unspecified ≡ false

  -- Where a URL leads: to its host's addresses, of which there are some, and none is blocked.
  pub record LeadsOut (url : Text) : Type 0 where
    pub parsed : ParsedUrl
    pub hostname : Text
    pub addresses : List Text
    pub is_parsed : lib.urlparse url ≡ ok parsed
    pub has_host : parsed.hostname ≡ some hostname
    pub is_resolved : lib.getaddrinfo hostname ≡ ok addresses
    pub resolves : is_empty addresses ≡ false
    pub are_open : All IsOpen addresses

  Result-cases :
      {A : Type 0} (r : Result A) → ((e : Exception) × (r ≡ err e)) ⊎ ((a : A) × (r ≡ ok a))
  Result-cases (err e) = inl (e, refl)
  Result-cases (ok a) = inr (a, refl)

  ok_inj : {t u : Text} → ok t ≡ ok u → t ≡ u
  ok_inj e = ap (λ r. elim r [ ok t ↦ t | err _ ↦ [] ]) e

  not_blocked :
      (a : Text) (ip : IpAddress) → lib.ip_address a ≡ some ip → is_blocked_ip ip ≡ false → IsOpen a
  unfolding is_blocked_ip
  not_blocked a ip read f = record {
    ip = ip;
    read = read;
    no_metadata = ground arith;
    no_private = ground arith;
    no_loopback = ground arith;
    no_link_local = ground arith;
    no_multicast = ground arith;
    no_reserved = ground arith;
    no_unspecified = ground arith;
  }

  check_address :
      (a : Text) (rest : Result {0} Unit) (o : Option IpAddress)
      → lib.ip_address a ≡ o
      → elim o [
        | none ↦ err (builtin value_error (codes "not an IPv4 or IPv6 address"))
        | some ip ↦
            if is_blocked_ip ip
            then err (refusal (codes "crawl url resolves to a blocked address"))
            else rest
      ]
        ≡ ok tt
      → IsOpen a × (rest ≡ ok tt)
  check_address a rest none read q = ground arith
  check_address a rest (some ip) read q = elim (Bool-cases (is_blocked_ip ip)) [
    | inl b ↦ let bad = rw b at q in ground arith
    | inr f ↦ (not_blocked a ip read f, rw f at q)
  ]

  check_addresses-IsOpen :
      (addresses : List Text) → check_addresses lib addresses ≡ ok tt → All IsOpen addresses
  unfolding check_addresses
  check_addresses-IsOpen [] e = tt
  check_addresses-IsOpen (a ∷ more) e =
      let (is_open, rest) = check_address a (check_addresses lib more) (lib.ip_address a) refl e in
      (is_open, check_addresses-IsOpen more rest)

  -- The addresses of a host that passes.
  check_host-IsOpen :
      (hostname : Text)
      → check_host lib hostname ≡ ok tt
      → (addresses : List Text) × (lib.getaddrinfo hostname ≡ ok addresses)
        × (is_empty addresses ≡ false)
        × All IsOpen addresses
  unfolding check_host
  check_host-IsOpen hostname e = elim (Result-cases (lib.getaddrinfo hostname)) [
    | inl (x, q) ↦ let bad = rw (check_host, q) at e in ground arith
    | inr (as', q) ↦
        let e1 = rw (check_host, q) at e in
        elim (Bool-cases (is_empty as')) [
          | inl none_left ↦ let bad = rw none_left at e1 in ground arith
          | inr some_left ↦ (as', q, some_left, check_addresses-IsOpen as' (rw some_left at e1))
        ]
  ]

  check_normalized_out :
      (normalized out : Text)
      → check_normalized lib normalized ≡ ok out
      → (normalized ≡ out) × LeadsOut normalized
  unfolding check_normalized
  check_normalized_out normalized out e = elim (Result-cases (lib.urlparse normalized)) [
    | inl (x, q) ↦ let bad = rw (check_normalized, q) at e in ground arith
    | inr (p, q) ↦ go p q p.hostname refl (rw (check_normalized, q) at e)
  ]
    where
      go :
          (p : ParsedUrl)
          → lib.urlparse normalized ≡ ok p
          → (o : Option Text) → p.hostname ≡ o
          → elim o [
            | none ↦ err (builtin assertion_error [])
            | some hostname ↦ elim (check_host lib hostname) [
              | err e ↦ err e
              | ok _ ↦ ok normalized
            ]
          ]
            ≡ ok out
          → (normalized ≡ out) × LeadsOut normalized
      go p q none at_host r = ground arith
      go p q (some hostname) at_host r = elim (Result-cases (check_host lib hostname)) [
        | inl (x, bad) ↦ let no = rw bad at r in ground arith
        | inr (u, fine) ↦
            let (addresses, resolved, some_left, are_open) = check_host-IsOpen hostname fine in
            (
              ok_inj (rw fine at r),
              record {
                parsed = p;
                hostname = hostname;
                addresses = addresses;
                is_parsed = q;
                has_host = at_host;
                is_resolved = resolved;
                resolves = some_left;
                are_open = are_open;
              },
            )
      ]

-- A URL that `validate_crawl_destination` returns is the normalised one of the URL that was given, its
-- host resolves to at least one address, and none of its addresses is private, loopback, link-local,
-- multicast, reserved, unspecified, or that of the metadata server.
pub validate_crawl_destination_out :
    (lib : UrlLibrary) (url out : Text)
    → validate_crawl_destination lib url ≡ ok out
    → (normalize_crawl_url lib url ≡ ok out) × LeadsOut lib out
unfolding validate_crawl_destination
validate_crawl_destination_out lib url out e =
    elim (Result-cases lib (normalize_crawl_url lib url)) [
      | inl (x, q) ↦ let bad = rw (validate_crawl_destination, q) at e in ground arith
      | inr (normalized, q) ↦
          let (same, leads) =
            check_normalized_out lib normalized out (rw (validate_crawl_destination, q) at e) in
          (q ∙ ap ok same, rw same at leads)
    ]
