-- ===== src/Tests/Urls.antt =====
-- A URL of a host with a public address.
use ject6_4th_ai_analyzer.Base.{
  ◌≡◌, refl, false, none, some, [], ◌∷◌, ◌++◌, codes, lower, starts_with, ◌==◌, text_eq,
  if◌then◌else◌,
}
use ject6_4th_ai_analyzer.Core.Effects.{ok}
use ject6_4th_ai_analyzer.Core.UrlSecurity.{
  UrlLibrary, normalize_crawl_url, validate_crawl_destination,
}
use ject6_4th_ai_analyzer.Core.UrlSecurity.Destination.{LeadsOut, validate_crawl_destination_out}

abbrev public_web : UrlLibrary
public_web = record {
  urlparse = λ _. ok (record {
    scheme = codes "https";
    hostname = some (codes "example.com");
    username = none;
    password = none;
    port = some none;
    path = codes "/post";
    query = [];
  });
  urlunparse = λ scheme netloc path query. scheme ++ codes "://" ++ netloc ++ path;
  ip_address = λ t.
      if t == codes "example.com"
      then none
      else some (record {
        is_metadata = false;
        is_private = false;
        is_loopback = false;
        is_link_local = false;
        is_multicast = false;
        is_reserved = false;
        is_unspecified = false;
      });
  getaddrinfo = λ _. ok (codes "93.184.216.34" ∷ []);
}

validated :
    validate_crawl_destination public_web (codes "https://example.com/post#top")
    ≡ ok (codes "https://example.com/post")
unfolding validate_crawl_destination lower starts_with
validated = refl

validate_crawl_destination_out_example :
    (normalize_crawl_url public_web (codes "https://example.com/post#top")
      ≡ ok (codes "https://example.com/post"))
    × LeadsOut public_web (codes "https://example.com/post")
validate_crawl_destination_out_example =
    validate_crawl_destination_out public_web (codes "https://example.com/post#top")
      (codes "https://example.com/post") validated
