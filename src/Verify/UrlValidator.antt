-- ===== src/Verify/UrlValidator.antt =====
-- verify/url_validator.go. The result of url.Parse is an argument.
pub mod Allowed
use ans_sdk_go.Base.{
  ◌==◌, bytes_eq, Bool, true, false, Option, none, some, List, [], ◌∷◌, map, not, ◌&&◌, ◌||◌,
  if◌then◌else◌, Bytes, codes,
}
use ans_sdk_go.Base.Members.{contains}
use ans_sdk_go.Base.Text.{has_prefix, to_lower}

abbrev pub default_trusted_ra_domains : List Bytes
default_trusted_ra_domains =
    codes "transparency.ans.godaddy.com" ∷ codes "transparency.ans.ote-godaddy.com" ∷ []

pub data UrlError : Type 0 where
  http_scheme untrusted_domain non_standard_port path_traversal : UrlError

pub record UrlValidator : Type 0 where
  pub trusted_domains : List Bytes

unfoldable pub new_url_validator : List Bytes → UrlValidator
new_url_validator domains = record { trusted_domains = map to_lower domains }

-- What the program reads of a parsed URL.
pub record ParsedUrl : Type 0 where
  pub scheme : Bytes
  pub hostname : Bytes
  pub port : Bytes
  pub path : Bytes
  pub raw_query : Bytes
  pub host : Bytes
  pub has_user : Bool
  pub fragment : Bytes

-- strings.Contains(path, "..")
unfoldable pub has_dots : Bytes → Bool
has_dots [] = false
has_dots (c ∷ s) =
    let rest = has_dots s in if has_prefix (c ∷ s) (b'.' ∷ b'.' ∷ []) then true else rest

unfoldable pub is_domain_trusted : UrlValidator → Bytes → Bool
is_domain_trusted v hostname = contains hostname v.trusted_domains

unfoldable pub validate_parsed : UrlValidator → ParsedUrl → Option UrlError
unfolding is_domain_trusted has_dots
validate_parsed v u =
    if not (u.scheme == codes "https")
    then some http_scheme
    else if not (is_domain_trusted v (to_lower u.hostname))
    then some untrusted_domain
    else if not (u.port == []) && not (u.port == codes "443")
    then some non_standard_port
    else if has_dots u.path
    then some path_traversal
    else if not (u.raw_query == [])
    then some path_traversal
    else none

unfoldable pub validate :
    (url_parse : Bytes → Option ParsedUrl) → UrlValidator → Bytes → Option UrlError
unfolding validate_parsed
validate url_parse v raw_url = elim (url_parse raw_url) [
  | none ↦ some http_scheme
  | some u ↦ validate_parsed v u
]
