-- ===== src/Verify/UrlValidator/Allowed.antt =====
-- Which badge URLs are allowed.
use ans_sdk_go.Base.{◌≡◌, ◌↔◌, ◌⊎◌, true, false, none, [], arith, bytes_eq, bytes_beq_iff, codes}
use ans_sdk_go.Base.Members.{contains}
use ans_sdk_go.Base.Text.{to_lower}
use ans_sdk_go.Verify.UrlValidator.{
  UrlValidator, ParsedUrl, has_dots, is_domain_trusted, validate_parsed,
}

pub record IsAllowed (v : UrlValidator) (u : ParsedUrl) : Type 0 where
  pub https : u.scheme ≡ codes "https"
  pub trusted : contains (to_lower u.hostname) v.trusted_domains ≡ true
  pub standard_port : (u.port ≡ []) ⊎ (u.port ≡ codes "443")
  pub no_traversal : has_dots u.path ≡ false
  pub no_query : u.raw_query ≡ []

-- A parsed URL passes exactly if its scheme is https, its host in lower case is a trusted domain,
-- its port is absent or 443, its path has no two dots in a row and it has no query.
pub validate_parsed_lem :
    (v : UrlValidator) (u : ParsedUrl) → (validate_parsed v u ≡ none) ↔ IsAllowed v u
unfolding validate_parsed is_domain_trusted
validate_parsed_lem v u =
    let a = bytes_beq_iff u.scheme (codes "https") in
    let b = bytes_beq_iff u.port [] in
    let c = bytes_beq_iff u.port (codes "443") in
    let d = bytes_beq_iff u.raw_query [] in
    (
      (λ h. record {
        https = ground (arith, a);
        trusted = ground arith;
        standard_port = ground (arith, b, c);
        no_traversal = ground arith;
        no_query = ground (arith, d);
      }),
      (λ p. ground (arith, a, b, c, d)),
    )
