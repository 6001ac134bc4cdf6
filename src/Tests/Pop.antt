-- ===== src/Tests/Pop.antt =====
-- pop/verify.go with a reader that knows one proof.
use ans_sdk_go.Base.{
  ◌≡◌, ◌≢◌, refl, true, false, some, none, [], ◌∷◌, arith, codes, Bytes, bytes_beq,
}
use ans_sdk_go.Base.Int.{pos}
use ans_sdk_go.Base.Text.{split}
use ans_sdk_go.Base.Text.Base64.{
  decode_base64, decode_base64url, base64_value, url_value, encode_base64url, base64_digit,
  url_digit,
}
use ans_sdk_go.Base.Table.{lookup, insert, remove}
use ans_sdk_go.Base.Members.{contains, erase}
use ans_sdk_go.Pop.Replay.{MemoryReplayCache, new_memory_replay_cache, check_and_store}
use ans_sdk_go.Pop.Replay.NoReplay.{sweep, run}
use ans_sdk_go.Tests.Fixtures.{digest}
use ans_sdk_go.Pop.Errors.{passed}
use ans_sdk_go.Pop.Jws.{EcKey, fill_bytes, split_compact_jws, jws_signing_input, verify_es256}
use ans_sdk_go.Pop.Proof.{
  ProofHeader, ProofPayload, CertKey, Certificate, ProofLibrary, decode_content_digest,
  is_positive_json_integer, check_profile, accept_es256_dpop, public_jwk, jwk_coords,
  match_jwk_to_cert, access_token_hash, jwk_thumbprint, leaf_cert, normalize_htu,
  decode_proof_header, decode_proof_payload,
}
use ans_sdk_go.Pop.Verify.{
  ProofResult, Request, result_at, effective_skew, check_freshness, check_http_binding,
  check_token_binding, read_signed, check_claims, verify_proof_unrecorded, check_content,
  commit_replay, record_proof, verify_proof,
}
use ans_sdk_go.Pop.Verify.Proven.{IsProof, verify_proof_unrecorded-IsProof}
use ans_sdk_go.Pop.Verify.SingleUse.{verify_proof-single_use}

abbrev key : EcKey
key = record { x = 0; y = 0 }

abbrev pub certificate : Certificate
certificate = record {
  raw = 1 ∷ [];
  not_before = 5;
  not_after = 900000000000;
  public_key = CertKey.ecdsa_p256 key;
  uri_sans = codes "ans://v1.2.3.a.example" ∷ [];
}

-- 32 bytes that are zero, in base64url.
abbrev zeros : Bytes
zeros = codes "AAAAAAAAAAAAAAAAAAAAAAAAAAAAAAAAAAAAAAAAAAA"

abbrev header : ProofHeader
header = record {
  typ = codes "dpop+jwt";
  alg = codes "ES256";
  jwk = some (record { kty = codes "EC"; crv = codes "P-256"; x = zeros; y = zeros });
  x5c = codes "AQ==" ∷ [];
}

abbrev payload : ProofPayload
payload = record {
  htm = codes "GET";
  htu = codes "https://a/x";
  iat = 100;
  jti = 7 ∷ [];
  ath = [];
  profile = codes "1";
  content_digest = encode_base64url digest;
}

-- SHA-256 as one digest, and every signature as one that verifies.
abbrev pub library : ProofLibrary
library = record {
  decode_header = λ raw. some header;
  decode_payload = λ raw. some payload;
  parse_certificate = λ der. some certificate;
  parse_url = λ u. some (record {
    scheme = codes "HTTPS";
    hostname = codes "A";
    port = codes "443";
    escaped_path = codes "/x";
  });
  sha256 = λ s. digest;
  ecdsa_verify = λ key digest r s. true;
}

abbrev pub request : Request
request = record {
  ctx_done = false;
  proof_jws =
      codes
        "e30.e30.AAAAAAAAAAAAAAAAAAAAAAAAAAAAAAAAAAAAAAAAAAAAAAAAAAAAAAAAAAAAAAAAAAAAAAAAAAAAAAAAAAAAAA";
  method = codes "GET";
  raw_url = codes "https://a/x";
  now = 110000000000;
  skew = pos 0;
  access_token = none;
  content = none;
}

abbrev pub later : Request
later = record request { now = 111000000000 }

abbrev pub empty : MemoryReplayCache
empty = new_memory_replay_cache 2

abbrev pub result : ProofResult
result = result_at library certificate key payload digest 100000000000 120000000000

unfoldable pub program : Unit {0}
unfolding verify_proof verify_proof_unrecorded read_signed check_claims check_http_binding
    check_token_binding check_freshness effective_skew check_content commit_replay record_proof
    check_and_store new_memory_replay_cache lookup insert remove contains erase bytes_beq
    split_compact_jws jws_signing_input verify_es256 fill_bytes decode_content_digest
    is_positive_json_integer check_profile accept_es256_dpop public_jwk jwk_coords match_jwk_to_cert
    access_token_hash jwk_thumbprint leaf_cert normalize_htu decode_proof_header
    decode_proof_payload split decode_base64 decode_base64url base64_value url_value
    encode_base64url base64_digit url_digit
program = tt

pub reads : verify_proof_unrecorded library request ≡ passed result
unfolding program
reads = refl

verify_proof_unrecorded-IsProof_example : IsProof library request result
verify_proof_unrecorded-IsProof_example =
    verify_proof_unrecorded-IsProof library request result reads

accepts : (verify_proof library 110000000500 request empty).0 ≡ passed result
unfolding program
accepts = refl

verify_proof-single_use_example :
    (verify_proof library 111000000500 later
      (run (sweep 110500000000 ∷ []) (verify_proof library 110000000500 request empty).1)).0
    ≢ passed result
verify_proof-single_use_example =
    verify_proof-single_use library 110000000500 request empty result (sweep 110500000000 ∷ [])
      111000000500 later result accepts ((omega arith), tt) refl refl (omega arith)
