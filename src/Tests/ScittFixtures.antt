-- ===== src/Tests/ScittFixtures.antt =====
-- A CBOR decoder that knows one receipt and one token, and a crypto library with a digest of the
-- length alone, for the tests of verify/scitt.
use ans_sdk_go.Base.{
  ℕ, ◌≡◌, refl, true, none, some, List, [], ◌∷◌, ◌++◌, length, Bytes, bytes_eq, codes,
}
use ans_sdk_go.Base.Int.{ℤ, pos, negsuc, int_eq}
use ans_sdk_go.Base.Table.{lookup}
use ans_sdk_go.Base.Text.Base64.{encode_base64}
use ans_sdk_go.Scitt.Errors.{good}
use ans_sdk_go.Scitt.RootKeys.{Crypto, TrustedKey, p256}
use ans_sdk_go.Scitt.Cose.{Cbor, uint_key}
use ans_sdk_go.Scitt.TokenPayload.{zeros}
use ans_sdk_go.Scitt.Receipt.{KeyLookup}
use ans_sdk_go.Scitt.Types.{StatusTokenPayload, AgentStatus, CertType}
use ans_sdk_go.Tests.Fixtures.{digest}

abbrev pub short_digest : Bytes → Bytes
short_digest bs = length bs ∷ zeros 31

pub short_digest-width : (bs : Bytes) → length (short_digest bs) ≡ 32
short_digest-width bs = refl

abbrev pub crypto : Crypto
crypto = record {
  sha256 = short_digest;
  parse_pkix_public_key = λ der. some (p256 der);
  verify_asn1 = λ key digest signature. true;
  verify_pair = λ key digest r s. true;
}

-- A key whose encoding is one byte.
abbrev pub key_string : Bytes
key_string = codes "log+01000000+AgE="

abbrev pub key : TrustedKey
key = record { name = codes "log"; kid = 1 ∷ 0 ∷ 0 ∷ 0 ∷ []; key = 1 ∷ [] }

abbrev pub keys : KeyLookup
keys kid = good key

abbrev pub item : ℕ → Bytes
item n = n ∷ []

abbrev pub event : Bytes
event = item 5

abbrev arrays : List (Bytes × List Bytes)
arrays =
    (item 1, item 10 ∷ item 11 ∷ item 12 ∷ item 13 ∷ [])
    ∷ (item 2, item 10 ∷ item 11 ∷ item 14 ∷ item 13 ∷ [])
    ∷ (item 44, item 45 ∷ [])
    ∷ []

abbrev byte_strings : List (Bytes × Bytes)
byte_strings =
    (item 10, item 20)
    ∷ (item 12, event)
    ∷ (item 13, zeros 64)
    ∷ (item 14, item 6)
    ∷ (item 22, 1 ∷ 0 ∷ 0 ∷ 0 ∷ [])
    ∷ (item 46, digest)
    ∷ []

abbrev int_maps : List (Bytes × List (ℤ × Bytes))
int_maps =
    (item 20, (pos 1, item 21) ∷ (pos 4, item 22) ∷ (pos 395, item 23) ∷ [])
    ∷ (item 11, (pos 396, item 30) ∷ [])
    ∷ (item 30, (negsuc 0, item 31) ∷ (negsuc 1, item 32) ∷ [])
    ∷ []

abbrev pub cbor : Cbor
cbor = record {
  raw_message = some;
  raw_tag = λ s. none;
  array = λ s. lookup s arrays;
  byte_string = λ s. lookup s byte_strings;
  text = λ s. lookup s (
      (item 40, codes "x")
      ∷ (item 41, codes "ACTIVE")
      ∷ (item 43, codes "ans://v1.2.3.a.example")
      ∷ (item 47, codes "x509-dv-server")
      ∷ []);
  int64 = λ s. lookup s ((item 21, negsuc 6) ∷ (item 23, pos 1) ∷ (item 42, pos 1000) ∷ []);
  uint64 = λ s. lookup s ((item 31, 1) ∷ (item 32, 0) ∷ []);
  int_map = λ s. lookup s int_maps;
  any_map = λ s. lookup s (
      (
        item 6,
        (uint_key 1, item 40)
            ∷ (uint_key 2, item 41)
            ∷ (uint_key 4, item 42)
            ∷ (uint_key 5, item 43)
            ∷ (uint_key 7, item 44)
            ∷ [],
      )
      ∷ (item 45, (uint_key 1, item 46) ∷ (uint_key 2, item 47) ∷ [])
      ∷ []);
  text_map = λ s. none;
  marshal = λ items. some [];
}

-- A checkpoint of the tree of the one event.
abbrev pub note : Bytes
note =
    codes "log"
    ++ 10 ∷ codes "1"
    ++ 10 ∷ encode_base64 (short_digest (0 ∷ event))
    ++ 10 ∷ 10 ∷ 226 ∷ 128 ∷ 148 ∷ codes " log "
    ++ encode_base64 (1 ∷ 0 ∷ 0 ∷ 0 ∷ 7 ∷ [])
    ++ 10 ∷ []

-- What the token says.
abbrev pub payload : StatusTokenPayload
payload = record {
  agent_id = codes "x";
  ans_name = codes "ans://v1.2.3.a.example";
  status = AgentStatus.active;
  iat = pos 0;
  exp = pos 1000;
  valid_identity_certs = [];
  valid_server_certs = record { fingerprint = digest; cert_type = CertType.x509_dv_server } ∷ [];
  metadata_hashes = [];
}
