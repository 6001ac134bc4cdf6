-- ===== src/Tests/Sign.antt =====
-- pop/sign.go with one signer.
use ans_sdk_go.Base.{
  ℕ, ◌*◌, ◌≡◌, ◌≢◌, ◌≤◌, ◌<◌, refl, sym, ◌∙◌, true, false, Option, some, [], ◌∷◌, ◌++◌, length,
  arith, codes, Bytes,
}
use mathlib.Core.Path.{subst}
use ans_sdk_go.Base.Text.Hex.{are_bytes, encode_hex, hex_digit}
use ans_sdk_go.Base.Text.Base64.{encode_base64, encode_base64url}
use ans_sdk_go.Pop.Errors.{passed, passed_injective}
use ans_sdk_go.Pop.Jws.{fill_bytes}
use ans_sdk_go.Pop.Proof.{ProofLibrary, public_jwk, normalize_htu}
use ans_sdk_go.Base.Int.{pos}
use ans_sdk_go.Pop.Jws.RoundTrip.{capacity}
use ans_sdk_go.Pop.Verify.{ProofResult, second, effective_skew, verify_proof_unrecorded}
use ans_sdk_go.Pop.Verify.Proven.{IsFresh}
use ans_sdk_go.Pop.Sign.{
  PrivateKey, SignerLibrary, Signer, ProofOptions, header_of, payload_of, new_signer,
  encode_proof_parts, sign_es256, new_jti, sign,
}
use ans_sdk_go.Pop.Sign.Parts.{SignsTruly}
use ans_sdk_go.Pop.Sign.Token.{HeaderReadsBack, PayloadReadsBack}
use ans_sdk_go.Pop.Sign.Verified.{sign-verify_proof_unrecorded}
use ans_sdk_go.Tests.Fixtures.{digest}
use ans_sdk_go.Tests.Pop.{library, request, certificate}
use ans_sdk_go.Tests.Pop

abbrev key : PrivateKey
key = record { is_p256 = true; public_key = record { x = 0; y = 0 }; secret = [] }

abbrev signer : Signer
signer = record { key = key; cert_der = 1 ∷ []; jwk = public_jwk key.public_key }

abbrev random : Bytes
random = fill_bytes 16 0

abbrev options : ProofOptions
options = record { ath = []; content_digest = digest }

abbrev json : Bytes
json = codes "{}"

abbrev minted_at : ℕ
minted_at = 100 * second

-- The decoders know the one header and the one payload.
abbrev lib : ProofLibrary
lib = record library {
  decode_header = λ raw. some (header_of library signer);
  decode_payload = λ raw. some (
      payload_of library (codes "GET") (codes "https://a/x") minted_at (encode_hex random) options);
}

abbrev signing : SignerLibrary
signing = record {
  encode_header = λ h. some json;
  encode_payload = λ p. some json;
  ecdsa_sign = λ k d. some (1, 1);
}

abbrev token : Bytes
token =
    encode_base64url json
    ++ (b'.' ∷ encode_base64url json
        ++ (b'.' ∷ encode_base64url (fill_bytes 32 1 ++ fill_bytes 32 1)))

program : Unit {0}
unfolding Pop.program encode_hex hex_digit encode_base64 new_signer encode_proof_parts sign_es256
    new_jti sign
program = tt

made : new_signer lib (some key) (1 ∷ []) ≡ passed signer
unfolding program
made = refl

minted :
    sign lib signing signer false
      (codes "GET")
      (codes "https://a/x")
      minted_at
      (some random)
      options
    ≡ passed token
unfolding program
minted = refl

text_some : (text : Bytes) → Option.some json ≡ some text → json ≡ text
text_some text h = cc

json_some : json ≢ []
json_some h = cc

header-HeaderReadsBack : HeaderReadsBack lib signing (header_of lib signer)
header-HeaderReadsBack text e = (
  refl,
  subst (λ t. are_bytes t ≡ true) (text_some text e) refl,
  subst (λ t. t ≢ []) (text_some text e) json_some,
)

normal : normalize_htu lib (codes "https://a/x") ≡ passed (codes "https://a/x")
unfolding program
normal = refl

payload-PayloadReadsBack :
    (htu : Bytes)
    → normalize_htu lib (codes "https://a/x") ≡ passed htu
    → PayloadReadsBack lib signing
        (payload_of lib (codes "GET") htu minted_at (encode_hex random) options)
payload-PayloadReadsBack htu h text e = (
  rw (← passed_injective (codes "https://a/x") htu (sym normal ∙ h)) refl,
  subst (λ t. are_bytes t ≡ true) (text_some text e) refl,
  subst (λ t. t ≢ []) (text_some text e) json_some,
)

abbrev AreSmall : ℕ × ℕ → Type 0
AreSmall rs = (rs.0 < capacity 32) × (rs.1 < capacity 32) × (true ≡ true)

signed : (rs : ℕ × ℕ) → Option.some (1, 1) ≡ some rs → (1, 1) ≡ rs
signed rs h = cc

key-SignsTruly : SignsTruly lib signing key
key-SignsTruly digest rs h = subst AreSmall (signed rs h) ((omega arith), (omega arith), refl)

fresh : IsFresh 100 110000000000 (effective_skew (pos 0))
unfolding effective_skew
fresh = ((omega arith), (omega arith))

short : length token ≤ 8192
unfolding program
short = omega arith

wide : length random ≡ 16
unfolding program
wide = refl

sign-verify_proof_unrecorded_example :
    (r : ProofResult) × (verify_proof_unrecorded lib (record request { proof_jws = token })
      ≡ passed r)
    × (r.key ≡ signer.key.public_key)
    × (r.cert ≡ certificate)
    × (r.content_digest ≡ digest)
    × (r.jti ≡ encode_hex random)
sign-verify_proof_unrecorded_example =
    sign-verify_proof_unrecorded lib signing (some key) (1 ∷ []) signer certificate false
      (codes "GET") (codes "https://a/x") minted_at random options token
      (record request { proof_jws = token }) made refl minted header-HeaderReadsBack
      payload-PayloadReadsBack key-SignsTruly (λ text. (refl, refl)) refl wide refl refl refl refl
      short (omega arith) (omega arith) refl refl refl (omega arith) fresh
