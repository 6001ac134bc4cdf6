-- ===== src/Pop/Proof/Accepted.antt =====
-- What the functions that accept a header and a signature say of them.
use ans_sdk_go.Base.{
  not_refuted, neither, ◌==◌, bytes_eq, nat_eq, ◌≡◌, refl, true, not, ◌||◌, some, List, [], ◌∷◌,
  ◌++◌, length, take, drop, Bytes, passed_equal, passed_number,
}
use mathlib.Core.Path.{subst}
use ans_sdk_go.Base.Text.{split}
use ans_sdk_go.Base.Text.Split.{join, join-split}
use ans_sdk_go.Base.Text.Base64.{decode_base64, decode_base64url}
use ans_sdk_go.Pop.Errors.{
  passed, passed_injective, >>=-passed, refuse_if-passed, refuse_if_last, or_refuse-passed,
}
use ans_sdk_go.Pop.Jws.{
  EcKey, coord_len, p256_sig_len, set_bytes, fill_bytes, three_segments, split_compact_jws,
  verify_es256,
}
use ans_sdk_go.Pop.Proof.{
  ProofJwk, ProofHeader, CertKey, ecdsa_p256, ecdsa_other, not_ecdsa, Certificate, ProofLibrary,
  dpop_typ, dpop_alg, jwk_kty, jwk_crv, only_entry, accept_es256_dpop, jwk_coords,
  match_jwk_to_cert, ecdsa_key, leaf_cert, decode_content_digest,
}

three_segments-all :
    (segments : List Bytes) (parts : Bytes × Bytes × Bytes)
    → three_segments segments ≡ passed parts
    → segments ≡ parts.0 ∷ parts.1 ∷ parts.2 ∷ []
three_segments-all (header ∷ payload ∷ signature ∷ []) parts h =
    let full = refuse_if-passed _ _ _ h in
    subst (λ parts. header ∷ payload ∷ signature ∷ [] ≡ parts.0 ∷ parts.1 ∷ parts.2 ∷ [])
      (passed_injective _ parts full.1) refl
three_segments-all [] parts h = cc
three_segments-all (a ∷ []) parts h = cc
three_segments-all (a ∷ b ∷ []) parts h = cc
three_segments-all (a ∷ b ∷ c ∷ d ∷ rest) parts h = cc

-- The segments of a token are what it consists of.
pub split_compact_jws-joins :
    (token : Bytes) (parts : Bytes × Bytes × Bytes)
    → split_compact_jws token ≡ passed parts
    → token ≡ parts.0 ++ (b'.' ∷ parts.1 ++ (b'.' ∷ parts.2))
unfolding split_compact_jws
split_compact_jws-joins token parts h =
    subst (λ segments. token ≡ join b'.' segments) (three_segments-all (split b'.' token) parts h)
      (rw (join-split b'.' token) refl)

-- A header of the profile, with its key and its one certificate.
abbrev pub HasProfile : ProofHeader → ProofJwk → Bytes → Type 0
HasProfile h jwk x5c =
    (h.typ ≡ dpop_typ) × (h.alg ≡ dpop_alg) × (h.jwk ≡ some jwk) × (h.x5c ≡ x5c ∷ [])

only_entry-one :
    (entries : List Bytes) (x5c : Bytes) → only_entry entries ≡ passed x5c → entries ≡ x5c ∷ []
only_entry-one [] x5c h = cc
only_entry-one (a ∷ []) x5c h = cc
only_entry-one (a ∷ b ∷ rest) x5c h = cc

pub accept_es256_dpop-HasProfile :
    (h : ProofHeader) (r : ProofJwk × Bytes) → accept_es256_dpop h ≡ passed r → HasProfile h r.0 r.1
unfolding accept_es256_dpop
accept_es256_dpop-HasProfile h r k =
    let typ = refuse_if-passed (not (h.typ == dpop_typ)) _ _ k in
    let alg = refuse_if-passed (not (h.alg == dpop_alg)) _ _ typ.1 in
    let jwk = or_refuse-passed h.jwk _ _ alg.1 in
    let x5c = >>=-passed (only_entry h.x5c) _ jwk.2 in
    subst (λ r. HasProfile h r.0 r.1) (passed_injective _ r x5c.2)
      (
        passed_equal h.typ dpop_typ typ.0,
        passed_equal h.alg dpop_alg alg.0,
        jwk.1,
        only_entry-one h.x5c x5c.0 x5c.1,
      )

-- Both coordinates of the key of a header are those of a key, in 32 bytes.
abbrev pub HasKey : ProofJwk → EcKey → Type 0
HasKey j key =
    (j.kty ≡ jwk_kty)
    × (j.crv ≡ jwk_crv)
    × (decode_base64url j.x ≡ some (fill_bytes coord_len key.x))
    × (decode_base64url j.y ≡ some (fill_bytes coord_len key.y))

abbrev pub Coordinates : ProofJwk → Bytes × Bytes → Type 0
Coordinates j xy =
    (j.kty ≡ jwk_kty)
    × (j.crv ≡ jwk_crv)
    × (decode_base64url j.x ≡ some xy.0)
    × (decode_base64url j.y ≡ some xy.1)

jwk_coords-Coordinates :
    (j : ProofJwk) (xy : Bytes × Bytes) → jwk_coords j ≡ passed xy → Coordinates j xy
unfolding jwk_coords
jwk_coords-Coordinates j xy h =
    let curve = refuse_if-passed (not (j.kty == jwk_kty) || not (j.crv == jwk_crv)) _ _ h in
    let shape = neither (not (j.kty == jwk_kty)) (not (j.crv == jwk_crv)) curve.0 in
    let x = or_refuse-passed (decode_base64url j.x) _ _ curve.1 in
    let y = or_refuse-passed (decode_base64url j.y) _ _ x.2 in
    let wide = refuse_if-passed _ _ _ y.2 in
    subst (Coordinates j) (passed_injective _ xy wide.1)
      (passed_equal j.kty jwk_kty shape.0, passed_equal j.crv jwk_crv shape.1, x.1, y.1)

pub match_jwk_to_cert-HasKey :
    (j : ProofJwk) (key : EcKey) {u : Unit {0}} → match_jwk_to_cert j key ≡ passed u → HasKey j key
unfolding match_jwk_to_cert
match_jwk_to_cert-HasKey j key h =
    let (xy, coords, same) = >>=-passed (jwk_coords j) _ h in
    let (kty, crv, x, y) = jwk_coords-Coordinates j xy coords in
    let both =
      neither (not (xy.0 == fill_bytes coord_len key.x)) (not (xy.1 == fill_bytes coord_len key.y))
        (refuse_if_last _ _ same) in
    (
      kty,
      crv,
      rw (← passed_equal xy.0 (fill_bytes coord_len key.x) both.0) x,
      rw (← passed_equal xy.1 (fill_bytes coord_len key.y) both.1) y,
    )

pub decode_content_digest-length :
    (claim digest : Bytes)
    → decode_content_digest claim ≡ passed digest
    → (decode_base64url claim ≡ some digest) × (length digest ≡ 32)
unfolding decode_content_digest
decode_content_digest-length claim digest h =
    let present = refuse_if-passed (claim == []) _ _ h in
    let raw = or_refuse-passed (decode_base64url claim) _ _ present.1 in
    let wide = refuse_if-passed (not (length raw.0 == 32)) _ _ raw.2 in
    subst (λ digest. (decode_base64url claim ≡ some digest) × (length digest ≡ 32))
      (passed_injective raw.0 digest wide.1) (raw.1, passed_number (length raw.0) 32 wide.0)

ecdsa_key-some : (k : CertKey) {key : EcKey} → ecdsa_key k ≡ some key → k ≡ ecdsa_p256 key
ecdsa_key-some (ecdsa_p256 key) h = cc
ecdsa_key-some ecdsa_other h = cc
ecdsa_key-some not_ecdsa h = cc

module _ (lib : ProofLibrary) where
  -- An entry of a header as a certificate with a key on P-256.
  abbrev pub IsLeaf : Bytes → Certificate → EcKey → Type 0
  IsLeaf x5c cert key =
      (der : Bytes) × (decode_base64 x5c ≡ some der)
      × (lib.parse_certificate der ≡ some cert)
      × (cert.public_key ≡ ecdsa_p256 key)

  pub leaf_cert-IsLeaf :
      (x5c : Bytes) (r : Certificate × EcKey) → leaf_cert lib x5c ≡ passed r → IsLeaf x5c r.0 r.1
  unfolding leaf_cert
  leaf_cert-IsLeaf x5c r h =
      let der = or_refuse-passed (decode_base64 x5c) _ _ h in
      let cert = or_refuse-passed (lib.parse_certificate der.0) _ _ der.2 in
      let key = or_refuse-passed (ecdsa_key cert.0.public_key) _ _ cert.2 in
      subst (λ r. IsLeaf x5c r.0 r.1) (passed_injective _ r key.2)
        (der.0, der.1, cert.1, ecdsa_key-some cert.0.public_key key.1)

  -- A text is a signature of 64 bytes that verifies with a key.
  abbrev pub Signs : EcKey → (signing_input sig_b64 : Bytes) → Type 0
  Signs key signing_input sig_b64 =
      (sig : Bytes) × (decode_base64url sig_b64 ≡ some sig)
      × (length sig ≡ p256_sig_len)
      × (lib.ecdsa_verify key (lib.sha256 signing_input) (set_bytes (take coord_len sig))
            (set_bytes (drop coord_len sig))
          ≡ true)

  pub verify_es256-Signs :
      (key : EcKey) (signing_input sig_b64 : Bytes) {u : Unit {0}}
      → verify_es256 lib.sha256 lib.ecdsa_verify key signing_input sig_b64 ≡ passed u
      → Signs key signing_input sig_b64
  unfolding verify_es256
  verify_es256-Signs key signing_input sig_b64 h =
      let (sig, decoded, k) = or_refuse-passed (decode_base64url sig_b64) _ _ h in
      let wide = refuse_if-passed (not (length sig == p256_sig_len)) _ _ k in
      (
        sig,
        decoded,
        passed_number (length sig) p256_sig_len wide.0,
        not_refuted _ (refuse_if_last _ _ wide.1),
      )
