-- ===== src/Tests/Scitt.antt =====
-- verify/scitt with one receipt, one token, one key and one checkpoint.
use ans_sdk_go.Base.{
  ◌≡◌, ◌⊎◌, ◌&&◌, refl, true, none, some, [], ◌∷◌, codes, bytes_beq, bytes_eq, Bytes, arith,
  get_elem?, map, all, any,
}
use ans_sdk_go.Base.Int.{pos, ltz}
use ans_sdk_go.Base.Table.{lookup, insert}
use ans_sdk_go.Base.Text.{
  split_n, split, cut, cut_prefix, ends_with, trim_last, has_prefix, parse_uint64, decimal,
}
use ans_sdk_go.Base.Text.Hex.{decode_hex, hex_value}
use ans_sdk_go.Base.Text.Base64.{decode_base64, base64_value, encode_base64, base64_digit}
use ans_sdk_go.Base.Text.Utf8.{rune_width}
use ans_sdk_go.Scitt.Errors.{good}
use ans_sdk_go.Scitt.TokenPayload.{
  decode_status_payload, decode_payload_fields, get_field, decode_string_field, decode_int64_field,
  decode_cert_array, keep_entries, decode_fingerprint_field,
}
use ans_sdk_go.Scitt.TokenPayload.Decoded.{HasFields, HasCertLists, decode_status_payload-HasFields}
use ans_sdk_go.Scitt.Merkle.Reference.{root, root_in}
use ans_sdk_go.Scitt.Merkle.Binding.{Collision}
use ans_sdk_go.Scitt.Receipt.Accepted.{IsReceipt, verify_receipt-IsReceipt}
use ans_sdk_go.Scitt.Checkpoint.Verified
use ans_sdk_go.Scitt.Checkpoint.Verified.{verify_checkpoint-IsSigned}
use ans_sdk_go.Scitt.Checkpoint.Covered.{covers-verify_receipt}
use ans_sdk_go.Scitt.Checkpoint.Signatures.{
  accepts, line_holds, line_signs, verify_checkpoint_signatures-accepts,
}
use ans_sdk_go.Scitt.RootKeys
use ans_sdk_go.Scitt.RootKeys.Merge.{new_key_store-merge_from}
use ans_sdk_go.Scitt.RootKeys.Authentic.{IsAuthentic, new_key_store-IsAuthentic}
use ans_sdk_go.Scitt.KeyRefresh
use ans_sdk_go.Scitt.KeyRefresh.{
  RefreshableKeyStore, publish, refresh_if_cooldown_elapsed, refresh_gated, do_refresh,
  within_cooldown,
}
use ans_sdk_go.Scitt.KeyRefresh.Runs.{here, next, Reach-keeps, refresh_if_cooldown_elapsed-learns}
use ans_sdk_go.Scitt.KeyRefresh.Cooldown.{requests, requests-within_cooldown}
use ans_sdk_go.Scitt.HttpHeaders.{extract_headers, generate_headers}
use ans_sdk_go.Scitt.HttpHeaders.RoundTrip.{extract_headers-generate_headers}
use ans_sdk_go.Scitt.Merkle.{walk_inclusion_path, walk, compute_leaf_hash}
use ans_sdk_go.Scitt.RootKeys.{
  TrustedKey, KeyStore, len, parse_c2sp_key, key_of_parts, add_all, new_key_store, merge_key,
  merge_keys, merge_from,
}
use ans_sdk_go.Scitt.Cose.{
  parse_cose_sign1, parse_protected_header, unwrap_tag18, verify_ecdsa,
  compute_sig_structure_digest, build_sig_structure,
}
use ans_sdk_go.Scitt.Receipt.{
  VerifiedReceipt, verify_receipt, validate_vds, verify_issuer_binding, verify_inclusion_proof,
  extract_vdp, read_path,
}
use ans_sdk_go.Scitt.Checkpoint.{
  Checkpoint, CheckpointSignature, verify_checkpoint, validate_note_text, is_note_text,
  split_checkpoint_note, cut_blank_line, parse_signature_lines, parse_signature_line,
  parse_checkpoint_body, verify_checkpoint_signatures, examine_lines, examine_line, examine_known,
  verify_checkpoint_signature, bind_checkpoint_signer, conclude_lines, covers,
}
use ans_sdk_go.Tests.ScittFixtures.{
  payload, short_digest-width, crypto, cbor, key, keys, key_string, note, item, event, short_digest,
}

unfoldable pub program : Unit {0}
unfolding bytes_beq lookup insert split_n split cut cut_prefix ends_with trim_last has_prefix
    parse_uint64 decimal decode_hex hex_value decode_base64 base64_value encode_base64 base64_digit
    rune_width walk_inclusion_path walk compute_leaf_hash parse_c2sp_key key_of_parts
    parse_cose_sign1 parse_protected_header unwrap_tag18 verify_ecdsa compute_sig_structure_digest
    build_sig_structure verify_receipt validate_vds verify_issuer_binding verify_inclusion_proof
    extract_vdp read_path verify_checkpoint validate_note_text is_note_text split_checkpoint_note
    cut_blank_line parse_signature_lines parse_signature_line parse_checkpoint_body
    verify_checkpoint_signatures examine_lines examine_line examine_known
    verify_checkpoint_signature bind_checkpoint_signer conclude_lines covers decode_status_payload
    decode_payload_fields get_field decode_string_field decode_int64_field decode_cert_array
    keep_entries decode_fingerprint_field add_all new_key_store merge_key merge_keys merge_from
    KeyRefresh.get RootKeys.get publish refresh_if_cooldown_elapsed refresh_gated do_refresh
    within_cooldown ltz
program = tt

key_parses : parse_c2sp_key crypto key_string ≡ good key
unfolding program
key_parses = refl

abbrev pub receipt : VerifiedReceipt
receipt = record {
  tree_size = 1;
  leaf_index = 0;
  root_hash = short_digest (0 ∷ event);
  event_bytes = event;
  key_id = 1 ∷ 0 ∷ 0 ∷ 0 ∷ [];
  iss = none;
  iat = none;
}

pub receipt_accepted : verify_receipt cbor crypto (item 1) keys ≡ good receipt
unfolding program
receipt_accepted = refl

abbrev head : Checkpoint
head = record {
  origin = codes "log";
  size = 1;
  root_hash = short_digest (0 ∷ event);
  key_id = 1 ∷ 0 ∷ 0 ∷ 0 ∷ [];
}

note_accepted : verify_checkpoint crypto note keys ≡ good head
unfolding program
note_accepted = refl

covered : covers head receipt ≡ good tt
unfolding program
covered = refl

verify_receipt-IsReceipt_example : IsReceipt cbor crypto (item 1) keys receipt
verify_receipt-IsReceipt_example =
    verify_receipt-IsReceipt cbor crypto (item 1) keys receipt receipt_accepted

verify_checkpoint-IsSigned_example : Verified.IsSigned crypto note keys head
verify_checkpoint-IsSigned_example = verify_checkpoint-IsSigned crypto note keys head note_accepted

top :
    short_digest (0 ∷ event) ≡ root short_digest (map (compute_leaf_hash short_digest) (event ∷ []))
unfolding program root root_in
top = refl

covers-verify_receipt_example :
    (there : Bytes) × (get_elem? (event ∷ []) 0 ≡ some there)
    × ((event ≡ there) ⊎ Collision short_digest)
covers-verify_receipt_example =
    covers-verify_receipt cbor crypto short_digest-width (item 1) keys receipt head (event ∷ [])
      receipt_accepted covered (omega arith) refl top

abbrev line : CheckpointSignature
line = record { name = codes "log"; kid = 1 ∷ 0 ∷ 0 ∷ 0 ∷ []; signature = 7 ∷ [] }

verify_checkpoint_signatures-accepts_example :
    accepts (verify_checkpoint_signatures crypto keys (codes "log") event (line ∷ [])) ≡ (
      all (line_holds crypto keys (codes "log") event) (line ∷ [])
      && any (line_signs crypto keys (codes "log") event) (line ∷ []))
verify_checkpoint_signatures-accepts_example =
    verify_checkpoint_signatures-accepts crypto keys (codes "log") event line []

payload_decodes : decode_status_payload cbor (item 6) ≡ good payload
unfolding program
payload_decodes = refl

decode_status_payload-HasFields_example : HasFields cbor payload × HasCertLists cbor payload
decode_status_payload-HasFields_example =
    decode_status_payload-HasFields cbor (item 6) payload payload_decodes

abbrev store : KeyStore
store = record { keys = (1 ∷ 0 ∷ 0 ∷ 0 ∷ [], key) ∷ [] }

store_made : new_key_store crypto (key_string ∷ []) ≡ good store
unfolding program
store_made = refl

new_key_store-IsAuthentic_example : IsAuthentic crypto store.keys
new_key_store-IsAuthentic_example =
    new_key_store-IsAuthentic crypto (key_string ∷ []) store store_made

new_key_store-merge_from_example :
    ((merge_from crypto (record { keys = [] }) (key_string ∷ [])).0 ≡ store)
    × ((merge_from crypto (record { keys = [] }) (key_string ∷ [])).1.skipped ≡ 0)
new_key_store-merge_from_example =
    new_key_store-merge_from crypto (key_string ∷ []) store store_made

-- A store that refreshed at 100 with a cooldown of 50.
abbrev refreshable : RefreshableKeyStore
refreshable = record {
  has_client = true;
  cooldown = pos 50;
  snapshot = store;
  last_refreshed = some 100;
}

abbrev later_store : RefreshableKeyStore
later_store = publish crypto refreshable [] 200

found : KeyRefresh.get refreshable (1 ∷ 0 ∷ 0 ∷ 0 ∷ []) ≡ good key
unfolding program
found = refl

Reach-keeps_example : KeyRefresh.get later_store (1 ∷ 0 ∷ 0 ∷ 0 ∷ []) ≡ good key
Reach-keeps_example = Reach-keeps crypto (1 ∷ 0 ∷ 0 ∷ 0 ∷ []) key found (next [] 200 here refl)

refresh_if_cooldown_elapsed-learns_example :
    ((refresh_if_cooldown_elapsed crypto refreshable (good (key_string ∷ [])) 160 160 170).0
      ≡ good true)
    × ((held : TrustedKey) × (KeyRefresh.get
            (refresh_if_cooldown_elapsed crypto refreshable (good (key_string ∷ [])) 160 160 170).1
            (1 ∷ 0 ∷ 0 ∷ 0 ∷ [])
          ≡ good held))
unfolding program
refresh_if_cooldown_elapsed-learns_example =
    refresh_if_cooldown_elapsed-learns crypto refreshable _ [] [] key_string key 160 160 170 refl
      refl refl key_parses here

requests-within_cooldown_example :
    requests crypto refreshable
      (record { reply = good (key_string ∷ []); start = 120; checked = 121; now = 122 } ∷ [])
    ≡ refreshable
requests-within_cooldown_example =
    requests-within_cooldown crypto refreshable 100 50
      (record { reply = good (key_string ∷ []); start = 120; checked = 121; now = 122 } ∷ []) refl
      refl (omega arith, tt)

extract_headers-generate_headers_example :
    extract_headers (generate_headers (1 ∷ 2 ∷ []) (3 ∷ []))
    ≡ good (record { receipt = 1 ∷ 2 ∷ []; status_token = 3 ∷ [] })
extract_headers-generate_headers_example =
    extract_headers-generate_headers (1 ∷ 2 ∷ []) (3 ∷ []) refl refl (omega arith) (omega arith)
