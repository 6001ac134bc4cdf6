-- ===== src/Verify/Resolver.antt =====
-- verify/dns.go and StandardDNSResolver of verify/dns_resolver.go. The TXT query is the argument
-- `lookup_txt`. The sort is insertion sort, which sort.Slice is on up to twelve records.
pub mod Choice
pub mod Preferred
use ans_sdk_go.Base.{
  ◌==◌, bytes_eq, Bool, true, false, Option, none, some, List, [], ◌∷◌, if◌then◌else◌, Bytes,
}
use ans_sdk_go.Models.Fqdn.{Fqdn, ans_badge_name, ra_badge_name}
use ans_sdk_go.Models.Version.{Version, Comparison, less, same, greater, compare, equal}
use ans_sdk_go.Verify.BadgeRecord.{RecordResult, parsed, refused, parse_ans_badge_record}
use ans_sdk_go.Verify.Config.{
  AnsBadgeRecord, BadgeRecordSource, ans_badge, ra_badge, RecordReply, lookup_error, lookup_record,
}
use ans_sdk_go.Verify.Errors.{
  VerifyError, record_not_found, dns_not_found, dns_timeout, dns_lookup_failed, is_dns_not_found,
}
use ans_sdk_go.Verify.UrlValidator.{ParsedUrl}

-- What net.Resolver answers to a TXT query: texts, or an error, with its text where it is kept.
pub data TxtReply : Type 0 where
  texts : List Bytes → TxtReply
  not_found timed_out : TxtReply
  failed : Bytes → TxtReply

-- DNSLookupResult; `found` is a list of records that is not empty.
pub data Lookup : Type 0 where
  absent : Lookup
  found : List AnsBadgeRecord → Lookup
  broken : VerifyError → Lookup

-- A record keeps a source of its own.
abbrev pub keep_parsed :
    BadgeRecordSource → RecordResult → List AnsBadgeRecord → List AnsBadgeRecord
keep_parsed s (parsed r) rs = record r { source = s } ∷ rs
keep_parsed s (refused e) rs = rs

module _ (url_parse : Bytes → Option ParsedUrl) (lookup_txt : Bytes → TxtReply) where
  unfoldable pub parse_texts : BadgeRecordSource → List Bytes → List AnsBadgeRecord
  parse_texts s [] = []
  parse_texts s (txt ∷ txts) =
      keep_parsed s (parse_ans_badge_record url_parse txt) (parse_texts s txts)

  abbrev pub found_if_any : List AnsBadgeRecord → Lookup
  found_if_any [] = absent
  found_if_any (r ∷ rs) = found (r ∷ rs)

  -- lookupBadgeRecords with handleLookupError.
  unfoldable pub lookup_badge_records : Bytes → BadgeRecordSource → Lookup
  unfolding parse_texts
  lookup_badge_records name s = elim (lookup_txt name) [
    | texts txts ↦ found_if_any (parse_texts s txts)
    | not_found ↦ absent
    | timed_out ↦ broken (dns_timeout name)
    | failed reason ↦ broken (dns_lookup_failed name reason)
  ]

  unfoldable pub lookup_ans_badge : Fqdn → Lookup
  unfolding lookup_badge_records
  lookup_ans_badge f = elim (lookup_badge_records (ans_badge_name f) ans_badge) [
    | broken e ↦ broken e
    | found rs ↦ found rs
    | absent ↦ lookup_badge_records (ra_badge_name f) ra_badge
  ]

-- Whether a record has exactly a version.
abbrev pub has_version : Version → Option Version → Bool
has_version v none = false
has_version v (some w) = equal w v

abbrev pub is_versionless : Option Version → Bool
is_versionless none = true
is_versionless (some w) = false

-- The first pass.
unfoldable pub exact_match : Version → List AnsBadgeRecord → Option AnsBadgeRecord
exact_match v [] = none
exact_match v (r ∷ rs) =
    let rest = exact_match v rs in if has_version v r.version then some r else rest

-- The second pass.
unfoldable pub versionless_match : List AnsBadgeRecord → Option AnsBadgeRecord
versionless_match [] = none
versionless_match (r ∷ rs) =
    let rest = versionless_match rs in if is_versionless r.version then some r else rest

unfoldable pub choose_for_version : Version → List AnsBadgeRecord → RecordReply
unfolding exact_match versionless_match
choose_for_version v rs = elim (exact_match v rs) [
  | some r ↦ lookup_record (some r)
  | none ↦ elim (versionless_match rs) [
    | some r ↦ lookup_record (some r)
    | none ↦ lookup_error record_not_found
  ]
]

-- The order of the sort: newest first, records without a version last.
unfoldable pub comes_first : Option Version → Option Version → Bool
comes_first none none = false
comes_first none (some w) = false
comes_first (some v) none = true
comes_first (some v) (some w) = elim (compare v w) [ less ↦ false | same ↦ false | greater ↦ true ]

unfoldable pub put : AnsBadgeRecord → List AnsBadgeRecord → List AnsBadgeRecord
put r [] = r ∷ []
put r (s ∷ sorted) =
    let rest = put r sorted in if comes_first r.version s.version then r ∷ s ∷ sorted else s ∷ rest

unfoldable pub sort_records : List AnsBadgeRecord → List AnsBadgeRecord → List AnsBadgeRecord
unfolding put
sort_records sorted [] = sorted
sort_records sorted (r ∷ rs) = sort_records (put r sorted) rs

abbrev pub first_record : List AnsBadgeRecord → RecordReply
first_record [] = lookup_error record_not_found
first_record (r ∷ rs) = lookup_record (some r)

unfoldable pub choose_preferred : List AnsBadgeRecord → RecordReply
unfolding sort_records
choose_preferred rs = first_record (sort_records [] rs)

-- GetAnsBadgeRecords and what both methods make of its error.
abbrev pub with_records : (List AnsBadgeRecord → RecordReply) → Lookup → RecordReply
with_records choose absent = lookup_error record_not_found
with_records choose (found rs) = choose rs
with_records choose (broken e) = lookup_error (if is_dns_not_found e then record_not_found else e)

module _ (url_parse : Bytes → Option ParsedUrl) (lookup_txt : Bytes → TxtReply) where
  unfoldable pub find_badge_for_version : Fqdn → Version → RecordReply
  unfolding choose_for_version lookup_ans_badge
  find_badge_for_version f v =
      with_records (choose_for_version v) (lookup_ans_badge url_parse lookup_txt f)

  unfoldable pub find_preferred_badge : Fqdn → RecordReply
  unfolding choose_preferred lookup_ans_badge
  find_preferred_badge f = with_records choose_preferred (lookup_ans_badge url_parse lookup_txt f)
