-- ===== src/Verify/BadgeRecord.antt =====
-- verify/badge_record.go. The result of url.Parse is an argument.
use ans_sdk_go.Base.{
  ◌==◌, bytes_eq, Bool, Option, none, some, List, [], ◌∷◌, not, if◌then◌else◌, Bytes, codes,
}
use ans_sdk_go.Base.Members.{contains}
use ans_sdk_go.Base.Text.{cut_prefix, split, trim_space}
use ans_sdk_go.Models.Version.{Version, Parsed, ok, err, parse_version}
use ans_sdk_go.Verify.Config.{AnsBadgeRecord, ans_badge}
use ans_sdk_go.Verify.UrlValidator.{ParsedUrl}

pub data RecordError : Type 0 where
  empty_record missing_format missing_url invalid_url not_https missing_host userinfo_not_allowed :
      RecordError
  fragment_not_allowed : RecordError
  unsupported_format : Bytes → RecordError

pub data RecordResult : Type 0 where
  parsed : AnsBadgeRecord → RecordResult
  refused : RecordError → RecordResult

abbrev pub valid_format_versions : List Bytes
valid_format_versions = codes "ans-badge1" ∷ codes "ra-badge1" ∷ []

unfoldable pub is_valid_format_version : Bytes → Bool
is_valid_format_version v = contains v valid_format_versions

-- The variables that the loop over the parts sets.
pub record Fields : Type 0 where
  pub format_version : Bytes
  pub version : Option Version
  pub badge_url : Bytes

abbrev pub no_fields : Fields
no_fields = record { format_version = []; version = none; badge_url = [] }

-- A version that does not parse is ignored.
abbrev pub set_version : Parsed → Fields → Fields
set_version (ok v) fs = record fs { version = some v }
set_version (err e) fs = fs

unfoldable pub read_part : Bytes → Fields → Fields
read_part part fs = elim (cut_prefix part (codes "v=")) [
  | some v ↦ record fs { format_version = v }
  | none ↦ elim (cut_prefix part (codes "version=")) [
    | some v ↦ set_version (parse_version v) fs
    | none ↦ elim (cut_prefix part (codes "url=")) [
      | some u ↦ record fs { badge_url = u }
      | none ↦ fs
    ]
  ]
]

unfoldable pub read_parts : List Bytes → Fields → Fields
unfolding read_part
read_parts [] fs = fs
read_parts (part ∷ parts) fs = read_parts parts (read_part (trim_space part) fs)

unfoldable pub check_record_url : ParsedUrl → Option RecordError
check_record_url u =
    if not (u.scheme == codes "https")
    then some not_https
    else if u.host == []
    then some missing_host
    else if u.has_user
    then some userinfo_not_allowed
    else if not (u.fragment == [])
    then some fragment_not_allowed
    else none

module _ (url_parse : Bytes → Option ParsedUrl) where
  unfoldable pub finish_record : Fields → RecordResult
  unfolding check_record_url is_valid_format_version
  finish_record fs =
      if fs.format_version == []
      then refused missing_format
      else if not (is_valid_format_version fs.format_version)
      then refused (unsupported_format fs.format_version)
      else if fs.badge_url == []
      then refused missing_url
      else elim (url_parse fs.badge_url) [
        | none ↦ refused invalid_url
        | some u ↦ elim (check_record_url u) [
          | some e ↦ refused e
          | none ↦ parsed (record {
            format_version = fs.format_version;
            version = fs.version;
            url = fs.badge_url;
            source = ans_badge;
          })
        ]
      ]

  unfoldable pub parse_ans_badge_record : Bytes → RecordResult
  unfolding finish_record read_parts
  parse_ans_badge_record txt =
      if txt == []
      then refused empty_record
      else finish_record (read_parts (split b';' txt) no_fields)
