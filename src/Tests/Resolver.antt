-- ===== src/Tests/Resolver.antt =====
-- verify/badge_record.go and verify/dns_resolver.go on concrete records.
use ans_sdk_go.Base.{
  ◌≡◌, refl, Option, none, some, List, [], ◌∷◌, codes, bytes_beq, bytes_eq, nat_eq,
}
use ans_sdk_go.Base.Members.{contains}
use ans_sdk_go.Base.Text.{cut_prefix, trim_prefix, split, trim_space, decimal, parse_uint32}
use ans_sdk_go.Models.Version.{
  Version, compare, compare_numbers, equal, parse_version, parse_split, parse_parts,
}
use ans_sdk_go.Verify.BadgeRecord.{
  parsed, parse_ans_badge_record, finish_record, read_parts, read_part, check_record_url,
  is_valid_format_version,
}
use ans_sdk_go.Verify.Config.{AnsBadgeRecord, ans_badge, lookup_record}
use ans_sdk_go.Verify.Resolver.{
  choose_for_version, exact_match, versionless_match, choose_preferred, sort_records, put,
  comes_first,
}
use ans_sdk_go.Verify.Resolver.Choice.{IsOneOf, Suits, choose_for_version-Suits}
use ans_sdk_go.Verify.Resolver.Preferred.{IsNewest, choose_preferred-IsNewest}
use ans_sdk_go.Tests.Fixtures.{env}

abbrev version_1 : Version
version_1 = record { major = 1; minor = 0; patch = 0 }

abbrev version_2 : Version
version_2 = record { major = 1; minor = 2; patch = 0 }

abbrev record_with : Option Version → AnsBadgeRecord
record_with v = record {
  format_version = codes "ans-badge1";
  version = v;
  url = codes "https://log/x";
  source = ans_badge;
}

abbrev records : List AnsBadgeRecord
records = record_with none ∷ record_with (some version_1) ∷ record_with (some version_2) ∷ []

program : Unit {0}
unfolding choose_for_version exact_match versionless_match choose_preferred sort_records put
    comes_first compare compare_numbers equal parse_ans_badge_record finish_record read_parts
    read_part check_record_url is_valid_format_version cut_prefix trim_prefix split trim_space
    decimal parse_uint32 parse_version parse_split parse_parts contains bytes_beq
program = tt

reads_record :
    parse_ans_badge_record env.url_parse (codes " v=ans-badge1;version=1.2.0 ; url=https://log/x")
    ≡ parsed (record_with (some version_2))
unfolding program
reads_record = refl

prefers : choose_preferred records ≡ lookup_record (some (record_with (some version_2)))
unfolding program
prefers = refl

choose_preferred-IsNewest_example :
    IsOneOf (record_with (some version_2)) records × IsNewest (record_with (some version_2)) records
choose_preferred-IsNewest_example =
    choose_preferred-IsNewest records (record_with (some version_2)) prefers

chooses : choose_for_version version_1 records ≡ lookup_record (some (record_with (some version_1)))
unfolding program
chooses = refl

choose_for_version-Suits_example :
    IsOneOf (record_with (some version_1)) records
    × Suits version_1 records (record_with (some version_1))
choose_for_version-Suits_example =
    choose_for_version-Suits version_1 records (record_with (some version_1)) chooses
