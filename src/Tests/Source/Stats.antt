-- ===== src/Tests/Source/Stats.antt =====
-- The tests of src/xray/stats.rs.
use xray_bridge.Prelude.{Bool, true, ◌≡◌, refl, ◌==◌, length, [], ◌∷◌}
use xray_bridge.Text.{utf8, str_eq, starts_with}
use xray_bridge.Text.Split.{split}
use xray_bridge.Xray.Stats.{parse_stat_name}
use xray_bridge.Tests.Source.Asserts.{asserts, is_text, is_none}

abbrev parse_stat_name_four_parts : Bool
parse_stat_name_four_parts =
    let rec = parse_stat_name (utf8 "user>>>alice@example.com>>>traffic>>>uplink") in
    asserts (
      is_text rec.scope (utf8 "user")
      ∷ is_text rec.id (utf8 "alice@example.com")
      ∷ is_text rec.category (utf8 "traffic")
      ∷ is_text rec.metric (utf8 "uplink")
      ∷ (length rec.parts == 4)
      ∷ [])

parse_stat_name_four_parts_lem : parse_stat_name_four_parts ≡ true
unfolding parse_stat_name utf8 split starts_with str_eq
parse_stat_name_four_parts_lem = refl

abbrev parse_stat_name_three_parts : Bool
parse_stat_name_three_parts =
    let rec = parse_stat_name (utf8 "user>>>alice@example.com>>>traffic") in
    asserts (
      is_text rec.scope (utf8 "user")
      ∷ is_text rec.id (utf8 "alice@example.com")
      ∷ is_text rec.category (utf8 "traffic")
      ∷ is_none rec.metric
      ∷ (length rec.parts == 3)
      ∷ [])

parse_stat_name_three_parts_lem : parse_stat_name_three_parts ≡ true
unfolding parse_stat_name utf8 split starts_with str_eq
parse_stat_name_three_parts_lem = refl

abbrev parse_stat_name_two_parts : Bool
parse_stat_name_two_parts =
    let rec = parse_stat_name (utf8 "inbound>>>vless-ws") in
    asserts (
      is_text rec.scope (utf8 "inbound")
      ∷ is_text rec.id (utf8 "vless-ws")
      ∷ is_none rec.category
      ∷ is_none rec.metric
      ∷ (length rec.parts == 2)
      ∷ [])

parse_stat_name_two_parts_lem : parse_stat_name_two_parts ≡ true
unfolding parse_stat_name utf8 split starts_with str_eq
parse_stat_name_two_parts_lem = refl

abbrev parse_stat_name_one_part : Bool
parse_stat_name_one_part =
    let rec = parse_stat_name (utf8 "outbound") in
    asserts (is_text rec.scope (utf8 "outbound") ∷ is_none rec.id ∷ (length rec.parts == 1) ∷ [])

parse_stat_name_one_part_lem : parse_stat_name_one_part ≡ true
unfolding parse_stat_name utf8 split starts_with str_eq
parse_stat_name_one_part_lem = refl

abbrev parse_stat_name_empty : Bool
parse_stat_name_empty =
    let rec = parse_stat_name (utf8 "") in
    asserts (
      is_text rec.scope (utf8 "")
      ∷ is_none rec.id
      ∷ (length rec.parts == 1)
      ∷ str_eq rec.name (utf8 "")
      ∷ [])

parse_stat_name_empty_lem : parse_stat_name_empty ≡ true
unfolding parse_stat_name utf8 split starts_with str_eq
parse_stat_name_empty_lem = refl
