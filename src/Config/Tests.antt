-- ===== src/Config/Tests.antt =====
-- The settings and the caches on concrete values.
use alarm_sys_linux.Common.{
  ◌≡◌, refl, String, Bool, true, false, not, Option, none, some, List, [], ◌∷◌, any, map, arith,
}
use alarm_sys_linux.Common.Int.{ℤ, pos}
use alarm_sys_linux.Common.Dict.{Dict, int_key}
use alarm_sys_linux.Common.Integers.{integers}
use alarm_sys_linux.Alarms.Tests.{boat_track}
use alarm_sys_linux.Alarms.Tracks.{Track}
use alarm_sys_linux.Threat.{default_params}
use alarm_sys_linux.Rules.Context.{AreaParams}
use alarm_sys_linux.Config.{
  Csv, Tables, contains, parse_csv_int_set, bird_skip_ids_to_string, get_threat_assessment_params,
}
use alarm_sys_linux.Config.Ids.{IsCsv, parse_csv-bird_skip_ids}
use alarm_sys_linux.Config.Caches.{get_params_twice}

-- Texts of one number, and of several with commas between them.
data Line : Type 0 where
  one : ℤ → Line
  several : List ℤ → Line

abbrev to_int : Line → Option ℤ
to_int (one z) = some z
to_int (several zs) = none

abbrev is_one : Line → Bool
is_one (one z) = true
is_one (several zs) = false

abbrev split : Line → List Line
split (one z) = one z ∷ []
split (several zs) = map one zs

abbrev numbers : List Line → List ℤ
numbers [] = []
numbers (one z ∷ rest) = z ∷ numbers rest
numbers (several zs ∷ rest) = numbers rest

abbrev lines : Csv Line
lines = record {
  split_commas = split;
  join_commas = λ parts. several (numbers parts);
  sort = λ parts. parts;
  to_int = to_int;
  number = one;
  is_blank = λ s. false;
  is_plain = is_one;
}

split_numbers :
    (parts : List Line) → any (λ p. not (is_one p)) parts ≡ false → map one (numbers parts) ≡ parts
split_numbers [] h = refl
split_numbers (one z ∷ rest) h = ground (arith, split_numbers rest h)
split_numbers (several zs ∷ rest) h = cc

lines-IsCsv : IsCsv lines
lines-IsCsv = record {
  reads_back = λ z. refl;
  number_plain = λ z. refl;
  split_join = split_numbers;
  any_sort = λ p xs. refl;
}

abbrev ids : List ℤ
ids = pos 4001 ∷ pos 4002 ∷ []

parse_csv-bird_skip_ids_example :
    contains (parse_csv_int_set lines (bird_skip_ids_to_string lines ids)) (pos 4002)
    ≡ contains ids (pos 4002)
parse_csv-bird_skip_ids_example = parse_csv-bird_skip_ids lines ids (pos 4002) lines-IsCsv

abbrev tables : String → Tables String
tables s = record {
  alarm_rule = s;
  alarm_area = s;
  scheme_protect_areas = s;
  threat_assessment_params = s;
  identification_rules_sub = s;
  identification_rule_ids = s;
  verification_rule_ids = s;
  handle_rules = s;
}

abbrev weights : ℤ → ℤ → AreaParams ℤ
weights group_id area_id = record {
  group_id = group_id;
  area_id = area_id;
  params = default_params;
}

get_params_twice_example :
    let (kept, answer) = get_threat_assessment_params weights (pos 1) (pos 2) [] in
    get_threat_assessment_params (λ g a. weights (pos 0) (pos 0)) (pos 1) (pos 2) kept
    ≡ (kept, answer)
get_params_twice_example =
    get_params_twice weights (λ g a. weights (pos 0) (pos 0)) (pos 1) (pos 2) [] refl

abbrev radar : Dict ℤ (Track ℤ)
radar = (pos 3, boat_track) ∷ []
