-- ===== src/Config.antt =====
-- What `CustomConfig` reads and keeps (src/customconfig.cpp): sets of ids in the settings, the tables that
-- are read again from the database on request, the weights of areas, and the radar tracks.
pub mod Ids
pub mod Caches
mod Tests
use alarm_sys_linux.Common.{
  String, Bool, false, not, ◌&&◌, ◌||◌, Option, none, some, is_some, first_some, List, [], ◌∷◌,
  ◌++◌, any, is_nil, map, is_empty, str_eq, if◌then◌else◌,
}
use alarm_sys_linux.Common.Int.{ℤ, pos, eq_ℤ, leb_ℤ}
use alarm_sys_linux.Common.Dict.{Dict, lookup, int_key}
use alarm_sys_linux.Common.Text.{Text}
use alarm_sys_linux.Alarms.Tracks.{Track}
use alarm_sys_linux.Rules.Context.{AreaParams}

-- What the code asks of Qt about lists of numbers in texts: `split(',', SkipEmptyParts)`,
-- `QStringList::join` and `sort`, `trimmed().toInt(&ok)`, `QString::number` and `trimmed().isEmpty()`.
pub record Csv (S : Type 0) : Type 0 where
  pub split_commas : S → List S
  pub join_commas : List S → S
  pub sort : List S → List S
  pub to_int : S → Option ℤ
  pub number : ℤ → S
  pub is_blank : S → Bool
  -- A text that is not empty and has no comma.
  pub is_plain : S → Bool

-- A set of numbers (`QSet<int>`), in some order.
abbrev pub contains : List ℤ → ℤ → Bool
contains ids v = any (λ id. eq_ℤ id v) ids

module _ {S : Type 0} (csv : Csv S) where
  unfoldable pub add_number : Option ℤ → List ℤ → List ℤ
  add_number none out = out
  add_number (some v) out = if contains out v then out else v ∷ out

  -- The loop over the parts.
  unfoldable pub add_parts : List S → List ℤ → List ℤ
  unfolding add_number
  add_parts [] out = out
  add_parts (p ∷ rest) out = add_parts rest (add_number (csv.to_int p) out)

  unfoldable pub parse_csv_int_set : S → List ℤ
  parse_csv_int_set text = add_parts (csv.split_commas text) []

  -- The value of a setting: a list, where it can be converted to one, and a text.
  unfoldable pub parse_int_set_from_settings : Option (List S) → S → List ℤ
  parse_int_set_from_settings none text = if csv.is_blank text then [] else parse_csv_int_set text
  parse_int_set_from_settings (some []) text =
      if csv.is_blank text then [] else parse_csv_int_set text
  parse_int_set_from_settings (some (part ∷ parts)) text = add_parts (part ∷ parts) []

  unfoldable pub bird_skip_ids_to_string : List ℤ → S
  bird_skip_ids_to_string ids = csv.join_commas (csv.sort (map csv.number ids))

-- The tables that come from the database. `X` is what a query gives.
pub record Tables (X : Type 0) : Type 0 where
  pub alarm_rule : X
  pub alarm_area : X
  pub scheme_protect_areas : X
  pub threat_assessment_params : X
  pub identification_rules_sub : X
  pub identification_rule_ids : X
  pub verification_rule_ids : X
  pub handle_rules : X

abbrev pub asks : String → String → Bool
asks s scope = str_eq s "all" || str_eq s scope

module _ {X : Type 0} (qt : Text) where
  -- `db` are the answers of the database; it may not be reachable.
  unfoldable pub reload_alarm_config_from_db : Bool → Bool → String → Tables X → Tables X → Tables X
  reload_alarm_config_from_db db_init_success init_database scope db m =
      let s = if is_empty (qt.trimmed scope) then "all" else qt.trimmed scope in
      let rules = asks s "alarm_rules" in
      let identification = asks s "identification" in
      if not db_init_success && not init_database then m else record {
        alarm_rule = if rules then db.alarm_rule else m.alarm_rule;
        alarm_area = if rules then db.alarm_area else m.alarm_area;
        scheme_protect_areas = if rules then db.scheme_protect_areas else m.scheme_protect_areas;
        threat_assessment_params =
            if asks s "threat_params"
            then db.threat_assessment_params
            else m.threat_assessment_params;
        identification_rules_sub =
            if identification then db.identification_rules_sub else m.identification_rules_sub;
        identification_rule_ids =
            if identification then db.identification_rule_ids else m.identification_rule_ids;
        verification_rule_ids =
            if asks s "verification" then db.verification_rule_ids else m.verification_rule_ids;
        handle_rules = if asks s "handle_rules" then db.handle_rules else m.handle_rules;
      }

module _ {W : Type 0} where
  abbrev pub is_of : ℤ → ℤ → AreaParams W → Bool
  is_of group_id area_id p = eq_ℤ p.group_id group_id && eq_ℤ p.area_id area_id

  unfoldable pub find_of : ℤ → ℤ → List (AreaParams W) → Option (AreaParams W)
  find_of group_id area_id [] = none
  find_of group_id area_id (p ∷ rest) =
      if is_of group_id area_id p then some p else find_of group_id area_id rest

  -- What is asked for is kept if it is of the area.
  unfoldable pub keep_params :
      ℤ
      → ℤ
      → List (AreaParams W)
      → AreaParams W
      → Option (AreaParams W)
      → List (AreaParams W) × AreaParams W
  keep_params group_id area_id cached asked (some p) = (cached, p)
  keep_params group_id area_id cached asked none =
      (if is_of group_id area_id asked then cached ++ asked ∷ [] else cached, asked)

  -- The weights in memory, or those of the database.
  unfoldable pub get_threat_assessment_params :
      (ℤ → ℤ → AreaParams W) → ℤ → ℤ → List (AreaParams W) → List (AreaParams W) × AreaParams W
  unfolding find_of keep_params
  get_threat_assessment_params db group_id area_id cached =
      keep_params group_id area_id cached (db group_id area_id) (find_of group_id area_id cached)

  -- 0 asks for any radar.
  abbrev pub match_source : ℤ → Track W → Bool
  match_source source_code track = eq_ℤ source_code (pos 0) || eq_ℤ track.source_code source_code

  unfoldable pub scan_radar : ℤ → ℤ → Dict ℤ (Track W) → Option (Track W)
  scan_radar id source_code [] = none
  scan_radar id source_code ((_, track) ∷ rest) =
      if match_source source_code track && (eq_ℤ track.unique_id id || eq_ℤ track.norm_id id)
      then some track
      else scan_radar id source_code rest

  unfoldable pub at_key : ℤ → Option (Track W) → Option (Track W)
  at_key source_code none = none
  at_key source_code (some track) = if match_source source_code track then some track else none

  unfoldable pub try_get_radar_track : ℤ → ℤ → Dict ℤ (Track W) → Option (Track W)
  unfolding at_key scan_radar
  try_get_radar_track id source_code radar_track =
      if leb_ℤ id (pos 0)
      then none
      else first_some (at_key source_code (lookup id radar_track))
          (scan_radar id source_code radar_track)

  unfoldable pub has_radar_track : ℤ → ℤ → Dict ℤ (Track W) → Bool
  has_radar_track id source_code radar_track =
      is_some (try_get_radar_track id source_code radar_track)
