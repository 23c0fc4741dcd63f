-- ===== src/Suspicious.antt =====
-- `SuspiciousTargetThread` (src/dialog/alarm/SuspiciousTargetThread.cpp): which targets move fast, or
-- towards a protected area, in two judgements in a row. The child `Areas` is about the areas.
pub mod Checks
pub mod Areas
pub mod Walks
pub mod Rounds
mod Tests
use alarm_sys_linux.Common.{
  ℕ, ◌/◌, ◌%◌, ◌==◌, ◌^◌, String, append, Bool, true, false, not, ◌&&◌, ◌||◌, Option, none, some,
  List, [], ◌∷◌, is_empty, if◌then◌else◌, any,
}
use alarm_sys_linux.Common.Int.{ℤ, pos, ◌-ℤ◌, ◌*ℤ◌, eq_ℤ, leb_ℤ, ltb_ℤ}
use alarm_sys_linux.Common.Dict.{Dict, lookup, insert, erase, has_key, int_key, string_key}
use alarm_sys_linux.Common.Double.{Double}
use alarm_sys_linux.Common.Text.{Text}
use alarm_sys_linux.Geometry.{calculate_bearing, course_angle_diff}
use alarm_sys_linux.Alarms.Tracks.{Track}

-- The last answer of a speed test for each track.
abbrev pub CheckMap : Type 0
CheckMap = Dict ℤ Bool

-- `SuspiciousTargetConfig`, by the fields that are read.
pub record SuspiciousTargetConfig (W : Type 0) : Type 0 where
  pub speed_low_threshold_mps : W
  pub speed_high_threshold_mps : W
  pub protect_angle_max_deg : W
  pub speed_check_clear_interval_min : ℤ

-- The fields of `AlarmLogicConfig` that filter birds.
pub record BirdFilter : Type 0 where
  pub bird_filter_mode : ℤ
  pub bird_self_report_substrings : String
  pub bird_skip_track_ids : List ℤ

abbrev pub Point : Type 0 → Type 0
Point W = W × W

-- Whether there is a last answer, and it was that the test is passed.
abbrev pub was_ok : Option Bool → Bool
was_ok none = false
was_ok (some last) = last

-- The answer is the map after the call, and whether the test was passed twice in a row.
unfoldable pub apply_speed_double_check : ℤ → Bool → CheckMap → CheckMap × Bool
apply_speed_double_check track_id current_ok last_check_map =
    let pass = was_ok (lookup track_id last_check_map) && current_ok in
    (insert track_id current_ok last_check_map, pass)

-- Bit `i` of the sensors.
abbrev bit : ℕ → ℕ → Bool
bit sensors i = (sensors / 2 ^ i) % 2 == 1

unfoldable pub sensor_text : ℕ → String
sensor_text sensors =
    append (if bit sensors 0 then "14S雷达 " else "")
      (append (if bit sensors 1 then "四创雷达 " else "") (if bit sensors 2 then "自报位 " else ""))

-- The first id that is to be skipped, or 0.
find_in : List ℤ → List ℤ → ℤ
find_in [] skip_ids = pos 0
find_in (tid ∷ rest) skip_ids =
    if ltb_ℤ (pos 0) tid && any (λ s. eq_ℤ s tid) skip_ids then tid else find_in rest skip_ids

module _ {W : Type 0} where
  unfoldable pub is_air_drone_track : Track W → Bool
  is_air_drone_track track = eq_ℤ track.reserved1 (pos 3)

  unfoldable pub find_bird_skip_fusion_track_id : Track W → List ℤ → ℤ
  unfolding find_in
  find_bird_skip_fusion_track_id tr skip_ids = find_in tr.fusion_track_id skip_ids

  -- `split_commas` is `split(',', SkipEmptyParts)`.
  unfoldable pub is_bird_self_report_sensor_filtered :
      Text → (String → List String) → Track W → BirdFilter → Bool
  is_bird_self_report_sensor_filtered text split_commas track al =
      let res = sensor_text track.fusion_sensors in
      if not (eq_ℤ al.bird_filter_mode (pos 0))
      then false
      else any (λ sub. not (is_empty (text.trimmed sub)) && text.contains res (text.trimmed sub))
          (split_commas al.bird_self_report_substrings)

  unfoldable pub should_skip_bird_air_track_for_suspicious :
      Text → (String → List String) → Track W → BirdFilter → Bool
  should_skip_bird_air_track_for_suspicious text split_commas track al =
      ltb_ℤ (pos 0) (find_bird_skip_fusion_track_id track al.bird_skip_track_ids)
      || is_bird_self_report_sensor_filtered text split_commas track al

-- The two maps of a kind of tracks, and the ids found so far.
pub record Judging : Type 0 where
  pub low_check : CheckMap
  pub high_check : CheckMap
  pub suspicious_ids : Dict String (Unit {0})

pub record SuspicionState : Type 0 where
  pub low_sea : CheckMap
  pub high_sea : CheckMap
  pub low_air : CheckMap
  pub high_air : CheckMap
  pub last_clear_ms : ℤ

module _ {W : Type 0} ⦃d : Double W⦄ where
  unfoldable pub min_angle : Track W → W → List (Point W) → W
  min_angle track so_far [] = so_far
  min_angle track so_far ((x, y) ∷ rest) =
      let bearing = calculate_bearing track.lat_degs track.long_degs x y in
      let diff = course_angle_diff track.course_degrees bearing in
      min_angle track (if d.lt diff so_far then diff else so_far) rest

  unfoldable pub speed_high_now : SuspiciousTargetConfig W → Track W → Bool
  speed_high_now cfg track = d.lt cfg.speed_high_threshold_mps track.speed_mps

  unfoldable pub speed_low_now : SuspiciousTargetConfig W → List (Point W) → Track W → Bool
  speed_low_now cfg protect_centers track =
      d.lt cfg.speed_low_threshold_mps track.speed_mps
      && d.le (min_angle track (d.of_ℤ (pos 360)) protect_centers) cfg.protect_angle_max_deg

  -- The test of the low speed: without a protected area the track is forgotten.
  unfoldable pub low_step :
      SuspiciousTargetConfig W → List (Point W) → ℤ → Track W → CheckMap → CheckMap × Bool
  low_step cfg [] track_id track low_check = (erase track_id low_check, false)
  low_step cfg (c ∷ centers) track_id track low_check =
      apply_speed_double_check track_id (speed_low_now cfg (c ∷ centers) track) low_check

  unfoldable pub evaluate_track :
      (ℤ → String) → SuspiciousTargetConfig W → List (Point W) → ℤ → Track W → Judging → Judging
  evaluate_track number cfg protect_centers track_id track j =
      let (high_check, high_confirmed) =
        apply_speed_double_check track_id (speed_high_now cfg track) j.high_check in
      let (low_check, low_confirmed) = low_step cfg protect_centers track_id track j.low_check in
      if leb_ℤ track_id (pos 0) then j else record {
        low_check = low_check;
        high_check = high_check;
        suspicious_ids =
            if high_confirmed || low_confirmed
            then insert (number track_id) tt j.suspicious_ids
            else j.suspicious_ids;
      }

  module _ (number : ℤ → String) (cfg : SuspiciousTargetConfig W) (centers : List (Point W)) where
    unfoldable pub judge_sea : Dict ℤ (Track W) → Judging → Judging
    judge_sea [] j = j
    judge_sea ((k, track) ∷ rest) j = judge_sea rest (evaluate_track number cfg centers k track j)

    module _ (text : Text) (split_commas : String → List String) (al : BirdFilter) where
      unfoldable pub air_step : ℤ → Track W → Judging → Judging
      air_step k track j =
          if not (is_air_drone_track track)
          then j
          else if should_skip_bird_air_track_for_suspicious text split_commas track al
          then record j { low_check = erase k j.low_check; high_check = erase k j.high_check }
          else evaluate_track number cfg centers k track j

      unfoldable pub judge_air : Dict ℤ (Track W) → Judging → Judging
      judge_air [] j = j
      judge_air ((k, track) ∷ rest) j = judge_air rest (air_step k track j)

      -- The answer is the state, and the ids at sea and in the air.
      unfoldable pub process_suspicious_targets :
          Dict ℤ (Track W)
          → Dict ℤ (Track W)
          → SuspicionState
          → SuspicionState × Dict String (Unit {0}) × Dict String (Unit {0})
      process_suspicious_targets fuse_track bird_fuse_track s =
          let sea =
            judge_sea fuse_track
              (record { low_check = s.low_sea; high_check = s.high_sea; suspicious_ids = [] }) in
          let air =
            judge_air bird_fuse_track
              (record { low_check = s.low_air; high_check = s.high_air; suspicious_ids = [] }) in
          (
            record s {
              low_sea = sea.low_check;
              high_sea = sea.high_check;
              low_air = air.low_check;
              high_air = air.high_check;
            },
            sea.suspicious_ids,
            air.suspicious_ids,
          )

-- The start of a round of `run`: the maps are cleared from time to time.
unfoldable pub clear_checks :
    {W : Type 0} → SuspiciousTargetConfig W → ℤ → SuspicionState → SuspicionState
clear_checks cfg now_ms s =
    let clear_interval_ms = cfg.speed_check_clear_interval_min *ℤ pos 60000 in
    if eq_ℤ s.last_clear_ms (pos 0)
    then record s { last_clear_ms = now_ms }
    else if ltb_ℤ (pos 0) clear_interval_ms && leb_ℤ clear_interval_ms (now_ms -ℤ s.last_clear_ms)
    then record { low_sea = []; high_sea = []; low_air = []; high_air = []; last_clear_ms = now_ms }
    else s
