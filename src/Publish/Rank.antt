-- ===== src/Publish/Rank.antt =====
-- The levels of `SendAllAlarmEventMsg` (src/customconfig.cpp): the alarms of the last five seconds whose
-- track is there, ordered by their score, and the five highest of them.
use alarm_sys_linux.Common.{
  ℕ, zero, suc, String, Bool, ◌&&◌, Option, none, some, is_some, List, [], ◌∷◌, ◌++◌, if◌then◌else◌,
}
use alarm_sys_linux.Common.Int.{ℤ, pos, ◌-ℤ◌, eq_ℤ, leb_ℤ, ltb_ℤ}
use alarm_sys_linux.Common.Dict.{Dict, lookup, insert, has_key, string_key, str_lt, int_key}
use alarm_sys_linux.Alarms.State.{AlarmData, Alarms, epoch_ms}
use alarm_sys_linux.Alarms.Tracks.{find_track_by_unique_id}
use alarm_sys_linux.Publish.{Publisher, is_air_rule}

abbrev pub Ranked : Type 0
Ranked = String × ℤ

-- The order of the call of `std::sort`: the higher score first, then the smaller id.
unfoldable pub before : Ranked → Ranked → Bool
before (a, score) (b, other) = if eq_ℤ score other then str_lt a b else ltb_ℤ other score

-- `std::sort`, by insertion: the order is total, so that there is one sorted list.
unfoldable pub put : Ranked → List Ranked → List Ranked
put x [] = x ∷ []
put x (y ∷ ys) = let rest = put x ys in if before y x then y ∷ rest else x ∷ y ∷ ys

unfoldable pub sort : List Ranked → List Ranked
sort [] = []
sort (x ∷ xs) = put x (sort xs)

-- The first entries get the levels from `n` down to 1.
unfoldable pub assign : ℕ → List Ranked → Dict String ℕ → Dict String ℕ
assign zero sorted levels = levels
assign (suc n) [] levels = levels
assign (suc n) ((id, _) ∷ rest) levels = assign n rest (insert id (suc n) levels)

unfoldable pub level_map : List Ranked → Dict String ℕ
level_map valid_alarms = assign 5 (sort valid_alarms) []

-- The level of an alarm, 0 where it has none.
abbrev pub or_zero : Option ℕ → ℕ
or_zero none = 0
or_zero (some n) = n

unfoldable pub alarm_level_of : Dict String ℕ → String → ℕ
alarm_level_of levels id = or_zero (lookup id levels)

module _ {W J : Type 0} (p : Publisher W J) where
  unfoldable pub is_fresh : AlarmData W → Bool
  is_fresh ad = leb_ℤ (p.sources.now_ms -ℤ epoch_ms p.sources.clock ad.time) (pos 5000)

  unfoldable pub has_track : AlarmData W → Bool
  has_track ad =
      if is_air_rule p ad.condition_id
      then has_key ad.unique_id p.tracks.bird_fuse_track
      else has_key ad.unique_id p.tracks.fuse_track

  unfoldable pub has_manual_track : AlarmData W → Bool
  has_manual_track ad = is_some (find_track_by_unique_id p.tracks ad.unique_id)

  unfoldable pub valid_of : (AlarmData W → Bool) → Dict String (AlarmData W) → List Ranked
  valid_of found [] = []
  valid_of found ((_, ad) ∷ rest) =
      if found ad && is_fresh ad
      then (ad.alarm_id, ad.threat_score) ∷ valid_of found rest
      else valid_of found rest

  unfoldable pub valid_alarms : Alarms W → List Ranked
  valid_alarms s = valid_of has_track s.alarm_data ++ valid_of has_manual_track s.manual_alarm_data
