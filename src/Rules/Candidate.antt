-- ===== src/Rules/Candidate.antt =====
-- The track of a candidate (`updataAlarmTrackToDB`, src/dialog/alarm/TrackAlarmThread.cpp): the search
-- of the tables by the kind of track, and the filter of birds.
use alarm_sys_linux.Common.{
  ◌%◌, ◌^◌, ◌-◌, Bool, ◌&&◌, ◌||◌, Option, none, some, first_some, [], ◌∷◌, if◌then◌else◌,
}
use alarm_sys_linux.Common.Int.{ℤ, pos, negsuc, eq_ℤ, leb_ℤ, ltb_ℤ}
use alarm_sys_linux.Common.Dict.{Dict, lookup, int_key}
use alarm_sys_linux.Alarms.Tracks.{Track}
use alarm_sys_linux.Suspicious.{find_bird_skip_fusion_track_id, is_bird_self_report_sensor_filtered}
use alarm_sys_linux.Rules.Context.{Context}

-- `static_cast<uint32_t>`.
abbrev pub to_u32 : ℤ → ℤ
to_u32 (ℤ.pos n) = pos (n % 2 ^ 32)
to_u32 (ℤ.negsuc n) = pos (2 ^ 32 - 1 - n % 2 ^ 32)

-- The conversion of a `qint64` to the `int` of a key: the low 32 bits, as a signed number.
abbrev pub signed_32 : ℤ → ℤ
signed_32 (ℤ.pos n) = if leb_ℤ (pos n) (pos 2147483647) then pos n else negsuc (2 ^ 32 - 1 - n)
signed_32 (ℤ.negsuc n) = negsuc n

abbrev pub to_i32 : ℤ → ℤ
to_i32 z = signed_32 (to_u32 z)

module _ {W : Type 0} where
  -- The first track whose own ids, as 32-bit words, are the word.
  unfoldable pub scan_ids : ℤ → Dict ℤ (Track W) → Option (Track W)
  scan_ids word [] = none
  scan_ids word ((_, track) ∷ rest) =
      if eq_ℤ track.unique_id word || eq_ℤ track.norm_id word
      then some track
      else scan_ids word rest

  -- `key` is the candidate's id as a key of the table.
  unfoldable pub find_in_table : ℤ → ℤ → Dict ℤ (Track W) → Option (Track W)
  find_in_table key id table = first_some (lookup key table) (scan_ids (to_u32 id) table)

module _ {W R : Type 0} (ctx : Context W R) where
  unfoldable pub is_skipped_bird : ℤ → Track W → Bool
  is_skipped_bird radar_source_id track =
      eq_ℤ radar_source_id ctx.cfg.bird_radar_source_id
      && (ltb_ℤ (pos 0) (find_bird_skip_fusion_track_id track ctx.cfg.birds.bird_skip_track_ids)
          || is_bird_self_report_sensor_filtered ctx.text ctx.split_commas track ctx.cfg.birds)

  unfoldable pub bird_candidate : ℤ → Option (Track W) → Option (Track W)
  bird_candidate radar_source_id none = none
  bird_candidate radar_source_id (some track) =
      if is_skipped_bird radar_source_id track then none else some track

  -- The track, or none where the loop goes on to the next candidate. No table is searched for a type
  -- that is none of 0, 1 and 3.
  unfoldable pub find_candidate : ℤ → ℤ → ℤ → Option (Track W)
  unfolding bird_candidate
  find_candidate type radar_source_id id =
      if ltb_ℤ (pos 3) type
      then none
      else if eq_ℤ type (pos 0)
      then lookup id ctx.fuse_track
      else if eq_ℤ type (pos 1)
      then find_in_table (to_i32 id) id ctx.radar_track
      else if eq_ℤ type (pos 3)
      then bird_candidate radar_source_id (find_in_table id id ctx.bird_radar_track)
      else some ctx.blank_track
