-- ===== src/Alarms/Tracks.antt =====
-- The tables of tracks of src/customconfig.h and `findTrackByUniqueId` of src/customconfig.cpp, which
-- searches them for a target.
pub mod Search
use alarm_sys_linux.Common.{
  ℕ, String, Bool, true, false, Option, none, some, List, [], ◌∷◌, if◌then◌else◌,
}
use alarm_sys_linux.Common.Int.{ℤ, pos, eq_ℤ, leb_ℤ, ltb_ℤ}
use alarm_sys_linux.Common.Dict.{Dict, lookup, int_key}

-- The fields of `SPxPacketTrackExtended` that are read: of `norm.min`, `secondary` and `fusion`.
pub record Track (W : Type 0) : Type 0 where
  pub lat_degs : W
  pub long_degs : W
  pub speed_mps : W
  pub course_degrees : W
  pub range_metres : W
  pub reserved1 : ℤ
  pub unique_id : ℤ
  pub msg_time_secs : ℤ
  pub fusion_track_id : List ℤ
  pub fusion_sensors : ℕ
  pub altitude_metres : W
  pub norm_id : ℤ
  -- `secondary.reserved[0]`.
  pub source_code : ℤ

pub record Tracks (W : Type 0) : Type 0 where
  pub bird_fuse_track : Dict ℤ (Track W)
  pub bird_radar_track : Dict ℤ (Track W)
  pub fuse_track : Dict ℤ (Track W)
  pub radar_track : Dict ℤ (Track W)

-- `UniqueTrackHit`, where it is found.
pub record TrackHit (W : Type 0) : Type 0 where
  pub track : Track W
  pub is_air_track : Bool

-- The largest `int`.
abbrev pub int_max : ℤ
int_max = pos 2147483647

module _ {W : Type 0} where
  -- A search that is made only where nothing was found so far.
  unfoldable pub or_else : Option (TrackHit W) → Option (TrackHit W) → Option (TrackHit W)
  or_else none next = next
  or_else (some hit) next = some hit

  unfoldable pub hit_of : Bool → Option (Track W) → Option (TrackHit W)
  hit_of is_air none = none
  hit_of is_air (some track) = some (record { track = track; is_air_track = is_air })

  unfoldable pub try_map : ℤ → Bool → Dict ℤ (Track W) → Option (TrackHit W)
  try_map unique_id is_air track_map = hit_of is_air (lookup unique_id track_map)

  unfoldable pub scan_by_secondary_unique_id : ℤ → Bool → Dict ℤ (Track W) → Option (TrackHit W)
  scan_by_secondary_unique_id unique_id is_air [] = none
  scan_by_secondary_unique_id unique_id is_air ((_, track) ∷ rest) =
      if eq_ℤ track.unique_id unique_id
      then some (record { track = track; is_air_track = is_air })
      else scan_by_secondary_unique_id unique_id is_air rest

  -- The maps whose keys are `int` are searched for an `int` only.
  unfoldable pub for_int : ℤ → Option (TrackHit W) → Option (TrackHit W)
  for_int unique_id hit = if ltb_ℤ int_max unique_id then none else hit

  unfoldable pub search_tables : Tracks W → ℤ → Option (TrackHit W)
  search_tables cfg id = or_else (try_map id true cfg.bird_fuse_track) (
      or_else (for_int id (try_map id true cfg.bird_radar_track)) (
        or_else (try_map id false cfg.fuse_track) (
          or_else (for_int id (try_map id false cfg.radar_track)) (
            or_else (scan_by_secondary_unique_id id true cfg.bird_fuse_track) (
              or_else (for_int id (scan_by_secondary_unique_id id true cfg.bird_radar_track)) (
                or_else (scan_by_secondary_unique_id id false cfg.fuse_track)
                  (for_int id (scan_by_secondary_unique_id id false cfg.radar_track))))))))

  unfoldable pub find_track_by_unique_id : Tracks W → ℤ → Option (TrackHit W)
  find_track_by_unique_id cfg id = if leb_ℤ id (pos 0) then none else search_tables cfg id

  -- The id under which an alarm of the track is kept.
  unfoldable pub effective_unique_id_from_track_hit : TrackHit W → ℤ → ℤ
  effective_unique_id_from_track_hit hit request_unique_id =
      let uid = hit.track.unique_id in if ltb_ℤ (pos 0) uid then uid else request_unique_id
