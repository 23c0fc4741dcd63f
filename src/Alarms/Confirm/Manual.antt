-- ===== src/Alarms/Confirm/Manual.antt =====
-- The answer of a confirmation, and the manual alarm that it makes (src/customconfig.cpp).
use alarm_sys_linux.Common.{
  ◌≡◌, refl, String, append, ◌&&◌, ◌||◌, Option, none, some, arith, str_eq, if◌then◌else◌, is_some,
}
use alarm_sys_linux.Common.Int.{ℤ, pos, ◌+ℤ◌, eq_ℤ, ltb_ℤ, ◌≤ℤ◌}
use alarm_sys_linux.Common.Dict.{lookup, string_key, int_key}
use alarm_sys_linux.Common.Dict.Laws.{lookup-insert}
use alarm_sys_linux.Common.Double.{Double}
use alarm_sys_linux.Alarms.State.{AlarmData, AlarmLogicConfig, Alarms, TimeText}
use alarm_sys_linux.Alarms.Filter.{remove_alarm_filter_for_unique_id}
use alarm_sys_linux.Alarms.Tracks.{
  Tracks, TrackHit, find_track_by_unique_id, effective_unique_id_from_track_hit,
}
use alarm_sys_linux.Alarms.Confirm.{
  Texts, TrackHint, confirm_threat_floor, mark_confirmed, hit_or_hint,
  build_manual_alarm_data_from_track, make_manual_alarm, confirm_alarm_by_unique_id,
}
use alarm_sys_linux.Alarms.Confirm.Effect.{has_alarm_of, had-confirm_rules}

module _ {W : Type 0} ⦃d : Double W⦄ (texts : Texts W) (clock : TimeText)
    (al : AlarmLogicConfig) where
  is_some-hit_or_hint :
      (now_sec id : ℤ) (hit : Option (TrackHit W)) (hint : Option (TrackHint W))
      → is_some (hit_or_hint now_sec id hit hint) ≡ (is_some hit || is_some hint)
  unfolding hit_or_hint
  is_some-hit_or_hint now_sec id none none = refl
  is_some-hit_or_hint now_sec id none (some hint) = refl
  is_some-hit_or_hint now_sec id (some hit) hint = refl

  -- A confirmation succeeds exactly when the target's id is positive and the target has a rule alarm
  -- or a track in the tables, or the client gives a valid hint.
  pub confirm-ok :
      (now_ms now_sec : ℤ) (tracks : Tracks W) (id : ℤ) (hint : Option (TrackHint W)) (s : Alarms W)
      → (confirm_alarm_by_unique_id texts clock al now_ms now_sec tracks id hint s).1 ≡ (
          ltb_ℤ (pos 0) id
          && (has_alarm_of id s.alarm_data
              || is_some (find_track_by_unique_id tracks id)
              || is_some hint))
  unfolding confirm_alarm_by_unique_id
  confirm-ok now_ms now_sec tracks id hint s = ground (
    arith,
    had-confirm_rules clock al now_ms id s,
    is_some-hit_or_hint now_sec id (find_track_by_unique_id tracks id) hint,
  )

  -- The manual alarms of the table, where the call changes nothing of them before the manual alarm.
  marked_manual :
      (id other : ℤ) (text : String) (s : Alarms W)
      → (mark_confirmed other text (
          if eq_ℤ other id then s else remove_alarm_filter_for_unique_id other s)).manual_alarm_data
        ≡ s.manual_alarm_data
  unfolding mark_confirmed remove_alarm_filter_for_unique_id
  marked_manual id other text s = ground arith

  module _ (now_ms id : ℤ) (hit : TrackHit W) (s : Alarms W) where
    abbrev pub storage_id : ℤ
    storage_id = effective_unique_id_from_track_hit hit id

    abbrev pub manual_id : String
    manual_id = append "manual-" (texts.number storage_id)

    abbrev pub built : AlarmData W
    built =
        build_manual_alarm_data_from_track texts.number clock now_ms hit.track storage_id
          al.default_threat_score (lookup manual_id s.manual_alarm_data)

    abbrev pub content : String
    content = texts.manual_content storage_id hit.is_air_track built.targetspeed built.targetdir

    -- The manual alarm of a track stands under the id that is made of the track's own id, or of the
    -- requested one if the track has none; every other manual alarm stays.
    pub lookup-make_manual_alarm :
        (j : String)
        → lookup j (make_manual_alarm texts clock al now_ms id hit s).manual_alarm_data ≡ (
            if str_eq manual_id j
            then some (record built { alarm_content = content })
            else lookup j s.manual_alarm_data)
    unfolding make_manual_alarm
    lookup-make_manual_alarm j = ground (
      arith,
      marked_manual id storage_id (clock.to_text now_ms) s,
      lookup-insert j manual_id (record built { alarm_content = content }) s.manual_alarm_data,
    )

  abbrev pub earlier_count : Option (AlarmData W) → ℤ
  earlier_count none = pos 0
  earlier_count (some old) = old.alarm_count

  abbrev pub earlier_score : Option (AlarmData W) → ℤ
  earlier_score none = pos 0
  earlier_score (some old) = old.threat_score

  -- A manual alarm that replaces an earlier one, or none, counts one more, and its threat score is
  -- neither below the earlier one nor below the floor of the configuration.
  pub manual-grows :
      (now_ms : ℤ) (id : ℤ) (hit : TrackHit W) (existing : Option (AlarmData W))
      → let made =
          build_manual_alarm_data_from_track texts.number clock now_ms hit.track id
            al.default_threat_score existing in
        (made.unique_id ≡ id)
        × (made.alarm_count ≡ earlier_count existing +ℤ pos 1)
        × (earlier_score existing ≤ℤ made.threat_score)
        × (confirm_threat_floor al ≤ℤ made.threat_score)
  unfolding build_manual_alarm_data_from_track confirm_threat_floor ◌+ℤ◌
  manual-grows now_ms id hit none = ground arith
  manual-grows now_ms id hit (some old) = ground arith
