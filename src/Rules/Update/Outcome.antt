-- ===== src/Rules/Update/Outcome.antt =====
-- That an alarm goes on (`updataAlarmTrackToDB`, src/dialog/alarm/TrackAlarmThread.cpp): a target that
-- has a fresh alarm of the rule is saved again, whatever the conditions of the rule say of it.
use alarm_sys_linux.Common.{
  ◌≡◌, refl, ◌≢◌, String, Bool, true, false, Option, none, some, [], ◌∷◌, arith, str_eq_iff,
  if◌then◌else◌,
}
use alarm_sys_linux.Common.Int.{ℤ, pos, ◌-ℤ◌, eq_ℤ, eq_ℤ_iff, ltb_ℤ, leb_ℤ}
use alarm_sys_linux.Common.Dict.{Dict, lookup, string_key}
use alarm_sys_linux.Common.Double.{Double}
use alarm_sys_linux.Alarms.State.{
  AlarmData, AlarmLogicConfig, Alarms, TimeText, epoch_ms, epoch_ms-to_text, ReadsBack,
}
use alarm_sys_linux.Alarms.Filter.{is_unique_id_alarm_filtered}
use alarm_sys_linux.Alarms.Save.{
  Candidate, BasePoint, matches_dedup_key, find_duplicate, new_alarm, refreshed_alarm, save_to_db,
}
use alarm_sys_linux.Alarms.Save.Dedup.{
  IsTable, find_duplicate_sound, saved_of, saved_alarm, lookup-save_to_db,
}
use alarm_sys_linux.Alarms.Save.Repeat.{saved_time}
use alarm_sys_linux.Alarms.Tracks.{Track}
use alarm_sys_linux.Rules.Context.{AlarmRule, Context, RuleState}
use alarm_sys_linux.Rules.Candidate.{find_candidate}
use alarm_sys_linux.Rules.Zones.{in_no_alarm_group}
use alarm_sys_linux.Rules.Guards.{Verdict, speed_step, target_info, judge}
use alarm_sys_linux.Rules.Update.{
  Listing, blacklisted, ignored, by_conditions, black_white, already_has_alarm, candidate_of, save,
  blacklist_content, rule_content, save_if, by_rule, by_listing, is_in_quiet_zone, update_track,
  update_candidate,
}

module _ {W : Type 0} where
  already_complete :
      (clock : TimeText) (now : ℤ) (condition_id : String) (target_id window_ms : ℤ)
      (m : Dict String (AlarmData W)) (j : String) (ad : AlarmData W)
      → lookup j m ≡ some ad
      → ad.condition_id ≡ condition_id
      → ad.unique_id ≡ target_id
      → ltb_ℤ (now -ℤ epoch_ms clock ad.time) window_ms ≡ true
      → already_has_alarm clock now condition_id target_id window_ms m ≡ true
  unfolding already_has_alarm lookup
  already_complete clock now condition_id target_id window_ms [] j ad e c t f = cc
  already_complete clock now condition_id target_id window_ms ((k, x) ∷ rest) j ad e c t f =
      ground (
        arith,
        e,
        c,
        t,
        f,
        already_complete clock now condition_id target_id window_ms rest j ad,
        str_eq_iff ad.condition_id condition_id,
        eq_ℤ_iff ad.unique_id target_id,
      )

module _ {W : Type 0} ⦃d : Double W⦄ (clock : TimeText) (al : AlarmLogicConfig) (b : BasePoint W)
    (now : ℤ) (uuid : String) (blank : AlarmData W) (c : Candidate W) where
  saved_key :
      (m : Dict String (AlarmData W)) (found : Option (AlarmData W))
      → IsTable m
      → eq_ℤ al.dedup_match_condition_and_track (pos 0) ≡ false
      → find_duplicate clock al now c m ≡ found
      → ((saved_of clock al b uuid blank c now found).condition_id ≡ c.condition_id)
        × ((saved_of clock al b uuid blank c now found).unique_id ≡ c.target_id)
  unfolding matches_dedup_key new_alarm refreshed_alarm
  saved_key m none t k e = (refl, refl)
  saved_key m (some old) t k e = ground (
    arith,
    k,
    find_duplicate_sound clock al now c m old t.keyed e,
    str_eq_iff old.condition_id c.condition_id,
  )

  -- After an accepted save the target has an alarm of the candidate's rule, of this moment.
  already-save_to_db :
      (later window_ms : ℤ) (s : Alarms W)
      → ReadsBack clock
      → IsTable s.alarm_data
      → eq_ℤ al.dedup_match_condition_and_track (pos 0) ≡ false
      → leb_ℤ c.target_id (pos 0) ≡ false
      → (is_unique_id_alarm_filtered now c.target_id s).1 ≡ false
      → ltb_ℤ (later -ℤ now) window_ms ≡ true
      → already_has_alarm clock later c.condition_id c.target_id window_ms
          (save_to_db clock al b now uuid blank c s).alarm_data
        ≡ true
  already-save_to_db later window_ms s r t k p f w =
      let saved : AlarmData W = saved_alarm clock al b uuid blank c now s.alarm_data in
      let found = find_duplicate clock al now c s.alarm_data in
      let after : Alarms W = save_to_db clock al b now uuid blank c s in
      let key = saved_key s.alarm_data found t k refl in
      already_complete clock later c.condition_id c.target_id window_ms after.alarm_data
        saved.alarm_id saved
        (ground (
          arith,
          p,
          f,
          lookup-save_to_db clock al b uuid blank c now s saved.alarm_id,
          str_eq_iff saved.alarm_id saved.alarm_id,
        ))
        key.0 key.1
        (rw (saved_time clock al b now uuid blank c found, epoch_ms-to_text clock r now) w)

module _ {W R : Type 0} ⦃d : Double W⦄ (ctx : Context W R) (info : AlarmRule)
    (type radar_source_id : ℤ) where
  -- Whether the target has an alarm of the rule, at a time.
  abbrev pub already_at : ℤ → ℤ → Alarms W → Bool
  already_at now target_id a =
      already_has_alarm ctx.clock now info.condition_id target_id
        ctx.cfg.al.track_already_has_alarm_window_ms a.alarm_data

  IsSavedAlways : ℤ → ℤ → Alarms W → Type 0
  IsSavedAlways later id a =
      (track : Track W) (score : ℤ) (content : String)
      → already_at later id (save ctx info type radar_source_id id track score content a) ≡ true

  saved-by_listing :
      (later id : ℤ) (track : Track W) (s : RuleState W) (listing : Listing)
      → IsSavedAlways later id s.alarms
      → listing ≢ ignored
      → already_at ctx.now id s.alarms ≡ true
      → already_at later id (by_listing ctx info type radar_source_id id track s listing).alarms
        ≡ true
  unfolding by_listing by_rule save_if IsSavedAlways
  saved-by_listing later id track s blacklisted k n h =
      k track ctx.cfg.al.default_threat_score
        (blacklist_content ctx info type radar_source_id id track)
  saved-by_listing later id track s ignored k n h = absurd (n refl)
  saved-by_listing later id track s by_conditions k n h =
      let speed_ok = (speed_step ctx info type id track s.speed_last_check).1 in
      let v : Verdict W = judge ctx info type id track speed_ok in
      let content = if v.pass then rule_content ctx info type radar_source_id id track v else "" in
      ground (arith, h, k track v.threat_score content)

  -- A target that has a fresh alarm of the rule has one after the rule was applied to it, at every
  -- later time that is within the window of this moment, whether or not it meets the conditions; if
  -- its track is found outside the groups without alarms, it is positive, not silenced, and not
  -- ignored for the whitelist, alarms are repeated by rule and target, every alarm stands under its
  -- own id, and a time that was written as a text is read back.
  pub already-update_candidate :
      (later id : ℤ) (track : Track W) (s : RuleState W)
      → ReadsBack ctx.clock
      → IsTable s.alarms.alarm_data
      → eq_ℤ ctx.cfg.al.dedup_match_condition_and_track (pos 0) ≡ false
      → leb_ℤ id (pos 0) ≡ false
      → (is_unique_id_alarm_filtered ctx.now id s.alarms).1 ≡ false
      → find_candidate ctx type radar_source_id id ≡ some track
      → in_no_alarm_group ctx (track.lat_degs, track.long_degs) ≡ false
      → black_white info (target_info ctx info id) ≢ ignored
      → already_at ctx.now id s.alarms ≡ true
      → ltb_ℤ (later -ℤ ctx.now) ctx.cfg.al.track_already_has_alarm_window_ms ≡ true
      → already_at later id (update_candidate ctx info type radar_source_id id s).alarms ≡ true
  unfolding update_candidate update_track is_in_quiet_zone IsSavedAlways save candidate_of
  already-update_candidate later id track s r t k p f found outside n h w =
      let listing = black_white info (target_info ctx info id) in
      let always : IsSavedAlways later id s.alarms = λ tr score content.
        already-save_to_db ctx.clock ctx.cfg.al ctx.base ctx.now (ctx.uuid id) ctx.blank_alarm
          (candidate_of ctx info type radar_source_id id tr score content) later
          ctx.cfg.al.track_already_has_alarm_window_ms s.alarms r t k p f w in
      rw (found, outside) (saved-by_listing later id track s listing always n h)
