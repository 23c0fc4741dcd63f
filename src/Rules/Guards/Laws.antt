-- ===== src/Rules/Guards/Laws.antt =====
-- The range of the score of a candidate that is judged (`updataAlarmTrackToDB`,
-- src/dialog/alarm/TrackAlarmThread.cpp), and where this code agrees with that of
-- src/dialog/alarm/SuspiciousTargetThread.cpp.
use alarm_sys_linux.Common.{◌≡◌, Bool, Option, none, some, arith, if◌then◌else◌}
use alarm_sys_linux.Common.Int.{ℤ, pos, eq_ℤ_iff, ◌≤ℤ◌}
use alarm_sys_linux.Common.Dict.{int_key}
use alarm_sys_linux.Common.Double.{Double}
use alarm_sys_linux.Alarms.Tracks.{Track}
use alarm_sys_linux.Suspicious.{should_skip_bird_air_track_for_suspicious}
use alarm_sys_linux.Threat.{ThreatAssessmentResult}
use alarm_sys_linux.Rules.Context.{AlarmRule, DetectionTypeResult, Context}
use alarm_sys_linux.Rules.Candidate.{is_skipped_bird, find_in_table, find_candidate, bird_candidate}
use alarm_sys_linux.Rules.Guards.{
  Verdict, course_step, height_step, dist_step, entry_step, attribute_step, detection_ok, q_bound,
  assess, threat_step, detection_step, unjudged, judge,
}

module _ {W R : Type 0} ⦃d : Double W⦄ (ctx : Context W R) (rule : AlarmRule) where
  abbrev pub IsScore : ℤ → Type 0
  IsScore score = (pos 0 ≤ℤ score) × (score ≤ℤ pos 100)

  q_bound-IsScore : (value : ℤ) → IsScore (q_bound ctx rule (pos 0) value (pos 100))
  unfolding q_bound
  q_bound-IsScore value = ground arith

  guards-IsScore :
      (target_id : ℤ) (track : Track W) (v : Verdict W)
      → IsScore v.threat_score
      → let entered =
          entry_step ctx rule track (
            dist_step ctx rule track (course_step ctx rule track (height_step ctx rule track v))) in
        IsScore (attribute_step ctx rule target_id entered).threat_score
  unfolding height_step course_step dist_step entry_step attribute_step
  guards-IsScore target_id track v s = ground (arith, s)

  threat-IsScore :
      (track : Track W) (found : Option DetectionTypeResult) (v : Verdict W)
      → IsScore v.threat_score
      → IsScore (threat_step ctx rule track found v).threat_score
  unfolding threat_step
  threat-IsScore track found v s =
      let result : ThreatAssessmentResult W = assess ctx rule track found v in
      ground (arith, s, q_bound-IsScore (ctx.q_round result.total_threat_level))

  -- The score of a candidate that was judged is one of 0 to 100, whatever the assessment of the
  -- threat gives, if the configured score for want of an assessment is one.
  pub judge-IsScore :
      (type target_id : ℤ) (track : Track W) (speed_ok : Bool)
      → pos 0 ≤ℤ ctx.cfg.al.default_threat_score
      → ctx.cfg.al.default_threat_score ≤ℤ pos 100
      → IsScore (judge ctx rule type target_id track speed_ok).threat_score
  unfolding judge detection_step
  judge-IsScore type target_id track speed_ok low high =
      let start : Verdict W = unjudged ctx rule speed_ok in
      let found = ctx.detect track.unique_id in
      let entered : Verdict W = entry_step ctx rule track (
        dist_step ctx rule track (course_step ctx rule track (height_step ctx rule track start))) in
      let fit : Verdict W = attribute_step ctx rule target_id entered in
      let s = guards-IsScore target_id track start (low, high) in
      ground (
        arith,
        s,
        threat-IsScore track found (record fit { pass = detection_ok ctx rule type found }) s,
      )

module _ {W R : Type 0} (ctx : Context W R) where
  -- A bird that the radar of birds reports is passed over exactly when the search for suspicious
  -- targets passes it over.
  pub find_candidate-bird :
      (id : ℤ) (track : Track W)
      → find_in_table id id ctx.bird_radar_track ≡ some track
      → find_candidate ctx (pos 3) ctx.cfg.bird_radar_source_id id ≡ (
          if should_skip_bird_air_track_for_suspicious ctx.text ctx.split_commas track ctx.cfg.birds
          then none
          else some track)
  unfolding find_candidate bird_candidate is_skipped_bird should_skip_bird_air_track_for_suspicious
  find_candidate-bird id track h =
      rw h (ground (arith, eq_ℤ_iff ctx.cfg.bird_radar_source_id ctx.cfg.bird_radar_source_id))
