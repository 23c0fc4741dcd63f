-- ===== src/Rules.antt =====
-- The rules of `TrackAlarmThread` (src/dialog/alarm/TrackAlarmThread.cpp): `updataAlarmTrackToDB` looks
-- at the candidates of a rule one by one, and saves an alarm for those that pass. What it reads is in
-- Rules.Context; Rules.Candidate finds the candidate's track, Rules.Zones says in which areas it is,
-- Rules.Guards are the conditions of the rule, and Rules.Update is the loop. Rules.Watch is the search for
-- the candidates of a rule, in `processAlarms`, Rules.Areas the areas that a round reads, and Rules.Round
-- the round over all rules.
pub mod Context
pub mod Candidate
pub mod Zones
pub mod Guards
pub mod Update
pub mod Areas
pub mod Watch
pub mod Round
pub mod Tests
