-- ===== src/Rules/Guards/Pass.antt =====
-- What a candidate that passes the conditions of a rule meets (`updataAlarmTrackToDB`,
-- src/dialog/alarm/TrackAlarmThread.cpp).
use alarm_sys_linux.Common.Dict.{int_key}
use alarm_sys_linux.Common.Double.{Double}
use alarm_sys_linux.Rules.Context.{Context}
