-- ===== src/Lib.antt =====
-- AlarmSys: an alarm service for tracks of ships and of targets in the air. Threads read tables of
-- tracks that subscribers fill, decide which targets raise alarms, and keep a table of alarms that is
-- sent over DDS and gRPC; operators confirm targets, or silence them for a time.
--
-- The parts, and where they stand:
--   SystemAlarm: the pool of the devices' own alarms and the gRPC service over it
--     (src/grpc_system_alarm/SystemAlarmStore.cpp, SystemAlarmServiceImpl.cpp). The store is the map
--     `m_active`; `report`, `cancel`, `list_active` and `size` are its operations, each a function
--     from the store to the store and the answer.
--   TypeFusion: the fusion of the type that the track has with the type that recognition found
--     (src/dialog/analysis/TargetTypeFusionLogic.cpp, TargetTypeFusionThread.cpp), with the writes
--     and pushes of a cycle as lists.
--   Alarms: the tables of alarms that `CustomConfig` keeps. Filter is `addAlarmFilter`,
--     `removeAlarmFilterForUniqueId` and `isUniqueIdAlarmFiltered` (src/customconfig.cpp); Save is
--     `SaveToDB` and Prune the end of `run` (src/dialog/alarm/TrackAlarmThread.cpp); Tracks is
--     `findTrackByUniqueId` and Confirm `confirmAlarmByUniqueId` (src/customconfig.cpp). State holds
--     the record of the tables, with what was written to the database.
--   Identification: the identification rules and `resolveRuleAlarmDisposition`
--     (src/customconfig.cpp), which read and write the tables of Alarms.
--   Suspicious: `SuspiciousTargetThread` (src/dialog/alarm/SuspiciousTargetThread.cpp), with the
--     tracks of Alarms.Tracks and the formulas of Geometry (src/common/commonfunc.cpp).
--   Pool: the pool of PostgreSQL connections (src/db/postgres/PgConnectionPool.cpp), with the calls
--     that change it as a step relation, `Reach`.
--   Threat: the threat level of a target, and the time until it reaches a protected area
--     (src/dialog/alarm/TrackAlarmThread.cpp).
--   Rules: the rules of `TrackAlarmThread` (src/dialog/alarm/TrackAlarmThread.cpp). Watch is the
--     search for the candidates of a rule in `processAlarms`, by the tracks and their trails; Update
--     is `updataAlarmTrackToDB`, which judges the candidates by Guards, Zones and the lists, and saves
--     with Alarms.Save; Candidate finds a candidate's track, and Context holds what is read. Areas is
--     `getAlarmArea`, and which rules of a round are looked at. Round is `processAlarms` itself: the
--     copies of the trails, and the loop that tries each rule by its kind.
--   Content: the description of an alarm (src/dialog/alarm/AlarmContentBuilder.cpp). Reasons are the
--     conditions of a rule that are met, Types the names of types; the rules take the description as a
--     parameter.
--   Http: the server for operators (src/AlarmHttpServer.cpp). A request is a function from the tables of
--     Alarms and the mode of the pushes to those after it and the answer, by Alarms.Filter and
--     Alarms.Confirm; Request is what is read from bytes and JSON.
--   Config: sets of ids in the settings, the tables that are read again on request, the weights that are
--     kept, and the search for a radar track (src/customconfig.cpp).
--   Publish: the event of alarms (src/customconfig.cpp). Sync is `syncManualAlarmsBeforePublish`, Rank
--     the levels and Event the loops of `SendAllAlarmEventMsg`, with the filters and tables of Alarms
--     and the dispositions of Identification; Pushes is `tickAlarmGrpcSnapshot`.
--   Service: a turn of the loop in `run` (src/dialog/alarm/TrackAlarmThread.cpp) with Rules.Round, Publish
--     and Alarms.Prune, and the requests of Http, over one state; `Reach` is any order of them.
--   Common: integers over the native numbers, ordered maps as association lists, and the interfaces
--     of `double` and of Qt's texts.
--
-- How the code is read. An operation takes the state and gives the new state; locks are not
-- modelled, and an operation is one step, as it is under its lock. The clock is read once for an
-- operation and is an argument. Integers have no bounds: the operations that are modelled add
-- counts and milliseconds, which stay far below 2 ^ 63; overflow is not modelled. `double` is a
-- type with operations about which nothing is assumed in general; a theorem that needs laws of its
-- comparison, as in Threat, Content and Rules.Watch, has them as hypotheses. Texts are equal or not; `trimmed`, `toLower`, `split`, `QString::number`, the formats
-- of `QDateTime`, JSON and the database are parameters, with what is used of them as hypotheses,
-- each met by a concrete function in the tests. That a map has distinct keys is a hypothesis where
-- it matters. Loops are structural, but for one: the search for fused tracks that enter an area
-- (Rules.Watch.Enter) need not end, and runs on fuel. One turn more than there are trails is enough
-- where it ends, and so for a round one turn more than there are fused tracks. Where the code reads a
-- list past its end the answer of the model is none. The place of the drones, which no code sets, is an
-- argument of a round.
--
-- Not modelled: the settings that are read one by one; libpq; SQL; sockets; the network clients; log
-- lines; the returns of `SendAllAlarmEventMsg` where nothing is published because DDS is off or not
-- ready; `isTrackInOtherAlarmArea`, which only a comment calls; and generated or vendored code.
pub mod Common
pub mod SystemAlarm
pub mod TypeFusion
pub mod Geometry
pub mod Alarms
pub mod Identification
pub mod Suspicious
pub mod Pool
pub mod Threat
pub mod Rules
pub mod Publish
pub mod Http
pub mod Content
pub mod Config
pub mod Service
