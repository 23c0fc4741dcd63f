-- ===== src/Publish/Pushes.antt =====
-- The times of the pushes over gRPC (`tickAlarmGrpcSnapshot`, src/customconfig.cpp), and the ids of the
-- event that are `int`s (`legacyDdsTrackId`).
use alarm_sys_linux.Common.{
  ◌≡◌, ◌⊎◌, ◌%◌, ◌<◌, Bool, true, false, not, ◌&&◌, List, [], ◌∷◌, arith, All, if◌then◌else◌,
}
use alarm_sys_linux.Common.Int.{ℤ, pos, ◌-ℤ◌, eq_ℤ, eq_ℤ_iff, ltb_ℤ, leb_ℤ, ◌≤ℤ◌, ◌<ℤ◌}
use alarm_sys_linux.Publish.{legacy_dds_track_id}

-- A tick at a time; the answer is the time of the last push, and whether there is a push now.
unfoldable pub tick_alarm_grpc_snapshot : Bool → ℤ → ℤ → ℤ × Bool
tick_alarm_grpc_snapshot enabled now_ms last_ms =
    if not enabled
    then (last_ms, false)
    else if not (eq_ℤ last_ms (pos 0)) && ltb_ℤ (now_ms -ℤ last_ms) (pos 1000)
    then (last_ms, false)
    else (now_ms, true)

-- The times of the pushes in a row of ticks.
unfoldable pub pushes : Bool → List ℤ → ℤ → List ℤ
pushes enabled [] last_ms = []
pushes enabled (now_ms ∷ later) last_ms =
    let (last, pushed) = tick_alarm_grpc_snapshot enabled now_ms last_ms in
    let rest = pushes enabled later last in if pushed then now_ms ∷ rest else rest

-- Each is at least a second after the one before it.
abbrev pub IsSpacedAfter : ℤ → List ℤ → Type 0
IsSpacedAfter last [] = Unit
IsSpacedAfter last (t ∷ ts) = (pos 1000 ≤ℤ (t -ℤ last)) × IsSpacedAfter t ts

abbrev pub IsSpaced : List ℤ → Type 0
IsSpaced [] = Unit
IsSpaced (t ∷ ts) = IsSpacedAfter t ts

pushes-IsSpacedAfter :
    (enabled : Bool) (ticks : List ℤ) (last_ms : ℤ)
    → All (λ t. pos 0 <ℤ t) ticks
    → pos 0 <ℤ last_ms
    → IsSpacedAfter last_ms (pushes enabled ticks last_ms)
unfolding pushes tick_alarm_grpc_snapshot
pushes-IsSpacedAfter enabled [] last_ms h p = tt
pushes-IsSpacedAfter enabled (now_ms ∷ later) last_ms h p = ground (
  arith,
  h.0,
  p,
  pushes-IsSpacedAfter enabled later last_ms h.1 p,
  pushes-IsSpacedAfter enabled later now_ms h.1 h.0,
  eq_ℤ_iff last_ms (pos 0),
)

-- Two pushes of a row of ticks are at least a second apart, whatever the times of the ticks, if all of
-- them are positive.
pub pushes-IsSpaced :
    (enabled : Bool) (ticks : List ℤ)
    → All (λ t. pos 0 <ℤ t) ticks
    → IsSpaced (pushes enabled ticks (pos 0))
unfolding pushes tick_alarm_grpc_snapshot
pushes-IsSpaced enabled [] h = tt
pushes-IsSpaced enabled (now_ms ∷ later) h =
    ground
      (arith, pushes-IsSpacedAfter enabled later now_ms h.1 h.0, pushes-IsSpaced enabled later h.1)

-- The id of a target in a field of 32 bits is not negative and fits the field, and it is the id itself
-- where that is positive and fits.
pub legacy_dds_track_id-fits :
    (id : ℤ)
    → (pos 0 ≤ℤ legacy_dds_track_id id)
      × (legacy_dds_track_id id ≤ℤ pos 2147483647)
      × ((leb_ℤ id (pos 0) ≡ true)
          ⊎ (leb_ℤ id (pos 2147483647) ≡ false)
          ⊎ (legacy_dds_track_id id ≡ id))
unfolding legacy_dds_track_id
legacy_dds_track_id-fits (ℤ.pos n) =
    let low : n % 2147483648 < 2147483648 = omega arith in ground (arith, low)
legacy_dds_track_id-fits (ℤ.negsuc n) = ground arith
