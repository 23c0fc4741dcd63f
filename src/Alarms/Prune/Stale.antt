-- ===== src/Alarms/Prune/Stale.antt =====
-- What the pruning of `TrackAlarmThread::run` (src/dialog/alarm/TrackAlarmThread.cpp) removes.
use alarm_sys_linux.Common.{
  ◌≡◌, refl, String, Bool, true, false, ◌&&◌, ◌||◌, Option, none, some, [], ◌∷◌, arith, str_eq,
  str_eq_iff, if◌then◌else◌, All,
}
use alarm_sys_linux.Common.Int.{ℤ, ◌-ℤ◌, ltb_ℤ}
use alarm_sys_linux.Common.Dict.{Dict, lookup, erase, has_key, string_key, Distinct}
use alarm_sys_linux.Common.Dict.Laws.{lookup-erase, lookup-has_key}
use alarm_sys_linux.Alarms.State.{AlarmData, AlarmLogicConfig, Alarms, TimeText, epoch_ms}
use alarm_sys_linux.Alarms.Save.Dedup.{IsTable, IsKeyed, erase-IsTable}
use alarm_sys_linux.Alarms.Prune.{reverse_onto, is_stale, prune_walk, prune_alarms}

module _ {W : Type 0} (clock : TimeText) (al : AlarmLogicConfig) (now : ℤ) where
  abbrev goes : String → Dict String (AlarmData W) → Bool
  goes j [] = false
  goes j ((_, ad) ∷ rest) = (is_stale clock al now ad && str_eq ad.alarm_id j) || goes j rest

  goes-reverse_onto :
      (j : String) (m back : Dict String (AlarmData W))
      → goes j (reverse_onto m back) ≡ (goes j m || goes j back)
  goes-reverse_onto j [] back = refl
  goes-reverse_onto j ((k, ad) ∷ rest) back =
      ground (arith, goes-reverse_onto j rest ((k, ad) ∷ back))

  lookup-prune_walk :
      (j : String) (entries m : Dict String (AlarmData W))
      → lookup j (prune_walk clock al now entries m) ≡ (if goes j entries then none else lookup j m)
  unfolding prune_walk
  lookup-prune_walk j [] m = refl
  lookup-prune_walk j ((k, ad) ∷ rest) m =
      let next = if is_stale clock al now ad then erase ad.alarm_id m else m in
      ground (arith, lookup-prune_walk j rest next, lookup-erase j ad.alarm_id m)

  prune_walk-IsTable :
      (entries m : Dict String (AlarmData W))
      → IsTable m
      → IsTable (prune_walk clock al now entries m)
  unfolding prune_walk
  prune_walk-IsTable [] m t = t
  prune_walk-IsTable ((k, ad) ∷ rest) m t =
      prune_walk-IsTable rest (if is_stale clock al now ad then erase ad.alarm_id m else m)
        (erased (is_stale clock al now ad))
    where
      erased : (stale : Bool) → IsTable (if stale then erase ad.alarm_id m else m)
      erased true = erase-IsTable ad.alarm_id m t
      erased false = t

  abbrev pub fresh : Option (AlarmData W) → Option (AlarmData W)
  fresh none = none
  fresh (some ad) =
      if ltb_ℤ al.alarm_map_prune_non_first_stale_ms (now -ℤ epoch_ms clock ad.time)
      then none
      else some ad

  goes-absent :
      (j : String) (m : Dict String (AlarmData W))
      → All IsKeyed m
      → has_key j m ≡ false
      → goes j m ≡ false
  unfolding has_key
  goes-absent j [] t h = refl
  goes-absent j ((k, ad) ∷ rest) t h = ground (arith, goes-absent j rest t.1, t.0)

  goes-fresh :
      (j : String) (m : Dict String (AlarmData W))
      → All IsKeyed m
      → Distinct m
      → (if goes j m then none else lookup j m) ≡ fresh (lookup j m)
  unfolding lookup is_stale
  goes-fresh j [] t d = refl
  goes-fresh j ((k, ad) ∷ rest) t d = ground (
    arith,
    goes-fresh j rest t.1 d.1,
    goes-absent j rest t.1,
    lookup-has_key j rest,
    t.0,
    str_eq_iff k j,
  )

  -- The pruning at the end of a round removes exactly the alarms whose last time is further back
  -- than the configured span, the first of the table included, and keeps every other alarm under its
  -- id, where every alarm stands under its own id and no id twice.
  pub lookup-prune_alarms :
      (s : Alarms W) (j : String)
      → IsTable s.alarm_data
      → lookup j (prune_alarms clock al now s).alarm_data ≡ fresh (lookup j s.alarm_data)
  unfolding prune_alarms
  lookup-prune_alarms s j t = ground (
    arith,
    lookup-prune_walk j (reverse_onto s.alarm_data []) s.alarm_data,
    goes-reverse_onto j s.alarm_data [],
    goes-fresh j s.alarm_data t.keyed t.distinct,
  )

  -- The pruning keeps every alarm of the table under its own id, and no id twice.
  pub prune_alarms-IsTable :
      (s : Alarms W) → IsTable s.alarm_data → IsTable (prune_alarms clock al now s).alarm_data
  unfolding prune_alarms
  prune_alarms-IsTable s t = prune_walk-IsTable (reverse_onto s.alarm_data []) s.alarm_data t
