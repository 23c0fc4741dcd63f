-- ===== src/Suspicious/Walks.antt =====
-- The walks over the tracks of one round (`processSuspiciousTargets`,
-- src/dialog/alarm/SuspiciousTargetThread.cpp).
use alarm_sys_linux.Common.{
  ◌≡◌, refl, String, Bool, false, not, ◌&&◌, ◌||◌, Option, none, some, List, [], ◌∷◌, arith,
  if◌then◌else◌,
}
use alarm_sys_linux.Common.Int.{ℤ, pos, eq_ℤ, eq_ℤ_iff, ltb_ℤ}
use alarm_sys_linux.Common.Dict.{Dict, lookup, has_key, int_key, string_key, Distinct}
use alarm_sys_linux.Common.Dict.Laws.{lookup-has_key, lookup-erase}
use alarm_sys_linux.Common.Double.{Double}
use alarm_sys_linux.Common.Text.{Text}
use alarm_sys_linux.Alarms.Tracks.{Track}
use alarm_sys_linux.Suspicious.{
  SuspiciousTargetConfig, BirdFilter, Point, speed_high_now, Judging, evaluate_track, judge_sea,
  judge_air, air_step, is_air_drone_track, should_skip_bird_air_track_for_suspicious,
}
use alarm_sys_linux.Suspicious.Checks.{
  Injective, low_entry, confirmed, lookup-low_check, lookup-high_check, has_key-suspicious_ids,
}

module _ {W : Type 0} ⦃d : Double W⦄ (cfg : SuspiciousTargetConfig W) (number : ℤ → String) where
  module _ (centers : List (Point W)) where
    -- The last answers for a track after a round over tracks with distinct ids.
    abbrev pub low_after : ℤ → Option (Track W) → Option Bool → Option Bool
    low_after i none last = last
    low_after i (some track) last = if ltb_ℤ (pos 0) i then low_entry cfg centers track else last

    abbrev pub high_after : ℤ → Option (Track W) → Option Bool → Option Bool
    high_after i none last = last
    high_after i (some track) last =
        if ltb_ℤ (pos 0) i then some (speed_high_now cfg track) else last

    abbrev pub found_after : ℤ → Option (Track W) → Option Bool → Option Bool → Bool
    found_after i none low high = false
    found_after i (some track) low high = ltb_ℤ (pos 0) i && confirmed cfg centers track low high

    pub lookup-low-judge_sea :
        (m : Dict ℤ (Track W)) (j : Judging) (i : ℤ)
        → Distinct m
        → lookup i (judge_sea number cfg centers m j).low_check
          ≡ low_after i (lookup i m) (lookup i j.low_check)
    unfolding judge_sea lookup
    lookup-low-judge_sea [] j i u = refl
    lookup-low-judge_sea ((k, track) ∷ rest) j i u = ground (
      arith,
      lookup-low-judge_sea rest (evaluate_track number cfg centers k track j) i u.1,
      lookup-low_check cfg number centers k track j i,
      lookup-has_key k rest u.0,
      eq_ℤ_iff k i,
    )

    pub lookup-high-judge_sea :
        (m : Dict ℤ (Track W)) (j : Judging) (i : ℤ)
        → Distinct m
        → lookup i (judge_sea number cfg centers m j).high_check
          ≡ high_after i (lookup i m) (lookup i j.high_check)
    unfolding judge_sea lookup
    lookup-high-judge_sea [] j i u = refl
    lookup-high-judge_sea ((k, track) ∷ rest) j i u = ground (
      arith,
      lookup-high-judge_sea rest (evaluate_track number cfg centers k track j) i u.1,
      lookup-high_check cfg number centers k track j i,
      lookup-has_key k rest u.0,
      eq_ℤ_iff k i,
    )

    pub has_key-judge_sea :
        (m : Dict ℤ (Track W)) (j : Judging) (i : ℤ)
        → Injective number
        → Distinct m
        → has_key (number i) (judge_sea number cfg centers m j).suspicious_ids ≡ (
            has_key (number i) j.suspicious_ids
            || found_after i (lookup i m) (lookup i j.low_check) (lookup i j.high_check))
    unfolding judge_sea lookup
    has_key-judge_sea [] j i inj u = ground arith
    has_key-judge_sea ((k, track) ∷ rest) j i inj u =
        let after = evaluate_track number cfg centers k track j in
        ground (
          arith,
          has_key-judge_sea rest after i inj u.1,
          lookup-low_check cfg number centers k track j i,
          lookup-high_check cfg number centers k track j i,
          has_key-suspicious_ids cfg number centers k track j i inj,
          lookup-has_key k rest u.0,
          eq_ℤ_iff k i,
        )

    module _ (text : Text) (split_commas : String → List String) (al : BirdFilter) where
      abbrev pub skipped : Track W → Bool
      skipped = λ track. should_skip_bird_air_track_for_suspicious text split_commas track al

      abbrev pub low_air_after : ℤ → Option (Track W) → Option Bool → Option Bool
      low_air_after i none last = last
      low_air_after i (some track) last =
          if not (is_air_drone_track track)
          then last
          else if skipped track
          then none
          else low_after i (some track) last

      abbrev pub high_air_after : ℤ → Option (Track W) → Option Bool → Option Bool
      high_air_after i none last = last
      high_air_after i (some track) last =
          if not (is_air_drone_track track)
          then last
          else if skipped track
          then none
          else high_after i (some track) last

      -- The verdict for a track in the air.
      abbrev pub air_found : ℤ → Option (Track W) → Option Bool → Option Bool → Bool
      air_found i none low high = false
      air_found i (some track) low high =
          is_air_drone_track track
          && not (skipped track)
          && ltb_ℤ (pos 0) i
          && confirmed cfg centers track low high

      step_lem :
          (k : ℤ) (track : Track W) (j : Judging) (i : ℤ)
          → Injective number
          → let after = air_step number cfg centers text split_commas al k track j in
            (lookup i after.low_check ≡ (
              if eq_ℤ k i
              then low_air_after i (some track) (lookup i j.low_check)
              else lookup i j.low_check))
            × (lookup i after.high_check ≡ (
                if eq_ℤ k i
                then high_air_after i (some track) (lookup i j.high_check)
                else lookup i j.high_check))
            × (has_key (number i) after.suspicious_ids ≡ (
                has_key (number i) j.suspicious_ids
                || (eq_ℤ k i
                    && air_found i (some track) (lookup i j.low_check) (lookup i j.high_check))))
      unfolding air_step
      step_lem k track j i inj = ground (
        arith,
        lookup-low_check cfg number centers k track j i,
        lookup-high_check cfg number centers k track j i,
        has_key-suspicious_ids cfg number centers k track j i inj,
        lookup-erase i k j.low_check,
        lookup-erase i k j.high_check,
        eq_ℤ_iff k i,
      )

      pub judge_air_lem :
          (m : Dict ℤ (Track W)) (j : Judging) (i : ℤ)
          → Injective number
          → Distinct m
          → let after = judge_air number cfg centers text split_commas al m j in
            (lookup i after.low_check ≡ low_air_after i (lookup i m) (lookup i j.low_check))
            × (lookup i after.high_check ≡ high_air_after i (lookup i m) (lookup i j.high_check))
            × (has_key (number i) after.suspicious_ids ≡ (
                has_key (number i) j.suspicious_ids
                || air_found i (lookup i m) (lookup i j.low_check) (lookup i j.high_check)))
      unfolding judge_air lookup
      judge_air_lem [] j i inj u = ground arith
      judge_air_lem ((k, track) ∷ rest) j i inj u =
          let after = air_step number cfg centers text split_commas al k track j in
          ground (
            arith,
            judge_air_lem rest after i inj u.1,
            step_lem k track j i inj,
            lookup-has_key k rest u.0,
            eq_ℤ_iff k i,
          )
