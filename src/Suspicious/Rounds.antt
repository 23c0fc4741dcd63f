-- ===== src/Suspicious/Rounds.antt =====
-- What a round of judgements finds, and two rounds in a row
-- (`processSuspiciousTargets` and `run`, src/dialog/alarm/SuspiciousTargetThread.cpp).
use alarm_sys_linux.Common.{◌≡◌, String, Bool, true, false, not, ◌&&◌, ◌||◌, some, List, [], arith}
use alarm_sys_linux.Common.Int.{ℤ, pos, ◌*ℤ◌, ◌-ℤ◌, eq_ℤ, leb_ℤ, ltb_ℤ}
use alarm_sys_linux.Common.Dict.{Dict, lookup, has_key, int_key, string_key, Distinct}
use alarm_sys_linux.Common.Double.{Double}
use alarm_sys_linux.Common.Text.{Text}
use alarm_sys_linux.Alarms.Tracks.{Track}
use alarm_sys_linux.Suspicious.{
  SuspiciousTargetConfig, BirdFilter, Point, speed_high_now, Judging, SuspicionState,
  is_air_drone_track, should_skip_bird_air_track_for_suspicious, process_suspicious_targets,
  clear_checks,
}
use alarm_sys_linux.Suspicious.Checks.{Injective, low_ok, was_ok-low_entry}
use alarm_sys_linux.Suspicious.Walks.{
  low_after, high_after, found_after, low_air_after, high_air_after, air_found,
  lookup-low-judge_sea, lookup-high-judge_sea, has_key-judge_sea, judge_air_lem,
}

module _ {W : Type 0} ⦃d : Double W⦄ (cfg : SuspiciousTargetConfig W) (number : ℤ → String) where
  module _ (text : Text) (split_commas : String → List String) (al : BirdFilter)
      (inj : Injective number) where
    abbrev round :
        List (Point W)
        → Dict ℤ (Track W)
        → Dict ℤ (Track W)
        → SuspicionState
        → SuspicionState × Dict String (Unit {0}) × Dict String (Unit {0})
    round centers fuse bird s =
        process_suspicious_targets number cfg centers text split_commas al fuse bird s

    sea_lem :
        (centers : List (Point W)) (fuse bird : Dict ℤ (Track W)) (s : SuspicionState) (i : ℤ)
        → Distinct fuse
        → (lookup i (round centers fuse bird s).0.low_sea
            ≡ low_after cfg number centers i (lookup i fuse) (lookup i s.low_sea))
          × (lookup i (round centers fuse bird s).0.high_sea
              ≡ high_after cfg number centers i (lookup i fuse) (lookup i s.high_sea))
          × (has_key (number i) (round centers fuse bird s).1
              ≡ found_after cfg number centers i
                  (lookup i fuse)
                  (lookup i s.low_sea)
                  (lookup i s.high_sea))
    unfolding process_suspicious_targets has_key
    sea_lem centers fuse bird s i u =
        let j : Judging = record {
          low_check = s.low_sea;
          high_check = s.high_sea;
          suspicious_ids = [];
        } in
        (
          lookup-low-judge_sea cfg number centers fuse j i u,
          lookup-high-judge_sea cfg number centers fuse j i u,
          has_key-judge_sea cfg number centers fuse j i inj u,
        )

    air_lem :
        (centers : List (Point W)) (fuse bird : Dict ℤ (Track W)) (s : SuspicionState) (i : ℤ)
        → Distinct bird
        → (lookup i (round centers fuse bird s).0.low_air
            ≡ low_air_after cfg number centers text split_commas al i
                (lookup i bird)
                (lookup i s.low_air))
          × (lookup i (round centers fuse bird s).0.high_air
              ≡ high_air_after cfg number centers text split_commas al i
                  (lookup i bird)
                  (lookup i s.high_air))
          × (has_key (number i) (round centers fuse bird s).2
              ≡ air_found cfg number centers text split_commas al i
                  (lookup i bird)
                  (lookup i s.low_air)
                  (lookup i s.high_air))
    unfolding process_suspicious_targets has_key
    air_lem centers fuse bird s i u =
        let j : Judging = record {
          low_check = s.low_air;
          high_check = s.high_air;
          suspicious_ids = [];
        } in
        judge_air_lem cfg number centers text split_commas al bird j i inj u

    -- A target that is among the tracks at sea in two rounds in a row is found suspicious in the
    -- second exactly when its id is positive, and in both rounds it was faster than the high
    -- threshold, or in both rounds it was faster than the low threshold and on a course to a
    -- protected area; where texts tell ids apart and no table has an id twice.
    pub sea_two_rounds :
        (centers centers_later : List (Point W))
        (fuse bird fuse_later bird_later : Dict ℤ (Track W)) (s : SuspicionState) (i : ℤ)
        (first second : Track W)
        → Distinct fuse
        → Distinct fuse_later
        → lookup i fuse ≡ some first
        → lookup i fuse_later ≡ some second
        → has_key
            (number i)
            (round centers_later fuse_later bird_later (round centers fuse bird s).0).1
          ≡ (ltb_ℤ (pos 0) i
              && ((speed_high_now cfg first && speed_high_now cfg second)
                  || (low_ok cfg centers first && low_ok cfg centers_later second)))
    sea_two_rounds centers centers_later fuse bird fuse_later bird_later s i first second u v e f =
        let once = (round centers fuse bird s).0 in
        ground (
          arith,
          sea_lem centers fuse bird s i u,
          sea_lem centers_later fuse_later bird_later once i v,
          was_ok-low_entry cfg centers first,
        )

    -- A track in the air that is no drone, or that the filters of birds skip, is not found
    -- suspicious; a drone that they skip is not found suspicious in the next round either; where
    -- texts tell ids apart and no table has an id twice.
    pub air_skipped :
        (centers centers_later : List (Point W))
        (fuse bird fuse_later bird_later : Dict ℤ (Track W)) (s : SuspicionState) (i : ℤ)
        (track : Track W)
        → Distinct bird
        → Distinct bird_later
        → lookup i bird ≡ some track
        → let once = round centers fuse bird s in
          let skips = should_skip_bird_air_track_for_suspicious text split_commas track al in
          (((not (is_air_drone_track track) || skips) && has_key (number i) once.2) ≡ false)
          × ((is_air_drone_track track
                && skips
                && has_key (number i) (round centers_later fuse_later bird_later once.0).2)
              ≡ false)
    air_skipped centers centers_later fuse bird fuse_later bird_later s i track u v e =
        let once = (round centers fuse bird s).0 in
        ground (
          arith,
          air_lem centers fuse bird s i u,
          air_lem centers_later fuse_later bird_later once i v,
        )

    -- Whether the maps of last answers are to be cleared.
    abbrev pub is_due : ℤ → SuspicionState → Bool
    is_due now s =
        let interval = cfg.speed_check_clear_interval_min *ℤ pos 60000 in
        not (eq_ℤ s.last_clear_ms (pos 0))
        && ltb_ℤ (pos 0) interval
        && leb_ℤ interval (now -ℤ s.last_clear_ms)

    empty_when_due :
        (now : ℤ) (s : SuspicionState)
        → is_due now s ≡ true
        → clear_checks cfg now s
          ≡ record { low_sea = []; high_sea = []; low_air = []; high_air = []; last_clear_ms = now }
    unfolding clear_checks
    empty_when_due now s due = ground arith

    -- In a round that starts when the maps of last answers are due to be cleared, no target is found
    -- suspicious; where texts tell ids apart and no table has an id twice.
    pub cleared_round :
        (now : ℤ) (centers : List (Point W)) (fuse bird : Dict ℤ (Track W)) (s : SuspicionState)
        (i : ℤ)
        → Distinct fuse
        → Distinct bird
        → is_due now s ≡ true
        → let found = round centers fuse bird (clear_checks cfg now s) in
          (has_key (number i) found.1 ≡ false) × (has_key (number i) found.2 ≡ false)
    unfolding lookup
    cleared_round now centers fuse bird s i u v due =
        let start = clear_checks cfg now s in
        ground (
          arith,
          empty_when_due now s due,
          sea_lem centers fuse bird start i u,
          air_lem centers fuse bird start i v,
        )
