-- ===== src/Suspicious/Checks.antt =====
-- What one judgement of a track does (`evaluateTrack`, src/dialog/alarm/SuspiciousTargetThread.cpp).
use alarm_sys_linux.Common.{
  ◌≡◌, refl, String, Bool, false, ◌&&◌, ◌||◌, Option, none, some, List, [], ◌∷◌, arith, str_eq,
  str_eq_iff, if◌then◌else◌,
}
use alarm_sys_linux.Common.Int.{ℤ, pos, eq_ℤ, eq_ℤ_iff, ltb_ℤ}
use alarm_sys_linux.Common.Dict.{lookup, has_key, int_key, string_key}
use alarm_sys_linux.Common.Dict.Laws.{lookup-insert, lookup-erase, has_key-insert}
use alarm_sys_linux.Common.Double.{Double}
use alarm_sys_linux.Alarms.Tracks.{Track}
use alarm_sys_linux.Suspicious.{
  CheckMap, SuspiciousTargetConfig, Point, was_ok, apply_speed_double_check, speed_high_now,
  speed_low_now, low_step, Judging, evaluate_track,
}

-- The judgements of one map of last answers, newest first: a track and whether it passes the test.
abbrev pub run_checks : List (ℤ × Bool) → CheckMap
run_checks [] = []
run_checks ((id, ok) ∷ earlier) = (apply_speed_double_check id ok (run_checks earlier)).0

abbrev pub last_answer : ℤ → List (ℤ × Bool) → Bool
last_answer id [] = false
last_answer id ((k, ok) ∷ earlier) = if eq_ℤ k id then ok else last_answer id earlier

was_ok-run_checks :
    (id : ℤ) (earlier : List (ℤ × Bool))
    → was_ok (lookup id (run_checks earlier)) ≡ last_answer id earlier
unfolding apply_speed_double_check lookup
was_ok-run_checks id [] = refl
was_ok-run_checks id ((k, ok) ∷ earlier) =
    ground (arith, was_ok-run_checks id earlier, lookup-insert id k ok (run_checks earlier))

-- After any judgements of any tracks, the double check of a track passes exactly when the track
-- passes the test now and passed it at its own last judgement.
pub double_check_lem :
    (id : ℤ) (ok : Bool) (earlier : List (ℤ × Bool))
    → (apply_speed_double_check id ok (run_checks earlier)).1 ≡ (last_answer id earlier && ok)
unfolding apply_speed_double_check
double_check_lem id ok earlier = ground (arith, was_ok-run_checks id earlier)

-- Texts of numbers tell numbers apart.
abbrev pub Injective : (ℤ → String) → Type 0
Injective number = (a b : ℤ) → number a ≡ number b → a ≡ b

pub number_eq :
    (number : ℤ → String) → Injective number → (a b : ℤ) → str_eq (number a) (number b) ≡ eq_ℤ a b
number_eq number inj a b = ground (arith, inj a b, str_eq_iff (number a) (number b), eq_ℤ_iff a b)

module _ {W : Type 0} ⦃d : Double W⦄ (cfg : SuspiciousTargetConfig W) where
  -- Whether a track moves towards one of the protected areas.
  abbrev pub low_ok : List (Point W) → Track W → Bool
  low_ok [] track = false
  low_ok (c ∷ centers) track = speed_low_now cfg (c ∷ centers) track

  abbrev pub low_entry : List (Point W) → Track W → Option Bool
  low_entry [] track = none
  low_entry (c ∷ centers) track = some (speed_low_now cfg (c ∷ centers) track)

  -- The verdict from the two last answers.
  abbrev pub confirmed : List (Point W) → Track W → Option Bool → Option Bool → Bool
  confirmed centers track low_last high_last =
      (was_ok high_last && speed_high_now cfg track) || (was_ok low_last && low_ok centers track)

  pub was_ok-low_entry :
      (centers : List (Point W)) (track : Track W)
      → was_ok (low_entry centers track) ≡ low_ok centers track
  was_ok-low_entry [] track = refl
  was_ok-low_entry (c ∷ centers) track = refl

  low_step_lem :
      (centers : List (Point W)) (k : ℤ) (track : Track W) (m : CheckMap) (i : ℤ)
      → (lookup i (low_step cfg centers k track m).0
          ≡ (if eq_ℤ k i then low_entry centers track else lookup i m))
        × ((low_step cfg centers k track m).1 ≡ (was_ok (lookup k m) && low_ok centers track))
  unfolding low_step apply_speed_double_check
  low_step_lem [] k track m i = ground (arith, lookup-erase i k m)
  low_step_lem (c ∷ centers) k track m i =
      ground (arith, lookup-insert i k (speed_low_now cfg (c ∷ centers) track) m)

  module _ (number : ℤ → String) (centers : List (Point W)) (k : ℤ) (track : Track W)
      (j : Judging) where
    abbrev next : Judging
    next = evaluate_track number cfg centers k track j

    pub lookup-low_check :
        (i : ℤ)
        → lookup i next.low_check
          ≡ (if ltb_ℤ (pos 0) k && eq_ℤ k i then low_entry centers track else lookup i j.low_check)
    unfolding evaluate_track
    lookup-low_check i = ground (arith, low_step_lem centers k track j.low_check i)

    pub lookup-high_check :
        (i : ℤ)
        → lookup i next.high_check ≡ (
            if ltb_ℤ (pos 0) k && eq_ℤ k i
            then some (speed_high_now cfg track)
            else lookup i j.high_check)
    unfolding evaluate_track apply_speed_double_check
    lookup-high_check i = ground (arith, lookup-insert i k (speed_high_now cfg track) j.high_check)

    pub has_key-suspicious_ids :
        (i : ℤ)
        → Injective number
        → has_key (number i) next.suspicious_ids ≡ (
            has_key (number i) j.suspicious_ids
            || (ltb_ℤ (pos 0) k
                && eq_ℤ k i
                && confirmed centers track (lookup k j.low_check) (lookup k j.high_check)))
    unfolding evaluate_track apply_speed_double_check
    has_key-suspicious_ids i inj = ground (
      arith,
      low_step_lem centers k track j.low_check i,
      has_key-insert (number i) (number k) tt j.suspicious_ids,
      number_eq number inj k i,
    )
