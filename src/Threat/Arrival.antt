-- ===== src/Threat/Arrival.antt =====
-- The time until a track reaches a protected circle (`calculateTimeToProtectArea`,
-- src/dialog/alarm/TrackAlarmThread.cpp), from the line of its course in metres around the centre.
use alarm_sys_linux.Common.{ℕ, ◌&&◌, if◌then◌else◌}
use alarm_sys_linux.Common.Int.{pos}
use alarm_sys_linux.Common.Double.{Double}
use alarm_sys_linux.Geometry.{get_distance, calculate_bearing, course_angle_diff, rad}
use alarm_sys_linux.Alarms.Tracks.{Track}
use alarm_sys_linux.Suspicious.{Point}

-- The coefficients of the equation for the distance along the course at which the circle is met.
pub record Quadratic (W : Type 0) : Type 0 where
  pub a : W
  pub b : W
  pub c : W

module _ {W : Type 0} ⦃d : Double W⦄ where
  open d use {lt, le, add, sub, mul, div, sqrt, sin, cos, neg, of_ℤ, decimal}

  abbrev n : ℕ → W
  n k = of_ℤ (pos k)

  -- The literal -1.0.
  abbrev pub never : W
  never = neg (n 1)

  unfoldable pub line_and_circle : Track W → Point W → W → Quadratic W
  line_and_circle track center radius =
      let course_rad = rad track.course_degrees in
      let target_x = mul (mul (sub track.long_degs center.1) (n 111320)) (cos (rad center.0)) in
      let target_y = mul (sub track.lat_degs center.0) (n 111320) in
      let dir_x = sin course_rad in
      let dir_y = cos course_rad in
      record {
        a = add (mul dir_x dir_x) (mul dir_y dir_y);
        b = mul (n 2) (add (mul target_x dir_x) (mul target_y dir_y));
        c = sub (add (mul target_x target_x) (mul target_y target_y)) (mul radius radius);
      }

  unfoldable pub discriminant : Quadratic W → W
  discriminant q = sub (mul q.b q.b) (mul (mul (n 4) q.a) q.c)

  unfoldable pub root_1 : Quadratic W → W
  root_1 q = div (sub (neg q.b) (sqrt (discriminant q))) (mul (n 2) q.a)

  unfoldable pub root_2 : Quadratic W → W
  root_2 q = div (add (neg q.b) (sqrt (discriminant q))) (mul (n 2) q.a)

  -- The smaller positive root, or the positive one, or -1.
  unfoldable pub first_positive : W → W → W
  first_positive t1 t2 =
      if lt (n 0) t1 && lt (n 0) t2
      then if lt t2 t1 then t2 else t1
      else if lt (n 0) t1
      then t1
      else if lt (n 0) t2
      then t2
      else never

  unfoldable pub calculate_time_to_protect_area : Track W → Point W → W → W
  calculate_time_to_protect_area track center radius =
      let dist = get_distance track.long_degs track.lat_degs center.1 center.0 in
      let bearing = calculate_bearing track.lat_degs track.long_degs center.0 center.1 in
      let diff = course_angle_diff track.course_degrees bearing in
      let q = line_and_circle track center radius in
      let t = first_positive (root_1 q) (root_2 q) in
      if le dist radius
      then n 0
      else if le track.speed_mps (decimal 1 1)
      then never
      else if lt (n 90) diff
      then never
      else if lt (discriminant q) (n 0)
      then never
      else if lt (n 0) t
      then div t track.speed_mps
      else never
