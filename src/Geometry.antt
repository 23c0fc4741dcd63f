-- ===== src/Geometry.antt =====
-- The distances and angles of src/common/commonfunc.cpp and of the alarm threads
-- (src/dialog/alarm), over the operations of `double`. Only their formulas are modelled: what depends
-- on them is proved for every such operations.
use alarm_sys_linux.Common.{ℕ, if◌then◌else◌}
use alarm_sys_linux.Common.Int.{pos}
use alarm_sys_linux.Common.Double.{Double}

module _ {W : Type 0} ⦃d : Double W⦄ where
  open d use {lt, le, add, sub, mul, div, sqrt, sin, cos, asin, atan2, m_pi, of_ℤ, decimal}

  abbrev num : ℕ → W
  num n = of_ℤ (pos n)

  -- `CommonFunc::rad`, and `radians` and `rad2deg` of the threads.
  unfoldable pub rad : W → W
  rad x = div (mul x m_pi) (num 180)

  unfoldable pub rad2deg : W → W
  rad2deg x = div (mul x (num 180)) m_pi

  -- `qPow(x, 2)`.
  abbrev square : W → W
  square x = mul x x

  half_sin : W → W
  half_sin x = sin (div x (num 2))

  haversine : W → W → W → W → W
  unfolding half_sin
  haversine a b rad_lat1 rad_lat2 = mul (num 2) (
      asin (
        sqrt (
          add (square (half_sin a))
            (mul (mul (cos rad_lat1) (cos rad_lat2)) (square (half_sin b))))))

  unfoldable pub get_distance : W → W → W → W → W
  unfolding haversine rad
  get_distance lon1 lat1 lon2 lat2 =
      let rad_lat1 = rad lat1 in
      let rad_lat2 = rad lat2 in
      let a = sub rad_lat1 rad_lat2 in
      let b = sub (rad lon1) (rad lon2) in mul (haversine a b rad_lat1 rad_lat2) (num 6378137)

  -- In metres, of a distance in kilometres rounded to four places.
  unfoldable pub get_distance2 : W → W → W → W → W
  unfolding haversine rad
  get_distance2 lat1 lng1 lat2 lng2 =
      let rad_lat1 = rad lat1 in
      let rad_lat2 = rad lat2 in
      let a = sub rad_lat1 rad_lat2 in
      let b = sub (rad lng1) (rad lng2) in
      let dst = mul (haversine a b rad_lat1 rad_lat2) (decimal 6371393 3) in
      mul (div (d.round (mul dst (num 10000))) (num 10000)) (num 1000)

  unfoldable pub get_angle2 : W → W → W → W → W
  get_angle2 lat1 lng1 lat2 lng2 =
      let rotate = atan2 (d.abs (sub lng1 lng2)) (d.abs (sub lat1 lat2)) in
      let turned =
        if le lng1 lng2
        then if lt lat2 lat1 then sub m_pi rotate else rotate
        else if le lat1 lat2
        then sub (mul (num 2) m_pi) rotate
        else add m_pi rotate in
      div (mul turned (num 180)) m_pi

  unfoldable pub calculate_bearing : W → W → W → W → W
  unfolding rad rad2deg
  calculate_bearing lat1 lon1 lat2 lon2 =
      let p1 = rad lat1 in
      let p2 = rad lat2 in
      let delta_lon = sub (rad lon2) (rad lon1) in
      let y = mul (sin delta_lon) (cos p2) in
      let x = sub (mul (cos p1) (sin p2)) (mul (mul (sin p1) (cos p2)) (cos delta_lon)) in
      let bearing_deg = rad2deg (atan2 y x) in
      if lt bearing_deg (num 0) then add bearing_deg (num 360) else bearing_deg

  unfoldable pub course_angle_diff : W → W → W
  course_angle_diff course_deg bearing_deg =
      let angle_diff = d.abs (sub course_deg bearing_deg) in
      if lt (num 180) angle_diff then sub (num 360) angle_diff else angle_diff
