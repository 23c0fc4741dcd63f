-- ===== src/Common/Integers.antt =====
-- Concrete operations of `Double` on integers: those without a meaning there give a fixed value or
-- their argument. The tests use them where no angle or root is read.
use alarm_sys_linux.Common.Tests.{if◌then◌else◌}
use alarm_sys_linux.Common.Int.{ℤ, pos, ◌+ℤ◌, ◌-ℤ◌, ltb_ℤ, leb_ℤ}
use alarm_sys_linux.Common.Double.{Double}

instance abbrev pub integers : Double ℤ
integers = record {
  lt = ltb_ℤ;
  le = leb_ℤ;
  add = ◌+ℤ◌;
  sub = ◌-ℤ◌;
  mul = λ a b. a;
  div = λ a b. a;
  neg = λ a. pos 0 -ℤ a;
  abs = λ a. if ltb_ℤ a (pos 0) then pos 0 -ℤ a else a;
  sqrt = λ a. a;
  sin = λ a. a;
  cos = λ a. a;
  asin = λ a. a;
  atan2 = λ a b. a;
  round = λ a. a;
  m_pi = pos 3;
  of_ℤ = λ a. a;
  decimal = λ m k. pos m;
  to_float = λ a. a;
}
