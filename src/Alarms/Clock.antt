-- ===== src/Alarms/Clock.antt =====
-- A concrete `TimeText` in which a time that was written is read back: as many letters as there are
-- milliseconds, after a sign.
use Prim.Native.String.{[], ◌∷◌}
use alarm_sys_linux.Common.{
  ℕ, zero, suc, String, str_eq, true, false, Option, none, some, ◌≡◌, refl, ap,
}
use alarm_sys_linux.Common.Int.{ℤ, pos, negsuc}
use alarm_sys_linux.Alarms.State.{TimeText, ReadsBack}

unfoldable pub unary : ℕ → String
unary zero = []
unary (suc n) = "i" ∷ unary n

unfoldable pub count : String → ℕ
count [] = 0
count (c ∷ s) = suc (count s)

count-unary : (n : ℕ) → count (unary n) ≡ n
unfolding count unary
count-unary zero = refl
count-unary (suc n) = ap suc (count-unary n)

unfoldable pub write_time : ℤ → String
write_time (pos n) = "+" ∷ unary n
write_time (negsuc n) = "-" ∷ unary n

unfoldable pub read_time : String → Option ℤ
read_time [] = none
read_time (c ∷ s) = elim (str_eq (c ∷ []) "+") [
  | true ↦ some (pos (count s))
  | false ↦ some (negsuc (count s))
]

abbrev pub letters : TimeText
letters = record {
  to_text = write_time;
  parse_ms = read_time;
  parse_sec = read_time;
  invalid_ms = pos 0;
}

pub letters-ReadsBack : ReadsBack letters
unfolding write_time read_time
letters-ReadsBack (pos n) = ap (λ k. some (pos k)) (count-unary n)
letters-ReadsBack (negsuc n) = ap (λ k. some (negsuc k)) (count-unary n)
