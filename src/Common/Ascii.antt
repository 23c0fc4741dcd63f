-- ===== src/Common/Ascii.antt =====
-- A concrete `Text`, which meets the facts of `IsText`: texts with no blanks and no capitals, on which
-- trimming and lowering do nothing, and a text holds a part only if it is that part.
use mathlib.Core.Path.{refl}
use alarm_sys_linux.Common.Tests.{str_eq, str_eq_iff}
use alarm_sys_linux.Common.Text.{Text, IsText}

abbrev pub ascii : Text
ascii = record {
  trimmed = λ s. s;
  to_lower = λ s. s;
  contains = str_eq;
  same_ignoring_case = str_eq;
}

pub ascii-IsText : IsText ascii
ascii-IsText = record {
  trimmed_idem = λ s. refl;
  to_lower_idem = λ s. refl;
  trimmed-to_lower = λ s. refl;
  same_refl = λ s. (str_eq_iff s s).1 refl;
  trimmed_llm = refl;
  trimmed_track = refl;
}
