-- ===== src/Common/Text.antt =====
-- What the program asks of `QString` beyond equality: these functions belong to Qt. `IsText` names
-- the documented facts that proofs use; an instance is in `Common.Ascii`.
use mathlib.Core.Path.{◌≡◌}
use mathlib.Core.Bool.{Bool, true}
use Prim.Native.String.{String}

-- `trimmed()`, `toLower()`, `contains(part)` and `compare(other, Qt::CaseInsensitive) == 0`.
pub record Text : Type 0 where
  pub trimmed : String → String
  pub to_lower : String → String
  pub contains : String → String → Bool
  pub same_ignoring_case : String → String → Bool

pub record IsText (t : Text) : Type 0 where
  pub trimmed_idem : (s : String) → t.trimmed (t.trimmed s) ≡ t.trimmed s
  pub to_lower_idem : (s : String) → t.to_lower (t.to_lower s) ≡ t.to_lower s
  pub trimmed-to_lower : (s : String) → t.trimmed (t.to_lower s) ≡ t.to_lower (t.trimmed s)
  pub same_refl : (s : String) → t.same_ignoring_case s s ≡ true
  pub trimmed_llm : t.trimmed "llm" ≡ "llm"
  pub trimmed_track : t.trimmed "track" ≡ "track"
