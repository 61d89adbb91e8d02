-- ===== src/Usage/Saved.antt =====
-- `saveUsageData` of internal/web/sniffer.go among additions, one save at a time.
use mathlib.Core.List.{Permᴰ}
use backhaul_plus.Prelude.{
  Bool, true, false, two_64, ℕ, ◌+◌, ◌%◌, ◌≡◌, List, [], ◌∷◌, if◌then◌else◌, ◌==◌,
}
use backhaul_plus.Usage.{
  PortUsage, UsageMap, Usage, LogFile, missing, holds, not_opened, cut_off, whole, Saving, opened,
  collected, Sniffer, Event, adds, opens, save_at, step,
}
use backhaul_plus.Usage.Totals.{usage_at, IsDistinct}

-- The entries of a file that can be saved to.
pub data Readable : LogFile → List PortUsage → Type 0 where
  absent : Readable missing []
  present : (es : List PortUsage) → IsDistinct es → Readable (holds es) es

-- What stands in the file, or in the one save that is under way.
pub data Saved : LogFile → List Saving → List PortUsage → Type 0 where
  idle : {file : LogFile} {es : List PortUsage} → Readable file es → Saved file [] es
  reading :
      {file : LogFile} {es : List PortUsage} → Readable file es → Saved file (opened es ∷ []) es
  writing :
      {file : LogFile} {es : List PortUsage} → IsDistinct es → Saved file (collected es ∷ []) es

-- The traffic of a port, there and in the store.
abbrev pub counted_at : ℕ → List PortUsage → Usage → ℕ
counted_at p es m = usage_at p es + usage_at p m.data_store

abbrev pub added_at : ℕ → List Event → ℕ
added_at p [] = 0
added_at p (adds q u ∷ es) = (if q == p then u else 0) + added_at p es
added_at p (opens ∷ es) = added_at p es
added_at p (save_at i written ∷ es) = added_at p es

-- A save starts only when none is under way, and a file that is written is written whole.
abbrev pub is_orderly : Event → List Saving → Bool
is_orderly (adds q u) saving = true
is_orderly opens [] = true
is_orderly opens (x ∷ saving) = false
is_orderly (save_at i whole) saving = true
is_orderly (save_at i not_opened) saving = false
is_orderly (save_at i cut_off) saving = false

-- What a step keeps of what is counted, up to what it adds.
record Kept (added : ℕ → ℕ) (es : List PortUsage) (m : Usage) (s' : Sniffer) : Type 0 where
  entries : List PortUsage
  saved : Saved s'.file s'.saving entries
  counted :
      (p : ℕ) → counted_at p entries s'.usage % two_64 ≡ (counted_at p es m + added p) % two_64

module _ (shuffle : UsageMap → List PortUsage) where
  abbrev pub AllOrderly : List Event → Sniffer → Type 0
  AllOrderly [] s = Unit
  AllOrderly (e ∷ es) s = (is_orderly e s.saving ≡ true) × AllOrderly es (step shuffle e s)
