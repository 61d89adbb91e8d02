-- ===== src/Client/Started/Times.antt =====
-- The waits and timeouts that the defaults leave, in seconds and then in nanoseconds.
use backhaul_plus.Prelude.{◌≤ℤ◌, true, ◌≡◌, ℤ, pos, negsuc, ltb_ℤ, arith}
use backhaul_plus.Config.Defaults.{if_not_positive, if_below_one}
use backhaul_plus.Config.Runtime.{seconds}

-- The numbers of seconds whose nanoseconds an int64 holds.
abbrev pub longest : ℤ
longest = pos 9_223_372_036

pub if_not_positive-positive :
    (d v : ℤ) → ltb_ℤ (pos 0) d ≡ true → ltb_ℤ (pos 0) (if_not_positive d v) ≡ true
if_not_positive-positive d (pos n) h = ground arith
if_not_positive-positive d (negsuc n) h = ground arith

pub if_below_one-positive :
    (d v : ℤ) → ltb_ℤ (pos 0) d ≡ true → ltb_ℤ (pos 0) (if_below_one d v) ≡ true
if_below_one-positive d (pos n) h = ground arith
if_below_one-positive d (negsuc n) h = ground arith

pub seconds-positive :
    (v : ℤ) → ltb_ℤ (pos 0) v ≡ true → v ≤ℤ longest → ltb_ℤ (pos 999_999_999) (seconds v) ≡ true
seconds-positive (pos n) h l = ground arith
seconds-positive (negsuc n) h l = absurd (ground arith)

pub if_not_positive-longest : (v : ℤ) → v ≤ℤ longest → if_not_positive (pos 3) v ≤ℤ longest
if_not_positive-longest (pos n) h = ground arith
if_not_positive-longest (negsuc n) h = ground arith

pub if_below_one-longest : (v : ℤ) → v ≤ℤ longest → if_below_one (pos 10) v ≤ℤ longest
if_below_one-longest (pos n) h = ground arith
if_below_one-longest (negsuc n) h = ground arith
