-- ===== src/Net.antt =====
-- What the program uses of Go's `strconv` and `net`: `strconv.Atoi` and `net.SplitHostPort`.
use backhaul_plus.Prelude.{
  ℕ, ◌+◌, ◌-◌, ◌*◌, ◌/◌, ◌%◌, zero, suc, ltb, Bool, ◌&&◌, [], ◌∷◌, Option, none, some, ℤ, pos,
  neg_ℕ, leb, ◌==◌, if◌then◌else◌, length, get_or, take, drop,
}
use backhaul_plus.Strings.{Bytes, contains, index_byte, last_index_byte}

unfoldable pub is_digit : ℕ → Bool
is_digit c = leb b'0' c && leb c b'9'

-- The value of a run of digits, read from the left; `none` at any other byte.
unfoldable pub digits_value : ℕ → Bytes → Option ℕ
unfolding is_digit
digits_value acc [] = some acc
digits_value acc (c ∷ s) =
    let rest = digits_value (acc * 10 + (c - b'0')) s in if is_digit c then rest else none

-- An unsigned decimal of one digit at least.
unfoldable pub decimal : Bytes → Option ℕ
unfolding digits_value
decimal [] = none
decimal (c ∷ s) = digits_value 0 (c ∷ s)

abbrev pub max_int : ℕ
max_int = 9223372036854775807

abbrev pub non_negative : Option ℕ → Option ℤ
non_negative none = none
non_negative (some n) = if leb n max_int then some (pos n) else none

abbrev pub negative : Option ℕ → Option ℤ
negative none = none
negative (some n) = if leb n (max_int + 1) then some (neg_ℕ n) else none

-- `strconv.Atoi` on 64 bits: an optional sign, decimal digits, and no overflow. Its errors are all
-- `none`.
unfoldable pub atoi : Bytes → Option ℤ
unfolding decimal
atoi [] = none
atoi (c ∷ s) =
    if c == b'+'
    then non_negative (decimal s)
    else if c == b'-'
    then negative (decimal s)
    else non_negative (decimal (c ∷ s))

pub data AddrError : Type 0 where
  missing_port too_many_colons missing_bracket unexpected_open unexpected_close : AddrError

pub data HostPort : Type 0 where
  split_ok : Bytes → Bytes → HostPort
  split_err : AddrError → HostPort

-- The checks behind the host: no bracket may stand in the rest of the text.
abbrev finish : Bytes → Bytes → Bytes → Bytes → HostPort
finish host no_open no_close port =
    if contains no_open b'['
    then split_err unexpected_open
    else if contains no_close b']'
    then split_err unexpected_close
    else split_ok host port

-- A host in brackets; `i` is the place of the last colon.
abbrev bracketed : Bytes → ℕ → Option ℕ → HostPort
bracketed s i none = split_err missing_bracket
bracketed s i (some end) =
    if end + 1 == length s
    then split_err missing_port
    else if end + 1 == i
    then finish (take (end - 1) (drop 1 s)) (drop 1 s) (drop (end + 1) s) (drop (i + 1) s)
    else if get_or s (end + 1) 0 == b':'
    then split_err too_many_colons
    else split_err missing_port

abbrev behind_colon : Bytes → Option ℕ → HostPort
behind_colon s none = split_err missing_port
behind_colon s (some i) =
    if get_or s 0 0 == b'['
    then bracketed s i (index_byte s b']')
    else if contains (take i s) b':'
    then split_err too_many_colons
    else finish (take i s) s s (drop (i + 1) s)

-- `net.SplitHostPort`
unfoldable pub split_host_port : Bytes → HostPort
unfolding contains index_byte last_index_byte
split_host_port s = behind_colon s (last_index_byte s b':')

-- The decimal digits of a number, in front of `rest`; one unit of fuel for a digit.
unfoldable pub digits : ℕ → ℕ → Bytes → Bytes
digits zero n rest = rest
digits (suc fuel) n rest =
    let front = digits fuel (n / 10) ((b'0' + n % 10) ∷ rest) in
    if ltb n 10 then (b'0' + n) ∷ rest else front

-- `strconv.Itoa` of a number that is not negative; 20 digits write every 64-bit number.
unfoldable pub itoa : ℕ → Bytes
itoa n = digits 20 n []
