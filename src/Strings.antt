-- ===== src/Strings.antt =====
-- What the program uses of Go's `strings` and `bytes`. A Go string is its list of bytes.
-- White space and letters are those of ASCII.
pub mod Search
use backhaul_plus.Prelude.{
  ℕ, suc, ◌+◌, ◌-◌, Bool, true, false, ◌&&◌, ◌||◌, List, [], ◌∷◌, map, Option, none, some, leb,
  ◌==◌, if◌then◌else◌, length, take, drop,
}
use Prim.Native.Char.{code}
use Prim.Native.String.{String}

abbrev pub Bytes : Type 0
Bytes = List ℕ

-- The bytes of an ASCII literal.
abbrev pub codes : String → Bytes
codes String.[] = []
codes (String.◌∷◌ c s) = code c ∷ codes s

-- `==` on strings, `bytes.Equal`.
unfoldable pub equal : Bytes → Bytes → Bool
equal [] [] = true
equal (x ∷ xs) (y ∷ ys) = x == y && equal xs ys
equal _ _ = false

-- `\t \n \v \f \r` and the space.
unfoldable pub is_space : ℕ → Bool
is_space c = (leb 9 c && leb c 13) || c == 32

unfoldable pub lower : ℕ → ℕ
lower c = if leb b'A' c && leb c b'Z' then c + 32 else c

-- `strings.ToLower`
unfoldable pub to_lower : Bytes → Bytes
unfolding lower
to_lower = map lower

unfoldable pub trim_left : Bytes → Bytes
unfolding is_space
trim_left [] = []
trim_left (c ∷ s) = if is_space c then trim_left s else c ∷ s

-- `c` stays if it is no space or something stays behind it.
abbrev pub keep : ℕ → Bytes → Bytes
unfolding is_space
keep c [] = if is_space c then [] else c ∷ []
keep c (e ∷ t) = c ∷ e ∷ t

-- A trailing run of white space goes.
unfoldable pub trim_right : Bytes → Bytes
unfolding is_space
trim_right [] = []
trim_right (c ∷ s) = keep c (trim_right s)

-- `strings.TrimSpace`, `bytes.TrimSpace`
unfoldable pub trim_space : Bytes → Bytes
unfolding trim_left trim_right
trim_space s = trim_left (trim_right s)

unfoldable pub has_prefix : Bytes → Bytes → Bool
has_prefix s [] = true
has_prefix [] (p ∷ ps) = false
has_prefix (c ∷ s) (p ∷ ps) = c == p && has_prefix s ps

unfoldable pub has_suffix : Bytes → Bytes → Bool
unfolding equal
has_suffix s suffix =
    leb (length suffix) (length s) && equal (drop (length s - length suffix) s) suffix

unfoldable pub trim_suffix : Bytes → Bytes → Bytes
unfolding has_suffix
trim_suffix s suffix = if has_suffix s suffix then take (length s - length suffix) s else s

-- An index in the tail, as one in the whole.
abbrev pub later : Option ℕ → Option ℕ
later none = none
later (some i) = some (suc i)

abbrev pub or_first : Bool → Option ℕ → Option ℕ
or_first here none = if here then some 0 else none
or_first here (some i) = some (suc i)

-- `bytes.IndexByte`; -1 is `none`.
unfoldable pub index_byte : Bytes → ℕ → Option ℕ
index_byte [] c = none
index_byte (x ∷ xs) c = if x == c then some 0 else later (index_byte xs c)

-- `bytes.Index`
unfoldable pub index : Bytes → Bytes → Option ℕ
unfolding has_prefix
index [] sep = if has_prefix [] sep then some 0 else none
index (x ∷ xs) sep = if has_prefix (x ∷ xs) sep then some 0 else later (index xs sep)

-- `strings.LastIndex` of one byte.
unfoldable pub last_index_byte : Bytes → ℕ → Option ℕ
last_index_byte [] c = none
last_index_byte (x ∷ xs) c = or_first (x == c) (last_index_byte xs c)

unfoldable pub contains : Bytes → ℕ → Bool
contains [] c = false
contains (x ∷ xs) c = x == c || contains xs c

abbrev pub push : ℕ → List Bytes → List Bytes
push x [] = (x ∷ []) ∷ []
push x (p ∷ ps) = (x ∷ p) ∷ ps

-- `strings.Split` at one byte.
unfoldable pub split : Bytes → ℕ → List Bytes
split [] c = [] ∷ []
split (x ∷ xs) c = let rest = split xs c in if x == c then [] ∷ rest else push x rest

-- `bytes.EqualFold`, on ASCII.
unfoldable pub equal_fold : Bytes → Bytes → Bool
unfolding equal to_lower
equal_fold a b = equal (to_lower a) (to_lower b)
