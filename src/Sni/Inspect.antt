-- ===== src/Sni/Inspect.antt =====
-- `ReadTLSClientHelloSNI`: reading TLS records until the ClientHello is complete.
pub mod Outcome
pub mod Replay
use backhaul_plus.Prelude.{
  ℕ, zero, suc, ◌+◌, ◌*◌, Bool, true, false, not, [], ◌++◌, none, some, Option, ℤ, pos, negsuc, ltb,
  leb, leb_ℤ, ◌==◌, if◌then◌else◌, length, get_or, drop,
}
use backhaul_plus.Result.{Result, ok, err, panic, stuck}
use backhaul_plus.Stream.{IoError, Conn, read_full}
use backhaul_plus.Strings.{Bytes}
use backhaul_plus.Wire.{uint16}
use backhaul_plus.Sni.Parse.{
  SniError, not_handshake, empty_record, exceeds_maximum, not_client_hello, too_large, io, at,
  slice, parse_sni_from_client_hello, normalize_sni_host,
}

-- The variables that `readRecord` closes over: the connection, every byte of the records read, and
-- the handshake message put together from their bodies.
pub record Inspection : Type 0 where
  pub conn : Conn
  pub raw : Bytes
  pub handshake : Bytes

abbrev pub M : Type 0 → Type 0
M A = Inspection → Result SniError A × Inspection

abbrev pub resume : {A B : Type 0} → Result SniError A → (A → M B) → M B
resume (ok a) f s = f a s
resume (err e) f s = (err e, s)
resume panic f s = (panic, s)
resume stuck f s = (stuck, s)

infixl 5 ◌>>=◌ ◌>>◌
abbrev pub ◌>>=◌ : {A B : Type 0} → M A → (A → M B) → M B
◌>>=◌ m f s = resume (m s).0 f (m s).1

abbrev pub ◌>>◌ : {B : Type 0} → M (Unit {0}) → M B → M B
◌>>◌ m k = m >>= λ _. k

abbrev pub lift : {A : Type 0} → Result SniError A → M A
lift r s = (r, s)

abbrev pub refuse : Bool → SniError → M (Unit {0})
refuse true e s = (err e, s)
refuse false e s = (ok tt, s)

abbrev pub gets : {A : Type 0} → (Inspection → A) → M A
gets f s = (ok (f s), s)

abbrev io_result : Result IoError Bytes → Result SniError Bytes
io_result (ok b) = ok b
io_result (err e) = err (io e)
io_result panic = panic
io_result stuck = stuck

-- `io.ReadFull(conn, buf)` for a buffer of `n` bytes.
unfoldable pub read_block : ℕ → M Bytes
read_block n s = (io_result (read_full n s.conn).0, record s { conn = (read_full n s.conn).1 })

abbrev pub max_client_hello_size : ℕ
max_client_hello_size = 65536

abbrev pub append_record : Bytes → Bytes → M (Unit {0})
append_record header body s =
    (ok tt, record s { raw = (s.raw ++ header) ++ body; handshake = s.handshake ++ body })

-- The header is the five bytes that `io.ReadFull` filled.
unfoldable pub read_record : M (Unit {0})
read_record = do
  header ← read_block 5
  refuse (not (get_or header 0 0 == 0x16)) not_handshake
  let rec_len = uint16 (drop 3 header)
  refuse (rec_len == 0) empty_record
  raw ← gets (λ s. s.raw)
  refuse (ltb max_client_hello_size (length raw + 5 + rec_len)) exceeds_maximum
  body ← read_block rec_len
  append_record header body

-- `for len(handshake) < n { readRecord() }`; each record brings a byte at least.
unfoldable pub read_until : ℕ → ℕ → M (Unit {0})
read_until zero n s = (stuck, s)
read_until (suc fuel) n s = elim (ltb (length s.handshake) n) [
  | true ↦ resume (read_record s).0 (λ _. read_until fuel n) (read_record s).1
  | false ↦ (ok tt, s)
]

-- `int(h[1])<<16 | int(h[2])<<8 | int(h[3])`
abbrev pub uint24 : Bytes → ℕ
uint24 h = get_or h 1 0 * 65536 + get_or h 2 0 * 256 + get_or h 3 0

-- From the complete message on.
unfoldable pub host_of_message : ℕ → M Bytes
host_of_message hs_len = do
  handshake ← gets (λ s. s.handshake)
  hello ← lift (slice handshake 4 (4 + hs_len))
  host ← lift (parse_sni_from_client_hello hello)
  lift (ok (normalize_sni_host host))

unfoldable pub read_client_hello : M Bytes
read_client_hello = do
  read_record
  read_until 5 4
  handshake ← gets (λ s. s.handshake)
  message_type ← lift (at handshake 0)
  refuse (not (message_type == 0x01)) not_client_hello
  let hs_len = uint24 handshake
  refuse (ltb max_client_hello_size hs_len) too_large
  read_until (suc (4 + hs_len)) (4 + hs_len)
  host_of_message hs_len

abbrev pub second : ℕ
second = 1_000_000_000

abbrev pub effective_timeout : ℤ → ℕ
effective_timeout (pos zero) = second
effective_timeout (pos (suc n)) = suc n
effective_timeout (negsuc n) = second

abbrev pub start : Conn → ℤ → Inspection
start c timeout = record {
  conn = record c { read_deadline = some (effective_timeout timeout) };
  raw = [];
  handshake = [];
}

abbrev pub inspected : Result SniError Bytes × Inspection → Result SniError Bytes × Bytes × Conn
inspected (host, s) = (host, s.raw, record s.conn { read_deadline = none })

-- The deferred reset of the deadline runs on every way out but the first.
unfoldable pub with_deadline : Option IoError → Conn → ℤ → Result SniError Bytes × Bytes × Conn
with_deadline (some e) c timeout = (err (io e), [], c)
with_deadline none c timeout = inspected (read_client_hello (start c timeout))

unfoldable pub read_tls_client_hello_sni : Conn → ℤ → Result SniError Bytes × Bytes × Conn
unfolding with_deadline
read_tls_client_hello_sni c timeout = with_deadline c.deadline_error c timeout
