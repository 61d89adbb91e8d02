-- ===== src/Stream.antt =====
-- A network connection as its reader sees it (net.Conn): the segments that are still to arrive, and
-- the error that every later read reports, an end of file or an expired deadline among them.
pub mod Read
pub mod ReadFull
pub mod Partial
use backhaul_plus.Prelude.{
  ℕ, ◌-◌, Bool, true, false, not, ◌||◌, List, [], ◌∷◌, ◌++◌, Option, none, some, ltb, leb, ◌==◌,
  if◌then◌else◌, length, take, drop,
}
use backhaul_plus.Result.{Result, ok, err, panic, stuck}
use backhaul_plus.Strings.{Bytes}

pub data IoError : Type 0 where
  eof unexpected_eof timed_out connection_reset : IoError

pub record Conn : Type 0 where
  pub segments : List Bytes
  pub final : IoError
  -- The error of `SetReadDeadline`, if it fails.
  pub deadline_error : Option IoError
  -- In nanoseconds from the call; `none` is Go's zero time, no deadline.
  pub read_deadline : Option ℕ
  pub closed : Bool
  -- What was written so far, and the error of `Write`, if it fails.
  pub written : Bytes
  pub write_error : Option IoError

-- All that the peer still sends.
abbrev pub stream_of : List Bytes → Bytes
stream_of [] = []
stream_of (seg ∷ rest) = seg ++ stream_of rest

abbrev pub stream : Conn → Bytes
stream c = stream_of c.segments

-- `c.Read(buf)` for a buffer of `size` bytes: it returns at most one segment, and holds back what
-- does not fit.
pub read_segments : ℕ → IoError → List Bytes → Bytes × Option IoError × List Bytes
read_segments size final [] = ([], some final, [])
read_segments size final (seg ∷ rest) =
    if ltb size (length seg) then (take size seg, none, drop size seg ∷ rest) else (seg, none, rest)

unfoldable pub read : ℕ → Conn → Bytes × Option IoError × Conn
unfolding read_segments
read size c =
    let (bytes, e, rest) = read_segments size c.final c.segments in
    (bytes, e, record c { segments = rest })

-- `io.ReadFull`: whole segments as long as they fit, then the front of one. An end of file inside
-- the block is `unexpected_eof`; `got` says that some byte was read before.
abbrev pub partial : Bool → IoError → IoError
partial got eof = if got then unexpected_eof else eof
partial got unexpected_eof = unexpected_eof
partial got timed_out = timed_out
partial got connection_reset = connection_reset

abbrev pub put_back : Bytes → Result IoError Bytes × List Bytes → Result IoError Bytes × List Bytes
put_back seg (ok bytes, rest) = (ok (seg ++ bytes), rest)
put_back seg (err e, rest) = (err e, rest)
put_back seg (panic, rest) = (panic, rest)
put_back seg (stuck, rest) = (stuck, rest)

unfoldable pub read_full_segments :
    ℕ → Bool → IoError → List Bytes → Result IoError Bytes × List Bytes
read_full_segments n got final [] = (if n == 0 then ok [] else err (partial got final), [])
read_full_segments n got final (seg ∷ rest) =
    let whole =
      put_back seg
        (read_full_segments (n - length seg) (got || not (length seg == 0)) final rest) in
    if n == 0
    then (ok [], seg ∷ rest)
    else if leb (length seg) n
    then whole
    else (ok (take n seg), drop n seg ∷ rest)

unfoldable pub read_full : ℕ → Conn → Result IoError Bytes × Conn
unfolding read_full_segments
read_full n c =
    let (r, rest) = read_full_segments n false c.final c.segments in
    (r, record c { segments = rest })

-- `c.Write(buf)`: all of it, or an error.
unfoldable pub write : Bytes → Conn → Option IoError × Conn
write buf c = elim c.write_error [
  | none ↦ (none, record c { written = c.written ++ buf })
  | some e ↦ (some e, c)
]

abbrev pub close : Conn → Conn
close c = record c { closed = true }
