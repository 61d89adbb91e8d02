-- ===== src/TcpMux/Probe.antt =====
-- `tryPromoteExtraControlChannel` of tcpmux.go: no tunnel connection loses a byte to it, and no control
-- channel is opened without the token.
use backhaul_plus.Prelude.{
  ℕ, ◌≡◌, refl, sym, ap, ◌∙◌, true, false, ◌≤◌, inl, inr, [], ◌∷◌, ◌++◌, Option, none, some, arith,
  length, take, get_or, append_assoc, Bool-cases, Option-cases, ◌%◌, ltb,
}
use backhaul_plus.Prefixed.{unread, embedded, new_prefixed_conn}
use backhaul_plus.Prefixed.Replay.{unread-new_prefixed_conn}
use backhaul_plus.Result.{Result, ok, err, panic, stuck}
use backhaul_plus.Signals.{sg_chan}
use backhaul_plus.Stream.{IoError, Conn, stream, read_full, write}
use backhaul_plus.Stream.ReadFull.{read_full-inv, read_full-append}
use backhaul_plus.Stream.Partial.{take-read_full}
use backhaul_plus.Strings.{Bytes, equal}
use backhaul_plus.Strings.Search.{equal_iff, equal_refl}
use backhaul_plus.TcpMux.{
  probe_set, probe_timeout, Probed, tunnel, discarded, promoted, with_prefix, acknowledged, probe,
  probe_body, probe_header, no_token, without_deadline,
}
use backhaul_plus.Wire.{uint16, transport_frame, put_uint16}

-- What becomes of a connection on which `arriving` is to come and `said` was written.
abbrev pub IsHandled : Bytes → Bytes → Bytes → Probed → Type 0
IsHandled token arriving said (tunnel n) =
    (unread n ≡ arriving) × ((embedded n).closed ≡ false) × ((embedded n).written ≡ said)
IsHandled token arriving said (discarded d) = d.closed ≡ true
IsHandled token arriving said (promoted d) =
    (header : Bytes) × (arriving ≡ header ++ (token ++ stream d))
    × (length header ≡ 3)
    × (uint16 header ≡ length token)
    × (get_or header 2 0 ≡ sg_chan)
    × (d.written ≡ said ++ transport_frame token sg_chan)
    × (d.closed ≡ false)

embedded-new_prefixed_conn : (c : Conn) (prefix : Bytes) → embedded (new_prefixed_conn c prefix) ≡ c
unfolding new_prefixed_conn
embedded-new_prefixed_conn c [] = refl
embedded-new_prefixed_conn c (x ∷ xs) = ground arith

with_prefix-IsHandled :
    (token arriving said bytes : Bytes) (c : Conn)
    → bytes ++ stream c ≡ arriving
    → c.closed ≡ false
    → c.written ≡ said
    → IsHandled token arriving said (with_prefix bytes c)
with_prefix-IsHandled token arriving said bytes c s o w = (
  unread-new_prefixed_conn (without_deadline c) bytes ∙ s,
  ap (λ (d : Conn). d.closed) (embedded-new_prefixed_conn (without_deadline c) bytes) ∙ o,
  ap (λ (d : Conn). d.written) (embedded-new_prefixed_conn (without_deadline c) bytes) ∙ w,
)

-- The token that came is answered, or the connection is closed when the answer fails.
acknowledged-IsHandled :
    (token header arriving said : Bytes) (d : Conn)
    → arriving ≡ header ++ (token ++ stream d)
    → length header ≡ 3
    → uint16 header ≡ length token
    → get_or header 2 0 ≡ sg_chan
    → d.closed ≡ false
    → d.written ≡ said
    → IsHandled token arriving said
        (acknowledged (write (transport_frame token sg_chan) (without_deadline d)))
unfolding write
acknowledged-IsHandled token header arriving said d s l n t o w =
    elim (Option-cases d.write_error) [
      | inl works ↦
          rw works (header, s, l, n, t, ap (λ (b : Bytes). b ++ transport_frame token sg_chan) w, o)
      | inr (e, fails) ↦ rw fails refl
    ]

module _ (token arriving said : Bytes) where
  -- A connection that is handed back behind a read of `n` bytes.
  handed_back :
      (n : ℕ) (front : Bytes) (c d : Conn)
      → front ++ stream c ≡ arriving
      → (read_full n c).1 ≡ d
      → d.closed ≡ false
      → d.written ≡ said
      → IsHandled token arriving said (with_prefix (front ++ take n (stream c)) d)
  handed_back n front c d s e o w =
      with_prefix-IsHandled token arriving said _ d
        (append_assoc front (take n (stream c)) (stream d)
          ∙ ap (λ (t : Conn). front ++ (take n (stream c) ++ stream t)) (sym e)
          ∙ ap (λ (t : Bytes). front ++ t) (take-read_full n c)
          ∙ s)
        o w

  probe_body-IsHandled :
      (header : Bytes) (c : Conn) (p : Result IoError Bytes × Conn)
      → header ++ stream c ≡ arriving
      → length header ≡ 3
      → no_token header ≡ false
      → read_full (uint16 header) c ≡ p
      → p.1.closed ≡ false
      → p.1.written ≡ said
      → IsHandled token arriving said (probe_body token header (take (uint16 header) (stream c)) p)
  unfolding probe_body no_token
  probe_body-IsHandled header c (ok body, d) s l h e o w =
      let (n, joined) =
        read_full-inv (uint16 header) c (ap (λ (p : Result IoError Bytes × Conn). p.0) e) in
      let left : body ++ stream d ≡ stream c =
        ap (λ (p : Result IoError Bytes × Conn). body ++ stream p.1) (sym e) ∙ joined in
      elim (Bool-cases (equal body token)) [
        | inl same ↦
            let t : body ≡ token = (equal_iff body token).0 same in
            rw same (
              acknowledged-IsHandled token header arriving said d
                (sym s
                  ∙ ap (λ (b : Bytes). header ++ b) (sym left)
                  ∙ ap (λ (b : Bytes). header ++ (b ++ stream d)) t)
                l (sym n ∙ ap length t) (ground arith) o w)
        | inr other ↦ rw other refl
      ]
  probe_body-IsHandled header c (err x, d) s l h e o w =
      handed_back (uint16 header) header c d s (ap (λ (p : Result IoError Bytes × Conn). p.1) e) o w
  probe_body-IsHandled header c (panic, d) s l h e o w =
      handed_back (uint16 header) header c d s (ap (λ (p : Result IoError Bytes × Conn). p.1) e) o w
  probe_body-IsHandled header c (stuck, d) s l h e o w =
      handed_back (uint16 header) header c d s (ap (λ (p : Result IoError Bytes × Conn). p.1) e) o w

  probe_header-IsHandled :
      (c : Conn) (p : Result IoError Bytes × Conn)
      → stream c ≡ arriving
      → read_full 3 c ≡ p
      → p.1.closed ≡ false
      → p.1.written ≡ said
      → IsHandled token arriving said (probe_header token (take 3 (stream c)) p)
  unfolding probe_header read_full
  probe_header-IsHandled c (ok header, d) s e o w =
      let (n, joined) = read_full-inv 3 c (ap (λ (p : Result IoError Bytes × Conn). p.0) e) in
      let left : header ++ stream d ≡ arriving =
        ap (λ (p : Result IoError Bytes × Conn). header ++ stream p.1) (sym e) ∙ joined ∙ s in
      elim (Bool-cases (no_token header)) [
        | inl bad ↦ rw bad (with_prefix-IsHandled token arriving said header d left o w)
        | inr good ↦
            rw good
              (probe_body-IsHandled header d (read_full (uint16 header) d) left n good refl o w)
      ]
  probe_header-IsHandled c (err x, d) s e o w =
      handed_back 3 [] c d s (ap (λ (p : Result IoError Bytes × Conn). p.1) e) o w
  probe_header-IsHandled c (panic, d) s e o w =
      handed_back 3 [] c d s (ap (λ (p : Result IoError Bytes × Conn). p.1) e) o w
  probe_header-IsHandled c (stuck, d) s e o w =
      handed_back 3 [] c d s (ap (λ (p : Result IoError Bytes × Conn). p.1) e) o w

probe_set-IsHandled :
    (token : Bytes) (c : Conn) (set : Option IoError)
    → c.closed ≡ false
    → IsHandled token (stream c) c.written (probe_set token c set)
unfolding probe_set read_full
probe_set-IsHandled token c none o =
    probe_header-IsHandled token (stream c) c.written
      (record c { read_deadline = some probe_timeout }) _ refl refl o refl
probe_set-IsHandled token c (some e) o = (refl, o, refl)

-- An open connection of another address is handed back open and unanswered, with every byte that was to
-- come; or it is closed; or its first bytes were a header of three bytes with `SG_Chan` and the length of
-- the token, and the token, which was answered with a frame of the same.
pub probe-IsHandled :
    (token : Bytes) (c : Conn)
    → c.closed ≡ false
    → IsHandled token (stream c) c.written (probe token c)
unfolding probe
probe-IsHandled token c o = probe_set-IsHandled token c c.deadline_error o

with_first : {r : Result IoError Bytes} (p : Result IoError Bytes × Conn) → p.0 ≡ r → p ≡ (r, p.1)
with_first p h = λ i. (h i, p.1)

module _ (token : Bytes) where
  abbrev token_header : Bytes
  token_header = put_uint16 (length token % 65536) ++ (sg_chan ∷ [])

  probe_body-token :
      (got : Bytes) (p : Result IoError Bytes × Conn)
      → p.0 ≡ ok token
      → p.1.write_error ≡ none
      → probe_body token token_header got p
        ≡ promoted (record (without_deadline p.1) {
          written = p.1.written ++ transport_frame token sg_chan;
        })
  unfolding probe_body write
  probe_body-token got p h w = rw (with_first p h, equal_refl token, w) refl

  probe_header-token :
      (got : Bytes) (p : Result IoError Bytes × Conn)
      → 1 ≤ length token
      → length token ≤ 512
      → p.0 ≡ ok token_header
      → probe_header token got p
        ≡ probe_body token token_header
            (take (length token) (stream p.1))
            (read_full (length token) p.1)
  unfolding probe_header no_token
  probe_header-token got p l u h =
      let n : uint16 token_header ≡ length token = omega arith in
      let some_byte : ltb (length token) 1 ≡ false = ground arith in
      let not_long : ltb 512 (length token) ≡ false = ground arith in
      rw (with_first p h, n, some_byte, not_long) refl

-- A client that sends the token of the server, of 1 to 512 bytes, as it opens a control channel, is kept
-- as one, and is answered with the same frame; what it sent behind the token is left to read.
pub probe-promoted :
    (token rest : Bytes) (c : Conn)
    → c.deadline_error ≡ none
    → c.write_error ≡ none
    → 1 ≤ length token
    → length token ≤ 512
    → stream c ≡ transport_frame token sg_chan ++ rest
    → (d : Conn) × (probe token c ≡ promoted d)
      × (stream d ≡ rest)
      × (d.written ≡ c.written ++ transport_frame token sg_chan)
unfolding probe probe_set read_full transport_frame
probe-promoted token rest c set works l h s =
    let c1 : Conn = record c { read_deadline = some probe_timeout } in
    let (a, left) = read_full-append 3 c1 (token_header token) (token ++ rest) s refl in
    let (b, left') = read_full-append (length token) (read_full 3 c1).1 token rest left refl in
    (
      _,
      ap (probe_set token c) set
          ∙ probe_header-token token (take 3 (stream c1)) (read_full 3 c1) l h a
          ∙ probe_body-token token _ (read_full (length token) (read_full 3 c1).1) b works,
      left',
      refl,
    )
