-- ===== src/Sni/Inspect/Replay.antt =====
-- `ReadTLSClientHelloSNI`: the ends of its loops, and the bytes that it takes.
use backhaul_plus.Prelude.{
  ℕ, zero, suc, ◌+◌, ◌-◌, ◌≤◌, ◌<◌, ◌≡◌, refl, ap, ◌∙◌, inl, inr, true, false, not, ◌++◌, none,
  some, ℤ, arith, ltb, ◌==◌, length, get_or, drop, length-append, append_assoc, Bool-cases, Option,
  ltb→lt,
}
use backhaul_plus.Result.{Result, ok, err, panic, stuck, IsSafe}
use backhaul_plus.Stream.{Conn, stream}
use backhaul_plus.Stream.ReadFull.{read_full-inv, read_full-cases}
use backhaul_plus.Strings.{Bytes}
use backhaul_plus.Wire.{uint16}
use backhaul_plus.Sni.Parse.{SniError, parse_sni_from_client_hello}
use backhaul_plus.Sni.Safety.{at-ok, slice-ok, parse_sni_from_client_hello-IsSafe}
use backhaul_plus.Sni.Inspect.{
  Inspection, resume, read_block, read_record, read_until, host_of_message, read_client_hello,
  start, read_tls_client_hello_sni, uint24, append_record, inspected, IoError, with_deadline,
}
use backhaul_plus.Sni.Inspect.Outcome.{
  IsBounded, Ends, Ends-resume, Ends-refuse, Ends-lift, Ends-IsSafe,
}

abbrev Block : ℕ → Inspection → Bytes → Inspection → Type 0
Block n s out s' =
    (length out ≡ n)
    × (out ++ stream s'.conn ≡ stream s.conn)
    × (s'.raw ≡ s.raw)
    × (s'.handshake ≡ s.handshake)

read_block-Ends : (n : ℕ) (s : Inspection) → IsBounded s → Ends (Block n s) (read_block n s)
unfolding read_block
read_block-Ends n s b = elim (read_full-cases n s.conn) [
  | inl (out, e) ↦ let (l, j) = read_full-inv n s.conn e in rw e (l, j, refl, refl)
  | inr (x, e) ↦ rw e b
]

-- What was read, in front of what the connection still brings, is all that the peer sent.
pub record Inv (sent : Bytes) (s : Inspection) : Type 0 where
  pub replays : s.raw ++ stream s.conn ≡ sent
  pub bounded : IsBounded s

abbrev Grows : Bytes → Inspection → Unit {0} → Inspection → Type 0
Grows sent s _ s' = Inv sent s' × (length s.handshake < length s'.handshake)

appended-Grows :
    (sent header body : Bytes) (n : ℕ) (s s₁ s₂ : Inspection)
    → Inv sent s
    → Block 5 s header s₁
    → Block n s₁ body s₂
    → (n == 0) ≡ false
    → ltb 65536 (length s₁.raw + 5 + n) ≡ false
    → Grows sent s tt (append_record header body s₂).1
appended-Grows sent header body n s s₁ s₂ i b c nonempty fits = (
  record {
    replays =
        append_assoc (s₂.raw ++ header) body (stream s₂.conn)
        ∙ ap (λ (t : Bytes). (s₂.raw ++ header) ++ t) c.1
        ∙ append_assoc s₂.raw header (stream s₁.conn)
        ∙ ap (λ (t : Bytes). s₂.raw ++ t) b.1
        ∙ ap (λ (t : Bytes). t ++ stream s.conn) (c.2 ∙ b.2)
        ∙ i.replays;
    bounded = omega (
      arith,
      ltb_false _ _ fits,
      length-append (s₂.raw ++ header) body,
      length-append s₂.raw header,
      ap length c.2,
      c.0,
      b.0,
    );
  },
  omega (arith, positive, length-append s₂.handshake body, ap length (c.3 ∙ b.3), c.0),
)
  where
    positive : 0 < n
    positive = ground arith

    ltb_false : (x y : ℕ) → ltb x y ≡ false → y ≤ x
    ltb_false x y h = ground arith

-- A record that was read is kept for the replay, and its body makes the message longer.
read_record-Ends :
    (sent : Bytes) (s : Inspection) → Inv sent s → Ends (Grows sent s) (read_record s)
unfolding read_record
read_record-Ends sent s i =
    Ends-resume (Block 5 s) (Grows sent s) (read_block 5 s) _ (read_block-Ends 5 s i.bounded)
      λ header s₁ b.
        let n = uint16 (drop 3 header) in
        let bounded₁ : IsBounded s₁ = omega (arith, i.bounded, ap length b.2) in
        Ends-refuse (Grows sent s) (not (get_or header 0 0 == 0x16)) _ s₁ _ bounded₁ λ _.
          Ends-refuse (Grows sent s) (n == 0) _ s₁ _ bounded₁ λ nonempty.
            Ends-refuse (Grows sent s) (ltb 65536 (length s₁.raw + 5 + n)) _ s₁ _ bounded₁ λ fits.
              Ends-resume (Block n s₁) (Grows sent s) (read_block n s₁) (append_record header)
                (read_block-Ends n s₁ bounded₁)
                λ body s₂ c. appended-Grows sent header body n s s₁ s₂ i b c nonempty fits

abbrev Reaches : Bytes → ℕ → Unit {0} → Inspection → Type 0
Reaches sent n _ s' = Inv sent s' × (n ≤ length s'.handshake)

read_until-more :
    (fuel n : ℕ) (s : Inspection)
    → ltb (length s.handshake) n ≡ true
    → read_until (suc fuel) n s
      ≡ resume (read_record s).0 (λ _. read_until fuel n) (read_record s).1
unfolding read_until
read_until-more fuel n s e = rw (e, read_until)

read_until-done :
    (fuel n : ℕ) (s : Inspection)
    → ltb (length s.handshake) n ≡ false
    → read_until (suc fuel) n s ≡ (ok tt, s)
unfolding read_until
read_until-done fuel n s e = rw (e, read_until)

-- The loop ends with a long enough message, or with an error of a read.
read_until-Ends :
    (sent : Bytes) (fuel n : ℕ) (s : Inspection)
    → Inv sent s
    → n - length s.handshake < fuel
    → Ends (Reaches sent n) (read_until fuel n s)
read_until-Ends sent zero n s i f = absurd (omega arith)
read_until-Ends sent (suc fuel) n s i f = elim (Bool-cases (ltb (length s.handshake) n)) [
  | inl short ↦ rw (read_until-more fuel n s short) (
      Ends-resume (Grows sent s) (Reaches sent n) (read_record s) (λ _. read_until fuel n)
        (read_record-Ends sent s i)
        λ _ s' g. read_until-Ends sent fuel n s' g.0 (omega (arith, g.1, ltb→lt _ _ short)))
  | inr done ↦ rw (read_until-done fuel n s done) (i, ground arith)
]

abbrev Keeps : Bytes → {A : Type 0} → A → Inspection → Type 0
Keeps sent _ s' = Inv sent s'

host_of_message-Ends :
    (sent : Bytes) (hs_len : ℕ) (s : Inspection)
    → Inv sent s
    → 4 + hs_len ≤ length s.handshake
    → Ends (Keeps sent {A = Bytes}) (host_of_message hs_len s)
unfolding host_of_message
host_of_message-Ends sent hs_len s i h =
    let (hello, e) = slice-ok s.handshake 4 (4 + hs_len) (omega arith) h in
    rw e (
      Ends-lift (Keeps sent) (parse_sni_from_client_hello hello) _ s i.bounded
        (parse_sni_from_client_hello-IsSafe hello) (λ host _. i))

read_client_hello-Ends :
    (sent : Bytes) (s : Inspection)
    → Inv sent s
    → Ends (Keeps sent {A = Bytes}) (read_client_hello s)
unfolding read_client_hello
read_client_hello-Ends sent s i =
    Ends-resume (Grows sent s) (Keeps sent) (read_record s) _ (read_record-Ends sent s i) λ _ s₁ g.
      Ends-resume (Reaches sent 4) (Keeps sent) (read_until 5 4 s₁) _
        (read_until-Ends sent 5 4 s₁ g.0 (omega arith))
        λ _ s₂ (i₂, l).
          let (t, e) = at-ok s₂.handshake 0 (omega arith) in
          rw e (
            Ends-refuse (Keeps sent) (not (t == 0x01)) _ s₂ _ i₂.bounded λ _.
              Ends-refuse (Keeps sent) (ltb 65536 (uint24 s₂.handshake)) _ s₂ _ i₂.bounded λ _.
                Ends-resume (Reaches sent (4 + uint24 s₂.handshake)) (Keeps sent)
                  (read_until (suc (4 + uint24 s₂.handshake)) (4 + uint24 s₂.handshake) s₂) _
                  (read_until-Ends sent _ (4 + uint24 s₂.handshake) s₂ i₂ (omega arith))
                  λ _ s₃ (i₃, l₃). host_of_message-Ends sent (uint24 s₂.handshake) s₃ i₃ l₃)

start-Ends :
    (c : Conn) (timeout : ℤ)
    → Ends (Keeps (stream c) {A = Bytes}) (read_client_hello (start c timeout))
start-Ends c timeout =
    read_client_hello-Ends (stream c) (start c timeout)
      (record { replays = refl; bounded = omega arith })

-- What the ends say of the function's results.
Ends-replays :
    (sent : Bytes) (p : Result SniError Bytes × Inspection) {host : Bytes}
    → Ends (Keeps sent {A = Bytes}) p
    → p.0 ≡ ok host
    → (inspected p).1 ++ stream (inspected p).2 ≡ sent
Ends-replays sent (ok a, s) h e = h.replays
Ends-replays sent (err x, s) h e = cc
Ends-replays sent (panic, s) h e = cc
Ends-replays sent (stuck, s) h e = cc

Ends-bounded :
    (sent : Bytes) (p : Result SniError Bytes × Inspection)
    → Ends (Keeps sent {A = Bytes}) p
    → length (inspected p).1 ≤ 65536
Ends-bounded sent (ok a, s) h = h.bounded
Ends-bounded sent (err x, s) h = h
Ends-bounded sent (panic, s) h = elim h [ ]
Ends-bounded sent (stuck, s) h = elim h [ ]

module _ (c : Conn) (timeout : ℤ) where
  -- On every connection the reader ends with a host name or an error: it neither indexes out of
  -- bounds nor loops on.
  pub read_tls_client_hello_sni-IsSafe : IsSafe (read_tls_client_hello_sni c timeout).0
  unfolding read_tls_client_hello_sni
  read_tls_client_hello_sni-IsSafe = go c.deadline_error
    where
      go : (o : Option IoError) → IsSafe (with_deadline o c timeout).0
      go none = Ends-IsSafe (Keeps (stream c)) _ (start-Ends c timeout)
      go (some e) = tt

  -- A host name comes with every byte that was taken from the connection: with what the connection
  -- still brings behind them, they are the stream of the client, unchanged.
  pub read_tls_client_hello_sni-replays :
      {host : Bytes}
      → (read_tls_client_hello_sni c timeout).0 ≡ ok host
      → (read_tls_client_hello_sni c timeout).1 ++ stream (read_tls_client_hello_sni c timeout).2
        ≡ stream c
  unfolding read_tls_client_hello_sni
  read_tls_client_hello_sni-replays {host} h = go c.deadline_error h
    where
      go :
          (o : Option IoError)
          → (with_deadline o c timeout).0 ≡ ok host
          → (with_deadline o c timeout).1 ++ stream (with_deadline o c timeout).2 ≡ stream c
      go none h =
          Ends-replays (stream c) (read_client_hello (start c timeout)) (start-Ends c timeout) h
      go (some e) h = cc

  -- Whatever the peer sends, at most 64 KiB are held back.
  pub read_tls_client_hello_sni-bounded : length (read_tls_client_hello_sni c timeout).1 ≤ 65536
  unfolding read_tls_client_hello_sni
  read_tls_client_hello_sni-bounded = go c.deadline_error
    where
      go : (o : Option IoError) → length (with_deadline o c timeout).1 ≤ 65536
      go none = Ends-bounded (stream c) (read_client_hello (start c timeout)) (start-Ends c timeout)
      go (some e) = omega arith
