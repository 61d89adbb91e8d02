-- ===== src/Http/Preread/Replay.antt =====
-- `ReadHTTPHost`: the end of its loop, and the bytes that it takes.
use backhaul_plus.Prelude.{
  ℕ, zero, suc, ◌+◌, ◌≤◌, Bool, true, false, [], ◌∷◌, ◌++◌, Option, none, some, arith, length, take,
  append-nil, ◌≡◌, refl, append_assoc, ◌∙◌, ap, length-append,
}
use backhaul_plus.Result.{Result, ok, err, panic, stuck, IsSafe}
use backhaul_plus.Stream.{IoError, stream}
use backhaul_plus.Strings.{Bytes, index}
use backhaul_plus.Http.Host.{HttpError, crlf, http_header_terminator}
use backhaul_plus.Http.Safety.{
  validate_request_line_bytes-IsSafe, parse_http_host_from_header-IsSafe,
  reject_obvious_non_http_prefix-IsSafe,
}
use backhaul_plus.Http.Preread.{
  Round, go_on, finish, header_end, request_line, inspect, round, checked, stop, Conn,
  preread_chunk_size, fuel_for, after_round, preread_loop, ℤ, effective_max, cleared, with_deadline,
  read_http_host, prereading, suc, read,
}
use backhaul_plus.Stream.Read.{fuel_for_pos, read-stream, read-length, read-fuel}

-- What a round may decide on a buffer: to go on only below the limit.
abbrev IsFair : ℕ → Bytes → Round → Type 0
IsFair max buf (go_on b) = length buf ≤ max
IsFair max buf (finish r) = IsSafe r

header_end-IsFair :
    (max : ℕ) (buf : Bytes) (b : Bool) (o : Option ℕ) → IsFair max buf (header_end max buf b o)
unfolding header_end
header_end-IsFair max buf b none = ground arith
header_end-IsFair max buf b (some idx) =
    ground (arith, parse_http_host_from_header-IsSafe (take (idx + 4) buf))

checked-IsFair :
    (max : ℕ) (buf : Bytes) (r : Result HttpError (Unit {0})) (k : Round)
    → IsSafe r
    → IsFair max buf k
    → IsFair max buf (checked r k)
checked-IsFair max buf (ok u) k s h = h
checked-IsFair max buf (err e) k s h = tt
checked-IsFair max buf panic k s h = s
checked-IsFair max buf stuck k s h = s

inspect-IsFair : (max : ℕ) (buf : Bytes) (b : Bool) → IsFair max buf (inspect max buf b)
unfolding inspect
inspect-IsFair max buf b =
    checked-IsFair max buf _ _ (reject_obvious_non_http_prefix-IsSafe buf) (go b (index buf crlf))
  where
    go : (b : Bool) (o : Option ℕ) → IsFair max buf (request_line max buf b o)
    go true o =
        unfold request_line in header_end-IsFair max buf true (index buf http_header_terminator)
    go false none =
        unfold request_line in header_end-IsFair max buf false (index buf http_header_terminator)
    go false (some i) =
        unfold request_line in
        checked-IsFair max buf _ _ (validate_request_line_bytes-IsSafe (take i buf))
          (header_end-IsFair max buf true (index buf http_header_terminator))

round-IsFair :
    (max : ℕ) (old chunk : Bytes) (b : Bool) (e : Option IoError)
    → length old ≤ max
    → IsFair max (old ++ chunk) (round max (old ++ chunk) b chunk e)
unfolding round
round-IsFair max old [] b none h = rw append-nil h
round-IsFair max old [] b (some e) h = tt
round-IsFair max old (x ∷ chunk) b none h = inspect-IsFair max (old ++ (x ∷ chunk)) b
round-IsFair max old (x ∷ chunk) b (some e) h =
    go (inspect max (old ++ (x ∷ chunk)) b) (inspect-IsFair max (old ++ (x ∷ chunk)) b)
  where
    go :
        (k : Round) → IsFair max (old ++ (x ∷ chunk)) k → IsFair max (old ++ (x ∷ chunk)) (stop e k)
    go (go_on b) h = tt
    go (finish r) h = h

-- With an error of the read no round goes on.
round_stops :
    (max : ℕ) (buf chunk : Bytes) (b c : Bool) (e : IoError)
    → round max buf b chunk (some e) ≡ go_on c
    → ⊥
unfolding round
round_stops max buf [] b c e h = cc
round_stops max buf (x ∷ chunk) b c e h = go (inspect max buf b) h
  where
    go : (k : Round) → stop e k ≡ go_on c → ⊥
    go (go_on d) h = cc
    go (finish r) h = cc

-- How the loop may end, with the bytes that the peer sent.
abbrev IsDone : Bytes → ℕ → Result HttpError Bytes × Bytes × Conn → Type 0
IsDone sent max (r, buf, c) =
    IsSafe r × (buf ++ stream c ≡ sent) × (length buf ≤ max + preread_chunk_size)

after_round-IsDone :
    (sent : Bytes) (max : ℕ) (buf : Bytes) (c : Conn)
    (again : Bool → Result HttpError Bytes × Bytes × Conn) (k : Round)
    → IsFair max buf k
    → buf ++ stream c ≡ sent
    → length buf ≤ max + preread_chunk_size
    → ((b : Bool) → k ≡ go_on b → length buf ≤ max → IsDone sent max (again b))
    → IsDone sent max (after_round buf c again k)
after_round-IsDone sent max buf c again (go_on b) f s l h = h b refl f
after_round-IsDone sent max buf c again (finish r) f s l h = (f, s, l)

preread_loop-IsDone :
    (sent : Bytes) (fuel max : ℕ) (buf : Bytes) (b : Bool) (c : Conn)
    → buf ++ stream c ≡ sent
    → length buf ≤ max
    → fuel_for c.segments ≤ fuel
    → IsDone sent max (preread_loop fuel max buf b c)
unfolding preread_loop
preread_loop-IsDone sent zero max buf b c s l f = absurd (omega (arith, fuel_for_pos c.segments))
preread_loop-IsDone sent (suc fuel) max buf b c s l f =
    after_round-IsDone sent max (buf ++ chunk) c' (λ d. preread_loop fuel max (buf ++ chunk) d c')
      (round max (buf ++ chunk) b chunk (read preread_chunk_size c).1)
      (round-IsFair max buf chunk b (read preread_chunk_size c).1 l) joined
      (omega (arith, length-append buf chunk, read-length preread_chunk_size c))
      (λ d k below. preread_loop-IsDone sent fuel max (buf ++ chunk) d c' joined below (
        omega (
          arith,
          read-fuel preread_chunk_size c (omega arith) (no_error (read preread_chunk_size c).1 d k),
        )))
  where
    chunk : Bytes
    chunk = (read preread_chunk_size c).0

    c' : Conn
    c' = (read preread_chunk_size c).2

    joined : (buf ++ chunk) ++ stream c' ≡ sent
    joined =
        append_assoc buf chunk (stream c')
        ∙ ap (λ (t : Bytes). buf ++ t) (read-stream preread_chunk_size c)
        ∙ s

    no_error :
        (e : Option IoError) (d : Bool) → round max (buf ++ chunk) b chunk e ≡ go_on d → e ≡ none
    no_error none d k = refl
    no_error (some e) d k = absurd (round_stops max (buf ++ chunk) chunk b d e k)

module _ (c : Conn) (timeout max_header_bytes : ℤ) where
  abbrev result : Result HttpError Bytes × Bytes × Conn
  result =
      preread_loop (fuel_for c.segments) (effective_max max_header_bytes) [] false
        (prereading c timeout)

  -- The deadline's reset changes neither the buffer nor the stream.
  cleared-IsDone :
      (sent : Bytes) (max : ℕ) (p : Result HttpError Bytes × Bytes × Conn)
      → IsDone sent max p
      → IsDone sent max (cleared p)
  cleared-IsDone sent max (r, buf, c') h = h

  failed-IsDone :
      (o : Option IoError)
      → IsDone
          (stream c)
          (effective_max max_header_bytes)
          (with_deadline o c timeout max_header_bytes)
  unfolding with_deadline
  failed-IsDone (some e) = (tt, refl, omega arith)
  failed-IsDone none = cleared-IsDone (stream c) (effective_max max_header_bytes) result (
      preread_loop-IsDone (stream c) (fuel_for c.segments) (effective_max max_header_bytes) [] false
        (prereading c timeout) refl (omega arith) (omega arith))

  -- Reading the header of a request ends with a host or an error, on every connection. On every way
  -- out the bytes taken, in front of what the connection still brings, are the stream of the client,
  -- and they are at most 4096 more than the limit.
  pub read_http_host_lem :
      IsSafe (read_http_host c timeout max_header_bytes).0
      × ((read_http_host c timeout max_header_bytes).1
            ++ stream (read_http_host c timeout max_header_bytes).2
          ≡ stream c)
      × (length (read_http_host c timeout max_header_bytes).1
          ≤ effective_max max_header_bytes + preread_chunk_size)
  unfolding read_http_host
  read_http_host_lem = failed-IsDone c.deadline_error
