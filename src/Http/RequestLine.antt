-- ===== src/Http/RequestLine.antt =====
-- `validateRequestLineBytes` against a description of request lines.
use backhaul_plus.Prelude.{
  ℕ, zero, suc, ◌+◌, ◌≡◌, ◌≢◌, ◌⊎◌, refl, sym, ap, ◌∙◌, false, [], ◌∷◌, ◌++◌, Option, none, some,
  inl, inr, arith, length, take, drop, ◌==◌, take-append, drop-append_one,
}
use backhaul_plus.Result.{ok, refuse-ok}
use backhaul_plus.Strings.{Bytes, codes, equal, contains, index_byte}
use backhaul_plus.Strings.Search.{equal_iff, index_byte-append, index_byte-FoundAt}
use backhaul_plus.Http.Host.{
  malformed_request_line, check_version, check_target, check_method, validate_request_line_bytes,
}

-- A method, a target and a version HTTP/1.0 or HTTP/1.1, with one space between them.
pub record IsRequestLine (line : Bytes) : Type 0 where
  pub method : Bytes
  pub target : Bytes
  pub version : Bytes
  pub joined : line ≡ method ++ (b' ' ∷ (target ++ (b' ' ∷ version)))
  pub method_given : method ≢ []
  pub method_word : contains method b' ' ≡ false
  pub target_given : target ≢ []
  pub target_word : contains target b' ' ≡ false
  pub version_known : (version ≡ codes "HTTP/1.0") ⊎ (version ≡ codes "HTTP/1.1")

check_version-known :
    (v : Bytes) → check_version v ≡ ok tt → (v ≡ codes "HTTP/1.0") ⊎ (v ≡ codes "HTTP/1.1")
unfolding check_version
check_version-known v h =
    ground (arith, equal_iff v (codes "HTTP/1.0"), equal_iff v (codes "HTTP/1.1"))

version-check_version :
    (v : Bytes) → (v ≡ codes "HTTP/1.0") ⊎ (v ≡ codes "HTTP/1.1") → check_version v ≡ ok tt
unfolding check_version index_byte equal
version-check_version v (inl e) = rw e
version-check_version v (inr e) = rw e

length_given : (a : Bytes) → a ≢ [] → (length a == 0) ≡ false
length_given [] h = absurd (h refl)
length_given (x ∷ a) h = ground arith

check_target-split :
    (target version : Bytes)
    → target ≢ []
    → contains target b' ' ≡ false
    → check_target (target ++ (b' ' ∷ version)) (index_byte (target ++ (b' ' ∷ version)) b' ')
      ≡ check_version version
unfolding check_target
check_target-split target version g w = rw (
  index_byte-append target version b' ' w,
  take-append target (b' ' ∷ version),
  length_given target g,
  drop-append_one target version b' ',
)

check_method-split :
    (method rest : Bytes)
    → method ≢ []
    → contains method b' ' ≡ false
    → validate_request_line_bytes (method ++ (b' ' ∷ rest))
      ≡ check_target rest (index_byte rest b' ')
unfolding validate_request_line_bytes check_method
check_method-split [] rest g w = absurd (g refl)
check_method-split (m ∷ ms) rest g w =
    ap (check_method ((m ∷ ms) ++ (b' ' ∷ rest))) (index_byte-append (m ∷ ms) rest b' ' w)
    ∙ ap (λ (r : Bytes). check_target r (index_byte r b' ')) (drop-append_one (m ∷ ms) rest b' ')

-- A line of that form passes.
IsRequestLine-validate :
    (line : Bytes) → IsRequestLine line → validate_request_line_bytes line ≡ ok tt
IsRequestLine-validate line r =
    ap validate_request_line_bytes r.joined
    ∙ check_method-split r.method _ r.method_given r.method_word
    ∙ check_target-split r.target r.version r.target_given r.target_word
    ∙ version-check_version r.version r.version_known

nonempty_of_length : (a : Bytes) → (length a == 0) ≡ false → a ≢ []
nonempty_of_length [] h e = cc
nonempty_of_length (x ∷ a) h e = cc

-- What passes as the text behind the method.
record IsTarget (rest : Bytes) : Type 0 where
  target : Bytes
  version : Bytes
  joined : rest ≡ target ++ (b' ' ∷ version)
  target_given : target ≢ []
  target_word : contains target b' ' ≡ false
  version_known : (version ≡ codes "HTTP/1.0") ⊎ (version ≡ codes "HTTP/1.1")

IsTarget-found :
    (rest : Bytes) (o : Option ℕ)
    → index_byte rest b' ' ≡ o
    → check_target rest o ≡ ok tt
    → IsTarget rest
unfolding check_target
IsTarget-found rest none e h = cc
IsTarget-found rest (some i) e h =
    let f = index_byte-FoundAt rest b' ' i e in
    let (given, version) = refuse-ok (length (take i rest) == 0) malformed_request_line _ h in
    record {
      target = take i rest;
      version = drop (i + 1) rest;
      joined = f.joined;
      target_given = nonempty_of_length (take i rest) given;
      target_word = f.first;
      version_known = check_version-known (drop (i + 1) rest) version;
    }

method_found :
    (line : Bytes) (o : Option ℕ)
    → index_byte line b' ' ≡ o
    → check_method line o ≡ ok tt
    → IsRequestLine line
unfolding check_method
method_found line none e h = cc
method_found line (some zero) e h = cc
method_found line (some (suc i)) e h =
    let f = index_byte-FoundAt line b' ' (suc i) e in
    let t = IsTarget-found (drop (suc i + 1) line) _ refl h in
    record {
      method = take (suc i) line;
      target = t.target;
      version = t.version;
      joined = f.joined ∙ ap (λ (r : Bytes). take (suc i) line ++ (b' ' ∷ r)) t.joined;
      method_given = λ (e : take (suc i) line ≡ []). size_ne (sym f.size ∙ ap length e);
      method_word = f.first;
      target_given = t.target_given;
      target_word = t.target_word;
      version_known = t.version_known;
    }
  where
    size_ne : suc i ≡ length {A = ℕ} [] → ⊥
    size_ne h = omega arith

-- A request line passes exactly when it is a method, a target and HTTP/1.0 or HTTP/1.1, with one
-- space between them: the method and the target hold no space and are not empty.
pub validate_request_line_bytes_iff :
    (line : Bytes)
    → (validate_request_line_bytes line ≡ ok tt → IsRequestLine line)
      × (IsRequestLine line → validate_request_line_bytes line ≡ ok tt)
validate_request_line_bytes_iff line = (passed, IsRequestLine-validate line)
  where
    passed : validate_request_line_bytes line ≡ ok tt → IsRequestLine line
    passed h = method_found line _ refl (unfold validate_request_line_bytes in h)
