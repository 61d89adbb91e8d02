-- ===== src/Ws/Places.antt =====
-- The places of the connections of the WebSocket server.
use backhaul_plus.Prelude.{
  ℕ, zero, suc, ◌+◌, ◌≡◌, refl, Bool, true, false, List, [], ◌∷◌, ◌++◌, map, Option, none, some,
  ltb, ◌==◌, arith, remove_at,
}
use backhaul_plus.Ws.Server.State.{Inbound, Waiting, Copy, Queued, Looked, WsTransport}
use backhaul_plus.Ws.Server.Requests.{control_ids}

abbrev pub one : Bool → ℕ
one true = 1
one false = 0

-- How often the number `i` is that of an item.
abbrev pub occ {ℓ} : {A : Type ℓ} → (A → ℕ) → ℕ → List A → ℕ
occ f i [] = 0
occ f i (x ∷ xs) = one (f x == i) + occ f i xs

pub occ-append {ℓ} :
    {A : Type ℓ} (f : A → ℕ) (i : ℕ) (xs ys : List A) → occ f i (xs ++ ys) ≡ occ f i xs + occ f i ys
occ-append f i [] ys = omega arith
occ-append f i (x ∷ xs) ys = omega (arith, occ-append f i xs ys)

pub occ-map {ℓ} :
    {A : Type ℓ} (f : A → ℕ) (i : ℕ) (xs : List A) → occ (λ (n : ℕ). n) i (map f xs) ≡ occ f i xs
occ-map f i [] = refl
occ-map f i (x ∷ xs) = omega (arith, occ-map f i xs)

-- What is left of a list without the item at a position.
abbrev pub Removed {ℓ} : {A : Type ℓ} → (A → ℕ) → ℕ → List A → Option (A × List A) → Type 0
Removed f i xs none = Unit
Removed f i xs (some (y, ys)) = occ f i xs ≡ one (f y == i) + occ f i ys

Removed-later {ℓ} :
    {A : Type ℓ} (f : A → ℕ) (i : ℕ) (x : A) (xs : List A) (r : Option (A × List A))
    → Removed f i xs r
    → Removed f i (x ∷ xs) (elim r [ none ↦ none | some (y, ys) ↦ some (y, x ∷ ys) ])
Removed-later f i x xs none h = tt
Removed-later f i x xs (some (y, ys)) h = omega arith

pub remove_at-Removed {ℓ} :
    {A : Type ℓ} (f : A → ℕ) (i n : ℕ) (xs : List A) → Removed f i xs (remove_at n xs)
unfolding remove_at
remove_at-Removed f i n [] = tt
remove_at-Removed f i zero (x ∷ xs) = refl
remove_at-Removed f i (suc n) (x ∷ xs) =
    Removed-later f i x xs (remove_at n xs) (remove_at-Removed f i n xs)

abbrev pub inbound_id : Inbound → ℕ
inbound_id c = c.id

abbrev pub waiting_id : Waiting → ℕ
waiting_id w = w.inbound.id

abbrev pub copy_id : Copy → ℕ
copy_id c = c.inbound.id

abbrev pub copy_socket : Copy → ℕ
copy_socket c = c.socket

abbrev pub looked_socket : Looked → ℕ
looked_socket h = h.socket

abbrev pub queued_socket : Queued → ℕ
queued_socket t = t.socket

abbrev pub itself : ℕ → ℕ
itself n = n

-- In how many places the inbound connection `i` is, and the WebSocket `i`.
abbrev pub inbound_places : ℕ → WsTransport → ℕ
inbound_places i s =
    occ inbound_id i s.local_channel
    + occ waiting_id i s.waiting
    + occ copy_id i s.copies
    + occ itself i s.closed_inbound
    + occ itself i s.lost

abbrev pub socket_places : ℕ → WsTransport → ℕ
socket_places i s =
    occ itself i (control_ids s.control_channel)
    + occ looked_socket i s.looked
    + occ queued_socket i s.tunnel_channel
    + occ copy_socket i s.copies
    + occ itself i s.closed_sockets
    + occ itself i s.former_controls
    + occ itself i s.former_tunnels
    + occ itself i s.stray

-- Each that came is in one place, and no other is.
pub record IsConserved (i : ℕ) (s : WsTransport) : Type 0 where
  pub of_inbound : inbound_places i s ≡ one (ltb i s.next_inbound)
  pub of_sockets : socket_places i s ≡ one (ltb i s.next_socket)

pub below-suc : (i n : ℕ) → one (ltb i (n + 1)) ≡ one (ltb i n) + one (n == i)
below-suc i n = ground arith
