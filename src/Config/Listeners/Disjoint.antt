-- ===== src/Config/Listeners/Disjoint.antt =====
-- cmd/validate.go: the closure `register` of `validateListeners` against overlaps of addresses.
use backhaul_plus.Prelude.{
  ℕ, ◌≡◌, refl, ap, ◌∙◌, Bool, true, false, ◌||◌, ◌&&◌, Bool-cases, inl, inr, [], ◌∷◌, Option, none,
  some, arith, ◌==◌, if◌then◌else◌, ◌&&◌, inl,
}
use backhaul_plus.Config.Error.{ListenOwner}
use backhaul_plus.Config.Listeners.{
  PortTable, at_port, Registered, taken, recorded, add_new_host, in_hosts, over_hosts,
  beside_wildcard, register_addr,
}
use backhaul_plus.Config.PortMapping.{is_wildcard_host}
use backhaul_plus.Maps.{Map, lookup, insert, lookup-insert}
use backhaul_plus.Strings.{Bytes, equal}

-- Whether the tables refuse an address.
abbrev pub holds : Option ListenOwner → Bool
holds none = false
holds (some o) = true

abbrev pub any_host : Option (Map ListenOwner) → Bool
any_host none = false
any_host (some []) = false
any_host (some (entry ∷ rest)) = true

abbrev pub this_host : Bytes → Option (Map ListenOwner) → Bool
this_host host none = false
this_host host (some hosts) = holds (lookup host hosts)

abbrev pub occupied : PortTable → Bytes → ℕ → Bool
occupied t host port =
    holds (t.port_wildcard port)
    || (if is_wildcard_host host
        then any_host (t.port_hosts port)
        else this_host host (t.port_hosts port))

-- Two addresses that one machine cannot both listen on: the same port, and the same host or a
-- wildcard.
abbrev pub overlap : Bytes × ℕ → Bytes × ℕ → Bool
overlap (h, p) (k, q) = (p == q) && (is_wildcard_host h || is_wildcard_host k || equal h k)

swapped : (p q : ℕ) {b : Bool} → (q == p) ≡ b → (p == q) ≡ b
swapped p q {b} h = ground arith

absorbed :
    (held wild here there any : Bool)
    → (held || (if wild then true else here || there))
      ≡ ((wild || here) || (held || (if wild then any else there)))
absorbed held true here there any = ground arith
absorbed held false here there any = ground arith

any_host-insert :
    (host : Bytes) (owner : ListenOwner) (hosts : Map ListenOwner)
    → any_host (some (insert host owner hosts)) ≡ true
unfolding insert
any_host-insert host owner [] = refl
any_host-insert host owner ((k, o) ∷ hosts) = by_key (equal k host)
  where
    by_key :
        (b : Bool)
        → any_host (some (if b then (host, owner) ∷ hosts else (k, o) ∷ insert host owner hosts))
          ≡ true
    by_key true = refl
    by_key false = refl

this_host-insert :
    (host k : Bytes) (owner : ListenOwner) (hosts : Map ListenOwner)
    → this_host k (some (insert host owner hosts)) ≡ (equal host k || this_host k (some hosts))
this_host-insert host k owner hosts = rw (lookup-insert host k owner hosts) (by_key (equal host k))
  where
    by_key :
        (b : Bool)
        → holds (if b then some owner else lookup k hosts) ≡ (b || holds (lookup k hosts))
    by_key true = refl
    by_key false = refl

module _ (host : Bytes) (port : ℕ) (owner : ListenOwner) (t : PortTable) where
  eq_of_test : (q : ℕ) → (q == port) ≡ true → q ≡ port
  eq_of_test q h = ground arith

  abbrev Adds : PortTable → Type 0
  Adds t' = (k : Bytes) (q : ℕ) → occupied t' k q ≡ (overlap (host, port) (k, q) || occupied t k q)

  add_wildcard-Adds :
      is_wildcard_host host ≡ true
      → Adds (record t { port_wildcard = at_port port owner t.port_wildcard })
  add_wildcard-Adds w k q = elim (Bool-cases (q == port)) [
    | inl same ↦ rw (same, swapped port q same, w) refl
    | inr other ↦ rw (other, swapped port q other) refl
  ]

  add_host-Adds :
      (hosts : Map ListenOwner)
      → is_wildcard_host host ≡ false
      → ((k : Bytes) → this_host k (t.port_hosts port) ≡ this_host k (some hosts))
      → Adds (record t { port_hosts = at_port port (insert host owner hosts) t.port_hosts })
  add_host-Adds hosts w h k q = elim (Bool-cases (q == port)) [
    | inl same ↦
        rw
          (
            same,
            swapped port q same,
            w,
            any_host-insert host owner hosts,
            this_host-insert host k owner hosts,
            ap (λ r. this_host k (t.port_hosts r)) (eq_of_test q same) ∙ h k,
          )
          (absorbed (holds (t.port_wildcard q)) (is_wildcard_host k) (equal host k)
            (this_host k (some hosts)) (any_host (t.port_hosts q)))
    | inr other ↦ rw (other, swapped port q other) refl
  ]

  -- What `register` answers of the address, and what the tables refuse from then on.
  abbrev pub Answers : Registered → Type 0
  Answers (taken existing) = occupied t host port ≡ true
  Answers (recorded t') = (occupied t host port ≡ false) × Adds t'

  over_hosts-Answers :
      (pick : (Bytes × ListenOwner) → Map ListenOwner → ListenOwner)
      (hosts : Option (Map ListenOwner))
      → is_wildcard_host host ≡ true
      → t.port_wildcard port ≡ none
      → t.port_hosts port ≡ hosts
      → Answers (over_hosts pick port owner t hosts)
  over_hosts-Answers pick none w f e = (rw (f, w, e) refl, add_wildcard-Adds w)
  over_hosts-Answers pick (some []) w f e = (rw (f, w, e) refl, add_wildcard-Adds w)
  over_hosts-Answers pick (some (entry ∷ rest)) w f e = rw (f, w, e) refl

  add_new_host-Answers :
      (hosts : Map ListenOwner) (o : Option ListenOwner)
      → is_wildcard_host host ≡ false
      → t.port_wildcard port ≡ none
      → t.port_hosts port ≡ some hosts
      → lookup host hosts ≡ o
      → Answers (add_new_host host port owner hosts t o)
  add_new_host-Answers hosts none w f e l =
      (rw (f, w, e, l) refl, add_host-Adds hosts w (λ k. ap (this_host k) e))
  add_new_host-Answers hosts (some existing) w f e l = rw (f, w, e, l) refl

  in_hosts-Answers :
      (hosts : Option (Map ListenOwner))
      → is_wildcard_host host ≡ false
      → t.port_wildcard port ≡ none
      → t.port_hosts port ≡ hosts
      → Answers (in_hosts host port owner t hosts)
  unfolding lookup
  in_hosts-Answers none w f e =
      (rw (f, w, e) refl, add_host-Adds [] w (λ k. ap (this_host k) e ∙ none_here k))
    where
      none_here : (k : Bytes) → this_host k none ≡ this_host k (some [])
      none_here k = refl
  in_hosts-Answers (some hosts) w f e = add_new_host-Answers hosts (lookup host hosts) w f e refl

  beside_wildcard-Answers :
      (pick : (Bytes × ListenOwner) → Map ListenOwner → ListenOwner) (o : Option ListenOwner)
      (wild : Bool)
      → t.port_wildcard port ≡ o
      → is_wildcard_host host ≡ wild
      → Answers (beside_wildcard pick host port owner t o)
  beside_wildcard-Answers pick (some existing) wild f w = rw f refl
  beside_wildcard-Answers pick none true f w =
      rw w (over_hosts-Answers pick (t.port_hosts port) w f refl)
  beside_wildcard-Answers pick none false f w = rw w (in_hosts-Answers (t.port_hosts port) w f refl)

  -- Whichever entry of a map a loop sees first: an address is refused exactly if the tables occupy it,
  -- by a wildcard on its port, by its own host or, for a wildcard, by any host; once it is recorded, the
  -- addresses that overlap with it are occupied too, and no others.
  pub register_addr-Answers :
      (pick : (Bytes × ListenOwner) → Map ListenOwner → ListenOwner)
      → Answers (register_addr pick host port owner t)
  unfolding register_addr
  register_addr-Answers pick =
      beside_wildcard-Answers pick (t.port_wildcard port) (is_wildcard_host host) refl refl
