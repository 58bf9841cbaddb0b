-- ===== src/Server/WellFormed.antt =====
-- The well-formedness of the client map of Server.cpp: lemmas on the changes that the operations make.
use sfrpg.Base.{
  ℕ, ◌+◌, ◌<◌, ◌≡◌, inl, inr, false, none, some, List, [], ◌∷◌, ◌++◌, ℤ, arith, Bool-cases, eq_ℤ,
  eq_ℤ_iff, eq_ℤ_refl, Fresh-lookup, lookup, update, erase, keys, Distinct, Each, All, All-map,
  keys-update, Each-erase, Each-append, All-keys-erase, All-keys-append, Distinct-update,
  Distinct-erase, Distinct-append,
}
use sfrpg.Platform.{Platform}
use sfrpg.Server.State.{ClientInfo}
use sfrpg.Server.Transport.{at_endpoint, find_endpoint}
use sfrpg.Base.{Each-lookup, refl}

-- The identifiers that the counter has passed.
abbrev pub Issued : ℕ → ℤ → Type 0
Issued n (ℤ.pos k) = k < n
Issued n (ℤ.negsuc k) = ⊥

Issued-suc : (n : ℕ) (id : ℤ) → Issued n id → Issued (n + 1) id
Issued-suc n (ℤ.pos k) h = omega arith
Issued-suc n (ℤ.negsuc k) h = h

pub Issued-next : (n : ℕ) (id : ℤ) → Issued n id → eq_ℤ id (ℤ.pos n) ≡ false
Issued-next n (ℤ.pos k) h = ground arith
Issued-next n (ℤ.negsuc k) h = absurd h

module _ {π : Platform} where
  open π use {IpAddress, Time, ip_eq, ip_eq_iff}

  abbrev pub Elsewhere : IpAddress → ℕ → List (ℤ × ClientInfo π) → Type 0
  Elsewhere ip port = Each (λ info. at_endpoint ip port info ≡ false)

  -- No two clients share an address and a port.
  abbrev pub UniqueEndpoints : List (ℤ × ClientInfo π) → Type 0
  UniqueEndpoints [] = Unit
  UniqueEndpoints ((id, info) ∷ m) = Elsewhere info.client_ip info.client_port m × UniqueEndpoints m

  pub record MapOk (n : ℕ) (m : List (ℤ × ClientInfo π)) : Type 0 where
    pub distinct : Distinct m
    pub endpoints : UniqueEndpoints m
    pub issued : All (Issued n) (keys m)

  pub record SameEndpoint (v w : ClientInfo π) : Type 0 where
    pub same_ip : v.client_ip ≡ w.client_ip
    pub same_port : v.client_port ≡ w.client_port

  UniqueEndpoints-erase :
      (k : ℤ) (m : List (ℤ × ClientInfo π)) → UniqueEndpoints m → UniqueEndpoints (erase k m)
  unfolding erase
  UniqueEndpoints-erase k [] u = tt
  UniqueEndpoints-erase k ((j, w) ∷ m) u = elim (Bool-cases (eq_ℤ j k)) [
    | inl e ↦ rw e u.1
    | inr e ↦ rw e (Each-erase _ k m u.0, UniqueEndpoints-erase k m u.1)
  ]

  Elsewhere-update :
      (ip : IpAddress) (port : ℕ) (k : ℤ) (v w : ClientInfo π) (m : List (ℤ × ClientInfo π))
      → lookup k m ≡ some w
      → SameEndpoint v w
      → Elsewhere ip port m
      → Elsewhere ip port (update k v m)
  unfolding lookup update
  Elsewhere-update ip port k v w [] e s h = tt
  Elsewhere-update ip port k v w ((j, u) ∷ m) e s h = elim (Bool-cases (eq_ℤ j k)) [
    | inl hit ↦ rw hit (ground arith, h.1)
    | inr miss ↦ rw miss (h.0, Elsewhere-update ip port k v w m (ground arith) s h.1)
  ]

  UniqueEndpoints-update :
      (k : ℤ) (v w : ClientInfo π) (m : List (ℤ × ClientInfo π))
      → lookup k m ≡ some w
      → SameEndpoint v w
      → UniqueEndpoints m
      → UniqueEndpoints (update k v m)
  unfolding lookup update
  UniqueEndpoints-update k v w [] e s u = tt
  UniqueEndpoints-update k v w ((j, x) ∷ m) e s u = elim (Bool-cases (eq_ℤ j k)) [
    | inl hit ↦ rw hit (moved (ground arith), u.1)
    | inr miss ↦ rw miss (
      Elsewhere-update x.client_ip x.client_port k v w m (ground arith) s u.0,
      UniqueEndpoints-update k v w m (ground arith) s u.1,
    )
  ]
    where
      moved : x ≡ w → Elsewhere v.client_ip v.client_port m
      moved q = rw (s.same_ip, s.same_port, ← q) u.0

  find_endpoint-Elsewhere :
      (ip : IpAddress) (port : ℕ) (m : List (ℤ × ClientInfo π))
      → find_endpoint ip port m ≡ none
      → Elsewhere ip port m
  unfolding find_endpoint
  find_endpoint-Elsewhere ip port [] e = tt
  find_endpoint-Elsewhere ip port ((j, w) ∷ m) e = elim (Bool-cases (at_endpoint ip port w)) [
    | inl hit ↦ absurd (ground arith)
    | inr miss ↦ (miss, find_endpoint-Elsewhere ip port m (ground arith))
  ]

  at_endpoint_flip :
      (v w : ClientInfo π)
      → at_endpoint v.client_ip v.client_port w ≡ false
      → at_endpoint w.client_ip w.client_port v ≡ false
  at_endpoint_flip v w e =
      ground (arith, ip_eq_iff v.client_ip w.client_ip, ip_eq_iff w.client_ip v.client_ip)

  UniqueEndpoints-append :
      (k : ℤ) (v : ClientInfo π) (m : List (ℤ × ClientInfo π))
      → Elsewhere v.client_ip v.client_port m
      → UniqueEndpoints m
      → UniqueEndpoints (m ++ (k, v) ∷ [])
  UniqueEndpoints-append k v [] f u = (tt, tt)
  UniqueEndpoints-append k v ((j, w) ∷ m) f u =
      (Each-append _ k v m u.0 (at_endpoint_flip v w f.0), UniqueEndpoints-append k v m f.1 u.1)

  pub MapOk-erase : (n : ℕ) (k : ℤ) (m : List (ℤ × ClientInfo π)) → MapOk n m → MapOk n (erase k m)
  MapOk-erase n k m h = record {
    distinct = Distinct-erase k m h.distinct;
    endpoints = UniqueEndpoints-erase k m h.endpoints;
    issued = All-keys-erase (Issued n) k m h.issued;
  }

  pub MapOk-update :
      (n : ℕ) (k : ℤ) (v w : ClientInfo π) (m : List (ℤ × ClientInfo π))
      → lookup k m ≡ some w
      → SameEndpoint v w
      → MapOk n m
      → MapOk n (update k v m)
  MapOk-update n k v w m e s h = record {
    distinct = Distinct-update k v m h.distinct;
    endpoints = UniqueEndpoints-update k v w m e s h.endpoints;
    issued = rw (keys-update k v m) h.issued;
  }

  pub MapOk-append :
      (n : ℕ) (v : ClientInfo π) (m : List (ℤ × ClientInfo π))
      → find_endpoint v.client_ip v.client_port m ≡ none
      → MapOk n m
      → MapOk (n + 1) (m ++ (ℤ.pos n, v) ∷ [])
  MapOk-append n v m e h = record {
    distinct = Distinct-append (ℤ.pos n) v m (All-map (Issued-next n) (keys m) h.issued) h.distinct;
    endpoints =
        UniqueEndpoints-append (ℤ.pos n) v m (find_endpoint-Elsewhere v.client_ip v.client_port m e)
          h.endpoints;
    issued =
        All-keys-append (Issued (n + 1)) (ℤ.pos n) v m (All-map (Issued-suc n) (keys m) h.issued)
          (omega arith);
  }

  -- The entry found by its endpoint is the one that its identifier finds.
  pub find_endpoint-lookup :
      (ip : IpAddress) (port : ℕ) (m : List (ℤ × ClientInfo π)) {found : ℤ × ClientInfo π}
      → Distinct m
      → find_endpoint ip port m ≡ some found
      → lookup found.0 m ≡ some found.1
  unfolding find_endpoint lookup
  find_endpoint-lookup ip port [] d e = cc
  find_endpoint-lookup ip port ((j, info) ∷ m) {found} d e =
      elim (Bool-cases (at_endpoint ip port info)) [
        | inl hit ↦ ground (arith, eq_ℤ_refl j)
        | inr miss ↦
            let rest : find_endpoint ip port m ≡ some found = rw miss at e in
            ground (
              arith,
              find_endpoint-lookup ip port m d.1 rest,
              eq_ℤ_iff j found.0,
              Fresh-lookup j m d.0,
            )
      ]

  -- A client is found by its endpoint.
  pub lookup-find_endpoint :
      (id : ℤ) (info : ClientInfo π) (m : List (ℤ × ClientInfo π))
      → UniqueEndpoints m
      → lookup id m ≡ some info
      → find_endpoint info.client_ip info.client_port m ≡ some (id, info)
  unfolding find_endpoint lookup
  lookup-find_endpoint id info [] u e = absurd (ground (arith, e))
  lookup-find_endpoint id info ((j, x) ∷ m) u e = elim (Bool-cases (eq_ℤ j id)) [
    | inl here ↦
        let same : x ≡ info = ground (arith, e, here) in
        rw ((eq_ℤ_iff j id).0 here, same, (ip_eq_iff info.client_ip info.client_ip).1 refl)
          (ground arith)
    | inr later ↦
        let there : lookup id m ≡ some info = rw later at e in
        let apart = at_endpoint_flip x info (
          Each-lookup (λ v. at_endpoint x.client_ip x.client_port v ≡ false) id info m u.0 there) in
        rw apart (lookup-find_endpoint id info m u.1 there)
  ]
