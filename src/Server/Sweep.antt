-- ===== src/Server/Sweep.antt =====
-- Server::update decides about each client on its own: a pointwise description of the loop.
use sfrpg.Base.{
  ltb_ℤ, abs_ℤ, ◌-ℤ◌, ◌≡◌, refl, ap, ◌∙◌, inl, inr, Bool, true, false, Option, none, some, List, [],
  ◌∷◌, ℤ, if◌then◌else◌, Bool-cases, if_ind, eq_ℤ, eq_ℤ_iff, lookup, keys, Distinct,
}
use sfrpg.Platform.{Platform}
use sfrpg.Server.State.{ClientInfo, Server}
use sfrpg.Server.Heartbeat.{visit, sweep, rebase, advance, update_server}
use sfrpg.Server.Visit.{
  listed, Unlisted, Unlisted-keys, lookup_unlisted, judged, Stored, visit-Stored,
}

module _ {π : Platform} where
  open π use {Time, time_add, time_sub, milliseconds, as_milliseconds}

  -- A sweep judges the listed clients, each once.
  record Swept (ids : List ℤ) (s t : Server π) : Type 0 where
    same_time : t.server_time ≡ s.server_time
    distinct : Distinct t.client_map
    looked_up :
        (j : ℤ)
        → lookup j t.client_map ≡ (
            if listed j ids
            then judged s.server_time (lookup j s.client_map)
            else lookup j s.client_map)

  Swept-cons :
      (k : ℤ) (ids : List ℤ) (s t u : Server π)
      → listed k ids ≡ false
      → Stored k s t (judged s.server_time (lookup k s.client_map))
      → Swept ids t u
      → Swept (k ∷ ids) s u
  unfolding listed
  Swept-cons k ids s t u fresh one rest = record {
    same_time = rest.same_time ∙ one.same_time;
    distinct = rest.distinct;
    looked_up = λ j. elim (Bool-cases (eq_ℤ k j)) [
      | inl e ↦
          let at_k = (eq_ℤ_iff k j).0 e in
          rw (e, rest.looked_up j, one.looked_up j, e, ← at_k, fresh) refl
      | inr e ↦ rw (
        e,
        rest.looked_up j,
        one.looked_up j,
        e,
        ap (λ (now : Time). judged now (lookup j s.client_map)) one.same_time,
      )
    ];
  }

  sweep-Swept :
      (ids : List ℤ) (s : Server π)
      → Unlisted ids
      → Distinct s.client_map
      → Swept ids s (sweep ids s)
  unfolding sweep listed
  sweep-Swept [] s u d = record { same_time = refl; distinct = d; looked_up = λ j. refl }
  sweep-Swept (k ∷ ids) s u d =
      let one = visit-Stored k s d in
      Swept-cons k ids s (visit k s) (sweep ids (visit k s)) u.0 one
        (sweep-Swept ids (visit k s) u.1 one.distinct)

  pub keys-rebase : (m : List (ℤ × ClientInfo π)) → keys (rebase m) ≡ keys m
  unfolding rebase
  keys-rebase [] = refl
  keys-rebase ((j, info) ∷ m) = ap (◌∷◌ j) (keys-rebase m)

  pub Distinct-rebase : (m : List (ℤ × ClientInfo π)) → Distinct m → Distinct (rebase m)
  unfolding rebase
  Distinct-rebase [] d = tt
  Distinct-rebase ((j, info) ∷ m) d = (rw (keys-rebase m) d.0, Distinct-rebase m d.1)

  pub Distinct-advance :
      (l_time : Time) (s : Server π)
      → Distinct s.client_map
      → Distinct (advance l_time s).client_map
  unfolding advance
  Distinct-advance l_time s d =
      if_ind (λ (t : Server π). Distinct t.client_map) _ (λ _. Distinct-rebase s.client_map d)
        (λ _. d)

  sweep_all :
      (s : Server π)
      → Distinct s.client_map
      → (j : ℤ)
      → lookup j (sweep (keys s.client_map) s).client_map
        ≡ judged s.server_time (lookup j s.client_map)
  sweep_all s d j =
      let swept = sweep-Swept (keys s.client_map) s (Unlisted-keys s.client_map d) d in
      elim (Bool-cases (listed j (keys s.client_map))) [
        | inl e ↦ rw (swept.looked_up j, e)
        | inr e ↦ rw (swept.looked_up j, e, lookup_unlisted j s.client_map e)
      ]

  -- Whether the clock starts over, since its milliseconds no longer fit.
  abbrev pub starts_over : Time → Server π → Bool
  starts_over l_time s = ltb_ℤ (as_milliseconds (time_add s.server_time l_time)) (ℤ.pos 0)

  abbrev pub next_time : Time → Server π → Time
  next_time l_time s =
      let now = time_add s.server_time l_time in
      if starts_over l_time s then time_sub now (milliseconds (ℤ.pos 2147483647)) else now

  -- A client's record once the clock has started over.
  abbrev pub rebased : Option (ClientInfo π) → Option (ClientInfo π)
  rebased none = none
  rebased (some info) = some (record info {
    last_heartbeat = milliseconds (abs_ℤ (as_milliseconds info.last_heartbeat -ℤ ℤ.pos 2147483647));
  })

  lookup-rebase : (j : ℤ) (m : List (ℤ × ClientInfo π)) → lookup j (rebase m) ≡ rebased (lookup j m)
  unfolding rebase lookup
  lookup-rebase j [] = refl
  lookup-rebase j ((i, info) ∷ m) = elim (Bool-cases (eq_ℤ i j)) [
    | inl e ↦ rw e refl
    | inr e ↦ rw e (lookup-rebase j m)
  ]

  pub advance_lem :
      (l_time : Time) (s : Server π) (j : ℤ)
      → ((advance l_time s).server_time ≡ next_time l_time s)
        × (lookup j (advance l_time s).client_map ≡ (
            if starts_over l_time s
            then rebased (lookup j s.client_map)
            else lookup j s.client_map))
  unfolding advance
  advance_lem l_time s j = elim (Bool-cases (starts_over l_time s)) [
    | inl e ↦ rw e (refl, lookup-rebase j s.client_map)
    | inr e ↦ rw e (refl, refl)
  ]

  pub update_server-judged :
      (l_time : Time) (s : Server π)
      → s.running ≡ true
      → Distinct s.client_map
      → (j : ℤ)
      → lookup j (update_server l_time s).client_map
        ≡ judged (advance l_time s).server_time (lookup j (advance l_time s).client_map)
  unfolding update_server
  update_server-judged l_time s r d j =
      simp r (sweep_all (advance l_time s) (Distinct-advance l_time s d) j)

  -- An update of a running server decides about every client by its own record and the time alone:
  -- the client map afterwards is the map at the new time, entry by entry, with each record kept,
  -- marked as awaiting a reply, or dropped, in whatever order the clients are visited. Where the
  -- clock starts over, the records are rebased first.
  pub update_server-lookup :
      (l_time : Time) (s : Server π)
      → s.running ≡ true
      → Distinct s.client_map
      → (j : ℤ)
      → lookup j (update_server l_time s).client_map
        ≡ judged (next_time l_time s) (
            if starts_over l_time s then rebased (lookup j s.client_map) else lookup j s.client_map)
  update_server-lookup l_time s r d j =
      let now = advance_lem l_time s j in
      update_server-judged l_time s r d j ∙ rw (now.0, now.1) refl
