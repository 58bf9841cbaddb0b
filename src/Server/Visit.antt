-- ===== src/Server/Visit.antt =====
-- The body of the loop of Server::update in server/Server.cpp: what becomes of one client.
use sfrpg.Base.{
  not, ◌&&◌, ◌==◌, ◌+◌, ◌*◌, ◌%◌, ◌^◌, ltb, ◌-ℤ◌, ◌≡◌, refl, inl, inr, Bool, true, false, ◌||◌,
  Option, none, some, List, [], ◌∷◌, ℤ, arith, if◌then◌else◌, Bool-cases, if_ind₂, leb_ℤ, eq_ℤ,
  eq_ℤ_iff, lookup, erase, keys, Distinct, All, lookup-update, lookup-erase_ne, lookup-erase_self,
  Distinct-update, Distinct-erase,
}
use sfrpg.Platform.{Platform}
use sfrpg.Server.State.{ClientInfo, Server, heartbeat_interval, count_sent}
use sfrpg.Server.Heartbeat.{
  elapsed, is_expired, is_due, expel, heartbeat_packet, await_reply, send_heartbeat, visit_client,
  visit,
}
use sfrpg.Server.Traffic.{send-SameClients}

unfoldable pub listed : ℤ → List ℤ → Bool
listed j [] = false
listed j (i ∷ ids) = eq_ℤ i j || listed j ids

abbrev pub Unlisted : List ℤ → Type 0
Unlisted [] = Unit
Unlisted (i ∷ ids) = (listed i ids ≡ false) × Unlisted ids

listed_of_fresh : (j : ℤ) (ids : List ℤ) → All (λ i. eq_ℤ i j ≡ false) ids → listed j ids ≡ false
unfolding listed
listed_of_fresh j [] h = refl
listed_of_fresh j (i ∷ ids) h = rw (h.0, listed_of_fresh j ids h.1)

module _ {ℓ} {V : Type ℓ} where
  pub Unlisted-keys : (m : List (ℤ × V)) → Distinct m → Unlisted (keys m)
  Unlisted-keys [] d = tt
  Unlisted-keys ((j, v) ∷ m) d = (listed_of_fresh j (keys m) d.0, Unlisted-keys m d.1)

  pub lookup_unlisted : (j : ℤ) (m : List (ℤ × V)) → listed j (keys m) ≡ false → lookup j m ≡ none
  unfolding listed lookup
  lookup_unlisted j [] h = refl
  lookup_unlisted j ((i, v) ∷ m) h = ground (arith, lookup_unlisted j m)

module _ {π : Platform} where
  open π use {Time, time_add, time_sub, milliseconds, as_milliseconds}

  -- What becomes of a client's record at the time `now`: a client that was heard less than a second
  -- ago stays; one that was not heard for ten seconds, or after six retries, is dropped; one whose
  -- next heartbeat is due waits for its reply, and the others stay.
  unfoldable pub verdict : (now : Time) → ClientInfo π → Option (ClientInfo π)
  verdict now info =
      let age = as_milliseconds now -ℤ as_milliseconds info.last_heartbeat in
      if leb_ℤ (ℤ.pos 1000) age
      then if leb_ℤ (ℤ.pos 10000) age || ltb 5 info.heartbeat_retry
        then none
        else if not info.heartbeat_waiting && leb_ℤ (ℤ.pos (1000 * (info.heartbeat_retry + 1))) age
        then some (record info {
          heartbeat_sent = if info.heartbeat_retry == 0 then now else info.heartbeat_sent;
          heartbeat_waiting = true;
          heartbeat_retry = (info.heartbeat_retry + 1) % 2 ^ 16;
        })
        else some info
      else some info

  abbrev pub judged : (now : Time) → Option (ClientInfo π) → Option (ClientInfo π)
  judged now none = none
  judged now (some info) = verdict now info

  -- A state in which the entry of `k` has become `o`, and nothing else of the client map changed.
  pub record Stored (k : ℤ) (s t : Server π) (o : Option (ClientInfo π)) : Type 0 where
    pub same_time : t.server_time ≡ s.server_time
    pub distinct : Distinct t.client_map
    pub looked_up :
        (j : ℤ) → lookup j t.client_map ≡ (if eq_ℤ k j then o else lookup j s.client_map)

  lookup-erase :
      (k j : ℤ) (m : List (ℤ × ClientInfo π))
      → Distinct m
      → lookup j (erase k m) ≡ (if eq_ℤ k j then none else lookup j m)
  lookup-erase k j m d = elim (Bool-cases (eq_ℤ k j)) [
    | inl e ↦ rw (e, (eq_ℤ_iff k j).0 e) (lookup-erase_self j m d)
    | inr e ↦ rw e (lookup-erase_ne k j m (λ q. ground (arith, eq_ℤ_iff k j)))
  ]

  lookup_same :
      (k j : ℤ) (o : Option (ClientInfo π)) (m : List (ℤ × ClientInfo π))
      → lookup k m ≡ o
      → lookup j m ≡ (if eq_ℤ k j then o else lookup j m)
  lookup_same k j o m e = elim (Bool-cases (eq_ℤ k j)) [
    | inl q ↦ rw (q, ← (eq_ℤ_iff k j).0 q) e
    | inr q ↦ rw q
  ]

  kept-Stored :
      (k : ℤ) (o : Option (ClientInfo π)) (s : Server π)
      → lookup k s.client_map ≡ o
      → Distinct s.client_map
      → Stored k s s o
  kept-Stored k o s e d = record {
    same_time = refl;
    distinct = d;
    looked_up = λ j. lookup_same k j o s.client_map e;
  }

  expel-Stored : (k : ℤ) (s : Server π) → Distinct s.client_map → Stored k s (expel k s) none
  unfolding expel
  expel-Stored k s d = record {
    same_time = refl;
    distinct = Distinct-erase k s.client_map d;
    looked_up = λ j. lookup-erase k j s.client_map d;
  }

  send_heartbeat-Stored :
      (k : ℤ) (info : ClientInfo π) (s : Server π)
      → lookup k s.client_map ≡ some info
      → Distinct s.client_map
      → Stored k s (send_heartbeat k info s) (some (await_reply s.server_time info))
  unfolding send_heartbeat count_sent
  send_heartbeat-Stored k info s e d =
      let same = send-SameClients s k (heartbeat_packet s) in
      record {
        same_time = same.server_time;
        distinct = rw same.client_map (Distinct-update k _ s.client_map d);
        looked_up =
            λ j. rw (same.client_map, same.server_time) (lookup-update k j _ info s.client_map e);
      }

  visit_client-Stored :
      (k : ℤ) (info : ClientInfo π) (s : Server π)
      → lookup k s.client_map ≡ some info
      → Distinct s.client_map
      → Stored k s (visit_client k info s) (verdict s.server_time info)
  unfolding visit_client verdict elapsed is_expired is_due await_reply
  visit_client-Stored k info s e d =
      if_ind₂ (Stored k s) (leb_ℤ (ℤ.pos heartbeat_interval) (elapsed s info))
        (λ _.
          if_ind₂ (Stored k s) (is_expired s info) (λ _. expel-Stored k s d)
            (λ _.
              if_ind₂ (Stored k s) (is_due s info) (λ _. send_heartbeat-Stored k info s e d)
                (λ _. kept-Stored k (some info) s e d)))
        (λ _. kept-Stored k (some info) s e d)

  pub visit-Stored :
      (k : ℤ) (s : Server π)
      → Distinct s.client_map
      → Stored k s (visit k s) (judged s.server_time (lookup k s.client_map))
  unfolding visit
  visit-Stored k s d = go (lookup k s.client_map) refl
    where
      go :
          (o : Option (ClientInfo π))
          → lookup k s.client_map ≡ o
          → Stored k s
              (elim o [ none ↦ s | some info ↦ visit_client k info s ])
              (judged s.server_time o)
      go none e = kept-Stored k none s e d
      go (some info) e = visit_client-Stored k info s e d
