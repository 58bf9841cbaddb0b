-- ===== src/Server/Timeouts.antt =====
-- Which clients Server::update drops, and what a ping measures.
use sfrpg.Base.{
  ◌^◌, ◌≤◌, ◌<◌, ◌≡◌, ◌≢◌, sym, ◌∙◌, inl, inr, true, false, none, some, [], ℤ, ap, ◌↔◌, ◌-ℤ◌,
  -ℤ_parts, ◌≤ℤ◌, pos_part, to_u32, arith, Bool-cases, leb_ℤ, lookup, Each-lookup,
}
use sfrpg.Platform.{Platform}
use sfrpg.Server.State.{ClientInfo, Server, client_timeout, heartbeat_interval}
use sfrpg.Server.Heartbeat.{elapsed, is_expired, is_due, await_reply, heard, advance, update_server}
use sfrpg.Server.Invariant.{Beat, Inv, advance-Inv}
use sfrpg.Server.Reach.{Reach, Reach-Inv}
use sfrpg.Server.Visit.{verdict, judged}
use sfrpg.Server.Sweep.{update_server-judged}

to_u32_ge : (d : ℤ) → ℤ.pos 1000 ≤ℤ d → pos_part d < 2 ^ 32 → 1000 ≤ to_u32 d
unfolding to_u32
to_u32_ge (ℤ.pos n) h b = omega arith
to_u32_ge (ℤ.negsuc n) h b = absurd (omega arith)

module _ {π : Platform} where
  open π use {Time, data_size}

  verdict_dropped :
      (s : Server π) (info : ClientInfo π)
      → Beat info
      → leb_ℤ client_timeout (elapsed s info) ≡ false
      → verdict s.server_time info ≢ none
  unfolding verdict elapsed is_expired
  verdict_dropped s info b e = ground arith

  verdict_silent :
      (s : Server π) (info : ClientInfo π)
      → leb_ℤ client_timeout (elapsed s info) ≡ true
      → verdict s.server_time info ≡ none
  unfolding verdict elapsed is_expired
  verdict_silent s info e = ground arith

  -- In every history from a server without clients, an update of the running server drops a client
  -- exactly when the client was last heard a timeout or more before the new time. The count of
  -- heartbeats sent again never decides.
  pub update_server-drops_silent :
      {start s : Server π} (l_time : Time) (j : ℤ) (info : ClientInfo π)
      → Reach start s
      → start.client_map ≡ []
      → s.running ≡ true
      → lookup j (advance l_time s).client_map ≡ some info
      → (lookup j (update_server l_time s).client_map ≡ none)
        ↔ (leb_ℤ client_timeout (elapsed (advance l_time s) info) ≡ true)
  update_server-drops_silent {s} l_time j info reach none_yet r e = (dropped, silent)
    where
      now : Server π
      now = advance l_time s

      inv : Inv now
      inv = advance-Inv l_time s (Reach-Inv reach none_yet)

      judgement : lookup j (update_server l_time s).client_map ≡ verdict now.server_time info
      judgement =
          update_server-judged l_time s r (Reach-Inv reach none_yet).map_ok.distinct j
          ∙ ap (judged now.server_time) e

      dropped :
          lookup j (update_server l_time s).client_map ≡ none
          → leb_ℤ client_timeout (elapsed now info) ≡ true
      dropped gone = elim (Bool-cases (leb_ℤ client_timeout (elapsed now info))) [
        | inl yes_silent ↦ yes_silent
        | inr lately ↦ absurd (
            verdict_dropped now info (Each-lookup Beat j info now.client_map inv.beats e) lately
              (sym judgement ∙ gone))
      ]

      silent :
          leb_ℤ client_timeout (elapsed now info) ≡ true
          → lookup j (update_server l_time s).client_map ≡ none
      silent long = judgement ∙ verdict_silent now info long

  is_due_elapsed :
      (s : Server π) (info : ClientInfo π)
      → is_due s info ≡ true
      → ℤ.pos 1000 ≤ℤ π.as_milliseconds s.server_time -ℤ π.as_milliseconds info.last_heartbeat
  unfolding is_due elapsed
  is_due_elapsed s info due = ground arith

  -- A ping is never below the heartbeat interval: a heartbeat is sent only to a client that was
  -- silent for that long, and the reply, at a time not before the sending, is measured from when the
  -- client was last heard. The difference is taken to fit 32 bits.
  pub heard-ping_ge :
      (s : Server π) (info : ClientInfo π) (now : Time)
      → is_due s info ≡ true
      → π.as_milliseconds s.server_time ≤ℤ π.as_milliseconds now
      → pos_part (π.as_milliseconds now -ℤ π.as_milliseconds info.last_heartbeat) < 2 ^ 32
      → heartbeat_interval ≤ (heard now (await_reply s.server_time info)).ping
  unfolding heard await_reply
  heard-ping_ge s info now due later fits =
      to_u32_ge _
        (omega (
          arith,
          is_due_elapsed s info due,
          -ℤ_parts (π.as_milliseconds now) (π.as_milliseconds info.last_heartbeat),
          -ℤ_parts (π.as_milliseconds s.server_time) (π.as_milliseconds info.last_heartbeat),
        ))
        fits
