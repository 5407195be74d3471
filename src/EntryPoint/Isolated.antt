-- ===== src/EntryPoint/Isolated.antt =====
-- `start`: nothing of the SRTP transport keeps the unencrypted one from serving.
use video_thingy_rocks.Common.{
  ℕ, ◌≡◌, refl, ap, ◌∙◌, Bool, true, false, Option, none, some, List, [], ◌∷◌,
}
use video_thingy_rocks.Transport.Config.{ConfigResult, off, invalid, configured}
use video_thingy_rocks.Transport.Lifecycle.{
  Outside, Lifecycle, new_lifecycle, start_transport, with_credentials, with_keys, start_failed,
  supervise,
}
use video_thingy_rocks.EntryPoint.{
  Call, ensure_aws_credentials, health_server_start, udp_listener_start, Services, State,
  new_service, perform, and_then, start_floor_resets, start_srtp, start_primary, started, start,
}
use video_thingy_rocks.EntryPoint.Plan.{attempt, effect, only-Follows, perform-Follows}

-- The transport has ports that it supervises.
abbrev pub Supervises : Option Lifecycle → Type 0
Supervises transport =
    (t : Lifecycle) × (port : ℕ) × (ports : List ℕ) × (transport ≡ some t) × (t.keys ≡ port ∷ ports)

abbrev pub primary : List Call
primary = ensure_aws_credentials ∷ health_server_start ∷ udp_listener_start ∷ []

-- The exit code of a start whose primary part came up, or did not.
unfoldable pub exit_of : Bool → Option ℕ
exit_of true = none
exit_of false = some 1

module _ (out : Outside) where
  with_keys-keys :
      (keyed : Option (List ℕ)) (t : Lifecycle) (w : out.World)
      → (with_keys out keyed t w).0 ≡ true
      → (port : ℕ) × (ports : List ℕ) × ((with_keys out keyed t w).1.keys ≡ port ∷ ports)
  unfolding with_keys start_failed supervise
  with_keys-keys none t w e = absurd cc
  with_keys-keys (some []) t w e = absurd cc
  with_keys-keys (some (port ∷ ports)) t w e = (port, ports, refl)

  with_credentials-keys :
      (start end : ℕ) (there : Option Bool) (t : Lifecycle) (w : out.World)
      → (with_credentials out start end there t w).0 ≡ true
      → (port : ℕ) × (ports : List ℕ) × ((with_credentials out start end there t w).1.keys
          ≡ port ∷ ports)
  unfolding with_credentials start_failed
  with_credentials-keys start end none t w e = absurd cc
  with_credentials-keys start end (some false) t w e = absurd cc
  with_credentials-keys start end (some true) t w e = with_keys-keys _ t _ e

  -- A transport that was not started and says that it serves supervises some port.
  pub start_transport-keys :
      (start end : ℕ) (w : out.World)
      → (start_transport out start end new_lifecycle w).0 ≡ true
      → (port : ℕ) × (ports : List ℕ) × ((start_transport out start end new_lifecycle w).1.keys
          ≡ port ∷ ports)
  unfolding start_transport
  start_transport-keys start end w e = with_credentials-keys start end _ _ _ e

module _ (srv : Services) where
  -- What starting the SRTP transport leaves of the rest.
  record Contained (s s' : State srv) : Type 0 where
    exited : s'.exited ≡ s.exited
    serving : s'.unencrypted_serving ≡ s.unencrypted_serving
    resets : s'.floor_reset_server ≡ true → Supervises s'.srtp_transport

  start_floor_resets-Contained :
      (serves : Bool) (s : State srv)
      → s.floor_reset_server ≡ false
      → (serves ≡ true → Supervises s.srtp_transport)
      → Contained s (start_floor_resets srv serves s)
  unfolding start_floor_resets perform
  start_floor_resets-Contained true s none_yet supervises = record {
    exited = refl;
    serving = refl;
    resets = λ e. supervises refl;
  }
  start_floor_resets-Contained false s none_yet supervises = record {
    exited = refl;
    serving = refl;
    resets = λ e. absurd cc;
  }

  start_srtp-Contained :
      (config : ConfigResult) (s : State srv)
      → s.floor_reset_server ≡ false
      → Contained s (start_srtp srv config s)
  unfolding start_srtp
  start_srtp-Contained off s none_yet = record {
    exited = refl;
    serving = refl;
    resets = λ e. absurd cc;
  }
  start_srtp-Contained invalid s none_yet = record {
    exited = refl;
    serving = refl;
    resets = λ e. absurd cc;
  }
  start_srtp-Contained (configured prefix first last) s none_yet =
      let r = start_transport srv.outside first last new_lifecycle s.world in
      let h =
        start_floor_resets-Contained r.0 (record s { srtp_transport = some r.1; world = r.2 })
          none_yet
          (λ e.
            let (port, ports, keys) = start_transport-keys srv.outside first last s.world e in
            (r.1, port, ports, refl, keys)) in
      record { exited = h.exited; serving = h.serving; resets = h.resets }

  -- What a state that the primary part leaves may be: nothing of the rest is there yet.
  record Unstarted (s : State srv) : Type 0 where
    exited : s.exited ≡ none
    serving : s.unencrypted_serving ≡ false
    resets : s.floor_reset_server ≡ false

  and_then-Unstarted :
      (r : Bool × State srv) (next : State srv → Bool × State srv)
      → Unstarted r.1
      → ((s : State srv) → Unstarted s → Unstarted (next s).1)
      → Unstarted (and_then srv r next).1
  unfolding and_then
  and_then-Unstarted (true, s) next h step = step s h
  and_then-Unstarted (false, s) next h step = h

  perform-Unstarted : (c : Call) (s : State srv) → Unstarted s → Unstarted (perform srv c s).1
  unfolding perform
  perform-Unstarted c s h = record { exited = h.exited; serving = h.serving; resets = h.resets }

  start_primary-Unstarted : (s : State srv) → Unstarted s → Unstarted (start_primary srv s).1
  unfolding start_primary
  start_primary-Unstarted s h =
      and_then-Unstarted (perform srv ensure_aws_credentials s)
        (λ s₁. and_then srv (perform srv health_server_start s₁) (perform srv udp_listener_start))
        (perform-Unstarted ensure_aws_credentials s h)
        (λ s₁ h₁.
          and_then-Unstarted (perform srv health_server_start s₁) (perform srv udp_listener_start)
            (perform-Unstarted health_server_start s₁ h₁) (perform-Unstarted udp_listener_start))

  start_primary-done :
      (s : State srv) → (start_primary srv s).0 ≡ (attempt srv [] primary s.world).1
  unfolding start_primary effect
  start_primary-done s =
      (perform-Follows srv [] ensure_aws_credentials (health_server_start ∷ udp_listener_start ∷ [])
        s (λ s₁. and_then srv (perform srv health_server_start s₁) (perform srv udp_listener_start))
        refl
        (perform-Follows srv [] health_server_start (udp_listener_start ∷ []) _
          (perform srv udp_listener_start) refl
          (only-Follows srv [] udp_listener_start _ refl))).done

  -- What a start comes to, when the primary part came up or not.
  record Ends (ok : Bool) (s : State srv) : Type 0 where
    exited : s.exited ≡ exit_of ok
    serving : s.unencrypted_serving ≡ ok
    resets : s.floor_reset_server ≡ true → Supervises s.srtp_transport

  started-Ends :
      (config : ConfigResult) (r : Bool × State srv)
      → Unstarted r.1
      → Ends r.0 (started srv config r)
  unfolding started exit_of
  started-Ends config (true, s) h =
      let c =
        start_srtp-Contained config
          (record s { traffic_metrics = true; unencrypted_serving = true }) h.resets in
      record { exited = c.exited ∙ h.exited; serving = c.serving; resets = c.resets }
  started-Ends config (false, s) h = record {
    exited = refl;
    serving = h.serving;
    resets = λ e. absurd cc;
  }

-- Whatever the SRTP configuration, the key store, the credentials of the helpers and the API for
-- resets do: a start exits, with code 1, exactly if the credentials, the health server or the UDP
-- listener failed, the unencrypted transport serves exactly if none of them did, and the API for
-- resets runs only beside a transport that supervises at least one port.
pub start-isolated :
    (srv : Services) (config : ConfigResult) (kinesis_ingestion : Bool) (w : srv.outside.World)
    → let s = start srv config (new_service srv kinesis_ingestion w) in
      let ok = (attempt srv [] primary w).1 in
      (s.exited ≡ exit_of ok)
      × (s.unencrypted_serving ≡ ok)
      × (s.floor_reset_server ≡ true → Supervises s.srtp_transport)
unfolding start
start-isolated srv config kinesis_ingestion w =
    let s = new_service srv kinesis_ingestion w in
    let h =
      started-Ends srv config (start_primary srv s)
        (start_primary-Unstarted srv s (record { exited = refl; serving = refl; resets = refl })) in
    let done = start_primary-done srv s in (h.exited ∙ ap exit_of done, h.serving ∙ done, h.resets)
