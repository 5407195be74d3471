-- ===== src/EntryPoint/Plan.antt =====
-- `shutdown` as a list of calls, made until one rejects.
use video_thingy_rocks.Common.{
  ℕ, ◌≡◌, refl, sym, ap, ◌∙◌, subst, inl, inr, Bool, true, false, Option, none, some, List, [], ◌∷◌,
  ◌++◌, map, Bool-cases,
}
use mathlib.Core.List.{append-nil, append_assoc}
use video_thingy_rocks.EntryPoint.{
  Call, health_server_stop, udp_listener_stop, floor_reset_server_stop, srtp_transport_stop,
  traffic_metrics_stop, release_kinesis_lock, stop_all, Service, Services, State, perform, and_then,
}
use video_thingy_rocks.Transport.Lifecycle.{Lifecycle}

unfoldable pub if_there : Bool → Call → List Call
if_there true c = c ∷ []
if_there false c = []

unfoldable pub transport_calls : Option Lifecycle → List Call
transport_calls none = []
transport_calls (some t) = srtp_transport_stop ∷ []

unfoldable pub keys_of : Option Lifecycle → List ℕ
keys_of none = []
keys_of (some t) = t.keys

-- The calls of a shutdown in which every one resolves.
unfoldable pub plan : {World : Type 0} → Service World → List Call
plan s =
    health_server_stop
    ∷ udp_listener_stop
    ∷ (if_there s.floor_reset_server floor_reset_server_stop
        ++ (transport_calls s.srtp_transport
            ++ (if_there s.traffic_metrics traffic_metrics_stop
                ++ (map release_kinesis_lock s.kinesis_lock_held
                    ++ if_there s.kinesis_ingestion stop_all))))

unfoldable pub proceed : Call → Bool → List Call × Bool → List Call × Bool
proceed c true (made, done) = (c ∷ made, done)
proceed c false rest = (c ∷ [], false)

unfoldable pub exit_code : Bool → ℕ
exit_code true = 0
exit_code false = 1

module _ (srv : Services) (keys : List ℕ) where
  -- The transport's stop does not reject.
  unfoldable pub effect : Call → srv.outside.World → Bool × srv.outside.World
  effect srtp_transport_stop w = (true, (srv.outside.stopping keys w).1)
  effect c w = srv.resolves c w

  -- The calls up to the first that rejects, and whether none did.
  unfoldable pub attempt : List Call → srv.outside.World → List Call × Bool
  unfolding effect proceed
  attempt [] w = ([], true)
  attempt (c ∷ cs) w = let (ok, w') = effect c w in proceed c ok (attempt cs w')

  pub record Follows (s : State srv) (q : List Call) (r : Bool × State srv) : Type 0 where
    pub calls : r.1.calls ≡ s.calls ++ (attempt q s.world).0
    pub done : r.0 ≡ (attempt q s.world).1

  -- The state after a call that resolved.
  abbrev pub after_call : Call → State srv → State srv
  after_call c s = record s { calls = s.calls ++ c ∷ []; world = (effect c s.world).1 }

  pub none-Follows : (s : State srv) → Follows s [] (true, s)
  unfolding attempt
  none-Follows s = record { calls = sym (append-nil s.calls); done = refl }

  pub resolved-Follows :
      (c : Call) (q : List Call) (s : State srv) (r : Bool × State srv)
      → (effect c s.world).0 ≡ true
      → Follows (after_call c s) q r
      → Follows s (c ∷ q) r
  unfolding attempt proceed
  resolved-Follows c q s r e h =
      let rest = attempt q (effect c s.world).1 in
      let made : proceed c (effect c s.world).0 rest ≡ proceed c true rest =
        ap (λ (b : Bool). proceed c b rest) e in
      record {
        calls =
            h.calls
            ∙ append_assoc s.calls (c ∷ []) rest.0
            ∙ ap (λ (m : List Call × Bool). s.calls ++ m.0) (sym made);
        done = h.done ∙ ap (λ (m : List Call × Bool). m.1) (sym made);
      }

  refused-Follows :
      (c : Call) (q : List Call) (s : State srv)
      → (effect c s.world).0 ≡ false
      → Follows s (c ∷ q) (false, after_call c s)
  unfolding attempt proceed
  refused-Follows c q s e =
      let rest = attempt q (effect c s.world).1 in
      let made : proceed c (effect c s.world).0 rest ≡ (c ∷ [], false) =
        ap (λ (b : Bool). proceed c b rest) e in
      record {
        calls = ap (λ (m : List Call × Bool). s.calls ++ m.0) (sym made);
        done = ap (λ (m : List Call × Bool). m.1) (sym made);
      }

  pub then_assoc :
      (x : Bool × State srv) (f g : State srv → Bool × State srv)
      → and_then srv (and_then srv x f) g ≡ and_then srv x (λ s. and_then srv (f s) g)
  unfolding and_then
  then_assoc (true, s) f g = refl
  then_assoc (false, s) f g = refl

  pub perform-Follows :
      (c : Call) (q : List Call) (s : State srv) (next : State srv → Bool × State srv)
      → effect c s.world ≡ srv.resolves c s.world
      → Follows (after_call c s) q (next (after_call c s))
      → Follows s (c ∷ q) (and_then srv (perform srv c s) next)
  unfolding perform and_then
  perform-Follows c q s next same h = rw (sym same) (elim (Bool-cases (effect c s.world).0) [
    | inl e ↦ rw e (resolved-Follows c q s (next (after_call c s)) e h)
    | inr e ↦ rw e (refused-Follows c q s e)
  ])

  then_done : (x : Bool × State srv) → and_then srv x (λ s. (true, s)) ≡ x
  unfolding and_then
  then_done (true, s) = refl
  then_done (false, s) = refl

  pub only-Follows :
      (c : Call) (s : State srv)
      → effect c s.world ≡ srv.resolves c s.world
      → Follows s (c ∷ []) (perform srv c s)
  only-Follows c s same =
      subst (Follows s (c ∷ [])) (then_done (perform srv c s))
        (perform-Follows c [] s (λ s'. (true, s')) same (none-Follows (after_call c s)))
