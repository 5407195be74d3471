-- ===== src/TrafficMetrics.antt =====
-- backend/src/TrafficMetrics.ts: the byte counters of the transports, and their publishing. While a
-- request is in flight other calls go on; a second publish waits for the first.
pub mod Conservation
mod Tests
use video_thingy_rocks.Common.{
  ℕ, ◌+◌, String, Bool, true, false, not, ◌||◌, List, [], ◌∷◌, ◌++◌, str_eq, ltb, if◌then◌else◌,
}

abbrev pub unencrypted_transport : String
unencrypted_transport = "unencrypted"

abbrev pub srtp_transport : String
srtp_transport = "srtp"

-- A sample's time is when its snapshot was taken.
pub record TransportTrafficSample : Type 0 where
  pub transport : String
  pub bytes : ℕ
  pub serving : ℕ
  pub time : ℕ

-- A counter is added to, or set for the first time behind the others.
unfoldable pub add_bytes : String → ℕ → List (String × ℕ) → List (String × ℕ)
add_bytes transport bytes [] = (transport, bytes) ∷ []
add_bytes transport bytes ((t, n) ∷ rest) =
    let later = add_bytes transport bytes rest in
    if str_eq t transport then (t, n + bytes) ∷ rest else (t, n) ∷ later

-- `in_flight` are the samples of the request that is awaited, and `busy` says that there is one.
-- `published` are the samples of the requests that succeeded; no code reads them.
pub record TrafficMetrics : Type 0 where
  pub enabled : Bool
  pub received : List (String × ℕ)
  pub is_serving : String → Bool
  pub busy : Bool
  pub in_flight : List TransportTrafficSample
  pub published : List TransportTrafficSample
  pub publish_count : ℕ

abbrev pub new_metrics : Bool → TrafficMetrics
new_metrics enabled = record {
  enabled = enabled;
  received = (unencrypted_transport, 0) ∷ (srtp_transport, 0) ∷ [];
  is_serving = λ t. false;
  busy = false;
  in_flight = [];
  published = [];
  publish_count = 0;
}

unfoldable pub record_received : String → ℕ → TrafficMetrics → TrafficMetrics
unfolding add_bytes
record_received transport bytes m = record m { received = add_bytes transport bytes m.received }

abbrev pub set_serving : String → Bool → TrafficMetrics → TrafficMetrics
set_serving transport serving m = record m {
  is_serving = λ t. if str_eq t transport then serving else m.is_serving t;
}

unfoldable pub samples_of : (String → Bool) → ℕ → List (String × ℕ) → List TransportTrafficSample
samples_of serving now [] = []
samples_of serving now ((t, n) ∷ rest) =
    record { transport = t; bytes = n; serving = if serving t then 1 else 0; time = now }
    ∷ samples_of serving now rest

unfoldable pub clear : List (String × ℕ) → List (String × ℕ)
clear [] = []
clear ((t, n) ∷ rest) = (t, 0) ∷ clear rest

unfoldable pub restore : List TransportTrafficSample → List (String × ℕ) → List (String × ℕ)
unfolding add_bytes
restore [] received = received
restore (s ∷ samples) received =
    restore samples (if ltb 0 s.bytes then add_bytes s.transport s.bytes received else received)

-- `publishNow` up to the request.
unfoldable pub begin_publish : ℕ → TrafficMetrics → TrafficMetrics
unfolding samples_of clear
begin_publish now m = if not m.enabled || m.busy then m else record m {
  busy = true;
  in_flight = samples_of m.is_serving now m.received;
  received = clear m.received;
}

-- `publishNow` after the request, which succeeded or not.
unfoldable pub end_publish : Bool → TrafficMetrics → TrafficMetrics
unfolding restore
end_publish succeeded m =
    if not m.busy
    then m
    else if succeeded
    then record m {
      busy = false;
      in_flight = [];
      published = m.in_flight ++ m.published;
      publish_count = m.publish_count + 1;
    }
    else record m { busy = false; in_flight = []; received = restore m.in_flight m.received }

pub data Event : Type 0 where
  receive : (transport : String) (bytes : ℕ) → Event
  serve : (transport : String) (serving : Bool) → Event
  request : (now : ℕ) → Event
  respond : (succeeded : Bool) → Event

unfoldable pub handle_event : Event → TrafficMetrics → TrafficMetrics
unfolding record_received begin_publish end_publish
handle_event (receive transport bytes) m = record_received transport bytes m
handle_event (serve transport serving) m = set_serving transport serving m
handle_event (request now) m = begin_publish now m
handle_event (respond succeeded) m = end_publish succeeded m

unfoldable pub handle_events : List Event → TrafficMetrics → TrafficMetrics
unfolding handle_event
handle_events [] m = m
handle_events (e ∷ es) m = handle_events es (handle_event e m)
