-- ===== src/TrafficMetrics/Tests.antt =====
-- Traffic around a request that fails and one that succeeds.
use video_thingy_rocks.Common.{◌≡◌, refl, true, false, List, [], ◌∷◌}
use video_thingy_rocks.TrafficMetrics.{
  Event, receive, request, respond, new_metrics, srtp_transport, handle_events,
}
use video_thingy_rocks.TrafficMetrics.Conservation.{balance, arrived, handle_events-conserve}

abbrev traffic : List Event
traffic =
    receive srtp_transport 10
    ∷ request 1
    ∷ receive srtp_transport 5
    ∷ respond false
    ∷ request 2
    ∷ receive srtp_transport 1
    ∷ respond true
    ∷ []

publishes_once : (handle_events traffic (new_metrics true)).publish_count ≡ 1
unfolding handle_events
publishes_once = refl

handle_events-conserve_example :
    balance srtp_transport (handle_events traffic (new_metrics true))
    ≡ arrived srtp_transport traffic
handle_events-conserve_example = handle_events-conserve srtp_transport traffic true
