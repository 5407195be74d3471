-- ===== src/Listener/Tests.antt =====
-- A network in which the third port is taken.
use video_thingy_rocks.Common.{ℕ, ◌≡◌, refl, false, not, [], ◌∷◌, ◌==◌}
use video_thingy_rocks.Listener.{
  Network, Listener, ports_from, get_port_range, try_bind, bind_port, start_ports, start,
}
use video_thingy_rocks.Listener.Bound.{Starts, start-Starts}

abbrev network : Network
network = record { World = ℕ; bind = λ port n. (not (port == 5002), n) }

abbrev unstarted : Listener network
unstarted = record { sockets = []; waited_ms = 0; world = 0 }

unstarted_lem :
    start network 5000 5003 unstarted
    ≡ (false, record { sockets = 5000 ∷ 5001 ∷ []; waited_ms = 7000; world = 0 })
unfolding start start_ports bind_port try_bind ports_from
unstarted_lem = refl

start-Starts_example :
    Starts network (get_port_range 5000 5003) unstarted (start network 5000 5003 unstarted)
start-Starts_example = start-Starts network 5000 5003 unstarted
