-- ===== src/Receiver/Probe.antt =====
-- mrt_probe(): no sender is ever found.
use cosc_60_computer_network.Prelude.{◌≡◌, refl, none, some, List, [], ◌∷◌}
use cosc_60_computer_network.Receiver.State.{SockaddrIn, Receiver}
use cosc_60_computer_network.Receiver.Api.{probe_for_one, probe_all, mrt_probe}

-- Whatever the IDs and whatever is unread, mrt_probe() comes to its end and returns NULL.
pub mrt_probe-none : (r : Receiver) (ids : List SockaddrIn) → mrt_probe r ids ≡ some none
unfolding mrt_probe probe_all probe_for_one
mrt_probe-none r [] = refl
mrt_probe-none r (id ∷ ids) = mrt_probe-none r ids
