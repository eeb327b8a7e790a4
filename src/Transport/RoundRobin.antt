-- ===== src/Transport/RoundRobin.antt =====
-- A call of mrt_send() of lab3/mrt_sender.c while the threads of both sides take turns, and a network
-- that brings in what is sent at once: the user reads all there is, sender() takes its turn, its
-- datagram comes in, so does the ADAT that main_handler() answers with, and the sender's checker()
-- takes its turn.
pub mod Acknowledges
pub mod Sends
pub mod Steps
pub mod Cycle
pub mod Returns
use cosc_60_computer_network.Prelude.{ℕ, zero, suc, List, [], ◌∷◌}
use cosc_60_computer_network.Transport.Call.{
  Turn, round, event, sends, arrives, acknowledges, reads, checks,
}

-- So many times a turn of each. The newest datagrams stand in front.
pub cycles : ℕ → List Turn
cycles zero = []
cycles (suc k) =
    round
    ∷ event (reads 2440)
    ∷ event sends
    ∷ event (arrives 0 0 [])
    ∷ event (acknowledges 0)
    ∷ event checks
    ∷ cycles k
