-- ===== src/Lib.antt =====
-- Verification of programs of a networking course, written in C: the Mini Reliable Transport
-- of lab3, a reliable byte stream over UDP, the chatroom of lab2, over TCP, and the STUN clients
-- of lab4.
--
-- The transport. A sending process uses lab3/mrt_sender.c: mrt_connect(), mrt_send() and
-- mrt_disconnect() work on a `connection_t` that three threads share with them. handler() takes in
-- the receiver's transmissions, sender() sends the next payload of the window or an empty DATA, and
-- checker() closes an inactive connection. A receiving process uses lab3/mrt_receiver.c: one
-- main_handler() takes in the transmissions of all senders, which stand in two queues, and
-- mrt_accept1(), mrt_receive1() and mrt_probe() work on these under one lock, q_lock. Both sides
-- take the queue from lab3/Queue.c, the hash from lab3/utilities.c and the layout of a transmission
-- from lab3/mrt.h.
--
-- The chatroom. lab2/client.c has two threads: one sends the lines of its user, the other prints
-- what comes in. lab2/server.c has a thread for each accepted socket, which sends every
-- transmission on to all accepted sockets. lab2/dpp.c builds and parses the transmissions.
--
-- The STUN clients. lab4/stun_symmetry.c asks several servers for the address that they see, reads
-- the attributes of their responses, and compares each address with the first one.
-- lab4/stun_cone_level.c asks one server to answer from another port or address.
--
-- The files, with the code that each one models.
--   Prelude   what the files share; Prelude/Int is C's `int`, whose sums wrap at 32 bits.
--   Bytes     memmove() within buffers of fixed size, and little-endian numbers.
--   Hash      hash() of lab3/utilities.c, on 64 bits.
--   Mrt       the constants of lab3/mrt.h.
--   Queue     lab3/Queue.c, on a memory of nodes: make_q(), enq_q(), deq_q(), delete_q(),
--             iterate_q(), peek_q(), get_item_q(), pop_item_q(), delete_integer_targets_q().
--             Queue/Refine shows that a queue implements a list. Freeing:
--             delete_integer_targets_q() of lab2/Queue.c, which frees the numbers as well.
--   Packet    what the build_x() functions and the handlers do to a transmission: a field is
--             written or read, the hash is put in or compared.
--   Receiver  lab3/mrt_receiver.c. State: `sender_t`, the globals, and its queues as lists of
--             pointers. Build: build_acon(), build_adat(), build_acls(). Handle: main_handler(),
--             round by round. Api: mrt_open(), mrt_accept1(), mrt_accept_all(), mrt_receive1(),
--             mrt_probe(), mrt_close() and checker(). Receive1: how a round of mrt_receive1()
--             ends. Invariant: what holds between two steps.
--             Deliver: what a sender's DATA become for the user.
--   Sender    lab3/mrt_sender.c. State: `connection_t`. Build: build_rcon(), build_data_empty(),
--             build_data(), build_rcls(). Threads: handler(), sender() and checker(), round by
--             round. Api: mrt_connect(), mrt_send() and mrt_disconnect(). Window: the payloads that
--             are buffered and not acknowledged. Fragments: how many fragments mrt_send() waits for.
--             Moving: the memmove()s of an ADAT that frees payloads.
--             Process: any number of connections as blocks of memory, with the queue of pointers to
--             them, the two locked parts of mrt_connect(), the threads of each connection, and
--             connection_t_free() at the end of handler().
--   Transport lab3/mrt_sender.c and lab3/mrt_receiver.c together: the rounds of sender(), mrt_send()
--             and mrt_receive1() on one connection that both sides have opened, and a network that
--             brings in any datagram that was sent, any number of times and in any order. Call: a
--             call of mrt_send() from its first lookup to what it returns, with checker() and the
--             end of handler() besides these rounds. RoundRobin: the threads of both sides in turns.
--   Dpp       lab2/dpp.c: the build functions, parse_transmission() and is_quit(). Search: strstr()
--             and the ends of texts. Safety: what can be read behind the pointers.
--   Chat      lab2/server.c and lab2/client.c. Server: the loop of main() and the steps of
--             server_receiver(). System: these in any order. Client: the checks of the username and
--             the two loops. Hearing and Speaking: one round of a client. Conversation and Leaving:
--             two clients and the server together.
--   Stun      lab4/stun_symmetry.c: response_handler(). Verdict: the comparison of the addresses.
--             Walk: the loop over the attributes of a response. ConeLevel:
--             lab4/stun_cone_level.c, response by response. Requests: what both of them send.
--   Tests     runs of the theorems at small inputs.
--
-- How code is modelled. What a lock guards is one step from state to state, and a call that waits or
-- loops is given by its rounds, so that other steps can stand between them. `none` is a fault: a
-- read or write of memory that is not allocated or outside a buffer, or a memmove() of a negative
-- number of bytes. What the environment decides is an argument: the bytes and the address of
-- recvfrom(), the block of a malloc(), and which system calls succeed. Buffers have the sizes of the
-- code.
--
-- Fuel. The loops over a queue take fuel, and the theorems on them ask for more fuel than the queue
-- has nodes, which each loop needs and no more. mrt_accept_all() takes fuel too, one for each
-- pending sender and one for the last test. The loop over the attributes of a response takes fuel,
-- one for each attribute and one for the last test; it says so when that is used up, since some
-- responses keep the loop going for ever.
--
-- Not modelled: the sockets, the threads' scheduling and the locks themselves; the demonstration
-- programs of lab3. Sender/Process leaves out the failures of malloc() and of the system calls, and
-- the waiting loop of mrt_connect(), which keeps its pointer without a lookup and can go on with a
-- connection that handler() has freed; Api has the rounds of this loop for one connection. Transport
-- starts with an open connection and leaves out other senders, the opening and closing transmissions
-- that come late, mrt_disconnect(), the receiver's checker() and, outside Call and RoundRobin, the
-- sender's. Of the chatroom, TCP is an argument: what recv() returns, which number accept() gives,
-- and whether send() succeeds; the theorems on two clients say that a transmission comes in one
-- piece. The functions that lab2/Queue.c has in common with lab3/Queue.c are not modelled again, and
-- the server's queue is taken as a list, which Chat/Sockets sets beside the nodes and numbers of
-- Queue/Freeing. What getnameinfo() prints for an address is a parameter. The sockets of lab4, and
-- lab1, which has only socket calls, are left out.
pub mod Prelude
pub mod Bytes
pub mod Hash
pub mod Queue
pub mod Mrt
pub mod Packet
pub mod Receiver
pub mod Sender
pub mod Transport
pub mod Dpp
pub mod Chat
pub mod Stun
pub mod Tests
