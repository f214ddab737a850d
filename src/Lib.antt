-- ===== src/Lib.antt =====
-- EtherCAT master: a model of the master's core, and what is proved of it.
--
-- The program is a fork of SOEM with a motion layer on top. At the bottom a network driver
-- (oshw/linux/nicdrv.c) moves frames between buffers and raw sockets; the datagram primitives
-- (src/ec_base.c) build frames in these buffers and take the answers out of them; the state machine
-- and motion code for CiA 402 drives (linux_rt/ethercat_rt_core/src/motion_cia402.c) turns statuswords,
-- commands and positions into the process data that go out in every cycle.
--
-- Files:
--   Prelude         library names, tests, lists, integers and bit lemmas that the parts share.
--   Memory          arrays of C as functions of the index, byte buffers, memcpy, little-endian words;
--                   Memory/Circle has circular arrays.
--   Frame           ecx_setupdatagram and ecx_adddatagram of src/ec_base.c, on the bytes of a frame.
--                   Frame/Layout says what stands where, Frame/Chain adds datagrams.
--   Nic             oshw/linux/nicdrv.c: the port with its stacks and indices. Nic/Index is about
--                   ecx_getindex, Nic/Receive about sending and ecx_inframe, Nic/Receive/Match about
--                   how frames find their buffers, Nic/Wait about ecx_waitinframe_red and
--                   ecx_srconfirm with the redundant ring: Nic/Wait/Confirm follows the buffers
--                   through them, Nic/Wait/Wire the frames that are sent.
--   Base            the primitives ecx_BWR to ecx_LRWDC of src/ec_base.c; Base/Transfer has what all of
--                   them guarantee, Base/Wire what they send.
--   Master          src/ec_main.c: Errors is the error list with ecx_pusherror, ecx_poperror and the
--                   reports, Errors/Queue the list as a queue; Mailbox is the mailbox pool, and
--                   Mailbox/Pool follows a pool through its life; Transmit is the queue of
--                   mailboxes of a group with its tickets (ecx_initmbxqueue to ecx_mbxdropqueue, without
--                   ecx_slavembxcyclic), Transmit/Fifo and Transmit/Ticket what it holds; Process is
--                   the index stack and the process data, ecx_send_processdata_group and
--                   ecx_receive_processdata_group, whose pointers into the IO map are offsets. The
--                   receiving loop is given as many rounds as frames are on the stack, the loops that
--                   send one for each segment. Whether the sockets take a frame is an argument,
--                   `taken`. Process/Send sends, Cover, Sizes and Sent say which bytes, Segments
--                   where received bytes go.
--   Config          src/ec_config.c: how ecx_main_config_map_group cuts the process data into segments, from
--                   the bytes that each slave takes. Sums and Bounds are about the sizes, Filled about the
--                   whole list, Behind about the segment where the inputs begin; Sent and Apart
--                   join them with Master/Process/Sent.
--   Mailbox         the mailbox header and counter, and the interface Mailboxes: what a protocol asks of
--                   the exchange with one slave. An implementation of it that counts the mailboxes of the
--                   caller stands there too.
--   Eoe             src/ec_eoe.c: Send is ecx_EOEsend, Receive ecx_EOErecv and
--                   ecx_EOEreadfragment, Params ecx_EOEsetIp and ecx_EOEgetIp, ParamSafety their
--                   mailboxes. Fragment reads back what a sender writes, InStep follows
--                   sender and receiver through a frame, Wire and RoundTrip join them, Steps has the
--                   rounds of the receiver, Ends and Safety are about both loops, ReadFragment about
--                   ecx_EOEreadfragment.
--   Coe             src/ec_coe.c: Read is ecx_SDOread, Write ecx_SDOwrite. Sink and Source are slaves that
--                   follow the SDO protocol, one for downloads and one for uploads, as an independent
--                   description of what a transfer is; Delivery and Written follow a download to a Sink,
--                   Collect and ReadBack an upload from a Source. Steps has the rounds of the loops, Ends
--                   says how long they go on.
--   Foe             src/ec_foe.c: Read is ecx_FOEread, Write ecx_FOEwrite. Bounds is about the loop and the
--                   memory of the reader. Sink is a slave that takes a file in and may be busy; Ready, Resend
--                   and Written follow a file to it, GivesUp is about a slave that is busy when a file is
--                   announced.
--   Dc              src/ec_dc.c: Ports has ecx_porttime, ecx_prevport and ecx_parentport, Sync
--                   ecx_dcsync0 and ecx_dcsync01, Configure ecx_configdc. Ring is about the ports in the
--                   order of a frame, Start and Trigger about the first SYNC0, Entry about the entry
--                   port, Links and Chain about the list of slaves that ecx_configdc makes.
--   Cia402          motion_cia402.c: Drive is state_from_status and sequence_controlword, Text the
--                   names, Command is motion_init and motion_apply, Profile with its children the
--                   profile generator (Ramp the velocity ramps, Scurve the plan of seven segments,
--                   Position the two ways to step towards a position, Step a whole cycle).
--
-- How the state corresponds:
--   - A port is a record of the fields that the code reads and writes. ec_stackT is a record of
--     pointers into the port; here the stack holds what they point to, and the transmit buffers, which
--     both stacks share, stand in the port. `red` is none for ECT_RED_NONE.
--   - Sockets and timers are not part of the program. What a socket takes or gives, whether ppoll
--     succeeds, and when a timer expires are arguments: a Round is one pass of a receive loop, Rounds
--     the passes until its timer expires, Attempts the tries of ecx_srconfirm until its own does. The
--     loops recurse on these sequences, which may have any length, so there is no fuel.
--   - Calls run one at a time: the mutexes of the code are not modelled, and the second look at a
--     buffer under the mutex sees what the first one saw.
--   - The loops of EoE take a number of rounds, one for each mailbox, and a Run says whether the call
--     returned, did what C leaves undefined, or was not done in these rounds. A frame of psize bytes is
--     sent in psize / 32 + 1 rounds at most if a block fits in the mailbox; a receiver may wait for as
--     many mailboxes as a slave sends.
--   - An SDO transfer sees the exchange of mailboxes through Exchange, which also says when the pool has no
--     mailbox. Its loops take a number of rounds, one for each segment: psize / 7 + 1 are enough for a
--     download with any slave, and for an upload from a slave that keeps to the protocol. The request that
--     was given to ecx_mbxsend is read as it was sent.
--   - A file transfer takes a number of rounds, one for each response. The hook of the context is a flag with
--     the list of its calls. A busy slave may have a packet sent again without end, so that the rounds of
--     a write depend on how often it is busy.
--   - The distributed clocks see the registers of the slaves through an interface, Registers: a read gives
--     a number, and leaves the variable when it fails. What a variable holds before it is set is an
--     argument (`stale`, `hrt`). The search for a parent is given as many rounds as the number of the
--     slave, which is enough when each parent stands in front of its children; without this it may
--     need more, and then the result is none. Signed overflow wraps round; a division by 0 gives none.
--   - double is an interface, a record of the operations that the code uses; the theorems hold for any
--     implementation, and those that need an order name the laws they use. An implementation in
--     thousandths makes the definitions run. A null pointer is not a value of a record type, so the
--     tests for it have no counterpart.
--   - Options are those of the build: EC_MAXBUF 16, EC_BUFSIZE 1518, EC_MAXELIST 64, EC_MBXPOOLSIZE
--     32, little endian, and the source addresses 0x0101 and 0x0404.
--
-- Not modelled: the rest of ec_main.c and ec_config.c, and ec_soe.c, the PDO and object dictionary functions of ec_coe.c (the slave level of the
-- master, which calls the primitives above), the server and user programs, the Windows and RTK drivers,
-- the operating system layer, samples, and the code under contrib.
pub mod Prelude
pub mod Cia402
pub mod Memory
pub mod Frame
pub mod Nic
pub mod Base
pub mod Master
pub mod Mailbox
pub mod Dc
pub mod Eoe
pub mod Coe
pub mod Foe
pub mod Config
