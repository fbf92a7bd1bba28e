-- ===== src/Lib.antt =====
-- The protocol stack of eibd, the daemon that connects clients to an EIB/KNX bus.
--
-- Parts, from the bus upwards, and how they meet:
--   * A driver hands frames to layer 3 as LPDU objects and takes frames from it. Lpdu models the frame
--     classes of eibd/libserver/lpdu.h and lpdu.cpp: LPDU::fromPacket with `init` of every class, and
--     ToPacket. A failed assert is `none`.
--   * Layer3 models eibd/libserver/layer3.h and layer3.cpp: who is registered for what, and in
--     Layer3.Run a round of Layer3::Run, which drops repetitions and calls the callbacks. The driver
--     (Layer2Interface in layer2.h) is a log of the calls with the answers that layer 3 looks at;
--     the answers come from outside, and so does the clock, as a function of the number of readings
--     taken in a round. Layer3.System makes histories out of the operations.
--   * Tpdu models the transport layer messages of eibd/libserver/tpdu.h and tpdu.cpp, the payload of a
--     frame.
--   * Layer4 models T_Connection of eibd/libserver/layer4.h and layer4.cpp, with the loop of its thread
--     cut into rounds; Layer4.Reachable has its histories as a step relation, Layer4.Exchange two of
--     them that talk to one another, and Layer4.Opening what the constructor and the destructor ask
--     of layer 3. Socket models the connectionless endpoints of the same files, T_Broadcast, T_Group,
--     T_TPDU, T_Individual and GroupSocket, with their registration in layer 3.
--   * GroupCache models eibd/libserver/groupcache.h and groupcache.cpp, the sorted array of the last
--     values and, in GroupCache.Ring, the ring of updates. GroupCache.Map says what the cache promises
--     without array or order.
--   * Emi models eibd/libserver/emi.h and emi.cpp, the formats in which bus interfaces exchange frames
--     with the host.
--   * Apdu models the messages of the application layer, the payload of a transport layer message, in
--     eibd/libserver/apdu.h and apdu.cpp: Apdu.Group, Domain, Property, Memory and Access have `init` and
--     ToPacket of the classes, Apdu.Codec has APDU::fromPacket, Apdu.Answers has isResponse.
--   * EibNetIp models the packets and messages of EIBnet/IP, eibd/libserver/eibnetip.h and eibnetip.cpp:
--     each class has ToPacket and its parser.
--   * Layer7 models the requests to a device of eibd/libserver/layer7.h and layer7.cpp, and in
--     Layer7.Management and Layer7.Scan those of management.cpp, over a record of Send and Get that
--     stands for a connection. The scan of properties runs on fuel, since it ends only with a device
--     that stops to answer with properties; Layer7.Catalogue has such a device, for which more rounds
--     than objects, and than properties of an object, are enough.
--     Layer7.Device has a device that answers to memory requests; Layer7.Blocks the block operations,
--     with as many rounds as there are bytes, since each round moves on by one at least.
--   * Array and Queue model common/array.h and eibd/libserver/queue.h, which the others use, the sort
--     of Array.Sort on numbers with as many rounds as the loops have. Base has
--     what all share: numbers, bytes, bit masks as arithmetic, lists and searches.
--
-- Numbers are natural numbers; a field of eight or sixteen bits keeps its masks and its wrap-around as
-- the code writes them. Memory that `new T[n]` leaves unset, and the time of an entry that has
-- none, are parameters. Loops are structural recursion, or recursion on fuel where the code restarts
-- or jumps: the purge of layer 3 has as much fuel as there are entries, since each restart deletes
-- one; the binary search of the group cache as much as there are places, since each round shortens
-- the range; the two loops of LastUpdates 256 steps, since `start` is at most that far from `pos`
-- once it is adjusted.
--
-- Not modelled: text output (Decode) and traces; GNU Pth, whose events and semaphores appear as which
-- event comes next and as numbers; the drivers, with the asserts that they make on the frames that they
-- are given; the destructors that only free memory;
-- the EMI1 and EMI2 drivers, the sockets and the server of EIBnet/IP, the client connections and the
-- management procedures that they start, and the BCU tools.
pub mod Base
pub mod Array
pub mod Lpdu
pub mod Tpdu
pub mod Layer3
pub mod Queue
pub mod Layer4
pub mod GroupCache
pub mod Socket
pub mod Emi
pub mod Apdu
pub mod EibNetIp
pub mod Layer7
