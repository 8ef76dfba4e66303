-- ===== src/Lib.antt =====
-- The device scan client of HBM: hosts listen for announcements that devices multicast, keep track of
-- the devices that are there, and tell the user of new, changed and vanished ones.
--
-- How the parts interact. `MulticastServer` receives a datagram and the adapter it came from;
-- `Receiver` hands both to `DeviceMonitor::processReceivedAnnouncement`, and a timer of the event loop
-- calls `DeviceMonitor::checkForExpiredTimerCb`. The device monitor parses the message with jsoncpp,
-- builds keys of the parts of a communication path, takes them apart again by `hbm::string::split`,
-- and calls the user back. `SocketNonblocking` reads streams through `BufferedReader`. The sockets,
-- the timer and the notifier register handlers with `EventLoop`, which calls a handler until it finds
-- no more work. `TcpServer` makes sockets of accepted connections, and `ConfigureClient` sends requests
-- by a `MulticastServer` and waits in an event loop for the answer.
--
-- The files.
-- - Base and its children: the native numbers, lists and Boolean tests that the rest is written with,
--   `std::string` as a list of bytes (Base/Text) and the laws of its search (Base/Search).
-- - Result: calls that return or throw. Json: the calls of jsoncpp, as a record of parameters.
-- - Strings/Split, Strings/Replace, Strings/Trim: hbm/string/split.cpp, replace.cpp and trim.cpp, one
--   definition for each function; the children hold what is proved of them.
-- - DeviceMonitor: devscanclient/lib/devicemonitor.cpp. Announcement holds the checks that
--   `processReceivedAnnouncement` makes on a message, CommunicationPath the struct of that name and the
--   key, Table the `std::unordered_map`, State the members of the object and the setters of its
--   callbacks, Process `processReceivedAnnouncement` and the two functions of the expiry. History holds
--   sequences of operations and the abstract registry that they are compared with.
-- - Socket/Kernel: the system calls on a connected socket, as a record of parameters with laws that
--   say what the documentation of `recv`, `send`, `writev` and `poll` says of the bytes that pass.
--   Socket/BufferedReader: hbm/communication/bufferedreader.cpp. Socket/Receive and Socket/Send:
--   `receiveComplete`, `sendBlock` and `sendBlocks` of hbm/communication/linux/socketnonblocking.cpp.
--   Socket/Connection: its other functions, with the system calls as the record Sockets.
--   Socket/TcpServer: hbm/communication/linux/tcpserver.cpp.
-- - Loop: Loop/EventLoop and Loop/Execute model hbm/sys/linux/eventloop.cpp, the list of changes and the
--   map of handlers in the one, `execute` and `execute_for` in the other; Loop/System holds the system
--   calls and the members. A pointer that the kernel keeps is the key of an element and the number of
--   its allocation, so that a dead element can be told from a new one with its key. Loop/Drain says
--   what a callback can do, Loop/Tracked what the kernel does with the pointers. Loop/Timer and
--   Loop/Notifier: hbm/sys/linux/timer.cpp and notifier.cpp.
-- - Configure: devscanclient/lib/configureclient.cpp, the documents of the requests in Requests, the
--   object in Client. Command: hbm/sys/executecommand.cpp.
-- - Adapters: hbm/communication/netadapter.cpp and netadapterlist.cpp. Netadapter holds the class of that
--   name and its tests on addresses, Hardware `getHardwareAddress`, Enumeration `enumAdapters` and the
--   queries, Gateway `getIpv4DefaultGateway`; the list of `getifaddrs` and the other system calls are
--   the record System, the lines of the routing table the record RouteFile.
-- - Multicast: hbm/communication/multicastserver.cpp. Network holds the system calls and the members,
--   Membership the sockets, the groups, start and stop, Sending and Receiving the rest.
-- - Receiver: devscanclient/lib/receiver.cpp and hbm/communication/linux/netlink.cpp. Netlink holds the
--   events that a telegram of the kernel leads to, Handlers `receiveEventHandler` and
--   `netLinkEventHandler`, Forwarding the way of a datagram into the table of announcements, Running the
--   netlink socket and the start and the stop of the receiver.
-- - The modules called Tests: runs at concrete inputs.
--
-- State and calls. An object is a record of its members and of the calls that it has made; a callback
-- is a function from a call to whether it returns or throws. A method is a function from the object to
-- the object. The steady clock is an argument, in nanoseconds. The handlers of the event loop, the
-- timer and the notifier may call the object back: such a handler is a number or a name, and what its
-- call does to the object is a parameter.
--
-- Bounds and fuel. The loop of `split` is on fuel, the length of the text and one more, and is
-- proved to need no more. `replace` takes its fuel as an argument, since there are inputs on which
-- its loop does not end; the loop over the routing table is alike. The loops of the socket end when
-- the number of bytes and the number of times that the kernel lets the caller wait are used up;
-- `IsPatient` says that this number is bounded, and their fuel is the sum of both and one more.
-- `size_t` is written out modulo 2 ^ 64. `changeHandler` is given more fuel than the callbacks can find
-- work and ask for changes, which `AreCallbacks` bounds; `execute` may run for ever, and its rounds are
-- related to a relation instead. The loop round `poll` in `connect` ends with the interruptions, those of
-- `executeCommand` with the bytes.
--
-- Not modelled: jsoncpp, a library of its own; the Windows variants; the command line programs, which
-- print; the mutexes of the adapter list and of the event loop, whose calls from other threads enter as
-- entries of the list of changes; `createId`, which asks the clock and `rand`; the file of the process
-- id; and for now the exception of JSON-RPC. Where the netlink socket reports a change of an address, the
-- calls of the event handler are the result of the model, and are not made within it.
pub mod Base
pub mod Strings
pub mod Result
pub mod Json
pub mod Loop
pub mod Command
pub mod Configure
pub mod DeviceMonitor
pub mod Socket
pub mod Adapters
pub mod Multicast
pub mod Receiver
