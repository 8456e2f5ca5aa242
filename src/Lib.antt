-- ===== src/Lib.antt =====
-- A chat system in Go (chat_test/src/chat-system): clients log in over TCP, their lines are
-- filtered for bad words and sent to all, and the last lines and the words said most can be asked
-- for. Every path below is under chat_test/src/chat-system, but for index.js and node_modules.
--
-- - Coder (coder/): ClientCoder.go and ServerCoder.go encrypt and decrypt packets. Protocol is
--   util_c.go, Packet is utils.go and protocol.go, Keys is keys.go; Loops is the loop over the bytes
--   that both coders have. A method takes the coder's state and returns the new state with an
--   Outcome: a value, a returned error, or a panic. InStep is the invariant of two coders between
--   packets; Upstream, Downstream and RoundTrip are one packet in each direction, Session is a
--   conversation.
-- - NetMsg (tcp/netmsg.go, and DataToBuf of util/type.go): a message is its buffer.
-- - Delegate (tcp/netdelegate.go): RecvMsg and SendMsg on a connection, which is the bytes that will
--   have arrived and those written; Dispatch is Handle and HandleMsg; Settings is Init, the setters
--   and the callbacks; Crossing and Exchange are a message from the one program to the other.
-- - TcpClient (tcp/tcpclient.go): the queue between SendAsync and the writer, as a step relation;
--   Life is Connect, Stop and StopAsync, as the events that they set off; Loops is the reader and the
--   writer on a connection, the reader on fuel, of which Loops/Ends shows that one round more than
--   there are bytes is enough; Identity is Ip, RealIp, Info and Ping.
-- - TcpServer (tcp/tcpserver.go): the clients, the load and the table of servers; Listening is the
--   loop that accepts, Start, Stop and what Serve does with a signal; Serving is a server at work, as
--   a step relation.
-- - History (history.go), Popular (popular.go), Badwords (badwords/badwords.go): the lines kept, the
--   words counted, the dictionary and the search.
-- - Service (service.go, with the numbers of main.go and the messages of proto/json_struct.go): who
--   is logged in, and what each message does. It uses History, Popular and Badwords. Service/Serving
--   is the table of handlers and the service at work, a step relation in which tasks run in any
--   order; Clean is what it keeps and sends; Requests is the service behind the reader, the coders
--   and HandleMsg.
-- - Program (main.go): what the test client sends.
-- - Timer (timer/timer.go): the timers and the signal. Timer/Heap has Less, Swap and the Fix of Go's
--   container/heap; its fuel is the index or the length, which Heap/Up and Heap/Down show is enough.
--   Armed is the invariant that the signal is set for the first timer.
-- - Log (log/log.go): the settings and the calls that log a line; Log/State is its variables
--   and the buffer, Log/Files the choice of the file, its opening and the writing, Log/Setters the
--   calls that change a setting.
-- - Util (util/type.go): TypeConversion.
-- - Common: lists, maps, texts, bits, machine words and Outcome. Tests: concrete runs.
--
-- Numbers are native naturals; a byte, uint16 or uint32 is reduced by u8, u16 or u32 where the
-- source's type does it; the seconds since a login, which may be negative, are an integer of
-- Common. Each mutex makes a call one step. Loops are structural recursion, but for the two of the
-- heap and the reader. JSON, the random number of the first packet, the clock (at every reading)
-- and its texts, what the network and the file system allow, what Write does, and the order that
-- map iteration and an unstable sort leave open are arguments. A text is a list of characters.
--
-- Not modelled: the rest of util/ (reflection, the text of a panic, the loop that waits for signals),
-- the tests, index.js and node_modules. A handler, or a task that it starts, is one step of the service.
pub mod Common
pub mod Coder
pub mod NetMsg
pub mod History
pub mod Delegate
pub mod Badwords
pub mod Popular
pub mod Service
pub mod Program
pub mod TcpServer
pub mod TcpClient
pub mod Timer
pub mod Util
pub mod Log
mod Tests
