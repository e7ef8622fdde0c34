-- ===== src/Lib.antt =====
-- multiserver is a reverse proxy between Minetest clients and several Minetest servers. Every
-- client has one connection to the proxy and, behind it, one to the server that it plays on;
-- packets go through the proxy, which rewrites what differs between the servers, and clients move
-- between servers without reconnecting. Accounts, privileges and bans stand in a database.
--
-- The parts, their code and their files:
-- - Shared: lists, maps and byte strings over the native numbers, and the results of runs that may
--   panic (Shared/Run.antt). Text: what the program uses of package strings.
-- - Wire (readwrite.go): a reader is the packet and a position, a writer the bytes written.
--   ReadUint16 is read_uint16, WriteBytes16 is write_bytes16, and so on. A short read leaves zeros,
--   and the length prefixes wrap around, as in the code.
-- - Conn (conn.go): the fields of a connection.
-- - ActiveObject (active_object.go): process_ao_msgs is processAoMsgs, ao_msg_replace_ids is
--   aoMsgReplaceIDs; RmAdd has processAoRmAdd, with one definition for each of its loops and for
--   each kind of added object. An index out of range is the result panic. Messages.antt and
--   RmAdd/Objects.antt describe packets independently of the code, by the messages and objects they
--   hold.
-- - Database (db.go, the tables of auth.go): an interface with the statements that the program
--   executes and the laws of SQL for them. Any operation may fail. Memory.antt fills the interface.
-- - Auth (auth.go): the text form of the SRP tokens, create_user, password, set_password, and the
--   passphrase of the proxy (load_passphrase is the init of the file).
-- - Login (init.go): login_packet is one round of the loop of Init that initialises a client, with
--   one definition for each packet (Login/Rounds.antt). A round gives the connection, the database,
--   the packets sent, and how the loop goes on.
-- - Console (log.go, console.go): append_pop, log_write (Logger.Write), and the history with
--   history_add, history_prev and history_next; Console/Complete.antt has autoComplete. An index or
--   slice out of range is the result panic.
-- - Command (command.go): processPktCommand is server_packet for packets from servers and
--   client_packet for packets from clients (the constants are in Command/Codes.antt). A packet that
--   another part of the program decides on is the outcome delegated. What is sent beside the packet
--   is a list of effects; whether a packet could be sent is not part of the model.
-- - Nodes (nodedef.go, blockdata.go): merge_nodedefs is mergeNodedefs, with one definition for each
--   of its loops; Nodes/Blocks.antt has processBlockdata and processAddnode. A `range` over a map
--   goes in the order of the list that stands for it, so what holds for every list holds for every
--   order.
-- - Config (config.go, conn.go): the parsed configuration as a data type, conf_key (ConfKey), and
--   server_name and conns_server (ServerName, ConnsServer). A failed type assertion is the result
--   panic.
-- - Redirect (redirect.go): choose_server is the first half of the method Redirect,
--   Redirect/Packets.antt has the packets of the second half and Redirect/Sending.antt their order,
--   the errors of Send, and processRedirectDone.
-- - Media (media.go): send_media is sendMedia, Media/Fetch.antt one round of the loop of
--   fetchMedia, Media/Announce.antt announceMedia, Media/Hex.antt and Media/Cache.antt the digests
--   and the cache.
-- - Rpc (rpc.go): process_rpc is processRPC, with one definition for each command in
--   Rpc/Requests.antt; handle_rpc is one round of the loop of handleRPC. What a message leads to is
--   a list of effects.
-- - Chat (chat.go, igutils.go): process_chat_message is processChatMessage, with the functions of
--   the commands as numbers; Chat/Grants.antt has the functions of the commands grant and revoke,
--   Chat/Servers.antt those that send players to servers, Chat/Moderation.antt those that look at
--   players and send them away.
-- - Proxy (listen.go, proxy.go, multiserver.go): accept is Listener.Accept, after_init the
--   goroutine of main, and proxy the function Proxy, over the list of what its rounds receive.
-- - Privs (privs.go), Ban (ban.go), Storage (storage.go): one definition for each function, over
--   any database.
--
-- Strings are lists of bytes, maps are association lists; a theorem about a map speaks of lookups.
-- A number has the width that the code gives it: where the code converts, the model has % 2 ^ w.
--
-- Fuel: the loop of processAoMsgs runs on the number of bytes left and one more. Each round takes
-- four bytes at least, so that is enough.
-- Parameters: the capacity of a bytes.Buffer (the capacity argument of RmAdd), net.ParseIP
-- (parse_ip), package srp (a record Srp), package unicode/utf16 with the conversions of strings
-- (Utf16, with no hypotheses), package compress/zlib (inflate and deflate, with no hypotheses), the
-- order in which `range` goes over a bunch of files (ranged), what lies behind the bytes of a
-- buffer in its array (spare), whether a Send fails (fails), which files are in the cache (exists),
-- how a server is reached (connect), the address of the server of a connection (srv_addr) and its
-- own IP address (ip_of), the largest packet (max_size) and the database.
--
-- The largest name has 20 bytes, so the first packet fits 40 bytes, which is the bound on max_size.
--
-- Not modelled: goroutines and locks (each function is one atomic step), the transport (rudp), the
-- terminal, HTTP and the server list, signals, the YAML parser and the file system; of the
-- remaining parts, the login at servers (init.go), the reconnection of RPC servers (rpc.go), the
-- dialling in loadMedia (media.go), the chat commands help, alert, end and uptime (igutils.go),
-- inventories (hand.go) and item definitions (itemdef.go).
pub mod Shared
pub mod Wire
pub mod Text
pub mod Database
pub mod Privs
pub mod Ban
pub mod Conn
pub mod ActiveObject
pub mod Storage
pub mod Auth
pub mod Command
pub mod Login
pub mod Console
pub mod Nodes
pub mod Config
pub mod Redirect
pub mod Media
pub mod Rpc
pub mod Chat
pub mod Proxy
