-- ===== src/Lib.antt =====
-- InstaWorks is a C library for server programs. This development models its data structures and its
-- parsers and proves what they promise. A program's settings live in a value store, which is built on
-- two hash tables; the hash table stores 64-bit hashes of its keys. The web server collects a request
-- in a growing buffer and hands it to the request parser, which uses the token parser, and which
-- decodes and escapes text. Allocations go through a tracking allocator, which keeps its chunks in a
-- hash table. Threads and mutexes are registered in hash tables too, through which a deadlock is
-- looked for. The command tree is made of hash tables; its commands set the log and the threads. The
-- options of the command line and the addresses stand by themselves. The configuration is a value
-- store that is loaded from a JSON file and saved to one; the web GUI shows it and sets what a client
-- posts, as the callback of the web server. A client's command line goes over a socket to the command
-- server, which looks it up in the command tree.
--
-- Base: names of the libraries, tests and lists over native numbers, signed integers.
-- Hash: src/iw_hash.c. Htable: src/iw_htable.c; a chain is a list of nodes, the array a list of
--   chains, a `void *` an Option. Htable/Valid has the invariant and the map that a table stands for.
-- Buff: src/iw_buff.c; the block is the list of its bytes. Buff/Queue has the queue it stands for.
-- Parse: src/iw_parse.c; a buffer is a list of bytes and a pointer into it an offset.
-- Util: src/iw_util.c, with strtoll written out as the C standard has it.
-- WebReq: src/iw_web_req.c; WebReq/Request has the request object, and its children Line, Fields and
--   Parser have iw_web_req_parse, cut into its parts. A part goes on, returns, or dereferences NULL.
-- ValStore: src/iw_val_store.c, over Htable; regular expressions, printing of numbers and the
--   conversions of addresses are the fields of a parameter.
-- Memory: src/iw_memory.c; the memory of the process is a function from addresses to bytes.
-- IwList: src/iw_list.c; a node is an address, and the links are functions of addresses. IwList/Segment
--   has the chains of nodes, IwList/Splice the sequence that a list stands for.
-- Threads: src/iw_thread.c and src/iw_mutex.c, over Htable; the infos stand behind addresses, and
--   Threads/Loops has the loops over all threads, Threads/Signals the signal
--   handler. What other threads do while a mutex is waited for is an argument.
-- Log: src/iw_log.c; a device name is NULL, a string or freed, and a stream the standard output or a
--   numbered file.
-- Ip: src/iw_ip.c; the conversions of the C library are the fields of a parameter, and what the calls
--   on sockets give are arguments.
-- Cmdline: src/iw_cmdline.c, over Htable; Cmdline/Loop has iw_cmdline_process. A callback is a function,
--   whose count is a signed integer.
-- Cmds: src/iw_cmds.c, over Htable, with strtok_r written out as POSIX has it; Cmds/Log has the commands
--   that set the log and the threads, Cmds/Builtin the other predefined commands, and Cmds/Predefined
--   iw_cmd_init.
-- Syslog: the buffer of src/iw_syslog.c; a position is an offset, and the clearing of old messages runs
--   on a number of rounds that is an argument.
-- Cfg: src/iw_cfg.c, over ValStore; the calls of the JSON library are the fields of a parameter. Cfg/Names
--   has the names of the settings, Cfg/Setup iw_cfg_init, and Cfg/Save iw_cfg_save, for which a document
--   is the list of the calls that build it.
-- WebSrv: src/iw_web_srv.c, over Buff and WebReq; what recv gives is a list, and the callback is a
--   function. WebSrv/Sockets has the start of the server and its thread.
-- WebGui: src/iw_web_gui.c, over Cfg and WebReq; a page is the text that is written. WebGui/Texts has
--   the fixed texts, WebGui/Pages the pages that depend on the request, and the callback.
-- CmdSrv and CmdClnt: src/iw_cmd_srv.c, over Buff and Cmds, and src/iw_cmd_clnt.c. CmdClnt/Reaches puts
--   the two and the command tree together.
-- Main: src/iw_main.c and src/iw_health.c; the parts that are started and stopped are noted as calls.
-- Tests: runs on small inputs, and each theorem at concrete arguments.
--
-- Unsigned integers wrap at their width, by `u32` and `u64`, wherever the code adds or subtracts; the
-- `int` fields of a parse index are kept as 32-bit patterns.
-- Whether an allocation succeeds is an argument. The searches of iw_parse.c run on as many rounds as
-- the buffer is long and one more, and so do the loops over a query and over the headers: each round
-- moves the offset. The ordered walks of the hash table take the number of rounds as an argument.
-- The search for a deadlock runs on `k` rounds for each thread, and says when they are used up; so does
-- the processing of arguments, since a callback with a negative count can keep it running.
-- The search through a JSON object goes down as many levels as an argument says, which is enough if the
-- objects are a tree that is lower; the loops over the values of a store run in one round more than
-- there are values, and the loop of iw_main for a number of seconds.
-- Ids, positions in the message buffer and argument counts, which are of type `int`, are taken as
-- numbers without overflow.
--
-- Not modelled: the display of syslog messages; the locks of the tables, and the text of a crash report;
-- printed reports, help texts and logs; the texts that the value store writes to an error buffer; what
-- the options of the command line leave in the configuration at the start; self tests and examples; and
-- external/parson, which is another project's.
pub mod Base
pub mod Hash
pub mod Htable
pub mod Util
pub mod Parse
pub mod WebGui
pub mod WebReq
pub mod WebSrv
pub mod Buff
pub mod Cfg
pub mod ValStore
pub mod IwList
pub mod Threads
pub mod Log
pub mod Ip
pub mod Syslog
pub mod CmdClnt
pub mod CmdSrv
pub mod Cmds
pub mod Cmdline
pub mod Main
pub mod Memory
pub mod Tests
