-- ===== src/Lib.antt =====
-- didactic-pancake-server: a chat server over epoll with accounts, sessions, friends, messages,
-- avatars and voice calls, modelled from its C++ sources.
--
-- The parts, and the files that model them.
--
-- The packet handlers (request/request_process.h, request/request_process.cpp) are modelled in
-- Request and its children. Request/Packet has the packet types and W_DataPacket, Request/Server
-- the global maps (Tables), the connections of `m_users` (Conn) and what the handlers share:
-- packets appended to a connection, tasks given to the thread pool, SQL statements. Request/Fields
-- has the loops that take m_content apart, and one file has each group of handlers: Account
-- (heartbeat, login, regis, logout, reconnect, close_conn), Friend (search_user, add_friend,
-- reply_friend_request, delete_friend, get_friend_items), Message (send_message, client_ready,
-- change_avatar), Voice (start_voice_chat, reply_voice_chat, end_voice_chat, handleUdpPack).
-- Request/Dispatch is do_request, Request/Startup initmysql_result, and Request/History a sequence
-- of requests. A handler is a function from the server to the server. What a handler does between
-- `lock.lock()` and `lock.unlock()` is a function of its own, named `…_locked`; handlers run one
-- after the other, in the order in which they take the lock. The reads of sessionID_mp that the
-- source makes before it takes the lock are made at the same point.
--
-- Request/Reader is the way of the bytes to do_request: the members of a requestProcess that
-- describe the read buffer, and parse_line, parse_type_line, parse_headers and parse_content;
-- Reader/Process has process_read and process in mode 0, Reader/Input has read. What recv returns
-- is an argument, and so is the first value of read_ret in process, which the source leaves open.
-- Reader/Pipeline has packets that stand one behind the other in the buffer. Request/Writer is
-- write, over the results of send as an argument, for the packets that are there when it starts.
-- Request/Sending is process_write, and the interleavings of the threads that append packets to a
-- connection, the tasks that send them, write, and the end of process, by critical sections, with
-- the interest that modfd sets; Request/Leftovers is about m_datas over close_conn and init.
-- Request/EndToEnd and Request/Echo follow bytes from recv through the handlers to send, and
-- Request/Broken those of a line that has not come to its end.
--
-- threadpool/threadpool.h and threadpool/threadpool.cpp are modelled in ThreadPool, and the
-- interleavings of producers and workers, by critical sections, in ThreadPool/Order.
--
-- log/block_queue.h is modelled in BlockQueue, one function for each critical section;
-- BlockQueue/Fifo is the bounded queue that it stands for. log/log.h and log/log.cpp are Log: the
-- lines, the files that they go to, and the queue between write_log and the writing thread.
--
-- timer/time_wheel_timer.h and timer/time_wheel_timer.cpp are TimeWheel: add_timer, del_timer and
-- tick, and sequences of calls of them. A pointer to a timer is its address with its time_slot;
-- addresses are not used twice.
--
-- sqlconnpool/sql_connection_pool.h and sqlconnpool/sql_connection_pool.cpp are ConnectionPool, and
-- the interleavings of the threads that use it ConnectionPool/Order. locker/locker.h is Locker, for
-- its readWriteLocker: the state counts the threads at each statement, and a move is one statement.
--
-- config/config.h and config/config.cpp are Config, the map of keys and values with its methods,
-- and Config/Loader, operator>>: the stream is the list of its lines, and whether the last has a
-- line end. The loader walks over that list, with the outer and the inner loop of the source as
-- its two states.
--
-- main.cpp is modelled in Boot and MainLoop. Boot is what main does in front of its loop, with the
-- results of the system calls as an argument; it comes to an Outcome, the loop among them, and
-- Boot/Running joins it with the loop. MainLoop has the branches of the loop over events and the
-- end of a round, on a state that has the server, the timer of each connection, the wheel and the
-- two flags. An event comes with what accept, read and the calls of send return. MainLoop/Alive
-- has runs of the loop, with worker threads that change the server between the events.
--
-- Spec describes the changes that requests may make to the tables as a step relation, without the
-- handlers; its children relate the handlers to it.
--
-- How the state corresponds. A std::string or a char buffer is the list of its bytes; a std::map is
-- the function that finds a key; a std::set is the list of its elements in order; a map<string,
-- set<string>> is total, since the program only indexes such maps. operator[] on the other maps
-- enters a default where the key is missing, and so does the model. A file descriptor is an
-- optional number, with none for -1; m_users[-1] is outside of the array, and the model then
-- changes nothing. A handler that does not return, because an exception or a null pointer ends the
-- process, because login divides by a value of rand() that is 0, because a user whose avatar is sent
-- has no avatar file, or because the loop over rand() has not found a free id among the values given,
-- has the result none. A statement for the database ends at its first byte 0, as mysql_query reads it.
--
-- What the program does not implement are arguments: the time, the values of rand(), and the rows
-- with which the database answers a SELECT (Request.Server.Inputs), the connections that the MySQL
-- client opens, the broken-down local time, and the text that vsnprintf prints. A mutex, a
-- semaphore and a condition variable do what POSIX says: a lock waits until the mutex is free, and
-- a wait until there is a signal; in ThreadPool and ConnectionPool a signal handler may interrupt a
-- wait, which then returns without a signal. An event of epoll is handled while its connection is
-- open, and with a descriptor below MAX_FD. The statements that a handler issues are a list of texts. The connection that a statement borrows from the pool, and
-- the lines written to the log, are not part of a handler's result.
--
-- Bounds. to_string recurs on fuel n + 1, which is more than the decimal digits of n. The loops of
-- process_read and process run on fuel: two rounds more than the bytes of the buffer that are not
-- yet checked, since every round but the last two takes a byte. The loop of tick runs on fuel now +
-- 1, since each round adds a second to time_have_run. The other loops recur on the bytes, rows or
-- values that they read. A Content-Length with which the sums of parse_content do not
-- fit an int stops the process. The other numbers that the source keeps in an int are natural numbers
-- without a bound here: lengths of packets, which the read buffer of 1024 bytes and the files bound, and ids
-- below 1000000000.
--
-- Not modelled: the lines that main and the handlers write to the log, and setsockopt; the
-- conversions by string streams; and the wrappers of a single mutex, semaphore or condition
-- variable, which only call the system.
mod Prelude
pub mod ThreadPool
pub mod BlockQueue
pub mod Boot
pub mod TimeWheel
pub mod ConnectionPool
pub mod Config
pub mod Locker
pub mod Log
pub mod Request
pub mod Spec
pub mod MainLoop
mod Tests
