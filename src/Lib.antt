-- ===== src/Lib.antt =====
-- The remote working ground server (code/remote_working_ground_server), on which clients log in, run
-- commands with pipes, leave the output of a command to a later line (`ls |3`, a numbered pipe) or to
-- another client (`ls >2`, a user pipe), and send each other messages. It has two forms. In
-- np_single_proc.c (np_single_proc.h) one process serves all clients in a loop over `select`. In
-- np_multi_proc.c (np_multi_proc.h) each client has a process; the processes share a table of clients
-- and two counters in shared memory, which semaphores guard. A message goes into the mailbox of a client
-- and a signal makes that client's process write it out; a user pipe is a FIFO whose path goes the same
-- way. In both, each command is a child process.
--
-- The SOCKS4/4A proxy (code/SOCK4:4A_proxy_server/socks_server.cpp) is a program of its own: a session
-- reads a request, asks the rules of socks.conf, and connects or listens for the client; a relay
-- (connect_to_dest.hpp) then copies bytes both ways.
--
-- The web side are CGI programs and their server. http_server.cpp (code/remote_batch_system) sets the
-- variables of a request and starts the program that the request names. console.cpp, once in the batch
-- system and once for the proxy, reads from the query string up to five servers, prints a page with a
-- column for each, connects to all of them, shows what they send, and answers each prompt with the next
-- line of a file; the second one goes through the proxy if the form names one.
--
-- How the program maps to the files:
--   Prelude and its child modules: names of the library, the integers over the native numbers, lists
--     with indices, `Result` with the faults that the C code can meet.
--   Libc: texts as lists of bytes and the C library's functions on them, each as the C standard has it.
--     Libc/Tokens is `strtok`, Libc/Decimal is `atoi`, and `cat_num_to_msg`, `int_to_char` of the server.
--   Sys: the system calls. A call is recorded in a trace; what the system answers (descriptors, process
--     ids, bytes read, whether a program can be started) is the parameter `Os`, a function of the trace.
--   CrossPipe: `cross_pipe` and its functions `initial_cross_pipe_infor`, `count_down_and_check`,
--     `close_cross_pipe_fd`, `update_cross_pipe_fd`, `find_same_cross_pipe`,
--     `connect_pipe_to_first_process`, `close_and_connect_fd`. The lemmas are in its child modules:
--     Count (one count down), Slots (searches), Closing (what a child closes), Valid (the invariant),
--     Delivery (over several lines), Queue (the table as a queue of pipes by the line that reads them).
--   Single/Env: `env_var` and `set_env`, `create_env_var_node`, `renew_env_var`, `delete_env_var`,
--     beside the environment of the process; Visible and Change say what each client sees.
--   Single/State: the state of `main` and of `client_structure`, and computations on it that may fault.
--   Single/Users: `initial_client_infor`, `update_client_infor`, `delete_client_infor`.
--   Single/Talk: the welcome, login and logout messages, `broadcast`, `cmd_who`, `cmd_tell`, `cmd_yell`,
--     `cmd_name`; Fits is about the arrays they are built in, Names about `cmd_name`.
--   Single/UserPipe: `print_user_pipe_msg_handler`, `print_user_pipe_msg`, and the tests on `<n`, `>n`.
--   Single/Exec: `single_cmd`; Child has what a child does up to `execvp`, Pipeline is `ordinary_pipe`.
--   Single/Command: `check_cmd`, `string_split`, `env_setting`; Parse is the loop over the words, Shape
--     and Words are about what it makes of a line.
--   Single/Loop: `run_shell` and `main`; Places is about the table of clients, Leave about a client who
--     leaves it, Unique about the names in it, Disconnect about `read`.
--   Texts: the messages that both servers build, with the sizes of their arrays.
--   Multi/Shared: `client_infor`, `connection_state` and `fifo_information`, the writes to them, and
--     `create_shared_mem`. Multi/Prog: the code of a process as a program whose steps are its accesses to
--     what the processes share.
--   Multi/Users: login and logout on the table (`update_client_infor`, `delete_client_infor`, and the
--     lines of `main` about `min_id` and `client_num`). Multi/Talk: the messages, `broadcast`, and
--     `msg_handler`. Multi/UserPipe: the messages about user pipes, `create_user_pipe`,
--     `user_pipe_handler`. Multi/Exec: `single_cmd`, with Child for the child and Pipeline for
--     `ordinary_pipe`. Multi/Command: `string_split`, `check_cmd`, `env_setting`; the analysis of the
--     words is that of Single/Command/Parse. Multi/Session: `run_shell`, and `main` in the process of a
--     client and in the process that accepts them.
--   Multi/System: all processes over the shared memory, as a step relation.
--   Multi/Locks: which semaphores a process holds. The discipline is stated on programs (Locks itself),
--     shown for each part of the code (Talk, UserPipe, Exec, Session, Handlers), and carried over to the
--     system (Exclusive, Step, Guarded, Numbered, Moved, Invariant, Race). A mailbox is held by a program, by a
--     handler, or by a signal that waits: Entries, Mails, Holders and Waiting are about these.
--   Multi/Alone: what a program does while no other process moves, and where it stops: Entry has the
--     steps on one entry of the table, Mailbox one message, Rounds and Broadcast the loop of `broadcast`,
--     Disconnect a client who closes the connection. Multi/Among: what a program does to what the processes
--     share while the others write as they like, with Handlers on the handlers of the two signals.
--   Socks/Request: the fields of a request (`get_dest_port`, `get_dest_ip`, `get_domain_name`).
--     Socks/Firewall: `check_dest_ip`, with the lines of socks.conf as a list. Socks/Session: what
--     `do_read` begins. Socks/Relay: the callbacks of `client`, and the steps in which operations of
--     Boost.Asio end; Order is about the bytes of each direction. Socks/Child: the process of a client, from
--     the first read to the relay, with Allowed on what the firewall has to do with it.
--   Web/Buffer: a read into an array of zeros, as a text. Web/Html: `change_to_html_format` and the loops
--     of `print_output`. Web/Query: `parse_query_string` of both consoles; Form and Proxy are about the
--     query strings of the two panels. Web/Console: the callbacks of `client` and the steps in which its
--     operations end, with Input for the file of commands; Replies, Answered and Steps say what a client
--     shows and sends, Proxied when it may. Web/Request: `make_socks4a_request`, put together with Socks/Session. Web/Page:
--     `set_html_format` and `main`, with Begun on what they print and begin. Web/Http: `do_read` and
--     `do_write` of http_server.cpp, with Answer on the program and its variables.
--
-- How the code is written down. A pointer is an `Option`, the list of environment nodes is the chain of
-- `next` pointers, `int` fields that may be negative are integers. Undefined behaviour is a fault: a null
-- pointer that is read, an index out of range, freed memory, a text too long for its array. A fault ends
-- the server; in a child it is the call `crash`. A child's calls are computed at its fork from the
-- state that it has a copy of. `min_input_point`, `id` and `min_id` are never negative and are native
-- numbers. The two functions without a `return` give their last value.
--
-- A process of np_multi_proc.c takes one step for an expression that reads shared memory, for a write to
-- it, for an operation on a semaphore, or for a signal; between two steps any other process may move.
-- What a child reads of the shared memory is read just before its fork. A handler may begin between any
-- two steps of its process and is not interrupted by the other one. A signal that waits already is not
-- counted twice, one to a process that has ended is lost. A process may end at any time, by a fault or a
-- signal of the system. A new process has a pid that no process has. `open` of a FIFO returns at any
-- time. The shell of a client runs for a number of rounds that is a parameter, so that every theorem
-- holds for each number of lines.
--
-- The proxy's buffer is a list of bytes, of which a request is the beginning; reading behind it is a
-- fault. `std::to_string`, the resolver and the port of a new acceptor are the parameter `Host`. An
-- operation of the relay ends in any order with the others, with bytes or an error as the system has it.
--
-- A client of a console has one operation under way at a time. Its state also has what is seen outside: the
-- scripts printed into the page, the texts read and how many bytes of commands it has sent. One use of
-- memory that is gone is no fault here: `start_write` gives `async_write` a local array, from which the system
-- may read later. Which bytes go out is left open, and the model has only their number. The resolver and the
-- files of a console are the parameter `Site`; `boost::split` of http_server.cpp is a parameter with the
-- behaviour that its documentation gives. What the handlers of other sessions make of the environment of that
-- server, between the two handlers of one, is any function.
--
-- Bounds and fuel. The loops over tables are recursions over the lists. `count_digits` runs on 11 rounds,
-- more than the ten digits of the largest `unsigned int`; `drop_pipes` on `max_client_num` rounds and
-- `run_rounds` on `cmd_num`, the bounds of their loops; `tokens` on the length of the text and one more;
-- `change_to_html_format` too, since each round replaces a byte that the replacement does not hold; the
-- loops of `parse_query_string` on the number of tokens, since each round takes one at least.
-- A count of users that is not negative is a native number in an integer. Numbers that `atoi` reads
-- beyond `int` are a fault, since the C standard leaves them undefined.
--
-- Not modelled: `connect_sock`, `child_handler` and `ctrl_c_handler`, which only call the system; the
-- loops that repeat a failing `pipe`, `fork` or `read`, which are seen at their last round; failures of
-- `malloc`; the waits of `ordinary_pipe` in np_multi_proc.c for entries of `pid_table` that it has not
-- filled; the acceptors of the proxy and of http_server.cpp, their forks, the `execlp` of the latter, and the run of
-- `io_context`, which only call the system and Boost.Asio; the panels, scripts that print a form.
pub mod Prelude
pub mod Libc
pub mod Sys
pub mod Texts
pub mod CrossPipe
pub mod Single
pub mod Multi
pub mod Socks
pub mod Web
