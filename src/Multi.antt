-- ===== src/Multi.antt =====
-- np_multi_proc.c: one process for each client. The processes share a table of clients, two counters and
-- a counter of FIFOs; semaphores guard them, and signals carry messages and user pipes.
pub mod Shared
pub mod Prog
pub mod Users
pub mod Talk
pub mod UserPipe
pub mod Exec
pub mod Command
pub mod Session
pub mod System
pub mod Alone
pub mod Among
pub mod Locks
mod Tests
