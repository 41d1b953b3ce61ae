-- ===== src/Single.antt =====
-- remote_working_ground_server/np_single_proc.c: one process serves every client.
pub mod Env
pub mod State
pub mod Users
pub mod Talk
pub mod UserPipe
pub mod Exec
pub mod Command
pub mod Loop
mod Tests
