-- ===== src/Multi/Shared.antt =====
-- The shared memory of np_multi_proc (`client_infor`, `connection_state`, `fifo_information`), the
-- writes to it, and its semaphores.
use np.Prelude.{
  ℕ, ◌+◌, Bool, true, false, List, [], ◌∷◌, Option, none, some, get_elem?, set, replicate, ℤ,
  minus_one, Result, ok, or_fault, ◌>>=◌, out_of_bounds,
}
use np.Libc.{Bytes}
use np.Sys.{SockAddr}
use np.Single.Env.{max_client_num}

-- `client_infor`; `lock` is the value of its semaphore.
pub record Client : Type 0 where
  pub pid : ℕ
  pub state : Bool
  pub name : Bytes
  pub mailbox : Bytes
  pub from_id : ℕ
  pub user_pipe : List ℤ
  pub connection_infor : SockAddr
  pub lock : ℕ

-- `client_list`, `connect_state` and `fifo_infor`.
pub record Shared : Type 0 where
  pub client_list : List Client
  pub client_num : ℕ
  pub min_id : ℕ
  pub lock : ℕ
  pub lock2 : ℕ
  pub fifo_count : ℕ
  pub fifo_lock : ℕ

-- The semaphores: `connect_state->lock`, `connect_state->lock2`, `fifo_infor->lock` and
-- `client_list[i].lock`.
pub data Sem : Type 0 where
  login table fifo : Sem
  mail : ℕ → Sem

-- One write of a process to the shared memory.
pub data Store : Type 0 where
  set_pid : ℕ → ℕ → Store
  set_state : ℕ → Bool → Store
  set_name : ℕ → Bytes → Store
  set_mailbox : ℕ → Bytes → Store
  set_from_id : ℕ → ℕ → Store
  set_user_pipe : ℕ → ℕ → ℤ → Store
  set_connection : ℕ → SockAddr → Store
  set_client_num : ℕ → Store
  set_min_id : ℕ → Store
  set_fifo_count : ℕ → Store

-- One entry of `client_list` is written.
unfoldable pub edit : ℕ → (Client → Client) → Shared → Result Shared
edit i f m = do
  c ← or_fault (get_elem? m.client_list i) out_of_bounds
  ok (record m { client_list = set m.client_list i (f c) })

unfoldable pub perform_store : Store → Shared → Result Shared
unfolding edit
perform_store (set_pid i p) m = edit i (λ c. record c { pid = p }) m
perform_store (set_state i b) m = edit i (λ c. record c { state = b }) m
perform_store (set_name i n) m = edit i (λ c. record c { name = n }) m
perform_store (set_mailbox i t) m = edit i (λ c. record c { mailbox = t }) m
perform_store (set_from_id i j) m = edit i (λ c. record c { from_id = j }) m
perform_store (set_user_pipe i j fd) m = do
  c ← or_fault (get_elem? m.client_list i) out_of_bounds
  old ← or_fault (get_elem? c.user_pipe j) out_of_bounds
  edit i (λ c. record c { user_pipe = set c.user_pipe j fd }) m
perform_store (set_connection i a) m = edit i (λ c. record c { connection_infor = a }) m
perform_store (set_client_num n) m = ok (record m { client_num = n })
perform_store (set_min_id n) m = ok (record m { min_id = n })
perform_store (set_fifo_count n) m = ok (record m { fifo_count = n })

-- The value of a semaphore.
unfoldable pub sem_value : Sem → Shared → Option ℕ
sem_value login m = some m.lock
sem_value table m = some m.lock2
sem_value fifo m = some m.fifo_lock
sem_value (mail i) m = elim (get_elem? m.client_list i) [ none ↦ none | some c ↦ some c.lock ]

unfoldable pub set_sem : Sem → ℕ → Shared → Shared
set_sem login n m = record m { lock = n }
set_sem table n m = record m { lock2 = n }
set_sem fifo n m = record m { fifo_lock = n }
set_sem (mail i) n m = elim (get_elem? m.client_list i) [
  | none ↦ m
  | some c ↦ record m { client_list = set m.client_list i (record c { lock = n }) }
]

abbrev no_addr : SockAddr
no_addr = record { a = 0; b = 0; c = 0; d = 0; port = 0 }

-- Fresh shared memory is filled with zeros.
abbrev pub zero_client : Client
zero_client = record {
  pid = 0;
  state = false;
  name = [];
  mailbox = [];
  from_id = 0;
  user_pipe = replicate (max_client_num + 1) (ℤ.pos 0);
  connection_infor = no_addr;
  lock = 0;
}

-- An entry from 1 on after `create_shared_mem`.
abbrev pub no_client : Client
no_client = record zero_client { user_pipe = replicate (max_client_num + 1) minus_one; lock = 1 }

-- The shared memory after `create_shared_mem` in the process `pid`. The semaphore of entry 0 is not
-- initialised: its value is the 0 of fresh memory.
unfoldable pub create_shared_mem : ℕ → Shared
create_shared_mem pid = record {
  client_list = record zero_client { pid = pid; state = true } ∷ replicate max_client_num no_client;
  client_num = 0;
  min_id = 1;
  lock = 0;
  lock2 = 1;
  fifo_count = 0;
  fifo_lock = 1;
}
