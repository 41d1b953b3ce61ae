-- ===== src/Single/State.antt =====
-- The state of np_single_proc: the table of clients, the descriptors, the environment and the
-- locals of `main`, with the calls made so far; and computations on it that may fault.
use np.Prelude.{
  ℕ, Bool, List, [], ◌∷◌, ◌++◌, Option, none, some, get_elem?, set, ℤ, Result, ok, fault, Fault,
  null_pointer, out_of_bounds,
}
use np.Libc.{Bytes}
use np.CrossPipe.{CrossPipe}
use np.Sys.{SockAddr, Call, Event, call, Trace}
use np.Single.Env.{EnvVar, Environ}

-- `struct client_infor`; `state` is 0 or 1, a null pointer is `none`.
pub record Client : Type 0 where
  pub sockfd : ℤ
  pub state : Bool
  pub user_pipe : Option (List ℤ)
  pub name : Bytes
  pub connection_infor : SockAddr
  pub cp_infor : Option CrossPipe

-- `client_structure` (`id`, `list`), the environment, and what `main` keeps: `active_fd_set` without
-- the listening socket, `fd_id_list`, `client_num`, `min_id`, `env_id`.
pub record Server : Type 0 where
  pub id : ℕ
  pub list : List Client
  pub env : List EnvVar
  pub environ : Environ
  pub active_fd_set : List ℕ
  pub fd_id_list : List ℤ
  pub client_num : ℕ
  pub min_id : ℕ
  pub env_id : ℕ
  pub trace : Trace

abbrev pub M : Type 0 → Type 0
M A = Server → Result (A × Server)

infixl 5 ◌>>=◌ ◌>>◌
abbrev pub ◌>>=◌ : {A B : Type 0} → M A → (A → M B) → M B
◌>>=◌ m f s = elim (m s) [ fault e ↦ fault e | ok (a, s') ↦ f a s' ]

abbrev pub ◌>>◌ : {B : Type 0} → M (Unit {0}) → M B → M B
m >> k = m >>= λ _. k

abbrev pub pure : {A : Type 0} → A → M A
pure a s = ok (a, s)

abbrev pub fail : {A : Type 0} → Fault → M A
fail e s = fault e

abbrev pub lift : {A : Type 0} → Result A → M A
lift (ok a) s = ok (a, s)
lift (fault e) s = fault e

abbrev pub require : {A : Type 0} → Option A → Fault → M A
require none e s = fault e
require (some a) e s = ok (a, s)

abbrev pub gets : {A : Type 0} → (Server → A) → M A
gets f s = ok (f s, s)

abbrev pub modify : (Server → Server) → M (Unit {0})
modify f s = ok (tt, f s)

abbrev pub emit : List Event → M (Unit {0})
emit es s = ok (tt, record s { trace = s.trace ++ es })

abbrev pub as_events : List Call → List Event
as_events [] = []
as_events (c ∷ cs) = call c ∷ as_events cs

-- The server makes these calls.
abbrev pub perform : List Call → M (Unit {0})
perform cs = emit (as_events cs)

-- `client->list[i]`
abbrev pub client_at : ℕ → M Client
client_at i = do s ← gets (λ s. s); require (get_elem? s.list i) out_of_bounds

abbrev pub me : M Client
me = do i ← gets (λ s. s.id); client_at i

abbrev pub put_client : ℕ → Client → M (Unit {0})
put_client i c = modify (λ s. record s { list = set s.list i c })

-- `infor = client->list[client->id].cp_infor`, which is then read.
abbrev pub cross_pipe_of : Client → M CrossPipe
cross_pipe_of c = require c.cp_infor null_pointer
