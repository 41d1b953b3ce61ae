-- ===== src/Multi/Among.antt =====
-- What a program does to what the processes share, while the others write as they like: at each look it
-- meets some contents of the shared memory.
pub mod Handlers
use np.Prelude.{ℕ, suc, Bool, List, [], ◌∷◌, Result, ok, fault}
use np.Sys.{SockAddr}
use np.Multi.Shared.{Shared, Sem, Store}
use np.Multi.Prog.{
  Own, Signal, Prog, ret, crash, look, own, store, sem_wait, sem_post, kill, spin, spawn,
}

pub data Act : Type 0 where
  writes : Store → Act
  waits_for posts : Sem → Act
  signals : ℕ → Signal → Act
  spins : Act
  spawns : ℕ → SockAddr → Act

-- The acts, in order, and the process's own data at the end, or a fault.
abbrev pub Acts : Type 0
Acts = List Act × Result Own

abbrev first : Act → Acts → Acts
first a (rest, r) = (a ∷ rest, r)

-- `seen n` is the shared memory at the look with the number `n`.
unfoldable pub among : {A : Type 0} → (ℕ → Shared) → Own → Prog A → Acts
among seen o (ret a) = ([], ok o)
among seen o (crash e) = ([], fault e)
among seen o (look k) = among (λ n. seen (suc n)) o (k (seen 0) o)
among seen o (own f p) = among seen (f o) p
among seen o (store w p) = first (writes w) (among seen o p)
among seen o (sem_wait l p) = first (waits_for l) (among seen o p)
among seen o (sem_post l p) = first (posts l) (among seen o p)
among seen o (kill q sig p) = first (signals q sig) (among seen o p)
among seen o (spin b p) = first spins (among seen o p)
among seen o (spawn fd a p) = first (spawns fd a) (among seen o p)
