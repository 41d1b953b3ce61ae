-- ===== src/Multi/Alone.antt =====
-- A program run by itself, while no other process moves: what it returns, and where it stops.
pub mod Entry
pub mod Mailbox
pub mod Rounds
pub mod Broadcast
pub mod Disconnect
use np.Prelude.{
  ℕ, zero, suc, ◌≡◌, refl, Bool, true, false, List, [], ◌∷◌, Option, none, some, if◌then◌else◌,
  Result, ok, fault, Fault,
}
use np.Sys.{SockAddr}
use np.Multi.Shared.{Shared, Sem, Store, perform_store, sem_value, set_sem}
use np.Multi.Prog.{
  Own, Signal, Prog, ret, crash, look, own, store, sem_wait, sem_post, kill, spin, spawn, ◌>>=◌,
  ◌>>◌,
}

-- The signals sent, the last one first.
abbrev pub Sent : Type 0
Sent = List (ℕ × Signal)

pub data Outcome (A : Type 0) : Type 0 where
  returned : A → Shared → Own → Sent → Outcome A
  faulted : Fault → Outcome A
  blocked : Sem → Outcome A
  spinning : Outcome A

unfoldable pub alone : {A : Type 0} → Prog A → Shared → Own → Sent → Outcome A
unfolding perform_store sem_value set_sem
alone (ret a) m o sent = returned a m o sent
alone (crash e) m o sent = faulted e
alone (look k) m o sent = alone (k m o) m o sent
alone (own f p) m o sent = alone p m (f o) sent
alone (store w p) m o sent = elim (perform_store w m) [
  | fault e ↦ faulted e
  | ok m' ↦ alone p m' o sent
]
alone (sem_wait l p) m o sent = elim (sem_value l m) [
  | none ↦ faulted Fault.out_of_bounds
  | some n ↦ elim n [ zero ↦ blocked l | suc k ↦ alone p (set_sem l k m) o sent ]
]
alone (sem_post l p) m o sent = elim (sem_value l m) [
  | none ↦ faulted Fault.out_of_bounds
  | some n ↦ alone p (set_sem l (suc n) m) o sent
]
alone (kill q sig p) m o sent = alone p m o ((q, sig) ∷ sent)
alone (spin b p) m o sent = let rest = alone p m o sent in if b m then spinning else rest
alone (spawn fd a p) m o sent = alone p m o sent

-- Programs one behind the other.
abbrev pub then_alone : {A B : Type 0} → Outcome A → (A → Prog B) → Outcome B
then_alone (returned a m o sent) f = alone (f a) m o sent
then_alone (faulted e) f = faulted e
then_alone (blocked l) f = blocked l
then_alone spinning f = spinning

stored_then :
    {A B : Type 0} (r : Result Shared) (f : A → Prog B) (g : Shared → Outcome A)
    (h : Shared → Outcome B)
    → ((m : Shared) → h m ≡ then_alone (g m) f)
    → elim r [ fault e ↦ faulted e | ok m ↦ h m ]
      ≡ then_alone (elim r [ fault e ↦ faulted e | ok m ↦ g m ]) f
stored_then (fault e) f g h same = refl
stored_then (ok m) f g h same = same m

posted_then :
    {A B : Type 0} (v : Option ℕ) (f : A → Prog B) (g : ℕ → Outcome A) (h : ℕ → Outcome B)
    → ((n : ℕ) → h n ≡ then_alone (g n) f)
    → elim v [ none ↦ faulted Fault.out_of_bounds | some n ↦ h n ]
      ≡ then_alone (elim v [ none ↦ faulted Fault.out_of_bounds | some n ↦ g n ]) f
posted_then none f g h same = refl
posted_then (some n) f g h same = same n

waited_then :
    {A B : Type 0} (n : ℕ) (l : Sem) (f : A → Prog B) (g : ℕ → Outcome A) (h : ℕ → Outcome B)
    → ((k : ℕ) → h k ≡ then_alone (g k) f)
    → elim n [ zero ↦ blocked l | suc k ↦ h k ]
      ≡ then_alone (elim n [ zero ↦ blocked l | suc k ↦ g k ]) f
waited_then zero l f g h same = refl
waited_then (suc k) l f g h same = same k

spun_then :
    {A B : Type 0} (b : Bool) (f : A → Prog B) (x : Outcome A) (y : Outcome B)
    → y ≡ then_alone x f
    → (if b then spinning else y) ≡ then_alone (if b then spinning else x) f
spun_then true f x y same = refl
spun_then false f x y same = same

pub alone->>= :
    {A B : Type 0} (p : Prog A) (f : A → Prog B) (m : Shared) (o : Own) (sent : Sent)
    → alone (p >>= f) m o sent ≡ then_alone (alone p m o sent) f
unfolding alone ◌>>=◌
alone->>= (ret a) f m o sent = refl
alone->>= (crash e) f m o sent = refl
alone->>= (look k) f m o sent = alone->>= (k m o) f m o sent
alone->>= (own g p) f m o sent = alone->>= p f m (g o) sent
alone->>= (store w p) f m o sent =
    stored_then (perform_store w m) f _ _ (λ m'. alone->>= p f m' o sent)
alone->>= (sem_wait l p) f m o sent =
    posted_then (sem_value l m) f _ _
      (λ n. waited_then n l f _ _ (λ k. alone->>= p f (set_sem l k m) o sent))
alone->>= (sem_post l p) f m o sent =
    posted_then (sem_value l m) f _ _ (λ n. alone->>= p f (set_sem l (suc n) m) o sent)
alone->>= (kill q sig p) f m o sent = alone->>= p f m o ((q, sig) ∷ sent)
alone->>= (spin b p) f m o sent = spun_then (b m) f _ _ (alone->>= p f m o sent)
alone->>= (spawn fd a p) f m o sent = alone->>= p f m o sent
