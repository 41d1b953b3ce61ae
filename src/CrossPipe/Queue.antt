-- ===== src/CrossPipe/Queue.antt =====
-- The numbered pipes of a client seen as a queue: which pipe each of the coming lines reads. The blocks
-- of the table, their places and the search for a free one are forgotten.
use np.Prelude.{
  ℕ, zero, suc, ◌<◌, ◌≡◌, ◌≢◌, refl, sym, ap, ◌∙◌, subst, true, List, [], ◌∷◌, Option, none, some,
  if◌then◌else◌, Result, fault, out_of_bounds, ◌==◌, arith, length, get_elem?, set, replicate, ℤ,
  pos, negsuc, minus_one, is_neg, magnitude, ◌==ℤ◌, ok, Bool-cases, inl, inr, ok-injective,
}
use mathlib.Core.List.{map}
use np.Sys.{Call, close, dup2, stdin_fileno}
use np.CrossPipe.{
  FdInfor, CrossPipe, Fds, count_down_and_check, update_cross_pipe_fd,
  connect_pipe_to_first_process, initial_cross_pipe_infor, fd_infor_list_size, free_block,
}
use np.CrossPipe.Count.{count_at, aged, aged_block, count_down-list, output_point-none}
use np.CrossPipe.Valid.{IsValid, count_down-IsValid, update_lem, initial-IsValid, count_at-free}
use np.CrossPipe.Delivery.{
  Lines, none_yet, line, store, Lines-IsValid, no_such_pipe, held, due, connects, get_elem?-map,
}

-- The pipe that is read `n + 1` lines from now.
abbrev pub Queue : Type 0
Queue = ℕ → Option Fds

-- One line later, and with a new pipe.
abbrev pub later : Queue → Queue
later q n = q (suc n)

abbrev pub put : ℕ → Fds → Queue → Queue
put m fd q n = if n == m then some fd else q n

-- What command lines do to the queue: each takes the pipe that is due off it, and may put in a new one
-- where none is.
pub data Passes (q : Queue) : ℕ → Queue → Type 0 where
  at_start : Passes q 0 q
  takes : {k : ℕ} {r : Queue} → Passes q k r → Passes q (suc k) (later r)
  puts :
      {k : ℕ} {r : Queue} (m : ℕ) (fd : Fds)
      → Passes q k r
      → later r m ≡ none
      → Passes q (suc k) (put m fd (later r))

abbrev lookup : List FdInfor → ℕ → Option Fds
lookup [] n = none
lookup (e ∷ es) n =
    if pos (suc n) ==ℤ e.count
    then some (record { read_end = e.read_fd; write_end = e.write_fd })
    else lookup es n

-- The table is valid and holds the pipes of the queue.
pub record Represents (x : CrossPipe) (q : Queue) : Type 0 where
  pub is_valid : IsValid x
  pub same : (n : ℕ) → lookup x.list n ≡ q n

same_count : (n : ℕ) (c : ℤ) → (pos (suc n) ==ℤ aged c) ≡ (pos (suc (suc n)) ==ℤ c)
same_count n (pos zero) = ground arith
same_count n (pos (suc zero)) = ground arith
same_count n (pos (suc (suc m))) = ground arith
same_count n (negsuc m) = refl

lookup-aged : (es : List FdInfor) (n : ℕ) → lookup (map aged_block es) n ≡ lookup es (suc n)
lookup-aged [] n = refl
lookup-aged (e ∷ es) n = rw (same_count n e.count, lookup-aged es n) refl

-- Is the pipe of the first block the one in question?
has_count : (e : FdInfor) (n : ℕ) → (pos (suc n) ==ℤ e.count) ≡ true → e.count ≡ pos (suc n)
has_count e n h = by_count e.count h
  where
    by_count : (c : ℤ) → (pos (suc n) ==ℤ c) ≡ true → c ≡ pos (suc n)
    by_count (pos k) h = ground arith
    by_count (negsuc k) h = absurd (cc)

lookup-next :
    (e : FdInfor) (es : List FdInfor) (n : ℕ)
    → e.count ≢ pos (suc n)
    → lookup (e ∷ es) n ≡ lookup es n
lookup-next e es n other = elim (Bool-cases (pos (suc n) ==ℤ e.count)) [
  | inl t ↦ absurd (other (has_count e n t))
  | inr t ↦ rw t refl
]

lookup-none :
    (es : List FdInfor) (n : ℕ) → lookup es n ≡ none → (p : ℕ) → count_at es p ≢ pos (suc n)
lookup-none [] n h p c = absurd (cc)
lookup-none (e ∷ es) n h zero c = ground arith
lookup-none (e ∷ es) n h (suc p) c = elim (Bool-cases (pos (suc n) ==ℤ e.count)) [
  | inl t ↦ absurd (ground arith)
  | inr t ↦ lookup-none es n (ground arith) p c
]

lookup-some :
    (es : List FdInfor) (n : ℕ) (fd : Fds)
    → lookup es n ≡ some fd
    → (p : ℕ) × (get_elem? es p ≡ some (held (suc n) fd))
lookup-some [] n fd h = absurd (cc)
lookup-some (e ∷ es) n fd h = elim (Bool-cases (pos (suc n) ==ℤ e.count)) [
  | inl t ↦ (0, ground (arith, has_count e n t))
  | inr t ↦ let (p, got) = lookup-some es n fd (ground arith) in (suc p, got)
]

lookup-set :
    (es : List FdInfor) (i m : ℕ) (fd : Fds)
    → i < length es
    → is_neg (count_at es i) ≡ true
    → ((p : ℕ) → count_at es p ≢ pos (suc m))
    → (n : ℕ) → lookup (set es i (held (suc m) fd)) n ≡ (if n == m then some fd else lookup es n)
lookup-set [] i m fd h free new n = absurd (omega arith)
lookup-set (e ∷ es) zero m fd h free new n =
    let skip : lookup (e ∷ es) n ≡ lookup es n = lookup-next e es n (λ c. absurd (cc)) in
    rw skip (ground arith)
lookup-set (e ∷ es) (suc i) m fd h free new n = elim (Bool-cases (pos (suc n) ==ℤ e.count)) [
  | inl t ↦ ground (arith, has_count e n t, new 0)
  | inr t ↦ rw (t, lookup-set es i m fd (omega arith) free (λ p. new (suc p)) n) refl
]

lookup-absent :
    (es : List FdInfor) (n : ℕ) → ((p : ℕ) → count_at es p ≢ pos (suc n)) → lookup es n ≡ none
lookup-absent [] n new = refl
lookup-absent (e ∷ es) n new = lookup-next e es n (new 0) ∙ lookup-absent es n (λ p. new (suc p))

lookup-count_down :
    (x : CrossPipe) (n : ℕ) → lookup (count_down_and_check x).list n ≡ lookup x.list (suc n)
lookup-count_down x n = rw (count_down-list x) (lookup-aged x.list n)

lookup-update :
    (x z : CrossPipe) (fd : Fds) (cross_num : ℤ) (m : ℕ)
    → IsValid x
    → magnitude cross_num ≡ suc m
    → ((p : ℕ) → count_at x.list p ≢ pos (suc m))
    → update_cross_pipe_fd x fd cross_num ≡ ok z
    → (n : ℕ) → lookup z.list n ≡ (if n == m then some fd else lookup x.list n)
lookup-update x z fd cross_num m v size new done n =
    subst (λ (t : CrossPipe). lookup t.list n ≡ (if n == m then some fd else lookup x.list n))
      (ok-injective (sym (update_lem x fd cross_num v.in_range) ∙ done))
      (ap (λ k. lookup (set x.list x.min_input_point (held k fd)) n) size
        ∙ lookup-set x.list x.min_input_point m fd v.in_range v.free_min new n)

-- What the first process of the next line does with its input, if `q` says which pipes wait.
abbrev pub first_input : Option Fds → Result (List Call)
first_input none = fault out_of_bounds
first_input (some fd) =
    ok (close fd.write_end ∷ dup2 fd.read_end stdin_fileno ∷ close fd.read_end ∷ [])

nothing :
    (x : CrossPipe)
    → (count_down_and_check x).output_point ≡ minus_one
    → connect_pipe_to_first_process (count_down_and_check x) true ≡ fault out_of_bounds
unfolding connect_pipe_to_first_process
nothing x o = rw o refl

first_input_lem :
    (x : CrossPipe) (q : Queue)
    → Represents x q
    → connect_pipe_to_first_process (count_down_and_check x) true ≡ first_input (q 0)
first_input_lem x q rep = by_case (lookup x.list 0) refl ∙ ap first_input (rep.same 0)
  where
    by_case :
        (a : Option Fds)
        → lookup x.list 0 ≡ a
        → connect_pipe_to_first_process (count_down_and_check x) true
          ≡ first_input (lookup x.list 0)
    by_case none h = rw h (nothing x (output_point-none x (lookup-none x.list 0 h)))
    by_case (some fd) h =
        let (p, got) = lookup-some x.list 0 fd h in
        rw h (
          connects (count_down_and_check x) p (held_down fd) (due x p fd rep.is_valid got)
            (rw (count_down-list x) (get_elem?-map x.list p got)))
      where
        held_down : Fds → FdInfor
        held_down fd = record { count = minus_one; write_fd = fd.write_end; read_fd = fd.read_end }

-- The table of numbered pipes implements the queue. Let a valid table hold the pipes of `q`; then
-- whatever command lines do to it (each counts down and may store a new pipe under a count that the
-- search does not find, with a block left free), the queue can do in the same steps: the table that
-- comes out is valid and holds the pipes of the queue `r` that comes out, and the first process of the
-- next line reads the pipe that is first in `r`; if none is, there is no position to read from.
pub Lines-refine :
    {x y : CrossPipe} {k : ℕ} (q : Queue)
    → Represents x q
    → Lines x k y
    → (r : Queue) × Passes q k r
      × Represents y r
      × (connect_pipe_to_first_process (count_down_and_check y) true ≡ first_input (r 0))
Lines-refine q rep ls =
    let (r, passes, rep') = run q rep ls in (r, passes, rep', first_input_lem _ r rep')
  where
    run :
        {x y : CrossPipe} {k : ℕ} (q : Queue)
        → Represents x q
        → Lines x k y
        → (r : Queue) × Passes q k r × Represents y r
    run q rep none_yet = (q, at_start, rep)
    run q rep (line {y = y} ls b) =
        let (r, passes, rep') = run q rep ls in
        (
          later r,
          takes passes,
          record {
            is_valid = Lines-IsValid (line ls b) rep.is_valid;
            same = λ n. lookup-count_down y n ∙ rep'.same (suc n);
          },
        )
    run q rep (store {y = y} {z = z} fd fd' cross_num m free ls size found done room b) =
        let (r, passes, rep') = run q rep ls in
        let new = no_such_pipe y fd fd' cross_num m size found in
        let old = λ (n : ℕ). lookup-count_down y n ∙ rep'.same (suc n) in
        (
          put m fd' (later r),
          puts m fd' passes (sym (old m) ∙ lookup-absent _ m new),
          record {
            is_valid =
                Lines-IsValid (store fd fd' cross_num m free ls size found done room b)
                  rep.is_valid;
            same = λ n.
                lookup-update (count_down_and_check y) z fd' cross_num m
                  (count_down-IsValid y rep'.is_valid) size new done n
                ∙ ap (λ a. if n == m then some fd' else a) (old n);
          },
        )

free_has_none : (n p : ℕ) → count_at (replicate fd_infor_list_size free_block) p ≢ pos (suc n)
free_has_none n p h = absurd (cc (count_at-free fd_infor_list_size p))

-- At the start both are empty.
pub initial-Represents : Represents initial_cross_pipe_infor (λ n. none)
unfolding initial_cross_pipe_infor
initial-Represents = record {
  is_valid = initial-IsValid;
  same = λ n. lookup-absent (replicate fd_infor_list_size free_block) n (free_has_none n);
}
