-- ===== src/CrossPipe/Closing.antt =====
-- What a child closes of the numbered pipes that wait for later lines (`close_cross_pipe_fd`).
use np.Prelude.{
  ℕ, suc, ◌+◌, ◌≡◌, refl, ap, ◌∙◌, List, [], ◌∷◌, some, arith, get_elem?, ℤ, pos, is_pos, ◌==ℤ◌, ok,
  Bool-cases, inl, inr, if◌then◌else◌,
}
use np.Sys.{Call, close}
use np.CrossPipe.{FdInfor, CrossPipe, count_down_and_check, close_loop, close_cross_pipe_fd}
use np.CrossPipe.Count.{waiting, recorded-count_down}

-- Both ends of every pipe that waits in the blocks from `i` on, but for the one at `kept`.
abbrev pub closing : ℕ → ℤ → List FdInfor → List Call
closing i kept [] = []
closing i kept (e ∷ es) =
    let rest = closing (i + 1) kept es in
    if is_pos e.count
    then if kept ==ℤ pos i then rest else close e.write_fd ∷ close e.read_fd ∷ rest
    else rest

close_loop-waiting :
    (list : List FdInfor) (kept : ℤ) (i : ℕ) (es : List FdInfor)
    → ((j : ℕ) → get_elem? list (i + j) ≡ get_elem? es j)
    → close_loop list kept (waiting i es) ≡ ok (closing i kept es)
unfolding close_loop
close_loop-waiting list kept i [] same = refl
close_loop-waiting list kept i (e ∷ es) same =
    let here : get_elem? list i ≡ some e = ap (get_elem? list) (omega arith) ∙ same 0 in
    let later =
      close_loop-waiting list kept (i + 1) es
        (λ j. ap (get_elem? list) (omega arith) ∙ same (suc j)) in
    elim (Bool-cases (is_pos e.count)) [
      | inl t ↦ elim (Bool-cases (kept ==ℤ pos i)) [
        | inl k ↦ rw (t, later, k) refl
        | inr k ↦ rw (t, later, k, here) refl
      ]
      | inr t ↦ rw t later
    ]

-- After a count down, in any table, `close_cross_pipe_fd` never faults, and closes both ends of every
-- pipe that still waits for a later line, in the table's order, but for the one at the position given.
pub close-count_down :
    (x : CrossPipe) (kept : ℤ)
    → close_cross_pipe_fd (count_down_and_check x) kept
      ≡ ok (closing 0 kept (count_down_and_check x).list)
unfolding close_cross_pipe_fd
close-count_down x kept =
    let list = (count_down_and_check x).list in
    rw (recorded-count_down x)
      (close_loop-waiting list kept 0 list (λ j. ap (get_elem? list) (omega arith)))
