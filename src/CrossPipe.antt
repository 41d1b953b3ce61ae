-- ===== src/CrossPipe.antt =====
-- The numbered pipes of one client (`cross_pipe`): `ls |3` stores a pipe that the third command
-- line from then reads. The functions of both servers on this record, which are the same in both.
pub mod Count
pub mod Slots
pub mod Closing
pub mod Valid
pub mod Delivery
pub mod Queue
mod Tests
use np.Prelude.{
  ℕ, zero, suc, ◌+◌, ◌-◌, ◌≡◌, refl, Bool, true, false, List, [], ◌∷◌, ◌++◌, Option, none, some,
  ◌==◌, ltb, leb, if◌then◌else◌, length, get_elem?, set, take, replicate, ℤ, pos, negsuc, minus_one,
  is_neg, is_pos, magnitude, ◌==ℤ◌, Result, ok, fault, or_fault, ◌>>=◌, null_pointer, out_of_bounds,
  use_after_free, ◌&&◌, not,
}
use np.Sys.{Call, close, dup2, stdin_fileno, stdout_fileno}

abbrev pub fd_infor_list_size : ℕ
fd_infor_list_size = 511

-- `struct fd_infor`; `count` is -1 for a free block.
pub record FdInfor : Type 0 where
  pub count : ℤ
  pub write_fd : ℤ
  pub read_fd : ℤ

-- A block of memory behind a pointer to `int`.
pub data Block : Type 0 where
  null : Block
  live : List ℕ → Block
  freed : Block

-- `cross_pipe`; `min_input_point` is never negative.
pub record CrossPipe : Type 0 where
  pub output_point : ℤ
  pub min_input_point : ℕ
  pub data_num : ℕ
  pub close_fd_record : Block
  pub list : List FdInfor

-- `int fd[2]`: the two ends of a pipe.
pub record Fds : Type 0 where
  pub read_end : ℤ
  pub write_end : ℤ

abbrev pub free_block : FdInfor
free_block = record { count = minus_one; write_fd = minus_one; read_fd = minus_one }

unfoldable pub initial_cross_pipe_infor : CrossPipe
initial_cross_pipe_infor = record {
  output_point = minus_one;
  min_input_point = 0;
  data_num = 0;
  close_fd_record = null;
  list = replicate fd_infor_list_size free_block;
}

-- One round of the loop of `count_down_and_check`: the block, `output_point` and `tmp` after it.
unfoldable pub count_down_block : ℕ → FdInfor → ℤ → List ℕ → FdInfor × ℤ × List ℕ
count_down_block i e out tmp =
    if is_pos e.count
    then if magnitude e.count - 1 == 0
      then (record e { count = minus_one }, pos i, tmp)
      else (record e { count = pos (magnitude e.count - 1) }, out, tmp ++ i ∷ [])
    else (e, out, tmp)

unfoldable pub count_down_loop : ℕ → List FdInfor → ℤ → List ℕ → List FdInfor × ℤ × List ℕ
unfolding count_down_block
count_down_loop i [] out tmp = ([], out, tmp)
count_down_loop i (e ∷ es) out tmp =
    let (e', out', tmp') = count_down_block i e out tmp in
    let (es', out'', tmp'') = count_down_loop (i + 1) es out' tmp' in (e' ∷ es', out'', tmp'')

-- `malloc` gives a block only if there is something to record.
unfoldable pub record_block : List ℕ → Block
record_block [] = null
record_block (i ∷ tmp) = live (i ∷ tmp)

-- `if (output_point >= 0 && output_point < min_input_point) min_input_point = output_point;`
unfoldable pub renew_min : ℤ → ℕ → ℕ
renew_min (pos p) m = if ltb p m then p else m
renew_min (negsuc p) m = m

unfoldable pub count_down_and_check : CrossPipe → CrossPipe
unfolding count_down_loop record_block renew_min
count_down_and_check infor =
    let (list', out, tmp) = count_down_loop 0 infor.list minus_one [] in
    record {
      output_point = out;
      min_input_point = renew_min out infor.min_input_point;
      data_num = length tmp;
      close_fd_record = record_block tmp;
      list = list';
    }

-- The positions `close_fd_record[0 .. data_num)`. The pointer is read only if there is one.
unfoldable pub recorded : CrossPipe → Result (List ℕ)
recorded infor = if infor.data_num == 0 then ok [] else elim infor.close_fd_record [
  | null ↦ fault null_pointer
  | freed ↦ fault use_after_free
  | live l ↦
      if leb infor.data_num (length l) then ok (take infor.data_num l) else fault out_of_bounds
]

unfoldable pub close_loop : List FdInfor → ℤ → List ℕ → Result (List Call)
close_loop list p [] = ok []
close_loop list p (fd_pos ∷ rest) = do
  calls ← close_loop list p rest
  if p ==ℤ pos fd_pos then ok calls else do
    e ← or_fault (get_elem? list fd_pos) out_of_bounds
    ok (close e.write_fd ∷ close e.read_fd ∷ calls)

-- The calls that `close_cross_pipe_fd` makes.
unfoldable pub close_cross_pipe_fd : CrossPipe → ℤ → Result (List Call)
unfolding recorded close_loop
close_cross_pipe_fd infor p = do rs ← recorded infor; close_loop infor.list p rs

-- The first free block from position `i` on.
unfoldable pub first_free : ℕ → List FdInfor → Option ℕ
first_free i [] = none
first_free i (e ∷ es) = if is_neg e.count then some i else first_free (i + 1) es

-- If no block is free, `min_input_point` stays.
unfoldable pub next_input : Option ℕ → ℕ → ℕ
next_input none m = m
next_input (some i) m = i

unfoldable pub update_cross_pipe_fd : CrossPipe → Fds → ℤ → Result CrossPipe
unfolding first_free next_input
update_cross_pipe_fd infor fd cross_num = do
  e ← or_fault (get_elem? infor.list infor.min_input_point) out_of_bounds
  let block = record e {
    count = pos (magnitude cross_num);
    write_fd = fd.write_end;
    read_fd = fd.read_end;
  }
  let list' = set infor.list infor.min_input_point block
  ok (record infor {
    list = list';
    min_input_point = next_input (first_free 0 list') infor.min_input_point;
  })

unfoldable pub find_loop : List FdInfor → ℕ → Fds → List ℕ → Result (ℤ × Fds)
find_loop list n fd [] = ok (minus_one, fd)
find_loop list n fd (fd_pos ∷ rest) = do
  e ← or_fault (get_elem? list fd_pos) out_of_bounds
  let found : Fds = record { read_end = e.read_fd; write_end = e.write_fd }
  let later = find_loop list n fd rest
  if pos n ==ℤ e.count then ok (pos fd_pos, found) else later

-- The position (or -1) and `fd` after the call.
unfoldable pub find_same_cross_pipe : CrossPipe → Fds → ℤ → Result (ℤ × Fds)
unfolding recorded find_loop
find_same_cross_pipe infor fd cross_num = do
  rs ← recorded infor
  find_loop infor.list (magnitude cross_num) fd rs

-- The calls of `connect_pipe_to_first_process`, in the child (`true`) and in the parent.
unfoldable pub connect_pipe_to_first_process : CrossPipe → Bool → Result (List Call)
connect_pipe_to_first_process infor child = elim infor.output_point [
  | negsuc n ↦ fault out_of_bounds
  | pos p ↦ do
    e ← or_fault (get_elem? infor.list p) out_of_bounds
    ok (
        if child
        then close e.write_fd ∷ dup2 e.read_fd stdin_fileno ∷ close e.read_fd ∷ []
        else close e.write_fd ∷ close e.read_fd ∷ [])
]

-- The calls of `close_and_connect_fd`.
unfoldable pub close_and_connect_fd : ℕ → ℕ → ℕ → Fds → ℤ → Bool → List Call
close_and_connect_fd current first last fd ex_fd0 child =
    (if current == last
      then []
      else if child
      then close fd.read_end ∷ dup2 fd.write_end stdout_fileno ∷ close fd.write_end ∷ []
      else close fd.write_end ∷ [])
    ++ (if current == first
        then []
        else if child
        then dup2 ex_fd0 stdin_fileno ∷ close ex_fd0 ∷ []
        else close ex_fd0 ∷ [])
