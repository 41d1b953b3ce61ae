-- ===== src/CrossPipe/Tests.antt =====
-- The theorems on numbered pipes at small inputs.
use np.Prelude.{
  ℕ, true, none, ◌≡◌, ◌≢◌, refl, [], ◌∷◌, replicate, set, some, arith, pos, negsuc, minus_one, ok,
}
use np.Sys.{close, dup2, stdin_fileno}
use np.CrossPipe.{
  close_cross_pipe_fd, CrossPipe, Fds, null, freed, free_block, fd_infor_list_size,
  initial_cross_pipe_infor, count_down_and_check, first_free, update_cross_pipe_fd,
  find_same_cross_pipe, connect_pipe_to_first_process, count_down_loop, record_block, renew_min,
  recorded, find_loop,
}
use np.CrossPipe.Closing.{closing, close-count_down}
use np.CrossPipe.Count.{count_at}
use np.CrossPipe.Valid.{initial-IsValid, count_at-free}
use np.CrossPipe.Queue.{Queue, Passes, Represents, first_input, initial-Represents, Lines-refine}
use np.CrossPipe.Delivery.{Lines, none_yet, line, store, delivered_on_time}

abbrev ends : Fds
ends = record { read_end = pos 7; write_end = pos 8 }

-- The table after `ls |2` or `ls !2` on a fresh one.
abbrev after_ls : CrossPipe
after_ls = record {
  output_point = minus_one;
  min_input_point = 1;
  data_num = 0;
  close_fd_record = null;
  list =
      set (replicate fd_infor_list_size free_block) 0
        (record { count = pos 2; write_fd = pos 8; read_fd = pos 7 });
}

fresh_has_none : (p : ℕ) → count_at initial_cross_pipe_infor.list p ≢ pos 2
unfolding initial_cross_pipe_infor
fresh_has_none p h = absurd (ground (arith, count_at-free fd_infor_list_size p))

ls_stored : update_cross_pipe_fd initial_cross_pipe_infor ends (negsuc 1) ≡ ok after_ls
unfolding initial_cross_pipe_infor update_cross_pipe_fd
ls_stored = refl

ls_room : first_free 0 after_ls.list ≡ some 1
unfolding first_free
ls_room = refl

abbrev one_line : CrossPipe
one_line = record (count_down_and_check after_ls) { close_fd_record = freed }

one_more : Lines after_ls 1 one_line
one_more = line none_yet freed

delivered_on_time_example :
    connect_pipe_to_first_process (count_down_and_check one_line) true
    ≡ ok (close (pos 8) ∷ dup2 (pos 7) stdin_fileno ∷ close (pos 7) ∷ [])
delivered_on_time_example =
    delivered_on_time ends (negsuc 1) 1 1 initial-IsValid refl fresh_has_none ls_stored ls_room
      one_more

close-count_down_example :
    close_cross_pipe_fd (count_down_and_check after_ls) minus_one
    ≡ ok (closing 0 minus_one (count_down_and_check after_ls).list)
close-count_down_example = close-count_down after_ls minus_one

-- `ls |2` as the first line.
abbrev first_line : CrossPipe
first_line = record after_ls { close_fd_record = null }

ls_line : Lines initial_cross_pipe_infor 1 first_line
unfolding initial_cross_pipe_infor count_down_and_check count_down_loop record_block renew_min
    find_same_cross_pipe recorded find_loop update_cross_pipe_fd first_free
ls_line = store ends ends (negsuc 1) 1 1 none_yet refl refl refl refl null

Lines-refine_example :
    (r : Queue) × Passes (λ n. none) 1 r
    × Represents first_line r
    × (connect_pipe_to_first_process (count_down_and_check first_line) true ≡ first_input (r 0))
Lines-refine_example = Lines-refine (λ n. none) initial-Represents ls_line
