-- ===== src/Multi/Alone/Disconnect.antt =====
-- A client that closes its connection without a word: `read` gives no byte to its process.
use np.Prelude.{
  ◌≡◌, refl, ap, ◌∙◌, [], ◌∷◌, ◌++◌, null_pointer, leb, length, if◌then◌else◌, ◌||◌, out_of_bounds,
  Bool, true, false,
}
use np.Libc.{Bytes, codes, str_eq, strstr}
use np.Libc.Tokens.{tokens, strtok}
use np.Sys.{Os, write}
use np.CrossPipe.{count_down_and_check}
use np.Texts.{max_input_len}
use np.Single.State.{as_events}
use np.Single.Command.Parse.{split_loop, room_for_word, parse}
use np.Single.Loop.{before_nul, cut_line, at_eof, prompt}
use np.Multi.Shared.{Shared}
use np.Multi.Prog.{Own, Prog, ret, crash, ◌>>=◌, ◌>>◌, lift, require, mine, modify, perform, emit}
use np.Multi.Command.{run_single, string_split, check_cmd}
use np.Multi.Session.{leave_shell, run_line, shell_round}
use np.Multi.Alone.{Sent, faulted, alone}

run_line-empty :
    (os : Os) (m : Shared) (o : Own) (sent : Sent)
    → alone (run_line os (cut_line [])) m o sent ≡ faulted null_pointer
unfolding run_line cut_line str_eq strstr strtok tokens split_loop room_for_word alone ◌>>=◌ lift
    require check_cmd string_split run_single parse
run_line-empty os m o sent = refl

-- What a round of the shell does with what it has read.
abbrev after_read : Os → Bytes → Prog Bool
after_read os raw =
    if leb max_input_len (length raw)
    then crash out_of_bounds
    else if at_eof raw
    then (do leave_shell; ret true)
    else if str_eq (before_nul raw) (codes "\r\n") || str_eq (before_nul raw) (codes "\n")
    then ret false
    else (do
      modify (λ o. record o { infor = count_down_and_check o.infor })
      run_line os (cut_line raw))

after_read-empty :
    (os : Os) (m : Shared) (o : Own) (sent : Sent)
    → alone (after_read os []) m o sent ≡ faulted null_pointer
unfolding before_nul str_eq modify alone ◌>>=◌ ◌>>◌
after_read-empty os m o sent =
    run_line-empty os m (record o { infor = count_down_and_check o.infor }) sent

-- A client closes its connection: `read` gives no byte, the empty line is run as a command, and its
-- process reads a null pointer, so that it ends without the logout. This holds in every state of the
-- shared memory and of the process, whatever the system does, with no other process moving.
pub shell_round-disconnected :
    (os : Os) (m : Shared) (o : Own) (sent : Sent)
    → os.read (o.trace ++ as_events (write o.sockfd prompt ∷ [])) o.sockfd ≡ []
    → alone (shell_round os) m o sent ≡ faulted null_pointer
unfolding shell_round alone ◌>>=◌ ◌>>◌ mine perform emit modify
shell_round-disconnected os m o sent e =
    let tr = o.trace ++ as_events (write o.sockfd prompt ∷ []) in
    ap (λ raw. alone (after_read os raw) m (record o { trace = tr }) sent) e
    ∙ after_read-empty os m _ sent
