-- ===== src/Single/Loop/Disconnect.antt =====
-- A client that closes its connection without a word: `read` gives no byte.
use np.Prelude.{◌≡◌, refl, [], some, arith, get_elem?, set, ok, fault, null_pointer}
use np.Libc.{str_eq, strstr}
use np.Libc.Tokens.{tokens, strtok}
use np.Sys.{Os}
use np.CrossPipe.{CrossPipe, count_down_and_check}
use np.Single.State.{Client, Server}
use np.Single.Command.Parse.{split_loop, room_for_word}
use np.Single.Loop.{run_shell, before_nul, run_line, count_down_own, cut_line}

count_down_own_lem :
    (s : Server) (c : Client) (x : CrossPipe)
    → get_elem? s.list s.id ≡ some c
    → c.cp_infor ≡ some x
    → count_down_own s
      ≡ ok (
        tt,
        record s { list = set s.list s.id (record c { cp_infor = some (count_down_and_check x) }) },
      )
unfolding count_down_own
count_down_own_lem s c x a b = ground arith

run_line-empty : (os : Os) (s : Server) → run_line os (cut_line []) s ≡ fault null_pointer
unfolding run_line cut_line str_eq strstr strtok tokens split_loop room_for_word
run_line-empty os s = refl

-- A client closes its connection: `read` gives no byte, the empty line is run as a command, and the
-- server reads a null pointer. This holds in every state with a current client, whatever the system does.
pub run_shell-disconnected :
    (os : Os) (s : Server) (c : Client) (x : CrossPipe)
    → get_elem? s.list s.id ≡ some c
    → c.cp_infor ≡ some x
    → os.read s.trace c.sockfd ≡ []
    → run_shell os s ≡ fault null_pointer
unfolding run_shell str_eq before_nul
run_shell-disconnected os s c x a b e =
    let s' : Server = record s {
      list = set s.list s.id (record c { cp_infor = some (count_down_and_check x) });
    } in
    ground (arith, count_down_own_lem s c x a b, run_line-empty os s')
