-- ===== src/Single/Command/Tests.antt =====
-- The theorems on the analysis of a command line at small inputs.
use np.Prelude.{
  ◌≡◌, refl, true, false, some, List, [], ◌∷◌, arith, pos, ok, fault, null_pointer, All,
}
use np.Libc.{Bytes, codes, str_eq}
use np.Libc.Tokens.{tokens}
use np.Sys.{Os}
use np.Single.State.{Server}
use np.Single.Command.{string_split}
use np.Single.Command.Parse.{
  Parsed, parse, split_loop, split_token, next_command, add_word, room_for_word,
}
use np.Single.Command.Words.{IsWord, line_of, parse-line_of, string_split-blank}

-- `ls | cat > out`
abbrev piped : Parsed
piped = record {
  cmds = (codes "ls" ∷ []) ∷ (codes "cat" ∷ []) ∷ (codes "out" ∷ []) ∷ [];
  cmd_num = 2;
  cross_num = pos 0;
  redir = true;
  user_in_id = pos 0;
  user_out_id = pos 0;
  mode = true;
}

piped_line : parse (codes "ls | cat > out") ≡ ok piped
unfolding parse tokens split_loop split_token next_command add_word room_for_word str_eq
piped_line = refl

abbrev words : List Bytes
words = codes "ls" ∷ codes "-l" ∷ []

words-IsWord : All IsWord words
words-IsWord = ((refl, (refl, (refl, tt))), ((refl, (refl, (refl, tt))), tt))

parse-line_of_example :
    parse (line_of words)
    ≡ ok (record {
      cmds = words ∷ [];
      cmd_num = 0;
      cross_num = pos 0;
      redir = false;
      user_in_id = pos 0;
      user_out_id = pos 0;
      mode = false;
    })
parse-line_of_example = parse-line_of words words-IsWord (omega arith)

abbrev idle : Os
idle = record {
  read_end = λ tr. 3;
  write_end = λ tr. 4;
  child_pid = λ tr. 1;
  open_file = λ tr path. some 5;
  open_null = λ tr. some 6;
  read = λ tr fd. [];
  execvp = λ tr path. true;
  garbage = λ tr. pos 0;
}

abbrev empty_server : Server
empty_server = record {
  id = 0;
  list = [];
  env = [];
  environ = [];
  active_fd_set = [];
  fd_id_list = [];
  client_num = 0;
  min_id = 1;
  env_id = 0;
  trace = [];
}

string_split-blank_example : string_split idle (codes "  ") empty_server ≡ fault null_pointer
string_split-blank_example = string_split-blank idle (codes "  ") empty_server (refl, (refl, tt))
