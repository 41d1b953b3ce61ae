-- ===== src/Single/Command/Parse.antt =====
-- The analysis of a command line in `string_split`.
use np.Prelude.{
  ℕ, ◌+◌, Bool, true, false, ◌||◌, List, [], ◌∷◌, ◌++◌, if◌then◌else◌, ◌==◌, ltb, length, ℤ, pos,
  neg, Result, ok, fault, ◌>>=◌, buffer_overflow,
}
use np.Libc.{Bytes, codes, str_eq}
use np.Libc.Tokens.{tokens}
use np.Libc.Decimal.{atoi}

-- Room for the words of one command and its NULL (`max_cmd_len/2`), and for the commands
-- (`max_input_len/4`).
abbrev pub max_words : ℕ
max_words = 128

abbrev pub max_cmds : ℕ
max_cmds = 3750

-- The locals of `string_split` in the loop: the commands before the last, the words of the last.
pub record Split : Type 0 where
  pub done : List (List Bytes)
  pub words : List Bytes
  pub cross_num : ℤ
  pub redir : Bool
  pub user_in_id : ℤ
  pub user_out_id : ℤ
  pub mode : Bool

abbrev pub start : Split
start = record {
  done = [];
  words = [];
  cross_num = pos 0;
  redir = false;
  user_in_id = pos 0;
  user_out_id = pos 0;
  mode = false;
}

-- `cmd_collection[cmd_num][count] = …` must stay in its array.
unfoldable pub room_for_word : Split → Result (Unit {0})
room_for_word s = if ltb (length s.words) max_words then ok tt else fault buffer_overflow

-- A lone `|` or `>` ends a command.
unfoldable pub next_command : Bool → Split → Result Split
next_command is_pipe s = do
  room ← room_for_word s
  let s' = record s {
    done = s.done ++ s.words ∷ [];
    words = [];
    mode = s.mode || is_pipe;
    redir = s.redir || (if is_pipe then false else true);
  }
  if ltb (length s.done + 1) max_cmds then ok s' else fault buffer_overflow

-- A word with a mark in front: `|n`, `!n`, `<n`, `>n`.
unfoldable pub mark : ℕ → Bytes → Split → Result Split
mark c num s = do
  n ← atoi num
  ok (
      if c == b'|'
      then record s { cross_num = n }
      else if c == b'!'
      then record s { cross_num = neg n }
      else if c == b'<'
      then record s { user_in_id = n }
      else record s { user_out_id = n })

unfoldable pub add_word : Bytes → Split → Result Split
add_word word s = do room ← room_for_word s; ok (record s { words = s.words ++ word ∷ [] })

-- The body of the loop. A token is never empty.
unfoldable pub split_token : Bytes → Split → Result Split
split_token [] s = add_word [] s
split_token (c ∷ num) s =
    if str_eq (c ∷ num) (codes "|")
    then next_command true s
    else if str_eq (c ∷ num) (codes ">")
    then next_command false s
    else if c == b'|' || c == b'!' || c == b'<' || c == b'>'
    then mark c num s
    else add_word (c ∷ num) s

unfoldable pub split_loop : List Bytes → Split → Result Split
split_loop [] s = ok s
split_loop (t ∷ ts) s = do s' ← split_token t s; split_loop ts s'

-- The command line after the analysis; `cmd_num` counts the commands before the last.
pub record Parsed : Type 0 where
  pub cmds : List (List Bytes)
  pub cmd_num : ℕ
  pub cross_num : ℤ
  pub redir : Bool
  pub user_in_id : ℤ
  pub user_out_id : ℤ
  pub mode : Bool

unfoldable pub parse : Bytes → Result Parsed
parse all_cmd = do
  s ← split_loop (tokens (codes " ") all_cmd) start
  room ← room_for_word s
  ok (record {
    cmds = s.done ++ s.words ∷ [];
    cmd_num = length s.done;
    cross_num = s.cross_num;
    redir = s.redir;
    user_in_id = s.user_in_id;
    user_out_id = s.user_out_id;
    mode = s.mode;
  })
