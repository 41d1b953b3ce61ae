-- ===== src/Single/Command/Words.antt =====
-- Command lines without marks, and blank ones, in `string_split`.
use np.Prelude.{
  ℕ, zero, suc, ◌+◌, ◌<◌, ◌≤◌, ◌≡◌, refl, sym, ap, ◌∙◌, true, false, List, [], ◌∷◌, ◌++◌, some,
  arith, length, length-append, append_assoc, append-nil, pos, ok, fault, ◌==◌, ◌||◌, All,
  null_pointer,
}
use np.Libc.{Bytes, codes, str_eq}
use np.Libc.Tokens.{is_delim, skip, cut, strtok, strtok_next, tokens_from, tokens, tokens-blank}
use np.Sys.{Os}
use np.Single.State.{Server}
use np.Single.Command.Parse.{Split, start, room_for_word, add_word, split_token, split_loop, parse}
use np.Single.Command.{run_single, string_split}

-- A word has no space in it, and does not begin with one of the four marks.
abbrev pub IsWord : Bytes → Type 0
IsWord [] = ⊥
IsWord (c ∷ s) =
    ((c == b'|' || c == b'!' || c == b'<' || c == b'>') ≡ false)
    × All (λ d. (d == b' ') ≡ false) (c ∷ s)

-- The line: a space behind each word.
abbrev pub line_of : List Bytes → Bytes
line_of [] = []
line_of (w ∷ ws) = w ++ b' ' ∷ line_of ws

cut-word :
    (w rest : Bytes)
    → All (λ d. (d == b' ') ≡ false) w
    → cut (codes " ") (w ++ b' ' ∷ rest) ≡ (w, some rest)
unfolding cut
cut-word [] rest a = refl
cut-word (c ∷ w) rest (h, a) = ground (arith, cut-word w rest a)

strtok-word :
    (w rest : Bytes) → IsWord w → strtok (codes " ") (w ++ b' ' ∷ rest) ≡ some (w, some rest)
unfolding strtok skip
strtok-word [] rest v = elim v [ ]
strtok-word (c ∷ w) rest (m, (h, a)) = ground (arith, cut-word (c ∷ w) rest (h, a))

tokens_from-line :
    (ws : List Bytes) (fuel : ℕ)
    → All IsWord ws
    → length ws < fuel
    → tokens_from fuel (codes " ") (some (line_of ws)) ≡ ws
unfolding tokens_from strtok_next
tokens_from-line ws zero v h = absurd (omega arith)
tokens_from-line [] (suc fuel) v h = unfold strtok skip in refl
tokens_from-line (w ∷ ws) (suc fuel) (v, vs) h =
    rw (tokens_from, strtok_next, strtok-word w (line_of ws) v)
      (ap (λ t. w ∷ t) (tokens_from-line ws fuel vs (omega arith)))

length-line : (ws : List Bytes) → length ws ≤ length (line_of ws)
length-line [] = omega arith
length-line (w ∷ ws) = omega (arith, length-append w (b' ' ∷ line_of ws), length-line ws)

split_token-word :
    (w : Bytes) (s : Split)
    → IsWord w
    → length s.words < 128
    → split_token w s ≡ ok (record s { words = s.words ++ w ∷ [] })
unfolding split_token add_word room_for_word str_eq
split_token-word [] s v h = elim v [ ]
split_token-word (c ∷ w) s (m, a) h = ground arith

split_loop-words :
    (ws : List Bytes) (s : Split)
    → All IsWord ws
    → length s.words + length ws ≤ 128
    → split_loop ws s ≡ ok (record s { words = s.words ++ ws })
unfolding split_loop
split_loop-words [] s v h = ap (λ t. ok (record s { words = t })) (sym (append-nil s.words))
split_loop-words (w ∷ ws) s (v, vs) h = rw (split_token-word w s v (omega arith)) (
    split_loop-words ws (record s { words = s.words ++ w ∷ [] }) vs
      (omega (arith, length-append s.words (w ∷ [])))
    ∙ ap (λ t. ok (record s { words = t })) (append_assoc s.words (w ∷ []) ws))

-- A line of at most 127 words with a space behind each, none of which begins with a mark, is analysed
-- as one command of exactly these words, with no pipe, redirection or number.
pub parse-line_of :
    (ws : List Bytes)
    → All IsWord ws
    → length ws < 128
    → parse (line_of ws)
      ≡ ok (record {
        cmds = ws ∷ [];
        cmd_num = 0;
        cross_num = pos 0;
        redir = false;
        user_in_id = pos 0;
        user_out_id = pos 0;
        mode = false;
      })
unfolding parse tokens room_for_word
parse-line_of ws v h =
    rw
      (
        tokens_from-line ws (suc (length (line_of ws))) v (omega (arith, length-line ws)),
        split_loop-words ws start v (omega arith),
      )
      (ground arith)

-- A line of spaces only, the empty one included: the name of the command is a null pointer, and the
-- server reads it. This holds in every state, whatever the system does.
pub string_split-blank :
    (os : Os) (line : Bytes) (s : Server)
    → All (λ c. is_delim (codes " ") c ≡ true) line
    → string_split os line s ≡ fault null_pointer
unfolding string_split parse run_single split_loop room_for_word
string_split-blank os line s a = rw (tokens-blank (codes " ") line a) refl
