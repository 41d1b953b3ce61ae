-- ===== src/Single/Command/Shape.antt =====
-- What the analysis of a command line guarantees to the code that runs it.
use np.Prelude.{
  ℕ, ◌+◌, ◌≤◌, ◌≡◌, sym, ap, subst, Bool, true, false, List, [], ◌∷◌, ◌++◌, arith, if◌then◌else◌,
  length, length-append, ok, ok-injective, >>=-eq-ok,
}
use np.Libc.{Bytes, codes}
use np.Libc.Tokens.{tokens}
use np.Single.Command.Parse.{
  Split, start, Parsed, room_for_word, next_command, mark, add_word, split_token, split_loop, parse,
}

-- Each of the two marks seen has ended a command.
abbrev marks : Split → ℕ
marks s = (if s.mode then 1 else 0) + (if s.redir then 1 else 0)

abbrev Counted : Split → Type 0
Counted s = marks s ≤ length s.done

next_command-Counted :
    (is_pipe : Bool) (s s' : Split) → next_command is_pipe s ≡ ok s' → Counted s → Counted s'
unfolding next_command room_for_word
next_command-Counted is_pipe s s' e c = ground (arith, length-append s.done (s.words ∷ []))

mark-Counted : (c : ℕ) (num : Bytes) (s s' : Split) → mark c num s ≡ ok s' → Counted s → Counted s'
unfolding mark
mark-Counted c num s s' e h = ground arith

add_word-Counted : (w : Bytes) (s s' : Split) → add_word w s ≡ ok s' → Counted s → Counted s'
unfolding add_word room_for_word
add_word-Counted w s s' e h = ground arith

split_token-Counted : (t : Bytes) (s s' : Split) → split_token t s ≡ ok s' → Counted s → Counted s'
unfolding split_token
split_token-Counted [] s s' e h = add_word-Counted [] s s' e h
split_token-Counted (c ∷ num) s s' e h = ground (
  arith,
  next_command-Counted true s s',
  next_command-Counted false s s',
  mark-Counted c num s s',
  add_word-Counted (c ∷ num) s s',
)

split_loop-Counted :
    (ts : List Bytes) (s s' : Split) → split_loop ts s ≡ ok s' → Counted s → Counted s'
unfolding split_loop
split_loop-Counted [] s s' e h = subst Counted (ok-injective e) h
split_loop-Counted (t ∷ ts) s s' e h =
    let (s1, f, g) = >>=-eq-ok (split_token t s) (split_loop ts) e in
    split_loop-Counted ts s1 s' g (split_token-Counted t s s1 f h)

-- What `parse` returns, seen from the end of the loop.
parse-inv :
    (line : Bytes) (p : Parsed)
    → parse line ≡ ok p
    → (s : Split) × (split_loop (tokens (codes " ") line) start ≡ ok s)
      × (p.mode ≡ s.mode)
      × (p.redir ≡ s.redir)
      × (p.cmd_num ≡ length s.done)
      × (p.cmds ≡ s.done ++ s.words ∷ [])
unfolding parse
parse-inv line p e =
    let (s, f, g) = >>=-eq-ok (split_loop (tokens (codes " ") line) start) _ e in
    let (r, k, l) = >>=-eq-ok (room_for_word s) _ g in
    let same = ok-injective l in
    (
      s,
      f,
      sym (ap (λ (q : Parsed). q.mode) same),
      sym (ap (λ (q : Parsed). q.redir) same),
      sym (ap (λ (q : Parsed). q.cmd_num) same),
      sym (ap (λ (q : Parsed). q.cmds) same),
    )

-- If the analysis of a line succeeds and finds a `|` between spaces, the number of commands that
-- `ordinary_pipe` gets is at least two, without the file of a `>`, and `cmd_num + 1` is the number of
-- entries in the table of commands.
pipeline_has_two :
    (line : Bytes) (p : Parsed)
    → parse line ≡ ok p
    → p.mode ≡ true
    → (2 ≤ (if p.redir then p.cmd_num else p.cmd_num + 1)) × (p.cmd_num + 1 ≡ length p.cmds)
pipeline_has_two line p e piped =
    let (s, f, m, r, n, c) = parse-inv line p e in
    let counted = split_loop-Counted (tokens (codes " ") line) start s f (omega arith) in
    (ground arith, omega (arith, ap length c, length-append s.done (s.words ∷ [])))
