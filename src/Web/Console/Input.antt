-- ===== src/Web/Console/Input.antt =====
-- The file of commands: `std::fstream::getline`, and the command in a line.
use np.Prelude.{ℕ, zero, suc, ◌-◌, Bool, true, false, [], ◌∷◌, if◌then◌else◌, ◌==◌}
use np.Libc.{Bytes}
use np.Single.Loop.{cut_line}

abbrev pub max_input_len : ℕ
max_input_len = 15000

-- The bytes that are left, and whether the stream is good: not if the file could not be opened, nor
-- after a `getline` that met the end of the file or a line too long.
pub record File : Type 0 where
  pub good : Bool
  pub left : Bytes

-- At most `room` bytes, up to a line end, which is taken but not stored.
unfoldable pub take_line : ℕ → Bytes → Bytes × File
take_line room [] = ([], record { good = false; left = [] })
take_line zero (b ∷ left) =
    if b == b'\n'
    then ([], record { good = true; left = left })
    else ([], record { good = false; left = b ∷ left })
take_line (suc room) (b ∷ left) = do
  let (line, file) = take_line room left
  if b == b'\n' then ([], record { good = true; left = left }) else (b ∷ line, file)

-- `file.getline(cmd, max_input_len)`; a stream that is not good gives the empty line.
unfoldable pub getline : File → Bytes × File
unfolding take_line
getline file = if file.good then take_line (max_input_len - 1) file.left else ([], file)

-- `cmd` after `strtok(cmd, "\r\n")`, as a text.
unfoldable pub command : Bytes → Bytes
unfolding cut_line
command line = (cut_line line).text
