-- ===== src/Libc/Tests.antt =====
-- The theorems on text at small inputs.
use np.Prelude.{◌≡◌, [], arith, ok, pos}
use np.Libc.{Bytes}
use np.Libc.Decimal.{cat_num_to_msg, atoi}
use np.Libc.Decimal.Print.{atoi-cat_num_to_msg}

atoi-cat_num_to_msg_example :
    (ds : Bytes) × (cat_num_to_msg 11 [] 2147483647 ≡ ok ds) × (atoi ds ≡ ok (pos 2147483647))
atoi-cat_num_to_msg_example = atoi-cat_num_to_msg 11 2147483647 (omega arith) (omega arith)
