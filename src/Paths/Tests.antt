-- ===== src/Paths/Tests.antt =====
-- Paths that `parse_path` of src/fs/vfs.c splits.
use ras_pi_k.Base.{◌+◌, ◌≡◌, refl, none, some, [], ◌∷◌, ◌++◌, arith}
use ras_pi_k.Strings.{CString, text}
use ras_pi_k.Store.{Store, ok, fault}
use ras_pi_k.Paths.{slash, parse_path}
use ras_pi_k.Paths.Split.{IsName, parse_path-split, parse_path_overflow}

abbrev store : Store (Unit {0})
store = record {
  hw = tt;
  pool = λ i. record { address = 64 + i; junk = λ _. 7 };
  vfile = λ _. none;
  vffs = λ _. none;
  device = λ _. none;
  devfs = λ _. none;
  driver = λ _. none;
}

abbrev tmp : CString
tmp = b't' ∷ b'm' ∷ b'p' ∷ []

abbrev file : CString
file = b'a' ∷ b'b' ∷ []

abbrev messages : CString
messages = b'm' ∷ b'e' ∷ b's' ∷ b's' ∷ b'a' ∷ b'g' ∷ b'e' ∷ b's' ∷ []

tmp-IsName : IsName tmp
unfolding IsName
tmp-IsName = ground arith

messages-IsName : IsName messages
unfolding IsName
messages-IsName = ground arith

parse_path-split_example :
    parse_path (slash ∷ tmp ++ slash ∷ file) store
    ≡ ok
        (some (tmp, text file))
        (record store { pool = λ i. record { address = 64 + (i + 1 + 1 + 1); junk = λ _. 7 } })
parse_path-split_example =
    parse_path-split store (omega arith) (omega arith) tmp file tmp-IsName (omega arith)

parse_path_overflow_example : parse_path messages store ≡ fault
parse_path_overflow_example =
    parse_path_overflow store (omega arith) (omega arith) messages messages-IsName refl
