-- ===== src/FatNames/Tests.antt =====
-- The entry `FOO.TXT`, and the theorems about the names of src/fs/fat32.c at it.
use ras_pi_k.Base.{◌≡◌, refl, some, true, [], ◌∷◌, ◌++◌, arith, get_or}
use ras_pi_k.Strings.{CString}
use ras_pi_k.FatNames.{FatDir, upper, name_from, check_filename}
use ras_pi_k.FatNames.Match.{check_filename-accepts}

abbrev foo : CString
foo = b'F' ∷ b'O' ∷ b'O' ∷ b' ' ∷ []

abbrev txt : CString
txt = b'T' ∷ b'X' ∷ b'T' ∷ []

abbrev entry : FatDir
entry = record {
  name = λ j. get_or foo j b' ';
  ext = λ j. get_or txt j b' ';
  attrs = 0x20;
  clhigh = 0;
  cllow = 3;
  size = 10;
}

-- `foobar.txt` is taken for `FOO.TXT`.
check_filename-accepts_example :
    check_filename entry
      (((b'f' ∷ b'o' ∷ b'o' ∷ []) ++ (b'b' ∷ b'a' ∷ b'r' ∷ b'.' ∷ [])) ++ (b't' ∷ b'x' ∷ b't' ∷ []))
    ≡ some true
unfolding name_from upper
check_filename-accepts_example =
    check_filename-accepts entry (b'f' ∷ b'o' ∷ b'o' ∷ []) (b'b' ∷ b'a' ∷ b'r' ∷ b'.' ∷ []) b't'
      b'x' b't' (refl, (refl, (refl, tt))) (refl, refl, refl) (omega arith)
