-- ===== src/Frames/Early.antt =====
-- What one search of the server's codec takes off a buffer in which `10=` occurs before the CheckSum field.
use auto_test_poc.Base.{◌∷◌, [], ◌++◌}
use auto_test_poc.Py.Text.{Text, codes}
use auto_test_poc.Codec.{soh}

module _ (a v b : Text) where
  abbrev field_and_rest : Text
  field_and_rest = codes "10=" ++ (v ++ soh ∷ b)

  abbrev cut : Text
  cut = a ++ (codes "10=" ++ (v ++ soh ∷ []))
