-- ===== src/Messages/Enums/FixVersion.antt =====
-- `FixVersion` of common/fix_msg.py.
use auto_test_poc.Base.{◌≡◌, refl, List, [], ◌∷◌, some}
use auto_test_poc.Py.Text.{Text, codes}
use auto_test_poc.Messages.Members.{member}

pub data FixVersion : Type 0 where
  fix42 fix44 fix50 fix50sp2 : FixVersion

abbrev pub fix_version_value : FixVersion → Text
fix_version_value fix42 = codes "FIX.4.2"
fix_version_value fix44 = codes "FIX.4.4"
fix_version_value fix50 = codes "FIX.5.0"
fix_version_value fix50sp2 = codes "FIX.5.0SP2"

-- `FixVersion` as a sequence
abbrev pub fix_versions : List FixVersion
fix_versions = fix42 ∷ fix44 ∷ fix50 ∷ fix50sp2 ∷ []

-- No two members have the same value.
pub fix_version_value_lem :
    (e : FixVersion) → member fix_version_value fix_versions (fix_version_value e) ≡ some e
fix_version_value_lem fix42 = refl
fix_version_value_lem fix44 = refl
fix_version_value_lem fix50 = refl
fix_version_value_lem fix50sp2 = refl
