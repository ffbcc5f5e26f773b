-- ===== src/Messages/Members.antt =====
-- The search for the member of an enumeration that has a value.
use auto_test_poc.Base.{ℕ, List, [], ◌∷◌, Option, none, some, if◌then◌else◌, ◌==◌}
use auto_test_poc.Py.Text.{Text, text_eq}

module _ {E : Type 0} where
  -- `for m in E: if m.value == value: …; break`
  abbrev pub member : (E → Text) → List E → Text → Option E
  member value [] v = none
  member value (e ∷ es) v =
      let rest = member value es v in if text_eq (value e) v then some e else rest

  abbrev pub tag_member : (E → ℕ) → List E → ℕ → Option E
  tag_member tag [] n = none
  tag_member tag (e ∷ es) n = let rest = tag_member tag es n in if tag e == n then some e else rest
