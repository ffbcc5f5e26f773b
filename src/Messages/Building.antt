-- ===== src/Messages/Building.antt =====
-- Messages that are made by a constructor and setters can be sent.
use auto_test_poc.Base.{
  ℕ, ◌≡◌, refl, ◌∙◌, Bool, true, false, [], ◌∷◌, Option, some, if◌then◌else◌, arith, All,
  Bool-cases, inl, inr, ◌==◌, ==-refl,
}
use auto_test_poc.Base.Int.{ℤ, pos, negsuc, eq_ℤ}
use auto_test_poc.Py.Text.{Text, Lacks}
use auto_test_poc.Py.Sort.{first}
use auto_test_poc.Codec.Fields.{Distinct}
use auto_test_poc.Codec.Messages.{IsAscii}
use auto_test_poc.Messages.Enums.FixVersion.{FixVersion, fix_version_value}
use auto_test_poc.Messages.Enums.MsgType.{MsgType}
use auto_test_poc.Messages.Enums.Field.{Field, field_tag}
use auto_test_poc.Messages.Message.{Fields, FixMessage, put, bar, set_field, get_field, new_message}
use auto_test_poc.Messages.Reading.{IsEntry, first-put}
use auto_test_poc.Messages.RoundTrip.{IsSendable}

set-IsEntry :
    (n : ℕ) (v : Text) (d : Fields)
    → IsEntry (pos n, v)
    → All IsEntry d
    → All IsEntry (put (pos n) v d)
unfolding put
set-IsEntry n v [] h hs = (h, tt)
set-IsEntry n v ((pos j, w) ∷ d) h hs = elim (Bool-cases (eq_ℤ (pos n) (pos j))) [
  | inl same ↦ rw same (h, hs.1)
  | inr other ↦ rw other (hs.0, set-IsEntry n v d h hs.1)
]
set-IsEntry n v ((negsuc j, w) ∷ d) h hs = absurd hs.0

set-Distinct : (k : ℤ) (v : Text) (d : Fields) → Distinct d → Distinct (put k v d)
unfolding put
set-Distinct k v [] u = (refl, tt)
set-Distinct k v ((j, w) ∷ d) u = elim (Bool-cases (eq_ℤ k j)) [
  | inl same ↦ rw same (u.0, u.1)
  | inr other ↦ rw other (first-put j k v d ∙ ground (arith, other, u.0), set-Distinct k v d u.1)
]

eq_ℤ_pos : (n m : ℕ) → eq_ℤ (pos n) (pos m) ≡ (n == m)
eq_ℤ_pos n m = ground arith

-- The constructor of each class gives a message that can be sent, for every version.
pub new_message-IsSendable :
    (version : FixVersion) (t : Option MsgType) → IsSendable (new_message version t)
unfolding new_message
new_message-IsSendable version t = record {
  entries = (ground arith, tt);
  distinct = (refl, tt);
  begin = fix_version_value version;
  has_begin = refl;
}

-- Setting a field to an ASCII value without a bar keeps a message sendable, the field has that value
-- then, and every other field has the value it had.
pub set_field-IsSendable :
    (f : Field) (v : Text) (m : FixMessage)
    → Lacks bar v
    → IsAscii v
    → IsSendable m
    → IsSendable (set_field f v m)
      × (get_field f (set_field f v m) ≡ some v)
      × ((g : Field)
          → get_field g (set_field f v m)
            ≡ (if field_tag g == field_tag f then some v else get_field g m))
set_field-IsSendable f v m hl ha h = (
  record {
    entries = set-IsEntry (field_tag f) v m.fields (hl, ha) h.entries;
    distinct = set-Distinct (pos (field_tag f)) v m.fields h.distinct;
    begin = if eq_ℤ (pos 8) (pos (field_tag f)) then v else h.begin;
    has_begin =
        first-put (pos 8) (pos (field_tag f)) v m.fields ∙ kept (eq_ℤ (pos 8) (pos (field_tag f)));
  },
  first-put (pos (field_tag f)) (pos (field_tag f)) v m.fields
      ∙ rw (eq_ℤ_pos (field_tag f) (field_tag f), ==-refl (field_tag f)) refl,
  λ g.
      first-put (pos (field_tag g)) (pos (field_tag f)) v m.fields
      ∙ rw (eq_ℤ_pos (field_tag g) (field_tag f)) refl,
)
  where
    kept :
        (b : Bool)
        → (if b then some v else first (pos 8) m.fields) ≡ some (if b then v else h.begin)
    kept true = refl
    kept false = h.has_begin
