-- ===== src/Messages/Message.antt =====
-- `FixMessage` of common/fix_msg.py: its fields, and the text that stands for it.
use auto_test_poc.Base.{ℕ, ◌++◌, List, [], ◌∷◌, map, Option, none, some, if◌then◌else◌, length}
use auto_test_poc.Base.Int.{ℤ, pos, eq_ℤ}
use auto_test_poc.Py.Exceptions.{Result, ok, unicode_error, ◌>>◌, guard}
use auto_test_poc.Py.Text.{Text, codes, split, join, partition}
use auto_test_poc.Py.Decimal.{print_ℕ, parse_int}
use auto_test_poc.Py.Sort.{first, sort}
use auto_test_poc.Codec.{field, is_ascii, checksum}
use auto_test_poc.Messages.Members.{member}
use auto_test_poc.Messages.Enums.FixVersion.{FixVersion, fix_version_value}
use auto_test_poc.Messages.Enums.MsgType.{MsgType, msg_type_value, msg_types}
use auto_test_poc.Messages.Enums.Field.{Field, field_tag}

-- A dict with numbers as keys.
abbrev pub Fields : Type 0
Fields = List (ℤ × Text)

-- `d[k] = v` and `d.pop(k, None)`
unfoldable pub put : ℤ → Text → Fields → Fields
put k v [] = (k, v) ∷ []
put k v ((j, w) ∷ d) = if eq_ℤ k j then (j, v) ∷ d else (j, w) ∷ put k v d

unfoldable pub take_out : ℤ → Fields → Fields
take_out k [] = []
take_out k ((j, w) ∷ d) = if eq_ℤ k j then d else (j, w) ∷ take_out k d

pub record FixMessage : Type 0 where
  pub fix_version : FixVersion
  pub msg_type : Option MsgType
  pub fields : Fields

abbrev pub bar : ℕ
bar = b'|'

-- `set_field`, with `str(value)` made by the caller.
abbrev pub set_field : Field → Text → FixMessage → FixMessage
set_field f value m = record m { fields = put (pos (field_tag f)) value m.fields }

abbrev pub get_field : Field → FixMessage → Option Text
get_field f m = first (pos (field_tag f)) m.fields

-- `FixMessage(fix_version)`, and the subclasses, which set a type.
unfoldable pub new_message : FixVersion → Option MsgType → FixMessage
unfolding put
new_message version mtype =
    let bare : FixMessage = record { fix_version = version; msg_type = none; fields = [] } in
    record (set_field Field.begin_string (fix_version_value version) bare) { msg_type = mtype }

-- The copy of the fields that `to_fix_string` makes, with the type where it is not set.
abbrev pub add_type : Option MsgType → Option Text → Fields → Fields
add_type mtype (some t) d = d
add_type none none d = d
add_type (some mtype) none d = put (pos (field_tag Field.msg_type)) (msg_type_value mtype) d

abbrev pub typed_fields : FixMessage → Fields
typed_fields m = add_type m.msg_type (get_field Field.msg_type m) m.fields

abbrev pub sent_fields : Fields → Fields
sent_fields d = sort (take_out (pos 10) (take_out (pos 9) d))

-- The text up to the checksum.
abbrev pub front_text : FixVersion → List Text → Text
front_text version fix_parts =
    let body = join bar fix_parts ++ bar ∷ [] in
    (codes "8=" ++ fix_version_value version)
    ++ bar ∷ (codes "9=" ++ print_ℕ (length body))
    ++ bar ∷ body

-- `_build_fix_string`
unfoldable pub build_fix_string : FixVersion → Fields → Result Text
build_fix_string version d =
    let fix_msg = front_text version (map field (sent_fields d)) in
    guard (is_ascii fix_msg) unicode_error
    >> ok (fix_msg ++ (codes "10=" ++ checksum fix_msg) ++ bar ∷ [])

abbrev pub to_fix_string : FixMessage → Result Text
to_fix_string m = build_fix_string m.fix_version (typed_fields m)

-- One round of the loop in `parse_fix_string`: a part with no `=` and a tag that is no number are
-- skipped.
unfoldable pub read_part : Fields → Text → Fields
read_part d part = elim (partition b'=' part) [
  | none ↦ d
  | some (tag_str, value) ↦ elim (parse_int tag_str) [ none ↦ d | some tag ↦ put tag value d ]
]

abbrev pub read_parts : Fields → List Text → Fields
read_parts d [] = d
read_parts d (part ∷ parts) = read_parts (read_part d part) parts

-- The type that the fields name, and else the one that the object had.
abbrev pub parsed_type : Option Text → Option MsgType → Option MsgType
parsed_type none old = old
parsed_type (some []) old = old
parsed_type (some (c ∷ s)) old = elim (member msg_type_value msg_types (c ∷ s)) [
  | none ↦ old
  | some t ↦ some t
]

unfoldable pub parse_fix_string : Text → FixMessage → FixMessage
unfolding read_part
parse_fix_string fix_string m =
    let d = read_parts [] (split bar fix_string) in
    record m {
      fields = d;
      msg_type = parsed_type (first (pos (field_tag Field.msg_type)) d) m.msg_type;
    }
