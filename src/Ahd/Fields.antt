-- ===== src/Ahd/Fields.antt =====
-- The fields of the packets of common/ahd_msg.py, and the packet classes that are made of them.
use auto_test_poc.Base.{ℕ, ◌+◌, List, [], ◌∷◌, Option, if◌then◌else◌, take, drop}
use Prim.Native.String.{String}
use auto_test_poc.Py.Text.{Text, codes, text_eq}
use auto_test_poc.Py.Dict.{Dict}

-- What a field holds. A field of a code keeps the names of its codes, a field of a price the digits
-- behind the point.
pub data FieldKind : Type 0 where
  plain right_padded integer date time12 time9 : FieldKind
  code : (names_of_codes : Dict Text) → FieldKind
  price : (decimal_digits : ℕ) → FieldKind

pub record Field : Type 0 where
  pub name : Text
  pub kind : FieldKind
  pub width : ℕ
  pub default : Option Text

abbrev pub str_field : String → Option Text → ℕ → Field
str_field name default width = record {
  name = codes name;
  kind = plain;
  width = width;
  default = default;
}

abbrev pub right_field : String → Option Text → ℕ → Field
right_field name default width = record {
  name = codes name;
  kind = right_padded;
  width = width;
  default = default;
}

abbrev pub int_field : String → Option Text → ℕ → Field
int_field name default width = record {
  name = codes name;
  kind = integer;
  width = width;
  default = default;
}

-- A code is one character.
abbrev pub char_field : String → Option Text → Dict Text → Field
char_field name default names_of_codes = record {
  name = codes name;
  kind = code names_of_codes;
  width = 1;
  default = default;
}

-- `PriceField.__init__`: the digits on both sides of the point, and one character more.
abbrev pub price_field : String → Option Text → ℕ → ℕ → Field
price_field name default integer_digits decimal_digits = record {
  name = codes name;
  kind = price decimal_digits;
  width = integer_digits + decimal_digits + 1;
  default = default;
}

-- `DateField.__init__`, `TimeField12.__init__` and `TimeField9.__init__`
abbrev pub date_field : String → Option Text → Field
date_field name default = record { name = codes name; kind = date; width = 8; default = default }

abbrev pub time_field12 : String → Option Text → Field
time_field12 name default = record {
  name = codes name;
  kind = time12;
  width = 12;
  default = default;
}

abbrev pub time_field9 : String → Option Text → Field
time_field9 name default = record { name = codes name; kind = time9; width = 9; default = default }

-- A class of packets: its name, the class that it extends, its attribute `name` where it declares one,
-- and its fields.
pub record PacketClass : Type 0 where
  pub class_name : Text
  pub parent : Text
  pub name : Option Text
  pub fields_desc : List Field

abbrev pub packet : String → Option Text → List Field → PacketClass
packet class_name name fields_desc = record {
  class_name = codes class_name;
  parent = codes "Packet";
  name = name;
  fields_desc = fields_desc;
}

-- A class that inherits the fields of another.
abbrev pub subclass : String → Option Text → PacketClass → PacketClass
subclass class_name name parent = record {
  class_name = codes class_name;
  parent = parent.class_name;
  name = name;
  fields_desc = parent.fields_desc;
}

-- The width of the fields together.
abbrev pub total_width : List Field → ℕ
total_width [] = 0
total_width (f ∷ fields) = f.width + total_width fields

-- `s[start : start + width]`
abbrev pub slice : ℕ → ℕ → Text → Text
slice start width s = take width (drop start s)

-- The bytes of the first field that has the name.
abbrev pub field_bytes : Text → List Field → Text → Text
field_bytes name [] p = []
field_bytes name (f ∷ fields) p =
    let rest = field_bytes name fields (drop f.width p) in
    if text_eq name f.name then take f.width p else rest
