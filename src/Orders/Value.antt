-- ===== src/Orders/Value.antt =====
-- The values that an order's attributes and the keyword arguments hold, with Python's operators on them.
use auto_test_poc.Base.{Bool, true, false, not, [], ◌∷◌, ◌++◌, ltb, ◌==◌, if◌then◌else◌}
use auto_test_poc.Base.Int.{ℤ, pos, ◌+ℤ◌, ◌-ℤ◌, neg_ℤ, ltb_ℤ, leb_ℤ, eq_ℤ}
use auto_test_poc.Py.Exceptions.{Result, ok, err, type_error, ◌>>=◌}
use auto_test_poc.Py.Text.{Text, codes, text_eq}

-- Floating point numbers, of which nothing is assumed.
pub record Floats (F : Type 0) : Type 0 where
  pub add : F → F → F
  pub sub : F → F → F
  pub neg : F → F
  pub ltb : F → F → Bool
  pub leb : F → F → Bool
  pub is_zero : F → Bool
  pub of_int : ℤ → F

pub data Value (F : Type 0) : Type 0 where
  null : Value F
  flag : Bool → Value F
  int : ℤ → Value F
  float : F → Value F
  text : Text → Value F

module _ {F : Type 0} where
  abbrev pub is_null : Value F → Bool
  is_null null = true
  is_null (flag b) = false
  is_null (int n) = false
  is_null (float x) = false
  is_null (text s) = false

  -- What an arithmetic operator makes of an operand: a Boolean is a number.
  abbrev pub operand : Value F → Value F
  operand null = null
  operand (flag true) = int (pos 1)
  operand (flag false) = int (pos 0)
  operand (int n) = int n
  operand (float x) = float x
  operand (text s) = text s

-- `a < b` on texts
abbrev pub ltb_text : Text → Text → Bool
ltb_text s [] = false
ltb_text [] (d ∷ t) = true
ltb_text (c ∷ s) (d ∷ t) =
    let rest = ltb_text s t in if ltb c d then true else if c == d then rest else false

module _ {F : Type 0} (num : Floats F) where
  -- `a + b` on numbers and texts
  abbrev pub add_operands : Value F → Value F → Result (Value F)
  add_operands (int a) (int b) = ok (int (a +ℤ b))
  add_operands (int a) (float y) = ok (float (num.add (num.of_int a) y))
  add_operands (float x) (int b) = ok (float (num.add x (num.of_int b)))
  add_operands (float x) (float y) = ok (float (num.add x y))
  add_operands (text s) (text t) = ok (text (s ++ t))
  add_operands _ _ = err type_error

  abbrev pub sub_operands : Value F → Value F → Result (Value F)
  sub_operands (int a) (int b) = ok (int (a -ℤ b))
  sub_operands (int a) (float y) = ok (float (num.sub (num.of_int a) y))
  sub_operands (float x) (int b) = ok (float (num.sub x (num.of_int b)))
  sub_operands (float x) (float y) = ok (float (num.sub x y))
  sub_operands _ _ = err type_error

  abbrev pub lt_operands : Value F → Value F → Result Bool
  lt_operands (int a) (int b) = ok (ltb_ℤ a b)
  lt_operands (int a) (float y) = ok (num.ltb (num.of_int a) y)
  lt_operands (float x) (int b) = ok (num.ltb x (num.of_int b))
  lt_operands (float x) (float y) = ok (num.ltb x y)
  lt_operands (text s) (text t) = ok (ltb_text s t)
  lt_operands _ _ = err type_error

  abbrev pub neg_operand : Value F → Result (Value F)
  neg_operand (int a) = ok (int (neg_ℤ a))
  neg_operand (float x) = ok (float (num.neg x))
  neg_operand _ = err type_error

  abbrev pub le_zero_operand : Value F → Result Bool
  le_zero_operand (int a) = ok (leb_ℤ a (pos 0))
  le_zero_operand (float x) = ok (num.leb x (num.of_int (pos 0)))
  le_zero_operand _ = err type_error

  -- `a + b`, `a - b`, `-a`
  abbrev pub add : Value F → Value F → Result (Value F)
  add a b = add_operands (operand a) (operand b)

  abbrev pub sub : Value F → Value F → Result (Value F)
  sub a b = sub_operands (operand a) (operand b)

  abbrev pub neg : Value F → Result (Value F)
  neg a = neg_operand (operand a)

  -- `a < b`, `a <= 0`, `a > 0`
  abbrev pub lt : Value F → Value F → Result Bool
  lt a b = lt_operands (operand a) (operand b)

  abbrev pub le_zero : Value F → Result Bool
  le_zero a = le_zero_operand (operand a)

  abbrev pub gt_zero : Value F → Result Bool
  gt_zero a = lt (int (pos 0)) a

  -- `max(a, b)`: the second one where it is larger.
  abbrev pub max : Value F → Value F → Result (Value F)
  max a b = lt a b >>= λ larger. ok (if larger then b else a)

  -- `bool(a)`
  abbrev pub truthy : Value F → Bool
  truthy null = false
  truthy (flag b) = b
  truthy (int n) = not (eq_ℤ n (pos 0))
  truthy (float x) = not (num.is_zero x)
  truthy (text []) = false
  truthy (text (c ∷ s)) = true

  -- `a in (None, 0, "new")`
  abbrev pub is_unset : Value F → Bool
  is_unset null = true
  is_unset (flag b) = not b
  is_unset (int n) = eq_ℤ n (pos 0)
  is_unset (float x) = num.is_zero x
  is_unset (text s) = text_eq s (codes "new")

-- `a == "filled"`, for a text without an escape.
abbrev pub is_text : {F : Type 0} → Text → Value F → Bool
is_text s null = false
is_text s (flag b) = false
is_text s (int n) = false
is_text s (float x) = false
is_text s (text t) = text_eq t s
