-- ===== src/FixChecker/Agreement.antt =====
-- A message passes the validation exactly when it has the type and the fields that are expected.
use auto_test_poc.Base.{
  ◌≡◌, ◌⊎◌, inl, inr, refl, sym, ap, ◌∙◌, true, false, List, [], ◌∷◌, Option, none, some, arith,
  All, Bool-cases,
}
use auto_test_poc.Py.Exceptions.{Result, ok, err, assertion_error, ◌>>◌}
use auto_test_poc.Py.Text.{Text, text_eq, text_eq_refl, text_eq_iff}
use auto_test_poc.Py.Dict.{Dict}
use auto_test_poc.Messages.Enums.Field.{Field}
use auto_test_poc.Messages.Enums.Field as Tag
use auto_test_poc.Messages.Enums.MsgType.{MsgType, msg_type_value}
use auto_test_poc.Orders.Value.{Value, null, flag, int, float, text, is_null}
use auto_test_poc.FixChecker.{
  extract_field, is_same, validate_field, validate_fields, validate_fix_message,
}

-- Nothing is expected, or the text that is there.
abbrev pub Fits : {F : Type 0} → Value F → Option Text → Type 0
Fits expected actual = (expected ≡ null) ⊎ ((s : Text) × (expected ≡ text s) × (actual ≡ some s))

-- Every expected field of a message fits.
abbrev pub Agrees : {F : Type 0} → Dict Text → List (Field × Value F) → Type 0
Agrees msg = All (λ p. Fits p.1 (extract_field p.0 msg))

-- A validation passes where `P` holds, and raises AssertionError where it does not.
abbrev pub Decides : Result (Unit {0}) → Type 0 → Type 0
Decides r P = ((r ≡ ok tt) × P) ⊎ ((r ≡ err assertion_error) × (¬ P))

both-Decides :
    {P Q : Type 0} (r s : Result (Unit {0})) → Decides r P → Decides s Q → Decides (r >> s) (P × Q)
both-Decides r s (inl (e, p)) (inl (f, q)) = inl (rw (e, f) refl, (p, q))
both-Decides r s (inl (e, p)) (inr (f, q)) = inr (rw (e, f) refl, λ h. q h.1)
both-Decides r s (inr (e, p)) d = inr (rw e refl, λ h. p h.0)

with-Decides : {P Q : Type 0} (r : Result (Unit {0})) → P → Decides r Q → Decides r (P × Q)
with-Decides r p (inl (e, q)) = inl (e, (p, q))
with-Decides r p (inr (e, q)) = inr (e, λ h. q h.1)

module _ {F : Type 0} where
  -- What is no text is never in a message.
  not-Fits_other :
      (expected : Value F) (actual : Option Text)
      → is_null expected ≡ false
      → is_same expected actual ≡ false
      → ¬ Fits expected actual
  not-Fits_other expected actual known differs (inl e) = ground (arith, ap is_null e)
  not-Fits_other expected actual known differs (inr (s, e, a)) =
      let expected_text : Value F = text s in
      let same : is_same expected_text (some s) ≡ true = text_eq_refl s in
      ground
        (arith, sym differs ∙ ap (λ v. is_same v actual) e ∙ ap (is_same expected_text) a ∙ same)

  is_null-eq : (v : Value F) → is_null v ≡ true → v ≡ null
  is_null-eq null h = refl
  is_null-eq (flag b) h = cc
  is_null-eq (int n) h = cc
  is_null-eq (float x) h = cc
  is_null-eq (text s) h = cc

  field-Decides :
      (expected : Value F) (actual : Option Text)
      → Decides (validate_field expected actual) (Fits expected actual)
  unfolding validate_field
  field-Decides null actual = inl (refl, inl refl)
  field-Decides (flag b) actual = inr (refl, not-Fits_other (flag b) actual refl refl)
  field-Decides (int n) actual = inr (refl, not-Fits_other (int n) actual refl refl)
  field-Decides (float x) actual = inr (refl, not-Fits_other (float x) actual refl refl)
  field-Decides (text s) none = inr (refl, not-Fits_other (text s) none refl refl)
  field-Decides (text s) (some t) = elim (Bool-cases (text_eq s t)) [
    | inl same ↦ inl (rw same refl, inr (s, refl, ap some (sym ((text_eq_iff s t).0 same))))
    | inr differs ↦ inr (rw differs refl, not-Fits_other (text s) (some t) refl differs)
  ]

  fields-Decides :
      (msg : Dict Text) (fields : List (Field × Value F))
      → Decides (validate_fields msg fields) (Agrees msg fields)
  fields-Decides msg [] = inl (refl, tt)
  fields-Decides msg ((tag, expected) ∷ fields) = elim (Bool-cases (is_null expected)) [
    | inl nothing ↦ rw nothing (
        with-Decides (validate_fields msg fields) (inl (is_null-eq expected nothing))
          (fields-Decides msg fields))
    | inr known ↦ rw known (
        both-Decides (validate_field expected (extract_field tag msg)) (validate_fields msg fields)
          (field-Decides expected (extract_field tag msg)) (fields-Decides msg fields))
  ]

-- A validation passes exactly when the message has the expected type, and every field for which a value
-- is expected has that value, which then is a text; otherwise it raises AssertionError.
pub validate_fix_message-Agrees :
    {F : Type 0} (msg : Dict Text) (expected_type : MsgType) (fields : List (Field × Value F))
    → Decides (validate_fix_message msg expected_type fields) (
        Fits {F = F} (text (msg_type_value expected_type)) (extract_field Tag.msg_type msg)
        × Agrees msg fields)
unfolding validate_fix_message
validate_fix_message-Agrees {F} msg expected_type fields =
    let expected : Value F = text (msg_type_value expected_type) in
    both-Decides (validate_field expected (extract_field Tag.msg_type msg))
      (validate_fields msg fields) (field-Decides expected (extract_field Tag.msg_type msg))
      (fields-Decides msg fields)
