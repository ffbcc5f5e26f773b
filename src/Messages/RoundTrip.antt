-- ===== src/Messages/RoundTrip.antt =====
-- The text of a message is read back into the same fields.
use auto_test_poc.Base.{
  ℕ, ◌≡◌, ◌≢◌, refl, sym, ap, ◌∙◌, false, [], ◌∷◌, ◌++◌, map, Option, none, some, or_else,
  if◌then◌else◌, arith, All, Bool-cases, inl, inr, Option-cases,
}
use auto_test_poc.Base.Int.{ℤ, pos, eq_ℤ, eq_of_parts}
use auto_test_poc.Py.Exceptions.{ok, unicode_error, guard, ◌>>◌}
use auto_test_poc.Py.Text.{Text, codes}
use auto_test_poc.Py.Sort.{first}
use auto_test_poc.Codec.{field, checksum, is_ascii}
use auto_test_poc.Codec.Fields.{Distinct}
use auto_test_poc.Codec.Shape.{is_ascii-IsAscii}
use auto_test_poc.Messages.Enums.FixVersion.{fix_version_value}
use auto_test_poc.Messages.Enums.MsgType.{MsgType, msg_type_value}
use auto_test_poc.Messages.Message.{
  Fields, add_type, FixMessage, put, bar, front_text, build_fix_string, to_fix_string, typed_fields,
  sent_fields, parse_fix_string,
}
use auto_test_poc.Messages.Reading.{
  IsEntry, sent_fields-All, sent_fields-Distinct, first-sent_fields, first-put,
}
use auto_test_poc.Messages.Shape.{front-IsAscii, first-message_text, message_text}

put-All :
    (P : ℤ × Text → Type 0) (k : ℤ) (v : Text) (d : Fields)
    → first k d ≡ none
    → P (k, v)
    → All P d
    → All P (put k v d)
unfolding put
put-All P k v [] e h hs = (h, tt)
put-All P k v ((j, w) ∷ d) e h hs = elim (Bool-cases (eq_ℤ k j)) [
  | inl same ↦ absurd (ground (arith, same))
  | inr other ↦ rw other (hs.0, put-All P k v d (ground (arith, other)) h hs.1)
]

put-Distinct :
    (k : ℤ) (v : Text) (d : Fields) → first k d ≡ none → Distinct d → Distinct (put k v d)
unfolding put
put-Distinct k v [] e u = (refl, tt)
put-Distinct k v ((j, w) ∷ d) e u = elim (Bool-cases (eq_ℤ k j)) [
  | inl same ↦ absurd (ground (arith, same))
  | inr other ↦ rw other (
    first-put j k v d ∙ ground (arith, other, u.0),
    put-Distinct k v d (ground (arith, other)) u.1,
  )
]

-- A message whose fields can be written: each one is an entry, no tag comes twice, and there is a
-- BeginString, as the constructor sets it.
pub record IsSendable (m : FixMessage) : Type 0 where
  pub entries : All IsEntry m.fields
  pub distinct : Distinct m.fields
  pub begin : Text
  pub has_begin : first (pos 8) m.fields ≡ some begin

msg_type-IsEntry : (t : MsgType) → IsEntry (pos 35, msg_type_value t)
msg_type-IsEntry t = ground arith

typed-IsSendable :
    (m : FixMessage) → IsSendable m → IsSendable (record m { fields = typed_fields m })
typed-IsSendable m h = go m.msg_type (first (pos 35) m.fields) refl
  where
    go :
        (t : Option MsgType) (o : Option Text)
        → first (pos 35) m.fields ≡ o
        → IsSendable (record m { fields = add_type t o m.fields })
    go t (some v) e = record {
      entries = h.entries;
      distinct = h.distinct;
      begin = h.begin;
      has_begin = h.has_begin;
    }
    go none none e = record {
      entries = h.entries;
      distinct = h.distinct;
      begin = h.begin;
      has_begin = h.has_begin;
    }
    go (some t) none e = record {
      entries =
          put-All IsEntry (pos 35) (msg_type_value t) m.fields e (msg_type-IsEntry t) h.entries;
      distinct = put-Distinct (pos 35) (msg_type_value t) m.fields e h.distinct;
      begin = h.begin;
      has_begin = first-put (pos 8) (pos 35) (msg_type_value t) m.fields ∙ h.has_begin;
    }

eq_ℤ_ne : (k : ℤ) (n : ℕ) → k ≢ pos n → eq_ℤ k (pos n) ≡ false
eq_ℤ_ne k n h = ground (arith, eq_of_parts k (pos n))

or_else-begin :
    (k : ℤ) (d : Fields) (version : Text) {begin : Text}
    → first (pos 8) d ≡ some begin
    → or_else (first k d) (if eq_ℤ k (pos 8) then some version else none) ≡ first k d
or_else-begin k d version {begin} e = elim (Bool-cases (eq_ℤ k (pos 8))) [
  | inl same ↦
      let found : first k d ≡ some begin =
        ap (λ i. first i d) (eq_of_parts k (pos 8) (ground (arith, same))) ∙ e in
      rw (same, found) refl
  | inr other ↦ elim (Option-cases (first k d)) [
    | inl missing ↦ rw (other, missing) refl
    | inr (v, there) ↦ rw (other, there) refl
  ]
]

-- The fields that are sent, of which there is one at least, and the text.
pub record Encoded (m : FixMessage) : Type 0 where
  pub head : ℤ × Text
  pub rest : Fields
  pub sent : sent_fields (typed_fields m) ≡ head ∷ rest
  pub head_entry : IsEntry head
  pub entries : All IsEntry rest
  pub distinct : Distinct (head ∷ rest)
  pub computed : to_fix_string m ≡ ok (message_text m.fix_version head rest head_entry entries)

pub encode : (m : FixMessage) → IsSendable m → Encoded m
unfolding build_fix_string
encode m h =
    go (sent_fields d) refl (sent_fields-All IsEntry d sendable.entries)
      (sent_fields-Distinct d sendable.distinct)
  where
    d : Fields
    d = typed_fields m

    sendable : IsSendable (record m { fields = typed_fields m })
    sendable = typed-IsSendable m h

    made :
        (p : ℤ × Text) (ps : Fields)
        → sent_fields d ≡ p ∷ ps
        → (hs : All IsEntry (p ∷ ps))
        → to_fix_string m ≡ ok (message_text m.fix_version p ps hs.0 hs.1)
    made p ps e hs =
        let version = m.fix_version in
        ap
          (λ q.
            let t = front_text version (map field q) in
            guard (is_ascii t) unicode_error >> ok (t ++ (codes "10=" ++ checksum t) ++ bar ∷ []))
          e
        ∙ ap (λ b. guard b unicode_error >> ok (message_text version p ps hs.0 hs.1))
            (is_ascii-IsAscii (front_text version (map field (p ∷ ps)))
              (front-IsAscii version p ps hs.0 hs.1))

    go : (ps : Fields) → sent_fields d ≡ ps → All IsEntry ps → Distinct ps → Encoded m
    go [] e hs u = absurd (
        ground (
          arith,
          sym (ap (first (pos 8)) e) ∙ first-sent_fields (pos 8) d refl refl ∙ sendable.has_begin,
        ))
    go (p ∷ ps) e hs u = record {
      head = p;
      rest = ps;
      sent = e;
      head_entry = hs.0;
      entries = hs.1;
      distinct = u;
      computed = made p ps e hs;
    }

pub first-Encoded :
    (m : FixMessage) (e : Encoded m) (k : ℤ)
    → k ≢ pos 9
    → k ≢ pos 10
    → first k (e.head ∷ e.rest) ≡ first k (typed_fields m)
first-Encoded m e k h9 h10 =
    sym (ap (first k) e.sent)
    ∙ first-sent_fields k (typed_fields m) (eq_ℤ_ne k 9 h9) (eq_ℤ_ne k 10 h10)

abbrev pub encoded_text : (m : FixMessage) → Encoded m → Text
encoded_text m e = message_text m.fix_version e.head e.rest e.head_entry e.entries

pub first-parse_fix_string :
    (m into : FixMessage) (h : IsSendable m) (e : Encoded m) (k : ℤ)
    → k ≢ pos 9
    → k ≢ pos 10
    → first k (parse_fix_string (encoded_text m e) into).fields ≡ first k (typed_fields m)
unfolding parse_fix_string
first-parse_fix_string m into h e k h9 h10 =
    first-message_text m.fix_version e.head e.rest e.head_entry e.entries k e.distinct
      (eq_ℤ_ne k 9 h9) (eq_ℤ_ne k 10 h10)
    ∙ ap (λ o. or_else o (if eq_ℤ k (pos 8) then some (fix_version_value m.fix_version) else none))
        (first-Encoded m e k h9 h10)
    ∙ or_else-begin k (typed_fields m) (fix_version_value m.fix_version)
        (typed-IsSendable m h).has_begin

-- The text of a message is produced, and parsing it into any message object gives the fields that were
-- sent, under each tag but those of BodyLength and CheckSum.
pub parse_fix_string-to_fix_string :
    (m into : FixMessage)
    → IsSendable m
    → (s : Text) × (to_fix_string m ≡ ok s)
      × ((k : ℤ)
          → k ≢ pos 9
          → k ≢ pos 10
          → first k (parse_fix_string s into).fields ≡ first k (typed_fields m))
parse_fix_string-to_fix_string m into h =
    let e = encode m h in (encoded_text m e, e.computed, first-parse_fix_string m into h e)
