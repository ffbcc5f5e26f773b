-- ===== src/Ahd/PostBuild/Operations.antt =====
-- `post_build` of AdminCommon, OrderCommon and NoticeCommon: the length is written into the first field.
use auto_test_poc.Base.{
  ℕ, ◌+◌, ◌-◌, ◌≤◌, ◌<◌, ◌≡◌, inl, inr, refl, sym, ap, ◌∙◌, List, [], ◌∷◌, ◌++◌, none, some, arith,
  length, drop, length-append, length-drop, drop-length, if◌then◌else◌, take, Bool-cases,
  append_assoc,
}
use mathlib.Core.Path.{subst}
use auto_test_poc.Base.Int.{pos}
use auto_test_poc.Py.Exceptions.{ok}
use auto_test_poc.Py.Text.{Text, codes, text_eq, text_eq_refl}
use auto_test_poc.Padded.{int_m2i}
use auto_test_poc.Ahd.Fields.{Field, integer, total_width, field_bytes}
use auto_test_poc.Ahd.Packets.Admin.{admin_common_packet}
use auto_test_poc.Ahd.Packets.Orders.{order_common_packet}
use auto_test_poc.Ahd.Packets.Notices.{notice_common_packet}
use auto_test_poc.Ahd.PostBuild.{
  five_wide, length_behind, admin_post_build, order_post_build, notice_post_build,
}
use auto_test_poc.Ahd.PostBuild.Slices.{drop-append_right}
use auto_test_poc.Ahd.PostBuild.Lengths.{
  five_field, Agree, field_bytes-Agree, front-length, front-read, behind,
}

-- `q` is built of `p` and `payload`: the named field of the length is read back, the payload stands
-- behind the header, and every field of another name is as in `p`.
abbrev pub IsBuilt : Text → List Field → Text → Text → Text → Type 0
IsBuilt length_name fields p payload q =
    (length q ≡ length p + length payload)
    × (int_m2i five_field (field_bytes length_name fields q) ≡ ok (some (pos (length q - 5))))
    × (drop (length p) q ≡ payload)
    × ((name : Text)
        → field_bytes name fields q
          ≡ (if text_eq name length_name then take 5 q else field_bytes name fields p))

abbrev int_field_named : Text → Field
int_field_named name = record { name = name; kind = integer; width = 5; default = none }

module _ (length_name p payload : Text) (small : length p + length payload < 100005)
    (whole : 5 ≤ length p) where
  abbrev built : Text
  built = five_wide (length_behind p payload) ++ (drop 5 p ++ payload)

  tail-Agree :
      (start : ℕ) (fields : List Field)
      → 5 ≤ start
      → start + total_width fields ≤ length p
      → Agree (length_name ∷ []) start fields p built
  tail-Agree start [] h k = tt
  tail-Agree start (f ∷ fields) h k = (
    inl (behind p payload small whole start f.width payload h (omega arith)),
    tail-Agree (start + f.width) fields (omega arith) (omega arith),
  )

  built-length : length built ≡ length p + length payload
  built-length = omega (
    arith,
    length-append (five_wide (length_behind p payload)) (drop 5 p ++ payload),
    length-append (drop 5 p) payload,
    length-drop 5 p,
    front-length p payload small whole,
  )

  built-payload : drop (length p) built ≡ payload
  built-payload =
      let fits : length p - 5 ≡ length (drop 5 p) = omega (arith, length-drop 5 p) in
      drop-append_right (length p) (five_wide (length_behind p payload)) (drop 5 p ++ payload)
        (omega (arith, front-length p payload small whole))
      ∙ ap (λ n. drop (length p - n) (drop 5 p ++ payload)) (front-length p payload small whole)
      ∙ ap (λ n. drop n (drop 5 p ++ payload)) fits
      ∙ drop-length (drop 5 p) payload

  built-IsBuilt :
      (fields : List Field)
      → 5 + total_width fields ≤ length p
      → IsBuilt length_name (int_field_named length_name ∷ fields) p payload built
  built-IsBuilt fields h = (
    built-length,
    ap
          (λ b.
            int_m2i five_field
              (if b then take 5 built else field_bytes length_name fields (drop 5 built)))
          (text_eq_refl length_name)
        ∙ front-read p payload small whole (drop 5 p ++ payload)
        ∙ ap (λ n. ok (some (pos (n - 5)))) (sym built-length),
    built-payload,
    other,
  )
    where
      other :
          (name : Text)
          → field_bytes name (int_field_named length_name ∷ fields) built ≡ (
              if text_eq name length_name
              then take 5 built
              else field_bytes name (int_field_named length_name ∷ fields) p)
      other name = elim (Bool-cases (text_eq name length_name)) [
        | inl same ↦ rw same refl
        | inr differs ↦ rw differs (
            field_bytes-Agree (length_name ∷ []) name fields 5 p built (rw differs refl)
              (tail-Agree 5 fields (omega arith) h))
      ]

-- The packets of administration, of orders and of notices that are built, with the width of their
-- header and a payload that the five digits can count, the first two with no length set: each is as long
-- as header and payload, its length field is read back as the bytes behind the fifth, the payload stands
-- behind the header as it was, and every field with another name as well.
pub with_length_lem :
    (admin order notice payload : Text)
    → length admin ≡ total_width admin_common_packet.fields_desc
    → length order ≡ total_width order_common_packet.fields_desc
    → length notice ≡ total_width notice_common_packet.fields_desc
    → length payload < 99940
    → IsBuilt
        (codes "DataLength")
        admin_common_packet.fields_desc
        admin
        payload
        (admin_post_build none admin payload)
      × IsBuilt
          (codes "DataLen")
          order_common_packet.fields_desc
          order
          payload
          (order_post_build none order payload)
      × IsBuilt
          (codes "DataLength")
          notice_common_packet.fields_desc
          notice
          payload
          (notice_post_build notice payload)
unfolding admin_post_build order_post_build notice_post_build
with_length_lem admin order notice payload ha ho hn small = (
  subst (IsBuilt (codes "DataLength") admin_common_packet.fields_desc admin payload)
      (sym (append_assoc (five_wide (length_behind admin payload)) (drop 5 admin) payload))
      (built-IsBuilt (codes "DataLength") admin payload (omega arith) (omega arith)
        (drop 1 admin_common_packet.fields_desc) (omega arith)),
  subst (IsBuilt (codes "DataLen") order_common_packet.fields_desc order payload)
      (sym (append_assoc (five_wide (length_behind order payload)) (drop 5 order) payload))
      (built-IsBuilt (codes "DataLen") order payload (omega arith) (omega arith)
        (drop 1 order_common_packet.fields_desc) (omega arith)),
  subst (IsBuilt (codes "DataLength") notice_common_packet.fields_desc notice payload)
      (sym (append_assoc (five_wide (length_behind notice payload)) (drop 5 notice) payload))
      (built-IsBuilt (codes "DataLength") notice payload (omega arith) (omega arith)
        (drop 1 notice_common_packet.fields_desc) (omega arith)),
)
