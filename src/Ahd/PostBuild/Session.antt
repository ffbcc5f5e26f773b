-- ===== src/Ahd/PostBuild/Session.antt =====
-- `ESPCommon.post_build`: both lengths are written into their fields, and the rest is left.
use auto_test_poc.Base.{
  ℕ, ◌+◌, ◌-◌, ◌≤◌, ◌<◌, ◌≡◌, inl, inr, refl, sym, ap, ◌∙◌, false, List, [], ◌∷◌, ◌++◌, some, arith,
  length, take, drop, length-append, length-take, length-drop, take-append-drop, take-length,
  drop-length,
}
use auto_test_poc.Base.Int.{pos}
use auto_test_poc.Py.Exceptions.{ok}
use auto_test_poc.Py.Text.{Text, codes}
use auto_test_poc.Padded.{int_m2i}
use auto_test_poc.Ahd.Enums.{is_seen}
use auto_test_poc.Ahd.Fields.{Field, total_width, slice, field_bytes}
use auto_test_poc.Ahd.Packets.Esp.{esp_common_packet}
use auto_test_poc.Ahd.PostBuild.{five_wide, length_behind, esp_post_build}
use auto_test_poc.Ahd.PostBuild.Slices.{slice-append_left, slice-append_right, drop-append_right}
use auto_test_poc.Ahd.PostBuild.Lengths.{
  five_field, Agree, field_bytes-Agree, front-length, front-read, five_wide-length, five_wide-read,
  drop-drop,
}

abbrev esp_fields : List Field
esp_fields = esp_common_packet.fields_desc

slice-take :
    (start width n : ℕ) (s : Text)
    → start + width ≤ n
    → n ≤ length s
    → slice start width (take n s) ≡ slice start width s
slice-take start width n s h k =
    sym (slice-append_left start width (take n s) (drop n s) (omega (arith, length-take n s)))
    ∙ ap (slice start width) (take-append-drop n s)

module _ (p payload : Text) (whole : length p ≡ 72) (small : length payload < 99933) where
  abbrev head : Text
  head = five_wide (length_behind p payload)

  abbrev inner : Text
  inner = slice 5 38 p

  abbrev counted : Text
  counted = five_wide (pos (length payload))

  head-length : length head ≡ 5
  head-length = front-length p payload (omega arith) (omega arith)

  inner-length : length inner ≡ 38
  inner-length = omega (arith, length-take 38 (drop 5 p), length-drop 5 p)

  counted-length : length counted ≡ 5
  counted-length = five_wide-length (length payload) (omega arith)

  -- The parts behind the first length, and behind the second.
  after_head :
      (start width : ℕ)
      → 5 ≤ start
      → slice start width (esp_post_build p payload)
        ≡ slice (start - 5) width (inner ++ (counted ++ (drop 48 p ++ payload)))
  unfolding esp_post_build
  after_head start width h =
      slice-append_right start width head _ (omega (arith, head-length))
      ∙ ap (λ n. slice (start - n) width (inner ++ (counted ++ (drop 48 p ++ payload)))) head-length

  after_inner :
      (start width : ℕ)
      → 43 ≤ start
      → slice start width (esp_post_build p payload)
        ≡ slice (start - 43) width (counted ++ (drop 48 p ++ payload))
  after_inner start width h =
      after_head start width (omega arith)
      ∙ slice-append_right (start - 5) width inner _ (omega (arith, inner-length))
      ∙ ap (λ n. slice n width (counted ++ (drop 48 p ++ payload))) (omega (arith, inner-length))

  early :
      (start width : ℕ)
      → 5 ≤ start
      → start + width ≤ 43
      → slice start width (esp_post_build p payload) ≡ slice start width p
  early start width h k =
      after_head start width h
      ∙ slice-append_left (start - 5) width inner _ (omega (arith, inner-length))
      ∙ slice-take (start - 5) width 38 (drop 5 p) (omega arith) (omega (arith, length-drop 5 p))
      ∙ ap (take width) (drop-drop 5 (start - 5) p ∙ ap (λ n. drop n p) (omega arith))

  late :
      (start width : ℕ)
      → 48 ≤ start
      → start + width ≤ 72
      → slice start width (esp_post_build p payload) ≡ slice start width p
  late start width h k =
      after_inner start width (omega arith)
      ∙ slice-append_right (start - 43) width counted _ (omega (arith, counted-length))
      ∙ ap (λ n. slice n width (drop 48 p ++ payload)) (omega (arith, counted-length))
      ∙ slice-append_left (start - 48) width (drop 48 p) payload (omega (arith, length-drop 48 p))
      ∙ ap (take width) (drop-drop 48 (start - 48) p ∙ ap (λ n. drop n p) (omega arith))

  kept :
      Agree
        (codes "MessageLength" ∷ codes "DataAreaLength" ∷ [])
        0
        esp_fields
        p
        (esp_post_build p payload)
  kept = (
    inr refl,
    (
      inl (early 5 2 (omega arith) (omega arith)),
      (
        inl (early 7 8 (omega arith) (omega arith)),
        (
          inl (early 15 1 (omega arith) (omega arith)),
          (
            inl (early 16 5 (omega arith) (omega arith)),
            (
              inl (early 21 6 (omega arith) (omega arith)),
              (
                inl (early 27 8 (omega arith) (omega arith)),
                (
                  inl (early 35 8 (omega arith) (omega arith)),
                  (
                    inr refl,
                    (
                      inl (late 48 3 (omega arith) (omega arith)),
                      (
                        inl (late 51 8 (omega arith) (omega arith)),
                        (
                          inl (late 59 12 (omega arith) (omega arith)),
                          (inl (late 71 1 (omega arith) (omega arith)), tt),
                        ),
                      ),
                    ),
                  ),
                ),
              ),
            ),
          ),
        ),
      ),
    ),
  )

  length-built : length (esp_post_build p payload) ≡ length p + length payload
  unfolding esp_post_build
  length-built = omega (
    arith,
    length-append head (inner ++ (counted ++ (drop 48 p ++ payload))),
    length-append inner (counted ++ (drop 48 p ++ payload)),
    length-append counted (drop 48 p ++ payload),
    length-append (drop 48 p) payload,
    length-drop 48 p,
    head-length,
    inner-length,
    counted-length,
  )

  counted-read :
      int_m2i five_field (slice 43 5 (esp_post_build p payload)) ≡ ok (some (pos (length payload)))
  counted-read =
      ap (int_m2i five_field) (
        after_inner 43 5 (omega arith)
        ∙ ap (λ n. take n (counted ++ (drop 48 p ++ payload))) (sym counted-length)
        ∙ take-length counted _)
      ∙ five_wide-read (length payload) (omega arith)

  payload-left : drop 72 (esp_post_build p payload) ≡ payload
  unfolding esp_post_build
  payload-left =
      let fits : 29 - length counted ≡ length (drop 48 p) =
        omega (arith, length-drop 48 p, counted-length) in
      drop-append_right 72 head _ (omega (arith, head-length))
      ∙ ap (λ n. drop (72 - n) (inner ++ (counted ++ (drop 48 p ++ payload)))) head-length
      ∙ drop-append_right 67 inner _ (omega (arith, inner-length))
      ∙ ap (λ n. drop (67 - n) (counted ++ (drop 48 p ++ payload))) inner-length
      ∙ drop-append_right 29 counted _ (omega (arith, counted-length))
      ∙ ap (λ n. drop n (drop 48 p ++ payload)) fits
      ∙ drop-length (drop 48 p) payload

to_forty_three :
    (s : Text) → drop 8 (drop 8 (drop 6 (drop 5 (drop 1 (drop 8 (drop 2 (drop 5 s))))))) ≡ drop 43 s
to_forty_three s =
    ap (λ t. drop 8 (drop 8 (drop 6 (drop 5 (drop 1 (drop 8 t)))))) (drop-drop 5 2 s)
    ∙ ap (λ t. drop 8 (drop 8 (drop 6 (drop 5 (drop 1 t))))) (drop-drop 7 8 s)
    ∙ ap (λ t. drop 8 (drop 8 (drop 6 (drop 5 t)))) (drop-drop 15 1 s)
    ∙ ap (λ t. drop 8 (drop 8 (drop 6 t))) (drop-drop 16 5 s)
    ∙ ap (λ t. drop 8 (drop 8 t)) (drop-drop 21 6 s)
    ∙ ap (drop 8) (drop-drop 27 8 s)
    ∙ drop-drop 35 8 s

-- A packet of the session layer that is built, with the width of its header and a payload that the five
-- digits can count: it is as long as header and payload together; its field MessageLength is read back
-- as the bytes behind the fifth, and DataAreaLength as those of the payload; the payload stands behind
-- the header as it was, and every other field of the header too.
pub esp_post_build_lem :
    (p payload name : Text)
    → length p ≡ total_width esp_common_packet.fields_desc
    → length payload < 99933
    → is_seen name (codes "MessageLength" ∷ codes "DataAreaLength" ∷ []) ≡ false
    → (length (esp_post_build p payload) ≡ length p + length payload)
      × (int_m2i five_field (
            field_bytes
              (codes "MessageLength")
              esp_common_packet.fields_desc
              (esp_post_build p payload))
          ≡ ok (some (pos (length (esp_post_build p payload) - 5))))
      × (int_m2i five_field (
            field_bytes
              (codes "DataAreaLength")
              esp_common_packet.fields_desc
              (esp_post_build p payload))
          ≡ ok (some (pos (length payload))))
      × (drop (length p) (esp_post_build p payload) ≡ payload)
      × (field_bytes name esp_common_packet.fields_desc (esp_post_build p payload)
          ≡ field_bytes name esp_common_packet.fields_desc p)
unfolding esp_post_build
esp_post_build_lem p payload name whole small other = (
  length-built p payload whole small,
  front-read p payload (omega arith) (omega arith) _
      ∙ ap (λ n. ok (some (pos (n - 5)))) (sym (length-built p payload whole small)),
  ap (int_m2i five_field) (ap (take 5) (to_forty_three (esp_post_build p payload)))
      ∙ counted-read p payload whole small,
  ap (λ n. drop n (esp_post_build p payload)) whole ∙ payload-left p payload whole small,
  field_bytes-Agree (codes "MessageLength" ∷ codes "DataAreaLength" ∷ []) name esp_fields 0 p
      (esp_post_build p payload) other (kept p payload whole small),
)
