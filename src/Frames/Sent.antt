-- ===== src/Frames/Sent.antt =====
-- The messages that the server's codec encodes, on their way through a stream that is cut anywhere.
use mathlib.Core.List.{flatten}
use mathlib.Core.Path.{subst}
use auto_test_poc.Base.{
  ◌-◌, ◌≡◌, ◌≢◌, refl, sym, ap, ◌∙◌, List, [], ◌∷◌, ◌++◌, none, some, arith, length, append_assoc,
  append-nil, All, map, take, take-length, length-append,
}
use auto_test_poc.Py.Exceptions.{ok}
use auto_test_poc.Py.Text.{Text, codes, find, join}
use auto_test_poc.Py.Dict.{Dict, lookup}
use auto_test_poc.Py.Decimal.{print_ℕ}
use auto_test_poc.Py.Sort.{sort}
use auto_test_poc.Codec.{soh, field, header, sealed, checksum, dict_to_fix}
use auto_test_poc.Codec.Messages.{IsMessage, IsAscii}
use auto_test_poc.Codec.Shape.{dict_to_fix-sealed, checksum-Lacks, length-checksum, message-IsAscii}
use auto_test_poc.Frames.{next_frame, extract_messages, receive}
use auto_test_poc.Frames.Stream.{IsFrame, extract_onto-frames}
use auto_test_poc.Frames.Chunks.{extract_onto-done, receive-chunks}

-- `s` is the text of the message `d`, and `10=` does not occur before the CheckSum field, which is
-- the last seven bytes.
pub record Sent (d : Dict Text) (s : Text) : Type 0 where
  pub begin : Text
  pub valid : IsMessage d
  pub has_begin : lookup (codes "8") d ≡ some begin
  pub encoded : dict_to_fix d ≡ ok s
  pub clean : find (codes "10=") (take (length s - 7) s) ≡ none

take-sealed :
    (h c : Text)
    → length c ≡ 3
    → take (length (h ++ (codes "10=" ++ c) ++ soh ∷ []) - 7) (h ++ (codes "10=" ++ c) ++ soh ∷ [])
      ≡ h
take-sealed h c three =
    ap (λ s. take (length (h ++ (codes "10=" ++ c) ++ soh ∷ []) - 7) s)
      (append_assoc h (codes "10=" ++ c) (soh ∷ []))
    ∙ ap (λ n. take n (h ++ ((codes "10=" ++ c) ++ soh ∷ [])))
        (omega (
          arith,
          three,
          length-append (h ++ (codes "10=" ++ c)) (soh ∷ []),
          length-append h (codes "10=" ++ c),
        ))
    ∙ take-length h ((codes "10=" ++ c) ++ soh ∷ [])

sealed-IsFrame :
    (begin : Text) (parts : List Text)
    → let s = sealed (header begin parts) in
      IsAscii s → find (codes "10=") (take (length s - 7) s) ≡ none → IsFrame s
sealed-IsFrame begin parts plain clean = record {
  front =
      (codes "8=" ++ begin)
      ++ soh
        ∷ (codes "9=" ++ print_ℕ (length (join soh ((codes "8=" ++ begin) ∷ parts) ++ soh ∷ [])))
      ++ soh ∷ join soh parts;
  check = checksum (header begin parts);
  shape = simp append_assoc;
  begins = λ t. refl;
  once = ap (find (codes "10=")) (sym whole) ∙ clean;
  closed = checksum-Lacks (header begin parts);
  ascii = plain;
}
  where
    h : Text
    h = header begin parts

    whole : take (length (sealed h) - 7) (sealed h) ≡ h
    whole = take-sealed h (checksum h) (length-checksum h)

ok_same : (s t : Text) → ok s ≡ ok t → s ≡ t
ok_same s t h = ground arith

pub Sent-IsFrame : (d : Dict Text) (s : Text) → Sent d s → IsFrame s
Sent-IsFrame d s sent =
    let (ps, t, made) = dict_to_fix-sealed d sent.valid sent.has_begin in
    let same =
      ok_same s (sealed (header sent.begin (map field (sort ps)))) (sym sent.encoded ∙ made) in
    subst IsFrame (sym same) (
      sealed-IsFrame sent.begin (map field (sort ps))
        (message-IsAscii d ps sent.valid sent.has_begin t)
        (subst (λ x. find (codes "10=") (take (length x - 7) x) ≡ none) same sent.clean))

-- The texts of messages, in the order in which they were sent.
abbrev pub texts : List (Dict Text × Text) → List Text
texts [] = []
texts ((d, s) ∷ sent) = s ∷ texts sent

abbrev pub AllSent : List (Dict Text × Text) → Type 0
AllSent [] = Unit
AllSent ((d, s) ∷ sent) = Sent d s × AllSent sent

AllSent-IsFrame : (sent : List (Dict Text × Text)) → AllSent sent → All IsFrame (texts sent)
AllSent-IsFrame [] h = tt
AllSent-IsFrame ((d, s) ∷ sent) h = (Sent-IsFrame d s h.0, AllSent-IsFrame sent h.1)

-- A sequence of encoded messages, cut into chunks in any way, is handled message by message: each
-- text exactly as it was sent, in order, and no byte is left over. The keys of a message are tag numbers
-- that do not come twice, its values are ASCII without the delimiter, it has a BeginString, no chunk is empty, and the characters `10=` do not occur in
-- the text of a message before its CheckSum field, as they would with a tag 110 or in a value.
pub receive-dict_to_fix :
    (sent : List (Dict Text × Text)) (chunks : List Text)
    → AllSent sent
    → All (λ c. c ≢ []) chunks
    → flatten chunks ≡ flatten (texts sent)
    → receive chunks [] [] ≡ (texts sent, [])
receive-dict_to_fix sent chunks h full same =
    receive-chunks chunks full
    ∙ ap extract_messages (same ∙ sym (append-nil (flatten (texts sent))))
    ∙ unfold extract_messages in
      extract_onto-frames (texts sent) [] [] (AllSent-IsFrame sent h)
      ∙ extract_onto-done [] (texts sent) (unfold next_frame in refl)
