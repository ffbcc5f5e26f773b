-- ===== src/Frames/Stream.antt =====
-- A stream of encoded messages is taken apart into these messages.
use mathlib.Core.List.{flatten}
use mathlib.Core.Path.{ap₂}
use auto_test_poc.Base.{
  ℕ, ◌+◌, ◌≡◌, refl, sym, ap, ◌∙◌, List, [], ◌∷◌, ◌++◌, none, some, arith, length, append_assoc,
  append-nil, All, take, drop, take-length, drop-length, length-append, true, if-true,
}
use auto_test_poc.Py.Text.{Text, codes, starts_with, Lacks, find, find_from}
use auto_test_poc.Codec.{soh}
use auto_test_poc.Codec.Messages.{IsAscii}
use auto_test_poc.Frames.{next_frame, keep, decode}
use auto_test_poc.Frames.Find.{next_frame-at}
use auto_test_poc.Frames.Chunks.{extract_onto, extract_onto-found}

-- A text that one search takes off the stream: no checksum field begins before the last one.
pub record IsFrame (s : Text) : Type 0 where
  pub front : Text
  pub check : Text
  pub shape : s ≡ (front ++ soh ∷ []) ++ codes "10=" ++ check ++ soh ∷ []
  pub begins : (t : Text) → starts_with (codes "8=") (s ++ t) ≡ true
  pub once : find (codes "10=") (front ++ soh ∷ []) ≡ none
  pub closed : Lacks soh check
  pub ascii : IsAscii s

starts_with-past :
    (p s t : Text) → Lacks soh p → starts_with p (s ++ soh ∷ t) ≡ starts_with p (s ++ soh ∷ [])
starts_with-past [] s t h = refl
starts_with-past (a ∷ p) [] t h = ground arith
starts_with-past (a ∷ p) (c ∷ s) t h = rw (starts_with-past p s t h.1)

-- Where the checksum field is not in the front, it is found behind it.
find-past :
    (s t : Text)
    → find (codes "10=") (s ++ soh ∷ []) ≡ none
    → find (codes "10=") (s ++ soh ∷ (codes "10=" ++ t)) ≡ some (length s + 1)
unfolding find
find-past [] t h = refl
find-past (c ∷ s) t h =
    ground (
      arith,
      starts_with-past (codes "10=") (c ∷ s) (codes "10=" ++ t) (omega arith),
      find-past s t,
    )

pub find-soh : (s t : Text) → Lacks soh s → find (soh ∷ []) (s ++ soh ∷ t) ≡ some (length s)
unfolding find
find-soh [] t h = refl
find-soh (c ∷ s) t h = ground (arith, find-soh s t h.1)

pub find_from-at :
    (p s : Text) (start : ℕ) {i : ℕ}
    → find p (drop start s) ≡ some i
    → find_from p s start ≡ some (start + i)
unfolding find_from
find_from-at p s start h = ground (arith, h)

module _ (s t : Text) (f : IsFrame s) where
  open f use {front, check}

  abbrev tail : Text
  tail = codes "10=" ++ (check ++ soh ∷ t)

  view : s ++ t ≡ front ++ soh ∷ tail
  view = ap (λ x. x ++ t) f.shape ∙ simp append_assoc

  found : find_from (codes "10=") (s ++ t) 0 ≡ some (length front + 1)
  unfolding find_from
  found = rw view (ground (arith, find-past front (check ++ soh ∷ t) f.once))

  view_drop : drop (length front + 1) (s ++ t) ≡ tail
  view_drop =
      ap (λ n. drop n (s ++ t)) (omega (arith, length-append front (soh ∷ [])))
      ∙ ap (drop (length (front ++ soh ∷ []))) (view ∙ simp append_assoc)
      ∙ drop-length (front ++ soh ∷ []) tail

  closes :
      find_from (soh ∷ []) (s ++ t) (length front + 1)
      ≡ some (length front + 1 + (3 + length check))
  closes = find_from-at (soh ∷ []) (s ++ t) (length front + 1) (
      ap (find (soh ∷ [])) view_drop
      ∙ find-soh (codes "10=" ++ check) t (omega arith, (omega arith, (omega arith, f.closed)))
      ∙ ap some (omega arith))

  size : length s ≡ length front + 1 + (3 + length check) + 1
  size =
      ap length f.shape
      ∙ omega (
        arith,
        length-append ((front ++ soh ∷ []) ++ codes "10=" ++ check) (soh ∷ []),
        length-append ((front ++ soh ∷ []) ++ codes "10=") check,
        length-append (front ++ soh ∷ []) (codes "10="),
        length-append front (soh ∷ []),
      )

  -- The frame comes off the stream as it was sent.
  pub next_frame-frame : next_frame (s ++ t) ≡ some (s, t)
  next_frame-frame =
      next_frame-at (s ++ t) found closes
      ∙ ap some (
          ap₂ (λ (x y : Text). (x, y)) (ap (λ n. take n (s ++ t)) (sym size) ∙ take-length s t)
            (ap (λ n. drop n (s ++ t)) (sym size) ∙ drop-length s t))

decode-IsAscii : (s : Text) → IsAscii s → decode s ≡ s
decode-IsAscii [] h = refl
decode-IsAscii (c ∷ s) h = ground (arith, decode-IsAscii s h.1)

begins_self : (s : Text) → IsFrame s → starts_with (codes "8=") s ≡ true
begins_self s f = ap (starts_with (codes "8=")) (sym (append-nil s)) ∙ f.begins []

keep-frame : (s : Text) (acc : List Text) → IsFrame s → keep s acc ≡ acc ++ s ∷ []
keep-frame s acc f =
    if-true _ _ _ (begins_self s f) ∙ ap (λ x. acc ++ x ∷ []) (decode-IsAscii s f.ascii)

pub extract_onto-frames :
    (ss : List Text) (t : Text) (acc : List Text)
    → All IsFrame ss
    → extract_onto (flatten ss ++ t) acc ≡ extract_onto t (acc ++ ss)
unfolding flatten
extract_onto-frames [] t acc h = ap (extract_onto t) (sym (append-nil acc))
extract_onto-frames (s ∷ ss) t acc h =
    ap (λ b. extract_onto b acc) (append_assoc s (flatten ss) t)
    ∙ extract_onto-found (s ++ (flatten ss ++ t)) acc (next_frame-frame s (flatten ss ++ t) h.0)
    ∙ ap (extract_onto (flatten ss ++ t)) (keep-frame s acc h.0)
    ∙ extract_onto-frames ss t (acc ++ s ∷ []) h.1
    ∙ ap (extract_onto t) (append_assoc acc (s ∷ []) ss)
