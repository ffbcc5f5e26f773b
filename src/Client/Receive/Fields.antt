-- ===== src/Client/Receive/Fields.antt =====
-- The receiving thread takes every field for a message, so it answers nothing.
use auto_test_poc.Base.{
  ℕ, zero, suc, ◌<◌, ◌≡◌, ◌⊎◌, inl, inr, refl, sym, ap, ◌∙◌, List, [], ◌∷◌, ◌++◌, Option, none,
  some, arith, length, Bool-cases, Option-cases, if◌then◌else◌, get_or, ◌==◌,
}
use mathlib.Core.Path.{subst}
use auto_test_poc.Py.Text.{
  Text, codes, text_eq, text_eq_iff, partition, Lacks, split, split-Lacks, drop_last,
  ends_with-snoc, drop_last-snoc,
}
use auto_test_poc.Base.Int.{pos, ◌+ℤ◌}
use auto_test_poc.Py.Decimal.{parse_int}
use auto_test_poc.Py.Dict.{Dict, lookup, insert}
use auto_test_poc.Codec.{soh, fix_to_dict, read_fields, read_field}
use auto_test_poc.Client.{handle_test_request}
use auto_test_poc.Client.Receive.{
  Receiver, disconnect, run_handlers, counted_in, handle_received, take_text, take_texts,
  receive_texts,
}

-- A dict of one field at most.
abbrev IsField : Dict Text → Type 0
IsField d = (d ≡ []) ⊎ ((k : Text) × (v : Text) × (d ≡ (k, v) ∷ []))

read_field-IsField : (p : Text) → IsField (read_field [] p)
unfolding read_field insert
read_field-IsField p = cases (partition b'=' p)
  where
    cases :
        (o : Option (Text × Text)) → IsField (elim o [ none ↦ [] | some (k, v) ↦ insert k v [] ])
    cases none = inl refl
    cases (some (k, v)) = inr (k, v, refl)

fix_to_dict-field : (p : Text) → Lacks soh p → fix_to_dict (p ++ soh ∷ []) ≡ read_field [] p
unfolding fix_to_dict
fix_to_dict-field p h =
    ap (λ b. read_fields [] (split soh (if b then drop_last (p ++ soh ∷ []) else p ++ soh ∷ [])))
      (ends_with-snoc p soh)
    ∙ ap (λ s. read_fields [] (split soh s)) (drop_last-snoc p soh)
    ∙ ap (read_fields []) (split-Lacks soh p h)

-- A text is found up to the first delimiter, and less is left of the buffer.
Parts : Text → Type 0
Parts s =
    (partition soh s ≡ none)
    ⊎ ((a : Text) × (b : Text) × (partition soh s ≡ some (a, b))
        × Lacks soh a
        × (length b < length s))

partition-Parts : (s : Text) → Parts s
unfolding Parts partition
partition-Parts [] = inl refl
partition-Parts (c ∷ s) = elim (Bool-cases (c == soh)) [
  | inl found ↦ inr ([], s, rw found refl, tt, omega arith)
  | inr other ↦ elim (partition-Parts s) [
    | inl e ↦ inl (rw (other, e) refl)
    | inr (a, b, e, lacks, less) ↦
        inr (c ∷ a, b, rw (other, e) refl, (ground arith, lacks), omega arith)
  ]
]

-- The texts that wait to be sent are those that waited before, or none.
abbrev pub IsSilent : Receiver → Receiver → Type 0
IsSilent r r' = (r'.client.send_queue ≡ r.client.send_queue) ⊎ (r'.client.send_queue ≡ [])

run_handlers-IsSilent :
    (now : Text) (d : Dict Text) (r : Receiver)
    → IsField d
    → IsSilent r (run_handlers now (get_or (lookup (codes "35") d) []) d r)
unfolding run_handlers disconnect handle_test_request lookup
run_handlers-IsSilent now d r (inl e) =
    subst (λ x. IsSilent r (run_handlers now (get_or (lookup (codes "35") x) []) x r)) (sym e)
      (inl refl)
run_handlers-IsSilent now d r (inr (k, v, e)) =
    subst (λ x. IsSilent r (run_handlers now (get_or (lookup (codes "35") x) []) x r)) (sym e)
      (elim (Bool-cases (text_eq (codes "35") k)) [
        | inl is_type ↦
            subst
              (λ j.
                IsSilent r (
                  run_handlers now (get_or (lookup (codes "35") ((j, v) ∷ [])) []) ((j, v) ∷ []) r))
              ((text_eq_iff (codes "35") k).0 is_type) by_type
        | inr is_other ↦ rw is_other (inl refl)
      ])
  where
    by_type : IsSilent r (run_handlers now v ((codes "35", v) ∷ []) r)
    by_type = elim (Bool-cases (text_eq v (codes "1"))) [
      | inl test ↦ rw test (inl refl)
      | inr other ↦ elim (Bool-cases (text_eq v (codes "5"))) [
        | inl quit ↦ rw (other, quit) (inr refl)
        | inr neither ↦ rw (other, neither) (inl refl)
      ]
    ]

IsSilent-trans : (r s t : Receiver) → IsSilent r s → IsSilent s t → IsSilent r t
IsSilent-trans r s t p (inr e) = inr e
IsSilent-trans r s t (inl e) (inl f) = inl (f ∙ e)
IsSilent-trans r s t (inr e) (inl f) = inr (f ∙ e)

counted_in-queue :
    (o : Option Text) (r : Receiver)
    → (counted_in o r ≡ none)
      ⊎ ((counted : Receiver) × (counted_in o r ≡ some counted)
          × (counted.client.send_queue ≡ r.client.send_queue))
counted_in-queue none r = inr (r, refl, refl)
counted_in-queue (some s) r = elim (Option-cases (parse_int s)) [
  | inl e ↦ inl (rw (e, counted_in) refl)
  | inr (n, e) ↦ inr (
    record r { client = record r.client { in_seq_num = n +ℤ pos 1 } },
    rw (e, counted_in) refl,
    refl,
  )
]

take_text-IsSilent :
    (now p : Text) (r : Receiver) → Lacks soh p → IsSilent r (take_text now (p ++ soh ∷ []) r)
unfolding take_text handle_received
take_text-IsSilent now p r h =
    elim (counted_in-queue (lookup (codes "34") (fix_to_dict (p ++ soh ∷ []))) r) [
      | inl e ↦ rw (e, take_text, handle_received) (inl refl)
      | inr (counted, e, same) ↦
          rw (e, take_text, handle_received)
            (IsSilent-trans r counted
              (run_handlers now (get_or (lookup (codes "35") (fix_to_dict (p ++ soh ∷ []))) [])
                (fix_to_dict (p ++ soh ∷ [])) counted)
              (inl same)
              (run_handlers-IsSilent now (fix_to_dict (p ++ soh ∷ [])) counted
                (subst IsField (sym (fix_to_dict-field p h)) (read_field-IsField p))))
    ]

-- With more fuel than the buffer is long the texts are taken to the last delimiter.
take_texts-IsSilent :
    (fuel : ℕ) (now buffer : Text) (r : Receiver)
    → length buffer < fuel
    → (r' : Receiver) × (rest : Text) × (take_texts fuel now buffer r ≡ some (r', rest))
      × IsSilent r r'
unfolding take_texts Parts
take_texts-IsSilent zero now buffer r h = absurd (omega arith)
take_texts-IsSilent (suc fuel) now buffer r h = elim (partition-Parts buffer) [
  | inl e ↦ (r, buffer, rw (e, take_texts) refl, inl refl)
  | inr (a, b, e, lacks, less) ↦
      let taken = take_text now (a ++ soh ∷ []) r in
      let (r', rest, all, silent) = take_texts-IsSilent fuel now b taken (omega arith) in
      (
        r',
        rest,
        rw (e, take_texts) all,
        IsSilent-trans r taken r' (take_text-IsSilent now a r lacks) silent,
      )
]

round :
    (now : Text) (x : ℕ) (received : Text) (chunks : List Text) (buffer : Text) (r r1 : Receiver)
    (rest1 : Text)
    → take_texts (suc (length (buffer ++ x ∷ received))) now (buffer ++ x ∷ received) r
      ≡ some (r1, rest1)
    → receive_texts now ((x ∷ received) ∷ chunks) buffer r
      ≡ (if r1.connected then receive_texts now chunks rest1 r1 else some (r1, rest1))
unfolding receive_texts
round now x received chunks buffer r r1 rest1 e = rw (e, receive_texts) refl

-- Whatever texts the socket gives, the receiving thread ends with them, with an empty one or with its
-- socket; and the texts that wait to be sent then are those that waited before, or none, since a
-- disconnection drops them all, with the logout that it queues itself. So no text that answers a message,
-- a test request among them, is left to be sent.
pub receive_texts-IsSilent :
    (now : Text) (chunks : List Text) (buffer : Text) (r : Receiver)
    → (r' : Receiver) × (rest : Text) × (receive_texts now chunks buffer r ≡ some (r', rest))
      × IsSilent r r'
unfolding receive_texts
receive_texts-IsSilent now [] buffer r = (r, buffer, refl, inl refl)
receive_texts-IsSilent now ([] ∷ chunks) buffer r = (r, buffer, refl, inl refl)
receive_texts-IsSilent now ((x ∷ received) ∷ chunks) buffer r =
    let (r1, rest1, taken, silent1) =
      take_texts-IsSilent (suc (length (buffer ++ x ∷ received))) now (buffer ++ x ∷ received) r
        (omega arith) in
    let (r2, rest2, all, silent2) = receive_texts-IsSilent now chunks rest1 r1 in
    elim (Bool-cases r1.connected) [
      | inl open_ ↦ (
        r2,
        rest2,
        round now x received chunks buffer r r1 rest1 taken
            ∙ ap (λ b. if b then receive_texts now chunks rest1 r1 else some (r1, rest1)) open_
            ∙ all,
        IsSilent-trans r r1 r2 silent1 silent2,
      )
      | inr closed ↦ (
        r1,
        rest1,
        round now x received chunks buffer r r1 rest1 taken
            ∙ ap (λ b. if b then receive_texts now chunks rest1 r1 else some (r1, rest1)) closed,
        silent1,
      )
    ]
