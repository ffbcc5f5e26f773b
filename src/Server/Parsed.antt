-- ===== src/Server/Parsed.antt =====
-- What comes off the wire: the values that are parsed from ASCII text can be encoded again.
use auto_test_poc.Base.{
  ℕ, zero, suc, ◌≢◌, ◌<◌, Bool, true, false, List, [], ◌∷◌, ◌++◌, Option, none, some, All,
  All-append, arith, Option-cases, Bool-cases, inl, inr, length, ◌==◌, if◌then◌else◌, ltb,
}
use auto_test_poc.Py.Text.{
  Text, codes, Lacks, split, partition, ends_with, drop_last, text_eq, starts_with,
}
use auto_test_poc.Py.Dict.{Dict, insert}
use auto_test_poc.Codec.{soh, read_field, read_fields, chomp, fix_to_dict}
use auto_test_poc.Codec.Messages.{IsAscii}
use auto_test_poc.Frames.{next_frame, keep, decode, extract_loop, extract_messages}
use auto_test_poc.Server.Values.{IsValue, AllValues}

-- What holds of every character behind the separator that `partition` finds.
abbrev Rest : (ℕ → Type 0) → Option (Text × Text) → Type 0
Rest P none = Unit
Rest P (some (a, b)) = All P b

module _ (P : ℕ → Type 0) where
  partition-Rest : (sep : ℕ) (s : Text) → All P s → Rest P (partition sep s)
  unfolding partition
  partition-Rest sep [] h = tt
  partition-Rest sep (c ∷ s) h = elim (Bool-cases (c == sep)) [
    | inl here ↦ rw here h.1
    | inr later ↦ rw later (onto (partition sep s) (partition-Rest sep s h.1))
  ]
    where
      onto :
          (o : Option (Text × Text))
          → Rest P o
          → Rest P (elim o [ none ↦ none | some (a, b) ↦ some (c ∷ a, b) ])
      onto none r = tt
      onto (some (a, b)) r = r

  All-split : (sep : ℕ) (s : Text) → All P s → All (All P) (split sep s)
  unfolding split
  All-split sep [] h = (tt, tt)
  All-split sep (c ∷ s) h = elim (Bool-cases (c == sep)) [
    | inl here ↦ rw here (tt, All-split sep s h.1)
    | inr later ↦ rw later (onto (split sep s) (All-split sep s h.1))
  ]
    where
      onto :
          (ps : List Text)
          → All (All P) ps
          → All (All P) (elim ps [ [] ↦ (c ∷ []) ∷ [] | p ∷ qs ↦ (c ∷ p) ∷ qs ])
      onto [] r = ((h.0, tt), tt)
      onto (p ∷ qs) r = ((h.0, r.0), r.1)

  All-drop_last : (s : Text) → All P s → All P (drop_last s)
  All-drop_last [] h = tt
  All-drop_last (c ∷ []) h = tt
  All-drop_last (c ∷ d ∷ s) h = (h.0, All-drop_last (d ∷ s) h.1)

Lacks-split : (s : Text) → All (Lacks soh) (split soh s)
unfolding split
Lacks-split [] = (tt, tt)
Lacks-split (c ∷ s) = elim (Bool-cases (c == soh)) [
  | inl here ↦ rw here (tt, Lacks-split s)
  | inr later ↦ rw later (onto (split soh s) (Lacks-split s) (ground arith))
]
  where
    onto :
        (ps : List Text)
        → All (Lacks soh) ps
        → c ≢ soh
        → All (Lacks soh) (elim ps [ [] ↦ (c ∷ []) ∷ [] | p ∷ qs ↦ (c ∷ p) ∷ qs ])
    onto [] r ne = ((ne, tt), tt)
    onto (p ∷ qs) r ne = ((ne, r.0), r.1)

insert-AllValues : (k v : Text) (d : Dict Text) → IsValue v → AllValues d → AllValues (insert k v d)
unfolding insert
insert-AllValues k v [] hv hd = (hv, tt)
insert-AllValues k v ((j, w) ∷ d) hv hd = elim (Bool-cases (text_eq k j)) [
  | inl same ↦ rw same (hv, hd.1)
  | inr other ↦ rw other (hd.0, insert-AllValues k v d hv hd.1)
]

read_field-AllValues :
    (d : Dict Text) (kv : Text)
    → Lacks soh kv
    → IsAscii kv
    → AllValues d
    → AllValues (read_field d kv)
unfolding read_field
read_field-AllValues d kv hl ha hd =
    go (partition b'=' kv) (partition-Rest _ b'=' kv hl) (partition-Rest _ b'=' kv ha)
  where
    go :
        (o : Option (Text × Text))
        → Rest (λ c. c ≢ soh) o
        → Rest (λ c. c < 128) o
        → AllValues (elim o [ none ↦ d | some (k, v) ↦ insert k v d ])
    go none l a = hd
    go (some (k, v)) l a = insert-AllValues k v d (l, a) hd

read_fields-AllValues :
    (d : Dict Text) (kvs : List Text)
    → All (Lacks soh) kvs
    → All IsAscii kvs
    → AllValues d
    → AllValues (read_fields d kvs)
read_fields-AllValues d [] hl ha hd = hd
read_fields-AllValues d (kv ∷ kvs) hl ha hd =
    read_fields-AllValues (read_field d kv) kvs hl.1 ha.1 (read_field-AllValues d kv hl.0 ha.0 hd)

-- Every value that is read from an ASCII text is ASCII and does not hold the delimiter.
pub fix_to_dict-AllValues : (s : Text) → IsAscii s → AllValues (fix_to_dict s)
unfolding fix_to_dict
fix_to_dict-AllValues s h =
    read_fields-AllValues [] (split soh (chomp s)) (Lacks-split (chomp s))
      (All-split _ soh (chomp s) (chomped (ends_with soh s))) tt
  where
    chomped : (b : Bool) → IsAscii (if b then drop_last s else s)
    chomped true = All-drop_last _ s h
    chomped false = h

decode-IsAscii : (s : Text) → IsAscii (decode s)
decode-IsAscii [] = tt
decode-IsAscii (c ∷ s) = elim (Bool-cases (ltb c 128)) [
  | inl small ↦ rw small (ground arith, decode-IsAscii s)
  | inr large ↦ rw large (decode-IsAscii s)
]

keep-IsAscii : (m : Text) (acc : List Text) → All IsAscii acc → All IsAscii (keep m acc)
keep-IsAscii m acc h = go (starts_with (codes "8=") m)
  where
    go : (b : Bool) → All IsAscii (if b then acc ++ decode m ∷ [] else acc)
    go true = All-append IsAscii acc _ h (decode-IsAscii m, tt)
    go false = h

extract_loop-IsAscii :
    (f : ℕ) (b : Text) (acc : List Text) → All IsAscii acc → All IsAscii (extract_loop f b acc).0
unfolding extract_loop
extract_loop-IsAscii zero b acc h = h
extract_loop-IsAscii (suc f) b acc h = elim (Option-cases (next_frame b)) [
  | inl done ↦ rw (done, extract_loop) h
  | inr ((m, r), found) ↦
      rw (found, extract_loop) (extract_loop-IsAscii f r (keep m acc) (keep-IsAscii m acc h))
]

-- The server decodes a frame into ASCII text.
pub extract_messages-IsAscii : (b : Text) → All IsAscii (extract_messages b).0
unfolding extract_messages
extract_messages-IsAscii b = extract_loop-IsAscii (suc (length b)) b [] tt
