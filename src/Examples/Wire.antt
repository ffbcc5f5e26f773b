-- ===== src/Examples/Wire.antt =====
-- A heartbeat on its way through the server's codec, and a stream of two of them.
use mathlib.Core.List.{flatten}
use auto_test_poc.Base.{
  ℕ, ◌≡◌, ◌≢◌, refl, List, [], ◌∷◌, ◌++◌, some, arith, length, take, drop, ◌+◌, ◌%◌,
}
use auto_test_poc.Base.Int.{pos}
use auto_test_poc.Py.Exceptions.{ok}
use auto_test_poc.Py.Text.{Text, codes, find, join}
use auto_test_poc.Py.Decimal.{print_ℕ, print_ℤ, parse_int}
use auto_test_poc.Py.Sort.{sort, place}
use auto_test_poc.Py.Dict.{Dict, lookup, remove}
use auto_test_poc.Codec.{soh, sum, pairs, dict_to_fix, fix_to_dict}
use auto_test_poc.Codec.Messages.{IsMessage}
use auto_test_poc.Codec.RoundTrip.{
  fix_to_dict-dict_to_fix, dict_to_fix-checksum, dict_to_fix-body_length,
}
use auto_test_poc.Frames.{receive}
use auto_test_poc.Frames.Sent.{Sent, texts, receive-dict_to_fix}
use auto_test_poc.Server.Values.{keyed-IsMessage}

abbrev pub heartbeat : Dict Text
heartbeat = (codes "8", codes "FIX.4.4") ∷ (codes "35", codes "0") ∷ (codes "49", codes "CL") ∷ []

abbrev pub wire : List Text → Text
wire [] = []
wire (f ∷ fs) = f ++ soh ∷ wire fs

abbrev pub heartbeat_text : Text
heartbeat_text =
    wire (codes "8=FIX.4.4" ∷ codes "9=21" ∷ codes "35=0" ∷ codes "49=CL" ∷ codes "10=011" ∷ [])

heartbeat-IsMessage : IsMessage heartbeat
unfolding print_ℕ
heartbeat-IsMessage =
    keyed-IsMessage ((8, codes "FIX.4.4") ∷ (35, codes "0") ∷ (49, codes "CL") ∷ []) refl
      ((omega arith, omega arith), ((omega arith, omega arith), ((omega arith, omega arith), tt)))

heartbeat_begin : lookup (codes "8") heartbeat ≡ some (codes "FIX.4.4")
unfolding lookup
heartbeat_begin = refl

heartbeat_encoded : dict_to_fix heartbeat ≡ ok heartbeat_text
unfolding dict_to_fix pairs lookup remove print_ℕ parse_int join sort place print_ℤ
heartbeat_encoded = refl

-- Two heartbeats.
abbrev pub two_sent : List (Dict Text × Text)
two_sent = (heartbeat, heartbeat_text) ∷ (heartbeat, heartbeat_text) ∷ []

-- Their texts, cut inside the first one's CheckSum field.
abbrev pub two_chunks : List Text
two_chunks = take 34 heartbeat_text ∷ (drop 34 heartbeat_text ++ heartbeat_text) ∷ []

heartbeat-Sent : Sent heartbeat heartbeat_text
unfolding find
heartbeat-Sent = record {
  begin = codes "FIX.4.4";
  valid = heartbeat-IsMessage;
  has_begin = heartbeat_begin;
  encoded = heartbeat_encoded;
  clean = refl;
}

fix_to_dict-dict_to_fix_example :
    (s : Text) × (dict_to_fix heartbeat ≡ ok s)
    × ((n : ℕ) → n ≢ 9 → n ≢ 10 → lookup (print_ℕ n) (fix_to_dict s) ≡ lookup (print_ℕ n) heartbeat)
fix_to_dict-dict_to_fix_example =
    fix_to_dict-dict_to_fix heartbeat heartbeat-IsMessage heartbeat_begin

dict_to_fix-checksum_example :
    (h : Text) × (check : Text) × (dict_to_fix heartbeat
      ≡ ok (h ++ (codes "10=" ++ check) ++ soh ∷ []))
    × (lookup (codes "10") (fix_to_dict (h ++ (codes "10=" ++ check) ++ soh ∷ [])) ≡ some check)
    × (length check ≡ 3)
    × (parse_int check ≡ some (pos (sum h % 256)))
dict_to_fix-checksum_example = dict_to_fix-checksum heartbeat heartbeat-IsMessage heartbeat_begin

sender_found : lookup (print_ℕ 49) heartbeat ≡ some (codes "CL")
unfolding lookup print_ℕ
sender_found = refl

dict_to_fix-body_length_example :
    (len : ℕ) × (between : Text) × (check : Text) × (dict_to_fix heartbeat
      ≡ ok (
          ((codes "8=" ++ codes "FIX.4.4") ++ soh ∷ (codes "9=" ++ print_ℕ len) ++ soh ∷ between)
          ++ (codes "10=" ++ check)
          ++ soh ∷ []))
    × (len ≡ length between + length (codes "8=" ++ codes "FIX.4.4") + 1)
dict_to_fix-body_length_example =
    dict_to_fix-body_length heartbeat 49 heartbeat-IsMessage heartbeat_begin (omega arith)
      (omega arith) (omega arith) sender_found

receive-dict_to_fix_example : receive two_chunks [] [] ≡ (texts two_sent, [])
receive-dict_to_fix_example =
    receive-dict_to_fix two_sent two_chunks (heartbeat-Sent, (heartbeat-Sent, tt)) (cc, (cc, tt))
      (unfold flatten in refl)

-- A quote with the field 110 for a minimal quantity is cut behind that field.
abbrev quote_front : Text
quote_front = wire (codes "8=FIX.4.4" ∷ codes "9=24" ∷ codes "35=S" ∷ []) ++ codes "1"

abbrev quote_rest : Text
quote_rest = wire (codes "117=Q" ∷ codes "10=123" ∷ [])
