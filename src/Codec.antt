-- ===== src/Codec.antt =====
-- `FixCodec` of fix_poc/fix_server_asyncio.py: a message as a dict of tags, and as FIX text.
pub mod RoundTrip
pub mod Fields
pub mod Messages
pub mod Shape
use auto_test_poc.Base.{
  ℕ, ◌+◌, ◌%◌, Bool, true, ◌&&◌, ◌||◌, List, [], ◌∷◌, ◌++◌, Option, none, some, map, ltb,
  if◌then◌else◌, length,
}
use auto_test_poc.Base.Int.{ℤ}
use auto_test_poc.Py.Exceptions.{
  Result, ok, Error, value_error, key_error, unicode_error, ◌>>=◌, ◌>>◌, or_raise, guard,
}
use auto_test_poc.Py.Text.{Text, codes, text_eq, split, join, partition, ends_with, drop_last}
use auto_test_poc.Py.Decimal.{print_ℕ, print_ℤ, parse_int, rjust}
use auto_test_poc.Py.Dict.{Dict, lookup, insert, remove}
use auto_test_poc.Py.Sort.{sort}

abbrev pub soh : ℕ
soh = 1

-- `{"8", "9", "10"}`
abbrev pub is_framing : Text → Bool
is_framing k = text_eq k (codes "8") || text_eq k (codes "9") || text_eq k (codes "10")

-- `[(int(k), v) for k, v in message.items() if k not in {"8", "9", "10"}]`
unfoldable pub pairs : Dict Text → Result (List (ℤ × Text))
pairs [] = ok []
pairs ((k, v) ∷ m) =
    let rest = pairs m in
    if is_framing k
    then rest
    else (or_raise (parse_int k) value_error >>= λ n. rest >>= λ ps. ok ((n, v) ∷ ps))

-- `f"{k}={v}"`
abbrev pub field : ℤ × Text → Text
field (k, v) = print_ℤ k ++ b'=' ∷ v

-- `sum(s.encode("ascii"))`
abbrev pub sum : Text → ℕ
sum [] = 0
sum (c ∷ s) = c + sum s

abbrev pub is_ascii : Text → Bool
is_ascii [] = true
is_ascii (c ∷ s) = ltb c 128 && is_ascii s

-- `f"{checksum:03d}"`
abbrev pub checksum : Text → Text
checksum s = rjust 3 b'0' (print_ℕ (sum s % 256))

-- What `pop` leaves of the caller's dict.
abbrev pub popped : Dict Text → Dict Text
popped m = remove (codes "10") (remove (codes "9") m)

-- The text up to the checksum field, from BeginString and the other fields in order.
abbrev pub header : Text → List Text → Text
header begin parts =
    let head = codes "8=" ++ begin in
    let body = join soh (head ∷ parts) ++ soh ∷ [] in
    head ++ soh ∷ (codes "9=" ++ print_ℕ (length body)) ++ soh ∷ join soh parts ++ soh ∷ []

abbrev pub sealed : Text → Text
sealed fix_msg = fix_msg ++ (codes "10=" ++ checksum fix_msg) ++ soh ∷ []

unfoldable pub dict_to_fix : Dict Text → Result Text
unfolding pairs
dict_to_fix message = pairs (popped message) >>= λ ps.
    or_raise (lookup (codes "8") (popped message)) key_error >>= λ begin.
    let fix_msg = header begin (map field (sort ps)) in
    guard (is_ascii fix_msg) unicode_error >> ok (sealed fix_msg)

-- One round of the loop: a part with no `=` is skipped.
unfoldable pub read_field : Dict Text → Text → Dict Text
read_field d kv = elim (partition b'=' kv) [ none ↦ d | some (k, v) ↦ insert k v d ]

abbrev pub read_fields : Dict Text → List Text → Dict Text
read_fields d [] = d
read_fields d (kv ∷ kvs) = read_fields (read_field d kv) kvs

abbrev pub chomp : Text → Text
chomp s = if ends_with soh s then drop_last s else s

unfoldable pub fix_to_dict : Text → Dict Text
unfolding read_field
fix_to_dict fix_str = read_fields [] (split soh (chomp fix_str))
