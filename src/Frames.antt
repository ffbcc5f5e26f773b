-- ===== src/Frames.antt =====
-- `FixCodec.extract_messages` of fix_poc/fix_server_asyncio.py, and the loop of `_handle_client` over
-- the chunks that the socket delivers.
pub mod Find
pub mod Chunks
pub mod Stream
pub mod Sent
pub mod Early
use auto_test_poc.Base.{
  ℕ, zero, suc, ◌+◌, List, [], ◌∷◌, ◌++◌, Option, none, some, if◌then◌else◌, ltb, take, drop,
  length,
}
use auto_test_poc.Py.Text.{Text, codes, starts_with, find_from}
use auto_test_poc.Codec.{soh}

-- One search: the bytes up to the end of the first checksum field, and the rest.
unfoldable pub next_frame : Text → Option (Text × Text)
unfolding find_from
next_frame buffer = elim (find_from (codes "10=") buffer 0) [
  | none ↦ none
  | some idx ↦ elim (find_from (soh ∷ []) buffer idx) [
    | none ↦ none
    | some end ↦ some (take (end + 1) buffer, drop (end + 1) buffer)
  ]
]

-- `b.decode("ascii", errors="ignore")`
abbrev pub decode : Text → Text
decode [] = []
decode (c ∷ s) = let rest = decode s in if ltb c 128 then c ∷ rest else rest

-- What a round appends: nothing, unless the bytes begin with a BeginString field.
abbrev pub keep : Text → List Text → List Text
keep msg_bytes messages =
    if starts_with (codes "8=") msg_bytes then messages ++ decode msg_bytes ∷ [] else messages

-- Each round takes a byte at least from the buffer, so a fuel above its length is enough.
unfoldable pub extract_loop : ℕ → Text → List Text → List Text × Text
extract_loop zero buffer messages = (messages, buffer)
extract_loop (suc fuel) buffer messages = elim (next_frame buffer) [
  | none ↦ (messages, buffer)
  | some (msg_bytes, rest) ↦ extract_loop fuel rest (keep msg_bytes messages)
]

unfoldable pub extract_messages : Text → List Text × Text
unfolding extract_loop next_frame
extract_messages buffer = extract_loop (suc (length buffer)) buffer []

-- The messages that `_handle_client` hands on, and the buffer that it is left with. A read that gives
-- nothing ends the loop.
unfoldable pub receive : List Text → Text → List Text → List Text × Text
receive [] buffer handled = (handled, buffer)
receive ([] ∷ chunks) buffer handled = (handled, buffer)
receive ((c ∷ s) ∷ chunks) buffer handled =
    let (msgs, rest) = extract_messages (buffer ++ c ∷ s) in receive chunks rest (handled ++ msgs)
