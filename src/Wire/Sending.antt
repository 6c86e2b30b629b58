-- ===== src/Wire/Sending.antt =====
-- `_send_entry`, `send_end` and `send_tree`: a tree as bytes on the wire.
use agent_presentator.Base.{
  ℕ, zero, suc, ◌+◌, ◌-◌, min, Bool, Option, none, some, List, [], ◌∷◌, ◌++◌, ltb, if◌then◌else◌,
  is_empty, length, big_endian, byte_range,
}
use agent_presentator.Wire.{
  Result, ok, refused, tree_refused, raised, stuck, ◌>>=◌, Bytes, chunk_bytes,
}
use agent_presentator.Wire.Reading.{recv}
use agent_presentator.Wire.Paths.{join}
use agent_presentator.Wire.Trees.{TreeEntry, Children, tree, size_of}

-- `struct.pack` of one number, which raises struct.error out of range
unfoldable pub pack : ℕ → ℕ → Result Bytes
pack k n = if ltb n (byte_range k) then ok (big_endian k n) else raised

-- `send_end`
unfoldable pub send_end : ℕ → ℕ → Result Bytes
unfolding pack
send_end count total = do
  count_bytes ← pack 4 count
  total_bytes ← pack 8 total
  ok (3 ∷ (count_bytes ++ total_bytes))

-- DIRECTORY or FILE
abbrev pub tag_of : Option Bytes → ℕ
tag_of none = 1
tag_of (some payload) = 2

-- `chunk left asked` bounds what `os.read` returns at a time.
module _ (chunk : ℕ → ℕ → ℕ) where
  -- The loop of `_send_entry` over the file's bytes that are not read yet.
  unfoldable pub payload_loop : ℕ → ℕ → Bytes → Result Bytes
  unfolding recv
  payload_loop fuel zero content = ok []
  payload_loop zero (suc remaining) content = stuck
  payload_loop (suc fuel) (suc remaining) content =
      let (piece, left) = recv chunk (min (suc remaining) chunk_bytes) content in
      let more = payload_loop fuel (suc remaining - length piece) left in
      if is_empty piece then refused else (do rest ← more; ok (piece ++ rest))

  -- What `_send_entry` sends after the path: nothing for a directory.
  unfoldable pub send_payload : Option Bytes → Result Bytes
  unfolding pack payload_loop
  send_payload none = ok []
  send_payload (some payload) = do
    size ← pack 8 (length payload)
    sent ← payload_loop (length payload) (length payload) payload
    ok (size ++ sent)

  -- `_send_entry`
  unfoldable pub send_entry : TreeEntry → Result Bytes
  unfolding pack send_payload
  send_entry entry = do
    length_bytes ← pack 2 (length (join entry.components))
    payload ← send_payload entry.payload
    ok (tag_of entry.payload ∷ (length_bytes ++ (join entry.components ++ payload)))

  -- The loop of `send_tree`, then END; a walk that raises ends it.
  unfoldable pub send_entries : List TreeEntry → Bool → ℕ → ℕ → Result Bytes
  unfolding send_entry send_end
  send_entries [] Bool.true count total = send_end count total
  send_entries [] Bool.false count total = tree_refused
  send_entries (entry ∷ entries) ends count total = do
    sent ← send_entry entry
    rest ← send_entries entries ends (count + 1) (total + size_of entry)
    ok (sent ++ rest)

  -- `send_tree`
  unfoldable pub send_tree : Option Bytes → Children → Result Bytes
  unfolding send_entries tree
  send_tree omitting root = let walk = tree omitting root in send_entries walk.entries walk.ends 0 0
