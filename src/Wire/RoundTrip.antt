-- ===== src/Wire/RoundTrip.antt =====
-- Both ends of the wire: a tree that was let pass, sent and received.
use agent_presentator.Base.{
  ℕ, suc, ◌+◌, ◌-◌, ◌*◌, ◌≤◌, ◌<◌, ◌≡◌, refl, ap, sym, ◌∙◌, Bool, true, Option, none, some, List,
  [], ◌∷◌, ◌++◌, length, arith, append_assoc, bytes_ltb, length-append, keep, byte_range,
  big_endian,
}
use agent_presentator.Wire.{Bytes, ok, maximum_entries, megabyte, scratch_name}
use agent_presentator.Wire.Reading.{read_exactly-append}
use agent_presentator.Wire.Trees.{Children, TreeEntry, Walk, is_other, walks, sort_names, tree}
use agent_presentator.Wire.Sending.{send_entries, send_tree}
use agent_presentator.Wire.Receiving.{
  Receiver, deck_directory, begun_receiver, receive_loop, receive_entries,
}
use agent_presentator.Wire.Survey.{Judgement, check_upload}
use agent_presentator.Wire.Sorted.{All-sort_names, sort_names-IsSorted}
use agent_presentator.Wire.Names.{Under}
use agent_presentator.Wire.Steps.{encoded}
use agent_presentator.Wire.Carrying.{
  total_size, encoded_all, HasNoScratch, AllFresh, HasTaken, Carries, Arrives, in_turn-Arrives,
}
use agent_presentator.Wire.Walks.{
  AreNamed, AreApart-walks, AreApart-keep, Above-walks, AllUnder-walks, All-keep,
}
use agent_presentator.Wire.Judged.{survey-IsWithin}
use agent_presentator.Wire.Sent.{
  end_bytes, tree-AreShort, send_entries_lem, receive_end_lem, tree-HasNoScratch,
}
use agent_presentator.Wire.Delivery.{walks-Carries}

AllFresh-nothing : (named : List (Bytes × Walk)) → AllFresh [] [] named
AllFresh-nothing [] = tt
AllFresh-nothing ((name, walk) ∷ rest) = (tt, AllFresh-nothing rest)

length-encoded_all : (entries : List TreeEntry) → length entries ≤ length (encoded_all entries)
length-encoded_all [] = omega arith
length-encoded_all (entry ∷ entries) =
    omega (arith, length-encoded_all entries, length-append (encoded entry) (encoded_all entries))

counts_taken :
    (entries : List TreeEntry) (r : Receiver)
    → r.count ≡ 0 + length entries
    → r.total ≡ 0 + total_size entries
    → end_bytes (length entries) (total_size entries) ≡ end_bytes r.count r.total
counts_taken entries r count total =
    ap (λ (c : ℕ). end_bytes c (total_size entries)) (omega (arith, count))
    ∙ ap (λ (t : ℕ). end_bytes r.count t) (omega (arith, total))

module _ (chunk : ℕ → ℕ → ℕ) (megabytes : ℕ) (bounded : megabytes * megabyte < byte_range 8) where
  -- What a tree's entries make of a receiver that has nothing yet.
  tree-Arrives :
      (omitting : Option Bytes) (root : Children)
      → AreNamed root
      → (tree omitting root).ends ≡ true
      → HasNoScratch (tree omitting root).entries
      → length (tree omitting root).entries ≤ maximum_entries
      → total_size (tree omitting root).entries ≤ megabytes * megabyte
      → Arrives chunk megabytes [] [] deck_directory begun_receiver (tree omitting root).entries
  unfolding tree
  tree-Arrives omitting root named ends scratchless few small =
      let other = λ (o : Bytes × Walk). is_other omitting o.0 in
      let left = keep other (walks [] root) in
      let rising = λ (o : Bytes × Walk). bytes_ltb [] o.0 ≡ true in
      let under = λ (o : Bytes × Walk). Under ([] ++ o.0 ∷ []) o.1.entries in
      in_turn-Arrives chunk megabytes [] (sort_names left) [] deck_directory begun_receiver
        (All-sort_names (Carries chunk megabytes []) left (
          All-keep (Carries chunk megabytes []) other (walks [] root)
            (walks-Carries chunk megabytes bounded root [] named tt)))
        (sort_names-IsSorted left
          (AreApart-keep other (walks [] root) (AreApart-walks [] root named)))
        (All-sort_names under left (All-keep under other (walks [] root) (AllUnder-walks root [])))
        ends scratchless (refl, refl, refl)
        (All-sort_names rising left
          (All-keep rising other (walks [] root) (Above-walks [] root named)))
        (AllFresh-nothing (sort_names left)) (omega (arith, few), omega (arith, small))

  receive_loop-end :
      (fuel : ℕ) (r : Receiver) (rest : Bytes)
      → r.count ≤ maximum_entries
      → r.total < byte_range 8
      → receive_loop chunk (suc fuel) megabytes r (end_bytes r.count r.total ++ rest)
        ≡ ok (r.disk, rest)
  unfolding receive_loop
  receive_loop-end fuel r rest few small =
      rw
        (
          read_exactly-append chunk 1 (3 ∷ [])
              ((big_endian 4 r.count ++ big_endian 8 r.total) ++ rest) refl,
          receive_end_lem chunk r rest few small,
        )
        refl

  -- As many rounds as there are bytes are enough for the entries and END.
  receive_entries-taken :
      (entries : List TreeEntry) (last rest : Bytes) (r : Receiver)
      → HasTaken chunk megabytes [] []
          (record deck_directory { last_name = last })
          begun_receiver
          entries
          r
      → length entries ≤ maximum_entries
      → total_size entries ≤ megabytes * megabyte
      → receive_entries chunk megabytes
          ((encoded_all entries ++ end_bytes (length entries) (total_size entries)) ++ rest)
        ≡ ok (entries, rest)
  unfolding receive_entries
  receive_entries-taken entries last rest r taken few small =
      let end : Bytes = end_bytes (length entries) (total_size entries) in
      let bytes : Bytes = (encoded_all entries ++ end) ++ rest in
      let spare = length bytes - length entries in
      ap (λ (n : ℕ). receive_loop chunk n megabytes begun_receiver bytes)
        (omega (
          arith,
          length-append (encoded_all entries ++ end) rest,
          length-append (encoded_all entries) end,
          length-encoded_all entries,
        ))
      ∙ ap (receive_loop chunk (length entries + suc spare) megabytes begun_receiver)
          (append_assoc (encoded_all entries) end rest)
      ∙ taken.0 (suc spare) (end ++ rest)
      ∙ ap (λ (e : Bytes). receive_loop chunk (suc spare) megabytes r (e ++ rest))
          (counts_taken entries r taken.2 taken.3)
      ∙ receive_loop-end spare r rest (omega (arith, taken.2)) (omega (arith, taken.3, bounded))
      ∙ ap (λ disk. ok (disk, rest)) taken.4

  pub receive_entries-tree :
      (omitting : Option Bytes) (root : Children) (rest : Bytes)
      → AreNamed root
      → (tree omitting root).ends ≡ true
      → HasNoScratch (tree omitting root).entries
      → length (tree omitting root).entries ≤ maximum_entries
      → total_size (tree omitting root).entries ≤ megabytes * megabyte
      → receive_entries chunk megabytes (
          (encoded_all (tree omitting root).entries
            ++ end_bytes
                (length (tree omitting root).entries)
                (total_size (tree omitting root).entries))
          ++ rest)
        ≡ ok ((tree omitting root).entries, rest)
  receive_entries-tree omitting root rest named ends scratchless few small =
      let (last, r, taken) = tree-Arrives omitting root named ends scratchless few small in
      receive_entries-taken (tree omitting root).entries last rest r taken few small

-- An upload on the wire.
abbrev pub sent_bytes : Children → Bytes
sent_bytes root =
    let entries = (tree (some scratch_name) root).entries in
    encoded_all entries ++ end_bytes (length entries) (total_size entries)

module _ (chunk : ℕ → ℕ → ℕ) (megabytes : ℕ) (bounded : megabytes * megabyte < byte_range 8) where
  pub send_tree_lem :
      (omitting : Option Bytes) (root : Children)
      → (tree omitting root).ends ≡ true
      → length (tree omitting root).entries ≤ maximum_entries
      → total_size (tree omitting root).entries ≤ megabytes * megabyte
      → send_tree chunk omitting root
        ≡ ok (
            encoded_all (tree omitting root).entries
            ++ end_bytes
                (length (tree omitting root).entries)
                (total_size (tree omitting root).entries))
  unfolding send_tree
  send_tree_lem omitting root ends few small =
      let entries : List TreeEntry = (tree omitting root).entries in
      ap (λ (e : Bool). send_entries chunk entries e 0 0) ends
      ∙ send_entries_lem chunk entries 0 0 (tree-AreShort omitting root) (omega (arith, few))
          (omega (arith, small, bounded))
      ∙ ap (λ (e : Bytes). ok (encoded_all entries ++ e))
          (sym (
            counts_taken entries
              (record begun_receiver { count = 0 + length entries; total = 0 + total_size entries })
              refl refl))

  pub send_tree-check_upload :
      (root : Children)
      → check_upload root megabytes ≡ Judgement.within
      → send_tree chunk (some scratch_name) root ≡ ok (sent_bytes root)
  unfolding check_upload
  send_tree-check_upload root passed =
      let h = (survey-IsWithin megabytes none (some scratch_name) root).0 passed in
      send_tree_lem (some scratch_name) root h.0 h.1 h.2

-- `theirs` is how the other end's connection and disk take bytes.
module _ (chunk theirs : ℕ → ℕ → ℕ) (megabytes : ℕ)
    (bounded : megabytes * megabyte < byte_range 8) where
  -- An upload that `check_upload` passes is sent whole, its top-level scratch directory left out, and
  -- however the two connections and the disk split the bytes, the receiver under the same budget writes
  -- exactly the entries of the walk, in its order, and leaves what follows on the connection. Names of
  -- the tree are not empty, have no slash and stand once in their directory, as a file system has them;
  -- the budget is below 2 ^ 64 bytes.
  pub receive_entries-send_tree :
      (root : Children) (rest : Bytes)
      → AreNamed root
      → check_upload root megabytes ≡ Judgement.within
      → (send_tree chunk (some scratch_name) root ≡ ok (sent_bytes root))
        × (receive_entries theirs megabytes (sent_bytes root ++ rest)
            ≡ ok ((tree (some scratch_name) root).entries, rest))
  unfolding check_upload
  receive_entries-send_tree root rest named passed =
      let omitting = some scratch_name in
      let (ends, few, small, keeps, there) =
        (survey-IsWithin megabytes none omitting root).0 passed in
      (
        send_tree-check_upload chunk megabytes bounded root passed,
        receive_entries-tree theirs megabytes bounded omitting root rest named ends
            (tree-HasNoScratch root) few small,
      )
