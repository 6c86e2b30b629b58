-- ===== src/Wire/Sent.antt =====
-- What `send_tree` sends of a tree that was let pass: its entries one after the other, and END.
use agent_presentator.Base.{
  ℕ, suc, ◌+◌, ◌≤◌, ◌<◌, ◌≡◌, refl, ap, sym, ◌∙◌, true, false, Option, some, List, [], ◌∷◌, ◌++◌,
  All, length, arith, append_assoc, bytes_eq, bytes_eq→eq, Bool-cases, inl, inr, keep, byte_range,
  big_endian, take, drop, of_big_endian, of_big_endian-big_endian, length-big_endian, length-append,
  take-append, drop-append,
}
use agent_presentator.Wire.{Bytes, ok, maximum_entries, scratch_name}
use agent_presentator.Wire.Reading.{read_exactly-append}
use agent_presentator.Wire.Paths.{join, path_components, path_length_allowed}
use agent_presentator.Wire.Trees.{
  Children, TreeEntry, Walk, is_ok, is_other, size_of, walks, sort_names, tree,
}
use agent_presentator.Wire.Sending.{pack, send_end, send_entries}
use agent_presentator.Wire.Receiving.{Receiver, names_eq, receive_end}
use agent_presentator.Wire.Names.{Under, starts_with}
use agent_presentator.Wire.Sorted.{All-sort_names}
use agent_presentator.Wire.Steps.{encoded, send_entry_lem}
use agent_presentator.Wire.Carrying.{total_size, encoded_all, HasNoScratch, AllUnder}
use agent_presentator.Wire.Walks.{All-in_turn, All-walks, All-keep, AllUnder-walks}

abbrev pub AreShort : List TreeEntry → Type 0
AreShort entries =
    All (λ (e : TreeEntry). path_length_allowed (length (join e.components)) ≡ true) entries

path_components-short :
    (path : List Bytes) (payload : Option Bytes)
    → is_ok (path_components (join path)) ≡ true
    → path_length_allowed (length (join path)) ≡ true
unfolding path_components
path_components-short path payload h = ground arith

-- What holds of all names' walks holds of a tree.
All-tree {κ} :
    (Q : TreeEntry → Type κ) (omitting : Option Bytes) (root : Children)
    → All
        (λ (o : Bytes × Walk). All Q o.1.entries)
        (keep (λ (named : Bytes × Walk). is_other omitting named.0) (walks [] root))
    → All Q (tree omitting root).entries
unfolding tree
All-tree Q omitting root h =
    let left = keep (λ (named : Bytes × Walk). is_other omitting named.0) (walks [] root) in
    All-in_turn Q (sort_names left)
      (All-sort_names (λ (o : Bytes × Walk). All Q o.1.entries) left h)

pub tree-AreShort :
    (omitting : Option Bytes) (root : Children) → AreShort (tree omitting root).entries
tree-AreShort omitting root =
    let is_short = λ (e : TreeEntry). path_length_allowed (length (join e.components)) ≡ true in
    All-tree is_short omitting root (
      All-keep (λ (o : Bytes × Walk). All is_short o.1.entries)
        (λ (named : Bytes × Walk). is_other omitting named.0) (walks [] root)
        (All-walks is_short path_components-short root []))

-- END
abbrev pub end_bytes : ℕ → ℕ → Bytes
end_bytes count total = 3 ∷ (big_endian 4 count ++ big_endian 8 total)

send_end_lem :
    (count total : ℕ)
    → count ≤ maximum_entries
    → total < byte_range 8
    → send_end count total ≡ ok (end_bytes count total)
unfolding send_end pack
send_end_lem count total few small = ground arith

ends_alike :
    (count total : ℕ) (entry : TreeEntry) (entries : List TreeEntry)
    → end_bytes (count + 1 + length entries) (total + size_of entry + total_size entries)
      ≡ end_bytes (count + suc (length entries)) (total + (size_of entry + total_size entries))
ends_alike count total entry entries =
    ap (λ (c : ℕ). end_bytes c (total + size_of entry + total_size entries)) (omega arith)
    ∙ ap (λ (t : ℕ). end_bytes (count + suc (length entries)) t) (omega arith)

module _ (chunk : ℕ → ℕ → ℕ) where
  pub send_entries_lem :
      (entries : List TreeEntry) (count total : ℕ)
      → AreShort entries
      → count + length entries ≤ maximum_entries
      → total + total_size entries < byte_range 8
      → send_entries chunk entries true count total
        ≡ ok
            (encoded_all entries ++ end_bytes (count + length entries) (total + total_size entries))
  unfolding send_entries
  send_entries_lem [] count total short few small =
      send_end_lem count total (omega arith) (omega arith)
      ∙ ap (λ (c : ℕ). ok (end_bytes c total)) (omega arith)
      ∙ ap (λ (t : ℕ). ok (end_bytes (count + 0) t)) (omega arith)
  send_entries_lem (entry ∷ entries) count total short few small =
      rw
        (
          send_entry_lem chunk entry short.0 (omega (arith, small)),
          send_entries_lem entries (count + 1) (total + size_of entry) short.1 (omega (arith, few))
              (omega (arith, small)),
        )
        (ap (λ bytes. ok bytes)
          (ap (λ p. encoded entry ++ (encoded_all entries ++ p))
              (ends_alike count total entry entries)
            ∙ sym (
                append_assoc (encoded entry) (encoded_all entries) (
                  end_bytes (count + suc (length entries))
                    (total + (size_of entry + total_size entries))))))

  receive_end_counts :
      (r : Receiver) (counts totals rest : Bytes)
      → length counts ≡ 4
      → length totals ≡ 8
      → of_big_endian 0 counts ≡ r.count
      → of_big_endian 0 totals ≡ r.total
      → receive_end chunk r ((counts ++ totals) ++ rest) ≡ ok (r.disk, rest)
  unfolding receive_end
  receive_end_counts r counts totals rest four eight count total =
      let front : take 4 (counts ++ totals) ≡ counts =
        ap (λ n. take n (counts ++ totals)) (sym four) ∙ take-append counts totals in
      let back : drop 4 (counts ++ totals) ≡ totals =
        ap (λ n. drop n (counts ++ totals)) (sym four) ∙ drop-append counts totals in
      rw
        (
          read_exactly-append chunk 12 (counts ++ totals) rest
              (omega (arith, length-append counts totals)),
          front,
          back,
          count,
          total,
        )
        (ground arith)

  pub receive_end_lem :
      (r : Receiver) (rest : Bytes)
      → r.count ≤ maximum_entries
      → r.total < byte_range 8
      → receive_end chunk r ((big_endian 4 r.count ++ big_endian 8 r.total) ++ rest)
        ≡ ok (r.disk, rest)
  unfolding receive_end
  receive_end_lem r rest few small =
      receive_end_counts r (big_endian 4 r.count) (big_endian 8 r.total) rest
        (length-big_endian 4 r.count) (length-big_endian 8 r.total)
        (of_big_endian-big_endian 4 r.count (omega arith))
        (of_big_endian-big_endian 8 r.total small)

starts_with-other :
    (name : Bytes) (path : List Bytes)
    → bytes_eq name scratch_name ≡ false
    → starts_with (name ∷ []) path ≡ true
    → names_eq path (scratch_name ∷ []) ≡ false
starts_with-other name [] other h = refl
starts_with-other name (first ∷ rest) other h =
    let same : name ≡ first = bytes_eq→eq name first (ground arith) in rw (← same, other) refl

-- Without the scratch directory at its top, a tree has none.
Under-other :
    (name : Bytes) (entries : List TreeEntry)
    → bytes_eq name scratch_name ≡ false
    → Under (name ∷ []) entries
    → HasNoScratch entries
Under-other name [] other h = tt
Under-other name (entry ∷ entries) other h =
    (starts_with-other name entry.components other h.0, Under-other name entries other h.1)

keep-HasNoScratch :
    (named : List (Bytes × Walk))
    → AllUnder [] named
    → All
        (λ (o : Bytes × Walk). HasNoScratch o.1.entries)
        (keep (λ (o : Bytes × Walk). is_other (some scratch_name) o.0) named)
keep-HasNoScratch [] h = tt
keep-HasNoScratch ((name, walk) ∷ rest) h = elim (Bool-cases (bytes_eq name scratch_name)) [
  | inl scratch ↦ rw scratch (keep-HasNoScratch rest h.1)
  | inr other ↦ rw other (Under-other name walk.entries other h.0, keep-HasNoScratch rest h.1)
]

pub tree-HasNoScratch : (root : Children) → HasNoScratch (tree (some scratch_name) root).entries
tree-HasNoScratch root =
    All-tree (λ (e : TreeEntry). names_eq e.components (scratch_name ∷ []) ≡ false)
      (some scratch_name) root (keep-HasNoScratch (walks [] root) (AllUnder-walks root []))
