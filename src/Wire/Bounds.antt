-- ===== src/Wire/Bounds.antt =====
-- `receive_entries` against any peer: that it ends, and the bounds of what it takes.
use agent_presentator.Base.{
  ℕ, zero, suc, ◌+◌, ◌-◌, ◌*◌, ◌≤◌, ◌<◌, ◌≡◌, refl, true, not, ◌&&◌, ◌||◌, List, [], ◌∷◌, ◌++◌,
  length, take, drop, arith, leb, if◌then◌else◌, any, map, some, none, length-append, of_big_endian,
  ◌==◌, bytes_ltb,
}
use agent_presentator.Wire.{
  ok, refused, os_error, ◌>>=◌, ensure, Bytes, maximum_entries, megabyte, scratch_name,
}
use agent_presentator.Wire.Reading.{read_exactly}
use agent_presentator.Wire.Paths.{read_path}
use agent_presentator.Wire.Trees.{TreeEntry}
use agent_presentator.Wire.Receiving.{
  OpenDirectory, Receiver, begun_receiver, names_eq, all_but_last, last_name_of, last_directory,
  set_last_name, enter_parent, create, first_byte, enter_directory, copy_loop, receive_file,
  receive_entry, receive_end, receive_loop, receive_entries,
}
use agent_presentator.Wire.Carrying.{total_size, total_size-append}
use agent_presentator.Wire.Holding.{
  Holds, Holds-then, Holds-if, Holds-weaken, Holds-ensure, Holds-read_exactly, Holds-read_path,
  Holds-copy_loop,
}

Holds-create :
    (entry : TreeEntry) (disk : List TreeEntry)
    → Holds (λ made. made ≡ disk ++ entry ∷ []) (create entry disk)
unfolding create
Holds-create entry disk =
    Holds-if (λ made. made ≡ disk ++ entry ∷ [])
      (any (λ (other : TreeEntry). names_eq other.components entry.components) disk) os_error
      (ok (disk ++ entry ∷ [])) (λ _. tt) (λ _. refl)

Holds-enter_parent :
    (open_directories : List OpenDirectory) (components : List Bytes)
    → Holds (λ _. Unit) (enter_parent open_directories components)
unfolding enter_parent
Holds-enter_parent open_directories components =
    let parent_path = all_but_last components in
    let left = take (length parent_path + 1) open_directories in
    let rises =
      not (bytes_ltb (last_directory left).last_name (last_name_of components))
      || names_eq components (scratch_name ∷ []) in
    let entered = ok (set_last_name (last_name_of components) left) in
    Holds-if (λ _. Unit)
      (not (
        names_eq
          (take (length parent_path)
            (map (λ (d : OpenDirectory). d.name) (drop 1 open_directories)))
          parent_path))
      refused (if rises then refused else entered) (λ _. tt)
      (λ _. Holds-if (λ _. Unit) rises refused entered (λ _. tt) (λ _. tt))

module _ (megabytes : ℕ) where
  -- The receiver's counters are those of the disk, and within bounds.
  abbrev pub IsBounded : Receiver → Type 0
  IsBounded r =
      (r.count ≡ length r.disk)
      × (r.total ≡ total_size r.disk)
      × (r.count ≤ maximum_entries)
      × (r.total ≤ megabytes * megabyte)

  module _ (chunk : ℕ → ℕ → ℕ) where
    abbrev pub Rounds : Bytes → Receiver × Bytes → Type 0
    Rounds bytes (r, rest) = IsBounded r × (length rest ≤ length bytes)

    Holds-enter_directory :
        (left : List OpenDirectory) (name : Bytes) (r : Receiver)
        → IsBounded r
        → r.count < maximum_entries
        → Holds IsBounded (enter_directory left name r)
    unfolding enter_directory
    Holds-enter_directory left name r h few =
        let entry : TreeEntry = record {
          components = (last_directory left).path ++ name ∷ [];
          payload = none;
        } in
        Holds-then (λ made. made ≡ r.disk ++ entry ∷ []) IsBounded (create entry r.disk) _
          (Holds-create entry r.disk)
          (λ made e. rw e (
            omega (arith, h.0, length-append r.disk (entry ∷ [])),
            omega (arith, h.1, total_size-append r.disk (entry ∷ [])),
            omega (arith, few),
            omega (arith, h.3),
          ))

    Holds-receive_file :
        (left : List OpenDirectory) (name : Bytes) (r : Receiver) (bytes : Bytes)
        → IsBounded r
        → r.count < maximum_entries
        → Holds
            (Rounds bytes)
            (receive_file chunk (megabytes * megabyte - r.total) left name r bytes)
    unfolding receive_file
    Holds-receive_file left name r bytes h few =
        let path = (last_directory left).path ++ name ∷ [] in
        let empty : TreeEntry = record { components = path; payload = some [] } in
        Holds-then (λ (r : Bytes × Bytes). (length r.0 ≡ 8) × (length r.1 + 8 ≡ length bytes))
          (Rounds bytes) (read_exactly chunk 8 bytes) _ (Holds-read_exactly chunk 8 bytes)
          (λ (size_bytes, after) got.
            let size = of_big_endian 0 size_bytes in
            Holds-then (λ _. leb size (megabytes * megabyte - r.total) ≡ true) (Rounds bytes)
              (ensure (leb size (megabytes * megabyte - r.total))) _
              (Holds-ensure (leb size (megabytes * megabyte - r.total)))
              (λ _ fits.
                Holds-then (λ made. made ≡ r.disk ++ empty ∷ []) (Rounds bytes)
                  (create empty r.disk) _ (Holds-create empty r.disk)
                  (λ _ _.
                    Holds-then
                      (λ (p : Bytes × Bytes). (length p.0 ≡ 0 + size) × (length p.1 ≤ length after))
                      (Rounds bytes) (copy_loop chunk size size [] after) _
                      (Holds-copy_loop chunk size size [] after (omega arith))
                      (λ (payload, rest) copied.
                        let whole : TreeEntry = record {
                          components = path;
                          payload = some payload;
                        } in
                        let allowed : size ≤ megabytes * megabyte - r.total =
                          ground (arith, fits) in
                        (
                          (
                            omega (arith, h.0, length-append r.disk (whole ∷ [])),
                            omega (arith, h.1, copied.0, total_size-append r.disk (whole ∷ [])),
                            omega (arith, few),
                            omega (arith, h.3, allowed),
                          ),
                          omega (arith, got.1, copied.1),
                        )))))

    Holds-receive_entry :
        (tag : ℕ) (r : Receiver) (bytes : Bytes)
        → IsBounded r
        → Holds (Rounds bytes) (receive_entry chunk megabytes tag r bytes)
    unfolding receive_entry
    Holds-receive_entry tag r bytes h =
        Holds-then (λ _. (tag == 1 || tag == 2) ≡ true) (Rounds bytes)
          (ensure (tag == 1 || tag == 2)) _ (Holds-ensure (tag == 1 || tag == 2))
          (λ _ _.
            Holds-then (λ _. not (r.count == maximum_entries) ≡ true) (Rounds bytes)
              (ensure (not (r.count == maximum_entries))) _
              (Holds-ensure (not (r.count == maximum_entries)))
              (λ _ room.
                Holds-then (λ (p : List Bytes × Bytes). length p.1 ≤ length bytes) (Rounds bytes)
                  (read_path chunk bytes) _ (Holds-read_path chunk bytes)
                  (λ (components, after) shorter.
                    Holds-then (λ _. Unit) (Rounds bytes)
                      (enter_parent r.open_directories components) _
                      (Holds-enter_parent r.open_directories components)
                      (λ left _.
                        let few : r.count < maximum_entries = ground (arith, h.2, room) in
                        Holds-if (Rounds bytes) (tag == 1)
                          (enter_directory left (last_name_of components) r >>= λ r'.
                            ok (r', after))
                          (receive_file chunk (megabytes * megabyte - r.total) left
                            (last_name_of components) r after)
                          (λ _.
                            Holds-then IsBounded (Rounds bytes)
                              (enter_directory left (last_name_of components) r) _
                              (Holds-enter_directory left (last_name_of components) r h few)
                              (λ r' bounded. (bounded, shorter)))
                          (λ _.
                            Holds-weaken (Rounds after) (Rounds bytes)
                              (receive_file chunk (megabytes * megabyte - r.total) left
                                (last_name_of components) r after)
                              (λ _ got. (got.0, omega (arith, got.1, shorter)))
                              (Holds-receive_file left (last_name_of components) r after h few))))))

    abbrev pub Written : List TreeEntry × Bytes → Type 0
    Written (disk, rest) =
        (length disk ≤ maximum_entries) × (total_size disk ≤ megabytes * megabyte)

    Holds-receive_end :
        (r : Receiver) (bytes : Bytes) → IsBounded r → Holds Written (receive_end chunk r bytes)
    unfolding receive_end
    Holds-receive_end r bytes h =
        Holds-then (λ (p : Bytes × Bytes). (length p.0 ≡ 12) × (length p.1 + 12 ≡ length bytes))
          Written (read_exactly chunk 12 bytes) _ (Holds-read_exactly chunk 12 bytes)
          (λ (counts, rest) _.
            let tells =
              of_big_endian 0 (take 4 counts) == r.count
              && of_big_endian 0 (drop 4 counts) == r.total in
            Holds-then (λ _. tells ≡ true) Written (ensure tells) _ (Holds-ensure tells)
              (λ _ _. (omega (arith, h.0, h.2), omega (arith, h.1, h.3))))

    Holds-receive_loop :
        (fuel : ℕ) (r : Receiver) (bytes : Bytes)
        → IsBounded r
        → length bytes < fuel
        → Holds Written (receive_loop chunk fuel megabytes r bytes)
    unfolding receive_loop
    Holds-receive_loop zero r bytes h enough = absurd (omega arith)
    Holds-receive_loop (suc fuel) r bytes h enough =
        Holds-then (λ (p : Bytes × Bytes). (length p.0 ≡ 1) × (length p.1 + 1 ≡ length bytes))
          Written (read_exactly chunk 1 bytes) _ (Holds-read_exactly chunk 1 bytes)
          (λ (tag, after) got.
            Holds-if Written (first_byte tag == 3) (receive_end chunk r after)
              (receive_entry chunk megabytes (first_byte tag) r after >>= λ (r', rest).
                receive_loop chunk fuel megabytes r' rest)
              (λ _. Holds-receive_end r after h)
              (λ _.
                Holds-then (Rounds after) Written
                  (receive_entry chunk megabytes (first_byte tag) r after) _
                  (Holds-receive_entry (first_byte tag) r after h)
                  (λ (r', rest) taken.
                    Holds-receive_loop fuel r' rest taken.0
                      (omega (arith, got.1, taken.1, enough)))))

    -- Whatever the peer sends, and however it is split, receiving a tree comes to an end, with WireRefusedError
    -- or an OSError or with a tree, which has at most MAXIMUM_ENTRIES entries of together at most `megabytes`
    -- MB.
    pub receive_entries-Holds :
        (bytes : Bytes) → Holds Written (receive_entries chunk megabytes bytes)
    unfolding receive_entries
    receive_entries-Holds bytes =
        Holds-receive_loop (length bytes + 1) begun_receiver bytes
          (refl, refl, omega arith, omega arith) (omega arith)
