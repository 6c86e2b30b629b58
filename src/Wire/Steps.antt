-- ===== src/Wire/Steps.antt =====
-- One entry on the wire, from `_send_entry` to the round of `receive_entries` that takes it.
use agent_presentator.Base.{
  ℕ, suc, ◌+◌, ◌-◌, ◌*◌, ◌≤◌, ◌<◌, ◌≡◌, refl, ap, ◌∙◌, true, false, Option, none, some, List, [],
  ◌∷◌, ◌++◌, leb, ◌==◌, All, length, arith, append_assoc, append-nil, bytes_ltb, big_endian,
  of_big_endian, byte_range, length-big_endian, of_big_endian-big_endian,
}
use agent_presentator.Wire.{ok, Bytes, maximum_entries, megabyte, scratch_name}
use agent_presentator.Wire.Reading.{read_exactly, read_exactly-append}
use agent_presentator.Wire.Paths.{
  HasNoSlash, join, split, split-join, path_components, path_length_allowed, read_path,
}
use agent_presentator.Wire.Trees.{TreeEntry, is_ok, payload_size, size_of}
use agent_presentator.Wire.Sending.{pack, send_payload, send_entry, tag_of}
use agent_presentator.Wire.Receiving.{
  OpenDirectory, Receiver, names_eq, last_directory, create, enter_directory, receive_file,
  receive_entry, receive_loop,
}
use agent_presentator.Wire.Copying.{payload_loop-all, copy_loop-all}
use agent_presentator.Wire.Names.{Fresh, Fresh-absent, last_name_of-append}
use agent_presentator.Wire.Stack.{Stands, enter_parent_lem, last_directory-append}

-- An entry on the wire.
abbrev pub payload_bytes : Option Bytes → Bytes
payload_bytes none = []
payload_bytes (some payload) = big_endian 8 (length payload) ++ payload

abbrev pub encoded : TreeEntry → Bytes
encoded entry =
    tag_of entry.payload
    ∷ (big_endian 2 (length (join entry.components))
        ++ (join entry.components ++ payload_bytes entry.payload))

split_path :
    (path : List Bytes) (name : Bytes)
    → All HasNoSlash (path ++ name ∷ [])
    → split (join (path ++ name ∷ [])) ≡ path ++ name ∷ []
split_path [] name h = split-join name [] h
split_path (a ∷ path) name h = split-join a (path ++ name ∷ []) h

-- A path that is taken: its names are read off it, and it is short.
path_components_lem :
    (path : List Bytes) (name : Bytes)
    → All HasNoSlash (path ++ name ∷ [])
    → is_ok (path_components (join (path ++ name ∷ []))) ≡ true
    → (path_components (join (path ++ name ∷ [])) ≡ ok (path ++ name ∷ []))
      × (path_length_allowed (length (join (path ++ name ∷ []))) ≡ true)
unfolding path_components
path_components_lem path name slashless taken =
    let names = split_path path name slashless in (ground arith, ground arith)

module _ (chunk : ℕ → ℕ → ℕ) where
  send_payload_lem :
      (payload : Option Bytes)
      → payload_size payload < byte_range 8
      → send_payload chunk payload ≡ ok (payload_bytes payload)
  unfolding send_payload pack
  send_payload_lem none h = refl
  send_payload_lem (some payload) h =
      ground (arith, payload_loop-all chunk (length payload) payload (omega arith))

  pub send_entry_lem :
      (entry : TreeEntry)
      → path_length_allowed (length (join entry.components)) ≡ true
      → size_of entry < byte_range 8
      → send_entry chunk entry ≡ ok (encoded entry)
  unfolding send_entry pack
  send_entry_lem entry short h = ground (arith, send_payload_lem entry.payload)

  module _ (path : List Bytes) (name : Bytes) (below : List OpenDirectory) (top : OpenDirectory)
      (r : Receiver) (slashless : All HasNoSlash (path ++ name ∷ []))
      (taken : is_ok (path_components (join (path ++ name ∷ []))) ≡ true)
      (stands : Stands path below top r.open_directories)
      (rises : bytes_ltb top.last_name name ≡ true)
      (other : names_eq (path ++ name ∷ []) (scratch_name ∷ []) ≡ false)
      (fresh : Fresh (path ++ name ∷ []) r.disk) (few : r.count < maximum_entries) where
    -- The path of the entry is read, and what follows it is left.
    read_path_lem :
        (after : Bytes)
        → read_path chunk (
            big_endian 2 (length (join (path ++ name ∷ []))) ++ (join (path ++ name ∷ []) ++ after))
          ≡ ok (path ++ name ∷ [], after)
    unfolding read_path
    read_path_lem after =
        let raw : Bytes = join (path ++ name ∷ []) in
        let (names, short) = path_components_lem path name slashless taken in
        ground (
          arith,
          names,
          short,
          read_exactly-append chunk 2 (big_endian 2 (length raw)) (raw ++ after) refl,
          of_big_endian-big_endian 2 (length raw) (ground arith),
          read_exactly-append chunk (length raw) raw after refl,
        )

    -- The parent is entered, and nothing is there yet.
    abbrev pub left_open : List OpenDirectory
    left_open = below ++ record top { last_name = name } ∷ []

    create_lem :
        (payload : Option Bytes)
        → create (record { components = path ++ name ∷ []; payload = payload }) r.disk
          ≡ ok (r.disk ++ record { components = path ++ name ∷ []; payload = payload } ∷ [])
    unfolding create
    create_lem payload = rw (Fresh-absent (path ++ name ∷ []) r.disk fresh) refl

    parent_path : (last_directory left_open).path ≡ path
    parent_path =
        ap (λ (d : OpenDirectory). d.path)
          (last_directory-append below (record top { last_name = name }))
        ∙ stands.2

    abbrev pub after_directory : Receiver
    after_directory = record r {
      open_directories =
          left_open ++ record { path = path ++ name ∷ []; name = name; last_name = [] } ∷ [];
      count = r.count + 1;
      disk = r.disk ++ record { components = path ++ name ∷ []; payload = none } ∷ [];
    }

    enter_directory_lem : enter_directory left_open name r ≡ ok after_directory
    unfolding enter_directory
    enter_directory_lem = rw (parent_path, create_lem none) refl

    abbrev pub after_file : Bytes → Receiver
    after_file payload = record r {
      open_directories = left_open;
      count = r.count + 1;
      total = r.total + length payload;
      disk = r.disk ++ record { components = path ++ name ∷ []; payload = some payload } ∷ [];
    }

    sized_file_lem :
        (budget : ℕ) (size_bytes payload rest : Bytes)
        → length size_bytes ≡ 8
        → of_big_endian 0 size_bytes ≡ length payload
        → length payload ≤ budget
        → receive_file chunk budget left_open name r (size_bytes ++ (payload ++ rest))
          ≡ ok (after_file payload, rest)
    unfolding receive_file
    sized_file_lem budget size_bytes payload rest eight is_size fits =
        let allowed : leb (length payload) budget ≡ true = ground arith in
        rw
          (
            read_exactly-append chunk 8 size_bytes (payload ++ rest) eight,
            is_size,
            allowed,
            parent_path,
            create_lem (some []),
            copy_loop-all chunk (length payload) payload [] rest (omega arith),
          )
          refl

    receive_file_lem :
        (budget : ℕ) (payload rest : Bytes)
        → length payload ≤ budget
        → length payload < byte_range 8
        → receive_file chunk budget left_open name r
            (big_endian 8 (length payload) ++ (payload ++ rest))
          ≡ ok (after_file payload, rest)
    receive_file_lem budget payload rest fits short =
        sized_file_lem budget (big_endian 8 (length payload)) payload rest
          (length-big_endian 8 (length payload)) (of_big_endian-big_endian 8 (length payload) short)
          fits

    -- What the round does after the tag.
    directory_entry_lem :
        (megabytes : ℕ) (rest : Bytes)
        → receive_entry chunk megabytes 1 r
            (big_endian 2 (length (join (path ++ name ∷ []))) ++ (join (path ++ name ∷ []) ++ rest))
          ≡ ok (after_directory, rest)
    unfolding receive_entry
    directory_entry_lem megabytes rest =
        let not_full : (r.count == maximum_entries) ≡ false = ground arith in
        rw
          (
            not_full,
            read_path_lem rest,
            enter_parent_lem path name below top r.open_directories stands rises other,
            last_name_of-append path name,
            enter_directory_lem,
          )
          refl

    file_entry_lem :
        (megabytes : ℕ) (payload rest : Bytes)
        → r.total + length payload ≤ megabytes * megabyte
        → length payload < byte_range 8
        → receive_entry chunk megabytes 2 r (
            big_endian 2 (length (join (path ++ name ∷ [])))
            ++ (join (path ++ name ∷ []) ++ (big_endian 8 (length payload) ++ (payload ++ rest))))
          ≡ ok (after_file payload, rest)
    unfolding receive_entry
    file_entry_lem megabytes payload rest fits short =
        let not_full : (r.count == maximum_entries) ≡ false = ground arith in
        rw
          (
            not_full,
            read_path_lem (big_endian 8 (length payload) ++ (payload ++ rest)),
            enter_parent_lem path name below top r.open_directories stands rises other,
            last_name_of-append path name,
            receive_file_lem (megabytes * megabyte - r.total) payload rest (omega arith) short,
          )
          refl

    -- A round that takes a directory, and one that takes a file.
    pub directory_step :
        (fuel megabytes : ℕ) (rest : Bytes)
        → receive_loop chunk
            (suc fuel)
            megabytes
            r
            (encoded (record { components = path ++ name ∷ []; payload = none }) ++ rest)
          ≡ receive_loop chunk fuel megabytes after_directory rest
    unfolding receive_loop
    directory_step fuel megabytes rest =
        let raw : Bytes = join (path ++ name ∷ []) in
        let whole : big_endian 2 (length raw) ++ (raw ++ []) ++ rest
            ≡ big_endian 2 (length raw) ++ (raw ++ rest) =
          ap (λ p. big_endian 2 (length raw) ++ (p ++ rest)) (append-nil raw) in
        rw
          (
            whole,
            read_exactly-append chunk 1 (1 ∷ []) (big_endian 2 (length raw) ++ (raw ++ rest)) refl,
            directory_entry_lem megabytes rest,
          )
          refl

    joined :
        (raw size_bytes payload rest : Bytes)
        → (raw ++ (size_bytes ++ payload)) ++ rest ≡ raw ++ (size_bytes ++ (payload ++ rest))
    joined raw size_bytes payload rest =
        append_assoc raw (size_bytes ++ payload) rest
        ∙ ap (λ p. raw ++ p) (append_assoc size_bytes payload rest)

    pub file_step :
        (fuel megabytes : ℕ) (payload rest : Bytes)
        → r.total + length payload ≤ megabytes * megabyte
        → length payload < byte_range 8
        → receive_loop chunk
            (suc fuel)
            megabytes
            r
            (encoded (record { components = path ++ name ∷ []; payload = some payload }) ++ rest)
          ≡ receive_loop chunk fuel megabytes (after_file payload) rest
    unfolding receive_loop
    file_step fuel megabytes payload rest fits short =
        let raw : Bytes = join (path ++ name ∷ []) in
        let sized : Bytes = big_endian 8 (length payload) in
        let after : Bytes = big_endian 2 (length raw) ++ (raw ++ (sized ++ (payload ++ rest))) in
        let front : read_exactly chunk 1
              (encoded (record { components = path ++ name ∷ []; payload = some payload }) ++ rest)
            ≡ ok (2 ∷ [], after) =
          ap (λ p. read_exactly chunk 1 (2 ∷ (big_endian 2 (length raw) ++ p)))
            (joined raw sized payload rest)
          ∙ read_exactly-append chunk 1 (2 ∷ []) after refl in
        rw (front, file_entry_lem megabytes payload rest fits short) refl
