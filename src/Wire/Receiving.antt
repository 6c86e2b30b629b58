-- ===== src/Wire/Receiving.antt =====
-- `receive_entries` and what it calls: the entries of a tree, written below a directory on disk. The
-- disk is the list of what was made there, in order; a descriptor is the path it was opened at.
use agent_presentator.Base.{
  ℕ, zero, suc, ◌+◌, ◌-◌, ◌*◌, min, Bool, true, false, not, ◌&&◌, ◌||◌, none, some, List, [], ◌∷◌,
  ◌++◌, map, leb, ◌==◌, if◌then◌else◌, length, take, drop, any, bytes_eq, bytes_ltb, of_big_endian,
}
use agent_presentator.Wire.{
  Result, ok, refused, os_error, stuck, ◌>>=◌, ◌>>◌, ensure, Bytes, chunk_bytes, maximum_entries,
  megabyte, scratch_name,
}
use agent_presentator.Wire.Reading.{recv, read_exactly}
use agent_presentator.Wire.Paths.{read_path}
use agent_presentator.Wire.Trees.{TreeEntry}

-- `_OpenDirectory`
pub record OpenDirectory : Type 0 where
  pub path : List Bytes
  pub name : Bytes
  pub last_name : Bytes

-- The locals of `receive_entries`, and the disk.
pub record Receiver : Type 0 where
  pub open_directories : List OpenDirectory
  pub count : ℕ
  pub total : ℕ
  pub disk : List TreeEntry

abbrev pub deck_directory : OpenDirectory
deck_directory = record { path = []; name = []; last_name = [] }

abbrev pub begun_receiver : Receiver
begun_receiver = record { open_directories = deck_directory ∷ []; count = 0; total = 0; disk = [] }

-- Equality of tuples of bytes.
abbrev pub names_eq : List Bytes → List Bytes → Bool
names_eq [] [] = true
names_eq [] (b ∷ others) = false
names_eq (a ∷ rest) [] = false
names_eq (a ∷ rest) (b ∷ others) = bytes_eq a b && names_eq rest others

-- `components[:-1]` and `components[-1]`
abbrev pub all_but_last : List Bytes → List Bytes
all_but_last [] = []
all_but_last (name ∷ []) = []
all_but_last (name ∷ next ∷ rest) = name ∷ all_but_last (next ∷ rest)

abbrev pub last_name_of : List Bytes → Bytes
last_name_of [] = []
last_name_of (name ∷ []) = name
last_name_of (name ∷ next ∷ rest) = last_name_of (next ∷ rest)

-- `parent.last_name = name` of the last open directory; the list is never empty
abbrev pub last_directory : List OpenDirectory → OpenDirectory
last_directory [] = deck_directory
last_directory (d ∷ []) = d
last_directory (d ∷ next ∷ rest) = last_directory (next ∷ rest)

abbrev pub set_last_name : Bytes → List OpenDirectory → List OpenDirectory
set_last_name name [] = []
set_last_name name (d ∷ []) = record d { last_name = name } ∷ []
set_last_name name (d ∷ next ∷ rest) = d ∷ set_last_name name (next ∷ rest)

-- `_enter_parent`: the open directories afterwards, of which the last is the parent
unfoldable pub enter_parent : List OpenDirectory → List Bytes → Result (List OpenDirectory)
enter_parent open_directories components =
    let parent_path = all_but_last components in
    let open_path = map (λ (d : OpenDirectory). d.name) (drop 1 open_directories) in
    let left = take (length parent_path + 1) open_directories in
    if not (names_eq (take (length parent_path) open_path) parent_path)
    then refused
    else if not (bytes_ltb (last_directory left).last_name (last_name_of components))
        || names_eq components (scratch_name ∷ [])
    then refused
    else ok (set_last_name (last_name_of components) left)

-- `os.mkdir` and `os.open` with O_EXCL: what is there already is an error
unfoldable pub create : TreeEntry → List TreeEntry → Result (List TreeEntry)
create entry disk =
    if any (λ (other : TreeEntry). names_eq other.components entry.components) disk
    then os_error
    else ok (disk ++ entry ∷ [])

abbrev pub first_byte : Bytes → ℕ
first_byte [] = 0
first_byte (b ∷ bytes) = b

-- `_make_directory`, and the directory it opens
unfoldable pub enter_directory : List OpenDirectory → Bytes → Receiver → Result Receiver
unfolding create
enter_directory left name r = do
  let path = (last_directory left).path ++ name ∷ []
  disk ← create (record { components = path; payload = none }) r.disk
  ok (record r {
    open_directories = left ++ record { path = path; name = name; last_name = [] } ∷ [];
    count = r.count + 1;
    disk = disk;
  })

-- `chunk left asked` bounds what `recv` returns and `os.write` takes at a time.
module _ (chunk : ℕ → ℕ → ℕ) where
  -- `while chunk: chunk = chunk[os.write(descriptor, chunk):]`
  unfoldable pub write_loop : ℕ → Bytes → Bytes → Result Bytes
  unfolding recv
  write_loop fuel [] written = ok written
  write_loop zero (b ∷ piece) written = stuck
  write_loop (suc fuel) (b ∷ piece) written =
      let (done, left) = recv chunk (length (b ∷ piece)) (b ∷ piece) in
      write_loop fuel left (written ++ done)

  -- The loop of `_receive_file`.
  unfoldable pub copy_loop : ℕ → ℕ → Bytes → Bytes → Result (Bytes × Bytes)
  unfolding write_loop
  copy_loop fuel zero written bytes = ok (written, bytes)
  copy_loop zero (suc remaining) written bytes = stuck
  copy_loop (suc fuel) (suc remaining) written bytes = do
    (piece, after) ← read_exactly chunk (min (suc remaining) chunk_bytes) bytes
    written' ← write_loop (length piece) piece written
    copy_loop fuel (suc remaining - length piece) written' after

  -- `_receive_file`: each round copies one byte at least, so `size` rounds are enough
  unfoldable pub receive_file :
      ℕ → List OpenDirectory → Bytes → Receiver → Bytes → Result (Receiver × Bytes)
  unfolding copy_loop create
  receive_file budget left name r bytes = do
    (size_bytes, after) ← read_exactly chunk 8 bytes
    let size = of_big_endian 0 size_bytes
    ensure (leb size budget)
    let path = (last_directory left).path ++ name ∷ []
    made ← create (record { components = path; payload = some [] }) r.disk
    (payload, rest) ← copy_loop size size [] after
    ok (
      record r {
        open_directories = left;
        count = r.count + 1;
        total = r.total + size;
        disk = r.disk ++ record { components = path; payload = some payload } ∷ [];
      },
      rest,
    )

  -- One round of the loop of `receive_entries`, after its tag.
  unfoldable pub receive_entry : ℕ → ℕ → Receiver → Bytes → Result (Receiver × Bytes)
  unfolding read_path enter_parent enter_directory receive_file
  receive_entry megabytes tag r bytes = do
    ensure (tag == 1 || tag == 2)
    ensure (not (r.count == maximum_entries))
    (components, after) ← read_path chunk bytes
    left ← enter_parent r.open_directories components
    if tag == 1
        then (enter_directory left (last_name_of components) r >>= λ r'. ok (r', after))
        else receive_file (megabytes * megabyte - r.total) left (last_name_of components) r after

  -- END, which says what was received
  unfoldable pub receive_end : Receiver → Bytes → Result (List TreeEntry × Bytes)
  receive_end r bytes = do
    (counts, rest) ← read_exactly chunk 12 bytes
    ensure
        (of_big_endian 0 (take 4 counts) == r.count && of_big_endian 0 (drop 4 counts) == r.total)
    ok (r.disk, rest)

  unfoldable pub receive_loop : ℕ → ℕ → Receiver → Bytes → Result (List TreeEntry × Bytes)
  unfolding receive_entry receive_end
  receive_loop zero megabytes r bytes = stuck
  receive_loop (suc fuel) megabytes r bytes = do
    (tag, after) ← read_exactly chunk 1 bytes
    if first_byte tag == 3
        then receive_end r after
        else (receive_entry megabytes (first_byte tag) r after >>= λ (r', rest).
            receive_loop fuel megabytes r' rest)

  -- `receive_entries`: each round reads one byte at least, so as many rounds as bytes and one are enough
  unfoldable pub receive_entries : ℕ → Bytes → Result (List TreeEntry × Bytes)
  unfolding receive_loop
  receive_entries megabytes bytes = receive_loop (length bytes + 1) megabytes begun_receiver bytes

  -- `read_empty_end`
  unfoldable pub read_empty_end : Bytes → Result Bytes
  read_empty_end bytes = do
    (tag, after) ← read_exactly chunk 1 bytes
    ensure (first_byte tag == 3)
    (counts, rest) ← read_exactly chunk 12 after
    ensure (of_big_endian 0 (take 4 counts) == 0 && of_big_endian 0 (drop 4 counts) == 0)
    ok rest
