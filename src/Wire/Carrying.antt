-- ===== src/Wire/Carrying.antt =====
-- Entries that go over the wire one after the other: what the receiver of `receive_entries` holds once
-- it has taken them, for one name of a directory and for its names in turn.
use agent_presentator.Base.{
  ℕ, ◌+◌, ◌*◌, ◌≤◌, ◌≡◌, refl, ap, sym, ◌∙◌, true, false, List, [], ◌∷◌, ◌++◌, All, length, arith,
  append_assoc, append-nil, bytes_ltb, length-append, All-append, Bool-cases, inl, inr,
}
use agent_presentator.Wire.{Bytes, maximum_entries, megabyte, scratch_name}
use agent_presentator.Wire.Trees.{TreeEntry, Walk, size_of, then_walk, in_turn}
use agent_presentator.Wire.Receiving.{OpenDirectory, Receiver, names_eq, receive_loop}
use agent_presentator.Wire.Names.{Fresh, Under, Under-Fresh, starts_with}
use agent_presentator.Wire.Sorted.{Above, IsSorted, bytes_ltb-ne}
use agent_presentator.Wire.Stack.{Stands}
use agent_presentator.Wire.Steps.{encoded}

abbrev pub total_size : List TreeEntry → ℕ
total_size [] = 0
total_size (entry ∷ entries) = size_of entry + total_size entries

pub total_size-append :
    (xs ys : List TreeEntry) → total_size (xs ++ ys) ≡ total_size xs + total_size ys
total_size-append [] ys = omega arith
total_size-append (entry ∷ xs) ys = omega (arith, total_size-append xs ys)

abbrev pub encoded_all : List TreeEntry → Bytes
encoded_all [] = []
encoded_all (entry ∷ entries) = encoded entry ++ encoded_all entries

-- No entry is the toolchain's scratch directory.
abbrev pub HasNoScratch : List TreeEntry → Type 0
HasNoScratch entries =
    All (λ (e : TreeEntry). names_eq e.components (scratch_name ∷ []) ≡ false) entries

module _ {ℓ κ} {A : Type ℓ} (P : A → Type κ) where
  pub All-left : (xs ys : List A) → All P (xs ++ ys) → All P xs
  All-left [] ys h = tt
  All-left (x ∷ xs) ys h = (h.0, All-left xs ys h.1)

  pub All-right : (xs ys : List A) → All P (xs ++ ys) → All P ys
  All-right [] ys h = h
  All-right (x ∷ xs) ys h = All-right xs ys h.1

-- Every walk of a directory stays below its own name.
abbrev pub AllUnder : List Bytes → List (Bytes × Walk) → Type 0
AllUnder path named = All (λ (o : Bytes × Walk). Under (path ++ o.0 ∷ []) o.1.entries) named

abbrev pub AllFresh : List Bytes → List TreeEntry → List (Bytes × Walk) → Type 0
AllFresh path disk named = All (λ (o : Bytes × Walk). Fresh (path ++ o.0 ∷ []) disk) named

-- What one name's walk has put on the disk leaves the later names fresh.
AllFresh-append :
    (path : List Bytes) (name : Bytes) (disk entries : List TreeEntry) (rest : List (Bytes × Walk))
    → Above name rest
    → Under (path ++ name ∷ []) entries
    → AllFresh path disk rest
    → AllFresh path (disk ++ entries) rest
AllFresh-append path name disk entries [] above under h = tt
AllFresh-append path name disk entries ((other, walk) ∷ rest) above under h = (
  All-append (λ (e : TreeEntry). starts_with (path ++ other ∷ []) e.components ≡ false) disk entries
      h.0 (Under-Fresh path name other entries (bytes_ltb-ne name other above.0) under),
  AllFresh-append path name disk entries rest above.1 under h.1,
)

module _ (chunk : ℕ → ℕ → ℕ) (megabytes : ℕ) where
  -- The receiver that holds the entries as well.
  abbrev pub HasTaken :
      List Bytes
      → List OpenDirectory
      → OpenDirectory
      → Receiver
      → List TreeEntry
      → Receiver
      → Type 0
  HasTaken path below top r entries r' =
      ((fuel : ℕ) (rest : Bytes)
        → receive_loop chunk (length entries + fuel) megabytes r (encoded_all entries ++ rest)
          ≡ receive_loop chunk fuel megabytes r' rest)
      × Stands path below top r'.open_directories
      × (r'.count ≡ r.count + length entries)
      × (r'.total ≡ r.total + total_size entries)
      × (r'.disk ≡ r.disk ++ entries)

  abbrev pub HasRoom : Receiver → List TreeEntry → Type 0
  HasRoom r entries =
      (r.count + length entries ≤ maximum_entries)
      × (r.total + total_size entries ≤ megabytes * megabyte)

  -- A walk below `path` that ends is taken by every receiver that has come to `path`.
  abbrev pub Carries : List Bytes → Bytes × Walk → Type 0
  Carries path named =
      named.1.ends ≡ true
      → HasNoScratch named.1.entries
      → (below : List OpenDirectory) (top : OpenDirectory) (r : Receiver)
      → Stands path below top r.open_directories
      → bytes_ltb top.last_name named.0 ≡ true
      → Fresh (path ++ named.0 ∷ []) r.disk
      → HasRoom r named.1.entries
      → (r' : Receiver) × HasTaken path below (record top { last_name = named.0 }) r named.1.entries
          r'

  encoded_all-append :
      (xs ys : List TreeEntry) (rest : Bytes)
      → encoded_all (xs ++ ys) ++ rest ≡ encoded_all xs ++ (encoded_all ys ++ rest)
  encoded_all-append [] ys rest = refl
  encoded_all-append (entry ∷ xs) ys rest =
      append_assoc (encoded entry) (encoded_all (xs ++ ys)) rest
      ∙ ap (λ p. encoded entry ++ p) (encoded_all-append xs ys rest)
      ∙ sym (append_assoc (encoded entry) (encoded_all xs) (encoded_all ys ++ rest))

  HasTaken-append :
      (path : List Bytes) (below : List OpenDirectory) (mid top : OpenDirectory)
      (r r' r'' : Receiver) (xs ys : List TreeEntry)
      → HasTaken path below mid r xs r'
      → HasTaken path below top r' ys r''
      → HasTaken path below top r (xs ++ ys) r''
  HasTaken-append path below mid top r r' r'' xs ys first next = (
    λ fuel rest.
        ap (λ (n : ℕ). receive_loop chunk n megabytes r (encoded_all (xs ++ ys) ++ rest))
          (omega (arith, length-append xs ys))
        ∙ ap (receive_loop chunk (length xs + (length ys + fuel)) megabytes r)
            (encoded_all-append xs ys rest)
        ∙ first.0 (length ys + fuel) (encoded_all ys ++ rest)
        ∙ next.0 fuel rest,
    next.1,
    omega (arith, first.2, next.2, length-append xs ys),
    omega (arith, first.3, next.3, total_size-append xs ys),
    next.4 ∙ ap (λ d. d ++ ys) first.4 ∙ append_assoc r.disk xs ys,
  )

  HasTaken-nothing :
      (path : List Bytes) (below : List OpenDirectory) (top : OpenDirectory) (r : Receiver)
      → Stands path below top r.open_directories
      → HasTaken path below top r [] r
  HasTaken-nothing path below top r stands = (
    λ fuel rest. ap (λ (n : ℕ). receive_loop chunk n megabytes r rest) (omega arith),
    stands,
    omega arith,
    omega arith,
    sym (append-nil r.disk),
  )

  HasRoom-left : (r : Receiver) (xs ys : List TreeEntry) → HasRoom r (xs ++ ys) → HasRoom r xs
  HasRoom-left r xs ys room =
      (omega (arith, room.0, length-append xs ys), omega (arith, room.1, total_size-append xs ys))

  HasRoom-right :
      (r r' : Receiver) (xs ys : List TreeEntry)
      → r'.count ≡ r.count + length xs
      → r'.total ≡ r.total + total_size xs
      → HasRoom r (xs ++ ys)
      → HasRoom r' ys
  HasRoom-right r r' xs ys count total room =
      (omega (arith, room.0, length-append xs ys), omega (arith, room.1, total_size-append xs ys))

  pub then_walk-ends :
      (first next : Walk)
      → (then_walk first next).ends ≡ true
      → (first.ends ≡ true)
        × (next.ends ≡ true)
        × ((then_walk first next).entries ≡ first.entries ++ next.entries)
  unfolding then_walk
  then_walk-ends first next h = elim (Bool-cases first.ends) [
    | inl ended ↦ (ended, ground arith, rw ended refl)
    | inr raised ↦ absurd (ground arith)
  ]

  -- What has come of the names of a directory, of which the last is known to the receiver.
  abbrev pub Arrives :
      List Bytes → List OpenDirectory → OpenDirectory → Receiver → List TreeEntry → Type 0
  Arrives path below top r entries =
      (last : Bytes) × (r' : Receiver) × HasTaken path below (record top { last_name = last }) r
        entries r'

  pub in_turn-Arrives :
      (path : List Bytes) (named : List (Bytes × Walk)) (below : List OpenDirectory)
      (top : OpenDirectory) (r : Receiver)
      → All (Carries path) named
      → IsSorted named
      → AllUnder path named
      → (in_turn named).ends ≡ true
      → HasNoScratch (in_turn named).entries
      → Stands path below top r.open_directories
      → Above top.last_name named
      → AllFresh path r.disk named
      → HasRoom r (in_turn named).entries
      → Arrives path below top r (in_turn named).entries
  unfolding in_turn
  in_turn-Arrives path [] below top r carry is_sorted under ends scratchless stands rises fresh
        room =
      (top.last_name, r, HasTaken-nothing path below top r stands)
  in_turn-Arrives path ((name, walk) ∷ rest) below top r carry is_sorted under ends scratchless
        stands rises fresh room =
      let (ended, later_ends, entries) = then_walk-ends walk (in_turn rest) ends in
      let xs : List TreeEntry = walk.entries in
      let ys : List TreeEntry = (in_turn rest).entries in
      let scratchless' : HasNoScratch (xs ++ ys) = rw (← entries) scratchless in
      let room' : HasRoom r (xs ++ ys) = rw (← entries) room in
      let (r', first) =
        carry.0 ended
          (All-left (λ (e : TreeEntry). names_eq e.components (scratch_name ∷ []) ≡ false) xs ys
            scratchless')
          below top r stands rises.0 fresh.0 (HasRoom-left r xs ys room') in
      let (last, r'', next) =
        in_turn-Arrives path rest below (record top { last_name = name }) r' carry.1 is_sorted.1
          under.1 later_ends
          (All-right (λ (e : TreeEntry). names_eq e.components (scratch_name ∷ []) ≡ false) xs ys
            scratchless')
          first.1 is_sorted.0
          (rw first.4 (AllFresh-append path name r.disk xs rest is_sorted.0 under.0 fresh.1))
          (HasRoom-right r r' xs ys first.2 first.3 room') in
      rw entries (
        last,
        r'',
        HasTaken-append path below (record top { last_name = name })
            (record top { last_name = last }) r r' r'' xs ys first next,
      )
