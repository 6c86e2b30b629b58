-- ===== src/Wire/Stack.antt =====
-- The open directories of `receive_entries`: entering the parent of an entry.
use agent_presentator.Base.{
  ℕ, zero, suc, ◌+◌, ◌≡◌, refl, ap, sym, ◌∙◌, true, false, List, [], ◌∷◌, ◌++◌, map, length, take,
  drop, arith, bytes_ltb, length-append, take-append,
}
use agent_presentator.Wire.{ok, Bytes, scratch_name}
use agent_presentator.Wire.Receiving.{
  OpenDirectory, names_eq, last_directory, set_last_name, enter_parent,
}
use agent_presentator.Wire.Names.{names_eq_refl, all_but_last-append, last_name_of-append}

-- The directories that are open down to `path`: `below` above it, and `top` for itself; deeper ones
-- may still be open.
abbrev pub Stands : List Bytes → List OpenDirectory → OpenDirectory → List OpenDirectory → Type 0
Stands path below top open_directories =
    (take (suc (length path)) open_directories ≡ below ++ top ∷ [])
    × (map (λ (d : OpenDirectory). d.name) (drop 1 (below ++ top ∷ [])) ≡ path)
    × (top.path ≡ path)

pub last_directory-append :
    (below : List OpenDirectory) (top : OpenDirectory) → last_directory (below ++ top ∷ []) ≡ top
last_directory-append [] top = refl
last_directory-append (a ∷ []) top = refl
last_directory-append (a ∷ b ∷ below) top = last_directory-append (b ∷ below) top

pub set_last_name-append :
    (name : Bytes) (below : List OpenDirectory) (top : OpenDirectory)
    → set_last_name name (below ++ top ∷ []) ≡ below ++ record top { last_name = name } ∷ []
set_last_name-append name [] top = refl
set_last_name-append name (a ∷ []) top = refl
set_last_name-append name (a ∷ b ∷ below) top =
    ap (λ rest. a ∷ rest) (set_last_name-append name (b ∷ below) top)

module _ {ℓ κ} {A : Type ℓ} {B : Type κ} (f : A → B) where
  take-map : (n : ℕ) (xs : List A) → take n (map f xs) ≡ map f (take n xs)
  take-map zero xs = refl
  take-map (suc n) [] = refl
  take-map (suc n) (x ∷ xs) = ap (λ rest. f x ∷ rest) (take-map n xs)

  take-map_tail :
      (n : ℕ) (xs : List A) → take n (map f (drop 1 xs)) ≡ map f (drop 1 (take (suc n) xs))
  take-map_tail zero [] = refl
  take-map_tail (suc n) [] = refl
  take-map_tail n (x ∷ xs) = take-map n xs

module _ {ℓ} {A : Type ℓ} where
  pub take-take-suc : (n : ℕ) (xs : List A) → take n (take (suc n) xs) ≡ take n xs
  take-take-suc zero xs = refl
  take-take-suc (suc n) [] = refl
  take-take-suc (suc n) (x ∷ xs) = ap (λ rest. x ∷ rest) (take-take-suc n xs)

-- An entry whose parent is open, whose name rises and which is not the scratch directory, closes what
-- is deeper and becomes its parent's last name.
pub enter_parent_lem :
    (path : List Bytes) (name : Bytes) (below : List OpenDirectory) (top : OpenDirectory)
    (open_directories : List OpenDirectory)
    → Stands path below top open_directories
    → bytes_ltb top.last_name name ≡ true
    → names_eq (path ++ name ∷ []) (scratch_name ∷ []) ≡ false
    → enter_parent open_directories (path ++ name ∷ [])
      ≡ ok (below ++ record top { last_name = name } ∷ [])
unfolding enter_parent
enter_parent_lem path name below top open_directories stands rises other =
    let names : take (length path) (map (λ (d : OpenDirectory). d.name) (drop 1 open_directories))
        ≡ path =
      take-map_tail (λ (d : OpenDirectory). d.name) (length path) open_directories
      ∙ ap (λ s. map (λ (d : OpenDirectory). d.name) (drop 1 s)) stands.0
      ∙ stands.1 in
    let one_more : length path + 1 ≡ suc (length path) = omega arith in
    rw
      (
        all_but_last-append path name,
        last_name_of-append path name,
        names,
        names_eq_refl path,
        one_more,
        stands.0,
        last_directory-append below top,
        rises,
        other,
        set_last_name-append name below top,
      )
      refl

map-append {ℓ κ} :
    {A : Type ℓ} {B : Type κ} (f : A → B) (xs ys : List A) → map f (xs ++ ys) ≡ map f xs ++ map f ys
map-append f [] ys = refl
map-append f (x ∷ xs) ys = ap (λ rest. f x ∷ rest) (map-append f xs ys)

length-map {ℓ κ} :
    {A : Type ℓ} {B : Type κ} (f : A → B) (xs : List A) → length (map f xs) ≡ length xs
length-map f [] = refl
length-map f (x ∷ xs) = ap suc (length-map f xs)

abbrev pub name_of : OpenDirectory → Bytes
name_of d = d.name

-- The names below the root, with one more directory at the end.
names_after :
    (below : List OpenDirectory) (top next : OpenDirectory)
    → map name_of (drop 1 ((below ++ top ∷ []) ++ next ∷ []))
      ≡ map name_of (drop 1 (below ++ top ∷ [])) ++ next.name ∷ []
names_after [] top next = refl
names_after (b ∷ below) top next = map-append name_of (below ++ top ∷ []) (next ∷ [])

names_renamed :
    (below : List OpenDirectory) (top : OpenDirectory) (name : Bytes)
    → map name_of (drop 1 (below ++ record top { last_name = name } ∷ []))
      ≡ map name_of (drop 1 (below ++ top ∷ []))
names_renamed [] top name = refl
names_renamed (b ∷ below) top name =
    map-append name_of below (record top { last_name = name } ∷ [])
    ∙ sym (map-append name_of below (top ∷ []))

length-names :
    (below : List OpenDirectory) (top : OpenDirectory)
    → length (map name_of (drop 1 (below ++ top ∷ []))) ≡ length below
length-names [] top = refl
length-names (b ∷ below) top =
    length-map name_of (below ++ top ∷ []) ∙ length-append below (top ∷ []) ∙ omega arith

take-all {ℓ} : {A : Type ℓ} (n : ℕ) (xs : List A) → length xs ≡ n → take n xs ≡ xs
take-all zero [] h = refl
take-all zero (x ∷ xs) h = absurd (omega arith)
take-all (suc n) [] h = refl
take-all (suc n) (x ∷ xs) h = ap (λ rest. x ∷ rest) (take-all n xs (omega arith))

module _ (path : List Bytes) (below : List OpenDirectory) (top : OpenDirectory)
    (open_directories : List OpenDirectory) (stands : Stands path below top open_directories)
    (name : Bytes) where
  depth : length below ≡ length path
  depth = sym (length-names below top) ∙ ap length stands.1

  abbrev pub entered : OpenDirectory
  entered = record { path = path ++ name ∷ []; name = name; last_name = [] }

  abbrev pub parents : List OpenDirectory
  parents = below ++ record top { last_name = name } ∷ []

  length-parents : length parents ≡ suc (length path)
  length-parents = length-append below (record top { last_name = name } ∷ []) ∙ omega (arith, depth)

  -- After a file the parent stands with its new last name.
  pub Stands-file : Stands path below (record top { last_name = name }) parents
  Stands-file = (
    take-all (suc (length path)) parents length-parents,
    names_renamed below top name ∙ stands.1,
    stands.2,
  )

  -- After a directory it stands below its parent.
  pub Stands-enter : Stands (path ++ name ∷ []) parents entered (parents ++ entered ∷ [])
  Stands-enter = (
    take-all (suc (length (path ++ name ∷ []))) (parents ++ entered ∷ []) (
        omega (
          arith,
          length-append parents (entered ∷ []),
          length-append path (name ∷ []),
          length-parents,
        )),
    names_after below (record top { last_name = name }) entered
        ∙ ap (λ names. names ++ name ∷ []) (names_renamed below top name ∙ stands.1),
    refl,
  )

  -- And however deep the receiver is below it, the parent still stands.
  pub Stands-leave :
      (last : Bytes) (later : List OpenDirectory)
      → Stands (path ++ name ∷ []) parents (record entered { last_name = last }) later
      → Stands path below (record top { last_name = name }) later
  Stands-leave last later deep =
      let deeper : suc (length (path ++ name ∷ [])) ≡ suc (suc (length path)) =
        omega (arith, length-append path (name ∷ [])) in
      let at_parents : take (suc (length path))
            (parents ++ record entered { last_name = last } ∷ [])
          ≡ parents =
        ap (λ n. take n (parents ++ record entered { last_name = last } ∷ [])) (sym length-parents)
        ∙ take-append parents (record entered { last_name = last } ∷ []) in
      (
        sym (take-take-suc (suc (length path)) later)
            ∙ ap (λ n. take (suc (length path)) (take n later)) (sym deeper)
            ∙ ap (λ s. take (suc (length path)) s) deep.0
            ∙ at_parents,
        names_renamed below top name ∙ stands.1,
        stands.2,
      )
