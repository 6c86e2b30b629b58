-- ===== src/Wire/Names.antt =====
-- Paths as lists of names: when one begins with another.
use agent_presentator.Base.{
  ◌≡◌, ◌≢◌, refl, ap, Bool, true, false, ◌&&◌, List, [], ◌∷◌, ◌++◌, any, All, bytes_eq,
  bytes_eq_refl, bytes_eq→eq, arith, Bool-cases, inl, inr,
}
use agent_presentator.Wire.{Bytes}
use agent_presentator.Wire.Trees.{TreeEntry}
use agent_presentator.Wire.Receiving.{names_eq, all_but_last, last_name_of}

-- Whether a path is `prefix` or lies below it.
abbrev pub starts_with : List Bytes → List Bytes → Bool
starts_with [] path = true
starts_with (a ∷ prefix) [] = false
starts_with (a ∷ prefix) (b ∷ path) = bytes_eq a b && starts_with prefix path

-- Nothing of the disk is the path or lies below it.
abbrev pub Fresh : List Bytes → List TreeEntry → Type 0
Fresh path disk = All (λ (e : TreeEntry). starts_with path e.components ≡ false) disk

abbrev pub Under : List Bytes → List TreeEntry → Type 0
Under path entries = All (λ (e : TreeEntry). starts_with path e.components ≡ true) entries

pub names_eq_refl : (names : List Bytes) → names_eq names names ≡ true
names_eq_refl [] = refl
names_eq_refl (name ∷ names) = ground (arith, bytes_eq_refl name, names_eq_refl names)

pub starts_with_itself : (path : List Bytes) → starts_with path path ≡ true
starts_with_itself [] = refl
starts_with_itself (name ∷ path) = ground (arith, bytes_eq_refl name, starts_with_itself path)

pub starts_with-append :
    (path below target : List Bytes)
    → starts_with (path ++ below) target ≡ true
    → starts_with path target ≡ true
starts_with-append [] below target h = refl
starts_with-append (a ∷ path) below [] h = h
starts_with-append (a ∷ path) below (b ∷ target) h =
    ground (arith, starts_with-append path below target)

pub starts_with_longer :
    (path : List Bytes) (name : Bytes) → starts_with (path ++ name ∷ []) path ≡ false
starts_with_longer [] name = refl
starts_with_longer (a ∷ path) name = ground (arith, starts_with_longer path name)

pub starts_with_same :
    (path : List Bytes) (m n : Bytes) (target : List Bytes)
    → starts_with (path ++ m ∷ []) target ≡ true
    → starts_with (path ++ n ∷ []) target ≡ true
    → m ≡ n
starts_with_same [] m n [] h k = absurd (ground arith)
starts_with_same [] m n (b ∷ target) h k = ground (arith, bytes_eq→eq m b, bytes_eq→eq n b)
starts_with_same (a ∷ path) m n [] h k = absurd (ground arith)
starts_with_same (a ∷ path) m n (b ∷ target) h k =
    starts_with_same path m n target (ground arith) (ground arith)

names_eq-starts_with :
    (names path : List Bytes) → names_eq names path ≡ true → starts_with path names ≡ true
names_eq-starts_with [] [] h = refl
names_eq-starts_with [] (b ∷ path) h = h
names_eq-starts_with (a ∷ names) [] h = refl
names_eq-starts_with (a ∷ names) (b ∷ path) h =
    ground (arith, names_eq-starts_with names path, bytes_eq→eq a b, bytes_eq_refl b)

-- A fresh path is not on the disk.
pub Fresh-absent :
    (path : List Bytes) (disk : List TreeEntry)
    → Fresh path disk
    → any (λ (other : TreeEntry). names_eq other.components path) disk ≡ false
Fresh-absent path [] h = refl
Fresh-absent path (e ∷ disk) h =
    ground (arith, Fresh-absent path disk h.1, names_eq-starts_with e.components path)

pub Fresh-below :
    (path : List Bytes) (name : Bytes) (disk : List TreeEntry)
    → Fresh path disk
    → Fresh (path ++ name ∷ []) disk
Fresh-below path name [] h = tt
Fresh-below path name (e ∷ disk) h = (
  ground (arith, starts_with-append path (name ∷ []) e.components),
  Fresh-below path name disk h.1,
)

-- What lies below one name is fresh for another.
pub Under-Fresh :
    (path : List Bytes) (m n : Bytes) (entries : List TreeEntry)
    → m ≢ n
    → Under (path ++ m ∷ []) entries
    → Fresh (path ++ n ∷ []) entries
Under-Fresh path m n [] apart h = tt
Under-Fresh path m n (e ∷ entries) apart h = (
  elim (Bool-cases (starts_with (path ++ n ∷ []) e.components)) [
    | inl both ↦ absurd (apart (starts_with_same path m n e.components h.0 both))
    | inr fresh ↦ fresh
  ],
  Under-Fresh path m n entries apart h.1,
)

pub Under-above :
    (path : List Bytes) (name : Bytes) (entries : List TreeEntry)
    → Under (path ++ name ∷ []) entries
    → Under path entries
Under-above path name [] h = tt
Under-above path name (e ∷ entries) h =
    (starts_with-append path (name ∷ []) e.components h.0, Under-above path name entries h.1)

-- A path ends in its last name.
pub all_but_last-append :
    (path : List Bytes) (name : Bytes) → all_but_last (path ++ name ∷ []) ≡ path
all_but_last-append [] name = refl
all_but_last-append (a ∷ []) name = refl
all_but_last-append (a ∷ b ∷ path) name =
    ap (λ rest. a ∷ rest) (all_but_last-append (b ∷ path) name)

pub last_name_of-append :
    (path : List Bytes) (name : Bytes) → last_name_of (path ++ name ∷ []) ≡ name
last_name_of-append [] name = refl
last_name_of-append (a ∷ []) name = refl
last_name_of-append (a ∷ b ∷ path) name = last_name_of-append (b ∷ path) name
