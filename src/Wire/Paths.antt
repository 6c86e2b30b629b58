-- ===== src/Wire/Paths.antt =====
-- `path_components` and `_read_path`: the path of an entry.
use agent_presentator.Base.{
  ℕ, ◌≡◌, refl, sym, ap, ◌∙◌, Bool, false, not, ◌&&◌, ◌||◌, List, [], ◌∷◌, ◌++◌, leb, ltb, ◌==◌,
  if◌then◌else◌, any, All, length, arith, append_assoc, append-nil, bytes_eq, of_big_endian,
  Bool-cases, inl, inr,
}
use agent_presentator.Wire.{
  Result, ok, refused, ◌>>=◌, ◌>>◌, ensure, Bytes, maximum_path_bytes, maximum_depth,
  maximum_name_bytes,
}
use agent_presentator.Wire.Reading.{read_exactly}

-- `raw.split(b"/")`, with the component that is being read
abbrev pub split_from : Bytes → Bytes → List Bytes
split_from component [] = component ∷ []
split_from component (b ∷ raw) =
    if b == 47 then component ∷ split_from [] raw else split_from (component ++ b ∷ []) raw

abbrev pub split : Bytes → List Bytes
split raw = split_from [] raw

-- `b"/".join(components)`
abbrev pub join : List Bytes → Bytes
join [] = []
join (component ∷ []) = component
join (component ∷ next ∷ components) = component ++ 47 ∷ join (next ∷ components)

-- `_path_length_allowed`
abbrev pub path_length_allowed : ℕ → Bool
path_length_allowed n = leb 1 n && leb n maximum_path_bytes

-- `component in {b"", b".", b".."} or b"\0" in component or len(component) > MAXIMUM_NAME_BYTES`
abbrev pub is_refused_name : Bytes → Bool
is_refused_name component =
    (bytes_eq component [] || (bytes_eq component (46 ∷ []) || bytes_eq component (46 ∷ 46 ∷ [])))
    || (any (λ b. b == 0) component || ltb maximum_name_bytes (length component))

-- `path_components`
unfoldable pub path_components : Bytes → Result (List Bytes)
path_components raw =
    let components = split raw in
    if not (path_length_allowed (length raw))
      || (ltb maximum_depth (length components) || any is_refused_name components)
    then refused
    else ok components

-- `_read_path`
unfoldable pub read_path : (ℕ → ℕ → ℕ) → Bytes → Result (List Bytes × Bytes)
unfolding path_components
read_path chunk bytes = do
  (size, after) ← read_exactly chunk 2 bytes
  ensure (path_length_allowed (of_big_endian 0 size))
  (raw, rest) ← read_exactly chunk (of_big_endian 0 size) after
  components ← path_components raw
  ok (components, rest)

-- A name that a directory can hold: no slash in it.
abbrev pub HasNoSlash : Bytes → Type 0
HasNoSlash name = any (λ b. b == 47) name ≡ false

split_from-name :
    (name component : Bytes) (components : List Bytes)
    → HasNoSlash name
    → split_from component (name ++ 47 ∷ join components)
      ≡ (component ++ name) ∷ split (join components)
split_from-name [] component components h =
    ap (λ c. c ∷ split (join components)) (sym (append-nil component))
split_from-name (b ∷ name) component components h = ground (
  arith,
  split_from-name name (component ++ b ∷ []) components,
  append_assoc component (b ∷ []) name,
)

split_from-last :
    (name component : Bytes)
    → HasNoSlash name
    → split_from component name ≡ (component ++ name) ∷ []
split_from-last [] component h = ap (λ c. c ∷ []) (sym (append-nil component))
split_from-last (b ∷ name) component h =
    ground (arith, split_from-last name (component ++ b ∷ []), append_assoc component (b ∷ []) name)

pub split-join :
    (name : Bytes) (components : List Bytes)
    → All HasNoSlash (name ∷ components)
    → split (join (name ∷ components)) ≡ name ∷ components
split-join name [] h = split_from-last name [] h.0
split-join name (next ∷ components) h =
    split_from-name name [] (next ∷ components) h.0
    ∙ ap (λ rest. name ∷ rest) (split-join next components h.1)

join-split_next :
    (raw component before : Bytes)
    → join (before ∷ split_from component raw) ≡ before ++ 47 ∷ join (split_from component raw)
join-split_next [] component before = refl
join-split_next (b ∷ raw) component before = elim (Bool-cases (b == 47)) [
  | inl slash ↦ rw slash refl
  | inr other ↦ rw other (join-split_next raw (component ++ b ∷ []) before)
]

join-split_from : (raw component : Bytes) → join (split_from component raw) ≡ component ++ raw
join-split_from [] component = sym (append-nil component)
join-split_from (b ∷ raw) component = elim (Bool-cases (b == 47)) [
  | inl slash ↦ ground (arith, join-split_next raw [] component, join-split_from raw [])
  | inr other ↦
      rw other (join-split_from raw (component ++ b ∷ []) ∙ append_assoc component (b ∷ []) raw)
]

-- The names of a path that is taken, joined again, are the path: no two paths name one entry.
pub join-path_components :
    (raw : Bytes) (components : List Bytes)
    → path_components raw ≡ ok components
    → join components ≡ raw
unfolding path_components
join-path_components raw components e = ground (arith, join-split_from raw [])
