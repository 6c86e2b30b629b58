-- ===== src/Wire/Sorted.antt =====
-- The order of names, and that sorting puts the names of a directory in it.
use agent_presentator.Base.{
  ◌≡◌, ◌≢◌, refl, true, false, List, [], ◌∷◌, All, bytes_ltb, arith, Bool-cases, inl, inr, ◌==◌,
}
use agent_presentator.Wire.{Bytes}
use agent_presentator.Wire.Trees.{Walk, insert_name, sort_names}

pub bytes_ltb_trans :
    (a b c : Bytes) → bytes_ltb a b ≡ true → bytes_ltb b c ≡ true → bytes_ltb a c ≡ true
bytes_ltb_trans [] [] c h k = absurd (ground arith)
bytes_ltb_trans [] (y ∷ b) [] h k = k
bytes_ltb_trans [] (y ∷ b) (z ∷ c) h k = refl
bytes_ltb_trans (x ∷ a) [] c h k = absurd (ground arith)
bytes_ltb_trans (x ∷ a) (y ∷ b) [] h k = k
bytes_ltb_trans (x ∷ a) (y ∷ b) (z ∷ c) h k = ground (arith, bytes_ltb_trans a b c)

bytes_ltb_total : (a b : Bytes) → a ≢ b → bytes_ltb a b ≡ false → bytes_ltb b a ≡ true
bytes_ltb_total [] [] apart h = absurd (apart refl)
bytes_ltb_total [] (y ∷ b) apart h = absurd (ground arith)
bytes_ltb_total (x ∷ a) [] apart h = refl
bytes_ltb_total (x ∷ a) (y ∷ b) apart h = elim (Bool-cases (x == y)) [
  | inl same ↦ ground (arith, bytes_ltb_total a b (λ e. apart (ground arith)))
  | inr other ↦ ground arith
]

pub bytes_ltb-ne : (a b : Bytes) → bytes_ltb a b ≡ true → a ≢ b
bytes_ltb-ne [] b h e = absurd (ground arith)
bytes_ltb-ne (x ∷ a) [] h e = absurd (ground arith)
bytes_ltb-ne (x ∷ a) (y ∷ b) h e = ground (arith, bytes_ltb-ne a b)

-- Each name is below every later one.
abbrev pub Above : Bytes → List (Bytes × Walk) → Type 0
Above name rest = All (λ (o : Bytes × Walk). bytes_ltb name o.0 ≡ true) rest

abbrev pub IsSorted : List (Bytes × Walk) → Type 0
IsSorted [] = Unit
IsSorted ((name, walk) ∷ rest) = Above name rest × IsSorted rest

abbrev pub Apart : Bytes → List (Bytes × Walk) → Type 0
Apart name rest = All (λ (o : Bytes × Walk). name ≢ o.0) rest

abbrev pub AreApart : List (Bytes × Walk) → Type 0
AreApart [] = Unit
AreApart ((name, walk) ∷ rest) = Apart name rest × AreApart rest

-- What holds of all stays so in sorted order.
module _ {κ} (P : Bytes × Walk → Type κ) where
  All-insert_name :
      (name : Bytes) (walk : Walk) (rest : List (Bytes × Walk))
      → P (name, walk)
      → All P rest
      → All P (insert_name (name, walk) rest)
  unfolding insert_name
  All-insert_name name walk [] h k = (h, tt)
  All-insert_name name walk ((other, next) ∷ rest) h k = elim (Bool-cases (bytes_ltb name other)) [
    | inl below ↦ rw below (h, k)
    | inr above ↦ rw above (k.0, All-insert_name name walk rest h k.1)
  ]

  pub All-sort_names : (named : List (Bytes × Walk)) → All P named → All P (sort_names named)
  unfolding sort_names
  All-sort_names [] h = tt
  All-sort_names ((name, walk) ∷ rest) h =
      All-insert_name name walk (sort_names rest) h.0 (All-sort_names rest h.1)

Above-trans :
    (m n : Bytes) (rest : List (Bytes × Walk)) → bytes_ltb m n ≡ true → Above n rest → Above m rest
Above-trans m n [] h k = tt
Above-trans m n ((o, walk) ∷ rest) h k = (bytes_ltb_trans m n o h k.0, Above-trans m n rest h k.1)

insert_name-IsSorted :
    (name : Bytes) (walk : Walk) (rest : List (Bytes × Walk))
    → Apart name rest
    → IsSorted rest
    → IsSorted (insert_name (name, walk) rest)
unfolding insert_name
insert_name-IsSorted name walk [] apart h = (tt, tt)
insert_name-IsSorted name walk ((other, next) ∷ rest) apart h =
    elim (Bool-cases (bytes_ltb name other)) [
      | inl below ↦ rw below ((below, Above-trans name other rest below h.0), h)
      | inr above ↦ rw above (
        All-insert_name (λ (o : Bytes × Walk). bytes_ltb other o.0 ≡ true) name walk rest
            (bytes_ltb_total name other apart.0 above) h.0,
        insert_name-IsSorted name walk rest apart.1 h.1,
      )
    ]

pub sort_names-IsSorted :
    (named : List (Bytes × Walk)) → AreApart named → IsSorted (sort_names named)
unfolding sort_names
sort_names-IsSorted [] apart = tt
sort_names-IsSorted ((name, walk) ∷ rest) apart =
    insert_name-IsSorted name walk (sort_names rest)
      (All-sort_names (λ (o : Bytes × Walk). name ≢ o.0) rest apart.0)
      (sort_names-IsSorted rest apart.1)
