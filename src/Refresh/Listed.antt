-- ===== src/Refresh/Listed.antt =====
-- The decks that a pass reads at its start: they stand in the table, apart from one another.
use agent_presentator.Base.{
  ◌≡◌, refl, String, Bool, true, false, Option, none, some, List, [], ◌∷◌, str_eq, arith, eq_iff,
  Bool-cases, inl, inr, ◌⊎◌, All,
}
use agent_presentator.Contracts.{Source, Deck}
use agent_presentator.DeckStore
use agent_presentator.DeckStore.{Table, DeckRow, deck_of, is_listed, has_slug}
use agent_presentator.DeckStore.Rows.{row_at, HasUniqueSlugs}
use agent_presentator.Refresh.OneDeck.{is_settled}
use agent_presentator.Refresh.Outcome.{Holds}

abbrev pub is_own : Source → Deck → Bool
is_own source deck = str_eq deck.source_id source.id

-- The deck is one of the list.
abbrev pub Among : Deck → List Deck → Type 0
Among deck [] = ⊥
Among deck (d ∷ decks) = (deck ≡ d) ⊎ Among deck decks

-- Each deck of the list stands in the table as the list has it.
abbrev pub Current : Table → List Deck → Type 0
Current table = All (λ d. Holds d.slug d table)

-- No two decks of the list share a slug.
abbrev pub Apart : List Deck → Type 0
Apart [] = Unit
Apart (d ∷ decks) = All (λ (e : Deck). str_eq d.slug e.slug ≡ false) decks × Apart decks

-- Every listed deck of the source has nothing to build.
abbrev pub AllSettled : Source → Table → Type 0
AllSettled source table =
    (j : String) (row : DeckRow)
    → row_at j table ≡ some row
    → is_listed row ≡ true
    → is_own source (deck_of row) ≡ true
    → is_settled (deck_of row) ≡ true

-- ... or is still in the list.
abbrev pub Pending : Source → List Deck → Table → Type 0
Pending source decks table =
    (j : String) (row : DeckRow)
    → row_at j table ≡ some row
    → is_listed row ≡ true
    → is_own source (deck_of row) ≡ true
    → (is_settled (deck_of row) ≡ true) ⊎ Among (deck_of row) decks

pub some_eq : {row row' : DeckRow} (o : Option DeckRow) → o ≡ some row → o ≡ some row' → row ≡ row'
some_eq o e e' = cc

-- The decks that `all` reads.
pub Holds-cons :
    (row : DeckRow) (table : Table) (slug : String) (deck : Deck)
    → row_at row.slug table ≡ none
    → Holds slug deck table
    → Holds slug deck (row ∷ table) × (str_eq row.slug slug ≡ false)
unfolding row_at
Holds-cons row table slug deck fresh here =
    let apart : str_eq row.slug slug ≡ false = ground (arith, eq_iff row.slug slug, here.1) in
    ((here.0, rw apart here.1, here.2), apart)

pub All-map :
    {P Q : Deck → Type 0} (decks : List Deck) → ((d : Deck) → P d → Q d) → All P decks → All Q decks
All-map [] f h = tt
All-map (d ∷ decks) f h = (f d h.0, All-map decks f h.1)

pub Current-all : (table : Table) → HasUniqueSlugs table → Current table (DeckStore.all table)
unfolding DeckStore.all row_at
Current-all [] h = tt
Current-all (row ∷ table) h =
    let rest : Current (row ∷ table) (DeckStore.all table) =
      All-map (DeckStore.all table) (λ d here. (Holds-cons row table d.slug d h.0 here).0)
        (Current-all table h.1) in
    let first : Holds (deck_of row).slug (deck_of row) (row ∷ table) =
      (row, ground (arith, eq_iff row.slug row.slug), refl) in
    elim (Bool-cases (is_listed row)) [
      | inl listed ↦ rw listed (first, rest)
      | inr removed ↦ rw removed rest
    ]

pub Apart-all : (table : Table) → HasUniqueSlugs table → Apart (DeckStore.all table)
unfolding DeckStore.all
Apart-all [] h = tt
Apart-all (row ∷ table) h = elim (Bool-cases (is_listed row)) [
  | inl listed ↦ rw listed (
    All-map (DeckStore.all table) (λ d here. (Holds-cons row table d.slug d h.0 here).1)
        (Current-all table h.1),
    Apart-all table h.1,
  )
  | inr removed ↦ rw removed (Apart-all table h.1)
]

pub Among-all :
    (j : String) (row : DeckRow) (table : Table)
    → row_at j table ≡ some row
    → is_listed row ≡ true
    → Among (deck_of row) (DeckStore.all table)
unfolding DeckStore.all row_at
Among-all j row [] e listed = cc
Among-all j row (head ∷ table) e listed = elim (Bool-cases (has_slug j head)) [
  | inl here ↦ let same : head ≡ row = ground arith in rw (same, listed) (inl refl)
  | inr there ↦ elim (Bool-cases (is_listed head)) [
    | inl l ↦ rw l (inr (Among-all j row table (ground arith) listed))
    | inr r ↦ rw r (Among-all j row table (ground arith) listed)
  ]
]

-- What holds of the deck of each listed row holds of each deck that `all` reads.
pub All-all :
    (P : Deck → Type 0) (table : Table)
    → HasUniqueSlugs table
    → ((j : String) (row : DeckRow)
        → row_at j table ≡ some row
        → is_listed row ≡ true
        → P (deck_of row))
    → All P (DeckStore.all table)
unfolding DeckStore.all row_at
All-all P [] h f = tt
All-all P (head ∷ table) h f =
    let rest : All P (DeckStore.all table) = All-all P table h.1 (λ j row at listed.
      let apart : has_slug j head ≡ false = ground (arith, eq_iff head.slug j, h.0) in
      f j row (rw apart at) listed) in
    elim (Bool-cases (is_listed head)) [
      | inl listed ↦
          rw listed (f head.slug head (ground (arith, eq_iff head.slug head.slug)) listed, rest)
      | inr removed ↦ rw removed rest
    ]
