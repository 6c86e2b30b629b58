-- ===== src/DeckStore/Rows.antt =====
-- The table as a map from a slug to its row: what each statement does to the row of one slug.
use agent_presentator.Base.{
  ◌≡◌, refl, String, Bool, true, ◌&&◌, Option, none, some, [], ◌∷◌, str_eq, if◌then◌else◌, find,
  keep, arith, eq_iff, Bool-cases,
}
use agent_presentator.Contracts.{Deck}
use agent_presentator.DeckStore.{
  DeckRow, Table, deck_of, update_where, has_slug, is_listed, carried, new_row, put, get,
}

-- The row that holds a slug: the primary key names at most one.
unfoldable pub row_at : String → Table → Option DeckRow
row_at slug [] = none
row_at slug (row ∷ table) = if has_slug slug row then some row else row_at slug table

-- No two rows hold one slug.
abbrev pub HasUniqueSlugs : Table → Type 0
HasUniqueSlugs [] = Unit
HasUniqueSlugs (row ∷ table) = (row_at row.slug table ≡ none) × HasUniqueSlugs table

abbrev pub map_option {ℓ κ} : {A : Type ℓ} {B : Type κ} → (A → B) → Option A → Option B
map_option f none = none
map_option f (some a) = some (f a)

abbrev pub filter_option {ℓ} : {A : Type ℓ} → (A → Bool) → Option A → Option A
filter_option p none = none
filter_option p (some a) = if p a then some a else none

-- What `put` leaves under the slug that it writes.
abbrev pub put_row : Deck → Option DeckRow → DeckRow
put_row deck none = new_row deck
put_row deck (some row) = if str_eq row.source_id deck.source_id then carried deck row else row

-- What `put` answers.
abbrev pub put_answer : Deck → Option DeckRow → Bool
put_answer deck none = true
put_answer deck (some row) = str_eq row.source_id deck.source_id

pub row_at-slug :
    (slug : String) (table : Table) {row : DeckRow} → row_at slug table ≡ some row → row.slug ≡ slug
unfolding row_at
row_at-slug slug [] e = cc
row_at-slug slug (head ∷ table) {row = r} e =
    ground
      (arith, eq_iff head.slug slug, λ (q : row_at slug table ≡ some r). row_at-slug slug table q)

-- An update that leaves the slugs alone changes the row of a slug where its condition holds.
module _ (p : DeckRow → Bool) (f : DeckRow → DeckRow)
    (same : (row : DeckRow) → (f row).slug ≡ row.slug) where
  pub row_at-update_where :
      (j : String) (table : Table)
      → row_at j (update_where p f table)
        ≡ map_option (λ row. if p row then f row else row) (row_at j table)
  unfolding row_at
  row_at-update_where j [] = refl
  row_at-update_where j (row ∷ table) =
      ground (arith, same row, row_at-update_where j table, Bool-cases (p row))

  pub update_where-HasUniqueSlugs :
      (table : Table) → HasUniqueSlugs table → HasUniqueSlugs (update_where p f table)
  update_where-HasUniqueSlugs [] h = tt
  update_where-HasUniqueSlugs (row ∷ table) h = (
    ground (arith, same row, row_at-update_where row.slug table, Bool-cases (p row)),
    update_where-HasUniqueSlugs table h.1,
  )

slug-carried : (deck : Deck) (row : DeckRow) → (carried deck row).slug ≡ row.slug
unfolding carried
slug-carried deck row = refl

slug-new_row : (deck : Deck) → (new_row deck).slug ≡ deck.slug
unfolding new_row
slug-new_row deck = refl

pub row_at-put :
    (deck : Deck) (j : String) (table : Table)
    → row_at j (put deck table).1
      ≡ (if str_eq deck.slug j then some (put_row deck (row_at j table)) else row_at j table)
unfolding row_at put
row_at-put deck j [] = rw (slug-new_row deck)
row_at-put deck j (row ∷ table) = ground (
  arith,
  slug-carried deck row,
  row_at-put deck j table,
  eq_iff row.slug deck.slug,
  eq_iff row.slug j,
  eq_iff deck.slug j,
)

pub answer-put :
    (deck : Deck) (table : Table) → (put deck table).0 ≡ put_answer deck (row_at deck.slug table)
unfolding row_at put
answer-put deck [] = refl
answer-put deck (row ∷ table) = ground (arith, answer-put deck table)

pub put-HasUniqueSlugs :
    (deck : Deck) (table : Table) → HasUniqueSlugs table → HasUniqueSlugs (put deck table).1
unfolding put row_at
put-HasUniqueSlugs deck [] h = (refl, tt)
put-HasUniqueSlugs deck (row ∷ table) h = ground (
  arith,
  slug-carried deck row,
  put-HasUniqueSlugs deck table h.1,
  row_at-put deck row.slug table,
  eq_iff row.slug deck.slug,
  eq_iff deck.slug row.slug,
)

row_at-keep-none :
    (p : DeckRow → Bool) (j : String) (table : Table)
    → row_at j table ≡ none
    → row_at j (keep p table) ≡ none
unfolding row_at
row_at-keep-none p j [] h = refl
row_at-keep-none p j (row ∷ table) h = ground (arith, row_at-keep-none p j table)

pub row_at-keep :
    (p : DeckRow → Bool) (j : String) (table : Table)
    → HasUniqueSlugs table
    → row_at j (keep p table) ≡ filter_option p (row_at j table)
unfolding row_at
row_at-keep p j [] h = refl
row_at-keep p j (row ∷ table) h =
    ground (arith, row_at-keep p j table h.1, row_at-keep-none p j table, eq_iff row.slug j)

pub keep-HasUniqueSlugs :
    (p : DeckRow → Bool) (table : Table) → HasUniqueSlugs table → HasUniqueSlugs (keep p table)
keep-HasUniqueSlugs p [] h = tt
keep-HasUniqueSlugs p (row ∷ table) h =
    ground (arith, keep-HasUniqueSlugs p table h.1, row_at-keep-none p row.slug table h.0)

find-none :
    (slug : String) (table : Table)
    → row_at slug table ≡ none
    → find (λ (row : DeckRow). is_listed row && has_slug slug row) table ≡ none
unfolding row_at
find-none slug [] h = refl
find-none slug (row ∷ table) h = ground (arith, find-none slug table)

find-row_at :
    (slug : String) (table : Table)
    → HasUniqueSlugs table
    → find (λ (row : DeckRow). is_listed row && has_slug slug row) table
      ≡ filter_option is_listed (row_at slug table)
unfolding row_at
find-row_at slug [] h = refl
find-row_at slug (row ∷ table) h =
    ground (arith, find-row_at slug table h.1, find-none slug table, eq_iff row.slug slug)

-- `get` reads the row of the slug, unless it is marked removed.
pub get-row_at :
    (slug : String) (table : Table)
    → HasUniqueSlugs table
    → get slug table ≡ map_option deck_of (filter_option is_listed (row_at slug table))
unfolding get
get-row_at slug table h = ground (arith, find-row_at slug table h)
