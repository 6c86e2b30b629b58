-- ===== src/DeckStore/Ownership.antt =====
-- The source of a slug and the talk that stands, through the calls that write the table.
use agent_presentator.Base.{
  ◌≡◌, ◌≢◌, refl, ap, String, false, some, List, [], ◌∷◌, str_eq, if◌then◌else◌, arith, eq_iff, All,
  ◌∙◌,
}
use agent_presentator.Contracts.{Deck}
use agent_presentator.DeckStore
use agent_presentator.DeckStore.{
  DeckRow, Table, deck_of, with_build, with_attempt, carried, new_row, build_of,
}
use agent_presentator.DeckStore.Rows.{row_at, HasUniqueSlugs, put_row, answer-put, row_at-put}
use agent_presentator.DeckStore.Spec.{Command, run, promised, promised_all, marked, row_at-run}

-- The call does not remove the decks of that source.
abbrev pub Spares : String → Command → Type 0
Spares source_id (Command.remove_for_source removed) = removed ≢ source_id
Spares source_id _ = Unit

-- The call does not switch the talk of that slug.
abbrev pub NoSwitch : String → Command → Type 0
NoSwitch slug (Command.put_build switched build) = switched ≢ slug
NoSwitch slug _ = Unit

promised-source :
    (c : Command) (slug : String) (row : DeckRow)
    → Spares row.source_id c
    → (after : DeckRow) × (promised c slug (some row) ≡ some after)
      × (after.source_id ≡ row.source_id)
unfolding carried with_build with_attempt
promised-source (Command.put deck) slug row h =
    (if str_eq deck.slug slug then put_row deck (some row) else row, ground arith, ground arith)
promised-source (Command.put_build switched build) slug row h =
    (if str_eq switched slug then with_build build row else row, ground arith, ground arith)
promised-source (Command.put_attempt tried attempt) slug row h =
    (if str_eq tried slug then with_attempt attempt row else row, ground arith, ground arith)
promised-source (Command.mark_removed_except present source_id at) slug row h =
    (marked present source_id at row, refl, ground arith)
promised-source (Command.remove_for_source removed) slug row h =
    (row, ground (arith, eq_iff row.source_id removed), refl)

promised-talk :
    (c : Command) (slug : String) (row : DeckRow)
    → Spares row.source_id c
    → NoSwitch slug c
    → (after : DeckRow) × (promised c slug (some row) ≡ some after)
      × (after.source_id ≡ row.source_id)
      × ((deck_of after).build ≡ (deck_of row).build)
unfolding carried with_attempt deck_of
promised-talk (Command.put deck) slug row h k = (
  if str_eq deck.slug slug then put_row deck (some row) else row,
  ground arith,
  ground arith,
  ground arith,
)
promised-talk (Command.put_build switched build) slug row h k =
    (row, ground (arith, eq_iff switched slug), refl, refl)
promised-talk (Command.put_attempt tried attempt) slug row h k = (
  if str_eq tried slug then with_attempt attempt row else row,
  ground arith,
  ground arith,
  ground arith,
)
promised-talk (Command.mark_removed_except present source_id at) slug row h k =
    (marked present source_id at row, refl, ground arith, ground arith)
promised-talk (Command.remove_for_source removed) slug row h k =
    (row, ground (arith, eq_iff row.source_id removed), refl, refl)

promised_all-source :
    (commands : List Command) (slug : String) (row : DeckRow)
    → All (Spares row.source_id) commands
    → (after : DeckRow) × (promised_all commands slug (some row) ≡ some after)
      × (after.source_id ≡ row.source_id)
promised_all-source [] slug row h = (row, refl, refl)
promised_all-source (c ∷ commands) slug row h =
    let (mid, is_mid, same) = promised-source c slug row h.0 in
    let (after, is_after, same') = promised_all-source commands slug mid (rw same h.1) in
    (after, ap (promised_all commands slug) is_mid ∙ is_after, same' ∙ same)

promised_all-talk :
    (commands : List Command) (slug : String) (row : DeckRow)
    → All (Spares row.source_id) commands
    → All (NoSwitch slug) commands
    → (after : DeckRow) × (promised_all commands slug (some row) ≡ some after)
      × ((deck_of after).build ≡ (deck_of row).build)
promised_all-talk [] slug row h k = (row, refl, refl)
promised_all-talk (c ∷ commands) slug row h k =
    let (mid, is_mid, same, talk) = promised-talk c slug row h.0 k.0 in
    let (after, is_after, talk') = promised_all-talk commands slug mid (rw same h.1) k.1 in
    (after, ap (promised_all commands slug) is_mid ∙ is_after, talk' ∙ talk)

-- In a table that holds each slug once, a slug stays its source's: calls that do not remove the decks of that source, such as a `put` by
-- another source, leave a row under the slug with the source that it had.
pub source_kept :
    (commands : List Command) (slug : String) (table : Table) (row : DeckRow)
    → HasUniqueSlugs table
    → row_at slug table ≡ some row
    → All (Spares row.source_id) commands
    → (after : DeckRow) × (row_at slug (run commands table) ≡ some after)
      × (after.source_id ≡ row.source_id)
source_kept commands slug table row unique here spares =
    let (after, is_after, same) = promised_all-source commands slug row spares in
    (
      after,
      row_at-run commands slug table unique ∙ ap (promised_all commands slug) here ∙ is_after,
      same,
    )

-- In a table that holds each slug once, the talk that stands stays as it is: taking the deck in again, attempts that begin or fail, marks,
-- switches of other slugs, and removals of other sources leave the build of the row as it was.
pub talk_kept :
    (commands : List Command) (slug : String) (table : Table) (row : DeckRow)
    → HasUniqueSlugs table
    → row_at slug table ≡ some row
    → All (Spares row.source_id) commands
    → All (NoSwitch slug) commands
    → (after : DeckRow) × (row_at slug (run commands table) ≡ some after)
      × ((deck_of after).build ≡ (deck_of row).build)
talk_kept commands slug table row unique here spares same_talk =
    let (after, is_after, talk) = promised_all-talk commands slug row spares same_talk in
    (
      after,
      row_at-run commands slug table unique ∙ ap (promised_all commands slug) here ∙ is_after,
      talk,
    )

-- When `put` answers false, as it does for a slug of another source, the row of every slug is what
-- it was.
pub put_refused :
    (deck : Deck) (table : Table) (j : String)
    → (DeckStore.put deck table).0 ≡ false
    → row_at j (DeckStore.put deck table).1 ≡ row_at j table
put_refused deck table j refused =
    ground (arith, answer-put deck table, row_at-put deck j table, eq_iff deck.slug j)
