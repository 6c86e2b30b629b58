-- ===== src/Refresh/TakenIn.antt =====
-- `_take_in`: which decks a poll leaves listed, and whose.
use agent_presentator.Base.{
  ℕ, ◌+◌, ◌≡◌, refl, ap, ◌∙◌, sym, String, true, false, Option, none, some, List, [], ◌∷◌, str_eq,
  if◌then◌else◌, arith, eq_iff, Option-cases, inl, inr, map,
}
use agent_presentator.Contracts.{Source, Deck, DeckFolder}
use agent_presentator.DeckStore
use agent_presentator.DeckStore.{Table, DeckRow, deck_of, is_listed, is_in, carried, new_row}
use agent_presentator.DeckStore.Rows.{
  row_at, row_at-slug, HasUniqueSlugs, row_at-put, put-HasUniqueSlugs, put_row, map_option,
}
use agent_presentator.DeckStore.Spec.{Command, apply, row_at-apply, apply-HasUniqueSlugs, marked}
use agent_presentator.SourceRuns.{newest, record_run}
use agent_presentator.Refresh.{
  Outside, World, deck_of_folder, take_folder, take_folders, take_deck, take_answer, take_in,
  outcome_of,
}

abbrev pub names : List DeckFolder → List String
names = map (λ (f : DeckFolder). f.name)

pub row_at-mark :
    (present : List String) (s : String) (at : ℕ) (j : String) (table : Table)
    → HasUniqueSlugs table
    → row_at j (DeckStore.mark_removed_except present s at table)
      ≡ map_option (marked present s at) (row_at j table)
unfolding apply
row_at-mark present s at j table h =
    row_at-apply (Command.mark_removed_except present s at) j table h

pub mark-HasUniqueSlugs :
    (present : List String) (s : String) (at : ℕ) (table : Table)
    → HasUniqueSlugs table
    → HasUniqueSlugs (DeckStore.mark_removed_except present s at table)
unfolding apply
mark-HasUniqueSlugs present s at table h =
    apply-HasUniqueSlugs (Command.mark_removed_except present s at) table h

abbrev pub taken : Option Deck → String → Option DeckRow → Option DeckRow
taken none j row = row
taken (some deck) j row = if str_eq deck.slug j then some (put_row deck row) else row

pub row_at-take_deck :
    (deck : Option Deck) (j : String) (table : Table)
    → row_at j (take_deck deck table) ≡ taken deck j (row_at j table)
unfolding take_deck
row_at-take_deck none j table = refl
row_at-take_deck (some deck) j table = row_at-put deck j table

take_deck-HasUniqueSlugs :
    (deck : Option Deck) (table : Table)
    → HasUniqueSlugs table
    → HasUniqueSlugs (take_deck deck table)
unfolding take_deck
take_deck-HasUniqueSlugs none table h = h
take_deck-HasUniqueSlugs (some deck) table h = put-HasUniqueSlugs deck table h

module _ (outside : Outside) (source : Source) where
  -- A folder that counts as a deck is that folder's deck, of this source.
  pub deck_of_folder-some :
      (folder : DeckFolder) (deck : Deck)
      → deck_of_folder outside source folder ≡ some deck
      → (deck.slug ≡ folder.name)
        × (deck.source_id ≡ source.id)
        × (deck.owner_id ≡ source.owner_id)
        × (deck.commit ≡ folder.commit)
        × (folder.title ≡ some deck.title)
        × (deck.build ≡ none)
        × (deck.attempt ≡ none)
  unfolding deck_of_folder
  deck_of_folder-some folder deck e = ground arith

  -- What one folder does to the row of a slug.
  pub row_at-take_folder :
      (folder : DeckFolder) (j : String) (table : Table)
      → row_at j (take_folder outside source folder table)
        ≡ taken (deck_of_folder outside source folder) j (row_at j table)
  unfolding take_folder
  row_at-take_folder folder j table =
      row_at-take_deck (deck_of_folder outside source folder) j table

  pub take_folder-HasUniqueSlugs :
      (folder : DeckFolder) (table : Table)
      → HasUniqueSlugs table
      → HasUniqueSlugs (take_folder outside source folder table)
  unfolding take_folder
  take_folder-HasUniqueSlugs folder table h =
      take_deck-HasUniqueSlugs (deck_of_folder outside source folder) table h

  pub take_folders-HasUniqueSlugs :
      (folders : List DeckFolder) (table : Table)
      → HasUniqueSlugs table
      → HasUniqueSlugs (take_folders outside source folders table)
  unfolding take_folders
  take_folders-HasUniqueSlugs [] table h = h
  take_folders-HasUniqueSlugs (f ∷ folders) table h =
      take_folders-HasUniqueSlugs folders (take_folder outside source f table)
        (take_folder-HasUniqueSlugs f table h)

  -- A slug of another source is left alone.
  take_folder_others :
      (folder : DeckFolder) (j : String) (row : DeckRow) (table : Table)
      → row_at j table ≡ some row
      → str_eq row.source_id source.id ≡ false
      → row_at j (take_folder outside source folder table) ≡ some row
  take_folder_others folder j row table at foreign =
      elim (Option-cases (deck_of_folder outside source folder)) [
        | inl skipped ↦ ground (arith, row_at-take_folder folder j table)
        | inr (deck, e) ↦
            ground (arith, row_at-take_folder folder j table, deck_of_folder-some folder deck e)
      ]

  take_folders_others :
      (folders : List DeckFolder) (j : String) (row : DeckRow) (table : Table)
      → row_at j table ≡ some row
      → str_eq row.source_id source.id ≡ false
      → row_at j (take_folders outside source folders table) ≡ some row
  unfolding take_folders
  take_folders_others [] j row table at foreign = at
  take_folders_others (f ∷ folders) j row table at foreign =
      take_folders_others folders j row (take_folder outside source f table)
        (take_folder_others f j row table at foreign) foreign

  -- A folder of another name leaves the row alone.
  pub take_folders_absent :
      (folders : List DeckFolder) (j : String) (table : Table)
      → is_in (names folders) j ≡ false
      → row_at j (take_folders outside source folders table) ≡ row_at j table
  unfolding take_folders
  take_folders_absent [] j table h = refl
  take_folders_absent (f ∷ folders) j table h =
      take_folders_absent folders j (take_folder outside source f table) (ground arith)
      ∙ (elim (Option-cases (deck_of_folder outside source f)) [
        | inl skipped ↦ ground (arith, row_at-take_folder f j table)
        | inr (deck, e) ↦ ground (arith, row_at-take_folder f j table, deck_of_folder-some f deck e)
      ])

  take_answer-HasUniqueSlugs :
      (at : ℕ) (folders : Option (List DeckFolder)) (table : Table)
      → HasUniqueSlugs table
      → HasUniqueSlugs (take_answer outside source at folders table)
  unfolding take_answer
  take_answer-HasUniqueSlugs at none table h = h
  take_answer-HasUniqueSlugs at (some folders) table h =
      mark-HasUniqueSlugs (names folders) source.id at (take_folders outside source folders table)
        (take_folders-HasUniqueSlugs folders table h)

  pub take_in-HasUniqueSlugs :
      (w : World) → HasUniqueSlugs w.decks → HasUniqueSlugs (take_in outside source w).decks
  unfolding take_in
  take_in-HasUniqueSlugs w h =
      take_answer-HasUniqueSlugs (outside.now w.calls)
        (outside.folders (w.calls + 1) source).folders w.decks h

  take_answer_others :
      (at : ℕ) (folders : Option (List DeckFolder)) (j : String) (row : DeckRow) (table : Table)
      → HasUniqueSlugs table
      → row_at j table ≡ some row
      → str_eq row.source_id source.id ≡ false
      → row_at j (take_answer outside source at folders table) ≡ some row
  unfolding take_answer
  take_answer_others at none j row table h here foreign = here
  take_answer_others at (some folders) j row table h here foreign =
      row_at-mark (names folders) source.id at j (take_folders outside source folders table)
        (take_folders-HasUniqueSlugs folders table h)
      ∙ rw (take_folders_others folders j row table here foreign) (ground arith)

  -- In a table that holds each slug once, taking a source in leaves the row of every deck of
  -- another source exactly as it was.
  pub take_in_others :
      (w : World) (j : String) (row : DeckRow)
      → HasUniqueSlugs w.decks
      → row_at j w.decks ≡ some row
      → str_eq row.source_id source.id ≡ false
      → row_at j (take_in outside source w).decks ≡ some row
  unfolding take_in
  take_in_others w j row h here foreign =
      take_answer_others (outside.now w.calls) (outside.folders (w.calls + 1) source).folders j row
        w.decks h here foreign

  take_answer_unread :
      (at : ℕ) (folders : Option (List DeckFolder)) (table : Table)
      → folders ≡ none
      → take_answer outside source at folders table ≡ table
  unfolding take_answer
  take_answer_unread at none table e = refl
  take_answer_unread at (some folders) table e = cc

  -- After a poll the newest run of the source is the one it wrote: its outcome, the commit reached, the
  -- reason of a failure, and the moment the poll began.
  pub newest-take_in :
      (w : World)
      → let poll = outside.folders (w.calls + 1) source in
        newest source.id (take_in outside source w).runs
        ≡ some (record {
          source_id = source.id;
          at = outside.now w.calls;
          outcome = outcome_of poll;
          commit = poll.commit;
          reason = poll.failure;
        })
  unfolding take_in newest record_run
  newest-take_in w = ground (arith, eq_iff source.id source.id)

  -- A source that nobody could read leaves the whole deck table as it is.
  pub take_in_unread :
      (w : World)
      → (outside.folders (w.calls + 1) source).folders ≡ none
      → (take_in outside source w).decks ≡ w.decks
  unfolding take_in
  take_in_unread w e =
      take_answer_unread (outside.now w.calls) (outside.folders (w.calls + 1) source).folders
        w.decks e

  -- The slugs that a readable poll leaves listed for the source are its folders'.
  take_answer_listed :
      (at : ℕ) (folders : List DeckFolder) (j : String) (row : DeckRow) (table : Table)
      → HasUniqueSlugs table
      → row_at j (take_answer outside source at (some folders) table) ≡ some row
      → str_eq row.source_id source.id ≡ true
      → is_listed row ≡ is_in (names folders) j
  unfolding take_answer
  take_answer_listed at folders j row table h here own =
      let before : Table = take_folders outside source folders table in
      let unique = take_folders-HasUniqueSlugs folders table h in
      let moved = row_at-mark (names folders) source.id at j before unique in
      elim (Option-cases (row_at j before)) [
        | inl absent ↦ absurd (ground (arith, moved))
        | inr (old, is_old) ↦ ground (arith, moved, row_at-slug j before is_old)
      ]

  -- In a table that holds each slug once: after a poll that could be read, a deck of the source is
  -- listed exactly when the poll carried a folder of its name.
  pub take_in_listed :
      (w : World) (folders : List DeckFolder) (j : String) (row : DeckRow)
      → HasUniqueSlugs w.decks
      → (outside.folders (w.calls + 1) source).folders ≡ some folders
      → row_at j (take_in outside source w).decks ≡ some row
      → str_eq row.source_id source.id ≡ true
      → is_listed row ≡ is_in (names folders) j
  unfolding take_in
  take_in_listed w folders j row h e here own =
      take_answer_listed (outside.now w.calls) folders j row w.decks h
        (ap
            (λ (fs : Option (List DeckFolder)).
              row_at j (take_answer outside source (outside.now w.calls) fs w.decks))
            (sym e)
          ∙ here)
        own
