-- ===== src/Refresh/Carried.antt =====
-- `_take_in`: what becomes of a folder that carries a manifest and slides.
use agent_presentator.Base.{
  ℕ, ◌+◌, ◌≡◌, refl, ap, ◌∙◌, String, true, false, Option, none, some, List, [], ◌∷◌, ◌++◌, str_eq,
  any, arith, eq_iff, Option-cases, inl, inr,
}
use agent_presentator.Contracts.{Source, Deck, DeckFolder}
use agent_presentator.FolderName.{is_a_plain_folder_name}
use agent_presentator.DeckStore
use agent_presentator.DeckStore.{Table, DeckRow, deck_of, is_listed, is_in, carried, new_row}
use agent_presentator.DeckStore.Rows.{
  row_at, row_at-slug, HasUniqueSlugs, put_row, map_option, filter_option, get-row_at,
}
use agent_presentator.DeckStore.Spec.{marked}
use agent_presentator.Refresh.{
  Outside, World, slides_file, deck_of_folder, take_folder, take_folders, take_answer, take_in,
}
use agent_presentator.Refresh.TakenIn.{
  names, row_at-mark, mark-HasUniqueSlugs, deck_of_folder-some, row_at-take_folder,
  take_folders-HasUniqueSlugs, take_folders_absent,
}

-- The slug is free, or already of the source.
abbrev pub IsOpenTo : Source → Option DeckRow → Type 0
IsOpenTo source none = Unit
IsOpenTo source (some row) = str_eq row.source_id source.id ≡ true

abbrev HasSlug : String → Option DeckRow → Type 0
HasSlug slug none = Unit
HasSlug slug (some row) = row.slug ≡ slug

-- The folder's deck, with the talk and the attempt that stood under its slug.
abbrev pub deck_taken : Deck → Option DeckRow → Deck
deck_taken deck none = deck
deck_taken deck (some row) = record deck {
  build = (deck_of row).build;
  attempt = (deck_of row).attempt;
}

is_in-append :
    (xs ys : List DeckFolder) (j : String)
    → is_in (names ys) j ≡ true
    → is_in (names (xs ++ ys)) j ≡ true
is_in-append [] ys j h = h
is_in-append (x ∷ xs) ys j h = ground (arith, is_in-append xs ys j h)

module _ (outside : Outside) (source : Source) where
  take_folders-append :
      (xs ys : List DeckFolder) (table : Table)
      → take_folders outside source (xs ++ ys) table
        ≡ take_folders outside source ys (take_folders outside source xs table)
  unfolding take_folders
  take_folders-append [] ys table = refl
  take_folders-append (f ∷ xs) ys table =
      take_folders-append xs ys (take_folder outside source f table)

  -- The deck that a folder with a title is, under its source.
  abbrev pub folder_deck : DeckFolder → String → Deck
  folder_deck f title = record {
    slug = f.name;
    title = title;
    changed_at = f.changed_at;
    owner_id = source.owner_id;
    source_id = source.id;
    commit = f.commit;
    build = none;
    attempt = none;
  }

  -- Its name is plain, its manifest has the title, and the slides are there.
  abbrev pub Counts : DeckFolder → String → Type 0
  Counts f title =
      (is_a_plain_folder_name outside.printable f.name ≡ true)
      × (f.title ≡ some title)
      × (any (str_eq slides_file) f.file_names ≡ true)

  Counts-deck :
      (f : DeckFolder) (title : String)
      → Counts f title
      → deck_of_folder outside source f ≡ some (folder_deck f title)
  unfolding deck_of_folder
  Counts-deck f title h = rw (h.0, h.1, h.2) refl

  module _ (before after : List DeckFolder) (f : DeckFolder) (title : String)
      (counted : Counts f title) (fresh : is_in (names before) f.name ≡ false)
      (once : is_in (names after) f.name ≡ false) where
    abbrev deck : Deck
    deck = folder_deck f title

    counts : deck_of_folder outside source f ≡ some deck
    counts = Counts-deck f title counted

    row_at-take_folders :
        (table : Table)
        → row_at f.name (take_folders outside source (before ++ f ∷ after) table)
          ≡ some (put_row deck (row_at f.name table))
    unfolding take_folders
    row_at-take_folders table =
        let mid : Table = take_folders outside source before table in
        ap (row_at f.name) (take_folders-append before (f ∷ after) table)
        ∙ take_folders_absent outside source after f.name (take_folder outside source f mid) once
        ∙ row_at-take_folder outside source f f.name mid
        ∙ rw (counts, take_folders_absent outside source before f.name table fresh)
            (ground
              (arith, deck_of_folder-some outside source f deck counts, eq_iff deck.slug f.name))

    slug_of : (table : Table) → HasSlug f.name (row_at f.name table)
    slug_of table = elim (Option-cases (row_at f.name table)) [
      | inl absent ↦ rw absent tt
      | inr (row, e) ↦ rw e (row_at-slug f.name table e)
    ]

    present-f : is_in (names (before ++ f ∷ after)) f.name ≡ true
    present-f = is_in-append before (f ∷ after) f.name (ground (arith, eq_iff f.name f.name))

    -- The row that the mark leaves, listed and with the folder's deck.
    shown_row :
        (at : ℕ) (old : Option DeckRow)
        → IsOpenTo source old
        → HasSlug f.name old
        → (is_listed (marked (names (before ++ f ∷ after)) source.id at (put_row deck old)) ≡ true)
          × (deck_of (marked (names (before ++ f ∷ after)) source.id at (put_row deck old))
              ≡ deck_taken deck old)
    unfolding new_row carried deck_of
    shown_row at none open_to e =
        let facts = deck_of_folder-some outside source f deck counts in
        (
          ground (arith, facts, present-f, eq_iff deck.source_id source.id),
          ground (arith, facts, present-f, eq_iff deck.source_id source.id),
        )
    shown_row at (some row) open_to e =
        let facts = deck_of_folder-some outside source f deck counts in
        (
          ground (
            arith,
            facts,
            present-f,
            eq_iff row.source_id deck.source_id,
            eq_iff row.source_id source.id,
          ),
          ground (
            arith,
            facts,
            present-f,
            eq_iff row.source_id deck.source_id,
            eq_iff row.source_id source.id,
          ),
        )

    -- In a table that holds each slug once: a folder with a plain name, a title in its manifest
    -- and slides, whose name no other folder of the poll has and no other source's deck holds, is
    -- afterwards the deck under its name: listed, with the title, commit and date of change of the folder, with the owner
    -- and the identifier of the source, and with the talk and the attempt that stood there before.
    pub get-take_in :
        (w : World)
        → HasUniqueSlugs w.decks
        → (outside.folders (w.calls + 1) source).folders ≡ some (before ++ f ∷ after)
        → IsOpenTo source (row_at f.name w.decks)
        → DeckStore.get f.name (take_in outside source w).decks
          ≡ some (deck_taken (folder_deck f title) (row_at f.name w.decks))
    unfolding take_in take_answer
    get-take_in w h poll open_to =
        let at : ℕ = outside.now w.calls in
        let taken_decks : Table = take_folders outside source (before ++ f ∷ after) w.decks in
        let result : Table =
          DeckStore.mark_removed_except (names (before ++ f ∷ after)) source.id at taken_decks in
        let unique : HasUniqueSlugs taken_decks =
          take_folders-HasUniqueSlugs outside source (before ++ f ∷ after) w.decks h in
        let found =
          row_at-mark (names (before ++ f ∷ after)) source.id at f.name taken_decks unique
          ∙ ap (map_option (marked (names (before ++ f ∷ after)) source.id at))
              (row_at-take_folders w.decks) in
        let (listed, shown) = shown_row at (row_at f.name w.decks) open_to (slug_of w.decks) in
        let got =
          get-row_at f.name result
            (mark-HasUniqueSlugs (names (before ++ f ∷ after)) source.id at taken_decks unique) in
        rw poll (
          got
          ∙ ap (λ (o : Option DeckRow). map_option deck_of (filter_option is_listed o)) found
          ∙ rw listed (ap some shown))
