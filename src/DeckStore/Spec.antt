-- ===== src/DeckStore/Spec.antt =====
-- The statements of SqliteDeckStore as calls on a map from slugs to rows.
use agent_presentator.Base.{
  ℕ, ◌≡◌, refl, ap, String, not, Option, none, some, List, [], ◌∷◌, str_eq, if◌then◌else◌, arith,
  eq_iff, Option-cases, ◌∙◌, option_or,
}
use agent_presentator.Contracts.{Deck, Build, BuildAttempt}
use agent_presentator.DeckStore
use agent_presentator.DeckStore.{
  DeckRow, Table, has_slug, with_build, with_attempt, is_in, gone, back, update_where, deck_of,
  is_listed, carried, new_row,
}
use agent_presentator.DeckStore.Rows.{
  row_at, HasUniqueSlugs, put_row, map_option, filter_option, row_at-put, row_at-update_where,
  update_where-HasUniqueSlugs, put-HasUniqueSlugs, row_at-keep, keep-HasUniqueSlugs,
}

-- The calls that write the table.
pub data Command : Type 0 where
  put : Deck → Command
  put_build : String → Build → Command
  put_attempt : String → BuildAttempt → Command
  mark_removed_except : List String → String → ℕ → Command
  remove_for_source : String → Command

unfoldable pub apply : Command → Table → Table
apply (put deck) table = (DeckStore.put deck table).1
apply (put_build slug build) table = DeckStore.put_build slug build table
apply (put_attempt slug attempt) table = DeckStore.put_attempt slug attempt table
apply (mark_removed_except present source_id at) table =
    DeckStore.mark_removed_except present source_id at table
apply (remove_for_source source_id) table = DeckStore.remove_for_source source_id table

unfoldable pub run : List Command → Table → Table
unfolding apply
run [] table = table
run (c ∷ commands) table = run commands (apply c table)

-- A row of the source is marked when its folder is gone, keeping an older mark, and loses the mark
-- when its folder is there.
abbrev pub marked : List String → String → ℕ → DeckRow → DeckRow
marked present source_id at row =
    if str_eq row.source_id source_id
    then record row {
      removed_at = if is_in present row.slug then none else some (option_or row.removed_at at);
    }
    else row

-- What each call does to the row under a slug, from that row alone.
abbrev pub promised : Command → String → Option DeckRow → Option DeckRow
promised (put deck) j row = if str_eq deck.slug j then some (put_row deck row) else row
promised (put_build slug build) j row =
    if str_eq slug j then map_option (with_build build) row else row
promised (put_attempt slug attempt) j row =
    if str_eq slug j then map_option (with_attempt attempt) row else row
promised (mark_removed_except present source_id at) j row =
    map_option (marked present source_id at) row
promised (remove_for_source source_id) j row =
    filter_option (λ r. not (str_eq r.source_id source_id)) row

abbrev pub promised_all : List Command → String → Option DeckRow → Option DeckRow
promised_all [] j row = row
promised_all (c ∷ commands) j row = promised_all commands j (promised c j row)

slug-with_build : (build : Build) (row : DeckRow) → (with_build build row).slug ≡ row.slug
unfolding with_build
slug-with_build build row = refl

slug-with_attempt :
    (attempt : BuildAttempt) (row : DeckRow) → (with_attempt attempt row).slug ≡ row.slug
unfolding with_attempt
slug-with_attempt attempt row = refl

-- An update of the row of one slug.
module _ (slug j : String) (f : DeckRow → DeckRow)
    (same : (row : DeckRow) → (f row).slug ≡ row.slug) where
  row_at-update_slug :
      (table : Table)
      → row_at j (update_where (has_slug slug) f table)
        ≡ (if str_eq slug j then map_option f (row_at j table) else row_at j table)
  unfolding row_at
  row_at-update_slug [] = ground arith
  row_at-update_slug (row ∷ table) = ground (
    arith,
    same row,
    row_at-update_slug table,
    eq_iff row.slug slug,
    eq_iff row.slug j,
    eq_iff slug j,
  )

module _ (present : List String) (source_id : String) (at : ℕ) where
  abbrev unmark : DeckRow → DeckRow
  unmark row = record row { removed_at = none }

  abbrev mark : DeckRow → DeckRow
  mark row = record row { removed_at = some at }

  both_updates :
      (row : DeckRow)
      → (let r : DeckRow = if gone present source_id row then mark row else row in
          if back present source_id r then unmark r else r)
        ≡ marked present source_id at row
  both_updates row = ground arith

  row_at-mark :
      (j : String) (table : Table)
      → row_at j (DeckStore.mark_removed_except present source_id at table)
        ≡ map_option (marked present source_id at) (row_at j table)
  unfolding DeckStore.mark_removed_except
  row_at-mark j table = ground (
    arith,
    row_at-update_where (back present source_id) unmark (λ row. refl) j
        (update_where (gone present source_id) mark table),
    row_at-update_where (gone present source_id) mark (λ row. refl) j table,
    Option-cases (row_at j table),
  )

  mark-HasUniqueSlugs :
      (table : Table)
      → HasUniqueSlugs table
      → HasUniqueSlugs (DeckStore.mark_removed_except present source_id at table)
  unfolding DeckStore.mark_removed_except
  mark-HasUniqueSlugs table h =
      update_where-HasUniqueSlugs (back present source_id) unmark (λ row. refl)
        (update_where (gone present source_id) mark table)
        (update_where-HasUniqueSlugs (gone present source_id) mark (λ row. refl) table h)

pub apply-HasUniqueSlugs :
    (c : Command) (table : Table) → HasUniqueSlugs table → HasUniqueSlugs (apply c table)
unfolding apply DeckStore.put_build DeckStore.put_attempt DeckStore.remove_for_source
apply-HasUniqueSlugs (put deck) table h = put-HasUniqueSlugs deck table h
apply-HasUniqueSlugs (put_build slug build) table h =
    update_where-HasUniqueSlugs (has_slug slug) (with_build build) (slug-with_build build) table h
apply-HasUniqueSlugs (put_attempt slug attempt) table h =
    update_where-HasUniqueSlugs (has_slug slug) (with_attempt attempt) (slug-with_attempt attempt)
      table h
apply-HasUniqueSlugs (mark_removed_except present source_id at) table h =
    mark-HasUniqueSlugs present source_id at table h
apply-HasUniqueSlugs (remove_for_source source_id) table h = keep-HasUniqueSlugs _ table h

-- Each statement does to the row of every slug what the store promises.
pub row_at-apply :
    (c : Command) (j : String) (table : Table)
    → HasUniqueSlugs table
    → row_at j (apply c table) ≡ promised c j (row_at j table)
unfolding apply DeckStore.put_build DeckStore.put_attempt DeckStore.remove_for_source
row_at-apply (put deck) j table h = row_at-put deck j table
row_at-apply (put_build slug build) j table h =
    row_at-update_slug slug j (with_build build) (slug-with_build build) table
row_at-apply (put_attempt slug attempt) j table h =
    row_at-update_slug slug j (with_attempt attempt) (slug-with_attempt attempt) table
row_at-apply (mark_removed_except present source_id at) j table h =
    row_at-mark present source_id at j table
row_at-apply (remove_for_source source_id) j table h = row_at-keep _ j table h

pub run-HasUniqueSlugs :
    (commands : List Command) (table : Table)
    → HasUniqueSlugs table
    → HasUniqueSlugs (run commands table)
unfolding run
run-HasUniqueSlugs [] table h = h
run-HasUniqueSlugs (c ∷ commands) table h =
    run-HasUniqueSlugs commands (apply c table) (apply-HasUniqueSlugs c table h)

pub row_at-run :
    (commands : List Command) (j : String) (table : Table)
    → HasUniqueSlugs table
    → row_at j (run commands table) ≡ promised_all commands j (row_at j table)
unfolding run
row_at-run [] j table h = refl
row_at-run (c ∷ commands) j table h =
    row_at-run commands j (apply c table) (apply-HasUniqueSlugs c table h)
    ∙ ap (promised_all commands j) (row_at-apply c j table h)
