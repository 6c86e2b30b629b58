-- ===== src/Lobby/Privacy.antt =====
-- What the pages answer for the decks of other accounts, and for the viewer's own.
use agent_presentator.Base.{
  ℕ, ◌≡◌, refl, String, Bool, true, Option, none, some, List, [], ◌∷◌, map, keep, str_eq, is_none,
  inl, inr, arith, Bool-cases, if◌then◌else◌,
}
use agent_presentator.Contracts.{Source, Deck, is_owned_by}
use agent_presentator.FolderName.{is_a_plain_folder_name}
use agent_presentator.DeckStore
use agent_presentator.DeckStore.{Table, DeckRow, deck_of, is_listed}
use agent_presentator.DeckStore.Rows.{
  row_at, HasUniqueSlugs, map_option, filter_option, get-row_at, row_at-keep, keep-HasUniqueSlugs,
}
use agent_presentator.Lobby.{
  listed, owned, page, page_of, built_talk, exported_pdf, build_directory, build_pdf,
}

module _ (now : ℕ) (themes : Option (List String)) (sources : List Source) (printable : ℕ → Bool)
    (slug viewer : String) (decks : Table) where
  owned_own :
      (deck : Deck)
      → DeckStore.get slug decks ≡ some deck
      → is_owned_by deck viewer ≡ true
      → owned slug viewer decks ≡ some deck
  unfolding owned
  owned_own deck e own = ground arith

  -- The owner of a listed deck gets its page; its talk and, under a plain folder name, its PDF are
  -- those of the build that the deck carries.
  pub shown_to_owner :
      (deck : Deck)
      → DeckStore.get slug decks ≡ some deck
      → is_owned_by deck viewer ≡ true
      → (page now themes sources slug viewer decks ≡ some (page_of now themes sources deck))
        × (built_talk slug viewer decks ≡ build_directory (some deck))
        × (exported_pdf printable slug viewer decks
            ≡ (if is_a_plain_folder_name printable slug then build_pdf (some deck) else none))
  unfolding page built_talk exported_pdf
  shown_to_owner deck e own =
      let found = owned_own deck e own in
      (
        rw found,
        rw found,
        rw found (ground (arith, Bool-cases (is_a_plain_folder_name printable slug))),
      )

-- The rows that a viewer owns.
abbrev pub rows_of : String → Table → Table
rows_of viewer decks = keep (λ row. str_eq row.owner_id viewer) decks

module _ (viewer : String) where
  abbrev if_own : Option Deck → Option Deck
  if_own none = none
  if_own (some deck) = if is_owned_by deck viewer then some deck else none

  if_own-filter :
      (row : Option DeckRow)
      → if_own (map_option deck_of (filter_option is_listed row))
        ≡ if_own (
            map_option deck_of
              (filter_option is_listed (filter_option (λ r. str_eq r.owner_id viewer) row)))
  unfolding deck_of
  if_own-filter none = refl
  if_own-filter (some row) = elim (Bool-cases (str_eq row.owner_id viewer)) [
    | inl own ↦ rw own refl
    | inr other ↦ elim (Bool-cases (is_none row.removed_at)) [
      | inl there ↦ rw (other, there) (rw other refl)
      | inr removed ↦ rw (other, removed) refl
    ]
  ]

  owned-get :
      (slug : String) (decks : Table) → owned slug viewer decks ≡ if_own (DeckStore.get slug decks)
  unfolding owned
  owned-get slug decks = refl

  owned-rows_of :
      (slug : String) (decks : Table)
      → HasUniqueSlugs decks
      → owned slug viewer decks ≡ owned slug viewer (rows_of viewer decks)
  owned-rows_of slug decks h =
      let own = λ (row : DeckRow). str_eq row.owner_id viewer in
      let kept : HasUniqueSlugs (rows_of viewer decks) = keep-HasUniqueSlugs own decks h in
      rw
        (
          owned-get slug decks,
          owned-get slug (rows_of viewer decks),
          get-row_at slug decks h,
          get-row_at slug (rows_of viewer decks) kept,
          row_at-keep own slug decks h,
        )
        (if_own-filter (row_at slug decks))

  own_decks :
      (decks : Table)
      → keep (λ (deck : Deck). is_owned_by deck viewer) (map deck_of (keep is_listed decks))
        ≡ keep
            (λ (deck : Deck). is_owned_by deck viewer)
            (map deck_of (keep is_listed (rows_of viewer decks)))
  unfolding deck_of
  own_decks [] = refl
  own_decks (row ∷ decks) = ground (arith, own_decks decks)

-- In a table that holds each slug once: the list of decks, and under every slug the page, the talk and
-- the PDF, are for each viewer what they would be if the table held that viewer's own rows alone: nothing
-- of another account's deck shows in them, not even that its slug is taken.
pub hidden_from_others :
    (now : ℕ) (themes : Option (List String)) (sources : List Source) (printable : ℕ → Bool)
    (slug viewer : String) (decks : Table)
    → HasUniqueSlugs decks
    → (listed now viewer decks ≡ listed now viewer (rows_of viewer decks))
      × (page now themes sources slug viewer decks
          ≡ page now themes sources slug viewer (rows_of viewer decks))
      × (built_talk slug viewer decks ≡ built_talk slug viewer (rows_of viewer decks))
      × (exported_pdf printable slug viewer decks
          ≡ exported_pdf printable slug viewer (rows_of viewer decks))
unfolding listed page built_talk exported_pdf DeckStore.all
hidden_from_others now themes sources printable slug viewer decks h =
    let same = owned-rows_of viewer slug decks h in
    (rw (own_decks viewer decks) refl, rw same refl, rw same refl, rw same refl)
