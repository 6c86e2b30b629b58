-- ===== src/DeckStore/Promise.antt =====
-- What DeckStore of src/presentator/ports/decks.py promises of decks, beside the statements of
-- SqliteDeckStore.
use agent_presentator.Base.{
  ℕ, ◌≡◌, refl, ap, ◌∙◌, String, not, Option, none, some, List, [], ◌∷◌, str_eq, if◌then◌else◌,
  arith, option_or, is_none, Bool-cases, inl, inr,
}
use agent_presentator.Contracts.{Deck}
use agent_presentator.DeckStore
use agent_presentator.DeckStore.{
  DeckRow, deck_of, carried, new_row, with_build, with_attempt, is_listed, is_in,
}
use agent_presentator.DeckStore.Rows.{row_at, put_row, map_option, filter_option, get-row_at}
use agent_presentator.DeckStore.Spec.{
  Command, put, put_build, put_attempt, mark_removed_except, remove_for_source, run, promised,
  promised_all, run-HasUniqueSlugs, row_at-run,
}

-- A deck that the store holds under a slug, and since when its folder is gone.
pub record Held : Type 0 where
  pub deck : Deck
  pub removed_at : Option ℕ

abbrev pub view : DeckRow → Held
view row = record { deck = deck_of row; removed_at = row.removed_at }

-- What a change of the deck under a slug leaves.
abbrev pub changed : String → String → (Deck → Deck) → Option Held → Option Held
changed slug j change held =
    if str_eq slug j
    then map_option (λ (h : Held). record h { deck = change h.deck }) held
    else held

-- A deck that is put: new, with no talk and no attempt; over the deck of the same source, with the talk,
-- the attempt and the mark that were there; and nothing over the deck of another source.
abbrev pub put_over : Deck → Option Held → Option Held
put_over deck none =
    some (record { deck = record deck { build = none; attempt = none }; removed_at = none })
put_over deck (some held) =
    if str_eq held.deck.source_id deck.source_id
    then some (record held {
      deck = record held.deck {
        title = deck.title;
        changed_at = deck.changed_at;
        owner_id = deck.owner_id;
        commit = deck.commit;
      };
    })
    else some held

-- The port's promise of each call, of decks alone.
abbrev pub promise : Command → String → Option Held → Option Held
promise (put deck) j held = if str_eq deck.slug j then put_over deck held else held
promise (put_build slug talk) j held =
    changed slug j (λ deck. record deck { build = some talk; attempt = none }) held
promise (put_attempt slug attempt) j held =
    changed slug j (λ deck. record deck { attempt = some attempt }) held
promise (mark_removed_except present source_id at) j held =
    map_option
      (λ (h : Held).
        if str_eq h.deck.source_id source_id
        then record h {
          removed_at = if is_in present h.deck.slug then none else some (option_or h.removed_at at);
        }
        else h)
      held
promise (remove_for_source source_id) j held =
    filter_option (λ (h : Held). not (str_eq h.deck.source_id source_id)) held

abbrev pub promises : List Command → String → Option Held → Option Held
promises [] j held = held
promises (c ∷ commands) j held = promises commands j (promise c j held)

view-put :
    (deck : Deck) (row : Option DeckRow)
    → some (view (put_row deck row)) ≡ put_over deck (map_option view row)
unfolding deck_of carried new_row
view-put deck none = refl
view-put deck (some row) = elim (Bool-cases (str_eq row.source_id deck.source_id)) [
  | inl same ↦ rw same refl
  | inr other ↦ rw other refl
]

view-promised :
    (c : Command) (j : String) (row : Option DeckRow)
    → map_option view (promised c j row) ≡ promise c j (map_option view row)
unfolding deck_of with_build with_attempt
view-promised (put deck) j row = elim (Bool-cases (str_eq deck.slug j)) [
  | inl here ↦ rw here (view-put deck row)
  | inr away ↦ rw away refl
]
view-promised (put_build slug talk) j none = ground arith
view-promised (put_build slug talk) j (some row) = elim (Bool-cases (str_eq slug j)) [
  | inl here ↦ rw here refl
  | inr away ↦ rw away refl
]
view-promised (put_attempt slug attempt) j none = ground arith
view-promised (put_attempt slug attempt) j (some row) = elim (Bool-cases (str_eq slug j)) [
  | inl here ↦ rw here refl
  | inr away ↦ rw away refl
]
view-promised (mark_removed_except present source_id at) j none = refl
view-promised (mark_removed_except present source_id at) j (some row) =
    elim (Bool-cases (str_eq row.source_id source_id)) [
      | inl same ↦ rw same refl
      | inr other ↦ rw other refl
    ]
view-promised (remove_for_source source_id) j none = refl
view-promised (remove_for_source source_id) j (some row) =
    elim (Bool-cases (str_eq row.source_id source_id)) [
      | inl same ↦ rw same refl
      | inr other ↦ rw other refl
    ]

view-promised_all :
    (commands : List Command) (j : String) (row : Option DeckRow)
    → map_option view (promised_all commands j row) ≡ promises commands j (map_option view row)
view-promised_all [] j row = refl
view-promised_all (c ∷ commands) j row =
    view-promised_all commands j (promised c j row)
    ∙ ap (promises commands j) (view-promised c j row)

-- The deck that is read, if its folder is not gone.
abbrev pub read : Option Held → Option Deck
read held = map_option (λ h. h.deck) (filter_option (λ (h : Held). is_none h.removed_at) held)

read-view :
    (row : Option DeckRow)
    → map_option deck_of (filter_option is_listed row) ≡ read (map_option view row)
read-view none = refl
read-view (some row) = elim (Bool-cases (is_none row.removed_at)) [
  | inl there ↦ rw there refl
  | inr gone_since ↦ rw gone_since refl
]

-- After any calls on a new store the row under each slug is, as a deck with its talk, its attempt and
-- its mark, what the port's promises of the calls, applied in turn to no deck, leave there; and `get`
-- answers that deck, or none while it is marked as removed.
pub run-promised :
    (commands : List Command) (j : String)
    → (map_option view (row_at j (run commands [])) ≡ promises commands j none)
      × (DeckStore.get j (run commands []) ≡ read (promises commands j none))
unfolding row_at
run-promised commands j =
    let there : map_option view (row_at j (run commands [])) ≡ promises commands j none =
      ap (map_option view) (row_at-run commands j [] tt) ∙ view-promised_all commands j none in
    (
      there,
      get-row_at j (run commands []) (run-HasUniqueSlugs commands [] tt)
          ∙ read-view (row_at j (run commands []))
          ∙ ap read there,
    )
