-- ===== src/Lobby/Order.antt =====
-- The order of the list.
use mathlib.Core.List.{Perm}
use mathlib.Core.List.Perm
use agent_presentator.Base.{
  ℕ, ◌≤◌, ◌≡◌, refl, String, List, [], ◌∷◌, arith, map, keep, ltb, Bool-cases, inl, inr, All,
}
use agent_presentator.Base.Int.{sub_ℕ}
use agent_presentator.Contracts.{Deck, ListedDeck, is_owned_by}
use agent_presentator.DeckStore
use agent_presentator.DeckStore.{Table}
use agent_presentator.Lobby.{insert_newest, newest_first, listed, state_of}

-- No deck of the list changed after one that stands before it.
abbrev pub IsNewestFirst : List Deck → Type 0
IsNewestFirst [] = Unit
IsNewestFirst (deck ∷ decks) =
    All (λ (d : Deck). d.changed_at ≤ deck.changed_at) decks × IsNewestFirst decks

insert_newest-perm :
    (deck : Deck) (decks : List Deck) → Perm (insert_newest deck decks) (deck ∷ decks)
unfolding insert_newest
insert_newest-perm deck [] = Perm.refl (deck ∷ [])
insert_newest-perm deck (other ∷ decks) = elim (Bool-cases (ltb deck.changed_at other.changed_at)) [
  | inl older ↦
      rw older
        (Perm.trans (Perm.cons other (insert_newest-perm deck decks)) (Perm.swap deck other decks))
  | inr newer ↦ rw newer (Perm.refl (deck ∷ other ∷ decks))
]

newest_first-perm : (decks : List Deck) → Perm (newest_first decks) decks
unfolding newest_first
newest_first-perm [] = Perm.refl []
newest_first-perm (deck ∷ decks) =
    Perm.trans (insert_newest-perm deck (newest_first decks))
      (Perm.cons deck (newest_first-perm decks))

All-insert_newest :
    (limit : ℕ) (deck : Deck) (decks : List Deck)
    → deck.changed_at ≤ limit
    → All (λ (d : Deck). d.changed_at ≤ limit) decks
    → All (λ (d : Deck). d.changed_at ≤ limit) (insert_newest deck decks)
unfolding insert_newest
All-insert_newest limit deck [] le h = (le, tt)
All-insert_newest limit deck (other ∷ decks) le h =
    elim (Bool-cases (ltb deck.changed_at other.changed_at)) [
      | inl older ↦ rw older (h.0, All-insert_newest limit deck decks le h.1)
      | inr newer ↦ rw newer (le, h)
    ]

All-le :
    (low high : ℕ) (decks : List Deck)
    → low ≤ high
    → All (λ (d : Deck). d.changed_at ≤ low) decks
    → All (λ (d : Deck). d.changed_at ≤ high) decks
All-le low high [] le h = tt
All-le low high (deck ∷ decks) le h = (omega arith, All-le low high decks le h.1)

insert_newest-IsNewestFirst :
    (deck : Deck) (decks : List Deck)
    → IsNewestFirst decks
    → IsNewestFirst (insert_newest deck decks)
unfolding insert_newest
insert_newest-IsNewestFirst deck [] h = (tt, tt)
insert_newest-IsNewestFirst deck (other ∷ decks) h =
    elim (Bool-cases (ltb deck.changed_at other.changed_at)) [
      | inl older ↦ rw older (
        All-insert_newest other.changed_at deck decks (ground arith) h.0,
        insert_newest-IsNewestFirst deck decks h.1,
      )
      | inr newer ↦
          let le : other.changed_at ≤ deck.changed_at = ground arith in
          rw newer ((le, All-le other.changed_at deck.changed_at decks le h.0), h)
    ]

newest_first-IsNewestFirst : (decks : List Deck) → IsNewestFirst (newest_first decks)
unfolding newest_first
newest_first-IsNewestFirst [] = tt
newest_first-IsNewestFirst (deck ∷ decks) =
    insert_newest-IsNewestFirst deck (newest_first decks) (newest_first-IsNewestFirst decks)

-- One row of the list.
abbrev pub row_of : ℕ → Deck → ListedDeck
row_of now deck = record {
  slug = deck.slug;
  title = deck.title;
  state = state_of deck;
  age = sub_ℕ now deck.changed_at;
}

-- The list holds a row for each listed deck that the viewer owns, each as often as the store holds
-- it and none else, newest changed first.
pub listed_lem :
    (now : ℕ) (viewer : String) (decks : Table)
    → (shown : List Deck) × (listed now viewer decks ≡ map (row_of now) shown)
      × Perm shown (keep (λ deck. is_owned_by deck viewer) (DeckStore.all decks))
      × IsNewestFirst shown
unfolding listed
listed_lem now viewer decks =
    let mine : List Deck = keep (λ deck. is_owned_by deck viewer) (DeckStore.all decks) in
    (newest_first mine, refl, newest_first-perm mine, newest_first-IsNewestFirst mine)
