-- ===== src/Refresh/Pass.antt =====
-- `_build_what_changed` over all decks of a source.
use agent_presentator.Base.{
  ◌≡◌, ap, ◌∙◌, sym, String, true, false, some, List, [], ◌∷◌, str_eq, arith, eq_iff, Bool-cases,
  inl, inr, All,
}
use agent_presentator.Contracts.{Source, Deck}
use agent_presentator.DeckStore
use agent_presentator.DeckStore.{Table, DeckRow, deck_of, is_listed, has_slug}
use agent_presentator.DeckStore.Rows.{row_at, row_at-slug, HasUniqueSlugs}
use agent_presentator.Refresh.{Outside, World, build_one, build_each, build_what_changed}
use agent_presentator.Refresh.OneDeck.{is_settled, build_one-Touches}
use agent_presentator.Refresh.Outcome.{Holds, build_one-Holds}
use agent_presentator.Refresh.Settled.{deck_after-is_settled}
use agent_presentator.Refresh.Listed.{
  is_own, Current, Apart, AllSettled, Pending, some_eq, Current-all, Apart-all, Among-all,
}

module _ (outside : Outside) (source : Source) where
  -- The row under `j` after a round, where the round's deck has that slug.
  settled_here :
      (deck : Deck) (w : World) (j : String) (row : DeckRow)
      → HasUniqueSlugs w.decks
      → Holds deck.slug deck w.decks
      → deck.slug ≡ j
      → row_at j (build_one outside source deck w).decks ≡ some row
      → is_own source (deck_of row) ≡ true
      → is_settled (deck_of row) ≡ true
  unfolding deck_of
  settled_here deck w j row h here e at own =
      let touched = build_one-Touches outside source deck w h in
      let (row', at', same_source, same_mark, same_commit) = touched.same_row here.0 here.1 in
      let found : row' ≡ row =
        some_eq (row_at j (build_one outside source deck w).decks) (rw (← e) at') at in
      let deck_own : is_own source deck ≡ true =
        rw (← here.2) (unfold deck_of in rw (← same_source) (rw found own)) in
      let (row'', at'', after) = build_one-Holds outside deck source w h here deck_own in
      let found' : row'' ≡ row =
        some_eq (row_at j (build_one outside source deck w).decks) (rw (← e) at'') at in
      rw (← found') (rw after (deck_after-is_settled outside source deck w))

  Pending-step :
      (deck : Deck) (decks : List Deck) (w : World)
      → HasUniqueSlugs w.decks
      → Holds deck.slug deck w.decks
      → Pending source (deck ∷ decks) w.decks
      → Pending source decks (build_one outside source deck w).decks
  unfolding deck_of
  Pending-step deck decks w h here pending j row at listed own =
      elim (Bool-cases (str_eq deck.slug j)) [
        | inl same ↦ inl (settled_here deck w j row h here ((eq_iff deck.slug j).0 same) at own)
        | inr other ↦
            let before : row_at j w.decks ≡ some row =
              sym ((build_one-Touches outside source deck w h).others j other) ∙ at in
            elim (pending j row before listed own) [
              | inl settled ↦ inl settled
              | inr (inl is_deck) ↦ absurd (
                  ground (
                    arith,
                    ap (λ (d : Deck). d.slug) is_deck,
                    row_at-slug j w.decks before,
                    eq_iff deck.slug j,
                  ))
              | inr (inr among) ↦ inr among
            ]
      ]

  pub Current-step :
      (deck : Deck) (decks : List Deck) (w : World)
      → HasUniqueSlugs w.decks
      → All (λ (e : Deck). str_eq deck.slug e.slug ≡ false) decks
      → Current w.decks decks
      → Current (build_one outside source deck w).decks decks
  Current-step deck [] w h apart current = tt
  Current-step deck (d ∷ decks) w h apart current = (
    (
      current.0.0,
      (build_one-Touches outside source deck w h).others d.slug apart.0 ∙ current.0.1,
      current.0.2,
    ),
    Current-step deck decks w h apart.1 current.1,
  )

  build_each-settles :
      (decks : List Deck) (w : World)
      → HasUniqueSlugs w.decks
      → Current w.decks decks
      → Apart decks
      → Pending source decks w.decks
      → HasUniqueSlugs (build_each outside source decks w).decks
        × AllSettled source (build_each outside source decks w).decks
  unfolding build_each
  build_each-settles [] w h current apart pending = (
    h,
    λ j row at listed own. elim (pending j row at listed own) [
      | inl s ↦ s
      | inr none_left ↦ absurd none_left
    ],
  )
  build_each-settles (deck ∷ decks) w h current apart pending =
      build_each-settles decks (build_one outside source deck w)
        (build_one-Touches outside source deck w h).unique
        (Current-step deck decks w h apart.0 current.1) apart.1
        (Pending-step deck decks w h current.0 pending)

  pub build_what_changed-AllSettled :
      (w : World)
      → HasUniqueSlugs w.decks
      → HasUniqueSlugs (build_what_changed outside source w).decks
        × AllSettled source (build_what_changed outside source w).decks
  unfolding build_what_changed
  build_what_changed-AllSettled w h =
      build_each-settles (DeckStore.all w.decks) w h (Current-all w.decks h) (Apart-all w.decks h)
        (λ j row at listed own. inr (Among-all j row w.decks at listed))

  -- In a table that holds each slug once, whatever the clock and the toolchain answer: after a pass
  -- over a source, each listed deck of the source has nothing to build. Its talk stands at the
  -- deck's commit, or that commit was tried.
  pub build_what_changed_settles :
      (w : World) (j : String) (row : DeckRow)
      → HasUniqueSlugs w.decks
      → row_at j (build_what_changed outside source w).decks ≡ some row
      → is_listed row ≡ true
      → is_own source (deck_of row) ≡ true
      → is_settled (deck_of row) ≡ true
  build_what_changed_settles w j row h at listed own =
      (build_what_changed-AllSettled w h).1 j row at listed own
