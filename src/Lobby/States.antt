-- ===== src/Lobby/States.antt =====
-- The one word for what a deck is, beside what it delivers, and what a round of the refresh does
-- to it.
use mathlib.Core.Path.{subst}
use agent_presentator.Base.{
  ◌+◌, ◌≤◌, leb, leb→le, eq_iff, ◌≡◌, ◌≢◌, refl, ap, sym, ◌∙◌, Bool, true, Option, none, some,
  arith, ◌⊎◌, Bool-cases, inl, inr, Option-cases, str_eq,
}
use agent_presentator.Contracts.{
  Source, Deck, DeckState, Build, BuildAttempt, BuildOutcome, Artefacts,
}
use agent_presentator.Refresh.{
  Outside, World, Built, give_up, was_already_tried, stands_at_its_commit,
}
use agent_presentator.Refresh.DeckAfter.{deck_after, switched, given_up}
use agent_presentator.Lobby.{state_of}
use agent_presentator.DeckStore.{DeckRow, deck_of}
use agent_presentator.DeckStore.Rows.{row_at, HasUniqueSlugs}
use agent_presentator.Refresh.{build_one}
use agent_presentator.Refresh.Outcome.{Holds, build_one-Holds}
use agent_presentator.Refresh.Listed.{some_eq}

-- What a word says of a deck: whether a talk stands, and how the attempt beside it ended.
abbrev pub Describes : DeckState → Deck → Type 0
Describes DeckState.never_built deck = (deck.build ≡ none) × (deck.attempt ≡ none)
Describes DeckState.ready deck = (b : Build) × (deck.build ≡ some b) × (deck.attempt ≡ none)
Describes DeckState.building deck =
    (a : BuildAttempt) × (deck.attempt ≡ some a) × (a.outcome ≡ BuildOutcome.running)
Describes DeckState.failed deck =
    (a : BuildAttempt) × (deck.attempt ≡ some a) × (a.outcome ≡ BuildOutcome.failed)

outcome-cases : (o : BuildOutcome) → (o ≡ BuildOutcome.running) ⊎ (o ≡ BuildOutcome.failed)
outcome-cases BuildOutcome.running = inl refl
outcome-cases BuildOutcome.failed = inr refl

without_attempt : (deck : Deck) → deck.attempt ≡ none → Describes (state_of deck) deck
without_attempt deck e = elim (Option-cases deck.build) [
  | inl nothing ↦
      let s : state_of deck ≡ DeckState.never_built = unfold state_of in (ground arith) in
      subst (λ word. Describes word deck) (sym s) (nothing, e)
  | inr (b, is_b) ↦
      let s : state_of deck ≡ DeckState.ready = unfold state_of in (ground arith) in
      subst (λ word. Describes word deck) (sym s) (b, is_b, e)
]

with_attempt :
    (deck : Deck) (a : BuildAttempt) → deck.attempt ≡ some a → Describes (state_of deck) deck
with_attempt deck a e = elim (outcome-cases a.outcome) [
  | inl running ↦
      let s : state_of deck ≡ DeckState.building = unfold state_of in (ground arith) in
      subst (λ word. Describes word deck) (sym s) (a, e, running)
  | inr failed ↦
      let s : state_of deck ≡ DeckState.failed = unfold state_of in (ground arith) in
      subst (λ word. Describes word deck) (sym s) (a, e, failed)
]

-- The word for a deck describes it: never built and ready say that nothing was attempted since, and
-- whether a talk stands; building and failed say how the attempt ended, talk or no talk.
pub state_of-Describes : (deck : Deck) → Describes (state_of deck) deck
state_of-Describes deck = elim (Option-cases deck.attempt) [
  | inl nothing ↦ without_attempt deck nothing
  | inr (a, is_a) ↦ with_attempt deck a is_a
]

module _ (outside : Outside) (source : Source) (deck : Deck) (w : World) where
  -- The build that a round starts for a deck that moved.
  abbrev pub answer : Built
  answer = outside.build ((give_up outside deck w).calls + 1) deck source

  -- Whether the artefacts that it wrote are held.
  abbrev pub held : Artefacts → Bool
  held = outside.holds ((give_up outside deck w).calls + 2)

  talk_after :
      ((deck_after outside source deck w).build ≡ deck.build)
      ⊎ ((a : Artefacts) × (b : Build) × (answer ≡ Built.artefacts a)
          × (held a ≡ true)
          × ((deck_after outside source deck w).build ≡ some b)
          × (b.directory ≡ a.directory)
          × (b.pdf ≡ a.pdf)
          × (b.commit ≡ deck.commit))
  talk_after = elim (Bool-cases (stands_at_its_commit deck)) [
    | inl stands ↦ inl (rw stands)
    | inr moved ↦ elim (Bool-cases (was_already_tried deck)) [
      | inl tried ↦ inl (rw (moved, tried))
      | inr fresh ↦ rw (moved, fresh) (by_answer answer refl)
    ]
  ]
    where
      result : Built → Deck
      result b =
          switched outside deck ((give_up outside deck w).calls + 2)
            (outside.now (give_up outside deck w).calls) b

      by_answer :
          (b : Built)
          → answer ≡ b
          → ((result answer).build ≡ deck.build)
            ⊎ ((a : Artefacts) × (t : Build) × (answer ≡ Built.artefacts a)
                × (held a ≡ true)
                × ((result answer).build ≡ some t)
                × (t.directory ≡ a.directory)
                × (t.pdf ≡ a.pdf)
                × (t.commit ≡ deck.commit))
      by_answer (Built.failure broken) e = inl (rw e)
      by_answer (Built.artefacts a) e = elim (Bool-cases (held a)) [
        | inl yes_held ↦ inr (
          a,
          record {
            directory = a.directory;
            pdf = a.pdf;
            commit = deck.commit;
            built_at = outside.now ((give_up outside deck w).calls + 2 + 1);
          },
          e,
          yes_held,
          rw (e, yes_held),
          refl,
          refl,
          refl,
        )
        | inr astray ↦ inl (rw (e, astray))
      ]

  switched-ne-building :
      (b : Built)
      → state_of (
          switched outside deck
            ((give_up outside deck w).calls + 2)
            (outside.now (give_up outside deck w).calls)
            b)
        ≢ DeckState.building
  unfolding state_of
  switched-ne-building (Built.failure broken) e = cc
  switched-ne-building (Built.artefacts a) e = elim (Bool-cases (held a)) [
    | inl yes_held ↦ cc (rw yes_held at e)
    | inr astray ↦ cc (rw astray at e)
  ]

  young_running :
      (attempt : Option BuildAttempt)
      → state_of (record deck { attempt = given_up outside w.calls attempt }) ≡ DeckState.building
      → (a : BuildAttempt) × (attempt ≡ some a)
        × (a.outcome ≡ BuildOutcome.running)
        × (outside.now w.calls ≤ a.started_at + outside.build_bound)
  unfolding state_of
  young_running none e = absurd (ground arith)
  young_running (some a) e = elim (outcome-cases a.outcome) [
    | inl running ↦
        elim (Bool-cases (leb (outside.now w.calls) (a.started_at + outside.build_bound))) [
          | inl young ↦ (a, refl, running, leb→le _ _ young)
          | inr old ↦ absurd (ground arith)
        ]
    | inr failed ↦ absurd (ground arith)
  ]

  building_after :
      state_of (deck_after outside source deck w) ≡ DeckState.building
      → (a : BuildAttempt) × (deck.attempt ≡ some a)
        × (a.outcome ≡ BuildOutcome.running)
        × (a.commit ≡ deck.commit)
        × (outside.now w.calls ≤ a.started_at + outside.build_bound)
  building_after e = elim (Bool-cases (stands_at_its_commit deck)) [
    | inl stands ↦ absurd (unfold state_of in (ground arith))
    | inr moved ↦ elim (Bool-cases (was_already_tried deck)) [
      | inl tried ↦
          let (a, is_a, running, young) = young_running deck.attempt (rw (moved, tried) at e) in
          (a, is_a, running, ground (arith, eq_iff a.commit deck.commit), young)
      | inr fresh ↦ absurd (switched-ne-building answer (rw (moved, fresh) at e))
    ]
  ]

  module _ (row : DeckRow) (h : HasUniqueSlugs w.decks) (here : Holds deck.slug deck w.decks)
      (own : str_eq deck.source_id source.id ≡ true)
      (at : row_at deck.slug (build_one outside source deck w).decks ≡ some row) where
    after_round : deck_of row ≡ deck_after outside source deck w
    after_round =
        let (row', at', e) = build_one-Holds outside deck source w h here own in
        let same : row' ≡ row =
          some_eq (row_at deck.slug (build_one outside source deck w).decks) at' at in
        ap deck_of (sym same) ∙ e

    -- In a table that holds each slug once, a round over a deck of the source, as the table holds it,
    -- switches its talk only to artefacts that the toolchain built for it and that are held, at the
    -- deck's commit; otherwise the talk that stood stays.
    pub talk-build_one :
        ((deck_of row).build ≡ deck.build)
        ⊎ ((a : Artefacts) × (b : Build) × (answer ≡ Built.artefacts a)
            × (held a ≡ true)
            × ((deck_of row).build ≡ some b)
            × (b.directory ≡ a.directory)
            × (b.pdf ≡ a.pdf)
            × (b.commit ≡ deck.commit))
    talk-build_one = rw after_round talk_after

    -- In a table that holds each slug once, after a round over a deck of the source, as the table
    -- holds it, the deck says that it is building only if it carried a running attempt at its own
    -- commit, begun no longer ago than the build bound.
    pub building-build_one :
        state_of (deck_of row) ≡ DeckState.building
        → (a : BuildAttempt) × (deck.attempt ≡ some a)
          × (a.outcome ≡ BuildOutcome.running)
          × (a.commit ≡ deck.commit)
          × (outside.now w.calls ≤ a.started_at + outside.build_bound)
    building-build_one e = building_after (rw after_round at e)
