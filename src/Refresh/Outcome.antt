-- ===== src/Refresh/Outcome.antt =====
-- What one round of `_build_what_changed` makes of its deck: an account of every branch.
use agent_presentator.Base.{
  ℕ, ◌+◌, ◌≡◌, refl, ap, ◌∙◌, sym, String, true, false, Option, none, some, str_eq, leb, arith,
  eq_iff, is_none, Bool-cases, inl, inr,
}
use agent_presentator.Contracts.{Source, Deck, Build, BuildAttempt, BuildOutcome}
use agent_presentator.DeckStore
use agent_presentator.DeckStore.{Table, DeckRow, deck_of, with_build, with_attempt}
use agent_presentator.DeckStore.Rows.{row_at, HasUniqueSlugs}
use agent_presentator.Refresh.{
  Outside, World, Built, abandon, give_up_attempt, give_up, deliver_again, begun, begin, finish,
  switch_over, was_already_tried, stands_at_its_commit, build_or_skip, build_or_deliver, build_one,
}
use agent_presentator.Refresh.OneDeck.{
  row_at-put_build, row_at-put_attempt, put_attempt-HasUniqueSlugs, deck_of-with_build,
  deck_of-with_attempt, give_up-Touches,
}
use agent_presentator.Refresh.DeckAfter.{failure_at, given_up_by, given_up, switched, deck_after}

-- The row under the slug holds that deck.
abbrev pub Holds : String → Deck → Table → Type 0
Holds slug deck table = (row : DeckRow) × (row_at slug table ≡ some row) × (deck_of row ≡ deck)

module _ (slug : String) (deck : Deck) (table : Table) (unique : HasUniqueSlugs table)
    (here : Holds slug deck table) where
  Holds-put_build :
      (b : Build)
      → Holds slug
          (record deck { build = some b; attempt = none })
          (DeckStore.put_build slug b table)
  Holds-put_build b = (
    with_build b here.0,
    ground (arith, row_at-put_build slug slug table unique b, eq_iff slug slug),
    deck_of-with_build b here.0
        ∙ ap (λ (d : Deck). record d { build = some b; attempt = none }) here.2,
  )

  Holds-put_attempt :
      (a : BuildAttempt)
      → Holds slug (record deck { attempt = some a }) (DeckStore.put_attempt slug a table)
  Holds-put_attempt a = (
    with_attempt a here.0,
    ground (arith, row_at-put_attempt slug slug table unique a, eq_iff slug slug),
    deck_of-with_attempt a here.0 ∙ ap (λ (d : Deck). record d { attempt = some a }) here.2,
  )

module _ (outside : Outside) where
  abandon-Holds :
      (deck : Deck) (attempt : BuildAttempt) (outcome : BuildOutcome) (w : World)
      → HasUniqueSlugs w.decks
      → deck.attempt ≡ some attempt
      → Holds deck.slug deck w.decks
      → Holds deck.slug
          (record deck { attempt = some (given_up_by outside w.calls outcome attempt) })
          (abandon outside deck attempt outcome w).decks
  unfolding abandon
  abandon-Holds deck attempt BuildOutcome.failed w h e here =
      (here.0, here.1, here.2 ∙ ground arith)
  abandon-Holds deck attempt BuildOutcome.running w h e here =
      elim (Bool-cases (leb (outside.now w.calls) (attempt.started_at + outside.build_bound))) [
        | inl young ↦ rw young (here.0, here.1, here.2 ∙ ground arith)
        | inr old ↦ rw old (
            Holds-put_attempt deck.slug deck w.decks h here
              (failure_at attempt.commit attempt.started_at attempt.failure))
      ]

  give_up_attempt-Holds :
      (deck : Deck) (attempt : Option BuildAttempt) (w : World)
      → HasUniqueSlugs w.decks
      → deck.attempt ≡ attempt
      → Holds deck.slug deck w.decks
      → Holds deck.slug
          (record deck { attempt = given_up outside w.calls attempt })
          (give_up_attempt outside deck attempt w).decks
  unfolding give_up_attempt
  give_up_attempt-Holds deck none w h e here = (here.0, here.1, here.2 ∙ ground arith)
  give_up_attempt-Holds deck (some attempt) w h e here =
      abandon-Holds deck attempt attempt.outcome w h e here

  give_up-Holds :
      (deck : Deck) (w : World)
      → HasUniqueSlugs w.decks
      → Holds deck.slug deck w.decks
      → Holds deck.slug
          (record deck { attempt = given_up outside w.calls deck.attempt })
          (give_up outside deck w).decks
  unfolding give_up
  give_up-Holds deck w h here = give_up_attempt-Holds deck deck.attempt w h refl here

  -- The rest of a round writes over whatever attempt the row carries.
  abbrev running : String → ℕ → BuildAttempt
  running commit started_at = record {
    commit = commit;
    started_at = started_at;
    outcome = BuildOutcome.running;
    failure = none;
  }

  finish-Holds :
      (deck : Deck) (old : Option BuildAttempt) (started_at : ℕ) (built : Built) (w : World)
      → HasUniqueSlugs w.decks
      → Holds deck.slug (record deck { attempt = old }) w.decks
      → Holds deck.slug
          (switched outside deck w.calls started_at built)
          (finish outside deck (running deck.commit started_at) built w).decks
  unfolding finish
  finish-Holds deck old started_at (Built.failure broken) w h here =
      Holds-put_attempt deck.slug (record deck { attempt = old }) w.decks h here _
  finish-Holds deck old started_at (Built.artefacts built) w h here =
      elim (Bool-cases (outside.holds w.calls built)) [
        | inl held ↦
            rw held (Holds-put_build deck.slug (record deck { attempt = old }) w.decks h here _)
        | inr astray ↦
            rw astray (Holds-put_attempt deck.slug (record deck { attempt = old }) w.decks h here _)
      ]

  switch_over-Holds :
      (deck : Deck) (source : Source) (old : Option BuildAttempt) (w : World)
      → HasUniqueSlugs w.decks
      → Holds deck.slug (record deck { attempt = old }) w.decks
      → Holds deck.slug
          (switched outside deck
            (w.calls + 2)
            (outside.now w.calls)
            (outside.build (w.calls + 1) deck source))
          (switch_over outside deck source w).decks
  unfolding switch_over
  switch_over-Holds deck source old w h here =
      finish-Holds deck (some (begun outside deck w)) (outside.now w.calls)
        (outside.build (w.calls + 1) deck source) (begin outside deck w)
        (put_attempt-HasUniqueSlugs deck.slug (begun outside deck w) w.decks h)
        (Holds-put_attempt deck.slug (record deck { attempt = old }) w.decks h here
          (begun outside deck w))

  given_none :
      (calls : ℕ) (attempt : Option BuildAttempt)
      → is_none attempt ≡ true
      → given_up outside calls attempt ≡ none
  given_none calls none e = refl
  given_none calls (some a) e = cc

  build_or_skip-Holds :
      (deck : Deck) (source : Source) (w : World)
      → HasUniqueSlugs w.decks
      → Holds deck.slug deck w.decks
      → stands_at_its_commit deck ≡ false
      → Holds deck.slug
          (deck_after outside source deck w)
          (build_or_skip outside deck source (give_up outside deck w)).decks
  unfolding build_or_skip
  build_or_skip-Holds deck source w h here moved =
      let given = give_up-Holds deck w h here in
      elim (Bool-cases (was_already_tried deck)) [
        | inl tried ↦ rw (moved, tried) given
        | inr fresh ↦
            rw (moved, fresh)
              (switch_over-Holds deck source _ (give_up outside deck w)
                (give_up-Touches outside deck w h).unique given)
      ]

  deliver_again-Holds :
      (deck : Deck) (standing : Build) (calls : ℕ) (w : World)
      → deck.build ≡ some standing
      → HasUniqueSlugs w.decks
      → Holds deck.slug (record deck { attempt = given_up outside calls deck.attempt }) w.decks
      → Holds deck.slug (record deck { attempt = none }) (deliver_again deck standing w).decks
  unfolding deliver_again
  deliver_again-Holds deck standing calls w e h here = elim (Bool-cases (is_none deck.attempt)) [
    | inl no_attempt ↦ rw no_attempt (
      here.0,
      here.1,
      here.2
          ∙ ap (λ (a : Option BuildAttempt). record deck { attempt = a })
              (given_none calls deck.attempt no_attempt),
    )
    | inr attempted ↦ rw attempted (
        let again = Holds-put_build deck.slug _ w.decks h here standing in
        (
          again.0,
          again.1,
          again.2 ∙ ap (λ (b : Option Build). record deck { build = b; attempt = none }) (sym e),
        ))
  ]

  build_or_deliver-Holds :
      (deck : Deck) (source : Source) (build : Option Build) (w : World)
      → deck.build ≡ build
      → HasUniqueSlugs w.decks
      → Holds deck.slug deck w.decks
      → Holds deck.slug
          (deck_after outside source deck w)
          (build_or_deliver outside deck source build (give_up outside deck w)).decks
  unfolding build_or_deliver
  build_or_deliver-Holds deck source none w e h here =
      build_or_skip-Holds deck source w h here (rw e)
  build_or_deliver-Holds deck source (some standing) w e h here =
      elim (Bool-cases (str_eq standing.commit deck.commit)) [
        | inl stands ↦
            let at_commit : stands_at_its_commit deck ≡ true = ground arith in
            rw (stands, at_commit)
              (deliver_again-Holds deck standing w.calls (give_up outside deck w) e
                (give_up-Touches outside deck w h).unique (give_up-Holds deck w h here))
        | inr moved ↦
            let away : stands_at_its_commit deck ≡ false = ground arith in
            rw moved (build_or_skip-Holds deck source w h here away)
      ]

  -- In a table that holds each slug once, a round over a deck of the source as the table holds it
  -- leaves `deck_after` under its slug: the standing talk with no attempt where it stands at the
  -- deck's commit; the deck with its attempt, failed if it was running and outlived the bound, where
  -- the commit was tried; and otherwise the new talk at the deck's commit with no attempt, or, where the
  -- build failed or its artefacts are not held, the old talk with a failed attempt at the commit.
  pub build_one-Holds :
      (deck : Deck) (source : Source) (w : World)
      → HasUniqueSlugs w.decks
      → Holds deck.slug deck w.decks
      → str_eq deck.source_id source.id ≡ true
      → Holds deck.slug (deck_after outside source deck w) (build_one outside source deck w).decks
  unfolding build_one
  build_one-Holds deck source w h here own =
      rw own (build_or_deliver-Holds deck source deck.build w refl h here)
