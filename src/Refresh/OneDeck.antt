-- ===== src/Refresh/OneDeck.antt =====
-- One round of `_build_what_changed`: what it does to the row of the deck, and to every other row.
use agent_presentator.Base.{
  ◌+◌, ◌≡◌, refl, ◌∙◌, String, Bool, false, ◌||◌, Option, none, some, str_eq, leb, if◌then◌else◌,
  arith, eq_iff, is_none, Bool-cases, inl, inr,
}
use agent_presentator.Contracts.{Source, Deck, Build, BuildAttempt, BuildOutcome}
use agent_presentator.DeckStore
use agent_presentator.DeckStore.{
  Table, DeckRow, deck_of, with_build, with_attempt, build_of, attempt_of,
}
use agent_presentator.DeckStore.Rows.{row_at, HasUniqueSlugs, map_option}
use agent_presentator.DeckStore.Spec.{Command, apply, row_at-apply, apply-HasUniqueSlugs}
use agent_presentator.Refresh.{
  Outside, World, Built, abandon, give_up_attempt, give_up, build_or_deliver, deliver_again, begun,
  begin, finish, switch_over, was_already_tried, stands_at_its_commit, build_or_skip, build_one,
}

-- Nothing is left to build: the talk stands at the deck's commit, or that commit was tried.
abbrev pub is_settled : Deck → Bool
is_settled deck = stands_at_its_commit deck || was_already_tried deck

module _ (slug j : String) (table : Table) (unique : HasUniqueSlugs table) where
  pub row_at-put_build :
      (build : Build)
      → row_at j (DeckStore.put_build slug build table)
        ≡ (if str_eq slug j then map_option (with_build build) (row_at j table) else row_at j table)
  unfolding apply
  row_at-put_build build = row_at-apply (Command.put_build slug build) j table unique

  pub row_at-put_attempt :
      (attempt : BuildAttempt)
      → row_at j (DeckStore.put_attempt slug attempt table) ≡ (
          if str_eq slug j
          then map_option (with_attempt attempt) (row_at j table)
          else row_at j table)
  unfolding apply
  row_at-put_attempt attempt = row_at-apply (Command.put_attempt slug attempt) j table unique

put_build-HasUniqueSlugs :
    (slug : String) (build : Build) (table : Table)
    → HasUniqueSlugs table
    → HasUniqueSlugs (DeckStore.put_build slug build table)
unfolding apply
put_build-HasUniqueSlugs slug build table h =
    apply-HasUniqueSlugs (Command.put_build slug build) table h

pub put_attempt-HasUniqueSlugs :
    (slug : String) (attempt : BuildAttempt) (table : Table)
    → HasUniqueSlugs table
    → HasUniqueSlugs (DeckStore.put_attempt slug attempt table)
unfolding apply
put_attempt-HasUniqueSlugs slug attempt table h =
    apply-HasUniqueSlugs (Command.put_attempt slug attempt) table h

-- What the row becomes, in terms of the deck that it holds.
pub deck_of-with_build :
    (b : Build) (row : DeckRow)
    → deck_of (with_build b row) ≡ record (deck_of row) { build = some b; attempt = none }
unfolding deck_of with_build
deck_of-with_build b row = refl

pub deck_of-with_attempt :
    (a : BuildAttempt) (row : DeckRow)
    → deck_of (with_attempt a row) ≡ record (deck_of row) { attempt = some a }
unfolding deck_of with_attempt
deck_of-with_attempt a row = refl

-- A change of the world's decks that writes at most the row of one slug, builds or attempts in it,
-- and keeps the slugs unique.
pub record Touches (slug : String) (before after : Table) : Type 0 where
  pub unique : HasUniqueSlugs after
  pub others : (j : String) → str_eq slug j ≡ false → row_at j after ≡ row_at j before
  pub same_row :
      (row : DeckRow)
      → row_at slug before ≡ some row
      → (row' : DeckRow) × (row_at slug after ≡ some row')
        × (row'.source_id ≡ row.source_id)
        × (row'.removed_at ≡ row.removed_at)
        × (row'.commit_sha ≡ row.commit_sha)

pub Touches-refl : (slug : String) (table : Table) → HasUniqueSlugs table → Touches slug table table
Touches-refl slug table h = record {
  unique = h;
  others = λ j e. refl;
  same_row = λ row e. (row, e, refl, refl, refl);
}

pub Touches-trans :
    (slug : String) (a b c : Table) → Touches slug a b → Touches slug b c → Touches slug a c
Touches-trans slug a b c f g = record {
  unique = g.unique;
  others = λ j e. g.others j e ∙ f.others j e;
  same_row = λ row e.
      let (row', e', s, r, k) = f.same_row row e in
      let (row'', e'', s', r', k') = g.same_row row' e' in (row'', e'', s' ∙ s, r' ∙ r, k' ∙ k);
}

pub put_build-Touches :
    (slug : String) (build : Build) (table : Table)
    → HasUniqueSlugs table
    → Touches slug table (DeckStore.put_build slug build table)
unfolding with_build
put_build-Touches slug build table h = record {
  unique = put_build-HasUniqueSlugs slug build table h;
  others = λ j e. ground (arith, row_at-put_build slug j table h build);
  same_row = λ row e. (
    with_build build row,
    ground (arith, row_at-put_build slug slug table h build, eq_iff slug slug),
    refl,
    refl,
    refl,
  );
}

pub put_attempt-Touches :
    (slug : String) (attempt : BuildAttempt) (table : Table)
    → HasUniqueSlugs table
    → Touches slug table (DeckStore.put_attempt slug attempt table)
unfolding with_attempt
put_attempt-Touches slug attempt table h = record {
  unique = put_attempt-HasUniqueSlugs slug attempt table h;
  others = λ j e. ground (arith, row_at-put_attempt slug j table h attempt);
  same_row = λ row e. (
    with_attempt attempt row,
    ground (arith, row_at-put_attempt slug slug table h attempt, eq_iff slug slug),
    refl,
    refl,
    refl,
  );
}

pub deliver_again-Touches :
    (deck : Deck) (b : Build) (w : World)
    → HasUniqueSlugs w.decks
    → Touches deck.slug w.decks (deliver_again deck b w).decks
unfolding deliver_again
deliver_again-Touches deck b w h = elim (Bool-cases (is_none deck.attempt)) [
  | inl no_attempt ↦ rw no_attempt (Touches-refl deck.slug w.decks h)
  | inr attempted ↦ rw attempted (put_build-Touches deck.slug b w.decks h)
]

module _ (outside : Outside) where
  abandon-Touches :
      (deck : Deck) (attempt : BuildAttempt) (outcome : BuildOutcome) (w : World)
      → HasUniqueSlugs w.decks
      → Touches deck.slug w.decks (abandon outside deck attempt outcome w).decks
  unfolding abandon
  abandon-Touches deck attempt BuildOutcome.failed w h = Touches-refl deck.slug w.decks h
  abandon-Touches deck attempt BuildOutcome.running w h =
      elim (Bool-cases (leb (outside.now w.calls) (attempt.started_at + outside.build_bound))) [
        | inl young ↦ rw young (Touches-refl deck.slug w.decks h)
        | inr old ↦ rw old (put_attempt-Touches deck.slug _ w.decks h)
      ]

  give_up_attempt-Touches :
      (deck : Deck) (attempt : Option BuildAttempt) (w : World)
      → HasUniqueSlugs w.decks
      → Touches deck.slug w.decks (give_up_attempt outside deck attempt w).decks
  unfolding give_up_attempt
  give_up_attempt-Touches deck none w h = Touches-refl deck.slug w.decks h
  give_up_attempt-Touches deck (some attempt) w h = abandon-Touches deck attempt attempt.outcome w h

  pub give_up-Touches :
      (deck : Deck) (w : World)
      → HasUniqueSlugs w.decks
      → Touches deck.slug w.decks (give_up outside deck w).decks
  unfolding give_up
  give_up-Touches deck w h = give_up_attempt-Touches deck deck.attempt w h

  finish-Touches :
      (deck : Deck) (attempt : BuildAttempt) (built : Built) (w : World)
      → HasUniqueSlugs w.decks
      → Touches deck.slug w.decks (finish outside deck attempt built w).decks
  unfolding finish
  finish-Touches deck attempt (Built.failure broken) w h = put_attempt-Touches deck.slug _ w.decks h
  finish-Touches deck attempt (Built.artefacts built) w h =
      elim (Bool-cases (outside.holds w.calls built)) [
        | inl held ↦ rw held (put_build-Touches deck.slug _ w.decks h)
        | inr astray ↦ rw astray (put_attempt-Touches deck.slug _ w.decks h)
      ]

  switch_over-Touches :
      (deck : Deck) (source : Source) (w : World)
      → HasUniqueSlugs w.decks
      → Touches deck.slug w.decks (switch_over outside deck source w).decks
  unfolding switch_over
  switch_over-Touches deck source w h =
      let started = put_attempt-Touches deck.slug (begun outside deck w) w.decks h in
      Touches-trans deck.slug w.decks (begin outside deck w).decks _ started (
        finish-Touches deck (begun outside deck w) (outside.build (w.calls + 1) deck source)
          (begin outside deck w) started.unique)

  build_or_skip-Touches :
      (deck : Deck) (source : Source) (w : World)
      → HasUniqueSlugs w.decks
      → Touches deck.slug w.decks (build_or_skip outside deck source w).decks
  unfolding build_or_skip
  build_or_skip-Touches deck source w h = elim (Bool-cases (was_already_tried deck)) [
    | inl tried ↦ rw tried (Touches-refl deck.slug w.decks h)
    | inr fresh ↦ rw fresh (switch_over-Touches deck source w h)
  ]

  build_or_deliver-Touches :
      (deck : Deck) (source : Source) (build : Option Build) (w : World)
      → HasUniqueSlugs w.decks
      → Touches deck.slug w.decks (build_or_deliver outside deck source build w).decks
  unfolding build_or_deliver
  build_or_deliver-Touches deck source none w h = build_or_skip-Touches deck source w h
  build_or_deliver-Touches deck source (some standing) w h =
      elim (Bool-cases (str_eq standing.commit deck.commit)) [
        | inl stands ↦ rw stands (deliver_again-Touches deck standing w h)
        | inr moved ↦ rw moved (build_or_skip-Touches deck source w h)
      ]

  -- A round writes at most the row of its deck, and never its source, its commit or its mark.
  pub build_one-Touches :
      (source : Source) (deck : Deck) (w : World)
      → HasUniqueSlugs w.decks
      → Touches deck.slug w.decks (build_one outside source deck w).decks
  unfolding build_one
  build_one-Touches source deck w h = elim (Bool-cases (str_eq deck.source_id source.id)) [
    | inl own ↦ rw own (
        let given = give_up-Touches deck w h in
        Touches-trans deck.slug w.decks (give_up outside deck w).decks _ given
          (build_or_deliver-Touches deck source deck.build (give_up outside deck w) given.unique))
    | inr foreign ↦ rw foreign (Touches-refl deck.slug w.decks h)
  ]
