-- ===== src/Refresh/Settled.antt =====
-- Whether a deck has anything to build after a round of `_build_what_changed`.
use agent_presentator.Base.{
  ℕ, ◌+◌, ◌≡◌, refl, String, Bool, true, false, ◌||◌, Option, none, some, str_eq, leb, arith,
  eq_iff, Bool-cases, inl, inr,
}
use agent_presentator.Contracts.{Source, Deck, BuildAttempt, BuildOutcome}
use agent_presentator.Refresh.{
  Outside, World, Built, give_up, was_already_tried, stands_at_its_commit,
}
use agent_presentator.Refresh.OneDeck.{is_settled}
use agent_presentator.Refresh.DeckAfter.{given_up_by, given_up, switched, deck_after}

module _ (outside : Outside) where
  switched-is_settled :
      (deck : Deck) (calls started_at : ℕ) (built : Built)
      → is_settled (switched outside deck calls started_at built) ≡ true
  switched-is_settled deck calls started_at (Built.failure broken) =
      ground (arith, eq_iff deck.commit deck.commit, Bool-cases (stands_at_its_commit deck))
  switched-is_settled deck calls started_at (Built.artefacts built) =
      elim (Bool-cases (outside.holds calls built)) [
        | inl held ↦ rw held (ground (arith, eq_iff deck.commit deck.commit))
        | inr astray ↦
            rw astray (
              ground
                (arith, eq_iff deck.commit deck.commit, Bool-cases (stands_at_its_commit deck)))
      ]

  given_up-commit :
      (calls : ℕ) (attempt : BuildAttempt) (outcome : BuildOutcome)
      → (given_up_by outside calls outcome attempt).commit ≡ attempt.commit
  given_up-commit calls attempt BuildOutcome.failed = refl
  given_up-commit calls attempt BuildOutcome.running =
      ground
        (arith, Bool-cases (leb (outside.now calls) (attempt.started_at + outside.build_bound)))

  given_up-tried :
      (calls : ℕ) (attempt : Option BuildAttempt) (commit : String)
      → (elim attempt [ none ↦ false | some a ↦ str_eq a.commit commit ]) ≡ true
      → (elim (given_up outside calls attempt) [ none ↦ false | some a ↦ str_eq a.commit commit ])
        ≡ true
  given_up-tried calls none commit e = e
  given_up-tried calls (some a) commit e = rw (given_up-commit calls a a.outcome) e

  or_true : (b : Bool) {c : Bool} → c ≡ true → (b || c) ≡ true
  or_true true e = refl
  or_true false e = e

  -- Whatever the clock and the toolchain answer, a round leaves its deck with nothing to build.
  pub deck_after-is_settled :
      (source : Source) (deck : Deck) (w : World)
      → is_settled (deck_after outside source deck w) ≡ true
  deck_after-is_settled source deck w = elim (Bool-cases (stands_at_its_commit deck)) [
    | inl stands ↦ rw stands (rw stands)
    | inr moved ↦ elim (Bool-cases (was_already_tried deck)) [
      | inl tried ↦
          rw (moved, tried)
            (or_true (stands_at_its_commit deck)
              (given_up-tried w.calls deck.attempt deck.commit tried))
      | inr fresh ↦
          rw (moved, fresh)
            (switched-is_settled deck ((give_up outside deck w).calls + 2)
              (outside.now (give_up outside deck w).calls)
              (outside.build ((give_up outside deck w).calls + 1) deck source))
    ]
  ]
