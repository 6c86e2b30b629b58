-- ===== src/Refresh/Builds.antt =====
-- Which builds a pass starts, and what it leaves alone.
use agent_presentator.Base.{
  ◌+◌, ◌≡◌, refl, ap, ◌∙◌, String, true, false, not, ◌&&◌, Option, none, some, List, [], ◌∷◌,
  str_eq, leb, if◌then◌else◌, arith, eq_iff, is_none, Bool-cases, inl, inr, ◌⊎◌, All,
}
use agent_presentator.Contracts.{Source, Deck, Build, BuildAttempt, BuildOutcome}
use agent_presentator.DeckStore
use agent_presentator.DeckStore.{Table, DeckRow, deck_of, is_listed, has_slug}
use agent_presentator.DeckStore.Rows.{row_at, HasUniqueSlugs}
use agent_presentator.Refresh.{
  Outside, World, Built, abandon, give_up_attempt, give_up, deliver_again, begun, begin, finish,
  was_already_tried, stands_at_its_commit, build_or_skip, build_or_deliver, build_one, build_each,
  build_what_changed,
}
use agent_presentator.Refresh.OneDeck.{is_settled, build_one-Touches}
use agent_presentator.Refresh.Listed.{
  is_own, Current, Apart, AllSettled, Current-all, Apart-all, All-all, some_eq,
}
use agent_presentator.Refresh.Pass.{build_what_changed-AllSettled, Current-step}

-- The builds that the decks of a source ask for, newest first, on top of earlier ones.
abbrev pub asked_builds : Source → List Deck → List (String × String) → List (String × String)
asked_builds source [] log = log
asked_builds source (d ∷ decks) log =
    asked_builds source decks
      (if is_own source d && not (is_settled d) then (d.slug, d.commit) ∷ log else log)

module _ (outside : Outside) where
  builds-abandon :
      (deck : Deck) (attempt : BuildAttempt) (outcome : BuildOutcome) (w : World)
      → (abandon outside deck attempt outcome w).builds ≡ w.builds
  unfolding abandon
  builds-abandon deck attempt BuildOutcome.failed w = refl
  builds-abandon deck attempt BuildOutcome.running w =
      ground
        (arith, Bool-cases (leb (outside.now w.calls) (attempt.started_at + outside.build_bound)))

  builds-give_up_attempt :
      (deck : Deck) (attempt : Option BuildAttempt) (w : World)
      → (give_up_attempt outside deck attempt w).builds ≡ w.builds
  unfolding give_up_attempt
  builds-give_up_attempt deck none w = refl
  builds-give_up_attempt deck (some attempt) w = builds-abandon deck attempt attempt.outcome w

  builds-give_up : (deck : Deck) (w : World) → (give_up outside deck w).builds ≡ w.builds
  unfolding give_up
  builds-give_up deck w = builds-give_up_attempt deck deck.attempt w

  builds-finish :
      (deck : Deck) (attempt : BuildAttempt) (built : Built) (w : World)
      → (finish outside deck attempt built w).builds ≡ w.builds
  unfolding finish
  builds-finish deck attempt (Built.failure broken) w = refl
  builds-finish deck attempt (Built.artefacts built) w =
      ground (arith, Bool-cases (outside.holds w.calls built))

  builds-build_or_skip :
      (deck : Deck) (source : Source) (w : World)
      → (build_or_skip outside deck source w).builds
        ≡ (if was_already_tried deck then w.builds else (deck.slug, deck.commit) ∷ w.builds)
  unfolding build_or_skip
  builds-build_or_skip deck source w = ground (
    arith,
    builds-finish deck (begun outside deck w) (outside.build (w.calls + 1) deck source)
        (begin outside deck w),
  )

  builds-deliver_again :
      (deck : Deck) (b : Build) (w : World) → (deliver_again deck b w).builds ≡ w.builds
  unfolding deliver_again
  builds-deliver_again deck b w = ground (arith, Bool-cases (is_none deck.attempt))

  builds-build_or_deliver :
      (deck : Deck) (source : Source) (build : Option Build) (w : World)
      → deck.build ≡ build
      → (build_or_deliver outside deck source build w).builds
        ≡ (if is_settled deck then w.builds else (deck.slug, deck.commit) ∷ w.builds)
  unfolding build_or_deliver
  builds-build_or_deliver deck source none w e =
      let away : stands_at_its_commit deck ≡ false = ground arith in
      rw away (builds-build_or_skip deck source w)
  builds-build_or_deliver deck source (some standing) w e =
      elim (Bool-cases (str_eq standing.commit deck.commit)) [
        | inl stands ↦
            let at_commit : stands_at_its_commit deck ≡ true = ground arith in
            rw (stands, at_commit) (builds-deliver_again deck standing w)
        | inr moved ↦
            let away : stands_at_its_commit deck ≡ false = ground arith in
            rw (moved, away) (builds-build_or_skip deck source w)
      ]

  builds-build_one :
      (source : Source) (deck : Deck) (w : World)
      → (build_one outside source deck w).builds ≡ (
          if is_own source deck && not (is_settled deck)
          then (deck.slug, deck.commit) ∷ w.builds
          else w.builds)
  unfolding build_one
  builds-build_one source deck w = ground (
    arith,
    builds-build_or_deliver deck source deck.build (give_up outside deck w) refl,
    builds-give_up deck w,
  )

  builds-build_each :
      (source : Source) (decks : List Deck) (w : World)
      → (build_each outside source decks w).builds ≡ asked_builds source decks w.builds
  unfolding build_each
  builds-build_each source [] w = refl
  builds-build_each source (deck ∷ decks) w =
      builds-build_each source decks (build_one outside source deck w)
      ∙ ap (asked_builds source decks) (builds-build_one source deck w)

  -- A pass starts exactly one build for each listed deck of the source whose talk does not stand at
  -- its commit and whose commit was not tried, and no other.
  pub builds-build_what_changed :
      (source : Source) (w : World)
      → (build_what_changed outside source w).builds
        ≡ asked_builds source (DeckStore.all w.decks) w.builds
  unfolding build_what_changed
  builds-build_what_changed source w = builds-build_each source (DeckStore.all w.decks) w

  asked_builds_settled :
      (source : Source) (decks : List Deck) (log : List (String × String))
      → All (λ (d : Deck). is_own source d && not (is_settled d) ≡ false) decks
      → asked_builds source decks log ≡ log
  asked_builds_settled source [] log h = refl
  asked_builds_settled source (d ∷ decks) log h = rw h.0 (asked_builds_settled source decks log h.1)

  all_settled :
      (source : Source) (table : Table)
      → HasUniqueSlugs table
      → AllSettled source table
      → All (λ (d : Deck). is_own source d && not (is_settled d) ≡ false) (DeckStore.all table)
  all_settled source table h settled =
      All-all (λ (d : Deck). is_own source d && not (is_settled d) ≡ false) table h
        (λ j row at listed. ground (arith, settled j row at listed))

  -- In a table that holds each slug once, a second pass with no push in between starts no build,
  -- whatever came of the first: a deck that cannot build costs one build, not one for each refresh.
  pub build_what_changed_again :
      (source : Source) (w : World)
      → HasUniqueSlugs w.decks
      → (build_what_changed outside source (build_what_changed outside source w)).builds
        ≡ (build_what_changed outside source w).builds
  build_what_changed_again source w h =
      let after : World = build_what_changed outside source w in
      let (unique, settled) = build_what_changed-AllSettled outside source w h in
      builds-build_what_changed source after
      ∙ asked_builds_settled source (DeckStore.all after.decks) after.builds
          (all_settled source after.decks unique settled)

  others-build_each :
      (source : Source) (decks : List Deck) (w : World) (j : String) (row : DeckRow)
      → HasUniqueSlugs w.decks
      → Current w.decks decks
      → Apart decks
      → row_at j w.decks ≡ some row
      → str_eq row.source_id source.id ≡ false
      → row_at j (build_each outside source decks w).decks ≡ some row
  unfolding build_each
  others-build_each source [] w j row h current apart at foreign = at
  others-build_each source (deck ∷ decks) w j row h current apart at foreign =
      others-build_each source decks (build_one outside source deck w) j row
        (build_one-Touches outside source deck w h).unique
        (Current-step outside source deck decks w h apart.0 current.1) apart.1
        (same_row (Bool-cases (str_eq deck.slug j))) foreign
    where
      same_row :
          ((str_eq deck.slug j ≡ true) ⊎ (str_eq deck.slug j ≡ false))
          → row_at j (build_one outside source deck w).decks ≡ some row
      same_row (inr other) = (build_one-Touches outside source deck w h).others j other ∙ at
      same_row (inl same) =
          let e : deck.slug ≡ j = (eq_iff deck.slug j).0 same in
          let found : current.0.0 ≡ row = some_eq (row_at j w.decks) (rw (← e) current.0.1) at in
          let not_own : is_own source deck ≡ false =
            rw (← current.0.2) (unfold deck_of in rw found foreign) in
          unfold build_one in rw not_own at

  -- In a table that holds each slug once, a pass over one source leaves the row of every deck of
  -- another source exactly as it was.
  pub build_what_changed_others :
      (source : Source) (w : World) (j : String) (row : DeckRow)
      → HasUniqueSlugs w.decks
      → row_at j w.decks ≡ some row
      → str_eq row.source_id source.id ≡ false
      → row_at j (build_what_changed outside source w).decks ≡ some row
  unfolding build_what_changed
  build_what_changed_others source w j row h at foreign =
      others-build_each source (DeckStore.all w.decks) w j row h (Current-all w.decks h)
        (Apart-all w.decks h) at foreign
