-- ===== src/Refresh/Kept.antt =====
-- The sources' table through a refresh of one source.
use agent_presentator.Base.{
  ◌+◌, ◌≡◌, refl, ◌∙◌, String, Bool, true, false, Option, none, some, List, [], ◌∷◌, arith,
}
use agent_presentator.Contracts.{Source, Deck, Build, BuildAttempt, BuildOutcome}
use agent_presentator.DeckStore
use agent_presentator.SourceStore.{all_sources}
use agent_presentator.Refresh.{
  Outside, World, Built, named, failed, deliver_again, abandon, give_up_attempt, give_up, finish,
  begun, begin, switch_over, build_or_skip, build_or_deliver, build_one, build_each,
  build_what_changed, take_in, take_in_and_build_one, refresh_named,
}

module _ (outside : Outside) where
  kept-abandon :
      (deck : Deck) (attempt : BuildAttempt) (o : BuildOutcome) (w : World)
      → (abandon outside deck attempt o w).sources ≡ w.sources
  unfolding abandon
  kept-abandon deck attempt BuildOutcome.failed w = refl
  kept-abandon deck attempt BuildOutcome.running w = ground arith

  kept-give_up_attempt :
      (deck : Deck) (attempt : Option BuildAttempt) (w : World)
      → (give_up_attempt outside deck attempt w).sources ≡ w.sources
  unfolding give_up_attempt
  kept-give_up_attempt deck none w = refl
  kept-give_up_attempt deck (some attempt) w = kept-abandon deck attempt attempt.outcome w

  kept-finish :
      (deck : Deck) (attempt : BuildAttempt) (b : Built) (w : World)
      → (finish outside deck attempt b w).sources ≡ w.sources
  unfolding finish failed
  kept-finish deck attempt (Built.failure broken) w = refl
  kept-finish deck attempt (Built.artefacts built) w = ground arith

  kept-build_or_skip :
      (deck : Deck) (source : Source) (w : World)
      → (build_or_skip outside deck source w).sources ≡ w.sources
  unfolding build_or_skip switch_over
  kept-build_or_skip deck source w = ground (
    arith,
    kept-finish deck (begun outside deck w) (outside.build (w.calls + 1) deck source)
        (begin outside deck w),
  )

  kept-build_or_deliver :
      (deck : Deck) (source : Source) (build : Option Build) (w : World)
      → (build_or_deliver outside deck source build w).sources ≡ w.sources
  unfolding build_or_deliver deliver_again
  kept-build_or_deliver deck source none w = kept-build_or_skip deck source w
  kept-build_or_deliver deck source (some standing) w =
      ground (arith, kept-build_or_skip deck source w)

  kept-build_one :
      (source : Source) (deck : Deck) (w : World)
      → (build_one outside source deck w).sources ≡ w.sources
  unfolding build_one give_up
  kept-build_one source deck w = ground (
    arith,
    kept-build_or_deliver deck source deck.build (give_up outside deck w),
    kept-give_up_attempt deck deck.attempt w,
  )

  kept-build_each :
      (source : Source) (decks : List Deck) (w : World)
      → (build_each outside source decks w).sources ≡ w.sources
  unfolding build_each
  kept-build_each source [] w = refl
  kept-build_each source (deck ∷ decks) w =
      kept-build_each source decks (build_one outside source deck w) ∙ kept-build_one source deck w

  kept-one :
      (source : Source) (w : World) → (take_in_and_build_one outside source w).sources ≡ w.sources
  unfolding take_in_and_build_one build_what_changed take_in
  kept-one source w =
      kept-build_each source (DeckStore.all (take_in outside source w).decks)
        (take_in outside source w)

  kept-found :
      (found : Option Source) (held : Bool) (name : String) (w : World)
      → named name (all_sources w.sources) ≡ found
      → (refresh_named outside held name w).1.sources ≡ w.sources
  unfolding refresh_named
  kept-found none held name w e = rw (refresh_named, e) refl
  kept-found (some source) true name w e = rw (refresh_named, e) refl
  kept-found (some source) false name w e = rw (refresh_named, e) (kept-one source w)

  pub sources-refresh_named :
      (held : Bool) (name : String) (w : World)
      → (refresh_named outside held name w).1.sources ≡ w.sources
  sources-refresh_named held name w =
      kept-found (named name (all_sources w.sources)) held name w refl
