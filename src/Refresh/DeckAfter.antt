-- ===== src/Refresh/DeckAfter.antt =====
-- What a round of `_build_what_changed` leaves of a deck, told apart from the tables.
use agent_presentator.Base.{
  ℕ, ◌+◌, String, Bool, false, Option, none, some, leb, str_eq, if◌then◌else◌,
}
use agent_presentator.Contracts.{Source, Deck, Build, BuildAttempt, BuildOutcome}
use agent_presentator.Refresh.{Outside, World, Built, give_up}

-- A talk, or an attempt, of a commit.
abbrev pub is_talk_of : String → Option Build → Bool
is_talk_of commit none = false
is_talk_of commit (some talk) = str_eq talk.commit commit

abbrev pub is_attempt_at : String → Option BuildAttempt → Bool
is_attempt_at commit none = false
is_attempt_at commit (some attempt) = str_eq attempt.commit commit

-- A failed attempt of a commit.
abbrev pub failure_at : String → ℕ → Option String → BuildAttempt
failure_at commit started_at failure = record {
  commit = commit;
  started_at = started_at;
  outcome = BuildOutcome.failed;
  failure = failure;
}

-- A running attempt that outlived the bound has failed; any other attempt is as it was.
abbrev pub given_up_by : Outside → ℕ → BuildOutcome → BuildAttempt → BuildAttempt
given_up_by outside calls BuildOutcome.failed attempt = attempt
given_up_by outside calls BuildOutcome.running attempt =
    if leb (outside.now calls) (attempt.started_at + outside.build_bound)
    then attempt
    else failure_at attempt.commit attempt.started_at attempt.failure

abbrev pub given_up : Outside → ℕ → Option BuildAttempt → Option BuildAttempt
given_up outside calls none = none
given_up outside calls (some attempt) = some (given_up_by outside calls attempt.outcome attempt)

-- What a build that was started leaves: a talk of artefacts that are held, or a failed attempt.
abbrev pub switched : Outside → Deck → ℕ → ℕ → Built → Deck
switched outside deck calls started_at (Built.failure broken) = record deck {
  attempt = some (failure_at deck.commit started_at broken.text);
}
switched outside deck calls started_at (Built.artefacts built) =
    if outside.holds calls built
    then record deck {
      build = some (record {
        directory = built.directory;
        pdf = built.pdf;
        commit = deck.commit;
        built_at = outside.now (calls + 1);
      });
      attempt = none;
    }
    else record deck { attempt = some (failure_at deck.commit started_at none) }

abbrev pub deck_after : Outside → Source → Deck → World → Deck
deck_after outside source deck w =
    if is_talk_of deck.commit deck.build
    then record deck { attempt = none }
    else if is_attempt_at deck.commit deck.attempt
    then record deck { attempt = given_up outside w.calls deck.attempt }
    else let calls = (give_up outside deck w).calls in
      switched outside deck (calls + 2) (outside.now calls) (outside.build (calls + 1) deck source)
