-- ===== src/AskLimiter/Tests.antt =====
-- Runs of the limiter, and its theorems at concrete inputs.
use agent_presentator.Base.{ℕ, ◌≡◌, refl, ◌≤◌, true, List, [], ◌∷◌, arith}
use agent_presentator.Base.Dict
use agent_presentator.AskLimiter.{
  AskLimits, AskTicket, Admission, AskLimiter, admit, release, still_holds,
}
use agent_presentator.AskLimiter.Records.{is_admitted}
use agent_presentator.AskLimiter.Window.{
  Event, ask, finish, granted_in, serve, started, granted-le-per_window,
}
use agent_presentator.AskLimiter.Tickets.{release-admit_stale}
use agent_presentator.AskLimiter.Retry.{admit-retry_after}

abbrev two_per_window : AskLimits
two_per_window = record { per_window = 2; window = 10_000_000; busy_retry_seconds = 1 }

abbrev ticket : ℕ → AskTicket
ticket n = record { session_id = "s"; identity = n }

abbrev busy_morning : List Event
busy_morning =
    ask 1_000_000 "s"
    ∷ finish (ticket 0)
    ∷ ask 2_000_000 "s"
    ∷ finish (ticket 1)
    ∷ ask 3_000_000 "s"
    ∷ ask 11_000_000 "s"
    ∷ []

busy_morning-granted :
    (serve two_per_window busy_morning started).granted
    ≡ ("s", 11_000_000) ∷ ("s", 2_000_000) ∷ ("s", 1_000_000) ∷ []
unfolding serve admit release Dict.lookup Dict.insert Dict.erase Dict.set_default
busy_morning-granted = refl

granted-le-per_window_example :
    granted_in two_per_window 11_000_000 "s" (serve two_per_window busy_morning started).granted ≤ 2
granted-le-per_window_example =
    granted-le-per_window two_per_window busy_morning "s" 11_000_000 (omega arith)

abbrev answered : AskLimiter
answered = record {
  asked = ("s", 1_000_000 ∷ 2_000_000 ∷ []) ∷ [];
  answering = [];
  next_identity = 2;
}

abbrev streaming : AskLimiter
streaming = record {
  asked = ("s", 1_000_000 ∷ []) ∷ [];
  answering = ("s", ticket 0) ∷ [];
  next_identity = 1;
}

-- one question on record, its answer ended
abbrev ended : AskLimiter
ended = record { asked = ("s", 1_000_000 ∷ []) ∷ []; answering = []; next_identity = 1 }

abbrev again : AskLimiter
again = record {
  asked = ("s", 1_000_000 ∷ 2_000_000 ∷ []) ∷ [];
  answering = ("s", ticket 1) ∷ [];
  next_identity = 2;
}

admitted_twice : admit two_per_window 2_000_000 "s" ended ≡ (Admission.admitted (ticket 1), again)
unfolding admit Dict.lookup Dict.insert Dict.set_default
admitted_twice = refl

release-admit_stale_example :
    (release (ticket 0) again ≡ again)
    × (still_holds (ticket 1) again ≡ true)
    × (release (ticket 1) (release (ticket 1) again) ≡ release (ticket 1) again)
release-admit_stale_example =
    release-admit_stale two_per_window 2_000_000 ended (ticket 0) (omega arith) admitted_twice

holds : still_holds (ticket 0) streaming ≡ true
unfolding still_holds Dict.lookup
holds = refl

-- Refused at three seconds: the oldest question leaves the window at eleven.
admit_refused : (admit two_per_window 3_000_000 "s" answered).0 ≡ Admission.retry_after 8
unfolding admit Dict.lookup Dict.set_default
admit_refused = refl

admit-retry_after_example :
    is_admitted
      (admit two_per_window 11_000_000 "s" (admit two_per_window 3_000_000 "s" answered).1).0
    ≡ true
unfolding Dict.lookup
admit-retry_after_example =
    admit-retry_after two_per_window 3_000_000 8 11_000_000 "s" answered (refl, tt) (omega arith)
      refl admit_refused (omega arith)

-- The record of an answer that streams stays, though its question has left the window.
abbrev long_answer : AskLimiter
long_answer = record {
  asked = ("s", 1_000_000 ∷ []) ∷ [];
  answering = ("s", ticket 0) ∷ [];
  next_identity = 1;
}
