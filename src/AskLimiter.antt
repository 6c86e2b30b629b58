-- ===== src/AskLimiter.antt =====
-- AskLimits, RetryAfter, AskTicket and AskLimiter of src/presentator/application/copresenter.py.
-- Moments and durations are whole microseconds, the resolution of Python's datetime. A ticket is
-- told from another by `identity`, a number that no earlier ticket has: Python's `is`. The lock
-- makes each operation one step of the state.
pub mod Dicts
pub mod Records
pub mod Window
pub mod Tickets
pub mod Retry
pub mod Tests
use agent_presentator.Base.{
  ℕ, ◌+◌, ◌-◌, ◌/◌, max, String, Bool, not, ◌&&◌, Option, none, some, List, [], ◌∷◌, ◌++◌, ltb, leb,
  ◌==◌, if◌then◌else◌, option_or, length, is_empty,
}
use agent_presentator.Base.Dict
use agent_presentator.Base.Dict.{Dict}

pub record AskLimits : Type 0 where
  pub per_window : ℕ
  pub window : ℕ
  pub busy_retry_seconds : ℕ

-- the defaults: 20 questions in ten minutes, and one second to wait while an answer streams
abbrev pub default_limits : AskLimits
default_limits = record { per_window = 20; window = 600_000_000; busy_retry_seconds = 1 }

pub record AskTicket : Type 0 where
  pub session_id : String
  pub identity : ℕ

-- What `admit` answers; `index_error` is the exception of `asked[0]` on an empty deque.
pub data Admission : Type 0 where
  admitted : AskTicket → Admission
  retry_after : ℕ → Admission
  index_error : Admission

pub record AskLimiter : Type 0 where
  pub asked : Dict (List ℕ)
  pub answering : Dict AskTicket
  pub next_identity : ℕ

abbrev pub fresh : AskLimiter
fresh = record { asked = []; answering = []; next_identity = 0 }

abbrev pub second : ℕ
second = 1_000_000

-- `math.ceil(d.total_seconds())`
abbrev pub ceil_seconds : ℕ → ℕ
ceil_seconds d = (d + 999_999) / second

-- `while asked and asked[0] <= oldest_counted: asked.popleft()`; `oldest_counted` is `now - window`
unfoldable pub drop_old : ℕ → ℕ → List ℕ → List ℕ
drop_old window now [] = []
drop_old window now (at ∷ asked) =
    if leb (at + window) now then drop_old window now asked else at ∷ asked

-- The loop of `_forget_idle_sessions` over `tuple(self._asked.items())`.
unfoldable pub forget_idle : ℕ → ℕ → Dict AskTicket → Dict (List ℕ) → Dict (List ℕ)
unfolding drop_old
forget_idle window now answering [] = []
forget_idle window now answering ((session, asked) ∷ rest) =
    let kept = drop_old window now asked in
    let others = forget_idle window now answering rest in
    if is_empty kept && not (Dict.contains session answering)
    then others
    else (session, kept) ∷ others

-- `_forget_idle_sessions`
unfoldable pub forget_idle_sessions : AskLimits → ℕ → AskLimiter → AskLimiter
unfolding forget_idle
forget_idle_sessions limits now s = record s {
  asked = forget_idle limits.window now s.answering s.asked;
}

-- The refusal of a full window: `asked[0] + window - now`, in seconds rounded up, at least one.
unfoldable pub full_window : AskLimits → ℕ → List ℕ → Admission
full_window limits now [] = Admission.index_error
full_window limits now (oldest ∷ asked) =
    Admission.retry_after (max 1 (ceil_seconds (oldest + limits.window - now)))

-- `_admit` after the idle sessions are forgotten
unfoldable pub admit_session : AskLimits → ℕ → String → AskLimiter → Admission × AskLimiter
unfolding full_window
admit_session limits now session s =
    if Dict.contains session s.answering
    then (Admission.retry_after limits.busy_retry_seconds, s)
    else let records = Dict.set_default session [] s.asked in
      let mine = option_or (Dict.lookup session records) [] in
      let ticket : AskTicket = record { session_id = session; identity = s.next_identity } in
      if leb limits.per_window (length mine)
      then (full_window limits now mine, record s { asked = records })
      else (
        Admission.admitted ticket,
        record {
          asked = Dict.insert session (mine ++ now ∷ []) records;
          answering = Dict.insert session ticket s.answering;
          next_identity = s.next_identity + 1;
        },
      )

-- `AskLimiter.admit`
unfoldable pub admit : AskLimits → ℕ → String → AskLimiter → Admission × AskLimiter
unfolding admit_session forget_idle_sessions
admit limits now session s = admit_session limits now session (forget_idle_sessions limits now s)

-- `self._answering.get(self.session_id) is self`
unfoldable pub still_holds : AskTicket → AskLimiter → Bool
still_holds t s = elim (Dict.lookup t.session_id s.answering) [
  | none ↦ Bool.false
  | some held ↦ held.identity == t.identity
]

-- `AskTicket.release`
unfoldable pub release : AskTicket → AskLimiter → AskLimiter
unfolding still_holds
release t s =
    if still_holds t s then record s { answering = Dict.erase t.session_id s.answering } else s
