-- ===== src/AskLimiter/Retry.antt =====
-- The answers of a refused question, and what the limiter remembers.
use agent_presentator.Base.{
  ℕ, ◌+◌, ◌*◌, ◌-◌, ◌≤◌, ◌<◌, ◌≡◌, ◌≢◌, refl, String, true, false, some, List, [], ◌∷◌, ◌++◌, arith,
  eq_iff, if◌then◌else◌, leb, length, lt→ltb,
}
use agent_presentator.Base.Dict
use agent_presentator.Base.Dict.{Dict}
use agent_presentator.AskLimiter.{
  AskLimits, AskTicket, Admission, AskLimiter, admit, admit_session, forget_idle_sessions,
  forget_idle, full_window, drop_old, second, ceil_seconds,
}
use agent_presentator.AskLimiter.Dicts.{asked_by, HasOneEach, asked_by-forget_idle}
use agent_presentator.AskLimiter.Records.{
  is_admitted, is_admitted-admit, asked_by-admit, admit-HasOneEach, length-drop_old-le,
}

-- Dropping at one moment and then at a later one leaves what dropping at the later one leaves.
drop_old-drop_old :
    (window now later : ℕ) (asked : List ℕ)
    → now ≤ later
    → drop_old window later (drop_old window now asked) ≡ drop_old window later asked
unfolding drop_old
drop_old-drop_old window now later [] h = refl
drop_old-drop_old window now later (at ∷ asked) h =
    ground (arith, drop_old-drop_old window now later asked)

ceil_seconds-covers : (d : ℕ) → d ≤ ceil_seconds d * second
ceil_seconds-covers d = omega arith

-- Once the oldest question on record has left the window there is room.
room_later :
    (window per_window later : ℕ) (asked : List ℕ)
    → length asked ≤ per_window
    → (oldest : ℕ) (rest : List ℕ) → asked ≡ oldest ∷ rest
    → oldest + window ≤ later
    → length (drop_old window later asked) < per_window
unfolding drop_old
room_later window per_window later [] fits oldest rest e h = cc
room_later window per_window later (at ∷ asked) fits oldest rest e h =
    ground (arith, length-drop_old-le window later asked)

module _ (limits : AskLimits) (now : ℕ) (session : String) (s : AskLimiter)
    (one : HasOneEach s.asked) where
  -- While an answer of the session streams, a question is refused for `busy_retry_seconds`, and
  -- no question is added to any record.
  pub admit_busy :
      Dict.contains session s.answering ≡ true
      → ((admit limits now session s).0 ≡ Admission.retry_after limits.busy_retry_seconds)
        × ((admit limits now session s).1.answering ≡ s.answering)
        × ((j : String)
            → asked_by j (admit limits now session s).1.asked
              ≡ drop_old limits.window now (asked_by j s.asked))
  unfolding admit admit_session forget_idle_sessions
  admit_busy busy = (
    rw busy,
    rw busy,
    λ j. rw busy (asked_by-forget_idle limits.window now s.answering s.asked j one),
  )

  abbrev kept : List ℕ
  kept = drop_old limits.window now (asked_by session s.asked)

  admit_idle :
      Dict.contains session s.answering ≡ false
      → (admit limits now session s).0 ≡ (
          if leb limits.per_window (length kept)
          then full_window limits now kept
          else Admission.admitted (record { session_id = session; identity = s.next_identity }))
  unfolding admit admit_session forget_idle_sessions
  admit_idle idle =
      let records : Dict (List ℕ) = forget_idle limits.window now s.answering s.asked in
      rw idle (
        ground (
          arith,
          Dict.lookup-set_default session session [] records,
          asked_by-forget_idle limits.window now s.answering s.asked session one,
          eq_iff session session,
        ))

-- The moment at which a question refused at `now` with `n` seconds to wait may be asked again.
abbrev retry_moment : ℕ → ℕ → ℕ
retry_moment now n = now + n * second

full_window_wait :
    (limits : AskLimits) (now n later : ℕ) (asked : List ℕ)
    → full_window limits now asked ≡ Admission.retry_after n
    → retry_moment now n ≤ later
    → (oldest : ℕ) × (rest : List ℕ) × (asked ≡ oldest ∷ rest) × (oldest + limits.window ≤ later)
unfolding full_window
full_window_wait limits now n later [] e h = cc
full_window_wait limits now n later (oldest ∷ rest) e h =
    (oldest, rest, refl, grind (arith, ceil_seconds-covers (oldest + limits.window - now)))

answering_refused :
    (limits : AskLimits) (now n : ℕ) (session : String) (s : AskLimiter)
    → (admit limits now session s).0 ≡ Admission.retry_after n
    → (admit limits now session s).1.answering ≡ s.answering
unfolding admit admit_session forget_idle_sessions
answering_refused limits now n session s e = ground arith

-- A refused question may be asked again when the limiter said: if the session's record fits and
-- nothing of it streams, a question refused at `now` with `n` seconds to wait is admitted when it
-- is asked again `n` seconds later, or at any later moment, with nothing in between.
pub admit-retry_after :
    (limits : AskLimits) (now n later : ℕ) (session : String) (s : AskLimiter)
    → HasOneEach s.asked
    → length (asked_by session s.asked) ≤ limits.per_window
    → Dict.contains session s.answering ≡ false
    → (admit limits now session s).0 ≡ Admission.retry_after n
    → retry_moment now n ≤ later
    → is_admitted (admit limits later session (admit limits now session s).1).0 ≡ true
unfolding is_admitted
admit-retry_after limits now n later session s one fits idle refused le =
    let s' : AskLimiter = (admit limits now session s).1 in
    let left : List ℕ = kept limits now session s one in
    let same : asked_by session s'.asked ≡ left =
      ground (arith, asked_by-admit limits now session s one session) in
    let full : full_window limits now left ≡ Admission.retry_after n =
      ground (arith, admit_idle limits now session s one idle) in
    let (oldest, rest, shape, out) = full_window_wait limits now n later left full le in
    let room : length (drop_old limits.window later left) < limits.per_window =
      room_later limits.window limits.per_window later left
        (omega (arith, length-drop_old-le limits.window now (asked_by session s.asked))) oldest rest
        shape out in
    rw (is_admitted-admit limits later session s' (admit-HasOneEach limits now session s one))
      (rw (same, answering_refused limits now n session s refused, idle) (lt→ltb _ _ room))

full_window-ne-index_error :
    (limits : AskLimits) (now : ℕ) (asked : List ℕ)
    → 0 < length asked
    → full_window limits now asked ≢ Admission.index_error
unfolding full_window
full_window-ne-index_error limits now [] h e = absurd (omega arith)
full_window-ne-index_error limits now (at ∷ asked) h e = cc

-- With room for one question at least, `admit` never reads `asked[0]` of an empty record.
pub admit-ne-index_error :
    (limits : AskLimits) (now : ℕ) (session : String) (s : AskLimiter)
    → 0 < limits.per_window
    → (admit limits now session s).0 ≢ Admission.index_error
unfolding admit admit_session
admit-ne-index_error limits now session s pos e =
    let idle : AskLimiter = forget_idle_sessions limits now s in
    let mine : List ℕ = asked_by session (Dict.set_default session [] idle.asked) in
    ground (arith, full_window-ne-index_error limits now mine)

forget_idle-keeps :
    (window now : ℕ) (answering : Dict AskTicket) (d : Dict (List ℕ)) (j : String)
    → Dict.lookup j (forget_idle window now answering d) ≡ some []
    → Dict.contains j answering ≡ true
unfolding forget_idle Dict.lookup
forget_idle-keeps window now answering [] j e = cc
forget_idle-keeps window now answering ((k, asked) ∷ d) j e =
    ground (arith, eq_iff k j, forget_idle-keeps window now answering d j)

-- After every question each record that is kept holds a question, or belongs to a session whose
-- answer streams: the limiter remembers nothing of an idle session.
pub admit_remembers :
    (limits : AskLimits) (now : ℕ) (session j : String) (s : AskLimiter)
    → 0 < limits.per_window
    → Dict.lookup j (admit limits now session s).1.asked ≡ some []
    → Dict.contains j s.answering ≡ true
unfolding admit admit_session forget_idle_sessions
admit_remembers limits now session j s pos e =
    let records : Dict (List ℕ) = forget_idle limits.window now s.answering s.asked in
    let mine : List ℕ = asked_by session (Dict.set_default session [] records) in
    ground (
      arith,
      forget_idle-keeps limits.window now s.answering s.asked j,
      Dict.lookup-set_default session j [] records,
      Dict.lookup-set_default session session [] records,
      Dict.lookup-insert session j (mine ++ now ∷ []) (Dict.set_default session [] records),
      eq_iff session j,
      eq_iff session session,
    )
