-- ===== src/AskLimiter/Records.antt =====
-- One call of `admit`: when it admits, and the record of every session afterwards.
use agent_presentator.Base.{
  ℕ, ◌≤◌, ◌≡◌, refl, String, Bool, true, false, ◌&&◌, List, [], ◌∷◌, ◌++◌, arith, eq_iff, str_eq,
  if◌then◌else◌, length, ltb, not,
}
use agent_presentator.Base.Dict
use agent_presentator.Base.Dict.{dict_laws}
use agent_presentator.AskLimiter.{
  AskLimits, Admission, AskLimiter, drop_old, admit, admit_session, forget_idle_sessions,
  full_window,
}
use agent_presentator.AskLimiter.Dicts.{
  asked_by, HasOneEach, asked_by-forget_idle, forget_idle-HasOneEach, insert-HasOneEach,
  set_default-HasOneEach,
}

unfoldable pub is_admitted : Admission → Bool
is_admitted (Admission.admitted t) = true
is_admitted (Admission.retry_after n) = false
is_admitted Admission.index_error = false

pub length-drop_old-le :
    (window now : ℕ) (asked : List ℕ) → length (drop_old window now asked) ≤ length asked
unfolding drop_old
length-drop_old-le window now [] = omega arith
length-drop_old-le window now (at ∷ asked) = ground (arith, length-drop_old-le window now asked)

is_admitted-full_window :
    (limits : AskLimits) (now : ℕ) (asked : List ℕ)
    → is_admitted (full_window limits now asked) ≡ false
unfolding full_window is_admitted
is_admitted-full_window limits now [] = refl
is_admitted-full_window limits now (at ∷ asked) = refl

-- `_admit` once the idle sessions are forgotten: the answer, and the record of every session.
module _ (limits : AskLimits) (now : ℕ) (session : String) (s : AskLimiter) where
  is_admitted-admit_session :
      is_admitted (admit_session limits now session s).0
      ≡ not (Dict.contains session s.answering)
        && ltb (length (asked_by session s.asked)) limits.per_window
  unfolding admit_session is_admitted
  is_admitted-admit_session = ground (
    arith,
    Dict.lookup-set_default session session [] s.asked,
    is_admitted-full_window limits now (asked_by session (Dict.set_default session [] s.asked)),
    eq_iff session session,
  )

  asked_by-admit_session :
      (j : String)
      → asked_by j (admit_session limits now session s).1.asked ≡ (
          if str_eq session j && is_admitted (admit_session limits now session s).0
          then asked_by j s.asked ++ now ∷ []
          else asked_by j s.asked)
  unfolding admit_session is_admitted
  asked_by-admit_session j = ground (
    arith,
    Dict.lookup-set_default session session [] s.asked,
    Dict.lookup-set_default session j [] s.asked,
    Dict.lookup-insert session j
        (asked_by session (Dict.set_default session [] s.asked) ++ now ∷ [])
        (Dict.set_default session [] s.asked),
    is_admitted-full_window limits now (asked_by session (Dict.set_default session [] s.asked)),
    eq_iff session session,
    eq_iff session j,
  )

  admit_session-HasOneEach :
      HasOneEach s.asked → HasOneEach (admit_session limits now session s).1.asked
  unfolding admit_session
  admit_session-HasOneEach one = ground (
    arith,
    set_default-HasOneEach session [] s.asked one,
    insert-HasOneEach session (asked_by session (Dict.set_default session [] s.asked) ++ now ∷ [])
        (Dict.set_default session [] s.asked),
  )

module _ (limits : AskLimits) (now : ℕ) (session : String) (s : AskLimiter)
    (one : HasOneEach s.asked) where
  -- A question is admitted exactly when nothing of its session streams and the window has room.
  pub is_admitted-admit :
      is_admitted (admit limits now session s).0
      ≡ not (Dict.contains session s.answering)
        && ltb (length (drop_old limits.window now (asked_by session s.asked))) limits.per_window
  unfolding admit forget_idle_sessions
  is_admitted-admit =
      rw (is_admitted-admit_session limits now session (forget_idle_sessions limits now s))
        (rw (asked_by-forget_idle limits.window now s.answering s.asked session one))

  -- The record of every session afterwards.
  pub asked_by-admit :
      (j : String)
      → asked_by j (admit limits now session s).1.asked ≡ (
          if str_eq session j && is_admitted (admit limits now session s).0
          then drop_old limits.window now (asked_by j s.asked) ++ now ∷ []
          else drop_old limits.window now (asked_by j s.asked))
  unfolding admit forget_idle_sessions
  asked_by-admit j =
      rw (asked_by-admit_session limits now session (forget_idle_sessions limits now s) j)
        (rw (asked_by-forget_idle limits.window now s.answering s.asked j one))

  pub admit-HasOneEach : HasOneEach (admit limits now session s).1.asked
  unfolding admit forget_idle_sessions
  admit-HasOneEach =
      admit_session-HasOneEach limits now session (forget_idle_sessions limits now s)
        (forget_idle-HasOneEach limits.window now s.answering s.asked one)
