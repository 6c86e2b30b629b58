-- ===== src/AskLimiter/Tickets.antt =====
-- AskTicket: who may ask while an answer streams, and what a release does.
use agent_presentator.Base.{
  ℕ, ◌+◌, ◌<◌, ◌≡◌, ◌≢◌, String, true, false, none, some, List, [], ◌∷◌, arith, eq_iff, str_eq,
  if◌then◌else◌, Bool-cases, inl, inr,
}
use agent_presentator.Base.Dict
use agent_presentator.Base.Dict.{Dict}
use agent_presentator.AskLimiter.{
  AskLimits, AskTicket, Admission, AskLimiter, admit, admit_session, forget_idle_sessions,
  full_window, release, still_holds,
}
use agent_presentator.AskLimiter.Dicts.{asked_by}

full_window-ne-admitted :
    (limits : AskLimits) (now : ℕ) (asked : List ℕ) (t : AskTicket)
    → full_window limits now asked ≢ Admission.admitted t
unfolding full_window
full_window-ne-admitted limits now [] t e = cc
full_window-ne-admitted limits now (at ∷ asked) t e = cc

-- What is admitted: no answer of the session streamed before, the ticket is of the session and has the
-- next identity, and it is the one that the session has afterwards, no other session having another.
pub admit-admitted :
    (limits : AskLimits) (now : ℕ) (session : String) (s : AskLimiter) {t : AskTicket}
    {s' : AskLimiter}
    → admit limits now session s ≡ (Admission.admitted t, s')
    → (Dict.contains session s.answering ≡ false)
      × (t ≡ record { session_id = session; identity = s.next_identity })
      × (s'.next_identity ≡ s.next_identity + 1)
      × ((j : String)
          → Dict.lookup j s'.answering
            ≡ (if str_eq session j then some t else Dict.lookup j s.answering))
unfolding admit admit_session forget_idle_sessions
admit-admitted limits now session s {t} {s'} e =
    let idle : AskLimiter = forget_idle_sessions limits now s in
    let mine : List ℕ = asked_by session (Dict.set_default session [] idle.asked) in
    let ticket : AskTicket = record { session_id = session; identity = s.next_identity } in
    (
      ground (arith, full_window-ne-admitted limits now mine t),
      ground (arith, full_window-ne-admitted limits now mine t),
      ground (arith, full_window-ne-admitted limits now mine t),
      λ j. ground (
        arith,
        full_window-ne-admitted limits now mine t,
        Dict.lookup-insert session j ticket s.answering,
      ),
    )

release-release : (t : AskTicket) (s : AskLimiter) → release t (release t s) ≡ release t s
unfolding release still_holds
release-release t s = elim (Bool-cases (still_holds t s)) [
  | inl holds ↦ ground (
    arith,
    Dict.lookup-erase t.session_id t.session_id s.answering,
    eq_iff t.session_id t.session_id,
  )
  | inr lost ↦ ground arith
]

-- After the session was given a newer ticket, releasing an older one changes nothing, and the newer one
-- still holds the session; releasing the newer one twice is the same as releasing it once.
pub release-admit_stale :
    (limits : AskLimits) (now : ℕ) (s : AskLimiter) (stale : AskTicket) {t : AskTicket}
    {s' : AskLimiter}
    → stale.identity < s.next_identity
    → admit limits now stale.session_id s ≡ (Admission.admitted t, s')
    → (release stale s' ≡ s')
      × (still_holds t s' ≡ true)
      × (release t (release t s') ≡ release t s')
unfolding release still_holds
release-admit_stale limits now s stale {t} {s'} older e =
    let (free, is_new, next, held) = admit-admitted limits now stale.session_id s e in
    (
      ground (arith, held stale.session_id, eq_iff stale.session_id stale.session_id),
      ground (arith, held t.session_id, eq_iff stale.session_id t.session_id),
      release-release t s',
    )

-- The ticket that holds its session frees it, and touches no other session and no question on record.
pub release_frees :
    (t : AskTicket) (s : AskLimiter)
    → still_holds t s ≡ true
    → ((j : String)
        → Dict.lookup j (release t s).answering
          ≡ (if str_eq t.session_id j then none else Dict.lookup j s.answering))
      × ((release t s).asked ≡ s.asked)
      × (still_holds t (release t s) ≡ false)
unfolding release still_holds
release_frees t s h = (
  λ j. rw h (Dict.lookup-erase t.session_id j s.answering),
  rw h,
  ground (
    arith,
    Dict.lookup-erase t.session_id t.session_id s.answering,
    eq_iff t.session_id t.session_id,
  ),
)
