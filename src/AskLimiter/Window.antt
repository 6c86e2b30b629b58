-- ===== src/AskLimiter/Window.antt =====
-- AskLimiter over a whole run: how many questions of one session are admitted in any window.
use agent_presentator.Base.{
  ℕ, ◌+◌, ◌≤◌, ◌≡◌, refl, String, Bool, ◌&&◌, List, [], ◌∷◌, arith, eq_iff, str_eq, if◌then◌else◌,
  length, count, leb, ltb, length-append, leb→le, count-append, count-le-length, Bool-cases, inl,
  inr,
}
use agent_presentator.Base.Dict
use agent_presentator.Base.Dict.{dict_laws}
use agent_presentator.AskLimiter.{AskLimits, AskTicket, AskLimiter, fresh, drop_old, admit, release}
use agent_presentator.AskLimiter.Dicts.{asked_by, HasOneEach}
use agent_presentator.AskLimiter.Records.{
  is_admitted, is_admitted-admit, asked_by-admit, admit-HasOneEach, length-drop_old-le,
}

-- What reaches the limiter: a question at a moment, or the end of an answer.
pub data Event : Type 0 where
  ask : ℕ → String → Event
  finish : AskTicket → Event

-- The limiter, and every question admitted so far with its moment, newest first.
pub record Run : Type 0 where
  pub limiter : AskLimiter
  pub granted : List (String × ℕ)

unfoldable pub step : AskLimits → Event → Run → Run
unfolding is_admitted
step limits (ask now session) r =
    let (answer, s) = admit limits now session r.limiter in
    record {
      limiter = s;
      granted = if is_admitted answer then (session, now) ∷ r.granted else r.granted;
    }
step limits (finish t) r = record r { limiter = release t r.limiter }

unfoldable pub serve : AskLimits → List Event → Run → Run
unfolding step
serve limits [] r = r
serve limits (e ∷ events) r = serve limits events (step limits e r)

-- The clock never runs backwards over the questions.
abbrev pub IsOrdered : ℕ → List Event → Type 0
IsOrdered last [] = Unit
IsOrdered last (ask now session ∷ events) = (last ≤ now) × IsOrdered now events
IsOrdered last (finish t ∷ events) = IsOrdered last events

-- The moment lies in the window that ends at `t`: after `t - window`, and not after `t`.
abbrev pub in_window : AskLimits → ℕ → ℕ → Bool
in_window limits t at = ltb t (at + limits.window) && leb at t

-- How many questions of the session were admitted in the window that ends at `t`.
abbrev pub granted_in : AskLimits → ℕ → String → List (String × ℕ) → ℕ
granted_in limits t session =
    count (λ (entry : String × ℕ). str_eq entry.0 session && in_window limits t entry.1)

count-drop_old :
    (limits : AskLimits) (now t : ℕ) (asked : List ℕ)
    → now ≤ t
    → count (in_window limits t) (drop_old limits.window now asked)
      ≡ count (in_window limits t) asked
unfolding drop_old
count-drop_old limits now t [] h = refl
count-drop_old limits now t (at ∷ asked) h = ground (arith, count-drop_old limits now t asked)

-- The records tell what was admitted: from `last` on, a window counts the questions on record.
pub record IsSound (limits : AskLimits) (last : ℕ) (r : Run) : Type 0 where
  pub one_each : HasOneEach r.limiter.asked
  pub recorded :
      (session : String) (t : ℕ)
      → last ≤ t
      → granted_in limits t session r.granted
        ≡ count (in_window limits t) (asked_by session r.limiter.asked)
  pub fits : (session : String) → length (asked_by session r.limiter.asked) ≤ limits.per_window
  pub bounded :
      (session : String) (t : ℕ) → granted_in limits t session r.granted ≤ limits.per_window

asked-release : (t : AskTicket) (s : AskLimiter) → (release t s).asked ≡ s.asked
unfolding release
asked-release t s = ground arith

module _ (limits : AskLimits) (last now : ℕ) (session : String) (r : Run)
    (h : IsSound limits last r) (later : last ≤ now) where
  abbrev after : Run
  unfolding step
  after = step limits (ask now session) r

  recorded_after :
      (j : String) (t : ℕ)
      → now ≤ t
      → granted_in limits t j after.granted
        ≡ count (in_window limits t) (asked_by j after.limiter.asked)
  unfolding after
  recorded_after j t le = rw (asked_by-admit limits now session r.limiter h.one_each j) (
      ground (
        arith,
        h.recorded j t,
        count-drop_old limits now t (asked_by j r.limiter.asked),
        count-append (in_window limits t) (drop_old limits.window now (asked_by j r.limiter.asked))
            (now ∷ []),
      ))

  fits_after : (j : String) → length (asked_by j after.limiter.asked) ≤ limits.per_window
  unfolding after
  fits_after j = rw (asked_by-admit limits now session r.limiter h.one_each j) (
      ground (
        arith,
        h.fits j,
        eq_iff session j,
        is_admitted-admit limits now session r.limiter h.one_each,
        length-drop_old-le limits.window now (asked_by j r.limiter.asked),
        length-append (drop_old limits.window now (asked_by j r.limiter.asked)) (now ∷ []),
      ))

  bounded_after : (j : String) (t : ℕ) → granted_in limits t j after.granted ≤ limits.per_window
  unfolding after
  bounded_after j t = elim (Bool-cases (leb now t)) [
    | inl le ↦ rw (recorded_after j t (leb→le now t le)) (
        omega (
          arith,
          fits_after j,
          count-le-length (in_window limits t) (asked_by j after.limiter.asked),
        ))
    | inr earlier ↦ ground (arith, h.bounded j t)
  ]

  step_ask-IsSound : IsSound limits now after
  unfolding after
  step_ask-IsSound = record {
    one_each = admit-HasOneEach limits now session r.limiter h.one_each;
    recorded = recorded_after;
    fits = fits_after;
    bounded = bounded_after;
  }

step-finish-IsSound :
    (limits : AskLimits) (last : ℕ) (t : AskTicket) (r : Run)
    → IsSound limits last r
    → IsSound limits last (step limits (finish t) r)
unfolding step
step-finish-IsSound limits last t r h = record {
  one_each = rw (asked-release t r.limiter) h.one_each;
  recorded = λ j u le. rw (asked-release t r.limiter) (h.recorded j u le);
  fits = λ j. rw (asked-release t r.limiter) (h.fits j);
  bounded = h.bounded;
}

serve_bounded :
    (limits : AskLimits) (events : List Event) (last : ℕ) (r : Run)
    → IsSound limits last r
    → IsOrdered last events
    → (session : String) (t : ℕ)
    → granted_in limits t session (serve limits events r).granted ≤ limits.per_window
unfolding serve
serve_bounded limits [] last r h o = h.bounded
serve_bounded limits (ask now session ∷ events) last r h o =
    serve_bounded limits events now (step limits (ask now session) r)
      (unfold after in step_ask-IsSound limits last now session r h o.0) o.1
serve_bounded limits (finish t ∷ events) last r h o =
    serve_bounded limits events last (step limits (finish t) r)
      (step-finish-IsSound limits last t r h) o

abbrev pub started : Run
started = record { limiter = fresh; granted = [] }

started-IsSound : (limits : AskLimits) → IsSound limits 0 started
unfolding Dict.lookup
started-IsSound limits = record {
  one_each = tt;
  recorded = λ session t le. refl;
  fits = λ session. omega arith;
  bounded = λ session t. omega arith;
}

-- Whatever questions and ends of answers reach a fresh limiter, if the clock never runs
-- backwards over the questions, then in every window, wherever it ends, each session was
-- admitted at most `per_window` times.
pub granted-le-per_window :
    (limits : AskLimits) (events : List Event) (session : String) (t : ℕ)
    → IsOrdered 0 events
    → granted_in limits t session (serve limits events started).granted ≤ limits.per_window
granted-le-per_window limits events session t o =
    serve_bounded limits events 0 started (started-IsSound limits) o session t
