-- ===== src/BuildClient/Opening.antt =====
-- `WorkerToolchain._opened`: the loop that waits for the worker within the connect window.
use agent_presentator.Base.{
  ℕ, zero, suc, ◌+◌, ◌-◌, ◌*◌, ◌≤◌, ◌<◌, ◌≡◌, ◌⊎◌, inl, inr, refl, Bool, false, min, if◌then◌else◌,
  leb, arith, Bool-cases, ◌∙◌,
}
use agent_presentator.BuildClient.Socket.{Attempt, Error}

-- What the wait comes to: the time at which the connection stands, or the exception; `stuck` is the
-- model's fuel.
pub data Opening : Type 0 where
  stands : ℕ → Opening
  gives_up : Error → Opening
  stuck : Opening

-- What the loop does with an attempt: the next round, or TimeoutError once the window is over.
abbrev pub after_attempt : Attempt → ℕ → Bool → Opening → Opening
after_attempt Attempt.opened after over again = Opening.stands after
after_attempt Attempt.not_yet after over again =
    if over then Opening.gives_up Error.timeout else again
after_attempt (Attempt.fails error) after over again = Opening.gives_up error

-- `attempt now` is what `_attempt` comes to at a time, and the time afterwards; `slept now wait` is the
-- time after `time.sleep`. Times are in milliseconds.
module _ (attempt : ℕ → Attempt × ℕ) (slept : ℕ → ℕ → ℕ) (window_ends longest : ℕ) where
  -- The loop of `_opened`: the time at which the connection stands.
  unfoldable pub opened_loop : ℕ → ℕ → ℕ → Opening
  opened_loop zero wait now = Opening.stuck
  opened_loop (suc fuel) wait now =
      let (result, after) = attempt now in
      let again =
        opened_loop fuel (min (2 * wait) longest) (slept after (min wait (window_ends - after))) in
      after_attempt result after (leb window_ends after) again

  -- `_opened`: each round ends a millisecond later at least
  unfoldable pub opened_within : ℕ → ℕ → Opening
  unfolding opened_loop
  opened_within first now = opened_loop (window_ends - now + 1) first now

module _ (attempt : ℕ → Attempt × ℕ) (slept : ℕ → ℕ → ℕ)
    (window_ends longest fuel wait now : ℕ) where
  opened_round :
      (attempt now).0 ≡ Attempt.opened
      → opened_loop attempt slept window_ends longest (suc fuel) wait now
        ≡ Opening.stands (attempt now).1
  unfolding opened_loop
  opened_round e = rw e refl

  not_yet_round :
      (attempt now).0 ≡ Attempt.not_yet
      → (attempt now).1 < window_ends
      → opened_loop attempt slept window_ends longest (suc fuel) wait now
        ≡ opened_loop attempt slept window_ends longest fuel
            (min (2 * wait) longest)
            (slept (attempt now).1 (min wait (window_ends - (attempt now).1)))
  unfolding opened_loop
  not_yet_round e early =
      let still : leb window_ends (attempt now).1 ≡ false = ground arith in rw (e, still) refl

-- The loop finds what comes up in time.
module _ (attempt : ℕ → Attempt × ℕ) (slept : ℕ → ℕ → ℕ) (window_ends longest up slow late : ℕ)
    (at_least : 1 ≤ longest) (sleeps : (t d : ℕ) → (t + d ≤ slept t d) × (slept t d ≤ t + d + late))
    (later : (t : ℕ) → t ≤ (attempt t).1)
    (is_up : (t : ℕ) → up ≤ t → t < window_ends → (attempt t).0 ≡ Attempt.opened)
    (not_up : (t : ℕ)
      → t < up
      → ((attempt t).0 ≡ Attempt.opened)
        ⊎ (((attempt t).0 ≡ Attempt.not_yet) × ((attempt t).1 ≤ t + slow)))
    (in_time : up + slow + longest + late < window_ends) where
  opened_loop-opens :
      (fuel wait now : ℕ)
      → 1 ≤ wait
      → wait ≤ longest
      → now ≤ up + slow + longest + late
      → window_ends - now < fuel
      → (t : ℕ) × (opened_loop attempt slept window_ends longest fuel wait now ≡ Opening.stands t)
  unfolding opened_loop
  opened_loop-opens zero wait now low high early enough = absurd (omega arith)
  opened_loop-opens (suc fuel) wait now low high early enough = elim (Bool-cases (leb up now)) [
    | inl there ↦ (
      (attempt now).1,
      opened_round attempt slept window_ends longest fuel wait now
          (is_up now (ground arith) (omega (arith, early, in_time))),
    )
    | inr early_still ↦ elim (not_up now (ground arith)) [
      | inl opened_now ↦
          ((attempt now).1, opened_round attempt slept window_ends longest fuel wait now opened_now)
      | inr (waiting, soon) ↦
          let before : now < up = ground arith in
          let after_now = later now in
          let (long, short) = sleeps (attempt now).1 (min wait (window_ends - (attempt now).1)) in
          let (t, opens) =
            opened_loop-opens fuel (min (2 * wait) longest)
              (slept (attempt now).1 (min wait (window_ends - (attempt now).1)))
              (omega (arith, low, at_least)) (omega arith)
              (omega (arith, soon, before, high, short))
              (omega (arith, after_now, enough, soon, before, in_time, low, long)) in
          (
            t,
            not_yet_round attempt slept window_ends longest fuel wait now waiting
                  (omega (arith, soon, before, in_time))
                ∙ opens,
          )
    ]
  ]

  -- A worker that may not be there yet before a time `up`, where each attempt either opens or comes to not yet
  -- within `slow`, and that every attempt opens from `up` until the connect window ends, is opened. It is
  -- assumed that the window ends more than `slow`, the longest retry and `late` after `up`; that a sleep takes
  -- what it is told at least, and `late` more at most; that no attempt ends before it began; that the waiting
  -- starts no later than `up`; and that the first wait is of a millisecond at least and not above the longest
  -- retry, which is of a millisecond at least too.
  pub opened_within-opens :
      (first now : ℕ)
      → 1 ≤ first
      → first ≤ longest
      → now ≤ up
      → (t : ℕ) × (opened_within attempt slept window_ends longest first now ≡ Opening.stands t)
  unfolding opened_within
  opened_within-opens first now low high early =
      opened_loop-opens (window_ends - now + 1) first now low high (omega (arith, early))
        (omega arith)
