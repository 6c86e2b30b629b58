-- ===== src/BuildClient/Toolchain.antt =====
-- `WorkerToolchain.ran` and `_through_worker`: a step from the deck on disk to what is left of it.
use agent_presentator.Base.{
  ℕ, zero, suc, ◌+◌, ◌-◌, ◌*◌, ◌≤◌, ◌<◌, ◌≡◌, ◌≢◌, ◌⊎◌, inl, inr, refl, ap, Bool, true, false, not,
  ◌||◌, min, Option, none, some, List, [], ◌∷◌, ◌++◌, leb, arith, byte_range, Bool-cases,
}
use agent_presentator.Wire.{
  Result, ok, refused, tree_refused, os_error, raised, stuck, ensure, Bytes, megabyte,
}
use agent_presentator.Wire.Messages.{StepKind, MessageKind, Json, read_message, read_status}
use agent_presentator.Wire.Trees.{TreeEntry, Children}
use agent_presentator.Wire.Survey.{Judgement, check_upload}
use agent_presentator.Wire.Holding.{Ends, Ends-then, Ends-ensure}
use agent_presentator.BuildClient.{Doing, lift, and_then, PageFailure}
use agent_presentator.BuildClient.Socket.{Attempt, deck_refusal, deck_text, refused_deck}
use agent_presentator.BuildClient.Opening.{Opening, after_attempt, opened_loop, opened_within}
use agent_presentator.BuildClient.Ending.{Post, Post-lift, Ends-read_message}
use agent_presentator.BuildClient.Exchange.{
  Place, no_text, exchange_with_worker, Says, IsLeft, exchange_with_worker-IsLeft,
}

module _ (attempt : ℕ → Attempt × ℕ) (slept : ℕ → ℕ → ℕ) (window_ends longest : ℕ)
    (at_least : 1 ≤ longest) (sleeps : (t d : ℕ) → t + d ≤ slept t d)
    (later : (t : ℕ) → t ≤ (attempt t).1) where
  after_attempt-ends :
      (result : Attempt) (after : ℕ) (over : Bool) (again : Opening)
      → (over ≡ false → again ≢ Opening.stuck)
      → after_attempt result after over again ≢ Opening.stuck
  after_attempt-ends Attempt.opened after over again h e = absurd (ground arith)
  after_attempt-ends Attempt.not_yet after true again h e = absurd (ground arith)
  after_attempt-ends Attempt.not_yet after false again h e = h refl e
  after_attempt-ends (Attempt.fails error) after over again h e = absurd (ground arith)

  opened_loop-ends :
      (fuel wait now : ℕ)
      → 1 ≤ wait
      → window_ends - now < fuel
      → opened_loop attempt slept window_ends longest fuel wait now ≢ Opening.stuck
  unfolding opened_loop
  opened_loop-ends zero wait now low enough = absurd (omega arith)
  opened_loop-ends (suc fuel) wait now low enough =
      let after = (attempt now).1 in
      let after_now = later now in
      after_attempt-ends (attempt now).0 after (leb window_ends after)
        (opened_loop attempt slept window_ends longest fuel (min (2 * wait) longest)
          (slept after (min wait (window_ends - after))))
        (λ early.
          let before : after < window_ends = ground (arith, early) in
          let long = sleeps after (min wait (window_ends - after)) in
          opened_loop-ends fuel (min (2 * wait) longest)
            (slept after (min wait (window_ends - after))) (omega (arith, low, at_least))
            (omega (arith, after_now, enough, before, low, long)))

  pub opened_within-ends :
      (first now : ℕ)
      → 1 ≤ first
      → opened_within attempt slept window_ends longest first now ≢ Opening.stuck
  unfolding opened_within
  opened_within-ends first now low =
      opened_loop-ends (window_ends - now + 1) first now low (omega arith)

-- `except (OSError, WireRefusedError, NotTheWorkerError)`
abbrev pub unless_fault : Result (Option PageFailure) × Place → Result (Option PageFailure) × Place
unless_fault (refused, place) = (ok (some no_text), place)
unless_fault (os_error, place) = (ok (some no_text), place)
unless_fault (result, place) = (result, place)

abbrev pub reply_after : Bytes → Option Bytes → Option Bytes
reply_after rest none = none
reply_after rest (some reply) = some (rest ++ reply)

-- What is run where the deck is not refused.
abbrev pub unless_refused :
    Option PageFailure → Doing Place (Option PageFailure) → Doing Place (Option PageFailure)
unless_refused none next place = next place
unless_refused (some failure) next place = (ok (some failure), place)

module _ (chunk : ℕ → ℕ → ℕ) (json : Json) (printable : ℕ → Bool)
    (listed : List TreeEntry → Children) (step : StepKind) (megabytes : ℕ) where
  -- `_through_worker`: `greeting` is what the worker has sent when the connection stands, and `peer` what
  -- it sends after the upload.
  unfoldable pub through_worker :
      Bool → Opening → Bytes → (Bytes → Option Bytes) → Children → Doing Place (Option PageFailure)
  unfolding read_status exchange_with_worker
  through_worker removes (Opening.stands t) greeting peer deck place = unless_fault (
      and_then (lift (read_status chunk json printable greeting))
        (λ rest.
          exchange_with_worker chunk json printable listed removes
            (λ sent. reply_after rest (peer sent)) deck step megabytes)
        place)
  through_worker removes (Opening.gives_up error) greeting peer deck place =
      (ok (some no_text), place)
  through_worker removes Opening.stuck greeting peer deck place = (stuck, place)

  -- `ran`, on the deck if it could be opened
  unfoldable pub ran :
      Bool
      → Opening
      → Bytes
      → (Bytes → Option Bytes)
      → Option Children
      → Doing Place (Option PageFailure)
  unfolding through_worker refused_deck
  ran removes opening greeting peer none place = (ok (some no_text), place)
  ran removes opening greeting peer (some deck) place =
      unless_refused (refused_deck deck megabytes)
        (through_worker removes opening greeting peer deck) place

  abbrev pub RemainsOf : Bool → Place → Option PageFailure → Place → Type 0
  RemainsOf removes place failure place' =
      Says step place.out failure place'.out
      × ((place'.staging ≡ place.staging) ⊎ (place'.staging ≡ not removes))

  abbrev pub Remains : Bool → Place → Result (Option PageFailure) × Place → Type 0
  Remains removes place = Post (RemainsOf removes place) place

  untouched :
      (removes : Bool) (place place' : Place) (failure : PageFailure)
      → place' ≡ place
      → RemainsOf removes place (some failure) place'
  untouched removes place place' failure e = (ap (λ p. p.out) e, inl (ap (λ p. p.staging) e))

  Remains-unless_fault :
      (removes : Bool) (place : Place) (tried : Result (Option PageFailure) × Place)
      → Remains removes place tried
      → Remains removes place (unless_fault tried)
  Remains-unless_fault removes place (ok failure, place') h = h
  Remains-unless_fault removes place (refused, place') h = untouched removes place place' no_text h
  Remains-unless_fault removes place (tree_refused, place') h = h
  Remains-unless_fault removes place (os_error, place') h = untouched removes place place' no_text h
  Remains-unless_fault removes place (raised, place') h = h
  Remains-unless_fault removes place (stuck, place') h = h

  staging_left :
      (removes : Bool) (place place' : Place)
      → place'.staging ≡ (place.staging || not removes)
      → (place'.staging ≡ place.staging) ⊎ (place'.staging ≡ not removes)
  staging_left removes place place' h = elim (Bool-cases place.staging) [
    | inl there ↦ inl (ground arith)
    | inr clear ↦ inr (ground arith)
  ]

  IsLeft-Remains :
      (removes : Bool) (place : Place) (left : Result (Option PageFailure) × Place)
      → IsLeft step removes place left
      → Remains removes place left
  IsLeft-Remains removes place (ok failure, place') h = (h.0, staging_left removes place place' h.1)
  IsLeft-Remains removes place (refused, place') h = absurd h.0
  IsLeft-Remains removes place (tree_refused, place') h = absurd h.0
  IsLeft-Remains removes place (os_error, place') h = absurd h.0
  IsLeft-Remains removes place (raised, place') h = absurd h.0
  IsLeft-Remains removes place (stuck, place') h = absurd h.0

  Ends-read_status : (bytes : Bytes) → Ends (read_status chunk json printable bytes)
  unfolding read_status
  Ends-read_status bytes =
      Ends-then (λ _. Unit) (read_message chunk (MessageKind.status ∷ []) bytes) _
        (Ends-read_message chunk (MessageKind.status ∷ []) bytes)
        (λ ((kind, header), rest).
          Ends-then (λ _. Unit) (ensure (json.is_empty_object header)) _
            (Ends-ensure (json.is_empty_object header)) (λ _. tt))

  Remains-through_worker :
      (removes : Bool) (opening : Opening) (greeting : Bytes) (peer : Bytes → Option Bytes)
      (deck : Children) (place : Place)
      → megabytes * megabyte < byte_range 8
      → opening ≢ Opening.stuck
      → check_upload deck megabytes ≡ Judgement.within
      → Remains removes place (through_worker removes opening greeting peer deck place)
  unfolding through_worker
  Remains-through_worker removes (Opening.stands t) greeting peer deck place bounded ends passed =
      Remains-unless_fault removes place _ (
        Post-lift (RemainsOf removes place) (read_status chunk json printable greeting) _ place
          (Ends-read_status greeting)
          (λ rest.
            let answering = λ (sent : Bytes). reply_after rest (peer sent) in
            IsLeft-Remains removes place
              (exchange_with_worker chunk json printable listed removes answering deck step
                megabytes place)
              (exchange_with_worker-IsLeft chunk json printable listed step megabytes removes
                answering deck place bounded passed)))
  Remains-through_worker removes (Opening.gives_up error) greeting peer deck place bounded ends
        passed =
      untouched removes place place no_text refl
  Remains-through_worker removes Opening.stuck greeting peer deck place bounded ends passed =
      absurd (ends refl)

  Remains-unless_refused :
      (removes : Bool) (place : Place) (judgement : Judgement)
      (next : Doing Place (Option PageFailure))
      → (judgement ≡ Judgement.within → Remains removes place (next place))
      → Remains removes place (unless_refused (deck_refusal judgement megabytes) next place)
  Remains-unless_refused removes place Judgement.within next h = h refl
  Remains-unless_refused removes place (Judgement.outside limit written) next h =
      untouched removes place place (record { text = some (deck_text limit megabytes) }) refl

  Remains-ran :
      (removes : Bool) (opening : Opening) (greeting : Bytes) (peer : Bytes → Option Bytes)
      (deck : Option Children) (place : Place)
      → megabytes * megabyte < byte_range 8
      → opening ≢ Opening.stuck
      → Remains removes place (ran removes opening greeting peer deck place)
  unfolding ran refused_deck
  Remains-ran removes opening greeting peer none place bounded ends =
      untouched removes place place no_text refl
  Remains-ran removes opening greeting peer (some deck) place bounded ends =
      Remains-unless_refused removes place (check_upload deck megabytes)
        (through_worker removes opening greeting peer deck)
        (λ passed.
          Remains-through_worker removes opening greeting peer deck place bounded ends passed)

  -- A step that is run comes to an end, whatever deck is there, whatever the attempts to open the socket
  -- come to, and whatever the worker sends. It has failed, with a failure for the page, and out/ holds the
  -- names it held; or it has succeeded, and out/ has exactly the step's one entry more, which was not there;
  -- or it raises one of the three errors of a connection, a message or a tree, and everything is as it was.
  -- In the first two cases the staging is as it was, or is there only if it could not be removed. The budget
  -- is below 2 ^ 64 bytes, no attempt ends before it began and no sleep early, and the waits are of a
  -- millisecond at least.
  pub ran-Remains :
      (attempt : ℕ → Attempt × ℕ) (slept : ℕ → ℕ → ℕ) (window_ends longest first now : ℕ)
      (removes : Bool) (greeting : Bytes) (peer : Bytes → Option Bytes) (deck : Option Children)
      (place : Place)
      → 1 ≤ first
      → 1 ≤ longest
      → ((t d : ℕ) → t + d ≤ slept t d)
      → ((t : ℕ) → t ≤ (attempt t).1)
      → megabytes * megabyte < byte_range 8
      → Remains removes place (
          ran removes
            (opened_within attempt slept window_ends longest first now)
            greeting
            peer
            deck
            place)
  ran-Remains attempt slept window_ends longest first now removes greeting peer deck place low
        at_least sleeps later bounded =
      Remains-ran removes (opened_within attempt slept window_ends longest first now) greeting peer
        deck place bounded
        (opened_within-ends attempt slept window_ends longest at_least sleeps later first now low)
