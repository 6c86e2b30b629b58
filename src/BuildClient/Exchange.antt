-- ===== src/BuildClient/Exchange.antt =====
-- `exchange_with_worker`: what is left of an exchange, whatever the worker answers.
use agent_presentator.Base.{
  ℕ, ◌*◌, ◌<◌, ◌≡◌, refl, Bool, true, false, not, ◌||◌, inl, inr, Option, none, some, List, ◌∷◌,
  any, is_empty, is_none, bytes_eq, if◌then◌else◌, byte_range, arith, Bool-cases,
}
use agent_presentator.Wire.{
  Result, ok, refused, tree_refused, os_error, raised, stuck, ensure, Bytes, megabyte, scratch_name,
}
use agent_presentator.Wire.Messages.{StepKind, Outcome, Json, read_outcome}
use agent_presentator.Wire.Trees.{TreeEntry, Children}
use agent_presentator.Wire.Sending.{send_tree}
use agent_presentator.Wire.Receiving.{receive_entries, read_empty_end}
use agent_presentator.Wire.Survey.{Judgement, check_step_tree, check_upload}
use agent_presentator.Wire.Holding.{Holds, Returns, Ends, Holds-weaken, Ends-then, Ends-ensure}
use agent_presentator.Wire.Bounds.{Written, receive_entries-Holds}
use agent_presentator.Wire.RoundTrip.{sent_bytes, send_tree-check_upload}
use agent_presentator.BuildClient.Ending.{
  Ends-read_empty_end, Ends-read_outcome, Post, Post-value, Post-lift, Ends-require_within,
  Ends-failure_text,
}
use agent_presentator.BuildClient.{
  Doing, lift, follow, and_then, failed_reply, PageFailure, nothing_follows, admitted_name,
  admitted, require_within, staged_reply, failure_text, answer_to, answer,
}

-- What an exchange leaves: whether the staging is there, and the names in out/.
pub record Place : Type 0 where
  pub staging : Bool
  pub out : List Bytes

-- `_failure_of`, less its log line
abbrev pub no_text : PageFailure
no_text = record { text = none }

-- What the worker answers to what was sent, or nothing where the connection breaks.
abbrev pub connected : Option Bytes → Result Bytes
connected none = os_error
connected (some reply) = ok reply

-- `finally: _cleared(…)`, then `except (OSError, WireRefusedError, TreeRefusedError)`; `removes` is whether
-- the staging could be removed.
abbrev pub caught : Result (Option PageFailure) → Result (Option PageFailure)
caught refused = ok (some no_text)
caught tree_refused = ok (some no_text)
caught os_error = ok (some no_text)
caught other = other

unfoldable pub settled :
    Bool → Result (Option PageFailure) × List Bytes → Result (Option PageFailure) × Place
settled removes (result, out) = (caught result, record { staging = not removes; out = out })

module _ (chunk : ℕ → ℕ → ℕ) (json : Json) (printable : ℕ → Bool)
    (listed : List TreeEntry → Children) where
  -- What is tried below the staging: the upload, and the answer to it.
  abbrev pub exchanged :
      (Bytes → Option Bytes) → Children → StepKind → ℕ → Doing (List Bytes) (Option PageFailure)
  exchanged peer deck step megabytes =
      and_then (lift (send_tree chunk (some scratch_name) deck)) (λ sent.
        and_then (lift (connected (peer sent)))
          (λ reply. answer chunk json printable listed step megabytes reply))

  -- `exchange_with_worker`
  unfoldable pub exchange_with_worker :
      Bool → (Bytes → Option Bytes) → Children → StepKind → ℕ → Doing Place (Option PageFailure)
  unfolding settled answer
  exchange_with_worker removes peer deck step megabytes place =
      if place.staging
      then (ok (some no_text), place)
      else settled removes (exchanged peer deck step megabytes place.out)

module _ (step : StepKind) where
  abbrev pub Admits : List Bytes → List Bytes → Type 0
  Admits out out' =
      (any (λ other. bytes_eq other (admitted_name step)) out ≡ false)
      × (out' ≡ admitted_name step ∷ out)

  -- No failure: the step's entry is in out/, which was not; a failure: out/ is as it was.
  abbrev pub Says : List Bytes → Option PageFailure → List Bytes → Type 0
  Says out none out' = Admits out out'
  Says out (some failure) out' = out' ≡ out

  abbrev pub Leaves : List Bytes → Result (Option PageFailure) × List Bytes → Type 0
  Leaves out = Post (Says out) out

  Leaves-success :
      (out : List Bytes) (left : Result (Unit {0}) × List Bytes)
      → Post (λ _ out'. Admits out out') out left
      → Leaves out (follow (λ _. lift (ok none)) left)
  Leaves-success out (ok a, out') h = h
  Leaves-success out (refused, out') h = h
  Leaves-success out (tree_refused, out') h = h
  Leaves-success out (os_error, out') h = h
  Leaves-success out (raised, out') h = h
  Leaves-success out (stuck, out') h = h

Says-failed :
    (step : StepKind) (out : List Bytes) (failure : Option PageFailure)
    → is_none failure ≡ false
    → Says step out failure out
Says-failed step out none h = absurd (ground arith)
Says-failed step out (some failure) h = refl

Ends-connected : (reply : Option Bytes) → Ends (connected reply)
Ends-connected none = tt
Ends-connected (some reply) = tt

module _ (chunk : ℕ → ℕ → ℕ) (json : Json) (printable : ℕ → Bool)
    (listed : List TreeEntry → Children) (step : StepKind) (megabytes : ℕ) where
  Holds-failed_reply :
      (outcome : Outcome) (bytes : Bytes)
      → Holds
          (λ failure. is_none failure ≡ false)
          (failed_reply chunk json printable listed outcome megabytes bytes)
  unfolding nothing_follows
  Holds-failed_reply outcome bytes =
      Ends-then (λ failure. is_none failure ≡ false) (failure_text outcome megabytes) _
        (Ends-failure_text outcome megabytes)
        (λ text.
          Ends-then (λ failure. is_none failure ≡ false) (read_empty_end chunk bytes) _
            (Ends-read_empty_end chunk bytes)
            (λ rest.
              Ends-then (λ failure. is_none failure ≡ false) (ensure (is_empty rest)) _
                (Ends-ensure (is_empty rest)) (λ _. refl)))

  Post-admitted : (out : List Bytes) → Post (λ _ out'. Admits step out out') out (admitted step out)
  unfolding admitted
  Post-admitted out = elim (Bool-cases (any (λ other. bytes_eq other (admitted_name step)) out)) [
    | inl there ↦ rw there refl
    | inr absent ↦ rw absent (refl, refl)
  ]

  Post-staged_reply :
      (out : List Bytes) (bytes : Bytes)
      → Post
          (λ _ out'. Admits step out out')
          out
          (staged_reply chunk json printable listed step megabytes bytes out)
  unfolding staged_reply nothing_follows
  Post-staged_reply out bytes =
      let P = λ (u : Unit {0}) (out' : List Bytes). Admits step out out' in
      Post-lift P (receive_entries chunk megabytes bytes) _ out
        (Holds-weaken (Written megabytes chunk) (λ _. Unit) (receive_entries chunk megabytes bytes)
          (λ _ _. tt) (receive_entries-Holds megabytes chunk bytes))
        (λ received.
          Post-lift P (ensure (is_empty received.1)) _ out (Ends-ensure (is_empty received.1)) (λ _.
            Post-lift P (require_within (check_step_tree (listed received.0) step megabytes)) _ out
              (Ends-require_within (check_step_tree (listed received.0) step megabytes))
              (λ _. Post-admitted out)))

  Leaves-failed :
      (outcome : Outcome) (out : List Bytes) (bytes : Bytes)
      → Leaves step out
          (lift (failed_reply chunk json printable listed outcome megabytes bytes) out)
  Leaves-failed outcome out bytes =
      Post-value (Says step out) (failed_reply chunk json printable listed outcome megabytes bytes)
        out
        (Holds-weaken (λ failure. is_none failure ≡ false) (λ failure. Says step out failure out)
          (failed_reply chunk json printable listed outcome megabytes bytes) (Says-failed step out)
          (Holds-failed_reply outcome bytes))

  Leaves-answer_to :
      (outcome : Outcome) (out : List Bytes) (bytes : Bytes)
      → Leaves step out (answer_to chunk json printable listed outcome step megabytes bytes out)
  unfolding answer_to
  Leaves-answer_to Outcome.built out bytes =
      Leaves-success step out (staged_reply chunk json printable listed step megabytes bytes out)
        (Post-staged_reply out bytes)
  Leaves-answer_to (Outcome.refusal limit written) out bytes =
      Leaves-failed (Outcome.refusal limit written) out bytes
  Leaves-answer_to (Outcome.failed text) out bytes = Leaves-failed (Outcome.failed text) out bytes

  Leaves-answer :
      (out : List Bytes) (bytes : Bytes)
      → Leaves step out (answer chunk json printable listed step megabytes bytes out)
  unfolding answer
  Leaves-answer out bytes =
      Post-lift (Says step out) (read_outcome chunk json printable bytes) _ out
        (Ends-read_outcome chunk json printable bytes) (λ read. Leaves-answer_to read.0 out read.1)

  Leaves-exchanged :
      (peer : Bytes → Option Bytes) (deck : Children) (out : List Bytes)
      → megabytes * megabyte < byte_range 8
      → check_upload deck megabytes ≡ Judgement.within
      → Leaves step out (exchanged chunk json printable listed peer deck step megabytes out)
  Leaves-exchanged peer deck out bounded passed =
      rw (send_tree-check_upload chunk megabytes bounded deck passed) (
        Post-lift (Says step out) (connected (peer (sent_bytes deck))) _ out
          (Ends-connected (peer (sent_bytes deck))) (λ reply. Leaves-answer out reply))

-- What an exchange leaves of a place.
abbrev pub IsLeft : StepKind → Bool → Place → Result (Option PageFailure) × Place → Type 0
IsLeft step removes place (result, place') =
    (Returns (λ failure. Says step place.out failure place'.out) result)
    × (place'.staging ≡ (place.staging || not removes))

IsLeft-settled :
    (step : StepKind) (removes : Bool) (place : Place)
    (tried : Result (Option PageFailure) × List Bytes)
    → place.staging ≡ false
    → Leaves step place.out tried
    → IsLeft step removes place (settled removes tried)
unfolding settled
IsLeft-settled step removes place (ok failure, out) clear h = (h, rw clear refl)
IsLeft-settled step removes place (refused, out) clear h = (h, rw clear refl)
IsLeft-settled step removes place (tree_refused, out) clear h = (h, rw clear refl)
IsLeft-settled step removes place (os_error, out) clear h = (h, rw clear refl)
IsLeft-settled step removes place (raised, out) clear h = absurd h
IsLeft-settled step removes place (stuck, out) clear h = absurd h

IsLeft-if :
    (step : StepKind) (removes : Bool) (place : Place) (b : Bool)
    (m n : Result (Option PageFailure) × Place)
    → (b ≡ true → IsLeft step removes place m)
    → (b ≡ false → IsLeft step removes place n)
    → IsLeft step removes place (if b then m else n)
IsLeft-if step removes place true m n h k = h refl
IsLeft-if step removes place false m n h k = k refl

-- An exchange over a deck that `check_upload` passes, with whatever answers on the socket, comes to an end
-- and raises nothing, if the budget is below 2 ^ 64 bytes. Either it has failed, with a failure
-- for the page, and the names in out/ are those that were there; or it has not, and out/ has exactly the
-- step's one entry more, which was not there. The staging is there afterwards only where it could not
-- be removed or was there before.
pub exchange_with_worker-IsLeft :
    (chunk : ℕ → ℕ → ℕ) (json : Json) (printable : ℕ → Bool) (listed : List TreeEntry → Children)
    (step : StepKind) (megabytes : ℕ) (removes : Bool) (peer : Bytes → Option Bytes)
    (deck : Children) (place : Place)
    → megabytes * megabyte < byte_range 8
    → check_upload deck megabytes ≡ Judgement.within
    → IsLeft step removes place
        (exchange_with_worker chunk json printable listed removes peer deck step megabytes place)
unfolding exchange_with_worker
exchange_with_worker-IsLeft chunk json printable listed step megabytes removes peer deck place
      bounded passed =
    let tried = exchanged chunk json printable listed peer deck step megabytes place.out in
    IsLeft-if step removes place place.staging (ok (some no_text), place) (settled removes tried)
      (λ there. (refl, rw there refl))
      (λ clear. IsLeft-settled step removes place tried clear (
        Leaves-exchanged chunk json printable listed step megabytes peer deck place.out bounded
          passed))
