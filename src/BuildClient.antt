-- ===== src/BuildClient.antt =====
-- The web's client of the build worker, src/presentator/adapters/build_worker.py: what it takes of a
-- reply, and what an exchange leaves behind.
pub mod Socket
pub mod Opening
pub mod Trusted
pub mod Toolchain
pub mod Replies
pub mod Ending
pub mod Exchange
pub mod Tests
use agent_presentator.Base.{
  ℕ, ◌*◌, ◌≡◌, Bool, true, false, not, ◌&&◌, Option, none, some, List, [], ◌∷◌, any, is_empty,
  is_none, bytes_eq, if◌then◌else◌,
}
use agent_presentator.Base.Int.{ℤ}
use agent_presentator.Wire.{
  Result, ok, refused, tree_refused, os_error, raised, stuck, ◌>>=◌, ◌>>◌, ensure, Bytes,
  maximum_entries, scratch_name, talk_name, pdf_name,
}
use agent_presentator.Wire.Messages.{StepKind, RefusalLimit, Outcome, Json, read_outcome}
use agent_presentator.Wire.Trees.{TreeEntry, Children}
use agent_presentator.Wire.Sending.{send_tree}
use agent_presentator.Wire.Receiving.{receive_entries, read_empty_end}
use agent_presentator.Wire.Survey.{Judgement, check_step_tree, check_upload}

-- A text for a page: the worker's own, or a template with what is put in it (TOO_MUCH_FOR_A_PAGE,
-- TOO_MANY_FOR_A_PAGE, OUTPUT_SHAPE_FOR_A_PAGE, DECK_PATHS_FOR_A_PAGE, DECK_SIZE_FOR_A_PAGE).
pub data PageText : Type 0 where
  of_worker : List ℕ → PageText
  too_much : Option ℤ → ℕ → PageText
  too_many : ℕ → PageText
  output_shape : PageText
  deck_paths : PageText
  deck_size : ℕ → ℕ → PageText

-- BuildFailure, over the texts above
pub record PageFailure : Type 0 where
  pub text : Option PageText

abbrev pub is_megabytes : RefusalLimit → Bool
is_megabytes RefusalLimit.megabytes = true
is_megabytes other = false

abbrev pub same : Bool → Bool → Bool
same true b = b
same false b = not b

-- `_refusal_text`
abbrev pub limit_text : RefusalLimit → Option ℤ → ℕ → PageText
limit_text RefusalLimit.megabytes written megabytes = PageText.too_much written megabytes
limit_text RefusalLimit.entries written megabytes = PageText.too_many maximum_entries
limit_text RefusalLimit.shape written megabytes = PageText.output_shape

unfoldable pub refusal_text : RefusalLimit → Option ℤ → ℕ → Result PageText
refusal_text limit written megabytes =
    ensure (same (not (is_none written)) (is_megabytes limit))
    >> ok (limit_text limit written megabytes)

-- `_nothing_follows`
unfoldable pub nothing_follows : Bytes → Result (Unit {0})
nothing_follows bytes = ensure (is_empty bytes)

-- The step's one entry in out/
abbrev pub admitted_name : StepKind → Bytes
admitted_name StepKind.build = talk_name
admitted_name StepKind.export = pdf_name

-- What a call comes to, and the state that it leaves, whether it returns or raises.
abbrev pub Doing : Type 0 → Type 0 → Type 0
Doing S A = S → Result A × S

-- A call that leaves the state alone.
abbrev pub lift : {S A : Type 0} → Result A → Doing S A
lift result s = (result, s)

abbrev pub follow : {S A B : Type 0} → (A → Doing S B) → Result A × S → Result B × S
follow next (ok a, s) = next a s
follow next (refused, s) = (refused, s)
follow next (tree_refused, s) = (tree_refused, s)
follow next (os_error, s) = (os_error, s)
follow next (raised, s) = (raised, s)
follow next (stuck, s) = (stuck, s)

-- One call and then another, which is not begun if the first raises.
abbrev pub and_then : {S A B : Type 0} → Doing S A → (A → Doing S B) → Doing S B
and_then first next s = follow next (first s)

-- `_admitted`, over the names in out/
unfoldable pub admitted : StepKind → Doing (List Bytes) (Unit {0})
admitted step out =
    if any (λ other. bytes_eq other (admitted_name step)) out
    then (os_error, out)
    else (ok tt, admitted_name step ∷ out)

-- A TreeRefusedError for what is outside the contract.
abbrev pub require_within : Judgement → Result (Unit {0})
require_within Judgement.within = ok tt
require_within (Judgement.outside limit written) = tree_refused

-- `_failure_text`
unfoldable pub failure_text : Outcome → ℕ → Result (Option PageText)
unfolding refusal_text
failure_text (Outcome.refusal limit written) megabytes =
    refusal_text limit written megabytes >>= λ text. ok (some text)
failure_text (Outcome.failed none) megabytes = ok none
failure_text (Outcome.failed (some text)) megabytes = ok (some (PageText.of_worker text))
failure_text Outcome.built megabytes = ok none

-- `chunk` is how much the connection and the disk take at a time, and `listed` the directory that the
-- operating system shows once the entries are written below it. The state is the names in out/.
module _ (chunk : ℕ → ℕ → ℕ) (json : Json) (printable : ℕ → Bool)
    (listed : List TreeEntry → Children) where
  -- `_staged_reply`
  unfoldable pub staged_reply : StepKind → ℕ → Bytes → Doing (List Bytes) (Unit {0})
  unfolding nothing_follows admitted receive_entries check_step_tree
  staged_reply step megabytes bytes =
      and_then (lift (receive_entries chunk megabytes bytes)) (λ received.
        and_then (lift (nothing_follows received.1)) (λ _.
          and_then (lift (require_within (check_step_tree (listed received.0) step megabytes)))
            (λ _. admitted step)))

  -- What `_answer` makes of an outcome.
  abbrev pub failed_reply : Outcome → ℕ → Bytes → Result (Option PageFailure)
  failed_reply outcome megabytes bytes = do
    text ← failure_text outcome megabytes
    rest ← read_empty_end chunk bytes
    nothing_follows rest >> ok (some (record { text = text }))

  unfoldable pub answer_to :
      Outcome → StepKind → ℕ → Bytes → Doing (List Bytes) (Option PageFailure)
  unfolding staged_reply failure_text nothing_follows read_empty_end
  answer_to Outcome.built step megabytes bytes =
      and_then (staged_reply step megabytes bytes) (λ _. lift (ok none))
  answer_to outcome step megabytes bytes = lift (failed_reply outcome megabytes bytes)

  -- `_answer`
  unfoldable pub answer : StepKind → ℕ → Bytes → Doing (List Bytes) (Option PageFailure)
  unfolding answer_to read_outcome
  answer step megabytes bytes =
      and_then (lift (read_outcome chunk json printable bytes))
        (λ read. answer_to read.0 step megabytes read.1)
