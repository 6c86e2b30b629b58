-- ===== src/Wire/Judged.antt =====
-- The judgement of a tree: exactly what `_survey` lets pass.
use agent_presentator.Base.{
  ℕ, suc, ◌+◌, ◌*◌, ◌≤◌, ◌≡◌, ◌≢◌, ◌↔◌, refl, Bool, true, false, Option, some, List, [], ◌∷◌,
  length, arith, Bool-cases, inl, inr, ◌==◌, bytes_eq, bytes_eq→eq,
}
use agent_presentator.Wire.{Bytes, maximum_entries, megabyte, scratch_name, pdf_name, talk_name}
use agent_presentator.Wire.Messages.{StepKind}
use agent_presentator.Wire.Trees.{TreeEntry, Walk, Children, tree, size_of}
use agent_presentator.Wire.Receiving.{names_eq}
use agent_presentator.Wire.Survey.{
  Judgement, breaks, is_missing, is_below, judge_size, survey_loop, survey, meets_step_contract,
}
use agent_presentator.Wire.Carrying.{total_size, HasNoScratch}

-- Every entry keeps the contract at its position.
abbrev pub Keeps : Option StepKind → ℕ → List TreeEntry → Type 0
Keeps contract position [] = Unit
Keeps contract position (entry ∷ entries) =
    (breaks contract position entry ≡ false) × Keeps contract (position + 1) entries

-- A walk that is within bounds: it ends, and its entries are few, small, and keep the contract, which
-- asks for one entry at least.
abbrev pub IsWithin : ℕ → Option StepKind → Walk → Type 0
IsWithin megabytes contract walk =
    (walk.ends ≡ true)
    × (length walk.entries ≤ maximum_entries)
    × (total_size walk.entries ≤ megabytes * megabyte)
    × Keeps contract 0 walk.entries
    × (is_missing contract (length walk.entries) ≡ false)

module _ (megabytes : ℕ) (contract : Option StepKind) where
  abbrev pub IsWithinFrom : ℕ → ℕ → List TreeEntry → Bool → Type 0
  IsWithinFrom count total entries ends =
      (ends ≡ true)
      × (count + length entries ≤ maximum_entries)
      × (total + total_size entries ≤ megabytes * megabyte)
      × Keeps contract count entries
      × (is_missing contract (count + length entries) ≡ false)

  judge_size-within :
      (count total : ℕ)
      → judge_size megabytes contract count total ≡ Judgement.within
      → (is_missing contract count ≡ false) × (total ≤ megabytes * megabyte)
  unfolding judge_size
  judge_size-within count total e = elim (Bool-cases (is_missing contract count)) [
    | inl missing ↦ absurd (ground arith)
    | inr there ↦ (there, ground arith)
  ]

  within-judge_size :
      (count total : ℕ)
      → is_missing contract count ≡ false
      → total ≤ megabytes * megabyte
      → judge_size megabytes contract count total ≡ Judgement.within
  unfolding judge_size
  within-judge_size count total there small = ground arith

  survey_loop-round :
      (entry : TreeEntry) (entries : List TreeEntry) (ends : Bool) (count total : ℕ)
      → survey_loop megabytes contract (entry ∷ entries) ends count total ≡ Judgement.within
      → (count ≢ maximum_entries)
        × (breaks contract count entry ≡ false)
        × (survey_loop megabytes contract entries ends (count + 1) (total + size_of entry)
            ≡ Judgement.within)
  unfolding survey_loop
  survey_loop-round entry entries ends count total e =
      elim (Bool-cases (breaks contract count entry)) [
        | inl broken ↦ absurd (ground arith)
        | inr meets ↦ (λ full. absurd (ground arith), meets, ground arith)
      ]

  survey_loop-within :
      (entries : List TreeEntry) (ends : Bool) (count total : ℕ)
      → count ≤ maximum_entries
      → survey_loop megabytes contract entries ends count total ≡ Judgement.within
      → IsWithinFrom count total entries ends
  unfolding survey_loop judge_size
  survey_loop-within [] true count total h e =
      let (there, small) = judge_size-within count total e in
      let here : count ≡ count + 0 = omega arith in
      (refl, omega arith, omega arith, tt, rw (← here) there)
  survey_loop-within [] false count total h e = absurd (ground arith)
  survey_loop-within (entry ∷ entries) ends count total h e =
      let (room, meets, later) = survey_loop-round entry entries ends count total e in
      let rest =
        survey_loop-within entries ends (count + 1) (total + size_of entry) (omega (arith, room))
          later in
      let here : count + 1 + length entries ≡ count + suc (length entries) = omega arith in
      (rest.0, omega (arith, rest.1), omega (arith, rest.2), (meets, rest.3), rw (← here) rest.4)

  within-survey_loop :
      (entries : List TreeEntry) (ends : Bool) (count total : ℕ)
      → IsWithinFrom count total entries ends
      → survey_loop megabytes contract entries ends count total ≡ Judgement.within
  unfolding survey_loop judge_size
  within-survey_loop [] true count total h =
      let here : count + 0 ≡ count = omega arith in
      within-judge_size count total (rw (← here) h.4) (omega (arith, h.2))
  within-survey_loop [] false count total h = absurd (ground arith)
  within-survey_loop (entry ∷ entries) ends count total h =
      let here : count + suc (length entries) ≡ count + 1 + length entries = omega arith in
      let room : (count == maximum_entries) ≡ false = ground (arith, h.1) in
      rw (room, h.3.0)
        (within-survey_loop entries ends (count + 1) (total + size_of entry)
          (h.0, omega (arith, h.1), omega (arith, h.2), h.3.1, rw (← here) h.4))

survey_loop-IsWithin :
    (megabytes : ℕ) (contract : Option StepKind) (walk : Walk)
    → (survey_loop megabytes contract walk.entries walk.ends 0 0 ≡ Judgement.within)
      ↔ IsWithin megabytes contract walk
survey_loop-IsWithin megabytes contract walk =
    let all : 0 + length walk.entries ≡ length walk.entries = omega arith in
    (
      λ e.
          let h =
            survey_loop-within megabytes contract walk.entries walk.ends 0 0 (omega arith) e in
          (h.0, omega (arith, h.1), omega (arith, h.2), h.3, rw (← all) h.4),
      λ h.
          within-survey_loop megabytes contract walk.entries walk.ends 0 0
            (h.0, omega (arith, h.1), omega (arith, h.2), h.3, rw all h.4),
    )

-- A tree is let pass exactly where its walk comes to an end without meeting what no tree may hold, yields
-- at most MAXIMUM_ENTRIES entries that are together no larger than the budget, and each entry keeps the
-- step's contract, which asks for one entry at least.
pub survey-IsWithin :
    (megabytes : ℕ) (contract : Option StepKind) (omitting : Option Bytes) (root : Children)
    → (survey megabytes contract omitting root ≡ Judgement.within)
      ↔ IsWithin megabytes contract (tree omitting root)
unfolding survey
survey-IsWithin megabytes contract omitting root =
    survey_loop-IsWithin megabytes contract (tree omitting root)

below-other :
    (name : Bytes) (path : List Bytes)
    → is_below name path ≡ true
    → bytes_eq name scratch_name ≡ false
    → names_eq path (scratch_name ∷ []) ≡ false
below-other name [] h other = refl
below-other name (first ∷ rest) h other = rw (bytes_eq→eq first name h, other) refl

names_eq-is_below :
    (name : Bytes) (path : List Bytes)
    → names_eq path (name ∷ []) ≡ true
    → is_below name path ≡ true
names_eq-is_below name [] h = h
names_eq-is_below name (first ∷ rest) h = ground arith

-- No entry that keeps a step's contract is the scratch directory.
meets_step_contract-other :
    (step : StepKind) (position : ℕ) (entry : TreeEntry)
    → meets_step_contract step position entry ≡ true
    → names_eq entry.components (scratch_name ∷ []) ≡ false
unfolding meets_step_contract
meets_step_contract-other StepKind.export position entry h =
    below-other pdf_name entry.components
      (names_eq-is_below pdf_name entry.components (ground arith)) refl
meets_step_contract-other StepKind.build position entry h =
    below-other talk_name entry.components
      (ground (arith, names_eq-is_below talk_name entry.components)) refl

pub Keeps-HasNoScratch :
    (step : StepKind) (position : ℕ) (entries : List TreeEntry)
    → Keeps (some step) position entries
    → HasNoScratch entries
Keeps-HasNoScratch step position [] h = tt
Keeps-HasNoScratch step position (entry ∷ entries) h = (
  meets_step_contract-other step position entry (ground (arith, h.0)),
  Keeps-HasNoScratch step (position + 1) entries h.1,
)
