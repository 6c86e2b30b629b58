-- ===== src/Wire/Record.antt =====
-- `write_record` and `read_record`: the file that keeps a request between the children of one life.
use agent_presentator.Base.{
  ℕ, zero, suc, ◌+◌, ◌≤◌, ◌≡◌, refl, ap, sym, ◌∙◌, max, min, Bool, true, some, List, [], ◌∷◌, ◌++◌,
  leb, length, take, drop, arith, length-append, length-drop, take-drop, append_assoc, append-nil,
}
use agent_presentator.Wire.{Result, ok, stuck, ◌>>◌, ensure, Bytes, maximum_header_bytes}
use agent_presentator.Wire.Reading.{recv}
use agent_presentator.Wire.Messages.{StepHeader, Json, validated, is_plain}

-- The file after `os.pwrite` of a piece at an offset within it.
abbrev pub overwrite : Bytes → ℕ → Bytes → Bytes
overwrite file offset piece = take offset file ++ (piece ++ drop (offset + length piece) file)

-- `chunk left asked` bounds what `os.pwrite` takes at a time.
module _ (chunk : ℕ → ℕ → ℕ) where
  -- The loop of `write_record`, over `record[written:]`.
  unfoldable pub write_from : ℕ → Bytes → ℕ → Bytes → Result Bytes
  unfolding recv
  write_from fuel file written [] = ok file
  write_from zero file written (b ∷ left) = stuck
  write_from (suc fuel) file written (b ∷ left) =
      let (piece, rest) = recv chunk (length (b ∷ left)) (b ∷ left) in
      write_from fuel (overwrite file written piece) (written + length piece) rest

  -- `write_record`: the file afterwards
  unfoldable pub write_record : Json → StepHeader → Bytes → Result Bytes
  unfolding write_from
  write_record json header file =
      write_from (length (json.write_step header)) file 0 (json.write_step header)

-- `read_record`: `os.pread` of MAXIMUM_HEADER_BYTES + 1 bytes at most
unfoldable pub read_record : Json → (ℕ → Bool) → Bytes → Result StepHeader
read_record json printable file = do
  let content = take (maximum_header_bytes + 1) file
  ensure (leb (length content) maximum_header_bytes)
  validated (is_plain (λ left asked. asked) json printable) (json.read_step content)

module _ {ℓ} {A : Type ℓ} where
  take-past : (n : ℕ) (xs : List A) → length xs ≤ n → take n xs ≡ xs
  take-past zero [] h = refl
  take-past zero (x ∷ xs) h = absurd (omega arith)
  take-past (suc n) [] h = refl
  take-past (suc n) (x ∷ xs) h = ap (λ rest. x ∷ rest) (take-past n xs (omega arith))

  drop-past : (n : ℕ) (xs : List A) → length xs ≤ n → drop n xs ≡ []
  drop-past zero [] h = refl
  drop-past zero (x ∷ xs) h = absurd (omega arith)
  drop-past (suc n) [] h = refl
  drop-past (suc n) (x ∷ xs) h = drop-past n xs (omega arith)

overwrite-end : (file piece : Bytes) → overwrite file (length file) piece ≡ file ++ piece
overwrite-end file piece =
    rw
      (
        take-past (length file) file (omega arith),
        drop-past (length file + length piece) file (omega arith),
        append-nil piece,
      )
      refl

module _ (chunk : ℕ → ℕ → ℕ) where
  write_from-all :
      (fuel : ℕ) (file left : Bytes)
      → length left ≤ fuel
      → write_from chunk fuel file (length file) left ≡ ok (file ++ left)
  unfolding write_from recv
  write_from-all fuel file [] h = ap ok (sym (append-nil file))
  write_from-all zero file (b ∷ left) h = absurd (omega arith)
  write_from-all (suc fuel) file (b ∷ left) h =
      let size = min (suc (length left)) (max 1 (chunk (suc (length left)) (suc (length left)))) in
      let front : Bytes = take size (b ∷ left) in
      let back : Bytes = drop size (b ∷ left) in
      ap (λ f. write_from chunk fuel f (length file + length front) back) (overwrite-end file front)
      ∙ ap (λ (n : ℕ). write_from chunk fuel (file ++ front) n back)
          (sym (length-append file front))
      ∙ write_from-all fuel (file ++ front) back (omega (arith, length-drop size (b ∷ left)))
      ∙ ap ok (append_assoc file front back ∙ ap (λ p. file ++ p) (take-drop size (b ∷ left)))

  pub write_record-empty :
      (json : Json) (header : StepHeader)
      → write_record chunk json header [] ≡ ok (json.write_step header)
  unfolding write_record
  write_record-empty json header =
      write_from-all (length (json.write_step header)) [] (json.write_step header) (omega arith)

pub read_record_lem :
    (json : Json) (printable : ℕ → Bool) (header : StepHeader)
    → length (json.write_step header) ≤ maximum_header_bytes
    → json.read_step (json.write_step header) ≡ some header
    → is_plain (λ left asked. asked) json printable header ≡ true
    → read_record json printable (json.write_step header) ≡ ok header
unfolding read_record
read_record_lem json printable header short kept plain =
    let whole : take (maximum_header_bytes + 1) (json.write_step header) ≡ json.write_step header =
      take-past (maximum_header_bytes + 1) (json.write_step header) (omega arith) in
    let fits : leb (length (json.write_step header)) maximum_header_bytes ≡ true = ground arith in
    rw (whole, fits, kept, plain) refl
