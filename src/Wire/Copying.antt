-- ===== src/Wire/Copying.antt =====
-- The loops that copy a file's bytes, whatever the connection and the disk take at a time.
use agent_presentator.Base.{
  ℕ, zero, suc, ◌-◌, ◌≤◌, ◌≡◌, refl, ap, sym, ◌∙◌, max, min, [], ◌∷◌, ◌++◌, if◌then◌else◌, is_empty,
  length, take, drop, arith, length-take, length-drop, take-drop, append_assoc, append-nil,
}
use agent_presentator.Wire.{ok, refused, ◌>>=◌, Bytes, chunk_bytes}
use agent_presentator.Wire.Reading.{recv, read_exactly, read_exactly-append}
use agent_presentator.Wire.Sending.{payload_loop}
use agent_presentator.Wire.Receiving.{write_loop, copy_loop}

module _ (chunk : ℕ → ℕ → ℕ) where
  payload_round :
      (fuel size remaining b : ℕ) (content : Bytes)
      → ((left : Bytes) → length left ≤ fuel → payload_loop chunk fuel (length left) left ≡ ok left)
      → 1 ≤ size
      → size ≤ length (b ∷ content)
      → length content ≤ fuel
      → (if is_empty (take size (b ∷ content)) then refused else (do
        rest ←
            payload_loop chunk fuel
              (length (b ∷ content) - length (take size (b ∷ content)))
              (drop size (b ∷ content))
        ok (take size (b ∷ content) ++ rest)))
        ≡ ok (b ∷ content)
  payload_round fuel zero remaining b content ih low high h = absurd (omega arith)
  payload_round fuel (suc k) remaining b content ih low high h =
      let left_length : suc (length content) - suc (length (take k content))
          ≡ length (drop k content) =
        omega (arith, length-take k content, length-drop k content) in
      rw
        (
          left_length,
          ih (drop k content) (omega (arith, length-drop k content)),
          take-drop k content,
        )
        refl

  pub payload_loop-all :
      (fuel : ℕ) (content : Bytes)
      → length content ≤ fuel
      → payload_loop chunk fuel (length content) content ≡ ok content
  unfolding payload_loop recv
  payload_loop-all fuel [] h = ground arith
  payload_loop-all zero (b ∷ content) h = absurd (omega arith)
  payload_loop-all (suc fuel) (b ∷ content) h =
      let asked = min (suc (length content)) chunk_bytes in
      payload_round fuel (min asked (max 1 (chunk (suc (length content)) asked))) (length content) b
        content (λ left. payload_loop-all fuel left) (omega arith) (omega arith) (omega arith)

  pub write_loop-all :
      (fuel : ℕ) (piece written : Bytes)
      → length piece ≤ fuel
      → write_loop chunk fuel piece written ≡ ok (written ++ piece)
  unfolding write_loop recv
  write_loop-all fuel [] written h = ap ok (sym (append-nil written))
  write_loop-all zero (b ∷ piece) written h = absurd (omega arith)
  write_loop-all (suc fuel) (b ∷ piece) written h =
      let size =
        min (suc (length piece)) (max 1 (chunk (suc (length piece)) (suc (length piece)))) in
      write_loop-all fuel (drop size (b ∷ piece)) (written ++ take size (b ∷ piece))
        (omega (arith, length-drop size (b ∷ piece)))
      ∙ ap ok (
          append_assoc written (take size (b ∷ piece)) (drop size (b ∷ piece))
          ∙ ap (λ rest. written ++ rest) (take-drop size (b ∷ piece)))

  pub copy_loop-all :
      (fuel : ℕ) (payload written rest : Bytes)
      → length payload ≤ fuel
      → copy_loop chunk fuel (length payload) written (payload ++ rest)
        ≡ ok (written ++ payload, rest)
  unfolding copy_loop
  copy_loop-all fuel [] written rest h = rw (append-nil written) refl
  copy_loop-all zero (b ∷ payload) written rest h = absurd (omega arith)
  copy_loop-all (suc fuel) (b ∷ payload) written rest h =
      let size = min (suc (length payload)) chunk_bytes in
      let front : Bytes = take size (b ∷ payload) in
      let back : Bytes = drop size (b ∷ payload) in
      let whole : front ++ (back ++ rest) ≡ b ∷ (payload ++ rest) =
        sym (append_assoc front back rest) ∙ ap (λ p. p ++ rest) (take-drop size (b ∷ payload)) in
      let is_read : read_exactly chunk size (b ∷ (payload ++ rest)) ≡ ok (front, back ++ rest) =
        ap (read_exactly chunk size) (sym whole)
        ∙ read_exactly-append chunk size front (back ++ rest)
            (omega (arith, length-take size (b ∷ payload))) in
      let left : suc (length payload) - length front ≡ length back =
        omega (arith, length-take size (b ∷ payload), length-drop size (b ∷ payload)) in
      rw (is_read, write_loop-all (length front) front written (omega arith), left)
        (copy_loop-all fuel back (written ++ front) rest
            (omega (arith, length-drop size (b ∷ payload)))
          ∙ ap (λ w. ok (w, rest))
              (append_assoc written front back
                ∙ ap (λ p. written ++ p) (take-drop size (b ∷ payload))))
