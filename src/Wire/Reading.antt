-- ===== src/Wire/Reading.antt =====
-- `_read_exactly`: a number of bytes from a connection that hands out as many as it likes.
use agent_presentator.Base.{
  ℕ, zero, suc, ◌+◌, ◌-◌, ◌≤◌, ◌≡◌, refl, ap, ◌∙◌, max, min, List, [], ◌∷◌, ◌++◌, leb,
  if◌then◌else◌, is_empty, length, take, drop, take-append, drop-append, length-append, length-take,
  length-drop, arith, Bool-cases, inl, inr,
}
use agent_presentator.Wire.{Result, ok, refused, stuck, ◌>>=◌, Bytes}

-- A connection is what the peer has still to hand out; `chunk left asked` is how much `recv` returns
-- of it at most.
module _ (chunk : ℕ → ℕ → ℕ) where
  -- `connection.recv(asked)`: nothing only at the end
  unfoldable pub recv : ℕ → Bytes → Bytes × Bytes
  recv asked bytes =
      let size = min asked (max 1 (chunk (length bytes) asked)) in
      (take size bytes, drop size bytes)

  -- The loop of `_read_exactly`, with the bytes that are still missing.
  unfoldable pub read_loop : ℕ → ℕ → Bytes → Result (Bytes × Bytes)
  unfolding recv
  read_loop fuel zero bytes = ok ([], bytes)
  read_loop zero (suc missing) bytes = stuck
  read_loop (suc fuel) (suc missing) bytes =
      let (piece, left) = recv (suc missing) bytes in
      let more = read_loop fuel (suc missing - length piece) left in
      if is_empty piece then refused else (do (rest, after) ← more; ok (piece ++ rest, after))

  -- `_read_exactly`: each round reads one byte at least, so `count` rounds are enough
  unfoldable pub read_exactly : ℕ → Bytes → Result (Bytes × Bytes)
  unfolding read_loop
  read_exactly count bytes = read_loop count count bytes

-- What is read, whatever the connection hands out at a time.
abbrev pub reads : ℕ → Bytes → Result (Bytes × Bytes)
reads count bytes =
    if leb count (length bytes) then ok (take count bytes, drop count bytes) else refused

module _ {ℓ} {A : Type ℓ} where
  take-nil : (n : ℕ) → ◌≡◌ {A = List A} (take n []) []
  take-nil zero = refl
  take-nil (suc n) = refl

  take-take : (m n k : ℕ) (xs : List A) → n ≡ m + k → take m xs ++ take k (drop m xs) ≡ take n xs
  take-take zero n k xs e = ap (λ (t : ℕ). take t xs) (omega arith)
  take-take (suc m) zero k xs e = absurd (omega arith)
  take-take (suc m) (suc n) k [] e = take-nil k
  take-take (suc m) (suc n) k (x ∷ xs) e = ap (λ rest. x ∷ rest) (take-take m n k xs (omega arith))

  drop-nil : (n : ℕ) → ◌≡◌ {A = List A} (drop n []) []
  drop-nil zero = refl
  drop-nil (suc n) = refl

  drop-drop : (m n k : ℕ) (xs : List A) → n ≡ m + k → drop k (drop m xs) ≡ drop n xs
  drop-drop zero n k xs e = ap (λ (t : ℕ). drop t xs) (omega arith)
  drop-drop (suc m) zero k xs e = absurd (omega arith)
  drop-drop (suc m) (suc n) k [] e = drop-nil k
  drop-drop (suc m) (suc n) k (x ∷ xs) e = drop-drop m n k xs (omega arith)

-- Reading a first piece of at most `count` bytes and then what is missing.
reads_on :
    (size count : ℕ) (bytes : Bytes)
    → size ≤ count
    → (do
      (rest, after) ← reads (count - length (take size bytes)) (drop size bytes)
      ok (take size bytes ++ rest, after))
      ≡ reads count bytes
reads_on size count bytes h = elim (Bool-cases (leb size (length bytes))) [
  | inl enough ↦ ground (
    arith,
    length-take size bytes,
    length-drop size bytes,
    take-take size count (count - size) bytes,
    drop-drop size count (count - size) bytes,
  )
  | inr short ↦ ground (arith, length-take size bytes, length-drop size bytes)
]

module _ (chunk : ℕ → ℕ → ℕ) where
  -- One round of the loop that receives `size` bytes.
  round :
      (fuel size missing b : ℕ) (bytes : Bytes)
      → ((left : ℕ) (after : Bytes)
          → left ≤ fuel
          → read_loop chunk fuel left after ≡ reads left after)
      → 1 ≤ size
      → size ≤ suc missing
      → missing ≤ fuel
      → (if is_empty (take size (b ∷ bytes)) then refused else (do
        (rest, after) ←
            read_loop chunk fuel
              (suc missing - length (take size (b ∷ bytes)))
              (drop size (b ∷ bytes))
        ok (take size (b ∷ bytes) ++ rest, after)))
        ≡ reads (suc missing) (b ∷ bytes)
  round fuel zero missing b bytes ih low high h = absurd (omega arith)
  round fuel (suc k) missing b bytes ih low high h =
      rw (ih (suc missing - suc (length (take k bytes))) (drop k bytes) (omega arith))
        (reads_on (suc k) (suc missing) (b ∷ bytes) high)

  read_loop-eq-reads :
      (fuel missing : ℕ) (bytes : Bytes)
      → missing ≤ fuel
      → read_loop chunk fuel missing bytes ≡ reads missing bytes
  unfolding read_loop
  read_loop-eq-reads fuel zero bytes h = ground arith
  read_loop-eq-reads zero (suc missing) bytes h = absurd (omega arith)
  read_loop-eq-reads (suc fuel) (suc missing) [] h =
      rw (take-nil {A = ℕ} (min (suc missing) (max 1 (chunk 0 (suc missing))))) (ground arith)
  read_loop-eq-reads (suc fuel) (suc missing) (b ∷ bytes) h =
      round fuel (min (suc missing) (max 1 (chunk (suc (length bytes)) (suc missing)))) missing b
        bytes (λ left after. read_loop-eq-reads fuel left after) (omega arith) (omega arith)
        (omega arith)

  -- However few bytes a connection hands out at a time, the loop ends, and it has read exactly the bytes
  -- asked for and left all that follow, or is refused where the peer has sent fewer.
  pub read_exactly-eq-reads :
      (count : ℕ) (bytes : Bytes) → read_exactly chunk count bytes ≡ reads count bytes
  unfolding read_exactly
  read_exactly-eq-reads count bytes = read_loop-eq-reads count count bytes (omega arith)

  -- What stands at the front of a connection is read off it.
  pub read_exactly-append :
      (count : ℕ) (front rest : Bytes)
      → length front ≡ count
      → read_exactly chunk count (front ++ rest) ≡ ok (front, rest)
  read_exactly-append count front rest e = rw (← e) (
      read_exactly-eq-reads (length front) (front ++ rest)
      ∙ ground (arith, length-append front rest, take-append front rest, drop-append front rest))
