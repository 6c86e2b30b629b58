-- ===== src/Wire/Holding.antt =====
-- Calls that come to an end, and what holds of their value; the reads and the copies of the receiver.
use agent_presentator.Base.{
  ℕ, zero, suc, ◌+◌, ◌-◌, ◌≤◌, ◌≡◌, refl, Bool, true, false, min, List, ◌++◌, length, arith, leb,
  if◌then◌else◌, length-append, of_big_endian, any, not, ◌||◌, ltb, length-take, length-drop,
  Bool-cases, inl, inr,
}
use agent_presentator.Wire.{
  Result, ok, refused, tree_refused, os_error, raised, stuck, ◌>>=◌, ensure, Bytes, chunk_bytes,
  maximum_depth,
}
use agent_presentator.Wire.Reading.{reads, read_exactly, read_exactly-eq-reads}
use agent_presentator.Wire.Copying.{write_loop-all}
use agent_presentator.Wire.Paths.{
  split, is_refused_name, path_components, path_length_allowed, read_path,
}
use agent_presentator.Wire.Receiving.{copy_loop}

-- The call ends, with no exception but those that are caught, and if it has a value, the value is such.
abbrev pub Holds {ℓ} : {A : Type ℓ} → (A → Type 0) → Result A → Type 0
Holds P (ok a) = P a
Holds P refused = Unit
Holds P tree_refused = Unit
Holds P os_error = Unit
Holds P raised = ⊥
Holds P stuck = ⊥

module _ {ℓ κ} {A : Type ℓ} {B : Type κ} (P : A → Type 0) (Q : B → Type 0) where
  pub Holds-then :
      (m : Result A) (f : A → Result B)
      → Holds P m
      → ((a : A) → P a → Holds Q (f a))
      → Holds Q (m >>= f)
  Holds-then (ok a) f h k = k a h
  Holds-then refused f h k = tt
  Holds-then tree_refused f h k = tt
  Holds-then os_error f h k = tt
  Holds-then raised f h k = absurd h
  Holds-then stuck f h k = absurd h

-- The call returns a value, which is such.
abbrev pub Returns {ℓ} : {A : Type ℓ} → (A → Type 0) → Result A → Type 0
Returns P (ok a) = P a
Returns P refused = ⊥
Returns P tree_refused = ⊥
Returns P os_error = ⊥
Returns P raised = ⊥
Returns P stuck = ⊥

pub Returns-if {ℓ} :
    {A : Type ℓ} (P : A → Type 0) (b : Bool) (m n : Result A)
    → (b ≡ true → Returns P m)
    → (b ≡ false → Returns P n)
    → Returns P (if b then m else n)
Returns-if P true m n h k = h refl
Returns-if P false m n h k = k refl

pub Returns-Holds {ℓ} : {A : Type ℓ} (P : A → Type 0) (m : Result A) → Returns P m → Holds P m
Returns-Holds P (ok a) h = h
Returns-Holds P refused h = tt
Returns-Holds P tree_refused h = tt
Returns-Holds P os_error h = tt
Returns-Holds P raised h = h
Returns-Holds P stuck h = h

-- The call ends.
abbrev pub Ends {ℓ} : {A : Type ℓ} → Result A → Type 0
Ends m = Holds (λ _. Unit) m

module _ {ℓ κ} {A : Type ℓ} {B : Type κ} (Q : B → Type 0) where
  pub Ends-then :
      (m : Result A) (f : A → Result B) → Ends m → ((a : A) → Holds Q (f a)) → Holds Q (m >>= f)
  Ends-then m f h k = Holds-then (λ _. Unit) Q m f h (λ a _. k a)

pub Holds-weaken {ℓ} :
    {A : Type ℓ} (P Q : A → Type 0) (m : Result A) → ((a : A) → P a → Q a) → Holds P m → Holds Q m
Holds-weaken P Q (ok a) f h = f a h
Holds-weaken P Q refused f h = tt
Holds-weaken P Q tree_refused f h = tt
Holds-weaken P Q os_error f h = tt
Holds-weaken P Q raised f h = h
Holds-weaken P Q stuck f h = h

pub Holds-ensure : (b : Bool) → Holds (λ _. b ≡ true) (ensure b)
Holds-ensure true = refl
Holds-ensure false = tt

pub Ends-ensure : (b : Bool) → Ends (ensure b)
Ends-ensure true = tt
Ends-ensure false = tt

pub Holds-if {ℓ} :
    {A : Type ℓ} (P : A → Type 0) (b : Bool) (m n : Result A)
    → (b ≡ true → Holds P m)
    → (b ≡ false → Holds P n)
    → Holds P (if b then m else n)
Holds-if P true m n h k = h refl
Holds-if P false m n h k = k refl

Holds-path_components : (raw : Bytes) → Holds (λ _. Unit) (path_components raw)
unfolding path_components
Holds-path_components raw =
    Holds-if (λ _. Unit)
      (not (path_length_allowed (length raw))
        || (ltb maximum_depth (length (split raw)) || any is_refused_name (split raw)))
      refused (ok (split raw)) (λ _. tt) (λ _. tt)

module _ (chunk : ℕ → ℕ → ℕ) where
  Holds-reads :
      (count : ℕ) (bytes : Bytes)
      → Holds
          (λ (r : Bytes × Bytes). (length r.0 ≡ count) × (length r.1 + count ≡ length bytes))
          (reads count bytes)
  Holds-reads count bytes = elim (Bool-cases (leb count (length bytes))) [
    | inl enough ↦
        rw enough (ground (arith, length-take count bytes), ground (arith, length-drop count bytes))
    | inr short ↦ rw short tt
  ]

  pub Holds-read_exactly :
      (count : ℕ) (bytes : Bytes)
      → Holds
          (λ (r : Bytes × Bytes). (length r.0 ≡ count) × (length r.1 + count ≡ length bytes))
          (read_exactly chunk count bytes)
  Holds-read_exactly count bytes =
      rw (read_exactly-eq-reads chunk count bytes) (Holds-reads count bytes)

  pub Ends-read_exactly : (count : ℕ) (bytes : Bytes) → Ends (read_exactly chunk count bytes)
  Ends-read_exactly count bytes =
      Holds-weaken
        (λ (r : Bytes × Bytes). (length r.0 ≡ count) × (length r.1 + count ≡ length bytes))
        (λ _. Unit) (read_exactly chunk count bytes) (λ _ _. tt) (Holds-read_exactly count bytes)

  -- A path takes some bytes.
  pub Holds-read_path :
      (bytes : Bytes)
      → Holds (λ (r : List Bytes × Bytes). length r.1 ≤ length bytes) (read_path chunk bytes)
  unfolding read_path
  Holds-read_path bytes =
      let shorter = λ (r : Bytes × Bytes). length r.1 ≤ length bytes in
      let Read = λ (r : List Bytes × Bytes). length r.1 ≤ length bytes in
      Holds-then (λ (r : Bytes × Bytes). (length r.0 ≡ 2) × (length r.1 + 2 ≡ length bytes)) Read
        (read_exactly chunk 2 bytes) _ (Holds-read_exactly 2 bytes)
        (λ (size, after) h.
          Holds-then (λ _. path_length_allowed (of_big_endian 0 size) ≡ true) Read
            (ensure (path_length_allowed (of_big_endian 0 size))) _
            (Holds-ensure (path_length_allowed (of_big_endian 0 size)))
            (λ _ _.
              Holds-then
                (λ (r : Bytes × Bytes).
                  (length r.0 ≡ of_big_endian 0 size)
                  × (length r.1 + of_big_endian 0 size ≡ length after))
                Read (read_exactly chunk (of_big_endian 0 size) after) _
                (Holds-read_exactly (of_big_endian 0 size) after)
                (λ (raw, rest) k.
                  Holds-then (λ _. Unit) Read (path_components raw) _ (Holds-path_components raw)
                    (λ components _. omega (arith, h.1, k.1)))))

  -- A copied file has as many bytes as were asked for.
  pub Holds-copy_loop :
      (fuel remaining : ℕ) (written bytes : Bytes)
      → remaining ≤ fuel
      → Holds
          (λ (r : Bytes × Bytes).
            (length r.0 ≡ length written + remaining) × (length r.1 ≤ length bytes))
          (copy_loop chunk fuel remaining written bytes)
  unfolding copy_loop
  Holds-copy_loop fuel zero written bytes h = (omega arith, omega arith)
  Holds-copy_loop zero (suc remaining) written bytes h = absurd (omega arith)
  Holds-copy_loop (suc fuel) (suc remaining) written bytes h =
      let asked = min (suc remaining) chunk_bytes in
      let Copied = λ (r : Bytes × Bytes).
        (length r.0 ≡ length written + suc remaining) × (length r.1 ≤ length bytes) in
      Holds-then (λ (r : Bytes × Bytes). (length r.0 ≡ asked) × (length r.1 + asked ≡ length bytes))
        Copied (read_exactly chunk asked bytes) _ (Holds-read_exactly asked bytes)
        (λ (piece, after) got.
          rw (write_loop-all chunk (length piece) piece written (omega arith)) (
            Holds-weaken
              (λ (r : Bytes × Bytes).
                (length r.0 ≡ length (written ++ piece) + (suc remaining - length piece))
                × (length r.1 ≤ length after))
              Copied (copy_loop chunk fuel (suc remaining - length piece) (written ++ piece) after)
              (λ _ k.
                (omega (arith, got.0, k.0, length-append written piece), omega (arith, got.1, k.1)))
              (Holds-copy_loop fuel (suc remaining - length piece) (written ++ piece) after
                (omega (arith, got.0)))))
