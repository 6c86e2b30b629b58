-- ===== src/Wire.antt =====
-- The build wire of src/presentator/adapters/build_wire.py: its constants, the outcome of a call, and
-- what stands between them. Bytes are numbers below 256 in lists.
pub mod Reading
pub mod Messages
pub mod Suffix
pub mod Answers
pub mod Paths
pub mod Trees
pub mod Sending
pub mod Receiving
pub mod Survey
pub mod Copying
pub mod Names
pub mod Sorted
pub mod Stack
pub mod Steps
pub mod Carrying
pub mod Walks
pub mod Judged
pub mod Delivery
pub mod Sent
pub mod RoundTrip
pub mod Holding
pub mod Bounds
pub mod Record
pub mod Tests
use agent_presentator.Base.{ℕ, ◌*◌, Bool, List, [], ◌∷◌, codes}

-- What a call comes to: a value, WireRefusedError, TreeRefusedError, an OSError, a ValidationError or
-- struct.error that nobody catches, or a loop that ran out of the model's fuel.
pub data Result {ℓ} (A : Type ℓ) : Type ℓ where
  ok : A → Result A
  refused : Result A
  tree_refused : Result A
  os_error : Result A
  raised : Result A
  stuck : Result A

infixl 5 ◌>>=◌ ◌>>◌
abbrev pub ◌>>=◌ {ℓ κ} : {A : Type ℓ} {B : Type κ} → Result A → (A → Result B) → Result B
ok a >>= f = f a
refused >>= f = refused
tree_refused >>= f = tree_refused
os_error >>= f = os_error
raised >>= f = raised
stuck >>= f = stuck

abbrev pub ◌>>◌ {ℓ} : {B : Type ℓ} → Result (Unit {0}) → Result B → Result B
m >> k = m >>= λ _. k

-- `if not …: raise WireRefusedError`
abbrev pub ensure : Bool → Result (Unit {0})
ensure Bool.true = ok tt
ensure Bool.false = refused

abbrev pub Bytes : Type 0
Bytes = List ℕ

-- MAGIC, VERSION
abbrev pub magic : Bytes
magic = 80 ∷ 66 ∷ 87 ∷ []

abbrev pub version : ℕ
version = 1

-- MINIMUM_HEADER_BYTES, MAXIMUM_HEADER_BYTES, MAXIMUM_PATH_BYTES, MAXIMUM_DEPTH, MAXIMUM_NAME_BYTES
abbrev pub minimum_header_bytes : ℕ
minimum_header_bytes = 2

abbrev pub maximum_header_bytes : ℕ
maximum_header_bytes = 4096

abbrev pub maximum_path_bytes : ℕ
maximum_path_bytes = 1024

abbrev pub maximum_depth : ℕ
maximum_depth = 32

abbrev pub maximum_name_bytes : ℕ
maximum_name_bytes = 255

-- CHUNK_BYTES, MAXIMUM_ENTRIES, MEGABYTE
abbrev pub chunk_bytes : ℕ
chunk_bytes = 65536

abbrev pub maximum_entries : ℕ
maximum_entries = 100_000

abbrev pub megabyte : ℕ
megabyte = 1_048_576

-- TOOLCHAIN_SCRATCH_NAME, and the encoded TALK_DIRECTORY and PDF_FILE
abbrev pub scratch_name : Bytes
scratch_name = codes "node_modules"

abbrev pub talk_name : Bytes
talk_name = codes "talk"

abbrev pub pdf_name : Bytes
pdf_name = codes "deck.pdf"
