-- ===== src/FolderName.antt =====
-- `is_a_plain_folder_name` of src/presentator/contracts/decks.py.
use agent_presentator.Base.{
  ℕ, String, Bool, not, ◌&&◌, ◌||◌, List, [], ◌∷◌, str_eq, ◌==◌, all, any, codes,
}

-- `_NAMES_NO_FOLDER`
abbrev pub names_no_folder : List String
names_no_folder = "" ∷ "." ∷ ".." ∷ []

-- `_NEVER_IN_A_FOLDER_NAME`: a slash, a backslash, a double quote
abbrev pub never_in_a_folder_name : ℕ → Bool
never_in_a_folder_name c = c == 47 || (c == 92 || c == 34)

-- `printable` is `str.isprintable` of one character.
unfoldable pub is_a_plain_folder_name : (ℕ → Bool) → String → Bool
is_a_plain_folder_name printable candidate =
    not (any (str_eq candidate) names_no_folder)
    && (all printable (codes candidate) && not (any never_in_a_folder_name (codes candidate)))
