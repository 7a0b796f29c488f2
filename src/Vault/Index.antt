-- ===== src/Vault/Index.antt =====
-- crates/passman-vault/src/index.rs: the rows of the sealed index.
use passman.Prelude.{ℕ, List, [], ◌∷◌, ◌++◌, Option, Bool, not, ◌==◌, length}
use passman.Policy.Request.{EntryPolicy}
use passman.Vault.Keyed.{find, replace_or_push, retain_ne}

-- b"index-v0" and b"entry-v0:"
abbrev pub index_info : List ℕ
index_info = b'i' ∷ b'n' ∷ b'd' ∷ b'e' ∷ b'x' ∷ b'-' ∷ b'v' ∷ b'0' ∷ []

abbrev pub entry_info_prefix : List ℕ
entry_info_prefix = b'e' ∷ b'n' ∷ b't' ∷ b'r' ∷ b'y' ∷ b'-' ∷ b'v' ∷ b'0' ∷ b':' ∷ []

unfoldable pub entry_info : List ℕ → List ℕ
entry_info id = entry_info_prefix ++ id

pub record IndexEntry : Type 0 where
  pub id : List ℕ
  pub label : List ℕ
  pub policy : EntryPolicy

abbrev pub Index : Type 0
Index = List IndexEntry

abbrev pub row_id : IndexEntry → List ℕ
row_id e = e.id

unfoldable pub get : Index → List ℕ → Option IndexEntry
get rows id = find row_id id rows

-- Whether a row was replaced is not used by the callers.
unfoldable pub upsert : Index → IndexEntry → Index
upsert rows entry = replace_or_push row_id entry rows

unfoldable pub remove : Index → List ℕ → Index × Bool
remove rows id = let rows' = retain_ne row_id id rows in (rows', not (length rows' == length rows))
