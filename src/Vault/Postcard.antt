-- ===== src/Vault/Postcard.antt =====
-- The postcard serialization of the index's rows, an external crate, as a parameter.
use passman.Prelude.{ℕ, ◌≡◌, List, Option, some}
use passman.Vault.Index.{Index}

-- `to_stdvec` and `from_bytes` at `Vec<IndexEntry>`.
pub record Postcard : Type 0 where
  pub to_stdvec : Index → Option (List ℕ)
  pub from_bytes : List ℕ → Option Index

-- What postcard documents: the bytes of a value are read back as that value.
pub record IsPostcard (p : Postcard) : Type 0 where
  pub from_bytes-to_stdvec :
      (rows : Index) (bytes : List ℕ)
      → p.to_stdvec rows ≡ some bytes
      → p.from_bytes bytes ≡ some rows
