-- ===== src/DataPlane/Export.antt =====
-- `ExportStore` of src/nilscript/dataplane/export.py. The artifacts on disk are a table from a handle to
-- its rows, which are texts; times are numbers. `handle` is what `uuid4` gives. The count of bytes
-- and the schema, which the store never reads back, are left out.
pub mod Access
use nilscript.Base.{
  ℕ, ◌+◌, Bool, true, false, String, ◌==◌, Option, none, some, List, [], ◌∷◌, lookup, insert,
  length, leb, if◌then◌else◌,
}

pub record Meta : Type 0 where
  pub format : String
  pub tenant : String
  pub rows : ℕ
  pub expires_at : ℕ

pub record ExportStore : Type 0 where
  pub meta : List (String × Meta)
  pub files : List (String × List String)

pub record ExportHandle : Type 0 where
  pub handle : String
  pub format : String
  pub rows : ℕ
  pub expires_at : ℕ

-- The rows, `NotAuthorizedHandle`, or `HandleExpired`.
pub data Opened : Type 0 where
  streamed : List String → Opened
  not_authorized expired : Opened

unfoldable pub write :
    ExportStore → String → List String → String → String → ℕ → ℕ → ExportStore × ExportHandle
write store handle rows fmt tenant now ttl = (
  record {
    meta =
        insert handle
          (record { format = fmt; tenant = tenant; rows = length rows; expires_at = now + ttl })
          store.meta;
    files = insert handle rows store.files;
  },
  record { handle = handle; format = fmt; rows = length rows; expires_at = now + ttl },
)

-- A missing file is read as empty; `write` puts one under every handle.
abbrev pub rows_of : Option (List String) → List String
rows_of none = []
rows_of (some rows) = rows

unfoldable pub open_handle : ExportStore → String → String → ℕ → Opened
open_handle store handle tenant now = elim (lookup handle store.meta) [
  | none ↦ not_authorized
  | some m ↦
      if m.tenant == tenant
      then if leb m.expires_at now then expired else streamed (rows_of (lookup handle store.files))
      else not_authorized
]
