-- ===== src/DataPlane/Export/Access.antt =====
-- Who reads an artifact of `ExportStore` of src/nilscript/dataplane/export.py, and until when.
use nilscript.Base.{
  ℕ, ◌+◌, ◌≡◌, String, ◌==◌, List, lookup-insert, length, leb, if◌then◌else◌, arith, Bool-cases,
  inl, inr,
}
use nilscript.DataPlane.Export.{ExportStore, streamed, not_authorized, expired, write, open_handle}

-- Of an export that was just written, its tenant reads all the rows before the expiry and is told of
-- the expiry from then on; any other tenant is refused at all times; and what is read under any
-- other handle is as before.
pub open_handle-write :
    (store : ExportStore) (handle other : String) (rows : List String) (fmt tenant reader : String)
    (now ttl later : ℕ)
    → open_handle (write store handle rows fmt tenant now ttl).0 other reader later ≡ (
        if handle == other
        then (if tenant == reader
            then (if leb (now + ttl) later then expired else streamed rows)
            else not_authorized)
        else open_handle store other reader later)
unfolding open_handle write
open_handle-write store handle other rows fmt tenant reader now ttl later =
    elim (Bool-cases (handle == other)) [
      | inl t ↦ ground (
        arith,
        t,
        lookup-insert handle other
            (record { format = fmt; tenant = tenant; rows = length rows; expires_at = now + ttl })
            store.meta,
        lookup-insert handle other rows store.files,
      )
      | inr f ↦ ground (
        arith,
        f,
        lookup-insert handle other
            (record { format = fmt; tenant = tenant; rows = length rows; expires_at = now + ttl })
            store.meta,
        lookup-insert handle other rows store.files,
      )
    ]
