-- ===== src/DataPlane/Bulk/Account.antt =====
-- What the result of `run_bulk` of src/nilscript/dataplane/bulk.py accounts for.
use nilscript.Base.{
  ℕ, ◌+◌, ◌≤◌, ◌≡◌, refl, ap, Bool, true, false, not, String, List, [], ◌∷◌, keep, elem, length,
  length-append, arith,
}
use nilscript.DataPlane.Bulk.{
  BulkResult, Callbacks, OnError, skip, stop, with_processed, with_failed, on_failure, after_batch,
  after_check, run_batches, run_bulk, batches,
}
use nilscript.DataPlane.Bulk.Batches.{concat, concat-batches}

-- What is accounted for is all of it, or less when the run was stopped.
abbrev pub Accounts : BulkResult → ℕ → Type 0
Accounts r n =
    (r.processed + length (concat r.failed) ≤ n)
    × (r.stopped ≡ false → r.processed + length (concat r.failed) ≡ n)

module _ {World : Type 0} (calls : Callbacks World) (on_error : OnError) where
  with_processed-Accounts :
      (b : List String) (r : BulkResult × World) (n : ℕ)
      → Accounts r.0 n
      → Accounts (with_processed calls on_error (length b) r).0 (length b + n)
  with_processed-Accounts b (r, w) n (le, eq) = (omega arith, λ h. omega (arith, eq h))

  with_failed-Accounts :
      (b : List String) (r : BulkResult × World) (n : ℕ)
      → Accounts r.0 n
      → Accounts (with_failed calls on_error b r).0 (length b + n)
  with_failed-Accounts b (r, w) n (le, eq) = (
    omega (arith, length-append b (concat r.failed)),
    λ h. omega (arith, eq h, length-append b (concat r.failed)),
  )

  on_failure-Accounts :
      (o : OnError) (more : World → BulkResult × World) (b : List String) (w : World) (n : ℕ)
      → ((v : World) → Accounts (more v).0 n)
      → Accounts (on_failure calls on_error o more b w).0 (length b + n)
  on_failure-Accounts skip more b w n h = with_failed-Accounts b (more w) n (h w)
  on_failure-Accounts stop more b w n h = (omega (arith, length-append b []), λ k. absurd (cc))

  after_batch-Accounts :
      (more : World → BulkResult × World) (b : List String) (r : Bool × World) (n : ℕ)
      → ((v : World) → Accounts (more v).0 n)
      → Accounts (after_batch calls on_error more b r).0 (length b + n)
  after_batch-Accounts more b (true, w) n h =
      with_processed-Accounts b (more (calls.checkpoint b w)) n (h (calls.checkpoint b w))
  after_batch-Accounts more b (false, w) n h = on_failure-Accounts on_error more b w n h

  after_check-Accounts :
      (more : World → BulkResult × World) (b : List String) (r : Bool × World) (n : ℕ)
      → ((v : World) → Accounts (more v).0 n)
      → Accounts (after_check calls on_error more b r).0 (length b + n)
  after_check-Accounts more b (true, w) n h = (omega arith, λ k. absurd (cc))
  after_check-Accounts more b (false, w) n h = after_batch-Accounts more b (calls.do_batch b w) n h

  run_batches-Accounts :
      (bs : List (List String)) (w : World)
      → Accounts (run_batches calls on_error bs w).0 (length (concat bs))
  unfolding run_batches
  run_batches-Accounts [] w = (omega arith, λ h. refl)
  run_batches-Accounts (b ∷ bs) w =
      let h =
        after_check-Accounts (run_batches calls on_error bs) b (calls.should_stop w)
          (length (concat bs)) (run_batches-Accounts bs) in
      (
        omega (arith, h.0, length-append b (concat bs)),
        λ k. omega (arith, h.1 k, length-append b (concat bs)),
      )

  run_bulk-Accounts :
      (ids : List String) (size : ℕ) (already_done : List String) (w : World)
      → Accounts
          (run_bulk calls on_error ids size already_done w).0
          (length (keep (λ i. not (elem i already_done)) ids))
  unfolding run_bulk
  run_bulk-Accounts ids size already_done w =
      let pending = keep (λ i. not (elem i already_done)) ids in
      let h = run_batches-Accounts (batches pending size) w in
      let c = ap (λ (xs : List String). length xs) (concat-batches pending size) in
      (omega (arith, h.0, c), λ k. omega (arith, h.1 k, c))

  -- The result counts no more ids, as processed or in a failed batch, than there are ids that are
  -- not done yet. The batch size is positive.
  pub run_bulk-le :
      (ids : List String) (size : ℕ) (already_done : List String) (w : World)
      → (run_bulk calls on_error ids size already_done w).0.processed
          + length (concat (run_bulk calls on_error ids size already_done w).0.failed)
        ≤ length (keep (λ i. not (elem i already_done)) ids)
  run_bulk-le ids size already_done w = (run_bulk-Accounts ids size already_done w).0

  -- When the run was not stopped, the result counts as many ids, as processed or in a failed batch,
  -- as there are ids that are not done yet. The batch size is positive.
  pub run_bulk-all :
      (ids : List String) (size : ℕ) (already_done : List String) (w : World)
      → (run_bulk calls on_error ids size already_done w).0.stopped ≡ false
      → (run_bulk calls on_error ids size already_done w).0.processed
          + length (concat (run_bulk calls on_error ids size already_done w).0.failed)
        ≡ length (keep (λ i. not (elem i already_done)) ids)
  run_bulk-all ids size already_done w h = (run_bulk-Accounts ids size already_done w).1 h
