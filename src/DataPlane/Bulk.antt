-- ===== src/DataPlane/Bulk.antt =====
-- src/nilscript/dataplane/bulk.py: the bulk-write spine. The callbacks are arguments that take the
-- state of the world outside and return the next one; `do_batch` also returns whether it raised
-- nothing, and `should_stop` and `checkpoint` that are left out are the constant ones. The ids are
-- texts. A batch size of 0, at which `range` raises, is not modelled: `size` is one less than it.
pub mod Batches
pub mod Account
use nilscript.Base.{
  ℕ, zero, suc, ◌+◌, Bool, true, false, not, String, ◌==◌, List, [], ◌∷◌, elem, keep, take, length,
  if◌then◌else◌,
}

pub record BulkResult : Type 0 where
  pub processed : ℕ
  pub stopped : Bool
  pub failed : List (List String)

abbrev pub drop : ℕ → List String → List String
drop zero xs = xs
drop (suc n) [] = []
drop (suc n) (x ∷ xs) = drop n xs

-- `_batches`: a batch takes an item at least, so the length is fuel enough.
unfoldable pub batches_from : ℕ → ℕ → List String → List (List String)
batches_from fuel size [] = []
batches_from zero size (x ∷ xs) = []
batches_from (suc fuel) size (x ∷ xs) = (x ∷ take size xs) ∷ batches_from fuel size (drop size xs)

unfoldable pub batches : List String → ℕ → List (List String)
unfolding batches_from
batches items size = batches_from (length items) size items

pub record Callbacks (World : Type 0) : Type 0 where
  pub do_batch : List String → World → Bool × World
  pub should_stop : World → Bool × World
  pub checkpoint : List String → World → World

-- on_error is "skip" or "stop".
pub data OnError : Type 0 where
  skip stop : OnError

abbrev pub nothing : Bool → BulkResult
nothing stopped = record { processed = 0; stopped = stopped; failed = [] }

abbrev pub add_processed : ℕ → BulkResult → BulkResult
add_processed n r = record r { processed = n + r.processed }

abbrev pub add_failed : List String → BulkResult → BulkResult
add_failed batch r = record r { failed = batch ∷ r.failed }

module _ {World : Type 0} (calls : Callbacks World) (on_error : OnError) where
  abbrev pub Loop : Type 0
  Loop = World → BulkResult × World

  abbrev pub with_processed : ℕ → BulkResult × World → BulkResult × World
  with_processed n (r, w) = (add_processed n r, w)

  abbrev pub with_failed : List String → BulkResult × World → BulkResult × World
  with_failed batch (r, w) = (add_failed batch r, w)

  abbrev pub on_failure : OnError → Loop → List String → World → BulkResult × World
  on_failure skip more batch w = with_failed batch (more w)
  on_failure stop more batch w = (add_failed batch (nothing true), w)

  abbrev pub after_batch : Loop → List String → Bool × World → BulkResult × World
  after_batch more batch (true, w) = with_processed (length batch) (more (calls.checkpoint batch w))
  after_batch more batch (false, w) = on_failure on_error more batch w

  abbrev pub after_check : Loop → List String → Bool × World → BulkResult × World
  after_check more batch (true, w) = (nothing true, w)
  after_check more batch (false, w) = after_batch more batch (calls.do_batch batch w)

  -- The loop over the batches.
  unfoldable pub run_batches : List (List String) → World → BulkResult × World
  run_batches [] w = (nothing false, w)
  run_batches (batch ∷ rest) w = after_check (run_batches rest) batch (calls.should_stop w)

  unfoldable pub run_bulk : List String → ℕ → List String → World → BulkResult × World
  unfolding batches run_batches
  run_bulk ids size already_done w =
      run_batches (batches (keep (λ i. not (elem i already_done)) ids) size) w
