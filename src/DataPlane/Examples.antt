-- ===== src/DataPlane/Examples.antt =====
-- The theorems about the data plane at concrete inputs.
use nilscript.Base.{ℕ, ◌+◌, ◌≡◌, refl, false, String, List, [], ◌∷◌, length, leb}
use nilscript.DataPlane.Bulk.{Callbacks, skip, run_bulk}
use nilscript.DataPlane.Bulk.Batches.{concat}
use nilscript.DataPlane.Bulk.Account.{run_bulk-all}
use nilscript.DataPlane.Export.{ExportStore, not_authorized, write, open_handle}
use nilscript.DataPlane.Export.Access.{open_handle-write}

abbrev five : List String
five = "a" ∷ "b" ∷ "c" ∷ "d" ∷ "e" ∷ []

-- The first batch fails.
abbrev flaky : Callbacks ℕ
flaky = record {
  do_batch = λ b w. (leb 1 w, w + 1);
  should_stop = λ w. (false, w);
  checkpoint = λ b w. w;
}

not_stopped : (run_bulk flaky skip five 1 ("b" ∷ []) 0).0.stopped ≡ false
unfolding run_bulk
not_stopped = refl

run_bulk-all_example :
    (run_bulk flaky skip five 1 ("b" ∷ []) 0).0.processed
      + length (concat (run_bulk flaky skip five 1 ("b" ∷ []) 0).0.failed)
    ≡ 4
run_bulk-all_example = run_bulk-all flaky skip five 1 ("b" ∷ []) 0 not_stopped

abbrev empty_store : ExportStore
empty_store = record { meta = []; files = [] }

open_handle-write_example :
    open_handle (write empty_store "h" ("{}" ∷ []) "jsonl" "acme" 10 60).0 "h" "other" 20
    ≡ not_authorized
unfolding open_handle
open_handle-write_example =
    open_handle-write empty_store "h" "h" ("{}" ∷ []) "jsonl" "acme" "other" 10 60 20
