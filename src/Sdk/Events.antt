-- ===== src/Sdk/Events.antt =====
-- src/nilscript/sdk/events.py: deduplication of at-least-once events by (workspace, sequence).
pub mod Window
use nilscript.Base.{
  ℕ, suc, ◌<◌, Bool, true, false, ◌&&◌, ◌||◌, String, ◌==◌, List, [], ◌∷◌, ◌++◌, eqb, ltb, length,
  if◌then◌else◌,
}

abbrev pub Key : Type 0
Key = String × ℕ

abbrev pub same_key : Key → Key → Bool
same_key (w, n) (v, m) = (w == v) && eqb n m

-- `key in self._seen`
unfoldable pub seen_in : Key → List Key → Bool
seen_in k [] = false
seen_in k (x ∷ xs) = same_key x k || seen_in k xs

-- `_seen`, an OrderedDict, lists its keys oldest first.
pub record EventDeduper : Type 0 where
  pub max_entries : ℕ
  pub seen : List Key

unfoldable pub new : ℕ → EventDeduper
new max = record { max_entries = max; seen = [] }

-- popitem(last=False)
unfoldable pub pop_oldest : List Key → List Key
pop_oldest [] = []
pop_oldest (x ∷ xs) = xs

-- if len(self._seen) > self._max_entries: self._seen.popitem(last=False)
unfoldable pub evict : ℕ → List Key → List Key
unfolding pop_oldest
evict max xs = if ltb max (length xs) then pop_oldest xs else xs

unfoldable pub is_new : EventDeduper → Key → EventDeduper × Bool
unfolding seen_in evict
is_new d key =
    if seen_in key d.seen
    then (d, false)
    else (record d { seen = evict d.max_entries (d.seen ++ key ∷ []) }, true)

-- The state after a list of deliveries.
unfoldable pub deliver : EventDeduper → List Key → EventDeduper
deliver d [] = d
deliver d (k ∷ ks) = deliver (is_new d k).0 ks
