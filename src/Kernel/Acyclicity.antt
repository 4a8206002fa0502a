-- ===== src/Kernel/Acyclicity.antt =====
-- `_check_acyclicity` of src/nilscript/kernel/validator.py: Kahn's topological sort. The edges are a
-- function from a node's id to its targets that are nodes. The dict `in_degree` is a function, and
-- the list `queue`, whose last item is popped, is written with that item first.
pub mod Release
pub mod Loop
pub mod Order
pub mod Complete
use nilscript.Base.{
  ℕ, zero, suc, ◌+◌, ◌-◌, Bool, true, false, String, ◌==◌, List, [], ◌∷◌, ◌++◌, reverse, length,
  elem, eqb, leb, ltb, if◌then◌else◌,
}

abbrev pub Edges : Type 0
Edges = String → List String

abbrev pub Degrees : Type 0
Degrees = String → ℕ

-- How often a name stands in a list.
unfoldable pub count : String → List String → ℕ
count v [] = 0
count v (x ∷ xs) = if x == v then suc (count v xs) else count v xs

-- The increments of `in_degree` over all sources.
unfoldable pub in_degree : Edges → List String → Degrees
unfolding count
in_degree edges [] v = 0
in_degree edges (n ∷ ns) v = count v (edges n) + in_degree edges ns v

-- in_degree[target] -= 1, of a degree that the loop keeps positive.
unfoldable pub decrement : String → Degrees → Degrees
decrement t degree v = if t == v then degree v - 1 else degree v

-- The nodes of in-degree 0; the last of them is popped first.
unfoldable pub sources : Degrees → List String → List String
sources degree [] = []
sources degree (n ∷ ns) = sources degree ns ++ (if eqb (degree n) 0 then n ∷ [] else [])

-- The inner loop over the targets of a popped node.
unfoldable pub release : List String → Degrees → List String → Degrees × List String
unfolding decrement
release [] degree queue = (degree, queue)
release (t ∷ ts) degree queue =
    let next = decrement t degree in release ts next (if eqb (next t) 0 then t ∷ queue else queue)

-- The outer loop; `done` is the order so far, its last item first.
unfoldable pub drain : ℕ → Edges → Degrees → List String → List String → List String
unfolding release
drain zero edges degree queue done = done
drain (suc fuel) edges degree [] done = done
drain (suc fuel) edges degree (n ∷ queue) done =
    let (next, rest) = release (edges n) degree queue in drain fuel edges next rest (n ∷ done)

-- A node is popped at most once, so the number of nodes is fuel enough. The order, last item first.
unfoldable pub topological : Edges → List String → List String
unfolding drain in_degree sources
topological edges nodes =
    let degree = in_degree edges nodes in
    drain (length nodes) edges degree (sources degree nodes) []

-- len(order) < len(node_ids) is a cycle.
unfoldable pub is_acyclic : Edges → List String → Bool
unfolding topological
is_acyclic edges nodes = leb (length nodes) (length (topological edges nodes))
