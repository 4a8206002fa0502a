-- ===== src/Kernel/Acyclicity/Release.antt =====
-- What the inner loop of `_check_acyclicity` of src/nilscript/kernel/validator.py keeps: the
-- in-degrees and the queue.
use nilscript.Base.{
  ◌+◌, ◌≤◌, ◌≡◌, refl, ◌⊎◌, inl, inr, true, false, String, ◌==◌, List, [], ◌∷◌, elem, eqb,
  if◌then◌else◌, Bool-cases, arith, eq_iff, eq_refl,
}
use nilscript.Base.Names.{NoRepeat}
use nilscript.Kernel.Acyclicity.{Edges, Degrees, count, in_degree, decrement, release}

-- The edges into a node from the nodes that are not done.
unfoldable pub pend : Edges → List String → List String → Degrees
pend edges done [] v = 0
pend edges done (u ∷ us) v = (if elem u done then 0 else count v (edges u)) + pend edges done us v

pub count-elem : (v : String) (xs : List String) → elem v xs ≡ true → 1 ≤ count v xs
unfolding count
count-elem v [] h = absurd (cc)
count-elem v (x ∷ xs) h = ground (arith, count-elem v xs)

pub elem-count : (v : String) (xs : List String) → 1 ≤ count v xs → elem v xs ≡ true
unfolding count
elem-count v [] h = absurd (omega arith)
elem-count v (x ∷ xs) h = ground (arith, elem-count v xs)

pub pend-in_degree :
    (edges : Edges) (nodes : List String) (v : String)
    → in_degree edges nodes v ≡ pend edges [] nodes v
unfolding in_degree pend
pend-in_degree edges [] v = refl
pend-in_degree edges (u ∷ us) v = omega (arith, pend-in_degree edges us v)

-- A node that is absent from the list changes nothing when it is done.
pend-absent :
    (edges : Edges) (done : List String) (n : String) (us : List String) (v : String)
    → elem n us ≡ false
    → pend edges (n ∷ done) us v ≡ pend edges done us v
unfolding pend
pend-absent edges done n [] v h = refl
pend-absent edges done n (u ∷ us) v h =
    ground (arith, eq_iff n u, eq_iff u n, pend-absent edges done n us v)

absent-eq :
    (n u : String) (us : List String) → (u == n) ≡ true → elem u us ≡ false → elem n us ≡ false
absent-eq n u us t h = ground (arith, eq_iff u n)

pub pend-cons :
    (edges : Edges) (done : List String) (n : String) (us : List String) (v : String)
    → NoRepeat us
    → elem n us ≡ true
    → elem n done ≡ false
    → pend edges done us v ≡ pend edges (n ∷ done) us v + count v (edges n)
unfolding pend
pend-cons edges done n [] v r h k = absurd (cc)
pend-cons edges done n (u ∷ us) v r h k = elim (Bool-cases (u == n)) [
  | inl t ↦
      ground (arith, eq_iff n u, eq_iff u n, pend-absent edges done n us v (absent-eq n u us t r.0))
  | inr f ↦ ground (arith, eq_iff n u, eq_iff u n, pend-cons edges done n us v r.1)
]

-- What the loop keeps of its queue: items of degree 0, none of them twice.
unfoldable pub Ready : Degrees → List String → Type 0
Ready degree queue = ((v : String) → elem v queue ≡ true → degree v ≡ 0) × NoRepeat queue

unfoldable pub Within-degree : List String → Degrees → Type 0
Within-degree ts degree = (v : String) → count v ts ≤ degree v

pushed : String → Degrees → List String → List String
pushed t next queue = if eqb (next t) 0 then t ∷ queue else queue

decrement-degree :
    (t : String) (ts : List String) (degree : Degrees) (v : String)
    → Within-degree (t ∷ ts) degree
    → decrement t degree v + count v (t ∷ ts) ≡ degree v + count v ts
unfolding decrement Within-degree count
decrement-degree t ts degree v w = ground (arith, w v)

Within-decrement :
    (t : String) (ts : List String) (degree : Degrees)
    → Within-degree (t ∷ ts) degree
    → Within-degree ts (decrement t degree)
unfolding decrement Within-degree count
Within-decrement t ts degree w v = ground (arith, w v)

elem-pushed :
    (t : String) (ts queue : List String) (next : Degrees) (v : String)
    → elem v (pushed t next queue) ≡ true
    → (elem v queue ≡ true) ⊎ (((t == v) ≡ true) × (next t ≡ 0))
unfolding pushed
elem-pushed t ts queue next v h = ground arith

Ready-pushed :
    (t : String) (ts : List String) (degree : Degrees) (queue : List String)
    → Within-degree (t ∷ ts) degree
    → Ready degree queue
    → Ready (decrement t degree) (pushed t (decrement t degree) queue)
unfolding Ready Within-degree count decrement pushed
Ready-pushed t ts degree queue w (zeros, r) = (
  λ v h. elim (Bool-cases (elem v queue)) [
    | inl k ↦ ground (arith, zeros v k)
    | inr k ↦ ground (arith, eq_iff t v, eq_refl t)
  ],
  elim (Bool-cases (elem t queue)) [
    | inl k ↦ absurd (ground (arith, zeros t k, w t, eq_refl t))
    | inr k ↦ ground arith
  ],
)

pub release-degree :
    (ts : List String) (degree : Degrees) (queue : List String) (v : String)
    → Within-degree ts degree
    → (release ts degree queue).0 v + count v ts ≡ degree v
unfolding release count pushed
release-degree [] degree queue v w = omega arith
release-degree (t ∷ ts) degree queue v w = omega (
  arith,
  release-degree ts (decrement t degree) (pushed t (decrement t degree) queue) v
      (Within-decrement t ts degree w),
  decrement-degree t ts degree v w,
)

pub Ready-release :
    (ts : List String) (degree : Degrees) (queue : List String)
    → Within-degree ts degree
    → Ready degree queue
    → Ready (release ts degree queue).0 (release ts degree queue).1
unfolding release pushed
Ready-release [] degree queue w r = r
Ready-release (t ∷ ts) degree queue w r =
    Ready-release ts (decrement t degree) (pushed t (decrement t degree) queue)
      (Within-decrement t ts degree w) (Ready-pushed t ts degree queue w r)

pub elem-release :
    (ts : List String) (degree : Degrees) (queue : List String) (v : String)
    → elem v (release ts degree queue).1 ≡ true
    → (elem v queue ≡ true) ⊎ (elem v ts ≡ true)
unfolding release pushed
elem-release [] degree queue v h = inl h
elem-release (t ∷ ts) degree queue v h =
    elim (elem-release ts (decrement t degree) (pushed t (decrement t degree) queue) v h) [
      | inl k ↦ ground (arith, elem-pushed t ts queue (decrement t degree) v k)
      | inr k ↦ ground arith
    ]
