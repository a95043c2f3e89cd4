-- ===== src/Automation/Validation/Cycle/Visits.antt =====
-- What a search for cycles (src/lib/automation/graph-validation.ts) leaves visited: an order.
use provence.Prelude.{
  ℕ, zero, suc, ◌≡◌, String, true, List, [], ◌∷◌, All, arith, eq_iff, Bool-cases, inl, inr,
}
use provence.Automation.Graph.{AutomationEdge}
use provence.Automation.Validation.{has}
use provence.Automation.Validation.Cycle.{
  Search, cycle, clear, exhausted, ◌>>=◌, targets_of, each, has_cycle,
}

abbrev pub IsIn : List String → String → Type 0
IsIn ids id = has id ids ≡ true

module _ (edges : List AutomationEdge) where
  -- Every edge from an identifier of the list leads to a later one.
  abbrev pub IsOrdered : List String → Type 0
  IsOrdered [] = Unit
  IsOrdered (id ∷ ids) = All (IsIn ids) (targets_of edges id) × IsOrdered ids

  -- What a search from some identifiers leaves visited.
  abbrev pub Visits : List String → List String → Search → Type 0
  Visits ids visited cycle = Unit
  Visits ids visited exhausted = Unit
  Visits ids visited (clear visited') =
      IsOrdered visited'
      × All (IsIn visited') ids
      × ((id : String) → IsIn visited id → IsIn visited' id)

  All-kept :
      (a b ids : List String)
      → ((id : String) → IsIn a id → IsIn b id)
      → All (IsIn a) ids
      → All (IsIn b) ids
  All-kept a b [] k h = tt
  All-kept a b (id ∷ ids) k (h, hs) = (k id h, All-kept a b ids k hs)

  pub each-Visits :
      (search : String → List String → Search)
      → ((id : String) (visited : List String)
          → IsOrdered visited
          → Visits (id ∷ []) visited (search id visited))
      → (ids visited : List String) → IsOrdered visited
      → Visits ids visited (each search ids visited)
  unfolding each
  each-Visits search step [] visited h = (h, tt, λ id k. k)
  each-Visits search step (id ∷ ids) visited h =
      then_rest (search id visited) (step id visited h) (each-Visits search step ids)
    where
      last :
          (a : List String) (r : Search)
          → IsIn a id
          → ((i : String) → IsIn visited i → IsIn a i)
          → Visits ids a r
          → Visits (id ∷ ids) visited r
      last a cycle m k p = tt
      last a exhausted m k p = tt
      last a (clear b) m k (o, members, kept) = (o, (kept id m, members), λ i v. kept i (k i v))

      then_rest :
          (r : Search)
          → Visits (id ∷ []) visited r
          → ((a : List String) → IsOrdered a → Visits ids a (each search ids a))
          → Visits (id ∷ ids) visited (r >>= λ a. each search ids a)
      then_rest cycle p rest = tt
      then_rest exhausted p rest = tt
      then_rest (clear a) (o, (m, _), k) rest = last a (each search ids a) m k (rest a o)

  pub has_cycle-Visits :
      (fuel : ℕ) (visiting : List String) (id : String) (visited : List String)
      → IsOrdered visited
      → Visits (id ∷ []) visited (has_cycle edges fuel visiting id visited)
  unfolding has_cycle
  has_cycle-Visits zero visiting id visited h = tt
  has_cycle-Visits (suc fuel) visiting id visited h = elim (Bool-cases (has id visiting)) [
    | inl loops ↦ rw loops tt
    | inr fresh ↦ elim (Bool-cases (has id visited)) [
      | inl known ↦ rw (fresh, known) (h, (known, tt), λ i k. k)
      | inr new ↦
          rw (fresh, new)
            (finish (each (has_cycle edges fuel (id ∷ visiting)) (targets_of edges id) visited) (
              each-Visits (has_cycle edges fuel (id ∷ visiting))
                (λ next visited' o. has_cycle-Visits fuel (id ∷ visiting) next visited' o)
                (targets_of edges id) visited h))
    ]
  ]
    where
      finish :
          (r : Search)
          → Visits (targets_of edges id) visited r
          → Visits (id ∷ []) visited (r >>= λ visited'. clear (id ∷ visited'))
      finish cycle p = tt
      finish exhausted p = tt
      finish (clear a) (o, members, k) =
          ((members, o), (ground (arith, eq_iff id id), tt), λ i v. ground (arith, k i v))
