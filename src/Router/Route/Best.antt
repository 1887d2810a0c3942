-- ===== src/Router/Route/Best.antt =====
-- `get_best_route`: what the entry that it returns is, when that is the route to the destination,
-- and a table for which it is not.
use protocoale.Base.{
  ℕ, zero, suc, ◌+◌, ◌-◌, ◌≤◌, ◌<◌, ◌≡◌, ◌≢◌, Option, none, some, arith, refl, inl, inr,
  Option-cases, Bool-cases, ◌==◌, ==_iff, subst, true,
}
use native.Mathlib.Decide.{ℕ_discrete}
use protocoale.Base.Int.{ℤ, pos, negsuc}
use protocoale.Router.Route.{
  Table, run_end, route, last_of_run, from_index, binary_search, get_best_route,
}
use protocoale.Router.Route.Search.{Matches, Answers, binary_search-Answers}

-- The run of equal prefixes ends at `e`.
pub record EndsRun (t : Table) (prefix i e : ℕ) : Type 0 where
  pub after : i ≤ e
  pub inside : e < t.capacity
  pub same : (k : ℕ) → i ≤ k → k < e → (t.cells k).prefix ≡ prefix
  pub differs : (t.cells e).prefix ≢ prefix

module _ (t : Table) (prefix : ℕ) where
  pub run_end-EndsRun :
      (left i e : ℕ)
      → i + left ≡ t.capacity
      → run_end t prefix left i ≡ some e
      → EndsRun t prefix i e
  unfolding run_end
  run_end-EndsRun zero i e c h = absurd (cc)
  run_end-EndsRun (suc left) i e c h = grind (arith, run_end-EndsRun left (i + 1) e)

  further_on :
      (i stop : ℕ)
      → i ≤ stop
      → ((t.cells i).prefix == prefix) ≡ true
      → (t.cells stop).prefix ≢ prefix
      → suc i ≤ stop
  further_on i stop p same d = elim (ℕ_discrete i stop) [
    | yes e ↦ absurd (d (subst (λ k. (t.cells k).prefix ≡ prefix) e ((==_iff _ _).0 same)))
    | no ne ↦ omega arith
  ]

  -- The scan stays in the allocation if a cell in it has another prefix.
  pub run_end_total :
      (left i stop : ℕ)
      → i ≤ stop
      → stop < i + left
      → (t.cells stop).prefix ≢ prefix
      → (e : ℕ) × (run_end t prefix left i ≡ some e) × (i ≤ e) × (e ≤ stop)
  unfolding run_end
  run_end_total zero i stop p q d = absurd (omega arith)
  run_end_total (suc left) i stop p q d = elim (Bool-cases ((t.cells i).prefix == prefix)) [
    | inr other ↦ (i, ground arith, omega arith, p)
    | inl same ↦
        let further : suc i ≤ stop = further_on i stop p same d in
        let (e, found, after, before) =
          run_end_total left (i + 1) stop (omega arith) (omega arith) d in
        (e, ground arith, omega arith, before)
  ]

-- What a returned index is: the last cell of the run of equal prefixes that begins at a cell
-- which matches the destination.
pub record LastOfRun (t : Table) (dest j : ℕ) : Type 0 where
  pub index : ℕ
  pub in_table : index ≤ t.size
  pub hit : Matches t dest index
  pub after : index ≤ j
  pub inside : suc j < t.capacity
  pub same : (k : ℕ) → index ≤ k → k ≤ j → (t.cells k).prefix ≡ (t.cells index).prefix
  pub differs : (t.cells (suc j)).prefix ≢ (t.cells index).prefix

module _ (t : Table) (dest : ℕ) (fits : t.size < t.capacity) where
  unfoldable pub search : Option ℤ
  search = binary_search t dest (t.size + 2) 0 (pos t.size)

  pub search-Answers : Answers t dest 0 (suc t.size) search
  unfolding search
  search-Answers =
      binary_search-Answers t dest (t.size + 2) 0 (pos t.size) (omega arith) (omega arith) fits

  pub from_index-LastOfRun :
      (r : Option ℤ) (j : ℕ)
      → Answers t dest 0 (suc t.size) r
      → from_index t r ≡ route j
      → LastOfRun t dest j
  unfolding from_index
  from_index-LastOfRun none j a h = absurd a
  from_index-LastOfRun (some (negsuc n)) j a h = absurd (cc)
  from_index-LastOfRun (some (pos index)) j a h =
      elim (Option-cases
        (run_end t (t.cells index).prefix (t.capacity - (index + 1)) (index + 1))) [
          | inl off ↦ absurd (unfold last_of_run in ground arith)
          | inr (e, ends) ↦
              let run =
                run_end-EndsRun t (t.cells index).prefix (t.capacity - (index + 1)) (index + 1) e
                  (omega arith) ends in
              let at_j : e - 1 ≡ j = unfold last_of_run in ground arith in
              let next : e ≡ suc j = omega (arith, run.after) in
              record {
                index = index;
                in_table = omega (arith, a);
                hit = a.2;
                after = omega (arith, run.after);
                inside = omega (arith, run.inside);
                same = λ k p q. elim (ℕ_discrete index k) [
                  | yes same ↦ subst (λ n. (t.cells n).prefix ≡ (t.cells index).prefix) same refl
                  | no ne ↦ run.same k (omega arith) (omega arith)
                ];
                differs = subst (λ n. (t.cells n).prefix ≢ (t.cells index).prefix) next run.differs;
              }
        ]

  -- Whatever the table holds, a returned entry ends the run of a matching one.
  get_best_route-LastOfRun : (j : ℕ) → get_best_route t dest ≡ route j → LastOfRun t dest j
  unfolding get_best_route search
  get_best_route-LastOfRun j h = from_index-LastOfRun search j search-Answers h
