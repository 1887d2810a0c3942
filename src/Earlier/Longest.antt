-- ===== src/Earlier/Longest.antt =====
-- What `get_best_route` returns on every table.
use protocoale.Base.{
  ℕ, zero, suc, ◌+◌, ◌-◌, ◌^◌, ◌≤◌, ◌<◌, ◌≡◌, ◌≢◌, ◌⊎◌, inl, inr, none, some, List, [], ◌∷◌,
  get_elem?, bit_and, arith, refl, sym, ap, ◌∙◌, subst,
}
use native.Mathlib.Decide.{ℕ_discrete}
use protocoale.Router.Route.{RouteEntry}
use protocoale.Earlier.{
  Best, better, best_from, Lookup, route, null, undefined, result_of, get_best_route,
}

abbrev pub Matches : RouteEntry → ℕ → Type 0
Matches e dest = bit_and dest e.mask ≡ e.prefix

-- Every matching entry has a mask of at most `max`.
abbrev pub Bounds : List RouteEntry → ℕ → ℕ → Type 0
Bounds rtable dest max =
    (k : ℕ) (e : RouteEntry) → get_elem? rtable k ≡ some e → Matches e dest → e.mask ≤ max

-- The entry at `j` matches and has the mask `max`, and those before it that match have a lower one.
pub record IsFirst (rtable : List RouteEntry) (dest j max : ℕ) : Type 0 where
  pub entry : RouteEntry
  pub there : get_elem? rtable j ≡ some entry
  pub hit : Matches entry dest
  pub has_mask : entry.mask ≡ max
  pub first :
      (k : ℕ) (e : RouteEntry) → k < j → get_elem? rtable k ≡ some e → Matches e dest → e.mask < max

-- Where the result of a search that began with `best` comes from.
abbrev Origin : List RouteEntry → ℕ → ℕ → Best → Best → Type 0
Origin rtable dest i best after =
    (after ≡ best)
    ⊎ ((j : ℕ) × (after.max_index ≡ some (i + j))
        × (best.max < after.max)
        × IsFirst rtable dest j after.max)

record Searched (rtable : List RouteEntry) (dest i : ℕ) (best after : Best) : Type 0 where
  grown : best.max ≤ after.max
  bounds : Bounds rtable dest after.max
  origin : Origin rtable dest i best after

better-cases :
    (e : RouteEntry) (dest i : ℕ) (best : Best)
    → (Matches e dest
        × (best.max < e.mask)
        × (better e dest i best ≡ record { max = e.mask; max_index = some i }))
      ⊎ ((Matches e dest → e.mask ≤ best.max) × (better e dest i best ≡ best))
unfolding better
better-cases e dest i best = ground arith

at-IsFirst :
    (e : RouteEntry) (rtable : List RouteEntry) (dest max : ℕ)
    → Matches e dest
    → e.mask ≡ max
    → IsFirst (e ∷ rtable) dest 0 max
at-IsFirst e rtable dest max m eq = record {
  entry = e;
  there = refl;
  hit = m;
  has_mask = eq;
  first = λ k e' low h m'. absurd (omega arith);
}

later-IsFirst :
    (e : RouteEntry) (rtable : List RouteEntry) (dest j max : ℕ)
    → (Matches e dest → e.mask < max)
    → IsFirst rtable dest j max
    → IsFirst (e ∷ rtable) dest (suc j) max
later-IsFirst e rtable dest j max lower f = record {
  entry = f.entry;
  there = f.there;
  hit = f.hit;
  has_mask = f.has_mask;
  first = λ k e' low h m'. below k e' low h m';
}
  where
    below :
        (k : ℕ) (e' : RouteEntry)
        → k < suc j
        → get_elem? (e ∷ rtable) k ≡ some e'
        → Matches e' dest
        → e'.mask < max
    below zero e' low h m' =
        let same : e ≡ e' = cc in subst (λ x. Matches x dest → x.mask < max) same lower m'
    below (suc k) e' low h m' = f.first k e' (omega arith) h m'

more-Bounds :
    (e : RouteEntry) (rtable : List RouteEntry) (dest max : ℕ)
    → (Matches e dest → e.mask ≤ max)
    → Bounds rtable dest max
    → Bounds (e ∷ rtable) dest max
more-Bounds e rtable dest max low b zero e' h m =
    let same : e ≡ e' = cc in subst (λ x. Matches x dest → x.mask ≤ max) same low m
more-Bounds e rtable dest max low b (suc k) e' h m = b k e' h m

module _ (e : RouteEntry) (rtable : List RouteEntry) (dest i : ℕ) (best after : Best) where
  taken-Searched :
      Matches e dest
      → best.max < e.mask
      → Searched rtable dest (i + 1) (record { max = e.mask; max_index = some i }) after
      → Searched (e ∷ rtable) dest i best after
  taken-Searched m above t = record {
    grown = omega (arith, t.grown);
    bounds = more-Bounds e rtable dest after.max (λ _. t.grown) t.bounds;
    origin = elim t.origin [
      | inl same ↦
          let mask : after.max ≡ e.mask = ap (λ (b : Best). b.max) same in
          inr (
            0,
            ap (λ (b : Best). b.max_index) same ∙ ap some (omega arith),
            omega arith,
            at-IsFirst e rtable dest after.max m (sym mask),
          )
      | inr (j, at_j, more, f) ↦ inr (
        suc j,
        at_j ∙ ap some (omega arith),
        omega arith,
        later-IsFirst e rtable dest j after.max (λ _. more) f,
      )
    ];
  }

  kept-Searched :
      (Matches e dest → e.mask ≤ best.max)
      → Searched rtable dest (i + 1) best after
      → Searched (e ∷ rtable) dest i best after
  kept-Searched low t = record {
    grown = t.grown;
    bounds = more-Bounds e rtable dest after.max (λ m. omega (arith, low m, t.grown)) t.bounds;
    origin = elim t.origin [
      | inl same ↦ inl same
      | inr (j, at_j, more, f) ↦ inr (
        suc j,
        at_j ∙ ap some (omega arith),
        more,
        later-IsFirst e rtable dest j after.max (λ m. omega (arith, low m)) f,
      )
    ];
  }

best_from-Searched :
    (rtable : List RouteEntry) (dest i : ℕ) (best : Best)
    → Searched rtable dest i best (best_from rtable dest i best)
unfolding best_from
best_from-Searched [] dest i best = record {
  grown = omega arith;
  bounds = λ k e h m. absurd (cc);
  origin = inl refl;
}
best_from-Searched (e ∷ rtable) dest i best =
    let next = better e dest i best in
    let after = best_from rtable dest (i + 1) next in
    let tail = best_from-Searched rtable dest (i + 1) next in
    elim (better-cases e dest i best) [
      | inl (m, above, taken) ↦
          taken-Searched e rtable dest i best after m above
            (subst (λ b. Searched rtable dest (i + 1) b after) taken tail)
      | inr (low, kept) ↦
          kept-Searched e rtable dest i best after low
            (subst (λ b. Searched rtable dest (i + 1) b after) kept tail)
    ]

-- What each result says of the table.
abbrev pub Selects : List RouteEntry → ℕ → Lookup → Type 0
Selects rtable dest (route j) =
    (max : ℕ) × (0 < max) × (max ≢ 2 ^ 32 - 1) × Bounds rtable dest max × IsFirst rtable dest j max
Selects rtable dest null = (j : ℕ) × IsFirst rtable dest j (2 ^ 32 - 1)
Selects rtable dest undefined = Bounds rtable dest 0

abbrev nothing_yet : Best
nothing_yet = record { max = 0; max_index = none }

result_of-Selects :
    (rtable : List RouteEntry) (dest : ℕ) (after : Best)
    → Searched rtable dest 0 nothing_yet after
    → Selects rtable dest (result_of after)
unfolding result_of
result_of-Selects rtable dest after t = elim t.origin [
  | inl same ↦
      subst (λ a. Selects rtable dest (result_of a)) (sym same)
        (subst (λ (a : Best). Bounds rtable dest a.max) same t.bounds)
  | inr (j, at_j, more, f) ↦ elim (ℕ_discrete after.max (2 ^ 32 - 1)) [
    | yes top ↦
        let is_null : result_of after ≡ null = ground arith in
        subst (Selects rtable dest) (sym is_null) (j, subst (IsFirst rtable dest j) top f)
    | no other ↦
        let is_route : result_of after ≡ route j = ground arith in
        subst (Selects rtable dest) (sym is_route) (after.max, more, other, t.bounds, f)
  ]
]

-- On every table: a route that is returned is the first one with the longest mask among those that
-- match the destination; `NULL` is returned exactly if that mask is 255.255.255.255; and if no
-- entry with a mask other than 0.0.0.0 matches, the index that is used has no value.
pub get_best_route-Selects :
    (rtable : List RouteEntry) (dest : ℕ) → Selects rtable dest (get_best_route rtable dest)
unfolding get_best_route
get_best_route-Selects rtable dest =
    result_of-Selects rtable dest (best_from rtable dest 0 nothing_yet)
      (best_from-Searched rtable dest 0 nothing_yet)
