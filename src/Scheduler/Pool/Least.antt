-- ===== src/Scheduler/Pool/Least.antt =====
-- `next_worker` picks a worker with the least load.
use marian_edge.Common.{
  ℕ, zero, suc, ◌+◌, ◌-◌, ◌%◌, ◌≤◌, ◌<◌, ◌≡◌, refl, sym, ap, ◌∙◌, subst, List, [], ◌∷◌, Option,
  none, some, some_inj, ltb, if◌then◌else◌, if_cases, length, get_elem?, get_elem?-within, All,
  All-at, inl, inr, lt-or-le, arith,
}
use native.Mathlib.Nat.{mod-lt, add-mod_right, mod-eq_of_lt}
use marian_edge.Scheduler.{fetch_add}
use marian_edge.Scheduler.Pool.{rotation, least_from, next_worker}

-- Not above a load, and not above those of the listed workers.
abbrev LeastUnder : List ℕ → List ℕ → ℕ → Option ℕ → Type 0
LeastUnder pending workers bound none = ⊥
LeastUnder pending workers bound (some i) =
    (load : ℕ) × (get_elem? pending i ≡ some load)
    × (load ≤ bound)
    × All (λ w. (other : ℕ) × (get_elem? pending w ≡ some other) × (load ≤ other)) workers

-- One more worker in front, whose load is not below the bound of the rest.
more_workers :
    (pending : List ℕ) (worker other lower bound : ℕ) (workers : List ℕ) (r : Option ℕ)
    → get_elem? pending worker ≡ some other
    → lower ≤ other
    → lower ≤ bound
    → LeastUnder pending workers lower r
    → LeastUnder pending (worker ∷ workers) bound r
more_workers pending worker other lower bound workers none at h k v = v
more_workers pending worker other lower bound workers (some i) at h k (load, found, small, rest) =
    (load, found, omega (arith, small, k), ((other, at, omega (arith, small, h)), rest))

least_from_lem :
    (pending : List ℕ) (best load : ℕ) (workers : List ℕ)
    → get_elem? pending best ≡ some load
    → All (λ w. w < length pending) workers
    → LeastUnder pending workers load (least_from pending best load workers)
unfolding least_from
least_from_lem pending best load [] at h = (load, at, omega arith, tt)
least_from_lem pending best load (worker ∷ workers) at (lt, h) =
    let (other, found) = get_elem?-within pending worker lt in
    subst
      (λ o. LeastUnder pending (worker ∷ workers) load (elim o [
        | none ↦ none
        | some other ↦
            if ltb other load
            then least_from pending worker other workers
            else least_from pending best load workers
      ]))
      (sym found)
      (if_cases (LeastUnder pending (worker ∷ workers) load) (ltb other load)
        (least_from pending worker other workers) (least_from pending best load workers)
        (λ less.
          more_workers pending worker other other load workers _ found (omega arith)
            (ground (arith, less)) (least_from_lem pending worker other workers found h))
        (λ not_less.
          more_workers pending worker other load load workers _ found (ground (arith, not_less))
            (omega arith) (least_from_lem pending best load workers at h)))

rotation-bound :
    (start len offset left : ℕ) → 0 < len → All (λ w. w < len) (rotation start len offset left)
unfolding rotation
rotation-bound start len offset zero h = tt
rotation-bound start len offset (suc left) h =
    (mod-lt (start + offset) h, rotation-bound start len (suc offset) left h)

get_elem?-rotation :
    (start len offset left k : ℕ)
    → k < left
    → get_elem? (rotation start len offset left) k ≡ some ((start + (offset + k)) % len)
unfolding rotation
get_elem?-rotation start len offset zero k lt = absurd (omega (arith, lt))
get_elem?-rotation start len offset (suc left) zero lt =
    ap (λ n. some ((start + n) % len)) (right_zero offset)
  where
    right_zero : (n : ℕ) → n ≡ n + 0
    right_zero n = omega arith
get_elem?-rotation start len offset (suc left) (suc k) lt =
    get_elem?-rotation start len (suc offset) left k (omega (arith, lt))
    ∙ ap (λ n. some ((start + n) % len)) (shift offset k)
  where
    shift : (m n : ℕ) → suc m + n ≡ m + suc n
    shift m n = omega arith

-- Every worker stands in the rotation.
covered :
    (start len j : ℕ)
    → start < len
    → j < len
    → (k : ℕ) × (get_elem? (rotation start len 0 len) k ≡ some j)
covered start len j h lt = elim (lt-or-le j start) [
  | inl before ↦ (
    (len + j) - start,
    get_elem?-rotation start len 0 len ((len + j) - start) (omega (arith, before, h))
        ∙ ap (λ n. some (n % len)) (wrapped before)
        ∙ ap some (add-mod_right j len ∙ mod-eq_of_lt lt),
  )
  | inr from ↦ (
    j - start,
    get_elem?-rotation start len 0 len (j - start) (omega (arith, lt))
        ∙ ap (λ n. some (n % len)) (straight from)
        ∙ ap some (mod-eq_of_lt lt),
  )
]
  where
    wrapped : j < start → start + (0 + ((len + j) - start)) ≡ j + len
    wrapped b = omega (arith, b, h)

    straight : start ≤ j → start + (0 + (j - start)) ≡ j
    straight f = omega (arith, f)

All-tabulate :
    {P : ℕ → Type 0} (xs : List ℕ)
    → ((j : ℕ) → j < length xs → (x : ℕ) × (get_elem? xs j ≡ some x) × P x)
    → All P xs
All-tabulate [] h = tt
All-tabulate {P} (x ∷ xs) h =
    let (y, e, p) = h 0 (omega arith) in
    (subst P (sym (some_inj e)) p, All-tabulate xs λ j lt. h (suc j) (omega (arith, lt)))

-- The result of a choice: a worker, none has a lower load, and the counter has moved on.
abbrev pub IsChoice : List ℕ → ℕ → Option ℕ × ℕ → Type 0
IsChoice pending counter (none, after) = ⊥
IsChoice pending counter (some i, after) =
    (load : ℕ) × (get_elem? pending i ≡ some load)
    × All (λ other. load ≤ other) pending
    × (after ≡ fetch_add counter 1)

-- With at least one worker, the choice of the next worker does not panic; it gives a worker of the pool, no
-- worker has fewer pending calls than that one, and the counter goes up by one, modulo 2^64.
pub next_worker-IsChoice :
    (pending : List ℕ) (counter : ℕ)
    → 0 < length pending
    → IsChoice pending counter (next_worker pending counter)
unfolding next_worker
next_worker-IsChoice pending counter some_worker =
    by_workers (rotation start (length pending) 0 (length pending))
      (rotation-bound start (length pending) 0 (length pending) some_worker)
      λ j lt. covered start (length pending) j (mod-lt counter some_worker) lt
  where
    start : ℕ
    start = counter % length pending

    pick : List ℕ → Option ℕ
    pick workers = elim workers [
      | [] ↦ none
      | worker ∷ rest ↦ elim (get_elem? pending worker) [
        | none ↦ none
        | some load ↦ least_from pending worker load rest
      ]
    ]

    spread :
        (workers : List ℕ) (bound : ℕ) (r : Option ℕ)
        → ((j : ℕ) → j < length pending → (k : ℕ) × (get_elem? workers k ≡ some j))
        → LeastUnder pending workers bound r
        → IsChoice pending counter (r, fetch_add counter 1)
    spread workers bound none all_in v = absurd v
    spread workers bound (some i) all_in (load, at, small, rest) = (
      load,
      at,
      All-tabulate pending λ j lt.
          let (k, e) = all_in j lt in
          let (other, found, le) = All-at _ workers k j rest e in (other, found, le),
      refl,
    )

    by_workers :
        (workers : List ℕ)
        → All (λ w. w < length pending) workers
        → ((j : ℕ) → j < length pending → (k : ℕ) × (get_elem? workers k ≡ some j))
        → IsChoice pending counter (pick workers, fetch_add counter 1)
    by_workers [] h all_in = let (k, e) = all_in 0 some_worker in absurd (missing k e)
      where
        missing : (k : ℕ) → get_elem? {A = ℕ} [] k ≡ some 0 → ⊥
        missing k e = cc
    by_workers (worker ∷ rest) (lt, h) all_in =
        let (load, found) = get_elem?-within pending worker lt in
        spread (worker ∷ rest) load (pick (worker ∷ rest)) all_in (
          subst
            (λ o.
              LeastUnder pending (worker ∷ rest) load
                (elim o [ none ↦ none | some load ↦ least_from pending worker load rest ]))
            (sym found)
            (more_workers pending worker load load load rest (least_from pending worker load rest)
              found (omega arith) (omega arith) (least_from_lem pending worker load rest found h)))
