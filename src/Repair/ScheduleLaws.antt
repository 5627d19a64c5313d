-- ===== src/Repair/ScheduleLaws.antt =====
-- The limit of the rate holds, and the queue is served by priority.
use allidb.Repair.Schedule.{
  RepairTask, RateLimiter, second, allow, Executor, write_to, execute_repair,
}
use allidb.Base.{
  Bool, Bool-cases, Bytes, List, [], ap, arith, count, inl, inr, leb, length, not, ok, refl, ℕ, ◌*◌,
  ◌+◌, ◌-◌, ◌<◌, ◌↔◌, ◌∷◌, ◌≡◌, ◌≤◌,
}

-- The calls of Allow at these times, and the answers.
unfoldable pub allow_all : RateLimiter → List ℕ → RateLimiter × List Bool
unfolding allow
allow_all r [] = (r, [])
allow_all r (now ∷ times) =
    let (r', granted) = allow now r in let (r'', more) = allow_all r' times in (r'', granted ∷ more)

-- The times do not go back, from a time on.
abbrev pub From : ℕ → List ℕ → Type 0
From t [] = Unit {0}
From t (now ∷ times) = (t ≤ now) × From now times

abbrev pub last_time : ℕ → List ℕ → ℕ
last_time t [] = t
last_time t (now ∷ times) = last_time now times

abbrev pub granted : List Bool → ℕ
granted bs = count (λ b. b) bs

From-le-last_time : (t : ℕ) (times : List ℕ) → From t times → t ≤ last_time t times
From-le-last_time t [] f = omega arith
From-le-last_time t (now ∷ times) f = omega (arith, f.0, From-le-last_time now times f.1)

From-weaken : (s t : ℕ) (times : List ℕ) → s ≤ t → From t times → From s times
From-weaken s t [] le f = tt
From-weaken s t (now ∷ times) le f = (omega (arith, le, f.0), f.1)

one_more : (k m : ℕ) → (k + 1) * m ≡ k * m + m
one_more k m = omega arith

later_window :
    (k last now start : ℕ)
    → k * second ≤ last - now
    → second ≤ now - start
    → now ≤ last
    → (k + 1) * second ≤ last - start
later_window k last now start time gap le = omega (arith, time, gap, le)

-- From the start of a window on, over calls whose times do not go back: with k the number of later
-- windows, which each take a second, Allow grants at most what is left of the first window and its
-- maximal rate for each later one.
pub allow_all_bounds :
    (r : RateLimiter) (times : List ℕ) (t : ℕ)
    → r.window_start ≤ t
    → From t times
    → r.ops_count ≤ r.max_rate
    → (k : ℕ) × (k * second ≤ last_time t times - r.window_start)
      × (r.ops_count + granted (allow_all r times).1 ≤ r.max_rate + k * r.max_rate)
unfolding allow_all
allow_all_bounds r [] t le f small = (0, omega arith, omega (arith, small))
allow_all_bounds r (now ∷ times) t le f small =
    elim (Bool-cases (leb second (now - r.window_start))) [
      | inr within ↦ elim (Bool-cases (leb r.max_rate r.ops_count)) [
        | inl full ↦
            let (k, time, bound) =
              allow_all_bounds r times now (omega (arith, le, f.0)) f.1 small in
            rw (within, full) (k, time, bound)
        | inr room ↦
            let (k, time, bound) =
              allow_all_bounds (record r { ops_count = r.ops_count + 1 }) times now
                (omega (arith, le, f.0)) f.1 (ground (arith, room)) in
            rw (within, room) (k, time, omega (arith, bound))
      ]
      | inl over ↦
          let gap : second ≤ now - r.window_start = ground (arith, over) in
          let ahead = From-le-last_time now times f.1 in
          elim (Bool-cases (leb r.max_rate 0)) [
            | inl full ↦
                let (k, time, bound) =
                  allow_all_bounds (record r { ops_count = 0; window_start = now }) times now
                    (omega arith) f.1 (omega arith) in
                rw (over, full)
                  (
                    k + 1,
                    later_window k (last_time now times) now r.window_start time gap ahead,
                    omega (arith, bound, small, one_more k r.max_rate),
                  )
            | inr room ↦
                let (k, time, bound) =
                  allow_all_bounds (record r { ops_count = 0 + 1; window_start = now }) times now
                    (omega arith) f.1 (ground (arith, room)) in
                rw (over, room)
                  (
                    k + 1,
                    later_window k (last_time now times) now r.window_start time gap ahead,
                    omega (arith, bound, small, one_more k r.max_rate),
                  )
          ]
    ]

write_to-count :
    (write : Bytes → Bool) (ns : List Bytes)
    → write_to write ns ≡ (count write ns, count (λ n. not (write n)) ns)
unfolding write_to
write_to-count write [] = refl
write_to-count write (n ∷ ns) = rw (write_to-count write ns) (ground arith)

-- A repair of at least one node: as many repairs are counted as executed as writes succeed, and as
-- failed as fail, and an error is returned exactly where no write succeeds.
pub execute_repair_counts :
    (write : Bytes → Bool) (task : RepairTask) (e : Executor)
    → 0 < length task.target_nodes
    → ((execute_repair write task e).0.repairs_executed
        ≡ e.repairs_executed + count write task.target_nodes)
      × ((execute_repair write task e).0.repairs_failed
          ≡ e.repairs_failed + count (λ n. not (write n)) task.target_nodes)
      × (((execute_repair write task e).1 ≡ ok tt) ↔ (0 < count write task.target_nodes))
unfolding execute_repair
execute_repair_counts write task e some_node = go task.target_nodes refl
  where
    go :
        (ns : List Bytes)
        → ns ≡ task.target_nodes
        → ((execute_repair write task e).0.repairs_executed
            ≡ e.repairs_executed + count write task.target_nodes)
          × ((execute_repair write task e).0.repairs_failed
              ≡ e.repairs_failed + count (λ n. not (write n)) task.target_nodes)
          × (((execute_repair write task e).1 ≡ ok tt) ↔ (0 < count write task.target_nodes))
    go [] same = absurd (omega (arith, some_node, ap length same))
    go (n ∷ ns) same =
        rw (← same, execute_repair, write_to-count write (n ∷ ns))
          (refl, refl, (λ h. ground (arith, h), λ h. ground (arith, h)))
