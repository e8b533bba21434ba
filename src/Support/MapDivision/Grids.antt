-- ===== src/Support/MapDivision/Grids.antt =====
-- The grids that the constructor builds.
use Prim.Native.Nat.{ℕ}
use native.Mathlib.Nat.{mul-div_cancel, pow-succ', pow-le-pow_right}
use kge.Prelude.{
  zero, suc, ◌+◌, ◌*◌, ◌/◌, ◌^◌, ◌%◌, ◌≤◌, ◌<◌, ◌≡◌, refl, ap, ◌∙◌, sym, true, List, [], ◌∷◌, ◌++◌,
  append-nil, append_assoc, arith, ltb, lt→ltb, ltb→lt, le→ltb, false, replicate, length, ok,
  if◌then◌else◌, Bool-cases, inl, inr, none, some, done, raised, logic_error,
}
use kge.Support.Time.{Clock, start_timer}
use kge.Support.Time.Nesting.{sim_after, stop_timer-start_timer, stop_timer_throws}
use kge.Support.MapDivision.{
  MapDivision, Column, build_lod, last_column, build_lods, built, stopped, new_map_division,
}

-- The grids from level `i` on: one more than 2 ^ i columns each, all without squares.
unfoldable pub grids_from : ℕ → ℕ → List (List Column)
grids_from i zero = []
grids_from i (suc left) = replicate (2 ^ i + 1) [] ∷ grids_from (suc i) left

replicate_snoc : (n : ℕ) → replicate n [] ++ [] ∷ [] ≡ replicate {A = Column} (suc n) []
replicate_snoc zero = refl
replicate_snoc (suc n) = ap (λ cs. [] ∷ cs) (replicate_snoc n)

build_lod_columns :
    (left size n : ℕ) → build_lod left size (replicate n []) ≡ replicate (left + n) []
unfolding build_lod
build_lod_columns zero size n = ap (λ k. replicate k []) (omega arith)
build_lod_columns (suc left) size n =
    ap (build_lod left size) (replicate_snoc n)
    ∙ build_lod_columns left size (suc n)
    ∙ ap (λ k. replicate k []) (omega arith)

last_column_empty : (n : ℕ) → 0 < n → last_column (replicate n []) ≡ ok []
unfolding last_column
last_column_empty zero h = absurd (omega arith)
last_column_empty (suc zero) h = refl
last_column_empty (suc (suc n)) h = last_column_empty (suc n) (omega arith)

pow_positive : (j : ℕ) → 0 < 2 ^ j
pow_positive zero = omega arith
pow_positive (suc j) = let step = pow-succ' 2 j in omega (arith, pow_positive j, step)

shift : (a b a' b' : ℕ) → a' ≡ 2 * a → b' ≡ 2 * b → a * b' ≡ a' * b
shift a b a' b' e f = rw (e, f) (omega arith)

mod_small : (n : ℕ) → n < 2 ^ 32 → n % 2 ^ 32 ≡ n
mod_small n h = omega arith

below : (power : ℕ) → power < 32 → 2 ^ power < 2 ^ 32
below power h =
    let large : 2 ^ power ≤ 2 ^ 31 =
      pow-le-pow_right {n = 2} (omega arith) {i = power} {j = 31} (omega arith) in
    omega (arith, large)

build_lods_grids :
    (i j rounds resolution : ℕ) (lods : List (List Column))
    → j < rounds
    → resolution ≡ 2 ^ i * 2 ^ j
    → build_lods rounds resolution (2 ^ j) lods ≡ ok (lods ++ grids_from i j)
unfolding build_lods grids_from
build_lods_grids i j zero resolution lods h e = absurd (omega arith)
build_lods_grids i zero (suc rounds) resolution lods h e = ap ok (sym (append-nil lods))
build_lods_grids i (suc j) (suc rounds) resolution lods h e =
    let up : 2 ^ suc j ≡ 2 * 2 ^ j = pow-succ' 2 j in
    let next : 2 ^ suc i ≡ 2 * 2 ^ i = pow-succ' 2 i in
    let wide : ltb 1 (2 ^ suc j) ≡ true =
      lt→ltb 1 (2 ^ suc j) (omega (arith, up, pow_positive j)) in
    let size : resolution / 2 ^ suc j ≡ 2 ^ i =
      ap (λ r. r / 2 ^ suc j) e ∙ mul-div_cancel (2 ^ i) (pow_positive (suc j)) in
    let half : 2 ^ suc j / 2 ≡ 2 ^ j = omega (arith, up) in
    let columns : build_lod (2 ^ i) (2 ^ i) [] ≡ replicate (2 ^ i) [] =
      build_lod_columns (2 ^ i) (2 ^ i) 0 ∙ ap (λ k. replicate k []) (omega arith) in
    let one_more : suc (2 ^ i) ≡ 2 ^ i + 1 = omega arith in
    let grid : replicate (2 ^ i) [] ++ [] ∷ [] ≡ replicate {A = Column} (2 ^ i + 1) [] =
      replicate_snoc (2 ^ i) ∙ ap (λ k. replicate k []) one_more in
    let rest =
      build_lods_grids (suc i) j rounds resolution (lods ++ replicate (2 ^ i + 1) [] ∷ [])
        (omega arith) (e ∙ shift (2 ^ i) (2 ^ j) (2 ^ suc i) (2 ^ suc j) next up) in
    rw (wide, size, columns, last_column_empty (2 ^ i) (pow_positive i), half, grid)
      (rest ∙ ap ok (append_assoc lods (replicate (2 ^ i + 1) [] ∷ []) (grids_from (suc i) j)))

-- What the constructor gives.
abbrev pub division_of : ℕ → ℕ → MapDivision
division_of power divisions = record {
  divisions = divisions;
  resolution = 2 ^ power;
  lods = grids_from 0 power;
}

-- For each power below 32 the constructor builds a level for each i below it, of 2 ^ i columns and one more
-- that repeats the last. All the columns are empty, without a single square: the squares go to a
-- copy of the column that is thrown away. With fewer than 255 timers running it returns; the timers
-- are as before, and where none was running the simulation time moves on by what it took. With 255 or
-- more it throws `std::logic_error`, and leaves its own timer running.
pub new_map_division-grids_from :
    (power divisions : ℕ) (clock : Clock) (from to : ℕ)
    → power < 32
    → new_map_division power divisions clock from to ≡ (
        if ltb (length clock.timer_stack) 255
        then done (
          some (division_of power divisions),
          record { timer_stack = clock.timer_stack; current_sim_time = sim_after clock from to },
        )
        else raised logic_error (none, record clock { timer_stack = from ∷ clock.timer_stack }))
unfolding new_map_division built stopped
new_map_division-grids_from power divisions clock from to small =
    let fits : 2 ^ power % 2 ^ 32 ≡ 2 ^ power = mod_small (2 ^ power) (below power small) in
    let lods = build_lods_grids 0 power (power + 1) (2 ^ power) [] (omega arith) (omega arith) in
    let grids : build_lods (power + 1) (2 ^ power) (2 ^ power % 2 ^ 32) []
        ≡ ok (grids_from 0 power) =
      ap (λ n. build_lods (power + 1) (2 ^ power) n []) fits ∙ lods in
    let timed = (start_timer clock from).1 in
    let handle = (start_timer clock from).0 in
    ap (built power divisions timed handle to) grids
    ∙ elim (Bool-cases (ltb (length clock.timer_stack) 255)) [
      | inl few ↦
          let (delta, stops, _) =
            stop_timer-start_timer clock from to (ltb→lt (length clock.timer_stack) 255 few) in
          rw few (ap (stopped (division_of power divisions)) stops)
      | inr many ↦ rw many (
          ap (stopped (division_of power divisions))
            (stop_timer_throws clock from to (ground (arith, many))))
    ]

pub new_map_division_returns :
    (power divisions : ℕ) (clock : Clock) (from to : ℕ)
    → power < 32
    → length clock.timer_stack < 255
    → new_map_division power divisions clock from to
      ≡ done (
        some (division_of power divisions),
        record { timer_stack = clock.timer_stack; current_sim_time = sim_after clock from to },
      )
new_map_division_returns power divisions clock from to small few =
    let fewer : ltb (length clock.timer_stack) 255 ≡ true =
      lt→ltb (length clock.timer_stack) 255 few in
    new_map_division-grids_from power divisions clock from to small ∙ rw fewer refl

pub new_map_division_throws :
    (power divisions : ℕ) (clock : Clock) (from to : ℕ)
    → power < 32
    → 255 ≤ length clock.timer_stack
    → new_map_division power divisions clock from to
      ≡ raised logic_error (none, record clock { timer_stack = from ∷ clock.timer_stack })
new_map_division_throws power divisions clock from to small many =
    let crowded : ltb (length clock.timer_stack) 255 ≡ false =
      le→ltb (length clock.timer_stack) 255 many in
    new_map_division-grids_from power divisions clock from to small ∙ rw crowded refl
