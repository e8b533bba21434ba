-- ===== src/Support/MapDivision.antt =====
-- apps/engine/include/support/MapDivision.hpp and source/support/MapDivision.cpp: the grids of the levels of
-- detail. A square is the list of the entities that it holds.
pub mod Grids
use kge.Prelude.{
  ℕ, zero, suc, ◌+◌, ◌/◌, ◌^◌, ◌%◌, Bool, true, false, List, [], ◌∷◌, ◌++◌, ltb, if◌then◌else◌,
  Option, none, some, Result, ok, throws, fault, ◌>>=◌, Outcome, done, raised, undefined,
}
use kge.Support.Time.{Clock, start_timer, stop_timer}

abbrev pub Square : Type 0
Square = List ℕ

abbrev pub Column : Type 0
Column = List Square

pub record MapDivision : Type 0 where
  pub divisions : ℕ
  pub resolution : ℕ
  pub lods : List (List Column)

-- The inner loop, over `iterationY`.
fill_axis : ℕ → Column → Column
fill_axis zero axis = axis
fill_axis (suc left) axis = fill_axis left (axis ++ [] ∷ [])

-- The loop over `iterationX`: `push_back` copies the axis, and the axis is filled after it.
build_lod : ℕ → ℕ → List Column → List Column
unfolding fill_axis
build_lod zero size lod = lod
build_lod (suc left) size lod =
    let current_y_axis : Column = [] in
    let pushed = lod ++ current_y_axis ∷ [] in
    let filled = fill_axis size current_y_axis in build_lod left size pushed

-- `currentLOD[currentLOD.size() - 1]`
last_column : List Column → Result Column
last_column [] = fault
last_column (c ∷ []) = ok c
last_column (c ∷ d ∷ lod) = last_column (d ∷ lod)

-- The outer loop; `rounds` is the fuel.
build_lods : ℕ → ℕ → ℕ → List (List Column) → Result (List (List Column))
unfolding build_lod last_column
build_lods zero resolution current lods = fault
build_lods (suc rounds) resolution current lods =
    let size = resolution / current in
    let lod = build_lod size size [] in
    let rest = (do
      last ← last_column lod
      build_lods rounds resolution (current / 2) (lods ++ (lod ++ last ∷ []) ∷ [])) in
    if ltb 1 current then rest else ok lods

-- `stopTimer`, for the line that the constructor prints at its end.
stopped : MapDivision → Outcome (ℕ × Clock) → Outcome (Option MapDivision × Clock)
stopped division (done (delta, clock)) = done (some division, clock)
stopped division (raised e (_, clock)) = raised e (none, clock)
stopped division undefined = undefined

-- The grids, and the end of the constructor.
built : ℕ → ℕ → Clock → ℕ → ℕ → Result (List (List Column)) → Outcome (Option MapDivision × Clock)
unfolding stopped
built power divisions timed timer_handle stopped_at (ok lods) =
    stopped (record { divisions = divisions; resolution = 2 ^ power; lods = lods })
      (stop_timer timed timer_handle stopped_at)
built power divisions timed timer_handle stopped_at (throws e) = raised e (none, timed)
built power divisions timed timer_handle stopped_at fault = undefined

-- The constructor, on the timers' clock, for the time of day at both ends of it.
unfoldable pub new_map_division : ℕ → ℕ → Clock → ℕ → ℕ → Outcome (Option MapDivision × Clock)
unfolding build_lods built
new_map_division power divisions clock started_at stopped_at =
    let (timer_handle, timed) = start_timer clock started_at in
    built power divisions timed timer_handle stopped_at
      (build_lods (power + 1) (2 ^ power) (2 ^ power % 2 ^ 32) [])
