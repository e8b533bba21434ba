-- ===== src/Examples/Tables.antt =====
-- The event manager and the map division at concrete inputs.
use kge.Prelude.{ℕ, ◌≡◌, refl, some, List, [], ◌∷◌, ◌++◌, map, true, arith, length, ok, done, fault}
use kge.Memory.{Cell, init}
use kge.Support.String.Stripping.{stripped, removals, strip_char-stripped}
use kge.Support.String.{String, of, strip_char, concat, append_assign, c_string, total_length}
use kge.Support.String.Joining.{IsText, append_assign-concat}
use kge.Support.CommandLineParser.{Text}
use kge.Support.EventManager.{EventManager, bind_all}
use kge.Support.EventManager.Bindings.{Bound, bind_all-Bound}
use kge.Support.MapDivision.{new_map_division}
use kge.Support.Time.Nesting.{sim_after}
use kge.Support.MapDivision.Grids.{division_of, new_map_division-grids_from}

abbrev hash : Text → ℕ
hash word = length word

abbrev event_name : Text
event_name = 97 ∷ 98 ∷ []

abbrev no_events : EventManager
no_events = record { event_mapping = [] }

bind_all-Bound_example :
    Bound hash event_name (1 ∷ 2 ∷ 3 ∷ []) (bind_all hash no_events event_name (1 ∷ 2 ∷ 3 ∷ []))
bind_all-Bound_example = bind_all-Bound hash event_name no_events refl 1 (2 ∷ 3 ∷ [])

-- With no timer running.
new_map_division-grids_from_example :
    new_map_division 3 999 (record { timer_stack = []; current_sim_time = 40 }) 1000 1600
    ≡ done (
      some (division_of 3 999),
      record {
        timer_stack = [];
        current_sim_time = sim_after (record { timer_stack = []; current_sim_time = 40 }) 1000 1600;
      },
    )
new_map_division-grids_from_example =
    new_map_division-grids_from 3 999 (record { timer_stack = []; current_sim_time = 40 }) 1000 1600
      (omega arith)

abbrev hi : List ℕ
hi = 104 ∷ 105 ∷ []

hi-IsText : IsText hi
hi-IsText = (ground arith, (ground arith, tt))

append_assign-concat_example :
    (s : String) × (cells : List (Cell ℕ)) × (append_assign (of hi) (of hi) ≡ ok s)
    × (s.stored ≡ some cells)
    × (c_string cells ≡ ok (hi ++ hi))
    × (total_length s ≡ 2)
    × (concat s (of hi) ≡ fault)
append_assign-concat_example =
    append_assign-concat hi hi hi hi-IsText hi-IsText hi-IsText (omega arith) (omega arith)

abbrev aab : List ℕ
aab = 97 ∷ 97 ∷ 98 ∷ []

strip_char-stripped_example :
    (junk : List (Cell ℕ)) × (strip_char (of aab) 97
      ≡ ok (
        record {
          is_const = true;
          stored = some (map init (stripped 97 aab) ++ init 0 ∷ junk);
          str_length = length (stripped 97 aab);
        },
        removals 97 aab,
      ))
strip_char-stripped_example = strip_char-stripped aab 97
