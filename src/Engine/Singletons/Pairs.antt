-- ===== src/Engine/Singletons/Pairs.antt =====
-- The server and the map division that it makes.
use kge.Prelude.{
  ℕ, ◌+◌, ◌<◌, ◌≡◌, refl, ap, ◌∙◌, arith, length, Option, none, some, done, raised, runtime_error,
}
use kge.Support.Time.{Clock}
use kge.Support.Time.Nesting.{sim_after}
use kge.Support.MapDivision.{MapDivision}
use kge.Support.MapDivision.Grids.{division_of, new_map_division_returns}
use kge.Support.Singleton.{Holder, destroy}
use kge.Network.ServerBase.{Server, new_server, fresh_server}
use kge.Engine.Singletons.{
  Listen, new_server_singleton, with_division, behind_base, keep_server, division_get,
  division_destroy, server_get_pointer, server_destroy,
}

-- The map division of a server: 12 levels and room for 999 divisions.
abbrev pub division_of_server : MapDivision
division_of_server = division_of 12 999

abbrev pub holds {ℓ} : {S : Type ℓ} → Option S → ℕ → ℕ → Holder S
holds p m d = record { instance_ptr = p; made = m; deleted = d }

module _ {G : Type 0} (l : Listen G) (clock : Clock) where
  abbrev pub listening : ℕ → Server G
  listening h = fresh_server l.listen_address l.listen_port (some h) l.game

  -- The timers once the map division is made.
  abbrev pub clock_after : Clock
  clock_after = record {
    timer_stack = clock.timer_stack;
    current_sim_time = sim_after clock l.map_started_at l.map_stopped_at;
  }

  division_first :
      (m d : ℕ)
      → length clock.timer_stack < 255
      → division_get (12, 999) (l.map_started_at, l.map_stopped_at) (holds none m d) clock
        ≡ done (holds (some division_of_server) (m + 1) d, clock_after)
  unfolding division_get
  division_first m d few = simp (
    division_get,
    new_map_division_returns 12 999 clock l.map_started_at l.map_stopped_at (omega arith) few,
  )

  server_first :
      (host m d : ℕ)
      → l.host ≡ some host
      → length clock.timer_stack < 255
      → new_server_singleton l (holds none m d, clock)
        ≡ done (some (listening host), (holds (some division_of_server) (m + 1) d, clock_after))
  unfolding new_server_singleton new_server
  server_first host m d e few =
      ap
        (λ h.
          behind_base l (holds none m d, clock)
            (new_server l.listen_address l.listen_port h l.game))
        e
      ∙ ap (with_division (listening host)) (division_first m d few)

  -- Where ENet gives a host and fewer than 255 timers run, the first `getPointer` makes a server and a map
  -- division, whose timer moves the simulation time if no other runs; every further one changes
  -- nothing, whatever its arguments are, and `destroy` deletes both.
  pub server_get_pointer-server_destroy :
      (again : Listen G) (host m d m2 d2 : ℕ)
      → l.host ≡ some host
      → length clock.timer_stack < 255
      → let server = holds (some (listening host)) (m + 1) d in
        let division = holds (some division_of_server) (m2 + 1) d2 in
        (server_get_pointer l (holds none m d) (holds none m2 d2, clock)
          ≡ done (server, (division, clock_after)))
        × (server_get_pointer again server (division, clock_after)
            ≡ done (server, (division, clock_after)))
        × (server_destroy server division
            ≡ (holds none (m + 1) (d + 1), holds none (m2 + 1) (d2 + 1)))
  unfolding server_get_pointer server_destroy new_server_singleton new_server division_destroy
      destroy
  server_get_pointer-server_destroy again host m d m2 d2 e few =
      (ap (keep_server (holds none m d)) (server_first host m2 d2 e few), refl, refl)

  -- Where ENet gives none, `getPointer` throws.
  server_get_pointer_throws :
      (division : Holder MapDivision) (m d : ℕ)
      → l.host ≡ none
      → server_get_pointer l (holds none m d) (division, clock)
        ≡ raised runtime_error (holds none m d, (division, clock))
  unfolding server_get_pointer new_server_singleton new_server
  server_get_pointer_throws division m d e = rw e refl
