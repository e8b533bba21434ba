-- ===== src/Engine/EngineMain/Program.antt =====
-- `main` of apps/engine/source/EngineMain.cpp, from the command line to the end of the engine that it runs.
use kge.Prelude.{
  ℕ, ◌<◌, length, Option, Result, ok, throws, fault, ◌∙◌, ◌≡◌, refl, ap, Bool, true, false, none,
  some, List, [], ◌∷◌, ◌++◌, map, All, get_elem?, Outcome, done, raised, undefined, append-nil,
}
use kge.Support.Time.{Clock}
use kge.Support.Scheduler.{new_scheduler}
use kge.Support.CommandLineParser.{Text, invoke_flag_responders}
use kge.Support.CommandLineParser.Parsing.{named, arguments_of}
use kge.Support.CommandLineParser.Responders.{calls, told, invoke_flag_responders-told}
use kge.Network.OutgoingClientBase.{Client}
use kge.Game.HandShake.{HandShake}
use kge.Game.OutgoingClientSingleton.{ClientMembers}
use kge.Engine.Core.{engine_dedicated, Attempt, FrameInput}
use kge.Engine.Core.Serving.{FramesLegal, dedicated}
use kge.Engine.Core.Lifetime.{Remains}
use kge.Engine.Core.Lifetime
use kge.Engine.Core.Statics.{AllFreed}
use kge.Engine.Core.Lifetime.Freed.{launch-AllFreed}
use kge.Engine.Core.Lifetime.Launch.{set_up, launch_failed, launch-dedicated}
use kge.Engine.EngineMain.{
  Effect, no_effect, help, version, run, respond, entries, run_tests, game_responder,
  game_flag_handler, dash_dedicated, dash_server,
}
use kge.Engine.EngineMain.Streams.{log_file_path}
use kge.Engine.EngineMain.Launches.{IsQuiet, told-IsQuiet, registered, game_flag_handler-launch}

-- Whether PhysFS opens LOG.txt and where it says that the file is; what ENet and Irrlicht do for an engine, and
-- the client that it makes.
pub record World : Type 0 where
  pub log_opens : Bool
  pub log_dir : Option Text
  pub attempt : Attempt
  pub client : Client ClientMembers
  pub device : Bool
  pub frames : List FrameInput

-- The responders of a program, one after the other, and what the engines that were run left behind.
module _ (old : HandShake) (w : World) where
  abbrev ended : Outcome Remains → Outcome (List Remains)
  ended (done r) = done (r ∷ [])
  ended (raised x r) = raised x (r ∷ [])
  ended undefined = undefined

  unfoldable pub execute : Clock → Effect → Outcome (List Remains)
  execute clock (run mode address port game) = ended (
      Lifetime.launch old none clock new_scheduler mode address game w.attempt w.client w.device
        w.frames)
  execute clock _ = done []

  abbrev after : Outcome (List Remains) → List Remains → Outcome (List Remains)
  after (done rs) before = done (before ++ rs)
  after (raised x rs) before = raised x (before ++ rs)
  after undefined before = undefined

  abbrev last_clock : Clock → List Remains → Clock
  last_clock clock [] = clock
  last_clock clock (r ∷ rs) = last_clock r.clock rs

  unfoldable pub execute_all : Clock → List Effect → Outcome (List Remains)
  execute_all clock [] = done []
  execute_all clock (e ∷ es) = elim (execute clock e) [
    | done rs ↦ after (execute_all (last_clock clock rs) es) rs
    | raised x rs ↦ raised x rs
    | undefined ↦ undefined
  ]

  -- The beginning of `main`: a file that PhysFS did not open is written to through NULL, and the path of the log is
  -- made of what `PHYSFS_getRealDir` gives, which may be NULL. The redirection of the streams, which
  -- leaves the engine alone, is in Streams.
  abbrev at_path : Result Text → Outcome (List Remains) → Outcome (List Remains)
  at_path (ok path) o = o
  at_path (throws e) o = raised e []
  at_path fault o = undefined

  unfoldable pub with_log : Bool → Option Text → Outcome (List Remains) → Outcome (List Remains)
  with_log false dir o = undefined
  with_log true dir o = at_path (log_file_path dir) o

  -- `main`, where the map of the flags is gone through in the order of the keys; `engine_tests` is whether it
  -- is built with the tests, which print and leave the engine alone.
  unfoldable pub main :
      (engine_tests : Bool)
      → (hash : Text → ℕ) → (is_flag : Text → Bool) → Clock
      → Text
      → List Text
      → List ℕ
      → Outcome (List Remains)
  main engine_tests hash is_flag clock argv0 args order =
      let parser = registered hash is_flag argv0 args (entries engine_tests) in
      with_log w.log_opens w.log_dir (
        execute_all clock
          (map (respond hash parser) (invoke_flag_responders (λ c. false) hash parser order).0))

  nothing_run : (clock : Clock) (es : List Effect) → All IsQuiet es → execute_all clock es ≡ done []
  unfolding execute_all execute
  nothing_run clock [] h = refl
  nothing_run clock (no_effect ∷ es) (_, h) = rw (nothing_run clock es h)
  nothing_run clock (help lines ∷ es) (_, h) = rw (nothing_run clock es h)
  nothing_run clock (version ∷ es) (_, h) = rw (nothing_run clock es h)
  nothing_run clock (run_tests ∷ es) (_, h) = rw (nothing_run clock es h)
  nothing_run clock (run mode address port game ∷ es) (q, h) = absurd q

  after_nothing :
      (o : Outcome (List Remains)) (clock : Clock) (es : List Effect) (e : Effect)
      → All IsQuiet es
      → execute clock e ≡ o
      → execute_all clock (e ∷ es) ≡ o
  unfolding execute_all
  after_nothing (done rs) clock es e quiet is =
      rw (execute_all, is, nothing_run (last_clock clock rs) es quiet) (ap done (append-nil rs))
  after_nothing (raised x rs) clock es e quiet is = rw (execute_all, is)
  after_nothing undefined clock es e quiet is = rw (execute_all, is)

  with_log-undefined : (opens : Bool) (dir : Option Text) → with_log opens dir undefined ≡ undefined
  unfolding with_log log_file_path
  with_log-undefined false dir = refl
  with_log-undefined true none = refl
  with_log-undefined true (some d) = refl

  with_log-opened :
      (dir : Text) (o : Outcome (List Remains))
      → w.log_opens ≡ true
      → w.log_dir ≡ some dir
      → with_log w.log_opens w.log_dir o ≡ o
  unfolding with_log log_file_path
  with_log-opened dir o opens there = simp (with_log, opens, there) refl

  module _ (engine_tests : Bool) (hash : Text → ℕ) (is_flag : Text → Bool) (clock : Clock)
      (argv0 : Text) (args : List Text) (order : List ℕ) (game : Text)
      (later : List (ℕ × List Text))
      (first : calls (registered hash is_flag argv0 args (entries engine_tests)) order
        ≡ (game_responder, game ∷ []) ∷ later) where
    main_runs :
        (o : Outcome (List Remains))
        → execute clock (
            game_flag_handler hash
              (registered hash is_flag argv0 args (entries engine_tests))
              (game ∷ [])
              false)
          ≡ o
        → main engine_tests hash is_flag clock argv0 args order ≡ with_log w.log_opens w.log_dir o
    unfolding main respond
    main_runs o runs =
        let parser = registered hash is_flag argv0 args (entries engine_tests) in
        ap (with_log w.log_opens w.log_dir) (
          rw (invoke_flag_responders-told (λ c. false) parser (λ c. refl) hash order, first)
            (after_nothing o clock (map (respond hash parser) (told true later))
              (game_flag_handler hash parser (game ∷ []) false) (told-IsQuiet hash parser later)
              runs))

    -- A command line with `-dedicated` and without `-server`, whose flags are gone through with `-game` and
    -- its one argument first, where PhysFS opens the log and says where it is, ENet makes a host,
    -- Irrlicht makes a device, and fewer than 255 timers run: whatever the clients of the server send
    -- in however many frames, with events that ENet may deliver, the program runs one engine, ends without an exception and without a
    -- fault, and leaves no client, no host that listens and no instance of a singleton. A fault is an
    -- access out of bounds, of an unwritten byte, through NULL or through an iterator that is no longer
    -- valid.
    pub main-dedicated :
        (dir : Text) (host : ℕ)
        → w.log_opens ≡ true
        → w.log_dir ≡ some dir
        → named hash is_flag (hash dash_dedicated) args ≡ true
        → named hash is_flag (hash dash_server) args ≡ false
        → w.attempt.host ≡ some host
        → w.device ≡ true
        → length clock.timer_stack < 255
        → FramesLegal old []
            (dedicated old (set_up clock engine_dedicated [] game).core w.attempt host)
            w.frames
        → (left : Remains) × (main engine_tests hash is_flag clock argv0 args order
            ≡ done (left ∷ []))
          × (left.client ≡ none)
          × (left.listening ≡ none)
          × AllFreed left.statics
    unfolding execute
    main-dedicated dir host opens there is_dedicated no_server has_host device few legal =
        let (left, ends, no_client, closed) =
          launch-dedicated old clock [] game w.attempt w.client host w.frames has_host few legal in
        (
          left,
          main_runs (done (left ∷ [])) (
                rw
                  (
                    game_flag_handler-launch hash is_flag argv0 args (entries engine_tests) game,
                    is_dedicated,
                    no_server,
                  )
                  (simp device (rw ends)))
              ∙ with_log-opened dir (done (left ∷ [])) opens there,
          no_client,
          closed,
          launch-AllFreed old clock engine_dedicated [] game w.attempt w.client true w.frames left
              ends,
        )

    -- A command line whose `-server` names a server that no connection can be made to, gone through in the same
    -- order: the program has undefined behaviour.
    pub main_unconnected :
        (c : ℕ) (target : Text)
        → named hash is_flag (hash dash_server) args ≡ true
        → get_elem? (arguments_of hash is_flag (hash dash_server) args) 0 ≡ some (c ∷ target)
        → w.client.is_connected ≡ false
        → w.attempt.came_up ≡ false
        → main engine_tests hash is_flag clock argv0 args order ≡ undefined
    unfolding execute
    main_unconnected c target is_server names offline down =
        main_runs undefined (
          rw (
            game_flag_handler-launch hash is_flag argv0 args (entries engine_tests) game,
            is_server,
            names,
            launch_failed old clock (c ∷ target) game w.attempt w.client w.device w.frames offline
                down,
          ))
        ∙ with_log-undefined w.log_opens w.log_dir
