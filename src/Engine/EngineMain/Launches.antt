-- ===== src/Engine/EngineMain/Launches.antt =====
-- When a command line starts the engine, and how.
use kge.Prelude.{
  ℕ, ◌≡◌, refl, ap, ◌∙◌, Bool, true, false, not, Option, none, some, List, [], ◌∷◌, map, All,
  if◌then◌else◌, get_elem?, ◌⊎◌, inl, inr, Bool-cases, ◌==◌,
}
use kge.Support.CommandLineParser.{
  Text, FlagEntry, CommandLineParser, Invocation, display_help, new_parser, set_flag_responder,
  has_flag, is_some, lookup, at_or_empty, get_flag_argument, or_empty, invoke_flag_responders,
  display_help_responder,
}
use kge.Support.CommandLineParser.Parsing.{named, arguments_of, new_parser-arguments_of}
use kge.Support.CommandLineParser.Responders.{
  register_all, calls, told, invoked, invoke_flag_responders-told,
}
use kge.Engine.Core.{engine_client, engine_clientconnect, engine_dedicated}
use kge.Engine.EngineMain.{
  Effect, help, run, game_flag_handler, respond, is_empty, dash_dedicated, dash_server,
  game_responder, tests_responder,
}

-- The effects that do not start the engine.
abbrev pub IsQuiet : Effect → Type 0
IsQuiet (run mode address port game) = ⊥
IsQuiet _ = Unit

module _ (hash : Text → ℕ) (p : CommandLineParser) where
  respond_later :
      (r : ℕ) (arguments : List Text)
      → IsQuiet
          (respond hash p (record { responder = r; arguments = arguments; other_flags = true }))
  unfolding respond game_flag_handler
  respond_later r arguments = elim (Bool-cases (r == display_help_responder)) [
    | inl shows ↦ rw shows tt
    | inr other ↦ elim (Bool-cases (r == game_responder)) [
      | inl starts ↦ rw (other, starts) tt
      | inr no_game ↦ elim (Bool-cases (r == tests_responder)) [
        | inl tests ↦ rw (other, no_game, tests) tt
        | inr prints ↦ rw (other, no_game, prints) tt
      ]
    ]
  ]

  pub told-IsQuiet : (cs : List (ℕ × List Text)) → All IsQuiet (map (respond hash p) (told true cs))
  told-IsQuiet [] = tt
  told-IsQuiet ((r, arguments) ∷ cs) = (respond_later r arguments, told-IsQuiet cs)

  -- If no responder throws `std::out_of_range`, at most one engine is run for a command line,
  -- and only by the first responder in the order of the iteration: what every later call does is
  -- not a run. So a `-game` that stands with `-v` or `-h` runs only if the map yields it first.
  pub invoke_flag_responders-IsQuiet :
      (order : List ℕ)
      → let log = (invoke_flag_responders (λ c. false) hash p order).0 in
        (map (respond hash p) log ≡ [])
        ⊎ ((first : Invocation) × (later : List Invocation) × (log ≡ first ∷ later)
            × All IsQuiet (map (respond hash p) later))
  invoke_flag_responders-IsQuiet order =
      rw (invoke_flag_responders-told (λ c. false) p (λ c. refl) hash order) (go (calls p order))
    where
      go :
          (cs : List (ℕ × List Text))
          → (map (respond hash p) (invoked hash p cs).0 ≡ [])
            ⊎ ((first : Invocation) × (later : List Invocation) × ((invoked hash p cs).0
                  ≡ first ∷ later)
                × All IsQuiet (map (respond hash p) later))
      go [] = inl refl
      go (c ∷ cs) = inr (_, told true cs, refl, told-IsQuiet cs)

-- What `-game` comes to on a command line: its start, or the help.
abbrev pub launch : Bool → Bool → Option Text → List Text → Text → Effect
launch dedicated false target lines game =
    if dedicated then run engine_dedicated [] 11595 game else run engine_client [] 11595 game
launch dedicated true none lines game = help lines
launch dedicated true (some []) lines game = help lines
launch dedicated true (some (c ∷ cs)) lines game = run engine_clientconnect (c ∷ cs) 11595 game

launch_cases :
    (dedicated server : Bool) (target : Option Text) (lines : List Text) (game : Text)
    → (if not server
        then run (if dedicated then engine_dedicated else engine_client) [] 11595 game
        else if is_empty (if server then or_empty target else [])
        then help lines
        else run engine_clientconnect (if server then or_empty target else []) 11595 game)
      ≡ launch dedicated server target lines game
launch_cases true false target lines game = refl
launch_cases false false target lines game = refl
launch_cases dedicated true none lines game = refl
launch_cases dedicated true (some []) lines game = refl
launch_cases dedicated true (some (c ∷ cs)) lines game = refl

register_all-flags :
    (hash : Text → ℕ) (p : CommandLineParser) (es : List FlagEntry)
    → (register_all hash p es).flags ≡ p.flags
unfolding set_flag_responder
register_all-flags hash p [] = refl
register_all-flags hash p (e ∷ es) = register_all-flags hash (set_flag_responder hash p e) es

has_flag-flags :
    (hash : Text → ℕ) (p q : CommandLineParser) (flag : Text)
    → p.flags ≡ q.flags
    → has_flag hash p flag ≡ has_flag hash q flag
unfolding has_flag
has_flag-flags hash p q flag e = ap (λ m. is_some (lookup (hash flag) m)) e

get_flag_argument-flags :
    (hash : Text → ℕ) (p q : CommandLineParser) (flag : Text) (i : ℕ)
    → p.flags ≡ q.flags
    → get_flag_argument hash p flag i ≡ get_flag_argument hash q flag i
unfolding get_flag_argument has_flag
get_flag_argument-flags hash p q flag i e =
    ap
      (λ m.
        if is_some (lookup (hash flag) m)
        then or_empty (get_elem? (at_or_empty (hash flag) m) i)
        else [])
      e

module _ (hash : Text → ℕ) (is_flag : Text → Bool) (argv0 : Text) (args : List Text)
    (es : List FlagEntry) where
  abbrev pub registered : CommandLineParser
  registered = register_all hash (new_parser hash is_flag argv0 args) es

  has_flag-registered :
      (flag : Text) → has_flag hash registered flag ≡ named hash is_flag (hash flag) args
  has_flag-registered flag =
      let p0 = new_parser hash is_flag argv0 args in
      has_flag-flags hash registered p0 flag (register_all-flags hash p0 es)
      ∙ (new_parser-arguments_of hash is_flag argv0 args flag).0

  get_flag_argument-registered :
      (flag : Text)
      → get_flag_argument hash registered flag 0 ≡ (
          if named hash is_flag (hash flag) args
          then or_empty (get_elem? (arguments_of hash is_flag (hash flag) args) 0)
          else [])
  get_flag_argument-registered flag =
      let p0 = new_parser hash is_flag argv0 args in
      get_flag_argument-flags hash registered p0 flag 0 (register_all-flags hash p0 es)
      ∙ (new_parser-arguments_of hash is_flag argv0 args flag).1 0

  -- The handler of `-game`, called first and with one argument, on the parser of any command line: without
  -- `-server` it runs the named game, as a server if `-dedicated` is there and else as a client;
  -- with `-server` it runs it as a client that connects to the first argument of that flag, whether
  -- or not `-dedicated` is there, and shows the help if that argument is missing or empty.
  pub game_flag_handler-launch :
      (game : Text)
      → game_flag_handler hash registered (game ∷ []) false
        ≡ launch
            (named hash is_flag (hash dash_dedicated) args)
            (named hash is_flag (hash dash_server) args)
            (get_elem? (arguments_of hash is_flag (hash dash_server) args) 0)
            (display_help registered)
            game
  unfolding game_flag_handler
  game_flag_handler-launch game =
      rw
        (
          has_flag-registered dash_server,
          has_flag-registered dash_dedicated,
          get_flag_argument-registered dash_server,
        )
        (launch_cases (named hash is_flag (hash dash_dedicated) args)
          (named hash is_flag (hash dash_server) args)
          (get_elem? (arguments_of hash is_flag (hash dash_server) args) 0)
          (display_help registered) game)
