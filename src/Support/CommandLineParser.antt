-- ===== src/Support/CommandLineParser.antt =====
-- apps/engine/include/support/CommandLineParser.hpp and source/support/CommandLineParser.cpp. A string is the
-- list of its characters. `boost::hash`, the match of `-.+` and the order in which an unordered map is
-- gone through are arguments.
pub mod Parsing
pub mod Responders
use kge.Prelude.{
  ℕ, ◌+◌, ◌-◌, ◌%◌, ◌==◌, Bool, true, false, Option, none, some, List, [], ◌∷◌, ◌++◌, ltb,
  if◌then◌else◌, length, drop, get_elem?, replicate, map,
}
use kge.Support.Time.{u64_mod}

abbrev pub Text : Type 0
Text = List ℕ

-- A map from a hash, its keys as they were inserted.
abbrev pub lookup {ℓ} : {A : Type ℓ} → ℕ → List (ℕ × A) → Option A
lookup k [] = none
lookup k ((j, a) ∷ m) = let rest = lookup k m in if j == k then some a else rest

abbrev pub is_some {ℓ} : {A : Type ℓ} → Option A → Bool
is_some none = false
is_some (some a) = true

abbrev pub set_at {ℓ} : {A : Type ℓ} → ℕ → A → List (ℕ × A) → List (ℕ × A)
set_at k a [] = (k, a) ∷ []
set_at k a ((j, b) ∷ m) = let rest = set_at k a m in if j == k then (j, a) ∷ m else (j, b) ∷ rest

-- `insert`, which leaves a key that is there as it is.
abbrev pub insert_new {ℓ} : {A : Type ℓ} → ℕ → A → List (ℕ × A) → List (ℕ × A)
insert_new k a m = if is_some (lookup k m) then m else set_at k a m

abbrev pub or_none : Option (List Text) → List Text
or_none none = []
or_none (some args) = args

-- The value that `operator []` refers to.
abbrev pub at_or_empty : ℕ → List (ℕ × List Text) → List Text
at_or_empty k m = or_none (lookup k m)

-- A responder is a number; none is a NULL pointer.
pub record FlagEntry : Type 0 where
  pub name : Text
  pub description : Text
  pub responder : Option ℕ

pub record CommandLineParser : Type 0 where
  pub argv0 : Text
  pub flags : List (ℕ × List Text)
  pub flag_responders : List (ℕ × FlagEntry)
  pub flag_entries : List FlagEntry
  pub current_longest_flag_length : ℕ

-- `displayHelp` as a responder.
abbrev pub display_help_responder : ℕ
display_help_responder = 0

abbrev pub dash_h : Text
dash_h = 45 ∷ 104 ∷ []

-- "Displays this help text."
abbrev pub help_text : Text
help_text =
    68 ∷ 105 ∷ 115 ∷ 112 ∷ 108 ∷ 97 ∷ 121 ∷ 115 ∷ 32 ∷ 116 ∷ 104 ∷ 105 ∷ 115 ∷ 32 ∷ 104 ∷ 101 ∷ 108
    ∷ 112 ∷ 32 ∷ 116 ∷ 101 ∷ 120 ∷ 116 ∷ 46 ∷ []

abbrev pub help_entry : FlagEntry
help_entry = record {
  name = dash_h;
  description = help_text;
  responder = some display_help_responder;
}

-- One line of the help. The blanks are counted by a difference of size_t.
unfoldable pub help_line : ℕ → FlagEntry → Text
help_line longest entry =
    32 ∷ 32 ∷ entry.name
    ++ (replicate ((longest + u64_mod - length entry.name) % u64_mod) 32 ++ entry.description)

-- `displayHelp`, less its first line.
unfoldable pub display_help : CommandLineParser → List Text
display_help p = map (help_line p.current_longest_flag_length) p.flag_entries

abbrev pub or_empty : Option Text → Text
or_empty none = []
or_empty (some argument) = argument

module _ (hash : Text → ℕ) where
  -- `setFlagResponder`
  unfoldable pub set_flag_responder : CommandLineParser → FlagEntry → CommandLineParser
  set_flag_responder p entry = record p {
    flag_responders = set_at (hash entry.name) entry p.flag_responders;
    flag_entries = p.flag_entries ++ entry ∷ [];
    current_longest_flag_length =
        if ltb p.current_longest_flag_length (length entry.name)
        then length entry.name + 5
        else p.current_longest_flag_length;
  }

  unfoldable pub has_flag : CommandLineParser → Text → Bool
  has_flag p flag = is_some (lookup (hash flag) p.flags)

  unfoldable pub get_flag_argument : CommandLineParser → Text → ℕ → Text
  get_flag_argument p flag index =
      if has_flag p flag then or_empty (get_elem? (at_or_empty (hash flag) p.flags) index) else []

  unfoldable pub get_flag_argument_count : CommandLineParser → Text → ℕ
  get_flag_argument_count p flag =
      if has_flag p flag then length (at_or_empty (hash flag) p.flags) else 0

module _ (hash : Text → ℕ) (is_flag : Text → Bool) where
  -- The loop of the constructor; `current` is the hash of the last flag.
  unfoldable pub parse : Option ℕ → List Text → List (ℕ × List Text) → List (ℕ × List Text)
  parse current [] flags = flags
  parse none (a ∷ args) flags =
      let as_flag = parse (some (hash a)) args (insert_new (hash a) [] flags) in
      let skipped = parse none args flags in if is_flag a then as_flag else skipped
  parse (some h) (a ∷ args) flags =
      let as_flag = parse (some (hash a)) args (insert_new (hash a) [] flags) in
      let as_argument = parse (some h) args (set_at h (at_or_empty h flags ++ a ∷ []) flags) in
      if is_flag a then as_flag else as_argument

  unfoldable pub parsed : Text → List Text → CommandLineParser
  unfolding parse
  parsed argv0 args = record {
    argv0 = argv0;
    flags = parse none args [];
    flag_responders = [];
    flag_entries = [];
    current_longest_flag_length = 0;
  }

  -- The constructor.
  unfoldable pub new_parser : Text → List Text → CommandLineParser
  new_parser argv0 args = set_flag_responder hash (parsed argv0 args) help_entry

-- A call of a responder: who, with which arguments, and whether one was called before.
pub record Invocation : Type 0 where
  pub responder : ℕ
  pub arguments : List Text
  pub other_flags : Bool

-- The responder that a hash has, if any, and if it is not NULL.
abbrev pub responder_of : List (ℕ × FlagEntry) → ℕ → Option ℕ
responder_of responders k = elim (lookup k responders) [ none ↦ none | some e ↦ e.responder ]

-- The end of `invokeFlagResponders`, which looks up `-h` with `operator []`.
abbrev pub finish :
    (Text → ℕ)
    → CommandLineParser
    → List Invocation × Bool
    → List Invocation × List Text × CommandLineParser
finish hash p (log, true) = (log, [], p)
finish hash p (log, false) =
    (log, display_help p, record p { flags = insert_new (hash dash_h) [] p.flags })

-- `order` are the keys of the flags in the order of the iteration; `refuses` says which calls end in a
-- `std::out_of_range`, which the loop swallows.
module _ (refuses : Invocation → Bool) where
  invoke_loop : CommandLineParser → List ℕ → Bool → List Invocation → List Invocation × Bool
  invoke_loop p [] executed log = (log, executed)
  invoke_loop p (k ∷ ks) executed log = elim (responder_of p.flag_responders k) [
    | none ↦ invoke_loop p ks executed log
    | some r ↦
        let call : Invocation = record {
          responder = r;
          arguments = at_or_empty k p.flags;
          other_flags = executed;
        } in
        let next = if refuses call then executed else true in
        invoke_loop p ks next (log ++ call ∷ [])
  ]

  -- `invokeFlagResponders`: the calls, the lines of help that it shows itself, and the parser after it.
  unfoldable pub invoke_flag_responders :
      (hash : Text → ℕ)
      → CommandLineParser
      → List ℕ
      → List Invocation × List Text × CommandLineParser
  unfolding invoke_loop
  invoke_flag_responders hash p order = finish hash p (invoke_loop p order false [])
