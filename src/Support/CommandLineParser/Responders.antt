-- ===== src/Support/CommandLineParser/Responders.antt =====
-- The lines of the help, and the calls of the responders.
use kge.Prelude.{
  ℕ, ◌+◌, ◌-◌, ◌%◌, ◌≤◌, ◌<◌, ◌≡◌, refl, ap, ◌∙◌, sym, Bool, true, false, none, some, List, [], ◌∷◌,
  ◌++◌, append_assoc, append-nil, map, arith, ltb, length, drop, replicate, All, drop-append,
  length-replicate, length-append, inl, inr, Bool-cases, Option-cases, ◌||◌,
}
use kge.Support.Time.{u64_mod}
use kge.Support.CommandLineParser.{
  Text, insert_new, dash_h, at_or_empty, FlagEntry, CommandLineParser, help_line, display_help,
  set_flag_responder, help_entry, new_parser, parsed, Invocation, responder_of, finish, invoke_loop,
  invoke_flag_responders,
}

abbrev pub FitsIn : ℕ → FlagEntry → Type 0
FitsIn longest e = length e.name ≤ longest

-- The names of the entries fit in the width that the help is aligned to.
pub record IsAligned (p : CommandLineParser) : Type 0 where
  pub fits : All (FitsIn p.current_longest_flag_length) p.flag_entries
  pub fits_u64 : p.current_longest_flag_length < u64_mod

All-FitsIn_le : (a b : ℕ) (es : List FlagEntry) → a ≤ b → All (FitsIn a) es → All (FitsIn b) es
All-FitsIn_le a b [] h p = p
All-FitsIn_le a b (e ∷ es) h (p, ps) = (omega (arith, p, h), All-FitsIn_le a b es h ps)

All-snoc :
    (P : FlagEntry → Type 0) (es : List FlagEntry) (e : FlagEntry)
    → All P es
    → P e
    → All P (es ++ e ∷ [])
All-snoc P [] e ps p = (p, tt)
All-snoc P (x ∷ es) e (q, qs) p = (q, All-snoc P es e qs p)

set_flag_responder-IsAligned :
    (hash : Text → ℕ) (p : CommandLineParser) (e : FlagEntry)
    → length e.name + 5 < u64_mod
    → IsAligned p
    → IsAligned (set_flag_responder hash p e)
unfolding set_flag_responder
set_flag_responder-IsAligned hash p e small v =
    elim (Bool-cases (ltb p.current_longest_flag_length (length e.name))) [
      | inl longer ↦
          let l : p.current_longest_flag_length ≤ length e.name + 5 = ground arith in
          record {
            fits =
                rw longer
                  (All-snoc _ _ e (All-FitsIn_le _ _ p.flag_entries l v.fits) (omega arith));
            fits_u64 = rw longer small;
          }
      | inr shorter ↦
          let l : length e.name ≤ p.current_longest_flag_length = ground arith in
          record { fits = rw shorter (All-snoc _ _ e v.fits l); fits_u64 = rw shorter v.fits_u64 }
    ]

-- The entries are registered one after the other.
abbrev pub register_all : (Text → ℕ) → CommandLineParser → List FlagEntry → CommandLineParser
register_all hash p [] = p
register_all hash p (e ∷ es) = register_all hash (set_flag_responder hash p e) es

register_all-IsAligned :
    (hash : Text → ℕ) (p : CommandLineParser) (es : List FlagEntry)
    → All (λ e. length e.name + 5 < u64_mod) es
    → IsAligned p
    → IsAligned (register_all hash p es)
register_all-IsAligned hash p [] small v = v
register_all-IsAligned hash p (e ∷ es) (s, ss) v =
    register_all-IsAligned hash (set_flag_responder hash p e) es ss
      (set_flag_responder-IsAligned hash p e s v)

abbrev pub AlignedAt : ℕ → FlagEntry → Type 0
AlignedAt longest e =
    (drop (2 + longest) (help_line longest e) ≡ e.description)
    × (length (help_line longest e) ≡ 2 + longest + length e.description)

help_line-AlignedAt :
    (longest : ℕ) (e : FlagEntry) → longest < u64_mod → FitsIn longest e → AlignedAt longest e
unfolding help_line
help_line-AlignedAt longest e small fits =
    let gap : ℕ = (longest + u64_mod - length e.name) % u64_mod in
    let exact : gap + length e.name ≡ longest = omega (arith, small, fits) in
    let before : Text = 32 ∷ 32 ∷ (e.name ++ replicate gap 32) in
    let line : help_line longest e ≡ before ++ e.description =
      ap (λ l. 32 ∷ 32 ∷ l) (sym (append_assoc e.name (replicate gap 32) e.description)) in
    let inner : length (e.name ++ replicate gap 32) ≡ length e.name + length (replicate gap 32) =
      length-append e.name (replicate gap 32) in
    let width : length before ≡ 2 + longest =
      omega (arith, inner, exact, length-replicate {A = ℕ} gap 32) in
    (
      ap (drop (2 + longest)) line
          ∙ ap (λ n. drop n (before ++ e.description)) (sym width)
          ∙ drop-append before e.description,
      ap length line
          ∙ length-append before e.description
          ∙ ap (λ n. n + length e.description) width,
    )

All-AlignedAt :
    (longest : ℕ) (es : List FlagEntry)
    → longest < u64_mod
    → All (FitsIn longest) es
    → All (AlignedAt longest) es
All-AlignedAt longest [] small fits = tt
All-AlignedAt longest (e ∷ es) small (f, fs) =
    (help_line-AlignedAt longest e small f, All-AlignedAt longest es small fs)

register_all-entries :
    (hash : Text → ℕ) (p : CommandLineParser) (es : List FlagEntry)
    → (register_all hash p es).flag_entries ≡ p.flag_entries ++ es
unfolding set_flag_responder
register_all-entries hash p [] = sym (append-nil p.flag_entries)
register_all-entries hash p (e ∷ es) =
    register_all-entries hash (set_flag_responder hash p e) es
    ∙ append_assoc p.flag_entries (e ∷ []) es

first_entry :
    (hash : Text → ℕ) (is_flag : Text → Bool) (argv0 : Text) (args : List Text)
    → (new_parser hash is_flag argv0 args).flag_entries ≡ help_entry ∷ []
unfolding new_parser parsed set_flag_responder
first_entry hash is_flag argv0 args = refl

-- Whatever entries are registered, with names that a size_t can count, the help has a line for each entry, and
-- in all lines the description begins at the same column, two blanks behind the longest name's
-- width; the difference that counts the blanks never wraps around.
pub display_help-AlignedAt :
    (hash : Text → ℕ) (is_flag : Text → Bool) (argv0 : Text) (args : List Text)
    (es : List FlagEntry)
    → All (λ e. length e.name + 5 < u64_mod) es
    → let p = register_all hash (new_parser hash is_flag argv0 args) es in
      (p.flag_entries ≡ help_entry ∷ es)
      × All (AlignedAt p.current_longest_flag_length) p.flag_entries
      × (display_help p ≡ map (help_line p.current_longest_flag_length) (help_entry ∷ es))
unfolding new_parser parsed display_help
display_help-AlignedAt hash is_flag argv0 args es small =
    let start : IsAligned (parsed hash is_flag argv0 args) = record {
      fits = tt;
      fits_u64 = omega arith;
    } in
    let p0 = new_parser hash is_flag argv0 args in
    let p = register_all hash p0 es in
    let helped =
      set_flag_responder-IsAligned hash (parsed hash is_flag argv0 args) help_entry (omega arith)
        start in
    let v : IsAligned p = register_all-IsAligned hash p0 es small helped in
    let entries : p.flag_entries ≡ help_entry ∷ es =
      register_all-entries hash p0 es ∙ ap (λ l. l ++ es) (first_entry hash is_flag argv0 args) in
    (
      entries,
      All-AlignedAt p.current_longest_flag_length p.flag_entries v.fits_u64 v.fits,
      ap (map (help_line p.current_longest_flag_length)) entries,
    )

-- The responders that there are for flags, with their arguments.
unfoldable pub calls : CommandLineParser → List ℕ → List (ℕ × List Text)
calls p [] = []
calls p (k ∷ ks) = elim (responder_of p.flag_responders k) [
  | none ↦ calls p ks
  | some r ↦ (r, at_or_empty k p.flags) ∷ calls p ks
]

abbrev pub told : Bool → List (ℕ × List Text) → List Invocation
told b [] = []
told b ((r, arguments) ∷ cs) =
    record { responder = r; arguments = arguments; other_flags = b } ∷ told true cs

abbrev nonempty {ℓ} : {A : Type ℓ} → List A → Bool
nonempty [] = false
nonempty (x ∷ xs) = true

-- The calls, the help and the parser that the flags lead to.
abbrev pub invoked :
    (Text → ℕ)
    → CommandLineParser
    → List (ℕ × List Text)
    → List Invocation × List Text × CommandLineParser
invoked hash p [] = ([], display_help p, record p { flags = insert_new (hash dash_h) [] p.flags })
invoked hash p (c ∷ cs) = (told false (c ∷ cs), [], p)

or_true : (b : Bool) → (b || true) ≡ true
or_true true = refl
or_true false = refl

and_one :
    {l m : List Invocation} {a b : Bool}
    → l ≡ m
    → a ≡ b
    → ◌≡◌ {A = List Invocation × Bool} (l, a) (m, b)
and_one e f = cc (e, f)

module _ (refuses : Invocation → Bool) (p : CommandLineParser)
    (accepted : (c : Invocation) → refuses c ≡ false) where
  invoke_loop-told :
      (order : List ℕ) (b : Bool) (log : List Invocation)
      → invoke_loop refuses p order b log
        ≡ (log ++ told b (calls p order), b || nonempty (calls p order))
  unfolding invoke_loop calls
  invoke_loop-told [] true log = ap (λ l. (l, true)) (sym (append-nil log))
  invoke_loop-told [] false log = ap (λ l. (l, false)) (sym (append-nil log))
  invoke_loop-told (k ∷ ks) b log = elim (Option-cases (responder_of p.flag_responders k)) [
    | inl unknown ↦ rw (unknown, invoke_loop, calls) (invoke_loop-told ks b log)
    | inr (r, known) ↦
        let c : Invocation = record {
          responder = r;
          arguments = at_or_empty k p.flags;
          other_flags = b;
        } in
        rw (known, invoke_loop, calls, accepted c)
          (invoke_loop-told ks true (log ++ c ∷ [])
            ∙ and_one (append_assoc log (c ∷ []) (told true (calls p ks))) (sym (or_true b)))
  ]

  -- If no responder throws `std::out_of_range`, each flag that has a responder gets exactly one call, in the
  -- order of the iteration, with the flag's arguments; the first is told that it is the first, the
  -- others that another was called. If there is no call, and only then, the help is shown.
  pub invoke_flag_responders-told :
      (hash : Text → ℕ) (order : List ℕ)
      → invoke_flag_responders refuses hash p order ≡ invoked hash p (calls p order)
  unfolding invoke_flag_responders
  invoke_flag_responders-told hash order = rw (invoke_loop-told order false []) (go (calls p order))
    where
      go :
          (cs : List (ℕ × List Text))
          → finish hash p (told false cs, nonempty cs) ≡ invoked hash p cs
      go [] = refl
      go (c ∷ cs) = refl
