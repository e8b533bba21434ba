-- ===== src/Support/CommandLineParser/Parsing.antt =====
-- Which flags the parser has, and with which arguments, as a function of the command line alone.
use kge.Prelude.{
  ℕ, ◌≡◌, refl, ap, ◌∙◌, sym, ◌==◌, Bool, true, false, ◌&&◌, ◌||◌, Option, none, some, List, [],
  ◌∷◌, ◌++◌, append-nil, append_assoc, if◌then◌else◌, arith, length, get_elem?, inl, inr,
  Bool-cases, Option-cases, ==_iff,
}
use kge.Support.CommandLineParser.{
  Text, or_none, lookup, is_some, set_at, insert_new, at_or_empty, parse, parsed, new_parser,
  set_flag_responder, has_flag, get_flag_argument, get_flag_argument_count, or_empty,
}

pub lookup-set_at {ℓ} :
    {A : Type ℓ} (k h : ℕ) (a : A) (m : List (ℕ × A))
    → lookup h (set_at k a m) ≡ (if k == h then some a else lookup h m)
lookup-set_at k h a [] = refl
lookup-set_at k h a ((j, b) ∷ m) = let rest = lookup-set_at k h a m in ground (arith, rest)

-- A flag that the map has, or that is `present`, with `more` behind the arguments that it has.
abbrev merged : Option (List Text) → Bool → List Text → Option (List Text)
merged old present more = if is_some old || present then some (or_none old ++ more) else none

at_key : (k h : ℕ) (m : List (ℕ × List Text)) → (k == h) ≡ true → lookup h m ≡ lookup k m
at_key k h m e = ap (λ j. lookup j m) (sym ((==_iff k h).0 e))

merged-insert_new :
    (k h : ℕ) (m : List (ℕ × List Text)) (present : Bool) (more : List Text)
    → merged (lookup h (insert_new k [] m)) present more
      ≡ merged (lookup h m) ((k == h) || present) more
merged-insert_new k h m present more = elim (Option-cases (lookup k m)) [
  | inl absent ↦ elim (Bool-cases (k == h)) [
    | inl same ↦
        let there = at_key k h m same in
        rw (absent, lookup-set_at k h [] m, same, there, absent) refl
    | inr other ↦ rw (absent, lookup-set_at k h [] m, other) refl
  ]
  | inr (args, found) ↦ elim (Bool-cases (k == h)) [
    | inl same ↦ let there = at_key k h m same in rw (found, same, there, found) refl
    | inr other ↦ rw (found, other) refl
  ]
]

merged-push :
    (k h : ℕ) (m : List (ℕ × List Text)) (present : Bool) (a : Text) (run more : List Text)
    → is_some (lookup k m) ≡ true
    → merged
        (lookup h (set_at k (at_or_empty k m ++ a ∷ []) m))
        present
        ((if k == h then run else []) ++ more)
      ≡ merged (lookup h m) present ((if k == h then a ∷ run else []) ++ more)
merged-push k h m present a run more has = elim (Option-cases (lookup k m)) [
  | inl absent ↦ absurd (cc (absent, has))
  | inr (args, found) ↦ elim (Bool-cases (k == h)) [
    | inl same ↦
        let there = at_key k h m same in
        rw (lookup-set_at k h (or_none (lookup k m) ++ a ∷ []) m, same, there, found)
          (ap some (append_assoc args (a ∷ []) (run ++ more)))
    | inr other ↦ rw (lookup-set_at k h (at_or_empty k m ++ a ∷ []) m, other) refl
  ]
]

has-set_at {ℓ} :
    {A : Type ℓ} (k : ℕ) (a : A) (m : List (ℕ × A)) → is_some (lookup k (set_at k a m)) ≡ true
has-set_at k a m =
    let same : (k == k) ≡ true = (==_iff k k).1 refl in
    ap is_some (lookup-set_at k k a m) ∙ rw same refl

has-insert_new : (k : ℕ) (m : List (ℕ × List Text)) → is_some (lookup k (insert_new k [] m)) ≡ true
has-insert_new k m = elim (Bool-cases (is_some (lookup k m))) [
  | inl found ↦ rw (found, found) refl
  | inr absent ↦ rw absent (has-set_at k [] m)
]

merged_nothing :
    (o : Option (List Text)) (b : Bool) → o ≡ merged o false ((if b then [] else []) ++ [])
merged_nothing none b = refl
merged_nothing (some args) true = ap some (sym (append-nil args))
merged_nothing (some args) false = ap some (sym (append-nil args))

-- A flag is met.
merged_flag :
    (k h : ℕ) (m : List (ℕ × List Text)) (present : Bool) (run more : List Text)
    → merged (lookup h (insert_new k [] m)) present ((if k == h then run else []) ++ more)
      ≡ merged (lookup h m) ((k == h) || present) (if k == h then run ++ more else more)
merged_flag k h m present run more = elim (Bool-cases (k == h)) [
  | inl same ↦ merged-insert_new k h m present _ ∙ rw same refl
  | inr other ↦ merged-insert_new k h m present _ ∙ rw other refl
]

module _ (hash : Text → ℕ) (is_flag : Text → Bool) where
  -- The arguments before the next flag.
  unfoldable pub run : List Text → List Text
  run [] = []
  run (a ∷ args) = if is_flag a then [] else a ∷ run args

  -- Whether some word of the command line is a flag with a hash, and what stands behind those words.
  unfoldable pub named : ℕ → List Text → Bool
  named h [] = false
  named h (a ∷ args) = (is_flag a && (hash a == h)) || named h args

  unfoldable pub arguments_of : ℕ → List Text → List Text
  unfolding run
  arguments_of h [] = []
  arguments_of h (a ∷ args) =
      if is_flag a && (hash a == h) then run args ++ arguments_of h args else arguments_of h args

  parse-some :
      (c h : ℕ) (args : List Text) (m : List (ℕ × List Text))
      → is_some (lookup c m) ≡ true
      → lookup h (parse hash is_flag (some c) args m)
        ≡ merged
            (lookup h m)
            (named h args)
            ((if c == h then run args else []) ++ arguments_of h args)
  unfolding parse run named arguments_of
  parse-some c h [] m has = merged_nothing (lookup h m) (c == h)
  parse-some c h (a ∷ args) m has =
      let next =
        parse-some (hash a) h args (insert_new (hash a) [] m) (has-insert_new (hash a) m) in
      let pushed = set_at c (at_or_empty c m ++ a ∷ []) m in
      let later = parse-some c h args pushed (has-set_at c (at_or_empty c m ++ a ∷ []) m) in
      elim (Bool-cases (is_flag a)) [
        | inl flag ↦ elim (Bool-cases (c == h)) [
          | inl same ↦
              rw (flag, same)
                (next ∙ merged_flag (hash a) h m (named h args) (run args) (arguments_of h args))
          | inr other ↦
              rw (flag, other)
                (next ∙ merged_flag (hash a) h m (named h args) (run args) (arguments_of h args))
        ]
        | inr argument ↦
            rw argument
              (later ∙ merged-push c h m (named h args) a (run args) (arguments_of h args) has)
      ]

  parse-none :
      (h : ℕ) (args : List Text) (m : List (ℕ × List Text))
      → lookup h (parse hash is_flag none args m)
        ≡ merged (lookup h m) (named h args) (arguments_of h args)
  unfolding parse named arguments_of
  parse-none h [] m = merged_nothing (lookup h m) true
  parse-none h (a ∷ args) m =
      let next =
        parse-some (hash a) h args (insert_new (hash a) [] m) (has-insert_new (hash a) m) in
      let later = parse-none h args m in
      elim (Bool-cases (is_flag a)) [
        | inl flag ↦
            rw flag
              (next ∙ merged_flag (hash a) h m (named h args) (run args) (arguments_of h args))
        | inr argument ↦ rw argument later
      ]

  -- After the constructor, the parser has a flag exactly if a word of the command line is a flag with the
  -- hash of its name, and the arguments of the flag are what stands behind those words, each time up
  -- to the next flag, in the order of the command line: by number, or the empty string from their
  -- count on. What stands before the first flag is nobody's.
  pub new_parser-arguments_of :
      (argv0 : Text) (args : List Text) (flag : Text)
      → let p = new_parser hash is_flag argv0 args in
        (has_flag hash p flag ≡ named (hash flag) args)
        × ((i : ℕ)
            → get_flag_argument hash p flag i ≡ (
                if named (hash flag) args
                then or_empty (get_elem? (arguments_of (hash flag) args) i)
                else []))
        × (get_flag_argument_count hash p flag
            ≡ (if named (hash flag) args then length (arguments_of (hash flag) args) else 0))
  unfolding new_parser set_flag_responder parsed has_flag get_flag_argument get_flag_argument_count
  new_parser-arguments_of argv0 args flag =
      let found : lookup (hash flag) (parse hash is_flag none args [])
          ≡ (if named (hash flag) args then some (arguments_of (hash flag) args) else none) =
        parse-none (hash flag) args [] in
      elim (Bool-cases (named (hash flag) args)) [
        | inl here ↦ rw (found, here) (refl, (λ i. refl), refl)
        | inr absent ↦ rw (found, absent) (refl, (λ i. refl), refl)
      ]
