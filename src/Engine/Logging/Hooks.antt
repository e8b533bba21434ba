-- ===== src/Engine/Logging/Hooks.antt =====
-- Which hooks the logger takes, and which it calls.
use kge.Prelude.{
  ℕ, zero, suc, ◌+◌, ◌≤◌, ◌<◌, ◌≡◌, refl, ap, ◌∙◌, Bool, true, false, List, [], ◌∷◌, ◌++◌,
  append-nil, append_assoc, arith, le→leb, lt→leb, if◌then◌else◌, length, take, length-append,
}
use kge.Engine.Logging.{
  Logger, new_logger, LoggerError, error_none, error_write, error_memalloc, add_hook, add_hooks,
  write, clamp_level, calls_of, maximum_logger_hooks,
}

-- The answers to hooks of which the first `free` fit.
abbrev pub answers : ℕ → List ℕ → List LoggerError
answers free [] = []
answers zero (h ∷ hs) = error_memalloc ∷ answers zero hs
answers (suc free) (h ∷ hs) = error_none ∷ answers free hs

-- The logger with the hooks that fit.
abbrev with_hooks : Logger → ℕ → List ℕ → Logger
with_hooks l free hs = record l { hooks = l.hooks ++ take free hs }

add_hook_full :
    (l : Logger) (h : ℕ)
    → maximum_logger_hooks ≤ length l.hooks
    → add_hook l h ≡ (error_memalloc, l)
unfolding add_hook
add_hook_full l h full = rw (le→leb maximum_logger_hooks (length l.hooks) full) refl

add_hook_fits :
    (l : Logger) (h : ℕ)
    → length l.hooks < maximum_logger_hooks
    → add_hook l h ≡ (error_none, record l { hooks = l.hooks ++ h ∷ [] })
unfolding add_hook
add_hook_fits l h room = rw (lt→leb maximum_logger_hooks (length l.hooks) room) refl

both :
    {es fs : List LoggerError} {l m : Logger}
    → es ≡ fs
    → l ≡ m
    → ◌≡◌ {A = List LoggerError × Logger} (es, l) (fs, m)
both e f = cc (e, f)

add_hooks-answers :
    (l : Logger) (free : ℕ) (hs : List ℕ)
    → length l.hooks + free ≡ maximum_logger_hooks
    → add_hooks l hs ≡ (answers free hs, with_hooks l free hs)
unfolding add_hooks
add_hooks-answers l zero [] e = both refl (simp (append-nil l.hooks) refl)
add_hooks-answers l (suc free) [] e = both refl (simp (append-nil l.hooks) refl)
add_hooks-answers l zero (h ∷ hs) e =
    let rest = add_hooks-answers l zero hs e in
    simp (add_hook_full l h (omega (arith, e)))
      (both (ap (λ r. error_memalloc ∷ r.0) rest) (ap (λ r. r.1) rest ∙ unused hs))
  where
    unused : (hs : List ℕ) → with_hooks l zero hs ≡ with_hooks l zero (h ∷ hs)
    unused hs = refl
add_hooks-answers l (suc free) (h ∷ hs) e =
    let m : Logger = record l { hooks = l.hooks ++ h ∷ [] } in
    let size : length m.hooks + free ≡ maximum_logger_hooks =
      omega (arith, length-append l.hooks (h ∷ []), e) in
    let rest = add_hooks-answers m free hs size in
    simp (add_hook_fits l h (omega (arith, e))) (
      both (ap (λ r. error_none ∷ r.0) rest) (
        ap (λ r. r.1) rest
        ∙ ap (λ hooks. record l { hooks = hooks }) (append_assoc l.hooks (h ∷ []) (take free hs))))

-- Starting with none, the logger takes the first 32 hooks that are added, in their order, and refuses the
-- others with an error; a message then calls each hook that was taken once, in that order, with the
-- text and its level, or LEVEL_ERROR for a level that there is not. It goes to the file exactly if
-- the file could be opened, which is also what is returned.
pub write-add_hooks :
    (hs : List ℕ) (opened : Bool) (input : List ℕ) (log_level : ℕ)
    → let (errors, l) = add_hooks new_logger hs in
      let (error, m) = write l opened input log_level in
      (errors ≡ answers 32 hs)
      × (m.hooks ≡ take 32 hs)
      × (m.hook_calls ≡ calls_of (take 32 hs) input (clamp_level log_level))
      × (m.log_file ≡ (if opened then input else []))
      × (error ≡ (if opened then error_none else error_write))
unfolding write new_logger
write-add_hooks hs true input log_level =
    rw (add_hooks-answers new_logger 32 hs refl) (refl, refl, refl, refl, refl)
write-add_hooks hs false input log_level =
    rw (add_hooks-answers new_logger 32 hs refl) (refl, refl, refl, refl, refl)
