-- ===== src/Engine/Logging.antt =====
-- apps/engine/include/engine/Logging.hpp and source/engine/Logging.cpp: the hooks of the logger. A hook is a
-- number, and its calls are kept in order. What PhysFS says is an argument.
pub mod Hooks
use kge.Prelude.{
  ℕ, ◌+◌, Bool, true, false, List, [], ◌∷◌, ◌++◌, map, leb, if◌then◌else◌, length, Outcome, done,
  undefined,
}

-- `MAXIMUM_LOGGER_HOOKS`, `LEVEL_ERROR` and `LEVEL_COUNT`
abbrev pub maximum_logger_hooks : ℕ
maximum_logger_hooks = 32

abbrev pub level_error : ℕ
level_error = 2

abbrev pub level_count : ℕ
level_count = 5

-- `KIARO_LOGGER_ERROR_NAME`
pub data LoggerError : Type 0 where
  error_none error_write error_memalloc : LoggerError

-- A call of a hook, with the text and the level.
pub record HookCall : Type 0 where
  pub hook : ℕ
  pub input : List ℕ
  pub log_level : ℕ

-- The hooks up to `kiaro_logging_hook_count`, the log file, and the calls of the hooks.
pub record Logger : Type 0 where
  pub hooks : List ℕ
  pub log_file : List ℕ
  pub hook_calls : List HookCall

unfoldable pub new_logger : Logger
new_logger = record { hooks = []; log_file = []; hook_calls = [] }

-- `Initialize()`, which empties the log file but for a blank; where it is not opened, PhysFS gets a null
-- pointer.
unfoldable pub initialize : Logger → Bool → Outcome (ℕ × Logger)
initialize l opened = if opened then done (0, record l { log_file = 32 ∷ [] }) else undefined

-- `AddHook(hook)`
unfoldable pub add_hook : Logger → ℕ → LoggerError × Logger
add_hook l hook =
    if leb maximum_logger_hooks (length l.hooks)
    then (error_memalloc, l)
    else (error_none, record l { hooks = l.hooks ++ hook ∷ [] })

abbrev pub clamp_level : ℕ → ℕ
clamp_level log_level = if leb level_count log_level then level_error else log_level

abbrev pub calls_of : List ℕ → List ℕ → ℕ → List HookCall
calls_of hooks input log_level =
    map (λ h. record { hook = h; input = input; log_level = log_level }) hooks

-- `Write(input, log_level)`; `opened` is whether the log file could be opened.
unfoldable pub write : Logger → Bool → List ℕ → ℕ → LoggerError × Logger
write l opened input log_level =
    let called = l.hook_calls ++ calls_of l.hooks input (clamp_level log_level) in
    if opened
    then (error_none, record l { log_file = l.log_file ++ input; hook_calls = called })
    else (error_write, record l { hook_calls = called })

-- Hooks that are added one after the other, with what `AddHook` returned for each.
unfoldable pub add_hooks : Logger → List ℕ → List LoggerError × Logger
add_hooks l [] = ([], l)
add_hooks l (h ∷ hs) = let (e, l1) = add_hook l h in let (es, l2) = add_hooks l1 hs in (e ∷ es, l2)
