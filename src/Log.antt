-- ===== src/Log.antt =====
-- core/log.c, include/aemlib/log.h and include/aemlib/config.h: messages for a callback of the user, and
-- what the preprocessor makes of the log level. Also core/status.c.
pub mod Preprocessor
pub mod Laws
pub mod Tests
use aemlib.Base.{ℕ, List, [], ◌∷◌, ◌++◌, Option, none, some, if◌then◌else◌}
use aemlib.Base.Memory.{store}
use aemlib.Base.Partial.{◌>>=◌}
use aemlib.Log.Preprocessor.{Level, Setting, is_compiled_out, is_macro_on, level_str}
use aemlib.Base.Text.{codes, c_string, vsnprintf}

-- aemlib_log_fn, on the level, the module and the message
abbrev pub LogFn : Type 0 → Type 0
LogFn W = Level → List ℕ → List ℕ → W → W

-- g_aemlib_log_callback and the world behind it.
pub record Logger (W : Type 0) : Type 0 where
  pub callback : Option (LogFn W)
  pub world : W

-- `sizeof(buffer)`, `sizeof(msg_buf)` and `sizeof(full_buf)`
abbrev pub buffer_size : ℕ
buffer_size = 128

abbrev pub msg_buf_size : ℕ
msg_buf_size = 96

abbrev pub full_buf_size : ℕ
full_buf_size = 128

abbrev pub formatting_error : List ℕ
formatting_error = codes "log formatting error"

-- `module ? module : ""`
abbrev pub or_empty : Option (List ℕ) → List ℕ
or_empty none = []
or_empty (some name) = name

-- aemlib_status_str
pub status_str : ℕ → List ℕ
status_str st = codes "UNKNOWN"

-- A message is what `fmt` and its arguments come to, or `none` where formatting fails. `buf`, `msg_buf` and
-- `full_buf` are the arrays of the functions, with whatever they hold before the call.
module _ {W : Type 0} where
  -- aemlib_set_log_callback
  pub set_log_callback : Option (LogFn W) → Logger W → Logger W
  set_log_callback fn g = record g { callback = fn }

  -- A call of the callback with the string that a buffer holds.
  abbrev pub call_back : LogFn W → Level → Option (List ℕ) → List ℕ → Logger W → Option (Logger W)
  call_back fn level name buf g = do
    msg ← c_string buf
    some (record g { world = fn level (or_empty name) msg g.world })

  -- aemlib_log_emit_internal
  pub emit_internal :
      LogFn W → Level → Option (List ℕ) → Option (List ℕ) → List ℕ → Logger W → Option (Logger W)
  emit_internal fn level name none buf g =
      some (record g { world = fn level (or_empty name) formatting_error g.world })
  emit_internal fn level name (some text) buf g = do
    buf ← vsnprintf buf buffer_size text
    buf ← store buf 127 0
    call_back fn level name buf g

  -- aemlib_log_emit
  pub log_emit :
      Setting → Level → Option (List ℕ) → Option (List ℕ) → List ℕ → Logger W → Option (Logger W)
  log_emit s level name text buf g =
      if is_compiled_out s
      then some g
      else elim g.callback [ none ↦ some g | some fn ↦ emit_internal fn level name text buf g ]

  -- The body of aemlib_log_emit_prefixed once there is a callback.
  pub emit_prefixed :
      LogFn W
      → Level
      → Option (List ℕ)
      → Option (List ℕ)
      → List ℕ
      → List ℕ
      → Logger W
      → Option (Logger W)
  emit_prefixed fn level name none msg_buf full_buf g =
      some (record g { world = fn level (or_empty name) formatting_error g.world })
  emit_prefixed fn level name (some text) msg_buf full_buf g = do
    msg_buf ← vsnprintf msg_buf msg_buf_size text
    msg_buf ← store msg_buf 95 0
    msg ← c_string msg_buf
    full_buf ←
        vsnprintf full_buf full_buf_size
          (codes "[" ++ (level_str level ++ (codes "] " ++ (or_empty name ++ (codes ": " ++ msg)))))
    full_buf ← store full_buf 127 0
    call_back fn level name full_buf g

  -- aemlib_log_emit_prefixed
  pub log_emit_prefixed :
      Setting
      → Level
      → Option (List ℕ)
      → Option (List ℕ)
      → List ℕ
      → List ℕ
      → Logger W
      → Option (Logger W)
  log_emit_prefixed s level name text msg_buf full_buf g =
      if is_compiled_out s then some g else elim g.callback [
        | none ↦ some g
        | some fn ↦ emit_prefixed fn level name text msg_buf full_buf g
      ]

  -- AEMLIB_LOG_ERROR(module, ...), AEMLIB_LOG_INFO and AEMLIB_LOG_DEBUG
  pub log_macro :
      Setting → Level → Option (List ℕ) → Option (List ℕ) → List ℕ → Logger W → Option (Logger W)
  log_macro s level name text buf g =
      if is_macro_on s level then log_emit s level name text buf g else some g
