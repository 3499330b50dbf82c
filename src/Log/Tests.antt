-- ===== src/Log/Tests.antt =====
-- Theorems on core/log.c at concrete inputs: a callback that keeps what it is told.
use aemlib.Base.{ℕ, ◌≡◌, refl, List, [], ◌∷◌, replicate, some, arith}
use aemlib.Base.Text.{codes}
use aemlib.Log.Preprocessor.{Level, Setting, config_level, level_value}
use aemlib.Log.{LogFn, Logger, log_emit, log_emit_prefixed, log_macro}
use aemlib.Log.Laws.{prefixed_message, log_emit_lem}

abbrev Line : Type 0
Line = ℕ × List ℕ × List ℕ

abbrev keep : LogFn (List Line)
keep level name msg lines = (level_value level, name, msg) ∷ lines

abbrev logger : Logger (List Line)
logger = record { callback = some keep; world = [] }

abbrev line : Level → List ℕ → Logger (List Line)
line level msg = record {
  callback = some keep;
  world = (level_value level, codes "core", msg) ∷ [];
}

-- A prefix and a message, cut at 127 bytes.
prefix_test :
    prefixed_message Level.info (codes "core") (some (codes "up")) ≡ codes "[INFO] core: up"
prefix_test = refl

-- With the level of config.h an error is not emitted, and with a number even a level above it is.
config_test :
    log_macro config_level Level.error
      (some (codes "core"))
      (some (codes "up"))
      (replicate 128 0)
      logger
    ≡ some logger
unfolding log_macro log_emit
config_test = refl

number_test :
    log_macro
      (Setting.number 1)
      Level.debug
      (some (codes "core"))
      (some (codes "up"))
      (replicate 128 0)
      logger
    ≡ some (line Level.debug (codes "up"))
unfolding log_macro
number_test =
    (log_emit_lem (Setting.number 1) Level.debug (some (codes "core")) (some (codes "up"))
      (replicate 128 0) (replicate 96 0) logger (omega arith) refl refl).0

log_emit_lem_example :
    (log_emit
        (Setting.number 2)
        Level.info
        (some (codes "core"))
        (some (codes "up"))
        (replicate 128 0)
        logger
      ≡ some (line Level.info (codes "up")))
    × (log_emit_prefixed
          (Setting.number 2)
          Level.info
          (some (codes "core"))
          (some (codes "up"))
          (replicate 96 0)
          (replicate 128 0)
          logger
        ≡ some (line Level.info (codes "[INFO] core: up")))
log_emit_lem_example =
    log_emit_lem (Setting.number 2) Level.info (some (codes "core")) (some (codes "up"))
      (replicate 128 0) (replicate 96 0) logger (omega arith) refl refl
