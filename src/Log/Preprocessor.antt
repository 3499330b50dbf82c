-- ===== src/Log/Preprocessor.antt =====
-- aemlib_log_level_t of include/aemlib/log.h, the level that include/aemlib/config.h sets, and what the
-- preprocessor makes of it.
use aemlib.Base.{ℕ, List, Bool, ◌==◌, leb}
use aemlib.Base.Text.{codes}

-- aemlib_log_level_t
pub data Level : Type 0 where
  none error info debug : Level

abbrev pub level_value : Level → ℕ
level_value Level.none = 0
level_value Level.error = 1
level_value Level.info = 2
level_value Level.debug = 3

-- What AEMLIB_LOG_LEVEL is defined as: a number, or the name of a level.
pub data Setting : Type 0 where
  number : ℕ → Setting
  named : Level → Setting

-- AEMLIB_LOG_LEVEL of config.h
abbrev pub config_level : Setting
config_level = Setting.named Level.info

-- The value in an `#if`. The names of the levels are enumerators, which the preprocessor does not know: a
-- name that is not a macro counts as 0.
abbrev pub preprocessed : Setting → ℕ
preprocessed (Setting.number n) = n
preprocessed (Setting.named level) = 0

-- `#if AEMLIB_LOG_LEVEL == AEMLIB_LOG_NONE`
abbrev pub is_compiled_out : Setting → Bool
is_compiled_out s = preprocessed s == preprocessed (Setting.named Level.none)

-- `#if AEMLIB_LOG_LEVEL >= AEMLIB_LOG_ERROR`, and so for the other levels
abbrev pub is_macro_on : Setting → Level → Bool
is_macro_on s level = leb (preprocessed (Setting.named level)) (preprocessed s)

-- aemlib_log_level_str
abbrev pub level_str : Level → List ℕ
level_str Level.error = codes "ERROR"
level_str Level.info = codes "INFO"
level_str Level.debug = codes "DEBUG"
level_str Level.none = codes "NONE"
