-- ===== src/Log/Laws.antt =====
-- core/log.c: what reaches the callback.
use aemlib.Base.{ℕ, ◌≡◌, ◌≢◌, refl, ◌-◌, List, ◌++◌, length, take, Option, none, some, ==_false}
use aemlib.Base.Partial.{◌>>=◌}
use aemlib.Base.Text.{codes, until_nul, vsnprintf-sealed}
use aemlib.Log.Preprocessor.{Level, Setting, preprocessed, level_str}
use aemlib.Log.{
  LogFn, Logger, or_empty, formatting_error, emit_internal, log_emit, emit_prefixed,
  log_emit_prefixed,
}

-- A text as a C program prints it into `size` bytes and then reads it.
abbrev pub printed : ℕ → List ℕ → List ℕ
printed size text = until_nul (take (size - 1) text)

-- The message of aemlib_log_emit, and of aemlib_log_emit_prefixed.
abbrev pub plain_message : Option (List ℕ) → List ℕ
plain_message none = formatting_error
plain_message (some text) = printed 128 text

abbrev pub prefixed_message : Level → List ℕ → Option (List ℕ) → List ℕ
prefixed_message level name none = formatting_error
prefixed_message level name (some text) =
    printed 128
      (codes "[" ++ (level_str level ++ (codes "] " ++ (name ++ (codes ": " ++ printed 96 text)))))

module _ {W : Type 0} where
  -- The callback, if there is one, on one message.
  abbrev pub told : Level → List ℕ → List ℕ → Logger W → Logger W
  told level name msg g = elim g.callback [
    | none ↦ g
    | some fn ↦ record g { world = fn level name msg g.world }
  ]

  emit_internal_lem :
      (fn : LogFn W) (level : Level) (name text : Option (List ℕ)) (buf : List ℕ) (g : Logger W)
      → length buf ≡ 128
      → emit_internal fn level name text buf g
        ≡ some (record g { world = fn level (or_empty name) (plain_message text) g.world })
  unfolding emit_internal
  emit_internal_lem fn level name none buf g size = refl
  emit_internal_lem fn level name (some text) buf g size =
      let (mem, out, printed_, sealed, reads) = vsnprintf-sealed buf 128 127 text size refl in
      rw (printed_, ◌>>=◌, sealed, ◌>>=◌, reads) refl

  emit_prefixed_lem :
      (fn : LogFn W) (level : Level) (name text : Option (List ℕ)) (msg_buf full_buf : List ℕ)
      (g : Logger W)
      → length msg_buf ≡ 96
      → length full_buf ≡ 128
      → emit_prefixed fn level name text msg_buf full_buf g
        ≡ some (record g {
          world = fn level (or_empty name) (prefixed_message level (or_empty name) text) g.world;
        })
  unfolding emit_prefixed
  emit_prefixed_lem fn level name none msg_buf full_buf g small size = refl
  emit_prefixed_lem fn level name (some text) msg_buf full_buf g small size =
      let (mem, out, printed_, sealed, reads) = vsnprintf-sealed msg_buf 96 95 text small refl in
      let (mem', out', printed', sealed', reads') =
        vsnprintf-sealed full_buf 128 127
          (codes "["
            ++ (level_str level
                ++ (codes "] " ++ (or_empty name ++ (codes ": " ++ printed 96 text)))))
          size refl in
      rw (printed_, ◌>>=◌, sealed, ◌>>=◌, reads, ◌>>=◌, printed', ◌>>=◌, sealed', ◌>>=◌, reads')
        refl

  -- With a log level that is not 0 for the preprocessor, aemlib_log_emit and
  -- aemlib_log_emit_prefixed never access their buffers out of bounds, and they call the callback,
  -- if there is one, exactly once: with the level, the module or the empty string, and the text cut
  -- at 127 bytes, which the prefixed one puts behind the level and the module after it cut the text
  -- at 95 bytes, or with a fixed message where formatting fails.
  pub log_emit_lem :
      (s : Setting) (level : Level) (name text : Option (List ℕ)) (buf msg_buf : List ℕ)
      (g : Logger W)
      → preprocessed s ≢ 0
      → length buf ≡ 128
      → length msg_buf ≡ 96
      → (log_emit s level name text buf g
          ≡ some (told level (or_empty name) (plain_message text) g))
        × (log_emit_prefixed s level name text msg_buf buf g
            ≡ some (told level (or_empty name) (prefixed_message level (or_empty name) text) g))
  unfolding log_emit log_emit_prefixed
  log_emit_lem s level name text buf msg_buf g on size small =
      let told_or : Option (LogFn W) → List ℕ → Logger W = λ o msg. elim o [
        | none ↦ g
        | some fn ↦ record g { world = fn level (or_empty name) msg g.world }
      ] in
      rw (==_false (preprocessed s) 0 on)
        (elim g.callback
          as (λ o.
            ((elim o as (λ x. Option (Logger W)) [
              | none ↦ some g
              | some fn ↦ emit_internal fn level name text buf g
            ])
              ≡ some (told_or o (plain_message text)))
            × ((elim o as (λ x. Option (Logger W)) [
              | none ↦ some g
              | some fn ↦ emit_prefixed fn level name text msg_buf buf g
            ])
                ≡ some (told_or o (prefixed_message level (or_empty name) text)))) [
                  | none ↦ (refl, refl)
                  | some fn ↦ (
                    emit_internal_lem fn level name text buf g size,
                    emit_prefixed_lem fn level name text msg_buf buf g small size,
                  )
                ])
