-- ===== src/Proto/Header/Errors.antt =====
-- The statuses with which aemlib_proto_decode_fixed_header refuses.
use aemlib.Base.Words.{u32_mod}
use aemlib.Base.{ℕ, ◌+◌, ◌*◌, ◌%◌, ◌≡◌, ◌≢◌, List, [], ◌∷◌, arith}
use aemlib.Status.{status_ok}
use aemlib.Status.Decoded.{err, err_inj}
use aemlib.Proto.RemainingLength.{decode_loop, decode_remaining_length}
use aemlib.Proto.Header.{decode_fixed_header}

decode_loop-err : (xs : List ℕ) (m r i st : ℕ) → decode_loop xs m r i ≡ err st → st ≢ status_ok
unfolding decode_loop
decode_loop-err [] m r i st e = λ ok. absurd (omega (arith, ok, err_inj e))
decode_loop-err (b ∷ xs) m r i st e =
    ground (arith, decode_loop-err xs (m * 128 % u32_mod) ((r + b % 128 * m) % u32_mod) (i + 1) st)

pub decode_fixed_header-err :
    (buf : List ℕ) (st : ℕ) → decode_fixed_header buf ≡ err st → st ≢ status_ok
unfolding decode_fixed_header decode_remaining_length
decode_fixed_header-err [] st e = λ ok. absurd (omega (arith, ok, err_inj e))
decode_fixed_header-err (b ∷ buf) st e = ground (arith, decode_loop-err buf 1 0 0 st)
