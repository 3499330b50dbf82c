-- ===== src/Client/Io/Stream.antt =====
-- client_send and client_flush_pending of core/client.c on the stream of bytes: what has left through
-- the transport, followed by what is pending.
use aemlib.Base.{
  ℕ, ◌-◌, ◌≤◌, ◌≡◌, refl, ap, sym, ◌∙◌, List, [], ◌++◌, append-nil, append_assoc, take, drop,
  take-take, take_split, Bool-cases, inl, inr, ◌==◌, ==_iff, ne_of_==, ltb, le_of_ltb, arith,
  if◌then◌else◌, true, false,
}
use aemlib.Base.Words.{sub_size}
use aemlib.Base.Memory.{memmove, slice, slice_total}
use aemlib.Base.Memory.Front.{memmove_front}
use aemlib.Status.{status_ok, status_code, code_value, Code}
use aemlib.Status.Outcome.{Ends, Ends-map, Ends-accessing}
use aemlib.Platform.Transport.{is_error, IsSink}
use aemlib.Core.State.{Client, Sys}
use aemlib.Core.Valid.{Good, Good-world}
use aemlib.Client.Io.{stage, unstage, client_send, client_flush_pending}
use aemlib.Client.Io.Safety.{taken, taken_fits, head_bytes, write_of}

-- The bytes that are staged at the front of `tx_buffer`.
abbrev pub pending : {W : Type 0} → Client W → List ℕ
pending c = take c.tx_pending_len c.tx_buffer

-- The whole stream: what has left, and what is pending.
abbrev pub handed : {W : Type 0} → (W → List ℕ) → Sys W → List ℕ
handed wire s = wire s.world ++ pending s.client

done :
    (n len : ℕ) (tx : List ℕ) → n ≤ len → len - n ≤ 0 → take n tx ++ take (len - n) tx ≡ take len tx
done n len tx h all =
    let z : len - n ≡ 0 = omega arith in
    let e : n ≡ len = omega arith in
    ap (λ k. take n tx ++ take k tx) z ∙ append-nil _ ∙ ap (λ k. take k tx) e

-- What has left and what is pending, once `n` of `len` bytes have left.
regroup :
    (gone gone' rest tx : List ℕ) (n len : ℕ)
    → gone' ≡ gone ++ take n (take len tx)
    → n ≤ len
    → take n tx ++ rest ≡ take len tx
    → gone' ++ rest ≡ gone ++ take len tx
regroup gone gone' rest tx n len e h cut =
    rw (e, take-take n len tx h, append_assoc gone (take n tx) rest, cut)

error_not_ok : (st : ℕ) → is_error st ≡ true → (st == status_ok) ≡ false
error_not_ok st e = ground arith

module _ {W : Type 0} where
  stage_keeps :
      (n len : ℕ) (s : Sys W)
      → Good s
      → s.client.tx_pending_len ≡ 0
      → n ≤ len
      → len ≤ s.client.tx_buffer_size
      → Ends
          (λ st s'.
            (st ≡ status_ok)
            × (s'.world ≡ s.world)
            × (take n s.client.tx_buffer ++ pending s'.client ≡ take len s.client.tx_buffer))
          (stage n len s)
  unfolding stage
  stage_keeps n len s g clear h fits =
      let tx = s.client.tx_buffer in
      elim (Bool-cases (ltb n len)) [
        | inr all ↦ rw all (
          refl,
          refl,
          rw clear (append-nil _ ∙ ap (λ k. take k tx) (omega (arith, le_of_ltb n len all))),
        )
        | inl part ↦
            let (out, e, front) = memmove_front tx n (len - n) (omega (arith, g.tx_memory)) in
            rw part (
              Ends-accessing _ (memmove tx 0 n (len - n)) _ out e
                (refl, refl, ap (λ l. take n tx ++ l) front ∙ take_split n len tx h))
      ]

  unstage_keeps :
      (n : ℕ) (s : Sys W)
      → Good s
      → n ≤ s.client.tx_pending_len
      → Ends
          (λ st s'.
            (s'.world ≡ s.world)
            × (take n s.client.tx_buffer ++ pending s'.client ≡ pending s.client))
          (unstage n s)
  unfolding unstage
  unstage_keeps n s g h =
      let tx = s.client.tx_buffer in
      let len = s.client.tx_pending_len in
      let exact : sub_size len n ≡ len - n = omega (arith, g.tx_memory, g.tx_small, g.pending_in) in
      elim (Bool-cases (ltb 0 n)) [
        | inr none_out ↦
            let z : n ≡ 0 = omega (arith, le_of_ltb 0 n none_out) in
            rw none_out (refl, ap (λ k. take k tx ++ pending s.client) z)
        | inl some_out ↦
            rw (some_out, exact)
              (elim (Bool-cases (ltb 0 (len - n))) [
                | inr all ↦ rw all (refl, done n len tx h (le_of_ltb 0 (len - n) all))
                | inl part ↦
                    let (out, e, front) =
                      memmove_front tx n (len - n) (omega (arith, g.tx_memory, g.pending_in)) in
                    rw part (
                      Ends-accessing _ (memmove tx 0 n (len - n)) _ out e
                        (refl, ap (λ l. take n tx ++ l) front ∙ take_split n len tx h))
              ])
      ]

  -- A write without an error moves to the wire the bytes that it is then taken to have sent.
  wire-taken :
      (wire : W → List ℕ) (s : Sys W) (g : Good s) (bytes : List ℕ)
      → IsSink s.client.transport wire
      → is_error (write_of s g bytes).status ≡ false
      → wire (write_of s g bytes).world ≡ wire s.world ++ take (taken s g bytes) bytes
  unfolding taken
  wire-taken wire s g bytes sink e =
      let st = (write_of s g bytes).status in
      elim (Bool-cases (status_code st == code_value Code.would_block)) [
        | inl blocked ↦ rw blocked (
            sink.refused s.world bytes (λ ok. absurd (omega (arith, ok, (==_iff _ _).0 blocked)))
            ∙ sym (append-nil _))
        | inr passed ↦ rw passed (sink.accepted s.world bytes (ground arith))
      ]

  -- A write with an error moves nothing.
  wire-error :
      (wire : W → List ℕ) (s : Sys W) (g : Good s) (bytes : List ℕ)
      → IsSink s.client.transport wire
      → is_error (write_of s g bytes).status ≡ true
      → wire (write_of s g bytes).world ≡ wire s.world
  wire-error wire s g bytes sink e =
      sink.refused s.world bytes (ne_of_== _ status_ok (error_not_ok (write_of s g bytes).status e))

  -- On a client in the invariant, client_flush_pending moves bytes from the front of what is
  -- pending to the transport, and changes neither the bytes nor their order, whatever it returns.
  pub client_flush_pending-conserves :
      (wire : W → List ℕ) (s : Sys W)
      → Good s
      → IsSink s.client.transport wire
      → Ends (λ st s'. handed wire s' ≡ handed wire s) (client_flush_pending s)
  unfolding client_flush_pending taken
  client_flush_pending-conserves wire s g sink = elim (Bool-cases (s.client.tx_pending_len == 0)) [
    | inl clear ↦ rw clear refl
    | inr some_left ↦
        let tx = s.client.tx_buffer in
        let len = s.client.tx_pending_len in
        let bytes : List ℕ = pending s.client in
        rw some_left (
          Ends-accessing _ (slice tx 0 len) _ bytes
            (slice_total tx 0 len (omega (arith, g.tx_memory, g.pending_in)))
            (elim (Bool-cases (is_error (write_of s g bytes).status)) [
              | inl bad ↦ rw bad (ap (λ l. l ++ bytes) (wire-error wire s g bytes sink bad))
              | inr good ↦
                  let n : ℕ = taken s g bytes in
                  let h : n ≤ len = omega (
                    arith,
                    taken_fits s g bytes good,
                    head_bytes len tx (omega (arith, g.tx_memory, g.pending_in)),
                  ) in
                  let s' : Sys W = record s { world = (write_of s g bytes).world } in
                  rw good (
                    Ends-map
                      (λ st t. (t.world ≡ s'.world) × (take n tx ++ pending t.client ≡ bytes))
                      (λ st t. handed wire t ≡ handed wire s) (unstage n s')
                      (λ st t c.
                        regroup (wire s.world) (wire t.world) (pending t.client) tx n len
                          (ap wire c.0 ∙ wire-taken wire s g bytes sink good) h c.1)
                      (unstage_keeps n s' (Good-world s s'.world g) h))
            ]))
  ]

  -- On a client in the invariant, with `wire` the bytes that have left through the transport, and
  -- what is pending counted behind them: a client_send that returns OK appends exactly the first
  -- `len` bytes of tx_buffer to this stream, and any other changes nothing of it.
  pub client_send-conserves :
      (wire : W → List ℕ) (len : ℕ) (s : Sys W)
      → Good s
      → IsSink s.client.transport wire
      → len ≤ s.client.tx_buffer_size
      → Ends
          (λ st s'.
            handed wire s'
            ≡ handed wire s ++ (if st == status_ok then take len s.client.tx_buffer else []))
          (client_send len s)
  unfolding client_send taken
  client_send-conserves wire len s g sink fits = elim (Bool-cases (ltb 0 s.client.tx_pending_len)) [
    | inl busy ↦ rw busy (sym (append-nil _))
    | inr clear ↦
        let tx = s.client.tx_buffer in
        let z : s.client.tx_pending_len ≡ 0 = omega (arith, le_of_ltb 0 _ clear) in
        let bytes : List ℕ = take len (drop 0 tx) in
        rw clear (
          Ends-accessing _ (slice tx 0 len) _ bytes
            (slice_total tx 0 len (omega (arith, g.tx_memory)))
            (elim (Bool-cases (is_error (write_of s g bytes).status)) [
              | inl bad ↦
                  rw (bad, error_not_ok (write_of s g bytes).status bad)
                    (rw (z, wire-error wire s g bytes sink bad) (sym (append-nil _)))
              | inr good ↦
                  let n : ℕ = taken s g bytes in
                  let h : n ≤ len = omega (
                    arith,
                    taken_fits s g bytes good,
                    head_bytes len tx (omega (arith, g.tx_memory)),
                  ) in
                  let s' : Sys W = record s { world = (write_of s g bytes).world } in
                  rw good (
                    Ends-map
                      (λ st t.
                        (st ≡ status_ok)
                        × (t.world ≡ s'.world)
                        × (take n tx ++ pending t.client ≡ bytes))
                      _ (stage n len s')
                      (λ st t c. rw ((==_iff st status_ok).1 c.0) (
                        regroup (wire s.world) (wire t.world) (pending t.client) tx n len
                          (ap wire c.1 ∙ wire-taken wire s g bytes sink good) h c.2
                        ∙ ap (λ l. l ++ bytes)
                            (sym (append-nil (wire s.world))
                              ∙ ap (λ k. wire s.world ++ take k tx) (sym z))))
                      (stage_keeps n len s' (Good-world s s'.world g) z h fits))
            ]))
  ]
