-- ===== src/Client/Io/Drain.antt =====
-- client_flush_pending of core/client.c, called again and again: what is pending leaves.
use aemlib.Base.{
  ℕ, zero, suc, ◌+◌, ◌-◌, ◌*◌, ◌≤◌, ◌<◌, ◌≡◌, ◌≢◌, refl, ap, sym, subst, ◌∙◌, List, ◌++◌,
  append-nil, length, Bool-cases, inl, inr, ◌⊎◌, ◌==◌, ==_iff, ==_false, ne_of_==, ltb, le_of_ltb,
  true, false, arith, some,
}
use native.Mathlib.Nat.{mul-le-mul_right, add-mul, one-mul, suc-mul}
use aemlib.Base.Words.{sub_size}
use aemlib.Base.Memory.{memmove, memmove_total, slice_total}
use aemlib.Status.{status_ok}
use aemlib.Status.Outcome.{Outcome, returned, ◌>>=◌, Ends-returned}
use aemlib.Platform.Transport.{Transport, transport_write, is_error, IsSink}
use aemlib.Core.State.{Sys}
use aemlib.Core.Valid.{Good, Good-world}
use aemlib.Client.Io.{unstage, client_flush_pending}
use aemlib.Client.Io.Safety.{taken, taken_fits, head_bytes, write_of, unstage-Safe}
use aemlib.Client.Io.Stream.{pending, handed, client_flush_pending-conserves}

-- A transport that does not fail, and takes a byte at the latest when `delay` has run down from `longest`.
pub record IsPatient {W : Type 0} (t : Transport W) (delay : W → ℕ) (longest : ℕ) : Type 0 where
  pub bounded : (w : W) → delay w ≤ longest
  pub fine : (w : W) (bytes : List ℕ) → is_error (transport_write t bytes 0 w).status ≡ false
  pub moves :
      (w : W) (bytes : List ℕ)
      → 1 ≤ length bytes
      → ((transport_write t bytes 0 w).status ≡ status_ok)
          × (1 ≤ (transport_write t bytes 0 w).out_len)
        ⊎ (delay (transport_write t bytes 0 w).world < delay w)

-- The bound on the calls, in each way a call can go.
runs_down :
    (p p' longest d d' n : ℕ)
    → (p' + 1 ≤ p) ⊎ ((p' ≤ p) × (d' + 1 ≤ d))
    → d' ≤ longest
    → p * (longest + 1) + d ≤ suc n
    → p' * (longest + 1) + d' ≤ n
runs_down p p' longest d d' n (inl less) short enough =
    omega (
      arith,
      mul-le-mul_right (longest + 1) less,
      add-mul p' 1 (longest + 1),
      one-mul (longest + 1),
    )
runs_down p p' longest d d' n (inr (same, sooner)) short enough =
    omega (arith, mul-le-mul_right (longest + 1) same)

no_product : (p longest d : ℕ) → p * (longest + 1) + d ≤ 0 → p ≡ 0
no_product zero longest d h = refl
no_product (suc p) longest d h = absurd (omega (arith, suc-mul p (longest + 1)))

module _ {W : Type 0} where
  -- A number of calls, one after the other.
  pub flushes : ℕ → Sys W → Outcome (Sys W)
  flushes zero s = returned status_ok s
  flushes (suc n) s = client_flush_pending s >>= flushes n

  unstage-part :
      (n rest : ℕ) (tx : List ℕ) (s : Sys W)
      → sub_size s.client.tx_pending_len n ≡ rest
      → ltb 0 n ≡ true
      → ltb 0 rest ≡ true
      → memmove s.client.tx_buffer 0 n rest ≡ some tx
      → unstage n s
        ≡ returned status_ok
            (record s { client = record s.client { tx_buffer = tx; tx_pending_len = rest } })
  unfolding unstage
  unstage-part n rest tx s exact any part moved = rw (any, exact, part, moved) refl

  unstage_all :
      (n rest : ℕ) (s : Sys W)
      → sub_size s.client.tx_pending_len n ≡ rest
      → ltb 0 n ≡ true
      → ltb 0 rest ≡ false
      → unstage n s
        ≡ returned status_ok (record s { client = record s.client { tx_pending_len = rest } })
  unfolding unstage
  unstage_all n rest s exact any all = rw (any, exact, all) refl

  unstage_none : (n : ℕ) (s : Sys W) → ltb 0 n ≡ false → unstage n s ≡ returned status_ok s
  unfolding unstage
  unstage_none n s nothing = rw nothing refl

  -- What is pending is less by what was taken, and nothing else but the buffer is another one.
  abbrev Less : ℕ → Sys W → Sys W → Type 0
  Less n s s' =
      (s'.client.tx_pending_len + n ≡ s.client.tx_pending_len)
      × (s'.client.transport ≡ s.client.transport)
      × (s'.world ≡ s.world)

  unstage-Less :
      (n : ℕ) (s : Sys W)
      → Good s
      → n ≤ s.client.tx_pending_len
      → (s' : Sys W) × (unstage n s ≡ returned status_ok s') × Less n s s'
  unstage-Less n s g h =
      let len = s.client.tx_pending_len in
      let rest : ℕ = len - n in
      let exact : sub_size len n ≡ rest = omega (arith, g.tx_memory, g.tx_small, g.pending_in) in
      elim (Bool-cases (ltb 0 n)) [
        | inr nothing ↦
            (s, unstage_none n s nothing, (omega (arith, le_of_ltb 0 n nothing), refl, refl))
        | inl any ↦ elim (Bool-cases (ltb 0 rest)) [
          | inr all ↦ (_, unstage_all n rest s exact any all, (omega arith, refl, refl))
          | inl part ↦
              let (tx, moved, _) =
                memmove_total s.client.tx_buffer 0 n rest (omega (arith, g.tx_memory, g.pending_in))
                  (omega (arith, g.tx_memory, g.pending_in)) in
              (_, unstage-part n rest tx s exact any part moved, (omega arith, refl, refl))
        ]
      ]

  flush_empty :
      (s : Sys W) → s.client.tx_pending_len ≡ 0 → client_flush_pending s ≡ returned status_ok s
  unfolding client_flush_pending
  flush_empty s e = rw ((==_iff s.client.tx_pending_len 0).1 e) refl

  flush-unstage :
      (s : Sys W) (g : Good s)
      → s.client.tx_pending_len ≢ 0
      → is_error (write_of s g (pending s.client)).status ≡ false
      → client_flush_pending s
        ≡ unstage
            (taken s g (pending s.client))
            (record s { world = (write_of s g (pending s.client)).world })
  unfolding client_flush_pending taken
  flush-unstage s g any fine =
      rw
        (
          ==_false s.client.tx_pending_len 0 any,
          slice_total s.client.tx_buffer 0 s.client.tx_pending_len
              (omega (arith, g.tx_memory, g.pending_in)),
          fine,
        )
        refl

  taken_ok :
      (s : Sys W) (g : Good s) (bytes : List ℕ)
      → (write_of s g bytes).status ≡ status_ok
      → taken s g bytes ≡ (write_of s g bytes).out_len
  unfolding taken
  taken_ok s g bytes e = rw e refl

  -- A flush of something: less is pending, or as much is and the delay is shorter.
  flush-progress :
      (delay : W → ℕ) (longest : ℕ) (s : Sys W)
      → Good s
      → IsPatient s.client.transport delay longest
      → 1 ≤ s.client.tx_pending_len
      → (s' : Sys W) × (client_flush_pending s ≡ returned status_ok s')
        × Good s'
        × (s'.client.transport ≡ s.client.transport)
        × ((s'.client.tx_pending_len + 1 ≤ s.client.tx_pending_len)
            ⊎ (s'.client.tx_pending_len ≤ s.client.tx_pending_len)
              × (delay s'.world + 1 ≤ delay s.world))
  flush-progress delay longest s g patient any =
      let bytes : List ℕ = pending s.client in
      let size =
        head_bytes s.client.tx_pending_len s.client.tx_buffer
          (omega (arith, g.tx_memory, g.pending_in)) in
      let fine = patient.fine s.world bytes in
      let n : ℕ = taken s g bytes in
      let fits : n ≤ s.client.tx_pending_len = omega (arith, taken_fits s g bytes fine, size) in
      let s1 : Sys W = record s { world = (write_of s g bytes).world } in
      let (s', e, (less, same, world)) = unstage-Less n s1 (Good-world s s1.world g) fits in
      (
        s',
        flush-unstage s g (λ z. absurd (omega arith)) fine ∙ e,
        Ends-returned (λ st t. Good t) (unstage n s1) status_ok s'
            (unstage-Safe n s1 (Good-world s s1.world g) fits) e,
        same,
        elim (patient.moves s.world bytes (omega (arith, size))) [
          | inl (ok, out) ↦ inl (omega (arith, taken_ok s g bytes ok, out, less))
          | inr sooner ↦ inr (omega (arith, less), omega (arith, ap delay world, sooner))
        ],
      )

  flushes_clear :
      (n : ℕ) (s : Sys W) → s.client.tx_pending_len ≡ 0 → flushes n s ≡ returned status_ok s
  unfolding flushes
  flushes_clear zero s e = refl
  flushes_clear (suc n) s e = rw (flush_empty s e) (flushes_clear n s e)

  -- On a client in the invariant, over a transport that does not fail and that takes a byte at the
  -- latest when a delay of bounded length has run down, as many calls of client_flush_pending as
  -- the bytes pending times that length plus one, plus the delay, all return OK, and after them
  -- nothing is pending and exactly the bytes that were pending have left, in order.
  pub flushes-drains :
      (wire : W → List ℕ) (delay : W → ℕ) (longest n : ℕ) (s : Sys W)
      → Good s
      → IsSink s.client.transport wire
      → IsPatient s.client.transport delay longest
      → s.client.tx_pending_len * (longest + 1) + delay s.world ≤ n
      → (s' : Sys W) × (flushes n s ≡ returned status_ok s')
        × (s'.client.tx_pending_len ≡ 0)
        × (wire s'.world ≡ wire s.world ++ pending s.client)
  unfolding flushes
  flushes-drains wire delay longest zero s g sink patient enough =
      let z : s.client.tx_pending_len ≡ 0 =
        no_product s.client.tx_pending_len longest (delay s.world) enough in
      (s, refl, z, sym (rw z (append-nil (wire s.world))))
  flushes-drains wire delay longest (suc n) s g sink patient enough =
      elim (Bool-cases (s.client.tx_pending_len == 0)) [
        | inl clear ↦
            let z = (==_iff s.client.tx_pending_len 0).0 clear in
            (s, flushes_clear (suc n) s z, z, sym (rw z (append-nil (wire s.world))))
        | inr some_left ↦
            let any : 1 ≤ s.client.tx_pending_len = omega (arith, ne_of_== _ 0 some_left) in
            let (s1, e, g1, same, step) = flush-progress delay longest s g patient any in
            let moved : handed wire s1 ≡ handed wire s =
              Ends-returned (λ st t. handed wire t ≡ handed wire s) (client_flush_pending s)
                status_ok s1 (client_flush_pending-conserves wire s g sink) e in
            let (s2, e2, z, left) =
              flushes-drains wire delay longest n s1 g1 (subst (λ t. IsSink t wire) (sym same) sink)
                (subst (λ t. IsPatient t delay longest) (sym same) patient)
                (runs_down s.client.tx_pending_len s1.client.tx_pending_len longest (delay s.world)
                  (delay s1.world) n step (patient.bounded s1.world) enough) in
            (s2, rw e e2, z, left ∙ moved)
      ]
