-- ===== src/Platform/Virtual/Fifo.antt =====
-- channel_write and channel_read of platform/virtual_transport.c against a queue.
use aemlib.Base.{
  ℕ, zero, suc, ◌+◌, ◌-◌, ◌%◌, ◌^◌, ◌≤◌, ◌<◌, ◌≡◌, refl, ap, sym, ◌∙◌, subst, List, [], ◌∷◌, ◌++◌,
  append_assoc, append-nil, length, take, drop, get_elem?, some, arith, min, length-append,
  length-take, length-drop, take-min, drop-min, ◌==◌, ==_false, ltb, if◌then◌else◌, ◌&&◌, false,
}
use aemlib.Base.Words.{add_size, sub_size}
use aemlib.Base.Memory.{store}
use aemlib.Status.{status_ok}
use aemlib.Status.Outcome.{returned}
use aemlib.Platform.Virtual.{
  Channel, channel_full, write_loop, read_loop, channel_write, channel_read, write_count,
  read_count,
}
use aemlib.Platform.Virtual.Window.{
  Window, Window-mod, Window-other, Window-snoc, Window-drop, store-get,
}
use native.Mathlib.Nat.{mod-mod, mod-add-mod, suc-mod, mod-lt, add-zero}

-- The channel's ring holds this queue, oldest byte first.
pub record Holds (ch : Channel) (queue : List ℕ) : Type 0 where
  pub size_positive : 1 ≤ ch.buf_size
  pub memory : ch.buf_size ≤ length ch.buf
  pub small : length ch.buf < 2 ^ 62
  pub head_in : ch.head < ch.buf_size
  pub counted : ch.len ≡ length queue
  pub fits : length queue ≤ ch.buf_size
  pub window : Window ch.buf_size ch.buf ch.head queue

write_step :
    (i tail size x : ℕ) (bytes buf out : List ℕ) (at : ℕ)
    → add_size tail i % size ≡ at
    → store buf at x ≡ some out
    → write_loop i tail size (x ∷ bytes) buf ≡ write_loop (suc i) tail size bytes out
unfolding write_loop
write_step i tail size x bytes buf out at e stored = rw (write_loop, e, stored)

-- The write loop, at a place that is the end of the queue.
write_loop_lem :
    (size head i tail : ℕ) (bytes queue buf : List ℕ)
    → 1 ≤ size
    → size ≤ length buf
    → length buf < 2 ^ 62
    → tail < size
    → i + length bytes ≤ size
    → (tail + i) % size ≡ (head + length queue) % size
    → length queue + length bytes ≤ size
    → Window size buf head queue
    → (out : List ℕ) × (write_loop i tail size bytes buf ≡ some out)
      × (length out ≡ length buf)
      × Window size out head (queue ++ bytes)
unfolding write_loop
write_loop_lem size head i tail [] queue buf pos mem small tl il at room w =
    (buf, refl, refl, rw (append-nil queue) w)
write_loop_lem size head i tail (x ∷ bytes) queue buf pos mem small tl il at room w =
    let sum : add_size tail i ≡ tail + i = omega arith in
    let place : (tail + i) % size < length buf = omega (arith, mod-lt (tail + i) pos) in
    let (out, e, same, here, other) = store-get buf ((tail + i) % size) x place in
    let kept =
      Window-other size buf out head (head + length queue) queue (omega arith) (omega arith)
        (λ j ne. other j (λ k. ne (k ∙ at))) w in
    let longer = Window-snoc size out head x queue kept (ap (get_elem? out) (sym at) ∙ here) in
    let next : (tail + suc i) % size ≡ (head + length (queue ++ x ∷ [])) % size =
      let e1 : tail + suc i ≡ suc (tail + i) = omega arith in
      let e2 : suc (head + length queue) ≡ head + length (queue ++ x ∷ []) =
        omega (arith, length-append queue (x ∷ [])) in
      ap (λ n. n % size) e1
      ∙ suc-mod (tail + i) size
      ∙ ap (λ n. suc n % size) at
      ∙ sym (suc-mod (head + length queue) size)
      ∙ ap (λ n. n % size) e2 in
    let (out', e', same', w') =
      write_loop_lem size head (suc i) tail bytes (queue ++ x ∷ []) out pos (omega arith)
        (omega arith) tl (omega arith) next (omega (arith, length-append queue (x ∷ []))) longer in
    (
      out',
      write_step i tail size x bytes buf out ((tail + i) % size) (ap (λ n. n % size) sum) e ∙ e',
      same' ∙ same,
      rw (← append_assoc queue (x ∷ []) bytes) w',
    )

read_loop_lem :
    (n size head i : ℕ) (queue buf : List ℕ)
    → head < size
    → size < 2 ^ 62
    → i + n ≤ size
    → n ≤ length queue
    → Window size buf (head + i) queue
    → read_loop n i head size buf ≡ some (take n queue)
unfolding read_loop
read_loop_lem zero size head i queue buf hs small il h w = refl
read_loop_lem (suc n) size head i [] buf hs small il h w = absurd (omega arith)
read_loop_lem (suc n) size head i (x ∷ queue) buf hs small il h (here, later) =
    let sum : add_size head i ≡ head + i = omega arith in
    let step : suc (head + i) ≡ head + suc i = omega arith in
    rw
      (
        read_loop,
        sum,
        here,
        read_loop_lem n size head (suc i) queue buf hs small (omega arith) (omega arith)
            (subst (λ p. Window size buf p queue) step later),
      )
      refl

channel_write_step :
    (ch : Channel) (bytes out : List ℕ)
    → (ch.buf_size == 0) ≡ false
    → write_loop 0
        (add_size ch.head ch.len % ch.buf_size)
        ch.buf_size
        (take (write_count ch (length bytes)) bytes)
        ch.buf
      ≡ some out
    → channel_write ch bytes
      ≡ returned
          (if (write_count ch (length bytes) == 0) && ltb 0 (length bytes)
            then channel_full
            else status_ok)
          (
            record ch { buf = out; len = add_size ch.len (write_count ch (length bytes)) },
            write_count ch (length bytes),
          )
unfolding channel_write
channel_write_step ch bytes out some_memory e = rw (some_memory, e) refl

write_count_eq :
    (ch : Channel) (len : ℕ) (queue : List ℕ)
    → Holds ch queue
    → write_count ch len ≡ min len (ch.buf_size - length queue)
write_count_eq ch len queue h = ground (arith, h.counted, h.fits, h.memory, h.small)

-- On a channel whose ring holds a queue, and fewer than 2 ^ 62 bytes, channel_write appends to the
-- queue as many of the bytes as there is room for, and returns how many; it returns WOULD_BLOCK
-- when there are bytes and no room for any, and otherwise OK.
pub channel_write_lem :
    (ch : Channel) (bytes queue : List ℕ)
    → Holds ch queue
    → length bytes < 2 ^ 62
    → (ch' : Channel) × (n : ℕ) × (channel_write ch bytes
        ≡ returned (if (n == 0) && ltb 0 (length bytes) then channel_full else status_ok) (ch', n))
      × (n ≡ min (length bytes) (ch.buf_size - length queue))
      × Holds ch' (queue ++ take n bytes)
channel_write_lem ch bytes queue h few =
    let n : ℕ = write_count ch (length bytes) in
    let count = write_count_eq ch (length bytes) queue h in
    let taken : length (take n bytes) ≡ n = omega (arith, length-take n bytes, count) in
    let sum : add_size ch.head ch.len ≡ ch.head + length queue =
      omega (arith, h.counted, h.fits, h.memory, h.small, h.head_in) in
    let tail : ℕ = add_size ch.head ch.len % ch.buf_size in
    let at : (tail + 0) % ch.buf_size ≡ (ch.head + length queue) % ch.buf_size =
      mod-add-mod (add_size ch.head ch.len) ch.buf_size 0
      ∙ ap (λ k. k % ch.buf_size) (add-zero (add_size ch.head ch.len) ∙ sum) in
    let (out, e, same, w) =
      write_loop_lem ch.buf_size ch.head 0 tail (take n bytes) queue ch.buf h.size_positive h.memory
        h.small (mod-lt (add_size ch.head ch.len) h.size_positive) (omega (arith, taken, count)) at
        (omega (arith, taken, count, h.fits)) h.window in
    (
      record ch { buf = out; len = add_size ch.len n },
      n,
      channel_write_step ch bytes out
          (==_false ch.buf_size 0 (λ z. absurd (omega (arith, z, h.size_positive)))) e,
      count,
      record {
        size_positive = h.size_positive;
        memory = omega (arith, same, h.memory);
        small = omega (arith, same, h.small);
        head_in = h.head_in;
        counted = omega (
          arith,
          length-append queue (take n bytes),
          taken,
          count,
          h.counted,
          h.fits,
          h.memory,
          h.small,
        );
        fits = omega (arith, length-append queue (take n bytes), taken, count, h.fits);
        window = w;
      },
    )

channel_read_step :
    (ch : Channel) (len : ℕ) (bytes : List ℕ)
    → (ch.buf_size == 0) ≡ false
    → read_loop (read_count ch len) 0 ch.head ch.buf_size ch.buf ≡ some bytes
    → channel_read ch len
      ≡ returned status_ok (
        record ch {
          head = add_size ch.head (read_count ch len) % ch.buf_size;
          len = sub_size ch.len (read_count ch len);
        },
        bytes,
      )
unfolding channel_read
channel_read_step ch len bytes some_memory e = rw (some_memory, e) refl

-- On a channel whose ring holds a queue, channel_read takes the oldest bytes off the queue, as many
-- as there are and as fit, and returns OK.
pub channel_read_lem :
    (ch : Channel) (len : ℕ) (queue : List ℕ)
    → Holds ch queue
    → (ch' : Channel) × (channel_read ch len ≡ returned status_ok (ch', take len queue))
      × Holds ch' (drop len queue)
channel_read_lem ch len queue h =
    let n : ℕ = read_count ch len in
    let count : n ≡ min len (length queue) = ground (arith, h.counted) in
    let size : ch.buf_size < 2 ^ 62 = omega (arith, h.memory, h.small) in
    let sum : add_size ch.head n ≡ ch.head + n = omega (arith, count, h.fits, h.head_in, size) in
    let all : take n queue ≡ take len queue = ap (λ k. take k queue) count ∙ take-min len queue in
    let left : drop n queue ≡ drop len queue = ap (λ k. drop k queue) count ∙ drop-min len queue in
    let e =
      read_loop_lem n ch.buf_size ch.head 0 queue ch.buf h.head_in size
        (omega (arith, count, h.fits)) (omega (arith, count)) (rw (add-zero ch.head) h.window) in
    let last : Channel = record ch {
      head = add_size ch.head n % ch.buf_size;
      len = sub_size ch.len n;
    } in
    (
      last,
      subst (λ l. channel_read ch len ≡ returned status_ok (last, l)) all
          (channel_read_step ch len (take n queue)
            (==_false ch.buf_size 0 (λ z. absurd (omega (arith, z, h.size_positive)))) e),
      record {
        size_positive = h.size_positive;
        memory = h.memory;
        small = h.small;
        head_in = mod-lt (add_size ch.head n) h.size_positive;
        counted = omega (arith, length-drop len queue, count, h.counted, h.fits, size);
        fits = omega (arith, length-drop len queue, h.fits);
        window =
            Window-mod ch.buf_size ch.buf (ch.head + n) (add_size ch.head n % ch.buf_size)
              (drop len queue)
              (ap (λ k. k % ch.buf_size) (sym sum) ∙ sym (mod-mod (add_size ch.head n) ch.buf_size))
              (subst (Window ch.buf_size ch.buf (ch.head + n)) left
                (Window-drop ch.buf_size ch.buf ch.head n queue (omega (arith, count)) h.window));
      },
    )
