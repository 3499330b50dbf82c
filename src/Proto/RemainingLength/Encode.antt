-- ===== src/Proto/RemainingLength/Encode.antt =====
-- aemlib_proto_encode_remaining_length against the groups of seven bits of MQTT 3.1.1, section 2.2.3.
use aemlib.Base.{
  ℕ, zero, suc, ◌+◌, ◌/◌, ◌%◌, ◌^◌, ◌≤◌, ◌<◌, ◌≡◌, refl, ap, ap₂, ◌∙◌, ◌⊎◌, inl, inr, List, [], ◌∷◌,
  ◌++◌, length, drop, append_assoc, length-append, length-drop, drop-add, All, ltb, ltb-false,
  lt→ltb, ltb→lt, le_of_ltb, if◌then◌else◌, arith, Bool-cases,
}
use aemlib.Base.Words.{IsByte}
use aemlib.Base.Memory.{memcpy-append}
use aemlib.Status.{status_ok}
use aemlib.Status.Outcome.{returned}
use aemlib.Proto.Cursor.{Cursor}
use aemlib.Proto.Cursor.Emits.{cursor, Refused}
use aemlib.Proto.Cursor.Helpers.{cursor-advance}
use aemlib.Proto.RemainingLength.{encode_loop, encode_remaining_length}
use native.Mathlib.Nat.{pow-suc}
use native.Mathlib.Decide.{dec_lt}

-- The groups of seven bits of `v`, lowest first, for `v` below 128 ^ (k + 1): every byte but the last
-- has its top bit set.
unfoldable pub digits : ℕ → ℕ → List ℕ
digits zero v = v ∷ []
digits (suc k) v =
    let rest = digits k (v / 128) in if ltb v 128 then v ∷ [] else (v % 128 + 128) ∷ rest

pub length-digits : (k v : ℕ) → (1 ≤ length (digits k v)) × (length (digits k v) ≤ suc k)
unfolding digits
length-digits zero v = omega arith
length-digits (suc k) v = ground (arith, length-digits k (v / 128))

pub digits-IsByte : (k v : ℕ) → v < 128 ^ suc k → All IsByte (digits k v)
unfolding digits
digits-IsByte zero v h = omega arith
digits-IsByte (suc k) v h =
    ground (arith, digits-IsByte k (v / 128) (omega (arith, pow-suc 128 (suc k))))

-- The last round, and a round that goes on.
last_round :
    (room v : ℕ) (front rest : List ℕ) (o : ℕ)
    → v < 128
    → 1 ≤ length rest
    → encode_loop (suc room) v (cursor front rest o)
      ≡ returned status_ok (cursor (front ++ v ∷ []) (drop 1 rest) (length front + 1))
unfolding encode_loop
last_round room v front rest o h r =
    rw
      (
        ltb-false 0 (v / 128) (omega arith),
        small,
        memcpy-append front rest (v ∷ []) (length front) refl r,
      )
      (ap (λ (c : Cursor). returned status_ok (record c { out_len = length front + 1 }))
        (cursor-advance front (v ∷ []) (drop 1 rest) o _ refl))
  where
    small : v % 128 ≡ v
    small = omega arith

inner_round :
    (room v : ℕ) (front rest : List ℕ) (o : ℕ)
    → 128 ≤ v
    → 1 ≤ length rest
    → encode_loop (suc room) v (cursor front rest o)
      ≡ encode_loop room (v / 128) (cursor (front ++ (v % 128 + 128) ∷ []) (drop 1 rest) o)
unfolding encode_loop
inner_round room v front rest o h r =
    rw
      (
        lt→ltb 0 (v / 128) (omega arith),
        memcpy-append front rest ((v % 128 + 128) ∷ []) (length front) refl r,
      )
      (ap (encode_loop room (v / 128))
        (cursor-advance front ((v % 128 + 128) ∷ []) (drop 1 rest) o _ refl))

pub digits-last : (k v : ℕ) → v < 128 → digits k v ≡ v ∷ []
unfolding digits
digits-last zero v h = refl
digits-last (suc k) v h = rw (lt→ltb v 128 h)

pub digits-inner : (k v : ℕ) → 128 ≤ v → digits (suc k) v ≡ (v % 128 + 128) ∷ digits k (v / 128)
unfolding digits
digits-inner k v h = rw (ltb-false v 128 h)

cursor_join :
    (front : List ℕ) (x : ℕ) (ds rest : List ℕ)
    → ◌≡◌ {A = Cursor}
        (cursor
          ((front ++ x ∷ []) ++ ds)
          (drop (length ds) (drop 1 rest))
          (length (front ++ x ∷ []) + length ds))
        (cursor (front ++ x ∷ ds) (drop (suc (length ds)) rest) (length front + suc (length ds)))
cursor_join front x ds rest =
    rw (append_assoc front (x ∷ []) ds, length-append front (x ∷ []), ← drop-add 1 (length ds) rest)
      (ap₂ (λ n k. cursor (front ++ x ∷ ds) (drop n rest) k) next total)
  where
    next : 1 + length ds ≡ suc (length ds)
    next = omega arith

    total : length front + 1 + length ds ≡ length front + suc (length ds)
    total = omega arith

pub pow_pos : (n : ℕ) → 1 ≤ 128 ^ n
pow_pos zero = omega arith
pow_pos (suc n) = omega (arith, pow-suc 128 n, pow_pos n)

pub encode_loop-digits :
    (k v : ℕ) (front rest : List ℕ) (o : ℕ)
    → v < 128 ^ suc k
    → suc k ≤ length rest
    → encode_loop (suc k) v (cursor front rest o)
      ≡ returned status_ok (
          cursor
            (front ++ digits k v)
            (drop (length (digits k v)) rest)
            (length front + length (digits k v)))
encode_loop-digits zero v front rest o h room =
    rw (digits-last zero v (omega arith)) (last_round zero v front rest o (omega arith) room)
encode_loop-digits (suc k) v front rest o h room = elim (Bool-cases (ltb v 128)) [
  | inl e ↦
      let small : v < 128 = ltb→lt v 128 e in
      rw (digits-last (suc k) v small) (last_round (suc k) v front rest o small (omega arith))
  | inr e ↦
      let large : 128 ≤ v = le_of_ltb v 128 e in
      rw (digits-inner k v large) (
        inner_round (suc k) v front rest o large (omega arith)
        ∙ encode_loop-digits k (v / 128) (front ++ (v % 128 + 128) ∷ []) (drop 1 rest) o
            (omega (arith, pow-suc 128 (suc k))) (omega (arith, length-drop 1 rest))
        ∙ ap (returned status_ok) (cursor_join front (v % 128 + 128) (digits k (v / 128)) rest))
]

-- With too little room the loop stops at the end of the buffer.
pub encode_loop-Refused :
    (room v : ℕ) (front rest : List ℕ) (o : ℕ)
    → 128 ^ room ≤ v
    → room ≤ length rest
    → Refused (length front + length rest) o (encode_loop room v (cursor front rest o))
encode_loop-Refused zero v front rest o h r = record {
  left = cursor front rest o;
  refused = unfold encode_loop in refl;
  same_size = length-append front rest;
  same_out_len = refl;
}
encode_loop-Refused (suc room) v front rest o h r =
    rw
      (
        inner_round room v front rest o (omega (arith, pow-suc 128 room, pow_pos room))
            (omega arith),
        sizes,
      )
      (encode_loop-Refused room (v / 128) (front ++ (v % 128 + 128) ∷ []) (drop 1 rest) o
        (omega (arith, pow-suc 128 room)) (omega (arith, length-drop 1 rest)))
  where
    sizes :
        length front + length rest ≡ length (front ++ (v % 128 + 128) ∷ []) + length (drop 1 rest)
    sizes = omega (arith, length-append front ((v % 128 + 128) ∷ []), length-drop 1 rest)

encode_loop-Refused_start :
    (k v : ℕ) (buf : List ℕ) (o : ℕ)
    → 128 ^ suc k ≤ v
    → suc k ≤ length buf
    → Refused (length buf) o (encode_loop (suc k) v (cursor [] buf o))
encode_loop-Refused_start k v buf o h room =
    let r = encode_loop-Refused (suc k) v [] buf o h room in
    record {
      left = r.left;
      refused = r.refused;
      same_size = omega (arith, r.same_size);
      same_out_len = r.same_out_len;
    }

-- In a buffer of `suc k` bytes or more of which `suc k` may be used, the encoder of the remaining
-- length writes the groups of seven bits of every value below 128 ^ (k + 1) and their number, and
-- it refuses every larger value.
pub encode_remaining_length_lem :
    (k v : ℕ) (buf : List ℕ) (o : ℕ)
    → suc k ≤ length buf
    → ((v < 128 ^ suc k)
        × (encode_remaining_length v buf (suc k) o
            ≡ returned status_ok
                (cursor (digits k v) (drop (length (digits k v)) buf) (length (digits k v)))))
      ⊎ ((128 ^ suc k ≤ v) × Refused (length buf) o (encode_remaining_length v buf (suc k) o))
unfolding encode_remaining_length
encode_remaining_length_lem k v buf o room = elim (dec_lt v (128 ^ suc k)) [
  | yes h ↦ inl (
    h,
    encode_loop-digits k v [] buf o h room
        ∙ ap (λ n. returned status_ok (cursor (digits k v) (drop (length (digits k v)) buf) n))
            (omega arith),
  )
  | no h ↦ inr (omega arith, encode_loop-Refused_start k v buf o (omega arith) room)
]
