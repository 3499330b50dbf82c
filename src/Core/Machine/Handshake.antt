-- ===== src/Core/Machine/Handshake.antt =====
-- handle_state_mqtt_connect_sent of core/core.c, when the CONNACK is there.
use aemlib.Base.{
  ℕ, ◌-◌, ◌%◌, ◌≤◌, ◌≡◌, refl, ap, sym, subst, ◌∙◌, some, List, [], ◌∷◌, ◌++◌, length, take, drop,
  length-take, take-take, ◌==◌, ltb-false, lt→ltb, le→leb, arith, if◌then◌else◌, Bool-cases, inl,
  inr,
}
use aemlib.Base.Memory.{slice, slice_total}
use aemlib.Status.{status_ok}
use aemlib.Status.Outcome.{Outcome, returned, accessing}
use aemlib.Status.Decoded.{ok}
use aemlib.Proto.Header.{validate_mqtt_flags, decode_fixed_header}
use aemlib.Proto.Header.Laws.{decode_fixed_header-packet}
use aemlib.Proto.Encode.Finish.{packet}
use aemlib.Proto.RemainingLength.Encode.{digits}
use aemlib.Proto.Decode.{decode_connack}
use aemlib.Core.State.{Client, Sys, State}
use aemlib.Core.Valid.{Good}
use aemlib.Core.Machine.{
  core_poll, poll_in, handle_connect_sent, await_connack, handle_header, take_connack, establish,
  drop_connection, consume, connect_refused,
}
use aemlib.Core.Machine.Inbox.{received, consume-received, read_of, receive-appends}

-- The CONNACK with the given acknowledge flags and return code.
abbrev pub connack_packet : ℕ → ℕ → List ℕ
connack_packet flags code = 0x20 ∷ 2 ∷ flags ∷ code ∷ []

decode_header :
    (flags code : ℕ) (rest : List ℕ)
    → decode_fixed_header (connack_packet flags code ++ rest)
      ≡ ok (record { type = 2; flags = 0; remaining_length = 2; header_size = 2 })
unfolding packet digits validate_mqtt_flags
decode_header flags code rest =
    decode_fixed_header-packet 0x20 (flags ∷ code ∷ []) rest refl (omega arith)

decode_body :
    (flags code : ℕ)
    → decode_connack (connack_packet flags code)
      ≡ ok (record { session_present = flags % 2; return_code = code })
unfolding decode_connack
decode_body flags code = refl

module _ {W : Type 0} where
  take-step :
      (s : Sys W) (flags code : ℕ) (c : Client W)
      → slice s.client.rx_buffer 0 4 ≡ some (connack_packet flags code)
      → consume 4 s.client ≡ some c
      → take_connack 4 s ≡ (
          if code == 0
          then establish (record s { client = c })
          else drop_connection connect_refused (record s { client = c }))
  unfolding take_connack
  take-step s flags code c e taken = rw (e, accessing, taken, accessing, decode_body flags code)

  await-step :
      (s : Sys W) (flags code : ℕ) (view rest : List ℕ)
      → 4 ≤ s.client.rx_len
      → 4 ≤ s.client.rx_buffer_size
      → slice s.client.rx_buffer 0 s.client.rx_len ≡ some view
      → view ≡ connack_packet flags code ++ rest
      → await_connack s ≡ take_connack 4 s
  unfolding await_connack handle_header
  await-step s flags code view rest here fits e cut = rw (
    lt→ltb 0 s.client.rx_len (omega arith),
    e,
    accessing,
    ap decode_fixed_header cut ∙ decode_header flags code rest,
    ltb-false s.client.rx_buffer_size 4 fits,
    le→leb 4 s.client.rx_len here,
  )

  -- How a poll ends when a CONNACK with this return code is there.
  abbrev Decides : ℕ → Outcome (Sys W) → List ℕ → Type 0
  Decides code r rest =
      (s' : Sys W) × (r ≡ returned (if code == 0 then status_ok else connect_refused) s')
      × (s'.client.state ≡ (if code == 0 then State.mqtt_connected else State.disconnected))
      × (received s'.client ≡ rest)

  end-step :
      (code : ℕ) (s : Sys W)
      → Decides code
          (if code == 0 then establish s else drop_connection connect_refused s)
          (received s.client)
  unfolding drop_connection
  end-step code s = elim (Bool-cases (code == 0)) [
    | inl accepted ↦ rw accepted (_, refl, refl, refl)
    | inr refused ↦ rw refused (_, refl, refl, refl)
  ]

  -- On a client in the invariant and in the state CONNECT_SENT, when a read is OK and after it the
  -- bytes received are a CONNACK and any others, a poll with the return code 0 returns OK in the
  -- state MQTT_CONNECTED, and with any other code it returns CONNECT in the state DISCONNECTED; the
  -- bytes behind the CONNACK stay.
  pub core_poll-Decides :
      (s : Sys W) (flags code : ℕ) (rest : List ℕ)
      → Good s
      → s.client.state ≡ State.mqtt_connect_sent
      → (read_of s).status ≡ status_ok
      → received s.client ++ take (read_of s).out_len (read_of s).stored
        ≡ connack_packet flags code ++ rest
      → Decides code (core_poll s) rest
  unfolding core_poll poll_in handle_connect_sent
  core_poll-Decides s flags code rest g at fine here =
      let (s1, e, good, appended, _, _) = receive-appends drop_connection await_connack s g fine in
      let view : received s1.client ≡ connack_packet flags code ++ rest = appended ∙ here in
      let size : length (received s1.client) ≡ s1.client.rx_len = omega (
        arith,
        length-take s1.client.rx_len s1.client.rx_buffer,
        good.rx_memory,
        good.received_in,
      ) in
      let there : 4 ≤ s1.client.rx_len = omega (arith, size, ap length view) in
      let (rx, taken, left, _) = consume-received 4 s1 good there in
      let front : take 4 s1.client.rx_buffer ≡ connack_packet flags code =
        sym (take-take 4 s1.client.rx_len s1.client.rx_buffer there) ∙ ap (take 4) view in
      let last : Sys W = record s1 {
        client = record s1.client { rx_buffer = rx; rx_len = s1.client.rx_len - 4 };
      } in
      let whole : core_poll s
          ≡ (if code == 0 then establish last else drop_connection connect_refused last) =
        ap (λ st. poll_in st s) at
        ∙ e
        ∙ await-step s1 flags code (received s1.client) rest there (omega (arith, good.received_in))
            (slice_total s1.client.rx_buffer 0 s1.client.rx_len
              (omega (arith, good.rx_memory, good.received_in)))
            view
        ∙ take-step s1 flags code last.client
            (slice_total s1.client.rx_buffer 0 4 (omega (arith, good.rx_memory, good.received_in))
              ∙ ap some front)
            taken in
      subst (λ r. Decides code r rest) (sym whole)
        (subst (Decides code _) (left ∙ ap (drop 4) view) (end-step code last))
