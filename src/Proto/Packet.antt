-- ===== src/Proto/Packet.antt =====
-- proto/proto.h: packet types, the fixed header and the constants of the wire format.
use aemlib.Base.{ℕ, ◌^◌}

-- aemlib_mqtt_packet_type_t. A decoded type is whatever four bits the peer sent, so it is a number.
abbrev pub pkt_connect : ℕ
pkt_connect = 1

abbrev pub pkt_connack : ℕ
pkt_connack = 2

abbrev pub pkt_publish : ℕ
pkt_publish = 3

abbrev pub pkt_puback : ℕ
pkt_puback = 4

abbrev pub pkt_subscribe : ℕ
pkt_subscribe = 8

abbrev pub pkt_suback : ℕ
pkt_suback = 9

abbrev pub pkt_pingreq : ℕ
pkt_pingreq = 12

abbrev pub pkt_pingresp : ℕ
pkt_pingresp = 13

abbrev pub pkt_disconnect : ℕ
pkt_disconnect = 14

-- aemlib_mqtt_fixed_header_t
pub record FixedHeader : Type 0 where
  pub type : ℕ
  pub flags : ℕ
  pub remaining_length : ℕ
  pub header_size : ℕ

-- AEMLIB_MQTT_REMAINING_LENGTH_MAX_BYTES
abbrev pub max_length_bytes : ℕ
max_length_bytes = 4

-- AEMLIB_MQTT_MAX_REMAINING_LENGTH_MULTIPLIER
abbrev pub max_multiplier : ℕ
max_multiplier = 128 ^ 3

-- AEMLIB_MQTT_UTF8_LENGTH_PREFIX_SIZE
abbrev pub prefix_size : ℕ
prefix_size = 2

-- AEMLIB_MQTT_PROTOCOL_LEVEL and AEMLIB_MQTT_CONNECT_CLEAN_SESSION
abbrev pub protocol_level : ℕ
protocol_level = 4

abbrev pub clean_session : ℕ
clean_session = 0x02

-- AEMLIB_MQTT_SUBSCRIBE_FLAGS and AEMLIB_MQTT_SUBSCRIBE_PAYLOAD_QOS
abbrev pub subscribe_flags : ℕ
subscribe_flags = 0x02

abbrev pub subscribe_qos : ℕ
subscribe_qos = 0
