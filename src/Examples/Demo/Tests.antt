-- ===== src/Examples/Demo/Tests.antt =====
-- examples/pubsub_demo.c, run from cleared memory.
use aemlib.Base.{◌≡◌, refl, replicate, false}
use aemlib.Examples.Broker.{Broker, done}
use aemlib.Base.Memory.{memcpy, slice, memmove}
use aemlib.Client.Api.{
  init, publish, subscribe, poll, poll_io, keep_alive, send_connect_once, disconnect, connect,
}
use aemlib.Client.Io.{
  stage, client_send, unstage, client_flush_pending, deliver, client_dispatch_packet, handle_packet,
  process_packets, client_read, send_encoded, client_send_connect, client_send_ping,
}
use aemlib.Core.Config.{core_init, validate_config, init_with, apply_config}
use aemlib.Core.Machine.{
  connect_in, core_connect, disconnect_in, core_disconnect, next_packet_id, drop_connection,
  handle_connecting, receive, consume, check_timeout, take_connack, handle_header, await_connack,
  handle_connect_sent, poll_in, core_poll,
}
use aemlib.Examples.Broker.{
  read_text, same_bytes, remember, shift, on_subscribe, echo, process_packet, on_header,
  broker_loop, broker_tick,
}
use aemlib.Examples.Demo.{
  config, client_transport, broker_transport, subscribe_once, publish_once, tick_broker, finish,
  main_loop, main,
}
use aemlib.Platform.Time.{time_validate}
use aemlib.Platform.Transport.{transport_validate}
use aemlib.Platform.Virtual.{
  channel_init, write_loop, read_loop, channel_write, channel_read, pair_init, vt_connect,
  vt_disconnect, vt_read, vt_write,
}
use aemlib.Platform.Virtual.Bind.{vt_bind}
use aemlib.Proto.Cursor.{append_byte, reserve_space, write_utf8, append_uint16_be, append_bytes}
use aemlib.Proto.Decode.{decode_connack, decode_publish}
use aemlib.Proto.Encode.{
  encode_connect, finish_packet, place_packet, encode_subscribe, encode_publish,
}
use aemlib.Proto.Header.{decode_fixed_header}
use aemlib.Proto.RemainingLength.{encode_remaining_length, decode_remaining_length}

abbrev broker : Broker
broker = record {
  topic = replicate 128 0;
  topic_len = 0;
  subscribed = false;
  buf = replicate 256 0;
  buf_len = 0;
}

-- The program connects, subscribes, publishes, and is sent its message back.
main_test :
    main (replicate 512 0) (replicate 512 0) (replicate 256 0) (replicate 256 0) broker ≡ done 0
unfolding memcpy slice memmove init publish subscribe poll poll_io keep_alive send_connect_once
    disconnect connect stage client_send unstage client_flush_pending deliver client_dispatch_packet
    handle_packet process_packets client_read send_encoded client_send_connect client_send_ping
    core_init validate_config init_with apply_config connect_in core_connect disconnect_in
    core_disconnect next_packet_id drop_connection handle_connecting receive consume check_timeout
    take_connack handle_header await_connack handle_connect_sent poll_in core_poll read_text
    same_bytes remember shift on_subscribe echo process_packet on_header broker_loop broker_tick
    config client_transport broker_transport subscribe_once publish_once tick_broker finish
    main_loop main time_validate transport_validate channel_init write_loop read_loop channel_write
    channel_read pair_init vt_connect vt_disconnect vt_read vt_write vt_bind append_byte
    reserve_space write_utf8 append_uint16_be append_bytes decode_connack decode_publish
    encode_connect finish_packet place_packet encode_subscribe encode_publish decode_fixed_header
    encode_remaining_length decode_remaining_length
main_test = refl
