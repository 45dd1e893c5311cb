-- ===== src/Lib.antt =====
-- Verification of AA2ACP, the bridge from Android Auto to wireless CarPlay.
--
-- The program has an iAP2 side (src/iap2), an AirPlay side (src/airplay), an Android Auto side
-- (src/aa) and the bridge proper (src/bridge). Over Bluetooth the head unit speaks iAP2: bytes go
-- through a link (class PhoneLink), whose control session carries messages (csm::Decoder finds them).
-- BootstrapSession answers them and checks the accessory's signature, then CarPlayProbe arranges the
-- handover to Wi-Fi. The AirPlay side pairs with the head unit (RTSP messages with TLV8 fields), then
-- speaks through ControlCipher and sets its streams up with binary property lists. The bridge queues the phone's video and audio frames for the CarPlay worker, which
-- sends frames back over sockets of its own, keeps its settings in a configuration file
-- and serves pages to change them.
--
-- Which file models which part:
--
--   Iap2/Frame.antt   src/iap2/link_layer.cpp: checksum, LSP payload, header
--   Iap2/Link.antt    src/iap2/link_layer.cpp: PhoneLink. State.antt has its members, Output.antt
--                     start, tick, send_control and what they send, Input.antt receive,
--                     process_packets and handle_packet
--   Iap2/Csm.antt     src/iap2/csm.cpp: message codec, parameter search, signature check, Decoder
--   Iap2/Bootstrap.antt
--                     src/iap2/bootstrap.cpp: BootstrapSession
--   Iap2/Probe.antt   src/iap2/carplay_probe.cpp: CarPlayProbe
--   Bridge/Media.antt src/bridge/media_forwarders.cpp: the queues of MediaSocketForwarder,
--                     VideoSocketForwarder and AudioSocketForwarder
--   Bridge/Ipc.antt   src/bridge/carplay_ipc.cpp: send_all, receive_all, the receiver's loop, the
--                     queue of FrameSocketWriter and what write sends for a frame
--   Bridge/Config.antt
--                     src/bridge/config.cpp: the configuration file
--   AirPlay/Tlv8.antt src/airplay/rtsp.cpp: encode_tlv8, decode_tlv8
--   AirPlay/ControlCipher.antt
--                     src/airplay/control_cipher.cpp: ControlCipher
--   AirPlay/Rtsp.antt src/airplay/rtsp.cpp: encode_request, complete_response_size, parse_response
--   AirPlay/Plist.antt
--                     src/airplay/bplist.cpp: the values; Encoder.antt encode_bplist, Decoder.antt
--                     decode_bplist
--   AirPlay/PairingStore.antt
--                     src/airplay/pairing_store.cpp: the format of the stored pairing
--   AirPlay/Capabilities.antt
--                     src/airplay/head_unit_capabilities.cpp: head_unit_capabilities
--   AirPlay/AccessUnits.antt
--                     src/airplay/session.cpp: first_mb_in_slice, h264_access_units, avcc_config
--   Bridge/Management.antt
--                     src/bridge/management_ui.cpp: html_escape, url_decode, form_field,
--                     frame_http_request, valid_hotspot_passphrase; src/bridge_daemon_main.cpp:
--                     next_management_hotspot_ssid
--   Base.antt         names and helpers that all parts share; Base/Texts.antt and Base/Headers.antt have the
--                     functions on texts and the lines of a header
--
-- Bytes are natural numbers, byte strings are lists of them, and the wrap of uint8_t and uint16_t
-- arithmetic is written out. Time points are milliseconds.
--
-- The callbacks of PhoneLink are an environment: a transport that answers each frame by all that
-- happened before, and an owner that may call send_control while control_data_ runs. The model's
-- field trace records the calls of these callbacks; it is no member of the class. The loop of
-- process_packets runs on fuel, one more than the bytes in the buffer, since every round that goes on
-- erases a byte at least.
--
-- BootstrapSession and CarPlayProbe run over any link that answers send_control, and any OpenSSL: a
-- record of the functions the code calls. Random challenges come from a numbered source. The loops of
-- csm::Decoder, of the parameter search, of the receive functions, of nalus and of decode_tlv8 run on
-- fuel, one more than the bytes they look at; every round takes a byte at least. The loops over a socket
-- run over a list of rounds, each what poll, recv or send answered, a stop or the deadline; the receiver
-- of frames has a pass for each of them.
--
-- The media queues are modelled section by section under the mutex; Bridge.Media.Video.Reach is any
-- order of such sections of the producer, the forwarding thread and clients that connect. What poll,
-- send and write answer is an argument. size_t has 64 bits.
--
-- ControlCipher runs over any AEAD; its theorems suppose one that opens what it sealed and adds a tag of
-- 16 bytes, as ChaCha20-Poly1305 does. The map of decode_tlv8 is a list of entries.
--
-- The decoder of property lists recurses on the depths left, 65 at the root, and its two counters are
-- state that is passed on. A double is its bit pattern. The loops over the lines of a header run on fuel,
-- one more than the position of the header's end, and every round takes two bytes at least; texts are
-- those of the "C" locale.
--
-- Not modelled: log lines (but for the flag that limits the hex dump), sockets, D-Bus, OpenSSL, FFmpeg,
-- AASDK and the parts of the program that mostly call them, and also the rest of the AirPlay session, the
-- file of the capabilities, the text of the management pages and the main loops of the programs.
pub mod AirPlay
pub mod Base
pub mod Bridge
pub mod Iap2
