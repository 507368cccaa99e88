-- ===== src/Telnet/Tests.antt =====
-- Runs of `consume_telnet_bytes` on small inputs, and the theorems at concrete streams.
use mathlib.Core.List.{flatten}
use device_cli_tool.Base.{◌≡◌, refl, [], ◌∷◌, List, ◌++◌, arith}
use device_cli_tool.Telnet.Protocol.{
  Bytes, iac, do_it, will, wont, dont, sb, se, consume_telnet_bytes, receive_all,
}
use device_cli_tool.Telnet.Protocol.Chunks.{after, receive_all-flatten}
use device_cli_tool.Telnet.Protocol.Refusals.{Refusals, consume-Refusals}
use device_cli_tool.Telnet.Protocol.Streams.{
  Item, shown, escaped_iac, asks_do, asks_will, says_wont, subnegotiation, stream_bytes,
  stream_text, stream_answers, consume-stream, consume-escaped_end,
}

negotiation_run :
    consume_telnet_bytes (b'h' ∷ iac ∷ do_it ∷ 1 ∷ iac ∷ will ∷ 3 ∷ b'i' ∷ iac ∷ iac ∷ iac ∷ [])
    ≡ (b'h' ∷ b'i' ∷ iac ∷ [], iac ∷ wont ∷ 1 ∷ iac ∷ dont ∷ 3 ∷ [], iac ∷ [])
unfolding consume_telnet_bytes
negotiation_run = refl

abbrev packets : List Bytes
packets = (b'h' ∷ iac ∷ []) ∷ (do_it ∷ []) ∷ (1 ∷ b'i' ∷ iac ∷ []) ∷ []

receive_all-flatten_example : receive_all [] packets ≡ consume_telnet_bytes (flatten packets)
receive_all-flatten_example = receive_all-flatten packets

consume-Refusals_example : Refusals (consume_telnet_bytes (iac ∷ do_it ∷ 1 ∷ iac ∷ [])).1
consume-Refusals_example = consume-Refusals (iac ∷ do_it ∷ 1 ∷ iac ∷ [])

abbrev greeting : List Item
greeting =
    asks_do 24
    ∷ asks_will 3
    ∷ says_wont 1
    ∷ subnegotiation (24 ∷ 1 ∷ [])
    ∷ shown b'>'
    ∷ escaped_iac
    ∷ []

consume-stream_example :
    consume_telnet_bytes (stream_bytes greeting ++ (iac ∷ []))
    ≡ after (stream_text greeting) (stream_answers greeting) (consume_telnet_bytes (iac ∷ []))
consume-stream_example = consume-stream greeting (iac ∷ []) (omega arith)

consume-escaped_end_example :
    consume_telnet_bytes (iac ∷ sb ∷ 24 ∷ iac ∷ iac ∷ se ∷ b'x' ∷ iac ∷ se ∷ [])
    ≡ (b'x' ∷ [], [], [])
consume-escaped_end_example = consume-escaped_end (24 ∷ []) (b'x' ∷ []) (omega arith) (omega arith)
