-- ===== src/Apdu/Access.antt =====
-- apdu.cpp: `init` and `ToPacket` of the restart and of the messages on access keys.
use bcusdk.Base.{ℕ, Option, List, [], ◌∷◌, length, at, ◌==◌, bit_and}
use bcusdk.Base.Bits.{shr}
use bcusdk.Apdu.{Apdu, restart, authorize_request, authorize_response, key_write, key_response}
use bcusdk.Apdu.Fields.{key_of, taken_if}

unfoldable pub init_restart : List ℕ → Option Apdu
init_restart c = taken_if (length c == 2) restart

unfoldable pub to_packet_restart : List ℕ
to_packet_restart = 0x03 ∷ 0x80 ∷ []

-- The bytes 3 to 6.
abbrev pub read_key : List ℕ → ℕ
read_key c = key_of (at c 3) (at c 4) (at c 5) (at c 6)

abbrev pub key_bytes : ℕ → List ℕ
key_bytes key =
    bit_and (shr key 24) 0xff
    ∷ bit_and (shr key 16) 0xff
    ∷ bit_and (shr key 8) 0xff
    ∷ bit_and key 0xff
    ∷ []

unfoldable pub init_authorize_request : List ℕ → Option Apdu
init_authorize_request c = taken_if (length c == 7) (authorize_request (read_key c))

unfoldable pub to_packet_authorize_request : ℕ → List ℕ
to_packet_authorize_request key = 0x03 ∷ 0xd1 ∷ 0x00 ∷ key_bytes key

unfoldable pub init_authorize_response : List ℕ → Option Apdu
init_authorize_response c = taken_if (length c == 3) (authorize_response (at c 2))

unfoldable pub to_packet_authorize_response : ℕ → List ℕ
to_packet_authorize_response level = 0x03 ∷ 0xd2 ∷ level ∷ []

unfoldable pub init_key_write : List ℕ → Option Apdu
init_key_write c = taken_if (length c == 7) (key_write (at c 2) (read_key c))

unfoldable pub to_packet_key_write : ℕ → ℕ → List ℕ
to_packet_key_write level key = 0x03 ∷ 0xd3 ∷ level ∷ key_bytes key

unfoldable pub init_key_response : List ℕ → Option Apdu
init_key_response c = taken_if (length c == 3) (key_response (at c 2))

unfoldable pub to_packet_key_response : ℕ → List ℕ
to_packet_key_response level = 0x03 ∷ 0xd4 ∷ level ∷ []
