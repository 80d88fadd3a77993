-- ===== src/LongLink/WebSocketPacket/StatusCode.antt =====
-- `WebSocketPacket::StatusCodeInfo` in longlink/websocketpacket.cc: the texts of the status codes of
-- a close frame.
use unixtar.Prelude.{ℕ, List, [], ◌∷◌, Option, none, some, Bytes, codes, ◌==◌, if◌then◌else◌}
use unixtar.LongLink.WebSocketPacket.{WebSocketPacket, status_code}

-- The constants for the codes and for their texts, in the order in which they are compared.
abbrev pub status_code_infos : List (ℕ × Bytes)
status_code_infos =
    (0, codes "Invalid Status Code")
    ∷ (1000, codes "Close Normal")
    ∷ (1001, codes "Close Going Away")
    ∷ (1002, codes "Close Protocol Error")
    ∷ (1003, codes "Close Unsupported")
    ∷ (1005, codes "Close No Status")
    ∷ (1006, codes "Close Abnormal")
    ∷ (1007, codes "Unsupported Data")
    ∷ (1008, codes "Policy Violation")
    ∷ (1009, codes "Close Too Large")
    ∷ (1010, codes "Missing Extension")
    ∷ (1011, codes "Internal Error")
    ∷ (1012, codes "Service Restart")
    ∷ (1013, codes "TryAgain Later")
    ∷ (1015, codes "TlsHand Shake")
    ∷ []

-- The first of the rows with the code; the null pointer when there is none.
unfoldable pub info_of : ℕ → List (ℕ × Bytes) → Option Bytes
info_of code [] = none
info_of code ((c, text) ∷ rows) = if code == c then some text else info_of code rows

unfoldable pub status_code_info : WebSocketPacket → Option Bytes
unfolding info_of status_code
status_code_info p = info_of (status_code p) status_code_infos
