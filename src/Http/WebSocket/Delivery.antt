-- ===== src/Http/WebSocket/Delivery.antt =====
-- `handleMessage` on a whole frame of a client.
use restful_cweb.Prelude.{ℕ, ◌==◌, if◌then◌else◌}
use restful_cweb.Tcp.ByteBuffer.{ByteBuffer}
use restful_cweb.Http.WebSocket.{WebSocket, MessageType, len16, len64, mask, Turn, again}
use restful_cweb.Http.WebSocket.Reading.{mini, Reading}

-- Where the first two bytes lead.
abbrev first_turn : MessageType → ℕ → WebSocket → ByteBuffer → Turn
first_turn t l ws buf =
    if l == 127
    then again (record ws { header = mini t l; parse_state = len64 }) buf
    else if l == 126
    then again (record ws { header = mini t l; parse_state = len16 }) buf
    else again (record ws { header = mini t l; parse_state = mask; length_needrecv = l }) buf
