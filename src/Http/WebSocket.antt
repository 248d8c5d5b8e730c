-- ===== src/Http/WebSocket.antt =====
-- `WebSocket` of src/httpserver/websocket.h and src/httpserver/websocket.cc. What it does to the
-- connection and to the application is a list of effects. The indices `recv_begin_index_` and
-- `recv_end_index` are `int`s that count bytes of a message.
pub mod Loop
pub mod Header
pub mod Frame
pub mod Reading
pub mod Delivery
use Prim.Native.Nat.{bit_and, bit_xor}
use restful_cweb.Prelude.{
  ℕ, zero, suc, ◌+◌, ◌-◌, ◌*◌, ◌/◌, ◌%◌, ◌^◌, Bool, true, false, not, ◌&&◌, List, [], ◌∷◌, ◌++◌,
  Bytes, ltb, leb, ◌==◌, if◌then◌else◌, length, blit, slice,
}
use restful_cweb.Tcp.ByteBuffer.{
  cheap_prepend, sub_size, ByteBuffer, readable_bytes, contents, read_some, read_to_buffer,
  read_all, as_int,
}
use restful_cweb.Tcp.ByteData.{int_to_size}

pub data MessageType : Type 0 where
  text binary : MessageType

pub data ParseState : Type 0 where
  mini_header len16 len64 mask payload : ParseState

-- `header` is `mini_header_`; a callback is set or it is not.
pub record WebSocket : Type 0 where
  pub parse_state : ParseState
  pub header : ℕ
  pub length_needrecv : ℕ
  pub masking : Bytes
  pub data_buffer : ByteBuffer
  pub recv_begin_index : ℕ
  pub recv_end_index : ℕ
  pub message_type : MessageType
  pub recv_close : Bool
  pub sent_close : Bool
  pub message_callback : Bool
  pub close_callback : Bool

-- The message callback, a send, `ForceClose` and the close callback.
pub data Effect : Type 0 where
  delivers : Bytes → MessageType → Effect
  sends : Bytes → Effect
  force_closes : Effect
  closes : Effect

-- Numbers in network order.
unfoldable pub from_network : ℕ → Bytes → ℕ
from_network n [] = n
from_network n (b ∷ bs) = from_network (n * 256 + b) bs

unfoldable pub to_network : ℕ → ℕ → Bytes
to_network zero n = []
to_network (suc k) n = to_network k (n / 256) ++ n % 256 ∷ []

-- `buildHeader`.
unfoldable pub build_header : ℕ → ℕ → Bytes
build_header op size =
    if ltb size 126
    then (0x80 + op) % 256 ∷ size ∷ []
    else if ltb size 0x10000
    then (0x80 + op) % 256 ∷ 126 ∷ to_network 2 size
    else (0x80 + op) % 256 ∷ 127 ∷ to_network 8 size

abbrev pub is_fin : WebSocket → Bool
is_fin ws = not (bit_and ws.header 0x8000 == 0)

abbrev pub opcode : WebSocket → ℕ
opcode ws = bit_and ws.header 0x0f00 / 256

abbrev pub fragment_fin : WebSocket → WebSocket
fragment_fin ws = record ws {
  data_buffer = read_all ws.data_buffer;
  recv_begin_index = 0;
  recv_end_index = 0;
}

-- The byte of the mask for the `k`th byte of a frame.
abbrev pub mask_byte : Bytes → ℕ → ℕ
mask_byte [] k = 0
mask_byte (m ∷ ms) zero = m
mask_byte (m ∷ ms) (suc k) = mask_byte ms k

-- The loop of `handleFragment` over the bytes from the `k`th on.
unfoldable pub unmask : Bytes → ℕ → Bytes → Bytes
unmask ms k [] = []
unmask ms k (b ∷ bs) = bit_xor b (mask_byte ms (k % 4)) ∷ unmask ms (k + 1) bs

abbrev pub unmask_frame : WebSocket → WebSocket
unmask_frame ws =
    let from = cheap_prepend + ws.recv_begin_index in
    let frame = slice ws.data_buffer.buffer from (cheap_prepend + ws.recv_end_index) in
    record ws {
      data_buffer = record ws.data_buffer {
        buffer = blit ws.data_buffer.buffer from (unmask ws.masking 0 frame);
      };
      recv_begin_index = ws.recv_end_index;
    }

-- The end of a data frame.
abbrev pub deliver : WebSocket → List Effect × WebSocket
deliver ws =
    if is_fin ws && ws.message_callback
    then (delivers (contents ws.data_buffer) ws.message_type ∷ [], fragment_fin ws)
    else ([], ws)

-- `Close`, with the bytes of the reason.
unfoldable pub close : Bytes → WebSocket → List Effect × WebSocket
unfolding build_header
close reason ws = (
  sends (build_header 0x8 (length reason) ++ reason)
      ∷ (if ws.recv_close then force_closes ∷ [] else []),
  record ws { sent_close = true },
)

abbrev pub pong : Bytes
pong = 0x8A ∷ 0x00 ∷ []

abbrev pub handle_close_frame : WebSocket → List Effect × WebSocket
handle_close_frame ws =
    if not ws.sent_close
    then close [] ws
    else if ws.close_callback
    then (closes ∷ force_closes ∷ [], ws)
    else ([], ws)

abbrev pub handle_opcode : ℕ → WebSocket → List Effect × WebSocket
handle_opcode op ws =
    if op == 0
    then deliver ws
    else if op == 1
    then deliver (record ws { message_type = text })
    else if op == 2
    then deliver (record ws { message_type = binary })
    else if op == 0x8
    then handle_close_frame (record ws { recv_close = true })
    else if op == 0x9
    then (sends pong ∷ [], fragment_fin ws)
    else (force_closes ∷ [], ws)

unfoldable pub handle_fragment : WebSocket → List Effect × WebSocket
handle_fragment ws = handle_opcode (opcode ws) (unmask_frame ws)

pub data MessageState : Type 0 where
  process finish bad : MessageState

-- A turn of the loop in `handleMessage` goes on or returns.
pub data Turn : Type 0 where
  again : WebSocket → ByteBuffer → Turn
  returns : MessageState → List Effect → WebSocket → ByteBuffer → Turn

-- A state in which a number of `len` bytes is read.
abbrev pub read_field : ℕ → WebSocket → ByteBuffer → (Bytes → ByteBuffer → Turn) → Turn
read_field len ws buf k =
    let (n, bytes, rest) = read_some buf len in
    if ltb 0 n then k bytes rest else returns process [] ws buf

abbrev pub take_mini_header : WebSocket → Bytes → ByteBuffer → Turn
take_mini_header ws bytes rest =
    let h = from_network 0 bytes in
    let read = record ws { header = h } in
    if bit_and h 0x80 == 0x80
    then (if bit_and h 0x7f == 127
        then again (record read { parse_state = len64 }) rest
        else if bit_and h 0x7f == 126
        then again (record read { parse_state = len16 }) rest
        else again (record read { parse_state = mask; length_needrecv = bit_and h 0x7f }) rest)
    else returns bad (force_closes ∷ []) read rest

abbrev pub take_length : WebSocket → Bytes → ByteBuffer → Turn
take_length ws bytes rest =
    again (record ws { parse_state = mask; length_needrecv = from_network 0 bytes }) rest

abbrev pub take_mask : WebSocket → Bytes → ByteBuffer → Turn
take_mask ws bytes rest = again (record ws { parse_state = payload; masking = bytes }) rest

-- The end of a frame.
abbrev pub end_frame : WebSocket → ByteBuffer → Turn
end_frame ws rest =
    let (effects, after) = handle_fragment (record ws {
      recv_end_index = as_int (readable_bytes ws.data_buffer);
      parse_state = mini_header;
    }) in
    returns (if is_fin after then finish else process) effects after rest

abbrev pub take_payload : WebSocket → ByteBuffer → Turn
take_payload ws buf =
    let ask =
      if ltb ws.length_needrecv (readable_bytes buf)
      then ws.length_needrecv
      else readable_bytes buf in
    let (n, target, rest) = read_to_buffer buf ws.data_buffer ask in
    let left = sub_size ws.length_needrecv (int_to_size n) in
    let read = record ws { data_buffer = target; length_needrecv = left } in
    if left == 0 then end_frame read rest else returns process [] read rest

abbrev pub turn_at : ParseState → WebSocket → ByteBuffer → Turn
turn_at mini_header ws buf = read_field 2 ws buf (take_mini_header ws)
turn_at len16 ws buf = read_field 2 ws buf (take_length ws)
turn_at len64 ws buf = read_field 8 ws buf (take_length ws)
turn_at mask ws buf = read_field 4 ws buf (take_mask ws)
turn_at payload ws buf = take_payload ws buf

unfoldable pub turn : WebSocket → ByteBuffer → Turn
turn ws buf = turn_at ws.parse_state ws buf

abbrev pub go_on : (WebSocket → ByteBuffer → Turn) → Turn → Turn
go_on k (again next rest) = k next rest
go_on k (returns s effects after rest) = returns s effects after rest

-- The loop; `again` is what is left where the fuel does not last.
unfoldable pub loop : ℕ → WebSocket → ByteBuffer → Turn
loop zero ws buf = again ws buf
loop (suc f) ws buf = go_on (loop f) (turn ws buf)

unfoldable pub handle_message : WebSocket → ByteBuffer → Turn
handle_message ws buf = loop 4 ws buf
