-- ===== src/Tests/Frames.antt =====
-- Tests of the model of src/httpserver/websocket.cc.
use restful_cweb.Prelude.{◌≡◌, refl, true, false, [], ◌∷◌, ◌++◌, Bytes, codes, some, arith}
use restful_cweb.Tcp.ByteBuffer.{ByteBuffer, new_buffer, append}
use restful_cweb.Http.WebSocket.{
  WebSocket, text, binary, mini_header, build_header, to_network, handle_message,
}
use restful_cweb.Http.WebSocket.Loop.{IsReturned, handle_message-IsReturned}
use restful_cweb.Http.WebSocket.Header.{read_header, read_header-build_header}
use restful_cweb.Http.WebSocket.Reading.{client_frame}

long_header : build_header 2 300 ≡ 0x82 ∷ 126 ∷ 1 ∷ 44 ∷ []
unfolding build_header to_network
long_header = refl

read_header-build_header_example :
    read_header (build_header 2 70000 ++ codes "body") ≡ some (2, 70000, codes "body")
read_header-build_header_example =
    read_header-build_header 2 70000 (codes "body") (omega arith) (omega arith)

abbrev socket : WebSocket
socket = record {
  parse_state = mini_header;
  header = 0;
  length_needrecv = 0;
  masking = [];
  data_buffer = new_buffer 0;
  recv_begin_index = 0;
  recv_end_index = 0;
  message_type = binary;
  recv_close = false;
  sent_close = false;
  message_callback = true;
  close_callback = false;
}

-- A masked frame, and the first byte of the next one.
abbrev mask : Bytes
mask = 1 ∷ 2 ∷ 3 ∷ 4 ∷ []

abbrev wire : Bytes
wire = client_frame text mask (codes "hello") ++ 0x81 ∷ []

abbrev input : ByteBuffer
input = append (new_buffer 0) wire

handle_message-IsReturned_example : IsReturned (handle_message socket input)
handle_message-IsReturned_example = handle_message-IsReturned socket input
