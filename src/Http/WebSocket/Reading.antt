-- ===== src/Http/WebSocket/Reading.antt =====
-- The turns of `handleMessage` behind the first two bytes of a frame.
use Prim.Native.Nat.{bit_and}
use mathlib.Core.Path.{subst}
use restful_cweb.Prelude.{
  ℕ, suc, ◌+◌, ◌*◌, ◌/◌, ◌^◌, ◌<◌, ◌≡◌, refl, sym, ap, ◌∙◌, Bool, true, false, not, ◌&&◌, [], ◌∷◌,
  ◌++◌, Bytes, arith, ltb, ◌==◌, every, every-below, if◌then◌else◌, length, length-append,
}
use restful_cweb.Tcp.ByteBuffer.{
  cheap_prepend, sub_size, ByteBuffer, contents, readable_bytes, read_all, as_int,
}
use restful_cweb.Tcp.ByteBuffer.Queue.{Inv, length-contents}
use restful_cweb.Tcp.ByteBuffer.Reads.{read_all_lem}
use restful_cweb.Tcp.ByteData.{int_to_size}
use restful_cweb.Http.WebSocket.{
  WebSocket, MessageType, text, binary, ParseState, mini_header, mask, payload, delivers,
  from_network, to_network, unmask, unmask_frame, is_fin, opcode, fragment_fin, handle_opcode,
  handle_fragment, finish, process, Turn, again, returns, read_field, take_length, take_mask,
  end_frame, take_payload, turn_at, turn, go_on, loop,
}
use restful_cweb.Http.WebSocket.Header.{room, length-to_network, from_network-to_network}
use restful_cweb.Http.WebSocket.Frame.{
  AreBytes, unmask_twice, length-unmask, payload-Moved, field_read, Delivered, op_of,
  handle_opcode-data, deliver_lem, unmask_frame_lem,
}

-- A final frame by RFC 6455: opcode, mask bit and length, the mask, and the masked bytes.
abbrev pub length_field : ℕ → Bytes
length_field n =
    if ltb n 126
    then (0x80 + n) ∷ []
    else if ltb n 0x10000
    then 0xFE ∷ to_network 2 n
    else 0xFF ∷ to_network 8 n

abbrev pub client_frame : MessageType → Bytes → Bytes → Bytes
client_frame t ms s = (0x80 + op_of t) ∷ (length_field (length s) ++ (ms ++ unmask ms 0 s))

-- The number that the first two bytes are, and its bits.
abbrev pub mini : MessageType → ℕ → ℕ
mini t l = (0x80 + op_of t) * 256 + (0x80 + l)

pub record Bits (t : MessageType) (l h : ℕ) : Type 0 where
  pub masked : (bit_and h 0x80 == 0x80) ≡ true
  pub low : bit_and h 0x7f ≡ l
  pub fin : (bit_and h 0x8000 == 0) ≡ false
  pub op : bit_and h 0x0f00 / 256 ≡ op_of t

abbrev bits_hold : MessageType → ℕ → Bool
bits_hold t l =
    (bit_and (mini t l) 0x80 == 0x80)
    && ((bit_and (mini t l) 0x7f == l)
        && (not (bit_and (mini t l) 0x8000 == 0) && (bit_and (mini t l) 0x0f00 / 256 == op_of t)))

bits_table : (t : MessageType) → every 128 (bits_hold t) ≡ true
unfolding every
bits_table text = refl
bits_table binary = refl

pub mini-Bits : (t : MessageType) (l : ℕ) → l < 128 → Bits t l (mini t l)
mini-Bits t l lt =
    let h = every-below 128 l (bits_hold t) (bits_table t) lt in
    record {
      masked = ground (arith, h);
      low = ground (arith, h);
      fin = ground (arith, h);
      op = ground (arith, h);
    }

-- The header of a final data frame is read, of a message whose first frame it is.
pub record Reading (t : MessageType) (ws : WebSocket) : Type 0 where
  pub fin : is_fin ws ≡ true
  pub op : opcode ws ≡ op_of t
  pub callback : ws.message_callback ≡ true
  pub first : ws.recv_begin_index ≡ 0
  pub sound : Inv ws.data_buffer
  pub front : ws.data_buffer.readindex ≡ cheap_prepend

-- It is read whatever state, length and mask come next.
pub Reading-carry :
    (t : MessageType) (ws : WebSocket) (p : ParseState) (n : ℕ) (ms : Bytes)
    → Reading t ws
    → Reading t (record ws { parse_state = p; length_needrecv = n; masking = ms })
Reading-carry t ws p n ms r = record {
  fin = r.fin;
  op = r.op;
  callback = r.callback;
  first = r.first;
  sound = r.sound;
  front = r.front;
}

end_frame-Delivered :
    (t : MessageType) (ws : WebSocket) (buf : ByteBuffer) (s rest : Bytes)
    → Reading t ws
    → contents ws.data_buffer ≡ unmask ws.masking 0 s
    → AreBytes ws.masking
    → AreBytes s
    → length s < 2 ^ 31
    → Inv buf
    → contents buf ≡ rest
    → Delivered s t rest (end_frame ws buf)
unfolding handle_fragment read_all
end_frame-Delivered t ws buf s rest r same bm bs small v left =
    let read = record ws {
      recv_end_index = as_int (readable_bytes ws.data_buffer);
      parse_state = mini_header;
    } in
    let clear = unmask_frame read in
    let done = record clear { message_type = t } in
    let frag : handle_fragment read
        ≡ (delivers (contents clear.data_buffer) t ∷ [], fragment_fin done) =
      ap (λ o. handle_opcode o clear) r.op
      ∙ handle_opcode-data t clear
      ∙ deliver_lem done r.fin r.callback in
    let last : as_int (readable_bytes ws.data_buffer) ≡ readable_bytes ws.data_buffer = omega (
      arith,
      small,
      length-contents ws.data_buffer r.sound,
      ap length same,
      length-unmask ws.masking 0 s,
    ) in
    let (sound, bytes) = unmask_frame_lem read r.sound r.front r.first last in
    let back : contents clear.data_buffer ≡ s =
      bytes ∙ ap (unmask ws.masking 0) same ∙ unmask_twice ws.masking 0 s bm bs in
    let (w, empty) = read_all_lem clear.data_buffer sound in
    rw (frag, Delivered)
      (
        ap (λ b. if b then finish else process) r.fin,
        ap (λ b. delivers b t ∷ []) back,
        record {
          begins = (refl, refl);
          callback = r.callback;
          sound = w;
          front = refl;
          empty = empty;
        },
        v,
        left,
      )

take_payload-Delivered :
    (t : MessageType) (ws : WebSocket) (buf : ByteBuffer) (s rest : Bytes)
    → Reading t ws
    → contents ws.data_buffer ≡ []
    → ws.length_needrecv ≡ length s
    → AreBytes ws.masking
    → AreBytes s
    → length s < 2 ^ 31
    → Inv buf
    → contents buf ≡ unmask ws.masking 0 s ++ rest
    → Delivered s t rest (take_payload ws buf)
take_payload-Delivered t ws buf s rest r empty n bm bs small v e =
    let l : ws.length_needrecv ≡ length (unmask ws.masking 0 s) =
      n ∙ sym (length-unmask ws.masking 0 s) in
    let (target, c, moved, w, v', at, same, left) =
      payload-Moved buf ws.data_buffer (unmask ws.masking 0 s) rest ws.length_needrecv v r.sound
        r.front empty e l in
    let ask : (if ltb ws.length_needrecv (readable_bytes buf)
          then ws.length_needrecv
          else readable_bytes buf)
        ≡ ws.length_needrecv =
      ground (
        arith,
        l,
        length-contents buf v,
        ap length e,
        length-append (unmask ws.masking 0 s) rest,
      ) in
    let all : sub_size ws.length_needrecv (int_to_size (as_int ws.length_needrecv)) ≡ 0 =
      ground (arith, n, small) in
    let moving = record ws { data_buffer = target; length_needrecv = 0 } in
    let reading : Reading t moving = record {
      fin = r.fin;
      op = r.op;
      callback = r.callback;
      first = r.first;
      sound = w;
      front = at;
    } in
    rw ask (
      rw moved (
        rw (all, Delivered)
          (end_frame-Delivered t moving c s rest reading same bm bs small v' left)))

-- A turn that goes on, and one that returns.
pub loop-again :
    (f : ℕ) (p : ParseState) (ws next : WebSocket) (buf rest : ByteBuffer)
    → ws.parse_state ≡ p
    → turn_at p ws buf ≡ again next rest
    → loop (suc f) ws buf ≡ loop f next rest
unfolding loop turn
loop-again f p ws next buf rest at e =
    ap (λ q. go_on (loop f) (turn_at q ws buf)) at ∙ ap (go_on (loop f)) e

go_on-Delivered :
    (s : Bytes) (t : MessageType) (rest : Bytes) (k : WebSocket → ByteBuffer → Turn) (r : Turn)
    → Delivered s t rest r
    → Delivered s t rest (go_on k r)
go_on-Delivered s t rest k (again next buf) d = absurd d
go_on-Delivered s t rest k (returns st effects after buf) d = d

module _ (t : MessageType) (ms s rest : Bytes) (four : length ms ≡ 4) (bm : AreBytes ms)
    (bs : AreBytes s) (small : length s < 2 ^ 31) where
  pub from_payload :
      (f : ℕ) (ws : WebSocket) (buf : ByteBuffer)
      → Reading t ws
      → contents ws.data_buffer ≡ []
      → ws.parse_state ≡ payload
      → ws.masking ≡ ms
      → ws.length_needrecv ≡ length s
      → Inv buf
      → contents buf ≡ unmask ms 0 s ++ rest
      → Delivered s t rest (loop (suc f) ws buf)
  unfolding loop turn
  from_payload f ws buf r empty at m n v e =
      go_on-Delivered s t rest (loop f) (turn_at ws.parse_state ws buf) (
        subst (λ q. Delivered s t rest (turn_at q ws buf)) (sym at)
          (take_payload-Delivered t ws buf s rest r empty n (subst AreBytes (sym m) bm) bs small v
            (e ∙ ap (λ x. unmask x 0 s ++ rest) (sym m))))

  pub from_mask :
      (f : ℕ) (ws : WebSocket) (buf : ByteBuffer)
      → Reading t ws
      → contents ws.data_buffer ≡ []
      → ws.parse_state ≡ mask
      → ws.length_needrecv ≡ length s
      → Inv buf
      → contents buf ≡ ms ++ (unmask ms 0 s ++ rest)
      → Delivered s t rest (loop (suc (suc f)) ws buf)
  from_mask f ws buf r empty at n v e =
      let (c, read, w, left) =
        field_read 4 ws buf (take_mask ws) ms (unmask ms 0 s ++ rest) v e (sym four) (omega arith)
          (omega arith) in
      let next = record ws { parse_state = payload; masking = ms } in
      let r' = Reading-carry t ws payload ws.length_needrecv ms r in
      rw (loop-again (suc f) mask ws next buf c at read)
        (from_payload f next c r' empty refl refl n w left)

  pub from_length :
      (f k : ℕ) (p : ParseState) (ws : WebSocket) (buf : ByteBuffer)
      → Reading t ws
      → contents ws.data_buffer ≡ []
      → ws.parse_state ≡ p
      → turn_at p ws buf ≡ read_field k ws buf (take_length ws)
      → 0 < k
      → k < 2 ^ 31
      → length s < room k
      → Inv buf
      → contents buf ≡ to_network k (length s) ++ (ms ++ (unmask ms 0 s ++ rest))
      → Delivered s t rest (loop (suc (suc (suc f))) ws buf)
  from_length f k p ws buf r empty at step pos fits bound v e =
      let (c, read, w, left) =
        field_read k ws buf (take_length ws) (to_network k (length s))
          (ms ++ (unmask ms 0 s ++ rest)) v e (sym (length-to_network k (length s))) pos fits in
      let next = record ws {
        parse_state = mask;
        length_needrecv = from_network 0 (to_network k (length s));
      } in
      let r' = Reading-carry t ws mask (from_network 0 (to_network k (length s))) ws.masking r in
      rw (loop-again (suc (suc f)) p ws next buf c at (step ∙ read))
        (from_mask f next c r' empty refl (from_network-to_network k (length s) bound) w left)
