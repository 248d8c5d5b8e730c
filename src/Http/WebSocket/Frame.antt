-- ===== src/Http/WebSocket/Frame.antt =====
-- A whole frame that a client sends is delivered.
use Prim.Native.Nat.{bit_xor}
use restful_cweb.Prelude.{
  ℕ, zero, suc, ◌+◌, ◌%◌, ◌^◌, ◌≤◌, ◌<◌, ◌≡◌, refl, sym, ap, ◌∙◌, inl, inr, true, ◌&&◌, [], ◌∷◌,
  ◌++◌, Bytes, arith, ltb, leb, ◌==◌, ==_iff, every, every-below, ◌||◌, ◌-◌, if◌then◌else◌, take,
  drop, Bool-cases, length, take-length, drop-length, length-append, slice, slice-blit,
  length-slice, length-blit, slice_empty,
}
use restful_cweb.Tcp.ByteBuffer.{
  cheap_prepend, ByteBuffer, contents, readable_bytes, append, extend_space, read_to_buffer, as_int,
}
use restful_cweb.Tcp.ByteBuffer.Queue.{Inv, readable_lem}
use restful_cweb.Tcp.ByteBuffer.Reads.{read_some_lem, read_to_buffer_lem, read_to_buffer_refuses}
use restful_cweb.Http.WebSocket.{
  WebSocket, MessageType, text, binary, mini_header, delivers, mask_byte, unmask, unmask_frame,
  is_fin, deliver, fragment_fin, handle_opcode, finish, Turn, again, returns, read_field,
}

xor_twice : (b m : ℕ) → b < 256 → m < 256 → bit_xor (bit_xor b m) m ≡ b
unfolding every
xor_twice b m p q = (==_iff _ _).0 (
    every-below 256 m (λ y. bit_xor (bit_xor b y) y == b)
      (every-below 256 b (λ x. every 256 (λ y. bit_xor (bit_xor x y) y == x)) refl p) q)

abbrev pub AreBytes : Bytes → Type 0
AreBytes [] = Unit {0}
AreBytes (c ∷ s) = (c < 256) × AreBytes s

mask_byte-small : (ms : Bytes) (k : ℕ) → AreBytes ms → mask_byte ms k < 256
mask_byte-small [] k h = omega arith
mask_byte-small (m ∷ ms) zero h = h.0
mask_byte-small (m ∷ ms) (suc k) h = mask_byte-small ms k h.1

-- Unmasking is its own inverse.
pub unmask_twice :
    (ms : Bytes) (k : ℕ) (s : Bytes) → AreBytes ms → AreBytes s → unmask ms k (unmask ms k s) ≡ s
unfolding unmask
unmask_twice ms k [] h b = refl
unmask_twice ms k (c ∷ s) h b =
    rw
      (
        xor_twice c (mask_byte ms (k % 4)) b.0 (mask_byte-small ms (k % 4) h),
        unmask_twice ms (k + 1) s h b.1,
      )
      refl

pub length-unmask : (ms : Bytes) (k : ℕ) (s : Bytes) → length (unmask ms k s) ≡ length s
unfolding unmask
length-unmask ms k [] = refl
length-unmask ms k (c ∷ s) = ap suc (length-unmask ms (k + 1) s)

append-readindex :
    (b : ByteBuffer) (s : Bytes)
    → b.readindex ≡ cheap_prepend
    → (append b s).readindex ≡ cheap_prepend
unfolding append extend_space
append-readindex b s e = ground arith

-- The whole payload goes from the connection's buffer to that of the message.
abbrev pub Moved : ByteBuffer → ByteBuffer → ℕ → Bytes → Bytes → Type 0
Moved buf b n s rest =
    (t c : ByteBuffer) × (read_to_buffer buf b n ≡ (as_int n, t, c))
    × Inv t
    × Inv c
    × (t.readindex ≡ cheap_prepend)
    × (contents t ≡ s)
    × (contents c ≡ rest)

read_to_buffer-readindex :
    (buf b : ByteBuffer) (n : ℕ)
    → b.readindex ≡ cheap_prepend
    → (read_to_buffer buf b n).1.readindex ≡ cheap_prepend
unfolding read_to_buffer
read_to_buffer-readindex buf b n e = elim (Bool-cases (leb n 0 || ltb (readable_bytes buf) n)) [
  | inl refuse ↦ rw refuse e
  | inr accept ↦ rw accept (append-readindex b (take n (drop buf.readindex buf.buffer)) e)
]

pub payload-Moved :
    (buf b : ByteBuffer) (s rest : Bytes) (n : ℕ)
    → Inv buf
    → Inv b
    → b.readindex ≡ cheap_prepend
    → contents b ≡ []
    → contents buf ≡ s ++ rest
    → n ≡ length s
    → Moved buf b n s rest
payload-Moved buf b [] rest n v w at empty e l =
    let none_left : 0 ≡ as_int n = omega (arith, l) in
    (
      b,
      buf,
      read_to_buffer_refuses buf v b n (inl l) ∙ ap (λ i. (i, b, buf)) none_left,
      w,
      v,
      at,
      empty,
      e,
    )
payload-Moved buf b (x ∷ s) rest n v w at empty e l =
    let enough : n ≤ length (contents buf) =
      omega (arith, l, ap length e, length-append (x ∷ s) rest) in
    let (t, c, moved, w', v', here, left) =
      read_to_buffer_lem buf v b n w (omega (arith, l)) enough in
    (
      t,
      c,
      moved,
      w',
      v',
      sym (ap (λ r. r.1.readindex) moved) ∙ read_to_buffer-readindex buf b n at,
      here ∙ rw (empty, e) (take-length (x ∷ s) rest n l),
      left ∙ rw e (drop-length (x ∷ s) rest n l),
    )

-- A field of the header.
pub field_read :
    (len : ℕ) (ws : WebSocket) (buf : ByteBuffer) (k : Bytes → ByteBuffer → Turn) (s rest : Bytes)
    → Inv buf
    → contents buf ≡ s ++ rest
    → len ≡ length s
    → 0 < len
    → len < 2 ^ 31
    → (c : ByteBuffer) × (read_field len ws buf k ≡ k s c) × Inv c × (contents c ≡ rest)
field_read len ws buf k s rest v e l pos small =
    let enough : len ≤ length (contents buf) =
      omega (arith, l, ap length e, length-append s rest) in
    let (c, read, w, left) = read_some_lem buf v len pos enough in
    let some_read : ltb 0 (as_int len) ≡ true = ground (arith, pos, small) in
    let bytes : take len (contents buf) ≡ s = rw e (take-length s rest len l) in
    (c, rw read (rw some_read (rw bytes refl)), w, left ∙ rw e (drop-length s rest len l))

-- Between two messages.
pub record IsReady (ws : WebSocket) : Type 0 where
  pub begins : (ws.parse_state ≡ mini_header) × (ws.recv_begin_index ≡ 0)
  pub callback : ws.message_callback ≡ true
  pub sound : Inv ws.data_buffer
  pub front : ws.data_buffer.readindex ≡ cheap_prepend
  pub empty : contents ws.data_buffer ≡ []

-- A message is delivered and nothing else happens; what is left on the connection is `rest`.
abbrev pub Delivered : Bytes → MessageType → Bytes → Turn → Type 0
Delivered bytes t rest (again next buf) = ⊥
Delivered bytes t rest (returns s effects after buf) =
    (s ≡ finish)
    × (effects ≡ delivers bytes t ∷ [])
    × IsReady after
    × Inv buf
    × (contents buf ≡ rest)

abbrev pub op_of : MessageType → ℕ
op_of text = 1
op_of binary = 2

pub handle_opcode-data :
    (t : MessageType) (ws : WebSocket)
    → handle_opcode (op_of t) ws ≡ deliver (record ws { message_type = t })
handle_opcode-data text ws = refl
handle_opcode-data binary ws = refl

pub deliver_lem :
    (ws : WebSocket)
    → is_fin ws ≡ true
    → ws.message_callback ≡ true
    → deliver ws ≡ (delivers (contents ws.data_buffer) ws.message_type ∷ [], fragment_fin ws)
deliver_lem ws fin set =
    let both : (is_fin ws && ws.message_callback) ≡ true = ground (arith, fin, set) in
    ap
      (λ b.
        if b
        then (delivers (contents ws.data_buffer) ws.message_type ∷ [], fragment_fin ws)
        else ([], ws))
      both

-- Unmasking the only frame of a message changes what is in its buffer.
pub unmask_frame_lem :
    (ws : WebSocket)
    → Inv ws.data_buffer
    → ws.data_buffer.readindex ≡ cheap_prepend
    → ws.recv_begin_index ≡ 0
    → ws.recv_end_index ≡ readable_bytes ws.data_buffer
    → Inv (unmask_frame ws).data_buffer
      × (contents (unmask_frame ws).data_buffer ≡ unmask ws.masking 0 (contents ws.data_buffer))
unfolding contents
unmask_frame_lem ws v at first last =
    let b = ws.data_buffer in
    let from : cheap_prepend + ws.recv_begin_index ≡ b.readindex = omega (arith, at, first) in
    let to : cheap_prepend + ws.recv_end_index ≡ b.writeindex =
      omega (arith, at, last, readable_lem b v, v.order) in
    let n : length (unmask ws.masking 0 (slice b.buffer b.readindex b.writeindex))
        ≡ b.writeindex - b.readindex =
      length-unmask ws.masking 0 (slice b.buffer b.readindex b.writeindex)
      ∙ length-slice b.buffer b.readindex b.writeindex v.order (omega (arith, v.room, v.block)) in
    rw (from, to)
      (
        record {
          front = v.front;
          order = v.order;
          room = v.room;
          block =
              length-blit b.buffer b.readindex
                (unmask ws.masking 0 (slice b.buffer b.readindex b.writeindex))
                (omega (arith, n, v.order, v.room, v.block))
              ∙ v.block;
        },
        slice-blit b.buffer b.readindex
              (unmask ws.masking 0 (slice b.buffer b.readindex b.writeindex)) b.readindex
              b.writeindex (omega arith) (omega (arith, n, v.order))
              (omega (arith, v.room, v.block))
            ∙ rw (slice_empty b.buffer b.readindex b.readindex (omega arith)) refl,
      )
