-- ===== src/Tcp/ByteBuffer/Queue.antt =====
-- A byte buffer is a queue of bytes.
use restful_cweb.Prelude.{
  ℕ, ◌+◌, ◌-◌, ◌≤◌, ◌<◌, ◌≡◌, refl, sym, ap, ◌∙◌, inl, inr, [], ◌++◌, Bytes, arith, ltb, length,
  take, drop, replicate, length-replicate, slice, length-blit, length-slice, slice-blit, drop-slice,
  slice_empty, drop_all, Bool-cases,
}
use restful_cweb.Tcp.ByteBuffer.{
  cheap_prepend, initial_size, ByteBuffer, new_buffer, writable_bytes, readable_bytes, contents,
  move_front, extend_space, put, append, read_all, read_bytes,
}

pub record Inv (b : ByteBuffer) : Type 0 where
  pub front : cheap_prepend ≤ b.readindex
  pub order : b.readindex ≤ b.writeindex
  pub room : b.writeindex ≤ b.size
  pub block : length b.buffer ≡ b.size

pub new_buffer-Inv : (asked : ℕ) → Inv (new_buffer asked)
unfolding new_buffer
new_buffer-Inv asked = record {
  front = omega arith;
  order = omega arith;
  room = omega arith;
  block = length-replicate {A = ℕ} (cheap_prepend + initial_size) 0;
}

pub contents-new_buffer : (asked : ℕ) → contents (new_buffer asked) ≡ []
unfolding contents new_buffer
contents-new_buffer asked = slice_empty _ cheap_prepend cheap_prepend (omega arith)

module _ (b : ByteBuffer) (v : Inv b) where
  pub readable_lem : readable_bytes b ≡ b.writeindex - b.readindex
  unfolding readable_bytes
  readable_lem = ground arith

  pub writable_lem : writable_bytes b ≡ b.size - b.writeindex
  unfolding writable_bytes
  writable_lem = ground arith

  pub length-contents : length (contents b) ≡ readable_bytes b
  unfolding contents
  length-contents =
      omega (arith, length-slice b.buffer b.readindex b.writeindex v.order, readable_lem)

  pub put-Inv : (bytes : Bytes) → length bytes ≤ b.size - b.writeindex → Inv (put b bytes)
  put-Inv bytes h = record {
    front = v.front;
    order = omega (arith, v.order);
    room = omega (arith, v.room);
    block = length-blit b.buffer b.writeindex bytes (omega (arith, v.room, v.block)) ∙ v.block;
  }

  pub contents-put :
      (bytes : Bytes)
      → length bytes ≤ b.size - b.writeindex
      → contents (put b bytes) ≡ contents b ++ bytes
  unfolding contents
  contents-put bytes h =
      slice-blit b.buffer b.writeindex bytes b.readindex (b.writeindex + length bytes) v.order refl
        (omega (arith, v.room, v.block))

  -- The bytes that `memcpy` and `memmove` take from the read index on.
  pub taken : (n : ℕ) → n ≡ readable_bytes b → take n (drop b.readindex b.buffer) ≡ contents b
  unfolding contents slice
  taken n e = let e' : n ≡ b.writeindex - b.readindex = e ∙ readable_lem in rw e'

  -- There is room for `len` more bytes behind the write index.
  abbrev HasRoom : ByteBuffer → ℕ → Type 0
  HasRoom c len = Inv c × (contents c ≡ contents b) × (len ≤ c.size - c.writeindex)

  move_front_lem :
      (block : Bytes) (size len : ℕ)
      → length block ≡ size
      → cheap_prepend + readable_bytes b + len ≤ size
      → HasRoom (move_front b block size) len
  unfolding contents
  move_front_lem block size len e h =
      let src = take (readable_bytes b) (drop b.readindex b.buffer) in
      let n : length src ≡ readable_bytes b =
        ap length (taken (readable_bytes b) refl) ∙ length-contents in
      (
        record {
          front = omega arith;
          order = omega arith;
          room = omega arith;
          block = length-blit block cheap_prepend src (omega (arith, n)) ∙ e;
        },
        slice-blit block cheap_prepend src cheap_prepend (cheap_prepend + readable_bytes b)
              (omega arith) (omega (arith, n)) (omega (arith, n))
            ∙ rw (slice_empty block cheap_prepend cheap_prepend (omega arith))
                (taken (readable_bytes b) refl),
        omega arith,
      )

  extend_space_lem : (len : ℕ) → HasRoom (extend_space b len) len
  unfolding extend_space
  extend_space_lem len =
      elim (Bool-cases (ltb (writable_bytes b + b.readindex) (len + cheap_prepend))) [
        | inl e ↦
            rw (e, extend_space)
              (move_front_lem (replicate (b.size + len) 0) (b.size + len) len
                (length-replicate {A = ℕ} (b.size + len) 0)
                (ground (arith, readable_lem, v.front, v.order, v.room)))
        | inr e ↦
            rw (e, extend_space)
              (move_front_lem b.buffer b.size len v.block
                (ground (arith, e, readable_lem, writable_lem, v.front, v.order, v.room)))
      ]

-- `Append` puts the bytes at the end of the queue, with or without a new block.
pub append_lem :
    (b : ByteBuffer) (bytes : Bytes)
    → Inv b
    → Inv (append b bytes) × (contents (append b bytes) ≡ contents b ++ bytes)
unfolding append
append_lem b bytes v = elim (Bool-cases (ltb (writable_bytes b) (length bytes))) [
  | inl e ↦
      let (w, same, room) = extend_space_lem b v (length bytes) in
      rw e (
        put-Inv (extend_space b (length bytes)) w bytes room,
        contents-put (extend_space b (length bytes)) w bytes room ∙ rw same refl,
      )
  | inr e ↦
      let room : length bytes ≤ b.size - b.writeindex = ground (arith, e, writable_lem b v) in
      rw e (put-Inv b v bytes room, contents-put b v bytes room)
]

-- `ReadBytes` takes bytes off the front; where it is asked for as many as there are, or more, the
-- queue is empty and the whole block is free again.
pub read_bytes_lem :
    (b : ByteBuffer) (len : ℕ)
    → Inv b
    → Inv (read_bytes b len) × (contents (read_bytes b len) ≡ drop len (contents b))
unfolding read_bytes read_all
read_bytes_lem b len v = elim (Bool-cases (ltb len (readable_bytes b))) [
  | inl e ↦
      let lt : len < b.writeindex - b.readindex = ground (arith, e, readable_lem b v) in
      rw e (
        record {
          front = omega (arith, v.front);
          order = omega arith;
          room = v.room;
          block = v.block;
        },
        unfold contents in sym (drop-slice b.buffer b.readindex b.writeindex len),
      )
  | inr e ↦
      let le : readable_bytes b ≤ len = ground (arith, e) in
      rw e (
        record {
          front = omega arith;
          order = omega arith;
          room = omega (arith, v.front, v.order, v.room);
          block = v.block;
        },
        unfold contents in
            slice_empty b.buffer cheap_prepend cheap_prepend (omega arith)
            ∙ sym (drop_all (contents b) len (omega (arith, length-contents b v))),
      )
]
