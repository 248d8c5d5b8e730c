-- ===== src/Tcp/ByteBuffer/Reads.antt =====
-- Reading out of a byte buffer, receiving into it, and any sequence of such calls.
use restful_cweb.Prelude.{
  ℕ, ◌+◌, ◌-◌, ◌≤◌, ◌<◌, ◌≡◌, refl, sym, ap, ◌∙◌, ◌⊎◌, inl, inr, false, ◌||◌, List, [], ◌∷◌, ◌++◌,
  Bytes, Option, none, some, arith, ltb, leb, if◌then◌else◌, length, take, drop, blit, slice,
  slice_empty, length-take, take-take, Bool-cases, append_assoc, take-append-drop,
}
use restful_cweb.Tcp.ByteBuffer.{
  cheap_prepend, ByteBuffer, new_buffer, writable_bytes, readable_bytes, contents, put, append,
  read_all, read_bytes, read_util, read_some, read_to_buffer, readv, as_int,
}
use restful_cweb.Tcp.ByteBuffer.Queue.{
  Inv, new_buffer-Inv, contents-new_buffer, length-contents, readable_lem, writable_lem, put-Inv,
  contents-put, append_lem, read_bytes_lem,
}

module _ (b : ByteBuffer) (v : Inv b) where
  taken_bytes :
      (len : ℕ)
      → len ≤ length (contents b)
      → take len (drop b.readindex b.buffer) ≡ take len (contents b)
  unfolding contents slice
  taken_bytes len h = sym (
      take-take (drop b.readindex b.buffer) len (b.writeindex - b.readindex)
        (omega (arith, length-contents b v, readable_lem b v)))

  not_refused :
      (len : ℕ)
      → 0 < len
      → len ≤ length (contents b)
      → (leb len 0 || ltb (readable_bytes b) len) ≡ false
  not_refused len h k = ground (arith, length-contents b v)

  -- `ReadSome` copies out the first `len` bytes, if there are as many, and takes them off the
  -- queue.
  pub read_some_lem :
      (len : ℕ)
      → 0 < len
      → len ≤ length (contents b)
      → (c : ByteBuffer) × (read_some b len ≡ (as_int len, take len (contents b), c))
        × Inv c
        × (contents c ≡ drop len (contents b))
  unfolding read_some
  read_some_lem len h k =
      let (w, e) = read_bytes_lem b len v in
      (read_bytes b len, rw (not_refused len h k, taken_bytes len k), w, e)

  -- It refuses to read nothing, and to read more than there is; then it changes nothing.
  pub read_some_refuses :
      (len : ℕ) → (len ≡ 0) ⊎ (length (contents b) < len) → read_some b len ≡ (0, [], b)
  unfolding read_some
  read_some_refuses len h = ground (arith, length-contents b v)

  -- `ReadToBuffer` moves the first `len` bytes from one queue to the end of the other.
  pub read_to_buffer_lem :
      (target : ByteBuffer) (len : ℕ)
      → Inv target
      → 0 < len
      → len ≤ length (contents b)
      → (t c : ByteBuffer) × (read_to_buffer b target len ≡ (as_int len, t, c))
        × Inv t
        × Inv c
        × (contents t ≡ contents target ++ take len (contents b))
        × (contents c ≡ drop len (contents b))
  unfolding read_to_buffer
  read_to_buffer_lem target len u h k =
      let (w, e) = read_bytes_lem b len v in
      let (w', e') = append_lem target (take len (contents b)) u in
      (
        append target (take len (contents b)),
        read_bytes b len,
        rw (not_refused len h k, taken_bytes len k),
        w',
        w,
        e',
        e,
      )

  pub read_to_buffer_refuses :
      (target : ByteBuffer) (len : ℕ)
      → (len ≡ 0) ⊎ (length (contents b) < len)
      → read_to_buffer b target len ≡ (0, target, b)
  unfolding read_to_buffer
  read_to_buffer_refuses target len h = ground (arith, length-contents b v)

  filled :
      (bytes : Bytes)
      → writable_bytes b < length bytes
      → record b {
        writeindex = b.size;
        buffer = blit b.buffer b.writeindex (take (writable_bytes b) bytes);
      }
        ≡ put b (take (writable_bytes b) bytes)
  filled bytes h =
      let e : b.size ≡ b.writeindex + length (take (writable_bytes b) bytes) =
        omega (arith, length-take (writable_bytes b) bytes, writable_lem b v, v.room) in
      ap
        (λ w. record b {
          writeindex = w;
          buffer = blit b.buffer b.writeindex (take (writable_bytes b) bytes);
        })
        e

  -- What `readv` delivers comes to the end of the queue, also where it is more than the block has
  -- room for.
  pub readv_lem :
      (bytes : Bytes)
      → (c : ByteBuffer) × (readv b (some bytes) ≡ (some (as_int (length bytes)), c))
        × Inv c
        × (contents c ≡ contents b ++ bytes)
  unfolding readv
  readv_lem bytes = elim (Bool-cases (leb (length bytes) (writable_bytes b))) [
    | inl e ↦
        let room : length bytes ≤ b.size - b.writeindex = ground (arith, e, writable_lem b v) in
        (put b bytes, rw e, put-Inv b v bytes room, contents-put b v bytes room)
    | inr e ↦
        let w = writable_bytes b in
        let more : w < length bytes = ground (arith, e) in
        let room : length (take w bytes) ≤ b.size - b.writeindex =
          omega (arith, length-take w bytes, writable_lem b v) in
        let (i, same) =
          append_lem (put b (take w bytes)) (drop w bytes) (put-Inv b v (take w bytes) room) in
        (
          append (put b (take w bytes)) (drop w bytes),
          rw e (
              ap (λ f. (some (as_int (length bytes)), append f (drop w bytes)))
                (filled bytes more)),
          i,
          same
              ∙ rw (contents-put b v (take w bytes) room) (
                  append_assoc (contents b) (take w bytes) (drop w bytes)
                  ∙ rw (take-append-drop w bytes)),
        )
  ]

-- The calls that change a buffer and keep it in order: `Append`, `Readv`, `ReadBytes`, `ReadAll`,
-- `ReadSome`, `ReadUtil`, and `ReadToBuffer` with another buffer.
pub data Call : Type 0 where
  appends : Bytes → Call
  receives : Option Bytes → Call
  skips : ℕ → Call
  clears : Call
  takes : ℕ → Call
  skips_until : ℕ → Call
  moves_to : ByteBuffer → ℕ → Call

abbrev pub call : ByteBuffer → Call → ByteBuffer
call b (appends bytes) = append b bytes
call b (receives input) = (readv b input).1
call b (skips len) = read_bytes b len
call b clears = read_all b
call b (takes len) = (read_some b len).2
call b (skips_until offset) = read_util b offset
call b (moves_to target len) = (read_to_buffer b target len).2

abbrev pub calls : ByteBuffer → List Call → ByteBuffer
calls b [] = b
calls b (c ∷ cs) = calls (call b c) cs

-- The same calls on a queue of bytes.
abbrev pub on_queue : Bytes → Call → Bytes
on_queue q (appends bytes) = q ++ bytes
on_queue q (receives none) = q
on_queue q (receives (some bytes)) = q ++ bytes
on_queue q (skips len) = drop len q
on_queue q clears = []
on_queue q (takes len) = if ltb (length q) len then q else drop len q
on_queue q (skips_until offset) = drop offset q
on_queue q (moves_to target len) = if ltb (length q) len then q else drop len q

abbrev pub on_queues : Bytes → List Call → Bytes
on_queues q [] = q
on_queues q (c ∷ cs) = on_queues (on_queue q c) cs

pub read_all_lem : (b : ByteBuffer) → Inv b → Inv (read_all b) × (contents (read_all b) ≡ [])
unfolding read_all contents
read_all_lem b v = (
  record {
    front = omega arith;
    order = omega arith;
    room = omega (arith, v.front, v.order, v.room);
    block = v.block;
  },
  slice_empty b.buffer cheap_prepend cheap_prepend (omega arith),
)

read_to_buffer-read_some :
    (b target : ByteBuffer) (len : ℕ) → (read_to_buffer b target len).2 ≡ (read_some b len).2
unfolding read_to_buffer read_some
read_to_buffer-read_some b target len =
    elim (Bool-cases (leb len 0 || ltb (readable_bytes b) len)) [
      | inl e ↦ rw e refl
      | inr e ↦ rw e refl
    ]

takes-Inv :
    (b : ByteBuffer) (len : ℕ)
    → Inv b
    → Inv (call b (takes len)) × (contents (call b (takes len)) ≡ on_queue (contents b) (takes len))
takes-Inv b len v = elim (Bool-cases (ltb (length (contents b)) len)) [
  | inl few ↦ rw few (rw (read_some_refuses b v len (inr (ground (arith, few))), call) (v, refl))
  | inr enough ↦ rw enough (elim (Bool-cases (leb len 0)) [
    | inl nothing ↦
        let z : len ≡ 0 = ground (arith, nothing) in
        rw (read_some_refuses b v len (inl z), call) (v, rw z refl)
    | inr something ↦
        let (c, e, w, same) =
          read_some_lem b v len (ground (arith, something)) (ground (arith, enough)) in
        rw (e, call) (w, same)
  ])
]

call-Inv :
    (b : ByteBuffer) (c : Call)
    → Inv b
    → Inv (call b c) × (contents (call b c) ≡ on_queue (contents b) c)
call-Inv b (appends bytes) v = append_lem b bytes v
call-Inv b (receives none) v = unfold readv in (v, refl)
call-Inv b (receives (some bytes)) v =
    let (c, e, w, same) = readv_lem b v bytes in rw (e, call) (w, same)
call-Inv b (skips len) v = read_bytes_lem b len v
call-Inv b clears v = read_all_lem b v
call-Inv b (skips_until offset) v = unfold read_util in read_bytes_lem b offset v
call-Inv b (moves_to target len) v = rw (read_to_buffer-read_some b target len) (takes-Inv b len v)
call-Inv b (takes len) v = takes-Inv b len v

calls-Inv :
    (b : ByteBuffer) (cs : List Call)
    → Inv b
    → Inv (calls b cs) × (contents (calls b cs) ≡ on_queues (contents b) cs)
calls-Inv b [] v = (v, refl)
calls-Inv b (c ∷ cs) v =
    let (w, e) = call-Inv b c v in
    let (w', e') = calls-Inv (call b c) cs w in (w', e' ∙ ap (λ q. on_queues q cs) e)

-- Any sequence of calls of `Append`, `Readv`, `ReadBytes`, `ReadUtil`, `ReadAll`, `ReadSome` and
-- `ReadToBuffer` into another buffer, with any arguments, does to a new buffer what the same calls do to an empty queue of
-- bytes, and keeps its indices in order and inside its block.
pub calls_refine :
    (asked : ℕ) (cs : List Call)
    → (contents (calls (new_buffer asked) cs) ≡ on_queues [] cs) × Inv (calls (new_buffer asked) cs)
calls_refine asked cs =
    let (w, e) = calls-Inv (new_buffer asked) cs (new_buffer-Inv asked) in
    (e ∙ ap (λ q. on_queues q cs) (contents-new_buffer asked), w)
