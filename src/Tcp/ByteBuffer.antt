-- ===== src/Tcp/ByteBuffer.antt =====
-- `ByteBuffer` of src/tcpserver/bytebuffer.h and src/tcpserver/bytebuffer.cc. The allocated block
-- is a list of bytes; a pointer into it is its index, and one that the code returns is counted
-- from `Peek()`. Sizes are `size_t`: a difference wraps around, a sum is the size of a block of
-- memory and does not.
pub mod Queue
pub mod Reads
pub mod Scan
use mathlib.Core.Option
use restful_cweb.Prelude.{
  ℕ, zero, suc, ◌+◌, ◌-◌, ◌^◌, ◌%◌, Bool, true, false, ◌||◌, List, [], ◌∷◌, ◌++◌, Bytes, Option,
  none, some, ltb, leb, ◌==◌, if◌then◌else◌, length, take, drop, replicate, blit, slice,
}

abbrev pub cheap_prepend : ℕ
cheap_prepend = 8

abbrev pub initial_size : ℕ
initial_size = 1024

-- `a - b` on `size_t`.
abbrev pub sub_size : ℕ → ℕ → ℕ
sub_size a b = if leb b a then a - b else a + 2 ^ 64 - b

pub record ByteBuffer : Type 0 where
  pub readindex : ℕ
  pub writeindex : ℕ
  pub buffer : Bytes
  pub size : ℕ

-- The constructor takes no notice of the size that it is given.
unfoldable pub new_buffer : ℕ → ByteBuffer
new_buffer asked = record {
  readindex = cheap_prepend;
  writeindex = cheap_prepend;
  buffer = replicate (cheap_prepend + initial_size) 0;
  size = cheap_prepend + initial_size;
}

unfoldable pub writable_bytes : ByteBuffer → ℕ
writable_bytes b = sub_size b.size b.writeindex

unfoldable pub readable_bytes : ByteBuffer → ℕ
readable_bytes b = sub_size b.writeindex b.readindex

abbrev pub prependable_bytes : ByteBuffer → ℕ
prependable_bytes b = b.readindex

-- The bytes from `Peek()` to `Back()`.
unfoldable pub contents : ByteBuffer → Bytes
contents b = slice b.buffer b.readindex b.writeindex

-- The readable bytes moved to the front of a block: the new one, or, by `memmove`, the old one.
abbrev pub move_front : ByteBuffer → Bytes → ℕ → ByteBuffer
move_front b block size = record {
  readindex = cheap_prepend;
  writeindex = cheap_prepend + readable_bytes b;
  buffer = blit block cheap_prepend (take (readable_bytes b) (drop b.readindex b.buffer));
  size = size;
}

unfoldable pub extend_space : ByteBuffer → ℕ → ByteBuffer
unfolding writable_bytes
extend_space b len =
    if ltb (writable_bytes b + prependable_bytes b) (len + cheap_prepend)
    then move_front b (replicate (b.size + len) 0) (b.size + len)
    else move_front b b.buffer b.size

-- The end of `Append`: the copy behind the write index.
abbrev pub put : ByteBuffer → Bytes → ByteBuffer
put b bytes = record b {
  writeindex = b.writeindex + length bytes;
  buffer = blit b.buffer b.writeindex bytes;
}

unfoldable pub append : ByteBuffer → Bytes → ByteBuffer
unfolding extend_space writable_bytes
append b bytes =
    if ltb (writable_bytes b) (length bytes)
    then put (extend_space b (length bytes)) bytes
    else put b bytes

unfoldable pub read_all : ByteBuffer → ByteBuffer
read_all b = record b { readindex = cheap_prepend; writeindex = cheap_prepend }

unfoldable pub read_bytes : ByteBuffer → ℕ → ByteBuffer
unfolding readable_bytes read_all
read_bytes b len =
    if ltb len (readable_bytes b) then record b { readindex = b.readindex + len } else read_all b

-- `ReadUtil`, to a pointer that stands `offset` bytes behind `Peek()`.
unfoldable pub read_util : ByteBuffer → ℕ → ByteBuffer
unfolding read_bytes
read_util b offset = read_bytes b offset

unfoldable pub write_bytes : ByteBuffer → ℕ → ByteBuffer
write_bytes b len = record b { writeindex = b.writeindex + len }

-- `(int)len` as the pattern of 32 bits.
abbrev pub as_int : ℕ → ℕ
as_int len = len % 2 ^ 32

-- `ReadSome` returns the count, the bytes copied out and the buffer left.
unfoldable pub read_some : ByteBuffer → ℕ → ℕ × Bytes × ByteBuffer
unfolding readable_bytes read_bytes
read_some b len =
    if leb len 0 || ltb (readable_bytes b) len
    then (0, [], b)
    else (as_int len, take len (drop b.readindex b.buffer), read_bytes b len)

-- `ReadToBuffer` from `b` to `target`: the count, the target and the buffer left.
unfoldable pub read_to_buffer : ByteBuffer → ByteBuffer → ℕ → ℕ × ByteBuffer × ByteBuffer
unfolding readable_bytes read_bytes append
read_to_buffer b target len =
    if leb len 0 || ltb (readable_bytes b) len
    then (0, target, b)
    else (as_int len, append target (take len (drop b.readindex b.buffer)), read_bytes b len)

-- `Readv`: `none` is an error of `readv`, and `some bytes` what it reads into the room behind the
-- write index and, from there on, into `extrabuf`.
unfoldable pub readv : ByteBuffer → Option Bytes → Option ℕ × ByteBuffer
unfolding writable_bytes
readv b none = (none, b)
readv b (some bytes) =
    if leb (length bytes) (writable_bytes b) then (some (as_int (length bytes)), put b bytes) else (
      some (as_int (length bytes)),
      append
          (record b {
            writeindex = b.size;
            buffer = blit b.buffer b.writeindex (take (writable_bytes b) bytes);
          })
          (drop (writable_bytes b) bytes),
    )

-- The loop of `FindCRLF` over the bytes from `iter` on; the result counts from there.
unfoldable pub find_crlf_from : Bytes → Option ℕ
find_crlf_from [] = none
find_crlf_from (c ∷ []) = none
find_crlf_from (c ∷ d ∷ s) =
    let rest = Option.map suc (find_crlf_from (d ∷ s)) in
    if c == 13 then if d == 10 then some 0 else rest else rest

unfoldable pub find_crlf : ByteBuffer → Option ℕ
unfolding find_crlf_from contents
find_crlf b = find_crlf_from (contents b)

-- The loop of `ReadJSON` at `iter`, which stands `pos` bytes behind `Peek()`, with `n` braces open.
unfoldable pub json_end : ℕ → ℕ → Bytes → ℕ
json_end n pos [] = 0
json_end n pos (c ∷ s) =
    let closed = if c == b'}' then n - 1 else n in
    let opened = if c == b'{' then closed + 1 else closed in
    let rest = json_end opened (pos + 1) s in if opened == 0 then pos else rest

abbrev pub json_start : Bytes → ℕ
json_start [] = 0
json_start (c ∷ s) = if c == b'{' then json_end 1 1 s else 0

unfoldable pub read_json : ByteBuffer → ℕ
unfolding json_end contents
read_json b = json_start (contents b)
