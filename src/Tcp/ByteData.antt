-- ===== src/Tcp/ByteData.antt =====
-- `DataPacket` and `ByteData` of src/tcpserver/bytedata.h and src/tcpserver/bytedata.cc: what is
-- still to be sent, as packets that are copied, borrowed from the caller, or mapped files.
-- `offset_` is an `int`, here its pattern of 32 bits; `mmap` and `writev` are the arguments that
-- say what they return.
pub mod Packets
pub mod Advance
pub mod Send
pub mod Copy
pub mod Build
use restful_cweb.Prelude.{
  ℕ, zero, suc, ◌+◌, ◌-◌, ◌*◌, ◌^◌, ◌%◌, Bool, true, false, not, ◌&&◌, ◌||◌, List, [], ◌∷◌, ◌++◌,
  Bytes, Option, none, some, ltb, leb, ◌==◌, if◌then◌else◌, length, take, drop, get_elem?,
}
use restful_cweb.Tcp.ByteBuffer.{ByteBuffer, new_buffer, append, contents, sub_size}

pub record DataPacket : Type 0 where
  pub copy_data : Option ByteBuffer
  pub zero_copy_data : Bytes
  pub size : ℕ
  pub is_file : Bool
  pub copy : Bool

abbrev pub buffer_bytes : Option ByteBuffer → Bytes
buffer_bytes none = []
buffer_bytes (some b) = contents b

-- The bytes at `Data()`. The memory that a borrowed packet points to is the caller's.
abbrev pub packet_data : DataPacket → Bytes
packet_data p = if p.copy then buffer_bytes p.copy_data else p.zero_copy_data

-- `CopyIfNeed`, with its result.
unfoldable pub copy_if_need : DataPacket → ℕ → DataPacket × Bool
copy_if_need p offset = if p.copy || p.is_file then (p, false) else (
  record p {
    copy_data = some (
        append (new_buffer (p.size - offset))
          (take (p.size - offset) (drop offset p.zero_copy_data)));
    zero_copy_data = [];
    size = p.size - offset;
    copy = true;
  },
  true,
)

pub record ByteData : Type 0 where
  pub datas : List DataPacket
  pub current_index : ℕ
  pub offset : ℕ

unfoldable pub new_data : ByteData
new_data = record { datas = []; current_index = 0; offset = 0 }

abbrev pub push_packet : DataPacket → ByteData → ByteData
push_packet p d = record d { datas = d.datas ++ p ∷ [] }

unfoldable pub add_data_zero_copy : Bytes → ByteData → ByteData
add_data_zero_copy bytes = push_packet (record {
  copy_data = none;
  zero_copy_data = bytes;
  size = length bytes;
  is_file = false;
  copy = false;
})

unfoldable pub add_data_copy : Bytes → ByteData → ByteData
add_data_copy bytes = push_packet (record {
  copy_data = some (append (new_buffer (length bytes * 2)) bytes);
  zero_copy_data = [];
  size = length bytes;
  is_file = false;
  copy = true;
})

-- `AddFile`, of a file that `mmap` gives the bytes of, or not.
unfoldable pub add_file : Option Bytes → ByteData → Option ByteData
add_file none d = none
add_file (some bytes) d = some (
    push_packet
      (record {
        copy_data = none;
        zero_copy_data = bytes;
        size = length bytes;
        is_file = true;
        copy = false;
      })
      d)

-- `AppendData`: `none` is the failed assertion or the call on a null pointer.
pub append_last : Bytes → List DataPacket → Option (List DataPacket)
append_last bytes [] = none
append_last bytes (p ∷ []) = if p.copy then none else elim p.copy_data [
  | none ↦ none
  | some b ↦
      some (record p { copy_data = some (append b bytes); size = p.size + length bytes } ∷ [])
]
append_last bytes (p ∷ q ∷ ps) = elim (append_last bytes (q ∷ ps)) [
  | none ↦ none
  | some qs ↦ some (p ∷ qs)
]

unfoldable pub append_data : Bytes → ByteData → Option ByteData
unfolding append_last
append_data bytes d = elim (append_last bytes d.datas) [
  | none ↦ none
  | some ps ↦ some (record d { datas = ps })
]

-- `int` sums and differences, and the conversion of an `int` to `size_t`.
abbrev pub add_int : ℕ → ℕ → ℕ
add_int a b = (a + b) % 2 ^ 32

abbrev pub sub_int : ℕ → ℕ → ℕ
sub_int a b = (a + 2 ^ 32 - b % 2 ^ 32) % 2 ^ 32

abbrev pub is_negative : ℕ → Bool
is_negative a = leb (2 ^ 31) a

abbrev pub int_to_size : ℕ → ℕ
int_to_size a = if is_negative a then a + (2 ^ 64 - 2 ^ 32) else a

abbrev pub last_size : List DataPacket → ℕ
last_size [] = 0
last_size (p ∷ []) = p.size
last_size (p ∷ q ∷ ps) = last_size (q ∷ ps)

-- `Remain`. (With no packet the first test is false: `datas_.size() - 1` wraps around.)
unfoldable pub remain : ByteData → Bool
remain d = not (
    (d.current_index == sub_size (length d.datas) 1) && (int_to_size d.offset == last_size d.datas))

-- The loop of `modifyIndexAndOffset` from the packet at `i` on; `none` is its end.
unfoldable pub advance : ℕ → List DataPacket → ℕ → Option (ℕ × ℕ)
advance i [] offset = none
advance i (p ∷ ps) offset =
    let left = sub_int offset p.size in
    let rest = advance (i + 1) ps left in
    if is_negative left then some (i, add_int left p.size) else rest

unfoldable pub modify_index_and_offset : ByteData → ByteData
unfolding advance
modify_index_and_offset d = elim (advance d.current_index (drop d.current_index d.datas) d.offset) [
  | some (i, o) ↦ record d { current_index = i; offset = o }
  | none ↦ record d {
    current_index = sub_size (length d.datas) 1;
    offset = last_size d.datas % 2 ^ 32;
  }
]

abbrev pub all_data : List DataPacket → Bytes
all_data [] = []
all_data (p ∷ ps) = packet_data p ++ all_data ps

-- The bytes of the `iovec`s that `Writev` fills in.
abbrev pub iovecs : ℕ → List DataPacket → Bytes
iovecs offset [] = []
iovecs offset (p ∷ ps) = drop offset (packet_data p) ++ all_data ps

-- `Writev`: what goes out, and the data left. `result` is what the call of `writev` returns, and
-- `none` its error; a count that is not positive changes nothing.
unfoldable pub writev : Option ℕ → ByteData → Bytes × ByteData
writev none d = ([], d)
writev (some n) d =
    if remain d
    then (if n == 0 then ([], d) else (
      take n (iovecs d.offset (drop d.current_index d.datas)),
      modify_index_and_offset (record d { offset = add_int d.offset n }),
    ))
    else ([], d)

abbrev pub copy_rest : List DataPacket → List DataPacket
copy_rest [] = []
copy_rest (p ∷ ps) = (copy_if_need p 0).0 ∷ copy_rest ps

-- The packets from the current one on, and the new offset.
abbrev pub copy_from : ℕ → List DataPacket → List DataPacket × ℕ
copy_from offset [] = ([], offset)
copy_from offset (p ∷ ps) =
    ((copy_if_need p offset).0 ∷ copy_rest ps, if (copy_if_need p offset).1 then 0 else offset)

unfoldable pub copy_data_if_need : ByteData → ByteData
copy_data_if_need d =
    if remain d
    then record d {
      datas = take d.current_index d.datas ++ (copy_from d.offset (drop d.current_index d.datas)).0;
      offset = (copy_from d.offset (drop d.current_index d.datas)).1;
    }
    else d
