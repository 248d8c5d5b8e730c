-- ===== src/Util/MemoryPool.antt =====
-- `MemoryPool` of src/util/threadlocal_memorypool.h and src/util/threadlocal_memorypool.cc. An
-- address is a block, by its number from 1 on, and an offset in it; `new` returns blocks that are
-- aligned, and the null pointer is the address 0 in block 0. Requests of more than 1024 bytes go to
-- `malloc`, which is not in the model.
pub mod Apart
use restful_cweb.Prelude.{
  ℕ, zero, suc, ◌+◌, ◌-◌, ◌*◌, ◌%◌, ◌≤◌, Bool, List, [], ◌∷◌, Option, none, some, ltb, leb, ◌==◌,
  if◌then◌else◌, get_or, set, replicate,
}

pub record Address : Type 0 where
  pub block : ℕ
  pub offset : ℕ

-- A piece of a block as it was cut off.
pub record Chunk : Type 0 where
  pub address : Address
  pub size : ℕ

-- The lists of free chunks by class; the pointer to what is left of the last block, and how much
-- that is. `chunks` are all that were cut off, from the start on.
pub record MemoryPool : Type 0 where
  pub memorylists : List (List Address)
  pub alloc_ptr : Address
  pub bytes_remaining : ℕ
  pub chunks : List Chunk

abbrev pub max_memory_size : ℕ
max_memory_size = 1024

abbrev pub memory_block_size : ℕ
memory_block_size = 4096

abbrev pub new_pool : MemoryPool
new_pool = record {
  memorylists = replicate 8 [];
  alloc_ptr = record { block = 0; offset = 0 };
  bytes_remaining = 0;
  chunks = [];
}

-- The loop of `memorylistsIndex`; for requests of up to 1024 bytes it takes seven turns at most.
unfoldable pub index_loop : ℕ → ℕ → ℕ → ℕ → ℕ
index_loop zero bytes canuse index = index
index_loop (suc k) bytes canuse index =
    let next = index_loop k bytes (canuse * 2) (index + 1) in
    if ltb canuse bytes then next else index

unfoldable pub memorylists_index : ℕ → ℕ
unfolding index_loop
memorylists_index bytes = index_loop 8 bytes 8 0

abbrev pub slop : ℕ → ℕ
slop offset = if offset % 8 == 0 then 0 else 8 - offset % 8

abbrev pub cut : Address → ℕ → MemoryPool → Address × MemoryPool
cut a bytes p = (
  a,
  record p {
    alloc_ptr = record a { offset = a.offset + bytes };
    chunks = record { address = a; size = bytes } ∷ p.chunks;
  },
)

abbrev pub allocate_in_memoryblocks : ℕ → MemoryPool → Address × MemoryPool
allocate_in_memoryblocks bytes p =
    let need = bytes + slop p.alloc_ptr.offset in
    if leb need p.bytes_remaining
    then cut
        (record {
          block = p.alloc_ptr.block;
          offset = p.alloc_ptr.offset + slop p.alloc_ptr.offset;
        })
        bytes (record p { bytes_remaining = p.bytes_remaining - need })
    else cut (record { block = p.alloc_ptr.block + 1; offset = 0 }) bytes
        (record p { bytes_remaining = memory_block_size - bytes })

-- `PopFront` of the list of a class, or else a new chunk.
abbrev pub pop_front : ℕ → ℕ → List Address → MemoryPool → Address × MemoryPool
pop_front index bytes [] p = allocate_in_memoryblocks bytes p
pop_front index bytes (a ∷ rest) p = (a, record p { memorylists = set p.memorylists index rest })

unfoldable pub allocate : ℕ → MemoryPool → Option (Address × MemoryPool)
unfolding memorylists_index
allocate bytes p =
    if leb bytes max_memory_size
    then some (
        pop_front (memorylists_index bytes) bytes
          (get_or p.memorylists (memorylists_index bytes) []) p)
    else none

-- `PushFront`.
abbrev pub push_front : Address → ℕ → MemoryPool → MemoryPool
push_front a index p = record p {
  memorylists = set p.memorylists index (a ∷ get_or p.memorylists index []);
}

unfoldable pub deallocate : Address → ℕ → MemoryPool → MemoryPool
unfolding memorylists_index
deallocate a bytes p =
    if leb bytes max_memory_size then push_front a (memorylists_index bytes) p else p
