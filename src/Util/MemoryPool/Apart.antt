-- ===== src/Util/MemoryPool/Apart.antt =====
-- The chunks that are cut off the blocks do not overlap.
use restful_cweb.Prelude.{
  ℕ, ◌+◌, ◌%◌, ◌≤◌, ◌<◌, ◌≡◌, ◌≢◌, ◌⊎◌, List, [], ◌∷◌, Option, none, some, get_or, set,
}
use restful_cweb.Util.MemoryPool.{
  Address, Chunk, MemoryPool, memorylists_index, allocate, deallocate,
}

-- Two chunks have no byte in common.
abbrev pub Apart : Chunk → Chunk → Type 0
Apart c d =
    (c.address.block ≢ d.address.block)
    ⊎ ((c.address.offset + c.size ≤ d.address.offset)
        ⊎ (d.address.offset + d.size ≤ c.address.offset))

-- A chunk is aligned and within its block.
abbrev pub Fits : Chunk → Type 0
Fits c = (c.address.offset % 8 ≡ 0) × (c.address.offset + c.size ≤ 4096)

abbrev pub ApartFrom : Chunk → List Chunk → Type 0
ApartFrom c [] = Unit {0}
ApartFrom c (d ∷ ds) = Apart c d × ApartFrom c ds

-- All fit, and any two are apart.
abbrev pub AreApart : List Chunk → Type 0
AreApart [] = Unit {0}
AreApart (c ∷ cs) = Fits c × ApartFrom c cs × AreApart cs

-- Before what is left of the last block.
abbrev Behind : Address → List Chunk → Type 0
Behind a [] = Unit {0}
Behind a (c ∷ cs) =
    ((c.address.block < a.block)
      ⊎ ((c.address.block ≡ a.block) × (c.address.offset + c.size ≤ a.offset)))
    × Behind a cs

record Inv (p : MemoryPool) : Type 0 where
  within : p.alloc_ptr.offset + p.bytes_remaining ≤ 4096
  apart : AreApart p.chunks
  behind : Behind p.alloc_ptr p.chunks

-- What a client asks for.
pub data Request : Type 0 where
  take_bytes : ℕ → Request
  give_back : Address → ℕ → Request

abbrev after_allocate : MemoryPool → Option (Address × MemoryPool) → MemoryPool
after_allocate p none = p
after_allocate p (some (a, q)) = q

unfoldable pub serve : Request → MemoryPool → MemoryPool
unfolding allocate deallocate
serve (take_bytes n) p = after_allocate p (allocate n p)
serve (give_back a n) p = deallocate a n p

unfoldable pub serve_all : List Request → MemoryPool → MemoryPool
unfolding serve
serve_all [] p = p
serve_all (r ∷ rs) p = serve_all rs (serve r p)

-- The address is that of a chunk cut off just now, or of the chunk of its class freed last.
abbrev pub IsGiven : ℕ → MemoryPool → Address → MemoryPool → Type 0
IsGiven bytes p a q =
    (q.chunks ≡ record { address = a; size = bytes } ∷ p.chunks)
    ⊎ ((rest : List Address) × (get_or p.memorylists (memorylists_index bytes) [] ≡ a ∷ rest)
        × (q ≡ record p { memorylists = set p.memorylists (memorylists_index bytes) rest }))
