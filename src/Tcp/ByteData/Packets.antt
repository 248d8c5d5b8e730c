-- ===== src/Tcp/ByteData/Packets.antt =====
-- What is left to send, and when the bookkeeping of it is sound.
use restful_cweb.Prelude.{
  ℕ, zero, suc, ◌^◌, ◌≤◌, ◌<◌, ◌≡◌, sym, List, [], ◌∷◌, Bytes, arith, length, length-append, drop,
  drop-append,
}
use restful_cweb.Tcp.ByteData.{DataPacket, packet_data, ByteData, all_data, iovecs}

-- As many bytes stand at `Data()` as `size_` says.
abbrev pub Sized : List DataPacket → Type 0
Sized [] = Unit {0}
Sized (p ∷ ps) = (length (packet_data p) ≡ p.size) × Sized ps

-- The bytes still to be sent.
abbrev pub unsent : ByteData → Bytes
unsent d = drop d.offset (all_data (drop d.current_index d.datas))

abbrev pub HeadSize : List DataPacket → ℕ → Type 0
HeadSize [] n = ⊥
HeadSize (p ∷ ps) n = n ≤ p.size

pub record Inv (d : ByteData) : Type 0 where
  pub sized : Sized d.datas
  pub current : d.current_index < length d.datas
  pub within : HeadSize (drop d.current_index d.datas) d.offset
  pub small : length (all_data d.datas) < 2 ^ 31

pub Sized-drop : (n : ℕ) (ps : List DataPacket) → Sized ps → Sized (drop n ps)
Sized-drop zero ps s = s
Sized-drop (suc n) [] s = s
Sized-drop (suc n) (p ∷ ps) s = Sized-drop n ps s.1

pub length-all_data-drop :
    (n : ℕ) (ps : List DataPacket) → length (all_data (drop n ps)) ≤ length (all_data ps)
length-all_data-drop zero ps = omega arith
length-all_data-drop (suc n) [] = omega arith
length-all_data-drop (suc n) (p ∷ ps) =
    omega (arith, length-all_data-drop n ps, length-append (packet_data p) (all_data ps))

-- `Writev` hands the kernel the bytes that are still to be sent.
pub iovecs-unsent :
    (ps : List DataPacket) (o : ℕ) → Sized ps → HeadSize ps o → iovecs o ps ≡ drop o (all_data ps)
iovecs-unsent [] o s h = absurd h
iovecs-unsent (p ∷ ps) o s h =
    sym (drop-append (packet_data p) (all_data ps) o (omega (arith, s.0)))
