-- ===== src/Tcp/ByteData/Copy.antt =====
-- `CopyDataIfNeed` before the caller's memory goes away, and `AppendData`.
use restful_cweb.Prelude.{
  ℕ, zero, suc, ◌-◌, ◌≤◌, ◌≡◌, refl, sym, ap, ◌∙◌, inl, inr, Bool, true, false, ◌||◌, List, [], ◌∷◌,
  ◌++◌, Bytes, none, arith, if◌then◌else◌, length, length-append, take, drop, take_all, drop-append,
  drop-length, length-drop, length-take, Bool-cases,
}
use restful_cweb.Tcp.ByteBuffer.{new_buffer, append, contents}
use restful_cweb.Tcp.ByteBuffer.Queue.{new_buffer-Inv, contents-new_buffer, append_lem}
use restful_cweb.Tcp.ByteData.{
  DataPacket, packet_data, copy_if_need, ByteData, all_data, copy_rest, copy_from,
  copy_data_if_need, remain, append_last,
}
use restful_cweb.Tcp.ByteData.Packets.{Sized, HeadSize, unsent, Inv, Sized-drop}

-- The packet does not point into the caller's memory.
abbrev pub IsOwned : DataPacket → Type 0
IsOwned p = (p.copy || p.is_file) ≡ true

abbrev pub AllOwned : List DataPacket → Type 0
AllOwned [] = Unit {0}
AllOwned (p ∷ ps) = IsOwned p × AllOwned ps

pub new_copy : (asked : ℕ) (bytes : Bytes) → contents (append (new_buffer asked) bytes) ≡ bytes
new_copy asked bytes =
    (append_lem (new_buffer asked) bytes (new_buffer-Inv asked)).1
    ∙ ap (λ q. q ++ bytes) (contents-new_buffer asked)

-- The packet after `CopyIfNeed`, and whether it was copied.
abbrev Copied : DataPacket → ℕ → DataPacket × Bool → Type 0
Copied p o (q, false) = (q ≡ p) × IsOwned p
Copied p o (q, true) = (packet_data q ≡ drop o (packet_data p)) × (q.size ≡ p.size - o) × IsOwned q

copy_if_need-Copied :
    (p : DataPacket) (o : ℕ) → length (packet_data p) ≡ p.size → Copied p o (copy_if_need p o)
unfolding copy_if_need
copy_if_need-Copied p o s = elim (Bool-cases (p.copy || p.is_file)) [
  | inl owned ↦ rw owned (refl, owned)
  | inr borrowed ↦
      let plain : p.copy ≡ false = ground (arith, borrowed) in
      let bytes : packet_data p ≡ p.zero_copy_data = rw plain in
      let tail = drop o p.zero_copy_data in
      let all : take (p.size - o) tail ≡ tail =
        take_all tail (p.size - o)
          (omega (arith, length-drop o p.zero_copy_data, s, ap length bytes)) in
      rw borrowed
        (new_copy (p.size - o) (take (p.size - o) tail) ∙ all ∙ ap (drop o) (sym bytes), refl, refl)
]

copy_rest_lem :
    (ps : List DataPacket)
    → Sized ps
    → (all_data (copy_rest ps) ≡ all_data ps)
      × Sized (copy_rest ps)
      × AllOwned (copy_rest ps)
      × (length (copy_rest ps) ≡ length ps)
copy_rest_lem [] s = (refl, tt, tt, refl)
copy_rest_lem (p ∷ ps) s =
    let (e, sized, owned, same) = copy_rest_lem ps s.1 in
    let (data_same, size_same, own) =
      copied_zero (copy_if_need p 0) (copy_if_need-Copied p 0 s.0) in
    (
      rw (data_same, e) refl,
      (ap length data_same ∙ s.0 ∙ sym size_same, sized),
      (own, owned),
      ap suc same,
    )
  where
    copied_zero :
        (r : DataPacket × Bool)
        → Copied p 0 r
        → (packet_data r.0 ≡ packet_data p) × (r.0.size ≡ p.size) × IsOwned r.0
    copied_zero (q, false) (e, own) = (ap packet_data e, ap (λ x. x.size) e, rw e own)
    copied_zero (q, true) (e, n, own) = (e, n ∙ omega arith, own)

-- The packets after the copy, with the new offset.
abbrev CopiedAll : List DataPacket → ℕ → List DataPacket × ℕ → Type 0
CopiedAll ps o (qs, o') =
    Sized qs
    × HeadSize qs o'
    × (drop o' (all_data qs) ≡ drop o (all_data ps))
    × AllOwned qs
    × (length qs ≡ length ps)
    × (length (all_data qs) ≤ length (all_data ps))

copy_head :
    (p : DataPacket) (ps : List DataPacket) (o : ℕ) (r : DataPacket × Bool)
    → Sized (p ∷ ps)
    → o ≤ p.size
    → Copied p o r
    → CopiedAll (p ∷ ps) o (r.0 ∷ copy_rest ps, if r.1 then 0 else o)
copy_head p ps o (q, false) s h (e, own) =
    let (same, sized, owned, len) = copy_rest_lem ps s.1 in
    rw (e, same) ((s.0, sized), h, refl, (own, owned), ap suc len, omega arith)
copy_head p ps o (q, true) s h (e, n, own) =
    let (same, sized, owned, len) = copy_rest_lem ps s.1 in
    let q_size : length (packet_data q) ≡ q.size =
      omega (arith, ap length e, length-drop o (packet_data p), s.0, n) in
    (
      (q_size, sized),
      omega arith,
      rw (e, same) (sym (drop-append (packet_data p) (all_data ps) o (omega (arith, s.0)))),
      (own, owned),
      ap suc len,
      rw same (
          omega (
            arith,
            length-append (packet_data q) (all_data ps),
            length-append (packet_data p) (all_data ps),
            q_size,
            n,
            s.0,
          )),
    )

copy_from_lem :
    (ps : List DataPacket) (o : ℕ) → Sized ps → HeadSize ps o → CopiedAll ps o (copy_from o ps)
copy_from_lem [] o s h = absurd h
copy_from_lem (p ∷ ps) o s h = copy_head p ps o (copy_if_need p o) s h (copy_if_need-Copied p o s.0)

Sized-take : (n : ℕ) (ps qs : List DataPacket) → Sized ps → Sized qs → Sized (take n ps ++ qs)
Sized-take zero ps qs s t = t
Sized-take (suc n) [] qs s t = t
Sized-take (suc n) (p ∷ ps) qs s t = (s.0, Sized-take n ps qs s.1 t)

length-all_data-replace :
    (n : ℕ) (ps qs : List DataPacket)
    → length (all_data qs) ≤ length (all_data (drop n ps))
    → length (all_data (take n ps ++ qs)) ≤ length (all_data ps)
length-all_data-replace zero ps qs h = h
length-all_data-replace (suc n) [] qs h = h
length-all_data-replace (suc n) (p ∷ ps) qs h = omega (
  arith,
  length-all_data-replace n ps qs h,
  length-append (packet_data p) (all_data ps),
  length-append (packet_data p) (all_data (take n ps ++ qs)),
)

-- On a `ByteData` that holds less than 2^31 bytes, with the current packet in its list and the
-- offset inside that packet, `CopyDataIfNeed` keeps this and what is unsent, and where something
-- remains, no packet from the current one on points into the caller's memory any more.
pub copy_data_if_need_lem :
    (d : ByteData)
    → Inv d
    → Inv (copy_data_if_need d)
      × (unsent (copy_data_if_need d) ≡ unsent d)
      × ((remain d ≡ true)
          → AllOwned (drop (copy_data_if_need d).current_index (copy_data_if_need d).datas))
unfolding copy_data_if_need
copy_data_if_need_lem d v = elim (Bool-cases (remain d)) [
  | inr over ↦ rw over (v, refl, λ e. cc)
  | inl more ↦
      let i = d.current_index in
      let ps = drop i d.datas in
      let (sized, within, same, owned, len, total) =
        copy_from_lem ps d.offset (Sized-drop i d.datas v.sized) v.within in
      let qs = (copy_from d.offset ps).0 in
      let at : drop i (take i d.datas ++ qs) ≡ qs =
        drop-length (take i d.datas) qs i (omega (arith, length-take i d.datas, v.current)) in
      rw more (
        record {
          sized = Sized-take i d.datas qs v.sized sized;
          current = omega (
            arith,
            length-append (take i d.datas) qs,
            length-take i d.datas,
            length-drop i d.datas,
            len,
            v.current,
          );
          within = rw at within;
          small = omega (arith, length-all_data-replace i d.datas qs total, v.small);
        },
        rw at same,
        λ _. rw at owned,
      )
]

-- A packet that is not copied has no buffer.
abbrev pub Unbuffered : List DataPacket → Type 0
Unbuffered [] = Unit {0}
Unbuffered (p ∷ ps) = ((p.copy ≡ false) → (p.copy_data ≡ none)) × Unbuffered ps

pub append_last-none :
    (bytes : Bytes) (ps : List DataPacket) → Unbuffered ps → append_last bytes ps ≡ none
unfolding append_last
append_last-none bytes [] u = refl
append_last-none bytes (p ∷ []) u = ground (arith, u.0)
append_last-none bytes (p ∷ q ∷ ps) u = rw (append_last-none bytes (q ∷ ps) u.1, append_last)
