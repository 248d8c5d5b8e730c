-- ===== src/Tcp/ByteData/Advance.antt =====
-- `modifyIndexAndOffset`: the position moves over the packets that went out.
use restful_cweb.Prelude.{
  ℕ, suc, ◌+◌, ◌-◌, ◌^◌, ◌%◌, ◌≤◌, ◌<◌, ◌≡◌, refl, sym, ap, ◌∙◌, inl, inr, true, false, List, [],
  ◌∷◌, ◌++◌, Option, none, some, arith, length, length-append, drop, drop-length, drop_all,
  drop-drop, length-drop, Bool-cases, Option-cases, ltb, append-nil,
}
use restful_cweb.Tcp.ByteBuffer.{sub_size}
use restful_cweb.Tcp.ByteData.{
  DataPacket, packet_data, ByteData, all_data, add_int, sub_int, is_negative, advance,
  modify_index_and_offset, last_size, remain,
}
use restful_cweb.Tcp.ByteData.Packets.{
  Sized, HeadSize, unsent, Inv, Sized-drop, length-all_data-drop,
}

-- The offset lies inside the first packet.
abbrev pub HeadBelow : List DataPacket → ℕ → Type 0
HeadBelow [] n = ⊥
HeadBelow (p ∷ ps) n = n < p.size

sub_below :
    (o s : ℕ)
    → o < s
    → s < 2 ^ 31
    → (is_negative (sub_int o s) ≡ true) × (add_int (sub_int o s) s ≡ o)
sub_below o s h k = ground arith

sub_above :
    (o s : ℕ) → s ≤ o → o < 2 ^ 31 → (is_negative (sub_int o s) ≡ false) × (sub_int o s ≡ o - s)
sub_above o s h k = ground arith

-- The loop from `i` on, with the whole offset counted from the start of the packet at `i`: it stops
-- inside the packet that holds the next byte, or there is no next byte.
abbrev pub Advanced : ℕ → List DataPacket → ℕ → Option (ℕ × ℕ) → Type 0
Advanced i ps o none = drop o (all_data ps) ≡ []
Advanced i ps o (some (j, o')) =
    (k : ℕ) × (j ≡ i + k)
    × (k < length ps)
    × HeadBelow (drop k ps) o'
    × (drop o' (all_data (drop k ps)) ≡ drop o (all_data ps))

drop_packet :
    (p : DataPacket) (ps : List DataPacket) (o : ℕ)
    → length (packet_data p) ≡ p.size
    → p.size ≤ o
    → drop o (all_data (p ∷ ps)) ≡ drop (o - p.size) (all_data ps)
drop_packet p ps o e h =
    let o_is : p.size + (o - p.size) ≡ o = omega arith in
    ap (λ n. drop n (packet_data p ++ all_data ps)) (sym o_is)
    ∙ sym (drop-drop (packet_data p ++ all_data ps) (o - p.size) p.size)
    ∙ ap (drop (o - p.size)) (drop-length (packet_data p) (all_data ps) p.size (sym e))

Advanced-suc :
    (i : ℕ) (p : DataPacket) (ps : List DataPacket) (o : ℕ) (r : Option (ℕ × ℕ))
    → length (packet_data p) ≡ p.size
    → p.size ≤ o
    → Advanced (i + 1) ps (o - p.size) r
    → Advanced i (p ∷ ps) o r
Advanced-suc i p ps o none e h a = drop_packet p ps o e h ∙ a
Advanced-suc i p ps o (some (j, o')) e h (k, at, lt, below, same) =
    (suc k, omega (arith, at), omega (arith, lt), below, same ∙ sym (drop_packet p ps o e h))

advance-Advanced :
    (i : ℕ) (ps : List DataPacket) (o : ℕ)
    → Sized ps
    → length (all_data ps) < 2 ^ 31
    → o < 2 ^ 31
    → Advanced i ps o (advance i ps o)
unfolding advance
advance-Advanced i [] o s small h = drop_all [] o (omega arith)
advance-Advanced i (p ∷ ps) o s small h =
    let p_small : p.size < 2 ^ 31 =
      omega (arith, length-append (packet_data p) (all_data ps), s.0) in
    elim (Bool-cases (ltb o p.size)) [
      | inl inside ↦
          let (neg, back) = sub_below o p.size (ground (arith, inside)) p_small in
          rw (neg, back) (0, omega arith, omega arith, ground (arith, inside), refl)
      | inr beyond ↦
          let le : p.size ≤ o = ground (arith, beyond) in
          let (pos, left) = sub_above o p.size le h in
          rw pos (
            rw left (
              Advanced-suc i p ps o (advance (i + 1) ps (o - p.size)) s.0 le (
                advance-Advanced (i + 1) ps (o - p.size) s.1
                  (omega (arith, length-append (packet_data p) (all_data ps))) (omega arith))))
    ]

HeadBelow-HeadSize : (ps : List DataPacket) (n : ℕ) → HeadBelow ps n → HeadSize ps n
HeadBelow-HeadSize [] n h = h
HeadBelow-HeadSize (p ∷ ps) n h = omega arith

pub last_packet :
    (ps : List DataPacket)
    → Sized ps
    → 0 < length ps
    → HeadSize (drop (length ps - 1) ps) (last_size ps)
      × (drop (last_size ps) (all_data (drop (length ps - 1) ps)) ≡ [])
      × (last_size ps ≤ length (all_data ps))
last_packet [] s h = absurd (omega arith)
last_packet (p ∷ []) s h = (
  omega arith,
  drop_all (packet_data p ++ []) p.size
      (omega (arith, ap length (append-nil (packet_data p)), s.0)),
  omega (arith, ap length (append-nil (packet_data p)), s.0),
)
last_packet (p ∷ q ∷ ps) s h =
    let e : suc (suc (length ps)) - 1 ≡ suc (suc (length ps) - 1) = omega arith in
    let (a, b, c) = last_packet (q ∷ ps) s.1 (omega arith) in
    rw e (a, b, omega (arith, c, length-append (packet_data p) (all_data (q ∷ ps))))

pub remain_end :
    (d : ByteData)
    → d.current_index ≡ length d.datas - 1
    → d.offset ≡ last_size d.datas
    → 0 < length d.datas
    → d.offset < 2 ^ 31
    → remain d ≡ false
unfolding remain
remain_end d at o some_packet small = ground arith

-- Nothing remains only at the end of the last packet.
pub remain-false :
    (d : ByteData)
    → remain d ≡ false
    → 0 < length d.datas
    → d.offset < 2 ^ 31
    → (d.current_index ≡ length d.datas - 1) × (d.offset ≡ last_size d.datas)
unfolding remain
remain-false d e some_packet small = ground arith

-- The position is moved to where `offset` bytes from the current packet's start are passed.
abbrev pub Moved : ByteData → ByteData → Type 0
Moved d m =
    Inv m × (unsent m ≡ unsent d) × (m.datas ≡ d.datas) × ((unsent d ≡ []) → (remain m ≡ false))

HeadBelow-ne : (ps : List DataPacket) (n : ℕ) → Sized ps → HeadBelow ps n → n < length (all_data ps)
HeadBelow-ne [] n s h = absurd h
HeadBelow-ne (p ∷ ps) n s h = omega (arith, s.0, length-append (packet_data p) (all_data ps))

module _ (d : ByteData) (sized : Sized d.datas) (current : d.current_index < length d.datas)
    (small : length (all_data d.datas) < 2 ^ 31) where
  Moved-some :
      (j o k : ℕ)
      → j ≡ d.current_index + k
      → k < length (drop d.current_index d.datas)
      → HeadBelow (drop k (drop d.current_index d.datas)) o
      → drop o (all_data (drop k (drop d.current_index d.datas))) ≡ unsent d
      → Moved d (record d { current_index = j; offset = o })
  Moved-some j o k at lt below same =
      let e : drop k (drop d.current_index d.datas) ≡ drop j d.datas =
        rw at (drop-drop d.datas k d.current_index) in
      let below' = rw e at below in
      let same' = rw e at same in
      (
        record {
          sized = sized;
          current = omega (arith, at, length-drop d.current_index d.datas);
          within = HeadBelow-HeadSize (drop j d.datas) o below';
          small = small;
        },
        same',
        refl,
        λ empty. absurd (
            omega (
              arith,
              HeadBelow-ne (drop j d.datas) o (Sized-drop j d.datas sized) below',
              length-drop o (all_data (drop j d.datas)),
              ap length (same' ∙ empty),
            )),
      )

  Moved-none :
      unsent d ≡ []
      → Moved d (record d {
        current_index = sub_size (length d.datas) 1;
        offset = last_size d.datas % 2 ^ 32;
      })
  Moved-none empty =
      let (a, b, c) = last_packet d.datas sized (omega (arith, current)) in
      let at : sub_size (length d.datas) 1 ≡ length d.datas - 1 = ground (arith, current) in
      let o : last_size d.datas % 2 ^ 32 ≡ last_size d.datas = omega (arith, c, small) in
      rw (at, o)
        (
          record { sized = sized; current = omega (arith, current); within = a; small = small },
          b ∙ sym empty,
          refl,
          λ _. remain_end _ refl refl (omega (arith, current)) (omega (arith, c, small)),
        )

  pub modify_lem : d.offset < 2 ^ 31 → Moved d (modify_index_and_offset d)
  unfolding modify_index_and_offset
  modify_lem h =
      let a =
        advance-Advanced d.current_index (drop d.current_index d.datas) d.offset
          (Sized-drop d.current_index d.datas sized)
          (omega (arith, length-all_data-drop d.current_index d.datas)) h in
      elim (Option-cases (advance d.current_index (drop d.current_index d.datas) d.offset)) [
        | inl e ↦ rw (e, modify_index_and_offset) (Moved-none (rw e at a))
        | inr (jo, e) ↦
            let (k, at, lt, below, same) = rw e at a in
            rw (e, modify_index_and_offset) (Moved-some jo.0 jo.1 k at lt below same)
      ]
