-- ===== src/Tcp/ByteData/Send.antt =====
-- `Writev`, once and again and again, sends the bytes in order.
use restful_cweb.Prelude.{
  ℕ, ◌+◌, ◌^◌, ◌≤◌, ◌<◌, ◌≡◌, refl, sym, ◌∙◌, inl, inr, false, List, [], ◌∷◌, ◌++◌, Bytes, Option,
  none, some, arith, ◌==◌, length, length-append, take, drop, take-append-drop, append_assoc,
  drop-drop, length-drop, Bool-cases,
}
use restful_cweb.Tcp.ByteData.{
  DataPacket, packet_data, ByteData, all_data, add_int, iovecs, writev, remain,
  modify_index_and_offset,
}
use restful_cweb.Tcp.ByteData.Packets.{
  Sized, HeadSize, unsent, Inv, Sized-drop, iovecs-unsent, length-all_data-drop,
}
use restful_cweb.Tcp.ByteData.Advance.{modify_lem, remain-false, last_packet}

pub HeadSize-le :
    (ps : List DataPacket) (n : ℕ) → Sized ps → HeadSize ps n → n ≤ length (all_data ps)
HeadSize-le [] n s h = absurd h
HeadSize-le (p ∷ ps) n s h = omega (arith, s.0, length-append (packet_data p) (all_data ps))

pub offset_small : (d : ByteData) → Inv d → d.offset < 2 ^ 31
offset_small d v = omega (
  arith,
  HeadSize-le (drop d.current_index d.datas) d.offset (Sized-drop d.current_index d.datas v.sized)
      v.within,
  length-all_data-drop d.current_index d.datas,
  v.small,
)

-- Where nothing remains, nothing is unsent.
pub remain-unsent : (d : ByteData) → Inv d → remain d ≡ false → unsent d ≡ []
remain-unsent d v e =
    let (at, o) = remain-false d e (omega (arith, v.current)) (offset_small d v) in
    rw (at, o) ((last_packet d.datas v.sized (omega (arith, v.current))).1)

-- A result of the system call: an error, or a count of at most the bytes that it was given.
abbrev pub Accepts : ByteData → Option ℕ → Type 0
Accepts d none = Unit {0}
Accepts d (some n) = n ≤ length (unsent d)

-- What went out and what is still unsent are together what was unsent before. Where all of it went
-- out in a call that sent something, `Remain` says so.
abbrev pub Sent : ByteData → Option ℕ → Bytes × ByteData → Type 0
Sent d r (out, e) =
    Inv e × (out ++ unsent e ≡ unsent d) × ((0 < length out) → (unsent e ≡ []) → (remain e ≡ false))

advance_Sent :
    (d : ByteData) (n : ℕ)
    → Inv d
    → n ≤ length (unsent d)
    → Sent d (some n) (
      take n (iovecs d.offset (drop d.current_index d.datas)),
      modify_index_and_offset (record d { offset = add_int d.offset n }),
    )
advance_Sent d n v h =
    let ps = drop d.current_index d.datas in
    let s = Sized-drop d.current_index d.datas v.sized in
    let within : d.offset + n < 2 ^ 31 = omega (
      arith,
      h,
      HeadSize-le ps d.offset s v.within,
      length-drop d.offset (all_data ps),
      length-all_data-drop d.current_index d.datas,
      v.small,
    ) in
    let add : add_int d.offset n ≡ d.offset + n = omega (arith, within) in
    let (w, u, same, fin) =
      modify_lem (record d { offset = add_int d.offset n }) v.sized v.current v.small
        (omega (arith, within)) in
    let moved : drop (add_int d.offset n) (all_data ps) ≡ drop n (unsent d) =
      rw add (sym (drop-drop (all_data ps) n d.offset)) in
    (
      w,
      rw (u ∙ moved, iovecs-unsent ps d.offset s v.within) (take-append-drop n (unsent d)),
      λ _ empty. fin (sym u ∙ empty),
    )

pub writev-Sent : (d : ByteData) (r : Option ℕ) → Inv d → Accepts d r → Sent d r (writev r d)
unfolding writev
writev-Sent d none v h = (v, refl, λ lt. absurd (omega arith))
writev-Sent d (some n) v h = elim (Bool-cases (remain d)) [
  | inr over ↦ rw over (v, refl, λ lt. absurd (omega arith))
  | inl more ↦ rw more (elim (Bool-cases (n == 0)) [
    | inl nothing ↦ rw nothing (v, refl, λ lt. absurd (omega arith))
    | inr something ↦ rw something (advance_Sent d n v h)
  ])
]

-- What goes out in one call after the other, each with its result of the system call.
unfoldable pub writevs : List (Option ℕ) → ByteData → Bytes × ByteData
writevs [] d = ([], d)
writevs (r ∷ rs) d = let (out, e) = writev r d in let (more, f) = writevs rs e in (out ++ more, f)

-- Each result is one that the system call can have there.
abbrev pub AllAccept : List (Option ℕ) → ByteData → Type 0
AllAccept [] d = Unit {0}
AllAccept (r ∷ rs) d = Accepts d r × AllAccept rs (writev r d).1

-- A `ByteData` that holds less than 2^31 bytes, with the current packet in its list and the offset
-- inside that packet, and calls of `Writev` whose results are ones that the system call can have,
-- errors in between: however the kernel cuts the data, the bytes that went out and those still
-- unsent are, in this order, the bytes that were to be sent, and the data stay as described.
pub writevs-unsent :
    (rs : List (Option ℕ)) (d : ByteData)
    → Inv d
    → AllAccept rs d
    → ((writevs rs d).0 ++ unsent (writevs rs d).1 ≡ unsent d) × Inv (writevs rs d).1
unfolding writevs
writevs-unsent [] d v h = (refl, v)
writevs-unsent (r ∷ rs) d v h =
    let (w, e, fin) = writev-Sent d r v h.0 in
    let (e', w') = writevs-unsent rs (writev r d).1 w h.1 in
    (
      append_assoc (writev r d).0 (writevs rs (writev r d).1).0
            (unsent (writevs rs (writev r d).1).1)
          ∙ rw e' e,
      w',
    )
