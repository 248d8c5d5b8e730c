-- ===== src/Tcp/ByteData/Build.antt =====
-- Data put together from pieces.
use restful_cweb.Prelude.{
  ℕ, suc, ◌+◌, ◌*◌, ◌^◌, ◌<◌, ◌≡◌, refl, sym, ap, ◌∙◌, ◌≢◌, false, List, [], ◌∷◌, ◌++◌, Bytes,
  Option, none, some, arith, length, length-append, append_assoc, append-nil,
}
use restful_cweb.Tcp.ByteData.{
  DataPacket, packet_data, ByteData, new_data, all_data, push_packet, add_data_zero_copy,
  add_data_copy, add_file, append_data,
}
use restful_cweb.Tcp.ByteData.Packets.{Sized, HeadSize, unsent, Inv}
use restful_cweb.Tcp.ByteData.Copy.{Unbuffered, append_last-none, new_copy}

-- A call that adds bytes: borrowed, copied, or those of a mapped file.
pub data Piece : Type 0 where
  borrowed : Bytes → Piece
  copied : Bytes → Piece
  mapped : Bytes → Piece

abbrev pub piece_bytes : Piece → Bytes
piece_bytes (borrowed b) = b
piece_bytes (copied b) = b
piece_bytes (mapped b) = b

abbrev pub pieces_bytes : List Piece → Bytes
pieces_bytes [] = []
pieces_bytes (p ∷ ps) = piece_bytes p ++ pieces_bytes ps

abbrev or_same : Option ByteData → ByteData → ByteData
or_same none d = d
or_same (some e) d = e

abbrev pub add_piece : Piece → ByteData → ByteData
add_piece (borrowed b) d = add_data_zero_copy b d
add_piece (copied b) d = add_data_copy b d
add_piece (mapped b) d = or_same (add_file (some b) d) d

abbrev pub build : List Piece → ByteData → ByteData
build [] d = d
build (p ∷ ps) d = build ps (add_piece p d)

-- Nothing has been sent yet.
record Fresh (d : ByteData) (bytes : Bytes) (n : ℕ) : Type 0 where
  pub start : (d.current_index ≡ 0) × (d.offset ≡ 0)
  pub sized : Sized d.datas
  pub holds : all_data d.datas ≡ bytes
  pub count : length d.datas ≡ n
  pub unbuffered : Unbuffered d.datas

all_data-append : (ps qs : List DataPacket) → all_data (ps ++ qs) ≡ all_data ps ++ all_data qs
all_data-append [] qs = refl
all_data-append (p ∷ ps) qs =
    rw (all_data-append ps qs) (sym (append_assoc (packet_data p) (all_data ps) (all_data qs)))

Sized-append : (ps qs : List DataPacket) → Sized ps → Sized qs → Sized (ps ++ qs)
Sized-append [] qs s t = t
Sized-append (p ∷ ps) qs s t = (s.0, Sized-append ps qs s.1 t)

Unbuffered-append :
    (ps qs : List DataPacket) → Unbuffered ps → Unbuffered qs → Unbuffered (ps ++ qs)
Unbuffered-append [] qs s t = t
Unbuffered-append (p ∷ ps) qs s t = (s.0, Unbuffered-append ps qs s.1 t)

push_packet-Fresh :
    (p : DataPacket) (d : ByteData) (bytes more : Bytes) (n : ℕ)
    → Fresh d bytes n
    → packet_data p ≡ more
    → length more ≡ p.size
    → ((p.copy ≡ false) → (p.copy_data ≡ none))
    → Fresh (push_packet p d) (bytes ++ more) (suc n)
push_packet-Fresh p d bytes more n f e s u = record {
  start = f.start;
  sized = Sized-append d.datas (p ∷ []) f.sized (ap length e ∙ s, tt);
  holds = all_data-append d.datas (p ∷ []) ∙ rw (f.holds, append-nil (packet_data p), e);
  count = length-append d.datas (p ∷ []) ∙ omega (arith, f.count);
  unbuffered = Unbuffered-append d.datas (p ∷ []) f.unbuffered (u, tt);
}

add_piece-Fresh :
    (p : Piece) (d : ByteData) (bytes : Bytes) (n : ℕ)
    → Fresh d bytes n
    → Fresh (add_piece p d) (bytes ++ piece_bytes p) (suc n)
unfolding add_data_zero_copy add_data_copy add_file
add_piece-Fresh (borrowed b) d bytes n f = push_packet-Fresh _ d bytes b n f refl refl (λ _. refl)
add_piece-Fresh (copied b) d bytes n f =
    push_packet-Fresh _ d bytes b n f (new_copy (length b * 2) b) refl (λ e. cc)
add_piece-Fresh (mapped b) d bytes n f = push_packet-Fresh _ d bytes b n f refl refl (λ _. refl)

build-Fresh :
    (ps : List Piece) (d : ByteData) (bytes : Bytes) (n : ℕ)
    → Fresh d bytes n
    → Fresh (build ps d) (bytes ++ pieces_bytes ps) (n + length ps)
build-Fresh [] d bytes n f = let e : n + 0 ≡ n = omega arith in rw (append-nil bytes, e) f
build-Fresh (p ∷ ps) d bytes n f =
    let e : n + suc (length ps) ≡ suc n + length ps = omega arith in
    rw (e, ← append_assoc bytes (piece_bytes p) (pieces_bytes ps))
      (build-Fresh ps (add_piece p d) (bytes ++ piece_bytes p) (suc n)
        (add_piece-Fresh p d bytes n f))

new_data-Fresh : Fresh new_data [] 0
unfolding new_data
new_data-Fresh = record {
  start = (refl, refl);
  sized = tt;
  holds = refl;
  count = refl;
  unbuffered = tt;
}

HeadSize-zero : (ps : List DataPacket) → 0 < length ps → HeadSize ps 0
HeadSize-zero [] h = absurd (omega arith)
HeadSize-zero (p ∷ ps) h = omega arith

-- Data built from pieces, at least one and less than 2 ^ 31 bytes, is sound, and its pieces in
-- their order are what is to be sent.
pub build_lem :
    (ps : List Piece)
    → ps ≢ []
    → length (pieces_bytes ps) < 2 ^ 31
    → Inv (build ps new_data) × (unsent (build ps new_data) ≡ pieces_bytes ps)
build_lem [] ne small = absurd (ne refl)
build_lem (p ∷ ps) ne small =
    let d = build (p ∷ ps) new_data in
    let f = build-Fresh (p ∷ ps) new_data [] 0 new_data-Fresh in
    let (i, o) = f.start in
    (
      record {
        sized = f.sized;
        current = rw i (omega (arith, f.count));
        within = rw (i, o) (HeadSize-zero d.datas (omega (arith, f.count)));
        small = omega (arith, ap length f.holds, small);
      },
      rw (i, o) f.holds,
    )

-- `AppendData` never works: on whatever data was built, it fails its assertion or reads a null
-- pointer.
pub append_data-none :
    (ps : List Piece) (bytes : Bytes) → append_data bytes (build ps new_data) ≡ none
unfolding append_data
append_data-none ps bytes =
    let f = build-Fresh ps new_data [] 0 new_data-Fresh in
    rw (append_last-none bytes (build ps new_data).datas f.unbuffered, append_data)
