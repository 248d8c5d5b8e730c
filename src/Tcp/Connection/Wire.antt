-- ===== src/Tcp/Connection/Wire.antt =====
-- What goes over the wire: the data in the order in which it was sent.
use restful_cweb.Prelude.{
  ℕ, ◌≡◌, refl, sym, ap, ◌∙◌, inl, inr, true, false, not, ◌&&◌, List, [], ◌∷◌, ◌++◌, Bytes, Option,
  none, some, arith, append_assoc, append-nil, Bool-cases,
}
use restful_cweb.Tcp.ByteData.{ByteData, writev, remain, copy_data_if_need}
use restful_cweb.Tcp.ByteData.Packets.{Inv, unsent}
use restful_cweb.Tcp.ByteData.Send.{Accepts, writev-Sent, remain-unsent}
use restful_cweb.Tcp.ByteData.Copy.{copy_data_if_need_lem}
use restful_cweb.Tcp.Connection.{
  Connection, is_empty, keep_or_delete, send_in_loop, handle_write, after_write, stop_if_empty,
}

-- The bytes that are queued.
abbrev pub pending : List ByteData → Bytes
pending [] = []
pending (d ∷ ds) = unsent d ++ pending ds

abbrev pub AllInv : List ByteData → Type 0
AllInv [] = Unit {0}
AllInv (d ∷ ds) = Inv d × AllInv ds

-- The event waits for the socket to be writable exactly while data is queued.
pub record Queue (c : Connection) : Type 0 where
  pub sound : AllInv c.send_datas
  pub waits : c.writable ≡ not (is_empty c.send_datas)

pending-append : (ds es : List ByteData) → pending (ds ++ es) ≡ pending ds ++ pending es
pending-append [] es = refl
pending-append (d ∷ ds) es =
    rw (pending-append ds es) (sym (append_assoc (unsent d) (pending ds) (pending es)))

AllInv-append : (ds es : List ByteData) → AllInv ds → AllInv es → AllInv (ds ++ es)
AllInv-append [] es v w = w
AllInv-append (d ∷ ds) es v w = (v.0, AllInv-append ds es v.1 w)

is_empty-append : (ds : List ByteData) (d : ByteData) → is_empty (ds ++ d ∷ []) ≡ false
is_empty-append [] d = refl
is_empty-append (e ∷ ds) d = refl

-- Data is queued, or it has nothing left.
keep_or_delete_lem :
    (d : ByteData) (c : Connection)
    → Inv d
    → Queue c
    → Queue (keep_or_delete d c)
      × (pending (keep_or_delete d c).send_datas ≡ pending c.send_datas ++ unsent d)
keep_or_delete_lem d c v q = elim (Bool-cases (remain d)) [
  | inr over ↦ rw over (q, rw (remain-unsent d v over) (sym (append-nil (pending c.send_datas))))
  | inl more ↦
      let (w, same, owned) = copy_data_if_need_lem d v in
      let sound = AllInv-append c.send_datas (copy_data_if_need d ∷ []) q.sound (w, tt) in
      let bytes : pending (c.send_datas ++ copy_data_if_need d ∷ [])
          ≡ pending c.send_datas ++ unsent d =
        pending-append c.send_datas (copy_data_if_need d ∷ []) ∙ rw (same, append-nil (unsent d)) in
      let some_data = is_empty-append c.send_datas (copy_data_if_need d) in
      rw more (elim (Bool-cases c.writable) [
        | inl on ↦ rw on (record { sound = sound; waits = rw some_data refl }, bytes)
        | inr off ↦ rw off (record { sound = sound; waits = rw some_data refl }, bytes)
      ])
]

-- A call of `Send`, with the result of `writev` if it is made at once, or the poller's word that
-- the socket is writable, with that of the `writev` there.
pub data Step : Type 0 where
  sends : ByteData → Option ℕ → Step
  writes : Option ℕ → Step

unfoldable pub perform : Step → Connection → Option (Bytes × Connection)
perform (sends d r) c = some (send_in_loop d r c)
perform (writes r) c = handle_write r c

abbrev pub sent_bytes : Step → Bytes
sent_bytes (sends d r) = unsent d
sent_bytes (writes r) = []

-- The data sent is sound, and the results are ones that the system call can have for the data that
-- it is given.
abbrev pub AcceptsFirst : List ByteData → Option ℕ → Type 0
AcceptsFirst [] r = Unit {0}
AcceptsFirst (d ∷ ds) r = Accepts d r

abbrev pub Possible : Step → Connection → Type 0
Possible (sends d r) c = Inv d × Accepts d r
Possible (writes r) c = AcceptsFirst c.send_datas r

-- What goes out, with what is queued afterwards, is what was queued and then what was sent.
abbrev pub Ordered : Bytes → Connection → Option (Bytes × Connection) → Type 0
Ordered bytes c none = ⊥
Ordered bytes c (some (out, e)) =
    Queue e × (out ++ pending e.send_datas ≡ pending c.send_datas ++ bytes)

send_in_loop_lem :
    (d : ByteData) (r : Option ℕ) (c : Connection)
    → Inv d
    → Accepts d r
    → Queue c
    → Ordered (unsent d) c (some (send_in_loop d r c))
unfolding send_in_loop
send_in_loop_lem d r c v a q = elim (Bool-cases (is_empty c.send_datas && not c.writable)) [
  | inr busy ↦ rw busy (keep_or_delete_lem d c v q)
  | inl idle ↦
      let none_queued : c.send_datas ≡ [] = ground (arith, idle) in
      let (w, e, fin) = writev-Sent d r v a in
      let (k, p) = keep_or_delete_lem (writev r d).1 c w q in
      rw idle (k, ap (λ l. (writev r d).0 ++ l) p ∙ rw none_queued e)
]

after_write_lem :
    (d : ByteData) (ds : List ByteData) (c : Connection)
    → Inv d
    → AllInv ds
    → c.writable ≡ true
    → Queue (after_write d ds c)
      × (pending (after_write d ds c).send_datas ≡ unsent d ++ pending ds)
after_write_lem d ds c v vs on = elim (Bool-cases (remain d)) [
  | inl more ↦ rw more (record { sound = (v, vs); waits = on }, refl)
  | inr over ↦ rw over (rw (remain-unsent d v over) (stop ds vs))
]
  where
    stop :
        (ds : List ByteData)
        → AllInv ds
        → Queue (stop_if_empty (record c { send_datas = ds }))
          × (pending (stop_if_empty (record c { send_datas = ds })).send_datas ≡ pending ds)
    stop [] vs = (record { sound = tt; waits = refl }, refl)
    stop (e ∷ es) vs = (record { sound = vs; waits = on }, refl)

handle_write-queued :
    (r : Option ℕ) (c : Connection) (d : ByteData) (ds : List ByteData)
    → c.send_datas ≡ d ∷ ds
    → c.writable ≡ true
    → handle_write r c ≡ some ((writev r d).0, after_write (writev r d).1 ds c)
unfolding handle_write
handle_write-queued r c d ds e on = rw (e, on) refl

write_queued :
    (r : Option ℕ) (c : Connection) (ds : List ByteData)
    → c.send_datas ≡ ds
    → AllInv ds
    → c.writable ≡ true
    → c.writable ≡ not (is_empty ds)
    → AcceptsFirst ds r
    → Ordered [] c (handle_write r c)
write_queued r c [] e vs on w a = absurd (ground (arith, on, w))
write_queued r c (d ∷ ds) e vs on w a =
    let (v, same, fin) = writev-Sent d r vs.0 a in
    let (q, p) = after_write_lem (writev r d).1 ds c v vs.1 on in
    rw (handle_write-queued r c d ds e on, Ordered, e)
      (
        q,
        ap (λ l. (writev r d).0 ++ l) p
            ∙ sym (append_assoc (writev r d).0 (unsent (writev r d).1) (pending ds))
            ∙ ap (λ l. l ++ pending ds) same
            ∙ sym (append-nil (unsent d ++ pending ds)),
      )

handle_write_lem :
    (r : Option ℕ) (c : Connection)
    → Queue c
    → AcceptsFirst c.send_datas r
    → Ordered [] c (handle_write r c)
unfolding handle_write
handle_write_lem r c q a = elim (Bool-cases c.writable) [
  | inr off ↦ simp off (q, sym (append-nil (pending c.send_datas)))
  | inl on ↦ write_queued r c c.send_datas refl q.sound on q.waits a
]

-- A run of the steps, and what was sent in it.
unfoldable pub performs : List Step → Connection → Option (Bytes × Connection)
performs [] c = some ([], c)
performs (s ∷ ss) c = elim (perform s c) [
  | none ↦ none
  | some (out, e) ↦ elim (performs ss e) [ none ↦ none | some (more, f) ↦ some (out ++ more, f) ]
]

abbrev pub sent : List Step → Bytes
sent [] = []
sent (s ∷ ss) = sent_bytes s ++ sent ss

abbrev pub Afterwards : (Connection → Type 0) → Option (Bytes × Connection) → Type 0
Afterwards P none = Unit {0}
Afterwards P (some (out, c)) = P c

abbrev pub AllPossible : List Step → Connection → Type 0
AllPossible [] c = Unit {0}
AllPossible (s ∷ ss) c = Possible s c × Afterwards (AllPossible ss) (perform s c)

perform_lem :
    (s : Step) (c : Connection) → Possible s c → Queue c → Ordered (sent_bytes s) c (perform s c)
unfolding perform
perform_lem (sends d r) c p q = send_in_loop_lem d r c p.0 p.1 q
perform_lem (writes r) c p q = handle_write_lem r c q p

prepend_Ordered :
    (before bytes out : Bytes) (c d : Connection) (t : Option (Bytes × Connection))
    → out ++ pending d.send_datas ≡ pending c.send_datas ++ before
    → Ordered bytes d t
    → Ordered (before ++ bytes) c (elim t [ none ↦ none | some (more, f) ↦ some (out ++ more, f) ])
prepend_Ordered before bytes out c d none e v = absurd v
prepend_Ordered before bytes out c d (some (more, f)) e v = (
  v.0,
  append_assoc out more (pending f.send_datas)
      ∙ ap (λ l. out ++ l) v.1
      ∙ sym (append_assoc out (pending d.send_datas) bytes)
      ∙ ap (λ l. l ++ bytes) e
      ∙ append_assoc (pending c.send_datas) before bytes,
)

chain :
    (s : Step) (ss : List Step) (c : Connection) (r : Option (Bytes × Connection))
    → perform s c ≡ r
    → Ordered (sent_bytes s) c r
    → Afterwards (AllPossible ss) r
    → ((d : Connection) → AllPossible ss d → Queue d → Ordered (sent ss) d (performs ss d))
    → Ordered (sent (s ∷ ss)) c (performs (s ∷ ss) c)
unfolding performs
chain s ss c none e o p f = absurd o
chain s ss c (some (out, d)) e o p f =
    rw (e, Ordered)
      (prepend_Ordered (sent_bytes s) (sent ss) out c d (performs ss d) o.1 (f d p o.0))

-- Whatever is sent in whatever order, and however the kernel cuts it or fails: from a connection
-- whose queue is sound, with sound data and possible results of `writev`, the run reads no empty
-- queue, and what went out with what is queued at the end are, in this order, what was queued at
-- the start and all that was sent. The event waits for the socket exactly while data is queued.
pub performs-Ordered :
    (ss : List Step) (c : Connection)
    → AllPossible ss c
    → Queue c
    → Ordered (sent ss) c (performs ss c)
unfolding performs
performs-Ordered [] c p q = (q, sym (append-nil (pending c.send_datas)))
performs-Ordered (s ∷ ss) c p q =
    chain s ss c (perform s c) refl (perform_lem s c p.0 q) p.1 (performs-Ordered ss)
