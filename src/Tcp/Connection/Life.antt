-- ===== src/Tcp/Connection/Life.antt =====
-- The life of a connection: when it is closed, and how often it says so.
use restful_cweb.Prelude.{
  ℕ, ◌≡◌, refl, inl, inr, true, false, not, ◌&&◌, List, [], ◌∷◌, ◌++◌, Bool, Bytes, Option, none,
  some, arith, Bool-cases, if◌then◌else◌, ◌∙◌, ap, sym,
}
use restful_cweb.Tcp.ByteBuffer.{readv}
use restful_cweb.Tcp.ByteData.{ByteData, writev, remain, copy_data_if_need}
use restful_cweb.Tcp.Connection.{
  Connection, ConnectState, closed, is_closed, is_empty, keep_or_delete, send_in_loop,
  stop_if_empty, after_write, handle_write, handle_close, handle_timeout, handle_read, force_close,
  connect_established, cancel_timer, resume_timer,
}

-- What a callback of the application does to its connection.
pub data Action : Type 0 where
  sends : ByteData → Option ℕ → Action
  closes : Action

unfoldable pub act : Action → Connection → Connection
act (sends d r) c = (send_in_loop d r c).1
act closes c = force_close c

unfoldable pub acts : List Action → Connection → Connection
acts [] c = c
acts (a ∷ more) c = acts more (act a c)

-- The loop reports an event, the timer runs out, or a task acts on the connection.
pub data Happening : Type 0 where
  reads : Option Bytes → List Action → Happening
  writes : Option ℕ → Happening
  times_out : Happening
  tasks : Action → Happening

abbrev written : Connection → Option (Bytes × Connection) → Connection
written c none = c
written c (some (out, e)) = e

unfoldable pub happen : Happening → Connection → Connection
happen (reads input actions) c = handle_read (acts actions) input c
happen (writes r) c = written c (handle_write r c)
happen times_out c = handle_timeout c
happen (tasks a) c = act a c

unfoldable pub live : List Happening → Connection → Connection
live [] c = c
live (h ∷ hs) c = live hs (happen h c)

-- A read event that is not stale: when the loop comes to it, reading is still asked for; and a timer
-- that is set.
abbrev pub IsTimely : Happening → Connection → Type 0
IsTimely (reads input actions) c = c.readable ≡ true
IsTimely (writes r) c = Unit {0}
IsTimely times_out c = c.timeout_timer ≡ true
IsTimely (tasks a) c = Unit {0}

abbrev pub AreTimely : List Happening → Connection → Type 0
AreTimely [] c = Unit {0}
AreTimely (h ∷ hs) c = IsTimely h c × AreTimely hs (happen h c)

-- The close callback was called once if the connection is closed, and else not at all; a closed
-- connection has no timer and does not ask to be read from.
abbrev pub closes_of : ConnectState → ℕ
closes_of s = if is_closed s then 1 else 0

-- A connection that waits for a chance to write has something to write.
abbrev pub HasQueued : Connection → Type 0
HasQueued c = (c.writable && is_empty c.send_datas) ≡ false

pub record Alive (c : Connection) : Type 0 where
  pub called : c.closes ≡ closes_of c.connect_state
  pub timer : (c.timeout_timer && is_closed c.connect_state) ≡ false
  pub reading : (c.readable && is_closed c.connect_state) ≡ false
  pub queued : HasQueued c

-- Only the queue and the event's interest in writing differ.
abbrev Same : Connection → Connection → Type 0
Same c e =
    (e.connect_state ≡ c.connect_state)
    × (e.closes ≡ c.closes)
    × (e.timeout_timer ≡ c.timeout_timer)
    × (e.readable ≡ c.readable)
    × (HasQueued c → HasQueued e)

Same-Alive : (c e : Connection) → Same c e → Alive c → Alive e
Same-Alive c e s v =
    let (state, n, t, r, w) = s in
    record {
      called = n ∙ v.called ∙ ap closes_of (sym state);
      timer = rw (t, state) v.timer;
      reading = rw (r, state) v.reading;
      queued = w v.queued;
    }

is_empty-append : (ds : List ByteData) (d : ByteData) → is_empty (ds ++ d ∷ []) ≡ false
is_empty-append [] d = refl
is_empty-append (e ∷ ds) d = refl

keep_or_delete-Same : (d : ByteData) (c : Connection) → Same c (keep_or_delete d c)
keep_or_delete-Same d c = elim (Bool-cases (remain d)) [
  | inr over ↦ rw over (refl, refl, refl, refl, λ w. w)
  | inl more ↦
      let some_data = is_empty-append c.send_datas (copy_data_if_need d) in
      rw more (elim (Bool-cases c.writable) [
        | inl on ↦ rw on (refl, refl, refl, refl, λ w. some_data)
        | inr off ↦ rw off (refl, refl, refl, refl, λ w. some_data)
      ])
]

send_in_loop-Same : (d : ByteData) (r : Option ℕ) (c : Connection) → Same c (send_in_loop d r c).1
unfolding send_in_loop
send_in_loop-Same d r c = elim (Bool-cases (is_empty c.send_datas && not c.writable)) [
  | inl idle ↦ rw idle (keep_or_delete-Same (writev r d).1 c)
  | inr busy ↦ rw busy (keep_or_delete-Same d c)
]

and_false : (b : Bool) → (b && false) ≡ false
and_false true = refl
and_false false = refl

after_write-Same :
    (d : ByteData) (ds : List ByteData) (c : Connection) → Same c (after_write d ds c)
after_write-Same d ds c = elim (Bool-cases (remain d)) [
  | inl more ↦ rw more (refl, refl, refl, refl, λ w. and_false c.writable)
  | inr over ↦ rw over (stop ds)
]
  where
    stop : (ds : List ByteData) → Same c (stop_if_empty (record c { send_datas = ds }))
    stop [] = (refl, refl, refl, refl, λ w. refl)
    stop (e ∷ es) = (refl, refl, refl, refl, λ w. and_false c.writable)

handle_write-Same : (r : Option ℕ) (c : Connection) → Same c (written c (handle_write r c))
unfolding handle_write
handle_write-Same r c = pick c.writable
  where
    front :
        (ds : List ByteData)
        → Same c (
            written c (elim ds [
              | [] ↦ none
              | d ∷ more ↦ some ((writev r d).0, after_write (writev r d).1 more c)
            ]))
    front [] = (refl, refl, refl, refl, λ w. w)
    front (d ∷ more) = after_write-Same (writev r d).1 more c

    pick :
        (b : Bool)
        → Same c (
            written c (
              if b
              then elim c.send_datas [
                | [] ↦ none
                | d ∷ more ↦ some ((writev r d).0, after_write (writev r d).1 more c)
              ]
              else some ([], c)))
    pick true = front c.send_datas
    pick false = (refl, refl, refl, refl, λ w. w)

cancel_timer_lem :
    (c : Connection)
    → ((cancel_timer c).closes ≡ c.closes)
      × ((cancel_timer c).timeout_timer ≡ false)
      × ((cancel_timer c).connect_state ≡ c.connect_state)
      × ((cancel_timer c).readable ≡ c.readable)
      × ((cancel_timer c).writable ≡ c.writable)
      × ((cancel_timer c).send_datas ≡ c.send_datas)
unfolding cancel_timer
cancel_timer_lem c = ground arith

handle_close-Alive : (c : Connection) → c.closes ≡ 0 → Alive (handle_close c)
unfolding handle_close
handle_close-Alive c e =
    let (n, t, s, r, w, q) = cancel_timer_lem (record c { connect_state = closed }) in
    record {
      called = rw s (omega (arith, n, e));
      timer = rw (t) refl;
      reading = refl;
      queued = refl;
    }

none_called : (c : Connection) → Alive c → is_closed c.connect_state ≡ false → c.closes ≡ 0
none_called c v e = v.called ∙ rw e refl

force_close-Alive : (c : Connection) → Alive c → Alive (force_close c)
unfolding force_close
force_close-Alive c v = elim (Bool-cases (is_closed c.connect_state)) [
  | inl shut ↦ rw shut v
  | inr alive ↦ rw alive (handle_close-Alive c (none_called c v alive))
]

resume_timer-Alive : (c : Connection) → Alive c → Alive (resume_timer c)
unfolding resume_timer
resume_timer-Alive c v = elim (Bool-cases (is_closed c.connect_state)) [
  | inl shut ↦ rw shut v
  | inr alive ↦
      rw alive (record { called = v.called; timer = alive; reading = v.reading; queued = v.queued })
]

act-Alive : (a : Action) (c : Connection) → Alive c → Alive (act a c)
unfolding act
act-Alive (sends d r) c v = Same-Alive c (send_in_loop d r c).1 (send_in_loop-Same d r c) v
act-Alive closes c v = force_close-Alive c v

acts-Alive : (more : List Action) (c : Connection) → Alive c → Alive (acts more c)
unfolding acts
acts-Alive [] c v = v
acts-Alive (a ∷ more) c v = acts-Alive more (act a c) (act-Alive a c v)

handle_read-Alive :
    (actions : List Action) (input : Option Bytes) (c : Connection)
    → Alive c
    → is_closed c.connect_state ≡ false
    → Alive (handle_read (acts actions) input c)
unfolding handle_read
handle_read-Alive actions none c v e =
    handle_close-Alive (cancel_timer c) ((cancel_timer_lem c).0 ∙ none_called c v e)
handle_read-Alive actions (some []) c v e =
    handle_close-Alive (cancel_timer c) ((cancel_timer_lem c).0 ∙ none_called c v e)
handle_read-Alive actions (some (b ∷ bytes)) c v e =
    let (n, t, s, r, w, q) = cancel_timer_lem c in
    resume_timer-Alive _ (
      acts-Alive actions
        (record (cancel_timer c) { inputbuffer = (readv c.inputbuffer (some (b ∷ bytes))).1 })
        (record {
          called = n ∙ v.called ∙ ap closes_of (sym s);
          timer = rw t refl;
          reading = rw (r, s) v.reading;
          queued = rw (w, q) v.queued;
        }))

happen-Alive : (h : Happening) (c : Connection) → IsTimely h c → Alive c → Alive (happen h c)
unfolding happen
happen-Alive (reads input actions) c on v =
    handle_read-Alive actions input c v (ground (arith, on, v.reading))
happen-Alive (writes r) c w v =
    Same-Alive c (written c (handle_write r c)) (handle_write-Same r c) v
happen-Alive times_out c on v =
    unfold handle_timeout in handle_close-Alive c (none_called c v (ground (arith, on, v.timer)))
happen-Alive (tasks a) c w v = act-Alive a c v

live-Alive : (hs : List Happening) (c : Connection) → AreTimely hs c → Alive c → Alive (live hs c)
unfolding live
live-Alive [] c w v = v
live-Alive (h ∷ hs) c (w, ws) v = live-Alive hs (happen h c) ws (happen-Alive h c w v)

-- Whatever happens to an established connection, with callbacks that send and close at will, where
-- no read event is stale (reading is still asked for when the loop comes to the event) and the timer
-- runs out only while it is set: the close callback is called once if the connection is closed and
-- else not at all, a closed connection has no timer and does not ask to be read from, and one that
-- asks for a chance to write has something queued, so that no write event finds the queue empty.
pub live-connect_established :
    (hs : List Happening) (c : Connection)
    → c.closes ≡ 0
    → AreTimely hs (connect_established c)
    → Alive (live hs (connect_established c))
unfolding connect_established resume_timer
live-connect_established hs c e w =
    live-Alive hs (connect_established c) w
      (record { called = e; timer = refl; reading = refl; queued = refl })
