-- ===== src/Tcp/Connection.antt =====
-- `TcpConnection` of src/tcpserver/tcpconnection.h and src/tcpserver/tcpconnection.cc, on the
-- thread of its event loop. What the system calls return and what the message callback does are
-- arguments. The calls of `event_` and of the loop's timers are their effects on flags. The calls of
-- `connected_callback_`, which only tell the application, are left out.
pub mod Wire
pub mod Life
use restful_cweb.Prelude.{
  ℕ, suc, ◌+◌, Bool, true, false, not, ◌&&◌, List, [], ◌∷◌, ◌++◌, Bytes, Option, none, some,
  if◌then◌else◌,
}
use restful_cweb.Tcp.ByteBuffer.{ByteBuffer, readv}
use restful_cweb.Tcp.ByteData.{
  ByteData, writev, remain, copy_data_if_need, new_data, add_data_zero_copy,
}

pub data ConnectState : Type 0 where
  init connect closed : ConnectState

-- `readable` and `writable` are the bits of `events_`, `registered` says that the poller has the
-- event, and `closes` counts the calls of `close_callback_`.
pub record Connection : Type 0 where
  pub connect_state : ConnectState
  pub timeout_timer : Bool
  pub readable : Bool
  pub writable : Bool
  pub registered : Bool
  pub inputbuffer : ByteBuffer
  pub send_datas : List ByteData
  pub closes : ℕ

abbrev pub is_closed : ConnectState → Bool
is_closed closed = true
is_closed _ = false

-- `connect_state_ == Connected()` compares the state, 0, 1 or 2, with a truth value: it holds of
-- INIT and CONNECT.
unfoldable pub resume_timer : Connection → Connection
resume_timer c = if is_closed c.connect_state then c else record c { timeout_timer = true }

unfoldable pub cancel_timer : Connection → Connection
cancel_timer c = if c.timeout_timer then record c { timeout_timer = false } else c

-- `event_->EnableReading()` and its like, each with its update of the poller.
abbrev pub enable_reading : Connection → Connection
enable_reading c = record c { readable = true; registered = true }

abbrev pub enable_writing : Connection → Connection
enable_writing c = record c { writable = true; registered = true }

abbrev pub disable_writing : Connection → Connection
disable_writing c = record c { writable = false; registered = true }

unfoldable pub handle_close : Connection → Connection
unfolding cancel_timer
handle_close c =
    let stopped = cancel_timer (record c { connect_state = closed }) in
    record stopped {
      readable = false;
      writable = false;
      registered = false;
      closes = stopped.closes + 1;
    }

unfoldable pub handle_timeout : Connection → Connection
unfolding handle_close
handle_timeout c = handle_close c

-- `ForceClose` on the loop's thread, with `forceCloseInLoop`.
unfoldable pub force_close : Connection → Connection
unfolding handle_close
force_close c = if is_closed c.connect_state then c else handle_close c

-- The event is a new one, which asks for nothing yet.
unfoldable pub connect_established : Connection → Connection
unfolding resume_timer
connect_established c =
    resume_timer
      (record (enable_reading (record c { writable = false })) { connect_state = connect })

-- A read of `input`: `none` is an error, and no bytes the end of the stream.
unfoldable pub handle_read : (Connection → Connection) → Option Bytes → Connection → Connection
unfolding cancel_timer resume_timer handle_close readv
handle_read callback none c = handle_close (cancel_timer c)
handle_read callback (some []) c = handle_close (cancel_timer c)
handle_read callback (some (b ∷ bytes)) c = resume_timer (
    callback (record (cancel_timer c) { inputbuffer = (readv c.inputbuffer (some (b ∷ bytes))).1 }))

abbrev pub is_empty : List ByteData → Bool
is_empty [] = true
is_empty (d ∷ ds) = false

abbrev pub keep_or_delete : ByteData → Connection → Connection
keep_or_delete d c =
    if remain d
    then (let queued = record c { send_datas = c.send_datas ++ copy_data_if_need d ∷ [] } in
        if queued.writable then queued else enable_writing queued)
    else c

-- `sendInLoop`, with the result of `writev` if it is called; the bytes that go out, and the
-- connection.
unfoldable pub send_in_loop : ByteData → Option ℕ → Connection → Bytes × Connection
send_in_loop d r c =
    if is_empty c.send_datas && not c.writable
    then ((writev r d).0, keep_or_delete (writev r d).1 c)
    else ([], keep_or_delete d c)

-- The end of `handleWrite`.
abbrev pub stop_if_empty : Connection → Connection
stop_if_empty c = if is_empty c.send_datas then disable_writing c else c

abbrev pub after_write : ByteData → List ByteData → Connection → Connection
after_write d ds c =
    if remain d
    then record c { send_datas = d ∷ ds }
    else stop_if_empty (record c { send_datas = ds })

-- `handleWrite`; `none` is the read of the front of an empty queue.
unfoldable pub handle_write : Option ℕ → Connection → Option (Bytes × Connection)
handle_write r c =
    if c.writable
    then elim c.send_datas [
      | [] ↦ none
      | d ∷ ds ↦ some ((writev r d).0, after_write (writev r d).1 ds c)
    ]
    else some ([], c)
