-- ===== src/Tests/Sending.antt =====
-- Tests of the models of src/tcpserver/bytedata.cc and src/tcpserver/tcpconnection.cc.
use restful_cweb.Prelude.{
  ℕ, ◌≡◌, refl, true, false, List, [], ◌∷◌, ◌++◌, codes, Option, none, some, drop, slice, blit,
  arith,
}
use restful_cweb.Tcp.ByteBuffer.{new_buffer, readv, append, contents, writable_bytes, extend_space}
use restful_cweb.Tcp.ByteData.{
  ByteData, new_data, copy_data_if_need, copy_if_need, remain, writev, add_data_zero_copy, add_file,
  modify_index_and_offset,
}
use restful_cweb.Tcp.ByteData.Packets.{unsent, Inv}
use restful_cweb.Tcp.ByteData.Send.{writevs, writevs-unsent, AllAccept}
use restful_cweb.Tcp.ByteData.Copy.{copy_data_if_need_lem, AllOwned}
use restful_cweb.Tcp.ByteData.Build.{Piece, borrowed, mapped, build, build_lem}
use restful_cweb.Tcp.Connection.{
  Connection, connect, connect_established, send_in_loop, handle_write, handle_read, resume_timer,
  cancel_timer,
}
use restful_cweb.Tcp.Connection.Life.{
  Action, Happening, Alive, AreTimely, live, happen, acts, act, live-connect_established,
}
use restful_cweb.Tcp.Connection.Wire.{
  Step, sends, writes, perform, sent, Queue, AllPossible, Ordered, performs, performs-Ordered,
}

abbrev pieces : List Piece
pieces = borrowed (codes "HTTP/1.1 ") ∷ mapped (codes "200") ∷ borrowed (codes " OK") ∷ []

abbrev response : ByteData
response = build pieces new_data

response-Inv : Inv response
response-Inv = (build_lem pieces (λ e. cc) (omega arith)).0

copy_data_if_need_lem_example :
    Inv (copy_data_if_need response)
    × (unsent (copy_data_if_need response) ≡ unsent response)
    × ((remain response ≡ true)
        → AllOwned
            (drop (copy_data_if_need response).current_index (copy_data_if_need response).datas))
copy_data_if_need_lem_example = copy_data_if_need_lem response response-Inv

-- Ten bytes, an error, and the rest.
abbrev results : List (Option ℕ)
results = some 10 ∷ none ∷ some 5 ∷ []

accepted : AllAccept results response
unfolding writev add_data_zero_copy add_file new_data remain modify_index_and_offset
accepted = (omega arith, (tt, (omega arith, tt)))

writevs-unsent_example :
    ((writevs results response).0 ++ unsent (writevs results response).1 ≡ unsent response)
    × Inv (writevs results response).1
writevs-unsent_example = writevs-unsent results response response-Inv accepted

abbrev connection : Connection
connection = record {
  connect_state = connect;
  timeout_timer = true;
  readable = true;
  writable = false;
  registered = true;
  inputbuffer = new_buffer 0;
  send_datas = [];
  closes = 0;
}

-- Two sends, the first of them cut off, and two chances to write.
abbrev steps : List Step
steps = sends response (some 4) ∷ sends response none ∷ writes (some 11) ∷ writes (some 2) ∷ []

idle : Queue connection
idle = record { sound = tt; waits = refl }

possible : AllPossible steps connection
unfolding writev add_data_zero_copy add_file new_data remain modify_index_and_offset
    copy_data_if_need copy_if_need append contents writable_bytes extend_space new_buffer slice blit
    perform send_in_loop handle_write
possible = ((response-Inv, omega arith), ((response-Inv, tt), (omega arith, (omega arith, tt))))

performs-Ordered_example : Ordered (sent steps) connection (performs steps connection)
performs-Ordered_example = performs-Ordered steps connection possible idle

-- A request is answered in its callback, the rest is written, and the time runs out.
abbrev happenings : List Happening
happenings =
    Happening.reads (some (codes "GET")) (Action.sends response (some 4) ∷ [])
    ∷ Happening.writes (some 11)
    ∷ Happening.times_out
    ∷ Happening.tasks Action.closes
    ∷ []

timely : AreTimely happenings (connect_established connection)
unfolding writev add_data_zero_copy add_file new_data remain modify_index_and_offset
    copy_data_if_need copy_if_need append contents writable_bytes extend_space new_buffer slice blit
    connect_established happen acts act send_in_loop handle_write handle_read resume_timer
    cancel_timer readv
timely = (refl, (tt, (refl, (tt, tt))))

live-connect_established_example : Alive (live happenings (connect_established connection))
live-connect_established_example = live-connect_established happenings connection refl timely
