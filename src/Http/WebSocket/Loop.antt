-- ===== src/Http/WebSocket/Loop.antt =====
-- The loop of `handleMessage` ends.
use restful_cweb.Prelude.{ℕ, zero, suc, ◌≤◌, ◌<◌, inl, inr, Bytes, arith, ltb, Bool-cases}
use restful_cweb.Tcp.ByteBuffer.{ByteBuffer, read_some}
use restful_cweb.Http.WebSocket.{
  WebSocket, ParseState, mini_header, len16, len64, mask, payload, Turn, again, returns, read_field,
  take_mini_header, take_length, take_mask, take_payload, turn_at, turn, loop, go_on,
  handle_message,
}

-- How many turns a state can be from the end.
abbrev pub rank : ParseState → ℕ
rank mini_header = 4
rank len16 = 3
rank len64 = 3
rank mask = 2
rank payload = 1

-- The turn returns, or it goes on in a state that is nearer to the end.
abbrev pub Lower : ℕ → Turn → Type 0
Lower n (again next rest) = rank next.parse_state < n
Lower n (returns s effects after rest) = Unit {0}

read_field-Lower :
    (n len : ℕ) (ws : WebSocket) (buf : ByteBuffer) (k : Bytes → ByteBuffer → Turn)
    → ((bytes : Bytes) (rest : ByteBuffer) → Lower n (k bytes rest))
    → Lower n (read_field len ws buf k)
read_field-Lower n len ws buf k h = elim (Bool-cases (ltb 0 (read_some buf len).0)) [
  | inl read ↦ rw (read, Lower) (h (read_some buf len).1 (read_some buf len).2)
  | inr short ↦ rw (short, Lower) tt
]

mini_header-Lower :
    (ws : WebSocket) (bytes : Bytes) (rest : ByteBuffer) → Lower 4 (take_mini_header ws bytes rest)
mini_header-Lower ws bytes rest = ground arith

payload-Lower : (ws : WebSocket) (buf : ByteBuffer) → Lower 1 (take_payload ws buf)
payload-Lower ws buf = ground arith

turn_at-Lower :
    (p : ParseState) (ws : WebSocket) (buf : ByteBuffer) → Lower (rank p) (turn_at p ws buf)
turn_at-Lower mini_header ws buf = read_field-Lower 4 2 ws buf _ (mini_header-Lower ws)
turn_at-Lower len16 ws buf =
    read_field-Lower 3 2 ws buf (take_length ws) (λ bytes rest. omega arith)
turn_at-Lower len64 ws buf =
    read_field-Lower 3 8 ws buf (take_length ws) (λ bytes rest. omega arith)
turn_at-Lower mask ws buf = read_field-Lower 2 4 ws buf (take_mask ws) (λ bytes rest. omega arith)
turn_at-Lower payload ws buf = payload-Lower ws buf

abbrev pub IsReturned : Turn → Type 0
IsReturned (again next rest) = ⊥
IsReturned (returns s effects after rest) = Unit {0}

rank-positive : (p : ParseState) → 0 < rank p
rank-positive mini_header = omega arith
rank-positive len16 = omega arith
rank-positive len64 = omega arith
rank-positive mask = omega arith
rank-positive payload = omega arith

go_on-IsReturned :
    (n : ℕ) (k : WebSocket → ByteBuffer → Turn) (t : Turn)
    → Lower n t
    → ((next : WebSocket) (rest : ByteBuffer)
        → rank next.parse_state < n
        → IsReturned (k next rest))
    → IsReturned (go_on k t)
go_on-IsReturned n k (again next rest) low h = h next rest low
go_on-IsReturned n k (returns s effects after rest) low h = tt

loop-IsReturned :
    (f : ℕ) (ws : WebSocket) (buf : ByteBuffer)
    → rank ws.parse_state ≤ f
    → IsReturned (loop f ws buf)
unfolding loop turn
loop-IsReturned zero ws buf h = absurd (omega (arith, rank-positive ws.parse_state))
loop-IsReturned (suc f) ws buf h =
    go_on-IsReturned (rank ws.parse_state) (loop f) (turn ws buf)
      (turn_at-Lower ws.parse_state ws buf)
      (λ next rest lt. loop-IsReturned f next rest (omega (arith, lt, h)))

rank-bound : (p : ParseState) → rank p ≤ 4
rank-bound mini_header = omega arith
rank-bound len16 = omega arith
rank-bound len64 = omega arith
rank-bound mask = omega arith
rank-bound payload = omega arith

-- From every state and on every input, four turns of the loop are enough: `handleMessage` returns.
pub handle_message-IsReturned :
    (ws : WebSocket) (buf : ByteBuffer) → IsReturned (handle_message ws buf)
unfolding handle_message
handle_message-IsReturned ws buf = loop-IsReturned 4 ws buf (rank-bound ws.parse_state)
