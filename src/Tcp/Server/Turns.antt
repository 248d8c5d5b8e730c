-- ===== src/Tcp/Server/Turns.antt =====
-- The loops get the connections in turn.
use restful_cweb.Prelude.{
  ℕ, suc, ◌+◌, ◌%◌, ◌≤◌, ◌≡◌, refl, sym, ap, ◌∙◌, List, [], ◌∷◌, ◌++◌, append_assoc, append-nil,
  Bytes, assign, none, some, if◌then◌else◌, pos, increment, arith, ltb, leb, ◌==◌, ◌&&◌, ◌||◌, inl,
  inr, Bool-cases, length,
}
use mathlib.Core.Path.{subst}
use native.Mathlib.Nat.{mod-eq_of_lt, mod_self}
use restful_cweb.Tcp.Server.{
  Scheduler, take_loop, get_next_loop, Server, new_server, add_connection, handle_accept,
  handle_connection_close, remove_connection_in_loop, Call, accept, close, task, first_task,
  after_call, calls,
}

-- The connections that were accepted.
abbrev pub accepted : List Call → List Bytes
accepted [] = []
accepted (accept none ∷ cs) = accepted cs
accepted (accept (some id) ∷ cs) = id ∷ accepted cs
accepted (close id ∷ cs) = accepted cs
accepted (task ∷ cs) = accepted cs

-- The loop after `x`, of loops up to `c`.
abbrev pub next_turn : ℕ → ℕ → ℕ
next_turn c x = if x == c then 0 else x + 1

-- Connections dealt out in turn, from `x` on.
unfoldable pub dealt : ℕ → ℕ → List Bytes → List (Bytes × ℕ)
dealt c x [] = []
dealt c x (id ∷ ids) = (id, x) ∷ dealt c (next_turn c x) ids

-- How many a loop gets.
unfoldable pub share : ℕ → List (Bytes × ℕ) → ℕ
share l [] = 0
share l ((id, x) ∷ ds) = (if x == l then 1 else 0) + share l ds

-- From `x` on, and of no more than there are loops, `l` gets one if its turn comes.
share-dealt :
    (c x l : ℕ) (ids : List Bytes)
    → x ≤ c
    → l ≤ c
    → length ids ≤ c + 1
    → share l (dealt c x ids)
      ≡ (if (leb x l && ltb l (x + length ids)) || ltb (l + c + 1) (x + length ids) then 1 else 0)
unfolding share dealt
share-dealt c x l [] h k m = ground arith
share-dealt c x l (id ∷ ids) h k m = elim (Bool-cases (x == c)) [
  | inl last ↦ rw last (ground (arith, share-dealt c 0 l ids))
  | inr inner ↦ rw inner (ground (arith, share-dealt c (x + 1) l ids))
]

next_turn_lem : (c x : ℕ) → x ≤ c → suc x % suc c ≡ next_turn c x
next_turn_lem c x h = elim (Bool-cases (x == c)) [
  | inl last ↦
      let e : suc x ≡ suc c = ground arith in
      ap (λ n. n % suc c) e ∙ mod_self (suc c) ∙ ap (λ b. if b then 0 else x + 1) (sym last)
  | inr inner ↦
      let e : x + 1 ≡ suc x = omega arith in
      mod-eq_of_lt (ground arith) ∙ sym e ∙ ap (λ b. if b then 0 else x + 1) (sym inner)
]

-- The scheduler is about to give the loop `x`.
record IsAt (c x : ℕ) (s : Scheduler) : Type 0 where
  count : s.threadcnt ≡ suc c
  number : ℕ
  stands : increment s.next ≡ pos number
  turn : number % suc c ≡ x
  bound : x ≤ c

get_next_loop_lem :
    (c x : ℕ) (s : Scheduler)
    → IsAt c x s
    → get_next_loop s ≡ some (x, record { next = pos x; threadcnt = suc c })
unfolding get_next_loop
get_next_loop_lem c x s v =
    ap (λ n. take_loop n s.threadcnt) v.stands
    ∙ ap (take_loop (pos v.number)) v.count
    ∙ ap (λ y. some (y, record { next = pos y; threadcnt = suc c })) v.turn

next_turn-bound : (c x : ℕ) → x ≤ c → next_turn c x ≤ c
next_turn-bound c x h = ground arith

IsAt-next : (c x : ℕ) → x ≤ c → IsAt c (next_turn c x) (record { next = pos x; threadcnt = suc c })
IsAt-next c x h = record {
  count = refl;
  number = suc x;
  stands = refl;
  turn = next_turn_lem c x h;
  bound = next_turn-bound c x h;
}

first_task_scheduler : (ids : List Bytes) (s : Server) → (first_task ids s).scheduler ≡ s.scheduler
unfolding remove_connection_in_loop
first_task_scheduler [] s = refl
first_task_scheduler (id ∷ ids) s = refl

first_task_established :
    (ids : List Bytes) (s : Server) → (first_task ids s).established ≡ s.established
unfolding remove_connection_in_loop
first_task_established [] s = refl
first_task_established (id ∷ ids) s = refl

calls_lem :
    (cs : List Call) (c x : ℕ) (s : Server)
    → IsAt c x s.scheduler
    → (t : Server) × (y : ℕ) × IsAt c y t.scheduler
      × (calls cs s ≡ some t)
      × (t.established ≡ s.established ++ dealt c x (accepted cs))
unfolding calls handle_accept dealt
calls_lem [] c x s v = (s, x, v, refl, sym (append-nil s.established))
calls_lem (accept none ∷ cs) c x s v = calls_lem cs c x s v
calls_lem (accept (some id) ∷ cs) c x s v =
    let (t, y, w, runs, e) =
      calls_lem cs c (next_turn c x)
        (record s {
          scheduler = record { next = pos x; threadcnt = suc c };
          living_connections = assign id x s.living_connections;
          established = s.established ++ (id, x) ∷ [];
        })
        (IsAt-next c x v.bound) in
    (
      t,
      y,
      w,
      ap (λ o. after_call (calls cs) (add_connection id s o)) (get_next_loop_lem c x s.scheduler v)
          ∙ runs,
      e ∙ append_assoc s.established ((id, x) ∷ []) (dealt c (next_turn c x) (accepted cs)),
    )
calls_lem (close id ∷ cs) c x s v = calls_lem cs c x (handle_connection_close id s) v
calls_lem (task ∷ cs) c x s v =
    let (t, y, w, runs, e) =
      calls_lem cs c x (first_task s.tasks s)
        (subst (IsAt c x) (sym (first_task_scheduler s.tasks s)) v) in
    (t, y, w, runs, e ∙ ap (λ l. l ++ dealt c x (accepted cs)) (first_task_established s.tasks s))

-- With one loop or more, whatever accepts, closes and removals the server has met and meets, it
-- never divides by zero nor reads out of `loops_`; and of as many connections accepted one after the
-- other as there are loops, from any point on, each loop is given exactly one to establish.
pub calls-share :
    (c l : ℕ) (earlier cs : List Call)
    → l ≤ c
    → length (accepted cs) ≡ suc c
    → (s t : Server) × (new : List (Bytes × ℕ)) × (calls earlier (new_server (suc c)) ≡ some s)
      × (calls cs s ≡ some t)
      × (t.established ≡ s.established ++ new)
      × (share l new ≡ 1)
calls-share c l earlier cs h k =
    let (s, x, v, before, e) = calls_lem earlier c 0 (new_server (suc c)) (record {
      count = refl;
      number = 0;
      stands = refl;
      turn = mod-eq_of_lt (omega arith);
      bound = omega arith;
    }) in
    let (t, y, w, runs, f) = calls_lem cs c x s v in
    let shared = share-dealt c x l (accepted cs) v.bound h (omega arith) in
    (s, t, dealt c x (accepted cs), before, runs, f, ground (arith, shared, v.bound))
