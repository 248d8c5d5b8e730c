-- ===== src/Util/LockfreeQueue/Moves.antt =====
-- Each step of a thread keeps the invariant.
use restful_cweb.Prelude.{
  ℕ, suc, ◌+◌, ◌%◌, ◌<◌, ◌≡◌, refl, sym, ap, ◌∙◌, inl, inr, arith, Bool-cases, ltb, ◌==◌,
  if◌then◌else◌, List, [], ◌∷◌, ◌++◌, length, length-append, get_or, set, drop-append, Bool, true,
  false, drop, length-set, append_assoc,
}
use mathlib.Core.Path.{subst}
use native.Mathlib.Nat.{mod-lt}
use restful_cweb.Util.LockfreeQueue.Ring.{
  mod-after, get_or-set_self, get_or-set_ne, get_or-append_end, get_or-append_front,
}
use restful_cweb.Util.LockfreeQueue.{
  Producer, resting, loaded, has_room, written, Consumer, idle, loaded_front, not_empty, copied,
  Queue, after, test_room, write_slot, store_back, test_empty, read_slot, store_front,
}
use restful_cweb.Util.LockfreeQueue.Invariant.{
  Pushing, Popping, Inv, Pushing-pop, Popping-push, free_slot, distinct, drop_one, room_left,
  some_left,
}

module _ {A : Type 0} (capacity : ℕ) (other : A) where
  -- A step of one thread that only changes what it knows.
  pub producer_to :
      (q : Queue A) (w r : ℕ) (p : Producer A)
      → Inv capacity other q w r
      → Pushing capacity other w r q.ring q.back p
      → Inv capacity other (record q { producer = p }) w r
  producer_to q w r p v h = record {
    pushes = v.pushes;
    pops = v.pops;
    size = v.size;
    back_at = v.back_at;
    front_at = v.front_at;
    fewer = v.fewer;
    room = v.room;
    slots = v.slots;
    prefix = v.prefix;
    pushing = h;
    popping = v.popping;
  }

  pub consumer_to :
      (q : Queue A) (w r : ℕ) (c : Consumer A)
      → Inv capacity other q w r
      → Popping capacity other w r q.pushed q.front c
      → Inv capacity other (record q { consumer = c }) w r
  consumer_to q w r c v h = record {
    pushes = v.pushes;
    pops = v.pops;
    size = v.size;
    back_at = v.back_at;
    front_at = v.front_at;
    fewer = v.fewer;
    room = v.room;
    slots = v.slots;
    prefix = v.prefix;
    pushing = v.pushing;
    popping = h;
  }

  pub room_or_not :
      (t : Bool) (w r : ℕ) (ring : List A) (back b : ℕ) (x : A)
      → b ≡ back
      → ((t ≡ false) → w + 1 < r + capacity)
      → Pushing capacity other w r ring back (if t then resting else has_room x b)
  room_or_not true w r ring back b x e h = omega arith
  room_or_not false w r ring back b x e h = (e, h refl)

  pub empty_or_not :
      (t : Bool) (w r : ℕ) (pushed : List A) (front f : ℕ)
      → f ≡ front
      → ((t ≡ false) → r < w)
      → Popping capacity other w r pushed front (if t then idle else not_empty f)
  empty_or_not true w r pushed front f e h = omega arith
  empty_or_not false w r pushed front f e h = (e, h refl)

  pub test_room-Inv :
      (q : Queue A) (w r : ℕ) (x : A) (b : ℕ)
      → Inv capacity other q w r
      → q.producer ≡ loaded x b
      → Inv capacity other (test_room capacity other x b q) w r
  test_room-Inv q w r x b v e =
      let at_back : b ≡ q.back =
        subst (λ p. Pushing capacity other w r q.ring q.back p) e v.pushing in
      producer_to q w r (if after capacity other b == q.front then resting else has_room x b) v (
        room_or_not (after capacity other b == q.front) w r q.ring q.back b x at_back (λ different.
          room_left capacity other w r v.room v.fewer (λ same.
            distinct capacity other (after capacity other b) q.front different
              (ap (λ i. (i + 1) % capacity) (at_back ∙ v.back_at) ∙ same ∙ sym v.front_at))))

  pub test_empty-Inv :
      (q : Queue A) (w r f : ℕ)
      → Inv capacity other q w r
      → q.consumer ≡ loaded_front f
      → Inv capacity other (test_empty capacity other f q) w r
  test_empty-Inv q w r f v e =
      let at_front : f ≡ q.front =
        subst (λ c. Popping capacity other w r q.pushed q.front c) e v.popping in
      consumer_to q w r (if f == q.back then idle else not_empty f) v (
        empty_or_not (f == q.back) w r q.pushed q.front f at_front (λ different.
          some_left capacity other w r v.fewer (λ same.
            distinct capacity other f q.back different
              (at_front ∙ v.front_at ∙ same ∙ sym v.back_at))))

  pub write_slot-Inv :
      (q : Queue A) (w r : ℕ) (x : A) (b : ℕ)
      → Inv capacity other q w r
      → q.producer ≡ has_room x b
      → Inv capacity other (write_slot capacity other x b q) w r
  write_slot-Inv q w r x b v e =
      let (at_back, left) = subst (λ p. Pushing capacity other w r q.ring q.back p) e v.pushing in
      let place : b ≡ w % capacity = at_back ∙ v.back_at in
      let inside : b < length q.ring =
        omega (arith, mod-lt w {m = capacity} (omega (arith, v.room, v.fewer)), place, v.size) in
      record {
        pushes = v.pushes;
        pops = v.pops;
        size = length-set q.ring b x ∙ v.size;
        back_at = v.back_at;
        front_at = v.front_at;
        fewer = v.fewer;
        room = v.room;
        slots = λ k h l.
            get_or-set_ne other q.ring b (k % capacity) x
              (λ same. free_slot capacity other w r k h l v.room (sym place ∙ same))
            ∙ v.slots k h l;
        prefix = v.prefix;
        pushing = (
          at_back,
          left,
          ap (λ i. get_or (set q.ring b x) i other) (sym place)
              ∙ get_or-set_self other q.ring b x inside,
        );
        popping = v.popping;
      }

  pub store_back-Inv :
      (q : Queue A) (w r : ℕ) (x : A) (b : ℕ)
      → Inv capacity other q w r
      → q.producer ≡ written x b
      → Inv capacity other (store_back capacity other x b q) (w + 1) r
  store_back-Inv q w r x b v e =
      let (at_back, left, there) =
        subst (λ p. Pushing capacity other w r q.ring q.back p) e v.pushing in
      record {
        pushes = length-append q.pushed (x ∷ []) ∙ ap (λ n. n + 1) v.pushes;
        pops = v.pops;
        size = v.size;
        back_at = ap (λ i. (i + 1) % capacity) (at_back ∙ v.back_at) ∙ mod-after w capacity;
        front_at = v.front_at;
        fewer = omega (arith, v.fewer);
        room = left;
        slots = λ k h l. elim (Bool-cases (ltb k w)) [
          | inl older ↦
              v.slots k h (ground arith)
              ∙ sym (get_or-append_front other q.pushed (x ∷ []) k (ground (arith, v.pushes)))
          | inr newest ↦
              let last : k ≡ w = ground arith in
              ap (λ i. get_or q.ring (i % capacity) other) last
              ∙ there
              ∙ sym (get_or-append_end other q.pushed x)
              ∙ ap (λ i. get_or (q.pushed ++ x ∷ []) i other) (v.pushes ∙ sym last)
        ];
        prefix =
            ap (λ l. q.popped ++ l)
              (drop-append q.pushed (x ∷ []) r (omega (arith, v.pushes, v.fewer)))
            ∙ sym (append_assoc q.popped (drop r q.pushed) (x ∷ []))
            ∙ ap (λ l. l ++ x ∷ []) v.prefix;
        pushing = omega arith;
        popping =
            Popping-push capacity other w r q.pushed x q.front q.consumer (sym v.pushes) v.popping;
      }

  pub read_slot-Inv :
      (q : Queue A) (w r f : ℕ)
      → Inv capacity other q w r
      → q.consumer ≡ not_empty f
      → Inv capacity other (read_slot capacity other f q) w r
  read_slot-Inv q w r f v e =
      let (at_front, left) =
        subst (λ c. Popping capacity other w r q.pushed q.front c) e v.popping in
      consumer_to q w r (copied f (get_or q.ring f other)) v (
        at_front,
        left,
        sym (v.slots r (omega arith) left)
            ∙ ap (λ i. get_or q.ring i other) (sym (at_front ∙ v.front_at)),
      )

  pub store_front-Inv :
      (q : Queue A) (w r f : ℕ) (x : A)
      → Inv capacity other q w r
      → q.consumer ≡ copied f x
      → Inv capacity other (store_front capacity other f x q) w (r + 1)
  store_front-Inv q w r f x v e =
      let (at_front, left, read) =
        subst (λ c. Popping capacity other w r q.pushed q.front c) e v.popping in
      let one_more : r + 1 ≡ suc r = omega arith in
      record {
        pushes = v.pushes;
        pops = length-append q.popped (x ∷ []) ∙ ap (λ n. n + 1) v.pops;
        size = v.size;
        back_at = v.back_at;
        front_at = ap (λ i. (i + 1) % capacity) (at_front ∙ v.front_at) ∙ mod-after r capacity;
        fewer = omega (arith, left);
        room = omega (arith, v.room);
        slots = λ k h l. v.slots k (omega arith) l;
        prefix =
            append_assoc q.popped (x ∷ []) (drop (r + 1) q.pushed)
            ∙ ap (λ n. q.popped ++ (x ∷ drop n q.pushed)) one_more
            ∙ ap (λ l. q.popped ++ l)
                (drop_one capacity other r q.pushed x (omega (arith, left, v.pushes)) read)
            ∙ v.prefix;
        pushing = Pushing-pop capacity other w r q.ring q.back q.producer v.pushing;
        popping = omega arith;
      }
