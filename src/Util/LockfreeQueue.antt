-- ===== src/Util/LockfreeQueue.antt =====
-- `LockfreeQueue` of src/util/lockfree_queue.h with one thread that calls `SinglePush` and one that
-- calls `SinglePop`. Each access to an atomic variable or to a slot is one step, and the steps of the
-- two threads come in any order. The indices and the capacity, of type `int`, stay below 2 ^ 31.
pub mod Ring
pub mod Invariant
pub mod Moves
pub mod Order
use restful_cweb.Prelude.{
  ℕ, suc, ◌+◌, ◌%◌, ◌≡◌, Bool, true, false, List, [], ◌∷◌, ◌++◌, ◌==◌, if◌then◌else◌, get_or, set,
  replicate,
}

-- Where the pushing thread is: outside of a call, behind the load of `back_`, behind the test for
-- room, or behind the write to the slot; with the value and what it loaded.
pub data Producer (A : Type 0) : Type 0 where
  resting : Producer A
  loaded has_room written : A → ℕ → Producer A

-- Where the popping thread is: outside of a call, behind the load of `front_`, behind the test, or
-- behind the read, with what it loaded and read.
pub data Consumer (A : Type 0) : Type 0 where
  idle : Consumer A
  loaded_front not_empty : ℕ → Consumer A
  copied : ℕ → A → Consumer A

-- `pushed` and `popped` are the values of the calls that returned true, from the start on.
pub record Queue (A : Type 0) : Type 0 where
  pub ring : List A
  pub front : ℕ
  pub back : ℕ
  pub producer : Producer A
  pub consumer : Consumer A
  pub pushed : List A
  pub popped : List A

module _ {A : Type 0} (capacity : ℕ) (other : A) where
  abbrev pub new_queue : Queue A
  new_queue = record {
    ring = replicate capacity other;
    front = 0;
    back = 0;
    producer = resting;
    consumer = idle;
    pushed = [];
    popped = [];
  }

  abbrev pub after : ℕ → ℕ
  after i = (i + 1) % capacity

  -- The steps of `SinglePush`.
  abbrev pub load_back : A → Queue A → Queue A
  load_back v q = record q { producer = loaded v q.back }

  abbrev pub test_room : A → ℕ → Queue A → Queue A
  test_room v back q = record q {
    producer = if after back == q.front then resting else has_room v back;
  }

  abbrev pub write_slot : A → ℕ → Queue A → Queue A
  write_slot v back q = record q { ring = set q.ring back v; producer = written v back }

  abbrev pub store_back : A → ℕ → Queue A → Queue A
  store_back v back q = record q {
    back = after back;
    producer = resting;
    pushed = q.pushed ++ v ∷ [];
  }

  -- The steps of `SinglePop`.
  abbrev pub load_front : Queue A → Queue A
  load_front q = record q { consumer = loaded_front q.front }

  abbrev pub test_empty : ℕ → Queue A → Queue A
  test_empty front q = record q { consumer = if front == q.back then idle else not_empty front }

  abbrev pub read_slot : ℕ → Queue A → Queue A
  read_slot front q = record q { consumer = copied front (get_or q.ring front other) }

  abbrev pub store_front : ℕ → A → Queue A → Queue A
  store_front front v q = record q {
    front = after front;
    consumer = idle;
    popped = q.popped ++ v ∷ [];
  }

  pub data Step : Queue A → Queue A → Type 0 where
    loads_back : {q : Queue A} (v : A) → q.producer ≡ resting → Step q (load_back v q)
    tests_room :
        {q : Queue A} (v : A) (back : ℕ) → q.producer ≡ loaded v back → Step q (test_room v back q)
    writes_slot :
        {q : Queue A} (v : A) (back : ℕ)
        → q.producer ≡ has_room v back
        → Step q (write_slot v back q)
    stores_back :
        {q : Queue A} (v : A) (back : ℕ)
        → q.producer ≡ written v back
        → Step q (store_back v back q)
    loads_front : {q : Queue A} → q.consumer ≡ idle → Step q (load_front q)
    tests_empty :
        {q : Queue A} (front : ℕ) → q.consumer ≡ loaded_front front → Step q (test_empty front q)
    reads_slot :
        {q : Queue A} (front : ℕ) → q.consumer ≡ not_empty front → Step q (read_slot front q)
    stores_front :
        {q : Queue A} (front : ℕ) (v : A)
        → q.consumer ≡ copied front v
        → Step q (store_front front v q)

  pub data Reach : Queue A → Type 0 where
    start : Reach new_queue
    later : {q r : Queue A} → Reach q → Step q r → Reach r
