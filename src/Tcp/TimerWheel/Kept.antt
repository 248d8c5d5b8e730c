-- ===== src/Tcp/TimerWheel/Kept.antt =====
-- What `TimerWheelManager` keeps: counts, positions and slots agree.
use mathlib.Core.Path.{subst}
use restful_cweb.Prelude.{
  ℕ, suc, ◌<◌, ◌≡◌, ◌≢◌, refl, sym, ap, ◌∙◌, List, [], ◌∷◌, ◌++◌, arith, length, length-append,
  update, update_self, update_other, ◌⊎◌, inl, inr, true, false, ℤ, pos, increment, decrement,
  neg_part, pos_part, ◌+◌, ◌*◌, ◌^◌, ◌≤◌, Bool-cases, ◌==◌,
}
use restful_cweb.Util.LinkedList.Chain.{NotIn, AreNodes, AreNodes-snoc}
use restful_cweb.Tcp.Timer.{Timer}
use restful_cweb.Tcp.TimerWheel.{WheelTimer, Wheel, set_slot, put_timer, pop_timer, set_timer}
use restful_cweb.Tcp.TimerWheel.Sums.{total, total-update, set_slot-cases}

-- The timers of a slot are those that say that they are in it.
abbrev pub AreAt : (ℕ → WheelTimer) → ℕ → ℕ → List ℕ → Type 0
AreAt t i j [] = Unit {0}
AreAt t i j (a ∷ rest) =
    ((t a).popped ≡ false) × ((t a).layer ≡ i) × ((t a).step ≡ j) × AreAt t i j rest

-- Timers that are due before a time, and the time up to which the layers reach.
abbrev pub AllBefore : (ℕ → WheelTimer) → ℕ → List ℕ → Type 0
AllBefore t m [] = Unit {0}
AllBefore t m (a ∷ rest) = ((t a).timer.execution_time < m) × AllBefore t m rest

abbrev pub range : Wheel → ℕ
range w = w.tickms * w.wheel_size ^ w.layers

abbrev pub horizon : Wheel → ℕ
horizon w = w.last_rotate_time + 1000 * range w

-- No timer has an interval that the range of the layers brings to 2 ^ 31 milliseconds.
abbrev pub AreShort : Wheel → Type 0
AreShort w = (a : ℕ) → (w.timer a).timer.interval + range w ≤ 2 ^ 31

-- A layer has at most 2 ^ 30 slots, and its step is -1 or one of them, not -1 in the first layer,
-- which has begun to turn; no interval is too long, those that wait are due within the range of the
-- layers, each layer's count is the number of its timers, and each timer that waits is once in the
-- slot of its position.
pub record IsKept (w : Wheel) : Type 0 where
  pub size : 0 < w.wheel_size
  pub small : w.wheel_size ≤ 2 ^ 30
  pub ticks : 0 < w.tickms
  pub some_layers : 0 < w.layers
  pub first : ℕ
  pub started : w.steps 0 ≡ pos first
  pub turned : (i : ℕ) → neg_part (w.steps i) ≤ 1
  pub below : (i : ℕ) → pos_part (w.steps i) < w.wheel_size
  pub short : AreShort w
  pub soon : (i j : ℕ) → AllBefore w.timer (horizon w) (w.slots i j)
  pub counted : (i : ℕ) → w.counts i ≡ pos (total (w.slots i) w.wheel_size)
  pub placed : (i j : ℕ) → AreAt w.timer i j (w.slots i j)
  pub apart : (i j : ℕ) → AreNodes (w.slots i j)

abbrev pub IsFree : Wheel → ℕ → Type 0
IsFree w a = (i j : ℕ) → NotIn a (w.slots i j)

true-false : true ≡ false → ⊥
true-false e = grind arith

module _ (t : ℕ → WheelTimer) (a : ℕ) where
  popped-NotIn : (i j : ℕ) (xs : List ℕ) → (t a).popped ≡ true → AreAt t i j xs → NotIn a xs
  popped-NotIn i j [] h s = tt
  popped-NotIn i j (x ∷ xs) h s =
      ((λ e. true-false (sym h ∙ ap (λ z. (t z).popped) e ∙ s.0)), popped-NotIn i j xs h s.3)

  elsewhere-NotIn :
      (i j : ℕ) (xs : List ℕ) → ((t a).layer ≢ i) ⊎ ((t a).step ≢ j) → AreAt t i j xs → NotIn a xs
  elsewhere-NotIn i j [] h s = tt
  elsewhere-NotIn i j (x ∷ xs) h s = (
    (λ e. elim h [
      | inl n ↦ n (ap (λ z. (t z).layer) e ∙ s.1)
      | inr n ↦ n (ap (λ z. (t z).step) e ∙ s.2)
    ]),
    elsewhere-NotIn i j xs h s.3,
  )

  AreAt-update :
      (v : WheelTimer) (i j : ℕ) (xs : List ℕ)
      → NotIn a xs
      → AreAt t i j xs
      → AreAt (update t a v) i j xs
  AreAt-update v i j [] n s = tt
  AreAt-update v i j (x ∷ xs) n s =
      let same = update_other t a v x n.0 in
      (
        ap (λ z. z.popped) same ∙ s.0,
        ap (λ z. z.layer) same ∙ s.1,
        ap (λ z. z.step) same ∙ s.2,
        AreAt-update v i j xs n.1 s.3,
      )

AllBefore-update :
    (t : ℕ → WheelTimer) (a m : ℕ) (v : WheelTimer) (xs : List ℕ)
    → NotIn a xs
    → AllBefore t m xs
    → AllBefore (update t a v) m xs
AllBefore-update t a m v [] n s = tt
AllBefore-update t a m v (x ∷ xs) n s =
    let same = update_other t a v x n.0 in
    (
      subst (λ z. z < m) (sym (ap (λ z. z.timer.execution_time) same)) s.0,
      AllBefore-update t a m v xs n.1 s.1,
    )

AllBefore-snoc :
    (t : ℕ → WheelTimer) (m : ℕ) (xs : List ℕ) (a : ℕ)
    → AllBefore t m xs
    → (t a).timer.execution_time < m
    → AllBefore t m (xs ++ a ∷ [])
AllBefore-snoc t m [] a s h = (h, tt)
AllBefore-snoc t m (x ∷ xs) a s h = (s.0, AllBefore-snoc t m xs a s.1 h)

interval-update :
    (t : ℕ → WheelTimer) (a m : ℕ) (v : WheelTimer)
    → v.timer.interval ≡ (t a).timer.interval
    → ((b : ℕ) → (t b).timer.interval + m ≤ 2 ^ 31)
    → (b : ℕ) → (update t a v b).timer.interval + m ≤ 2 ^ 31
interval-update t a m v e h b = elim (Bool-cases (a == b)) [
  | inl same ↦
      let here : a ≡ b = ground arith in
      let new : (update t a v b).timer.interval ≡ (t a).timer.interval =
        ap (λ z. (update t a v z).timer.interval) (sym here)
        ∙ ap (λ z. z.timer.interval) (update_self t a v)
        ∙ e in
      omega (arith, new, h a)
  | inr other ↦
      let away : a ≢ b = ground arith in
      let old : (update t a v b).timer.interval ≡ (t b).timer.interval =
        ap (λ z. z.timer.interval) (update_other t a v b away) in
      omega (arith, old, h b)
]

AreAt-snoc :
    (t : ℕ → WheelTimer) (i j : ℕ) (xs : List ℕ) (a : ℕ)
    → AreAt t i j xs
    → AreAt t i j (a ∷ [])
    → AreAt t i j (xs ++ a ∷ [])
AreAt-snoc t i j [] a s h = h
AreAt-snoc t i j (x ∷ xs) a s h = (s.0, s.1, s.2, AreAt-snoc t i j xs a s.3 h)

-- A layer's slots and counts after an assignment to one slot.
layer-cases :
    (w : Wheel) (i j : ℕ) (ys : List ℕ) (c : ℤ) (k : ℕ)
    → ((i ≡ k)
        × (set_slot i j ys w.slots k ≡ update (w.slots i) j ys)
        × (update w.counts i c k ≡ c))
      ⊎ ((set_slot i j ys w.slots k ≡ w.slots k) × (update w.counts i c k ≡ w.counts k))
layer-cases w i j ys c k = elim (Bool-cases (i == k)) [
  | inl e ↦
      let here : i ≡ k = ground arith in
      inl (
        here,
        ap (set_slot i j ys w.slots) (sym here) ∙ update_self w.slots i (update (w.slots i) j ys),
        ap (update w.counts i c) (sym here) ∙ update_self w.counts i c,
      )
  | inr e ↦
      let away : i ≢ k = ground arith in
      inr
        (update_other w.slots i (update (w.slots i) j ys) k away, update_other w.counts i c k away)
]

module _ (w : Wheel) (q : IsKept w) (i j a : ℕ) (lt : j < w.wheel_size) where
  abbrev here_now : WheelTimer
  here_now = record (w.timer a) { layer = i; step = j; popped = false }

  put-AreAt : IsFree w a → AreAt (update w.timer a here_now) i j (w.slots i j ++ a ∷ [])
  put-AreAt free =
      let self = update_self w.timer a here_now in
      AreAt-snoc (update w.timer a here_now) i j (w.slots i j) a
        (AreAt-update w.timer a here_now i j (w.slots i j) (free i j) (q.placed i j))
        (ap (λ z. z.popped) self, ap (λ z. z.layer) self, ap (λ z. z.step) self, tt)

  pub put_timer-IsKept :
      IsFree w a → a ≢ 0 → (w.timer a).timer.execution_time < horizon w → IsKept (put_timer i j a w)
  put_timer-IsKept free nonnull due =
      let ys = w.slots i j ++ a ∷ [] in
      record {
        size = q.size;
        small = q.small;
        ticks = q.ticks;
        some_layers = q.some_layers;
        first = q.first;
        started = q.started;
        turned = q.turned;
        below = q.below;
        short = interval-update w.timer a (range w) here_now refl q.short;
        soon = λ k m. elim (set_slot-cases i j ys w.slots k m) [
          | inr (away, same) ↦
              subst (AllBefore (update w.timer a here_now) (horizon w)) (sym same) (
                AllBefore-update w.timer a (horizon w) here_now (w.slots k m) (free k m)
                  (q.soon k m))
          | inl (here, at, new) ↦
              subst (AllBefore (update w.timer a here_now) (horizon w)) (sym new) (
                AllBefore-snoc (update w.timer a here_now) (horizon w) (w.slots i j) a
                  (AllBefore-update w.timer a (horizon w) here_now (w.slots i j) (free i j)
                    (q.soon i j))
                  (subst (λ z. z < horizon w)
                    (sym (ap (λ z. z.timer.execution_time) (update_self w.timer a here_now))) due))
        ];
        counted = λ k. elim (layer-cases w i j ys (increment (w.counts i)) k) [
          | inr (slots, counts) ↦
              counts ∙ q.counted k ∙ ap (λ f. pos (total f w.wheel_size)) (sym slots)
          | inl (here, slots, counts) ↦
              let more : suc (total (w.slots i) w.wheel_size)
                  ≡ total (update (w.slots i) j ys) w.wheel_size =
                omega (
                  arith,
                  total-update (w.slots i) j ys w.wheel_size lt,
                  length-append (w.slots i j) (a ∷ []),
                ) in
              counts
              ∙ ap increment (q.counted i)
              ∙ ap pos more
              ∙ ap (λ f. pos (total f w.wheel_size)) (sym slots)
        ];
        placed = λ k m. elim (set_slot-cases i j ys w.slots k m) [
          | inr (away, same) ↦
              subst (AreAt (update w.timer a here_now) k m) (sym same)
                (AreAt-update w.timer a here_now k m (w.slots k m) (free k m) (q.placed k m))
          | inl (here, at, new) ↦ subst (AreAt (update w.timer a here_now) k m) (sym new) (
              subst (λ z. AreAt (update w.timer a here_now) z m ys) here
                (subst (λ z. AreAt (update w.timer a here_now) i z ys) at (put-AreAt free)))
        ];
        apart = λ k m. elim (set_slot-cases i j ys w.slots k m) [
          | inr (away, same) ↦ subst AreNodes (sym same) (q.apart k m)
          | inl (here, at, new) ↦
              subst AreNodes (sym new)
                (AreNodes-snoc (w.slots i j) a (q.apart i j) nonnull (free i j))
        ];
      }

  -- A timer is taken out of its slot, and the rest stays there.
  module _ (rest : List ℕ) (one_more : length (w.slots i j) ≡ suc (length rest))
      (layer : (w.timer a).layer ≡ i) (step : (w.timer a).step ≡ j) (still : AreAt w.timer i j rest)
      (nodes : AreNodes rest) (gone : NotIn a rest)
      (later : AllBefore w.timer (horizon w) rest) where
    -- In the other slots it is not.
    away-NotIn : (k m : ℕ) → (i ≢ k) ⊎ (j ≢ m) → NotIn a (w.slots k m)
    away-NotIn k m away =
        elsewhere-NotIn w.timer a k m (w.slots k m)
          (elim away [ inl n ↦ inl (λ e. n (sym layer ∙ e)) | inr n ↦ inr (λ e. n (sym step ∙ e)) ])
          (q.placed k m)

    pub taken-IsFree : IsFree (pop_timer i j a rest w) a
    taken-IsFree k m = elim (set_slot-cases i j rest w.slots k m) [
      | inr (away, same) ↦ subst (NotIn a) (sym same) (away-NotIn k m away)
      | inl (here, at, new) ↦ subst (NotIn a) (sym new) gone
    ]

    pub taken-IsKept : IsKept (pop_timer i j a rest w)
    taken-IsKept =
        let v : WheelTimer = record (w.timer a) { popped = true } in
        record {
          size = q.size;
          small = q.small;
          ticks = q.ticks;
          some_layers = q.some_layers;
          first = q.first;
          started = q.started;
          turned = q.turned;
          below = q.below;
          short = interval-update w.timer a (range w) v refl q.short;
          soon = λ k m. elim (set_slot-cases i j rest w.slots k m) [
            | inr (away, same) ↦ subst (AllBefore (update w.timer a v) (horizon w)) (sym same) (
                AllBefore-update w.timer a (horizon w) v (w.slots k m) (away-NotIn k m away)
                  (q.soon k m))
            | inl (here, at, new) ↦
                subst (AllBefore (update w.timer a v) (horizon w)) (sym new)
                  (AllBefore-update w.timer a (horizon w) v rest gone later)
          ];
          counted = λ k. elim (layer-cases w i j rest (decrement (w.counts i)) k) [
            | inr (slots, counts) ↦
                counts ∙ q.counted k ∙ ap (λ f. pos (total f w.wheel_size)) (sym slots)
            | inl (here, slots, counts) ↦
                let less : total (w.slots i) w.wheel_size
                    ≡ suc (total (update (w.slots i) j rest) w.wheel_size) =
                  omega (arith, total-update (w.slots i) j rest w.wheel_size lt, one_more) in
                counts
                ∙ ap decrement (q.counted i ∙ ap pos less)
                ∙ ap (λ f. pos (total f w.wheel_size)) (sym slots)
          ];
          placed = λ k m. elim (set_slot-cases i j rest w.slots k m) [
            | inr (away, same) ↦
                subst (AreAt (update w.timer a v) k m) (sym same)
                  (AreAt-update w.timer a v k m (w.slots k m) (away-NotIn k m away) (q.placed k m))
            | inl (here, at, new) ↦ subst (AreAt (update w.timer a v) k m) (sym new) (
                subst (λ z. AreAt (update w.timer a v) z m rest) here
                  (subst (λ z. AreAt (update w.timer a v) i z rest) at
                    (AreAt-update w.timer a v i j rest gone still)))
          ];
          apart = λ k m. elim (set_slot-cases i j rest w.slots k m) [
            | inr (away, same) ↦ subst AreNodes (sym same) (q.apart k m)
            | inl (here, at, new) ↦ subst AreNodes (sym new) nodes
          ];
        }

  -- The first timer of the slot.
  module _ (rest : List ℕ) (front : w.slots i j ≡ a ∷ rest) where
    front-AreAt : AreAt w.timer i j (a ∷ rest)
    front-AreAt = subst (AreAt w.timer i j) front (q.placed i j)

    pub front-AllBefore : AllBefore w.timer (horizon w) (a ∷ rest)
    front-AllBefore = subst (AllBefore w.timer (horizon w)) front (q.soon i j)

    pub front-AreNodes : AreNodes (a ∷ rest)
    front-AreNodes = subst AreNodes front (q.apart i j)

    pub pop_timer-IsFree : IsFree (pop_timer i j a rest w) a
    pop_timer-IsFree =
        taken-IsFree rest (ap length front) front-AreAt.1 front-AreAt.2 front-AreAt.3
          front-AreNodes.2 front-AreNodes.1 front-AllBefore.1

    pub pop_timer-IsKept : IsKept (pop_timer i j a rest w)
    pop_timer-IsKept =
        taken-IsKept rest (ap length front) front-AreAt.1 front-AreAt.2 front-AreAt.3
          front-AreNodes.2 front-AreNodes.1 front-AllBefore.1

-- A change of the fields of a free timer that say nothing of its place and its interval.
pub set_timer-IsKept :
    (w : Wheel) (a : ℕ) (t : Timer)
    → IsKept w
    → IsFree w a
    → t.interval ≡ (w.timer a).timer.interval
    → IsKept (set_timer a t w)
set_timer-IsKept w a t q free same =
    let v : WheelTimer = record (w.timer a) { timer = t } in
    record {
      size = q.size;
      small = q.small;
      ticks = q.ticks;
      some_layers = q.some_layers;
      first = q.first;
      started = q.started;
      turned = q.turned;
      below = q.below;
      short = interval-update w.timer a (range w) v same q.short;
      soon = λ i j. AllBefore-update w.timer a (horizon w) v (w.slots i j) (free i j) (q.soon i j);
      counted = q.counted;
      placed = λ i j. AreAt-update w.timer a v i j (w.slots i j) (free i j) (q.placed i j);
      apart = q.apart;
    }
