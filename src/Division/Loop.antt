-- ===== src/Division/Loop.antt =====
-- The loop of `remainder` and `quotient` is long division.
use Prim.Native.Nat.{bit_and}
use mathlib.Core.Path.{subst}
use xgossip.Prelude.{
  ℕ, zero, suc, ◌+◌, ◌-◌, ◌*◌, ◌/◌, ◌%◌, ◌^◌, ◌<◌, ◌≡◌, refl, sym, ap, ◌∙◌, arith, Bool, true,
  false, not, none, some, ◌==◌, if◌then◌else◌, Bool-cases, inl, inr, [], ◌∷◌, ◌++◌, length,
  length-append, All, All-append,
}
use xgossip.Sig.{Sig}
use xgossip.Poly.Xor.{pow_suc}
use xgossip.Poly.Multiply.{IsWord, value, pow_suc_add, times_pow_suc, pow_grows}
use xgossip.Division.{
  shift_right, Dividing, divide_bit, next_word, shift_divisor, divide_round, divide_loop,
}
use xgossip.Division.Digits.{HasDegree, pow_pos}
use xgossip.Division.Long.{bit_at, after_round, long_division, shift-HasDegree}
use xgossip.Division.Right.{Frame}
use xgossip.Division.Frames.{shift_right_keeps, shift_right_drops}
use xgossip.Division.Rounds.{next_word_joined, next_word_lem, next_word-q, zeros_value, zeros_words}
use xgossip.Division.State.{Going, Outcome, split, positive, Going-Read, first_zero}

loop_step :
    (n k : ℕ) (x : Dividing) (w : ℕ) (ws : Sig)
    → x.rest ≡ w ∷ ws
    → divide_loop (suc n) k x ≡ divide_loop n (k - 1) (divide_round k w x)
unfolding divide_loop
loop_step n k x w ws e =
    ap (λ r. elim r [ [] ↦ none | w' ∷ ws' ↦ divide_loop n (k - 1) (divide_round k w' x) ]) e

last_bit : (t : Bool) (q : ℕ) → q * 2 + (if t then 1 else 0) ≡ q * 2 + ((if t then 1 else 0) + 0)
last_bit true q = refl
last_bit false q = refl

-- `next_word` changes neither the words of r nor q.
moved-Outcome :
    (d g n v q : ℕ) (y : Dividing) → Outcome d g n v q y → Outcome d g n v q (next_word y)
moved-Outcome d g n v q y o = record {
  remainder = ap value (next_word_joined y y.rest refl) ∙ o.remainder;
  words = subst (All IsWord) (sym (next_word_joined y y.rest refl)) o.words;
  some_words = omega (arith, ap length (next_word_joined y y.rest refl), o.some_words);
  quotient = ap value (next_word-q y y.rest refl) ∙ o.quotient;
  q_words = subst (All IsWord) (sym (next_word-q y y.rest refl)) o.q_words;
}

module _ (d g m b v : ℕ) (x : Dividing) (w : ℕ) (ws : Sig) (h : HasDegree d g)
    (e : x.rest ≡ w ∷ ws) where
  -- The last round.
  last_round : Going d g m b 0 v x → Outcome d g 1 v (value x.q) (divide_round (0 + d) w x)
  unfolding divide_round shift_divisor long_division
  last_round st =
      let r = Going-Read d g m b 0 v x w ws h st e in
      let y = divide_bit x (not (bit_and w x.mask == 0)) in
      let z = shift_divisor y in
      let kept : Outcome d g 1 v (value x.q) z = record {
        remainder =
            ap (λ f. value (f ++ y.rest)) r.divided.same_front
            ∙ zeros_value x.front y.rest st.zeros
            ∙ r.number;
        words =
            subst (λ f. All IsWord (f ++ y.rest)) (sym r.divided.same_front)
              (All-append IsWord x.front y.rest (zeros_words x.front st.zeros) r.divided.words);
        some_words = omega (arith, length-append y.front y.rest, r.divided.size, st.size);
        quotient = r.divided.pushed ∙ last_bit (bit_at (0 + d) v) (value x.q);
        q_words = r.divided.q_words;
      } in
      elim (Bool-cases ((0 + d) % 32 == 0)) [
        | inl t ↦ rw t (moved-Outcome d g 1 v (value x.q) z kept)
        | inr f ↦ rw f kept
      ]

  -- The next state, within a word and at its end.
  within_word :
      (s b' : ℕ)
      → b ≡ suc b'
      → Going d g m b (suc s) v x
      → Going d g m b' s (after_round d g (suc s) v) (divide_round (suc s + d) w x)
  unfolding divide_round shift_divisor
  within_word s b' eb st =
      let r = Going-Read d g m b (suc s) v x w ws h st e in
      let y = divide_bit x (not (bit_and w x.mask == 0)) in
      let top = shift-HasDegree d s g h in
      let not_end : ((suc s + d) % 32 == 0) ≡ false = ground (arith, st.place, st.small, eb) in
      rw not_end (record {
        zeros = subst (All (λ z. z ≡ 0)) (sym r.divided.same_front) st.zeros;
        words = r.divided.words;
        size = r.divided.size ∙ st.size;
        number = r.number;
        bound = omega (arith, r.bound, pow_suc (s + d), pow_suc_add s d);
        place = omega (arith, st.place, eb);
        small = omega (arith, st.small, eb);
        mask =
            ap (λ z. z / 2) (r.divided.same_mask ∙ st.mask ∙ ap (λ z. 2 ^ z) eb)
            ∙ omega (arith, pow_suc b');
        divisor =
            subst (λ t. Frame (suc m) (g * 2 ^ s) (shift_right t 1)) (sym r.divided.same_gtemp)
              (shift_right_keeps 1 m (g * 2 ^ s) (g * 2 ^ suc s) x.gtemp (omega arith) st.divisor
                (times_pow_suc g s)
                (omega (
                  arith,
                  top.above,
                  pow_grows b' (32 * m),
                  ap (λ z. 2 ^ z) {x = s + d} {y = b' + 32 * m} (omega (arith, st.place, eb)),
                )));
        q_words = r.divided.q_words;
        q_some = r.divided.q_some;
      })

  at_end :
      b ≡ 0
      → (s : ℕ) → Going d g m b (suc s) v x
      → (m' : ℕ) × (m ≡ suc m')
        × Going d g m' 31 s (after_round d g (suc s) v) (divide_round (suc s + d) w x)
  unfolding divide_round shift_divisor
  at_end eb s st =
      let r = Going-Read d g m b (suc s) v x w ws h st e in
      let y = divide_bit x (not (bit_and w x.mask == 0)) in
      let top = shift-HasDegree d s g h in
      let (m', em) = positive m (omega (arith, st.place, eb)) in
      let (w', vs, ey) = split y.rest m (r.divided.size ∙ st.size) in
      let is_end : ((suc s + d) % 32 == 0) ≡ true = ground (arith, st.place, eb) in
      let low : after_round d g (suc s) v < 2 ^ (32 * m) = omega (
        arith,
        r.bound,
        ap (λ z. 2 ^ z) {x = suc s + d} {y = 32 * m} (omega (arith, st.place, eb)),
      ) in
      let length_vs : length vs ≡ m = omega (arith, ap length ey, r.divided.size, st.size) in
      let (zero_word, number_vs) =
        first_zero m w' vs (after_round d g (suc s) v) length_vs (ap value (sym ey) ∙ r.number)
          low in
      (
        m',
        em,
        rw (is_end, next_word_lem (shift_divisor y) w' vs ey)
            (record {
              zeros =
                  subst (λ f. All (λ z. z ≡ 0) (f ++ w' ∷ [])) (sym r.divided.same_front)
                    (All-append (λ z. z ≡ 0) x.front (w' ∷ []) st.zeros (zero_word, tt));
              words = (subst (All IsWord) ey r.divided.words).1;
              size = omega (arith, ap length ey, r.divided.size, st.size, em);
              number = number_vs;
              bound = omega (arith, r.bound, pow_suc (s + d), pow_suc_add s d);
              place = omega (arith, st.place, eb, em);
              small = omega arith;
              mask = refl;
              divisor =
                  subst (λ t. Frame (suc m') (g * 2 ^ s) (shift_right t 1))
                    (sym r.divided.same_gtemp)
                    (subst (λ k. Frame k (g * 2 ^ s) (shift_right x.gtemp 1)) em
                      (shift_right_drops m (g * 2 ^ s) x.gtemp
                        (subst (λ t. Frame (suc m) t x.gtemp) (times_pow_suc g s) st.divisor)
                        (omega (arith, top.above, pow_pos (s + d)))
                        (omega (
                          arith,
                          top.below,
                          ap (λ z. 2 ^ z) {x = suc (s + d)} {y = 32 * m}
                              (omega (arith, st.place, eb)),
                        ))));
              q_words = r.divided.q_words;
              q_some = r.divided.q_some;
            }),
      )

odd_times : (q m : ℕ) → (q * 2 + 1) * m ≡ q * m * 2 + m
odd_times q m = grind arith

even_times : (q m : ℕ) → (q * 2 + 0) * m ≡ q * m * 2
even_times q m = grind arith

after_rounds :
    (t : Bool) (q s r : ℕ)
    → (q * 2 + (if t then 1 else 0)) * 2 ^ s + r ≡ q * 2 ^ suc s + ((if t then 2 ^ s else 0) + r)
after_rounds true q s r = omega (arith, odd_times q (2 ^ s), times_pow_suc q s)
after_rounds false q s r = omega (arith, even_times q (2 ^ s), times_pow_suc q s)

round-q :
    (d g m b s v : ℕ) (x : Dividing) (w : ℕ) (ws : Sig)
    → HasDegree d g
    → Going d g m b s v x
    → x.rest ≡ w ∷ ws
    → value (divide_round (s + d) w x).q ≡ value x.q * 2 + (if bit_at (s + d) v then 1 else 0)
unfolding divide_round shift_divisor
round-q d g m b s v x w ws h st e =
    let r = Going-Read d g m b s v x w ws h st e in
    let y = divide_bit x (not (bit_and w x.mask == 0)) in
    elim (Bool-cases ((s + d) % 32 == 0)) [
      | inl t ↦ rw t (ap value (next_word-q (shift_divisor y) y.rest refl) ∙ r.divided.pushed)
      | inr f ↦ rw f r.divided.pushed
    ]

before_round :
    (d g s v q q' : ℕ) (y : Dividing)
    → q' ≡ q * 2 + (if bit_at (suc s + d) v then 1 else 0)
    → Outcome d g (suc s) (after_round d g (suc s) v) q' y
    → Outcome d g (suc (suc s)) v q y
unfolding long_division
before_round d g s v q q' y e o = record {
  remainder = o.remainder;
  words = o.words;
  some_words = o.some_words;
  quotient =
      o.quotient
      ∙ ap (λ z. z * 2 ^ suc s + (long_division d g (suc s) (after_round d g (suc s) v)).0) e
      ∙ after_rounds (bit_at (suc s + d) v) q (suc s)
          (long_division d g (suc s) (after_round d g (suc s) v)).0;
  q_words = o.q_words;
}

-- A round, and those that are left.
unfoldable pub Ends : (d g s v : ℕ) → Dividing → Type 0
Ends d g s v x =
    (y : Dividing) × (divide_loop (suc s) (s + d) x ≡ some y) × Outcome d g (suc s) v (value x.q) y

first_round :
    (d g m b s v : ℕ) (x : Dividing) (w : ℕ) (ws : Sig)
    → HasDegree d g
    → Going d g m b (suc s) v x
    → x.rest ≡ w ∷ ws
    → Ends d g s (after_round d g (suc s) v) (divide_round (suc s + d) w x)
    → Ends d g (suc s) v x
unfolding Ends
first_round d g m b s v x w ws h st e (y, p, o) = (
  y,
  loop_step (suc s) (suc s + d) x w ws e
      ∙ ap (λ k. divide_loop (suc s) k (divide_round (suc s + d) w x)) {x = suc s + d - 1}
          {y = s + d} (omega arith)
      ∙ p,
  before_round d g s v (value x.q) (value (divide_round (suc s + d) w x).q) y
      (round-q d g m b (suc s) v x w ws h st e) o,
)

-- From any state of the loop on, all rounds are carried out, and they are long division.
pub divide_loop_lem :
    (d g s m b v : ℕ) (x : Dividing) → HasDegree d g → Going d g m b s v x → Ends d g s v x
unfolding Ends divide_loop
divide_loop_lem d g zero m b v x h st =
    let (w, ws, e) = split x.rest m st.size in
    (divide_round (0 + d) w x, loop_step 0 (0 + d) x w ws e, last_round d g m b v x w ws h e st)
divide_loop_lem d g (suc s) m zero v x h st =
    let (w, ws, e) = split x.rest m st.size in
    let (m', em, next) = at_end d g m zero v x w ws h e refl s st in
    first_round d g m zero s v x w ws h st e (
      divide_loop_lem d g s m' 31 (after_round d g (suc s) v) (divide_round (suc s + d) w x) h next)
divide_loop_lem d g (suc s) m (suc b) v x h st =
    let (w, ws, e) = split x.rest m st.size in
    first_round d g m (suc b) s v x w ws h st e (
      divide_loop_lem d g s m b (after_round d g (suc s) v) (divide_round (suc s + d) w x) h
        (within_word d g m (suc b) v x w ws h e s b refl st))
