-- ===== src/Log/Queue.antt =====
-- log/async_logger: the ring as a queue of records, and the index arithmetic of its two ends.
use cpp_trading_engine.Base.{
  ℕ, ◌+◌, ◌%◌, ◌≡◌, ◌≢◌, ◌<◌, refl, sym, ap, ◌∙◌, Bool-cases, inl, inr, List, [], ◌∷◌, ◌++◌, ◌==◌,
  length, drop, arith, length-append, drop-front,
}
use cpp_trading_engine.Base.Wrap.{Wraps}
use cpp_trading_engine.Log.{LogRecord, next_of}
use cpp_trading_engine.Log.Steps.{
  Producer, outside, loaded, stored, Consumer, at_top, ready, printed, Threads,
}
use native.Mathlib.Nat.{mod-add-mod, mod-eq_of_lt, add-mod_right}

-- A record that is in the ring and not yet published
abbrev pub unpublished : Producer → List LogRecord
unpublished (stored r) = r ∷ []
unpublished _ = []

-- The records of the queue that are not yet written
abbrev pub unwritten : Consumer → List LogRecord → List LogRecord
unwritten printed xs = drop 1 xs
unwritten _ xs = xs

module _ (capacity : ℕ) where
  -- Since the head was loaded it has moved by some slots, and the tail has not moved.
  abbrev pub Seen : ℕ → List LogRecord → Producer → Type 0
  Seen head xs (loaded seen r) =
      (k : ℕ) × (seen < capacity) × ((seen + k) % capacity ≡ head) × (k + length xs < capacity)
  Seen head xs (stored r) = length xs + 1 < capacity
  Seen head xs outside = Unit

  abbrev pub NonEmpty : List LogRecord → Consumer → Type 0
  NonEmpty xs at_top = Unit
  NonEmpty xs ready = 0 < length xs
  NonEmpty xs printed = 0 < length xs

  -- The records `xs` are published and not yet released.
  pub record Queue (xs : List LogRecord) (t : Threads) : Type 0 where
    pub ring : Wraps capacity t.logger.head (xs ++ unpublished t.producer) t.logger.ring
    pub ends : t.logger.tail ≡ (t.logger.head + length xs) % capacity
    pub room : length xs < capacity
    pub order : t.emitted ≡ t.written ++ unwritten t.consumer xs
    pub seen : Seen t.logger.head xs t.producer
    pub filled : NonEmpty xs t.consumer
    pub counted : t.dropped ≡ t.reported + t.logger.dropped_count

  pub shifted : (a b c : ℕ) → ((a + b) % capacity + c) % capacity ≡ (a + (b + c)) % capacity
  shifted a b c = rw mod-add-mod (ap (λ x. x % capacity) (omega arith))

  -- A ring that is not full, as of a head that was loaded before, has room for one more record beside
  -- the slot left empty.
  pub has_room :
      (seen k head tail n : ℕ)
      → seen < capacity
      → (seen + k) % capacity ≡ head
      → tail ≡ (head + n) % capacity
      → k + n < capacity
      → next_of capacity tail ≢ seen
      → n + 1 < capacity
  has_room seen k head tail n lt e f h ne = elim (Bool-cases (k + n + 1 == capacity)) [
    | inr b ↦ ground arith
    | inl b ↦
        let full : k + n + 1 ≡ capacity = ground arith in
        let next : next_of capacity tail ≡ (head + (n + 1)) % capacity =
          ap (λ x. (x + 1) % capacity) f ∙ shifted head n 1 in
        let round : (head + (n + 1)) % capacity ≡ (seen + (k + (n + 1))) % capacity =
          ap (λ x. (x + (n + 1)) % capacity) (sym e) ∙ shifted seen k (n + 1) in
        let back : (seen + (k + (n + 1))) % capacity ≡ seen =
          ap (λ x. (seen + x) % capacity) (omega (arith, full))
          ∙ add-mod_right seen capacity
          ∙ mod-eq_of_lt lt in
        absurd (ne (next ∙ round ∙ back))
  ]

  pub snoc_unwritten :
      (c : Consumer) (xs : List LogRecord) (r : LogRecord)
      → NonEmpty xs c
      → unwritten c (xs ++ (r ∷ [])) ≡ unwritten c xs ++ (r ∷ [])
  snoc_unwritten at_top xs r h = refl
  snoc_unwritten ready xs r h = refl
  snoc_unwritten printed xs r h = drop-front (r ∷ []) xs 1 h

  pub snoc_filled :
      (c : Consumer) (xs : List LogRecord) (r : LogRecord)
      → NonEmpty xs c
      → NonEmpty (xs ++ (r ∷ [])) c
  snoc_filled at_top xs r h = tt
  snoc_filled ready xs r h = omega (arith, length-append xs (r ∷ []))
  snoc_filled printed xs r h = omega (arith, length-append xs (r ∷ []))

  pub Seen_pop :
      (head : ℕ) (x : LogRecord) (xs : List LogRecord) (p : Producer)
      → Seen head (x ∷ xs) p
      → Seen (next_of capacity head) xs p
  Seen_pop head x xs outside h = tt
  Seen_pop head x xs (stored r) h = omega (arith, h)
  Seen_pop head x xs (loaded seen r) (k, lt, e, bound) =
      (k + 1, lt, sym (shifted seen k 1) ∙ ap (λ x. (x + 1) % capacity) e, omega (arith, bound))
