-- ===== src/Log/Fifo.antt =====
-- log/async_logger: the steps of the two threads, and the queue that the ring holds.
use cpp_trading_engine.Base.{
  ℕ, ◌+◌, ◌%◌, ◌≡◌, ◌≢◌, ◌<◌, refl, sym, ap, ◌∙◌, subst, false, List, [], ◌∷◌, ◌++◌, append-nil,
  append_assoc, length, get_elem?, drop, some, ok, arith, length-append, length-replicate, ok_inj,
}
use cpp_trading_engine.Base.Wrap.{Wraps, push-Wraps, pop-Wraps, wrapped_next}
use cpp_trading_engine.Log.{
  LogRecord, make_logger, next_of, is_full, drop_record, store_record, publish, report_dropped,
  read_record, release_record,
}
use cpp_trading_engine.Log.Steps.{
  Producer, outside, loaded, stored, Consumer, at_top, ready, printed, Threads, idle, Step,
  load_head, store, advance_tail, report, compare, print, advance_head, Reach, begin, later,
}
use cpp_trading_engine.Log.Steps as steps
use native.Mathlib.Nat.{mod-eq_of_lt}
use cpp_trading_engine.Log.Queue.{
  unpublished, unwritten, Seen, NonEmpty, Queue, shifted, has_room, snoc_unwritten, snoc_filled,
  Seen_pop,
}

module _ (capacity : ℕ) where
  module _ (xs : List LogRecord) (t : Threads) (q : Queue capacity xs t) where
    -- The ring, by where the producer is.
    ring_at :
        (p : Producer)
        → t.producer ≡ p
        → Wraps capacity t.logger.head (xs ++ unpublished p) t.logger.ring
    ring_at p e =
        subst (λ p. Wraps capacity t.logger.head (xs ++ unpublished p) t.logger.ring) e q.ring

    seen_at : (p : Producer) → t.producer ≡ p → Seen capacity t.logger.head xs p
    seen_at p e = subst (Seen capacity t.logger.head xs) e q.seen

    order_at : (c : Consumer) → t.consumer ≡ c → t.emitted ≡ t.written ++ unwritten c xs
    order_at c e = subst (λ c. t.emitted ≡ t.written ++ unwritten c xs) e q.order

    filled_at : (c : Consumer) → t.consumer ≡ c → NonEmpty capacity xs c
    filled_at c e = subst (NonEmpty capacity xs) e q.filled

    load_head-Queue :
        (r : LogRecord)
        → t.producer ≡ outside
        → Queue capacity xs (record t { producer = loaded t.logger.head r })
    load_head-Queue r e = record {
      ring = ring_at outside e;
      ends = q.ends;
      room = q.room;
      order = q.order;
      seen = (
        0,
        q.ring.starts,
        ap (λ x. x % capacity) (omega arith) ∙ mod-eq_of_lt q.ring.starts,
        omega (arith, q.room),
      );
      filled = q.filled;
      counted = q.counted;
    }

    drop-Queue :
        (seen : ℕ) (r : LogRecord)
        → t.producer ≡ loaded seen r
        → Queue capacity xs (record t {
          logger = drop_record capacity t.logger;
          producer = outside;
          dropped = t.dropped + 1;
        })
    unfolding drop_record
    drop-Queue seen r e = record {
      ring = ring_at (loaded seen r) e;
      ends = q.ends;
      room = q.room;
      order = q.order;
      seen = tt;
      filled = q.filled;
      counted = omega (arith, q.counted);
    }

    store-Queue :
        (seen : ℕ) (r : LogRecord)
        → t.producer ≡ loaded seen r
        → is_full capacity seen t.logger ≡ false
        → Queue capacity xs
            (record t { logger = store_record capacity r t.logger; producer = stored r })
    unfolding store_record
    store-Queue seen r e full =
        let (k, lt, moved, bound) = seen_at (loaded seen r) e in
        let bare : Wraps capacity t.logger.head xs t.logger.ring =
          subst (λ l. Wraps capacity t.logger.head l t.logger.ring) (append-nil xs)
            (ring_at (loaded seen r) e) in
        let free : next_of capacity t.logger.tail ≢ seen = λ same. absurd (ground arith) in
        record {
          ring = rw q.ends (push-Wraps xs t.logger.ring r bare q.room);
          ends = q.ends;
          room = q.room;
          order = q.order;
          seen =
              has_room capacity seen k t.logger.head t.logger.tail (length xs) lt moved q.ends bound
                free;
          filled = q.filled;
          counted = q.counted;
        }

    advance_tail-Queue :
        (r : LogRecord)
        → t.producer ≡ stored r
        → Queue capacity (xs ++ (r ∷ [])) (record t {
          logger = publish capacity t.logger;
          producer = outside;
          emitted = t.emitted ++ (r ∷ []);
        })
    unfolding publish
    advance_tail-Queue r e =
        let one : length (xs ++ (r ∷ [])) ≡ length xs + 1 = length-append xs (r ∷ []) in
        let room : length xs + 1 < capacity = seen_at (stored r) e in
        record {
          ring =
              subst (λ l. Wraps capacity t.logger.head l t.logger.ring)
                (sym (append-nil (xs ++ (r ∷ [])))) (ring_at (stored r) e);
          ends =
              ap (λ x. (x + 1) % capacity) q.ends
              ∙ shifted capacity t.logger.head (length xs) 1
              ∙ ap (λ n. (t.logger.head + n) % capacity) (sym one);
          room = omega (arith, one, room);
          order =
              ap (λ l. l ++ (r ∷ [])) q.order
              ∙ append_assoc t.written (unwritten t.consumer xs) (r ∷ [])
              ∙ ap (λ l. t.written ++ l) (sym (snoc_unwritten capacity t.consumer xs r q.filled));
          seen = tt;
          filled = snoc_filled capacity t.consumer xs r q.filled;
          counted = q.counted;
        }

    report-Queue : Queue capacity xs (record t {
      logger = report_dropped capacity t.logger;
      reported = t.reported + t.logger.dropped_count;
    })
    unfolding report_dropped
    report-Queue = record {
      ring = q.ring;
      ends = q.ends;
      room = q.room;
      order = q.order;
      seen = q.seen;
      filled = q.filled;
      counted = omega (arith, q.counted);
    }

    compare-Queue :
        t.consumer ≡ at_top
        → t.logger.head ≢ t.logger.tail
        → Queue capacity xs (record t { consumer = ready })
    compare-Queue e ne = record {
      ring = q.ring;
      ends = q.ends;
      room = q.room;
      order = order_at at_top e;
      seen = q.seen;
      filled = some_there xs q.ends;
      counted = q.counted;
    }
      where
        some_there :
            (ys : List LogRecord)
            → t.logger.tail ≡ (t.logger.head + length ys) % capacity
            → 0 < length ys
        some_there (y ∷ ys) f = omega arith
        some_there [] f =
            absurd
              (ne (sym (f ∙ ap (λ x. x % capacity) (omega arith) ∙ mod-eq_of_lt q.ring.starts)))

  print-Queue :
      (xs : List LogRecord) (t : Threads) (q : Queue capacity xs t) (r : LogRecord)
      → t.consumer ≡ ready
      → read_record capacity t.logger ≡ ok r
      → Queue capacity xs (record t { consumer = printed; written = t.written ++ (r ∷ []) })
  unfolding read_record
  print-Queue [] t q r e found = absurd (omega (arith, filled_at [] t q ready e))
  print-Queue (x ∷ xs) t q r e found =
      let front : get_elem? t.logger.ring t.logger.head ≡ some x =
        subst (λ i. get_elem? t.logger.ring i ≡ some x)
          (ap (λ i. i % capacity) (omega arith) ∙ mod-eq_of_lt q.ring.starts)
          (q.ring.held 0 x refl) in
      let same : x ≡ r = ok_inj x r (rw front at found) in
      record {
        ring = q.ring;
        ends = q.ends;
        room = q.room;
        order =
            order_at (x ∷ xs) t q ready e
            ∙ ap (λ y. t.written ++ (y ∷ xs)) same
            ∙ sym (append_assoc t.written (r ∷ []) xs);
        seen = q.seen;
        filled = omega arith;
        counted = q.counted;
      }

  advance_head-Queue :
      (xs : List LogRecord) (t : Threads) (q : Queue capacity xs t)
      → t.consumer ≡ printed
      → Queue capacity
          (drop 1 xs)
          (record t { logger = release_record capacity t.logger; consumer = at_top })
  unfolding release_record
  advance_head-Queue [] t q e = absurd (omega (arith, filled_at [] t q printed e))
  advance_head-Queue (x ∷ xs) t q e = record {
    ring = pop-Wraps x (xs ++ unpublished t.producer) t.logger.ring q.ring;
    ends = q.ends ∙ sym (wrapped_next capacity t.logger.head (length xs));
    room = omega (arith, q.room);
    order = order_at (x ∷ xs) t q printed e;
    seen = Seen_pop capacity t.logger.head x xs t.producer q.seen;
    filled = tt;
    counted = q.counted;
  }

  Step-Queue :
      (xs : List LogRecord) (t u : Threads)
      → Queue capacity xs t
      → Step capacity t u
      → (ys : List LogRecord) × Queue capacity ys u
  Step-Queue xs t u q (load_head r e) = (xs, load_head-Queue xs t q r e)
  Step-Queue xs t u q (steps.drop seen r e full) = (xs, drop-Queue xs t q seen r e)
  Step-Queue xs t u q (store seen r e full) = (xs, store-Queue xs t q seen r e full)
  Step-Queue xs t u q (advance_tail r e) = (xs ++ (r ∷ []), advance_tail-Queue xs t q r e)
  Step-Queue xs t u q (report e) = (xs, report-Queue xs t q)
  Step-Queue xs t u q (compare e ne) = (xs, compare-Queue xs t q e ne)
  Step-Queue xs t u q (print r e found) = (xs, print-Queue xs t q r e found)
  Step-Queue xs t u q (advance_head e) = (drop 1 xs, advance_head-Queue xs t q e)

  idle-Queue : 0 < capacity → Queue capacity [] (idle capacity)
  unfolding make_logger
  idle-Queue h = record {
    ring = record {
      storage = length-replicate capacity _;
      starts = h;
      within = omega arith;
      held = λ i x e. cc;
    };
    ends = sym (mod-eq_of_lt h);
    room = h;
    order = refl;
    seen = tt;
    filled = tt;
    counted = refl;
  }

  -- Whatever the interleaving of the two threads: the ring holds the records published and not yet
  -- released, in order; the records written are the first of those published, each once; no slot is
  -- written while its record waits to be written; and every record dropped is counted until it is
  -- reported.
  pub Reach-Queue :
      {t : Threads} → 0 < capacity → Reach capacity t → (xs : List LogRecord) × Queue capacity xs t
  Reach-Queue h begin = ([], idle-Queue h)
  Reach-Queue h (later {t} {u} r s) = let (xs, q) = Reach-Queue h r in Step-Queue xs t u q s
