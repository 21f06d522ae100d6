-- ===== src/Net/RingBuffer/Refine.antt =====
-- The ring buffer as the sequence of the bytes that it holds.
use cpp_trading_engine.Base.{
  ℕ, zero, suc, ◌+◌, ◌-◌, ◌%◌, ◌≡◌, ◌≤◌, ◌<◌, ◌⊎◌, min, refl, sym, ap, ◌∙◌, subst, Bool-cases, [],
  ◌∷◌, ◌++◌, some, ltb, leb, length, get_elem?, set, take, drop, Text, Result, ok, err,
  ring_overflow, arith, inl, inr, append-nil, append_assoc, length-append, length-take, length-drop,
  take-append-drop, length-replicate, take-all, drop-all, le→leb, drop_get,
}
use cpp_trading_engine.Base.Wrap.{Wraps, push-Wraps, pop-Wraps, wrapped_next}
use cpp_trading_engine.Net.RingBuffer.{
  RingBuffer, copy_in, make_ring, free_space, write_pos, contiguous_free, write_pass, write_from,
  write_bytes, readable, commit_read,
}
use native.Mathlib.Nat.{mod-lt, mod-add-mod, mod-eq_of_lt, mod_self}

pub record Holds (capacity : ℕ) (xs : Text) (r : RingBuffer) : Type 0 where
  pub counted : r.size ≡ length xs
  pub ring : Wraps capacity r.read_pos xs r.data_bytes

module _ (capacity : ℕ) where
  pub make_ring-Holds : 0 < capacity → Holds capacity [] (make_ring capacity)
  unfolding make_ring
  make_ring-Holds h = record {
    counted = refl;
    ring = record {
      storage = length-replicate {A = ℕ} capacity 0;
      starts = h;
      within = omega arith;
      held = λ i x e. cc;
    };
  }

  slot_after :
      (start n at : ℕ)
      → (start + n) % capacity ≡ at
      → at + 1 < capacity
      → (start + (n + 1)) % capacity ≡ at + 1
  slot_after start n at e h =
      let shift : (start + (n + 1)) % capacity ≡ ((start + n) % capacity + 1) % capacity =
        rw mod-add-mod (ap (λ x. x % capacity) (omega arith)) in
      shift ∙ ap (λ x. (x + 1) % capacity) e ∙ mod-eq_of_lt h

  -- Bytes copied behind the list, up to the end of the array at most.
  copy_in-Wraps :
      (start at : ℕ) (xs bytes slots : Text)
      → Wraps capacity start xs slots
      → (start + length xs) % capacity ≡ at
      → at + length bytes ≤ capacity
      → length xs + length bytes ≤ capacity
      → Wraps capacity start (xs ++ bytes) (copy_in slots at bytes)
  unfolding copy_in
  copy_in-Wraps start at xs [] slots w e h k = rw (append-nil xs) w
  copy_in-Wraps start at xs (b ∷ []) slots w e h k = rw⁻¹ e (push-Wraps xs slots b w (omega arith))
  copy_in-Wraps start at xs (b ∷ c ∷ cs) slots w e h k =
      let pushed : Wraps capacity start (xs ++ (b ∷ [])) (set slots at b) =
        rw⁻¹ e (push-Wraps xs slots b w (omega arith)) in
      subst (λ l. Wraps capacity start l (copy_in (set slots at b) (at + 1) (c ∷ cs)))
        (append_assoc xs (b ∷ []) (c ∷ cs))
        (copy_in-Wraps start (at + 1) (xs ++ (b ∷ [])) (c ∷ cs) (set slots at b) pushed
          (rw (length-append xs (b ∷ [])) (slot_after start (length xs) at e (omega arith)))
          (omega arith) (omega (arith, length-append xs (b ∷ []))))

  -- One pass adds as many bytes as fit before the end of the array.
  write_pass-Holds :
      (xs bytes : Text) (r : RingBuffer)
      → Holds capacity xs r
      → length xs + length bytes ≤ capacity
      → let n = min (contiguous_free capacity r) (length bytes) in
        Holds capacity (xs ++ take n bytes) (write_pass capacity bytes r)
  write_pass-Holds xs bytes r v h =
      let n = min (contiguous_free capacity r) (length bytes) in
      let len : length (take n bytes) ≡ n = length-take n bytes ∙ omega arith in
      let at : (r.read_pos + length xs) % capacity ≡ write_pos capacity r =
        ap (λ k. (r.read_pos + k) % capacity) (sym v.counted) in
      record {
        counted = omega (arith, v.counted, len, length-append xs (take n bytes));
        ring =
            copy_in-Wraps r.read_pos (write_pos capacity r) xs (take n bytes) r.data_bytes v.ring at
              (omega (
                arith,
                len,
                mod-lt (r.read_pos + r.size) {m = capacity} (omega (arith, v.ring.starts)),
              ))
              (omega (arith, len));
      }

  abbrev pub Written : Text → Result RingBuffer → Type 0
  Written xs r = (q : RingBuffer) × (r ≡ ok q) × Holds capacity xs q

  -- A pass that starts at the front of the array is the last.
  last_pass :
      (xs rest : Text) (r : RingBuffer)
      → Holds capacity xs r
      → length xs + length rest ≤ capacity
      → (length rest ≡ 0) ⊎ (write_pos capacity r ≡ 0)
      → Written (xs ++ rest) (write_from capacity 1 rest r)
  unfolding write_from
  last_pass xs [] r v h c = (r, refl, rw (append-nil xs) v)
  last_pass xs (b ∷ bs) r v h (inl c) = absurd (omega (arith, c))
  last_pass xs (b ∷ bs) r v h (inr c) =
      let n = min (contiguous_free capacity r) (length (b ∷ bs)) in
      let all : length (b ∷ bs) ≤ n = omega (arith, c, v.counted) in
      let w = write_pass-Holds xs (b ∷ bs) r v h in
      rw (write_from, drop-all n (b ∷ bs) all)
        (
          write_pass capacity (b ∷ bs) r,
          refl,
          subst (λ l. Holds capacity (xs ++ l) (write_pass capacity (b ∷ bs) r))
              (take-all n (b ∷ bs) all) w,
        )

  -- A first pass that leaves bytes over has reached the end of the array.
  front_or_done :
      (xs bytes : Text) (r : RingBuffer)
      → Holds capacity xs r
      → length xs + length bytes ≤ capacity
      → let n = min (contiguous_free capacity r) (length bytes) in
        (length (drop n bytes) ≡ 0) ⊎ ((r.read_pos + (r.size + n)) % capacity ≡ 0)
  front_or_done xs bytes r v h =
      let n = min (contiguous_free capacity r) (length bytes) in
      let p = write_pos capacity r in
      let below : p < capacity = mod-lt (r.read_pos + r.size) (omega (arith, v.ring.starts)) in
      elim (Bool-cases (leb (length bytes) n)) [
        | inl e ↦ let k : length bytes ≤ n = ground arith in inl (length-drop n bytes ∙ omega arith)
        | inr e ↦
            let k : n < length bytes = ground arith in
            let to_end : p + n ≡ capacity = omega (arith, v.counted) in
            let shift : (r.read_pos + (r.size + n)) % capacity ≡ (p + n) % capacity =
              rw mod-add-mod (ap (λ x. x % capacity) (omega arith)) in
            inr (shift ∙ ap (λ x. x % capacity) to_end ∙ mod_self capacity)
      ]

  two_passes :
      (xs bytes : Text) (r : RingBuffer)
      → Holds capacity xs r
      → length xs + length bytes ≤ capacity
      → Written (xs ++ bytes) (write_from capacity 2 bytes r)
  unfolding write_from
  two_passes xs [] r v h = (r, refl, rw (append-nil xs) v)
  two_passes xs (b ∷ bs) r v h =
      let bytes = b ∷ bs in
      let n = min (contiguous_free capacity r) (length bytes) in
      let (q, e, w) =
        last_pass (xs ++ take n bytes) (drop n bytes) (write_pass capacity bytes r)
          (write_pass-Holds xs bytes r v h)
          (omega (arith, length-append xs (take n bytes), length-take n bytes, length-drop n bytes))
          (front_or_done xs bytes r v h) in
      (
        q,
        e,
        subst (λ l. Holds capacity l q)
            (append_assoc xs (take n bytes) (drop n bytes)
              ∙ ap (λ l. xs ++ l) (take-append-drop n bytes))
            w,
      )

  -- `Write` of bytes that there is room for succeeds, in the two passes that the comment in the
  -- source allows, stays inside the array and appends the bytes; of more bytes it throws.
  pub write_bytes-append :
      (xs bytes : Text) (r : RingBuffer)
      → Holds capacity xs r
      → ((length xs + length bytes ≤ capacity)
          × Written (xs ++ bytes) (write_bytes capacity bytes r))
        ⊎ ((capacity < length xs + length bytes)
            × (write_bytes capacity bytes r ≡ err ring_overflow))
  unfolding write_bytes free_space
  write_bytes-append xs bytes r v = elim (Bool-cases (ltb (capacity - r.size) (length bytes))) [
    | inl e ↦
        let full : capacity < length xs + length bytes = ground (arith, v.counted, v.ring.within) in
        rw e (inr (full, refl))
    | inr e ↦
        let room : length xs + length bytes ≤ capacity = ground (arith, v.counted, v.ring.within) in
        rw e (inl (room, two_passes xs bytes r v room))
  ]

  wrapped_on : (start n : ℕ) → (start + suc n) % capacity ≡ ((start + 1) % capacity + n) % capacity
  wrapped_on start n = sym (wrapped_next capacity start n)

  drop-Wraps :
      (n start : ℕ) (xs slots : Text)
      → Wraps capacity start xs slots
      → n ≤ length xs
      → Wraps capacity ((start + n) % capacity) (drop n xs) slots
  drop-Wraps zero start xs slots w h =
      subst (λ i. Wraps capacity i xs slots)
        (sym (mod-eq_of_lt w.starts) ∙ ap (λ x. x % capacity) (omega arith)) w
  drop-Wraps (suc n) start [] slots w h = absurd (omega arith)
  drop-Wraps (suc n) start (x ∷ xs) slots w h =
      rw (wrapped_on start n)
        (drop-Wraps n ((start + 1) % capacity) xs slots (pop-Wraps x xs slots w) (omega arith))

  -- `CommitRead` of no more bytes than the buffer holds takes them from the front.
  pub commit_read-drop :
      (xs : Text) (n : ℕ) (r : RingBuffer)
      → Holds capacity xs r
      → n ≤ length xs
      → Holds capacity (drop n xs) (commit_read capacity n r)
  unfolding commit_read
  commit_read-drop xs n r v h = record {
    counted = rw (v.counted, le→leb n (length xs) h) (sym (length-drop n xs));
    ring = drop-Wraps n r.read_pos xs r.data_bytes v.ring h;
  }

  -- A part of the array that agrees with a list.
  part_of_list :
      (n start : ℕ) (xs slots : Text)
      → ((i x : ℕ) → i < n → get_elem? xs i ≡ some x → get_elem? slots (start + i) ≡ some x)
      → n ≤ length xs
      → take n (drop start slots) ≡ take n xs
  part_of_list zero start xs slots h k = refl
  part_of_list (suc n) start [] slots h k = absurd (omega arith)
  part_of_list (suc n) start (x ∷ xs) slots h k =
      let e : get_elem? slots start ≡ some x =
        subst (λ i. get_elem? slots i ≡ some x) (omega arith) (h 0 x (omega arith) refl) in
      rw (drop_get slots start x e) (
        ap (λ l. x ∷ l)
          (part_of_list n (start + 1) xs slots
            (λ i y m f.
              subst (λ j. get_elem? slots j ≡ some y) (omega arith) (h (suc i) y (omega arith) f))
            (omega arith)))

  -- The region handed out for reading is the front of the bytes held: all of them, or those up to the
  -- end of the array, and some if there are any.
  pub readable-take :
      (xs : Text) (r : RingBuffer)
      → Holds capacity xs r
      → let n = min (length xs) (capacity - r.read_pos) in
        (readable capacity r ≡ take n xs) × (0 < length xs → 0 < n)
  unfolding readable
  readable-take xs r v =
      let n = min (length xs) (capacity - r.read_pos) in
      (
        rw v.counted (
            part_of_list n r.read_pos xs r.data_bytes
              (λ i x m e.
                subst (λ j. get_elem? r.data_bytes j ≡ some x)
                  (mod-eq_of_lt {n = r.read_pos + i} {m = capacity} (omega (arith, v.ring.starts)))
                  (v.ring.held i x e))
              (omega arith)),
        λ h. omega (arith, v.ring.starts),
      )
