-- ===== src/Net/Reassembler/Laws.antt =====
-- The message that the reassembler holds is its payloads, joined in order.
use cpp_trading_engine.Base.{
  ℕ, zero, suc, ◌+◌, ◌-◌, ◌≡◌, ◌≤◌, ◌<◌, ◌⊎◌, inl, inr, refl, sym, ap, ◌∙◌, Bool, true, false,
  Bool-cases, List, [], ◌∷◌, ◌++◌, ltb, length, set, take, Text, Result, ok, err, ◌>>=◌,
  message_too_long, arith, append-nil, append_assoc, length-append, length-set, length-replicate,
}
use cpp_trading_engine.Net.RingBuffer.{copy_in}
use cpp_trading_engine.Net.Reassembler.{
  Reassembler, make_reassembler, append, get_message, reset_message,
}

take-set_next :
    (at : ℕ) (ts : Text) (b : ℕ)
    → at < length ts
    → take (suc at) (set ts at b) ≡ take at ts ++ (b ∷ [])
take-set_next at [] b h = absurd (omega arith)
take-set_next zero (t ∷ ts) b h = refl
take-set_next (suc at) (t ∷ ts) b h = ap (λ l. t ∷ l) (take-set_next at ts b (omega arith))

length-copy_in : (ts : Text) (at : ℕ) (bytes : Text) → length (copy_in ts at bytes) ≡ length ts
unfolding copy_in
length-copy_in ts at [] = refl
length-copy_in ts at (b ∷ bs) = length-copy_in (set ts at b) (at + 1) bs ∙ length-set ts at b

one_more : (n : ℕ) → n + 1 ≡ suc n
one_more n = omega arith

take-copy_in :
    (ts : Text) (at : ℕ) (bytes : Text)
    → at + length bytes ≤ length ts
    → take (at + length bytes) (copy_in ts at bytes) ≡ take at ts ++ bytes
unfolding copy_in
take-copy_in ts at [] h = ap (λ n. take n ts) (omega arith) ∙ sym (append-nil (take at ts))
take-copy_in ts at (b ∷ bs) h =
    ap (λ n. take n (copy_in (set ts at b) (at + 1) bs)) (omega arith)
    ∙ take-copy_in (set ts at b) (at + 1) bs (omega (arith, length-set ts at b))
    ∙ ap (λ n. take n (set ts at b) ++ bs) (one_more at)
    ∙ ap (λ l. l ++ bs) (take-set_next at ts b (omega arith))
    ∙ append_assoc (take at ts) (b ∷ []) bs

-- A reassembler whose array has the capacity and whose size is within it.
pub record IsWithin (capacity : ℕ) (r : Reassembler) : Type 0 where
  pub storage : length r.data_bytes ≡ capacity
  pub within : r.size ≤ capacity

pub make_reassembler-IsWithin : (capacity : ℕ) → IsWithin capacity (make_reassembler capacity)
unfolding make_reassembler
make_reassembler-IsWithin capacity = record {
  storage = length-replicate {A = ℕ} capacity 0;
  within = omega arith;
}

module _ (capacity : ℕ) where
  abbrev pub Appended : Text → Bool → Reassembler → Result Reassembler → Type 0
  Appended payload fin r s =
      (q : Reassembler) × (s ≡ ok q)
      × IsWithin capacity q
      × (get_message q ≡ get_message r ++ payload)
      × (q.complete ≡ fin)

  -- `Append` of a payload that there is room for adds it behind the message and says whether the
  -- message is complete; of a longer one it throws.
  pub append-Appended :
      (payload : Text) (fin : Bool) (r : Reassembler)
      → IsWithin capacity r
      → ((r.size + length payload ≤ capacity)
          × Appended payload fin r (append capacity payload fin r))
        ⊎ ((capacity < r.size + length payload)
            × (append capacity payload fin r ≡ err message_too_long))
  unfolding append get_message
  append-Appended payload fin r v = elim (Bool-cases (ltb (capacity - r.size) (length payload))) [
    | inl e ↦
        let k : capacity < r.size + length payload = ground (arith, v.within) in
        rw e (inr (k, refl))
    | inr e ↦
        let k : r.size + length payload ≤ capacity = ground (arith, v.within) in
        rw e (
          inl (
            k,
            (
              record {
                data_bytes = copy_in r.data_bytes r.size payload;
                size = r.size + length payload;
                complete = fin;
              },
              refl,
              record {
                storage = length-copy_in r.data_bytes r.size payload ∙ v.storage;
                within = k;
              },
              take-copy_in r.data_bytes r.size payload (omega (arith, v.storage)),
              refl,
            ),
          ))
  ]

-- The payloads of a message's frames, the last of which is final.
unfoldable pub append_all : ℕ → List Text → Reassembler → Result Reassembler
unfolding append
append_all capacity [] r = ok r
append_all capacity (p ∷ []) r = append capacity p true r
append_all capacity (p ∷ q ∷ ps) r =
    (append capacity p false r) >>= λ s. append_all capacity (q ∷ ps) s

abbrev pub join : List Text → Text
join [] = []
join (p ∷ ps) = p ++ join ps

size_after :
    (capacity : ℕ) (p : Text) (fin : Bool) (r q : Reassembler)
    → append capacity p fin r ≡ ok q
    → q.size ≡ r.size + length p
unfolding append
size_after capacity p fin r q e = ground arith

module _ (capacity : ℕ) where
  Joined : Text → Result Reassembler → Type 0
  Joined message s =
      (q : Reassembler) × (s ≡ ok q) × (get_message q ≡ message) × (q.complete ≡ true)

  append_all-Joined :
      (p : Text) (ps : List Text) (r : Reassembler)
      → IsWithin capacity r
      → r.size + length (join (p ∷ ps)) ≤ capacity
      → Joined (get_message r ++ join (p ∷ ps)) (append_all capacity (p ∷ ps) r)
  unfolding append_all Joined
  append_all-Joined p [] r v h = elim (append-Appended capacity p true r v) [
    | inr (k, e) ↦ absurd (omega (arith, length-append p []))
    | inl (k, (q, e, w, m, c)) ↦ (q, e, m ∙ ap (λ l. get_message r ++ l) (sym (append-nil p)), c)
  ]
  append_all-Joined p (x ∷ ps) r v h = elim (append-Appended capacity p false r v) [
    | inr (k, e) ↦ absurd (omega (arith, length-append p (join (x ∷ ps))))
    | inl (k, (q, e, w, m, c)) ↦
        let (t, f, n, d) =
          append_all-Joined x ps q w
            (omega (arith, length-append p (join (x ∷ ps)), size_after capacity p false r q e)) in
        rw e (
          t,
          f,
          n ∙ ap (λ l. l ++ join (x ∷ ps)) m ∙ append_assoc (get_message r) p (join (x ∷ ps)),
          d,
        )
  ]

  -- After a reset, the payloads of a message that fits are joined to the message, and it is complete
  -- with the last.
  pub append_all-join :
      (p : Text) (ps : List Text) (r : Reassembler)
      → IsWithin capacity r
      → length (join (p ∷ ps)) ≤ capacity
      → (q : Reassembler) × (append_all capacity (p ∷ ps) (reset_message r) ≡ ok q)
        × (get_message q ≡ join (p ∷ ps))
        × (q.complete ≡ true)
  unfolding reset_message get_message Joined
  append_all-join p ps r v h =
      append_all-Joined p ps (record r { size = 0; complete = false })
        (record { storage = v.storage; within = omega arith }) (omega (arith, h))
