-- ===== src/Risk/Account/Laws.antt =====
-- The balances in use have different currencies, and no message makes them more than there is room for.
use cpp_trading_engine.Base.{
  ℕ, zero, suc, ◌+◌, ◌≡◌, ◌≤◌, ◌<◌, refl, sym, ap, ◌∙◌, subst, true, false, Bool-cases,
  Option-cases, Option, none, some, some_inj, inl, inr, List, ltb, leb, length, get_elem?,
  get_elem?_total, lt-length_of_get, ◌≢◌, ◌==◌, set, length-set, Text, text_eq, Result,
  Result-cases, ok, err, arith,
}
use cpp_trading_engine.Base.Double.{Double}
use cpp_trading_engine.Base.Effects.{store_result}
use cpp_trading_engine.Constants.{
  is_text, channel_key, account_channel, details_key, ccy_key, cash_bal_key, avail_bal_key,
}
use cpp_trading_engine.Json.Fields.{find_string, find_data}
use cpp_trading_engine.Json.Rules.{Outcome, resume-Outcome, for_each_array_element-Outcome}
use cpp_trading_engine.Orders.Events.{parse_double}
use cpp_trading_engine.Risk.Account.{
  Balance, AccountState, capacity, index_from, set_cash, set_avail, add_balance, update_balance,
  apply_texts, apply_detail, apply_data, apply_message,
}
use cpp_trading_engine.Base.Wrap.{get_elem?-set_same, get_elem?-set_other}

-- The array keeps its size, the count stays within it, and no two balances in use have the same
-- currency.
pub record IsSound {V : Type 0} (s : AccountState V) : Type 0 where
  pub storage : length s.balances ≡ capacity
  pub within : s.count ≤ capacity
  pub distinct :
      (i j : ℕ) (a b : Balance V)
      → i < j
      → j < s.count
      → get_elem? s.balances i ≡ some a
      → get_elem? s.balances j ≡ some b
      → text_eq a.ccy b.ccy ≡ false

-- What a search answers: an index in use with the currency, or none where no balance in use has it.
pub data Found {V : Type 0} (s : AccountState V) (ccy : Text) (from : ℕ) (r : Result (Option ℕ))
    : Type 0 where
  none_has :
      r ≡ ok none
      → ((j : ℕ) (b : Balance V)
          → from ≤ j
          → j < s.count
          → get_elem? s.balances j ≡ some b
          → text_eq b.ccy ccy ≡ false)
      → Found s ccy from r
  found_at :
      (i : ℕ) (a : Balance V)
      → r ≡ ok (some i)
      → i < s.count
      → get_elem? s.balances i ≡ some a
      → text_eq a.ccy ccy ≡ true
      → Found s ccy from r

module _ {V : Type 0} where
  index_from-Found :
      (s : AccountState V) (ccy : Text) (i left : ℕ)
      → length s.balances ≡ capacity
      → s.count ≤ capacity
      → i + left ≡ s.count
      → Found s ccy i (index_from s ccy i left)
  unfolding index_from
  index_from-Found s ccy i zero st w e = none_has refl (λ j b h k g. absurd (omega (arith, e)))
  index_from-Found s ccy i (suc left) st w e =
      let (a, g) = get_elem?_total s.balances i (omega (arith, st, w, e)) in
      elim (Bool-cases (text_eq a.ccy ccy)) [
        | inl b ↦ rw (g, b) (found_at i a refl (omega (arith, e)) g b)
        | inr b ↦
            rw (g, b) (onward a g b (index_from-Found s ccy (i + 1) left st w (omega (arith, e))))
      ]
    where
      onward :
          (a : Balance V)
          → get_elem? s.balances i ≡ some a
          → text_eq a.ccy ccy ≡ false
          → Found s ccy (i + 1) (index_from s ccy (i + 1) left)
          → Found s ccy i (index_from s ccy (i + 1) left)
      onward a g b (found_at j x r k f t) = found_at j x r k f t
      onward a g b (none_has r none_of) = none_has r (λ j x h k f.
          elim (Bool-cases (leb (i + 1) j)) [
            | inl m ↦ none_of j x (ground arith) k f
            | inr m ↦
                let same : j ≡ i = ground arith in
                let q : some a ≡ some x =
                  sym g ∙ subst (λ n. get_elem? s.balances n ≡ some x) same f in
                subst (λ (y : Balance V). text_eq y.ccy ccy ≡ false) (some_inj a x q) b
          ])

  ccy_after :
      (bs : List (Balance V)) (i : ℕ) (a c : Balance V)
      → get_elem? bs i ≡ some a
      → c.ccy ≡ a.ccy
      → (k : ℕ) (x : Balance V) → get_elem? (set bs i c) k ≡ some x
      → (y : Balance V) × (get_elem? bs k ≡ some y) × (x.ccy ≡ y.ccy)
  ccy_after bs i a c g h k x e = elim (Bool-cases (k == i)) [
    | inl m ↦
        let same : k ≡ i = ground arith in
        let put : get_elem? (set bs i c) i ≡ some c =
          get_elem?-set_same bs i c (lt-length_of_get bs i a g) in
        let q : c ≡ x =
          some_inj c x (sym put ∙ subst (λ n. get_elem? (set bs i c) n ≡ some x) same e) in
        (
          a,
          subst (λ n. get_elem? bs n ≡ some a) (sym same) g,
          ap (λ (z : Balance V). z.ccy) (sym q) ∙ h,
        )
    | inr m ↦
        let other : k ≢ i = λ same. absurd (ground arith) in
        (x, sym (get_elem?-set_other bs i k c other) ∙ e, refl)
  ]

  -- A balance gets new amounts.
  set_amount-IsSound :
      (s : AccountState V) (i : ℕ) (a c : Balance V)
      → IsSound s
      → get_elem? s.balances i ≡ some a
      → c.ccy ≡ a.ccy
      → IsSound (record s { balances = set s.balances i c })
  set_amount-IsSound s i a c v g h = record {
    storage = length-set s.balances i c ∙ v.storage;
    within = v.within;
    distinct = λ j k x y m n e f.
        let (p, pe, pc) = ccy_after s.balances i a c g h j x e in
        let (q, qe, qc) = ccy_after s.balances i a c g h k y f in
        rw (pc, qc) (v.distinct j k p q m n pe qe);
  }

  -- A balance of a new currency is added.
  add-IsSound :
      (s : AccountState V) (c : Balance V)
      → IsSound s
      → s.count < capacity
      → ((j : ℕ) (b : Balance V)
          → 0 ≤ j
          → j < s.count
          → get_elem? s.balances j ≡ some b
          → text_eq b.ccy c.ccy ≡ false)
      → IsSound (record { balances = set s.balances s.count c; count = s.count + 1 })
  add-IsSound s c v room none_of = record {
    storage = length-set s.balances s.count c ∙ v.storage;
    within = omega (arith, room);
    distinct = λ i j x y m n e f.
        let old : get_elem? s.balances i ≡ some x =
          sym (get_elem?-set_other s.balances s.count i c (λ q. absurd (omega (arith, q)))) ∙ e in
        elim (Bool-cases (j == s.count)) [
          | inl p ↦
              let last : j ≡ s.count = ground arith in
              let put : get_elem? (set s.balances s.count c) s.count ≡ some c =
                get_elem?-set_same s.balances s.count c (omega (arith, room, v.storage)) in
              let q : c ≡ y =
                some_inj c y
                  (sym put ∙ subst (λ k. get_elem? (set s.balances s.count c) k ≡ some y) last f) in
              subst (λ (z : Balance V). text_eq x.ccy z.ccy ≡ false) q
                (none_of i x (omega arith) (omega (arith, last)) old)
          | inr p ↦
              let before : j < s.count = ground arith in
              v.distinct i j x y m before old (
                sym (get_elem?-set_other s.balances s.count j c (λ q. absurd (omega (arith, q))))
                ∙ f)
        ];
  }

module _ (d : Double) where
  open d use {Val}

  abbrev Sounds : AccountState Val × Result (Unit {0}) → Type 0
  Sounds m = Outcome IsSound IsSound m

  -- A balance whose amounts are set, or that is left where an amount is not a number.
  set_cash-IsSound :
      (s : AccountState Val) (i : ℕ) (a : Balance Val) (text : Text)
      → IsSound s
      → get_elem? s.balances i ≡ some a
      → Sounds (store_result (set_cash d i text s) s)
  set_cash-IsSound s i a text v g = elim (Result-cases (parse_double d text)) [
    | inr (x, e) ↦ rw e v
    | inl (value, e) ↦ rw (e, g) (set_amount-IsSound s i a (record a { cash_bal = value }) v g refl)
  ]

  set_avail-IsSound :
      (s : AccountState Val) (i : ℕ) (text : Text)
      → IsSound s
      → Sounds (store_result (set_avail d i text s) s)
  set_avail-IsSound s i text v = elim (Result-cases (parse_double d text)) [
    | inr (x, e) ↦ rw e v
    | inl (value, e) ↦ elim (Option-cases (get_elem? s.balances i)) [
      | inl g ↦ rw (e, g) v
      | inr (a, g) ↦ rw (e, g) (set_amount-IsSound s i a (record a { avail_bal = value }) v g refl)
    ]
  ]

  add_balance-IsSound :
      (s : AccountState Val) (ccy cash avail : Text)
      → IsSound s
      → s.count < capacity
      → ((j : ℕ) (b : Balance Val)
          → 0 ≤ j
          → j < s.count
          → get_elem? s.balances j ≡ some b
          → text_eq b.ccy ccy ≡ false)
      → Sounds (store_result (add_balance d ccy cash avail s) s)
  add_balance-IsSound s ccy cash avail v room none_of = elim (Result-cases (parse_double d cash)) [
    | inr (x, e) ↦ rw e v
    | inl (c, e) ↦ elim (Result-cases (parse_double d avail)) [
      | inr (x, f) ↦ rw (e, f) v
      | inl (b, f) ↦
          rw (e, f)
            (add-IsSound s (record { ccy = ccy; cash_bal = c; avail_bal = b }) v room none_of)
    ]
  ]

  update-IsSound :
      (s : AccountState Val) (ccy cash avail : Text) (r : Result (Option ℕ))
      → IsSound s
      → Found s ccy 0 r
      → Sounds (update_balance d ccy cash avail r s)
  update-IsSound s ccy cash avail r v (found_at i a e k g t) = rw e (
      resume-Outcome IsSound IsSound IsSound (λ _ u. store_result (set_avail d i avail u) u)
        (store_result (set_cash d i cash s) s) (set_cash-IsSound s i a cash v g)
        (λ u _ w. set_avail-IsSound u i avail w))
  update-IsSound s ccy cash avail r v (none_has e none_of) =
      elim (Bool-cases (ltb s.count capacity)) [
        | inr b ↦ rw (e, b) v
        | inl b ↦
            let room : s.count < capacity = ground arith in
            rw (e, b) (add_balance-IsSound s ccy cash avail v room none_of)
      ]

  texts-IsSound :
      (ccy cash avail : Option Text) (s : AccountState Val)
      → IsSound s
      → Sounds (apply_texts d ccy cash avail s)
  texts-IsSound (some c) (some h) (some a) s v =
      update-IsSound s c h a (index_from s c 0 s.count) v
        (index_from-Found s c 0 s.count v.storage v.within (omega arith))
  texts-IsSound (some c) (some h) none s v = v
  texts-IsSound (some c) none a s v = v
  texts-IsSound none h a s v = v

  data-IsSound :
      (found : Option Text) (s : AccountState Val) → IsSound s → Sounds (apply_data d found s)
  unfolding apply_detail
  data-IsSound none s v = v
  data-IsSound (some data_text) s v =
      for_each_array_element-Outcome IsSound IsSound (λ t w. w) (apply_detail d)
        (λ x t w.
          texts-IsSound (find_string x ccy_key) (find_string x cash_bal_key)
            (find_string x avail_bal_key) t w)
        data_text details_key s v

  outcome_both : (m : AccountState Val × Result (Unit {0})) → Sounds m → IsSound m.0
  outcome_both (s, ok done) v = v
  outcome_both (s, err e) v = v

  -- Whatever the message, and also where it throws half-way, the balances in use stay within the
  -- array and keep different currencies.
  pub apply_message-IsSound :
      (message : Text) (s : AccountState Val) → IsSound s → IsSound (apply_message d message s).0
  unfolding apply_message
  apply_message-IsSound message s v =
      elim (Bool-cases (is_text (find_string message channel_key) account_channel)) [
        | inl e ↦ rw e (
            outcome_both (apply_data d (find_data message) s)
              (data-IsSound (find_data message) s v))
        | inr e ↦ rw e v
      ]
