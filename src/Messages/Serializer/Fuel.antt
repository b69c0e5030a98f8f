-- ===== src/Messages/Serializer/Fuel.antt =====
-- The recursion of `_deserialize_internal` in tattle/messages.py ends before it runs out of fuel.
use tattle.Prelude.{
  ℕ, zero, suc, ◌+◌, ◌≤◌, ◌<◌, ◌≡◌, ◌≢◌, refl, ap, Option, none, some, List, [], ◌∷◌, arith, inl,
  inr, Option-cases, Bool-cases,
}
use tattle.Exec.{Result, ok, raised, recursion_error}
use tattle.Messages.Values.{
  MessageType, Value, null, int, str, bin, seq, Values, nil, cons, Field, get_fields,
}
use tattle.Messages.Serializer.{
  Popped, after, size, size_values, pop_typed, pop_untyped, pop_field, deserialize_items,
  deserialize_fields, deserialize_named, deserialize, class_named, init_message, assign_fields,
  has_type,
}
use tattle.Messages.Serializer.Shrinking.{
  Shrinks, size_pos, pop_field-le, deserialize-Shrinks, deserialize-enough,
}

-- The result is not that of a recursion that has run out of fuel.
abbrev pub Ends : {A : Type 0} → Result A → Type 0
Ends r = r ≢ raised recursion_error

after-Ends :
    {A B : Type 0} (r : Result A) (next : A → Result B)
    → Ends r
    → ((a : A) → r ≡ ok a → Ends (next a))
    → Ends (after r next)
after-Ends (raised x) next h k = λ e. let same : x ≡ recursion_error = cc in h (ap raised same)
after-Ends (ok a) next h k = k a refl

ok-Ends : {A : Type 0} (a : A) → Ends (ok a)
ok-Ends a e = cc

assign_fields-Ends : (fields : List Field) (args : Values) → Ends (assign_fields fields args)
unfolding assign_fields
assign_fields-Ends [] nil = ok-Ends nil
assign_fields-Ends [] (cons arg args) = λ e. cc
assign_fields-Ends (field ∷ fields) nil =
    after-Ends (assign_fields fields nil) _ (assign_fields-Ends fields nil) (λ a h. ok-Ends _)
assign_fields-Ends (field ∷ fields) (cons arg args) = elim (Bool-cases (has_type field.1 arg)) [
  | inl h ↦
      rw h (
        after-Ends (assign_fields fields args) _ (assign_fields-Ends fields args)
          (λ a k. ok-Ends _))
  | inr h ↦ rw h (λ e. cc)
]

-- A recursion that does not run out of fuel on values up to a size
module _ (f : Value → Popped) (n : ℕ) (ends : (v : Value) → size v ≤ n → Ends (f v))
    (shrinks : Shrinks f) where
  deserialize_items-Ends : (vs : Values) → size_values vs ≤ n → Ends (deserialize_items f vs)
  unfolding deserialize_items size
  deserialize_items-Ends nil h = ok-Ends nil
  deserialize_items-Ends (cons v vs) h = after-Ends (f v) _ (ends v (omega arith)) (λ p e.
      after-Ends (deserialize_items f vs) _ (deserialize_items-Ends vs (omega arith))
        (λ ws d. ok-Ends _))

  pop_typed-Ends : (items : Values) → size_values items < n → Ends (pop_typed f items)
  unfolding pop_typed size
  pop_typed-Ends nil h = λ e. cc
  pop_typed-Ends (cons null rest) h = ok-Ends _
  pop_typed-Ends (cons v rest) h = ends (seq (cons v rest)) (omega arith)

  pop_untyped-Ends : (items : Values) → size_values items < n → Ends (pop_untyped f items)
  unfolding pop_untyped size
  pop_untyped-Ends nil h = λ e. cc
  pop_untyped-Ends (cons (seq vs) rest) h =
      after-Ends (deserialize_items f vs) _ (deserialize_items-Ends vs (omega arith))
        (λ ws d. ok-Ends _)
  pop_untyped-Ends (cons v rest) h = ok-Ends _

  pop_field-Ends :
      (t : Option MessageType) (items : Values) → size_values items < n → Ends (pop_field f t items)
  unfolding pop_field
  pop_field-Ends none = pop_untyped-Ends
  pop_field-Ends (some t) = pop_typed-Ends

  deserialize_fields-Ends :
      (fields : List Field) (items : Values)
      → size_values items < n
      → Ends (deserialize_fields f fields items)
  unfolding deserialize_fields
  deserialize_fields-Ends [] items h = ok-Ends _
  deserialize_fields-Ends (field ∷ fields) items h =
      after-Ends (pop_field f field.1 items) _ (pop_field-Ends field.1 items h) (λ p e.
        after-Ends (deserialize_fields f fields p.1) _
          (deserialize_fields-Ends fields p.1
            (omega (arith, h, pop_field-le f shrinks field.1 items p.1 p.0 e)))
          (λ q d. ok-Ends _))

  deserialize_named-Ends :
      (name : Value) (items : Values)
      → size_values items < n
      → Ends (deserialize_named f name items)
  unfolding deserialize_named init_message
  deserialize_named-Ends null items h = ok-Ends _
  deserialize_named-Ends (str name) items h = elim (Option-cases (class_named name)) [
    | inl e ↦ rw (e, deserialize_named) (λ k. cc)
    | inr (t, e) ↦
        rw (e, deserialize_named)
          (after-Ends (deserialize_fields f (get_fields t) items) _
            (deserialize_fields-Ends (get_fields t) items h)
            (λ p d.
              after-Ends (init_message t p.0) _
                (after-Ends (assign_fields (get_fields t) p.0) _
                  (assign_fields-Ends (get_fields t) p.0) (λ a k. ok-Ends _))
                (λ v k. ok-Ends _)))
  ]
  deserialize_named-Ends name items h = λ k. cc

deserialize-Ends : (fuel : ℕ) (v : Value) → size v < fuel → Ends (deserialize fuel v)
unfolding deserialize size
deserialize-Ends zero v h = absurd (omega arith)
deserialize-Ends (suc fuel) (seq (cons name items)) h =
    deserialize_named-Ends (deserialize fuel) (size name + size_values items)
      (λ v le. deserialize-Ends fuel v (omega arith)) (deserialize-Shrinks fuel) name items
      (omega (arith, size_pos name))
deserialize-Ends (suc fuel) (seq nil) h = λ e. cc
deserialize-Ends (suc fuel) (str s) h = ok-Ends _
deserialize-Ends (suc fuel) (bin s) h = ok-Ends _
deserialize-Ends (suc fuel) (int s) h = ok-Ends _
deserialize-Ends (suc fuel) v h = λ e. cc

-- With more fuel than the size of the data the recursion does not run out of fuel, however the data
-- are nested, and its result is that of the fuel that `deserialize_internal` has.
pub deserialize-ends :
    (fuel : ℕ) (v : Value)
    → size v < fuel
    → (deserialize fuel v ≢ raised recursion_error)
      × (deserialize fuel v ≡ deserialize (suc (size v)) v)
deserialize-ends fuel v h =
    (deserialize-Ends fuel v h, deserialize-enough fuel (suc (size v)) v h (omega arith))
