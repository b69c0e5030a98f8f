-- ===== src/Messages/Serializer/Shrinking.antt =====
-- Each call of `_deserialize_internal` in tattle/messages.py leaves less of the data than it was given, so that more
-- fuel than the size of the data gives the same result.
use tattle.Prelude.{
  ℕ, zero, suc, ◌+◌, ◌≤◌, ◌<◌, ◌≡◌, refl, Option, none, some, List, [], ◌∷◌, arith, inl, inr,
  Option-cases,
}
use tattle.Exec.{Result, ok, raised}
use tattle.Messages.Values.{
  MessageType, Value, null, int, str, bin, seq, object, Values, nil, cons, Field, get_fields,
}
use tattle.Messages.Serializer.{
  Popped, after, size, size_values, pop_typed, pop_untyped, pop_field, deserialize_items,
  deserialize_fields, deserialize_named, deserialize, class_named, init_message,
}

after-ok {ℓ κ} :
    {A : Type ℓ} {B : Type κ} (r : Result A) (next : A → Result B) {b : B}
    → after r next ≡ ok b
    → (a : A) × (r ≡ ok a) × (next a ≡ ok b)
after-ok (raised x) next h = cc
after-ok (ok a) next h = (a, refl, h)

after_cong {ℓ κ} :
    {A : Type ℓ} {B : Type κ} (r : Result A) {f g : A → Result B}
    → ((a : A) → r ≡ ok a → f a ≡ g a)
    → after r f ≡ after r g
after_cong (raised x) h = refl
after_cong (ok a) h = h a refl

pub size_pos : (v : Value) → 0 < size v
unfolding size
size_pos (seq vs) = omega arith
size_pos (object t vs) = omega arith
size_pos v = omega arith

-- What is left is smaller than the value.
abbrev pub Shrinks : (Value → Popped) → Type 0
Shrinks recur = (v w : Value) (rest : Values) → recur v ≡ ok (w, rest) → size_values rest < size v

module _ (recur : Value → Popped) (shrinks : Shrinks recur) where
  pop_typed-le :
      (items rest : Values) (v : Value)
      → pop_typed recur items ≡ ok (v, rest)
      → size_values rest ≤ size_values items
  unfolding pop_typed size
  pop_typed-le nil rest v h = cc
  pop_typed-le (cons null more) rest v h = ground (arith, h)
  pop_typed-le (cons x more) rest v h = ground (arith, shrinks (seq (cons x more)) v rest h)

  pop_untyped-le :
      (items rest : Values) (v : Value)
      → pop_untyped recur items ≡ ok (v, rest)
      → size_values rest ≤ size_values items
  unfolding pop_untyped size
  pop_untyped-le nil rest v h = cc
  pop_untyped-le (cons (seq vs) more) rest v h =
      let (ws, found, eq) = after-ok (deserialize_items recur vs) (λ ws. ok (seq ws, more)) h in
      ground (arith, eq)
  pop_untyped-le (cons x more) rest v h = ground (arith, h)

  pub pop_field-le :
      (t : Option MessageType) (items rest : Values) (v : Value)
      → pop_field recur t items ≡ ok (v, rest)
      → size_values rest ≤ size_values items
  unfolding pop_field
  pop_field-le none = pop_untyped-le
  pop_field-le (some t) = pop_typed-le

  deserialize_fields-le :
      (fields : List Field) (items args rest : Values)
      → deserialize_fields recur fields items ≡ ok (args, rest)
      → size_values rest ≤ size_values items
  unfolding deserialize_fields
  deserialize_fields-le [] items args rest h = ground (arith, h)
  deserialize_fields-le (field ∷ fields) items args rest h =
      let (p, e, h') = after-ok (pop_field recur field.1 items) _ h in
      let (q, d, h'') = after-ok (deserialize_fields recur fields p.1) _ h' in
      let first = pop_field-le field.1 items p.1 p.0 e in
      let later = deserialize_fields-le fields p.1 q.0 q.1 d in ground (arith, h'', first, later)

deserialize_named-le :
    (recur : Value → Popped)
    → Shrinks recur
    → (name : Value) (items rest : Values) (v : Value)
    → deserialize_named recur name items ≡ ok (v, rest)
    → size_values rest ≤ size_values items
unfolding deserialize_named
deserialize_named-le recur shrinks null items rest v h = ground (arith, h)
deserialize_named-le recur shrinks (str name) items rest v h =
    elim (Option-cases (class_named name)) [
      | inl e ↦ ground (arith, e, h)
      | inr (t, e) ↦
          let h' : after (deserialize_fields recur (get_fields t) items)
                (λ p. after (init_message t p.0) (λ w. ok (w, p.1)))
              ≡ ok (v, rest) =
            rw (e, deserialize_named) at h in
          let (p, d, k) = after-ok (deserialize_fields recur (get_fields t) items) _ h' in
          let (w, b, k') = after-ok (init_message t p.0) _ k in
          let le = deserialize_fields-le recur shrinks (get_fields t) items p.0 p.1 d in
          ground (arith, k', le)
    ]
deserialize_named-le recur shrinks name items rest v h = cc

pub deserialize-Shrinks : (fuel : ℕ) → Shrinks (deserialize fuel)
unfolding deserialize size
deserialize-Shrinks zero v w rest h = cc
deserialize-Shrinks (suc fuel) (seq (cons name items)) w rest h = ground (
  arith,
  deserialize_named-le (deserialize fuel) (deserialize-Shrinks fuel) name items rest w h,
  size_pos name,
)
deserialize-Shrinks (suc fuel) (seq nil) w rest h = cc
deserialize-Shrinks (suc fuel) (str s) w rest h = ground (arith, h)
deserialize-Shrinks (suc fuel) (bin s) w rest h = ground (arith, h)
deserialize-Shrinks (suc fuel) (int s) w rest h = ground (arith, h)
deserialize-Shrinks (suc fuel) v w rest h = cc

-- Two recursions that agree on all values up to a size
abbrev Agree : ℕ → (Value → Popped) → (Value → Popped) → Type 0
Agree n f g = (v : Value) → size v ≤ n → f v ≡ g v

module _ (f g : Value → Popped) (n : ℕ) (agree : Agree n f g) (shrinks : Shrinks f) where
  pop_typed-Agree : (items : Values) → size_values items < n → pop_typed f items ≡ pop_typed g items
  unfolding pop_typed size
  pop_typed-Agree nil h = refl
  pop_typed-Agree (cons null rest) h = refl
  pop_typed-Agree (cons v rest) h = agree (seq (cons v rest)) (omega arith)

  deserialize_items-Agree :
      (vs : Values) → size_values vs ≤ n → deserialize_items f vs ≡ deserialize_items g vs
  unfolding deserialize_items size
  deserialize_items-Agree nil h = refl
  deserialize_items-Agree (cons v vs) h =
      rw (agree v (omega arith), deserialize_items-Agree vs (omega arith)) refl

  pop_untyped-Agree :
      (items : Values) → size_values items < n → pop_untyped f items ≡ pop_untyped g items
  unfolding pop_untyped size
  pop_untyped-Agree nil h = refl
  pop_untyped-Agree (cons (seq vs) rest) h = rw (deserialize_items-Agree vs (omega arith)) refl
  pop_untyped-Agree (cons v rest) h = refl

  pop_field-Agree :
      (t : Option MessageType) (items : Values)
      → size_values items < n
      → pop_field f t items ≡ pop_field g t items
  unfolding pop_field
  pop_field-Agree none = pop_untyped-Agree
  pop_field-Agree (some t) = pop_typed-Agree

  deserialize_fields-Agree :
      (fields : List Field) (items : Values)
      → size_values items < n
      → deserialize_fields f fields items ≡ deserialize_fields g fields items
  unfolding deserialize_fields
  deserialize_fields-Agree [] items h = refl
  deserialize_fields-Agree (field ∷ fields) items h = rw (← pop_field-Agree field.1 items h) (
      after_cong (pop_field f field.1 items) (λ p e.
        rw
          (deserialize_fields-Agree fields p.1
            (omega (arith, pop_field-le f shrinks field.1 items p.1 p.0 e)))
          refl))

  deserialize_named-Agree :
      (name : Value) (items : Values)
      → size_values items < n
      → deserialize_named f name items ≡ deserialize_named g name items
  unfolding deserialize_named
  deserialize_named-Agree null items h = refl
  deserialize_named-Agree (str name) items h = elim (Option-cases (class_named name)) [
    | inl e ↦ rw (e, deserialize_named) refl
    | inr (t, e) ↦
        rw (e, deserialize_named) (rw (deserialize_fields-Agree (get_fields t) items h) refl)
  ]
  deserialize_named-Agree name items h = refl

-- Two calls with more fuel than the size of the data give the same result.
pub deserialize-enough :
    (f g : ℕ) (v : Value) → size v < f → size v < g → deserialize f v ≡ deserialize g v
unfolding deserialize size
deserialize-enough zero g v h k = absurd (omega arith)
deserialize-enough (suc f) zero v h k = absurd (omega arith)
deserialize-enough (suc f) (suc g) (seq (cons name items)) h k =
    deserialize_named-Agree (deserialize f) (deserialize g) (size name + size_values items)
      (λ v le. deserialize-enough f g v (omega arith) (omega arith)) (deserialize-Shrinks f) name
      items (omega (arith, size_pos name))
deserialize-enough (suc f) (suc g) (seq nil) h k = refl
deserialize-enough (suc f) (suc g) v h k = refl
