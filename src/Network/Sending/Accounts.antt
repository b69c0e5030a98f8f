-- ===== src/Network/Sending/Accounts.antt =====
-- `UDPConnection.sendto` of tattle/network.py: what the socket took of a call, against its future.
use tattle.Prelude.{
  ℕ, zero, suc, ◌<◌, ◌≤◌, ◌⊎◌, ◌≡◌, refl, sym, ap, ◌∙◌, ◌≢◌, Option, none, some, List, [], ◌∷◌,
  ◌++◌, arith, eqb, eqb_iff, length, take, drop, take-append-drop, length-drop, Bool-cases, inl,
  inr,
}
use mathlib.Core.List.{append_assoc, append-nil}
use mathlib.Core.Path.{subst}
use tattle.Exec.{Result, ok, raised}
use tattle.Messages.{Bytes}
use tattle.Network.{Address, Future, pending, done, cancelled, put, settle_future}
use tattle.Network.Sending.{
  Outcome, blocked, took, failed, Writer, Sending, left_of, settle_call, add_taken, add_writer,
  after_sendto, try_sendto,
}

-- The bytes that the socket took, one piece after the other
abbrev pub bytes_of : List (Bytes × Address) → Bytes
bytes_of [] = []
bytes_of ((piece, addr) ∷ pieces) = piece ++ bytes_of pieces

pub bytes_of-append :
    (front : List (Bytes × Address)) (piece : Bytes) (addr : Address)
    → bytes_of (front ++ (piece, addr) ∷ []) ≡ bytes_of front ++ piece
bytes_of-append [] piece addr = append-nil piece
bytes_of-append ((first, a) ∷ front) piece addr =
    ap (λ bs. first ++ bs) (bytes_of-append front piece addr)
    ∙ sym (append_assoc first (bytes_of front) piece)

pub put-same {ℓ} : {A : Type ℓ} (r : ℕ) (a : A) (f : ℕ → A) → put r a f r ≡ a
put-same r a f = ground arith

pub put-other {ℓ} : {A : Type ℓ} (r q : ℕ) (a : A) (f : ℕ → A) → q ≢ r → put r a f q ≡ f q
put-other r q a f h = ground arith

-- The result `None` needs all of the data.
abbrev pub SettledFits : Future (Unit {0}) → Bytes → Bytes → Type 0
SettledFits (done (ok u)) all_taken content = all_taken ≡ content
SettledFits (done (raised x)) all_taken content = Unit
SettledFits pending all_taken content = Unit
SettledFits cancelled all_taken content = Unit

abbrev pub Undone : Future (Unit {0}) → Type 0
Undone (done result) = ⊥
Undone pending = Unit
Undone cancelled = Unit

-- The writer is of a call that was made, and holds what is left of it.
abbrev pub WriterFits : ℕ → ℕ → Future (Unit {0}) → Bytes → Bytes → Option Writer → Type 0
WriterFits made r future all_taken content none = Unit
WriterFits made r future all_taken content (some w) =
    (w.fut < made) × (w.fut ≡ r → (all_taken ++ w.data_left ≡ content) × Undone future)

module _ (r : ℕ) (content : Bytes) where
  abbrev pub all_taken : Sending → Bytes
  all_taken s = bytes_of (s.taken r)

  -- The accounts of a call that was made
  pub record Accounts (s : Sending) : Type 0 where
    pub called : r < s.made
    pub settled : SettledFits (s.futures r) (all_taken s) content
    pub writing : WriterFits s.made r (s.futures r) (all_taken s) content s.writer

-- A writer of another call
abbrev pub OtherWriter : ℕ → ℕ → Option Writer → Type 0
OtherWriter made r none = Unit
OtherWriter made r (some w) = (w.fut < made) × (w.fut ≢ r)

pub OtherWriter-fits :
    (made r : ℕ) (future : Future (Unit {0})) (bytes content : Bytes) (w : Option Writer)
    → OtherWriter made r w
    → WriterFits made r future bytes content w
OtherWriter-fits made r future bytes content none h = tt
OtherWriter-fits made r future bytes content (some w) h = (h.0, λ e. absurd (h.1 e))

drop-length : (n : ℕ) (left : Bytes) → n ≡ length left → drop n left ≡ []
drop-length n left h = cases (drop n left) (omega (arith, length-drop n left))
  where
    cases : (bs : Bytes) → length bs ≡ 0 → bs ≡ []
    cases [] e = refl
    cases (b ∷ bs) e = absurd (omega arith)

left_of-drop : (n : ℕ) (left : Bytes) → left_of n left ≡ drop n left
left_of-drop zero left = refl
left_of-drop (suc n) left = ground arith

module _ (r : ℕ) (content : Bytes) where
  -- The future of the call has got the result.
  settled_now :
      (s : Sending) (result : Result (Unit {0}))
      → r < s.made
      → s.futures r ≡ pending
      → SettledFits (done result) (all_taken r content s) content
      → OtherWriter s.made r s.writer
      → Accounts r content (settle_call result r s)
  settled_now s result h p fits other = record {
    called = h;
    settled =
        subst (λ f. SettledFits f (all_taken r content s) content)
          (sym (
            put-same r (settle_future result (s.futures r)) s.futures
            ∙ ap (settle_future result) p))
          fits;
    writing = OtherWriter-fits s.made r _ _ content s.writer other;
  }

  -- The writer holds what is left.
  writing_now :
      (left : Bytes) (addr : Address) (s : Sending)
      → r < s.made
      → s.futures r ≡ pending
      → all_taken r content s ++ left ≡ content
      → Accounts r content (add_writer left addr r s)
  writing_now left addr s h p eq = record {
    called = h;
    settled = subst (λ f. SettledFits f (all_taken r content s) content) (sym p) tt;
    writing = (h, λ u. (eq, subst Undone (sym p) tt));
  }

  after_sendto-own :
      (left : Bytes) (addr : Address) (n : ℕ) (s : Sending)
      → r < s.made
      → s.futures r ≡ pending
      → all_taken r content s ++ drop n left ≡ content
      → OtherWriter s.made r s.writer
      → Accounts r content (after_sendto left addr r n s)
  unfolding after_sendto
  after_sendto-own left addr n s h p eq other = elim (Bool-cases (eqb n (length left))) [
    | inl e ↦ rw e (
        settled_now s (ok tt) h p
          (sym (append-nil (all_taken r content s))
            ∙ ap (λ bs. all_taken r content s ++ bs)
                (sym (drop-length n left ((eqb_iff n (length left)).0 e)))
            ∙ eq)
          other)
    | inr e ↦ rw e (
        writing_now (left_of n left) addr s h p
          (ap (λ bs. all_taken r content s ++ bs) (left_of-drop n left) ∙ eq))
  ]

  pub try_sendto-own :
      (left : Bytes) (addr : Address) (o : Outcome) (s : Sending)
      → r < s.made
      → s.futures r ≡ pending
      → all_taken r content s ++ left ≡ content
      → OtherWriter s.made r s.writer
      → Accounts r content (try_sendto left addr r o s)
  unfolding try_sendto
  try_sendto-own left addr blocked s h p eq other = after_sendto-own left addr 0 s h p eq other
  try_sendto-own left addr (took n) s h p eq other =
      let piece = take n left in
      after_sendto-own left addr n (add_taken r piece addr s) h p
        (ap (λ ds. bytes_of ds ++ drop n left)
            (put-same r (s.taken r ++ (piece, addr) ∷ []) s.taken)
          ∙ ap (λ bs. bs ++ drop n left) (bytes_of-append (s.taken r) piece addr)
          ∙ append_assoc (all_taken r content s) piece (drop n left)
          ∙ ap (λ bs. all_taken r content s ++ bs) (take-append-drop n left)
          ∙ eq)
        other
  try_sendto-own left addr (failed x) s h p eq other = settled_now s (raised x) h p tt other

  -- What leaves the call as it is
  pub record Apart (s t : Sending) : Type 0 where
    pub made : s.made ≤ t.made
    pub future : t.futures r ≡ s.futures r
    pub taken : t.taken r ≡ s.taken r
    pub writer : (t.writer ≡ s.writer) ⊎ OtherWriter t.made r t.writer

  writer_later :
      (m n : ℕ) (future : Future (Unit {0})) (bytes : Bytes) (w : Option Writer)
      → m ≤ n
      → WriterFits m r future bytes content w
      → WriterFits n r future bytes content w
  writer_later m n future bytes none h fits = tt
  writer_later m n future bytes (some w) h fits = (omega (arith, fits.0), fits.1)

  pub Accounts-Apart : (s t : Sending) → Accounts r content s → Apart s t → Accounts r content t
  Accounts-Apart s t a apart = record {
    called = omega (arith, a.called, apart.made);
    settled =
        subst (λ f. SettledFits f (all_taken r content t) content) (sym apart.future)
          (subst (λ ds. SettledFits (s.futures r) (bytes_of ds) content) (sym apart.taken)
            a.settled);
    writing = elim apart.writer [
      | inl e ↦ subst (WriterFits t.made r (t.futures r) (all_taken r content t) content) (sym e) (
          subst (λ f. WriterFits t.made r f (all_taken r content t) content s.writer)
            (sym apart.future)
            (subst (λ ds. WriterFits t.made r (s.futures r) (bytes_of ds) content s.writer)
              (sym apart.taken) (writer_later s.made t.made _ _ s.writer apart.made a.writing)))
      | inr other ↦ OtherWriter-fits t.made r _ _ content t.writer other
    ];
  }

  -- A call of `socket.sendto` for another future
  after_sendto-Apart :
      (left : Bytes) (addr : Address) (fut n : ℕ) (s : Sending)
      → r ≢ fut
      → fut < s.made
      → Apart s (after_sendto left addr fut n s)
  unfolding after_sendto
  after_sendto-Apart left addr fut n s h below = elim (Bool-cases (eqb n (length left))) [
    | inl e ↦ rw e (record {
      made = omega arith;
      future = put-other fut r (settle_future (ok tt) (s.futures fut)) s.futures h;
      taken = refl;
      writer = inl refl;
    })
    | inr e ↦ rw e (record {
      made = omega arith;
      future = refl;
      taken = refl;
      writer = inr (below, λ u. h (sym u));
    })
  ]

  pub try_sendto-Apart :
      (left : Bytes) (addr : Address) (fut : ℕ) (o : Outcome) (s : Sending)
      → r ≢ fut
      → fut < s.made
      → Apart s (try_sendto left addr fut o s)
  unfolding try_sendto
  try_sendto-Apart left addr fut blocked s h below = after_sendto-Apart left addr fut 0 s h below
  try_sendto-Apart left addr fut (took n) s h below =
      let t = after_sendto-Apart left addr fut n (add_taken fut (take n left) addr s) h below in
      record {
        made = t.made;
        future = t.future;
        taken = t.taken ∙ put-other fut r (s.taken fut ++ (take n left, addr) ∷ []) s.taken h;
        writer = t.writer;
      }
  try_sendto-Apart left addr fut (failed x) s h below = record {
    made = omega arith;
    future = put-other fut r (settle_future (raised x) (s.futures fut)) s.futures h;
    taken = refl;
    writer = inl refl;
  }
