-- ===== src/Session/Answers/Judgements.antt =====
-- What a method of crates/kraai-runtime/src/runtime/session does to the responders, and how that
-- composes.
use kraai.Base.{ℕ, Bool, true, false, [], ◌∷◌, if◌then◌else◌, ◌+◌, ◌≡◌, refl, arith, ◌∙◌, sym, ap}
use kraai.Base.Results.{ok, err}
use kraai.Session.Errors.{RuntimeError, RuntimeResult}
use kraai.Session.Steady.{Calm, Steady, Keeps, waiting}
use kraai.Session.Answers.{count, answered, settled, held}
use kraai.Session.Messages.{Responder, TurnState, idle, Reply}
use kraai.Session.Actor.{Actor, Act, emit, set_state, take_state, ◌>>=◌, reply}

module _ {W : Type 0} where
  -- The turn is left as it is, and `n` more are settled.
  pub record Replies {A : Type 0} (r n : ℕ) (m : Act W A) : Type 0 where
    pub replied : (a : Actor W) → ((m a).1.state ≡ a.state) × (settled r (m a).1 ≡ n + settled r a)

  -- A turn that holds nothing holds nothing afterwards, and no more is settled.
  abbrev pub Quiet : ℕ → Actor W → Actor W → Type 0
  Quiet r a b = held r a ≡ 0 → (held r b ≡ 0) × (settled r b ≡ settled r a)

  abbrev pub Untouched : ℕ → Actor W → Actor W → Type 0
  Untouched r a b = (b.state ≡ a.state) × (settled r b ≡ settled r a)

  -- `n` more are settled or held, where the turn holds nothing at first.
  pub record Ends {A : Type 0} (r n : ℕ) (m : Act W A) : Type 0 where
    pub ended : (a : Actor W) → held r a ≡ 0 → settled r (m a).1 + held r (m a).1 ≡ n + settled r a

  -- The same, whatever the turn holds.
  pub record Accounts {A : Type 0} (r n : ℕ) (m : Act W A) : Type 0 where
    pub accounted :
        (a : Actor W) → settled r (m a).1 + held r (m a).1 ≡ n + (settled r a + held r a)

  module _ (r : ℕ) where
    pub Untouched-Calm : Calm (Untouched r)
    unfolding settled answered
    Untouched-Calm = record {
      rest = λ a. (refl, refl);
      then_ = λ p q. (q.0 ∙ p.0, q.1 ∙ p.1);
      world_ = λ a w. (refl, refl);
      number = λ a g. (refl, refl);
      tell = λ a e. (refl, refl);
      cancels = λ a g. (refl, refl);
    }

    pub Quiet-Calm : Calm (Quiet r)
    unfolding settled answered held
    Quiet-Calm = record {
      rest = λ a h. (h, refl);
      then_ = λ p q h. ((q (p h).0).0, (q (p h).0).1 ∙ (p h).1);
      world_ = λ a w h. (h, refl);
      number = λ a g h. (h, refl);
      tell = λ a e h. (h, refl);
      cancels = λ a g h. (h, refl);
    }

    pub Quiet-Steady : Steady (Quiet r)
    unfolding settled answered held waiting count
    Quiet-Steady = record {
      calm = Quiet-Calm;
      prepares = λ a g q h. (h, refl);
      streams = λ a g q h. (h, refl);
      turns = λ a s e n h. (ap (count r) e, refl);
      awaits = λ a p d e h. (refl, refl);
      begins = λ a p g d e h. (refl, refl);
    }

  module _ {r : ℕ} {A : Type 0} where
    pub Replies-none : {m : Act W A} → Keeps (Untouched r) m → Replies r 0 m
    Replies-none p = record { replied = λ a. ((p.kept a).0, omega (arith, (p.kept a).1)) }

    pub Ends-Replies : {n : ℕ} {m : Act W A} → Replies r n m → Ends r n m
    unfolding held settled
    Ends-Replies {n} {m} p = record { ended = λ a h. go a h (p.replied a) }
      where
        go :
            (a : Actor W)
            → count r (waiting a.state) ≡ 0
            → ((m a).1.state ≡ a.state) × (settled r (m a).1 ≡ n + settled r a)
            → settled r (m a).1 + count r (waiting (m a).1.state) ≡ n + settled r a
        go a h (e, t) = rw (e, h) omega (arith, t)

    pub Accounts-Replies : {n : ℕ} {m : Act W A} → Replies r n m → Accounts r n m
    unfolding held settled
    Accounts-Replies {n} {m} p = record { accounted = λ a. go a (p.replied a) }
      where
        go :
            (a : Actor W)
            → ((m a).1.state ≡ a.state) × (settled r (m a).1 ≡ n + settled r a)
            → settled r (m a).1 + count r (waiting (m a).1.state)
              ≡ n + (settled r a + count r (waiting a.state))
        go a (e, t) = rw e omega (arith, t)

    pub Ends-quiet : {m : Act W A} → Keeps (Quiet r) m → Ends r 0 m
    Ends-quiet p = record { ended = λ a h. omega (arith, (p.kept a h).0, (p.kept a h).1) }

    pub Ends-eq : {n k : ℕ} {m : Act W A} → Ends r n m → n ≡ k → Ends r k m
    Ends-eq p e = rw (sym e) p

    pub Ends-if :
        {n : ℕ} {m k : Act W A} (b : Bool) → Ends r n m → Ends r n k → Ends r n (if b then m else k)
    Ends-if true p q = p
    Ends-if false p q = q

    pub Accounts-if :
        {n : ℕ} {m k : Act W A} (b : Bool)
        → Accounts r n m
        → Accounts r n k
        → Accounts r n (if b then m else k)
    Accounts-if true p q = p
    Accounts-if false p q = q

  module _ {r : ℕ} where
    pub reply_one : (x : Responder) (y : Reply) → Replies r (count r (x ∷ [])) (reply x y)
    unfolding emit settled answered count
    reply_one x y = record { replied = λ a. (refl, omega arith) }

    -- A state of the turn holds its own responders.
    pub holds : (s : TurnState) → Ends r (count r (waiting s)) (set_state s)
    unfolding set_state settled held
    holds s = record { ended = λ a h. omega arith }

    pub holds_again : (s : TurnState) → Ends r (count r (waiting s) + 0) (set_state s)
    holds_again s = Ends-eq (holds s) (omega arith)

  module _ {r : ℕ} {A B : Type 0} where
    pub Replies-bind :
        {n k t : ℕ} {m : Act W A} {f : A → Act W B}
        → Replies r n m
        → ((x : A) → Replies r k (f x))
        → t ≡ n + k
        → Replies r t (m >>= f)
    unfolding ◌>>=◌
    Replies-bind {n} {k} {t} {m} {f} p q e = record {
      replied = λ a. (
        ((q (m a).0).replied (m a).1).0 ∙ (p.replied a).0,
        omega (arith, e, (p.replied a).1, ((q (m a).0).replied (m a).1).1),
      );
    }

    pub Ends-after :
        {n : ℕ} {m : Act W A} {f : A → Act W B}
        → Keeps (Quiet r) m
        → ((x : A) → Ends r n (f x))
        → Ends r n (m >>= f)
    unfolding ◌>>=◌
    Ends-after {n} {m} {f} p q = record {
      ended = λ a h. omega (arith, (p.kept a h).1, (q (m a).0).ended (m a).1 (p.kept a h).0);
    }

    pub Ends-then :
        {n k t : ℕ} {m : Act W A} {f : A → Act W B}
        → Replies r n m
        → ((x : A) → Ends r k (f x))
        → t ≡ n + k
        → Ends r t (m >>= f)
    unfolding ◌>>=◌ held
    Ends-then {n} {k} {t} {m} {f} p q e = record {
      ended = λ a h. omega (
        arith,
        e,
        (p.replied a).1,
        (q (m a).0).ended (m a).1 (ap (λ s. count r (waiting s)) (p.replied a).0 ∙ h),
      );
    }

    pub Accounts-bind :
        {n k t : ℕ} {m : Act W A} {f : A → Act W B}
        → Accounts r n m
        → ((x : A) → Accounts r k (f x))
        → t ≡ n + k
        → Accounts r t (m >>= f)
    unfolding ◌>>=◌
    Accounts-bind {n} {k} {t} {m} {f} p q e = record {
      accounted = λ a. omega (arith, e, p.accounted a, (q (m a).0).accounted (m a).1);
    }

    pub Accounts-after :
        {n : ℕ} {m : Act W A} {f : A → Act W B}
        → Keeps (Untouched r) m
        → ((x : A) → Accounts r n (f x))
        → Accounts r n (m >>= f)
    Accounts-after p q = Accounts-bind (Accounts-Replies (Replies-none p)) q (omega arith)

  -- What the turn held when its state is taken is settled or held again by the rest.
  pub Accounts-take :
      {r n : ℕ} {B : Type 0} {f : TurnState → Act W B}
      → ((s : TurnState) → Ends r (count r (waiting s) + n) (f s))
      → Accounts r n (take_state >>= f)
  unfolding ◌>>=◌ take_state held settled waiting count
  Accounts-take {r} {n} {B} {f} q = record {
    accounted = λ a. omega (arith, (q a.state).ended (record a { state = idle }) refl);
  }

  module _ {r n : ℕ} {A B : Type 0} where
    pub Ends-result :
        {m : Act W (RuntimeResult A)} {f : A → Act W B} {g : RuntimeError → Act W B}
        → Keeps (Quiet r) m
        → ((x : A) → Ends r n (f x))
        → ((e : RuntimeError) → Ends r n (g e))
        → Ends r n (m >>= λ z. elim z [ ok x ↦ f x | err e ↦ g e ])
    Ends-result {m} {f} {g} p q h = Ends-after p go
      where
        go : (z : RuntimeResult A) → Ends r n (elim z [ ok x ↦ f x | err e ↦ g e ])
        go (ok x) = q x
        go (err e) = h e

    pub Accounts-result :
        {m : Act W (RuntimeResult A)} {f : A → Act W B} {g : RuntimeError → Act W B}
        → Keeps (Untouched r) m
        → ((x : A) → Accounts r n (f x))
        → ((e : RuntimeError) → Accounts r n (g e))
        → Accounts r n (m >>= λ z. elim z [ ok x ↦ f x | err e ↦ g e ])
    Accounts-result {m} {f} {g} p q h = Accounts-after p go
      where
        go : (z : RuntimeResult A) → Accounts r n (elim z [ ok x ↦ f x | err e ↦ g e ])
        go (ok x) = q x
        go (err e) = h e
