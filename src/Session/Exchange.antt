-- ===== src/Session/Exchange.antt =====
-- What a session that succeeded exchanged with the peer, composed along the code.
use rust_proxy.Base.{
  ℕ, ◌≡◌, refl, sym, ap, ◌∙◌, Bool, true, false, Option, none, some, List, [], ◌++◌, append_assoc,
  append-nil, length, Result, ok, err, if◌then◌else◌,
}
use rust_proxy.Session.Socket.{
  Socket, Failure, Action, and_then, ◌>>=◌, ◌>>◌, pure, fail, lift, lift_some, require,
  read_exact_timeout, write_all_timeout,
}
use rust_proxy.Session.Moves.{Took, IsRead, IsWrite, IsRead-Took, IsWrite-Took}

-- What holds of a value, of the bytes taken for it and of the bytes given.
abbrev pub Spec : Type 0 → Type 1
Spec A = A → List ℕ → List ℕ → Type 0

-- One exchange and then another, which may depend on the value of the first.
abbrev pub Then : {A B : Type 0} → Spec A → (A → Spec B) → Spec B
Then {A} P Q b taken given =
    (a : A) × (t1 : List ℕ) × (g1 : List ℕ) × (t2 : List ℕ) × (g2 : List ℕ) × (taken ≡ t1 ++ t2)
    × (given ≡ g1 ++ g2)
    × P a t1 g1
    × Q a b t2 g2

-- Nothing is exchanged, and the value satisfies a predicate.
abbrev pub Silent : {A : Type 0} → (A → Type 0) → Spec A
Silent P a taken given = (taken ≡ []) × (given ≡ []) × P a

-- Every run of the action that succeeds meets the specification.
pub record Meets {E A : Type 0} (m : Action E A) (P : Spec A) : Type 0 where
  pub run : (s : Socket) → Took s P (m s)

Took-Then :
    {E A B : Type 0} (s : Socket) (P : Spec A) (Q : A → Spec B) (a : A) (t1 g1 : List ℕ)
    (s1 : Socket)
    → s.inbox ≡ t1 ++ s1.inbox
    → s1.sent ≡ s.sent ++ g1
    → P a t1 g1
    → (r : Socket × Result E B) → Took s1 (Q a) r
    → Took s (Then P Q) r
Took-Then s P Q a t1 g1 s1 i1 o1 p (s2, err e) h = tt
Took-Then s P Q a t1 g1 s1 i1 o1 p (s2, ok b) (t2, g2, i2, o2, q) = (
  t1 ++ t2,
  g1 ++ g2,
  i1 ∙ ap (λ z. t1 ++ z) i2 ∙ sym (append_assoc t1 t2 s2.inbox),
  o2 ∙ ap (λ z. z ++ g2) o1 ∙ append_assoc s.sent g1 g2,
  (a, t1, g1, t2, g2, refl, refl, p, q),
)

Took-and_then :
    {E A B : Type 0} (s : Socket) (P : Spec A) (Q : A → Spec B) (f : A → Action E B)
    (r : Socket × Result E A)
    → Took s P r
    → ((a : A) → Meets (f a) (Q a))
    → Took s (Then P Q) (and_then f r)
Took-and_then s P Q f (s1, err e) h k = tt
Took-and_then s P Q f (s1, ok a) (t1, g1, i1, o1, p) k =
    Took-Then s P Q a t1 g1 s1 i1 o1 p (f a s1) ((k a).run s1)

Took-weaken :
    {E A : Type 0} (s : Socket) (P Q : Spec A)
    → ((a : A) (taken given : List ℕ) → P a taken given → Q a taken given)
    → (r : Socket × Result E A) → Took s P r
    → Took s Q r
Took-weaken s P Q f (s', err e) h = tt
Took-weaken s P Q f (s', ok a) (t, g, i, o, p) = (t, g, i, o, f a t g p)

pub Meets-bind :
    {E A B : Type 0} {m : Action E A} {P : Spec A} {f : A → Action E B} {Q : A → Spec B}
    → Meets m P
    → ((a : A) → Meets (f a) (Q a))
    → Meets (m >>= f) (Then P Q)
Meets-bind {m = m} {P = P} {f = f} {Q = Q} h k = record {
  run = λ s. Took-and_then s P Q f (m s) (h.run s) k;
}

-- An action that returns at once.
pub Meets-pure : {E A : Type 0} (a : A) → Meets {E = E} (pure a) (Silent (λ b. b ≡ a))
Meets-pure a = record { run = λ s. ([], [], refl, sym (append-nil s.sent), (refl, refl, refl)) }

pub Meets-fail : {E A : Type 0} (P : Spec A) (e : E) → Meets (fail e) P
Meets-fail P e = record { run = λ s. tt }

pub Meets-require : {E : Type 0} (b : Bool) (e : E) → Meets (require b e) (Silent (λ _. b ≡ true))
Meets-require true e = record {
  run = λ s. ([], [], refl, sym (append-nil s.sent), (refl, refl, refl));
}
Meets-require false e = record { run = λ s. tt }

pub Meets-lift :
    {E A F : Type 0} (r : Result F A) (e : E) → Meets (lift r e) (Silent (λ a. r ≡ ok a))
Meets-lift (ok a) e = record {
  run = λ s. ([], [], refl, sym (append-nil s.sent), (refl, refl, refl));
}
Meets-lift (err f) e = record { run = λ s. tt }

Meets-lift_some :
    {E A : Type 0} (o : Option A) (e : E) → Meets (lift_some o e) (Silent (λ a. o ≡ some a))
Meets-lift_some (some a) e = record {
  run = λ s. ([], [], refl, sym (append-nil s.sent), (refl, refl, refl));
}
Meets-lift_some none e = record { run = λ s. tt }

Meets-IsRead :
    {E : Type 0} (failure : Failure E) (n : ℕ) → Meets (read_exact_timeout failure n) (IsRead n)
Meets-IsRead failure n = record { run = IsRead-Took failure n }

Meets-IsWrite :
    {E : Type 0} (failure : Failure E) (bytes : List ℕ)
    → Meets (write_all_timeout failure bytes) (IsWrite bytes)
Meets-IsWrite failure bytes = record { run = IsWrite-Took failure bytes }

pub Meets-if :
    {E A : Type 0} {m k : Action E A} {P : Spec A} (b : Bool)
    → (b ≡ true → Meets m P)
    → (b ≡ false → Meets k P)
    → Meets (if b then m else k) P
Meets-if true h h' = h refl
Meets-if false h h' = h' refl

pub Meets-weaken :
    {E A : Type 0} {m : Action E A} {P Q : Spec A}
    → ((a : A) (taken given : List ℕ) → P a taken given → Q a taken given)
    → Meets m P
    → Meets m Q
Meets-weaken {m = m} {P = P} {Q = Q} f h = record { run = λ s. Took-weaken s P Q f (m s) (h.run s) }

-- The steps of a session, each with what follows it: a read of `n` bytes, a test or a value that is
-- computed, a write.
abbrev pub Reads : {B : Type 0} → ℕ → (List ℕ → Spec B) → Spec B
Reads n Q b taken given =
    (bytes : List ℕ) × (rest : List ℕ) × (taken ≡ bytes ++ rest)
    × (length bytes ≡ n)
    × Q bytes b rest given

abbrev pub Has : {A B : Type 0} → (A → Type 0) → (A → Spec B) → Spec B
Has {A} P Q b taken given = (a : A) × P a × Q a b taken given

abbrev pub Writes : {B : Type 0} → List ℕ → Spec B → Spec B
Writes bytes Q b taken given = (rest : List ℕ) × (given ≡ bytes ++ rest) × Q b taken rest

module _ {E B : Type 0} where
  pub Meets-reads :
      (failure : Failure E) (n : ℕ) {f : List ℕ → Action E B} {Q : List ℕ → Spec B}
      → ((bytes : List ℕ) → Meets (f bytes) (Q bytes))
      → Meets (read_exact_timeout failure n >>= f) (Reads n Q)
  Meets-reads failure n k =
      Meets-weaken
        (λ b taken given (bytes, t1, g1, t2, g2, et, eg, (e, l, z), q).
          (bytes, t2, rw e et, l, rw (eg, z) q))
        (Meets-bind (Meets-IsRead failure n) k)

  -- After an action that exchanges nothing.
  Meets-has :
      {A : Type 0} {m : Action E A} {P : A → Type 0} {f : A → Action E B} {Q : A → Spec B}
      → Meets m (Silent P)
      → ((a : A) → Meets (f a) (Q a))
      → Meets (m >>= f) (Has P Q)
  Meets-has h k =
      Meets-weaken
        (λ b taken given (a, t1, g1, t2, g2, et, eg, (e, z, p), q). (a, p, rw (et, eg, e, z) q))
        (Meets-bind h k)

  pub Meets-checks :
      (t : Bool) (e : E) {k : Action E B} {Q : Spec B}
      → Meets k Q
      → Meets (require t e >> k) (Has (λ (_ : Unit {0}). t ≡ true) (λ _. Q))
  Meets-checks t e h = Meets-has (Meets-require t e) (λ _. h)

  pub Meets-lifts :
      {A F : Type 0} (r : Result F A) (e : E) {f : A → Action E B} {Q : A → Spec B}
      → ((a : A) → Meets (f a) (Q a))
      → Meets (lift r e >>= f) (Has (λ a. r ≡ ok a) Q)
  Meets-lifts r e k = Meets-has (Meets-lift r e) k

  pub Meets-lifts_some :
      {A : Type 0} (o : Option A) (e : E) {f : A → Action E B} {Q : A → Spec B}
      → ((a : A) → Meets (f a) (Q a))
      → Meets (lift_some o e >>= f) (Has (λ a. o ≡ some a) Q)
  Meets-lifts_some o e k = Meets-has (Meets-lift_some o e) k

  pub Meets-writes :
      (failure : Failure E) (bytes : List ℕ) {k : Action E B} {Q : Spec B}
      → Meets k Q
      → Meets (write_all_timeout failure bytes >> k) (Writes bytes Q)
  Meets-writes failure bytes h =
      Meets-weaken
        (λ b taken given (a, t1, g1, t2, g2, et, eg, (e, z), q).
          (g2, eg ∙ ap (λ x. x ++ g2) z, rw (et, e) q))
        (Meets-bind (Meets-IsWrite failure bytes) (λ _. h))
