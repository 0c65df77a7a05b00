-- ===== src/Session/Moves.antt =====
-- What the operations of a session do to the stream: in a run without faults, and by inversion of
-- a result.
use rust_proxy.Base.{
  ℕ, ◌≡◌, refl, sym, inl, inr, true, List, [], ◌++◌, length, take, leb, leb→le, le→leb, Result, ok,
  err, Bool-cases, append-nil, take-append, drop-append, take-append-drop, length-take,
  length-append, arith,
}
use rust_proxy.Session.Socket.{
  Fate, served, timed_out, broken, Socket, Failure, Action, and_then, next_fate, receive, transmit,
  read_exact_timeout, write_all_timeout,
}

-- A stream on which nothing fails.
abbrev pub clear : List ℕ → List ℕ → Socket
clear inbox sent = record { inbox = inbox; sent = sent; fates = [] }

pub read-clear :
    {E : Type 0} (failure : Failure E) (n : ℕ) (xs ys sent : List ℕ)
    → length xs ≡ n
    → read_exact_timeout failure n (clear (xs ++ ys) sent) ≡ (clear ys sent, ok xs)
unfolding read_exact_timeout
read-clear failure n xs ys sent e = rw (← e, full) (rw (take-append xs ys, drop-append xs ys) refl)
  where
    full : leb (length xs) (length (xs ++ ys)) ≡ true
    full = le→leb _ _ (omega (arith, length-append xs ys))

pub write-clear :
    {E : Type 0} (failure : Failure E) (bytes inbox sent : List ℕ)
    → write_all_timeout failure bytes (clear inbox sent) ≡ (clear inbox (sent ++ bytes), ok tt)
unfolding write_all_timeout
write-clear failure bytes inbox sent = refl

-- A step that returned a value, and the step before it.
pub and_then-eq-ok :
    {E A B : Type 0} (f : A → Action E B) (r : Socket × Result E A) (s' : Socket) (b : B)
    → and_then f r ≡ (s', ok b)
    → (s : Socket) × (a : A) × (r ≡ (s, ok a)) × (f a s ≡ (s', ok b))
and_then-eq-ok f (s, ok a) s' b h = (s, a, refl, h)
and_then-eq-ok f (s, err e) s' b h = cc

-- What a step took from the peer and sent to it, and that it succeeded.
abbrev pub Took :
    {E A : Type 0} → Socket → (A → List ℕ → List ℕ → Type 0) → Socket × Result E A → Type 0
Took s P (s', err e) = Unit
Took s P (s', ok a) =
    (taken : List ℕ) × (given : List ℕ) × (s.inbox ≡ taken ++ s'.inbox)
    × (s'.sent ≡ s.sent ++ given)
    × P a taken given

abbrev pub IsRead : ℕ → List ℕ → List ℕ → List ℕ → Type 0
IsRead n bytes taken given = (bytes ≡ taken) × (length bytes ≡ n) × (given ≡ [])

receive-Took :
    {E : Type 0} (failure : Failure E) (n : ℕ) (s : Socket) (f : Fate × List Fate)
    → Took s (IsRead n) (receive failure n s f)
receive-Took failure n s (served, fs) = elim (Bool-cases (leb n (length s.inbox))) [
  | inl e ↦ rw e (
    take n s.inbox,
    [],
    sym (take-append-drop n s.inbox),
    sym (append-nil s.sent),
    (refl, omega (arith, length-take n s.inbox, leb→le _ _ e), refl),
  )
  | inr e ↦ rw e tt
]
receive-Took failure n s (timed_out k, fs) = tt
receive-Took failure n s (broken k, fs) = tt

pub IsRead-Took :
    {E : Type 0} (failure : Failure E) (n : ℕ) (s : Socket)
    → Took s (IsRead n) (read_exact_timeout failure n s)
unfolding read_exact_timeout
IsRead-Took failure n s = receive-Took failure n s (next_fate s.fates)

abbrev pub IsWrite : List ℕ → Unit {0} → List ℕ → List ℕ → Type 0
IsWrite bytes _ taken given = (taken ≡ []) × (given ≡ bytes)

transmit-Took :
    {E : Type 0} (failure : Failure E) (bytes : List ℕ) (s : Socket) (f : Fate × List Fate)
    → Took s (IsWrite bytes) (transmit failure bytes s f)
transmit-Took failure bytes s (served, fs) = ([], bytes, refl, refl, (refl, refl))
transmit-Took failure bytes s (timed_out k, fs) = tt
transmit-Took failure bytes s (broken k, fs) = tt

pub IsWrite-Took :
    {E : Type 0} (failure : Failure E) (bytes : List ℕ) (s : Socket)
    → Took s (IsWrite bytes) (write_all_timeout failure bytes s)
unfolding write_all_timeout
IsWrite-Took failure bytes s = transmit-Took failure bytes s (next_fate s.fates)
