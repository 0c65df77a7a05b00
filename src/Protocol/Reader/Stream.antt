-- ===== src/Protocol/Reader/Stream.antt =====
-- The reader as a parser of the bytes that are left: a reference in which a parser is a function
-- of a list, and the agreement of each reader operation with it.
use Prim.Native.Nat.{bit_or}
use rust_proxy.Base.{
  ℕ, ◌+◌, ◌-◌, ◌*◌, ◌≤◌, ◌<◌, ◌≡◌, refl, subst, sym, ap, Bool, true, false, List, [], ◌∷◌, arith,
  leb, if◌then◌else◌, take, drop, length, Result, ok, err, get_elem?-drop, get_elem?-end, drop-drop,
  length-drop, tests, ◌∙◌, ◌⊎◌, inl, inr, Bool-cases,
}
use rust_proxy.Protocol.Error.{ProtocolError, truncated}
use rust_proxy.Protocol.Reader.{
  Reader, Read, usize_mod, and_then, ◌>>=◌, pure, lift, require, new, position, read_u8, read_u16,
  read_bytes, value, run, new,
}

-- A parser of a list of bytes returns its value and what is left.
abbrev pub Parser {ℓ} : Type ℓ → Type ℓ
Parser A = List ℕ → Result ProtocolError (A × List ℕ)

abbrev pub bind {ℓ κ} : {A : Type ℓ} {B : Type κ} → Parser A → (A → Parser B) → Parser B
bind p f xs = and_then f (p xs)

abbrev pub byte : Parser ℕ
byte [] = err truncated
byte (x ∷ xs) = ok (x, xs)

abbrev pub bytes : ℕ → Parser (List ℕ)
bytes n xs = if leb n (length xs) then ok (take n xs, drop n xs) else err truncated

abbrev pub word : Parser ℕ
word = bind byte (λ hi. bind byte (λ lo xs. ok (bit_or (hi * 256) lo, xs)))

-- `position` in a buffer of `total` bytes
abbrev pub consumed : ℕ → Parser ℕ
consumed total xs = ok (total - length xs, xs)

abbrev pub give {ℓ} : {A : Type ℓ} → A → Parser A
give a xs = ok (a, xs)

abbrev pub raise {ℓ} : {A : Type ℓ} → Result ProtocolError A → Parser A
raise (ok a) xs = ok (a, xs)
raise (err e) xs = err e

abbrev pub check : Bool → ProtocolError → Parser (Unit {0})
check true e = give tt
check false e = raise (err e)

abbrev pub remaining : Reader → List ℕ
remaining r = drop r.pos r.buf

-- A reader over the buffer `buf`, whose length is a `usize`.
pub record At (buf : List ℕ) (r : Reader) : Type 0 where
  pub buffer : r.buf ≡ buf
  pub within : r.pos ≤ length buf
  pub small : length buf < usize_mod

-- The outcomes of a reader action and of a parser: the same value with the same bytes left, or the
-- same error.
pub data Same {ℓ} {A : Type ℓ} (buf : List ℕ) (m : Result ProtocolError (A × Reader))
    (p : Result ProtocolError (A × List ℕ)) : Type ℓ where
  both_ok : (a : A) (r : Reader) → At buf r → m ≡ ok (a, r) → p ≡ ok (a, remaining r) → Same buf m p
  both_err : (e : ProtocolError) → m ≡ err e → p ≡ err e → Same buf m p

pub record Agrees {ℓ} {A : Type ℓ} (buf : List ℕ) (m : Read A) (p : Parser A) : Type ℓ where
  pub at : (r : Reader) → At buf r → Same buf (m r) (p (remaining r))

module _ {ℓ} {A : Type ℓ} {buf : List ℕ} where
  pub Agrees-pure : (a : A) → Agrees buf (pure a) (give a)
  Agrees-pure a = record { at = λ r h. both_ok a r h refl refl }

  pub Agrees-lift : (x : Result ProtocolError A) → Agrees buf (lift x) (raise x)
  Agrees-lift (ok a) = record { at = λ r h. both_ok a r h refl refl }
  Agrees-lift (err e) = record { at = λ r h. both_err e refl refl }

  pub Agrees-if :
      (b : Bool) {m n : Read A} {p q : Parser A}
      → Agrees buf m p
      → Agrees buf n q
      → Agrees buf (if b then m else n) (if b then p else q)
  Agrees-if true km kn = km
  Agrees-if false km kn = kn

pub Agrees-require :
    {buf : List ℕ} (b : Bool) (e : ProtocolError) → Agrees buf (require b e) (check b e)
Agrees-require true e = record { at = λ r h. both_ok tt r h refl refl }
Agrees-require false e = record { at = λ r h. both_err e refl refl }

module _ {ℓ κ} {A : Type ℓ} {B : Type κ} {buf : List ℕ} where
  pub Agrees-bind :
      {m : Read A} {p : Parser A} {f : A → Read B} {g : A → Parser B}
      → Agrees buf m p
      → ((a : A) → Agrees buf (f a) (g a))
      → Agrees buf (m >>= f) (bind p g)
  Agrees-bind {m} {p} {f} {g} km kf = record { at = λ r h. go r (km.at r h) }
    where
      go :
          (r : Reader)
          → Same buf (m r) (p (remaining r))
          → Same buf ((m >>= f) r) (bind p g (remaining r))
      go r (both_ok a r' h e e') = rw (e, e') ((kf a).at r' h)
      go r (both_err x e e') = rw (e, e') (both_err x refl refl)

drop-suc : {x : ℕ} {ys : List ℕ} (i : ℕ) (xs : List ℕ) → drop i xs ≡ x ∷ ys → drop (i + 1) xs ≡ ys
drop-suc i xs e = sym (drop-drop i 1 xs) ∙ ap (drop 1) e

-- The bytes that are left are those from the position on.
length-remaining :
    {buf : List ℕ} (r : Reader) → At buf r → length (remaining r) + r.pos ≡ length buf
length-remaining r h =
    omega (arith, length-drop {0} r.pos r.buf, ap (length {0} {A = ℕ}) h.buffer, h.within)

module _ {buf : List ℕ} where
  Agrees-position : Agrees buf position (consumed (length buf))
  unfolding position
  Agrees-position = record {
    at = λ r h.
        let e : length buf - length (remaining r) ≡ r.pos = omega (arith, length-remaining r h) in
        both_ok r.pos r h refl (rw e);
  }

  pub Agrees-read_u8 : Agrees buf read_u8 byte
  unfolding read_u8
  Agrees-read_u8 = record { at = λ r h. cases r h (remaining r) refl }
    where
      cases :
          (r : Reader)
          → At buf r
          → (xs : List ℕ) → remaining r ≡ xs
          → Same buf (read_u8 r) (byte (remaining r))
      cases r h [] e = both_err truncated (rw (get_elem?-end r.pos r.buf e, read_u8)) (rw e)
      cases r h (x ∷ xs) e =
          both_ok x (record r { pos = r.pos + 1 })
            (record {
              buffer = h.buffer;
              within = omega (arith, length-remaining r h, ap (length {0} {A = ℕ}) e);
              small = h.small;
            })
            (rw (get_elem?-drop r.pos r.buf e, read_u8)) (rw (e, drop-suc r.pos r.buf e))

  pub Agrees-read_u16 : Agrees buf read_u16 word
  unfolding read_u16
  Agrees-read_u16 =
      Agrees-bind Agrees-read_u8 (λ hi. Agrees-bind Agrees-read_u8 (λ lo. Agrees-pure _))

  pub Agrees-read_bytes : (n : ℕ) → Agrees buf (read_bytes n) (bytes n)
  unfolding read_bytes
  Agrees-read_bytes n = record { at = λ r h. cases r h (Bool-cases (leb n (length (remaining r)))) }
    where
      cases :
          (r : Reader)
          → At buf r
          → (leb n (length (remaining r)) ≡ true) ⊎ (leb n (length (remaining r)) ≡ false)
          → Same buf (read_bytes n r) (bytes n (remaining r))
      cases r h (inl e) =
          both_ok (take n (remaining r)) (record r { pos = r.pos + n })
            (record {
              buffer = h.buffer;
              within = omega (tests, length-remaining r h, e);
              small = h.small;
            })
            (ground (
              arith,
              length-remaining r h,
              ap (length {0} {A = ℕ}) h.buffer,
              h.small,
              let f : r.pos + n - r.pos ≡ n = omega arith in ap (λ k. take k (remaining r)) f,
            ))
            (rw (e, drop-drop r.pos n r.buf))
      cases r h (inr e) =
          both_err truncated
            (ground (arith, length-remaining r h, ap (length {0} {A = ℕ}) h.buffer, h.small)) (rw e)

pub run_lem {ℓ} :
    {A : Type ℓ} {m : Read A} {p : Parser A} (buf : List ℕ)
    → length buf < usize_mod
    → Agrees buf m p
    → run m buf ≡ value (p buf)
unfolding run
run_lem {m} {p} buf small agrees =
    cases (agrees.at (new buf) (record { buffer = refl; within = omega arith; small = small }))
  where
    cases : Same buf (m (new buf)) (p buf) → value (m (new buf)) ≡ value (p buf)
    cases (both_ok a r h e e') = rw (e, e')
    cases (both_err x e e') = rw (e, e')

-- A parser with the number of bytes that it takes of a buffer of `total` bytes.
abbrev pub counted {ℓ} : {A : Type ℓ} → ℕ → Parser A → Parser (A × ℕ)
counted total p = bind p (λ a ys. ok ((a, total - length ys), ys))

-- Inversion: what a counted parser returned.
pub counted-eq-ok {ℓ} :
    {A : Type ℓ} (total : ℕ) (p : Parser A) (xs : List ℕ) (a : A) (n : ℕ)
    → value (counted total p xs) ≡ ok (a, n)
    → (ys : List ℕ) × (p xs ≡ ok (a, ys)) × (n ≡ total - length ys)
counted-eq-ok {A} total p xs a n = go (p xs)
  where
    go :
        (r : Result ProtocolError (A × List ℕ))
        → value {A = A × ℕ} (and_then (λ b ys. ok ((b, total - length ys), ys)) r) ≡ ok (a, n)
        → (ys : List ℕ) × (r ≡ ok (a, ys)) × (n ≡ total - length ys)
    go (ok (b, ys)) h = (ys, cc, cc)
    go (err e) h = absurd (cc)

-- A reader action that ends with its position, against a parser.
pub record Counts {ℓ} {A : Type ℓ} (buf : List ℕ) (m : Read (A × ℕ)) (p : Parser A) : Type ℓ where
  pub agrees : Agrees buf m (counted (length buf) p)

pub Counts-end {ℓ} :
    {A : Type ℓ} {buf : List ℕ} (a : A) → Counts buf (position >>= λ end. pure (a, end)) (give a)
Counts-end a = record { agrees = Agrees-bind Agrees-position (λ end. Agrees-pure _) }

module _ {ℓ κ} {A : Type ℓ} {B : Type κ} where
  -- Counting the bytes of a bind is counting those of its second part.
  counted-bind :
      (total : ℕ) (p : Parser A) (g : A → Parser B) (xs : List ℕ)
      → bind p (λ a. counted total (g a)) xs ≡ counted total (bind p g) xs
  counted-bind total p g xs = go (p xs)
    where
      go :
          (r : Result ProtocolError (A × List ℕ))
          → and_then (λ a. counted total (g a)) r
            ≡ and_then (λ b ys. ok ((b, total - length ys), ys)) (and_then g r)
      go (ok (a, ys)) = refl
      go (err e) = refl

  pub Counts-bind :
      {buf : List ℕ} {m : Read A} {p : Parser A} {f : A → Read (B × ℕ)} {g : A → Parser B}
      → Agrees buf m p
      → ((a : A) → Counts buf (f a) (g a))
      → Counts buf (m >>= f) (bind p g)
  Counts-bind {buf} {m} {p} {f} {g} km kf = record {
    agrees = record {
      at = λ r h.
          subst (Same buf ((m >>= f) r)) (counted-bind (length buf) p g (remaining r))
            ((Agrees-bind km (λ a. (kf a).agrees)).at r h);
    };
  }
