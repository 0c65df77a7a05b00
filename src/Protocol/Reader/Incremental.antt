-- ===== src/Protocol/Reader/Incremental.antt =====
-- Parsers on a byte stream as it arrives: on what they take, with anything behind it, and on a part
-- of it.
use rust_proxy.Base.{
  ℕ, zero, suc, ◌-◌, ◌≤◌, ◌<◌, ◌≡◌, refl, sym, ap, ◌∙◌, Bool, true, false, List, [], ◌∷◌, ◌++◌,
  arith, tests, leb, if◌then◌else◌, take, drop, length, Result, ok, err, Bool-cases, inl, inr,
  take-append, drop-append, append_assoc, length-append, length-take, take-append-drop, le→leb,
  leb→le,
}
use rust_proxy.Protocol.Error.{ProtocolError, truncated}
use rust_proxy.Protocol.Reader.{and_then}
use rust_proxy.Protocol.Reader.Stream.{Parser, bind, byte, bytes, word, give, raise, check}

pub record Taken {ℓ} {A : Type ℓ} (p : Parser A) (a : A) (xs ys : List ℕ) : Type ℓ where
  pub used : List ℕ
  pub split : xs ≡ used ++ ys
  pub rest_free : (zs : List ℕ) → p (used ++ zs) ≡ ok (a, zs)
  pub waits : (k : ℕ) → k < length used → p (take k used) ≡ err truncated

pub record IsIncremental {ℓ} {A : Type ℓ} (p : Parser A) : Type ℓ where
  pub taken : (xs ys : List ℕ) (a : A) → p xs ≡ ok (a, ys) → Taken p a xs ys

pub take-append_le : (k : ℕ) (xs ys : List ℕ) → k ≤ length xs → take k (xs ++ ys) ≡ take k xs
take-append_le zero xs ys h = refl
take-append_le (suc k) [] ys h = absurd (omega arith)
take-append_le (suc k) (x ∷ xs) ys h = ap (λ zs. x ∷ zs) (take-append_le k xs ys (omega arith))

take-append_ge :
    (k : ℕ) (xs ys : List ℕ) → length xs ≤ k → take k (xs ++ ys) ≡ xs ++ take (k - length xs) ys
take-append_ge k [] ys h = ap (λ j. take j ys) (omega arith)
take-append_ge zero (x ∷ xs) ys h = absurd (omega arith)
take-append_ge (suc k) (x ∷ xs) ys h =
    ap (λ zs. x ∷ zs)
      (take-append_ge k xs ys (omega arith)
        ∙ ap (λ j. xs ++ take j ys)
            (let e : k - length xs ≡ suc k - suc (length xs) = omega arith in e))

-- Inversion of the steps that returned a value.
pub byte-eq-ok : (xs ys : List ℕ) (b : ℕ) → byte xs ≡ ok (b, ys) → xs ≡ b ∷ ys
byte-eq-ok [] ys b h = cc
byte-eq-ok (x ∷ xs) ys b h = cc

pub check-eq-ok :
    (b : Bool) (e : ProtocolError) (xs ys : List ℕ) (u : Unit {0})
    → check b e xs ≡ ok (u, ys)
    → (b ≡ true) × (xs ≡ ys)
check-eq-ok true e xs ys u h = (refl, cc)
check-eq-ok false e xs ys u h = cc

pub raise-eq-ok :
    {A : Type 0} (r : Result ProtocolError A) (xs ys : List ℕ) (a : A)
    → raise r xs ≡ ok (a, ys)
    → (r ≡ ok a) × (xs ≡ ys)
raise-eq-ok (ok b) xs ys a h = (cc, cc)
raise-eq-ok (err e) xs ys a h = cc

pub and_then-eq-ok {ℓ κ} :
    {A : Type ℓ} {B : Type κ} (f : A → Parser B) (m : Result ProtocolError (A × List ℕ)) {b : B}
    {zs : List ℕ}
    → and_then f m ≡ ok (b, zs)
    → (a : A) × (ys : List ℕ) × (m ≡ ok (a, ys)) × (f a ys ≡ ok (b, zs))
and_then-eq-ok f (ok (a, ys)) h = (a, ys, refl, h)
and_then-eq-ok f (err e) h = cc

module _ {ℓ κ} {A : Type ℓ} {B : Type κ} where
  bind_waits :
      (p : Parser A) (f : A → Parser B) (a : A) (b : B) (xs ys zs : List ℕ) (s : Taken p a xs ys)
      (t : Taken (f a) b ys zs) (k : ℕ)
      → k < length (s.used ++ t.used)
      → bind p f (take k (s.used ++ t.used)) ≡ err truncated
  bind_waits p f a b xs ys zs s t k h = elim (Bool-cases (leb (length s.used) k)) [
    | inl e ↦
        rw (take-append_ge k s.used t.used (leb→le _ _ e), s.rest_free)
          (t.waits _ (omega (tests, e, length-append s.used t.used)))
    | inr e ↦ rw (take-append_le k s.used t.used (ground arith), s.waits k (ground arith))
  ]

  Taken-bind :
      (p : Parser A) (f : A → Parser B) (a : A) (b : B) (xs ys zs : List ℕ)
      → Taken p a xs ys
      → Taken (f a) b ys zs
      → Taken (bind p f) b xs zs
  Taken-bind p f a b xs ys zs s t = record {
    used = s.used ++ t.used;
    split = rw (s.split, t.split, append_assoc);
    rest_free = λ ws. rw (append_assoc s.used t.used ws, s.rest_free) (t.rest_free ws);
    waits = bind_waits p f a b xs ys zs s t;
  }

  pub bind-IsIncremental :
      {p : Parser A} {f : A → Parser B}
      → IsIncremental p
      → ((a : A) → IsIncremental (f a))
      → IsIncremental (bind p f)
  bind-IsIncremental {p} {f} ip then_f = record {
    taken = λ xs zs b h.
        let (a, ys, e, e') = and_then-eq-ok f (p xs) h in
        Taken-bind p f a b xs ys zs (ip.taken xs ys a e) ((then_f a).taken ys zs b e');
  }

module _ {ℓ} {A : Type ℓ} where
  pub give-IsIncremental : (a : A) → IsIncremental (give a)
  give-IsIncremental a = record {
    taken = λ xs ys b h. record {
      used = [];
      split = cc;
      rest_free = λ zs. cc;
      waits = λ k lt. elim lt [ ];
    };
  }

  pub raise-IsIncremental : (r : Result ProtocolError A) → IsIncremental (raise r)
  raise-IsIncremental (ok a) = give-IsIncremental a
  raise-IsIncremental (err e) = record { taken = λ xs ys b h. absurd (cc) }

  pub if-IsIncremental :
      (b : Bool) {p q : Parser A}
      → IsIncremental p
      → IsIncremental q
      → IsIncremental (if b then p else q)
  if-IsIncremental true ip iq = ip
  if-IsIncremental false ip iq = iq

pub check-IsIncremental : (b : Bool) (e : ProtocolError) → IsIncremental (check b e)
check-IsIncremental true e = give-IsIncremental tt
check-IsIncremental false e = raise-IsIncremental (err e)

byte-Taken : (xs ys : List ℕ) (a : ℕ) → byte xs ≡ ok (a, ys) → Taken byte a xs ys
byte-Taken [] ys a h = absurd (cc)
byte-Taken (x ∷ xs) ys a h = record {
  used = a ∷ [];
  split = cc;
  rest_free = λ zs. refl;
  waits = λ k lt. let e : k ≡ 0 = omega arith in rw e;
}

pub byte-IsIncremental : IsIncremental byte
byte-IsIncremental = record { taken = byte-Taken }

pub bytes_fit :
    (n : ℕ) (xs : List ℕ) (ys : List ℕ) → length xs ≡ n → bytes n (xs ++ ys) ≡ ok (xs, ys)
bytes_fit n xs ys e = rw (← e) (
    rw (
      le→leb (length xs) (length (xs ++ ys)) (omega (arith, length-append xs ys)),
      take-append xs ys,
      drop-append xs ys,
    ))

bytes_short : (n : ℕ) (xs : List ℕ) → length xs < n → bytes n xs ≡ err truncated
bytes_short n xs h = ground arith

pub bytes_taken :
    (n : ℕ) (xs a ys : List ℕ)
    → bytes n xs ≡ ok (a, ys)
    → (n ≤ length xs) × (a ≡ take n xs) × (ys ≡ drop n xs)
bytes_taken n xs a ys h = ground arith

pub bytes-IsIncremental : (n : ℕ) → IsIncremental (bytes n)
bytes-IsIncremental n = record {
  taken = λ xs ys a h.
      let (fits, e, e') = bytes_taken n xs a ys h in
      let full : length a ≡ n = omega (arith, length-take n xs, ap (length {0} {A = ℕ}) e) in
      record {
        used = a;
        split = rw (e, e') (sym (take-append-drop n xs));
        rest_free = λ zs. bytes_fit n a zs full;
        waits = λ k lt. bytes_short n (take k a) (omega (arith, length-take k a));
      };
}

pub word-IsIncremental : IsIncremental word
word-IsIncremental =
    bind-IsIncremental byte-IsIncremental
      (λ hi. bind-IsIncremental byte-IsIncremental (λ lo. give-IsIncremental _))
