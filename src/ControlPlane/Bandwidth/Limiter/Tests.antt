-- ===== src/ControlPlane/Bandwidth/Limiter/Tests.antt =====
-- A concrete limiter, and the theorem on its tokens at it.
use rust_proxy.Base.{ℕ, ◌≡◌, ◌≢◌, refl, true, List, [], ◌∷◌, leb, leb→le, le→leb, arith}
use rust_proxy.ControlPlane.Float.Fixed.{fixed}
use rust_proxy.ControlPlane.Bandwidth.Limiter.{took, new, try_take, available, acquire}
use rust_proxy.ControlPlane.Bandwidth.Limiter.Tokens.{Laws, taken, limiter_bounds}

fixed-Laws : Laws fixed
fixed-Laws = record {
  ge_refl = λ n. le→leb _ _ (omega arith);
  ge_trans = λ x y z h k. le→leb _ _ (omega (arith, leb→le y x h, leb→le z y k));
  min_le = λ x n. le→leb _ _ (omega arith);
  sub_le = λ c t n h k. le→leb _ _ (omega (arith, leb→le t c h));
}

-- Seconds in thousandths.
abbrev as_secs : ℕ → ℕ
as_secs n = n

-- A limiter of 5 tokens at 4 a second, after 3 were taken: 7 are never granted.
limiter_bounds_example :
    (leb
        (available fixed as_secs
          (taken fixed as_secs fixed-Laws 5 ((1500, 3) ∷ []) (new fixed as_secs 4 5 1000)))
        5000
      ≡ true)
    × ((waits : List ℕ)
        → (acquire fixed as_secs
            (λ _. true)
            1
            (2000 ∷ 3000 ∷ [])
            (taken fixed as_secs fixed-Laws 5 ((1500, 3) ∷ []) (new fixed as_secs 4 5 1000))
            7).1
          ≢ took waits)
limiter_bounds_example =
    limiter_bounds fixed as_secs fixed-Laws 5 4 1000 7 ((1500, 3) ∷ []) (λ _. true) 1
      (2000 ∷ 3000 ∷ []) refl

-- What is left after 3 of 5, and a half second at 4 a second after 3 more, is 1 token.
refilled :
    available fixed as_secs
      (try_take fixed as_secs 1500
        (try_take fixed as_secs 1000 (new fixed as_secs 4 5 1000) 3).0
        3).0
    ≡ 1000
unfolding available try_take new
refilled = refl
