-- ===== src/Transport/Select.antt =====
-- p2p/tcp_transport.go: the select at the end of Dial.
use file_share_p2p.Prelude.{
  ℕ, ◌≤◌, Bool, List, [], ◌∷◌, arith, ltb, length, All, Bool-cases, inl, inr,
}
use file_share_p2p.Transport.Dial.{DialResult, earlier, select}

earlier_bound : (coin : Bool) (s r : ℕ × DialResult) → (earlier coin s r).0 ≤ s.0
unfolding earlier
earlier_bound coin (t, r) (u, q) = ground arith

pub select_bound :
    (coin : ℕ → Bool) (best : ℕ × DialResult) (rest : List (ℕ × DialResult))
    → (select coin best rest).0 ≤ best.0
unfolding select
select_bound coin best [] = omega arith
select_bound coin best (s ∷ rest) = omega (
  arith,
  earlier_bound (coin (length rest)) best s,
  select_bound coin (earlier (coin (length rest)) best s) rest,
)

earlier_one :
    (P : ℕ × DialResult → Type 0) (coin : Bool) (s r : ℕ × DialResult)
    → P s
    → P r
    → P (earlier coin s r)
unfolding earlier
earlier_one P coin (t, r) (u, q) p p' = elim (Bool-cases (ltb t u)) [
  | inl e ↦ rw e p
  | inr e ↦ elim (Bool-cases (ltb u t)) [
    | inl f ↦ rw (e, f) p'
    | inr f ↦ elim (Bool-cases coin) [ inl g ↦ rw (e, f, g) p | inr g ↦ rw (e, f, g) p' ]
  ]
]

-- What the select returns is one of its cases.
pub select_one :
    (P : ℕ × DialResult → Type 0) (coin : ℕ → Bool) (best : ℕ × DialResult)
    (rest : List (ℕ × DialResult))
    → P best
    → All P rest
    → P (select coin best rest)
unfolding select
select_one P coin best [] p h = p
select_one P coin best (s ∷ rest) p (q, h) =
    select_one P coin (earlier (coin (length rest)) best s) rest
      (earlier_one P (coin (length rest)) best s p q) h
