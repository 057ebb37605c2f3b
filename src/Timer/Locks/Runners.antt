-- ===== src/Timer/Locks/Runners.antt =====
-- The threads as a family of which one member changes at a time.
use mathlib.Core.Path.{fun_ext}
use qing.Common.{ℕ, ◌≡◌, ◌≢◌, refl, sym, inl, inr, Bool-cases, ◌==◌, ==_iff, ne_of_==_false, arith}
use qing.Timer.Defs.{Host}
use qing.Timer.Locks.{Runner, System, put, Reach, here, next_step}

pub put_self : (a : ℕ) (r : Runner) (runners : ℕ → Runner) → put a r runners a ≡ r
put_self a r runners = let same = (==_iff a a).1 refl in ground arith

pub put_ne : (a b : ℕ) (r : Runner) (runners : ℕ → Runner) → b ≢ a → put a r runners b ≡ runners b
put_ne a b r runners ne = elim (Bool-cases (b == a)) [
  | inl same ↦ absurd (ne ((==_iff b a).0 same))
  | inr other ↦ rw other refl
]

pub put-put :
    (a : ℕ) (r r' : Runner) (runners : ℕ → Runner) → put a r' (put a r runners) ≡ put a r' runners
put-put a r r' runners = fun_ext (λ b. ground arith)

pub put-keeps :
    (a : ℕ) (r : Runner) (runners : ℕ → Runner) → runners a ≡ r → put a r runners ≡ runners
put-keeps a r runners q = fun_ext (λ b. elim (Bool-cases (b == a)) [
  | inl same ↦ rw (same, (==_iff b a).0 same) (sym q)
  | inr other ↦ rw other refl
])

-- What holds of `a` with the new runner and of every other with its own holds of all.
pub put-all :
    (P : ℕ → Runner → Type 0) (a : ℕ) (r : Runner) (runners : ℕ → Runner)
    → P a r
    → ((b : ℕ) → b ≢ a → P b (runners b))
    → (b : ℕ) → P b (put a r runners b)
put-all P a r runners mine others b = elim (Bool-cases (b == a)) [
  | inl same ↦ rw (same, (==_iff b a).0 same) mine
  | inr other ↦ rw other (others b (ne_of_==_false b a other))
]

pub Reach-trans :
    {h : Host} {w w' : System} {w'' : System} → Reach h w w' → Reach h w' w'' → Reach h w w''
Reach-trans r here = r
Reach-trans r (next_step r' st) = next_step (Reach-trans r r') st
