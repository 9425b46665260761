-- ===== src/Fuzz/Pool.antt =====
-- The blocks of the shim's pool (fuzz/ngx_shim.h).
use coraza_nginx.Common.{
  ℕ, ◌+◌, ◌≤◌, ◌≡◌, ◌≢◌, refl, ◌==◌, List, [], ◌∷◌, ◌++◌, length, length-append, if◌then◌else◌,
  arith,
}
use coraza_nginx.Fuzz.{
  ShimCall, malloc, free, ShimPool, Heap, pool_max, empty_pool, shim_pnalloc, free_all, pool_reset,
}

abbrev hit : ℕ → ℕ → ℕ
hit q p = if q == p then 1 else 0

-- How often `malloc` gave out the block, how often it was freed, and how often the pool holds it.
abbrev pub given : Heap → ℕ → List ShimCall → ℕ
given heap p [] = 0
given heap p (malloc n ∷ t) = hit (heap (malloc n ∷ t)) p + given heap p t
given heap p (free q ∷ t) = given heap p t

abbrev pub freed : ℕ → List ShimCall → ℕ
freed p [] = 0
freed p (malloc n ∷ t) = freed p t
freed p (free q ∷ t) = hit q p + freed p t

abbrev pub held : ℕ → List ℕ → ℕ
held p [] = 0
held p (q ∷ qs) = hit q p + held p qs

-- Each block is held until it is freed, and the array of blocks is not overrun.
pub record Balanced (heap : Heap) (pool : ShimPool) : Type 0 where
  pub blocks : (p : ℕ) → p ≢ 0 → given heap p pool.calls ≡ freed p pool.calls + held p pool.allocs
  pub size : length pool.allocs ≤ pool_max

pub empty_pool-Balanced : (heap : Heap) → Balanced heap empty_pool
empty_pool-Balanced heap = record { blocks = λ p n. refl; size = omega arith }

held-append : (p : ℕ) (qs rs : List ℕ) → held p (qs ++ rs) ≡ held p qs + held p rs
held-append p [] rs = omega arith
held-append p (q ∷ qs) rs = omega (arith, held-append p qs rs)

pub shim_pnalloc-Balanced :
    (heap : Heap) (size : ℕ) (pool : ShimPool)
    → Balanced heap pool
    → Balanced heap (shim_pnalloc heap size pool).1
unfolding shim_pnalloc
shim_pnalloc-Balanced heap size pool b =
    let t = malloc (if size == 0 then 1 else size) ∷ pool.calls in
    record {
      blocks = λ p n. ground (arith, n, b.blocks p n, held-append p pool.allocs (heap t ∷ []));
      size = ground (arith, b.size, length-append pool.allocs (heap t ∷ []));
    }

free_all-counts :
    (heap : Heap) (p : ℕ) (qs : List ℕ) (t : List ShimCall)
    → (freed p (free_all qs t) ≡ freed p t + held p qs)
      × (given heap p (free_all qs t) ≡ given heap p t)
unfolding free_all
free_all-counts heap p [] t = ground arith
free_all-counts heap p (q ∷ qs) t = ground (arith, free_all-counts heap p qs (free q ∷ t))

-- A pool in which nothing is left, and nothing was freed twice.
pub record Settled (heap : Heap) (pool : ShimPool) : Type 0 where
  pub nothing : pool.allocs ≡ []
  pub once : (p : ℕ) → p ≢ 0 → given heap p pool.calls ≡ freed p pool.calls

pub pool_reset-Settled :
    (heap : Heap) (pool : ShimPool) → Balanced heap pool → Settled heap (pool_reset pool)
unfolding pool_reset
pool_reset-Settled heap pool b = record {
  nothing = refl;
  once = λ p n. ground (arith, b.blocks p n, free_all-counts heap p pool.allocs pool.calls);
}
