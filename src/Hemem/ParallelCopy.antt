-- ===== src/Hemem/ParallelCopy.antt =====
-- `hemem_parallel_memcpy`, `hemem_parallel_memset` and a round of `memcpy_thread`, which are built when
-- USE_DMA is not defined. Memory is a function from addresses to bytes. Between the two barriers
-- of a request the copy threads each do one chunk, in any order.
use dma_migration_test.Base.{
  dec_lt, ℕ, zero, suc, ◌+◌, ◌-◌, ◌*◌, ◌/◌, ◌≡◌, ◌≤◌, ◌<◌, ◌⊎◌, ◌∙◌, inl, inr, refl, sym, fun_ext,
  ap, Bool, true, false, not, ◌||◌, ◌&&◌, List, [], ◌∷◌, All, ◌==◌, ltb, leb, if◌then◌else◌,
  if-true, if-false, Bool-cases, eq_cases, arith, eqb_ne, eqb_refl,
}

abbrev pub Memory : Type 0
Memory = ℕ → ℕ

pub record Pmemcpy : Type 0 where
  pub write_zeros : Bool
  pub dst : ℕ
  pub src : ℕ
  pub length : ℕ

abbrev within : (start n a : ℕ) → Bool
within start n a = leb start a && ltb a (start + n)

-- `memcpy` and `memset` of the C library.
abbrev pub memcpy : (dst src n : ℕ) → Memory → Memory
memcpy dst src n mem a = if within dst n a then mem (src + (a - dst)) else mem a

abbrev pub memset : (dst c n : ℕ) → Memory → Memory
memset dst c n mem a = if within dst n a then c else mem a

-- What the thread `tid` of `threads` does between the barriers.
unfoldable pub memcpy_thread : (threads tid : ℕ) → Pmemcpy → Memory → Memory
memcpy_thread threads tid p mem =
    let chunk_size = p.length / threads in
    if not p.write_zeros
    then memcpy (p.dst + tid * chunk_size) (p.src + tid * chunk_size) chunk_size mem
    else memset (p.dst + tid * chunk_size) 0 chunk_size mem

-- The threads in the order in which they come to their chunks.
unfoldable pub copy_threads : (threads : ℕ) (order : List ℕ) → Pmemcpy → Memory → Memory
copy_threads threads [] p mem = mem
copy_threads threads (tid ∷ order) p mem =
    copy_threads threads order p (memcpy_thread threads tid p mem)

unfoldable pub hemem_parallel_memcpy :
    (threads : ℕ) (order : List ℕ) (dst src length : ℕ) → Memory → Memory
unfolding copy_threads
hemem_parallel_memcpy threads order dst src length =
    copy_threads threads order
      (record { write_zeros = false; dst = dst; src = src; length = length })

-- `c` is not read; `src` is what the last copy left.
unfoldable pub hemem_parallel_memset :
    (threads : ℕ) (order : List ℕ) (src addr c n : ℕ) → Memory → Memory
unfolding copy_threads
hemem_parallel_memset threads order src addr c n =
    copy_threads threads order (record { write_zeros = true; dst = addr; src = src; length = n })

abbrev pub elem : ℕ → List ℕ → Bool
elem j [] = false
elem j (t ∷ order) = (t == j) || elem j order

chunk_end : (j threads chunk : ℕ) → j < threads → j * chunk + chunk ≤ threads * chunk
chunk_end j zero chunk low = absurd (omega arith)
chunk_end zero (suc threads) chunk low = omega arith
chunk_end (suc j) (suc threads) chunk low = omega (arith, chunk_end j threads chunk (omega arith))

ne_cases : (j t : ℕ) → ¬ (j ≡ t) → (j < t) ⊎ (t < j)
ne_cases j t ne = grind arith

chunk_apart :
    (j t chunk : ℕ) → ¬ (j ≡ t) → (j * chunk + chunk ≤ t * chunk) ⊎ (t * chunk + chunk ≤ j * chunk)
chunk_apart j t chunk ne = elim (ne_cases j t ne) [
  | inl low ↦ inl (chunk_end j t chunk low)
  | inr high ↦ inr (chunk_end t j chunk high)
]

-- One chunk of a copy, at an address of a chunk and at one before or behind all of them.
module _ (dst src chunk : ℕ) (mem : Memory) where
  copied_chunk :
      (t j i : ℕ)
      → i < chunk
      → memcpy (dst + t * chunk) (src + t * chunk) chunk mem (dst + (j * chunk + i))
        ≡ (if t == j then mem (src + (j * chunk + i)) else mem (dst + (j * chunk + i)))
  copied_chunk t j i low = elim (eq_cases t j) [
    | inl same ↦
        let inside : within (dst + j * chunk) chunk (dst + (j * chunk + i)) ≡ true = ground arith in
        rw (same, eqb_refl j) (if-true _ _ _ inside ∙ ap mem (omega arith))
    | inr ne ↦ elim (chunk_apart t j chunk ne) [
      | inl before ↦ rw (eqb_ne t j ne) (ground arith)
      | inr behind ↦ rw (eqb_ne t j ne) (ground arith)
    ]
  ]

  untouched :
      (t threads a : ℕ)
      → t < threads
      → (a < dst) ⊎ (dst + threads * chunk ≤ a)
      → memcpy (dst + t * chunk) (src + t * chunk) chunk mem a ≡ mem a
  untouched t threads a low out = let last = chunk_end t threads chunk low in ground arith

join :
    (b e : Bool) (s₁ h s d : ℕ)
    → s₁ ≡ s
    → h ≡ (if b then s else d)
    → (if e then s₁ else h) ≡ (if b || e then s else d)
join true true s₁ h s d p q = p
join true false s₁ h s d p q = q
join false true s₁ h s d p q = p
join false false s₁ h s d p q = q

-- The chunk of an offset, and the place in it.
chunk_of :
    (threads chunk x : ℕ)
    → x < threads * chunk
    → (j : ℕ) × (i : ℕ) × (j < threads) × (i < chunk) × (x ≡ j * chunk + i)
chunk_of zero chunk x low = absurd (omega arith)
chunk_of (suc threads) chunk x low = elim (dec_lt x (threads * chunk)) [
  | yes before ↦ let (j, i, a, b, e) = chunk_of threads chunk x before in (j, i, omega arith, b, e)
  | no last ↦ (threads, x - threads * chunk, omega arith, omega arith, omega arith)
]

module _ (threads dst src length : ℕ) (divides : length ≡ threads * (length / threads))
    (apart : (dst + length ≤ src) ⊎ (src + length ≤ dst)) where
  copied :
      (order : List ℕ) (mem : Memory) (j i : ℕ)
      → All (λ t. t < threads) order
      → j < threads
      → i < length / threads
      → copy_threads threads order
          (record { write_zeros = false; dst = dst; src = src; length = length })
          mem
          (dst + (j * (length / threads) + i))
        ≡ (if elem j order
            then mem (src + (j * (length / threads) + i))
            else mem (dst + (j * (length / threads) + i)))
  unfolding copy_threads memcpy_thread
  copied [] mem j i all low within = refl
  copied (t ∷ order) mem j i all low within =
      let c = length / threads in
      let here = copied_chunk dst src c mem t j i within in
      let last = chunk_end j threads c low in
      let source = untouched dst src c mem t threads (src + (j * c + i)) all.0 (ground arith) in
      copied order (memcpy (dst + t * c) (src + t * c) c mem) j i all.1 low within
      ∙ join (t == j) (elem j order) _ _ _ _ source here

  untouched-All :
      (order : List ℕ) (mem : Memory) (a : ℕ)
      → All (λ t. t < threads) order
      → (a < dst) ⊎ (dst + length ≤ a)
      → copy_threads threads order
          (record { write_zeros = false; dst = dst; src = src; length = length })
          mem
          a
        ≡ mem a
  unfolding copy_threads memcpy_thread
  untouched-All [] mem a all out = refl
  untouched-All (t ∷ order) mem a all out =
      let c = length / threads in
      untouched-All order (memcpy (dst + t * c) (src + t * c) c mem) a all.1 out
      ∙ untouched dst src c mem t threads a all.0 (ground (arith, divides, out))

  -- When the length is a multiple of the number of threads and the two ranges are apart, and each
  -- thread does its chunk in some order, once or more: the copy by the threads is one `memcpy`.
  pub hemem_parallel_memcpy-memcpy :
      (order : List ℕ) (mem : Memory)
      → All (λ t. t < threads) order
      → ((t : ℕ) → t < threads → elem t order ≡ true)
      → hemem_parallel_memcpy threads order dst src length mem ≡ memcpy dst src length mem
  unfolding hemem_parallel_memcpy
  hemem_parallel_memcpy-memcpy order mem all each = fun_ext λ a.
      elim (Bool-cases (within dst length a)) [
        | inl inside ↦
            let offset : a ≡ dst + (a - dst) = ground arith in
            let (j, i, low, place, e) =
              chunk_of threads (length / threads) (a - dst) (ground (arith, divides)) in
            let at : a ≡ dst + (j * (length / threads) + i) = omega (arith, offset, e) in
            ap
              (copy_threads threads order
                (record { write_zeros = false; dst = dst; src = src; length = length }) mem)
              at
            ∙ copied order mem j i all low place
            ∙ if-true (elem j order) _ _ (each j low)
            ∙ ap (λ x. mem (src + x)) (sym e)
            ∙ sym (if-true (within dst length a) _ _ inside)
        | inr outside ↦
            untouched-All order mem a all (ground arith)
            ∙ sym (if-false (within dst length a) _ _ outside)
      ]
