-- ===== src/Record/Opened.antt =====
-- res-record.c: the files that are open after `open_res_file`.
use dma_migration_test.Base.{
  ℕ, zero, suc, ◌+◌, ◌≡◌, ◌≤◌, ◌<◌, ◌∙◌, refl, sym, ap, Bool, true, false, some, none, ◌==◌, ◌&&◌,
  fun_ext, if◌then◌else◌, Bool-cases, inl, inr, ltb, arith, eq_cases,
}
use dma_migration_test.Record.{open_res, open_files, open_res_file, open_then, file_num}

-- A call for a file that there is opens it alone; another call does nothing.
open_res-opens :
    (opens : ℕ → Bool) (n : ℕ) (files : ℕ → Bool)
    → n < file_num
    → opens n ≡ true
    → open_res opens n files ≡ some (λ k. if k == n then true else files k)
unfolding open_res
open_res-opens opens n files low h = ground arith

open_res-skips :
    (opens : ℕ → Bool) (n : ℕ) (files : ℕ → Bool)
    → file_num ≤ n
    → open_res opens n files ≡ some files
unfolding open_res
open_res-skips opens n files high = ground arith

open_res-fails :
    (opens : ℕ → Bool) (n : ℕ) (files : ℕ → Bool)
    → n < file_num
    → opens n ≡ false
    → open_res opens n files ≡ none
unfolding open_res
open_res-fails opens n files low h = ground arith

-- A failure behind file `i` stops the calls from `i` on.
open_files-fails :
    (opens : ℕ → Bool) (n i calls : ℕ) (files : ℕ → Bool)
    → n < file_num
    → opens n ≡ false
    → i ≤ n
    → n < i + calls
    → open_files opens i calls files ≡ none
unfolding open_files open_then
open_files-fails opens n i zero files low h le lt = absurd (omega arith)
open_files-fails opens n i (suc calls) files low h le lt = elim (eq_cases n i) [
  | inl same ↦ rw (open_res-fails opens i files (omega arith) (ap opens (sym same) ∙ h)) refl
  | inr ne ↦ elim (Bool-cases (opens i)) [
    | inl ok ↦
        rw (open_res-opens opens i files (omega arith) ok)
          (open_files-fails opens n (i + 1) calls _ low h (omega arith) (omega arith))
    | inr bad ↦ rw (open_res-fails opens i files (omega arith) bad) refl
  ]
]

module _ (opens : ℕ → Bool) (files : ℕ → Bool) where
  failed : (n : ℕ) → n < file_num → opens n ≡ false → open_res_file opens files ≡ none
  unfolding open_res_file
  failed n low bad = open_files-fails opens n 0 10 files low bad (omega arith) (omega arith)

  opened :
      opens 0 ≡ true
      → opens 1 ≡ true
      → opens 2 ≡ true
      → opens 3 ≡ true
      → open_res_file opens files ≡ some (λ n. if ltb n file_num then true else files n)
  unfolding open_res_file open_files open_then
  opened a b c d =
      rw
        (
          open_res-opens opens 0 _ (omega arith) a,
          open_res-opens opens 1 _ (omega arith) b,
          open_res-opens opens 2 _ (omega arith) c,
          open_res-opens opens 3 _ (omega arith) d,
          open_res-skips opens 4 _ (omega arith),
          open_res-skips opens 5 _ (omega arith),
          open_res-skips opens 6 _ (omega arith),
          open_res-skips opens 7 _ (omega arith),
          open_res-skips opens 8 _ (omega arith),
          open_res-skips opens 9 _ (omega arith),
        )
        (ap some (fun_ext λ n. ground arith))

  -- The ten calls open the four files of the program and change nothing for another; a failure of
  -- `fopen` for one of the four stops the program.
  pub open_res_file-opens : open_res_file opens files ≡ (
      if opens 0 && opens 1 && opens 2 && opens 3
      then some (λ n. if ltb n file_num then true else files n)
      else none)
  open_res_file-opens = elim (Bool-cases (opens 0)) [
    | inr a ↦ failed 0 (omega arith) a ∙ rw a refl
    | inl a ↦ elim (Bool-cases (opens 1)) [
      | inr b ↦ failed 1 (omega arith) b ∙ rw (a, b) refl
      | inl b ↦ elim (Bool-cases (opens 2)) [
        | inr c ↦ failed 2 (omega arith) c ∙ rw (a, b, c) refl
        | inl c ↦ elim (Bool-cases (opens 3)) [
          | inr d ↦ failed 3 (omega arith) d ∙ rw (a, b, c, d) refl
          | inl d ↦ opened a b c d ∙ rw (a, b, c, d) refl
        ]
      ]
    ]
  ]
