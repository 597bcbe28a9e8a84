-- ===== src/Fifo/Seg.antt =====
-- Doubly linked segments: what a stretch of a list looks like in the page descriptors.
use dma_migration_test.Base.{
  ◌≡◌, sym, List, [], ◌∷◌, ◌++◌, some, All, first_or, last_or, first_or-append,
}
use dma_migration_test.Machine.{Ptr, null, HememPage, ListName}

abbrev pub Pages : Type 0
Pages = Ptr → HememPage

-- Page `p` of list `n` stands between `a` and `z`.
pub record Node (f : Pages) (n : ListName) (a p z : Ptr) : Type 0 where
  pub ne_null : ¬ (p ≡ null)
  pub prev : (f p).prev ≡ a
  pub next : (f p).next ≡ z
  pub list : (f p).list ≡ some n

-- The pages `xs` of list `n` are linked in order, after `a` and before `z`.
pub data Seg (f : Pages) (n : ListName) (z : Ptr) : Ptr → List Ptr → Type 0 where
  nil : {a : Ptr} → Seg f n z a []
  cons :
      {a p : Ptr} {xs : List Ptr}
      → Node f n a p (first_or z xs)
      → Seg f n z p xs
      → Seg f n z a (p ∷ xs)

abbrev pub Avoids : Ptr → List Ptr → Type 0
Avoids p = All λ q. ¬ (q ≡ p)

abbrev pub Distinct : List Ptr → Type 0
Distinct [] = Unit
Distinct (x ∷ xs) = Avoids x xs × Distinct xs

module _ {f : Pages} {n : ListName} where
  pub Seg-append :
      {a z : Ptr} (xs ys : List Ptr)
      → Seg f n (first_or z ys) a xs
      → Seg f n z (last_or a xs) ys
      → Seg f n z a (xs ++ ys)
  Seg-append [] ys h k = k
  Seg-append {z} (x ∷ xs) ys (cons h s) k =
      cons (rw (first_or-append z xs ys) h) (Seg-append xs ys s k)

  pub Seg-front :
      {a z : Ptr} (xs ys : List Ptr) → Seg f n z a (xs ++ ys) → Seg f n (first_or z ys) a xs
  Seg-front [] ys h = nil
  Seg-front {z} (x ∷ xs) ys (cons h s) =
      cons (rw (sym (first_or-append z xs ys)) h) (Seg-front xs ys s)

  pub Seg-back :
      {a z : Ptr} (xs ys : List Ptr) → Seg f n z a (xs ++ ys) → Seg f n z (last_or a xs) ys
  Seg-back [] ys h = h
  Seg-back (x ∷ xs) ys (cons h s) = Seg-back xs ys s

  pub Seg-head : {a p z : Ptr} {xs : List Ptr} → Seg f n z a (p ∷ xs) → Node f n a p (first_or z xs)
  Seg-head (cons h s) = h

  pub Seg-tail : {a p z : Ptr} {xs : List Ptr} → Seg f n z a (p ∷ xs) → Seg f n z p xs
  Seg-tail (cons h s) = s

  pub Seg-All :
      {z a : Ptr} {xs : List Ptr}
      → Seg f n z a xs
      → All (λ p. ¬ (p ≡ null) × ((f p).list ≡ some n)) xs
  Seg-All nil = tt
  Seg-All (cons h s) = ((h.ne_null, h.list), Seg-All s)

  -- A segment stays where its own pages keep their descriptors.
  pub Seg-frame :
      {g : Pages} {z a : Ptr} {xs : List Ptr}
      → Seg f n z a xs
      → All (λ p. g p ≡ f p) xs
      → Seg g n z a xs
  Seg-frame nil same = nil
  Seg-frame (cons h s) same =
      cons
        (record {
          ne_null = h.ne_null;
          prev = rw same.0 h.prev;
          next = rw same.0 h.next;
          list = rw same.0 h.list;
        })
        (Seg-frame s same.1)

  pub Seg-Avoids :
      {z a : Ptr} {xs : List Ptr} (p : Ptr) → Seg f n z a xs → ¬ ((f p).list ≡ some n) → Avoids p xs
  Seg-Avoids p nil h = tt
  Seg-Avoids p (cons node s) h = ((λ e. h (rw (sym e) node.list)), Seg-Avoids p s h)

Avoids-front : (x : Ptr) (xs ys : List Ptr) → Avoids x (xs ++ ys) → Avoids x xs
Avoids-front x [] ys h = tt
Avoids-front x (y ∷ xs) ys h = (h.0, Avoids-front x xs ys h.1)

Avoids-skip : (x p : Ptr) (xs ys : List Ptr) → Avoids x (xs ++ p ∷ ys) → Avoids x (xs ++ ys)
Avoids-skip x p [] ys h = h.1
Avoids-skip x p (y ∷ xs) ys h = (h.0, Avoids-skip x p xs ys h.1)

Avoids-middle : (x p : Ptr) (xs ys : List Ptr) → Avoids x (xs ++ p ∷ ys) → ¬ (p ≡ x)
Avoids-middle x p [] ys h = h.0
Avoids-middle x p (y ∷ xs) ys h = Avoids-middle x p xs ys h.1

-- Dropping the middle page of a list without repeats.
pub Distinct-middle :
    (xs ys : List Ptr) (p : Ptr)
    → Distinct (xs ++ p ∷ ys)
    → Distinct (xs ++ ys) × Avoids p xs × Avoids p ys
Distinct-middle [] ys p d = (d.1, tt, d.0)
Distinct-middle (x ∷ xs) ys p d =
    let (rest, before, behind) = Distinct-middle xs ys p d.1 in
    (
      (Avoids-skip x p xs ys d.0, rest),
      ((λ e. Avoids-middle x p xs ys d.0 (sym e)), before),
      behind,
    )
