-- ===== src/Fifo/Splice.antt =====
-- Taking one page out of a segment: its neighbours are linked to one another.
use dma_migration_test.Base.{◌≡◌, refl, sym, List, [], ◌∷◌, ◌++◌, All, All-front, first_or, last_or}
use dma_migration_test.Machine.{Ptr, null, ListName}
use dma_migration_test.Fifo.Seg.{
  Pages, Node, Seg, nil, cons, Seg-front, Seg-back, Seg-append, Seg-tail, Avoids, Distinct,
  Distinct-middle,
}

-- `g` is `f` with `p` taken out between its neighbours `a` and `z`, each of which may be NULL.
pub record Splice (f g : Pages) (a p z : Ptr) : Type 0 where
  pub other : (b : Ptr) → ¬ (b ≡ p) → ¬ (b ≡ a) → ¬ (b ≡ z) → g b ≡ f b
  pub left : ¬ (a ≡ null) → g a ≡ record (f a) { next = z }
  pub right : ¬ (z ≡ null) → g z ≡ record (f z) { prev = a }

pub Avoids-last : (p x : Ptr) (xs : List Ptr) → Avoids p (x ∷ xs) → ¬ (last_or x xs ≡ p)
Avoids-last p x [] h = h.0
Avoids-last p x (y ∷ xs) h = Avoids-last p y xs h.1

-- A property of all entries holds of the last one.
pub All-last {κ} : (P : Ptr → Type κ) (x : Ptr) (xs : List Ptr) → All P (x ∷ xs) → P (last_or x xs)
All-last P x [] h = h.0
All-last P x (y ∷ xs) h = All-last P y xs h.1

Node-same : {f g : Pages} {n : ListName} {a p z : Ptr} → g p ≡ f p → Node f n a p z → Node g n a p z
Node-same e h = record {
  ne_null = h.ne_null;
  prev = rw e h.prev;
  next = rw e h.next;
  list = rw e h.list;
}

module _ {f g : Pages} {n : ListName} {p z : Ptr} where
  -- The part in front of `p`, whose last page is `a`.
  Splice-front :
      {b : Ptr} (x : Ptr) (xs : List Ptr)
      → Splice f g (last_or x xs) p z
      → Seg f n p b (x ∷ xs)
      → Distinct (x ∷ xs)
      → Avoids p (x ∷ xs)
      → Avoids z (x ∷ xs)
      → Seg g n z b (x ∷ xs)
  Splice-front x [] s (cons h nil) d ap az =
      let e = s.left h.ne_null in
      cons
        (record { ne_null = h.ne_null; prev = rw e h.prev; next = rw e refl; list = rw e h.list })
        nil
  Splice-front x (y ∷ xs) s (cons h t) d ap az =
      cons (Node-same (s.other x ap.0 (λ e. Avoids-last x y xs d.0 (sym e)) az.0) h)
        (Splice-front y xs s t d.1 ap.1 az.1)

  Splice-rest :
      {a b : Ptr} (ys : List Ptr)
      → Splice f g a p z
      → Seg f n null b ys
      → Avoids p ys
      → Avoids a ys
      → Avoids z ys
      → Seg g n null b ys
  Splice-rest [] s t ap aa az = nil
  Splice-rest (y ∷ ys) s (cons h t) ap aa az =
      cons (Node-same (s.other y ap.0 aa.0 az.0) h) (Splice-rest ys s t ap.1 aa.1 az.1)

-- The part behind `p`.
Splice-back :
    {f g : Pages} {n : ListName} {p a : Ptr} (ys : List Ptr)
    → Splice f g a p (first_or null ys)
    → Seg f n null p ys
    → Distinct ys
    → Avoids p ys
    → Avoids a ys
    → Seg g n null a ys
Splice-back [] s t d ap aa = nil
Splice-back (y ∷ ys) s (cons h t) d ap aa =
    let e = s.right h.ne_null in
    cons (record { ne_null = h.ne_null; prev = rw e refl; next = rw e h.next; list = rw e h.list })
      (Splice-rest ys s t ap.1 aa.1 d.0)

Avoids-null :
    {f : Pages} {n : ListName} {z a : Ptr} {xs : List Ptr} → Seg f n z a xs → Avoids null xs
Avoids-null nil = tt
Avoids-null (cons h s) = (h.ne_null, Avoids-null s)

last-Avoids : (x : Ptr) (xs ys : List Ptr) → Distinct (x ∷ xs ++ ys) → Avoids (last_or x xs) ys
last-Avoids x [] ys d = d.0
last-Avoids x (y ∷ xs) ys d = last-Avoids y xs ys d.1

Distinct-front : (xs ys : List Ptr) → Distinct (xs ++ ys) → Distinct xs
Distinct-front [] ys d = tt
Distinct-front (x ∷ xs) ys d = (All-front _ xs ys d.0, Distinct-front xs ys d.1)

pub Distinct-back : (xs ys : List Ptr) → Distinct (xs ++ ys) → Distinct ys
Distinct-back [] ys d = d
Distinct-back (x ∷ xs) ys d = Distinct-back xs ys d.1

pub first-Avoids :
    {f : Pages} {n : ListName} {z a : Ptr} (xs ys : List Ptr)
    → Seg f n z a xs
    → Distinct (xs ++ ys)
    → Avoids (first_or null ys) xs
first-Avoids xs [] s d = Avoids-null s
first-Avoids xs (y ∷ ys) s d = (Distinct-middle xs ys y d).1

-- The remaining pages are linked in the same order.
pub Splice-Seg :
    {f g : Pages} {n : ListName} {p : Ptr} (xs ys : List Ptr)
    → Splice f g (last_or null xs) p (first_or null ys)
    → Seg f n null null (xs ++ p ∷ ys)
    → Distinct (xs ++ p ∷ ys)
    → Seg g n null null (xs ++ ys)
Splice-Seg [] ys s h d = Splice-back ys s (Seg-tail h) d.1 d.0 (Avoids-null (Seg-tail h))
Splice-Seg {p} (x ∷ xs) ys s h d =
    let (apart, before, behind) = Distinct-middle (x ∷ xs) ys p d in
    let front = Seg-front (x ∷ xs) (p ∷ ys) h in
    let back = Seg-back (x ∷ xs) (p ∷ ys) h in
    Seg-append (x ∷ xs) ys
      (Splice-front x xs s front (Distinct-front (x ∷ xs) ys apart) before
        (first-Avoids (x ∷ xs) ys front apart))
      (Splice-back ys s (Seg-tail back) (Distinct-back (x ∷ xs) ys apart) behind
        (last-Avoids x xs ys apart))
