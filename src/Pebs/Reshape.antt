-- ===== src/Pebs/Reshape.antt =====
-- The lists depend on a descriptor's links, tier and presence only.
use dma_migration_test.Base.{◌≡◌, ◌∙◌, List, All-map}
use dma_migration_test.Machine.{Ptr, HememPage, ListName, Machine}
use dma_migration_test.Fifo.Repr.{Queues}
use dma_migration_test.Fifo.Seg.{Seg, cons, nil}
use dma_migration_test.Pebs.Invariant.{Inv}

pub record SameShape (v w : HememPage) : Type 0 where
  pub next : w.next ≡ v.next
  pub prev : w.prev ≡ v.prev
  pub list : w.list ≡ v.list
  pub in_dram : w.in_dram ≡ v.in_dram
  pub present : w.present ≡ v.present

Seg-SameShape :
    {f g : Ptr → HememPage} {n : ListName} {z a : Ptr} {xs : List Ptr}
    → ((p : Ptr) → SameShape (f p) (g p))
    → Seg f n z a xs
    → Seg g n z a xs
Seg-SameShape same nil = nil
Seg-SameShape same (cons {p} h s) =
    cons
      (record {
        ne_null = h.ne_null;
        prev = (same p).prev ∙ h.prev;
        next = (same p).next ∙ h.next;
        list = (same p).list ∙ h.list;
      })
      (Seg-SameShape same s)

pub Inv-SameShape :
    {m m' : Machine} {qs : Queues}
    → ((p : Ptr) → SameShape (m.page p) (m'.page p))
    → m'.fifo ≡ m.fifo
    → Inv m qs
    → Inv m' qs
Inv-SameShape {qs} same d inv = record {
  lists = λ n. record {
    first = rw d (inv.lists n).first;
    last = rw d (inv.lists n).last;
    numentries = rw d (inv.lists n).numentries;
    bounded = (inv.lists n).bounded;
    chain = Seg-SameShape same (inv.lists n).chain;
    distinct = (inv.lists n).distinct;
  };
  placed =
      λ n. All-map (qs n) (λ p h. ((same p).in_dram ∙ h.0, (same p).present ∙ h.1)) (inv.placed n);
  few = inv.few;
}
