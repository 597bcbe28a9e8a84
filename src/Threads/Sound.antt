-- ===== src/Threads/Sound.antt =====
-- What holds between the loop bodies of the threads: the lists are well formed, and no descriptor is lost.
use dma_migration_test.Base.{ℕ, ◌≡◌, Bool, true}
use dma_migration_test.Machine.{Machine, Cmd, continue_with}
use dma_migration_test.Machine.Allows
use dma_migration_test.Machine.Allows.{Allows}
use dma_migration_test.Fifo.Repr.{Queues}
use dma_migration_test.Pebs.Invariant.{Inv, Counted, total}
use dma_migration_test.Pebs.Reshape.{Inv-SameShape}
use dma_migration_test.Threads.Quiet.{Quiet, Quiet-trans, Quietly}

-- The lists hold `all` descriptors, each where its tier and its use say, and with `exact` each
-- counter is the length of its list.
pub record Sound (exact : Bool) (all : ℕ) (m : Machine) : Type 0 where
  pub queues : Queues
  pub inv : Inv m queues
  pub none_lost : total queues ≡ all
  pub counted : exact ≡ true → Counted m queues

pub Sound-Quiet :
    {exact : Bool} {all : ℕ} {m m' : Machine} → Quiet m m' → Sound exact all m → Sound exact all m'
Sound-Quiet h s = record {
  queues = s.queues;
  inv = Inv-SameShape h.shape h.same_fifo s.inv;
  none_lost = s.none_lost;
  counted = λ e n. rw h.same_num (s.counted e n);
}

-- A command keeps what holds, if it returns.
abbrev pub Keeps : (exact exact' : Bool) (all : ℕ) → {A : Type 0} → Cmd A → Type 0
Keeps exact exact' all c = (m : Machine) → Sound exact all m → Allows (λ _. Sound exact' all) (c m)

module _ {A : Type 0} where
  pub Keeps-Quietly : (exact : Bool) (all : ℕ) (c : Cmd A) → Quietly c → Keeps exact exact all c
  Keeps-Quietly exact all c h m s =
      Allows.weaken (λ _. Sound exact all) (λ _. Quiet m) (c m) (h m) λ _ m' q. Sound-Quiet q s

  pub quiet_in :
      {B : Type 0} (Q : B → Machine → Type 0) (c : Cmd A) (k : A → Cmd B) {m₀ m : Machine}
      → Quietly c
      → Quiet m₀ m
      → ((a : A) (m' : Machine) → Quiet m₀ m' → Allows Q (k a m'))
      → Allows Q (continue_with (c m) k)
  quiet_in Q c k {m₀} {m} h q rest =
      Allows.bind (λ _. Quiet m) Q (c m) k (h m) λ a m' t. rest a m' (Quiet-trans q t)
