-- ===== src/Linked.antt =====
-- include/list.h and lib/general/list.c: nodes of doubly linked lists at addresses, and commands
-- that read and write them. A read or a write through a null pointer or a freed node is a fault.
pub mod Walk
pub mod Link
pub mod Object
pub mod Free
pub mod Sort
pub mod Shape
pub mod WalkLaws
pub mod Searching
pub mod LinkLaws
pub mod AddLaws
pub mod RemoveLaws
pub mod InsertLaws
pub mod Reversal
pub mod FreeLaws
pub mod ObjectLaws
pub mod SwapLaws
pub mod Passes
pub mod Inversions
pub mod SortLaws
use efi_wrapper.Prelude.{ℕ, ◌==◌, Option, none, some, if◌then◌else◌}

-- struct list; a null pointer is 0.
pub record Node : Type 0 where
  pub prev : ℕ
  pub next : ℕ
  pub payload : ℕ

abbrev pub node : ℕ → ℕ → ℕ → Node
node prev next payload = record { prev = prev; next = next; payload = payload }

abbrev pub Heap : Type 0
Heap = ℕ → Option Node

unfoldable pub put : Heap → ℕ → Option Node → Heap
put h p c a = if a == p then c else h a

pub data Run (A : Type 0) : Type 0 where
  done : A → Heap → Run A
  fault : Run A
  no_fuel : Run A

abbrev pub Cmd : Type 0 → Type 0
Cmd A = Heap → Run A

abbrev pub pure : {A : Type 0} → A → Cmd A
pure a h = done a h

abbrev pub out_of_fuel : {A : Type 0} → Cmd A
out_of_fuel h = no_fuel

module _ {A B : Type 0} where
  abbrev pub continue : Run A → (A → Cmd B) → Run B
  continue (done a h) k = k a h
  continue fault k = fault
  continue no_fuel k = no_fuel

  infixl 5 ◌>>=◌ ◌>>◌
  abbrev pub ◌>>=◌ : Cmd A → (A → Cmd B) → Cmd B
  ◌>>=◌ c k h = continue (c h) k

  abbrev pub ◌>>◌ : Cmd A → Cmd B → Cmd B
  ◌>>◌ c d h = continue (c h) (λ a. d)

abbrev pub loaded : Heap → Option Node → Run Node
loaded h none = fault
loaded h (some n) = done n h

-- The fields of a node.
unfoldable pub load : ℕ → Cmd Node
load p h = if p == 0 then fault else loaded h (h p)

-- A write to a whole node; `none` frees it.
unfoldable pub store : ℕ → Option Node → Cmd (Unit {0})
store p c h = done tt (put h p c)

unfoldable pub set_next : ℕ → ℕ → Cmd (Unit {0})
set_next p q = do n ← load p; store p (some (node n.prev q n.payload))

unfoldable pub set_prev : ℕ → ℕ → Cmd (Unit {0})
set_prev p q = do n ← load p; store p (some (node q n.next n.payload))

-- The errno that a function leaves behind; `other` is a plain -1.
pub data Error : Type 0 where
  inval : Error
  loop : Error
  noent : Error
  nomem : Error
  other : Error

-- What a function returns for an int: `none` is 0, `some e` is -e.
abbrev pub Code : Type 0
Code = Option Error

-- What it returns for a pointer to a node: NULL comes with its errno.
pub data Found : Type 0 where
  at : ℕ → Found
  null : Error → Found
