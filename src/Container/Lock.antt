-- ===== src/Container/Lock.antt =====
-- The operation lock of one container in apollo/container_mercury.go: mercuryContainerOperation,
-- createOperation and getOperation. Goroutines share the table of running operations, and createOperation
-- takes its lock twice, so it is cut in two steps between which others can come.
use mercuryc.Base.{
  ℕ, zero, suc, Bytes, List, [], ◌∷◌, ◌++◌, Option, none, some, Bool, true, false, ◌&&◌, ◌||◌, ◌==◌,
  if◌then◌else◌, length, get_elem?,
}

-- mercuryContainerOperation; `done` is whether chanDone is closed.
pub record LockOp : Type 0 where
  pub action : Bytes
  pub reusable : Bool
  pub done : Bool
  pub err : Option Bytes

-- Where a goroutine stands in createOperation: it has found no running operation, it has returned with
-- one, or it has returned an error.
pub data Place : Type 0 where
  outside free busy : Place
  holds : ℕ → Place

-- The entry of mercuryContainerOperations for the container, the operations that were ever made, by their
-- place in the list, the goroutines, and whether a closed channel was closed.
pub record Lock : Type 0 where
  pub running : Option ℕ
  pub ops : List LockOp
  pub places : ℕ → Place
  pub panicked : Bool

abbrev pub unlocked : Lock
unlocked = record { running = none; ops = []; places = λ t. outside; panicked = false }

abbrev pub move : ℕ → Place → (ℕ → Place) → ℕ → Place
move t p places u = if t == u then p else places u

-- What a goroutine does next. `look` and `insert` are the two locked parts of createOperation; `finish` is
-- Done, which the time-out of 30 seconds calls too.
pub data Event : Type 0 where
  look : ℕ → Bool → Event
  insert : ℕ → Bytes → Bool → Event
  finish : ℕ → Option Bytes → Event

-- The call of getOperation in createOperation, and what follows if there is an operation.
unfoldable pub look_up : ℕ → Bool → Lock → Lock
look_up t reuse l = elim l.running [
  | none ↦ record l { places = move t free l.places }
  | some n ↦ elim (get_elem? l.ops n) [
    | none ↦ record l { places = move t busy l.places }
    | some op ↦ record l {
      places = move t (if reuse && op.reusable then holds n else busy) l.places;
    }
  ]
]

-- Create
abbrev pub new_op : Bytes → Bool → LockOp
new_op action reusable = record { action = action; reusable = reusable; done = false; err = none }

-- The rest of createOperation, for a goroutine that found no running operation.
unfoldable pub create : ℕ → Bytes → Bool → Lock → Lock
create t action reusable l = elim (l.places t) [
  | free ↦ record l {
    running = some (length l.ops);
    ops = l.ops ++ new_op action reusable ∷ [];
    places = move t (holds (length l.ops)) l.places;
  }
  | outside ↦ l
  | busy ↦ l
  | holds n ↦ l
]

-- Setting the error and closing the channel.
unfoldable pub close_at : ℕ → Option Bytes → List LockOp → List LockOp
close_at n e [] = []
close_at zero e (op ∷ ops) = record op { done = true; err = e } ∷ ops
close_at (suc n) e (op ∷ ops) = op ∷ close_at n e ops

abbrev pub is_done_at : ℕ → List LockOp → Bool
is_done_at n ops = elim (get_elem? ops n) [ none ↦ false | some op ↦ op.done ]

abbrev pub is_running : ℕ → Lock → Bool
is_running n l = elim l.running [ none ↦ false | some m ↦ m == n ]

-- Done
unfoldable pub done_op : ℕ → Option Bytes → Lock → Lock
unfolding close_at
done_op n e l =
    if is_running n l
    then record l {
      running = none;
      ops = close_at n e l.ops;
      panicked = l.panicked || is_done_at n l.ops;
    }
    else l

unfoldable pub step : Event → Lock → Lock
unfolding look_up create done_op
step (look t reuse) l = look_up t reuse l
step (insert t action reusable) l = create t action reusable l
step (finish n e) l = done_op n e l

unfoldable pub steps : List Event → Lock → Lock
unfolding step
steps [] l = l
steps (e ∷ es) l = steps es (step e l)

-- Calls that are not interrupted.
pub data Call : Type 0 where
  create_operation : ℕ → Bytes → Bool → Bool → Call
  done_call : ℕ → Option Bytes → Call

unfoldable pub call : Call → Lock → Lock
unfolding look_up create done_op
call (create_operation t action reusable reuse) l = create t action reusable (look_up t reuse l)
call (done_call n e) l = done_op n e l

unfoldable pub calls : List Call → Lock → Lock
unfolding call
calls [] l = l
calls (c ∷ cs) l = calls cs (call c l)
