-- ===== src/Container/Proofs/Lock.antt =====
-- What the operation lock of a container ensures, and what it does not.
use mercuryc.Base.{
  ℕ, zero, suc, ◌<◌, Bytes, List, [], ◌∷◌, ◌++◌, Option, none, some, Bool, true, false, ◌&&◌, ◌||◌,
  ◌==◌, ◌≡◌, ◌⊎◌, inl, inr, arith, refl, length, length-append, ltb,
}
use mercuryc.Container.Lock.{
  LockOp, new_op, free, holds, Lock, unlocked, move, Event, look, insert, finish, look_up, create,
  close_at, is_done_at, is_running, done_op, step, steps, Call, create_operation, done_call, call,
  calls,
}

-- Closing one operation's channel.
is_done_at-close_at :
    (n m : ℕ) (e : Option Bytes) (ops : List LockOp)
    → is_done_at m (close_at n e ops) ≡ is_done_at m ops || (n == m && ltb n (length ops))
unfolding close_at
is_done_at-close_at n m e [] = ground arith
is_done_at-close_at zero zero e (op ∷ ops) = ground arith
is_done_at-close_at zero (suc m) e (op ∷ ops) = ground arith
is_done_at-close_at (suc n) zero e (op ∷ ops) = ground arith
is_done_at-close_at (suc n) (suc m) e (op ∷ ops) = ground (arith, is_done_at-close_at n m e ops)

length-close_at :
    (n : ℕ) (e : Option Bytes) (ops : List LockOp) → length (close_at n e ops) ≡ length ops
unfolding close_at
length-close_at n e [] = refl
length-close_at zero e (op ∷ ops) = refl
length-close_at (suc n) e (op ∷ ops) = ground (arith, length-close_at n e ops)

-- A new operation is not done.
is_done_at-append :
    (m : ℕ) (op : LockOp) (ops : List LockOp)
    → op.done ≡ false
    → is_done_at m (ops ++ op ∷ []) ≡ is_done_at m ops
is_done_at-append zero op [] h = ground arith
is_done_at-append (suc m) op [] h = ground arith
is_done_at-append zero op (p ∷ ops) h = ground arith
is_done_at-append (suc m) op (p ∷ ops) h = ground (arith, is_done_at-append m op ops h)

-- The running operation exists and is not done, and no closed channel was closed.
abbrev pub IsSound : Lock → Type 0
IsSound l =
    (l.panicked ≡ false)
    × ((n : ℕ) → is_running n l ≡ true → (n < length l.ops) × (is_done_at n l.ops ≡ false))

-- An operation that is not there, is not done.
beyond : (n : ℕ) (ops : List LockOp) → ltb n (length ops) ≡ false → is_done_at n ops ≡ false
beyond n [] h = ground arith
beyond zero (op ∷ ops) h = ground arith
beyond (suc n) (op ∷ ops) h = ground (arith, beyond n ops)

look_up-IsSound : (t : ℕ) (reuse : Bool) (l : Lock) → IsSound l → IsSound (look_up t reuse l)
unfolding look_up
look_up-IsSound t reuse l (p, h) = (ground arith, λ n r. ground (arith, h n))

create-IsSound :
    (t : ℕ) (action : Bytes) (reusable : Bool) (l : Lock)
    → IsSound l
    → IsSound (create t action reusable l)
unfolding create
create-IsSound t action reusable l (p, h) =
    let op = new_op action reusable in
    (
      ground arith,
      λ n r.
          ground (
            arith,
            h n,
            is_done_at-append n op l.ops,
            length-append l.ops (op ∷ []),
            beyond n l.ops,
          ),
    )

done_op-IsSound : (n : ℕ) (e : Option Bytes) (l : Lock) → IsSound l → IsSound (done_op n e l)
unfolding done_op
done_op-IsSound n e l (p, h) = (ground (arith, h n), λ m r. ground (arith, h m))

step-IsSound : (e : Event) (l : Lock) → IsSound l → IsSound (step e l)
unfolding step
step-IsSound (look t reuse) l h = look_up-IsSound t reuse l h
step-IsSound (insert t action reusable) l h = create-IsSound t action reusable l h
step-IsSound (finish n e) l h = done_op-IsSound n e l h

steps-IsSound_from : (es : List Event) (l : Lock) → IsSound l → IsSound (steps es l)
unfolding steps
steps-IsSound_from [] l h = h
steps-IsSound_from (e ∷ es) l h = steps-IsSound_from es (step e l) (step-IsSound e l h)

-- However the goroutines' steps are interleaved, no channel is closed twice, which would end the daemon, and
-- the operation that the table names exists and is not done.
pub steps-IsSound : (es : List Event) → IsSound (steps es unlocked)
steps-IsSound es = steps-IsSound_from es unlocked (refl, λ n r. ground arith)

-- An operation that the table does not name and that is not done.
abbrev pub IsLost : ℕ → Lock → Type 0
IsLost m l = (m < length l.ops) × (is_running m l ≡ false) × (is_done_at m l.ops ≡ false)

step-IsLost : (e : Event) (m : ℕ) (l : Lock) → IsLost m l → IsLost m (step e l)
unfolding step look_up create done_op
step-IsLost (look t reuse) m l (b, r, d) = (ground arith, ground arith, ground arith)
step-IsLost (insert t action reusable) m l (b, r, d) = (
  ground (arith, length-append l.ops (new_op action reusable ∷ [])),
  ground arith,
  ground (arith, is_done_at-append m (new_op action reusable) l.ops),
)
step-IsLost (finish n e) m l (b, r, d) = (
  ground (arith, length-close_at n e l.ops),
  ground arith,
  ground (arith, is_done_at-close_at n m e l.ops),
)

steps-IsLost : (es : List Event) (m : ℕ) (l : Lock) → IsLost m l → IsLost m (steps es l)
unfolding steps
steps-IsLost [] m l h = h
steps-IsLost (e ∷ es) m l h = steps-IsLost es m (step e l) (step-IsLost e m l h)

-- Two goroutines that both look before either inserts.
abbrev pub race : ℕ → ℕ → Bytes → Bytes → List Event
race t u a b = look t false ∷ look u false ∷ insert t a false ∷ insert u b false ∷ []

-- Looking finds the container free, and inserting then takes it.
look_free :
    (t : ℕ) (l : Lock)
    → l.running ≡ none
    → look_up t false l ≡ record l { places = move t free l.places }
unfolding look_up
look_free t l r = ground arith

create_free :
    (t : ℕ) (a : Bytes) (l : Lock)
    → l.places t ≡ free
    → create t a false l ≡ record l {
      running = some (length l.ops);
      ops = l.ops ++ new_op a false ∷ [];
      places = move t (holds (length l.ops)) l.places;
    }
unfolding create
create_free t a l r = ground arith

race-IsLost :
    (t u : ℕ) (a b : Bytes) (l : Lock)
    → t == u ≡ false
    → l.running ≡ none
    → IsLost (length l.ops) (steps (race t u a b) l)
      × ((steps (race t u a b) l).places t ≡ holds (length l.ops))
      × ((steps (race t u a b) l).places u ≡ holds (suc (length l.ops)))
unfolding steps step
race-IsLost t u a b l n r =
    let l1 = record l { places = move t free l.places } in
    let l2 = record l1 { places = move u free l1.places } in
    let e1 = look_free t l r in
    let e2 = look_free u l1 r in
    let e3 = create_free t a l2 (ground arith) in
    let l3 = record l2 {
      running = some (length l.ops);
      ops = l.ops ++ new_op a false ∷ [];
      places = move t (holds (length l.ops)) l2.places;
    } in
    let e4 = create_free u b l3 (ground arith) in
    let len = length-append l.ops (new_op a false ∷ []) in
    let len' = length-append l3.ops (new_op b false ∷ []) in
    let old = is_done_at-append (length l.ops) (new_op b false) l3.ops refl in
    let older = is_done_at-append (length l.ops) (new_op a false) l.ops refl in
    let none_there = beyond (length l.ops) l.ops (ground arith) in
    rw (e1, e2, e3, e4) ((omega arith, ground arith, ground arith), ground arith, ground arith)

-- When no operation is running and two goroutines both look before either takes the container, both get an
-- operation, and the first one's is never done, whatever is done later, its time-out included: who waits for
-- it waits for ever.
pub create_race :
    (t u : ℕ) (a b : Bytes) (l : Lock) (later : List Event)
    → t == u ≡ false
    → l.running ≡ none
    → ((steps (race t u a b) l).places t ≡ holds (length l.ops))
      × ((steps (race t u a b) l).places u ≡ holds (suc (length l.ops)))
      × (is_done_at (length l.ops) (steps later (steps (race t u a b) l)).ops ≡ false)
create_race t u a b l later n r =
    let (lost, p, q) = race-IsLost t u a b l n r in
    let (x, y, z) = steps-IsLost later (length l.ops) (steps (race t u a b) l) lost in (p, q, z)

-- Every operation but the running one is done.
abbrev pub IsSole : Lock → Type 0
IsSole l = (m : ℕ) → m < length l.ops → is_running m l ≡ false → is_done_at m l.ops ≡ true

-- A whole call of createOperation takes a free container, and leaves a busy one.
abbrev Takes : Bytes → Bool → Lock → Lock → Type 0
Takes action reusable l l' =
    ((l.running ≡ none)
      × (l'.running ≡ some (length l.ops))
      × (l'.ops ≡ l.ops ++ new_op action reusable ∷ []))
    ⊎ ((l'.running ≡ l.running) × (l'.ops ≡ l.ops))

create_cases :
    (t : ℕ) (action : Bytes) (reusable reuse : Bool) (l : Lock) (r : Option ℕ)
    → l.running ≡ r
    → Takes action reusable l (create t action reusable (look_up t reuse l))
unfolding create look_up
create_cases t action reusable reuse l none e = inl (e, ground arith, ground arith)
create_cases t action reusable reuse l (some n) e = inr (ground arith, ground arith)

call-IsSole : (c : Call) (l : Lock) → IsSole l → IsSole (call c l)
unfolding call done_op
call-IsSole (create_operation t action reusable reuse) l h m b r =
    elim (create_cases t action reusable reuse l l.running refl) [
      | inl (e, f, g) ↦ ground (
        arith,
        h m,
        is_done_at-append m (new_op action reusable) l.ops,
        length-append l.ops (new_op action reusable ∷ []),
      )
      | inr (f, g) ↦ ground (arith, h m)
    ]
call-IsSole (done_call n e) l h m b r =
    ground (arith, h m, is_done_at-close_at n m e l.ops, length-close_at n e l.ops)

calls-IsSole : (cs : List Call) (l : Lock) → IsSole l → IsSole (calls cs l)
unfolding calls
calls-IsSole [] l h = h
calls-IsSole (c ∷ cs) l h = calls-IsSole cs (call c l) (call-IsSole c l h)

-- When no two calls of createOperation and Done overlap, every operation that was ever made is done, except the
-- running one.
pub calls_sole :
    (cs : List Call) (m : ℕ)
    → m < length (calls cs unlocked).ops
    → is_running m (calls cs unlocked) ≡ false
    → is_done_at m (calls cs unlocked).ops ≡ true
calls_sole cs m b r = calls-IsSole cs unlocked (λ k c d. ground arith) m b r
