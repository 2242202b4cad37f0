-- ===== src/Operation/Proofs/Table.antt =====
-- The table of operations and its handlers.
use mercuryc.Base.{
  ℕ, Bytes, List, [], ◌∷◌, ◌++◌, Option, none, some, Bool, ◌≡◌, arith, refl, bytes_eq, bytes_eq→eq,
  eq→bytes_eq, if◌then◌else◌, append_assoc, append-nil, to_lower, ◌∙◌,
}
use mercuryc.Operation.{
  Operation, Class, Resources, Metadata, ok, check_hooks, new_operation, status_string, cancel,
}
use mercuryc.Operation.Registry.{
  Operations, lookup, update, expire, operation_create, api_delete, not_found, operation_url,
  delete_response, add_to, group_by_status, api_list_urls,
}

-- Other ids are looked up as before, whichever way a created operation goes; its own id leads to a
-- new pending operation when the checks of the hooks pass, and to what it led to before when they fail.
lookup-operation_create :
    (version id j : Bytes) (now : ℕ) (class : Class) (resources : Resources) (metadata : Metadata)
    (on_run on_cancel on_connect : Bool) (ops : Operations)
    → lookup j
        (operation_create version id now class resources
          (some metadata)
          on_run
          on_cancel
          on_connect
          ops).0
      ≡ (if bytes_eq id j
          then elim (check_hooks class on_run on_cancel on_connect) [
            | ok ↦ some (
                new_operation id
                  (operation_url version id)
                  now
                  class
                  resources
                  metadata
                  on_run
                  on_cancel
                  on_connect)
            | _ ↦ lookup j ops
          ]
          else lookup j ops)
unfolding lookup operation_create new_operation
lookup-operation_create version id j now class resources metadata on_run on_cancel on_connect ops =
    ground arith

lookup-update :
    (id j : Bytes) (new : Operation) (ops : Operations)
    → new.id ≡ id
    → lookup j (update id new ops) ≡ (
        if bytes_eq id j
        then elim (lookup id ops) [ none ↦ none | some _ ↦ some new ]
        else lookup j ops)
unfolding lookup update
lookup-update id j new [] e = ground arith
lookup-update id j new (op ∷ ops) e = ground (
  arith,
  lookup-update id j new ops e,
  bytes_eq→eq op.id id,
  bytes_eq→eq op.id j,
  bytes_eq→eq id j,
  eq→bytes_eq id j,
  eq→bytes_eq op.id j,
  eq→bytes_eq op.id id,
)

-- The timer of done removes an operation, and no other.
lookup-expire :
    (id j : Bytes) (ops : Operations)
    → lookup j (expire id ops) ≡ (if bytes_eq id j then none else lookup j ops)
unfolding lookup expire
lookup-expire id j [] = ground arith
lookup-expire id j (op ∷ ops) = ground (
  arith,
  lookup-expire id j ops,
  bytes_eq→eq op.id id,
  bytes_eq→eq op.id j,
  bytes_eq→eq id j,
  eq→bytes_eq id j,
  eq→bytes_eq op.id j,
  eq→bytes_eq op.id id,
)

cancel-id : (op : Operation) → (cancel op).0.id ≡ op.id
unfolding cancel
cancel-id op = ground arith

lookup-id : (id : Bytes) (op : Operation) (ops : Operations) → lookup id ops ≡ some op → op.id ≡ id
unfolding lookup
lookup-id id op [] h = cc
lookup-id id op (o ∷ ops) h = ground (arith, lookup-id id op ops, bytes_eq→eq o.id id)

-- A DELETE request cancels the operation with that id and leaves the others; its answer is the one
-- of Cancel, and for an unknown id "not found" with nothing changed.
pub api_delete_lem :
    (id j : Bytes) (ops : Operations)
    → (lookup j (api_delete id ops).0 ≡ (
        if bytes_eq id j
        then elim (lookup id ops) [ none ↦ none | some op ↦ some (cancel op).0 ]
        else lookup j ops))
      × ((api_delete id ops).1
          ≡ elim (lookup id ops) [ none ↦ not_found | some op ↦ delete_response (cancel op).1 ])
unfolding api_delete
api_delete_lem id j ops = by_lookup (lookup id ops) refl
  where
    by_lookup :
        (o : Option Operation)
        → lookup id ops ≡ o
        → (lookup j (api_delete id ops).0 ≡ (
            if bytes_eq id j
            then elim (lookup id ops) [ none ↦ none | some op ↦ some (cancel op).0 ]
            else lookup j ops))
          × ((api_delete id ops).1
              ≡ elim (lookup id ops) [ none ↦ not_found | some op ↦ delete_response (cancel op).1 ])
    by_lookup none e = (ground (arith, bytes_eq→eq id j), ground arith)
    by_lookup (some op) e = (
      ground (arith, lookup-update id j (cancel op).0 ops (cancel-id op ∙ lookup-id id op ops e)),
      ground arith,
    )

-- The list under a status.
abbrev pub under : {A : Type 0} → Bytes → List (Bytes × List A) → List A
under status [] = []
under status ((s, xs) ∷ md) = if bytes_eq s status then xs else under status md

-- What the operations with a status show, in the order of the table.
abbrev pub having : {A : Type 0} → (Operation → A) → Bytes → Operations → List A
having show status [] = []
having show status (op ∷ ops) =
    let rest = having show status ops in
    if bytes_eq (to_lower (status_string op.status)) status then show op ∷ rest else rest

under-add_to :
    {A : Type 0} (status s : Bytes) (a : A) (md : List (Bytes × List A))
    → under status (add_to s a md)
      ≡ (if bytes_eq s status then under status md ++ a ∷ [] else under status md)
unfolding add_to
under-add_to status s a [] = ground arith
under-add_to status s a ((x, xs) ∷ md) = ground (
  arith,
  under-add_to status s a md,
  bytes_eq→eq x s,
  bytes_eq→eq x status,
  bytes_eq→eq s status,
  eq→bytes_eq x s,
  eq→bytes_eq x status,
  eq→bytes_eq s status,
)

under-group_by_status :
    {A : Type 0} (show : Operation → A) (status : Bytes) (ops : Operations)
    (md : List (Bytes × List A))
    → under status (group_by_status show ops md) ≡ under status md ++ having show status ops
unfolding group_by_status
under-group_by_status show status [] md = ground (arith, append-nil (under status md))
under-group_by_status show status (op ∷ ops) md = ground (
  arith,
  under-group_by_status show status ops (add_to (to_lower (status_string op.status)) (show op) md),
  under-add_to status (to_lower (status_string op.status)) (show op) md,
  append_assoc (under status md) (show op ∷ []) (having show status ops),
)

-- The list of operations gives, under each status in lower case, the URLs of exactly the operations
-- that have it, in the order of the table.
api_list_urls_lem :
    (status : Bytes) (ops : Operations)
    → under status (api_list_urls ops) ≡ having (λ op. op.url) status ops
unfolding api_list_urls
api_list_urls_lem status ops = under-group_by_status (λ op. op.url) status ops []
