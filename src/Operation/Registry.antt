-- ===== src/Operation/Registry.antt =====
-- The table of operations of apollo/operations.go and the handlers of its API. The table is the list
-- of its operations, the newest first; an operation stands in it once.
use mercuryc.Base.{
  ℕ, Bytes, List, [], ◌∷◌, ◌++◌, Option, none, some, Bool, if◌then◌else◌, codes, bytes_eq, map,
  to_lower,
}
use mercuryc.Base.Word.{Int64, minus_one}
use mercuryc.Strconv.{atoi}
use mercuryc.Operation.{
  Operation, Class, class_string, status_code, status_string, Resources, Metadata, Error,
  bad_metadata, Reply, ok, err, panic, check_hooks, new_operation, may_cancel, cancel, wait_final,
}

abbrev pub Operations : Type 0
Operations = List Operation

unfoldable pub lookup : Bytes → Operations → Option Operation
lookup id [] = none
lookup id (op ∷ ops) = if bytes_eq op.id id then some op else lookup id ops

-- A change of the operation with an id, which every holder of the pointer sees.
unfoldable pub update : Bytes → Operation → Operations → Operations
update id new [] = []
update id new (op ∷ ops) = if bytes_eq op.id id then new ∷ ops else op ∷ update id new ops

-- The timer of done: delete(operations, op.id).
unfoldable pub expire : Bytes → Operations → Operations
expire id [] = []
expire id (op ∷ ops) = let rest = expire id ops in if bytes_eq op.id id then rest else op ∷ rest

-- version.APIVersion is a parameter.
unfoldable pub operation_url : Bytes → Bytes → Bytes
operation_url version id = (b'/' ∷ version) ++ (codes "/operations/" ++ id)

-- operationCreate; the id is a fresh uuid, and ParseMetadata's result is a parameter.
unfoldable pub operation_create :
    Bytes
    → Bytes
    → ℕ
    → Class
    → Resources
    → Option Metadata
    → Bool
    → Bool
    → Bool
    → Operations
    → Operations × Reply
unfolding check_hooks new_operation operation_url
operation_create version id now class resources none on_run on_cancel on_connect ops =
    (ops, err bad_metadata)
operation_create version id now class resources (some metadata) on_run on_cancel on_connect ops =
    elim (check_hooks class on_run on_cancel on_connect) [
      | ok ↦ (
        new_operation id (operation_url version id) now class resources metadata on_run on_cancel
              on_connect
            ∷ ops,
        ok,
      )
      | err e ↦ (ops, err e)
      | panic ↦ (ops, panic)
    ]

-- api.Operation
pub record ApiOperation : Type 0 where
  pub id : Bytes
  pub class : Bytes
  pub created_at : ℕ
  pub updated_at : ℕ
  pub status : Bytes
  pub status_code : ℕ
  pub resources : Resources
  pub metadata : Metadata
  pub may_cancel : Bool
  pub err : Bytes

-- fmt.Sprintf("/%s/%s/%s", version.APIVersion, key, c)
unfoldable pub resource_url : Bytes → Bytes → Bytes → Bytes
resource_url version key c = (b'/' ∷ version) ++ ((b'/' ∷ key) ++ (b'/' ∷ c))

unfoldable pub render_resources : Bytes → Resources → Resources
unfolding resource_url
render_resources version = map (λ entry. (entry.0, map (resource_url version entry.0) entry.1))

-- operation.Render
unfoldable pub render : Bytes → Operation → ApiOperation
unfolding render_resources may_cancel status_code status_string class_string
render version op = record {
  id = op.id;
  class = class_string op.class;
  created_at = op.created_at;
  updated_at = op.updated_at;
  status = status_string op.status;
  status_code = status_code op.status;
  resources = render_resources version op.resources;
  metadata = op.metadata;
  may_cancel = may_cancel op;
  err = op.err;
}

pub data Response : Type 0 where
  not_found empty_sync internal_error : Response
  sync : ApiOperation → Response
  bad_request : Error → Response

-- operationAPIGet
unfoldable pub api_get : Bytes → Bytes → Operations → Response
unfolding lookup render
api_get version id ops = elim (lookup id ops) [
  | none ↦ not_found
  | some op ↦ sync (render version op)
]

abbrev pub delete_response : Reply → Response
delete_response (err e) = bad_request e
delete_response _ = empty_sync

-- operationAPIDelete, with the caller's part of Cancel.
unfoldable pub api_delete : Bytes → Operations → Operations × Response
api_delete id ops = elim (lookup id ops) [
  | none ↦ (ops, not_found)
  | some op ↦ let (op', reply) = cancel op in (update id op' ops, delete_response reply)
]

-- shared.AtoiEmptyDefault
unfoldable pub atoi_empty_default : Bytes → Int64 → Option Int64
atoi_empty_default [] default = some default
atoi_empty_default (c ∷ s) default = atoi (c ∷ s)

-- operationAPIWaitGet, up to where it blocks: `none` waits for the operation's channel.
unfoldable pub api_wait : Bytes → Bytes → Bytes → Operations → Option Response
unfolding lookup render wait_final atoi_empty_default
api_wait version timeout id ops = elim (atoi_empty_default timeout minus_one) [
  | none ↦ some internal_error
  | some t ↦ elim (lookup id ops) [
    | none ↦ some not_found
    | some op ↦ elim (wait_final t op) [ none ↦ none | some _ ↦ some (sync (render version op)) ]
  ]
]

-- The map of operationsAPIGet from a status, in lower case, to the operations that have it.
unfoldable pub add_to : {A : Type 0} → Bytes → A → List (Bytes × List A) → List (Bytes × List A)
add_to status a [] = (status, a ∷ []) ∷ []
add_to status a ((s, xs) ∷ md) =
    if bytes_eq s status then (s, xs ++ a ∷ []) ∷ md else (s, xs) ∷ add_to status a md

unfoldable pub group_by_status :
    {A : Type 0} → (Operation → A) → Operations → List (Bytes × List A) → List (Bytes × List A)
unfolding add_to to_lower status_string
group_by_status show [] md = md
group_by_status show (op ∷ ops) md =
    group_by_status show ops (add_to (to_lower (status_string op.status)) (show op) md)

-- operationsAPIGet without and with recursion.
unfoldable pub api_list_urls : Operations → List (Bytes × List Bytes)
unfolding group_by_status
api_list_urls ops = group_by_status (λ op. op.url) ops []

unfoldable pub api_list : Bytes → Operations → List (Bytes × List ApiOperation)
unfolding group_by_status render
api_list version ops = group_by_status (render version) ops []
