-- ===== src/Message.antt =====
-- message/message.go, with the link actions of graphsync.go: requests, responses and messages.
-- Request ids, cids, extension names, selectors and the data of extensions are numbers that stand
-- for values which this code only passes on or compares. A nil map is an empty one.
pub mod Extensions
pub mod Builder
pub mod Scrub
pub mod Responses
mod Tests
use go_graphsync.Base.{
  ℕ, Bool, true, false, ◌&&◌, List, [], ◌∷◌, map, Option, none, some, ◌==◌, if◌then◌else◌, length,
  Map, get?, insert, has,
}

-- graphsync.LinkAction.
pub data LinkAction : Type 0 where
  present duplicate_not_sent missing duplicate_dag_skipped : LinkAction

unfoldable pub did_follow_link : LinkAction → Bool
did_follow_link present = true
did_follow_link duplicate_not_sent = true
did_follow_link _ = false

abbrev pub is_present : LinkAction → Bool
is_present present = true
is_present _ = false

pub data RequestType : Type 0 where
  new cancel update : RequestType

pub record Extension : Type 0 where
  pub name : ℕ
  pub node : ℕ

pub record Metadatum : Type 0 where
  pub link : ℕ
  pub action : LinkAction

-- A block of github.com/ipfs/go-block-format.
pub record Block : Type 0 where
  pub cid : ℕ
  pub raw : List ℕ

pub record Request : Type 0 where
  pub id : ℕ
  pub root : Option ℕ
  pub selector : Option ℕ
  pub priority : ℕ
  pub kind : RequestType
  pub extensions : Map ℕ

pub record Response : Type 0 where
  pub request_id : ℕ
  pub status : ℕ
  pub metadata : List Metadatum
  pub extensions : Map ℕ

pub record Message : Type 0 where
  pub requests : Map Request
  pub responses : Map Response
  pub blocks : Map Block

unfoldable pub add_extensions : List Extension → Map ℕ → Map ℕ
add_extensions [] m = m
add_extensions (e ∷ es) m = add_extensions es (insert e.name e.node m)

unfoldable pub to_extensions_map : List Extension → Map ℕ
unfolding add_extensions
to_extensions_map es = add_extensions es []

unfoldable pub new_request : ℕ → ℕ → ℕ → ℕ → List Extension → Request
unfolding to_extensions_map
new_request id root selector priority es = record {
  id = id;
  root = some root;
  selector = some selector;
  priority = priority;
  kind = new;
  extensions = to_extensions_map es;
}

unfoldable pub new_cancel_request : ℕ → Request
new_cancel_request id = record {
  id = id;
  root = none;
  selector = none;
  priority = 0;
  kind = cancel;
  extensions = [];
}

unfoldable pub new_update_request : ℕ → List Extension → Request
unfolding to_extensions_map
new_update_request id es = record {
  id = id;
  root = none;
  selector = none;
  priority = 0;
  kind = update;
  extensions = to_extensions_map es;
}

unfoldable pub new_response : ℕ → ℕ → List Metadatum → List Extension → Response
unfolding to_extensions_map
new_response id status md es = record {
  request_id = id;
  status = status;
  metadata = md;
  extensions = to_extensions_map es;
}

unfoldable pub is_empty : Message → Bool
is_empty m = length m.blocks == 0 && length m.requests == 0 && length m.responses == 0

unfoldable pub response_codes : Message → Map ℕ
response_codes m = map (λ e. (e.0, e.1.status)) m.responses

pub data Result (E A : Type 0) : Type 0 where
  ok : A → Result E A
  err : E → Result E A

-- The first loop of MergeExtensions, over the new extensions.
unfoldable pub combine :
    {E : Type 0} → (ℕ → ℕ → ℕ → Result E ℕ) → Map ℕ → Map ℕ → Map ℕ → Result E (Map ℕ)
combine merge [] old acc = ok acc
combine merge ((n, d) ∷ more) old acc = elim (get? n old) [
  | none ↦ combine merge more old (insert n d acc)
  | some o ↦ elim (merge n o d) [ err e ↦ err e | ok r ↦ combine merge more old (insert n r acc) ]
]

-- The second loop, over the old ones.
unfoldable pub fill : Map ℕ → Map ℕ → Map ℕ
unfolding has
fill [] acc = acc
fill ((n, d) ∷ old) acc = fill old (if has n acc then acc else insert n d acc)

unfoldable pub merge_extensions :
    {E : Type 0} → (ℕ → ℕ → ℕ → Result E ℕ) → List Extension → Request → Result E Request
unfolding combine fill to_extensions_map
merge_extensions merge es r = elim (combine merge (to_extensions_map es) r.extensions []) [
  | err e ↦ err e
  | ok m ↦ ok (record r { extensions = fill r.extensions m })
]

-- ReplaceExtensions passes a function that never fails, and drops the error.
unfoldable pub replace_extensions : List Extension → Request → Request
unfolding merge_extensions
replace_extensions es r = elim (merge_extensions {E = ⊥} (λ n o d. ok d) es r) [
  | ok s ↦ s
  | err e ↦ r
]
