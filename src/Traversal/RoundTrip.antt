-- ===== src/Traversal/RoundTrip.antt =====
-- A recorded traversal and its own verifier (requestmanager/reconciledloader/traversalrecord/
-- traversalrecord.go): the links of the record, in the order in which they were recorded along the
-- tree, are what the verifier accepts.
use go_graphsync.Base.{
  ℕ, ◌≡◌, refl, sym, ◌∙◌, ap, Bool, true, false, not, ◌&&◌, List, [], ◌∷◌, ◌++◌, none, some,
  if◌then◌else◌, ==_refl,
}
use go_graphsync.Traversal.{
  Record, node, Children, empty, child, new_record, new_verifier, record_next_step,
}
use go_graphsync.Traversal.Shape.{Good, Good-children, record_next_step-Good}
use go_graphsync.Traversal.Matching.{
  Event, accepts, bind, match_node, match_children, is_finished, new_verifier-accepts,
}

-- The links below a node in order; those below a link that was not loaded are left out.
abbrev mutual
  pub trace : Record → List Event
  trace (node none s cs) = trace_in cs
  trace (node (some l) s cs) = (l, s) ∷ (if s then trace_in cs else [])

  pub trace_in : Children → List Event
  trace_in empty = []
  trace_in (child k r cs) = trace r ++ trace_in cs

pub data Step : Type 0 where
  step : List ℕ → ℕ → Bool → Step

abbrev pub record_steps : List Step → Record → Record
record_steps [] r = r
record_steps (step p link s ∷ steps) r = record_steps steps (record_next_step p link s r)

append_assoc : (xs ys zs : List Event) → (xs ++ ys) ++ zs ≡ xs ++ (ys ++ zs)
append_assoc [] ys zs = refl
append_assoc (x ∷ xs) ys zs = ap (λ w. x ∷ w) (append_assoc xs ys zs)

same_links : (b : Bool) → (b && not b) ≡ false
same_links true = refl
same_links false = refl

mutual
  match_node-trace : (r : Record) (es : List Event) → match_node r (trace r ++ es) ≡ some es
  match_node-trace (node none s cs) es = match_children-trace_in cs es
  match_node-trace (node (some l) true cs) es = rw (==_refl l) (match_children-trace_in cs es)
  match_node-trace (node (some l) false cs) es = rw (==_refl l) refl

  match_children-trace_in :
      (cs : Children) (es : List Event) → match_children cs (trace_in cs ++ es) ≡ some es
  match_children-trace_in empty es = refl
  match_children-trace_in (child k r cs) es =
      ap (λ z. bind (match_node r z) (match_children cs)) (append_assoc (trace r) (trace_in cs) es)
      ∙ ap (λ o. bind o (match_children cs)) (match_node-trace r (trace_in cs ++ es))
      ∙ match_children-trace_in cs es

append_nil : (es : List Event) → es ++ [] ≡ es
append_nil [] = refl
append_nil (e ∷ es) = ap (λ w. e ∷ w) (append_nil es)

record_steps-Good : (steps : List Step) (r : Record) → Good r → Good (record_steps steps r)
record_steps-Good [] r v = v
record_steps-Good (step p link s ∷ steps) r v =
    record_steps-Good steps (record_next_step p link s r)
      (record_next_step-Good r p link s (Good-children r v))

-- What a traversal of one step or more has recorded is accepted by the verifier that is made from the
-- record, when the links come in the order of the tree and those below a link that was not loaded
-- are left out.
pub new_verifier-trace :
    (s : Step) (steps : List Step)
    → (let root = record_steps (s ∷ steps) new_record in accepts (trace root) (new_verifier root))
      ≡ true
new_verifier-trace (step p link s) steps =
    let root = record_steps (step p link s ∷ steps) new_record in
    let v =
      record_steps-Good steps (record_next_step p link s new_record)
        (record_next_step-Good new_record p link s (unfold new_record in tt)) in
    new_verifier-accepts root (trace root) v
    ∙ ap is_finished
        (ap (match_node root) (sym (append_nil (trace root))) ∙ match_node-trace root [])
